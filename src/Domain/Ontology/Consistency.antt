-- ===== src/Domain/Ontology/Consistency.antt =====
-- `Validate` of unica/pkg/domain/ontology.go, the check of an ontology when it is loaded. The first
-- error in the order of the source is returned; what it names is left to its message.
pub mod Checked
use lurus_unica.Common.{
  ℕ, suc, zero, Bool, true, false, not, ◌&&◌, ◌||◌, Option, none, some, List, [], ◌∷◌, length, ltb,
  ◌==◌, if◌then◌else◌, ℤ, pos, ltb_ℤ,
}
use lurus_unica.Common.Floats.{Floats}
use lurus_unica.Common.Text.{Text, codes, trim_space, is_empty, text_eq}
use lurus_unica.Common.Search.{any, is_some}
use lurus_unica.Domain.Ontology.Types.{
  class_dimension, OntologyClass, Dimension, Property, Assertion, Denial, Ontology, Scope, lookup,
  keys, assign, property_of, effective_scope, contains_fold, canonical_label,
}
use lurus_unica.Domain.Ontology.Hierarchy.{applies_to, check_no_cycle}
use lurus_unica.Domain.Ontology.Values.{ValueError, check_value, range_enum}

pub data OntologyError : Type 0 where
  no_product_line no_properties unknown_parent class_cycle : OntologyError
  small_disjoint_group unknown_disjoint_class : OntologyError
  reserved_dimension empty_dimension repeated_value undeclared_label : OntologyError
  unknown_domain enum_without_list functional_with_many undeclared_property_label : OntologyError
  requires_itself requires_undeclared : OntologyError
  unknown_class undeclared_dimension undeclared_value : OntologyError
  undeclared_property inapplicable_property functional_count too_few_values : OntologyError
  bad_value : ValueError → OntologyError
  empty_denial : OntologyError

-- A loop that returns at the first error, and one check after another.
module _ {ℓ} {A : Type ℓ} where
  unfoldable pub first_error : (A → Option OntologyError) → List A → Option OntologyError
  first_error check [] = none
  first_error check (x ∷ xs) =
      let rest = first_error check xs in elim (check x) [ none ↦ rest | some e ↦ some e ]

unfoldable pub then_check : Option OntologyError → Option OntologyError → Option OntologyError
then_check none next = next
then_check (some e) next = some e

abbrev pub error_if : Bool → OntologyError → Option OntologyError
error_if b e = if b then some e else none

abbrev pub labelled : (ℕ → ℕ) → List Text → List (Text × Text) → Bool
labelled fold values labels = any (λ id. not (contains_fold fold values id)) (keys labels)

module _ (fl : Floats) (fold : ℕ → ℕ) (parse_float : Text → Option fl.Float)
    (o : Ontology fl.Float) where
  open fl use {Float}

  unfoldable pub validate_class : Text × OntologyClass → Option OntologyError
  unfolding lookup check_no_cycle is_empty is_some
  validate_class (name, c) =
      if is_empty c.subclass_of
      then none
      else if not (is_some (lookup c.subclass_of o.classes))
      then some unknown_parent
      else error_if (check_no_cycle o name) class_cycle

  unfoldable pub validate_group : List Text → Option OntologyError
  unfolding any lookup is_some
  validate_group group =
      if ltb (length group) 2
      then some small_disjoint_group
      else error_if (any (λ name. not (is_some (lookup name o.classes))) group)
          unknown_disjoint_class

  unfoldable pub validate_classes : Option OntologyError
  unfolding validate_class validate_group first_error then_check
  validate_classes =
      then_check (first_error validate_class o.classes) (first_error validate_group o.disjoint)

  -- The values of a dimension, with the names that are taken; the taken names, or none on a repetition.
  unfoldable pub take_values : List Text → List Text → Option (List Text)
  unfolding any text_eq
  take_values owner [] = some owner
  take_values owner (v ∷ vs) = elim (any (text_eq v) owner) [
    | true ↦ none
    | false ↦ take_values (v ∷ owner) vs
  ]

  unfoldable pub validate_dimensions_from :
      List Text → List (Text × Dimension) → Option OntologyError
  unfolding take_values any contains_fold
  validate_dimensions_from owner [] = none
  validate_dimensions_from owner ((name, d) ∷ ds) =
      if length d.values == 0 then some empty_dimension else elim (take_values owner d.values) [
        | none ↦ some repeated_value
        | some owner' ↦ elim (labelled fold d.values d.labels) [
          | true ↦ some undeclared_label
          | false ↦ validate_dimensions_from owner' ds
        ]
      ]

  unfoldable pub validate_dimensions : Option OntologyError
  unfolding lookup validate_dimensions_from keys is_some
  validate_dimensions =
      if is_some (lookup class_dimension o.dimensions)
      then some reserved_dimension
      else validate_dimensions_from (keys o.classes) o.dimensions

  unfoldable pub validate_required : Text → Text → Option OntologyError
  unfolding text_eq lookup is_some
  validate_required name required =
      if text_eq required name
      then some requires_itself
      else error_if (not (is_some (lookup required o.properties))) requires_undeclared

  unfoldable pub validate_property : Text × Property Float → Option OntologyError
  unfolding is_empty lookup is_some text_eq any contains_fold validate_required first_error
  validate_property (name, p) =
      if not (is_empty p.domain) && not (is_some (lookup p.domain o.classes))
      then some unknown_domain
      else if text_eq p.range.type range_enum && length p.range.values == 0
      then some enum_without_list
      else if p.functional && ltb_ℤ (pos 1) p.min_cardinality
      then some functional_with_many
      else if labelled fold p.range.values p.range.labels
      then some undeclared_property_label
      else first_error (validate_required name) p.requires

  unfoldable pub validate_scope : Text × Text → Option OntologyError
  unfolding text_eq lookup is_some contains_fold canonical_label
  validate_scope (dim, value) =
      if text_eq dim class_dimension
      then error_if (not (is_some (lookup value o.classes))) unknown_class
      else elim (lookup dim o.dimensions) [
        | none ↦ some undeclared_dimension
        | some d ↦
            error_if (not (contains_fold fold d.values (canonical_label fold d.labels value)))
              undeclared_value
      ]

  unfoldable pub validate_value : Property Float → Text → Option OntologyError
  validate_value p v = elim (check_value fl fold parse_float p v) [
    | none ↦ none
    | some e ↦ some (bad_value e)
  ]

  abbrev pub scope_class : Scope → Text
  scope_class s = elim (lookup class_dimension s) [ none ↦ [] | some c ↦ c ]

  unfoldable pub validate_values : Scope → Text × List Text → Option OntologyError
  unfolding first_error
  validate_values scope (name, values) = elim (property_of o name) [
    | none ↦ some undeclared_property
    | some p ↦
        if not (applies_to o p (scope_class scope))
        then some inapplicable_property
        else if p.functional && not (length values == 1)
        then some functional_count
        else if ltb_ℤ (pos 0) p.min_cardinality && ltb_ℤ (pos (length values)) p.min_cardinality
        then some too_few_values
        else first_error (validate_value p) values
  ]

  unfoldable pub validate_assertion : Assertion → Option OntologyError
  unfolding effective_scope validate_scope validate_values first_error then_check
  validate_assertion a =
      then_check (first_error validate_scope (effective_scope a))
        (first_error (validate_values (effective_scope a)) a.values)

  unfoldable pub validate_denial : Denial → Option OntologyError
  unfolding is_empty
  validate_denial d = error_if (is_empty (trim_space d.term)) empty_denial

  unfoldable pub validate_ontology : Option OntologyError
  unfolding is_empty then_check validate_classes validate_dimensions validate_property
      validate_assertion validate_denial first_error
  validate_ontology =
      if is_empty (trim_space o.product_line)
      then some no_product_line
      else if length o.properties == 0
      then some no_properties
      else then_check validate_classes (
          then_check validate_dimensions (
            then_check (first_error validate_property o.properties) (
              then_check (first_error validate_assertion o.assertions)
                (first_error validate_denial o.denials))))
