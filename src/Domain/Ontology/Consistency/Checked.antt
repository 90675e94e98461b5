-- ===== src/Domain/Ontology/Consistency/Checked.antt =====
-- What an ontology that passes the check of unica/pkg/domain/ontology.go promises to the check of
-- claims.
use lurus_unica.Common.{
  ℕ, true, Option, none, some, List, [], ◌∷◌, All, arith, ◌≡◌, inl, inr, Option-cases,
}
use lurus_unica.Common.Floats.{Floats}
use lurus_unica.Common.Text.{Text}
use lurus_unica.Domain.Ontology.Types.{
  Property, Assertion, Ontology, Scope, property_of, effective_scope,
}
use lurus_unica.Domain.Ontology.Hierarchy.{applies_to}
use lurus_unica.Domain.Ontology.Values.{check_value}
use lurus_unica.Domain.Ontology.Consistency.{
  OntologyError, first_error, then_check, validate_value, validate_values, validate_assertion,
  validate_ontology, scope_class,
}

first_error-All :
    {A : Type 0} (check : A → Option OntologyError) (xs : List A)
    → first_error check xs ≡ none
    → All (λ x. check x ≡ none) xs
unfolding first_error
first_error-All check [] h = tt
first_error-All check (x ∷ xs) h = (ground arith, first_error-All check xs (ground arith))

All-map :
    {A : Type 0} {P Q : A → Type 0} (xs : List A) → ((x : A) → P x → Q x) → All P xs → All Q xs
All-map [] f h = tt
All-map (x ∷ xs) f (p, h) = (f x p, All-map xs f h)

module _ (fl : Floats) (fold : ℕ → ℕ) (parse_float : Text → Option fl.Float)
    (o : Ontology fl.Float) where
  open fl use {Float}

  value-accepted :
      (p : Property Float) (v : Text)
      → validate_value fl fold parse_float o p v ≡ none
      → check_value fl fold parse_float p v ≡ none
  unfolding validate_value
  value-accepted p v h = ground arith

  -- A property is declared, applies in the scope, and each of the values is one that a claim may state.
  abbrev pub IsStateable : Scope → Text × List Text → Type 0
  IsStateable scope (name, values) =
      (p : Property Float) × (property_of o name ≡ some p)
      × (applies_to o p (scope_class fl fold parse_float o scope) ≡ true)
      × All (λ v. check_value fl fold parse_float p v ≡ none) values

  values-IsStateable :
      (scope : Scope) (x : Text × List Text)
      → validate_values fl fold parse_float o scope x ≡ none
      → IsStateable scope x
  unfolding validate_values
  values-IsStateable scope (name, values) h = elim (Option-cases (property_of o name)) [
    | inl n ↦ ground arith
    | inr (p, e) ↦ (
      p,
      e,
      ground arith,
      All-map values (value-accepted p)
          (first_error-All (validate_value fl fold parse_float o p) values (ground arith)),
    )
  ]

  assertion-IsStateable :
      (a : Assertion)
      → validate_assertion fl fold parse_float o a ≡ none
      → All (IsStateable (effective_scope a)) a.values
  unfolding validate_assertion then_check
  assertion-IsStateable a h = All-map a.values (values-IsStateable (effective_scope a)) (
      first_error-All (validate_values fl fold parse_float o (effective_scope a)) a.values
        (ground arith))

  assertions-checked :
      validate_ontology fl fold parse_float o ≡ none
      → first_error (validate_assertion fl fold parse_float o) o.assertions ≡ none
  unfolding validate_ontology then_check
  assertions-checked h = ground arith

  -- An ontology that passes its check asserts only what a claim may state: every property of every
  -- assertion is declared and applies to the assertion's class, and every value of it passes the check
  -- of a claimed value.
  pub validate_ontology-IsStateable :
      validate_ontology fl fold parse_float o ≡ none
      → All (λ (a : Assertion). All (IsStateable (effective_scope a)) a.values) o.assertions
  validate_ontology-IsStateable h = All-map o.assertions assertion-IsStateable (
      first_error-All (validate_assertion fl fold parse_float o) o.assertions
        (assertions-checked h))
