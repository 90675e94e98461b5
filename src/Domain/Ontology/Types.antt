-- ===== src/Domain/Ontology/Types.antt =====
-- The types of unica/pkg/domain/ontology.go. A Go map is a list of pairs without a repeated key, kept in
-- the order of its keys, the one in which `sortedMapKeys` visits it; where the source ranges over a map
-- in no order, the model visits it in this one. `fold` maps a character to one that stands for all of
-- its cases (`unicode.SimpleFold`).
use lurus_unica.Common.{ℕ, Bool, true, Option, none, some, List, [], ◌∷◌, map, if◌then◌else◌, ℤ}
use lurus_unica.Common.Text.{Text, codes, trim_space, is_empty, text_eq}
use lurus_unica.Common.Search.{any}

abbrev pub class_dimension : Text
class_dimension = codes "class"

module _ {ℓ} {V : Type ℓ} where
  -- `m[k]`.
  unfoldable pub lookup : Text → List (Text × V) → Option V
  unfolding text_eq
  lookup k [] = none
  lookup k ((j, v) ∷ m) = let rest = lookup k m in if text_eq k j then some v else rest

  unfoldable pub keys : List (Text × V) → List Text
  keys [] = []
  keys ((j, v) ∷ m) = j ∷ keys m

  -- `m[k] = v`; a new key goes first.
  unfoldable pub assign : Text → V → List (Text × V) → List (Text × V)
  unfolding text_eq
  assign k v [] = (k, v) ∷ []
  assign k v ((j, w) ∷ m) =
      let rest = assign k v m in if text_eq k j then (k, v) ∷ m else (j, w) ∷ rest

pub record OntologyClass : Type 0 where
  pub label : Text
  pub subclass_of : Text

pub record Dimension : Type 0 where
  pub label : Text
  pub values : List Text
  pub labels : List (Text × Text)

abbrev pub Scope : Type 0
Scope = List (Text × Text)

pub record Range (F : Type 0) : Type 0 where
  pub type : Text
  pub unit : Text
  pub min : Option F
  pub max : Option F
  pub values : List Text
  pub labels : List (Text × Text)

pub record Property (F : Type 0) : Type 0 where
  pub label : Text
  pub domain : Text
  pub range : Range F
  pub functional : Bool
  pub min_cardinality : ℤ
  pub requires : List Text

pub record Assertion : Type 0 where
  pub class : Text
  pub scope : Scope
  pub values : List (Text × List Text)

pub record Denial : Type 0 where
  pub term : Text
  pub note : Text

pub record Ontology (F : Type 0) : Type 0 where
  pub product_line : Text
  pub closed_world : Option Bool
  pub classes : List (Text × OntologyClass)
  pub dimensions : List (Text × Dimension)
  pub disjoint : List (List Text)
  pub properties : List (Text × Property F)
  pub assertions : List Assertion
  pub denials : List Denial

-- `EffectiveScope`.
unfoldable pub effective_scope : Assertion → Scope
unfolding is_empty assign
effective_scope a = if is_empty a.class then a.scope else assign class_dimension a.class a.scope

module _ {F : Type 0} where
  unfoldable pub is_closed_world : Ontology F → Bool
  is_closed_world o = elim o.closed_world [ none ↦ true | some b ↦ b ]

  unfoldable pub property_of : Ontology F → Text → Option (Property F)
  unfolding lookup
  property_of o name = lookup name o.properties

-- `Display`.
unfoldable pub display : List (Text × Text) → Text → Text
unfolding lookup is_empty
display labels value = elim (lookup value labels) [
  | none ↦ value
  | some label ↦ if is_empty label then value else label
]

module _ (fold : ℕ → ℕ) where
  -- `strings.EqualFold`.
  unfoldable pub equal_fold : Text → Text → Bool
  unfolding text_eq
  equal_fold s t = text_eq (map fold s) (map fold t)

  unfoldable pub contains_fold : List Text → Text → Bool
  unfolding any equal_fold
  contains_fold list value = any (λ v. equal_fold (trim_space v) (trim_space value)) list

  -- The loop of `canonicalLabel`, for a trimmed value.
  unfoldable pub canonical_from : List (Text × Text) → Text → Text
  unfolding equal_fold
  canonical_from [] trimmed = trimmed
  canonical_from ((id, label) ∷ ls) trimmed =
      let rest = canonical_from ls trimmed in
      if equal_fold (trim_space label) trimmed then id else rest

  unfoldable pub canonical_label : List (Text × Text) → Text → Text
  unfolding canonical_from
  canonical_label labels value = canonical_from labels (trim_space value)
