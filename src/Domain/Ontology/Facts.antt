-- ===== src/Domain/Ontology/Facts.antt =====
-- The assertions of unica/pkg/domain/ontology.go, and which of them hold in a scope.
pub mod Best
use lurus_unica.Common.{
  ℕ, ◌+◌, ◌-◌, Bool, true, false, not, ◌&&◌, ◌||◌, Option, none, some, List, [], ◌∷◌, ◌++◌, length,
  ltb, ◌==◌, if◌then◌else◌,
}
use lurus_unica.Common.Text.{Text, codes, is_empty, text_eq}
use lurus_unica.Common.Search.{any, find}
use lurus_unica.Domain.Violation.{join}
use lurus_unica.Domain.Ontology.Types.{
  class_dimension, Assertion, Dimension, Scope, Ontology, lookup, keys, effective_scope, equal_fold,
  canonical_label,
}
use lurus_unica.Domain.Ontology.Hierarchy.{distance_to}

pub record ScopedValues : Type 0 where
  pub scope : Scope
  pub values : List Text

-- `<` on strings; the order of code points is the order of their UTF-8 bytes.
unfoldable pub text_lt : Text → Text → Bool
text_lt s [] = false
text_lt [] (t ∷ ts) = true
text_lt (s ∷ ss) (t ∷ ts) = let rest = text_lt ss ts in ltb s t || (s == t && rest)

abbrev class_of : Scope → Text
class_of s = elim (lookup class_dimension s) [ none ↦ [] | some c ↦ c ]

-- The order of `FactsOf`.
unfoldable pub comes_before : ScopedValues → ScopedValues → Bool
unfolding text_lt lookup
comes_before a b =
    if not (length a.scope == length b.scope)
    then ltb (length a.scope) (length b.scope)
    else text_lt (class_of a.scope) (class_of b.scope)

-- `sort.SliceStable`, of which the result is determined: an entry stays before those it does not come
-- after.
unfoldable pub insert_stable : ScopedValues → List ScopedValues → List ScopedValues
unfolding comes_before
insert_stable x [] = x ∷ []
insert_stable x (y ∷ ys) =
    let rest = insert_stable x ys in if comes_before y x then y ∷ rest else x ∷ y ∷ ys

unfoldable pub sort_stable : List ScopedValues → List ScopedValues
unfolding insert_stable
sort_stable [] = []
sort_stable (x ∷ xs) = insert_stable x (sort_stable xs)

-- The loop of `FactsOf`.
unfoldable pub stated : Text → List Assertion → List ScopedValues
unfolding lookup effective_scope
stated property [] = []
stated property (a ∷ as') =
    let rest = stated property as' in
    elim (lookup property a.values) [
      | none ↦ rest
      | some vs ↦ elim vs [
        | [] ↦ rest
        | w ∷ ws ↦ record { scope = effective_scope a; values = w ∷ ws } ∷ rest
      ]
    ]

module _ {F : Type 0} where
  unfoldable pub facts_of : Ontology F → Text → List ScopedValues
  unfolding stated sort_stable
  facts_of o property = sort_stable (stated property o.assertions)

-- `joinValues`, and the loop of `DistinctFactsOf`, with the entries kept so far.
abbrev same_values : ScopedValues → ScopedValues → Bool
same_values a b = text_eq (join (0 ∷ []) a.values) (join (0 ∷ []) b.values)

unfoldable pub distinct_from : List ScopedValues → List ScopedValues → List ScopedValues
unfolding any text_eq join
distinct_from unique [] = unique
distinct_from unique (e ∷ es) = elim (any (λ x. same_values x e) unique) [
  | true ↦ distinct_from unique es
  | false ↦ distinct_from (unique ++ e ∷ []) es
]

module _ {F : Type 0} where
  unfoldable pub distinct_facts_of : Ontology F → Text → List ScopedValues
  unfolding distinct_from facts_of
  distinct_facts_of o property = distinct_from [] (facts_of o property)

abbrev pub class_weight : ℕ
class_weight = 32

-- `if score > best`, where `none` is a best score of -1.
unfoldable pub better : Option (ℕ × List Text) → Option ℕ → List Text → Option (ℕ × List Text)
better best none vs = best
better none (some n) vs = some (n, vs)
better (some (b, us)) (some n) vs = if ltb b n then some (n, vs) else some (b, us)

module _ (fold : ℕ → ℕ) {F : Type 0} (o : Ontology F) where
  unfoldable pub dimension_matches : Text → Text → Text → Bool
  unfolding lookup equal_fold canonical_label
  dimension_matches dim want got = elim (lookup dim o.dimensions) [
    | none ↦ equal_fold fold want got
    | some d ↦
        equal_fold fold (canonical_label fold d.labels want) (canonical_label fold d.labels got)
  ]

  -- The score of one dimension.
  unfoldable pub match_dimension : Text → Text → Text → Option ℕ
  unfolding text_eq distance_to dimension_matches
  match_dimension dim want got =
      if text_eq dim class_dimension
      then elim (distance_to o got want) [ none ↦ none | some hops ↦ some (class_weight - hops) ]
      else if dimension_matches dim want got
      then some class_weight
      else none

  abbrev add_score : Option ℕ → Option ℕ → Option ℕ
  add_score none b = none
  add_score (some a) none = none
  add_score (some a) (some b) = some (a + b)

  -- `matchScope` of an assertion's scope and a query.
  unfoldable pub match_scope : Scope → Scope → Option ℕ
  unfolding lookup match_dimension
  match_scope [] query = some 0
  match_scope ((dim, want) ∷ rest) query =
      let later = match_scope rest query in
      elim (lookup dim query) [
        | none ↦ none
        | some got ↦ add_score (match_dimension dim want got) later
      ]

  -- The loop of `AssertedValues`, with the best score and its values so far.
  unfoldable pub best_from :
      Scope → Option (ℕ × List Text) → List ScopedValues → Option (ℕ × List Text)
  unfolding better
  best_from query best [] = best
  best_from query best (e ∷ es) =
      best_from query (better best (match_scope e.scope query) e.values) es

  unfoldable pub asserted_values : Scope → Text → Option (List Text)
  unfolding best_from facts_of
  asserted_values query property = elim (best_from query none (facts_of o property)) [
    | none ↦ none
    | some (score, vs) ↦ some vs
  ]

  -- The loop of `ResolveScopeValue` over the dimensions, in the order of their names.
  unfoldable pub resolve_among : Text → List (Text × Dimension) → Option (Text × Text)
  unfolding find equal_fold canonical_label
  resolve_among value [] = none
  resolve_among value ((dim, d) ∷ ds) =
      let rest = resolve_among value ds in
      elim (find (λ v. equal_fold fold v (canonical_label fold d.labels value)) d.values) [
        | none ↦ rest
        | some v ↦ some (dim, v)
      ]

  unfoldable pub resolve_scope_value : Text → Option (Text × Text)
  unfolding lookup resolve_among
  resolve_scope_value value = elim (lookup value o.classes) [
    | some c ↦ some (class_dimension, value)
    | none ↦ resolve_among value o.dimensions
  ]
