-- ===== src/Domain/Validator.antt =====
-- `Validate` of unica/pkg/domain/validator.go: an answer checked against an ontology. The wording of a
-- violation's message is an argument, which no decision reads.
pub mod Agreement
mod Tests
use lurus_unica.Common.{
  ℕ, Bool, true, false, not, ◌&&◌, ◌||◌, Option, none, some, List, [], ◌∷◌, ◌++◌, map, length, ltb,
  ◌==◌, if◌then◌else◌,
}
use lurus_unica.Common.Floats.{Floats}
use lurus_unica.Common.Text.{Text, codes, contains, trim_space, is_empty, text_eq}
use lurus_unica.Common.Search.{any, is_some}
use lurus_unica.Domain.Affirm.{affirming_sentence}
use lurus_unica.Domain.Claims.{Claim}
use lurus_unica.Domain.Violation.{
  ViolationKind, undeclared, unknown_scope, domain_mismatch, range, contradicts,
  functional_conflict, ambiguous, incomplete, denied, Violation, join,
}
use lurus_unica.Domain.Ontology.Types.{
  class_dimension, Scope, Property, Denial, Ontology, lookup, assign, is_closed_world, property_of,
  display, contains_fold, canonical_label,
}
use lurus_unica.Domain.Ontology.Hierarchy.{applies_to}
use lurus_unica.Domain.Ontology.Facts.{
  ScopedValues, facts_of, distinct_facts_of, asserted_values, resolve_scope_value,
}
use lurus_unica.Domain.Ontology.Values.{check_value}
use lurus_unica.Domain.Ontology.Labels.{sort_texts, scope_label, format_value}

-- A violation before its message is worded.
unfoldable pub violation : ViolationKind → Text → Text → Text → Text → Violation
violation kind property scope got want = record {
  kind = kind;
  property = property;
  scope = scope;
  got = got;
  want = want;
  message = [];
  evidence = [];
}

unfoldable pub slashed : List Text → Text
unfolding join
slashed vs = join (codes "/") vs

module _ (fl : Floats) (fold : ℕ → ℕ) (parse_float : Text → Option fl.Float)
    (say : Violation → Text) (o : Ontology fl.Float) where
  open fl use {Float}

  -- `resolveScope`, where `none` is an error.
  unfoldable pub resolve_scope : Scope → List Text → Option Scope
  unfolding resolve_scope_value lookup assign text_eq
  resolve_scope scope [] = some scope
  resolve_scope scope (q ∷ qs) = elim (resolve_scope_value fold o q) [
    | none ↦ none
    | some (dim, canonical) ↦ elim (lookup dim scope) [
      | none ↦ resolve_scope (assign dim canonical scope) qs
      | some prev ↦ elim (text_eq prev canonical) [
        | true ↦ resolve_scope (assign dim canonical scope) qs
        | false ↦ none
      ]
    ]
  ]

  -- The branches that an unqualified claim is ambiguous between.
  unfoldable pub branch_text : Property Float → ScopedValues → Text
  unfolding scope_label format_value join
  branch_text p v =
      scope_label o v.scope ++ codes " " ++ join (codes "、") (map (format_value p) v.values)

  unfoldable pub compare_unqualified :
      Property Float → Claim → Text → List ScopedValues → Option Violation
  unfolding contains_fold violation slashed branch_text join
  compare_unqualified p c canonical [] = none
  compare_unqualified p c canonical (v ∷ []) =
      if contains_fold fold v.values canonical
      then none
      else some (violation contradicts c.property [] c.value (slashed v.values))
  compare_unqualified p c canonical (v ∷ w ∷ vs) = some (
      violation ambiguous c.property [] c.value
        (join (codes "；") (map (branch_text p) (v ∷ w ∷ vs))))

  unfoldable pub compare_qualified : Claim → Text → Scope → Option (List Text) → Option Violation
  unfolding contains_fold violation slashed scope_label
  compare_qualified c canonical scope none = none
  compare_qualified c canonical scope (some asserted) =
      if contains_fold fold asserted canonical
      then none
      else some (violation contradicts c.property (scope_label o scope) c.value (slashed asserted))

  unfoldable pub compare_to_assertions : Property Float → Claim → Scope → Option Violation
  unfolding canonical_label compare_unqualified compare_qualified asserted_values distinct_facts_of
  compare_to_assertions p c scope =
      let canonical = canonical_label fold p.range.labels c.value in
      if ltb 0 (length scope)
      then compare_qualified c canonical scope (asserted_values fold o scope c.property)
      else compare_unqualified p c canonical (distinct_facts_of o c.property)

  -- The checks of a claim in its scope, up to the comparison.
  unfoldable pub check_in_scope : Property Float → Claim → Scope → Option Violation
  unfolding lookup applies_to check_value compare_to_assertions violation slashed is_some
      scope_label
  check_in_scope p c scope =
      if elim (lookup class_dimension scope) [ none ↦ false | some k ↦ not (applies_to o p k) ]
      then some (violation domain_mismatch c.property (scope_label o scope) c.value p.domain)
      else if is_some (check_value fl fold parse_float p c.value)
      then some (violation range c.property (scope_label o scope) c.value (slashed p.range.values))
      else compare_to_assertions p c scope

  -- The values seen for a scope and a property, in the order of their arrival.
  abbrev Seen : Type 0
  Seen = List (Text × List Text)

  abbrev pub add_value : Text → List Text → List Text
  add_value v vs = if any (text_eq v) vs then vs else v ∷ vs

  abbrev seen_at : Seen → Text → List Text
  seen_at seen key = elim (lookup key seen) [ none ↦ [] | some vs ↦ vs ]

  -- The single-valued check of a claim that passed the others.
  unfoldable pub check_functional : Property Float → Claim → Scope → Seen → Seen × Option Violation
  unfolding lookup assign any text_eq violation slashed scope_label sort_texts
  check_functional p c scope seen =
      if not p.functional
      then (seen, none)
      else let key = scope_label o scope ++ 0 ∷ c.property in
        let vs = add_value c.value (seen_at seen key) in
        (
          assign key vs seen,
          if ltb 1 (length vs)
              then some (
                  violation functional_conflict c.property (scope_label o scope)
                    (slashed (sort_texts vs)) [])
              else none,
        )

  -- One round of `checkClaims`.
  unfoldable pub check_claim : Claim → Seen → Seen × Option Violation
  unfolding property_of is_closed_world resolve_scope check_in_scope check_functional violation
  check_claim c seen = elim (property_of o c.property) [
    | none ↦ (
      seen,
      if is_closed_world o then some (violation undeclared c.property [] c.value []) else none,
    )
    | some p ↦ elim (resolve_scope [] c.qualifiers) [
      | none ↦ (seen, some (violation unknown_scope c.property [] c.value []))
      | some scope ↦ elim (check_in_scope p c scope) [
        | some v ↦ (seen, some v)
        | none ↦ check_functional p c scope seen
      ]
    ]
  ]

  abbrev prepend : Option Violation → List Violation → List Violation
  prepend none vs = vs
  prepend (some v) vs = record v { message = say v } ∷ vs

  unfoldable pub check_claims_from : Seen → List Claim → List Violation
  unfolding check_claim
  check_claims_from seen [] = []
  check_claims_from seen (c ∷ cs) =
      let (seen', v) = check_claim c seen in prepend v (check_claims_from seen' cs)

  unfoldable pub check_claims : List Claim → List Violation
  unfolding check_claims_from
  check_claims cs = check_claims_from [] cs

  -- A value that the text states, in one of its two forms.
  unfoldable pub states_value : Text → Property Float → Text → Bool
  unfolding display contains
  states_value answer p value =
      contains answer (display p.range.labels value) || contains answer value

  unfoldable pub states_property : Text → Text → Bool
  unfolding is_empty property_of any facts_of states_value
  states_property answer property =
      if is_empty answer then false else elim (property_of o property) [
        | none ↦ false
        | some p ↦
            any (λ (e : ScopedValues). any (states_value answer p) e.values) (facts_of o property)
      ]

  -- The inner loop of `checkCompanions`.
  unfoldable pub missing : List Claim → Text → Claim → List Text → List Violation
  unfolding any text_eq states_property violation
  missing cs answer c [] = []
  missing cs answer c (required ∷ rs) =
      let rest = missing cs answer c rs in
      if any (λ (x : Claim). text_eq x.property required) cs || states_property answer required
      then rest
      else prepend (some (violation incomplete c.property [] [] required)) rest

  unfoldable pub check_companions_of : List Claim → Text → List Claim → List Violation
  unfolding property_of missing
  check_companions_of cs answer [] = []
  check_companions_of cs answer (c ∷ rest) =
      (elim (property_of o c.property) [ none ↦ [] | some p ↦ missing cs answer c p.requires ])
      ++ check_companions_of cs answer rest

  unfoldable pub check_companions : List Claim → Text → List Violation
  unfolding check_companions_of
  check_companions cs answer = check_companions_of cs answer cs

  unfoldable pub check_denials : List Denial → Text → List Violation
  unfolding affirming_sentence is_empty violation
  check_denials [] answer = []
  check_denials (d ∷ ds) answer =
      let rest = check_denials ds answer in
      let sentence = affirming_sentence answer d.term in
      if is_empty answer || is_empty sentence
      then rest
      else let v = record (violation denied d.term [] [] []) { evidence = trim_space sentence } in
        record v { message = say v } ∷ rest

  unfoldable pub validate : List Claim → Text → List Violation
  unfolding check_claims check_companions check_denials
  validate cs answer =
      check_claims cs ++ (check_companions cs answer ++ check_denials o.denials answer)
