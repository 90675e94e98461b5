-- ===== src/Domain/Escalation/Parsing.antt =====
-- What `ParseEscalation` of unica/pkg/domain/escalation.go finds and leaves.
use lurus_unica.Common.{
  if◌then◌else◌, ℕ, Bool, true, false, ◌||◌, Option, none, some, [], ◌∷◌, map, arith, ◌≡◌, refl,
  sym, subst, ◌∙◌, ap, ◌⊎◌, inl, inr, Bool-cases, Option-cases,
}
use lurus_unica.Common.Text.{text_eq, Text, codes, trim_space, is_empty}
use lurus_unica.Common.Search.{any, is_some}
use lurus_unica.Common.Occurs.{firm, opens, any-contains-trim_space}
use lurus_unica.Domain.Escalation.{
  known_escalations, escalate_other, after_word, until_bracket, after_colon, tag_at, value_at,
  first_value, has_tag, strip_from, reason_for, parse_escalation, transfer_phrases, intake_markers,
  announces_transfer,
}

colon-bracket : (r : Text) → is_some (after_colon r) ≡ true → is_some (until_bracket r) ≡ true
unfolding after_colon until_bracket is_some
colon-bracket [] h = ground arith
colon-bracket (c ∷ r) h = ground arith

value-tag : (s : Text) → is_some (value_at s) ≡ true → is_some (tag_at s) ≡ true
unfolding value_at tag_at is_some
value-tag s h = elim (Option-cases (after_word s (codes "[handoff"))) [
  | inl n ↦ ground arith
  | inr (r, p) ↦ ground (arith, colon-bracket r)
]

either : (x y : Bool) → (x ≡ true) ⊎ (y ≡ true) → (x || y) ≡ true
either x y h = ground arith

later_value : Option Text → Option Text → Option Text
later_value o rest = elim o [ none ↦ rest | some v ↦ some v ]

first_value-tag : (s : Text) → is_some (first_value s) ≡ true → has_tag s ≡ true
unfolding first_value has_tag is_some later_value
first_value-tag [] h = ground arith
first_value-tag (c ∷ s) h =
    either (is_some (tag_at (c ∷ s))) (has_tag s) (elim (Option-cases (value_at (c ∷ s))) [
      | inr (v, p) ↦ inl (value-tag (c ∷ s) (ap is_some p))
      | inl n ↦ inr (first_value-tag s (sym (ap is_some (later n)) ∙ h))
    ])
  where
    later : value_at (c ∷ s) ≡ none → first_value (c ∷ s) ≡ first_value s
    later n = ap (λ o. later_value o (first_value s)) n

strip-untagged : (s : Text) → has_tag s ≡ false → strip_from 0 s ≡ s
unfolding has_tag strip_from is_some
strip-untagged [] h = refl
strip-untagged (c ∷ s) h = ground (arith, strip-untagged s)

abbrev pub IsKnown : Text → Type 0
IsKnown r = any (text_eq r) known_escalations ≡ true

other-IsKnown : IsKnown escalate_other
unfolding any text_eq
other-IsKnown = refl

IsKnown-as : (r s : Text) → s ≡ r → IsKnown r → IsKnown s
IsKnown-as r s p h = subst IsKnown (sym p) h

reason-IsKnown : (lower : ℕ → ℕ) (v : Text) → IsKnown (reason_for lower v)
unfolding reason_for
reason-IsKnown lower v = elim (Bool-cases (is_empty (map lower (trim_space v)))) [
  | inl e ↦ IsKnown-as escalate_other (reason_for lower v) (ground arith) other-IsKnown
  | inr f ↦ elim (Bool-cases (any (text_eq (map lower (trim_space v))) known_escalations)) [
    | inl k ↦ IsKnown-as (map lower (trim_space v)) (reason_for lower v) (ground arith) k
    | inr n ↦ IsKnown-as escalate_other (reason_for lower v) (ground arith) other-IsKnown
  ]
]

unknown_nil : any (text_eq []) known_escalations ≡ false
unfolding any text_eq
unknown_nil = refl

module _ (lower : ℕ → ℕ) where
  -- A person is requested exactly if the answer has a tag, well formed or not, in any case of its
  -- letters. The reason is one of the vocabulary's exactly if a person is requested; and the answer is
  -- only trimmed if nobody is.
  pub parse_escalation_tag :
      (answer : Text)
      → ((parse_escalation lower answer).requested ≡ has_tag answer)
        × ((any (text_eq (parse_escalation lower answer).reason) known_escalations ≡ has_tag answer)
            × ((parse_escalation lower answer).cleaned_answer
                ≡ trim_space (if has_tag answer then strip_from 0 answer else answer)))
  unfolding parse_escalation is_some
  parse_escalation_tag answer = elim (Option-cases (first_value answer)) [
    | inr (v, p) ↦
        let t : has_tag answer ≡ true = first_value-tag answer (ap is_some p) in
        (
          ground (arith, t),
          (
            IsKnown-as (reason_for lower v) (parse_escalation lower answer).reason (ground arith)
                  (reason-IsKnown lower v)
                ∙ sym t,
            ground (arith, t),
          ),
        )
    | inl n ↦ elim (Bool-cases (has_tag answer)) [
      | inl t ↦ (
        ground arith,
        (
          IsKnown-as escalate_other (parse_escalation lower answer).reason (ground arith)
                other-IsKnown
              ∙ sym t,
          ground arith,
        ),
      )
      | inr f ↦ (
        ground arith,
        (
          ap (λ r. any (text_eq r) known_escalations) (no_reason n f) ∙ unknown_nil ∙ sym f,
          ground (arith, strip-untagged answer f),
        ),
      )
    ]
  ]
    where
      no_reason :
          first_value answer ≡ none
          → has_tag answer ≡ false
          → (parse_escalation lower answer).reason ≡ []
      no_reason n f = ground arith

firm_intake : firm intake_markers ≡ true
unfolding firm opens intake_markers
firm_intake = refl

firm_transfer : firm transfer_phrases ≡ true
unfolding firm opens transfer_phrases
firm_transfer = refl

-- Whether an answer announces a transfer does not depend on the white space around it.
pub announces_transfer-trim_space :
    (answer : Text) → announces_transfer (trim_space answer) ≡ announces_transfer answer
unfolding announces_transfer
announces_transfer-trim_space answer = ground (
  arith,
  any-contains-trim_space answer intake_markers firm_intake,
  any-contains-trim_space answer transfer_phrases firm_transfer,
)
