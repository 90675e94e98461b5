-- ===== src/Router/Intent/Classifier/Evidence.antt =====
-- What `Classify` of unica/router/internal/intent/classifier.go reports as matched.
use lurus_unica.Common.{
  ℕ, Bool, true, ◌||◌, none, some, List, [], arith, ◌≡◌, sym, subst, ◌⊎◌, inl, inr, Bool-cases,
  Option-cases,
}
use lurus_unica.Common.Text.{Text, contains, is_empty}
use lurus_unica.Common.Search.{is_some, find-passes}
use lurus_unica.Router.Intent.Markers.{
  harm_markers, escalation_markers, human_request_markers, personal_markers, personal_data_nouns,
  question_markers, consult_verbs, hypothetical_markers, intent_markers, action_nouns,
  demand_phrases,
}
use lurus_unica.Router.Intent.Classifier.{
  informational, Result, consultation, transaction, reason_action_request, first_match, joined,
  classify_action, classify_personal, classify_rules, normalised, classify,
}

-- The result has nothing to show, shows a part of the message, or joins two parts of it by a plus.
abbrev pub IsShown : Text → Result → Type 0
IsShown msg r =
    ((r.class ≡ informational) × (r.matched ≡ []))
    ⊎ ((contains msg r.matched ≡ true)
        ⊎ ((p : Text) × ((n : Text) × ((r.matched ≡ joined p n)
                × ((contains msg p ≡ true) × (contains msg n ≡ true))))))

carry : (msg : Text) (r s : Result) → s ≡ r → IsShown msg r → IsShown msg s
carry msg r s p h = subst (IsShown msg) (sym p) h

found :
    (msg : Text) (ts : List Text) (t : Text) → first_match msg ts ≡ some t → contains msg t ≡ true
unfolding first_match
found msg ts t h = find-passes (contains msg) ts t h

IsShown-one :
    (msg : Text) (ts : List Text) (t : Text) (r : Result)
    → first_match msg ts ≡ some t
    → r.matched ≡ t
    → IsShown msg r
IsShown-one msg ts t r h p =
    inr (inl (subst (λ z. contains msg z ≡ true) (sym p) (found msg ts t h)))

IsShown-two :
    (msg : Text) (ts us : List Text) (t u : Text) (r : Result)
    → first_match msg ts ≡ some t
    → first_match msg us ≡ some u
    → r.matched ≡ joined t u
    → IsShown msg r
IsShown-two msg ts us t u r h k p = inr (inr (t, (u, (p, (found msg ts t h, found msg us u k)))))

demand : Text → Result
demand msg = elim (first_match msg demand_phrases) [
  | some d ↦ transaction reason_action_request d
  | none ↦ consultation
]

demand-IsShown : (msg : Text) → IsShown msg (demand msg)
unfolding demand
demand-IsShown msg = elim (Option-cases (first_match msg demand_phrases)) [
  | inl n ↦ inl (ground arith)
  | inr (d, s) ↦ IsShown-one msg demand_phrases d (demand msg) s (ground arith)
]

-- The guard of the action rules.
asking : Text → Bool
asking msg =
    is_some (first_match msg question_markers)
    || is_some (first_match msg consult_verbs)
    || is_some (first_match msg hypothetical_markers)

action-IsShown : (msg : Text) → IsShown msg (classify_action msg)
unfolding classify_action demand asking
action-IsShown msg = elim (Bool-cases (asking msg)) [
  | inl y ↦ inl (ground arith)
  | inr n ↦ elim (Option-cases (first_match msg intent_markers)) [
    | inl q ↦ carry msg (demand msg) (classify_action msg) (ground arith) (demand-IsShown msg)
    | inr (w, s) ↦ elim (Option-cases (first_match msg action_nouns)) [
      | inl q ↦ carry msg (demand msg) (classify_action msg) (ground arith) (demand-IsShown msg)
      | inr (a, t) ↦
          IsShown-two msg intent_markers action_nouns w a (classify_action msg) s t (ground arith)
    ]
  ]
]

personal-IsShown : (msg : Text) → IsShown msg (classify_personal msg)
unfolding classify_personal
personal-IsShown msg = elim (Option-cases (first_match msg personal_markers)) [
  | inl q ↦
      carry msg (classify_action msg) (classify_personal msg) (ground arith) (action-IsShown msg)
  | inr (p, s) ↦ elim (Option-cases (first_match msg personal_data_nouns)) [
    | inl q ↦
        carry msg (classify_action msg) (classify_personal msg) (ground arith) (action-IsShown msg)
    | inr (n, t) ↦
        IsShown-two msg personal_markers personal_data_nouns p n (classify_personal msg) s t
          (ground arith)
  ]
]

rules-IsShown : (msg : Text) → IsShown msg (classify_rules msg)
unfolding classify_rules
rules-IsShown msg = elim (Option-cases (first_match msg harm_markers)) [
  | inr (m, s) ↦ IsShown-one msg harm_markers m (classify_rules msg) s (ground arith)
  | inl q ↦ elim (Option-cases (first_match msg escalation_markers)) [
    | inr (m, s) ↦ IsShown-one msg escalation_markers m (classify_rules msg) s (ground arith)
    | inl p ↦ elim (Option-cases (first_match msg human_request_markers)) [
      | inr (m, s) ↦ IsShown-one msg human_request_markers m (classify_rules msg) s (ground arith)
      | inl n ↦
          carry msg (classify_personal msg) (classify_rules msg) (ground arith)
            (personal-IsShown msg)
    ]
  ]
]

-- What a classification reports as matched is nothing for a consultation, and otherwise a part of the
-- trimmed message in lower case, or two parts of it joined by a plus.
pub classify-IsShown : (lower : ℕ → ℕ) (m : Text) → IsShown (normalised lower m) (classify lower m)
unfolding classify
classify-IsShown lower m = elim (Bool-cases (is_empty (normalised lower m))) [
  | inl e ↦ inl (ground arith)
  | inr n ↦
      carry (normalised lower m) (classify_rules (normalised lower m)) (classify lower m)
        (ground arith) (rules-IsShown (normalised lower m))
]
