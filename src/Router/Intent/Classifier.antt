-- ===== src/Router/Intent/Classifier.antt =====
-- unica/router/internal/intent/classifier.go: `Classify`. `lower` is `unicode.ToLower`, whose table
-- of characters is not modelled, and `strings.ToLower` applies it to each code point.
pub mod Outcome
pub mod Evidence
use lurus_unica.Common.{
  ℕ, String, Bool, true, false, not, ◌&&◌, ◌||◌, Option, none, some, List, [], ◌∷◌, ◌++◌, map,
  if◌then◌else◌,
}
use lurus_unica.Common.Text.{Text, codes, contains, trim_space, is_empty}
use lurus_unica.Common.Search.{find, is_some}
use lurus_unica.Router.Intent.Markers.{
  harm_markers, escalation_markers, human_request_markers, personal_markers, personal_data_nouns,
  question_markers, consult_verbs, hypothetical_markers, intent_markers, action_nouns,
  demand_phrases,
}

pub data Class : Type 0 where
  informational : Class
  transactional : Class
  emotional : Class

abbrev pub reason_harm : String
reason_harm = "harm_report"

abbrev pub reason_escalation : String
reason_escalation = "escalation_marker"

abbrev pub reason_human_request : String
reason_human_request = "explicit_human_request"

abbrev pub reason_personal_data : String
reason_personal_data = "personal_data_lookup"

abbrev pub reason_action_request : String
reason_action_request = "action_request"

abbrev pub reason_default_consult : String
reason_default_consult = "default_consultative"

pub record Result : Type 0 where
  pub class : Class
  pub reason : String
  pub matched : Text

unfoldable pub needs_human : Result → Bool
needs_human r = elim r.class [ informational ↦ false | transactional ↦ true | emotional ↦ true ]

unfoldable pub first_match : Text → List Text → Option Text
first_match msg markers = find (contains msg) markers

-- `p + "+" + n`.
unfoldable pub joined : Text → Text → Text
joined p n = p ++ codes "+" ++ n

abbrev pub consultation : Result
consultation = record { class = informational; reason = reason_default_consult; matched = [] }

abbrev pub transaction : String → Text → Result
transaction r m = record { class = transactional; reason = r; matched = m }

-- Rules 4 and 5.
unfoldable pub classify_action : Text → Result
unfolding first_match
classify_action msg =
    let demand : Result = elim (first_match msg demand_phrases) [
      | some d ↦ transaction reason_action_request d
      | none ↦ consultation
    ] in
    if not (is_some (first_match msg question_markers))
      && not (is_some (first_match msg consult_verbs))
      && not (is_some (first_match msg hypothetical_markers))
    then elim (first_match msg intent_markers) [
      | some w ↦ elim (first_match msg action_nouns) [
        | some a ↦ transaction reason_action_request (joined w a)
        | none ↦ demand
      ]
      | none ↦ demand
    ]
    else consultation

-- Rule 3, and the rules after it.
unfoldable pub classify_personal : Text → Result
unfolding classify_action
classify_personal msg = elim (first_match msg personal_markers) [
  | some p ↦ elim (first_match msg personal_data_nouns) [
    | some n ↦ transaction reason_personal_data (joined p n)
    | none ↦ classify_action msg
  ]
  | none ↦ classify_action msg
]

-- The rules, for a message that is not blank.
unfoldable pub classify_rules : Text → Result
unfolding classify_personal
classify_rules msg = elim (first_match msg harm_markers) [
  | some m ↦ record { class = emotional; reason = reason_harm; matched = m }
  | none ↦ elim (first_match msg escalation_markers) [
    | some m ↦ record { class = emotional; reason = reason_escalation; matched = m }
    | none ↦ elim (first_match msg human_request_markers) [
      | some m ↦ transaction reason_human_request m
      | none ↦ classify_personal msg
    ]
  ]
]

module _ (lower : ℕ → ℕ) where
  unfoldable pub normalised : Text → Text
  normalised message = map lower (trim_space message)

  unfoldable pub classify : Text → Result
  unfolding classify_rules normalised
  classify message =
      let msg = normalised message in if is_empty msg then consultation else classify_rules msg
