-- ===== src/Router/Harm.antt =====
-- The two places that look for a report of harm: `Classify` of
-- unica/router/internal/intent/classifier.go and `EvaluateWithMode` of
-- unica/router/internal/guardrail/evaluator.go.
mod Tests
use lurus_unica.Common.{
  ℕ, String, Bool, true, false, not, ◌&&◌, ◌||◌, Option, none, some, List, [], ◌∷◌, map, str_eq,
  if◌then◌else◌, arith, ◌≡◌, ◌≢◌, refl, sym, ◌∙◌, ap, inl, inr, Bool-cases, Option-cases, eq_iff,
}
use lurus_unica.Common.Floats.{Floats}
use lurus_unica.Common.Text.{Text, contains, has_prefix, is_space, is_empty, trim_space}
use lurus_unica.Common.Search.{find, is_some, any, is_some-find}
use lurus_unica.Common.Occurs.{firm, opens, any-contains-trim_space, trim_space-map}
use lurus_unica.Router.Intent.Markers.{harm_markers}
use lurus_unica.Router.Intent.Classifier.{
  Result, consultation, reason_harm, reason_escalation, reason_human_request, reason_personal_data,
  reason_action_request, reason_default_consult, first_match, classify_action, classify_personal,
  classify_rules, normalised, classify,
}
use lurus_unica.Router.Guardrail.Settings.{Config}
use lurus_unica.Router.Guardrail.Evaluator.{harm_topics, TriageMode, escalates, evaluate_with_mode}
use lurus_unica.Router.Guardrail.Evaluator.Outcome.{mentions, outcome, reports, evaluate_outcome}

is_harm : String → Bool
is_harm r = str_eq r reason_harm

others :
    (is_harm reason_harm ≡ true)
    × ((is_harm reason_escalation ≡ false)
        × ((is_harm reason_human_request ≡ false)
            × ((is_harm reason_personal_data ≡ false)
                × ((is_harm reason_action_request ≡ false)
                    × (is_harm reason_default_consult ≡ false)))))
unfolding is_harm
others = (refl, (refl, (refl, (refl, (refl, refl)))))

action-harm : (msg : Text) → is_harm (classify_action msg).reason ≡ false
unfolding classify_action
action-harm msg = ground (arith, others)

personal-harm : (msg : Text) → is_harm (classify_personal msg).reason ≡ false
unfolding classify_personal
personal-harm msg = ground (arith, others, action-harm msg)

rules-harm : (msg : Text) → is_harm (classify_rules msg).reason ≡ any (contains msg) harm_markers
unfolding classify_rules is_some first_match
rules-harm msg = ground (arith, others, personal-harm msg, is_some-find (contains msg) harm_markers)

classified :
    (msg : Text)
    → is_harm (if is_empty msg then consultation else classify_rules msg).reason
      ≡ any (contains msg) harm_markers
unfolding is_empty any harm_markers contains has_prefix is_harm
classified [] = refl
classified (c ∷ cs) = rules-harm (c ∷ cs)

tables : (msg : Text) → any (contains msg) harm_markers ≡ mentions msg harm_topics
unfolding harm_markers harm_topics any is_empty
tables msg = refl

firm-harm_markers : firm harm_markers ≡ true
unfolding firm opens harm_markers
firm-harm_markers = refl

module _ (lower : ℕ → ℕ) (keeps : (c : ℕ) → is_space (lower c) ≡ is_space c) where
  -- A message is classified as a report of harm exactly if the evaluator finds a harm topic in it,
  -- though one trims the message and the other does not, if the change to lower case keeps white
  -- space.
  pub classify_harm :
      (m : Text) → str_eq (classify lower m).reason reason_harm ≡ mentions (map lower m) harm_topics
  unfolding classify normalised is_harm
  classify_harm m =
      classified (map lower (trim_space m))
      ∙ ap (λ z. any (contains z) harm_markers) (sym (trim_space-map lower keeps m))
      ∙ any-contains-trim_space (map lower m) harm_markers firm-harm_markers
      ∙ tables (map lower m)

  -- A message that is classified as a report of harm brings in a person, whatever the confidence, the
  -- settings and the triage mode, if the change to lower case keeps white space.
  pub harm_escalates :
      (fl : Floats) (m : Text) (x : fl.Float) (o : Option (Config fl.Float)) (mode : TriageMode)
      → (classify lower m).reason ≡ reason_harm
      → escalates (evaluate_with_mode lower fl m x o mode).decision ≡ true
  unfolding outcome reports
  harm_escalates fl m x o mode h = ground (
    arith,
    eq_iff (classify lower m).reason reason_harm,
    classify_harm m,
    ap (λ z. z.1.0) (evaluate_outcome lower fl m x o mode),
  )
