-- ===== src/Router/Guardrail/Evaluator/Outcome.antt =====
-- What `EvaluateWithMode` of unica/router/internal/guardrail/evaluator.go decides.
use lurus_unica.Common.{
  ℕ, Bool, true, false, not, ◌&&◌, ◌||◌, Option, none, some, List, [], map, if◌then◌else◌, arith,
  ◌≡◌, refl, ◌∙◌, ap,
}
use lurus_unica.Common.Floats.{Floats}
use lurus_unica.Common.Text.{Text, contains, is_empty}
use lurus_unica.Common.Search.{find, is_some, any, is_some-find}
use lurus_unica.Router.Guardrail.Settings.{Config, defaults}
use lurus_unica.Router.Guardrail.Evaluator.{
  reason_low_confidence, reason_confidence_ok, reason_keyword_match, reason_blocked_topic,
  reason_safety_incident, reason_funds_at_risk, delivers, escalates, EvalResult, is_quality_signal,
  TriageMode, triage_off, decides_routing, harm_topics, funds_at_risk_topics, first_match,
  first_configured, evaluate_confidence, evaluate_keywords, evaluate_rules, evaluate_with_mode,
  evaluate,
}

-- A table of the program has an entry in the message.
abbrev pub mentions : Text → List Text → Bool
mentions msg terms = any (λ t. not (is_empty t) && contains msg t) terms

quality_signals :
    (is_quality_signal reason_low_confidence ≡ true)
    × ((is_quality_signal reason_confidence_ok ≡ false)
        × ((is_quality_signal reason_keyword_match ≡ false)
            × ((is_quality_signal reason_blocked_topic ≡ false)
                × ((is_quality_signal reason_safety_incident ≡ false)
                    × (is_quality_signal reason_funds_at_risk ≡ false)))))
unfolding is_quality_signal
quality_signals = (refl, (refl, (refl, (refl, (refl, refl)))))

module _ (lower : ℕ → ℕ) where
  -- A list of the settings has an entry in the message, whatever the case.
  abbrev pub configured : Text → List Text → Bool
  configured msg terms = any (λ t. not (is_empty t) && contains msg (map lower t)) terms

  match-mentions : (msg : Text) (t : List Text) → is_some (first_match msg t) ≡ mentions msg t
  unfolding first_match
  match-mentions msg t = is_some-find (λ t. not (is_empty t) && contains msg t) t

  match-configured :
      (msg : Text) (t : List Text) → is_some (first_configured lower msg t) ≡ configured msg t
  unfolding first_configured
  match-configured msg t = is_some-find (λ t. not (is_empty t) && contains msg (map lower t)) t

  module _ (fl : Floats) where
    abbrev pub config_or : Option (Config fl.Float) → Config fl.Float
    config_or none = defaults fl
    config_or (some c) = c

    -- What the steps find, in the order of the steps.
    unfoldable pub blocked : Text → Config fl.Float → Bool
    blocked m c = configured (map lower m) c.blocked_topics

    unfoldable pub reports : Text → Bool
    reports m = mentions (map lower m) harm_topics || mentions (map lower m) funds_at_risk_topics

    unfoldable pub keyword : Text → Config fl.Float → TriageMode → Bool
    keyword m c mode = not (decides_routing mode) && configured (map lower m) c.handoff_keywords

    unfoldable pub unsure : fl.Float → Config fl.Float → Bool
    unsure x c = fl.lt x c.confidence_threshold

    evaluate_config :
        (m : Text) (x : fl.Float) (c : Option (Config fl.Float)) (mode : TriageMode)
        → evaluate_with_mode lower fl m x c mode
          ≡ evaluate_rules lower fl (map lower m) x (config_or c) mode
    unfolding evaluate_with_mode
    evaluate_config m x none mode = refl
    evaluate_config m x (some c) mode = refl

    -- The three questions of the callers about a result.
    abbrev pub Outcome : Type 0
    Outcome = Bool × (Bool × Bool)

    unfoldable pub outcome : EvalResult fl.Float → Outcome
    outcome r = (delivers r.decision, (escalates r.decision, is_quality_signal r.reason))

    rules_outcome :
        (m : Text) (x : fl.Float) (c : Config fl.Float) (mode : TriageMode)
        → outcome (evaluate_rules lower fl (map lower m) x c mode) ≡ (
          not (blocked m c) && (reports m || (not (keyword m c mode) && not (unsure x c))),
          (
            blocked m c || (reports m || (keyword m c mode || unsure x c)),
            not (blocked m c || (reports m || keyword m c mode)) && unsure x c,
          ),
        )
    unfolding outcome evaluate_rules evaluate_keywords evaluate_confidence blocked reports keyword
        unsure delivers escalates is_some
    rules_outcome m x c mode = ground (
      arith,
      quality_signals,
      match-configured (map lower m) c.blocked_topics,
      match-mentions (map lower m) harm_topics,
      match-mentions (map lower m) funds_at_risk_topics,
      match-configured (map lower m) c.handoff_keywords,
    )

    -- For every message, confidence, settings (or none) and mode: the answer is delivered if no blocked
    -- topic occurs and either harm or lost money is reported, or no handoff keyword applies and the
    -- confidence is not below the threshold. A person is brought in exactly if a blocked topic, a
    -- report, a keyword that applies or a low confidence is there. The result is a quality signal only
    -- for a low confidence with none of the others.
    pub evaluate_outcome :
        (m : Text) (x : fl.Float) (o : Option (Config fl.Float)) (mode : TriageMode)
        → outcome (evaluate_with_mode lower fl m x o mode) ≡ (
          not (blocked m (config_or o))
              && (reports m
                  || (not (keyword m (config_or o) mode) && not (unsure x (config_or o)))),
          (
            blocked m (config_or o)
                || (reports m || (keyword m (config_or o) mode || unsure x (config_or o))),
            not (blocked m (config_or o) || (reports m || keyword m (config_or o) mode))
                && unsure x (config_or o),
          ),
        )
    evaluate_outcome m x o mode =
        ap outcome (evaluate_config m x o mode) ∙ rules_outcome m x (config_or o) mode

    unfoldable pub unkeyed : Config fl.Float → Config fl.Float
    unkeyed c = record c { handoff_keywords = [] }

    nothing_configured : (m : Text) → first_configured lower m [] ≡ none
    unfolding first_configured find
    nothing_configured m = refl

    rules_mode :
        (m : Text) (x : fl.Float) (c : Config fl.Float) (mode : TriageMode)
        → evaluate_rules lower fl m x c mode
          ≡ evaluate_rules lower fl m x (if decides_routing mode then unkeyed c else c) triage_off
    unfolding evaluate_rules evaluate_keywords evaluate_confidence first_configured find unkeyed
        decides_routing
    rules_mode m x c mode = ground (arith, nothing_configured m)

    -- A triage mode changes one thing: where the classifier decides, the handoff keywords of the settings
    -- are not read, and the result is the one that settings without keywords give with triage off.
    -- With any other mode, the result is the one with triage off.
    pub evaluate_with_mode_off :
        (m : Text) (x : fl.Float) (c : Config fl.Float) (mode : TriageMode)
        → evaluate_with_mode lower fl m x (some c) mode
          ≡ evaluate lower fl m x (some (if decides_routing mode then unkeyed c else c))
    unfolding evaluate evaluate_with_mode
    evaluate_with_mode_off m x c mode = rules_mode (map lower m) x c mode
