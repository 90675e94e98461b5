-- ===== src/Router/Guardrail/Evaluator.antt =====
-- unica/router/internal/guardrail: evaluator.go and triage.go. `lower` is `unicode.ToLower`.
pub mod Outcome
pub mod Modes
use lurus_unica.Common.{
  ℕ, String, Bool, true, false, not, ◌&&◌, ◌||◌, Option, none, some, List, [], ◌∷◌, map, str_eq,
  ◌==◌, if◌then◌else◌,
}
use lurus_unica.Common.Floats.{Floats}
use lurus_unica.Common.Text.{Text, codes, contains, trim_space, is_empty, text_eq}
use lurus_unica.Common.Search.{find}
use lurus_unica.Domain.Escalation.{
  escalate_payout, escalate_liability, escalate_safety, escalate_regulator,
}
use lurus_unica.Router.Guardrail.Settings.{Config, defaults}

pub data Decision : Type 0 where
  send : Decision
  handoff : Decision
  send_and_handoff : Decision

unfoldable pub delivers : Decision → Bool
delivers d = elim d [ send ↦ true | handoff ↦ false | send_and_handoff ↦ true ]

unfoldable pub escalates : Decision → Bool
escalates d = elim d [ send ↦ false | handoff ↦ true | send_and_handoff ↦ true ]

abbrev pub reason_confidence_ok : String
reason_confidence_ok = "confidence_ok"

abbrev pub reason_low_confidence : String
reason_low_confidence = "low_confidence"

abbrev pub reason_keyword_match : String
reason_keyword_match = "keyword_match"

abbrev pub reason_blocked_topic : String
reason_blocked_topic = "blocked_topic"

abbrev pub reason_safety_incident : String
reason_safety_incident = "safety_incident"

abbrev pub reason_funds_at_risk : String
reason_funds_at_risk = "funds_at_risk"

abbrev pub reason_payout_request : String
reason_payout_request = "payout_request"

abbrev pub reason_liability_payout : String
reason_liability_payout = "liability_payout"

abbrev pub reason_regulator_threat : String
reason_regulator_threat = "regulator_threat"

abbrev pub reason_model_requested : String
reason_model_requested = "model_requested"

abbrev pub reason_claim_conflict : String
reason_claim_conflict = "claim_conflict"

abbrev pub reason_ai_unavailable : String
reason_ai_unavailable = "ai_unavailable"

unfoldable pub escalation_reason : Text → String
unfolding text_eq
escalation_reason tag =
    if text_eq tag escalate_payout
    then reason_payout_request
    else if text_eq tag escalate_liability
    then reason_liability_payout
    else if text_eq tag escalate_safety
    then reason_safety_incident
    else if text_eq tag escalate_regulator
    then reason_regulator_threat
    else reason_model_requested

unfoldable pub is_quality_signal : String → Bool
is_quality_signal reason = str_eq reason reason_low_confidence

pub record EvalResult (F : Type 0) : Type 0 where
  pub decision : Decision
  pub reason : String
  pub confidence : F
  pub matched_keyword : Text
  pub detail : Text

-- A triage mode is a string, as in the source.
abbrev pub TriageMode : Type 0
TriageMode = Text

abbrev pub triage_off : TriageMode
triage_off = codes "off"

abbrev pub triage_shadow : TriageMode
triage_shadow = codes "shadow"

abbrev pub triage_on : TriageMode
triage_on = codes "on"

abbrev pub default_triage_mode : TriageMode
default_triage_mode = triage_shadow

unfoldable pub decides_routing : TriageMode → Bool
unfolding text_eq
decides_routing m = text_eq m triage_on

unfoldable pub classifies : TriageMode → Bool
unfolding text_eq
classifies m = text_eq m triage_shadow || text_eq m triage_on

unfoldable pub harm_topics : List Text
harm_topics = map codes (
    "上吐下泻" ∷ "食物中毒" ∷ "吃坏了" ∷ "吃出" ∷ "过敏了" ∷ "住院" ∷ "急诊" ∷ "挂水" ∷ "拉肚子" ∷ "呕吐" ∷ "腹泻" ∷ "发现异物"
    ∷ "有异物" ∷ [])

unfoldable pub funds_at_risk_topics : List Text
funds_at_risk_topics =
    map codes ("个人账户" ∷ "私人账户" ∷ "私户" ∷ "私下转账" ∷ "骗子" ∷ "诈骗" ∷ "被骗" ∷ "卷款" ∷ "跑路" ∷ [])

unfoldable pub first_match : Text → List Text → Option Text
first_match msg terms = find (λ t. not (is_empty t) && contains msg t) terms

module _ (lower : ℕ → ℕ) where
  -- `none` is the error.
  unfoldable pub parse_triage_mode : Text → Option TriageMode
  unfolding text_eq is_empty
  parse_triage_mode s =
      let mode = map lower (trim_space s) in
      if is_empty mode
      then some default_triage_mode
      else if text_eq mode triage_off || text_eq mode triage_shadow || text_eq mode triage_on
      then some mode
      else none

  -- The loop over a configured list.
  unfoldable pub first_configured : Text → List Text → Option Text
  unfolding find
  first_configured lower_msg terms =
      find (λ t. not (is_empty t) && contains lower_msg (map lower t)) terms

  module _ (fl : Floats) where
    -- Step 3 and 4.
    unfoldable pub evaluate_confidence : fl.Float → Config fl.Float → EvalResult fl.Float
    evaluate_confidence confidence config =
        if fl.lt confidence config.confidence_threshold
        then record {
          decision = handoff;
          reason = reason_low_confidence;
          confidence = confidence;
          matched_keyword = [];
          detail = [];
        }
        else record {
          decision = send;
          reason = reason_confidence_ok;
          confidence = confidence;
          matched_keyword = [];
          detail = [];
        }

    -- Step 2, and the steps after it.
    unfoldable pub evaluate_keywords :
        Text → fl.Float → Config fl.Float → TriageMode → EvalResult fl.Float
    unfolding evaluate_confidence
    evaluate_keywords msg confidence config mode =
        if not (decides_routing mode)
        then elim (first_configured msg config.handoff_keywords) [
          | some kw ↦ record {
            decision = handoff;
            reason = reason_keyword_match;
            confidence = confidence;
            matched_keyword = kw;
            detail = [];
          }
          | none ↦ evaluate_confidence confidence config
        ]
        else evaluate_confidence confidence config

    -- Step 1, 1b and 1c, and the steps after them.
    unfoldable pub evaluate_rules :
        Text → fl.Float → Config fl.Float → TriageMode → EvalResult fl.Float
    unfolding evaluate_keywords first_match
    evaluate_rules msg confidence config mode = elim (first_configured msg config.blocked_topics) [
      | some topic ↦ record {
        decision = handoff;
        reason = reason_blocked_topic;
        confidence = confidence;
        matched_keyword = topic;
        detail = [];
      }
      | none ↦ elim (first_match msg harm_topics) [
        | some m ↦ record {
          decision = send_and_handoff;
          reason = reason_safety_incident;
          confidence = confidence;
          matched_keyword = m;
          detail = codes "客户报告食用后身体不适或异物，按食品安全事件升级";
        }
        | none ↦ elim (first_match msg funds_at_risk_topics) [
          | some m ↦ record {
            decision = send_and_handoff;
            reason = reason_funds_at_risk;
            confidence = confidence;
            matched_keyword = m;
            detail = codes "客户报告资金流向平台外或疑似诈骗，按资金安全事件升级";
          }
          | none ↦ evaluate_keywords msg confidence config mode
        ]
      ]
    ]

    unfoldable pub evaluate_with_mode :
        Text → fl.Float → Option (Config fl.Float) → TriageMode → EvalResult fl.Float
    unfolding evaluate_rules
    evaluate_with_mode message confidence config mode = elim config [
      | none ↦ evaluate_rules (map lower message) confidence (defaults fl) mode
      | some c ↦ evaluate_rules (map lower message) confidence c mode
    ]

    unfoldable pub evaluate : Text → fl.Float → Option (Config fl.Float) → EvalResult fl.Float
    unfolding evaluate_with_mode
    evaluate message confidence config = evaluate_with_mode message confidence config triage_off
