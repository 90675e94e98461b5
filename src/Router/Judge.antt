-- ===== src/Router/Judge.antt =====
-- unica/router/internal/routing/judge.go: `JudgeAnswer`, the chain of decisions about one answer. The
-- check of an answer against an ontology is an argument here; `none` stands for a nil pointer.
pub mod Delivery
pub mod Shadow
pub mod Bounded
mod Tests
use lurus_unica.Common.{
  ℕ, String, Bool, true, false, not, ◌&&◌, ◌||◌, Option, none, some, List, [], ◌∷◌, ◌++◌, length,
  ltb, if◌then◌else◌, ℤ,
}
use lurus_unica.Common.Floats.{Floats}
use lurus_unica.Common.Text.{Text, codes, trim_space}
use lurus_unica.Common.Search.{is_some}
use lurus_unica.Domain.Text.{Categories, is_blank_answer}
use lurus_unica.Domain.Breaker.{BreakerConfig, Breaker, allow, record_outcome}
use lurus_unica.Domain.Escalation.{EscalationResult, parse_escalation, announces_transfer}
use lurus_unica.Domain.Claims.{Claim, ClaimResult, parse_claims}
use lurus_unica.Domain.Violation.{Violation, summary}
use lurus_unica.Domain.Config.{Config, validates, enforces, breaker_of}
use lurus_unica.Router.Guardrail.Settings.{Config as GuardrailConfig}
use lurus_unica.Router.Guardrail.Evaluator.{
  Decision, send, handoff, send_and_handoff, delivers, escalates, EvalResult, TriageMode,
  reason_model_requested, reason_claim_conflict, escalation_reason, evaluate_with_mode,
}
use lurus_unica.Router.Marketing.{DetectResult, detect_intents}
use lurus_unica.Router.Confidence.{
  DifyResponse, GroundingEvidence, grounded_confidence, confidence_contradicted,
}

abbrev pub reason_empty_answer : String
reason_empty_answer = "empty_answer"

abbrev pub empty_answer_detail : Text
empty_answer_detail = codes "模型未产出可读的客户答复（标签剥离后只剩空白或标点），已改为不投递并转人工"

pub record JudgeInput (Ontology F : Type 0) : Type 0 where
  pub query : Text
  pub resp : DifyResponse F
  pub ontology : Option Ontology
  pub ontology_cfg : Option (Config F)
  pub guardrail_cfg : Option (GuardrailConfig F)
  pub triage_mode : TriageMode
  pub facts_injected : Bool
  pub experience_injected : Bool
  pub product_line_id : String

pub record Judgement (F : Type 0) : Type 0 where
  pub answer : Text
  pub claims : List Claim
  pub intents : List Text
  pub violations : List Violation
  pub confidence : F
  pub result : EvalResult F
  pub enforced : Bool
  pub escalated : Bool
  pub escalation_tagged : Bool
  pub breaker_tripped : Bool
  pub breaker_bypassed : Bool
  pub empty_answer_withheld : Bool

unfoldable pub is_send : Decision → Bool
is_send d = elim d [ send ↦ true | handoff ↦ false | send_and_handoff ↦ false ]

module _ (lower : ℕ → ℕ) where
  -- The two answers after the tags of a protocol are stripped.
  unfoldable pub without_facts : Text → ClaimResult
  unfolding parse_claims
  without_facts raw = parse_claims raw

  unfoldable pub detected : Text → DetectResult
  unfolding detect_intents without_facts
  detected raw = detect_intents lower (without_facts raw).cleaned_answer

  unfoldable pub escalation_of : Text → EscalationResult
  unfolding parse_escalation detected
  escalation_of raw = parse_escalation lower (detected raw).cleaned_answer

  module _ (fl : Floats) where
    open fl use {Float}

    -- What the escalation adds to a result.
    unfoldable pub escalate : EscalationResult → Float → EvalResult Float → EvalResult Float
    unfolding is_send escalation_reason announces_transfer
    escalate e confidence r =
        if e.requested || announces_transfer e.cleaned_answer
        then if is_send r.decision
          then record {
            decision = send_and_handoff;
            reason = if e.requested then escalation_reason e.reason else reason_model_requested;
            confidence = confidence;
            matched_keyword = [];
            detail =
                if e.requested
                then codes "模型在答复中请求转接人工"
                else codes "答复向客户承诺了转接，但未带 [HANDOFF:] 标签，按承诺升级";
          }
          else r
        else r

    unfoldable pub enforce : List Violation → EvalResult Float
    unfolding summary
    enforce vs = record {
      decision = handoff;
      reason = reason_claim_conflict;
      confidence = confidence_contradicted fl;
      matched_keyword = [];
      detail = summary vs;
    }

    unfoldable pub withhold : EvalResult Float → EvalResult Float
    unfolding escalates
    withhold r = record r {
      decision = handoff;
      reason = if not (escalates r.decision) then reason_empty_answer else r.reason;
      detail = trim_space (empty_answer_detail ++ codes " " ++ r.detail);
    }

    -- The breaker after the answer, whether it allows enforcement, and whether this call tripped it.
    unfoldable pub ask_breaker :
        Option Breaker
        → String
        → Bool
        → Bool
        → Bool
        → Option (BreakerConfig Float)
        → ℤ
        → ℤ
        → Option Breaker × Bool × Bool
    unfolding allow record_outcome
    ask_breaker none pl checked enforcing violating cfg now now' = (none, enforcing, false)
    ask_breaker (some b) pl checked enforcing violating cfg now now' =
        if not checked
        then (some b, enforcing, false)
        else if enforcing
        then (
          some (record_outcome fl (allow fl b pl cfg now now').0 pl violating cfg),
          (allow fl b pl cfg now now').1,
          (allow fl b pl cfg now now').2,
        )
        else (some (record_outcome fl b pl violating cfg), false, false)

    module _ (u : Categories) {Ontology : Type 0}
        (validate : Ontology → List Claim → Text → List Violation) where
      unfoldable pub is_checked : JudgeInput Ontology Float → Bool
      unfolding is_some validates
      is_checked i = is_some i.ontology && validates i.ontology_cfg

      unfoldable pub violations_of : JudgeInput Ontology Float → List Violation
      unfolding validates
      violations_of i = elim i.ontology [
        | none ↦ []
        | some o ↦
            if validates i.ontology_cfg
            then validate o (without_facts i.resp.answer).claims
                (escalation_of i.resp.answer).cleaned_answer
            else []
      ]

      unfoldable pub confidence_of : JudgeInput Ontology Float → Float
      unfolding grounded_confidence
      confidence_of i = grounded_confidence fl i.resp (record {
        facts_injected = i.facts_injected;
        experience_injected = i.experience_injected;
        checked = is_checked i;
        claims = length (without_facts i.resp.answer).claims;
        violations = length (violations_of i);
      })

      -- The verdict of the guardrail, with the escalation of the model.
      unfoldable pub verdict : JudgeInput Ontology Float → EvalResult Float
      unfolding evaluate_with_mode escalate
      verdict i =
          escalate (escalation_of i.resp.answer) (confidence_of i)
            (evaluate_with_mode lower fl i.query (confidence_of i) i.guardrail_cfg i.triage_mode)

      unfoldable pub judge_answer :
          JudgeInput Ontology Float → Option Breaker → ℤ → ℤ → Option Breaker × Judgement Float
      unfolding verdict enforce withhold ask_breaker enforces delivers
      judge_answer i breaker now now' =
          let e = escalation_of i.resp.answer in
          let violating = ltb 0 (length (violations_of i)) in
          let enforcing = enforces i.ontology_cfg in
          let (b, allowed, tripped) =
            ask_breaker breaker i.product_line_id (is_checked i) enforcing violating
              (breaker_of i.ontology_cfg) now now' in
          let enforced = allowed && violating in
          let r = if enforced then enforce (violations_of i) else verdict i in
          let withheld = is_blank_answer u e.cleaned_answer && delivers r.decision in
          let escalated = e.requested || announces_transfer e.cleaned_answer in
          (
            b,
            record {
              answer = e.cleaned_answer;
              claims = (without_facts i.resp.answer).claims;
              intents = (detected i.resp.answer).intents;
              violations = violations_of i;
              confidence = confidence_of i;
              result = if withheld then withhold r else r;
              enforced = enforced;
              escalated = escalated;
              escalation_tagged = escalated && e.requested;
              breaker_tripped = tripped;
              breaker_bypassed = enforcing && not allowed && violating;
              empty_answer_withheld = withheld;
            },
          )
