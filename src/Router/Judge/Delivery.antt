-- ===== src/Router/Judge/Delivery.antt =====
-- What `JudgeAnswer` of unica/router/internal/routing/judge.go lets through, and whom it calls.
use lurus_unica.Common.{ℕ, true, false, not, ◌&&◌, ◌||◌, Option, List, arith, ◌≡◌, ℤ}
use lurus_unica.Common.Floats.{Floats}
use lurus_unica.Common.Text.{Text}
use lurus_unica.Domain.Text.{Categories, is_blank_answer}
use lurus_unica.Domain.Breaker.{Breaker}
use lurus_unica.Domain.Escalation.{EscalationResult, announces_transfer}
use lurus_unica.Domain.Claims.{Claim}
use lurus_unica.Domain.Violation.{Violation}
use lurus_unica.Router.Guardrail.Evaluator.{delivers, escalates, EvalResult, evaluate_with_mode}
use lurus_unica.Router.Judge.{
  JudgeInput, escalation_of, is_send, escalate, enforce, withhold, violations_of, confidence_of,
  verdict, judge_answer,
}

module _ (lower : ℕ → ℕ) (fl : Floats) where
  open fl use {Float}

  delivers-escalate :
      (e : EscalationResult) (c : Float) (r : EvalResult Float)
      → delivers (escalate lower fl e c r).decision ≡ delivers r.decision
  unfolding escalate is_send delivers
  delivers-escalate e c r = ground arith

  escalates-escalate :
      (e : EscalationResult) (c : Float) (r : EvalResult Float)
      → escalates (escalate lower fl e c r).decision
        ≡ ((e.requested || announces_transfer e.cleaned_answer) || escalates r.decision)
  unfolding escalate is_send escalates
  escalates-escalate e c r = ground arith

  delivers-enforce : (vs : List Violation) → delivers (enforce lower fl vs).decision ≡ false
  unfolding enforce delivers
  delivers-enforce vs = ground arith

  delivering_or_escalating :
      (r : EvalResult Float) → (delivers r.decision || escalates r.decision) ≡ true
  unfolding delivers escalates
  delivering_or_escalating r = ground arith

  module _ (u : Categories) {Ontology : Type 0}
      (validate : Ontology → List Claim → Text → List Violation) where
    -- The result of the guardrail's rules alone.
    abbrev pub evaluated : JudgeInput Ontology Float → EvalResult Float
    evaluated i =
        evaluate_with_mode lower fl i.query (confidence_of lower fl u validate i) i.guardrail_cfg
          i.triage_mode

    -- An answer is delivered exactly if it is not blank once its tags are stripped, enforcement did not
    -- suppress it, and the guardrail's rules deliver it. A person is brought in exactly if the stripped
    -- answer is blank, enforcement suppressed it, the model asked for a person or announced one, or the
    -- rules escalate.
    pub judge_answer_outcome :
        (i : JudgeInput Ontology Float) (b : Option Breaker) (now now' : ℤ)
        → let j = (judge_answer lower fl u validate i b now now').1 in
          (delivers j.result.decision ≡ (
            not (is_blank_answer u j.answer)
            && (not j.enforced && delivers (evaluated i).decision)))
          × (escalates j.result.decision ≡ (
              is_blank_answer u j.answer
              || (j.enforced || (j.escalated || escalates (evaluated i).decision))))
    unfolding judge_answer verdict enforce withhold delivers escalates
    judge_answer_outcome i b now now' =
        let e = escalation_of lower i.resp.answer in
        let c = confidence_of lower fl u validate i in
        ground (
          arith,
          delivers-escalate e c (evaluated i),
          escalates-escalate e c (evaluated i),
          delivering_or_escalating (evaluated i),
          delivers-enforce (violations_of lower fl u validate i),
        )
