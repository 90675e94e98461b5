-- ===== src/Router/Judge/Shadow.antt =====
-- What `JudgeAnswer` of unica/router/internal/routing/judge.go does without enforcement.
use lurus_unica.Common.{
  ℕ, Bool, true, false, ◌&&◌, Option, none, some, List, arith, ◌≡◌, refl, sym, ap, ◌∙◌, ℤ, String,
  ltb, length, if◌then◌else◌,
}
use lurus_unica.Common.Floats.{Floats}
use lurus_unica.Common.Text.{Text}
use lurus_unica.Domain.Text.{Categories, is_blank_answer}
use lurus_unica.Domain.Breaker.{Breaker, BreakerConfig}
use lurus_unica.Domain.Claims.{Claim}
use lurus_unica.Domain.Violation.{Violation}
use lurus_unica.Domain.Config.{enforces, validates, breaker_of}
use lurus_unica.Router.Guardrail.Evaluator.{EvalResult, evaluate_with_mode, delivers}
use lurus_unica.Router.Confidence.{grounded_confidence}
use lurus_unica.Router.Judge.{
  JudgeInput, escalation_of, escalate, ask_breaker, is_checked, violations_of, confidence_of,
  verdict, withhold, judge_answer,
}

module _ (lower : ℕ → ℕ) (fl : Floats) (u : Categories) {Ontology : Type 0}
    (validate : Ontology → List Claim → Text → List Violation) where
  open fl use {Float}

  -- The input with validation switched off.
  abbrev pub unchecked : JudgeInput Ontology Float → JudgeInput Ontology Float
  unchecked i = record i { ontology_cfg = none }

  abbrev pub IsViolating : JudgeInput Ontology Float → Type 0
  IsViolating i = ltb 0 (length (violations_of lower fl u validate i)) ≡ true

  confidence-unchecked :
      (i : JudgeInput Ontology Float)
      → IsViolating i
      → confidence_of lower fl u validate i ≡ confidence_of lower fl u validate (unchecked i)
  unfolding confidence_of grounded_confidence is_checked validates
  confidence-unchecked i v = ground arith

  verdict-unchecked :
      (i : JudgeInput Ontology Float)
      → IsViolating i
      → verdict lower fl u validate i ≡ verdict lower fl u validate (unchecked i)
  unfolding verdict
  verdict-unchecked i v =
      ap
        (λ c.
          escalate lower fl (escalation_of lower i.resp.answer) c
            (evaluate_with_mode lower fl i.query c i.guardrail_cfg i.triage_mode))
        (confidence-unchecked i v)

  refused :
      (b : Option Breaker) (pl : String) (checked violating : Bool)
      (cfg : Option (BreakerConfig Float)) (now now' : ℤ)
      → (ask_breaker lower fl b pl checked false violating cfg now now').1 ≡ false
  unfolding ask_breaker
  refused none pl checked violating cfg now now' = refl
  refused (some b) pl checked violating cfg now now' = ground arith

  -- What is made of a verdict that nothing enforces against.
  unfoldable settled : Text → EvalResult Float → EvalResult Float
  settled a r = if is_blank_answer u a && delivers r.decision then withhold lower fl r else r

  result_unenforced :
      (i : JudgeInput Ontology Float) (b : Option Breaker) (now now' : ℤ)
      → enforces i.ontology_cfg ≡ false
      → let j = (judge_answer lower fl u validate i b now now').1 in
        (j.result ≡ settled j.answer (verdict lower fl u validate i)) × (j.enforced ≡ false)
  unfolding judge_answer settled
  result_unenforced i b now now' e = ground (
    arith,
    refused b i.product_line_id (is_checked lower fl u validate i)
        (ltb 0 (length (violations_of lower fl u validate i))) (breaker_of i.ontology_cfg) now now',
  )

  -- Where a product line does not enforce, an answer that violates its ontology gets the answer text,
  -- the confidence and the result that it gets with validation switched off, whatever the breaker.
  pub judge_answer_shadow :
      (i : JudgeInput Ontology Float) (b : Option Breaker) (now now' : ℤ)
      → enforces i.ontology_cfg ≡ false
      → IsViolating i
      → let j = (judge_answer lower fl u validate i b now now').1 in
        let k = (judge_answer lower fl u validate (unchecked i) none now now').1 in
        (j.answer ≡ k.answer)
        × (j.confidence ≡ k.confidence)
        × (j.result ≡ k.result)
        × (j.enforced ≡ false)
  unfolding judge_answer enforces settled
  judge_answer_shadow i b now now' e v =
      let (r, f) = result_unenforced i b now now' e in
      let (r', f') = result_unenforced (unchecked i) none now now' refl in
      (
        refl,
        confidence-unchecked i v,
        r
            ∙ ap (settled (escalation_of lower i.resp.answer).cleaned_answer)
                (verdict-unchecked i v)
            ∙ sym r',
        f,
      )
