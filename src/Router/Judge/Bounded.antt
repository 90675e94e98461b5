-- ===== src/Router/Judge/Bounded.antt =====
-- How the breaker of unica/pkg/domain/breaker.go bounds what `JudgeAnswer` of
-- unica/router/internal/routing/judge.go suppresses.
use lurus_unica.Common.{
  ℕ, Bool, true, false, not, ◌&&◌, Option, some, List, arith, ◌≡◌, ℤ, ltb, ltb_ℤ, length, String,
  inl, inr, Bool-cases,
}
use lurus_unica.Common.Floats.{Floats}
use lurus_unica.Common.Text.{Text}
use lurus_unica.Common.Search.{is_some}
use lurus_unica.Domain.Text.{Categories, is_blank_answer}
use lurus_unica.Domain.Breaker.{Breaker, BreakerLine, BreakerConfig, normalise}
use lurus_unica.Domain.Breaker.Decision.{allow_within}
use lurus_unica.Domain.Claims.{Claim}
use lurus_unica.Domain.Violation.{Violation}
use lurus_unica.Domain.Config.{enforces, breaker_of}
use lurus_unica.Router.Guardrail.Evaluator.{delivers}
use lurus_unica.Router.Judge.{JudgeInput, ask_breaker, is_checked, violations_of, judge_answer}
use lurus_unica.Router.Judge.Delivery.{evaluated, judge_answer_outcome}

module _ (lower : ℕ → ℕ) (fl : Floats) where
  open fl use {Float}

  ask_within :
      (b : Breaker) (l : BreakerLine) (pl : String) (checked enforcing violating : Bool)
      (cfg : Option (BreakerConfig Float)) (t t' : ℤ)
      → b.lines pl ≡ some l
      → (normalise fl cfg).disabled ≡ false
      → ltb_ℤ t l.open_until ≡ true
      → let r = ask_breaker lower fl (some b) pl checked enforcing violating cfg t t' in
        ((r.1 && checked) ≡ false) × (r.2 ≡ false)
  unfolding ask_breaker
  ask_within b l pl checked enforcing violating cfg t t' p d e =
      ground (arith, allow_within fl b l pl cfg t t' p d e)

  module _ (u : Categories) {Ontology : Type 0}
      (validate : Ontology → List Claim → Text → List Violation) where
    violating-checked :
        (i : JudgeInput Ontology Float)
        → ltb 0 (length (violations_of lower fl u validate i)) ≡ true
        → is_checked lower fl u validate i ≡ true
    unfolding violations_of is_checked is_some
    violating-checked i v = ground arith

    unenforced :
        (i : JudgeInput Ontology Float) (b : Breaker) (l : BreakerLine) (t t' : ℤ)
        → b.lines i.product_line_id ≡ some l
        → (normalise fl (breaker_of i.ontology_cfg)).disabled ≡ false
        → ltb_ℤ t l.open_until ≡ true
        → let j = (judge_answer lower fl u validate i (some b) t t').1 in
          (j.enforced ≡ false) × (j.breaker_tripped ≡ false)
    unfolding judge_answer
    unenforced i b l t t' p d e =
        let checked = is_checked lower fl u validate i in
        let violating = ltb 0 (length (violations_of lower fl u validate i)) in
        let w =
          ask_within b l i.product_line_id checked (enforces i.ontology_cfg) violating
            (breaker_of i.ontology_cfg) t t' p d e in
        elim (Bool-cases violating) [
          | inl v ↦ ground (arith, w, violating-checked i v)
          | inr n ↦ ground (arith, w)
        ]

    -- While a product line is in the cooldown of a trip, no answer is suppressed for its violations and
    -- no second trip is counted: an answer is delivered exactly if it is not blank and the guardrail's
    -- rules deliver it. (The breaker is not disabled in the settings.)
    pub judge_answer_within_cooldown :
        (i : JudgeInput Ontology Float) (b : Breaker) (l : BreakerLine) (t t' : ℤ)
        → b.lines i.product_line_id ≡ some l
        → (normalise fl (breaker_of i.ontology_cfg)).disabled ≡ false
        → ltb_ℤ t l.open_until ≡ true
        → let j = (judge_answer lower fl u validate i (some b) t t').1 in
          (j.enforced ≡ false)
          × (j.breaker_tripped ≡ false)
          × (delivers j.result.decision ≡ (
              not (is_blank_answer u j.answer)
              && delivers (evaluated lower fl u validate i).decision))
    judge_answer_within_cooldown i b l t t' p d e =
        let (n, s) = unenforced i b l t t' p d e in
        let (o, _) = judge_answer_outcome lower fl u validate i (some b) t t' in
        (n, s, ground (arith, n, o))
