-- ===== src/Router/Routing/Service.antt =====
-- What customers and agents see of a message that goes to the model:
-- `callDifyAndPublish` of unica/router/internal/routing/router.go.
use lurus_unica.Common.{
  ℕ, String, Bool, true, false, not, ◌&&◌, List, count, arith, ◌≡◌, ◌≤◌, if◌then◌else◌,
}
use lurus_unica.Common.Floats.{Floats}
use lurus_unica.Common.Text.{Text, is_empty}
use lurus_unica.Domain.Text.{Categories}
use lurus_unica.Domain.Claims.{Claim}
use lurus_unica.Domain.Violation.{Violation}
use lurus_unica.Router.Guardrail.Evaluator.{delivers, escalates, EvalResult}
use lurus_unica.Router.Judge.{Judgement}
use lurus_unica.Router.Routing.Types.{
  Message, Route, Live, Setup, Replies, Effect, asked, answered, held, thanked, handed_off, acked,
}
use lurus_unica.Router.Routing.Publish.{
  unless, publish_ai_response, publish_holding_message, publish_handoff_event,
}
use lurus_unica.Router.Routing.Rules.{answer_rule}
use lurus_unica.Router.Routing.Deliver.{
  deliver_as, submit_experience, record_violations, deliver_judgement,
}
use lurus_unica.Router.Routing.Answer.{
  handoff_without_answer, judge_and_deliver, call_dify_and_publish, judged, guardrail_cfg,
  record_judgement, with_breaker,
}

-- Messages to the customer, events for the agents, calls of the model, and acknowledgements.
abbrev pub Tally : Type 0
Tally = ℕ × (ℕ × (ℕ × ℕ))

module _ {F : Type 0} where
  -- What reaches the customer.
  unfoldable pub to_customer : Effect F → Bool
  to_customer (answered a) = true
  to_customer (held t) = true
  to_customer (thanked o) = true
  to_customer _ = false

  unfoldable pub is_handoff : Effect F → Bool
  is_handoff (handed_off e) = true
  is_handoff _ = false

  unfoldable pub is_question : Effect F → Bool
  is_question (asked q c i) = true
  is_question _ = false

  unfoldable pub is_ack : Effect F → Bool
  is_ack (acked id) = true
  is_ack _ = false

  unfoldable pub tally : List (Effect F) → Tally
  tally es = (count to_customer es, (count is_handoff es, (count is_question es, count is_ack es)))

module _ {F : Type 0} where
  abbrev pub Modest : Live × List (Effect F) → Type 0
  Modest x =
      (count to_customer x.1 ≤ 1)
      × (count is_handoff x.1 ≤ 1)
      × (count is_question x.1 ≤ 1)
      × (count is_ack x.1 ≡ 0)

abbrev pub one_if : Bool → ℕ
one_if b = if b then 1 else 0

module _ (lower : ℕ → ℕ) (fl : Floats) (u : Categories) {Json Ontology : Type 0}
    (validate : Ontology → List Claim → Text → List Violation) (d : Setup fl.Float Json Ontology)
    (v : Replies fl.Float Json Ontology) (r : Route Json) (m : Message) (conv : String) where
  open fl use {Float}

  tally-handoff_event :
      (x : EvalResult Float) (a : Text)
      → tally (publish_handoff_event u d v m conv r.product_line_id x a)
        ≡ (0, (one_if (not v.handoff_fails), (0, 0)))
  unfolding tally publish_handoff_event unless to_customer is_handoff is_question is_ack
  tally-handoff_event x a = ground arith

  pub tally-handoff_without_answer :
      (reason : String) (detail : Text) (s : Live)
      → tally (handoff_without_answer lower fl u validate d v r m conv reason detail s).1
        ≡ (one_if (not v.hold_fails), (one_if (not v.handoff_fails), (0, 0)))
  unfolding tally handoff_without_answer publish_holding_message publish_handoff_event unless
      to_customer is_handoff is_question is_ack
  tally-handoff_without_answer reason detail s = ground arith

  pub tally-deliver :
      (j : Judgement Float) (h : Text) (s : Live)
      → tally (deliver_judgement lower fl u validate d v r m conv j h s).1 ≡ (
        one_if (not (if delivers j.result.decision then v.answer_fails else v.hold_fails)),
        (one_if (escalates j.result.decision && not v.handoff_fails), (0, 0)),
      )
  unfolding tally deliver_judgement deliver_as submit_experience record_violations
      publish_ai_response publish_holding_message publish_handoff_event unless to_customer
      is_handoff is_question is_ack delivers escalates
  tally-deliver j h s = ground arith

  module _ (answers : v.answer_fails ≡ false) (holds : v.hold_fails ≡ false) where
    deliver-served :
        (j : Judgement Float) (h : Text) (s : Live)
        → count to_customer (deliver_judgement lower fl u validate d v r m conv j h s).1 ≡ 1
    unfolding tally
    deliver-served j h s = ground (arith, tally-deliver j h s)

    without_answer-served :
        (reason : String) (detail : Text) (s : Live)
        → count to_customer
            (handoff_without_answer lower fl u validate d v r m conv reason detail s).1
          ≡ 1
    unfolding tally
    without_answer-served reason detail s =
        ground (arith, tally-handoff_without_answer reason detail s)

    -- A message with text that goes to the model: whatever the model replies, and whatever is made of it,
    -- the customer is sent exactly one message, the answer or the holding message. (The two writes to
    -- the outbound stream work.)
    pub call_dify_and_publish-served :
        (s : Live)
        → is_empty m.text ≡ false
        → count to_customer (call_dify_and_publish lower fl u validate d v r m conv s).1 ≡ 1
    unfolding judge_and_deliver to_customer
    call_dify_and_publish-served s written =
        answer_rule lower fl u validate d v r m conv
          (λ (x : Live × List (Effect Float)). count to_customer x.1 ≡ 1) s
          (λ reason detail. without_answer-served reason detail s)
          (λ reason detail q c i. without_answer-served reason detail s)
          (λ ac resp q c i.
            let x = judged lower fl u validate d v r m ac resp s in
            deliver-served x.1 (guardrail_cfg lower fl u validate d r).holding_message (
              record_judgement lower fl u validate d v conv ac resp
                (with_breaker lower fl u validate d x.0 s)))
          (λ blank. ground arith)

  -- Whatever fails, a message leads to at most one message to the customer, one event for the agents
  -- and one call of the model, and it is not acknowledged on the way.
  pub call_dify_and_publish-Modest :
      (s : Live) → Modest (call_dify_and_publish lower fl u validate d v r m conv s)
  unfolding judge_and_deliver to_customer is_handoff is_question is_ack tally
  call_dify_and_publish-Modest s =
      answer_rule lower fl u validate d v r m conv Modest s
        (λ reason detail. ground (arith, tally-handoff_without_answer reason detail s))
        (λ reason detail q c i. ground (arith, tally-handoff_without_answer reason detail s))
        (λ ac resp q c i.
          let x = judged lower fl u validate d v r m ac resp s in
          ground (
            arith,
            tally-deliver x.1 (guardrail_cfg lower fl u validate d r).holding_message (
                record_judgement lower fl u validate d v conv ac resp
                  (with_breaker lower fl u validate d x.0 s)),
          ))
        (λ blank. ground arith)
