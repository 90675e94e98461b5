-- ===== src/Router/Routing/Readable.antt =====
-- That customers can read what unica/router/internal/routing/router.go sends them.
use lurus_unica.Common.{
  ℕ, String, Bool, false, ◌&&◌, some, List, [], ◌∷◌, count, count-append, arith, ◌≡◌, refl,
}
use lurus_unica.Common.Floats.{Floats}
use lurus_unica.Common.Text.{Text}
use lurus_unica.Domain.Text.{Categories, is_blank_answer}
use lurus_unica.Domain.Claims.{Claim}
use lurus_unica.Domain.Violation.{Violation}
use lurus_unica.Router.Guardrail.Settings.{defaults, is_zero}
use lurus_unica.Router.Guardrail.Settings.Loading.{IsUsable, load-IsUsable}
use lurus_unica.Router.Guardrail.Evaluator.{delivers}
use lurus_unica.Router.Confidence.{DifyResponse}
use lurus_unica.Router.Judge.{Judgement}
use lurus_unica.Router.Judge.Delivery.{judge_answer_outcome}
use lurus_unica.Router.Routing.Types.{
  Message, Entry, Route, Live, Setup, Replies, Effect, answered, held,
}
use lurus_unica.Router.Routing.Publish.{
  unless, publish_ai_response, publish_holding_message, publish_handoff_event,
}
use lurus_unica.Router.Routing.Context.{AiCallContext}
use lurus_unica.Router.Routing.Deliver.{
  deliver_as, submit_experience, record_violations, deliver_judgement,
}
use lurus_unica.Router.Routing.Answer.{
  guardrail_cfg, handoff_without_answer, judged, judge_input, record_judgement, with_breaker,
  judge_and_deliver, call_dify_and_publish,
}
use lurus_unica.Router.Routing.Process.{ack, then_ack, routed, handle, process_message, process_all}
use lurus_unica.Router.Routing.Rules.{answer_rule, handle_rule, process_rule}

module _ (u : Categories) {F : Type 0} where
  -- A message to the customer with nothing to read.
  unfoldable pub is_blank_message : Effect F → Bool
  is_blank_message (answered a) = is_blank_answer u a
  is_blank_message (held t) = is_blank_answer u t
  is_blank_message _ = false

  -- How many of them there are.
  abbrev pub blanks : Live × List (Effect F) → ℕ
  blanks x = count is_blank_message x.1

module _ (lower : ℕ → ℕ) (fl : Floats) (u : Categories) {Json Ontology : Type 0}
    (validate : Ontology → List Claim → Text → List Violation) (d : Setup fl.Float Json Ontology)
    (threshold : is_zero fl (defaults fl).confidence_threshold ≡ false)
    (holding_shows : is_blank_answer u (defaults fl).holding_message ≡ false) where
  open fl use {Float}

  holding-readable :
      (r : Route Json)
      → is_blank_answer u (guardrail_cfg lower fl u validate d r).holding_message ≡ false
  unfolding guardrail_cfg IsUsable
  holding-readable r =
      (load-IsUsable fl u d.is_blob d.decode_guardrail threshold holding_shows r.config_json).1.1

  judged-readable :
      (v : Replies Float Json Ontology) (r : Route Json) (m : Message)
      (ac : AiCallContext Float Ontology) (resp : DifyResponse Float) (s : Live)
      → let j = (judged lower fl u validate d v r m ac resp s).1 in
        (delivers j.result.decision && is_blank_answer u j.answer) ≡ false
  unfolding judged
  judged-readable v r m ac resp s =
      let i = judge_input lower fl u validate d r m ac resp in
      ground (arith, judge_answer_outcome lower fl u validate i (some s.breaker) v.before v.after)

  module _ (v : Replies Float Json Ontology) (r : Route Json) (m : Message) where
    deliver-readable :
        (conv : String) (j : Judgement Float) (h : Text) (s : Live)
        → is_blank_answer u h ≡ false
        → (delivers j.result.decision && is_blank_answer u j.answer) ≡ false
        → blanks u (deliver_judgement lower fl u validate d v r m conv j h s) ≡ 0
    unfolding deliver_judgement deliver_as submit_experience record_violations publish_ai_response
        publish_holding_message publish_handoff_event unless is_blank_message delivers
    deliver-readable conv j h s p q = ground arith

    without_answer-readable :
        (conv reason : String) (detail : Text) (s : Live)
        → blanks u (handoff_without_answer lower fl u validate d v r m conv reason detail s) ≡ 0
    unfolding handoff_without_answer publish_holding_message publish_handoff_event unless
        is_blank_message
    without_answer-readable conv reason detail s = ground (arith, holding-readable r)

    answer-readable :
        (conv : String) (s : Live)
        → blanks u (call_dify_and_publish lower fl u validate d v r m conv s) ≡ 0
    unfolding is_blank_message judge_and_deliver
    answer-readable conv s =
        answer_rule lower fl u validate d v r m conv (λ x. blanks u x ≡ 0) s
          (λ reason detail. without_answer-readable conv reason detail s)
          (λ reason detail q c i. without_answer-readable conv reason detail s)
          (λ ac resp q c i.
            let x = judged lower fl u validate d v r m ac resp s in
            deliver-readable conv x.1 (guardrail_cfg lower fl u validate d r).holding_message
              (record_judgement lower fl u validate d v conv ac resp
                (with_breaker lower fl u validate d x.0 s))
              (holding-readable r) (judged-readable v r m ac resp s))
          (λ _. refl)

    handle-readable : (s : Live) → blanks u (handle lower fl u validate d v r m s) ≡ 0
    unfolding is_blank_message unless
    handle-readable s =
        handle_rule lower fl u validate d v r m (λ x. blanks u x ≡ 0) (λ _. refl)
          (λ _. ground arith) (λ _ _. refl) answer-readable s

  message-readable :
      (v : Replies Float Json Ontology) (e : Entry) (s : Live)
      → blanks u (process_message lower fl u validate d v e s) ≡ 0
  unfolding then_ack ack unless is_blank_message
  message-readable v e s =
      process_rule lower fl u validate d v e s (λ x. blanks u x ≡ 0) (ground arith)
        (λ _ _. ground arith) (λ _ _. refl)
        (λ r m _.
          let m' = routed lower fl u validate d r m in
          let es = (handle lower fl u validate d v r m' s).1 in
          ground (
            arith,
            count-append (is_blank_message u) es (ack lower fl u validate d v e.id),
            handle-readable v r m' s,
          ))

  -- Whatever arrives, and whatever the model replies and fails: no text that a customer cannot read is
  -- sent, neither as an answer nor as a holding message. (The default threshold is not 0, and the
  -- default holding message can be read.)
  pub process_all-readable :
      (v : Entry → Replies Float Json Ontology) (es : List Entry) (s : Live)
      → blanks u (process_all lower fl u validate d v es s) ≡ 0
  unfolding process_all
  process_all-readable v [] s = refl
  process_all-readable v (e ∷ es) s =
      let (s', xs) = process_message lower fl u validate d (v e) e s in
      let (s'', ys) = process_all lower fl u validate d v es s' in
      ground (
        arith,
        count-append (is_blank_message u) xs ys,
        message-readable (v e) e s,
        process_all-readable v es s',
      )
