-- ===== src/Router/Routing/Handover/Notes.antt =====
-- What the agents are told about the answer by unica/router/internal/routing/router.go.
use lurus_unica.Common.{
  ℕ, String, Bool, false, List, [], ◌∷◌, arith, ◌≡◌, ◌≢◌, ◌⊎◌, inl, inr, refl, Bool-cases,
}
use lurus_unica.Common.Floats.{Floats}
use lurus_unica.Common.Text.{Text}
use lurus_unica.Common.Search.{any}
use lurus_unica.Domain.Text.{Categories}
use lurus_unica.Domain.Claims.{Claim}
use lurus_unica.Domain.Violation.{Violation}
use lurus_unica.Router.Guardrail.Evaluator.{Decision, send, handoff, send_and_handoff, delivers}
use lurus_unica.Router.Judge.{Judgement}
use lurus_unica.Router.Routing.Types.{
  Message, Route, Live, Setup, Replies, Effect, answered, recorded, handed_off,
}
use lurus_unica.Router.Routing.Publish.{
  unless, publish_ai_response, publish_holding_message, publish_handoff_event, suppressed,
}
use lurus_unica.Router.Routing.Deliver.{
  deliver_as, deliver_judgement, submit_experience, record_violations,
}
use lurus_unica.Router.Routing.Answer.{
  guardrail_cfg, handoff_without_answer, judged, record_judgement, with_breaker, judge_and_deliver,
  call_dify_and_publish,
}
use lurus_unica.Router.Routing.Rules.{answer_rule}

module _ {F : Type 0} where
  -- A row of the log of handoffs that says that the answer was kept from the customer.
  unfoldable pub logs_suppressed : Effect F → Bool
  logs_suppressed (recorded x) = x.answer_suppressed
  logs_suppressed _ = false

  -- The answers that are sent, and the texts that the events show to the agents as drafts.
  unfoldable pub answers_of : List (Effect F) → List Text
  answers_of [] = []
  answers_of (answered a ∷ es) = a ∷ answers_of es
  answers_of (_ ∷ es) = answers_of es

  unfoldable pub drafts_of : List (Effect F) → List Text
  drafts_of [] = []
  drafts_of (handed_off x ∷ es) = x.ai_response_suppressed ∷ drafts_of es
  drafts_of (_ ∷ es) = drafts_of es

  abbrev Notes : Live × List (Effect F) → Type 0
  Notes x =
      answers_of x.1 ≢ []
      → (any logs_suppressed x.1 ≡ false)
        × ((drafts_of x.1 ≡ []) ⊎ (drafts_of x.1 ≡ answers_of x.1))

module _ (lower : ℕ → ℕ) (fl : Floats) (u : Categories) {Json Ontology : Type 0}
    (validate : Ontology → List Claim → Text → List Violation) (d : Setup fl.Float Json Ontology)
    (v : Replies fl.Float Json Ontology) (r : Route Json) (m : Message) (conv : String) where
  open fl use {Float}

  unanswered :
      (reason : String) (detail : Text) (s : Live)
      → answers_of (handoff_without_answer lower fl u validate d v r m conv reason detail s).1 ≡ []
  unfolding handoff_without_answer publish_holding_message publish_handoff_event unless answers_of
  unanswered reason detail s = ground arith

  delivered_log :
      (j : Judgement Float) (h : Text) (s : Live)
      → let es = (deliver_judgement lower fl u validate d v r m conv j h s).1 in
        answers_of es ≢ [] → any logs_suppressed es ≡ false
  unfolding deliver_judgement deliver_as submit_experience record_violations publish_ai_response
      publish_holding_message publish_handoff_event unless suppressed any logs_suppressed answers_of
      delivers
  delivered_log j h s n = ground arith

  delivered_drafts :
      (j : Judgement Float) (h : Text) (s : Live) (x : Decision)
      → let es = (deliver_as lower fl u validate d v r m conv j h s x).1 in
        answers_of es ≢ [] → (drafts_of es ≡ []) ⊎ (drafts_of es ≡ answers_of es)
  unfolding deliver_as submit_experience record_violations publish_ai_response
      publish_holding_message publish_handoff_event unless answers_of drafts_of
  delivered_drafts j h s send n = inl (ground arith)
  delivered_drafts j h s handoff n = inl (ground arith)
  delivered_drafts j h s send_and_handoff n = elim (Bool-cases v.handoff_fails) [
    | inl f ↦ inl (ground arith)
    | inr f ↦ inr (ground arith)
  ]

  delivered-Notes :
      (j : Judgement Float) (h : Text) (s : Live)
      → Notes (deliver_judgement lower fl u validate d v r m conv j h s)
  unfolding deliver_judgement
  delivered-Notes j h s n = (delivered_log j h s n, delivered_drafts j h s j.result.decision n)

  called-Notes : (s : Live) → Notes (call_dify_and_publish lower fl u validate d v r m conv s)
  unfolding judge_and_deliver any logs_suppressed answers_of drafts_of
  called-Notes s =
      answer_rule lower fl u validate d v r m conv Notes s
        (λ reason detail n. absurd (n (unanswered reason detail s)))
        (λ reason detail q c i n. absurd (n (unanswered reason detail s)))
        (λ ac resp q c i.
          let y = judged lower fl u validate d v r m ac resp s in
          delivered-Notes y.1 (guardrail_cfg lower fl u validate d r).holding_message (
            record_judgement lower fl u validate d v conv ac resp
              (with_breaker lower fl u validate d y.0 s)))
        (λ _ n. absurd (n refl))

  -- Where an answer is sent for a message, no row of the log of handoffs says for that message that the
  -- answer was kept from the customer, whatever fails. The event for the agents makes no such
  -- difference: if there is one, its `ai_response_suppressed` is the answer that was sent.
  pub call_dify_and_publish-sent :
      (s : Live)
      → let es = (call_dify_and_publish lower fl u validate d v r m conv s).1 in
        answers_of es ≢ []
        → (any logs_suppressed es ≡ false) × ((drafts_of es ≡ []) ⊎ (drafts_of es ≡ answers_of es))
  call_dify_and_publish-sent s n = called-Notes s n
