-- ===== src/Router/Routing/Deliver.antt =====
-- `deliverJudgement` of unica/router/internal/routing/router.go. Metrics and logs are left out.
use lurus_unica.Common.{
  ℕ, String, Bool, true, false, not, List, [], ◌++◌, length, ltb, if◌then◌else◌,
}
use lurus_unica.Common.Floats.{Floats}
use lurus_unica.Common.Text.{Text}
use lurus_unica.Domain.Text.{Categories}
use lurus_unica.Domain.Claims.{Claim}
use lurus_unica.Domain.Violation.{Violation}
use lurus_unica.Router.State.Machine.{state_human_processing}
use lurus_unica.Router.Guardrail.Evaluator.{
  Decision, send, handoff, send_and_handoff, is_quality_signal,
}
use lurus_unica.Router.Judge.{Judgement}
use lurus_unica.Router.Routing.Types.{
  Message, Route, Live, Setup, Replies, Effect, submitted, evidence,
}
use lurus_unica.Router.Routing.Publish.{
  unless, publish_ai_response, publish_holding_message, publish_handoff_event, move_to,
}

module _ (lower : ℕ → ℕ) (fl : Floats) (u : Categories) {Json Ontology : Type 0}
    (validate : Ontology → List Claim → Text → List Violation)
    (d : Setup fl.Float Json Ontology) where
  open fl use {Float}

  -- `Submit` of a sample for the experience base.
  unfoldable pub submit_experience : Text → Bool → List (Effect Float)
  unfolding unless
  submit_experience answer success = unless (not d.has_collector) (submitted answer success)

  unfoldable pub record_violations : Judgement Float → List (Effect Float)
  unfolding unless
  record_violations j =
      unless (not (ltb 0 (length j.violations))) (evidence j.violations j.enforced)

  -- What is done for a decision.
  unfoldable pub deliver_as :
      Replies Float Json Ontology
      → Route Json
      → Message
      → String
      → Judgement Float
      → Text
      → Live
      → Decision
      → Live × List (Effect Float)
  unfolding publish_ai_response publish_holding_message publish_handoff_event move_to
      is_quality_signal submit_experience record_violations
  deliver_as v r m conv j holding_message s send = (
    (publish_ai_response v m conv j.answer s).0,
    (publish_ai_response v m conv j.answer s).1
        ++ (submit_experience j.answer true ++ record_violations j),
  )
  deliver_as v r m conv j holding_message s send_and_handoff = (
    move_to d v.human_env conv state_human_processing (publish_ai_response v m conv j.answer s).0,
    (publish_ai_response v m conv j.answer s).1
        ++ (publish_handoff_event u d v m conv r.product_line_id j.result j.answer
            ++ (submit_experience j.answer true ++ record_violations j)),
  )
  deliver_as v r m conv j holding_message s handoff = (
    move_to d v.human_env conv state_human_processing s,
    publish_holding_message v holding_message
        ++ (publish_handoff_event u d v m conv r.product_line_id j.result j.answer
            ++ ((if is_quality_signal j.result.reason then submit_experience j.answer false else [])
                ++ record_violations j)),
  )

  unfoldable pub deliver_judgement :
      Replies Float Json Ontology
      → Route Json
      → Message
      → String
      → Judgement Float
      → Text
      → Live
      → Live × List (Effect Float)
  unfolding deliver_as
  deliver_judgement v r m conv j holding_message s =
      deliver_as v r m conv j holding_message s j.result.decision
