-- ===== src/Router/Routing/Answer.antt =====
-- `callDifyAndPublish` of unica/router/internal/routing/router.go and the functions that it calls.
-- Metrics, logs, marketing counts and the flag of a retrieval in the metadata are left out.
use lurus_unica.Common.{
  ℕ, ◌+◌, String, ◌&&◌, Option, none, some, List, [], ◌∷◌, ◌++◌, ◌⊎◌, inl, inr, if◌then◌else◌,
}
use lurus_unica.Common.Floats.{Floats}
use lurus_unica.Common.Text.{Text, codes, is_empty}
use lurus_unica.Domain.Text.{Categories}
use lurus_unica.Domain.Breaker.{Breaker}
use lurus_unica.Domain.Claims.{Claim}
use lurus_unica.Domain.Violation.{Violation}
use lurus_unica.Router.State.Machine.{state_human_processing}
use lurus_unica.Router.Guardrail.Settings.{Config as GuardrailConfig, load as load_guardrail_config}
use lurus_unica.Router.Guardrail.Evaluator.{
  handoff, classifies, decides_routing, reason_ai_unavailable,
}
use lurus_unica.Router.Intent.Classifier.{
  Class, informational, transactional, emotional, classify, needs_human,
}
use lurus_unica.Router.Confidence.{DifyResponse}
use lurus_unica.Router.Judge.{JudgeInput, Judgement, judge_answer}
use lurus_unica.Router.Routing.Types.{Message, Route, Live, Setup, Replies, Effect, asked}
use lurus_unica.Router.Routing.Publish.{publish_holding_message, publish_handoff_event, move_to}
use lurus_unica.Router.Routing.Context.{
  AiCallContext, get_dify_session, set_dify_conv_id, prepare_ai_context,
}
use lurus_unica.Router.Routing.Deliver.{deliver_judgement}

-- `"intent_" + string(triage.Class)`.
unfoldable pub intent_reason : Class → String
intent_reason c = elim c [
  | informational ↦ "intent_informational"
  | transactional ↦ "intent_transactional"
  | emotional ↦ "intent_emotional"
]

module _ (lower : ℕ → ℕ) (fl : Floats) (u : Categories) {Json Ontology : Type 0}
    (validate : Ontology → List Claim → Text → List Violation)
    (d : Setup fl.Float Json Ontology) where
  open fl use {Float}

  unfoldable pub guardrail_cfg : Route Json → GuardrailConfig Float
  unfolding load_guardrail_config
  guardrail_cfg r = load_guardrail_config fl u d.is_blob d.decode_guardrail r.config_json

  unfoldable pub handoff_without_answer :
      Replies Float Json Ontology
      → Route Json
      → Message
      → String
      → String
      → Text
      → Live
      → Live × List (Effect Float)
  unfolding publish_holding_message publish_handoff_event move_to guardrail_cfg
  handoff_without_answer v r m conv reason detail s = (
    move_to d v.human_env conv state_human_processing s,
    publish_holding_message v (guardrail_cfg r).holding_message
        ++ publish_handoff_event u d v m conv r.product_line_id
            (record {
              decision = handoff;
              reason = reason;
              confidence = fl.of_int 0;
              matched_keyword = [];
              detail = detail;
            })
            [],
  )

  -- What `recordJudgement` stores.
  unfoldable pub record_judgement :
      Replies Float Json Ontology
      → String
      → AiCallContext Float Ontology
      → DifyResponse Float
      → Live
      → Live
  unfolding set_dify_conv_id get_dify_session is_empty
  record_judgement v conv ac resp s =
      if is_empty resp.conversation_id
      then s
      else let session = get_dify_session v conv s in
        set_dify_conv_id v conv resp.conversation_id
          (if is_empty session.dify_conversation_id then 1 else session.message_count + 1) ac.stage
          s

  unfoldable pub judge_input :
      Route Json
      → Message
      → AiCallContext Float Ontology
      → DifyResponse Float
      → JudgeInput Ontology Float
  unfolding guardrail_cfg
  judge_input r m ac resp = record {
    query = m.text;
    resp = resp;
    ontology = ac.ontology;
    ontology_cfg = some ac.ontology_cfg;
    guardrail_cfg = some (guardrail_cfg r);
    triage_mode = d.triage;
    facts_injected = ac.facts_injected;
    experience_injected = ac.experience_injected;
    product_line_id = r.product_line_id;
  }

  -- The breaker after the judgement of an answer, and the judgement.
  unfoldable pub judged :
      Replies Float Json Ontology
      → Route Json
      → Message
      → AiCallContext Float Ontology
      → DifyResponse Float
      → Live
      → Option Breaker × Judgement Float
  judged v r m ac resp s =
      judge_answer lower fl u validate (judge_input r m ac resp) (some s.breaker) v.before v.after

  unfoldable pub with_breaker : Option Breaker → Live → Live
  with_breaker none s = s
  with_breaker (some b) s = record s { breaker = b }

  unfoldable pub judge_and_deliver :
      Replies Float Json Ontology
      → Route Json
      → Message
      → String
      → AiCallContext Float Ontology
      → DifyResponse Float
      → Live
      → Live × List (Effect Float)
  unfolding deliver_judgement
  judge_and_deliver v r m conv ac resp s =
      let x = judged v r m ac resp s in
      deliver_judgement lower fl u validate d v r m conv x.1 (guardrail_cfg r).holding_message
        (record_judgement v conv ac resp (with_breaker x.0 s))

  -- What follows the reply of the model.
  unfoldable pub react :
      Replies Float Json Ontology
      → Route Json
      → Message
      → String
      → AiCallContext Float Ontology
      → Live
      → Text ⊎ DifyResponse Float
      → Live × List (Effect Float)
  unfolding judge_and_deliver handoff_without_answer is_empty
  react v r m conv ac s (inl error) =
      handoff_without_answer v r m conv reason_ai_unavailable (codes "AI 服务调用失败：" ++ error) s
  react v r m conv ac s (inr resp) =
      if is_empty resp.answer
      then handoff_without_answer v r m conv reason_ai_unavailable (codes "AI 返回了空回复") s
      else judge_and_deliver v r m conv ac resp s

  -- `callDify`, and what follows it.
  unfoldable pub call_dify :
      Replies Float Json Ontology
      → Route Json
      → Message
      → String
      → AiCallContext Float Ontology
      → Live
      → Live × List (Effect Float)
  unfolding react
  call_dify v r m conv ac s =
      let (s', es) = react v r m conv ac s (v.chat m.text ac.user_id ac.dify_conv_id ac.inputs) in
      (s', asked m.text ac.dify_conv_id ac.inputs ∷ es)

  unfoldable pub call_dify_and_publish :
      Replies Float Json Ontology
      → Route Json
      → Message
      → String
      → Live
      → Live × List (Effect Float)
  unfolding call_dify handoff_without_answer prepare_ai_context classifies decides_routing classify
      needs_human is_empty intent_reason
  call_dify_and_publish v r m conv s =
      let triage = classify lower m.text in
      if is_empty m.text
      then (s, [])
      else if classifies d.triage && (decides_routing d.triage && needs_human triage)
      then handoff_without_answer v r m conv (intent_reason triage.class) triage.matched s
      else call_dify v r m conv (prepare_ai_context lower fl u validate d v r m conv m.text s) s
