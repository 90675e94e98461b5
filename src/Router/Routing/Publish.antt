-- ===== src/Router/Routing/Publish.antt =====
-- What unica/router/internal/routing/router.go publishes: `publishAIResponse`,
-- `publishHoldingMessage`, `publishHandoffEvent`, and the transition of a handoff. Errors are logged.
use lurus_unica.Common.{String, Bool, not, ◌&&◌, none, some, List, [], ◌∷◌, ◌++◌, if◌then◌else◌}
use lurus_unica.Common.Text.{Text, codes, is_empty}
use lurus_unica.Domain.Text.{Categories, is_blank_answer}
use lurus_unica.Router.State.Machine.{ConversationState}
use lurus_unica.Router.State.Store.{Message as StoredMessage, create_message}
use lurus_unica.Router.State.Manager.{World, Env, transition_state}
use lurus_unica.Router.State.Inbound.{str_ptr}
use lurus_unica.Router.Guardrail.Evaluator.{EvalResult, delivers}
use lurus_unica.Router.Routing.Types.{
  Message, Live, Setup, Replies, Effect, answered, held, recorded, handed_off,
}

-- An entry of a stream, if it was added.
unfoldable pub unless {ℓ} : {A : Type ℓ} → Bool → A → List A
unless fails e = if fails then [] else e ∷ []

module _ {F : Type 0} where
  unfoldable pub suppressed : Categories → EvalResult F → Text → Bool
  unfolding delivers
  suppressed u r answer = not (is_blank_answer u answer) && not (delivers r.decision)

  unfoldable pub recorded_detail : EvalResult F → Text
  unfolding is_empty
  recorded_detail r =
      if is_empty r.detail && not (is_empty r.matched_keyword)
      then codes "keyword: " ++ r.matched_keyword
      else r.detail

module _ {F Json Ontology : Type 0} where
  unfoldable pub ai_message : Replies F Json Ontology → Message → String → Text → StoredMessage
  ai_message v m conv answer = record {
    id = v.answer_id;
    conversation_id = conv;
    direction = "outbound";
    sender_type = "ai";
    content = v.content_of answer;
    platform_msg_id = none;
    correlation_id = str_ptr m.inbound.correlation_id;
    month = v.month;
  }

  unfoldable pub store_answer : Replies F Json Ontology → Message → String → Text → World → World
  unfolding ai_message
  store_answer v m conv answer w =
      elim (create_message v.insert_fails v.locate_fails (ai_message v m conv answer) w.messages) [
        | none ↦ w
        | some (rows, _, _) ↦ record w { messages = rows }
      ]

  unfoldable pub publish_ai_response :
      Replies F Json Ontology → Message → String → Text → Live → Live × List (Effect F)
  unfolding store_answer unless
  publish_ai_response v m conv answer s = (
    (if v.answer_fails then s else record s { world = store_answer v m conv answer s.world }),
    unless v.answer_fails (answered answer),
  )

  unfoldable pub publish_holding_message : Replies F Json Ontology → Text → List (Effect F)
  unfolding unless
  publish_holding_message v text = unless v.hold_fails (held text)

  unfoldable pub publish_handoff_event :
      Categories
      → Setup F Json Ontology
      → Replies F Json Ontology
      → Message
      → String
      → String
      → EvalResult F
      → Text
      → List (Effect F)
  unfolding suppressed recorded_detail unless
  publish_handoff_event u d v m conv line r answer =
      unless (not d.has_handoff_log) (
        recorded (record {
          conversation_id = conv;
          product_line_id = line;
          reason = r.reason;
          detail = recorded_detail r;
          confidence = r.confidence;
          answer_suppressed = suppressed u r answer;
        }))
      ++ unless v.handoff_fails (
          handed_off (record {
            conversation_id = conv;
            product_line_id = line;
            reason = r.reason;
            confidence_score = r.confidence;
            ai_response_suppressed = answer;
            customer_message = m.text;
            detail = r.detail;
          }))

  -- `TransitionState`, whose error is logged.
  unfoldable pub move_to : Setup F Json Ontology → Env → String → ConversationState → Live → Live
  move_to d e conv to s = record s { world = (transition_state d.manager e conv to s.world).0 }
