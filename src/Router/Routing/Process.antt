-- ===== src/Router/Routing/Process.antt =====
-- `processMessage` of unica/router/internal/routing/router.go, and the loops that call it: `readLoop`
-- and `drainPending` process the entries that Redis hands out one by one. The lock is held for the
-- whole of an entry, so that its calls are one step. The conversation's lock is known by what it
-- answers.
use lurus_unica.Common.{
  ℕ, String, Bool, true, false, Option, none, some, List, [], ◌∷◌, ◌++◌, map, ◌⊎◌, inl, inr, str_eq,
  if◌then◌else◌,
}
use lurus_unica.Common.Floats.{Floats}
use lurus_unica.Common.Text.{Text}
use lurus_unica.Domain.Text.{Categories}
use lurus_unica.Domain.Claims.{Claim}
use lurus_unica.Domain.Violation.{Violation}
use lurus_unica.Router.State.Machine.{
  ConversationState, state_pending, state_ai_processing, state_human_processing, state_closed,
}
use lurus_unica.Router.State.Store.{Conversation, get_conversation}
use lurus_unica.Router.State.Manager.{World, Result, ok, err, transition_state}
use lurus_unica.Router.State.Inbound.{handle_inbound_message}
use lurus_unica.Router.Survey.{Desk, SurveyError, handle_survey_reply}
use lurus_unica.Router.Routing.Types.{
  Message, Entry, Route, Live, Setup, Replies, Effect, thanked, forwarded, requeued, acked,
}
use lurus_unica.Router.Routing.Publish.{unless}
use lurus_unica.Router.Routing.Answer.{call_dify_and_publish}

module _ (lower : ℕ → ℕ) (fl : Floats) (u : Categories) {Json Ontology : Type 0}
    (validate : Ontology → List Claim → Text → List Violation)
    (d : Setup fl.Float Json Ontology) where
  open fl use {Float}

  unfoldable pub ack : Replies Float Json Ontology → String → List (Effect Float)
  unfolding unless
  ack v id = unless v.ack_fails (acked id)

  -- `msg.Data.ProductLineID = routeConfig.ProductLineID`.
  unfoldable pub routed : Route Json → Message → Message
  routed r m = record m { inbound = record m.inbound { product_line_id = r.product_line_id } }

  -- The answer after a transition to the AI; an error ends the processing.
  unfoldable pub answer_after :
      Replies Float Json Ontology
      → Route Json
      → Message
      → String
      → Live
      → World × Result (Unit {0})
      → Live × List (Effect Float)
  unfolding call_dify_and_publish
  answer_after v r m conv s (w, err _) = (record s { world = w }, [])
  answer_after v r m conv s (w, ok _) =
      call_dify_and_publish lower fl u validate d v r m conv (record s { world = w })

  unfoldable pub start_ai :
      Replies Float Json Ontology
      → Route Json
      → Message
      → String
      → Live
      → Live × List (Effect Float)
  unfolding transition_state answer_after
  start_ai v r m conv s =
      answer_after v r m conv s
        (transition_state d.manager v.ai_env conv state_ai_processing s.world)

  -- What the survey handler works on, and what it leaves.
  abbrev pub desk_of : Live → Desk
  desk_of s = record {
    conversations = s.world.conversations;
    messages = s.world.messages;
    pending = s.pending;
    outbound = [];
  }

  abbrev pub with_desk : Desk → Live → Live
  with_desk k s = record s {
    world = record s.world { conversations = k.conversations };
    pending = k.pending;
  }

  -- Whether the message was a survey reply; an error is logged.
  abbrev pub is_taken : SurveyError ⊎ Bool → Bool
  is_taken (inl _) = false
  is_taken (inr handled) = handled

  -- A message that is a survey reply is done with; any other reopens the conversation.
  unfoldable pub after_reply :
      Replies Float Json Ontology
      → Route Json
      → Message
      → String
      → Live
      → Desk × (SurveyError ⊎ Bool)
      → Live × List (Effect Float)
  unfolding start_ai
  after_reply v r m conv s (k, x) =
      let sent = map thanked k.outbound in
      let (s', es) = start_ai v r m conv (with_desk k s) in
      if is_taken x then (with_desk k s, sent) else (s', sent ++ es)

  -- A message to a closed conversation.
  unfoldable pub reopen :
      Replies Float Json Ontology
      → Route Json
      → Message
      → String
      → Live
      → Live × List (Effect Float)
  unfolding start_ai after_reply handle_survey_reply
  reopen v r m conv s =
      if d.has_survey
      then after_reply v r m conv s (
          handle_survey_reply u d.is_blob d.decode_survey v.survey_json v.survey_calls conv m.text
            (desk_of s))
      else start_ai v r m conv s

  -- The cases of the switch over the conversation's state in which no answer is under way.
  unfoldable pub act_later :
      Replies Float Json Ontology
      → Route Json
      → Message
      → String
      → ConversationState
      → Live
      → Live × List (Effect Float)
  unfolding reopen unless
  act_later v r m conv state s =
      if str_eq state state_human_processing
      then (s, unless v.forward_fails forwarded)
      else if str_eq state state_closed
      then reopen v r m conv s
      else (s, [])

  -- The switch over the conversation's state.
  unfoldable pub act :
      Replies Float Json Ontology
      → Route Json
      → Message
      → String
      → ConversationState
      → Live
      → Live × List (Effect Float)
  unfolding start_ai act_later call_dify_and_publish
  act v r m conv state s =
      if str_eq state state_pending
      then start_ai v r m conv s
      else if str_eq state state_ai_processing
      then call_dify_and_publish lower fl u validate d v r m conv s
      else act_later v r m conv state s

  -- What is done with the conversation that is found.
  unfoldable pub act_on :
      Replies Float Json Ontology
      → Route Json
      → Message
      → String
      → Live
      → Option Conversation
      → Live × List (Effect Float)
  unfolding act
  act_on v r m conv s none = (s, [])
  act_on v r m conv s (some c) = act v r m conv c.state s

  -- What is done once the message is stored, or found to be stored.
  unfoldable pub dispatch :
      Replies Float Json Ontology
      → Route Json
      → Message
      → Live
      → World × Result (String × Bool)
      → Live × List (Effect Float)
  unfolding act_on get_conversation
  dispatch v r m s (w, err _) = (record s { world = w }, [])
  dispatch v r m s (w, ok (conv, true)) = (record s { world = w }, [])
  dispatch v r m s (w, ok (conv, false)) =
      if v.load_fails
      then (record s { world = w }, [])
      else act_on v r m conv (record s { world = w }) (get_conversation conv w.conversations)

  -- What is done under the lock.
  unfoldable pub handle :
      Replies Float Json Ontology → Route Json → Message → Live → Live × List (Effect Float)
  unfolding handle_inbound_message dispatch
  handle v r m s =
      dispatch v r m s (handle_inbound_message d.manager v.handle_env (some m.inbound) s.world)

  -- `r.ack` at the end of `processMessage`, and at its early returns.
  unfoldable pub then_ack :
      Replies Float Json Ontology → Entry → Live × List (Effect Float) → Live × List (Effect Float)
  unfolding ack
  then_ack v e (s, es) = (s, es ++ ack v e.id)

  -- What is done with a message, once its route is looked up.
  unfoldable pub process_routed :
      Replies Float Json Ontology
      → Entry
      → Message
      → Live
      → Option (Route Json)
      → Live × List (Effect Float)
  unfolding then_ack routed handle
  process_routed v e m s none = then_ack v e (s, [])
  process_routed v e m s (some r) =
      if v.locked
      then then_ack v e (handle v r (routed r m) s)
      else if v.requeue_fails
      then (s, [])
      else then_ack v e (s, requeued e ∷ [])

  -- What is done with a payload.
  unfoldable pub process_payload :
      Replies Float Json Ontology
      → Entry
      → Live
      → Option (Option Message)
      → Live × List (Effect Float)
  unfolding then_ack process_routed
  process_payload v e s none = then_ack v e (s, [])
  process_payload v e s (some none) = then_ack v e (s, [])
  process_payload v e s (some (some m)) = process_routed v e m s (v.route m.inbound.channel_id)

  unfoldable pub process_message :
      Replies Float Json Ontology → Entry → Live → Live × List (Effect Float)
  unfolding process_payload
  process_message v e s = process_payload v e s e.payload

  -- The loop over a batch; each entry has replies of its own.
  unfoldable pub process_all :
      (Entry → Replies Float Json Ontology) → List Entry → Live → Live × List (Effect Float)
  unfolding process_message
  process_all v [] s = (s, [])
  process_all v (e ∷ es) s =
      let (s', xs) = process_message (v e) e s in
      let (s'', ys) = process_all v es s' in (s'', xs ++ ys)
