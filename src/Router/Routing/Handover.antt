-- ===== src/Router/Routing/Handover.antt =====
-- When a conversation of unica/router/internal/routing/router.go passes to a person.
pub mod Notes
use lurus_unica.Common.{
  ℕ, ◌+◌, String, Bool, true, false, not, ◌&&◌, ◌||◌, Option, none, some, List, [], ◌∷◌, ◌++◌,
  count, arith, ◌≡◌, ◌≤◌, refl, sym, ap, ◌∙◌, subst, ◌⊎◌, inl, inr, if◌then◌else◌, Option-cases,
  str_eq,
}
use lurus_unica.Common.Floats.{Floats}
use lurus_unica.Common.Text.{Text, is_empty}
use lurus_unica.Common.Search.{any}
use lurus_unica.Domain.Text.{Categories, is_blank_answer}
use lurus_unica.Domain.Breaker.{Breaker}
use lurus_unica.Domain.Claims.{Claim}
use lurus_unica.Domain.Violation.{Violation}
use lurus_unica.Router.State.Machine.{
  ConversationState, state_ai_processing, state_human_processing, validate_transition,
}
use lurus_unica.Router.State.Store.{
  Conversation, SessionData, get_conversation, with_state, set_state, update_conversation_state,
}
use lurus_unica.Router.State.Manager.{
  World, Env, Result, ok, err, get_conversation_state, cached_session, apply_transition,
  transition_state,
}
use lurus_unica.Router.State.Manager.Transition.{transition_state_ok}
use lurus_unica.Router.Guardrail.Evaluator.{
  Decision, send, handoff, send_and_handoff, delivers, escalates,
}
use lurus_unica.Router.Confidence.{DifyResponse}
use lurus_unica.Router.Judge.{Judgement}
use lurus_unica.Router.Routing.Types.{
  Message, Route, Live, Setup, Replies, Effect, HandoffRecord, asked, answered, held, recorded,
  handed_off, submitted, evidence, forwarded, requeued, acked,
}
use lurus_unica.Router.Routing.Publish.{
  unless, store_answer, publish_ai_response, publish_holding_message, publish_handoff_event,
  move_to, suppressed,
}
use lurus_unica.Router.Routing.Context.{AiCallContext, set_dify_conv_id}
use lurus_unica.Router.Routing.Deliver.{
  deliver_as, deliver_judgement, submit_experience, record_violations,
}
use lurus_unica.Router.Routing.Answer.{
  guardrail_cfg, handoff_without_answer, judged, record_judgement, with_breaker, judge_and_deliver,
  call_dify_and_publish,
}
use lurus_unica.Router.Routing.Rules.{answer_rule}
use lurus_unica.Router.Routing.Service.{
  is_handoff, one_if, tally, tally-deliver, tally-handoff_without_answer,
}

edge : validate_transition state_ai_processing state_human_processing ≡ none
unfolding validate_transition
edge = refl

edge_from :
    (x : ConversationState)
    → x ≡ state_ai_processing
    → validate_transition x state_human_processing ≡ none
edge_from x p = subst (λ y. validate_transition y state_human_processing ≡ none) (sym p) edge

module _ {F Json Ontology : Type 0} (d : Setup F Json Ontology) (e : Env) (conv : String) where
  -- The conversation is with the model, and the manager can move it.
  pub record IsMovable (w : World) : Type 0 where
    pub row : Conversation
    pub stored : get_conversation conv w.conversations ≡ some row
    pub with_ai : row.state ≡ state_ai_processing
    pub seen : SessionData
    pub known : get_conversation_state e w conv ≡ some seen
    pub agrees : seen.state ≡ state_ai_processing
    pub writable : e.update_fails ≡ false

  move-ok :
      (w : World)
      → IsMovable w
      → (transition_state d.manager e conv state_human_processing w).1 ≡ ok tt
  unfolding transition_state apply_transition update_conversation_state
  move-ok w i = ground (arith, edge_from i.seen.state i.agrees)

  pub moved :
      (w : World)
      → IsMovable w
      → (c : Conversation) × (get_conversation conv
            (transition_state d.manager e conv state_human_processing w).0.conversations
          ≡ some c)
        × (c.state ≡ state_human_processing)
  moved w i =
      let (seen, c, p, edge', q, q', _) =
        transition_state_ok d.manager e conv state_human_processing w (move-ok w i) in
      (with_state e.now state_human_processing c, q', refl)

  IsMovable-same :
      (w w' : World)
      → w'.conversations ≡ w.conversations
      → w'.cache ≡ w.cache
      → IsMovable w
      → IsMovable w'
  unfolding get_conversation_state cached_session
  IsMovable-same w w' p q i = record {
    row = i.row;
    stored = rw p i.stored;
    with_ai = i.with_ai;
    seen = i.seen;
    known = ground (arith, i.known);
    agrees = i.agrees;
    writable = i.writable;
  }

  -- The conversation's row is with a person exactly if one event was sent to the agents.
  abbrev pub HandedOver : Live × List (Effect F) → Type 0
  HandedOver x =
      (c : Conversation) × (get_conversation conv x.0.world.conversations ≡ some c)
      × (count is_handoff x.1 ≡ one_if (str_eq c.state state_human_processing))

module _ (lower : ℕ → ℕ) (fl : Floats) (u : Categories) {Json Ontology : Type 0}
    (validate : Ontology → List Claim → Text → List Violation) (d : Setup fl.Float Json Ontology)
    (v : Replies fl.Float Json Ontology) (r : Route Json) (m : Message) (conv : String) where
  open fl use {Float}

  handed_over :
      (s : Live) (es : List (Effect Float))
      → IsMovable d v.human_env conv s.world
      → count is_handoff es ≡ 1
      → HandedOver d v.human_env conv (move_to d v.human_env conv state_human_processing s, es)
  unfolding move_to
  handed_over s es i p =
      let (c, q, h) = moved d v.human_env conv s.world i in
      (c, q, p ∙ sym (ap (λ x. one_if (str_eq x state_human_processing)) h))

  kept :
      (s : Live) (es : List (Effect Float))
      → IsMovable d v.human_env conv s.world
      → count is_handoff es ≡ 0
      → HandedOver d v.human_env conv (s, es)
  kept s es i p =
      (i.row, i.stored, p ∙ sym (ap (λ x. one_if (str_eq x state_human_processing)) i.with_ai))

  answered_world :
      (j : Judgement Float) (s : Live)
      → IsMovable d v.human_env conv s.world
      → IsMovable d v.human_env conv (publish_ai_response v m conv j.answer s).0.world
  unfolding publish_ai_response store_answer
  answered_world j s i =
      IsMovable-same d v.human_env conv s.world (publish_ai_response v m conv j.answer s).0.world
        (ground arith) (ground arith) i

  module _ (told : v.handoff_fails ≡ false) where
    count-deliver :
        (j : Judgement Float) (h : Text) (s : Live) (x : Decision)
        → count is_handoff (deliver_as lower fl u validate d v r m conv j h s x).1
          ≡ one_if (escalates x)
    unfolding deliver_as submit_experience record_violations publish_ai_response
        publish_holding_message publish_handoff_event unless is_handoff escalates
    count-deliver j h s x = ground arith

    deliver-HandedOver :
        (j : Judgement Float) (h : Text) (s : Live) (x : Decision)
        → IsMovable d v.human_env conv s.world
        → HandedOver d v.human_env conv (deliver_as lower fl u validate d v r m conv j h s x)
    unfolding deliver_as escalates
    deliver-HandedOver j h s send i =
        kept (publish_ai_response v m conv j.answer s).0
          (deliver_as lower fl u validate d v r m conv j h s send).1 (answered_world j s i)
          (count-deliver j h s send)
    deliver-HandedOver j h s send_and_handoff i =
        handed_over (publish_ai_response v m conv j.answer s).0
          (deliver_as lower fl u validate d v r m conv j h s send_and_handoff).1
          (answered_world j s i) (count-deliver j h s send_and_handoff)
    deliver-HandedOver j h s handoff i =
        handed_over s (deliver_as lower fl u validate d v r m conv j h s handoff).1 i
          (count-deliver j h s handoff)

    count-alone :
        (reason : String) (detail : Text) (s : Live)
        → count is_handoff
            (handoff_without_answer lower fl u validate d v r m conv reason detail s).1
          ≡ 1
    unfolding tally
    count-alone reason detail s =
        ground
          (arith, tally-handoff_without_answer lower fl u validate d v r m conv reason detail s)

    world-recorded :
        (ac : AiCallContext Float Ontology) (resp : DifyResponse Float) (b : Option Breaker)
        (s : Live)
        → (record_judgement lower fl u validate d v conv ac resp
            (with_breaker lower fl u validate d b s)).world
          ≡ s.world
    unfolding record_judgement set_dify_conv_id with_breaker
    world-recorded ac resp b s = ground arith

    -- A conversation that is with the model, when a message of it is answered: afterwards its row is
    -- with a person exactly if an event was sent to the agents, and exactly one is sent then. (The
    -- manager sees the state that is stored, and its update and the write of the event work.)
    pub call_dify_and_publish-HandedOver :
        (s : Live)
        → IsMovable d v.human_env conv s.world
        → HandedOver d v.human_env conv (call_dify_and_publish lower fl u validate d v r m conv s)
    unfolding judge_and_deliver deliver_judgement handoff_without_answer is_handoff
    call_dify_and_publish-HandedOver s i =
        answer_rule lower fl u validate d v r m conv (HandedOver d v.human_env conv) s
          (λ reason detail.
            handed_over s
              (handoff_without_answer lower fl u validate d v r m conv reason detail s).1 i
              (count-alone reason detail s))
          (λ reason detail q c x.
            handed_over s
              (asked q c x
                ∷ (handoff_without_answer lower fl u validate d v r m conv reason detail s).1)
              i (count-alone reason detail s))
          (λ ac resp q c x.
            let y = judged lower fl u validate d v r m ac resp s in
            let s' =
              record_judgement lower fl u validate d v conv ac resp
                (with_breaker lower fl u validate d y.0 s) in
            deliver-HandedOver y.1 (guardrail_cfg lower fl u validate d r).holding_message s'
              y.1.result.decision
              (subst (IsMovable d v.human_env conv) (sym (world-recorded ac resp y.0 s)) i))
          (λ _. kept s [] i refl)
