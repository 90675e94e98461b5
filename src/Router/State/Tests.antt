-- ===== src/Router/State/Tests.antt =====
-- Conversations in concrete runs, and the theorems of the manager applied to them.
use lurus_unica.Common.{
  String, Bool, true, false, none, some, [], ◌∷◌, ◌++◌, eq_iff, arith, ◌≡◌, ◌≢◌, refl, length,
}
use lurus_unica.Router.State.Machine.{
  state_ai_processing, state_human_processing, state_closed, can_transition_to, validate_transition,
}
use lurus_unica.Router.State.Machine.Graph.{Edge}
use lurus_unica.Router.State.Store.{
  Conversation, SessionData, first, get_conversation, with_state, update_conversation_state,
  upsert_customer, create_message, get_conversation_by_customer,
}
use lurus_unica.Router.State.Manager.{
  Redis, World, Config, Env, ManagerError, Result, ok, err, cached_session, write_session,
  get_conversation_state, apply_transition, transition_state, is_idle, close_idle_conversations,
}
use lurus_unica.Router.State.Manager.Transition.{transition_state_ok}
use lurus_unica.Router.State.Manager.Coherence.{IsCoherent, transition_state-IsCoherent}
use lurus_unica.Router.State.Manager.Sweep.{swept, close_idle_conversations_rows}
use lurus_unica.Router.State.Manager.Closing.{
  close_idle_conversations_notifies, closed_rows, told_rows,
}
use lurus_unica.Router.State.Inbound.{
  Inbound, cached_customer, write_customer, find_or_create_customer, find_or_create_conversation,
  inbound_message, store_inbound, handle_inbound_message,
}
use lurus_unica.Router.State.Inbound.Redelivery.{handle_again}
use lurus_unica.Router.State.Inbound.Conversations.{OneOpen, handle-OneOpen}

abbrev empty_redis : Redis
empty_redis = record { sessions = λ _. none; customer_ids = λ _. none }

abbrev empty : World
empty = record {
  customers = [];
  conversations = [];
  messages = [];
  cache = some empty_redis;
  notified = [];
}

abbrev hooks : Config
hooks = record { has_on_close = true; survey_window = none; idle_timeout = 1800 }

abbrev calm : Env
calm = record {
  now = 5000;
  month = 3;
  customer_id = "cu1";
  conversation_id = "c1";
  message_id = "m1";
  get_session_fails = false;
  set_session_fails = false;
  invalidate_fails = false;
  get_customer_fails = false;
  set_customer_fails = false;
  load_fails = false;
  update_fails = false;
  reload_fails = false;
  upsert_fails = false;
  search_fails = false;
  create_fails = false;
  insert_fails = false;
  locate_fails = false;
}

-- A conversation with the AI, last touched at 100, with its session cached.
abbrev chat : Conversation
chat = record {
  id = "c1";
  channel_id = "wx";
  product_line_id = "fruit";
  customer_id = "cu1";
  state = state_ai_processing;
  assigned_agent_id = none;
  updated_at = 100;
  closed_at = none;
  survey_status = none;
  survey_sent_at = none;
  satisfaction_score = none;
}

abbrev busy : World
busy = record empty { conversations = chat ∷ [] }

abbrev hello : Inbound
hello = record {
  platform_user_id = "openid";
  channel_id = "wx";
  product_line_id = "fruit";
  content = "hello";
  correlation_id = "";
  platform_msg_id = "p1";
}

abbrev human : World × Result (Unit {0})
human = transition_state hooks calm "c1" state_human_processing busy

human_ok : human.1 ≡ ok tt
unfolding transition_state get_conversation_state cached_session get_conversation first
    validate_transition apply_transition update_conversation_state
human_ok = refl

transition_state_ok_example :
    (seen : SessionData) × (c : Conversation) × (get_conversation_state calm busy "c1" ≡ some seen)
    × Edge seen.state state_human_processing
    × (get_conversation "c1" busy.conversations ≡ some c)
    × (get_conversation "c1" human.0.conversations
        ≡ some (with_state 5000 state_human_processing c))
    × ((k : String)
        → k ≢ "c1"
        → get_conversation k human.0.conversations ≡ get_conversation k busy.conversations)
transition_state_ok_example =
    transition_state_ok hooks calm "c1" state_human_processing busy human_ok

reject_example_error :
    (transition_state hooks calm "c2" state_closed busy).1 ≡ err ManagerError.state_lookup
unfolding transition_state get_conversation_state cached_session get_conversation first
reject_example_error = refl

busy-IsCoherent : IsCoherent busy
busy-IsCoherent = record { at = λ id s q. cc }

transition_state-IsCoherent_example : IsCoherent human.0
transition_state-IsCoherent_example =
    transition_state-IsCoherent hooks calm "c1" state_human_processing busy refl refl
      busy-IsCoherent

chat_found : get_conversation "c1" busy.conversations ≡ some chat
unfolding get_conversation first
chat_found = refl

close_idle_conversations_rows_example :
    get_conversation "c1"
      (close_idle_conversations hooks 5000 false (λ _. calm) (λ _. false) busy).0.conversations
    ≡ some (swept hooks 5000 (λ _. calm) (λ _. false) chat)
unfolding get_conversation first
close_idle_conversations_rows_example =
    close_idle_conversations_rows hooks 5000 (λ _. calm) (λ _. false) busy "c1" chat (refl, tt)
      chat_found

chat_after_sweep :
    swept hooks 5000 (λ _. calm) (λ _. false) chat ≡ with_state 5000 state_closed chat
unfolding is_idle can_transition_to
chat_after_sweep = refl

close_idle_conversations_notifies_example :
    let (w', closed) = close_idle_conversations hooks 5000 false (λ _. calm) (λ _. false) busy in
    (w'.notified
      ≡ busy.notified ++ told_rows hooks 5000 (λ _. calm) (λ _. false) busy.conversations)
    × (closed ≡ length (closed_rows hooks 5000 (λ _. calm) (λ _. false) busy.conversations))
unfolding first get_conversation
close_idle_conversations_notifies_example =
    close_idle_conversations_notifies hooks 5000 (λ _. calm) (λ _. false) busy refl (refl, tt)

abbrev once : World × Result (String × Bool)
once = handle_inbound_message hooks calm (some hello) empty

once_ok : once.1 ≡ ok ("c1", false)
unfolding handle_inbound_message find_or_create_customer cached_customer upsert_customer
    write_customer first find_or_create_conversation get_conversation_by_customer store_inbound
    create_message inbound_message write_session
once_ok = refl

twice_ok : (handle_inbound_message hooks calm (some hello) once.0).1 ≡ ok ("c1", true)
unfolding handle_inbound_message find_or_create_customer cached_customer upsert_customer
    write_customer first find_or_create_conversation get_conversation_by_customer store_inbound
    create_message inbound_message write_session
twice_ok = refl

handle_again_example :
    (◌≡◌ {A = Bool} true true)
    × ((handle_inbound_message hooks calm (some hello) once.0).0.messages ≡ once.0.messages)
handle_again_example =
    handle_again hooks hello (λ e. ground (arith, (eq_iff "p1" "").1 e)) calm calm empty
      ("c1", false) ("c1", true) refl refl refl once_ok twice_ok

handle-OneOpen_example : OneOpen once.0
handle-OneOpen_example = handle-OneOpen hooks calm (some hello) empty (λ k. omega arith)
