-- ===== src/Router/Routing/Tests.antt =====
-- Entries processed by unica/router/internal/routing/router.go, and the theorems at concrete inputs.
use lurus_unica.Common.{
  ℕ, true, false, ◌&&◌, none, some, List, [], ◌∷◌, ◌≡◌, ◌≢◌, refl, ◌⊎◌, inr, count, pos, eq_iff,
  arith,
}
use lurus_unica.Common.Floats.{fixed}
use lurus_unica.Common.Search.{any}
use lurus_unica.Common.Text.{Text, codes, is_empty, trim_space}
use lurus_unica.Domain.Text.{Categories, is_blank_answer}
use lurus_unica.Domain.Escalation.{folded}
use lurus_unica.Domain.Claims.{Claim}
use lurus_unica.Domain.Violation.{Violation}
use lurus_unica.Domain.Ontology.Types.{Ontology}
use lurus_unica.Domain.Ontology.Samples.{shop, parse_thousandths, wording}
use lurus_unica.Domain.Validator.{validate}
use lurus_unica.Router.Guardrail.Settings.{defaults, is_zero}
use lurus_unica.Router.Guardrail.Evaluator.{triage_shadow}
use lurus_unica.Router.State.Machine.{state_ai_processing, state_closed}
use lurus_unica.Router.State.Store.{Conversation, Message as StoredMessage, first, get_conversation}
use lurus_unica.Router.State.Manager.{Env, cached_session, get_conversation_state}
use lurus_unica.Router.Survey.{Calls}
use lurus_unica.Router.Survey.Settings.{defaults as survey_defaults}
use lurus_unica.Router.Routing.Types.{
  Message, Entry, Route, Live, Setup, Replies, Effect, thanked, scene_shadow,
}
use lurus_unica.Router.Routing.Answer.{call_dify_and_publish}
use lurus_unica.Router.Routing.Process.{ack, routed, reopen, process_message, process_all}
use lurus_unica.Router.Routing.Service.{to_customer, call_dify_and_publish-served}
use lurus_unica.Router.Routing.Entries.{Once, process_message-Once, process_message_stored}
use lurus_unica.Router.Routing.Readable.{blanks, process_all-readable}
use lurus_unica.Router.Routing.Handover.{IsMovable, HandedOver, call_dify_and_publish-HandedOver}
use lurus_unica.Router.Routing.Handover.Notes.{
  logs_suppressed, answers_of, drafts_of, call_dify_and_publish-sent,
}

abbrev tables : Categories
tables = record {
  cc = λ _. false;
  cf = λ _. false;
  mn = λ _. false;
  me = λ _. false;
  is_punct = λ _. false;
  sk = λ _. false;
  sm = λ _. false;
}

abbrev check : Ontology ℕ → List Claim → Text → List Violation
check o = validate fixed folded parse_thousandths wording o

abbrev setup : Setup ℕ (Unit {0}) (Ontology ℕ)
setup = record {
  manager = record { has_on_close = false; survey_window = none; idle_timeout = 1800 };
  triage = triage_shadow;
  scene = scene_shadow;
  strategy_for = λ _. [];
  render = λ _. [];
  is_blob = λ _. false;
  decode_guardrail = λ _. none;
  decode_ontology = λ _. none;
  has_survey = true;
  decode_survey = λ _. none;
  has_ontology = true;
  has_handoff_log = true;
  has_collector = true;
}

abbrev calm : Env
calm = record {
  now = 100;
  month = 7;
  customer_id = "c1";
  conversation_id = "k1";
  message_id = "m1";
  get_session_fails = false;
  set_session_fails = false;
  invalidate_fails = false;
  get_customer_fails = false;
  set_customer_fails = false;
  load_fails = false;
  update_fails = false;
  reload_fails = false;
  upsert_fails = false;
  search_fails = false;
  create_fails = false;
  insert_fails = false;
  locate_fails = false;
}

abbrev calls : Calls
calls = record {
  now = 100;
  exists_fails = false;
  count_fails = false;
  get_fails = false;
  publish_fails = false;
  set_fails = false;
  update_fails = false;
  del_fails = false;
  locate_fails = false;
  decode_fails = false;
}

abbrev route : Route (Unit {0})
route = record { product_line_id = "p1"; config_json = tt }

abbrev replies : Replies ℕ (Unit {0}) (Ontology ℕ)
replies = record {
  route = λ _. some route;
  locked = true;
  requeue_fails = false;
  handle_env = calm;
  load_fails = false;
  ai_env = calm;
  human_env = calm;
  forward_fails = false;
  survey_calls = calls;
  survey_json = λ _. none;
  get_dify_session_fails = false;
  set_dify_session_fails = false;
  experience = [];
  knowledge = [];
  active_ontology = some shop;
  chat = λ _ _ _ _. inr (record {
    answer = codes "我将为您转接人工";
    conversation_id = codes "d1";
    retriever_resources = record { dataset_name = codes "faq"; score = 900 } ∷ [];
  });
  answer_fails = false;
  hold_fails = false;
  handoff_fails = false;
  ack_fails = false;
  answer_id = "m2";
  month = 7;
  insert_fails = false;
  locate_fails = false;
  content_of = λ _. "";
  before = pos 0;
  after = pos 0;
}

abbrev question : Message
question = record {
  inbound = record {
    platform_user_id = "u1";
    channel_id = "ch1";
    product_line_id = "";
    content = "q";
    correlation_id = "";
    platform_msg_id = "x1";
  };
  customer_id = "";
  text = codes "几天可以退？";
}

abbrev entry : Entry
entry = record { id = "1-0"; payload = some (some question) }

abbrev row : Conversation
row = record {
  id = "k1";
  channel_id = "ch1";
  product_line_id = "p1";
  customer_id = "c1";
  state = state_ai_processing;
  assigned_agent_id = none;
  updated_at = 50;
  closed_at = none;
  survey_status = none;
  survey_sent_at = none;
  satisfaction_score = none;
}

abbrev stored_message : StoredMessage
stored_message = record {
  id = "m0";
  conversation_id = "k1";
  direction = "inbound";
  sender_type = "customer";
  content = "q";
  platform_msg_id = some "x1";
  correlation_id = none;
  month = 7;
}

abbrev live : Live
live = record {
  world = record {
    customers = [];
    conversations = row ∷ [];
    messages = stored_message ∷ [];
    cache = none;
    notified = [];
  };
  breaker = record { lines = λ _. none };
  sessions = λ _. none;
  pending = λ _. none;
}

threshold_set : is_zero fixed (defaults fixed).confidence_threshold ≡ false
unfolding is_zero defaults
threshold_set = refl

holding_shows : is_blank_answer tables (defaults fixed).holding_message ≡ false
unfolding is_blank_answer defaults
holding_shows = refl

process_all-readable_example :
    blanks tables
      (process_all folded fixed tables check setup (λ _. replies) (entry ∷ entry ∷ []) live)
    ≡ 0
process_all-readable_example =
    process_all-readable folded fixed tables check setup threshold_set holding_shows (λ _. replies)
      (entry ∷ entry ∷ []) live

call_dify_and_publish-served_example :
    count to_customer
      (call_dify_and_publish folded fixed tables check setup replies route question "k1" live).1
    ≡ 1
unfolding is_empty
call_dify_and_publish-served_example =
    call_dify_and_publish-served folded fixed tables check setup replies route question "k1" refl
      refl live refl

process_message-Once_example :
    let x = process_message folded fixed tables check setup replies entry live in
    Once folded fixed tables check setup replies x
    ⊎ ((replies.locked ≡ false) × (replies.requeue_fails ≡ true) × (x ≡ (live, [])))
process_message-Once_example =
    process_message-Once folded fixed tables check setup replies entry live refl

named : question.inbound.platform_msg_id ≢ ""
named h = ground (arith, (eq_iff "x1" "").1 h)

process_message_stored_example :
    (process_message folded fixed tables check setup replies entry live).1
    ≡ ack folded fixed tables check setup replies "1-0"
unfolding first routed
process_message_stored_example =
    process_message_stored folded fixed tables check setup replies entry question route live refl
      refl (stored_message, refl) named refl refl refl

movable : IsMovable setup calm "k1" live.world
unfolding get_conversation get_conversation_state first cached_session
movable = record {
  row = row;
  stored = refl;
  with_ai = refl;
  seen = record { state = state_ai_processing; product_line_id = "p1"; agent_id = "" };
  known = refl;
  agrees = refl;
  writable = refl;
}

call_dify_and_publish-HandedOver_example :
    HandedOver setup calm "k1"
      (call_dify_and_publish folded fixed tables check setup replies route question "k1" live)
call_dify_and_publish-HandedOver_example =
    call_dify_and_publish-HandedOver folded fixed tables check setup replies route question "k1"
      refl live movable

abbrev called : List (Effect ℕ)
called = (call_dify_and_publish folded fixed tables check setup replies route question "k1" live).1

called_answer : answers_of called ≡ codes "我将为您转接人工" ∷ []
unfolding answers_of call_dify_and_publish lurus_unica.Router.Routing.Answer.judged
    lurus_unica.Router.Judge.judge_answer lurus_unica.Router.Judge.escalation_of
    lurus_unica.Common.Tags.collapse lurus_unica.Common.Tags.erase_all
    lurus_unica.Router.Routing.Answer.judge_input lurus_unica.Domain.Claims.fact_tag_at
    lurus_unica.Router.Marketing.intent_tag_at lurus_unica.Router.Judge.is_checked
    lurus_unica.Domain.Escalation.intake_markers lurus_unica.Domain.Escalation.transfer_phrases
    lurus_unica.Router.Guardrail.Evaluator.first_configured
    lurus_unica.Router.Guardrail.Evaluator.harm_topics
    lurus_unica.Router.Guardrail.Evaluator.funds_at_risk_topics
    lurus_unica.Router.Judge.confidence_of lurus_unica.Router.Confidence.calculate_confidence
    lurus_unica.Router.Judge.violations_of lurus_unica.Router.Judge.without_facts
    lurus_unica.Domain.Claims.fact_at lurus_unica.Common.Tags.find_all trim_space
called_answer = refl

answer_sent : answers_of called ≢ []
answer_sent p = ground (arith, called_answer)

call_dify_and_publish-sent_example :
    (any logs_suppressed called ≡ false)
    × ((drafts_of called ≡ []) ⊎ (drafts_of called ≡ answers_of called))
call_dify_and_publish-sent_example =
    call_dify_and_publish-sent folded fixed tables check setup replies route question "k1" live
      answer_sent

-- A rating of a closed conversation is thanked for, and not answered.
abbrev rated_live : Live
rated_live = record live {
  world = record live.world { conversations = record row { state = state_closed } ∷ [] };
  pending = λ _. some (record {
    value = record { sent_at = 90; channel_id = "ch1"; customer_id = "c1" };
    ttl = pos 1;
  });
}

rating_thanked :
    (reopen folded fixed tables check setup replies route
      (record question { text = codes "5" })
      "k1"
      rated_live).1
    ≡ thanked (record {
      conversation_id = "k1";
      channel_id = "ch1";
      customer_id = "c1";
      text = survey_defaults.thanks_message;
    })
      ∷ []
unfolding reopen first trim_space
rating_thanked = refl
