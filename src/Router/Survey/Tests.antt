-- ===== src/Router/Survey/Tests.antt =====
-- Surveys on a small desk, and the theorems on them at concrete inputs.
use lurus_unica.Common.{
  ℕ, ◌≤◌, ◌<◌, ◌+◌, String, Bool, true, false, Option, none, some, List, [], ◌∷◌, ◌==◌, ◌≡◌, ◌≢◌,
  ◌↔◌, ◌⊎◌, refl, inl, inr, pos, negsuc, ◌*ℤ◌, ap, arith,
}
use lurus_unica.Common.Search.{any}
use lurus_unica.Common.Text.{codes, trim_space}
use lurus_unica.Domain.Text.{Categories, is_unread}
use lurus_unica.Router.State.Machine.{state_closed}
use lurus_unica.Router.State.Store.{Conversation, Message, first, get_conversation}
use lurus_unica.Router.State.Manager.{World, Config, Env, ok}
use lurus_unica.Router.State.Inbound.{find_or_create_conversation}
use lurus_unica.Router.Survey.Settings.{SurveyConfig, pending_ttl, prompt_declares_scale, defaults}
use lurus_unica.Router.Survey.{
  Desk, Calls, Outbound, SurveyError, score_failed, with_survey, parse_rating, on_close,
  handle_survey_reply, pending_window, survey_window,
}
use lurus_unica.Router.Survey.Rating.{spells_signed, parse_rating_iff}
use lurus_unica.Router.Survey.Replies.{
  handle_survey_reply_rated, handle_survey_reply_once, handle_survey_reply_untouched,
}
use lurus_unica.Router.Survey.Sending.{on_close_twice, find_or_create_conversation-on_close}
use lurus_unica.Router.Survey.Readable.{Event, closed, replied, IsReadable, run, run-IsReadable}

abbrev tables : Categories
tables = record {
  cc = λ _. false;
  cf = λ c. c == 0x200B;
  mn = λ _. false;
  me = λ _. false;
  is_punct = λ c. c == 0x3002;
  sk = λ _. false;
  sm = λ _. false;
}

-- One product line, whose block switches the survey on and leaves the texts blank.
abbrev block : SurveyConfig
block = record {
  enabled = true;
  min_customer_messages = pos 0;
  timeout_hours = pos 1;
  prompt_message = codes " 。";
  thanks_message = [];
}

abbrev blob : Bool → Bool
blob b = b

abbrev decoded : Bool → Option (Option SurveyConfig)
decoded b = some (some block)

abbrev lines : String → Option Bool
lines pl = some true

abbrev calm : Calls
calm = record {
  now = 7000;
  exists_fails = false;
  count_fails = false;
  get_fails = false;
  publish_fails = false;
  set_fails = false;
  update_fails = false;
  del_fails = false;
  locate_fails = false;
  decode_fails = false;
}

abbrev chat : Conversation
chat = record {
  id = "c1";
  channel_id = "wx";
  product_line_id = "fruit";
  customer_id = "cu1";
  state = state_closed;
  assigned_agent_id = none;
  updated_at = 100;
  closed_at = some 100;
  survey_status = none;
  survey_sent_at = none;
  satisfaction_score = none;
}

abbrev said : String → Message
said id = record {
  id = id;
  conversation_id = "c1";
  direction = "inbound";
  sender_type = "customer";
  content = "hello";
  platform_msg_id = none;
  correlation_id = none;
  month = 3;
}

abbrev desk : Desk
desk = record {
  conversations = chat ∷ [];
  messages = said "m2" ∷ said "m1" ∷ [];
  pending = λ _. none;
  outbound = [];
}

abbrev asked : Desk
asked = on_close tables blob decoded lines calm chat desk

abbrev reply : Desk × (SurveyError ⊎ Bool)
reply = handle_survey_reply tables blob decoded lines calm "c1" (codes " 5\n") asked

abbrev prompt : Outbound
prompt = record {
  conversation_id = "c1";
  channel_id = "wx";
  customer_id = "cu1";
  text = defaults.prompt_message;
}

asked_one : asked.outbound ≡ prompt ∷ []
unfolding on_close first
asked_one = refl

asked_some : asked.outbound ≢ []
asked_some p = ground (arith, asked_one)

reply_taken : reply.1 ≡ inr true
unfolding handle_survey_reply on_close first trim_space
reply_taken = refl

thanked : reply.0.outbound ≡ prompt ∷ record prompt { text = defaults.thanks_message } ∷ []
unfolding handle_survey_reply on_close first trim_space
thanked = refl

chat_found : get_conversation "c1" desk.conversations ≡ some chat
unfolding get_conversation first
chat_found = refl

parse_rating_iff_example :
    (parse_rating (codes "+05") ≡ some (pos 5))
    ↔ ((1 ≤ 5) × (5 ≤ 5) × (spells_signed 5 (trim_space (codes "+05")) ≡ true))
parse_rating_iff_example = parse_rating_iff (codes "+05") 5

handle_survey_reply_rated_example :
    (n : ℕ) × ((1 ≤ n) × (n ≤ 5) × (spells_signed n (trim_space (codes " 5\n")) ≡ true))
    × ((c : Conversation) × (get_conversation "c1" asked.conversations ≡ some c)
        × (get_conversation "c1" reply.0.conversations
            ≡ some (with_survey 7000 "completed" (some (pos n)) c))
        × ((j : String)
            → j ≢ "c1"
            → get_conversation j reply.0.conversations ≡ get_conversation j asked.conversations))
handle_survey_reply_rated_example =
    handle_survey_reply_rated tables blob decoded lines calm "c1" (codes " 5\n") asked reply_taken

handle_survey_reply_once_example :
    handle_survey_reply tables blob decoded lines calm "c1" (codes "4") reply.0
    ≡ (reply.0, inr false)
handle_survey_reply_once_example =
    handle_survey_reply_once tables blob decoded lines calm calm "c1" (codes " 5\n") (codes "4")
      asked reply.0 (ap (λ r. (reply.0, r)) reply_taken) refl refl

-- The rating that the database does not store.
abbrev lost : Desk × (SurveyError ⊎ Bool)
lost =
    handle_survey_reply tables blob decoded lines (record calm { update_fails = true }) "c1"
      (codes "5") asked

lost_error : lost.1 ≡ inl score_failed
unfolding handle_survey_reply on_close first trim_space
lost_error = refl

not_taken : lost.1 ≢ inr true
not_taken p = ground (arith, lost_error)

handle_survey_reply_untouched_example : lost.0 ≡ asked
handle_survey_reply_untouched_example =
    handle_survey_reply_untouched tables blob decoded lines (record calm { update_fails = true })
      "c1" (codes "5") asked not_taken

on_close_twice_example : on_close tables blob decoded lines calm chat asked ≡ asked
on_close_twice_example =
    on_close_twice tables blob decoded lines calm calm chat desk asked_some refl

-- The state manager of the next message, with the router's survey window.
abbrev manager : Config
manager = record {
  has_on_close = true;
  survey_window = some (survey_window tables blob decoded lines);
  idle_timeout = 1800;
}

abbrev next : Env
next = record {
  now = 7_100;
  month = 3;
  customer_id = "cu2";
  conversation_id = "c2";
  message_id = "m3";
  get_session_fails = false;
  set_session_fails = false;
  invalidate_fails = false;
  get_customer_fails = false;
  set_customer_fails = false;
  load_fails = false;
  update_fails = false;
  reload_fails = false;
  upsert_fails = false;
  search_fails = false;
  create_fails = false;
  insert_fails = false;
  locate_fails = false;
}

abbrev world : World
world = record {
  customers = [];
  conversations = asked.conversations;
  messages = [];
  cache = none;
  notified = [];
}

within : 7_100 < 7_000 + survey_window tables blob decoded lines "fruit"
unfolding survey_window pending_ttl ◌*ℤ◌
within = omega arith

find_or_create_conversation-on_close_example :
    find_or_create_conversation manager next world "cu1" "wx" "fruit" ≡ (world, ok "c1")
unfolding get_conversation first
find_or_create_conversation-on_close_example =
    find_or_create_conversation-on_close tables blob decoded lines calm chat chat desk [] []
      asked_some refl refl refl refl manager next world "wx" refl refl refl refl within

abbrev events : List Event
events = closed calm chat ∷ replied calm "c1" (codes "5") ∷ []

legible : is_unread tables 0x611F ≡ false
unfolding is_unread
legible = refl

nothing_sent : IsReadable tables desk
unfolding any
nothing_sent = refl

run-IsReadable_example : IsReadable tables (run tables blob decoded lines events desk)
run-IsReadable_example = run-IsReadable tables blob decoded lines events desk legible nothing_sent

-- The hours that a duration does not hold become a negative time to live.
overflow :
    pending_ttl (record defaults { timeout_hours = pos 2_562_048 })
    ≡ negsuc 9_223_371_273_709_551_615
unfolding pending_ttl defaults ◌*ℤ◌
overflow = refl

scale : prompt_declares_scale defaults.prompt_message ≡ true
unfolding prompt_declares_scale defaults
scale = refl

no_scale : prompt_declares_scale (codes "您对本次服务满意吗？") ≡ false
unfolding prompt_declares_scale
no_scale = refl

rating_words : parse_rating (codes "5分") ≡ none
unfolding parse_rating trim_space
rating_words = refl

window : pending_window tables blob decoded lines "fruit" ≡ pos 3_600_000_000_000
unfolding pending_window pending_ttl ◌*ℤ◌
window = refl
