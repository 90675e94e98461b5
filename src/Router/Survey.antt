-- ===== src/Router/Survey.antt =====
-- unica/router/internal/survey/handler.go: the satisfaction survey, with `onClose`, the callback that
-- unica/router/internal/routing/router.go registers for a closed conversation. Metrics and the log are
-- left out. The pending record is kept as it is, not as JSON; that it does not decode is an argument.
-- The database is given, so that the tests for a handler without one are left out.
pub mod Settings
mod Rating
pub mod Replies
pub mod Sending
mod Readable
mod Tests
use lurus_unica.Common.{
  ℕ, suc, String, Bool, true, false, not, ◌&&◌, ◌||◌, Option, none, some, List, [], ◌∷◌, ◌++◌, ◌⊎◌,
  inl, inr, str_eq, if◌then◌else◌, ℤ, pos, pos_part, ltb_ℤ, ◌/◌,
}
use lurus_unica.Common.Text.{Text, trim_space}
use lurus_unica.Common.Maps.{put}
use lurus_unica.Domain.Text.{Categories}
use lurus_unica.Domain.Ontology.Values.{atoi}
use lurus_unica.Router.State.Store.{Conversation, Message, get_conversation}
use lurus_unica.Router.Survey.Settings.{
  SurveyConfig, defaults, pending_ttl, prompt_text, thanks_text, load,
}

pub record PendingSurveyData : Type 0 where
  pub sent_at : ℕ
  pub channel_id : String
  pub customer_id : String

-- A Redis entry, and the time to live that it was set with.
pub record PendingSurvey : Type 0 where
  pub value : PendingSurveyData
  pub ttl : ℤ

-- What an outbound message says, and to whom.
pub record Outbound : Type 0 where
  pub conversation_id : String
  pub channel_id : String
  pub customer_id : String
  pub text : Text

-- What the handler reads and writes: the two tables of the state manager, the keys
-- `survey:pending:…`, of which an expired one is absent, and the stream of outbound messages.
pub record Desk : Type 0 where
  pub conversations : List Conversation
  pub messages : List Message
  pub pending : String → Option PendingSurvey
  pub outbound : List Outbound

-- The time, and the calls of Redis and of the database that fail.
pub record Calls : Type 0 where
  pub now : ℕ
  pub exists_fails : Bool
  pub count_fails : Bool
  pub get_fails : Bool
  pub publish_fails : Bool
  pub set_fails : Bool
  pub update_fails : Bool
  pub del_fails : Bool
  pub locate_fails : Bool
  pub decode_fails : Bool

pub data SurveyError : Type 0 where
  config_failed pending_check_failed count_failed : SurveyError
  publish_failed pending_get_failed score_failed : SurveyError

-- `UPDATE conversations SET survey_status = …`.
abbrev pub with_survey : ℕ → String → Option ℤ → Conversation → Conversation
with_survey now status (some score) r = record r {
  survey_status = some status;
  satisfaction_score = some score;
  updated_at = now;
}
with_survey now status none r =
    if str_eq status "sent"
    then record r { survey_status = some status; survey_sent_at = some now; updated_at = now }
    else record r { survey_status = some status; updated_at = now }

unfoldable pub set_survey : ℕ → String → String → Option ℤ → List Conversation → List Conversation
set_survey now id status score [] = []
set_survey now id status score (r ∷ rs) =
    (if str_eq r.id id then with_survey now status score r else r)
    ∷ set_survey now id status score rs

-- `none` is an error, of the query or that no row was affected.
unfoldable pub update_survey_status :
    Bool → ℕ → String → String → Option ℤ → List Conversation → Option (List Conversation)
unfolding set_survey get_conversation
update_survey_status fails now id status score rows =
    if fails then none else elim (get_conversation id rows) [
      | none ↦ none
      | some _ ↦ some (set_survey now id status score rows)
    ]

abbrev pub from_customer : String → Message → Bool
from_customer id m =
    str_eq m.conversation_id id && (str_eq m.direction "inbound" && str_eq m.sender_type "customer")

-- `SELECT COUNT(*) …`.
unfoldable pub count_customer_messages : String → List Message → ℕ
count_customer_messages id [] = 0
count_customer_messages id (m ∷ ms) =
    let rest = count_customer_messages id ms in if from_customer id m then suc rest else rest

-- A rating: a number from 1 to 5 and nothing else.
unfoldable pub parse_rating : Text → Option ℤ
unfolding atoi
parse_rating message = elim (atoi (trim_space message)) [
  | none ↦ none
  | some score ↦ if ltb_ℤ score (pos 1) || ltb_ℤ (pos 5) score then none else some score
]

abbrev pub publish : Bool → Outbound → Desk → Desk
publish fails m d = if fails then d else record d { outbound = d.outbound ++ (m ∷ []) }

abbrev pub product_line_of : Calls → String → List Conversation → Option String
product_line_of k id rows =
    if k.locate_fails
    then none
    else elim (get_conversation id rows) [ none ↦ none | some r ↦ some r.product_line_id ]

module _ (u : Categories) {Json : Type 0} (is_blob : Json → Bool)
    (decode : Json → Option (Option SurveyConfig)) (config_json : String → Option Json) where
  -- `config_json` is the column of a product line; `none` is an error of the query.
  unfoldable pub load_survey_config : String → Option SurveyConfig
  unfolding load
  load_survey_config product_line = elim (config_json product_line) [
    | none ↦ none
    | some json ↦ some (load u is_blob decode json)
  ]

  -- The settings are returned where a survey should be sent.
  unfoldable pub should_send_survey :
      Calls → Desk → String → String → SurveyError ⊎ Option SurveyConfig
  unfolding load_survey_config count_customer_messages
  should_send_survey k d id product_line = elim (load_survey_config product_line) [
    | none ↦ inl config_failed
    | some c ↦
        if not c.enabled
        then inr none
        else if k.exists_fails
        then inl pending_check_failed
        else elim (d.pending id) [
          | some _ ↦ inr none
          | none ↦
              if k.count_fails
              then inl count_failed
              else if ltb_ℤ (pos (count_customer_messages id d.messages)) c.min_customer_messages
              then inr none
              else inr (some c)
        ]
  ]

  abbrev pub ttl_of : Option SurveyConfig → ℤ
  ttl_of none = pending_ttl defaults
  ttl_of (some c) = pending_ttl c

  abbrev pub pending_data : Calls → Conversation → Option SurveyConfig → PendingSurvey
  pending_data k c cfg = record {
    value = record { sent_at = k.now; channel_id = c.channel_id; customer_id = c.customer_id };
    ttl = ttl_of cfg;
  }

  abbrev pub set_pending : Calls → Conversation → Option SurveyConfig → Desk → Desk
  set_pending k c cfg d =
      if k.set_fails
      then d
      else record d { pending = put d.pending c.id (some (pending_data k c cfg)) }

  -- A failure of the update is logged.
  abbrev pub mark_sent : Calls → String → Desk → Desk
  mark_sent k id d =
      elim (update_survey_status k.update_fails k.now id "sent" none d.conversations) [
        | none ↦ d
        | some rows ↦ record d { conversations = rows }
      ]

  unfoldable pub send_survey :
      Calls → Conversation → Option SurveyConfig → Desk → Desk × Option SurveyError
  unfolding prompt_text put update_survey_status
  send_survey k c cfg d =
      if k.publish_fails
      then (d, some publish_failed)
      else let message : Outbound = record {
        conversation_id = c.id;
        channel_id = c.channel_id;
        customer_id = c.customer_id;
        text = prompt_text u cfg;
      } in
        (mark_sent k c.id (set_pending k c cfg (publish false message d)), none)

  -- The callback for a closed conversation; errors are logged.
  unfoldable pub on_close : Calls → Conversation → Desk → Desk
  unfolding should_send_survey send_survey
  on_close k c d = elim (should_send_survey k d c.id c.product_line_id) [
    | inl _ ↦ d
    | inr none ↦ d
    | inr (some cfg) ↦ (send_survey k c (some cfg) d).0
  ]

  unfoldable pub pending_window : String → ℤ
  unfolding load_survey_config
  pending_window product_line =
      if str_eq product_line "" then pos 0 else elim (load_survey_config product_line) [
        | none ↦ pos 0
        | some c ↦ if c.enabled then pending_ttl c else pos 0
      ]

  -- The window that the router registers, in the seconds of the query for a conversation.
  unfoldable pub survey_window : String → ℕ
  unfolding pending_window
  survey_window product_line = pos_part (pending_window product_line) / 1_000_000_000

  unfoldable pub thank_you_config : Option String → Option SurveyConfig
  unfolding load_survey_config
  thank_you_config none = none
  thank_you_config (some product_line) =
      if str_eq product_line "" || str_eq product_line "unknown"
      then none
      else load_survey_config product_line

  unfoldable pub send_thank_you_message :
      Calls → String → PendingSurveyData → Option SurveyConfig → Desk → Desk
  unfolding thanks_text
  send_thank_you_message k id p cfg d =
      if k.decode_fails
      then d
      else publish k.publish_fails
          (record {
            conversation_id = id;
            channel_id = p.channel_id;
            customer_id = p.customer_id;
            text = thanks_text u cfg;
          })
          d

  -- What is done about a rating; `none` is that it was not stored.
  unfoldable pub record_rating : Calls → String → PendingSurveyData → ℤ → Desk → Option Desk
  unfolding update_survey_status put thank_you_config send_thank_you_message
  record_rating k id p score d =
      elim (update_survey_status k.update_fails k.now id "completed" (some score) d.conversations) [
        | none ↦ none
        | some rows ↦
            let stored : Desk = record d {
              conversations = rows;
              pending = if k.del_fails then d.pending else put d.pending id none;
            } in
            some
              (send_thank_you_message k id p (thank_you_config (product_line_of k id rows)) stored)
      ]

  unfoldable pub handle_survey_reply : Calls → String → Text → Desk → Desk × (SurveyError ⊎ Bool)
  unfolding parse_rating record_rating
  handle_survey_reply k id message d =
      if k.get_fails then (d, inl pending_get_failed) else elim (d.pending id) [
        | none ↦ (d, inr false)
        | some p ↦ elim (parse_rating message) [
          | none ↦ (d, inr false)
          | some score ↦ elim (record_rating k id p.value score d) [
            | none ↦ (d, inl score_failed)
            | some d' ↦ (d', inr true)
          ]
        ]
      ]
