-- ===== src/Router/State/Inbound.antt =====
-- `HandleInboundMessage` of unica/router/internal/state/manager.go: the customer and the
-- conversation are found or created, and the message is stored once.
pub mod Redelivery
pub mod Conversations
use Prim.Native.String.{◌++◌ as str_append}
use lurus_unica.Common.{
  ℕ, String, Bool, true, false, ◌||◌, Option, none, some, List, ◌∷◌, str_eq, if◌then◌else◌,
}
use lurus_unica.Common.Maps.{put}
use lurus_unica.Router.State.Machine.{ConversationState, state_pending}
use lurus_unica.Router.State.Store.{
  Customer, Conversation, Message, SessionData, get_conversation_by_customer, upsert_customer,
  create_message,
}
use lurus_unica.Router.State.Manager.{
  Redis, World, Config, Env, ManagerError, missing_identity, no_message, customer_failed,
  conversation_lookup, conversation_failed, message_failed, Result, ok, err, write_session,
}

-- What `HandleInboundMessage` reads of a `StandardMessage`; its content is already marshalled.
pub record Inbound : Type 0 where
  pub platform_user_id : String
  pub channel_id : String
  pub product_line_id : String
  pub content : String
  pub correlation_id : String
  pub platform_msg_id : String

unfoldable pub customer_key : String → String → String
customer_key identity channel =
    str_append "customer:" (str_append identity (str_append ":" channel))

-- `strPtr`.
abbrev pub str_ptr : String → Option String
str_ptr s = if str_eq s "" then none else some s

-- `GetCustomerID`: an empty value counts as not cached.
unfoldable pub cached_customer : Env → World → String → String → Option String
unfolding customer_key
cached_customer e w identity channel = if e.get_customer_fails then none else elim w.cache [
  | none ↦ none
  | some r ↦ elim (r.customer_ids (customer_key identity channel)) [
    | none ↦ none
    | some id ↦ str_ptr id
  ]
]

unfoldable pub write_customer : Bool → String → String → String → World → World
unfolding customer_key put
write_customer fails identity channel id w = if fails then w else elim w.cache [
  | none ↦ w
  | some r ↦ record w {
    cache =
        some (record r {
          customer_ids = put r.customer_ids (customer_key identity channel) (some id);
        });
  }
]

unfoldable pub find_or_create_customer : Env → World → String → String → World × Result String
find_or_create_customer e w identity channel = elim (cached_customer e w identity channel) [
  | some id ↦ (w, ok id)
  | none ↦
      if e.upsert_fails
      then (w, err customer_failed)
      else let (rows, id) = upsert_customer e.customer_id identity channel w.customers in
        (
          write_customer e.set_customer_fails identity channel id (record w { customers = rows }),
          ok id,
        )
]

abbrev window_of : Config → String → ℕ
window_of cfg pl = elim cfg.survey_window [ none ↦ 0 | some f ↦ f pl ]

unfoldable pub new_conversation : Env → String → String → String → Conversation
new_conversation e customer channel pl = record {
  id = e.conversation_id;
  channel_id = channel;
  product_line_id = pl;
  customer_id = customer;
  state = state_pending;
  assigned_agent_id = none;
  updated_at = e.now;
  closed_at = none;
  survey_status = none;
  survey_sent_at = none;
  satisfaction_score = none;
}

abbrev pending_session : String → SessionData
pending_session pl = record { state = state_pending; product_line_id = pl; agent_id = "" }

unfoldable pub find_or_create_conversation :
    Config → Env → World → String → String → String → World × Result String
unfolding new_conversation
find_or_create_conversation cfg e w customer channel pl =
    if e.search_fails
    then (w, err conversation_lookup)
    else elim (get_conversation_by_customer e.now (window_of cfg pl) customer w.conversations) [
      | some c ↦ (w, ok c.id)
      | none ↦
          if e.create_fails
          then (w, err conversation_failed)
          else let c = new_conversation e customer channel pl in
            (
              write_session e.set_session_fails c.id (some (pending_session pl))
                  (record w { conversations = c ∷ w.conversations }),
              ok c.id,
            )
    ]

unfoldable pub inbound_message : Env → String → Inbound → Message
inbound_message e conversation m = record {
  id = e.message_id;
  conversation_id = conversation;
  direction = "inbound";
  sender_type = "customer";
  content = m.content;
  platform_msg_id = str_ptr m.platform_msg_id;
  correlation_id = str_ptr m.correlation_id;
  month = e.month;
}

-- The conversation's id, and whether the message was already stored.
unfoldable pub store_inbound : Env → World → String → Inbound → World × Result (String × Bool)
store_inbound e w conversation m =
    elim (create_message e.insert_fails e.locate_fails (inbound_message e conversation m)
      w.messages) [
        | none ↦ (w, err message_failed)
        | some (rows, _, inserted) ↦
            if inserted
            then (record w { messages = rows }, ok (conversation, false))
            else (record w { messages = rows }, ok (conversation, true))
      ]

abbrev with_conversation : Env → Inbound → World × Result String → World × Result (String × Bool)
with_conversation e m (w, ok conversation) = store_inbound e w conversation m
with_conversation e m (w, err x) = (w, err x)

abbrev with_customer :
    Config → Env → Inbound → World × Result String → World × Result (String × Bool)
with_customer cfg e m (w, ok customer) =
    with_conversation e m
      (find_or_create_conversation cfg e w customer m.channel_id m.product_line_id)
with_customer cfg e m (w, err x) = (w, err x)

unfoldable pub handle_inbound_message :
    Config → Env → Option Inbound → World → World × Result (String × Bool)
handle_inbound_message cfg e none w = (w, err no_message)
handle_inbound_message cfg e (some m) w =
    if str_eq m.platform_user_id "" || str_eq m.channel_id ""
    then (w, err missing_identity)
    else with_customer cfg e m (find_or_create_customer e w m.platform_user_id m.channel_id)
