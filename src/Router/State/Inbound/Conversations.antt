-- ===== src/Router/State/Inbound/Conversations.antt =====
-- Which conversation an inbound message joins (`HandleInboundMessage` and
-- `findOrCreateConversation` of unica/router/internal/state/manager.go).
use lurus_unica.Common.{
  ℕ, ◌≤◌, String, Bool, true, false, not, ◌&&◌, Option, none, some, List, [], ◌∷◌, str_eq, eq_iff,
  arith, ◌≡◌, ◌≢◌, refl, inl, inr, Option-cases, count,
}
use lurus_unica.Router.State.Machine.{state_closed}
use lurus_unica.Router.State.Store.{
  Conversation, Message, first, conflicts, create_message, get_conversation_by_customer,
}
use lurus_unica.Router.State.Manager.{World, Config, Env, Result, ok, err, write_session}
use lurus_unica.Router.State.Inbound.{
  Inbound, write_customer, find_or_create_customer, find_or_create_conversation, window_of,
  inbound_message, store_inbound, with_conversation, with_customer, handle_inbound_message,
}

abbrev pub is_open : String → Conversation → Bool
is_open customer r = str_eq r.customer_id customer && not (str_eq r.state state_closed)

-- How many conversations of a customer are not closed.
abbrev pub open_count : String → List Conversation → ℕ
open_count customer = count (is_open customer)

abbrev pub OneOpen : World → Type 0
OneOpen w = (customer : String) → open_count customer w.conversations ≤ 1

none_open :
    (now window : ℕ) (customer : String) (rows : List Conversation)
    → get_conversation_by_customer now window customer rows ≡ none
    → open_count customer rows ≡ 0
unfolding get_conversation_by_customer first
none_open now window customer [] h = refl
none_open now window customer (r ∷ rs) h = ground (arith, none_open now window customer rs)

find-OneOpen :
    (cfg : Config) (e : Env) (w : World) (customer channel pl : String)
    → OneOpen w
    → OneOpen (find_or_create_conversation cfg e w customer channel pl).0
unfolding find_or_create_conversation write_session
find-OneOpen cfg e w customer channel pl h k =
    ground
      (arith, h k, none_open e.now (window_of cfg pl) customer w.conversations, eq_iff customer k)

conversations-find_or_create_customer :
    (e : Env) (w : World) (identity channel : String)
    → (find_or_create_customer e w identity channel).0.conversations ≡ w.conversations
unfolding find_or_create_customer write_customer
conversations-find_or_create_customer e w identity channel = ground arith

conversations-store_inbound :
    (e : Env) (w : World) (conversation : String) (m : Inbound)
    → (store_inbound e w conversation m).0.conversations ≡ w.conversations
unfolding store_inbound
conversations-store_inbound e w conversation m = ground arith

with_conversation-OneOpen :
    (e : Env) (m : Inbound) (x : World × Result String)
    → OneOpen x.0
    → OneOpen (with_conversation e m x).0
with_conversation-OneOpen e m (w, ok c) h k = rw (conversations-store_inbound e w c m) (h k)
with_conversation-OneOpen e m (w, err y) h k = h k

with_customer-OneOpen :
    (cfg : Config) (e : Env) (m : Inbound) (x : World × Result String)
    → OneOpen x.0
    → OneOpen (with_customer cfg e m x).0
with_customer-OneOpen cfg e m (w, ok c) h =
    with_conversation-OneOpen e m
      (find_or_create_conversation cfg e w c m.channel_id m.product_line_id)
      (find-OneOpen cfg e w c m.channel_id m.product_line_id h)
with_customer-OneOpen cfg e m (w, err y) h = h

-- If no customer has two open conversations, none has after an inbound message, whatever the message
-- and whichever calls of the database and the cache fail.
pub handle-OneOpen :
    (cfg : Config) (e : Env) (m : Option Inbound) (w : World)
    → OneOpen w
    → OneOpen (handle_inbound_message cfg e m w).0
unfolding handle_inbound_message
handle-OneOpen cfg e none w h k = h k
handle-OneOpen cfg e (some m) w h k =
    let found = find_or_create_customer e w m.platform_user_id m.channel_id in
    let kept : OneOpen found.0 =
      λ j. rw (conversations-find_or_create_customer e w m.platform_user_id m.channel_id) (h j) in
    ground (arith, h k, with_customer-OneOpen cfg e m found kept k)

no_conflict :
    (m : Message) (rows : List Message) → m.platform_msg_id ≡ none → first (conflicts m) rows ≡ none
unfolding first
no_conflict m [] h = refl
no_conflict m (r ∷ rs) h = ground (arith, no_conflict m rs h)

store_total :
    (e : Env) (w : World) (conversation : String) (m : Inbound)
    → e.insert_fails ≡ false
    → e.locate_fails ≡ false
    → (r : String × Bool) × ((store_inbound e w conversation m).1 ≡ ok r)
unfolding store_inbound create_message inbound_message
store_total e w conversation m f g =
    elim (Option-cases (first (conflicts (inbound_message e conversation m)) w.messages)) [
      | inl n ↦ ((conversation, false), ground arith)
      | inr (x, p) ↦ (
        (conversation, true),
        ground (
          arith,
          no_conflict (inbound_message e conversation m) w.messages,
          eq_iff m.platform_msg_id "",
        ),
      )
    ]

-- The database works.
pub record IsUp (e : Env) : Type 0 where
  pub upsert : e.upsert_fails ≡ false
  pub search : e.search_fails ≡ false
  pub create : e.create_fails ≡ false
  pub insert : e.insert_fails ≡ false
  pub locate : e.locate_fails ≡ false

abbrev pub is_ok {ℓ} : {A : Type ℓ} → Result A → Bool
is_ok (ok a) = true
is_ok (err x) = false

find_customer_total :
    (e : Env) (w : World) (identity channel : String)
    → IsUp e
    → is_ok (find_or_create_customer e w identity channel).1 ≡ true
unfolding find_or_create_customer
find_customer_total e w identity channel u = ground arith

find_conversation_total :
    (cfg : Config) (e : Env) (w : World) (customer channel pl : String)
    → IsUp e
    → is_ok (find_or_create_conversation cfg e w customer channel pl).1 ≡ true
unfolding find_or_create_conversation
find_conversation_total cfg e w customer channel pl u = ground arith

with_conversation_total :
    (e : Env) (m : Inbound) (x : World × Result String)
    → IsUp e
    → is_ok x.1 ≡ true
    → is_ok (with_conversation e m x).1 ≡ true
with_conversation_total e m (w, ok c) u h = ground (arith, store_total e w c m u.insert u.locate)
with_conversation_total e m (w, err y) u h = cc

with_customer_total :
    (cfg : Config) (e : Env) (m : Inbound) (x : World × Result String)
    → IsUp e
    → is_ok x.1 ≡ true
    → is_ok (with_customer cfg e m x).1 ≡ true
with_customer_total cfg e m (w, ok c) u h =
    with_conversation_total e m
      (find_or_create_conversation cfg e w c m.channel_id m.product_line_id) u
      (find_conversation_total cfg e w c m.channel_id m.product_line_id u)
with_customer_total cfg e m (w, err y) u h = cc

-- A message that names its sender and its channel is handled, with or without a working cache, as
-- long as the database works.
pub handle_total :
    (cfg : Config) (e : Env) (m : Inbound) (w : World)
    → IsUp e
    → m.platform_user_id ≢ ""
    → m.channel_id ≢ ""
    → is_ok (handle_inbound_message cfg e (some m) w).1 ≡ true
unfolding handle_inbound_message
handle_total cfg e m w u p q =
    let found = find_or_create_customer e w m.platform_user_id m.channel_id in
    ground (
      arith,
      eq_iff m.platform_user_id "",
      eq_iff m.channel_id "",
      with_customer_total cfg e m found u
          (find_customer_total e w m.platform_user_id m.channel_id u),
    )
