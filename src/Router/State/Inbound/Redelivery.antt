-- ===== src/Router/State/Inbound/Redelivery.antt =====
-- A platform message that arrives twice (`HandleInboundMessage` and `CreateMessage` of
-- unica/router/internal/state).
use lurus_unica.Common.{
  ℕ, String, Bool, true, false, ◌&&◌, ◌||◌, none, some, List, str_eq, eq_iff, arith, ◌≡◌, ◌≢◌, refl,
  sym, ◌∙◌, ap, subst, inl, inr, Bool-cases, Option-cases, ◌==◌,
}
use lurus_unica.Router.State.Store.{Message, first, conflicts, create_message}
use lurus_unica.Router.State.Manager.{World, Config, Env, Result, ok, err, write_session}
use lurus_unica.Router.State.Inbound.{
  Inbound, str_ptr, write_customer, find_or_create_customer, find_or_create_conversation,
  inbound_message, store_inbound, with_conversation, with_customer, handle_inbound_message,
}

-- The message is in the current month's partition.
abbrev pub IsStored : ℕ → Inbound → World → Type 0
IsStored month m w =
    (r : Message) × (first
        (λ (x : Message). month == x.month && elim (str_ptr m.platform_msg_id) [
          | none ↦ false
          | some p ↦ elim x.platform_msg_id [ none ↦ false | some q ↦ str_eq p q ]
        ])
        w.messages
      ≡ some r)

module _ (e : Env) (m : Inbound) (named : m.platform_msg_id ≢ "") where
  store_inbound-IsStored :
      (w : World) (conversation : String) (r : String × Bool)
      → (store_inbound e w conversation m).1 ≡ ok r
      → IsStored e.month m (store_inbound e w conversation m).0
  unfolding store_inbound create_message inbound_message first
  store_inbound-IsStored w conversation r h =
      elim (Option-cases (first (conflicts (inbound_message e conversation m)) w.messages)) [
        | inl n ↦ (
          inbound_message e conversation m,
          ground (arith, eq_iff m.platform_msg_id m.platform_msg_id, eq_iff m.platform_msg_id ""),
        )
        | inr (x, p) ↦ (x, ground arith)
      ]

  store_inbound_again :
      (w : World) (conversation : String)
      → IsStored e.month m w
      → e.insert_fails ≡ false
      → e.locate_fails ≡ false
      → store_inbound e w conversation m ≡ (w, ok (conversation, true))
  unfolding store_inbound create_message inbound_message
  store_inbound_again w conversation (x, p) f g = ground (arith, eq_iff m.platform_msg_id "")

messages-find_or_create_customer :
    (e : Env) (w : World) (identity channel : String)
    → (find_or_create_customer e w identity channel).0.messages ≡ w.messages
unfolding find_or_create_customer write_customer
messages-find_or_create_customer e w identity channel = ground arith

messages-find_or_create_conversation :
    (cfg : Config) (e : Env) (w : World) (customer channel pl : String)
    → (find_or_create_conversation cfg e w customer channel pl).0.messages ≡ w.messages
unfolding find_or_create_conversation write_session
messages-find_or_create_conversation cfg e w customer channel pl = ground arith

-- A call that succeeds ends with the store, in a world with the messages of the first.
abbrev EndsInStore : Env → Inbound → List Message → World × Result (String × Bool) → Type 0
EndsInStore e m before out =
    (w : World) × (conversation : String) × (w.messages ≡ before)
    × (out ≡ store_inbound e w conversation m)

module _ (cfg : Config) (m : Inbound) where
  with_conversation_ends :
      (e : Env) (x : World × Result String) (r : String × Bool)
      → (with_conversation e m x).1 ≡ ok r
      → EndsInStore e m x.0.messages (with_conversation e m x)
  with_conversation_ends e (w, ok c) r h = (w, c, refl, refl)
  with_conversation_ends e (w, err y) r h = cc

  with_customer_ends :
      (e : Env) (x : World × Result String) (r : String × Bool)
      → (with_customer cfg e m x).1 ≡ ok r
      → EndsInStore e m x.0.messages (with_customer cfg e m x)
  with_customer_ends e (w, ok c) r h =
      let found = find_or_create_conversation cfg e w c m.channel_id m.product_line_id in
      let (w', id, q, p) = with_conversation_ends e found r h in
      (w', id, q ∙ messages-find_or_create_conversation cfg e w c m.channel_id m.product_line_id, p)
  with_customer_ends e (w, err y) r h = cc

  handle_ends :
      (e : Env) (w : World) (r : String × Bool)
      → (handle_inbound_message cfg e (some m) w).1 ≡ ok r
      → EndsInStore e m w.messages (handle_inbound_message cfg e (some m) w)
  unfolding handle_inbound_message
  handle_ends e w r h = elim (Bool-cases (str_eq m.platform_user_id "" || str_eq m.channel_id "")) [
    | inl b ↦ ground arith
    | inr b ↦
        let found = find_or_create_customer e w m.platform_user_id m.channel_id in
        let (w', id, q, p) = with_customer_ends e found r (ground arith) in
        (w', id, q ∙ messages-find_or_create_customer e w m.platform_user_id m.channel_id, rw b p)
  ]

  module _ (named : m.platform_msg_id ≢ "") where
    pub handle-IsStored :
        (e : Env) (w : World) (r : String × Bool)
        → (handle_inbound_message cfg e (some m) w).1 ≡ ok r
        → IsStored e.month m (handle_inbound_message cfg e (some m) w).0
    handle-IsStored e w r h =
        let (w', id, q, p) = handle_ends e w r h in
        subst (λ (x : World × Result (String × Bool)). IsStored e.month m x.0) (sym p)
          (store_inbound-IsStored e m named w' id r
            (ap (λ (x : World × Result (String × Bool)). x.1) (sym p) ∙ h))

    pub handle_stored :
        (e : Env) (w : World) (r : String × Bool)
        → IsStored e.month m w
        → e.insert_fails ≡ false
        → e.locate_fails ≡ false
        → (handle_inbound_message cfg e (some m) w).1 ≡ ok r
        → (r.1 ≡ true) × ((handle_inbound_message cfg e (some m) w).0.messages ≡ w.messages)
    handle_stored e w r (x, st) f g h =
        let (w', id, q, p) = handle_ends e w r h in
        let there : IsStored e.month m w' = (x, rw q st) in
        let again = p ∙ store_inbound_again e m named w' id there f g in
        (ground (arith, again), ap (λ (y : World × Result (String × Bool)). y.0.messages) again ∙ q)

    -- A message with a platform id that was handled, and arrives again in the same month: a call that
    -- returns reports it as already stored and writes no message, whatever calls of the cache fail and
    -- whichever conversation it is now matched with. (The two database calls for the message work.)
    pub handle_again :
        (e e' : Env) (w : World) (r r' : String × Bool)
        → e'.month ≡ e.month
        → e'.insert_fails ≡ false
        → e'.locate_fails ≡ false
        → (handle_inbound_message cfg e (some m) w).1 ≡ ok r
        → let w' = (handle_inbound_message cfg e (some m) w).0 in
          (handle_inbound_message cfg e' (some m) w').1 ≡ ok r'
          → (r'.1 ≡ true) × ((handle_inbound_message cfg e' (some m) w').0.messages ≡ w'.messages)
    handle_again e e' w r r' same f g h h' =
        let w' = (handle_inbound_message cfg e (some m) w).0 in
        handle_stored e' w' r' (subst (λ n. IsStored n m w') (sym same) (handle-IsStored e w r h)) f
          g h'
