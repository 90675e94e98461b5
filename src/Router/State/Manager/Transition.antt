-- ===== src/Router/State/Manager/Transition.antt =====
-- What `TransitionState` of unica/router/internal/state/manager.go does to the tables, the cache and
-- the close callback.
use lurus_unica.Common.{
  ℕ, String, Bool, Option, none, some, List, [], ◌∷◌, str_eq, eq_iff, arith, ◌≡◌, ◌≢◌, sym, ◌∙◌, ap,
  inl, inr, Option-cases, if◌then◌else◌,
}
use lurus_unica.Router.State.Machine.{ConversationState, validate_transition}
use lurus_unica.Router.State.Machine.Graph.{Edge, validate_transition_iff}
use lurus_unica.Router.State.Store.{
  Conversation, SessionData, first, get_conversation, set_state, with_state,
  update_conversation_state,
}
use lurus_unica.Router.State.Manager.{
  World, Config, Env, Result, ok, err, ManagerError, write_session, get_conversation_state,
  fire_on_close, apply_transition, transition_state,
}

-- The write of one row as others see it.
pub get_conversation-set_state :
    (now : ℕ) (id k : String) (s : ConversationState) (rows : List Conversation)
    → get_conversation k (set_state now id s rows) ≡ (
        if str_eq id k
        then elim (get_conversation k rows) [ none ↦ none | some c ↦ some (with_state now s c) ]
        else get_conversation k rows)
unfolding get_conversation set_state first
get_conversation-set_state now id k s [] = ground arith
get_conversation-set_state now id k s (r ∷ rs) =
    ground
      (arith, get_conversation-set_state now id k s rs, eq_iff id k, eq_iff r.id id, eq_iff r.id k)

module _ (cfg : Config) (e : Env) where
  pub fire_on_close-conversations :
      (id : String) (w : World)
      → ((fire_on_close cfg e id w).conversations ≡ w.conversations)
        × ((fire_on_close cfg e id w).cache ≡ w.cache)
  unfolding fire_on_close
  fire_on_close-conversations id w = ground arith

  pub write_session-conversations :
      (fails : Bool) (id : String) (v : Option SessionData) (w : World)
      → ((write_session fails id v w).conversations ≡ w.conversations)
        × ((write_session fails id v w).notified ≡ w.notified)
  unfolding write_session
  write_session-conversations fails id v w = ground arith

  module _ (id : String) (to : ConversationState) (seen : SessionData) (w : World) where
    pub apply_transition_ok :
        (apply_transition cfg e id to seen w).1 ≡ ok tt
        → (c : Conversation) × (get_conversation id w.conversations ≡ some c)
          × ((apply_transition cfg e id to seen w).0.conversations
              ≡ set_state e.now id to w.conversations)
    unfolding apply_transition update_conversation_state
    apply_transition_ok h = elim (Option-cases (get_conversation id w.conversations)) [
      | inl n ↦ ground arith
      | inr (c, p) ↦
          let rows = set_state e.now id to w.conversations in
          let w' = record w { conversations = rows } in
          (
            c,
            p,
            ground (
              arith,
              fire_on_close-conversations id (write_session e.invalidate_fails id none w'),
              write_session-conversations e.invalidate_fails id none w',
              write_session-conversations e.set_session_fails id (some (record seen { state = to }))
                  w',
            ),
          )
    ]

    apply_transition_err :
        (x : ManagerError)
        → (apply_transition cfg e id to seen w).1 ≡ err x
        → (apply_transition cfg e id to seen w).0 ≡ w
    unfolding apply_transition
    apply_transition_err x h = ground arith

  -- An accepted transition was found, validated, and is its writes.
  pub transition_state_seen :
      (id : String) (to : ConversationState) (w : World)
      → (transition_state cfg e id to w).1 ≡ ok tt
      → (seen : SessionData) × (get_conversation_state e w id ≡ some seen)
        × (validate_transition seen.state to ≡ none)
        × (transition_state cfg e id to w ≡ apply_transition cfg e id to seen w)
  unfolding transition_state
  transition_state_seen id to w h = elim (Option-cases (get_conversation_state e w id)) [
    | inl n ↦ ground arith
    | inr (seen, p) ↦ elim (Option-cases (validate_transition seen.state to)) [
      | inl v ↦ (seen, p, v, ground arith)
      | inr (x, v) ↦ ground arith
    ]
  ]

  -- An accepted transition follows an edge of the diagram from the state that the manager saw, and
  -- leaves the conversation's row in the new state, closed at this moment if that state is closed and
  -- with no closing time if not; every other conversation is as it was.
  pub transition_state_ok :
      (id : String) (to : ConversationState) (w : World)
      → (transition_state cfg e id to w).1 ≡ ok tt
      → let w' = (transition_state cfg e id to w).0 in
        (seen : SessionData) × (c : Conversation) × (get_conversation_state e w id ≡ some seen)
        × Edge seen.state to
        × (get_conversation id w.conversations ≡ some c)
        × (get_conversation id w'.conversations ≡ some (with_state e.now to c))
        × ((k : String)
            → k ≢ id
            → get_conversation k w'.conversations ≡ get_conversation k w.conversations)
  transition_state_ok id to w h =
      let (seen, p, v, t) = transition_state_seen id to w h in
      let (c, q, r) =
        apply_transition_ok id to seen w (ap (λ (x : World × Result Unit). x.1) (sym t) ∙ h) in
      let r' : (transition_state cfg e id to w).0.conversations
          ≡ set_state e.now id to w.conversations =
        ap (λ (x : World × Result Unit). x.0.conversations) t ∙ r in
      (
        seen,
        c,
        p,
        (validate_transition_iff seen.state to).0 v,
        q,
        rw r' (
            ground
              (arith, eq_iff id id, get_conversation-set_state e.now id id to w.conversations)),
        λ k ne.
            rw r' (
              ground
                (arith, eq_iff id k, get_conversation-set_state e.now id k to w.conversations)),
      )

  -- A call that returns an error has changed neither a table nor the cache, and told the callback
  -- nothing.
  pub transition_state_err :
      (id : String) (to : ConversationState) (w : World) (x : ManagerError)
      → (transition_state cfg e id to w).1 ≡ err x
      → (transition_state cfg e id to w).0 ≡ w
  unfolding transition_state
  transition_state_err id to w x h = elim (Option-cases (get_conversation_state e w id)) [
    | inl n ↦ ground arith
    | inr (seen, p) ↦ ground (arith, apply_transition_err id to seen w x)
  ]
