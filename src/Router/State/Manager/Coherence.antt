-- ===== src/Router/State/Manager/Coherence.antt =====
-- The session cache against the table (unica/router/internal/state/manager.go, cache.go): what a
-- transition, a closing or a new conversation does to the two together.
use lurus_unica.Common.{
  String, Bool, false, Option, none, some, str_eq, eq_iff, arith, ◌≡◌, ◌≢◌, refl, sym, ◌∙◌, ap, ◌⊎◌,
  inl, inr, subst, Option-cases, if◌then◌else◌,
}
use lurus_unica.Common.Maps.{put}
use lurus_unica.Router.State.Machine.{ConversationState, state_closed}
use lurus_unica.Router.State.Machine.Graph.{Edge}
use lurus_unica.Router.State.Store.{
  Conversation, SessionData, get_conversation, set_state, with_state, update_conversation_state,
}
use lurus_unica.Router.State.Manager.{
  World, Config, Env, Result, ok, err, ManagerError, cached_session, write_session,
  get_conversation_state, fire_on_close, apply_transition, transition_state,
}
use lurus_unica.Router.State.Manager.Transition.{
  transition_state_seen, transition_state_ok, transition_state_err,
}

-- The session that the cache holds of a conversation, if there is a cache and an entry.
abbrev pub session_of : World → String → Option SessionData
session_of w id = elim w.cache [ none ↦ none | some r ↦ r.sessions id ]

-- What is cached of a conversation is the state of its row.
pub record IsCoherent (w : World) : Type 0 where
  pub at :
      (id : String) (s : SessionData)
      → session_of w id ≡ some s
      → (c : Conversation) × (get_conversation id w.conversations ≡ some c) × (c.state ≡ s.state)

session_of-write :
    (fails : Bool) (id k : String) (v : Option SessionData) (w : World)
    → fails ≡ false
    → session_of (write_session fails id v w) k
      ≡ (if str_eq k id then elim w.cache [ none ↦ none | some _ ↦ v ] else session_of w k)
unfolding write_session put
session_of-write fails id k v w h = ground arith

session_of-fire :
    (cfg : Config) (e : Env) (id k : String) (w : World)
    → session_of (fire_on_close cfg e id w) k ≡ session_of w k
unfolding fire_on_close
session_of-fire cfg e id k w = ground arith

Result-cases : (r : Result (Unit {0})) → (r ≡ ok tt) ⊎ ((x : ManagerError) × (r ≡ err x))
Result-cases (ok u) = inl refl
Result-cases (err x) = inr (x, refl)

module _ (cfg : Config) (e : Env) (id : String) (to : ConversationState) (w : World) where
  session_of-apply_transition :
      (seen : SessionData) (k : String)
      → e.set_session_fails ≡ false
      → e.invalidate_fails ≡ false
      → (apply_transition cfg e id to seen w).1 ≡ ok tt
      → session_of (apply_transition cfg e id to seen w).0 k ≡ (
          if str_eq k id
          then elim w.cache [
            | none ↦ none
            | some _ ↦ if str_eq to state_closed then none else some (record seen { state = to })
          ]
          else session_of w k)
  unfolding apply_transition update_conversation_state
  session_of-apply_transition seen k f g h =
      elim (Option-cases (get_conversation id w.conversations)) [
        | inl n ↦ ground arith
        | inr (c, p) ↦
            let w' = record w { conversations = set_state e.now id to w.conversations } in
            ground (
              arith,
              session_of-fire cfg e id k (write_session e.invalidate_fails id none w'),
              session_of-write e.invalidate_fails id k none w' g,
              session_of-write e.set_session_fails id k (some (record seen { state = to })) w' f,
            )
      ]

  session_of-transition :
      (k : String) (s : SessionData)
      → e.set_session_fails ≡ false
      → e.invalidate_fails ≡ false
      → (transition_state cfg e id to w).1 ≡ ok tt
      → session_of (transition_state cfg e id to w).0 k ≡ some s
      → ((k ≡ id) × (s.state ≡ to)) ⊎ ((k ≢ id) × (session_of w k ≡ some s))
  session_of-transition k s f g h q =
      let (seen, p, v, t) = transition_state_seen cfg e id to w h in
      let u = ap (λ (x : World × Result Unit). x.0) t in
      let ok' : (apply_transition cfg e id to seen w).1 ≡ ok tt =
        ap (λ (x : World × Result Unit). x.1) (sym t) ∙ h in
      let found : session_of (apply_transition cfg e id to seen w).0 k ≡ some s =
        ap (λ (x : World). session_of x k) (sym u) ∙ q in
      ground (arith, session_of-apply_transition seen k f g ok', found, eq_iff k id)

  -- Where no write of the cache fails, a transition, accepted or not, keeps the cache in step with the
  -- table: every session that is cached afterwards has a row in the same state.
  pub transition_state-IsCoherent :
      e.set_session_fails ≡ false
      → e.invalidate_fails ≡ false
      → IsCoherent w
      → IsCoherent (transition_state cfg e id to w).0
  transition_state-IsCoherent f g h = elim (Result-cases (transition_state cfg e id to w).1) [
    | inr (x, r) ↦ subst IsCoherent (sym (transition_state_err cfg e id to w x r)) h
    | inl r ↦
        let (seen, c, p, edge, row, row', other) = transition_state_ok cfg e id to w r in
        record {
          at = λ k s q. elim (session_of-transition k s f g r q) [
            | inl (same, st) ↦ (with_state e.now to c, rw same row', sym st)
            | inr (ne, q') ↦ let (d, old, st) = h.at k s q' in (d, other k ne ∙ old, st)
          ];
        }
  ]

  seen_of_row :
      (seen : SessionData) (c : Conversation)
      → IsCoherent w
      → get_conversation_state e w id ≡ some seen
      → get_conversation id w.conversations ≡ some c
      → seen.state ≡ c.state
  unfolding get_conversation_state cached_session
  seen_of_row seen c h p row = elim (Option-cases (session_of w id)) [
    | inl n ↦ ground arith
    | inr (s, q) ↦ let (d, row', st) = h.at id s q in ground arith
  ]

  -- In a coherent world an accepted transition follows an edge from the state of the row itself.
  pub transition_state_row-Edge :
      IsCoherent w
      → (transition_state cfg e id to w).1 ≡ ok tt
      → (c : Conversation) × (get_conversation id w.conversations ≡ some c)
        × Edge c.state to
        × (get_conversation id (transition_state cfg e id to w).0.conversations
            ≡ some (with_state e.now to c))
  transition_state_row-Edge h r =
      let (seen, c, p, edge, row, row', other) = transition_state_ok cfg e id to w r in
      (c, row, subst (λ x. Edge x to) (seen_of_row seen c h p row) edge, row')
