-- ===== src/Router/State/Manager/Sweep.antt =====
-- The idle sweep and the close callback (`closeIdleConversations` and `fireOnClose` of
-- unica/router/internal/state/manager.go).
use lurus_unica.Common.{
  ℕ, String, Bool, true, false, not, ◌&&◌, none, some, List, [], ◌∷◌, str_eq, eq_iff, arith, ◌≡◌,
  ◌≢◌, refl, sym, ◌∙◌, ap, ◌⊎◌, inl, inr, Bool-cases, Option-cases, if◌then◌else◌,
}
use lurus_unica.Router.State.Machine.{ConversationState, state_closed, can_transition_to}
use lurus_unica.Router.State.Store.{
  Conversation, first, get_conversation, set_state, with_state, update_conversation_state,
}
use lurus_unica.Router.State.Manager.{
  World, Config, Env, write_session, close_idle_row, is_idle, idle_rows, sweep,
  close_idle_conversations,
}
use lurus_unica.Router.State.Manager.Transition.{
  get_conversation-set_state, fire_on_close-conversations, write_session-conversations,
}

module _ (cfg : Config) where
  -- A row of the sweep that is not the conversation's own leaves it alone.
  close_idle_row_other :
      (e : Env) (w : World) (id k : String) (s : ConversationState)
      → k ≢ id
      → get_conversation k (close_idle_row cfg e w (id, s)).0.conversations
        ≡ get_conversation k w.conversations
  unfolding close_idle_row update_conversation_state
  close_idle_row_other e w id k s h = elim (Option-cases (get_conversation id w.conversations)) [
    | inl n ↦ ground arith
    | inr (c, p) ↦
        let w' = record w { conversations = set_state e.now id state_closed w.conversations } in
        ground (
          arith,
          eq_iff id k,
          get_conversation-set_state e.now id k state_closed w.conversations,
          write_session-conversations cfg e e.invalidate_fails id none w',
          fire_on_close-conversations cfg e id (write_session e.invalidate_fails id none w'),
        )
  ]

  close_idle_row_self :
      (e : Env) (w : World) (id : String) (s : ConversationState) (c : Conversation)
      → get_conversation id w.conversations ≡ some c
      → get_conversation id (close_idle_row cfg e w (id, s)).0.conversations
        ≡ some (
            if can_transition_to s state_closed && not e.update_fails
            then with_state e.now state_closed c
            else c)
  unfolding close_idle_row update_conversation_state
  close_idle_row_self e w id s c p =
      let w' = record w { conversations = set_state e.now id state_closed w.conversations } in
      ground (
        arith,
        eq_iff id id,
        get_conversation-set_state e.now id id state_closed w.conversations,
        write_session-conversations cfg e e.invalidate_fails id none w',
        fire_on_close-conversations cfg e id (write_session e.invalidate_fails id none w'),
      )

-- `id` is the table's primary key.
abbrev pub DistinctIds : List Conversation → Type 0
DistinctIds [] = Unit
DistinctIds (r ∷ rs) = (get_conversation r.id rs ≡ none) × DistinctIds rs

pub get-cons_none :
    (k : String) (r : Conversation) (rs : List Conversation)
    → get_conversation k (r ∷ rs) ≡ none
    → (k ≢ r.id) × (get_conversation k rs ≡ none)
unfolding get_conversation first
get-cons_none k r rs h = (λ e. ground (arith, eq_iff r.id k), ground (arith, eq_iff r.id k))

get-cons_some :
    (k : String) (r c : Conversation) (rs : List Conversation)
    → get_conversation k (r ∷ rs) ≡ some c
    → ((k ≡ r.id) × (c ≡ r)) ⊎ ((k ≢ r.id) × (get_conversation k rs ≡ some c))
unfolding get_conversation first
get-cons_some k r c rs h = elim (Bool-cases (str_eq r.id k)) [
  | inl e ↦ inl (ground (arith, eq_iff r.id k), ground (arith, eq_iff r.id k))
  | inr n ↦ inr ((λ e. ground (arith, eq_iff r.id k)), ground (arith, eq_iff r.id k))
]

get-nil_some : (k : String) (c : Conversation) → get_conversation k [] ≡ some c → ⊥
unfolding get_conversation first
get-nil_some k c h = cc

module _ (cfg : Config) (now : ℕ) (env : String → Env) (unreadable : String → Bool) where
  open cfg use {idle_timeout}

  -- What the sweep does to a row.
  abbrev pub swept : Conversation → Conversation
  swept c =
      if is_idle now idle_timeout c
        && not (unreadable c.id)
        && can_transition_to c.state state_closed
        && not (env c.id).update_fails
      then with_state (env c.id).now state_closed c
      else c

  unfoldable pub sweep_step : (w : World) (id : String) (s : ConversationState) → World
  sweep_step w id s = if unreadable id then w else (close_idle_row cfg (env id) w (id, s)).0

  sweep-cons :
      (w : World) (id : String) (s : ConversationState) (rest : List (String × ConversationState))
      → (sweep cfg env unreadable ((id, s) ∷ rest) w).0
        ≡ (sweep cfg env unreadable rest (sweep_step w id s)).0
  unfolding sweep sweep_step
  sweep-cons w id s rest = ground arith

  pub sweep_step_other :
      (w : World) (id k : String) (s : ConversationState)
      → k ≢ id
      → get_conversation k (sweep_step w id s).conversations ≡ get_conversation k w.conversations
  unfolding sweep_step
  sweep_step_other w id k s h = ground (arith, close_idle_row_other cfg (env id) w id k s h)

  -- Rows that the sweep does not see are left alone.
  sweep_others :
      (k : String) (rows : List Conversation) (w : World)
      → get_conversation k rows ≡ none
      → get_conversation k
          (sweep cfg env unreadable (idle_rows now idle_timeout rows) w).0.conversations
        ≡ get_conversation k w.conversations
  unfolding idle_rows
  sweep_others k [] w h = unfold sweep in refl
  sweep_others k (r ∷ rs) w h =
      let (ne, h') = get-cons_none k r rs h in
      elim (Bool-cases (is_idle now idle_timeout r)) [
        | inl i ↦ rw i (
            rw (sweep-cons w r.id r.state (idle_rows now idle_timeout rs)) (
              sweep_others k rs (sweep_step w r.id r.state) h'
              ∙ sweep_step_other w r.id k r.state ne))
        | inr n ↦ rw n (sweep_others k rs w h')
      ]

  sweep_step_self :
      (w : World) (c : Conversation)
      → get_conversation c.id w.conversations ≡ some c
      → is_idle now idle_timeout c ≡ true
      → get_conversation c.id (sweep_step w c.id c.state).conversations ≡ some (swept c)
  unfolding sweep_step
  sweep_step_self w c p i = ground (arith, close_idle_row_self cfg (env c.id) w c.id c.state c p)

  sweep_head :
      (r : Conversation) (rs : List Conversation) (w : World)
      → get_conversation r.id rs ≡ none
      → get_conversation r.id w.conversations ≡ some r
      → get_conversation r.id
          (sweep cfg env unreadable (idle_rows now idle_timeout (r ∷ rs)) w).0.conversations
        ≡ some (swept r)
  unfolding idle_rows
  sweep_head r rs w d p = elim (Bool-cases (is_idle now idle_timeout r)) [
    | inl i ↦ rw i (
        rw (sweep-cons w r.id r.state (idle_rows now idle_timeout rs)) (
          sweep_others r.id rs (sweep_step w r.id r.state) d
          ∙ sweep_step_self w r p i
          ∙ ground arith))
    | inr n ↦ rw n (sweep_others r.id rs w d ∙ p)
  ]

  sweep_rows :
      (k : String) (c : Conversation) (rows : List Conversation) (w : World)
      → DistinctIds rows
      → get_conversation k rows ≡ some c
      → get_conversation k w.conversations ≡ some c
      → get_conversation k
          (sweep cfg env unreadable (idle_rows now idle_timeout rows) w).0.conversations
        ≡ some (swept c)
  unfolding idle_rows
  sweep_rows k c [] w d h p = absurd (get-nil_some k c h)
  sweep_rows k c (r ∷ rs) w d h p = elim (get-cons_some k r c rs h) [
    | inl (e, same) ↦
        rw (e, same)
          (sweep_head r rs w d.0
            (ap (λ x. get_conversation x w.conversations) (sym e) ∙ p ∙ ap some same))
    | inr (ne, h') ↦ elim (Bool-cases (is_idle now idle_timeout r)) [
      | inl i ↦ rw i (
          rw (sweep-cons w r.id r.state (idle_rows now idle_timeout rs)) (
            sweep_rows k c rs (sweep_step w r.id r.state) d.1 h'
              (sweep_step_other w r.id k r.state ne ∙ p)))
      | inr n ↦ rw n (sweep_rows k c rs w d.1 h' p)
    ]
  ]

  -- After a sweep that could query the table, every conversation that had been idle for longer than
  -- the timeout, stood in a state that may close, and could be read and updated is closed at the time
  -- of its update, and every other is as it was. (Ids are unique.)
  pub close_idle_conversations_rows :
      (w : World) (k : String) (c : Conversation)
      → DistinctIds w.conversations
      → get_conversation k w.conversations ≡ some c
      → get_conversation k (close_idle_conversations cfg now false env unreadable w).0.conversations
        ≡ some (swept c)
  unfolding close_idle_conversations
  close_idle_conversations_rows w k c d p = sweep_rows k c w.conversations w d p p
