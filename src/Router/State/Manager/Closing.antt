-- ===== src/Router/State/Manager/Closing.antt =====
-- The close callback (`fireOnClose` of unica/router/internal/state/manager.go), which both ways of
-- closing a conversation go through.
use mathlib.Core.List.{append-nil, append_assoc}
use lurus_unica.Common.{
  ℕ, String, Bool, true, false, not, ◌&&◌, none, some, List, [], ◌∷◌, ◌++◌, str_eq, eq_iff, arith,
  ◌≡◌, refl, sym, subst, ◌∙◌, ap, inl, inr, Bool-cases, if◌then◌else◌, length,
}
use lurus_unica.Router.State.Machine.{ConversationState, state_closed, can_transition_to}
use lurus_unica.Router.State.Store.{
  Conversation, SessionData, first, get_conversation, set_state, with_state,
  update_conversation_state,
}
use lurus_unica.Router.State.Manager.{
  World, Config, Env, Result, ok, write_session, fire_on_close, apply_transition, transition_state,
  close_idle_row, is_idle, idle_rows, sweep, close_idle_conversations,
}
use lurus_unica.Router.State.Manager.Transition.{
  get_conversation-set_state, write_session-conversations, transition_state_seen,
}
use lurus_unica.Router.State.Manager.Sweep.{
  DistinctIds, get-cons_none, sweep_step, sweep_step_other,
}

module _ (cfg : Config) where
  -- A closing tells the callback, if there is one and the row can be loaded.
  notified-fire_on_close :
      (e : Env) (id : String) (w : World) (c : Conversation)
      → get_conversation id w.conversations ≡ some c
      → (fire_on_close cfg e id w).notified
        ≡ (if cfg.has_on_close && not e.reload_fails then w.notified ++ c ∷ [] else w.notified)
  unfolding fire_on_close
  notified-fire_on_close e id w c p = ground arith

  notified-apply_transition :
      (e : Env) (id : String) (to : ConversationState) (seen : SessionData) (w : World)
      (c : Conversation)
      → get_conversation id w.conversations ≡ some c
      → (apply_transition cfg e id to seen w).1 ≡ ok tt
      → (apply_transition cfg e id to seen w).0.notified ≡ (
          if str_eq to state_closed && (cfg.has_on_close && not e.reload_fails)
          then w.notified ++ with_state e.now to c ∷ []
          else w.notified)
  unfolding apply_transition update_conversation_state
  notified-apply_transition e id to seen w c p h =
      let w' = record w { conversations = set_state e.now id to w.conversations } in
      let v = write_session e.invalidate_fails id none w' in
      let row : get_conversation id w'.conversations ≡ some (with_state e.now to c) =
        ground (arith, eq_iff id id, get_conversation-set_state e.now id id to w.conversations) in
      let (vc, vn) = write_session-conversations cfg e e.invalidate_fails id none w' in
      ground (
        arith,
        vn,
        write_session-conversations cfg e e.set_session_fails id (some (record seen { state = to }))
            w',
        notified-fire_on_close e id v (with_state e.now to c) (ap (get_conversation id) vc ∙ row),
      )

  -- An accepted transition tells the close callback once, with the row as it was just written, exactly
  -- if it closes the conversation, a callback is registered, and the row can be loaded again.
  pub notified-transition_state :
      (e : Env) (id : String) (to : ConversationState) (w : World) (c : Conversation)
      → get_conversation id w.conversations ≡ some c
      → (transition_state cfg e id to w).1 ≡ ok tt
      → (transition_state cfg e id to w).0.notified ≡ (
          if str_eq to state_closed && (cfg.has_on_close && not e.reload_fails)
          then w.notified ++ with_state e.now to c ∷ []
          else w.notified)
  notified-transition_state e id to w c p h =
      let (seen, q, v, t) = transition_state_seen cfg e id to w h in
      ap (λ (x : World × Result Unit). x.0.notified) t
      ∙ notified-apply_transition e id to seen w c p
          (ap (λ (x : World × Result Unit). x.1) (sym t) ∙ h)

  -- A row of the sweep: whether it is closed, and what the callback is told.
  row_told :
      (e : Env) (w : World) (id : String) (s : ConversationState) (c : Conversation)
      → cfg.has_on_close ≡ true
      → get_conversation id w.conversations ≡ some c
      → let x = close_idle_row cfg e w (id, s) in
        let closes = can_transition_to s state_closed && not e.update_fails in
        (x.1 ≡ closes)
        × (x.0.notified ≡ (
            if closes && not e.reload_fails
            then w.notified ++ with_state e.now state_closed c ∷ []
            else w.notified))
  unfolding close_idle_row update_conversation_state
  row_told e w id s c h p =
      let w' = record w { conversations = set_state e.now id state_closed w.conversations } in
      let v = write_session e.invalidate_fails id none w' in
      let c' = with_state e.now state_closed c in
      let row : get_conversation id w'.conversations ≡ some c' = ground (
        arith,
        eq_iff id id,
        get_conversation-set_state e.now id id state_closed w.conversations,
      ) in
      let (vc, vn) = write_session-conversations cfg e e.invalidate_fails id none w' in
      (
        ground arith,
        ground (arith, vn, notified-fire_on_close e id v c' (ap (get_conversation id) vc ∙ row)),
      )

-- Rows that a table holds under their ids.
AreIn : List Conversation → List Conversation → Type 0
AreIn [] table = Unit
AreIn (r ∷ rs) table = (get_conversation r.id table ≡ some r) × AreIn rs table

AreIn-cons :
    (r : Conversation) (rs table : List Conversation)
    → get_conversation r.id rs ≡ none
    → AreIn rs table
    → AreIn rs (r ∷ table)
unfolding AreIn get_conversation first
AreIn-cons r [] table h a = tt
AreIn-cons r (x ∷ xs) table h a =
    let (ne, h') = get-cons_none r.id x xs h in
    (ground (arith, eq_iff r.id x.id), AreIn-cons r xs table h' a.1)

rows-AreIn : (rows : List Conversation) → DistinctIds rows → AreIn rows rows
unfolding AreIn get_conversation first
rows-AreIn [] d = tt
rows-AreIn (r ∷ rs) d =
    (ground (arith, eq_iff r.id r.id), AreIn-cons r rs rs d.0 (rows-AreIn rs d.1))

module _ (cfg : Config) (now : ℕ) (env : String → Env) (unreadable : String → Bool) where
  open cfg use {idle_timeout}

  -- The conversations that a sweep closes.
  abbrev pub closes : Conversation → Bool
  closes c =
      is_idle now idle_timeout c
      && not (unreadable c.id)
      && can_transition_to c.state state_closed
      && not (env c.id).update_fails

  unfoldable pub closed_rows : List Conversation → List Conversation
  closed_rows [] = []
  closed_rows (c ∷ cs) = let rest = closed_rows cs in if closes c then c ∷ rest else rest

  -- Those of them that can be loaded again, as they were written.
  unfoldable pub told_rows : List Conversation → List Conversation
  told_rows [] = []
  told_rows (c ∷ cs) =
      let rest = told_rows cs in
      if closes c && not (env c.id).reload_fails
      then with_state (env c.id).now state_closed c ∷ rest
      else rest

  AreIn-step :
      (id : String) (s : ConversationState) (rs : List Conversation) (w : World)
      → get_conversation id rs ≡ none
      → AreIn rs w.conversations
      → AreIn rs (sweep_step cfg now env unreadable w id s).conversations
  unfolding AreIn
  AreIn-step id s [] w h a = tt
  AreIn-step id s (x ∷ xs) w h a =
      let (ne, h') = get-cons_none id x xs h in
      (
        sweep_step_other cfg now env unreadable w id x.id s (λ e. ne (sym e)) ∙ a.0,
        AreIn-step id s xs w h' a.1,
      )

  sweep_told :
      (rows : List Conversation) (w : World)
      → cfg.has_on_close ≡ true
      → DistinctIds rows
      → AreIn rows w.conversations
      → let x = sweep cfg env unreadable (idle_rows now idle_timeout rows) w in
        (x.0.notified ≡ w.notified ++ told_rows rows) × (x.1 ≡ length (closed_rows rows))
  unfolding AreIn idle_rows sweep told_rows closed_rows sweep_step
  sweep_told [] w h d a = (sym (append-nil w.notified), refl)
  sweep_told (r ∷ rs) w h d a = elim (Bool-cases (is_idle now idle_timeout r)) [
    | inr n ↦ ground (arith, sweep_told rs w h d.1 a.1)
    | inl t ↦ elim (Bool-cases (unreadable r.id)) [
      | inl b ↦ ground (arith, sweep_told rs w h d.1 a.1)
      | inr b ↦
          let w' = (close_idle_row cfg (env r.id) w (r.id, r.state)).0 in
          let same : sweep_step cfg now env unreadable w r.id r.state ≡ w' = ground arith in
          let c = with_state (env r.id).now state_closed r in
          let rest = sweep_told rs w' h d.1 (
            subst (λ (x : World). AreIn rs x.conversations) same
              (AreIn-step r.id r.state rs w d.0 a.1)) in
          ground (
            arith,
            rest,
            row_told cfg (env r.id) w r.id r.state r h a.0,
            append_assoc w.notified (c ∷ []) (told_rows rs),
          )
    ]
  ]

  -- A sweep that could query the table tells the close callback, if there is one, of exactly the
  -- conversations that it closed and could load again, each once, in the order of the table, with the
  -- row as it was just written; and what it returns is how many it closed. (Ids are unique.)
  pub close_idle_conversations_notifies :
      (w : World)
      → cfg.has_on_close ≡ true
      → DistinctIds w.conversations
      → let (w', closed) = close_idle_conversations cfg now false env unreadable w in
        (w'.notified ≡ w.notified ++ told_rows w.conversations)
        × (closed ≡ length (closed_rows w.conversations))
  unfolding close_idle_conversations
  close_idle_conversations_notifies w h d =
      sweep_told w.conversations w h d (rows-AreIn w.conversations d)
