-- ===== src/Router/State/Machine/Graph.antt =====
-- The transition diagram of unica/router/internal/state/machine.go as a relation, and its paths.
use mathlib.Core.List.{Memᴰ}
use mathlib.Core.List.Memᴰ
use lurus_unica.Common.{
  subst, sym, ◌++◌, String, true, false, none, List, [], ◌∷◌, str_eq, eq_iff, arith, ◌≡◌, ◌≢◌, refl,
  inl, inr, ◌↔◌,
}
use lurus_unica.Router.State.Machine.{
  ConversationState, state_pending, state_ai_processing, state_human_processing, state_closed,
  can_transition_to, validate_transition, is_valid_state,
}

literals_ne : (s t : String) → str_eq s t ≡ false → s ≢ t
literals_ne s t h e = ground (arith, (eq_iff s t).1 e)

-- The four states are different strings.
pub states_distinct :
    (state_pending ≢ state_ai_processing)
    × (state_pending ≢ state_human_processing)
    × (state_pending ≢ state_closed)
    × (state_ai_processing ≢ state_human_processing)
    × (state_ai_processing ≢ state_closed)
    × (state_human_processing ≢ state_closed)
states_distinct = (
  literals_ne "pending" "ai_processing" refl,
  literals_ne "pending" "human_processing" refl,
  literals_ne "pending" "closed" refl,
  literals_ne "ai_processing" "human_processing" refl,
  literals_ne "ai_processing" "closed" refl,
  literals_ne "human_processing" "closed" refl,
)

-- The edges, each with the equations that fix its ends.
pub data Edge (s t : ConversationState) : Type 0 where
  start : s ≡ state_pending → t ≡ state_ai_processing → Edge s t
  straight_to_human : s ≡ state_pending → t ≡ state_human_processing → Edge s t
  handoff : s ≡ state_ai_processing → t ≡ state_human_processing → Edge s t
  answered : s ≡ state_ai_processing → t ≡ state_closed → Edge s t
  resolved : s ≡ state_human_processing → t ≡ state_closed → Edge s t
  reopen : s ≡ state_closed → t ≡ state_ai_processing → Edge s t

Edge-can : (s t : ConversationState) → Edge s t → can_transition_to s t ≡ true
unfolding can_transition_to
Edge-can s t (start p q) = rw (p, q)
Edge-can s t (straight_to_human p q) = rw (p, q)
Edge-can s t (handoff p q) = rw (p, q)
Edge-can s t (answered p q) = rw (p, q)
Edge-can s t (resolved p q) = rw (p, q)
Edge-can s t (reopen p q) = rw (p, q)

Edge-valid :
    (s t : ConversationState) → Edge s t → (is_valid_state s ≡ true) × (is_valid_state t ≡ true)
unfolding is_valid_state
Edge-valid s t (start p q) = (rw p, rw q)
Edge-valid s t (straight_to_human p q) = (rw p, rw q)
Edge-valid s t (handoff p q) = (rw p, rw q)
Edge-valid s t (answered p q) = (rw p, rw q)
Edge-valid s t (resolved p q) = (rw p, rw q)
Edge-valid s t (reopen p q) = (rw p, rw q)

ruleset edges = (start, straight_to_human, handoff, answered, resolved, reopen)

can-Edge : (s t : ConversationState) → can_transition_to s t ≡ true → Edge s t
unfolding can_transition_to
can-Edge s t h = grind (
  arith,
  edges,
  eq_iff s state_pending,
  eq_iff s state_ai_processing,
  eq_iff s state_human_processing,
  eq_iff s state_closed,
  eq_iff t state_pending,
  eq_iff t state_ai_processing,
  eq_iff t state_human_processing,
  eq_iff t state_closed,
)

-- A transition is accepted exactly along the six edges of the diagram.
pub validate_transition_iff :
    (s t : ConversationState) → (validate_transition s t ≡ none) ↔ Edge s t
unfolding validate_transition
validate_transition_iff s t =
    (λ h. can-Edge s t (ground arith), λ e. ground (arith, Edge-valid s t e, Edge-can s t e))

-- Every state of a list is accepted after the one before it.
abbrev pub Accepted : ConversationState → List ConversationState → Type 0
Accepted s [] = Unit
Accepted s (t ∷ ts) = (validate_transition s t ≡ none) × Accepted t ts

not-Edge-pending : (s : ConversationState) → ¬ Edge s state_pending
not-Edge-pending s (start p q) = ground (arith, states_distinct)
not-Edge-pending s (straight_to_human p q) = ground (arith, states_distinct)
not-Edge-pending s (handoff p q) = ground (arith, states_distinct)
not-Edge-pending s (answered p q) = ground (arith, states_distinct)
not-Edge-pending s (resolved p q) = ground (arith, states_distinct)
not-Edge-pending s (reopen p q) = ground (arith, states_distinct)

Edge-human : (t : ConversationState) → Edge state_human_processing t → t ≡ state_closed
Edge-human t (start p q) = ground (arith, states_distinct)
Edge-human t (straight_to_human p q) = ground (arith, states_distinct)
Edge-human t (handoff p q) = ground (arith, states_distinct)
Edge-human t (answered p q) = ground (arith, states_distinct)
Edge-human t (resolved p q) = q
Edge-human t (reopen p q) = ground (arith, states_distinct)

-- Along accepted transitions no conversation becomes pending again, and one that is with a human
-- comes back to the AI only after it was closed.
pub Accepted-paths :
    (s : ConversationState) (ts us : List ConversationState)
    → Accepted s (ts ++ state_ai_processing ∷ us)
    → (¬ Memᴰ state_pending ts) × (s ≡ state_human_processing → Memᴰ state_closed ts)
Accepted-paths s [] us h = (
  λ m. elim m [ ],
  λ e. ground (
    arith,
    states_distinct,
    Edge-human state_ai_processing (
        subst (λ x. Edge x state_ai_processing) e
          ((validate_transition_iff s state_ai_processing).0 h.0)),
  ),
)
Accepted-paths s (t ∷ ts) us h =
    let edge = (validate_transition_iff s t).0 h.0 in
    let (later, _) = Accepted-paths t ts us h.1 in
    (
      λ m. elim (Memᴰ.cases_cons m) [
        | inl e ↦ not-Edge-pending s (subst (λ x. Edge s x) (sym e) edge)
        | inr n ↦ later n
      ],
      λ e. Memᴰ.head (sym (Edge-human t (subst (λ x. Edge x t) e edge))),
    )
