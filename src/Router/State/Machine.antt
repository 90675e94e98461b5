-- ===== src/Router/State/Machine.antt =====
-- unica/router/internal/state/machine.go: the states of a conversation and the transitions between
-- them. A state is a string, as in the source, so that unknown states are represented.
pub mod Graph
use lurus_unica.Common.{
  String, Bool, true, false, Option, none, some, List, [], ◌∷◌, str_eq, not, if◌then◌else◌,
}
use lurus_unica.Common.Maps.{assoc, member}

abbrev pub ConversationState : Type 0
ConversationState = String

abbrev pub state_pending : ConversationState
state_pending = "pending"

abbrev pub state_ai_processing : ConversationState
state_ai_processing = "ai_processing"

abbrev pub state_human_processing : ConversationState
state_human_processing = "human_processing"

abbrev pub state_closed : ConversationState
state_closed = "closed"

abbrev pub valid_transitions : List (ConversationState × List ConversationState)
valid_transitions =
    (state_pending, state_ai_processing ∷ state_human_processing ∷ [])
    ∷ (state_ai_processing, state_human_processing ∷ state_closed ∷ [])
    ∷ (state_human_processing, state_closed ∷ [])
    ∷ (state_closed, state_ai_processing ∷ [])
    ∷ []

abbrev pub all_states : List ConversationState
all_states = state_pending ∷ state_ai_processing ∷ state_human_processing ∷ state_closed ∷ []

unfoldable pub is_valid_state : ConversationState → Bool
unfolding member
is_valid_state s = member s all_states

unfoldable pub can_transition_to : ConversationState → ConversationState → Bool
unfolding assoc member
can_transition_to s target = elim (assoc s valid_transitions) [
  | none ↦ false
  | some targets ↦ member target targets
]

pub data TransitionError : Type 0 where
  unknown_source : ConversationState → TransitionError
  unknown_target : ConversationState → TransitionError
  invalid_transition : ConversationState → ConversationState → TransitionError

unfoldable pub validate_transition : ConversationState → ConversationState → Option TransitionError
unfolding is_valid_state can_transition_to
validate_transition from to =
    if not (is_valid_state from)
    then some (unknown_source from)
    else if not (is_valid_state to)
    then some (unknown_target to)
    else if not (can_transition_to from to)
    then some (invalid_transition from to)
    else none
