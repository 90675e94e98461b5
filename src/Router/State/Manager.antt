-- ===== src/Router/State/Manager.antt =====
-- unica/router/internal/state/manager.go: the conversation manager over its tables and its cache.
-- A call is given the time, the ids that the database generates, and which of its database and Redis
-- calls fail (`Env`). What was written before an error stays written, so that the state comes back
-- beside the error. `NewManager` is given a repository; the cache may be absent.
pub mod Transition
pub mod Coherence
pub mod Sweep
pub mod Closing
use Prim.Native.String.{◌++◌ as str_append}
use lurus_unica.Common.{
  ℕ, ◌+◌, ◌-◌, String, Bool, true, false, not, ◌&&◌, ◌||◌, Option, none, some, List, [], ◌∷◌, ◌++◌,
  str_eq, ltb, if◌then◌else◌,
}
use lurus_unica.Common.Maps.{put}
use lurus_unica.Router.State.Machine.{
  ConversationState, TransitionError, state_pending, state_closed, can_transition_to,
  validate_transition,
}
use lurus_unica.Router.State.Store.{
  Customer, Conversation, Message, SessionData, get_conversation, get_conversation_by_customer,
  update_conversation_state, upsert_customer, create_message,
}

pub record Redis : Type 0 where
  pub sessions : String → Option SessionData
  pub customer_ids : String → Option String

-- The manager and what it works on; `notified` has the arguments of the close callback, in order.
pub record World : Type 0 where
  pub customers : List Customer
  pub conversations : List Conversation
  pub messages : List Message
  pub cache : Option Redis
  pub notified : List Conversation

-- The callbacks of `SetOnClose` and `SetSurveyWindow`, and the idle timeout, in seconds.
pub record Config : Type 0 where
  pub has_on_close : Bool
  pub survey_window : Option (String → ℕ)
  pub idle_timeout : ℕ

pub record Env : Type 0 where
  pub now : ℕ
  pub month : ℕ
  pub customer_id : String
  pub conversation_id : String
  pub message_id : String
  -- Redis calls that fail.
  pub get_session_fails : Bool
  pub set_session_fails : Bool
  pub invalidate_fails : Bool
  pub get_customer_fails : Bool
  pub set_customer_fails : Bool
  -- Database calls that fail.
  pub load_fails : Bool
  pub update_fails : Bool
  pub reload_fails : Bool
  pub upsert_fails : Bool
  pub search_fails : Bool
  pub create_fails : Bool
  pub insert_fails : Bool
  pub locate_fails : Bool

pub data ManagerError : Type 0 where
  no_message missing_identity : ManagerError
  state_lookup : ManagerError
  rejected : TransitionError → ManagerError
  update_failed : ManagerError
  customer_failed conversation_lookup conversation_failed message_failed : ManagerError

pub data Result {ℓ} (A : Type ℓ) : Type ℓ where
  ok : A → Result A
  err : ManagerError → Result A

-- `GetSession`, and `SetSession` or `InvalidateSession`; a failure is logged.
unfoldable pub cached_session : Env → World → String → Option SessionData
cached_session e w id =
    if e.get_session_fails then none else elim w.cache [ none ↦ none | some r ↦ r.sessions id ]

unfoldable pub write_session : Bool → String → Option SessionData → World → World
unfolding put
write_session fails id v w = if fails then w else elim w.cache [
  | none ↦ w
  | some r ↦ record w { cache = some (record r { sessions = put r.sessions id v }) }
]

abbrev agent_or_empty : Option String → String
agent_or_empty none = ""
agent_or_empty (some a) = a

-- `getConversationState`: the state, the product line and the agent.
unfoldable pub get_conversation_state : Env → World → String → Option SessionData
get_conversation_state e w id = elim (cached_session e w id) [
  | some s ↦ some s
  | none ↦ if e.load_fails then none else elim (get_conversation id w.conversations) [
    | none ↦ none
    | some c ↦ some (record {
      state = c.state;
      product_line_id = c.product_line_id;
      agent_id = agent_or_empty c.assigned_agent_id;
    })
  ]
]

unfoldable pub fire_on_close : Config → Env → String → World → World
fire_on_close cfg e id w =
    if not cfg.has_on_close || e.reload_fails
    then w
    else elim (get_conversation id w.conversations) [
      | none ↦ w
      | some c ↦ record w { notified = w.notified ++ c ∷ [] }
    ]

-- The writes of a transition, after it was validated.
unfoldable pub apply_transition :
    Config → Env → String → ConversationState → SessionData → World → World × Result (Unit {0})
apply_transition cfg e id to seen w =
    elim (update_conversation_state e.update_fails e.now id to w.conversations) [
      | none ↦ (w, err update_failed)
      | some rows ↦
          let w' = record w { conversations = rows } in
          if str_eq to state_closed
          then (fire_on_close cfg e id (write_session e.invalidate_fails id none w'), ok tt)
          else (write_session e.set_session_fails id (some (record seen { state = to })) w', ok tt)
    ]

unfoldable pub transition_state :
    Config → Env → String → ConversationState → World → World × Result (Unit {0})
transition_state cfg e id to w = elim (get_conversation_state e w id) [
  | none ↦ (w, err state_lookup)
  | some seen ↦ elim (validate_transition seen.state to) [
    | some x ↦ (w, err (rejected x))
    | none ↦ apply_transition cfg e id to seen w
  ]
]

-- One row of the idle sweep, and whether it was closed.
unfoldable pub close_idle_row : Config → Env → World → String × ConversationState → World × Bool
close_idle_row cfg e w (id, s) =
    if not (can_transition_to s state_closed)
    then (w, false)
    else elim (update_conversation_state e.update_fails e.now id state_closed w.conversations) [
      | none ↦ (w, false)
      | some rows ↦ (
        fire_on_close cfg e id
            (write_session e.invalidate_fails id none (record w { conversations = rows })),
        true,
      )
    ]

-- `WHERE state NOT IN ('closed') AND updated_at < $1`.
unfoldable pub is_idle : ℕ → ℕ → Conversation → Bool
is_idle now timeout c = not (str_eq c.state state_closed) && ltb (c.updated_at + timeout) now

unfoldable pub idle_rows : ℕ → ℕ → List Conversation → List (String × ConversationState)
idle_rows now timeout [] = []
idle_rows now timeout (c ∷ cs) =
    let rest = idle_rows now timeout cs in
    if is_idle now timeout c then (c.id, c.state) ∷ rest else rest

-- The loop over the rows; each has failures of its own, and one that cannot be scanned is skipped.
unfoldable pub sweep :
    Config
    → (String → Env)
    → (String → Bool)
    → List (String × ConversationState)
    → World
    → World × ℕ
sweep cfg env unreadable [] w = (w, 0)
sweep cfg env unreadable ((id, s) ∷ rest) w =
    let (w', closed) =
      if unreadable id then (w, false) else close_idle_row cfg (env id) w (id, s) in
    let (w'', n) = sweep cfg env unreadable rest w' in (w'', if closed then n + 1 else n)

unfoldable pub close_idle_conversations :
    Config → ℕ → Bool → (String → Env) → (String → Bool) → World → World × ℕ
close_idle_conversations cfg now query_fails env unreadable w =
    if query_fails
    then (w, 0)
    else sweep cfg env unreadable (idle_rows now cfg.idle_timeout w.conversations) w
