-- ===== src/Router/State/Store.antt =====
-- What the conversation manager reads and writes: the tables behind
-- unica/router/internal/state/repository.go and the Redis entries behind
-- unica/router/internal/state/cache.go. Each query is modelled by what its SQL states; that a call
-- of PostgreSQL or Redis fails is an argument. A cache entry that expires is not in the map.
use lurus_unica.Common.{
  ℕ, ◌+◌, String, Bool, true, false, not, ◌&&◌, ◌||◌, Option, none, some, List, [], ◌∷◌, str_eq,
  ltb, ℤ, ◌==◌, if◌then◌else◌,
}
use lurus_unica.Router.State.Machine.{ConversationState, state_closed}

pub record Customer : Type 0 where
  pub id : String
  pub platform_identity : String
  pub channel_id : String

-- The columns that the manager decides by. Times are seconds.
pub record Conversation : Type 0 where
  pub id : String
  pub channel_id : String
  pub product_line_id : String
  pub customer_id : String
  pub state : ConversationState
  pub assigned_agent_id : Option String
  pub updated_at : ℕ
  pub closed_at : Option ℕ
  pub survey_status : Option String
  pub survey_sent_at : Option ℕ
  pub satisfaction_score : Option ℤ

pub record Message : Type 0 where
  pub id : String
  pub conversation_id : String
  pub direction : String
  pub sender_type : String
  pub content : String
  pub platform_msg_id : Option String
  pub correlation_id : Option String
  pub month : ℕ

pub record SessionData : Type 0 where
  pub state : String
  pub product_line_id : String
  pub agent_id : String

-- `find` of the first row that passes a test: `LIMIT 1` of a table in its order.
module _ {ℓ} {A : Type ℓ} where
  unfoldable pub first : (A → Bool) → List A → Option A
  first p [] = none
  first p (x ∷ xs) = let rest = first p xs in if p x then some x else rest

-- `SELECT … WHERE id = $1`.
unfoldable pub get_conversation : String → List Conversation → Option Conversation
get_conversation id = first (λ (r : Conversation). str_eq r.id id)

-- `survey_status = 'sent' AND survey_sent_at > now() - window`.
abbrev pub awaits_rating : ℕ → ℕ → Option String → Option ℕ → Bool
awaits_rating now window none sent = false
awaits_rating now window (some s) none = false
awaits_rating now window (some s) (some sent) = str_eq s "sent" && ltb now (sent + window)

unfoldable pub is_reachable : ℕ → ℕ → String → Conversation → Bool
is_reachable now window customer r =
    str_eq r.customer_id customer
    && (not (str_eq r.state state_closed)
        || awaits_rating now window r.survey_status r.survey_sent_at)

-- The most recent reachable conversation. The table is kept with the newest row first.
unfoldable pub get_conversation_by_customer :
    ℕ → ℕ → String → List Conversation → Option Conversation
unfolding is_reachable
get_conversation_by_customer now window customer = first (is_reachable now window customer)

abbrev pub with_state : ℕ → ConversationState → Conversation → Conversation
with_state now s r = record r {
  state = s;
  updated_at = now;
  closed_at = if str_eq s state_closed then some now else none;
}

unfoldable pub set_state : ℕ → String → ConversationState → List Conversation → List Conversation
set_state now id s [] = []
set_state now id s (r ∷ rs) =
    (if str_eq r.id id then with_state now s r else r) ∷ set_state now id s rs

-- `UPDATE conversations …`: `none` is an error, of the query or that no row was affected.
unfoldable pub update_conversation_state :
    Bool → ℕ → String → ConversationState → List Conversation → Option (List Conversation)
update_conversation_state fails now id s rows =
    if fails
    then none
    else elim (get_conversation id rows) [ none ↦ none | some _ ↦ some (set_state now id s rows) ]

abbrev has_identity : String → String → Customer → Bool
has_identity identity channel c = str_eq c.platform_identity identity && str_eq c.channel_id channel

-- `INSERT … ON CONFLICT (platform_identity, channel_id) DO UPDATE … RETURNING id`.
unfoldable pub upsert_customer : String → String → String → List Customer → List Customer × String
upsert_customer fresh identity channel rows = elim (first (has_identity identity channel) rows) [
  | some c ↦ (rows, c.id)
  | none ↦ (record { id = fresh; platform_identity = identity; channel_id = channel } ∷ rows, fresh)
]

-- The unique index of a month's partition: `platform_msg_id`, where it is not null.
abbrev pub conflicts : Message → Message → Bool
conflicts m r = m.month == r.month && elim m.platform_msg_id [
  | none ↦ false
  | some p ↦ elim r.platform_msg_id [ none ↦ false | some q ↦ str_eq p q ]
]

abbrev has_platform_id : Option String → Bool
has_platform_id none = false
has_platform_id (some p) = not (str_eq p "")

-- `CreateMessage`: the table, the row's id, and whether it was inserted. On a conflict the row of the
-- current month with the same platform id is located, the newest first.
unfoldable pub create_message :
    Bool → Bool → Message → List Message → Option (List Message × String × Bool)
create_message insert_fails locate_fails m rows =
    if insert_fails then none else elim (first (conflicts m) rows) [
      | none ↦ some (m ∷ rows, m.id, true)
      | some r ↦
          if not (has_platform_id m.platform_msg_id) || locate_fails
          then none
          else some (rows, r.id, false)
    ]
