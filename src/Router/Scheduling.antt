-- ===== src/Router/Scheduling.antt =====
-- unica/router/internal/scheduling: agent_pool.go and distributor.go, the assignment of conversations
-- to the agents of a product line. The text of a UUID array is not parsed: an agent's product lines
-- are a list of ids. A status key that expires is an agent that goes offline.
pub mod Choice
pub mod Capacity
mod Tests
use lurus_unica.Common.{
  ℕ, String, Bool, true, false, not, ◌&&◌, ◌||◌, Option, none, some, List, [], ◌∷◌, ◌++◌, str_eq,
  if◌then◌else◌, ℤ, pos, negsuc, ltb_ℤ, leb_ℤ, ◌+ℤ◌, ◌-ℤ◌,
}
use lurus_unica.Common.Maps.{member, put}

pub record Agent : Type 0 where
  pub id : String
  pub name : String
  pub email : String
  pub chatwoot_agent_id : Option ℤ
  pub max_concurrent : ℤ
  pub product_line_ids : List String

pub record AgentWithLoad : Type 0 where
  pub agent : Agent
  pub current_load : ℤ

-- The status and load keys of Redis, the table of agents, and the agents assigned to conversations.
pub record Pool : Type 0 where
  pub agents : List Agent
  pub online : String → Option String
  pub loads : String → Option ℤ
  pub assigned : String → Option String

-- What fails: the query, the reading of an agent's status or load, the increment, the update.
pub record Faults : Type 0 where
  pub query : Bool
  pub status : String → Bool
  pub load : String → Bool
  pub increment : Bool
  pub update : Bool

unfoldable pub set_online : String → Pool → Pool
set_online id p = record p { online = put p.online id (some "online") }

unfoldable pub set_offline : String → Pool → Pool
set_offline id p = record p { online = put p.online id none }

unfoldable pub is_online : String → Pool → Bool
is_online id p = elim (p.online id) [ none ↦ false | some v ↦ str_eq v "online" ]

unfoldable pub get_load : String → Pool → ℤ
get_load id p = elim (p.loads id) [ none ↦ pos 0 | some n ↦ n ]

-- INCR, which counts a missing key as 0, and the new value.
unfoldable pub increment_load : String → Pool → Pool × ℤ
unfolding get_load
increment_load id p =
    let v = get_load id p +ℤ pos 1 in (record p { loads = put p.loads id (some v) }, v)

-- The script of `DecrementLoad`.
unfoldable pub decrement_load : String → Pool → Pool × ℤ
unfolding get_load
decrement_load id p =
    let v = get_load id p -ℤ pos 1 in
    if ltb_ℤ v (pos 0)
    then (record p { loads = put p.loads id (some (pos 0)) }, pos 0)
    else (record p { loads = put p.loads id (some v) }, v)

unfoldable pub agents_of : String → List Agent → List Agent
unfolding member
agents_of line [] = []
agents_of line (a ∷ more) =
    let rest = agents_of line more in if member line a.product_line_ids then a ∷ rest else rest

-- The body of the loop of `GetAvailableAgents`: whether it gets to the end.
unfoldable pub is_available : Faults → Pool → Agent → Bool
unfolding is_online get_load
is_available f p a =
    not (f.status a.id)
    && (is_online a.id p && (not (f.load a.id) && not (leb_ℤ a.max_concurrent (get_load a.id p))))

unfoldable pub available_of : Faults → Pool → List Agent → List AgentWithLoad
unfolding is_available
available_of f p [] = []
available_of f p (a ∷ more) =
    let rest = available_of f p more in
    if is_available f p a then record { agent = a; current_load = get_load a.id p } ∷ rest else rest

unfoldable pub get_available_agents : Faults → String → Pool → Option (List AgentWithLoad)
unfolding agents_of available_of
get_available_agents f line p =
    if f.query then none else some (available_of f p (agents_of line p.agents))

-- The loop over `available[1:]`.
unfoldable pub lightest : AgentWithLoad → List AgentWithLoad → AgentWithLoad
lightest best [] = best
lightest best (a ∷ more) =
    let b = if ltb_ℤ a.current_load best.current_load then a else best in lightest b more

pub data Assignment : Type 0 where
  queued : Assignment
  given : String → String → ℤ → Assignment

unfoldable pub id_or_zero : Option ℤ → ℤ
id_or_zero none = pos 0
id_or_zero (some n) = n

-- What follows the search for agents. `none` is the error, and a failed update is logged only.
unfoldable pub assign_among : Faults → String → List AgentWithLoad → Pool → Pool × Option Assignment
unfolding lightest increment_load id_or_zero
assign_among f conversation [] p = (p, some queued)
assign_among f conversation (a ∷ more) p =
    let best = lightest a more in
    if f.increment
    then (p, none)
    else let q = (increment_load best.agent.id p).0 in
      (
        (if f.update
            then q
            else record q { assigned = put q.assigned conversation (some best.agent.id) }),
        some (given best.agent.id best.agent.name (id_or_zero best.agent.chatwoot_agent_id)),
      )

unfoldable pub assign : Faults → String → String → Pool → Pool × Option Assignment
unfolding get_available_agents assign_among
assign f conversation line p = elim (get_available_agents f line p) [
  | none ↦ (p, none)
  | some l ↦ assign_among f conversation l p
]
