-- ===== src/Gateway/Stream.antt =====
-- unica/gateway/internal/stream/consumer.go: the consumer of outbound messages. The consumer group of
-- Redis is the list of the entries that were read and not acknowledged. The dispatcher, the decoding
-- of a payload and the closing of the stop channel during a wait are given from outside.
pub mod Delivery
mod Tests
use lurus_unica.Common.{
  ℕ, zero, suc, String, Bool, true, false, not, Option, none, some, List, [], ◌∷◌, ◌++◌, str_eq,
  if◌then◌else◌,
}

-- `entry.Values["payload"]` is `none` where the field is missing.
pub record Entry : Type 0 where
  pub id : String
  pub payload : Option String

-- The pending entries, and the ids of the messages that the dispatcher took.
pub record Group : Type 0 where
  pub pending : List Entry
  pub sent : List String

-- What happens while an entry is processed: which dispatch attempts fail, after which of them the
-- consumer is stopped, and whether the acknowledgement fails.
pub record Env : Type 0 where
  pub fails : ℕ → Bool
  pub stopped : ℕ → Bool
  pub ack_fails : Bool

unfoldable pub remove : String → List Entry → List Entry
remove id [] = []
remove id (e ∷ es) = let rest = remove id es in if str_eq e.id id then rest else e ∷ rest

-- XACK.
unfoldable pub ack : Env → String → Group → Group
unfolding remove
ack v id g = if v.ack_fails then g else record g { pending = remove id g.pending }

-- The loop over the attempts, with the number of those left: whether one of them succeeded. The stop
-- channel leaves the loop.
unfoldable pub dispatch_from : Env → ℕ → ℕ → Bool
dispatch_from v zero attempt = false
dispatch_from v (suc left) attempt =
    let rest = dispatch_from v left (suc attempt) in
    if v.fails attempt then (if v.stopped attempt then false else rest) else true

abbrev pub max_attempts : ℕ
max_attempts = 3

module _ {Message : Type 0} (decode : String → Option Message) where
  -- `ok`, and the message that `json.Unmarshal` yields.
  unfoldable pub decoded : Entry → Option Message
  decoded e = elim e.payload [ none ↦ none | some p ↦ decode p ]

  unfoldable pub process_message : Env → Entry → Group → Group
  unfolding decoded dispatch_from ack
  process_message v e g = elim (decoded e) [
    | none ↦ ack v e.id g
    | some m ↦
        if dispatch_from v max_attempts 0 then ack v e.id (record g { sent = e.id ∷ g.sent }) else g
  ]

  -- `readLoop`: a new entry is pending from its reading on.
  unfoldable pub read : Env → Entry → Group → Group
  unfolding process_message
  read v e g = process_message v e (record g { pending = e ∷ g.pending })

  -- The loops of `claimPending` and of `DrainPending` over the claimed entries.
  unfoldable pub process_all : (String → Env) → List Entry → Group → Group
  unfolding process_message
  process_all env [] g = g
  process_all env (e ∷ es) g = process_all env es (process_message (env e.id) e g)
