-- ===== src/Router/Routing/Lock.antt =====
-- unica/router/internal/routing/lock.go: the lock of a conversation, one Redis key with a time to live.
-- Times are milliseconds. What the other workers do to the key while one waits is part of a round.
mod Exclusive
mod Waiting
mod Tests
use lurus_unica.Common.{
  ℕ, ◌+◌, String, Bool, true, false, Option, none, some, List, [], ◌∷◌, str_eq, ltb, if◌then◌else◌,
}

abbrev pub conv_lock_ttl : ℕ
conv_lock_ttl = 60_000

abbrev pub conv_lock_wait : ℕ
conv_lock_wait = 30_000

abbrev pub conv_lock_retry_delay : ℕ
conv_lock_retry_delay = 100

-- The token of the worker that holds the lock, and the time at which Redis drops the key.
pub record Held : Type 0 where
  pub token : String
  pub expires : ℕ

-- The key as Redis answers for it at a time.
unfoldable pub live : ℕ → Option Held → Option Held
live now none = none
live now (some h) = if ltb now h.expires then some h else none

-- `SET key token NX PX ttl`, and whether it was set.
unfoldable pub set_nx : ℕ → String → Option Held → Option Held × Bool
unfolding live
set_nx now token key = elim (live now key) [
  | some h ↦ (key, false)
  | none ↦ (some (record { token = token; expires = now + conv_lock_ttl }), true)
]

-- The script of `release`.
unfoldable pub release : ℕ → String → Option Held → Option Held
unfolding live
release now token key = elim (live now key) [
  | none ↦ key
  | some h ↦ if str_eq h.token token then none else key
]

-- A round of the loop: the time, whether Redis fails, the time that `time.Now` reads after the attempt,
-- whether the context ends before the delay does, and what others do to the key until the next round.
pub record Round : Type 0 where
  pub now : ℕ
  pub fails : Bool
  pub checked : ℕ
  pub done : Bool
  pub meanwhile : Option Held → Option Held

pub data Acquired : Type 0 where
  acquired redis_failed wait_exceeded cancelled : Acquired
  waiting : Acquired

-- `Acquire` over its rounds; `waiting` is that there are rounds to come.
unfoldable pub acquire : ℕ → String → List Round → Option Held → Option Held × Acquired
unfolding set_nx
acquire deadline token [] key = (key, waiting)
acquire deadline token (r ∷ rs) key =
    let rest = acquire deadline token rs (r.meanwhile key) in
    if r.fails
    then (key, redis_failed)
    else if (set_nx r.now token key).1
    then ((set_nx r.now token key).0, acquired)
    else if ltb deadline r.checked
    then (key, wait_exceeded)
    else if r.done
    then (key, cancelled)
    else rest
