-- ===== src/Gateway/Dedup/Seen.antt =====
-- unica/gateway/internal/dedup/dedup.go: `IsDuplicate`. Redis is the map from ids to the time at which
-- the key expires, which `SetNX` writes unless the key is there; a key is there before its expiry, and
-- a lifetime of 0 has none. Times are milliseconds.
pub mod Window
mod Tests
use lurus_unica.Common.{
  ℕ, ◌+◌, String, Bool, true, false, not, Option, none, some, List, [], ◌∷◌, str_eq, ltb, ◌==◌,
  if◌then◌else◌,
}
use lurus_unica.Common.Maps.{put}

-- When a key expires: `none` is never.
abbrev pub Expiry : Type 0
Expiry = Option ℕ

abbrev pub Keys : Type 0
Keys = String → Option Expiry

unfoldable pub is_live : ℕ → Option Expiry → Bool
is_live now none = false
is_live now (some none) = true
is_live now (some (some t)) = ltb now t

unfoldable pub expiry : ℕ → ℕ → Expiry
expiry ttl now = if ttl == 0 then none else some (now + ttl)

-- The answer of `IsDuplicate`: whether the message is a duplicate, and whether an error is returned.
pub record Verdict : Type 0 where
  pub duplicate : Bool
  pub failed : Bool

unfoldable pub is_duplicate : ℕ → Bool → ℕ → String → Keys → Keys × Verdict
unfolding is_live expiry
is_duplicate ttl redis_fails now id keys =
    if str_eq id ""
    then (keys, record { duplicate = false; failed = false })
    else if redis_fails
    then (keys, record { duplicate = false; failed = true })
    else if is_live now (keys id)
    then (keys, record { duplicate = true; failed = false })
    else (put keys id (some (expiry ttl now)), record { duplicate = false; failed = false })

-- A message that arrives, and whether Redis fails for it.
pub record Arrival : Type 0 where
  pub id : String
  pub time : ℕ
  pub redis_fails : Bool

-- The keys after the arrivals.
unfoldable pub arrive : ℕ → List Arrival → Keys → Keys
arrive ttl [] keys = keys
arrive ttl (a ∷ more) keys = arrive ttl more (is_duplicate ttl a.redis_fails a.time a.id keys).0
