-- ===== src/Gateway/RateLimit.antt =====
-- unica/gateway/internal/ratelimit: the sliding window of limiter.go, the bursts of burst.go and the
-- limits of config.go. A sorted set of Redis is the list of its scores, since its members are unique;
-- a pipeline that fails has had no effect. The expiry of a set, a second after its window, removes
-- only entries that the next check prunes. Times are milliseconds, and durations nanoseconds.
pub mod Window
pub mod Burst
mod Tests
use lurus_unica.Common.{
  ℕ, suc, ◌+◌, ◌*◌, ◌/◌, ◌%◌, ◌^◌, String, Bool, true, false, not, ◌&&◌, ◌||◌, Option, none, some,
  List, [], ◌∷◌, str_eq, ltb, leb, if◌then◌else◌, length, ℤ, pos, ltb_ℤ, leb_ℤ, pos_part, wrap64,
  ◌*ℤ◌,
}
use lurus_unica.Common.Floats.{Floats}
use lurus_unica.Common.Maps.{assoc}

pub record ChannelLimit (F : Type 0) : Type 0 where
  pub channel : String
  pub max_requests : ℤ
  pub window : ℕ
  pub burst_multiplier : F
  pub cooldown_sec : ℤ

pub record Config (F : Type 0) : Type 0 where
  pub enabled : Bool
  pub channels : List (String × ChannelLimit F)
  pub fallback : ChannelLimit F

-- The keys of Redis: the two sets of a channel, and the time at which its cooldown ends, where the
-- inner `none` is never.
pub record Keys : Type 0 where
  pub ratelimit : String → List ℕ
  pub burst : String → List ℕ
  pub cooldown : String → Option (Option ℕ)

pub record Result : Type 0 where
  pub allowed : Bool
  pub current : ℕ
  pub limit : ℤ
  pub retry_after : ℤ

-- What fails in one call, and the second reading of the clock.
pub record Faults : Type 0 where
  pub cooldown_check : Bool
  pub pipeline : Bool
  pub burst_pipeline : Bool
  pub cooldown_set : Bool
  pub burst_now : ℕ

abbrev pub nanos_per_milli : ℕ
nanos_per_milli = 1000000

abbrev pub second : ℕ
second = 1000000000

unfoldable pub at : (String → List ℕ) → String → List ℕ → String → List ℕ
at m k v j = if str_eq j k then v else m j

-- ZREMRANGEBYSCORE from 0 to the start of the window.
unfoldable pub prune : ℕ → ℕ → List ℕ → List ℕ
prune window_ms now [] = []
prune window_ms now (t ∷ ts) =
    let rest = prune window_ms now ts in if leb (t + window_ms) now then rest else t ∷ rest

-- A key is there before its expiry.
unfoldable pub in_cooldown : ℕ → Option (Option ℕ) → Bool
in_cooldown now none = false
in_cooldown now (some none) = true
in_cooldown now (some (some t)) = ltb now t

-- `time.Duration(sec) * time.Second`.
unfoldable pub cooldown_of : ℤ → ℤ
cooldown_of sec = wrap64 (sec *ℤ pos second)

-- `Set` has no expiry where the lifetime is not positive.
unfoldable pub cooldown_until : ℕ → ℤ → Option ℕ
unfolding cooldown_of
cooldown_until now sec =
    if ltb_ℤ (pos 0) (cooldown_of sec)
    then some (now + pos_part (cooldown_of sec) / nanos_per_milli)
    else none

module _ (fl : Floats) where
  unfoldable pub limit_for : Config fl.Float → String → ChannelLimit fl.Float
  unfolding assoc
  limit_for c channel = elim (assoc channel c.channels) [
    | none ↦ record c.fallback { channel = channel }
    | some cl ↦ cl
  ]

  -- `Duration.Seconds`.
  unfoldable pub seconds : ℕ → fl.Float
  seconds d = fl.add (fl.of_int (d / second)) (fl.div (fl.of_int (d % second)) (fl.of_int second))

  unfoldable pub burst_threshold : ChannelLimit fl.Float → ℤ
  unfolding seconds
  burst_threshold cl =
      let rate =
        fl.mul (fl.div (fl.of_signed cl.max_requests) (seconds cl.window))
          (seconds (10 * second)) in
      let t = fl.to_int (fl.mul rate cl.burst_multiplier) in if ltb_ℤ t (pos 1) then pos 1 else t

  unfoldable pub record_and_check : Faults → String → ChannelLimit fl.Float → Keys → Keys
  unfolding at prune cooldown_until burst_threshold
  record_and_check f channel cl k =
      if f.burst_pipeline
      then k
      else let set = f.burst_now ∷ prune 10000 f.burst_now (k.burst channel) in
        let k' = record k { burst = at k.burst channel set } in
        if ltb_ℤ (burst_threshold cl) (pos (length set)) && not f.cooldown_set
        then record k' {
          cooldown = λ j.
              if str_eq j channel
              then some (cooldown_until f.burst_now cl.cooldown_sec)
              else k'.cooldown j;
        }
        else k'

  -- After the check of the cooldown.
  unfoldable pub count_request : Faults → ℕ → String → ChannelLimit fl.Float → Keys → Keys × Result
  unfolding at prune record_and_check
  count_request f now channel cl k =
      if f.pipeline
      then (k, record { allowed = true; current = 0; limit = pos 0; retry_after = pos 0 })
      else let set = now ∷ prune (cl.window / nanos_per_milli) now (k.ratelimit channel) in
        let k' =
          record_and_check f channel cl (record k { ratelimit = at k.ratelimit channel set }) in
        if ltb_ℤ cl.max_requests (pos (length set))
        then (
          k',
          record {
            allowed = false;
            current = length set;
            limit = cl.max_requests;
            retry_after =
                if ltb_ℤ (pos 0) cl.max_requests
                then pos (cl.window / pos_part cl.max_requests)
                else pos cl.window;
          },
        )
        else (
          k',
          record {
            allowed = true;
            current = length set;
            limit = cl.max_requests;
            retry_after = pos 0;
          },
        )

  unfoldable pub allow : Config fl.Float → Faults → ℕ → String → Keys → Keys × Result
  unfolding limit_for in_cooldown count_request
  allow c f now channel k =
      if not c.enabled
      then (k, record { allowed = true; current = 0; limit = pos 0; retry_after = pos 0 })
      else let cl = limit_for c channel in
        if not f.cooldown_check && in_cooldown now (k.cooldown channel)
        then (
          k,
          record {
            allowed = false;
            current = 0;
            limit = cl.max_requests;
            retry_after = cooldown_of cl.cooldown_sec;
          },
        )
        else count_request f now channel cl k
