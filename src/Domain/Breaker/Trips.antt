-- ===== src/Domain/Breaker/Trips.antt =====
-- How often the breaker of unica/pkg/domain/breaker.go can trip.
use lurus_unica.Common.{
  ℕ, ◌+◌, ◌*◌, ◌&&◌, ◌≤◌, Bool, false, String, str_eq, eq_iff, Option, none, some, List, [], ◌∷◌,
  arith, if◌then◌else◌, ℤ, pos_part,
}
use lurus_unica.Common.Floats.{Floats}
use lurus_unica.Domain.Breaker.Lines.{
  BreakerConfig, BreakerLine, Breaker, normalise, line_for, allow_line, record_line, new_breaker,
  allow, record_outcome,
}

-- Answers and calls of `Allow`, on any product lines, under one block of settings.
pub data Event : Type 0 where
  ask : String → ℤ → ℤ → Event
  answer : String → Bool → Event

unfoldable pub answer_count : String → List Event → ℕ
answer_count pl [] = 0
answer_count pl (ask k now now' ∷ es) = answer_count pl es
answer_count pl (answer k x ∷ es) = (if str_eq k pl then 1 else 0) + answer_count pl es

module _ (fl : Floats) where
  open fl use {Float}

  module _ (cfg : Option (BreakerConfig Float)) where
    unfoldable pub step : Breaker → Event → Breaker × Bool
    step b (ask pl now now') = let (b', _, tripped) = allow fl b pl cfg now now' in (b', tripped)
    step b (answer pl x) = (record_outcome fl b pl x cfg, false)

    -- How often the calls for one product line report a trip.
    unfoldable pub trip_count : String → Breaker → List Event → ℕ
    unfolding step
    trip_count pl b [] = 0
    trip_count pl b (ask k now now' ∷ es) =
        let (b', tripped) = step b (ask k now now') in
        (if tripped && str_eq k pl then 1 else 0) + trip_count pl b' es
    trip_count pl b (answer k x ∷ es) = trip_count pl (step b (answer k x)).0 es

    abbrev held : Option BreakerLine → ℕ
    held none = 0
    held (some l) = l.filled

    held-line_for : (o : Option BreakerLine) (n : ℤ) → (line_for o n).filled ≤ held o
    unfolding line_for
    held-line_for none n = omega arith
    held-line_for (some l) n = ground arith

    filled-allow_line :
        (l : BreakerLine) (c : BreakerConfig Float) (now now' : ℤ)
        → (allow_line fl l c now now').0.filled
            + (if (allow_line fl l c now now').2 then pos_part c.min_samples else 0)
          ≤ l.filled
    unfolding allow_line
    filled-allow_line l c now now' = ground arith

    filled-record_line : (l : BreakerLine) (x : Bool) → (record_line l x).filled ≤ l.filled + 1
    unfolding record_line
    filled-record_line l x = ground arith

    samples_ask :
        (pl k : String) (b : Breaker) (now now' : ℤ)
        → let (b', tripped) = step b (ask k now now') in
          held (b'.lines pl)
            + (if tripped && str_eq k pl then pos_part (normalise fl cfg).min_samples else 0)
          ≤ held (b.lines pl)
    unfolding step allow
    samples_ask pl k b now now' =
        let c = normalise fl cfg in
        ground (
          arith,
          eq_iff pl k,
          eq_iff k pl,
          filled-allow_line (line_for (b.lines k) c.window) c now now',
          held-line_for (b.lines k) c.window,
        )

    samples_answer :
        (pl k : String) (b : Breaker) (x : Bool)
        → held ((step b (answer k x)).0.lines pl)
          ≤ held (b.lines pl) + (if str_eq k pl then 1 else 0)
    unfolding step record_outcome
    samples_answer pl k b x =
        let n = (normalise fl cfg).window in
        ground (
          arith,
          eq_iff pl k,
          eq_iff k pl,
          filled-record_line (line_for (b.lines k) n) x,
          held-line_for (b.lines k) n,
        )

    trips_paid :
        (pl : String) (b : Breaker) (es : List Event)
        → trip_count pl b es * pos_part (normalise fl cfg).min_samples
          ≤ answer_count pl es + held (b.lines pl)
    unfolding trip_count answer_count
    trips_paid pl b [] = omega arith
    trips_paid pl b (ask k now now' ∷ es) =
        ground (arith, samples_ask pl k b now now', trips_paid pl (step b (ask k now now')).0 es)
    trips_paid pl b (answer k x ∷ es) =
        ground (arith, samples_answer pl k b x, trips_paid pl (step b (answer k x)).0 es)

    -- Over any calls of `Allow` and `Record`, at any times and for any product lines, each trip of a
    -- line is paid for by its own minimum of recorded answers: the trips, times the minimum, are at
    -- most the answers recorded for that line. So an expired cooldown alone never trips again.
    pub trip_count-le :
        (pl : String) (es : List Event)
        → trip_count pl new_breaker es * pos_part (normalise fl cfg).min_samples
          ≤ answer_count pl es
    unfolding new_breaker
    trip_count-le pl es = omega (arith, trips_paid pl new_breaker es)
