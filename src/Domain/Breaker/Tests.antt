-- ===== src/Domain/Breaker/Tests.antt =====
-- Runs of the breaker, and its theorems at concrete inputs.
use lurus_unica.Common.{
  ℕ, min, ◌≡◌, refl, true, false, length, Option, some, List, [], ◌∷◌, pos, pos_part, ◌+ℤ◌, ◌*ℤ◌,
  wrap64,
}
use lurus_unica.Common.Floats.{fixed}
use lurus_unica.Domain.Breaker.Lines.{
  BreakerConfig, Breaker, normalise, line_for, allow_line, record_line, new_breaker, allow,
  record_outcome,
}
use lurus_unica.Domain.Breaker.Ring.{count_true}
use lurus_unica.Domain.Breaker.Window.{last}
use lurus_unica.Domain.Breaker.Decision.{line_of, record_run}
use lurus_unica.Domain.Breaker.Runs.{since_trip, run_events, run_events-window}
use lurus_unica.Domain.Breaker.Trips.{Event, ask, answer, step, trip_count}

-- Four samples of the last three answers, a limit of a half, and a cooldown of two seconds.
abbrev strict : Option (BreakerConfig ℕ)
strict = some (record {
  disabled = false;
  trip_rate = 500;
  min_samples = pos 2;
  window = pos 3;
  cooldown_seconds = pos 2;
})

abbrev broken : Option (BreakerConfig ℕ)
broken = some (record {
  disabled = false;
  trip_rate = 0;
  min_samples = pos 50;
  window = pos 3;
  cooldown_seconds = pos 0;
})

abbrev bad : Breaker
bad = record_run fixed new_breaker "fruit" strict (true ∷ true ∷ false ∷ [])

bad_trips : (allow fixed bad "fruit" strict (pos 100) (pos 100)).2 ≡ true
unfolding allow record_run record_outcome normalise line_for record_line allow_line new_breaker
bad_trips = refl

abbrev script : List Event
script =
    answer "fruit" true
    ∷ answer "fruit" true
    ∷ ask "fruit" (pos 10) (pos 10)
    ∷ ask "fruit" (pos 9_000_000_000) (pos 9_000_000_000)
    ∷ answer "phones" false
    ∷ []

-- A trip between answers.
abbrev tripping : List Event
tripping =
    answer "fruit" true
    ∷ answer "fruit" true
    ∷ answer "phones" true
    ∷ answer "fruit" false
    ∷ answer "fruit" true
    ∷ ask "fruit" (pos 10) (pos 10)
    ∷ answer "fruit" true
    ∷ []

since_tripping : since_trip fixed "fruit" strict new_breaker [] tripping ≡ true ∷ []
unfolding since_trip step allow record_outcome normalise line_for record_line allow_line new_breaker
since_tripping = refl

run_events-window_example :
    let xs = since_trip fixed "fruit" strict new_breaker [] tripping in
    let l =
      line_of fixed
        (run_events fixed "fruit" strict new_breaker tripping)
        "fruit"
        (normalise fixed strict) in
    (l.filled ≡ min (length xs) (pos_part (normalise fixed strict).window))
    × (l.suppressed ≡ count_true (last (pos_part (normalise fixed strict).window) xs))
unfolding normalise
run_events-window_example = run_events-window fixed "fruit" strict refl tripping

script_trips_once : trip_count fixed strict "fruit" new_breaker script ≡ 1
unfolding trip_count allow record_outcome normalise line_for record_line allow_line new_breaker ◌+ℤ◌
    wrap64 ◌*ℤ◌
script_trips_once = refl
