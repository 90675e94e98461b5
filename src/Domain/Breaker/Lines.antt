-- ===== src/Domain/Breaker/Lines.antt =====
-- The types and the methods of unica/pkg/domain/breaker.go.
use lurus_unica.Common.{
  ℕ, ◌+◌, ◌-◌, ◌%◌, String, Bool, true, false, ◌&&◌, ◌||◌, Option, none, some, List, str_eq, ltb,
  ◌==◌, if◌then◌else◌, length, set, get_or, replicate, ℤ, pos, pos_part, ltb_ℤ, leb_ℤ, ◌+ℤ◌, ◌*ℤ◌,
  wrap64,
}
use lurus_unica.Common.Floats.{Floats}

pub record BreakerConfig (F : Type 0) : Type 0 where
  pub disabled : Bool
  pub trip_rate : F
  pub min_samples : ℤ
  pub window : ℤ
  pub cooldown_seconds : ℤ

pub record BreakerLine : Type 0 where
  pub outcomes : List Bool
  pub next : ℕ
  pub filled : ℕ
  pub suppressed : ℕ
  pub open_until : ℤ
  pub trips : ℤ

-- The map from product lines.
pub record Breaker : Type 0 where
  pub lines : String → Option BreakerLine

unfoldable pub new_breaker : Breaker
new_breaker = record { lines = λ _. none }

-- `make([]bool, n)` of a positive n.
unfoldable pub fresh_line : ℤ → BreakerLine
fresh_line n = record {
  outcomes = replicate (pos_part n) false;
  next = 0;
  filled = 0;
  suppressed = 0;
  open_until = pos 0;
  trips = pos 0;
}

unfoldable pub reset : BreakerLine → BreakerLine
reset l = record l { next = 0; filled = 0; suppressed = 0 }

-- The product line's state, with a new window if the configured size changed.
unfoldable pub line_for : Option BreakerLine → ℤ → BreakerLine
unfolding fresh_line reset
line_for none n = fresh_line n
line_for (some l) n =
    if length l.outcomes == pos_part n
    then l
    else reset (record l { outcomes = replicate (pos_part n) false })

unfoldable pub store : Breaker → String → BreakerLine → Breaker
store b pl l = record { lines = λ k. if str_eq k pl then some l else b.lines k }

-- The count of suppressed answers is above 0 where it is lowered.
unfoldable pub record_line : BreakerLine → Bool → BreakerLine
record_line l suppressed =
    let size = length l.outcomes in
    let evicting = l.filled == size && get_or l.outcomes l.next false in
    let kept = if evicting then l.suppressed - 1 else l.suppressed in
    record l {
      outcomes = set l.outcomes l.next suppressed;
      suppressed = if suppressed then kept + 1 else kept;
      next = (l.next + 1) % size;
      filled = if ltb l.filled size then l.filled + 1 else l.filled;
    }

module _ (fl : Floats) where
  open fl use {Float, of_int, decimal, div, le, lt}

  unfoldable pub default_config : BreakerConfig Float
  default_config = record {
    disabled = false;
    trip_rate = decimal 25 2;
    min_samples = pos 20;
    window = pos 100;
    cooldown_seconds = pos 900;
  }

  -- The assignments of `normalise`, in the order of the source.
  unfoldable pub normalise : Option (BreakerConfig Float) → BreakerConfig Float
  unfolding default_config
  normalise none = default_config
  normalise (some c) =
      let rate =
        if le c.trip_rate (of_int 0) || lt (of_int 1) c.trip_rate
        then decimal 25 2
        else c.trip_rate in
      let samples = if leb_ℤ c.min_samples (pos 0) then pos 20 else c.min_samples in
      let window = if leb_ℤ c.window (pos 0) then pos 100 else c.window in
      record {
        disabled = c.disabled;
        trip_rate = rate;
        min_samples = samples;
        window = if ltb_ℤ window samples then samples else window;
        cooldown_seconds = if leb_ℤ c.cooldown_seconds (pos 0) then pos 900 else c.cooldown_seconds;
      }

  -- `time.Duration` is an int64 of nanoseconds, so the product wraps.
  unfoldable pub cooldown : BreakerConfig Float → ℤ
  cooldown c = wrap64 (c.cooldown_seconds *ℤ pos 1_000_000_000)

  unfoldable pub rate : BreakerLine → Float
  rate l = if l.filled == 0 then of_int 0 else div (of_int l.suppressed) (of_int l.filled)

  -- The body of `Allow` after the line is found: the line, and the two results.
  unfoldable pub allow_line : BreakerLine → BreakerConfig Float → ℤ → ℤ → BreakerLine × Bool × Bool
  unfolding reset rate cooldown
  allow_line l c now now' =
      if ltb_ℤ now l.open_until
      then (l, false, false)
      else if leb_ℤ c.min_samples (pos l.filled) && le c.trip_rate (rate l)
      then (
        reset (record l { open_until = now' +ℤ cooldown c; trips = wrap64 (l.trips +ℤ pos 1) }),
        false,
        true,
      )
      else (l, true, false)

  unfoldable pub allow :
      Breaker → String → Option (BreakerConfig Float) → ℤ → ℤ → Breaker × Bool × Bool
  unfolding store
  allow b pl cfg now now' =
      let c = normalise cfg in
      let (l, allowed, tripped) = allow_line (line_for (b.lines pl) c.window) c now now' in
      if c.disabled then (b, true, false) else (store b pl l, allowed, tripped)

  unfoldable pub record_outcome : Breaker → String → Bool → Option (BreakerConfig Float) → Breaker
  unfolding store
  record_outcome b pl suppressed cfg =
      let c = normalise cfg in
      if c.disabled then b else store b pl (record_line (line_for (b.lines pl) c.window) suppressed)

unfoldable pub is_open : Breaker → String → ℤ → Bool
is_open b pl now = elim (b.lines pl) [ none ↦ false | some l ↦ ltb_ℤ now l.open_until ]
