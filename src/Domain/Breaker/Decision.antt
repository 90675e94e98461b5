-- ===== src/Domain/Breaker/Decision.antt =====
-- What `Allow` and `Record` of unica/pkg/domain/breaker.go do: the settings in force, one call, and
-- product lines side by side.
use lurus_unica.Common.{
  ◌<◌, ◌≡◌, ◌≢◌, ◌∙◌, ◌↔◌, Bool, true, false, String, eq_iff, Option, none, some, List, [], ◌∷◌,
  arith, ℤ, pos, pos_part, ◌≤ℤ◌, ltb_ℤ, leb_ℤ, ◌+ℤ◌,
}
use lurus_unica.Common.Floats.{Floats}
use lurus_unica.Domain.Breaker.Lines.{
  BreakerConfig, BreakerLine, Breaker, normalise, cooldown, line_for, rate, allow_line, record_line,
  allow, record_outcome, is_open,
}

module _ (fl : Floats) where
  open fl use {Float, of_int, decimal, le, lt}

  -- Settings under which the breaker can act.
  pub record IsUsable (c : BreakerConfig Float) : Type 0 where
    pub rate_positive : le c.trip_rate (of_int 0) ≡ false
    pub rate_capped : lt (of_int 1) c.trip_rate ≡ false
    pub samples_positive : pos 1 ≤ℤ c.min_samples
    pub window_enough : c.min_samples ≤ℤ c.window
    pub cooldown_positive : pos 1 ≤ℤ c.cooldown_seconds

  -- What the constants of the file satisfy.
  abbrev pub DefaultsInRange : Type 0
  DefaultsInRange = (le (decimal 25 2) (of_int 0) ≡ false) × (lt (of_int 1) (decimal 25 2) ≡ false)

  normalise-eq : (c : BreakerConfig Float) → IsUsable c → normalise fl (some c) ≡ c
  unfolding normalise
  normalise-eq c u = ground arith

  IsUsable-normalise :
      (c : Option (BreakerConfig Float)) → DefaultsInRange → IsUsable (normalise fl c)
  unfolding normalise
  IsUsable-normalise none d = ground arith
  IsUsable-normalise (some c) d = ground arith

  -- Whatever block is configured, none included, the settings in force can trip the breaker: the rate
  -- is above 0 and at most 1, the sample floor is positive and no larger than the window, and the
  -- cooldown is positive. To normalise them again changes nothing. (The default rate is in range.)
  pub normalise-IsUsable :
      (c : Option (BreakerConfig Float))
      → DefaultsInRange
      → IsUsable (normalise fl c) × (normalise fl (some (normalise fl c)) ≡ normalise fl c)
  normalise-IsUsable c d =
      (IsUsable-normalise c d, normalise-eq (normalise fl c) (IsUsable-normalise c d))

  pub window_positive : (c : Option (BreakerConfig Float)) → 0 < pos_part (normalise fl c).window
  unfolding normalise
  window_positive none = omega arith
  window_positive (some c) = ground arith

  -- The conditions under which a call of `Allow` trips.
  pub record TripsAt (c : BreakerConfig Float) (l : BreakerLine) (now : ℤ) : Type 0 where
    pub closed : ltb_ℤ now l.open_until ≡ false
    pub sampled : leb_ℤ c.min_samples (pos l.filled) ≡ true
    pub implausible : le c.trip_rate (rate fl l) ≡ true

  allow_line_trips :
      (l : BreakerLine) (c : BreakerConfig Float) (now now' : ℤ)
      → (allow_line fl l c now now').2 ≡ true
      → TripsAt c l now
  unfolding allow_line
  allow_line_trips l c now now' h = ground arith

  allow_line_trip :
      (l : BreakerLine) (c : BreakerConfig Float) (now now' : ℤ)
      → TripsAt c l now
      → (allow_line fl l c now now').2 ≡ true
  unfolding allow_line
  allow_line_trip l c now now' h = ground arith

  -- The line that a call reads.
  abbrev pub line_of : Breaker → String → BreakerConfig Float → BreakerLine
  line_of b pl c = line_for (b.lines pl) c.window

  -- `Allow` reports a trip exactly when the breaker is not disabled, is not within a cooldown, has
  -- seen the minimum of samples, and measures a rate at the limit or above it.
  pub allow_trips_iff :
      (b : Breaker) (pl : String) (cfg : Option (BreakerConfig Float)) (now now' : ℤ)
      → let c = normalise fl cfg in
        ((allow fl b pl cfg now now').2 ≡ true)
        ↔ ((c.disabled ≡ false) × TripsAt c (line_of b pl c) now)
  unfolding allow
  allow_trips_iff b pl cfg now now' =
      let c = normalise fl cfg in
      let l = line_of b pl c in
      (
        λ h. ground (arith, allow_line_trips l c now now'),
        λ t. ground (arith, allow_line_trip l c now now'),
      )

  -- A trip empties the window and starts the cooldown.
  allow_line_after_trip :
      (l : BreakerLine) (c : BreakerConfig Float) (now now' : ℤ)
      → (allow_line fl l c now now').2 ≡ true
      → let l' = (allow_line fl l c now now').0 in
        (l'.open_until ≡ now' +ℤ cooldown fl c)
        × (l'.filled ≡ 0)
        × (l'.suppressed ≡ 0)
        × (l'.outcomes ≡ l.outcomes)
  unfolding allow_line
  allow_line_after_trip l c now now' h = ground arith

  allow_line_within :
      (l : BreakerLine) (c : BreakerConfig Float) (now now' : ℤ)
      → ltb_ℤ now l.open_until ≡ true
      → allow_line fl l c now now' ≡ (l, false, false)
  unfolding allow_line
  allow_line_within l c now now' h = rw h

  line_for-open :
      (o : Option BreakerLine) (l : BreakerLine) (n : ℤ)
      → o ≡ some l
      → (line_for o n).open_until ≡ l.open_until
  unfolding line_for
  line_for-open o l n e = ground arith

  lookup_after_trip :
      (b : Breaker) (pl : String) (cfg : Option (BreakerConfig Float)) (now now' : ℤ)
      → (allow fl b pl cfg now now').2 ≡ true
      → (l : BreakerLine) × ((allow fl b pl cfg now now').0.lines pl ≡ some l)
        × (l.open_until ≡ now' +ℤ cooldown fl (normalise fl cfg))
        × (l.filled ≡ 0)
  unfolding allow
  lookup_after_trip b pl cfg now now' h =
      let c = normalise fl cfg in
      let l = line_of b pl c in
      (
        (allow_line fl l c now now').0,
        ground (arith, eq_iff pl pl),
        ground (arith, allow_line_after_trip l c now now'),
        ground (arith, allow_line_after_trip l c now now'),
      )

  pub allow_within :
      (b : Breaker) (l : BreakerLine) (pl : String) (cfg : Option (BreakerConfig Float)) (t t' : ℤ)
      → b.lines pl ≡ some l
      → (normalise fl cfg).disabled ≡ false
      → ltb_ℤ t l.open_until ≡ true
      → ((allow fl b pl cfg t t').1 ≡ false) × ((allow fl b pl cfg t t').2 ≡ false)
  unfolding allow
  allow_within b l pl cfg t t' p d e =
      let c = normalise fl cfg in
      let w : ltb_ℤ t (line_of b pl c).open_until ≡ true =
        rw (line_for-open (b.lines pl) l c.window p) e in
      ground (arith, allow_line_within (line_of b pl c) c t t' w)

  is_open_of_lines :
      (b : Breaker) (l : BreakerLine) (pl : String) (t : ℤ)
      → b.lines pl ≡ some l
      → is_open b pl t ≡ ltb_ℤ t l.open_until
  unfolding is_open
  is_open_of_lines b l pl t p = ground arith

  -- After a trip and until its cooldown ends, `Open` reports the line as open, and every call of
  -- `Allow` whose settings are not disabled is refused without a second trip.
  pub allow_after_trip :
      (b : Breaker) (pl : String) (cfg cfg' : Option (BreakerConfig Float)) (now now' t t' : ℤ)
      → (allow fl b pl cfg now now').2 ≡ true
      → (normalise fl cfg').disabled ≡ false
      → ltb_ℤ t (now' +ℤ cooldown fl (normalise fl cfg)) ≡ true
      → let b' = (allow fl b pl cfg now now').0 in
        (is_open b' pl t ≡ true)
        × ((allow fl b' pl cfg' t t').1 ≡ false)
        × ((allow fl b' pl cfg' t t').2 ≡ false)
  allow_after_trip b pl cfg cfg' now now' t t' h d e =
      let b' = (allow fl b pl cfg now now').0 in
      let (l, p, o, f) = lookup_after_trip b pl cfg now now' h in
      let w : ltb_ℤ t l.open_until ≡ true = rw o e in
      let (x, y) = allow_within b' l pl cfg' t t' p d w in (is_open_of_lines b' l pl t p ∙ w, x, y)

  -- What happens on one product line leaves every other as it was.
  pub lines_apart :
      (b : Breaker) (pl k : String) (x : Bool) (cfg : Option (BreakerConfig Float)) (now now' : ℤ)
      → k ≢ pl
      → ((allow fl b pl cfg now now').0.lines k ≡ b.lines k)
        × ((record_outcome fl b pl x cfg).lines k ≡ b.lines k)
  unfolding allow record_outcome
  lines_apart b pl k x cfg now now' h = ground (arith, eq_iff k pl)

  unfoldable pub record_run : Breaker → String → Option (BreakerConfig Float) → List Bool → Breaker
  record_run b pl cfg [] = b
  record_run b pl cfg (x ∷ xs) = record_run (record_outcome fl b pl x cfg) pl cfg xs

  pub lines-record_outcome :
      (b : Breaker) (pl : String) (cfg : Option (BreakerConfig Float)) (x : Bool)
      → (normalise fl cfg).disabled ≡ false
      → (record_outcome fl b pl x cfg).lines pl
        ≡ some (record_line (line_for (b.lines pl) (normalise fl cfg).window) x)
  unfolding record_outcome
  lines-record_outcome b pl cfg x d = ground (arith, eq_iff pl pl)
