-- ===== src/Domain/Breaker/Runs.antt =====
-- The window of a product line over any run of `Allow` and `Record` (unica/pkg/domain/breaker.go).
use lurus_unica.Common.{
  ℕ, ◌-◌, ◌<◌, min, ◌≡◌, refl, sym, ap, subst, ◌∙◌, Bool, true, false, ◌&&◌, String, str_eq, eq_iff,
  Option, some, List, [], ◌∷◌, ◌++◌, arith, length, inl, inr, Bool-cases, if◌then◌else◌, ℤ, pos,
  pos_part, length-append, length-drop, ltb, length-replicate, ltb_ℤ,
}
use lurus_unica.Common.Floats.{Floats}
use lurus_unica.Domain.Breaker.Lines.{
  BreakerConfig, BreakerLine, Breaker, normalise, fresh_line, reset, line_for, allow_line,
  record_line, new_breaker, allow,
}
use lurus_unica.Domain.Breaker.Ring.{IsValid, recent, count_true, length-recent}
use lurus_unica.Domain.Breaker.Window.{
  last, last_all, last-cons, fresh_line-IsValid, record_all, recent-record_all, size-record_line,
}
use lurus_unica.Domain.Breaker.Decision.{
  line_of, window_positive, lines-record_outcome, lines_apart,
}
use lurus_unica.Domain.Breaker.Trips.{Event, ask, answer, step}

-- One more answer after those that a window of `size` holds.
last-append :
    (size : ℕ) (xs : List Bool) (x : Bool)
    → last size (last size xs ++ x ∷ []) ≡ last size (xs ++ x ∷ [])
last-append size [] x = ap (λ zs. last size (zs ++ x ∷ [])) (last_all size [] (omega arith))
last-append size (y ∷ ys) x = elim (Bool-cases (ltb (length ys) size)) [
  | inl t ↦ ap (λ zs. last size (zs ++ x ∷ [])) (last_all size (y ∷ ys) (ground arith))
  | inr f ↦
      let e = last-cons size y ys (ground arith) in
      ap (λ zs. last size (zs ++ x ∷ [])) e
      ∙ last-append size ys x
      ∙ sym (last-cons size y (ys ++ x ∷ []) (ground (arith, length-append ys (x ∷ []))))
]

-- A line with a window of `n` that holds the last of the given answers.
pub record Holds (n : ℤ) (xs : List Bool) (l : BreakerLine) : Type 0 where
  pub valid : IsValid l
  pub sized : length l.outcomes ≡ pos_part n
  pub held : recent l ≡ last (pos_part n) xs

Holds-fresh_line : (n : ℤ) → 0 < pos_part n → Holds n [] (fresh_line n)
unfolding fresh_line
Holds-fresh_line n h = record {
  valid = fresh_line-IsValid n h;
  sized = length-replicate (pos_part n) false;
  held = sym (last_all (pos_part n) [] (omega arith));
}

Holds-record_line :
    (n : ℤ) (xs : List Bool) (l : BreakerLine) (x : Bool)
    → Holds n xs l
    → Holds n (xs ++ x ∷ []) (record_line l x)
unfolding record_all
Holds-record_line n xs l x h =
    let (e, v) = recent-record_all l (x ∷ []) h.valid in
    record {
      valid = v;
      sized = size-record_line l x ∙ h.sized;
      held =
          e
          ∙ ap (λ k. last k (recent l ++ x ∷ [])) h.sized
          ∙ ap (λ zs. last (pos_part n) (zs ++ x ∷ [])) h.held
          ∙ last-append (pos_part n) xs x;
    }

Holds-open :
    (n : ℤ) (xs : List Bool) (l : BreakerLine) (t k : ℤ)
    → 0 < pos_part n
    → Holds n xs l
    → Holds n [] (reset (record l { open_until = t; trips = k }))
unfolding reset
Holds-open n xs l t k p h = record {
  valid = record {
    next_below = omega (arith, h.sized);
    filled_within = omega arith;
    filling = λ _. refl;
    counted = refl;
  };
  sized = h.sized;
  held = sym (last_all (pos_part n) [] (omega arith));
}

line_for_sized :
    (l : BreakerLine) (n : ℤ) → length l.outcomes ≡ pos_part n → line_for (some l) n ≡ l
unfolding line_for
line_for_sized l n h = ground arith

and_false : (b : Bool) → (b && false) ≡ false
and_false b = ground arith

either {ℓ} : {A : Type 0} (P : A → Type ℓ) (b : Bool) (x y : A) → P x → P y → P (if b then x else y)
either P true x y f g = f
either P false x y f g = g

module _ (fl : Floats) (pl : String) (cfg : Option (BreakerConfig fl.Float)) where
  open fl use {Float}

  unfoldable pub run_events : Breaker → List Event → Breaker
  unfolding step
  run_events b [] = b
  run_events b (e ∷ es) = run_events (step fl cfg b e).0 es

  -- The answers of the product line since its last trip.
  unfoldable pub since_trip : Breaker → List Bool → List Event → List Bool
  unfolding step
  since_trip b xs [] = xs
  since_trip b xs (ask k now now' ∷ es) =
      let (b', tripped) = step fl cfg b (ask k now now') in
      since_trip b' (if tripped && str_eq k pl then [] else xs) es
  since_trip b xs (answer k x ∷ es) =
      since_trip (step fl cfg b (answer k x)).0 (if str_eq k pl then xs ++ x ∷ [] else xs) es

module _ (fl : Floats) (pl : String) (cfg : Option (BreakerConfig fl.Float))
    (on : (normalise fl cfg).disabled ≡ false) where
  open fl use {Float}

  abbrev n : ℤ
  n = (normalise fl cfg).window

  abbrev line : Breaker → BreakerLine
  line b = line_of fl b pl (normalise fl cfg)

  abbrev since : Breaker → List Bool → List Event → List Bool
  since = since_trip fl pl cfg

  abbrev run : Breaker → List Event → Breaker
  run = run_events fl pl cfg

  Holds-answer :
      (b : Breaker) (xs : List Bool) (k : String) (x : Bool)
      → Holds n xs (line b)
      → Holds n (if str_eq k pl then xs ++ x ∷ [] else xs) (line (step fl cfg b (answer k x)).0)
  unfolding step
  Holds-answer b xs k x h = elim (Bool-cases (str_eq k pl)) [
    | inl t ↦ rw t (
        rw ((eq_iff k pl).0 t) (
          subst (Holds n (xs ++ x ∷ []))
            (sym (
              ap (λ o. line_for o n) (lines-record_outcome fl b pl cfg x on)
              ∙ line_for_sized (record_line (line b) x) n (size-record_line (line b) x ∙ h.sized)))
            (Holds-record_line n xs (line b) x h)))
    | inr f ↦ rw f (
        subst (λ o. Holds n xs (line_for o n))
          (sym (lines_apart fl b k pl x cfg (pos 0) (pos 0) (λ e. ground (arith, eq_iff k pl))).1)
          h)
  ]

  Holds-allow_line :
      (l : BreakerLine) (xs : List Bool) (now now' : ℤ)
      → Holds n xs l
      → let x = allow_line fl l (normalise fl cfg) now now' in Holds n (if x.2 then [] else xs) x.0
  unfolding allow_line
  Holds-allow_line l xs now now' h =
      let P = λ (x : BreakerLine × Bool × Bool). Holds n (if x.2 then [] else xs) x.0 in
      either P (ltb_ℤ now l.open_until) _ _ h
        (either P _ _ _ (Holds-open n xs l _ _ (window_positive fl cfg) h) h)

  line-allow :
      (b : Breaker) (now now' : ℤ)
      → let x = allow_line fl (line b) (normalise fl cfg) now now' in
        ((allow fl b pl cfg now now').0.lines pl ≡ some x.0)
        × ((allow fl b pl cfg now now').2 ≡ x.2)
  unfolding allow
  line-allow b now now' = (ground (arith, eq_iff pl pl), ground arith)

  moved :
      (b : Breaker) (xs : List Bool) (now now' : ℤ)
      → Holds n xs (line b)
      → let x = allow fl b pl cfg now now' in
        Holds n (if x.2 && str_eq pl pl then [] else xs) (line x.0)
  moved b xs now now' h =
      let l = allow_line fl (line b) (normalise fl cfg) now now' in
      let (p, q) = line-allow b now now' in
      let kept = Holds-allow_line (line b) xs now now' h in
      let same : ((allow fl b pl cfg now now').2 && str_eq pl pl) ≡ l.2 =
        ground (arith, eq_iff pl pl) in
      subst (λ c. Holds n (if c then [] else xs) (line (allow fl b pl cfg now now').0)) (sym same)
        (subst (Holds n (if l.2 then [] else xs))
          (sym (ap (λ o. line_for o n) p ∙ line_for_sized l.0 n kept.sized)) kept)

  Holds-ask :
      (b : Breaker) (xs : List Bool) (k : String) (now now' : ℤ)
      → Holds n xs (line b)
      → let (b', tripped) = step fl cfg b (ask k now now') in
        Holds n (if tripped && str_eq k pl then [] else xs) (line b')
  unfolding step
  Holds-ask b xs k now now' h = elim (Bool-cases (str_eq k pl)) [
    | inl t ↦ rw ((eq_iff k pl).0 t) (moved b xs now now' h)
    | inr f ↦ rw f (
        subst (λ c. Holds n (if c then [] else xs) (line (allow fl b k cfg now now').0))
          (sym (and_false (allow fl b k cfg now now').2))
          (subst (λ o. Holds n xs (line_for o n))
            (sym (lines_apart fl b k pl false cfg now now' (λ e. ground (arith, eq_iff k pl))).0)
            h))
  ]

  Holds-run :
      (es : List Event) (b : Breaker) (xs : List Bool)
      → Holds n xs (line b)
      → Holds n (since b xs es) (line (run b es))
  unfolding since_trip run_events
  Holds-run [] b xs h = h
  Holds-run (ask k now now' ∷ es) b xs h = Holds-run es _ _ (Holds-ask b xs k now now' h)
  Holds-run (answer k x ∷ es) b xs h = Holds-run es _ _ (Holds-answer b xs k x h)

  -- Under settings that are not disabled, after any calls of `Allow` and `Record` for any product lines
  -- on a new breaker, the line that the next call reads holds as many samples as there were answers of
  -- its product line since its last trip, capped at the configured window, and counts exactly the
  -- suppressed ones among the last of them that the window holds.
  pub run_events-window :
      (es : List Event)
      → let xs = since_trip fl pl cfg new_breaker [] es in
        let l = line_of fl (run_events fl pl cfg new_breaker es) pl (normalise fl cfg) in
        (l.filled ≡ min (length xs) (pos_part (normalise fl cfg).window))
        × (l.suppressed ≡ count_true (last (pos_part (normalise fl cfg).window) xs))
  unfolding new_breaker line_for
  run_events-window es =
      let xs = since_trip fl pl cfg new_breaker [] es in
      let l = line (run_events fl pl cfg new_breaker es) in
      let h : Holds n xs l =
        Holds-run es new_breaker [] (Holds-fresh_line n (window_positive fl cfg)) in
      (
        sym (length-recent l h.valid)
            ∙ ap length h.held
            ∙ (let e = length-drop (length xs - pos_part n) xs in omega arith),
        h.valid.counted ∙ ap count_true h.held,
      )
