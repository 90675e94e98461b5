-- ===== src/Domain/Breaker/Ring.antt =====
-- The ring of recent outcomes (`outcomes`, `next`, `filled` and `suppressed` of
-- unica/pkg/domain/breaker.go) as a sliding window over the answers of a product line.
use mathlib.Core.List.{append-nil, append_assoc}
use native.Mathlib.Nat.{le_refl, mod-lt, mod-eq_of_lt}
use lurus_unica.Common.{
  ℕ, suc, ◌+◌, ◌%◌, ◌≤◌, ◌<◌, ◌≡◌, refl, sym, ap, ◌∙◌, inl, inr, Bool, true, false, List, [], ◌∷◌,
  ◌++◌, arith, length, take, drop, tail, count, get_or, set, length-append, length-take,
  length-drop, length-set, take_all, drop_all, take-suc-set, drop-suc-set, drop-eq-cons,
  count-append, Bool-cases, ltb, ◌==◌, if◌then◌else◌,
}
use lurus_unica.Domain.Breaker.Lines.{BreakerLine, record_line}

abbrev pub count_true : List Bool → ℕ
count_true = count (λ b. b)

-- What a ring holds, the oldest first.
abbrev view : ℕ → ℕ → List Bool → List Bool
view next filled o = drop next (take filled o) ++ take next o

abbrev pub recent : BreakerLine → List Bool
recent l = view l.next l.filled l.outcomes

pub record IsValid (l : BreakerLine) : Type 0 where
  pub next_below : l.next < length l.outcomes
  pub filled_within : l.filled ≤ length l.outcomes
  pub filling : l.filled < length l.outcomes → l.next ≡ l.filled
  pub counted : l.suppressed ≡ count_true (recent l)

-- One more outcome in a window of `size`.
abbrev pub slide : ℕ → List Bool → Bool → List Bool
slide size h x = (if length h == size then tail h else h) ++ x ∷ []

view-filling : (n : ℕ) (o : List Bool) → view n n o ≡ take n o
view-filling n o = rw (drop_all n (take n o) (omega (arith, length-take n o)))

view-full : (n k : ℕ) (o : List Bool) → length o ≤ k → view n k o ≡ drop n o ++ take n o
view-full n k o h = rw (take_all k o h)

length-view : (n k : ℕ) (o : List Bool) → n ≤ k → k ≤ length o → length (view n k o) ≡ k
length-view n k o h g = omega (
  arith,
  length-append (drop n (take k o)) (take n o),
  length-drop n (take k o),
  length-take k o,
  length-take n o,
)

-- A ring that is written at n and moved on by one: what stood at n is gone, and the new one is last.
module _ (o : List Bool) (n size : ℕ) (x : Bool) (full : length o ≡ size) (below : n < size) where
  view-set :
      drop ((n + 1) % size) (set o n x) ++ take ((n + 1) % size) (set o n x)
      ≡ drop (suc n) o ++ take n o ++ x ∷ []
  view-set = elim (Bool-cases (ltb (n + 1) size)) [
    | inl h ↦
        let e : (n + 1) % size ≡ suc n = grind arith in
        rw (e, drop-suc-set o n x, take-suc-set o n x (omega arith))
          (sym (append_assoc (drop (suc n) o) (take n o) (x ∷ [])))
    | inr h ↦
        let last : size ≡ suc n = ground arith in
        let e : (n + 1) % size ≡ 0 = grind arith in
        rw (e, drop_all (suc n) o (omega arith), append-nil)
          (sym (take_all (suc n) (set o n x) (omega (arith, length-set o n x)))
            ∙ take-suc-set o n x (omega arith))
  ]

-- The two cases of `record_line`: a ring that is filling, and a full one.
module _ (o : List Bool) (n : ℕ) (x : Bool) (below : n < length o) where
  view-set_filling : view ((n + 1) % length o) (n + 1) (set o n x) ≡ take n o ++ x ∷ []
  view-set_filling = elim (Bool-cases (ltb (n + 1) (length o))) [
    | inl h ↦
        let e : (n + 1) % length o ≡ suc n = grind arith in
        let s : n + 1 ≡ suc n = omega arith in
        rw (e, s) (view-filling (suc n) (set o n x) ∙ take-suc-set o n x below)
    | inr h ↦
        view-full ((n + 1) % length o) (n + 1) (set o n x) (ground (arith, length-set o n x))
        ∙ view-set o n (length o) x refl below
        ∙ ap (λ ys. ys ++ take n o ++ x ∷ []) (drop_all (suc n) o (ground arith))
  ]

  view-set_full :
      view ((n + 1) % length o) (length o) (set o n x) ≡ drop (suc n) o ++ take n o ++ x ∷ []
  view-set_full =
      view-full ((n + 1) % length o) (length o) (set o n x) (omega (arith, length-set o n x))
      ∙ view-set o n (length o) x refl below

slide-view :
    (o : List Bool) (n k : ℕ) (x : Bool)
    → n < length o
    → k ≤ length o
    → (k < length o → n ≡ k)
    → view ((n + 1) % length o) (if ltb k (length o) then k + 1 else k) (set o n x)
      ≡ slide (length o) (view n k o) x
slide-view o n k x below within filling = elim (Bool-cases (ltb k (length o))) [
  | inl h ↦
      let e : n ≡ k = filling (ground arith) in
      let t : (length (view n n o) == length o) ≡ false =
        ground (arith, length-view n n o (le_refl n) (omega arith)) in
      rw (h, ← e) (rw t (rw (view-filling n o) (view-set_filling o n x below)))
  | inr h ↦
      let e : k ≡ length o = ground arith in
      let t : (length (view n (length o) o) == length o) ≡ true =
        ground (arith, length-view n (length o) o (omega arith) (le_refl (length o))) in
      rw (h, e)
        (rw t (
          view-set_full o n x below
          ∙ ap (λ ys. ys ++ x ∷ [])
              (ap tail (
                sym (
                  view-full n (length o) o (le_refl (length o))
                  ∙ ap (λ ys. ys ++ take n o) (drop-eq-cons o n false below))))))
]

pub length-recent : (l : BreakerLine) → IsValid l → length (recent l) ≡ l.filled
length-recent l v = length-view l.next l.filled l.outcomes (grind arith) v.filled_within

-- The oldest outcome of a full ring stands at the next slot to be written.
view-eq-cons :
    (o : List Bool) (n k : ℕ)
    → n < length o
    → k ≡ length o
    → view n k o ≡ get_or o n false ∷ tail (view n k o)
view-eq-cons o n k below e =
    let p : view n k o ≡ get_or o n false ∷ drop (suc n) o ++ take n o =
      view-full n k o (omega arith) ∙ ap (λ ys. ys ++ take n o) (drop-eq-cons o n false below) in
    rw p

count-slide :
    (size : ℕ) (h : List Bool) (x : Bool)
    → count_true (slide size h x)
      ≡ count_true (if length h == size then tail h else h) + count_true (x ∷ [])
count-slide size h x = count-append (λ b. b) (if length h == size then tail h else h) (x ∷ [])

next-filling :
    (n k size : ℕ)
    → (k < size → n ≡ k)
    → (if ltb k size then k + 1 else k) < size
    → (n + 1) % size ≡ (if ltb k size then k + 1 else k)
next-filling n k size f h = elim (Bool-cases (ltb k size)) [
  | inl t ↦
      let e : n ≡ k = f (ground arith) in
      rw t (let s : k + 1 < size = ground arith in rw e (mod-eq_of_lt s))
  | inr t ↦ absurd (ground arith)
]

module _ {l : BreakerLine} (v : IsValid l) (x : Bool) where
  pub recent-record_line : recent (record_line l x) ≡ slide (length l.outcomes) (recent l) x
  unfolding record_line
  recent-record_line =
      slide-view l.outcomes l.next l.filled x v.next_below v.filled_within v.filling

  record_line_counted :
      (record_line l x).suppressed ≡ count_true (slide (length l.outcomes) (recent l) x)
  unfolding record_line
  record_line_counted = elim (Bool-cases (l.filled == length l.outcomes)) [
    | inl h ↦ ground (
      arith,
      length-recent l v,
      v.counted,
      count-slide (length l.outcomes) (recent l) x,
      ap count_true (view-eq-cons l.outcomes l.next l.filled v.next_below (ground arith)),
    )
    | inr h ↦
        ground (arith, length-recent l v, v.counted, count-slide (length l.outcomes) (recent l) x)
  ]

  pub record_line-IsValid : IsValid (record_line l x)
  unfolding record_line
  record_line-IsValid = record {
    next_below = rw (length-set l.outcomes l.next x) (mod-lt (l.next + 1) (grind arith));
    filled_within = grind (arith, length-set l.outcomes l.next x);
    filling =
        rw (length-set l.outcomes l.next x)
          (next-filling l.next l.filled (length l.outcomes) v.filling);
    counted = record_line_counted ∙ ap count_true (sym recent-record_line);
  }
