-- ===== src/Domain/Breaker/Window.antt =====
-- The breaker's ring against a window of the last answers, over any run of `Record`
-- (unica/pkg/domain/breaker.go).
use mathlib.Core.List.{append-nil, append_assoc}
use lurus_unica.Common.{
  ℕ, suc, ◌-◌, ◌≤◌, ◌<◌, ◌≡◌, refl, sym, ◌∙◌, inl, inr, Bool, true, false, List, [], ◌∷◌, ◌++◌,
  arith, length, drop, length-append, length-set, length-replicate, Bool-cases, ==_iff, ◌==◌,
  pos_part, ℤ,
}
use lurus_unica.Domain.Breaker.Lines.{BreakerLine, fresh_line, record_line}
use lurus_unica.Domain.Breaker.Ring.{
  IsValid, recent, slide, recent-record_line, record_line-IsValid, length-recent,
}

-- A window of the last `size` answers.
abbrev pub last : ℕ → List Bool → List Bool
last size xs = drop (length xs - size) xs

pub last_all : (size : ℕ) (xs : List Bool) → length xs ≤ size → last size xs ≡ xs
last_all size xs h = let e : length xs - size ≡ 0 = omega arith in rw e

pub last-cons :
    (size : ℕ) (y : Bool) (xs : List Bool) → size ≤ length xs → last size (y ∷ xs) ≡ last size xs
last-cons size y xs h =
    let e : suc (length xs) - size ≡ suc (length xs - size) = omega arith in rw e

last-slide :
    (size : ℕ) (h xs : List Bool) (x : Bool)
    → length h ≤ size
    → 0 < size
    → last size (slide size h x ++ xs) ≡ last size (h ++ x ∷ xs)
last-slide size h xs x g p = elim (Bool-cases (length h == size)) [
  | inl e ↦ go h ((==_iff _ _).0 e) e
  | inr e ↦ rw e (rw (append_assoc h (x ∷ []) xs))
]
  where
    go :
        (h : List Bool)
        → length h ≡ size
        → (length h == size) ≡ true
        → last size (slide size h x ++ xs) ≡ last size (h ++ x ∷ xs)
    go [] e t = absurd (omega arith)
    go (y ∷ t) e k = rw k (
        rw (append_assoc t (x ∷ []) xs)
          (sym (last-cons size y (t ++ x ∷ xs) (omega (arith, length-append t (x ∷ xs))))))

unfoldable pub record_all : BreakerLine → List Bool → BreakerLine
record_all l [] = l
record_all l (x ∷ xs) = record_all (record_line l x) xs

pub size-record_line :
    (l : BreakerLine) (x : Bool) → length (record_line l x).outcomes ≡ length l.outcomes
unfolding record_line
size-record_line l x = length-set l.outcomes l.next x

recent-le : (l : BreakerLine) → IsValid l → length (recent l) ≤ length l.outcomes
recent-le l v = omega (arith, length-recent l v, v.filled_within)

pub recent-record_all :
    (l : BreakerLine) (xs : List Bool) (v : IsValid l)
    → (recent (record_all l xs) ≡ last (length l.outcomes) (recent l ++ xs))
      × IsValid (record_all l xs)
unfolding record_all
recent-record_all l [] v =
    (rw append-nil (sym (last_all (length l.outcomes) (recent l) (recent-le l v))), v)
recent-record_all l (x ∷ xs) v =
    let (e, w) = recent-record_all (record_line l x) xs (record_line-IsValid v x) in
    (
      e
          ∙ rw (size-record_line l x, recent-record_line v x)
              (last-slide (length l.outcomes) (recent l) xs x (recent-le l v)
                (omega (arith, v.next_below))),
      w,
    )

pub fresh_line-IsValid : (n : ℤ) → 0 < pos_part n → IsValid (fresh_line n)
unfolding fresh_line
fresh_line-IsValid n h = record {
  next_below = omega (arith, length-replicate {0} (pos_part n) false);
  filled_within = omega arith;
  filling = λ _. refl;
  counted = refl;
}
