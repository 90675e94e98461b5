-- ===== src/Common/Occurs.antt =====
-- Where a text occurs in another, and what trimming leaves of it.
use Prim.Native.Nat.{ℕ}
use mathlib.Core.Path.{◌≡◌, refl, sym, ◌∙◌, ap, subst}
use mathlib.Core.Logic.{inl, inr}
use mathlib.Core.Bool.{Bool, true, false, not, ◌&&◌}
use mathlib.Core.List.{
  List, [], ◌∷◌, ◌++◌, reverse, map, append_assoc, reverse-append, reverse-reverse,
}
use mathlib.Mathlib.Data.List.Basic.{map-reverse_aux}
use native.Mathlib.Omega.{arith}
use lurus_unica.Common.Tests.{==_iff, Bool-cases}
use lurus_unica.Common.Text.{Text, has_prefix, contains, is_space, trim_left, trim_space}
use lurus_unica.Common.Search.{any}

-- `s` is `a`, then `t`, then `b`.
abbrev Occurs : Text → Text → Type 0
Occurs s t = (a : Text) × ((b : Text) × (s ≡ a ++ (t ++ b)))

prefix_append : (t b : Text) → has_prefix (t ++ b) t ≡ true
unfolding has_prefix
prefix_append [] [] = refl
prefix_append [] (c ∷ b) = refl
prefix_append (c ∷ t) b = ground (arith, ==_iff c c, prefix_append t b)

has_prefix_rest : (s t : Text) → has_prefix s t ≡ true → (b : Text) × (s ≡ t ++ b)
unfolding has_prefix
has_prefix_rest s [] h = (s, refl)
has_prefix_rest [] (c ∷ t) h = ground arith
has_prefix_rest (d ∷ s) (c ∷ t) h =
    let (b, p) = has_prefix_rest s t (ground arith) in
    let q : d ≡ c = ground (arith, ==_iff d c) in
    (b, subst (λ z. d ∷ s ≡ z ∷ (t ++ b)) q (ap (λ z. d ∷ z) p))

contains-nil : (s : Text) → contains s [] ≡ true
unfolding contains has_prefix
contains-nil [] = refl
contains-nil (c ∷ s) = refl

contains_append : (a t b : Text) → contains (a ++ (t ++ b)) t ≡ true
unfolding contains
contains_append [] [] b = contains-nil b
contains_append [] (c ∷ t) b = ground (arith, prefix_append (c ∷ t) b)
contains_append (d ∷ a) t b = ground (arith, contains_append a t b)

contains→Occurs : (s t : Text) → contains s t ≡ true → Occurs s t
unfolding contains
contains→Occurs [] t h = ([], has_prefix_rest [] t h)
contains→Occurs (d ∷ s) t h = elim (Bool-cases (has_prefix (d ∷ s) t)) [
  | inl p ↦ ([], has_prefix_rest (d ∷ s) t p)
  | inr n ↦ let (a, (b, q)) = contains→Occurs s t (ground arith) in (d ∷ a, (b, ap (λ z. d ∷ z) q))
]

Occurs→contains : (s t : Text) → Occurs s t → contains s t ≡ true
Occurs→contains s t (a, (b, p)) = subst (λ z. contains z t ≡ true) (sym p) (contains_append a t b)

reverse-Occurs : (s t : Text) → Occurs s t → Occurs (reverse s) (reverse t)
reverse-Occurs s t (a, (b, p)) = (
  reverse b,
  (
    reverse a,
    ap reverse p
        ∙ reverse-append a (t ++ b)
        ∙ ap (λ z. z ++ reverse a) (reverse-append t b)
        ∙ append_assoc (reverse b) (reverse t) (reverse a),
  ),
)

same : (x y : Bool) → (x ≡ true → y ≡ true) → (y ≡ true → x ≡ true) → x ≡ y
same x y f g = ground arith

contains-reverse : (s t : Text) → contains (reverse s) (reverse t) ≡ contains s t
contains-reverse s t =
    same (contains (reverse s) (reverse t)) (contains s t)
      (λ h. Occurs→contains s t (
        subst (λ z. Occurs z t) (reverse-reverse s)
          (subst (Occurs (reverse (reverse s))) (reverse-reverse t)
            (reverse-Occurs (reverse s) (reverse t) (contains→Occurs (reverse s) (reverse t) h)))))
      (λ h. Occurs→contains (reverse s) (reverse t) (reverse-Occurs s t (contains→Occurs s t h)))

-- The text begins with something other than white space.
unfoldable pub opens : Text → Bool
unfolding is_space
opens [] = false
opens (c ∷ s) = not (is_space c)

contains-trim_left : (s t : Text) → opens t ≡ true → contains (trim_left s) t ≡ contains s t
unfolding contains has_prefix trim_left opens
contains-trim_left s [] h = ground arith
contains-trim_left [] (c ∷ t) h = refl
contains-trim_left (d ∷ s) (c ∷ t) h = elim (Bool-cases (is_space d)) [
  | inl p ↦ ground (arith, contains-trim_left s (c ∷ t) h, ==_iff d c, λ (q : d ≡ c). ap is_space q)
  | inr n ↦ ground arith
]

-- Trimming white space at both ends leaves the occurrences of a text that has none at its ends.
pub contains-trim_space :
    (s t : Text)
    → opens t ≡ true
    → opens (reverse t) ≡ true
    → contains (trim_space s) t ≡ contains s t
unfolding trim_space
contains-trim_space s t h k =
    ap (contains (trim_space s)) (sym (reverse-reverse t))
    ∙ contains-reverse (trim_left (reverse (trim_left s))) (reverse t)
    ∙ contains-trim_left (reverse (trim_left s)) (reverse t) k
    ∙ contains-reverse (trim_left s) t
    ∙ contains-trim_left s t h

unfoldable pub firm : List Text → Bool
unfolding opens
firm [] = true
firm (t ∷ ts) = (opens t && opens (reverse t)) && firm ts

pub any-contains-trim_space :
    (s : Text) (ts : List Text)
    → firm ts ≡ true
    → any (contains (trim_space s)) ts ≡ any (contains s) ts
unfolding any firm
any-contains-trim_space s [] h = refl
any-contains-trim_space s (t ∷ ts) h = ground (
  arith,
  contains-trim_space s t (ground arith) (ground arith),
  any-contains-trim_space s ts (ground arith),
)

-- A change of case that keeps white space commutes with trimming.
module _ (lower : ℕ → ℕ) (keeps : (c : ℕ) → is_space (lower c) ≡ is_space c) where
  trim_left-map : (s : Text) → trim_left (map lower s) ≡ map lower (trim_left s)
  unfolding trim_left
  trim_left-map [] = refl
  trim_left-map (c ∷ s) = ground (arith, keeps c, trim_left-map s)

  pub trim_space-map : (s : Text) → trim_space (map lower s) ≡ map lower (trim_space s)
  unfolding trim_space
  trim_space-map s =
      ap (λ z. reverse (trim_left (reverse z))) (trim_left-map s)
      ∙ ap (λ z. reverse (trim_left z)) (sym (map-reverse_aux lower (trim_left s) []))
      ∙ ap reverse (trim_left-map (reverse (trim_left s)))
      ∙ sym (map-reverse_aux lower (trim_left (reverse (trim_left s))) [])
