-- ===== src/Common/Tags.antt =====
-- What the program uses of Go's `regexp` for bracketed tags, and of `strings.ReplaceAll` for spaces.
-- A matcher answers, at the start of a text, how many characters follow the first one of its match.
use Prim.Native.Nat.{ℕ, zero, suc, ◌<◌, ◌≤◌}
use mathlib.Core.Path.{◌≡◌, refl, subst}
use mathlib.Core.Logic.{inl, inr}
use mathlib.Core.Bool.{Bool, true, false}
use mathlib.Core.Option.{Option, none, some}
use mathlib.Core.List.{List, [], ◌∷◌}
use native.Mathlib.Omega.{arith}
use lurus_unica.Common.Tests.{◌==◌, Bool-cases}
use lurus_unica.Common.Lists.{length}
use lurus_unica.Common.Text.{Text, contains, has_prefix}

-- `FindAllStringSubmatch`: the groups of the leftmost matches that do not overlap, with a number of
-- characters still to skip.
module _ {ℓ} {A : Type ℓ} where
  unfoldable pub find_all : (Text → Option (A × ℕ)) → ℕ → Text → List A
  find_all at n [] = []
  find_all at (suc n) (c ∷ s) = find_all at n s
  find_all at zero (c ∷ s) = elim (at (c ∷ s)) [
    | none ↦ find_all at zero s
    | some (a, n) ↦ a ∷ find_all at n s
  ]

-- `ReplaceAllString` by nothing.
unfoldable pub erase_all : (Text → Option ℕ) → ℕ → Text → Text
erase_all at n [] = []
erase_all at (suc n) (c ∷ s) = erase_all at n s
erase_all at zero (c ∷ s) = elim (at (c ∷ s)) [
  | none ↦ c ∷ erase_all at zero s
  | some n ↦ erase_all at n s
]

abbrev pub two_spaces : Text
two_spaces = 32 ∷ 32 ∷ []

-- `ReplaceAll(s, "  ", " ")`, where the flag says that a space was read that has no partner yet.
unfoldable pub pair_up : Bool → Text → Text
pair_up false [] = []
pair_up true [] = 32 ∷ []
pair_up false (c ∷ s) = elim (c == 32) [ true ↦ pair_up true s | false ↦ c ∷ pair_up false s ]
pair_up true (c ∷ s) = elim (c == 32) [
  | true ↦ 32 ∷ pair_up false s
  | false ↦ 32 ∷ c ∷ pair_up false s
]

-- `for Contains(s, "  ") { s = ReplaceAll(s, "  ", " ") }`, on fuel.
unfoldable pub collapse_from : ℕ → Text → Text
unfolding contains pair_up
collapse_from zero s = s
collapse_from (suc n) s = elim (contains s two_spaces) [
  | true ↦ collapse_from n (pair_up false s)
  | false ↦ s
]

-- Every round makes the text shorter, so that its length is enough fuel.
unfoldable pub collapse : Text → Text
unfolding collapse_from
collapse s = collapse_from (length s) s

pair_up-le :
    (s : Text) → (length (pair_up false s) ≤ length s) × (length (pair_up true s) ≤ suc (length s))
unfolding pair_up
pair_up-le [] = (omega arith, omega arith)
pair_up-le (c ∷ s) = (ground (arith, pair_up-le s), ground (arith, pair_up-le s))

-- A round on a text with a pair makes it shorter.
pair_up-lt :
    (s : Text)
    → (contains s two_spaces ≡ true → length (pair_up false s) < length s)
      × (contains (32 ∷ s) two_spaces ≡ true → length (pair_up true s) < suc (length s))
unfolding pair_up contains has_prefix
pair_up-lt [] = ((λ h. ground arith), λ h. ground arith)
pair_up-lt (c ∷ s) = (
  (λ h. ground (arith, pair_up-lt s, pair_up-le s)),
  λ h. ground (arith, pair_up-lt s, pair_up-le s),
)

collapse_from-single :
    (n : ℕ) (s : Text) → length s ≤ n → contains (collapse_from n s) two_spaces ≡ false
unfolding collapse_from contains has_prefix
collapse_from-single zero [] h = refl
collapse_from-single zero (c ∷ s) h = absurd (omega arith)
collapse_from-single (suc n) s h = elim (Bool-cases (contains s two_spaces)) [
  | inl t ↦
      subst (λ r. contains r two_spaces ≡ false) (again t)
        (collapse_from-single n (pair_up false s) (omega (arith, (pair_up-lt s).0 t)))
  | inr f ↦ subst (λ r. contains r two_spaces ≡ false) (done f) f
]
  where
    again :
        contains s two_spaces ≡ true → collapse_from n (pair_up false s) ≡ collapse_from (suc n) s
    again t = ground arith

    done : contains s two_spaces ≡ false → s ≡ collapse_from (suc n) s
    done f = ground arith

-- The loop ends without a pair of spaces.
pub collapse-single : (s : Text) → contains (collapse s) two_spaces ≡ false
unfolding collapse
collapse-single s = collapse_from-single (length s) s (omega arith)
