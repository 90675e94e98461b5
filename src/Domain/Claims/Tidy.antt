-- ===== src/Domain/Claims/Tidy.antt =====
-- The whitespace that `ParseClaims` of unica/pkg/domain/claims.go leaves.
use lurus_unica.Common.{ℕ, Bool, false, not, ◌&&◌, ◌||◌, [], ◌∷◌, arith, ◌≡◌, refl, ◌==◌}
use lurus_unica.Common.Text.{Text, contains, has_prefix}
use lurus_unica.Common.Tags.{two_spaces, collapse-single}
use lurus_unica.Domain.Claims.{pull_breaks, tidy, parse_claims}

abbrev starts : Text → Bool
starts [] = false
starts (c ∷ s) = c == 32

pull_breaks-starts : (s : Text) → (starts (pull_breaks s) && not (starts s)) ≡ false
unfolding pull_breaks
pull_breaks-starts [] = refl
pull_breaks-starts (c ∷ []) = ground arith
pull_breaks-starts (c ∷ d ∷ s) = ground (arith, pull_breaks-starts (d ∷ s))

-- A pair at the start, or later.
contains-cons :
    (c : ℕ) (s : Text)
    → contains (c ∷ s) two_spaces ≡ ((c == 32 && starts s) || contains s two_spaces)
unfolding contains has_prefix
contains-cons c [] = ground arith
contains-cons c (d ∷ s) = ground arith

pull_breaks-single :
    (s : Text) → contains s two_spaces ≡ false → contains (pull_breaks s) two_spaces ≡ false
unfolding pull_breaks
pull_breaks-single [] h = h
pull_breaks-single (c ∷ []) h = ground (arith, contains-cons c [])
pull_breaks-single (c ∷ d ∷ s) h = ground (
  arith,
  contains-cons c (d ∷ s),
  contains-cons c (pull_breaks (d ∷ s)),
  pull_breaks-starts (d ∷ s),
  pull_breaks-single (d ∷ s),
)

-- Whatever the model writes, the loops over the text end, and leave an answer in which no two spaces
-- stand next to each other.
pub parse_claims-single :
    (answer : Text) → contains (parse_claims answer).cleaned_answer two_spaces ≡ false
unfolding parse_claims tidy
parse_claims-single answer = pull_breaks-single _ (collapse-single _)
