-- ===== src/Domain/Text.antt =====
-- unica/pkg/domain/text.go: when an answer is blank. The tables of Unicode's general categories,
-- which Go's `unicode` package holds, are parameters.
pub mod Blank
mod Tests
use lurus_unica.Common.{ℕ, Bool, true, false, ◌||◌, List, [], ◌∷◌, ◌==◌, if◌then◌else◌}
use lurus_unica.Common.Text.{Text, is_space}
use lurus_unica.Common.Search.{any}

pub record Categories : Type 0 where
  pub cc : ℕ → Bool
  pub cf : ℕ → Bool
  pub mn : ℕ → Bool
  pub me : ℕ → Bool
  pub is_punct : ℕ → Bool
  pub sk : ℕ → Bool
  pub sm : ℕ → Bool

abbrev pub invisible_fillers : List ℕ
invisible_fillers = 0x115F ∷ 0x1160 ∷ 0x17B4 ∷ 0x17B5 ∷ 0x180E ∷ 0x2800 ∷ 0x3164 ∷ 0xFFA0 ∷ []

module _ (u : Categories) where
  -- The cases of the switch.
  unfoldable pub is_unread : ℕ → Bool
  unfolding is_space any
  is_unread r =
      is_space r
      || (u.cc r || u.cf r)
      || (u.mn r || u.me r)
      || (u.is_punct r || (u.sk r || u.sm r))
      || any (λ f. r == f) invisible_fillers

  unfoldable pub is_blank_answer : Text → Bool
  unfolding is_unread
  is_blank_answer [] = true
  is_blank_answer (r ∷ s) = let rest = is_blank_answer s in if is_unread r then rest else false
