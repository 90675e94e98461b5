-- ===== src/Domain/Text/Tests.antt =====
-- Blank answers.
use lurus_unica.Common.{true, false, ◌≡◌, refl, ◌∷◌, ◌==◌}
use lurus_unica.Common.Text.{codes}
use lurus_unica.Domain.Text.{Categories, is_blank_answer}

-- A few characters of the tables.
abbrev few : Categories
few = record {
  cc = λ c. c == 0;
  cf = λ c. c == 0x200B;
  mn = λ _. false;
  me = λ _. false;
  is_punct = λ c. c == 0x3002;
  sk = λ c. c == 96;
  sm = λ c. c == 124;
}

zero_width : is_blank_answer few (0x200B ∷ codes "。") ≡ true
unfolding is_blank_answer
zero_width = refl

price : is_blank_answer few (codes "¥199") ≡ false
unfolding is_blank_answer
price = refl
