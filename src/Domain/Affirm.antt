-- ===== src/Domain/Affirm.antt =====
-- unica/pkg/domain/affirm.go: whether a text presents a term as something on offer. The loops over the
-- occurrences of the term are one pass over the text, with the part of the sentence that was read and
-- a number of characters still to skip; all the enders of a sentence are single characters.
pub mod Sentences
use lurus_unica.Common.{
  ℕ, zero, suc, ◌-◌, Bool, true, false, not, ◌||◌, Option, none, some, List, [], ◌∷◌, ◌++◌, map,
  length, drop, ◌==◌, if◌then◌else◌,
}
use lurus_unica.Common.Text.{Text, codes, contains, has_prefix, is_empty}
use lurus_unica.Common.Search.{any, is_some}

abbrev pub negation_markers : List Text
negation_markers = map codes ("不" ∷ "没" ∷ "无法" ∷ "未" ∷ "非" ∷ "暂" ∷ "抱歉" ∷ "遗憾" ∷ "并无" ∷ [])

abbrev pub interrogative_markers : List Text
interrogative_markers = map codes ("？" ∷ "?" ∷ "请问" ∷ "是否" ∷ "还是" ∷ [])

-- 。 ！ ？ ； newline . ! ? ;
abbrev pub sentence_enders : List ℕ
sentence_enders = 0x3002 ∷ 0xFF01 ∷ 0xFF1F ∷ 0xFF1B ∷ 10 ∷ 46 ∷ 33 ∷ 63 ∷ 59 ∷ []

unfoldable pub is_ender : ℕ → Bool
unfolding any
is_ender c = any (λ e. c == e) sentence_enders

unfoldable pub neutralised : Text → Bool
unfolding any
neutralised sentence =
    any (contains sentence) negation_markers || any (contains sentence) interrogative_markers

-- The part of a sentence before a place, and after it.
unfoldable pub extend : Text → ℕ → Text
unfolding is_ender
extend left c = if is_ender c then [] else left ++ c ∷ []

unfoldable pub until_ender : Text → Text
unfolding is_ender
until_ender [] = []
until_ender (c ∷ s) = let rest = until_ender s in if is_ender c then [] else c ∷ rest

-- `SentenceAround`: the sentence of the term that stands at the start of a text.
unfoldable pub sentence_around : Text → Text → Text → Text
unfolding until_ender
sentence_around left term s = left ++ term ++ until_ender (drop (length term) s)

module _ (term : Text) where
  unfoldable pub affirming_from : Text → ℕ → Text → Text
  unfolding has_prefix neutralised sentence_around extend
  affirming_from left n [] = []
  affirming_from left (suc n) (c ∷ s) = affirming_from (extend left c) n s
  affirming_from left zero (c ∷ s) = elim (has_prefix (c ∷ s) term) [
    | false ↦ affirming_from (extend left c) zero s
    | true ↦ elim (neutralised (sentence_around left term (c ∷ s))) [
      | true ↦ affirming_from (extend left c) (length term - 1) s
      | false ↦ sentence_around left term (c ∷ s)
    ]
  ]

  unfoldable pub affirmed_from : Text → ℕ → Text → Bool
  unfolding has_prefix neutralised sentence_around extend
  affirmed_from left n [] = false
  affirmed_from left (suc n) (c ∷ s) = affirmed_from (extend left c) n s
  affirmed_from left zero (c ∷ s) = elim (has_prefix (c ∷ s) term) [
    | false ↦ affirmed_from (extend left c) zero s
    | true ↦ elim (neutralised (sentence_around left term (c ∷ s))) [
      | true ↦ affirmed_from (extend left c) (length term - 1) s
      | false ↦ true
    ]
  ]

unfoldable pub affirming_sentence : Text → Text → Text
unfolding affirming_from is_empty
affirming_sentence text term = if is_empty term then [] else affirming_from term [] 0 text

unfoldable pub is_affirmed : Text → Text → Bool
unfolding affirmed_from is_empty
is_affirmed text term = if is_empty term then false else affirmed_from term [] 0 text
