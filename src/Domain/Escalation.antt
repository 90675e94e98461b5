-- ===== src/Domain/Escalation.antt =====
-- unica/pkg/domain/escalation.go: the tag by which the model asks for a person. The two regular
-- expressions are matched by hand: `(?i)` folds ASCII letters only, since no other character folds to
-- a letter of HANDOFF, and `[^\]]*` runs to the first bracket that closes.
pub mod Parsing
mod Tests
use lurus_unica.Common.{
  ℕ, ◌+◌, suc, zero, String, Bool, true, false, not, ◌&&◌, ◌||◌, Option, none, some, List, [], ◌∷◌,
  map, str_eq, ◌==◌, leb, length, if◌then◌else◌,
}
use lurus_unica.Common.Text.{Text, codes, contains, trim_space, is_empty, text_eq}
use lurus_unica.Common.Search.{any, find, is_some}

abbrev pub escalate_payout : Text
escalate_payout = codes "payout"

abbrev pub escalate_liability : Text
escalate_liability = codes "liability"

abbrev pub escalate_safety : Text
escalate_safety = codes "safety"

abbrev pub escalate_regulator : Text
escalate_regulator = codes "regulator"

abbrev pub escalate_other : Text
escalate_other = codes "other"

abbrev pub known_escalations : List Text
known_escalations =
    escalate_payout ∷ escalate_liability ∷ escalate_safety ∷ escalate_regulator ∷ escalate_other
    ∷ []

-- A letter of A to Z in lower case.
unfoldable pub folded : ℕ → ℕ
folded c = if leb 65 c && leb c 90 then c + 32 else c

-- What follows a word at the start of the text, in any case.
unfoldable pub after_word : Text → Text → Option Text
unfolding folded
after_word s [] = some s
after_word [] (t ∷ ts) = none
after_word (s ∷ ss) (t ∷ ts) = let rest = after_word ss ts in if folded s == t then rest else none

-- What stands before the first closing bracket.
unfoldable pub until_bracket : Text → Option Text
until_bracket [] = none
until_bracket (c ∷ s) =
    let rest = until_bracket s in
    if c == 93 then some [] else elim rest [ none ↦ none | some v ↦ some (c ∷ v) ]

-- What is matched by `[^\]]*` in `\[HANDOFF[^\]]*\]`, at the start of the text.
unfoldable pub tag_at : Text → Option Text
unfolding after_word until_bracket
tag_at s = elim (after_word s (codes "[handoff")) [ none ↦ none | some r ↦ until_bracket r ]

unfoldable pub after_colon : Text → Option Text
unfolding until_bracket
after_colon [] = none
after_colon (c ∷ r) = if c == 58 then until_bracket r else none

-- The group of `\[HANDOFF:([^\]]*)\]`, at the start of the text.
unfoldable pub value_at : Text → Option Text
unfolding after_word after_colon
value_at s = elim (after_word s (codes "[handoff")) [ none ↦ none | some r ↦ after_colon r ]

-- The leftmost match of the first pattern, which is the first of `FindAllStringSubmatch`.
unfoldable pub first_value : Text → Option Text
unfolding value_at
first_value [] = none
first_value (c ∷ s) =
    let rest = first_value s in elim (value_at (c ∷ s)) [ none ↦ rest | some v ↦ some v ]

-- `MatchString` of the second pattern.
unfoldable pub has_tag : Text → Bool
unfolding tag_at is_some
has_tag [] = false
has_tag (c ∷ s) = is_some (tag_at (c ∷ s)) || has_tag s

-- `ReplaceAllString` of the second pattern by nothing, with a number of characters still to drop.
unfoldable pub strip_from : ℕ → Text → Text
unfolding tag_at
strip_from n [] = []
strip_from (suc n) (c ∷ s) = strip_from n s
strip_from zero (c ∷ s) =
    let kept = c ∷ strip_from zero s in
    elim (tag_at (c ∷ s)) [ none ↦ kept | some v ↦ strip_from (8 + length v) s ]

pub record EscalationResult : Type 0 where
  pub requested : Bool
  pub reason : Text
  pub cleaned_answer : Text

module _ (lower : ℕ → ℕ) where
  -- The reason for a tag's value.
  unfoldable pub reason_for : Text → Text
  unfolding text_eq is_empty any
  reason_for v =
      let value = map lower (trim_space v) in
      if is_empty value
      then escalate_other
      else if any (text_eq value) known_escalations
      then value
      else escalate_other

  unfoldable pub parse_escalation : Text → EscalationResult
  unfolding reason_for first_value has_tag strip_from
  parse_escalation answer =
      let cleaned = trim_space (strip_from 0 answer) in
      elim (first_value answer) [
        | some v ↦ record { requested = true; reason = reason_for v; cleaned_answer = cleaned }
        | none ↦
            if has_tag answer
            then record { requested = true; reason = escalate_other; cleaned_answer = cleaned }
            else record { requested = false; reason = []; cleaned_answer = cleaned }
      ]

unfoldable pub transfer_phrases : List Text
transfer_phrases = map codes (
    "为您转接人工" ∷ "为您转接专员" ∷ "转接人工客服" ∷ "转接人工专员" ∷ "已为您转接" ∷ "正在为您转接" ∷ "我将为您转接" ∷ "立即为您转接" ∷ "为您转人工"
    ∷ "帮您转人工" ∷ "转人工核定" ∷ "转人工处理" ∷ "转人工跟进" ∷ [])

unfoldable pub intake_markers : List Text
intake_markers =
    map codes ("？" ∷ "?" ∷ "请提供" ∷ "请告知" ∷ "请问" ∷ "麻烦提供" ∷ "需要您提供" ∷ "方便提供" ∷ "以下信息" ∷ "确认几个" ∷ [])

unfoldable pub announces_transfer : Text → Bool
unfolding any
announces_transfer answer =
    if any (contains answer) intake_markers then false else any (contains answer) transfer_phrases
