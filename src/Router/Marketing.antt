-- ===== src/Router/Marketing.antt =====
-- unica/router/internal/marketing/detector.go: the tags by which the model reports intents. The
-- pattern `(?i)[a-z_]` also matches the long s and the Kelvin sign, which fold to s and k.
use lurus_unica.Common.{
  ℕ, ◌+◌, Bool, true, false, not, ◌&&◌, ◌||◌, Option, none, some, List, [], ◌∷◌, map, length, ◌==◌,
  leb, if◌then◌else◌,
}
use lurus_unica.Common.Text.{Text, codes, trim_space, is_empty, text_eq}
use lurus_unica.Common.Search.{any}
use lurus_unica.Common.Tags.{find_all, erase_all, collapse}
use lurus_unica.Domain.Escalation.{after_word}

abbrev pub valid_intents : List Text
valid_intents =
    map codes
      ("price_inquiry" ∷ "comparison" ∷ "feature_question" ∷ "purchase_intent" ∷ "complaint" ∷ [])

-- `(?i)[a-z_]`.
unfoldable pub is_signal_char : ℕ → Bool
is_signal_char c =
    (leb 97 c && leb c 122) || (leb 65 c && leb c 90) || c == 95 || c == 0x17F || c == 0x212A

-- `([a-z_]+)\]` after the colon; an empty group is refused by the caller.
unfoldable pub signal : Text → Option Text
unfolding is_signal_char
signal [] = none
signal (c ∷ s) =
    let rest = signal s in
    if c == 93
    then some []
    else if is_signal_char c
    then elim rest [ none ↦ none | some v ↦ some (c ∷ v) ]
    else none

-- `(?i)\[INTENT:([a-z_]+)\]` at the start of a text.
unfoldable pub intent_at : Text → Option (Text × ℕ)
unfolding after_word signal is_empty
intent_at s = elim (after_word s (codes "[intent:")) [
  | none ↦ none
  | some r ↦ elim (signal r) [
    | none ↦ none
    | some v ↦ if is_empty v then none else some (v, length v + 8)
  ]
]

unfoldable pub intent_tag_at : Text → Option ℕ
unfolding intent_at
intent_tag_at s = elim (intent_at s) [ none ↦ none | some (v, n) ↦ some n ]

pub record DetectResult : Type 0 where
  pub cleaned_answer : Text
  pub intents : List Text

module _ (lower : ℕ → ℕ) where
  -- The loop over the matches, with the signals seen so far.
  unfoldable pub new_signals : List Text → List Text → List Text
  unfolding any text_eq
  new_signals seen [] = []
  new_signals seen (m ∷ ms) =
      let s = map lower m in
      elim (any (text_eq s) valid_intents && not (any (text_eq s) seen)) [
        | true ↦ s ∷ new_signals (s ∷ seen) ms
        | false ↦ new_signals seen ms
      ]

  unfoldable pub detect_intents : Text → DetectResult
  unfolding new_signals
  detect_intents answer = record {
    cleaned_answer = collapse (trim_space (erase_all intent_tag_at 0 answer));
    intents = new_signals [] (find_all intent_at 0 answer);
  }
