-- ===== src/Router/Guardrail/Settings.antt =====
-- unica/pkg/guardrail/config.go: the settings of a product line. Decoding of JSON is a parameter: it
-- yields nothing on an error, and a missing `guardrail` key is the inner `none`.
pub mod Loading
use lurus_unica.Common.{ℕ, Bool, ◌&&◌, Option, none, some, List, [], ◌∷◌, map, if◌then◌else◌}
use lurus_unica.Common.Floats.{Floats}
use lurus_unica.Common.Text.{Text, codes, is_empty}
use lurus_unica.Domain.Text.{Categories, is_blank_answer}

pub record Config (F : Type 0) : Type 0 where
  pub confidence_threshold : F
  pub handoff_keywords : List Text
  pub blocked_topics : List Text
  pub holding_message : Text

-- The block as it is decoded, where the list of topics can be nil.
pub record Block (F : Type 0) : Type 0 where
  pub confidence_threshold : F
  pub handoff_keywords : List Text
  pub blocked_topics : Option (List Text)
  pub holding_message : Text

abbrev pub holding : Text
holding = codes "正在为您转接人工客服，请稍候..."

unfoldable pub list_or : List Text → List Text → List Text
list_or [] d = d
list_or (k ∷ ks) d = k ∷ ks

unfoldable pub topics : Option (List Text) → List Text
topics none = []
topics (some ts) = ts

module _ (fl : Floats) where
  unfoldable pub defaults : Config fl.Float
  defaults = record {
    confidence_threshold = fl.decimal 7 1;
    handoff_keywords = map codes ("转人工" ∷ "人工客服" ∷ "投诉" ∷ "找人工" ∷ []);
    blocked_topics = [];
    holding_message = holding;
  }

  -- `x == 0`.
  unfoldable pub is_zero : fl.Float → Bool
  is_zero x = fl.le x (fl.of_int 0) && fl.le (fl.of_int 0) x

  module _ (u : Categories) where
    unfoldable pub back_fill : Block fl.Float → Config fl.Float
    unfolding defaults is_zero list_or topics is_blank_answer
    back_fill b = record {
      confidence_threshold =
          if is_zero b.confidence_threshold
          then defaults.confidence_threshold
          else b.confidence_threshold;
      handoff_keywords = list_or b.handoff_keywords defaults.handoff_keywords;
      blocked_topics = topics b.blocked_topics;
      holding_message =
          if is_blank_answer u b.holding_message
          then defaults.holding_message
          else b.holding_message;
    }

    module _ {Json : Type 0} (is_blob : Json → Bool)
        (decode : Json → Option (Option (Block fl.Float))) where
      unfoldable pub load : Json → Config fl.Float
      unfolding back_fill
      load json =
          if is_blob json
          then elim (decode json) [
            | none ↦ defaults
            | some none ↦ defaults
            | some (some b) ↦ back_fill b
          ]
          else defaults
