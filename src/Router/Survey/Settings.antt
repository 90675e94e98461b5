-- ===== src/Router/Survey/Settings.antt =====
-- unica/pkg/survey/config.go: the survey's settings of a product line. Decoding of JSON is a parameter:
-- it yields nothing on an error, and a missing `survey` key is the inner `none`.
use lurus_unica.Common.{
  ℕ, Bool, false, ◌&&◌, ◌||◌, Option, none, some, ◌==◌, if◌then◌else◌, ℤ, pos, ◌*ℤ◌, leb_ℤ, wrap64,
}
use lurus_unica.Common.Text.{Text, codes}
use lurus_unica.Common.Search.{any}
use lurus_unica.Domain.Text.{Categories, is_blank_answer}

pub record SurveyConfig : Type 0 where
  pub enabled : Bool
  pub min_customer_messages : ℤ
  pub timeout_hours : ℤ
  pub prompt_message : Text
  pub thanks_message : Text

unfoldable pub defaults : SurveyConfig
defaults = record {
  enabled = false;
  min_customer_messages = pos 2;
  timeout_hours = pos 24;
  prompt_message =
      codes "感谢您的咨询！请为本次服务评分：\n回复数字 1-5（5分最高）\n1 - 非常不满意\n2 - 不满意\n3 - 一般\n4 - 满意\n5 - 非常满意";
  thanks_message = codes "感谢您的评价！我们会继续努力提升服务质量。";
}

-- `time.Hour`, in nanoseconds.
abbrev pub hour : ℕ
hour = 3_600_000_000_000

-- `strings.ContainsRune`.
abbrev pub contains_rune : Text → ℕ → Bool
contains_rune s r = any (λ c. c == r) s

unfoldable pub prompt_declares_scale : Text → Bool
unfolding any
prompt_declares_scale prompt =
    (contains_rune prompt 0x31 || contains_rune prompt 0xFF11)
    && (contains_rune prompt 0x35 || contains_rune prompt 0xFF15)

-- A number, or the default for one that is not positive.
abbrev pub positive_or : ℤ → ℤ → ℤ
positive_or n d = if leb_ℤ n (pos 0) then d else n

-- A `time.Duration`, a 64-bit count of nanoseconds.
unfoldable pub pending_ttl : SurveyConfig → ℤ
unfolding defaults wrap64
pending_ttl c = wrap64 (positive_or c.timeout_hours defaults.timeout_hours *ℤ pos hour)

module _ (u : Categories) where
  abbrev pub text_or : Text → Text → Text
  text_or t d = if is_blank_answer u t then d else t

  unfoldable pub back_fill : SurveyConfig → SurveyConfig
  unfolding defaults is_blank_answer
  back_fill c = record c {
    min_customer_messages = positive_or c.min_customer_messages defaults.min_customer_messages;
    timeout_hours = positive_or c.timeout_hours defaults.timeout_hours;
    prompt_message = text_or c.prompt_message defaults.prompt_message;
    thanks_message = text_or c.thanks_message defaults.thanks_message;
  }

  -- `promptText` and `thanksText` of unica/router/internal/survey/handler.go.
  unfoldable pub prompt_text : Option SurveyConfig → Text
  unfolding defaults
  prompt_text none = defaults.prompt_message
  prompt_text (some c) = text_or c.prompt_message defaults.prompt_message

  unfoldable pub thanks_text : Option SurveyConfig → Text
  unfolding defaults
  thanks_text none = defaults.thanks_message
  thanks_text (some c) = text_or c.thanks_message defaults.thanks_message

  module _ {Json : Type 0} (is_blob : Json → Bool)
      (decode : Json → Option (Option SurveyConfig)) where
    unfoldable pub load : Json → SurveyConfig
    unfolding back_fill
    load json =
        if is_blob json
        then elim (decode json) [
          | none ↦ defaults
          | some none ↦ defaults
          | some (some c) ↦ back_fill c
        ]
        else defaults
