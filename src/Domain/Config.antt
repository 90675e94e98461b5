-- ===== src/Domain/Config.antt =====
-- unica/pkg/domain/config.go: the switches of a product line's ontology. `lower` is
-- `unicode.ToLower`; the decoding of JSON is a parameter, as for the guardrail's settings.
use lurus_unica.Common.{ℕ, Bool, false, not, ◌&&◌, ◌||◌, Option, none, some, map, if◌then◌else◌}
use lurus_unica.Common.Floats.{Floats}
use lurus_unica.Common.Text.{Text, codes, trim_space, is_empty, text_eq}
use lurus_unica.Domain.Breaker.{BreakerConfig, default_config, normalise}

abbrev pub ValidationMode : Type 0
ValidationMode = Text

abbrev pub validation_off : ValidationMode
validation_off = codes "off"

abbrev pub validation_shadow : ValidationMode
validation_shadow = codes "shadow"

abbrev pub validation_enforce : ValidationMode
validation_enforce = codes "enforce"

pub record Config (F : Type 0) : Type 0 where
  pub inject_facts : Bool
  pub validation : ValidationMode
  pub breaker : Option (BreakerConfig F)

unfoldable pub parse_validation_mode : (ℕ → ℕ) → Text → Option ValidationMode
unfolding is_empty text_eq
parse_validation_mode lower s =
    let mode = map lower (trim_space s) in
    if is_empty mode
    then some validation_off
    else if text_eq mode validation_off
        || (text_eq mode validation_shadow || text_eq mode validation_enforce)
    then some mode
    else none

module _ {F : Type 0} where
  unfoldable pub active : Option (Config F) → Bool
  unfolding text_eq
  active none = false
  active (some c) = c.inject_facts || not (text_eq c.validation validation_off)

  unfoldable pub enforces : Option (Config F) → Bool
  unfolding text_eq
  enforces none = false
  enforces (some c) = text_eq c.validation validation_enforce

  unfoldable pub validates : Option (Config F) → Bool
  unfolding text_eq is_empty
  validates none = false
  validates (some c) = not (text_eq c.validation validation_off) && not (is_empty c.validation)

  abbrev pub breaker_of : Option (Config F) → Option (BreakerConfig F)
  breaker_of none = none
  breaker_of (some c) = c.breaker

abbrev mode_or_off : Option ValidationMode → ValidationMode
mode_or_off none = validation_off
mode_or_off (some m) = m

module _ (fl : Floats) where
  unfoldable pub inert : Config fl.Float
  inert = record {
    inject_facts = false;
    validation = validation_off;
    breaker = some (default_config fl);
  }

  -- What `LoadConfig` does to a decoded block.
  unfoldable pub adopt : (ℕ → ℕ) → Config fl.Float → Config fl.Float
  unfolding parse_validation_mode
  adopt lower c = record c {
    validation = mode_or_off (parse_validation_mode lower c.validation);
    breaker = some (normalise fl c.breaker);
  }

  module _ {Json : Type 0} (is_blob : Json → Bool)
      (decode : Json → Option (Option (Config fl.Float))) where
    unfoldable pub load : (ℕ → ℕ) → Json → Config fl.Float
    unfolding inert adopt
    load lower json =
        if is_blob json
        then elim (decode json) [ none ↦ inert | some none ↦ inert | some (some c) ↦ adopt lower c ]
        else inert
