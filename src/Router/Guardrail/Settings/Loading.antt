-- ===== src/Router/Guardrail/Settings/Loading.antt =====
-- The settings that `Load` of unica/pkg/guardrail/config.go yields.
use lurus_unica.Common.{
  Bool, true, false, Option, some, List, [], ◌∷◌, if◌then◌else◌, arith, ◌≡◌, ◌≢◌, ◌↔◌, refl, subst,
  ◌∙◌, inl, inr, Bool-cases, Option-cases,
}
use lurus_unica.Common.Floats.{Floats}
use lurus_unica.Common.Text.{Text}
use lurus_unica.Domain.Text.{Categories, is_blank_answer}
use lurus_unica.Router.Guardrail.Settings.{
  Config, Block, defaults, is_zero, list_or, topics, back_fill, load,
}

module _ (fl : Floats) (u : Categories) where
  -- The threshold is set, there is a keyword, and the holding message is not blank.
  unfoldable pub IsUsable : Config fl.Float → Type 0
  IsUsable c =
      (is_zero fl c.confidence_threshold ≡ false)
      × ((c.handoff_keywords ≢ []) × (is_blank_answer u c.holding_message ≡ false))

  -- A block whose fields are those of settings.
  unfoldable pub block_of : Config fl.Float → Block fl.Float
  block_of c = record {
    confidence_threshold = c.confidence_threshold;
    handoff_keywords = c.handoff_keywords;
    blocked_topics = some c.blocked_topics;
    holding_message = c.holding_message;
  }

  list_or-filled : (ks d : List Text) → d ≢ [] → list_or ks d ≢ []
  unfolding list_or
  list_or-filled [] d h = h
  list_or-filled (k ∷ ks) d h = λ p. ground arith

  list_or_self : (ks d : List Text) → ks ≢ [] → list_or ks d ≡ ks
  unfolding list_or
  list_or_self [] d h = ground arith
  list_or_self (k ∷ ks) d h = refl

  loaded :
      {Json : Type 0} (is_blob : Json → Bool) (decode : Json → Option (Option (Block fl.Float)))
      (json : Json) (b : Block fl.Float)
      → is_blob json ≡ true
      → decode json ≡ some (some b)
      → load fl u is_blob decode json ≡ back_fill fl u b
  unfolding load
  loaded is_blob decode json b p q = ground arith

  -- A field that fails its test is replaced by one that passes.
  replaced :
      {A : Type 0} (unusable : A → Bool) (x d : A) (b : Bool)
      → unusable x ≡ b
      → unusable d ≡ false
      → unusable (if b then d else x) ≡ false
  replaced unusable x d true p q = q
  replaced unusable x d false p q = p

  kept : {A : Type 0} (x d : A) (b : Bool) → b ≡ false → (if b then d else x) ≡ x
  kept x d true p = ground arith
  kept x d false p = refl

  defaults_keywords : (defaults fl).handoff_keywords ≢ []
  unfolding defaults
  defaults_keywords = λ p. ground arith

  module _ {Json : Type 0} (is_blob : Json → Bool)
      (decode : Json → Option (Option (Block fl.Float)))
      (threshold : is_zero fl (defaults fl).confidence_threshold ≡ false)
      (holding_shows : is_blank_answer u (defaults fl).holding_message ≡ false) where
    defaults-IsUsable : IsUsable (defaults fl)
    unfolding IsUsable
    defaults-IsUsable = (threshold, (defaults_keywords, holding_shows))

    back_fill-IsUsable : (b : Block fl.Float) → IsUsable (back_fill fl u b)
    unfolding IsUsable back_fill
    back_fill-IsUsable b = (
      replaced (is_zero fl) b.confidence_threshold (defaults fl).confidence_threshold
          (is_zero fl b.confidence_threshold) refl threshold,
      (
        list_or-filled b.handoff_keywords (defaults fl).handoff_keywords defaults_keywords,
        replaced (is_blank_answer u) b.holding_message (defaults fl).holding_message
            (is_blank_answer u b.holding_message) refl holding_shows,
      ),
    )

    -- Whatever the stored text decodes to, the loaded settings have a threshold that is not 0, a keyword
    -- and a holding message that is not blank, if the default threshold and message are so.
    pub load-IsUsable : (json : Json) → IsUsable (load fl u is_blob decode json)
    unfolding load
    load-IsUsable json = elim (Bool-cases (is_blob json)) [
      | inl t ↦ elim (Option-cases (decode json)) [
        | inl n ↦ subst IsUsable (ground arith) defaults-IsUsable
        | inr (o, s) ↦ elim (Option-cases o) [
          | inl n ↦ subst IsUsable (ground arith) defaults-IsUsable
          | inr (b, q) ↦ subst IsUsable (ground arith) (back_fill-IsUsable b)
        ]
      ]
      | inr f ↦ subst IsUsable (ground arith) defaults-IsUsable
    ]

    back_fill-block_of : (c : Config fl.Float) → IsUsable c → back_fill fl u (block_of c) ≡ c
    unfolding IsUsable back_fill block_of topics
    back_fill-block_of c (z, (k, h)) i = record {
      confidence_threshold =
          kept c.confidence_threshold (defaults fl).confidence_threshold
            (is_zero fl c.confidence_threshold) z i;
      handoff_keywords = list_or_self c.handoff_keywords (defaults fl).handoff_keywords k i;
      blocked_topics = c.blocked_topics;
      holding_message =
          kept c.holding_message (defaults fl).holding_message (is_blank_answer u c.holding_message)
            h i;
    }

    -- A stored block whose fields are those of some settings loads as just those settings exactly if the
    -- settings are usable: the threshold is not 0, there is a keyword, and the holding message is not
    -- blank. (The default threshold is not 0, and the default message is not blank.)
    pub load-block_of :
        (json : Json) (c : Config fl.Float)
        → is_blob json ≡ true
        → decode json ≡ some (some (block_of c))
        → (load fl u is_blob decode json ≡ c) ↔ IsUsable c
    load-block_of json c p q = (
      λ e. subst IsUsable e (load-IsUsable json),
      λ h. loaded is_blob decode json (block_of c) p q ∙ back_fill-block_of c h,
    )
