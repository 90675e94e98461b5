-- ===== src/Router/Intent/Stage.antt =====
-- unica/router/internal/intent/stage.go: the commercial phase of a message and of a conversation. A
-- stage is a string, as in the source: the earlier one comes from the store.
pub mod Conversation
use lurus_unica.Common.{
  ℕ, String, Bool, Option, none, some, List, [], ◌∷◌, ◌++◌, if◌then◌else◌, str_eq,
}
use lurus_unica.Common.Text.{Text, is_empty}
use lurus_unica.Router.Intent.Markers.{
  fault_markers, ownership_markers, aftersales_actions, price_markers, comparison_markers,
  fit_markers, availability_markers,
}
use lurus_unica.Router.Intent.Classifier.{first_match, joined, normalised}

abbrev pub Stage : Type 0
Stage = String

abbrev pub stage_presales : Stage
stage_presales = "presales"

abbrev pub stage_postsales : Stage
stage_postsales = "postsales"

abbrev pub stage_unknown : Stage
stage_unknown = "unknown"

pub record StageResult : Type 0 where
  pub stage : Stage
  pub reason : String
  pub matched : Text

abbrev pub no_match : StageResult
no_match = record { stage = stage_unknown; reason = "no_match"; matched = [] }

abbrev pub inherited : Stage → StageResult
inherited s = record { stage = s; reason = "inherited"; matched = [] }

abbrev pub presales_groups : List (List Text × String)
presales_groups =
    (price_markers, "price_inquiry")
    ∷ (comparison_markers, "comparison")
    ∷ (fit_markers, "fit_check")
    ∷ (availability_markers, "availability")
    ∷ []

-- The loop over the groups.
unfoldable pub first_group : Text → List (List Text × String) → StageResult
unfolding first_match
first_group msg [] = no_match
first_group msg ((markers, reason) ∷ groups) =
    let rest = first_group msg groups in
    elim (first_match msg markers) [
      | some m ↦ record { stage = stage_presales; reason = reason; matched = m }
      | none ↦ rest
    ]

-- The rules, for a message that is not blank.
unfoldable pub stage_rules : Text → StageResult
unfolding first_group
stage_rules msg = elim (first_match msg fault_markers) [
  | some m ↦ record { stage = stage_postsales; reason = "fault_marker"; matched = m }
  | none ↦ elim (first_match msg ownership_markers) [
    | some o ↦ elim (first_match msg aftersales_actions) [
      | some a ↦ record { stage = stage_postsales; reason = "owned_action"; matched = joined o a }
      | none ↦ first_group msg presales_groups
    ]
    | none ↦ first_group msg presales_groups
  ]
]

module _ (lower : ℕ → ℕ) where
  unfoldable pub classify_stage : Text → StageResult
  unfolding stage_rules normalised
  classify_stage message =
      let msg = normalised lower message in if is_empty msg then no_match else stage_rules msg

  unfoldable pub resolve_stage : Stage → Text → StageResult
  unfolding classify_stage
  resolve_stage prior message =
      let r = classify_stage message in
      if str_eq r.stage stage_postsales
      then r
      else if str_eq prior stage_postsales
      then inherited stage_postsales
      else if str_eq r.stage stage_presales
      then r
      else if str_eq prior stage_presales
      then inherited stage_presales
      else r

  -- The stage of a conversation after its messages.
  unfoldable pub stage_after : Stage → List Text → Stage
  stage_after prior [] = prior
  stage_after prior (m ∷ ms) = stage_after (resolve_stage prior m).stage ms
