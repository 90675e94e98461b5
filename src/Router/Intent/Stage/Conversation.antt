-- ===== src/Router/Intent/Stage/Conversation.antt =====
-- The stage of a conversation over its messages (unica/router/internal/intent/stage.go).
use lurus_unica.Common.{
  ℕ, String, Bool, true, false, ◌||◌, List, [], ◌∷◌, if◌then◌else◌, str_eq, eq_iff, arith, ◌≡◌, ◌⊎◌,
  inl, inr, refl, subst, Option-cases,
}
use lurus_unica.Common.Text.{Text}
use lurus_unica.Common.Search.{any}
use lurus_unica.Router.Intent.Classifier.{first_match, normalised}
use lurus_unica.Router.Intent.Stage.{
  Stage, stage_presales, stage_postsales, stage_unknown, presales_groups, first_group, stage_rules,
  classify_stage, resolve_stage, stage_after,
}

-- The stages that a message can be given.
abbrev IsStage : Stage → Type 0
IsStage s = (s ≡ stage_postsales) ⊎ ((s ≡ stage_presales) ⊎ (s ≡ stage_unknown))

first_group-IsStage :
    (msg : Text) (gs : List (List Text × String)) → IsStage (first_group msg gs).stage
unfolding first_group
first_group-IsStage msg [] = inr (inr refl)
first_group-IsStage msg ((markers, reason) ∷ gs) = elim (Option-cases (first_match msg markers)) [
  | inl n ↦ ground (arith, first_group-IsStage msg gs)
  | inr s ↦ inr (inl (ground arith))
]

classify_stage-IsStage : (lower : ℕ → ℕ) (m : Text) → IsStage (classify_stage lower m).stage
unfolding classify_stage stage_rules
classify_stage-IsStage lower m =
    ground (arith, first_group-IsStage (normalised lower m) presales_groups)

module _ (lower : ℕ → ℕ) where
  abbrev pub says : Stage → Text → Bool
  says s m = str_eq (classify_stage lower m).stage s

  unfoldable pub or_else : List Text → Stage → Stage
  or_else [] s = s
  or_else (m ∷ ms) s = stage_unknown

  or_else-unknown : (ms : List Text) → or_else ms stage_unknown ≡ stage_unknown
  unfolding or_else
  or_else-unknown [] = refl
  or_else-unknown (m ∷ ms) = refl

  stage_by : Bool → Bool → Stage
  stage_by a c = if a then stage_postsales else if c then stage_presales else stage_unknown

  one_more :
      (ms : List Text) (r : Stage) (a b c d x y : Bool)
      → r ≡ (
          if str_eq (stage_by (a || b) (c || d)) stage_postsales || x
          then stage_postsales
          else if str_eq (stage_by (a || b) (c || d)) stage_presales || y
          then stage_presales
          else or_else ms (stage_by (a || b) (c || d)))
      → r ≡ stage_by (a || (b || x)) (c || (d || y))
  unfolding stage_by
  one_more ms r true b c d x y q = q
  one_more ms r false true c d x y q = q
  one_more ms r false false true d x y q = q
  one_more ms r false false false true x y q = q
  one_more ms r false false false false x y q = ground (arith, or_else-unknown ms)

  resolve_stage-stage :
      (prior : Stage) (m : Text)
      → (resolve_stage lower prior m).stage ≡ (
          if str_eq prior stage_postsales || says stage_postsales m
          then stage_postsales
          else if str_eq prior stage_presales || says stage_presales m
          then stage_presales
          else stage_unknown)
  unfolding resolve_stage
  resolve_stage-stage prior m =
      let r = (classify_stage lower m).stage in
      ground (
        arith,
        classify_stage-IsStage lower m,
        eq_iff r stage_postsales,
        eq_iff r stage_presales,
        eq_iff prior stage_postsales,
        eq_iff prior stage_presales,
      )

  -- The stage of a conversation does not depend on the order of its messages: it is postsales if it
  -- was, or if some message says so; otherwise presales if it was, or if some message says so; and
  -- otherwise unknown, or as it was if there is no message.
  pub stage_after_messages :
      (prior : Stage) (ms : List Text)
      → stage_after lower prior ms ≡ (
          if str_eq prior stage_postsales || any (says stage_postsales) ms
          then stage_postsales
          else if str_eq prior stage_presales || any (says stage_presales) ms
          then stage_presales
          else or_else ms prior)
  unfolding stage_after any or_else stage_by
  stage_after_messages prior [] =
      ground (arith, eq_iff prior stage_postsales, eq_iff prior stage_presales)
  stage_after_messages prior (m ∷ ms) =
      one_more ms (stage_after lower (resolve_stage lower prior m).stage ms)
        (str_eq prior stage_postsales) (says stage_postsales m) (str_eq prior stage_presales)
        (says stage_presales m) (any (says stage_postsales) ms) (any (says stage_presales) ms)
        (subst
          (λ s. stage_after lower (resolve_stage lower prior m).stage ms ≡ (
            if str_eq s stage_postsales || any (says stage_postsales) ms
            then stage_postsales
            else if str_eq s stage_presales || any (says stage_presales) ms
            then stage_presales
            else or_else ms s))
          (resolve_stage-stage prior m)
          (stage_after_messages (resolve_stage lower prior m).stage ms))
