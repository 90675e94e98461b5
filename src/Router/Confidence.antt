-- ===== src/Router/Confidence.antt =====
-- unica/router/internal/routing: confidence.go and grounding.go, the score of an answer.
use lurus_unica.Common.{ℕ, Bool, ◌&&◌, List, [], ◌∷◌, length, ◌==◌, ltb, if◌then◌else◌}
use lurus_unica.Common.Floats.{Floats}
use lurus_unica.Common.Text.{Text}

pub record RetrieverResource (F : Type 0) : Type 0 where
  pub dataset_name : Text
  pub score : F

pub record DifyResponse (F : Type 0) : Type 0 where
  pub answer : Text
  pub conversation_id : Text
  pub retriever_resources : List (RetrieverResource F)

pub record GroundingEvidence : Type 0 where
  pub facts_injected : Bool
  pub experience_injected : Bool
  pub checked : Bool
  pub claims : ℕ
  pub violations : ℕ

module _ (fl : Floats) where
  open fl use {Float, of_int, decimal, add, div, lt}

  abbrev pub default_no_match_confidence : Float
  default_no_match_confidence = decimal 3 1

  abbrev pub confidence_verified : Float
  confidence_verified = decimal 90 2

  abbrev pub confidence_grounded : Float
  confidence_grounded = decimal 75 2

  abbrev pub confidence_experience : Float
  confidence_experience = decimal 72 2

  abbrev pub confidence_contradicted : Float
  confidence_contradicted = of_int 0

  unfoldable pub total_from : Float → List (RetrieverResource Float) → Float
  total_from total [] = total
  total_from total (r ∷ rs) = total_from (add total r.score) rs

  unfoldable pub calculate_confidence : DifyResponse Float → Float
  unfolding total_from
  calculate_confidence resp =
      if length resp.retriever_resources == 0
      then default_no_match_confidence
      else let avg =
          div (total_from (of_int 0) resp.retriever_resources)
            (of_int (length resp.retriever_resources)) in
        if lt (of_int 1) avg then of_int 1 else avg

  -- `if retrieval > grounded`.
  unfoldable pub higher : Float → Float → Float
  higher retrieval grounded = if lt grounded retrieval then retrieval else grounded

  unfoldable pub grounded_confidence : DifyResponse Float → GroundingEvidence → Float
  unfolding higher
  grounded_confidence resp ev =
      let retrieval = calculate_confidence resp in
      if ev.facts_injected && (ev.checked && (ltb 0 ev.claims && ev.violations == 0))
      then higher retrieval confidence_verified
      else if ev.facts_injected
      then higher retrieval confidence_grounded
      else if ev.experience_injected
      then higher retrieval confidence_experience
      else retrieval
