-- ===== src/Domain/Violation.antt =====
-- The violations of unica/pkg/domain/validator.go, and their summary.
use lurus_unica.Common.{List, [], ◌∷◌, ◌++◌}
use lurus_unica.Common.Text.{Text, codes}

pub data ViolationKind : Type 0 where
  undeclared unknown_scope domain_mismatch range : ViolationKind
  contradicts functional_conflict ambiguous incomplete denied : ViolationKind

-- The string of a kind.
unfoldable pub kind_text : ViolationKind → Text
kind_text k = elim k [
  | undeclared ↦ codes "undeclared_property"
  | unknown_scope ↦ codes "unknown_scope"
  | domain_mismatch ↦ codes "domain_mismatch"
  | range ↦ codes "range"
  | contradicts ↦ codes "contradicts_assertion"
  | functional_conflict ↦ codes "functional_conflict"
  | ambiguous ↦ codes "ambiguous_scope"
  | incomplete ↦ codes "missing_companion"
  | denied ↦ codes "denied_capability"
]

pub record Violation : Type 0 where
  pub kind : ViolationKind
  pub property : Text
  pub scope : Text
  pub got : Text
  pub want : Text
  pub message : Text
  pub evidence : Text

-- `strings.Join`.
unfoldable pub join : Text → List Text → Text
join sep [] = []
join sep (x ∷ []) = x
join sep (x ∷ y ∷ ys) = x ++ sep ++ join sep (y ∷ ys)

-- `fmt.Sprintf("[%s] %s", v.Kind, v.Message)`.
unfoldable pub summary_parts : List Violation → List Text
unfolding kind_text
summary_parts [] = []
summary_parts (v ∷ vs) =
    (codes "[" ++ kind_text v.kind ++ codes "] " ++ v.message) ∷ summary_parts vs

unfoldable pub summary : List Violation → Text
unfolding summary_parts join
summary vs = join (codes "；") (summary_parts vs)
