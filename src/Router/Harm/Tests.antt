-- ===== src/Router/Harm/Tests.antt =====
-- A report of harm, and the theorems on it.
use lurus_unica.Common.{ℕ, ◌≡◌, refl, true, none, arith}
use lurus_unica.Common.Floats.{fixed}
use lurus_unica.Common.Text.{Text, codes, is_space, trim_space, is_empty, contains}
use lurus_unica.Common.Search.{find}
use lurus_unica.Router.Intent.Markers.{harm_markers}
use lurus_unica.Domain.Escalation.{folded}
use lurus_unica.Router.Intent.Classifier.{classify}
use lurus_unica.Router.Guardrail.Evaluator.{triage_on, evaluate_with_mode, escalates}
use lurus_unica.Router.Harm.{harm_escalates}

abbrev report : Text
report = codes " 孩子吃了你们的车厘子上吐下泻 "

folded_space : (c : ℕ) → is_space (folded c) ≡ is_space c
unfolding is_space folded
folded_space c = ground arith

harm_escalates_example :
    escalates (evaluate_with_mode folded fixed report 990 none triage_on).decision ≡ true
unfolding classify trim_space is_empty find harm_markers contains folded
harm_escalates_example = harm_escalates folded folded_space fixed report 990 none triage_on refl
