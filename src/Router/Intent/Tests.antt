-- ===== src/Router/Intent/Tests.antt =====
-- Messages of customers, and the theorems on their classes and stages.
use lurus_unica.Common.{◌≡◌, refl, List, ◌∷◌, []}
use lurus_unica.Common.Text.{Text, codes, trim_space}
use lurus_unica.Domain.Escalation.{folded}
use lurus_unica.Common.Text.{is_empty, contains}
use lurus_unica.Common.Search.{find, is_some}
use lurus_unica.Router.Intent.Markers.{
  harm_markers, escalation_markers, human_request_markers, personal_markers, question_markers,
  consult_verbs, hypothetical_markers, intent_markers, action_nouns, fault_markers,
  ownership_markers, price_markers,
}
use lurus_unica.Router.Intent.Classifier.{informational, transactional, classify, normalised}
use lurus_unica.Router.Intent.Classifier.Outcome.{upset, requests, class_of, classify-class}
use lurus_unica.Router.Intent.Stage.{stage_unknown, stage_postsales, stage_after, resolve_stage}

abbrev refund : Text
refund = codes " 我要退款 "

abbrev policy : Text
policy = codes "退款政策是什么"

refund_class : (classify folded refund).class ≡ transactional
unfolding classify trim_space is_empty find harm_markers contains folded escalation_markers
    human_request_markers personal_markers is_some question_markers consult_verbs
    hypothetical_markers intent_markers action_nouns
refund_class = refl

policy_class : (classify folded policy).class ≡ informational
unfolding classify trim_space is_empty find harm_markers contains folded escalation_markers
    human_request_markers personal_markers is_some question_markers consult_verbs
    hypothetical_markers intent_markers action_nouns
policy_class = refl

classify-class_example :
    (classify folded refund).class
    ≡ class_of (upset (normalised folded refund)) (requests (normalised folded refund))
classify-class_example = classify-class folded refund

-- A price question, a fault and another price question.
abbrev talk : List Text
talk = codes "这个多少钱" ∷ codes "到货就坏了" ∷ codes "换一个多少钱" ∷ []

talk_stage : stage_after folded stage_unknown talk ≡ stage_postsales
unfolding stage_after resolve_stage trim_space is_empty find fault_markers contains folded
    ownership_markers price_markers
talk_stage = refl
