-- ===== src/Router/Judge/Tests.antt =====
-- Answers judged by unica/router/internal/routing/judge.go with the ontology of a shop, and the
-- theorems at concrete inputs.
use lurus_unica.Common.{
  ℕ, String, true, false, not, ◌&&◌, ◌||◌, none, some, List, [], ◌≡◌, refl, pos,
}
use lurus_unica.Common.Floats.{fixed}
use lurus_unica.Common.Tags.{find_all, erase_all, collapse}
use lurus_unica.Common.Text.{Text, codes, trim_space}
use lurus_unica.Domain.Text.{Categories, is_blank_answer}
use lurus_unica.Domain.Breaker.{Breaker, BreakerLine, normalise}
use lurus_unica.Domain.Escalation.{folded}
use lurus_unica.Domain.Claims.{Claim, fact_at, fact_tag_at}
use lurus_unica.Domain.Violation.{Violation}
use lurus_unica.Domain.Config.{enforces, breaker_of}
use lurus_unica.Domain.Ontology.Types.{Ontology}
use lurus_unica.Domain.Ontology.Facts.{match_scope}
use lurus_unica.Domain.Ontology.Samples.{shop, parse_thousandths, wording}
use lurus_unica.Domain.Validator.{validate}
use lurus_unica.Router.Marketing.{intent_tag_at}
use lurus_unica.Router.Confidence.{calculate_confidence}
use lurus_unica.Router.Guardrail.Evaluator.{triage_shadow, delivers, escalates}
use lurus_unica.Router.Judge.{
  JudgeInput, is_checked, without_facts, escalation_of, violations_of, confidence_of, judge_answer,
}
use lurus_unica.Router.Judge.Delivery.{evaluated, judge_answer_outcome}
use lurus_unica.Router.Judge.Shadow.{unchecked, IsViolating, judge_answer_shadow}
use lurus_unica.Router.Judge.Bounded.{judge_answer_within_cooldown}

abbrev tables : Categories
tables = record {
  cc = λ _. false;
  cf = λ _. false;
  mn = λ _. false;
  me = λ _. false;
  is_punct = λ _. false;
  sk = λ _. false;
  sm = λ _. false;
}

abbrev check : Ontology ℕ → List Claim → Text → List Violation
check o = validate fixed folded parse_thousandths wording o

abbrev input : String → Text → JudgeInput (Ontology ℕ) ℕ
input mode answer = record {
  query = codes "手机几天可以退？";
  resp = record { answer = answer; conversation_id = []; retriever_resources = [] };
  ontology = some shop;
  ontology_cfg = some (record { inject_facts = true; validation = codes mode; breaker = none });
  guardrail_cfg = some (record {
    confidence_threshold = 800;
    handoff_keywords = [];
    blocked_topics = [];
    holding_message = codes "请稍候";
  });
  triage_mode = triage_shadow;
  facts_injected = true;
  experience_injected = false;
  product_line_id = "p1";
}

abbrev wrong : Text
wrong = codes "15天[FACT:手机.days=15]"

abbrev right : Text
right = codes "7天[FACT:手机.days=7]"

judge_answer_outcome_example :
    let j =
      (judge_answer folded fixed tables check (input "enforce" wrong) none (pos 0) (pos 0)).1 in
    (delivers j.result.decision ≡ (
      not (is_blank_answer tables j.answer)
      && (not j.enforced
          && delivers (evaluated folded fixed tables check (input "enforce" wrong)).decision)))
    × (escalates j.result.decision ≡ (
        is_blank_answer tables j.answer
        || (j.enforced
            || (j.escalated
                || escalates
                    (evaluated folded fixed tables check (input "enforce" wrong)).decision))))
judge_answer_outcome_example =
    judge_answer_outcome folded fixed tables check (input "enforce" wrong) none (pos 0) (pos 0)

wrong-IsViolating : IsViolating folded fixed tables check (input "shadow" wrong)
unfolding violations_of validate match_scope folded trim_space parse_thousandths fact_at fact_tag_at
    find_all erase_all collapse intent_tag_at without_facts escalation_of
wrong-IsViolating = refl

shadow_enforces : enforces (input "shadow" wrong).ontology_cfg ≡ false
unfolding enforces
shadow_enforces = refl

-- A right answer in shadow mode scores higher than with validation off.
shadow_confidence : confidence_of folded fixed tables check (input "shadow" right) ≡ 900
unfolding confidence_of violations_of validate match_scope folded trim_space parse_thousandths
    fact_at fact_tag_at find_all erase_all collapse intent_tag_at is_checked without_facts
    escalation_of calculate_confidence
shadow_confidence = refl

off_confidence : confidence_of folded fixed tables check (input "off" right) ≡ 750
unfolding confidence_of violations_of validate match_scope folded trim_space parse_thousandths
    fact_at fact_tag_at find_all erase_all collapse intent_tag_at is_checked calculate_confidence
off_confidence = refl

judge_answer_shadow_example :
    let i = input "shadow" wrong in
    let j = (judge_answer folded fixed tables check i none (pos 0) (pos 0)).1 in
    let k =
      (judge_answer folded fixed tables check
        (unchecked folded fixed tables check i)
        none
        (pos 0)
        (pos 0)).1 in
    (j.answer ≡ k.answer)
    × (j.confidence ≡ k.confidence)
    × (j.result ≡ k.result)
    × (j.enforced ≡ false)
judge_answer_shadow_example =
    judge_answer_shadow folded fixed tables check (input "shadow" wrong) none (pos 0) (pos 0)
      shadow_enforces wrong-IsViolating

-- A line that is open until 1000.
abbrev open_line : BreakerLine
open_line = record {
  outcomes = [];
  next = 0;
  filled = 0;
  suppressed = 0;
  open_until = pos 1000;
  trips = pos 1;
}

abbrev opened : Breaker
opened = record { lines = λ _. some open_line }

not_disabled : (normalise fixed (breaker_of (input "enforce" wrong).ontology_cfg)).disabled ≡ false
unfolding normalise
not_disabled = refl

judge_answer_within_cooldown_example :
    let i = input "enforce" wrong in
    let j = (judge_answer folded fixed tables check i (some opened) (pos 5) (pos 5)).1 in
    (j.enforced ≡ false)
    × (j.breaker_tripped ≡ false)
    × (delivers j.result.decision ≡ (
        not (is_blank_answer tables j.answer)
        && delivers (evaluated folded fixed tables check i).decision))
judge_answer_within_cooldown_example =
    judge_answer_within_cooldown folded fixed tables check (input "enforce" wrong) opened open_line
      (pos 5) (pos 5) refl not_disabled refl
