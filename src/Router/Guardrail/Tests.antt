-- ===== src/Router/Guardrail/Tests.antt =====
-- Answers under the guardrail, and the theorems on them at concrete inputs.
use lurus_unica.Common.{
  ℕ, Bool, true, false, not, ◌&&◌, ◌||◌, ◌≡◌, ◌↔◌, refl, Option, none, some, ◌∷◌, [], ◌==◌,
  if◌then◌else◌,
}
use lurus_unica.Common.Floats.{fixed}
use lurus_unica.Common.Text.{Text, codes}
use lurus_unica.Common.Text.{is_empty, contains}
use lurus_unica.Domain.Text.{Categories, is_blank_answer}
use lurus_unica.Domain.Escalation.{folded}
use lurus_unica.Router.Guardrail.Settings.{Config, Block, defaults, is_zero, back_fill, load}
use lurus_unica.Router.Guardrail.Settings.Loading.{IsUsable, block_of, load-block_of}
use lurus_unica.Router.Guardrail.Evaluator.{
  delivers, escalates, is_quality_signal, first_configured, harm_topics, funds_at_risk_topics,
  triage_shadow, triage_on, decides_routing, evaluate, evaluate_with_mode,
}
use lurus_unica.Router.Guardrail.Evaluator.Outcome.{
  outcome, blocked, reports, keyword, unsure, evaluate_outcome,
}

abbrev tables : Categories
tables = record {
  cc = λ _. false;
  cf = λ c. c == 0x200B;
  mn = λ _. false;
  me = λ _. false;
  is_punct = λ c. c == 0x3002;
  sk = λ _. false;
  sm = λ _. false;
}

-- The message, in thousandths the confidence, and the settings of a shop.
abbrev complaint : Text
complaint = codes "我要投诉"

abbrev shop : Config ℕ
shop = record {
  confidence_threshold = 600;
  handoff_keywords = codes "投诉" ∷ [];
  blocked_topics = codes "Bomb" ∷ [];
  holding_message = codes "请稍候";
}

complaint_off :
    outcome folded fixed (evaluate folded fixed complaint 800 (some shop)) ≡ (false, (true, false))
unfolding outcome evaluate delivers escalates is_quality_signal first_configured is_empty contains
    folded harm_topics funds_at_risk_topics decides_routing
complaint_off = refl

complaint_on :
    outcome folded fixed (evaluate_with_mode folded fixed complaint 800 (some shop) triage_on)
    ≡ (true, (false, false))
unfolding outcome evaluate_with_mode delivers escalates is_quality_signal first_configured is_empty
    contains folded harm_topics funds_at_risk_topics decides_routing
complaint_on = refl

evaluate_outcome_example :
    outcome folded fixed (evaluate_with_mode folded fixed complaint 800 (some shop) triage_shadow)
    ≡ (
      not (blocked folded fixed complaint shop)
          && (reports folded fixed complaint
              || (not (keyword folded fixed complaint shop triage_shadow)
                  && not (unsure folded fixed 800 shop))),
      (
        blocked folded fixed complaint shop
            || (reports folded fixed complaint
                || (keyword folded fixed complaint shop triage_shadow
                    || unsure folded fixed 800 shop)),
        not (
              blocked folded fixed complaint shop
              || (reports folded fixed complaint
                  || keyword folded fixed complaint shop triage_shadow))
            && unsure folded fixed 800 shop,
      ),
    )
evaluate_outcome_example = evaluate_outcome folded fixed complaint 800 (some shop) triage_shadow

-- A store of three blocks of settings: one without a threshold, and what it loads as.
abbrev partial : Block ℕ
partial = record {
  confidence_threshold = 0;
  handoff_keywords = codes "退款" ∷ [];
  blocked_topics = none;
  holding_message = codes " 。";
}

abbrev stored : ℕ → Option (Option (Block ℕ))
stored n =
    if n == 1
    then some (some partial)
    else if n == 2
    then some (some (block_of fixed tables (back_fill fixed tables partial)))
    else none

abbrev is_blob : ℕ → Bool
is_blob n = not (n == 0)

load-block_of_example :
    (load fixed tables is_blob stored 2 ≡ back_fill fixed tables partial)
    ↔ IsUsable fixed tables (back_fill fixed tables partial)
unfolding defaults is_zero is_blank_answer
load-block_of_example =
    load-block_of fixed tables is_blob stored refl refl 2 (back_fill fixed tables partial) refl refl
