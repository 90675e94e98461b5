-- ===== src/Router/Routing/Rules.antt =====
-- Rules for the outcome of a message in unica/router/internal/routing/router.go, one case for each way
-- that a message can take.
use lurus_unica.Common.{
  String, Bool, true, false, ◌&&◌, Option, none, some, List, [], ◌∷◌, ◌++◌, ℕ, ◌≡◌, ◌⊎◌, inl, inr,
  if◌then◌else◌, refl, sym, subst, ◌≢◌, map, str_eq,
}
use lurus_unica.Common.Floats.{Floats}
use lurus_unica.Common.Text.{Text, codes, is_empty}
use lurus_unica.Domain.Text.{Categories}
use lurus_unica.Domain.Claims.{Claim}
use lurus_unica.Domain.Violation.{Violation}
use lurus_unica.Router.Confidence.{DifyResponse}
use lurus_unica.Router.Guardrail.Evaluator.{classifies, decides_routing, reason_ai_unavailable}
use lurus_unica.Router.Intent.Classifier.{needs_human, classify}
use lurus_unica.Router.State.Machine.{
  ConversationState, state_pending, state_ai_processing, state_human_processing, state_closed,
}
use lurus_unica.Router.State.Manager.{World, Result, ok, err, transition_state}
use lurus_unica.Router.State.Store.{Conversation, get_conversation}
use lurus_unica.Router.State.Inbound.{handle_inbound_message}
use lurus_unica.Router.Survey.{Desk, Outbound, SurveyError, handle_survey_reply}
use lurus_unica.Router.Survey.Replies.{taken_outbound, is_rating, handle_survey_reply_untouched}
use lurus_unica.Router.Routing.Types.{
  Message, Route, Live, Setup, Replies, Effect, Inputs, Entry, asked, thanked, forwarded, requeued,
}
use lurus_unica.Router.Routing.Publish.{unless}
use lurus_unica.Router.Routing.Context.{AiCallContext, prepare_ai_context}
use lurus_unica.Router.Routing.Answer.{
  handoff_without_answer, judge_and_deliver, intent_reason, react, call_dify, call_dify_and_publish,
}
use lurus_unica.Router.Routing.Process.{
  answer_after, start_ai, desk_of, with_desk, after_reply, reopen, act_later, act, act_on, dispatch,
  handle, routed, then_ack, process_routed, process_payload, process_message,
}

if-rule {ℓ} :
    {A : Type 0} (P : A → Type ℓ) (b : Bool) (x y : A)
    → (b ≡ true → P x)
    → (b ≡ false → P y)
    → P (if b then x else y)
if-rule P true x y f g = f refl
if-rule P false x y f g = g refl

module _ (lower : ℕ → ℕ) (fl : Floats) (u : Categories) {Json Ontology : Type 0}
    (validate : Ontology → List Claim → Text → List Violation) (d : Setup fl.Float Json Ontology)
    (v : Replies fl.Float Json Ontology) (r : Route Json) (m : Message) where
  open fl use {Float}

  abbrev Outcome : Type 0
  Outcome = Live × List (Effect Float)

  module _ {ℓ} (conv : String) (P : Outcome → Type ℓ) (s : Live)
      (unanswered : (reason : String) (detail : Text)
        → P (handoff_without_answer lower fl u validate d v r m conv reason detail s))
      (failed : (reason : String) (detail q c : Text) (i : Inputs)
        → let x = handoff_without_answer lower fl u validate d v r m conv reason detail s in
          P (x.0, asked q c i ∷ x.1))
      (judged : (ac : AiCallContext Float Ontology) (resp : DifyResponse Float) (q c : Text)
          (i : Inputs)
        → let x = judge_and_deliver lower fl u validate d v r m conv ac resp s in
          P (x.0, asked q c i ∷ x.1)) where
    call_rule :
        (ac : AiCallContext Float Ontology) → P (call_dify lower fl u validate d v r m conv ac s)
    unfolding call_dify react
    call_rule ac = react_rule (v.chat m.text ac.user_id ac.dify_conv_id ac.inputs)
      where
        unwritten : Outcome
        unwritten =
            handoff_without_answer lower fl u validate d v r m conv reason_ai_unavailable
              (codes "AI 返回了空回复") s

        react_rule :
            (x : Text ⊎ DifyResponse Float)
            → let y = react lower fl u validate d v r m conv ac s x in
              P (y.0, asked m.text ac.dify_conv_id ac.inputs ∷ y.1)
        react_rule (inl e) =
            failed reason_ai_unavailable (codes "AI 服务调用失败：" ++ e) m.text ac.dify_conv_id ac.inputs
        react_rule (inr resp) =
            if-rule (λ (y : Outcome). P (y.0, asked m.text ac.dify_conv_id ac.inputs ∷ y.1))
              (is_empty resp.answer) unwritten
              (judge_and_deliver lower fl u validate d v r m conv ac resp s)
              (λ _.
                failed reason_ai_unavailable (codes "AI 返回了空回复") m.text ac.dify_conv_id ac.inputs)
              (λ _. judged ac resp m.text ac.dify_conv_id ac.inputs)

    pub answer_rule :
        (is_empty m.text ≡ true → P (s, []))
        → P (call_dify_and_publish lower fl u validate d v r m conv s)
    unfolding call_dify_and_publish
    answer_rule quiet =
        let triage = classify lower m.text in
        let ac = prepare_ai_context lower fl u validate d v r m conv m.text s in
        if-rule P (is_empty m.text) (s, []) _ quiet
          (λ _.
            if-rule P (classifies d.triage && (decides_routing d.triage && needs_human triage))
              (handoff_without_answer lower fl u validate d v r m conv (intent_reason triage.class)
                triage.matched s)
              (call_dify lower fl u validate d v r m conv ac s)
              (λ _. unanswered (intent_reason triage.class) triage.matched) (λ _. call_rule ac))

  module _ {ℓ} (P : Outcome → Type ℓ) (ended : (s : Live) → P (s, []))
      (sent_on : (s : Live) → P (s, unless v.forward_fails forwarded))
      (thanking : (s : Live) (o : Outbound) → P (s, thanked o ∷ []))
      (answering : (conv : String) (s : Live)
        → P (call_dify_and_publish lower fl u validate d v r m conv s)) where
    start_rule : (conv : String) (s : Live) → P (start_ai lower fl u validate d v r m conv s)
    unfolding start_ai answer_after
    start_rule conv s = after (transition_state d.manager v.ai_env conv state_ai_processing s.world)
      where
        after :
            (x : World × Result (Unit {0})) → P (answer_after lower fl u validate d v r m conv s x)
        after (w, err e) = ended _
        after (w, ok t) = answering _ _

    untaken_rule :
        (conv : String) (s : Live) (k : Desk) (x : SurveyError ⊎ Bool)
        → x ≢ inr true
        → k ≡ desk_of lower fl u validate d s
        → P (after_reply lower fl u validate d v r m conv s (k, x))
    unfolding after_reply
    untaken_rule conv s k x n e =
        subst (λ k. P (after_reply lower fl u validate d v r m conv s (k, x))) (sym e) (refused x n)
      where
        refused :
            (x : SurveyError ⊎ Bool)
            → x ≢ inr true
            → P (
                after_reply lower fl u validate d v r m conv s (desk_of lower fl u validate d s, x))
        refused (inl y) n = start_rule conv s
        refused (inr false) n = start_rule conv s
        refused (inr true) n = absurd (n refl)

    taken_rule :
        (conv : String) (s : Live) (k : Desk) (x : SurveyError ⊎ Bool)
        → x ≡ inr true
        → (k.outbound ≡ []) ⊎ ((o : Outbound) × (k.outbound ≡ o ∷ []))
        → P (after_reply lower fl u validate d v r m conv s (k, x))
    unfolding after_reply
    taken_rule conv s k x t o =
        subst (λ x. P (after_reply lower fl u validate d v r m conv s (k, x))) (sym t) (sent o)
      where
        sent :
            (k.outbound ≡ []) ⊎ ((o : Outbound) × (k.outbound ≡ o ∷ []))
            → P (after_reply lower fl u validate d v r m conv s (k, inr true))
        sent (inl e) =
            subst (λ os. P (with_desk lower fl u validate d k s, map thanked os)) (sym e) (ended _)
        sent (inr (o, e)) =
            subst (λ os. P (with_desk lower fl u validate d k s, map thanked os)) (sym e)
              (thanking _ o)

    reopen_rule : (conv : String) (s : Live) → P (reopen lower fl u validate d v r m conv s)
    unfolding reopen
    reopen_rule conv s =
        let k = desk_of lower fl u validate d s in
        let x =
          handle_survey_reply u d.is_blob d.decode_survey v.survey_json v.survey_calls conv m.text
            k in
        if-rule P d.has_survey (after_reply lower fl u validate d v r m conv s x)
          (start_ai lower fl u validate d v r m conv s)
          (λ _. elim (is_rating x.1) [
            | inl t ↦ taken_rule conv s x.0 x.1 t (
                taken_outbound u d.is_blob d.decode_survey v.survey_json v.survey_calls conv m.text
                  k refl t)
            | inr n ↦ untaken_rule conv s x.0 x.1 n (
                handle_survey_reply_untouched u d.is_blob d.decode_survey v.survey_json
                  v.survey_calls conv m.text k n)
          ])
          (λ _. start_rule conv s)

    act_later_rule :
        (conv : String) (state : ConversationState) (s : Live)
        → P (act_later lower fl u validate d v r m conv state s)
    unfolding act_later
    act_later_rule conv state s =
        let reopened = reopen lower fl u validate d v r m conv s in
        if-rule P (str_eq state state_human_processing) (s, unless v.forward_fails forwarded)
          (if str_eq state state_closed then reopened else (s, [])) (λ _. sent_on s)
          (λ _.
            if-rule P (str_eq state state_closed) reopened (s, []) (λ _. reopen_rule conv s)
              (λ _. ended s))

    act_rule :
        (conv : String) (state : ConversationState) (s : Live)
        → P (act lower fl u validate d v r m conv state s)
    unfolding act
    act_rule conv state s =
        if-rule P (str_eq state state_pending) (start_ai lower fl u validate d v r m conv s)
          (if str_eq state state_ai_processing
            then call_dify_and_publish lower fl u validate d v r m conv s
            else act_later lower fl u validate d v r m conv state s)
          (λ _. start_rule conv s)
          (λ _.
            if-rule P (str_eq state state_ai_processing)
              (call_dify_and_publish lower fl u validate d v r m conv s)
              (act_later lower fl u validate d v r m conv state s) (λ _. answering conv s)
              (λ _. act_later_rule conv state s))

    act_on_rule :
        (conv : String) (s : Live) (o : Option Conversation)
        → P (act_on lower fl u validate d v r m conv s o)
    unfolding act_on
    act_on_rule conv s none = ended s
    act_on_rule conv s (some c) = act_rule conv c.state s

    dispatch_rule :
        (s : Live) (x : World × Result (String × Bool))
        → P (dispatch lower fl u validate d v r m s x)
    unfolding dispatch
    dispatch_rule s (w, err e) = ended _
    dispatch_rule s (w, ok (conv, true)) = ended _
    dispatch_rule s (w, ok (conv, false)) =
        if-rule P v.load_fails (record s { world = w }, [])
          (act_on lower fl u validate d v r m conv (record s { world = w })
            (get_conversation conv w.conversations))
          (λ _. ended _)
          (λ _. act_on_rule conv (record s { world = w }) (get_conversation conv w.conversations))

    -- Under the lock: the message ends there, is forwarded, is a rating that is thanked for, or is answered.
    pub handle_rule : (s : Live) → P (handle lower fl u validate d v r m s)
    unfolding handle
    handle_rule s =
        dispatch_rule s (handle_inbound_message d.manager v.handle_env (some m.inbound) s.world)

module _ (lower : ℕ → ℕ) (fl : Floats) (u : Categories) {Json Ontology : Type 0}
    (validate : Ontology → List Claim → Text → List Violation) (d : Setup fl.Float Json Ontology)
    (v : Replies fl.Float Json Ontology) (e : Entry) (s : Live) where
  open fl use {Float}

  module _ {ℓ} (P : Live × List (Effect Float) → Type ℓ)
      (dropped : P (then_ack lower fl u validate d v e (s, [])))
      (put_back : v.locked ≡ false
        → v.requeue_fails ≡ false
        → P (then_ack lower fl u validate d v e (s, requeued e ∷ [])))
      (left : v.locked ≡ false → v.requeue_fails ≡ true → P (s, []))
      (handled : (r : Route Json) (m : Message)
        → e.payload ≡ some (some m)
        → P (
            then_ack lower fl u validate d v e
              (handle lower fl u validate d v r (routed lower fl u validate d r m) s))) where
    routed_rule :
        (m : Message) (o : Option (Route Json))
        → e.payload ≡ some (some m)
        → P (process_routed lower fl u validate d v e m s o)
    unfolding process_routed
    routed_rule m none p = dropped
    routed_rule m (some r) p =
        if-rule P v.locked
          (then_ack lower fl u validate d v e
            (handle lower fl u validate d v r (routed lower fl u validate d r m) s))
          (if v.requeue_fails
            then (s, [])
            else then_ack lower fl u validate d v e (s, requeued e ∷ []))
          (λ _. handled r m p)
          (λ f.
            if-rule P v.requeue_fails (s, [])
              (then_ack lower fl u validate d v e (s, requeued e ∷ [])) (left f) (put_back f))

    payload_rule :
        (o : Option (Option Message))
        → e.payload ≡ o
        → P (process_payload lower fl u validate d v e s o)
    unfolding process_payload
    payload_rule none p = dropped
    payload_rule (some none) p = dropped
    payload_rule (some (some m)) p = routed_rule m (v.route m.inbound.channel_id) p

    -- An entry is dropped, put back, left pending, or handled.
    pub process_rule : P (process_message lower fl u validate d v e s)
    unfolding process_message
    process_rule = payload_rule e.payload refl
