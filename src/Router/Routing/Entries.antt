-- ===== src/Router/Routing/Entries.antt =====
-- What becomes of an entry of the inbound stream: `processMessage` of
-- unica/router/internal/routing/router.go.
use lurus_unica.Common.{
  ℕ, String, Bool, true, false, some, List, [], ◌∷◌, ◌++◌, count, count-append, arith, ◌≡◌, ◌≢◌,
  ◌≤◌, refl, ap, ◌∙◌, ◌⊎◌, inl, inr, if◌then◌else◌,
}
use lurus_unica.Common.Floats.{Floats}
use lurus_unica.Common.Text.{Text}
use lurus_unica.Domain.Text.{Categories}
use lurus_unica.Domain.Claims.{Claim}
use lurus_unica.Domain.Violation.{Violation}
use lurus_unica.Router.State.Manager.{World, Result, ok, err}
use lurus_unica.Router.State.Inbound.{handle_inbound_message}
use lurus_unica.Router.State.Inbound.Redelivery.{IsStored, handle_stored}
use lurus_unica.Router.Routing.Types.{Message, Entry, Route, Live, Setup, Replies, Effect, requeued}
use lurus_unica.Router.Routing.Publish.{unless}
use lurus_unica.Router.Routing.Process.{
  ack, then_ack, routed, dispatch, handle, process_routed, process_payload, process_message,
}
use lurus_unica.Router.Routing.Rules.{handle_rule, process_rule}
use lurus_unica.Router.Routing.Service.{
  to_customer, is_handoff, is_question, is_ack, Modest, call_dify_and_publish-Modest,
}

module _ (lower : ℕ → ℕ) (fl : Floats) (u : Categories) {Json Ontology : Type 0}
    (validate : Ontology → List Claim → Text → List Violation) (d : Setup fl.Float Json Ontology)
    (v : Replies fl.Float Json Ontology) where
  open fl use {Float}

  -- Acknowledged once, and at most one message, event and call of the model.
  abbrev pub Once : Live × List (Effect Float) → Type 0
  Once x =
      (count is_ack x.1 ≡ 1)
      × (count to_customer x.1 ≤ 1)
      × (count is_handoff x.1 ≤ 1)
      × (count is_question x.1 ≤ 1)

  handle-Modest :
      (r : Route Json) (m : Message) (s : Live) → Modest (handle lower fl u validate d v r m s)
  unfolding to_customer is_handoff is_question is_ack unless
  handle-Modest r m s =
      handle_rule lower fl u validate d v r m Modest (λ _. ground arith) (λ _. ground arith)
        (λ _ _. ground arith)
        (λ conv s. call_dify_and_publish-Modest lower fl u validate d v r m conv s) s

  -- An entry is acknowledged exactly once, and leads to at most one message to the customer (an answer, the holding message or the thanks for a rating), one event
  -- for the agents and one call of the model; or it was left pending, with nothing done at all, since
  -- the conversation's lock was not obtained and putting the entry back failed. (The
  -- acknowledgements work.)
  pub process_message-Once :
      (e : Entry) (s : Live)
      → v.ack_fails ≡ false
      → let x = process_message lower fl u validate d v e s in
        Once x ⊎ ((v.locked ≡ false) × (v.requeue_fails ≡ true) × (x ≡ (s, [])))
  unfolding then_ack ack unless to_customer is_handoff is_question is_ack
  process_message-Once e s a =
      process_rule lower fl u validate d v e s
        (λ x. Once x ⊎ ((v.locked ≡ false) × (v.requeue_fails ≡ true) × (x ≡ (s, []))))
        (inl (ground arith)) (λ _ _. inl (ground arith)) (λ f g. inr (f, g, refl))
        (λ r m _. inl (
          let m' = routed lower fl u validate d r m in
          let es = (handle lower fl u validate d v r m' s).1 in
          let x = ack lower fl u validate d v e.id in
          ground (
            arith,
            handle-Modest r m' s,
            count-append to_customer es x,
            count-append is_handoff es x,
            count-append is_question es x,
            count-append is_ack es x,
          )))

  module _ (e : Entry) (m : Message) (r : Route Json) (s : Live)
      (arrived : e.payload ≡ some (some m)) (resolved : v.route m.inbound.channel_id ≡ some r)
      (stored : IsStored v.handle_env.month (routed lower fl u validate d r m).inbound s.world)
      (named : m.inbound.platform_msg_id ≢ "") where
    ended :
        (x : World × Result (String × Bool))
        → ((r' : String × Bool) → x.1 ≡ ok r' → r'.1 ≡ true)
        → (dispatch lower fl u validate d v r (routed lower fl u validate d r m) s x).1 ≡ []
    unfolding dispatch
    ended (w, err y) h = refl
    ended (w, ok (conv, true)) h = refl
    ended (w, ok (conv, false)) h = ground (arith, h (conv, false) refl)

    -- An entry whose message is already stored in the current month, as it is after its first delivery,
    -- is acknowledged and nothing else: the model is not called, and neither the customer nor an
    -- agent is sent anything. (The message has a platform id, its route is found, the lock is
    -- obtained, and the two database calls for the message work.)
    pub process_message_stored :
        v.locked ≡ true
        → v.handle_env.insert_fails ≡ false
        → v.handle_env.locate_fails ≡ false
        → (process_message lower fl u validate d v e s).1 ≡ ack lower fl u validate d v e.id
    unfolding process_message process_payload process_routed then_ack handle
    process_message_stored l f g =
        let k = (routed lower fl u validate d r m).inbound in
        let x = handle_inbound_message d.manager v.handle_env (some k) s.world in
        let q =
          ended x
            (λ r' h. (handle_stored d.manager k named v.handle_env s.world r' stored f g h).0) in
        let put_back : Live × List (Effect Float) =
          if v.requeue_fails
          then (s, [])
          else then_ack lower fl u validate d v e (s, requeued e ∷ []) in
        ap (λ o. (process_payload lower fl u validate d v e s o).1) arrived
        ∙ ap (λ o. (process_routed lower fl u validate d v e m s o).1) resolved
        ∙ ap
            (λ b.
              (if b
                then then_ack lower fl u validate d v e
                    (handle lower fl u validate d v r (routed lower fl u validate d r m) s)
                else put_back).1)
            l
        ∙ ap (λ es. es ++ ack lower fl u validate d v e.id) q
