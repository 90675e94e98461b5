-- ===== src/Router/Survey/Sending.antt =====
-- What the callback for a closed conversation sends: `ShouldSendSurvey` and `SendSurvey` of
-- unica/router/internal/survey/handler.go.
use lurus_unica.Common.{
  ℕ, ◌+◌, ◌<◌, String, Bool, true, false, Option, none, some, List, [], ◌∷◌, ◌++◌, eq_iff, arith,
  lt→ltb, ◌≡◌, ◌≢◌, refl, sym, ap, ◌∙◌, subst, inl, inr, ◌⊎◌, Option-cases, Bool-cases,
}
use lurus_unica.Common.Maps.{put_self}
use lurus_unica.Domain.Text.{Categories}
use lurus_unica.Router.State.Store.{
  Conversation, first, get_conversation, get_conversation_by_customer, is_reachable,
}
use lurus_unica.Router.State.Manager.{World, Config, Env, ok}
use lurus_unica.Router.State.Manager.Sweep.{get-cons_none}
use lurus_unica.Router.State.Inbound.{find_or_create_conversation}
use lurus_unica.Router.Survey.Settings.{SurveyConfig, pending_ttl}
use lurus_unica.Router.Survey.{
  PendingSurvey, Desk, Calls, SurveyError, load_survey_config, should_send_survey, set_survey,
  update_survey_status, with_survey, pending_data, send_survey, on_close, pending_window,
  survey_window,
}

sum_cases {ℓ} : {A B : Type ℓ} (s : A ⊎ B) → ((a : A) × (s ≡ inl a)) ⊎ ((b : B) × (s ≡ inr b))
sum_cases (inl a) = inl (a, refl)
sum_cases (inr b) = inr (b, refl)

found_among :
    (id : String) (newer : List Conversation) (r : Conversation) (older : List Conversation)
    → r.id ≡ id
    → get_conversation id newer ≡ none
    → get_conversation id (newer ++ r ∷ older) ≡ some r
unfolding get_conversation first
found_among id [] r older i n = ground (arith, eq_iff r.id id)
found_among id (x ∷ xs) r older i n =
    let (ne, n') = get-cons_none id x xs n in
    ground (arith, eq_iff x.id id, found_among id xs r older i n')

set_survey-append :
    (now : ℕ) (id : String) (newer : List Conversation) (r : Conversation)
    (older : List Conversation)
    → r.id ≡ id
    → get_conversation id newer ≡ none
    → set_survey now id "sent" none (newer ++ r ∷ older)
      ≡ newer ++ with_survey now "sent" none r ∷ set_survey now id "sent" none older
unfolding set_survey
set_survey-append now id [] r older i n = ground (arith, eq_iff r.id id)
set_survey-append now id (x ∷ xs) r older i n =
    let (ne, n') = get-cons_none id x xs n in
    ground (arith, eq_iff x.id id, set_survey-append now id xs r older i n')

first-append :
    (p : Conversation → Bool) (newer : List Conversation) (r : Conversation)
    (older : List Conversation)
    → first p newer ≡ none
    → p r ≡ true
    → first p (newer ++ r ∷ older) ≡ some r
unfolding first
first-append p [] r older n t = ground arith
first-append p (x ∷ xs) r older n t = elim (Bool-cases (p x)) [
  | inl y ↦ ground arith
  | inr y ↦ ground (arith, first-append p xs r older)
]

found_conversation :
    (cfg : Config) (e : Env) (w : World) (customer channel pl : String) (f : String → ℕ)
    (x : Conversation)
    → cfg.survey_window ≡ some f
    → e.search_fails ≡ false
    → first (is_reachable e.now (f pl) customer) w.conversations ≡ some x
    → find_or_create_conversation cfg e w customer channel pl ≡ (w, ok x.id)
unfolding find_or_create_conversation get_conversation_by_customer
found_conversation cfg e w customer channel pl f x sw sf h = ground arith

module _ (u : Categories) {Json : Type 0} (is_blob : Json → Bool)
    (decode : Json → Option (Option SurveyConfig)) (config_json : String → Option Json) where
  abbrev closing : Calls → Conversation → Desk → Desk
  closing = on_close u is_blob decode config_json

  abbrev asked : Calls → Desk → String → String → SurveyError ⊎ Option SurveyConfig
  asked = should_send_survey u is_blob decode config_json

  -- Either nothing is done, or the survey is sent with the settings that were loaded.
  pub on_close_cases :
      (k : Calls) (c : Conversation) (d : Desk)
      → (closing k c d ≡ d)
        ⊎ ((cfg : SurveyConfig) × (asked k d c.id c.product_line_id ≡ inr (some cfg))
            × (closing k c d ≡ (send_survey u is_blob decode config_json k c (some cfg) d).0))
  unfolding on_close
  on_close_cases k c d = elim (sum_cases (asked k d c.id c.product_line_id)) [
    | inl (x, p) ↦ inl (ground arith)
    | inr (o, p) ↦ elim (Option-cases o) [
      | inl n ↦ inl (ground arith)
      | inr (cfg, q) ↦ inr (cfg, ground arith, ground arith)
    ]
  ]

  asked_loaded :
      (k : Calls) (c : Conversation) (d : Desk) (l cfg : SurveyConfig)
      → load_survey_config u is_blob decode config_json c.product_line_id ≡ some l
      → d.pending c.id ≡ none
      → asked k d c.id c.product_line_id ≡ inr (some cfg)
      → (l ≡ cfg) × (l.enabled ≡ true)
  unfolding should_send_survey
  asked_loaded k c d l cfg p n h = (ground arith, ground arith)

  asked_facts :
      (k : Calls) (c : Conversation) (d : Desk) (cfg : SurveyConfig)
      → asked k d c.id c.product_line_id ≡ inr (some cfg)
      → (load_survey_config u is_blob decode config_json c.product_line_id ≡ some cfg)
        × (cfg.enabled ≡ true)
        × (d.pending c.id ≡ none)
  unfolding should_send_survey
  asked_facts k c d cfg h =
      elim (Option-cases (load_survey_config u is_blob decode config_json c.product_line_id)) [
        | inl n ↦ ground arith
        | inr (l, p) ↦ elim (Option-cases (d.pending c.id)) [
          | inl n ↦
              let (e, f) = asked_loaded k c d l cfg p n h in
              (p ∙ ap some e, subst (λ x. SurveyConfig.enabled x ≡ true) e f, n)
          | inr (q, n) ↦ ground arith
        ]
      ]

  module _ (k : Calls) (c : Conversation) (d : Desk) (cfg : SurveyConfig) where
    abbrev sent : Desk
    sent = (send_survey u is_blob decode config_json k c (some cfg) d).0

    sent_pending :
        k.publish_fails ≡ false
        → k.set_fails ≡ false
        → sent.pending c.id ≡ some (pending_data u is_blob decode config_json k c (some cfg))
    unfolding send_survey
    sent_pending p s = ground (
      arith,
      put_self d.pending c.id (some (pending_data u is_blob decode config_json k c (some cfg))),
    )

    sent_kept : k.publish_fails ≡ true → sent ≡ d
    unfolding send_survey
    sent_kept p = ground arith

    sent_unset : k.publish_fails ≡ false → k.set_fails ≡ true → sent.pending c.id ≡ d.pending c.id
    unfolding send_survey
    sent_unset p s = ground arith

    sent_rows :
        (r : Conversation)
        → k.publish_fails ≡ false
        → k.update_fails ≡ false
        → get_conversation c.id d.conversations ≡ some r
        → sent.conversations ≡ set_survey k.now c.id "sent" none d.conversations
    unfolding send_survey update_survey_status
    sent_rows r p f q = ground arith

  window_loaded :
      (product_line : String) (cfg : SurveyConfig)
      → product_line ≢ ""
      → load_survey_config u is_blob decode config_json product_line ≡ some cfg
      → cfg.enabled ≡ true
      → pending_window u is_blob decode config_json product_line ≡ pending_ttl cfg
  unfolding pending_window
  window_loaded product_line cfg ne p t = ground (arith, eq_iff product_line "")

  sent-reachable :
      (r : Conversation) (at now window : ℕ)
      → now < at + window
      → is_reachable now window r.customer_id (with_survey at "sent" none r) ≡ true
  unfolding is_reachable
  sent-reachable r at now window l =
      ground (arith, eq_iff r.customer_id r.customer_id, lt→ltb now (at + window) l)

  -- A survey is sent at most once while its pending record lasts: where a closure sent one and the
  -- record was set, a later closure of the conversation changes nothing.
  pub on_close_twice :
      (k k' : Calls) (c : Conversation) (d : Desk)
      → (closing k c d).outbound ≢ d.outbound
      → k.set_fails ≡ false
      → closing k' c (closing k c d) ≡ closing k c d
  on_close_twice k k' c d h s = elim (on_close_cases k c d) [
    | inl e ↦ ground arith
    | inr (cfg, a, e) ↦ elim (Bool-cases k.publish_fails) [
      | inl f ↦ let g = e ∙ sent_kept k c d cfg f in ground arith
      | inr f ↦ elim (on_close_cases k' c (closing k c d)) [
        | inl same ↦ same
        | inr (cfg', a', e') ↦
            let g = sent_pending k c d cfg f s in
            let n = (asked_facts k' c (closing k c d) cfg' a').2 in
            let g' = ap (λ (x : Desk). x.pending c.id) e ∙ g in ground arith
      ]
    ]
  ]

  -- The record of a survey that a closure sets lives as long as the conversation stays reachable for
  -- its customer.
  pub on_close_ttl :
      (k : Calls) (c : Conversation) (d : Desk) (p : PendingSurvey)
      → c.product_line_id ≢ ""
      → d.pending c.id ≡ none
      → (closing k c d).pending c.id ≡ some p
      → p.ttl ≡ pending_window u is_blob decode config_json c.product_line_id
  on_close_ttl k c d p ne n h = elim (on_close_cases k c d) [
    | inl e ↦ let g = ap (λ (x : Desk). x.pending c.id) e in ground arith
    | inr (cfg, a, e) ↦ elim (Bool-cases k.publish_fails) [
      | inl f ↦
          let g = ap (λ (x : Desk). x.pending c.id) (e ∙ sent_kept k c d cfg f) in ground arith
      | inr f ↦ elim (Bool-cases k.set_fails) [
        | inl s ↦
            let g = ap (λ (x : Desk). x.pending c.id) e ∙ sent_unset k c d cfg f s in ground arith
        | inr s ↦
            let g = ap (λ (x : Desk). x.pending c.id) e ∙ sent_pending k c d cfg f s in
            let (b, t, n') = asked_facts k c d cfg a in
            let v : p ≡ pending_data u is_blob decode config_json k c (some cfg) = ground arith in
            ap PendingSurvey.ttl v ∙ sym (window_loaded c.product_line_id cfg ne b t)
      ]
    ]
  ]

  sent_newest :
      (k : Calls) (c r : Conversation) (d : Desk) (cfg : SurveyConfig)
      (newer older : List Conversation)
      → k.publish_fails ≡ false
      → k.update_fails ≡ false
      → d.conversations ≡ newer ++ r ∷ older
      → r.id ≡ c.id
      → get_conversation c.id newer ≡ none
      → (send_survey u is_blob decode config_json k c (some cfg) d).0.conversations
        ≡ newer ++ with_survey k.now "sent" none r ∷ set_survey k.now c.id "sent" none older
  sent_newest k c r d cfg newer older p f t i n =
      sent_rows k c d cfg r p f (ap (get_conversation c.id) t ∙ found_among c.id newer r older i n)
      ∙ ap (set_survey k.now c.id "sent" none) t
      ∙ set_survey-append k.now c.id newer r older i n

  -- After a closure that sent a survey and marked its conversation, the customer's next message, if it
  -- comes within the survey's window and no newer conversation of the customer can be reached,
  -- finds the closed conversation, and makes no new one. (The conversation is in the table, ids are
  -- unique, the router's survey window is registered, and the two database calls, the mark and the
  -- search, work.)
  pub find_or_create_conversation-on_close :
      (k : Calls) (c r : Conversation) (d : Desk) (newer older : List Conversation)
      → (closing k c d).outbound ≢ d.outbound
      → k.update_fails ≡ false
      → d.conversations ≡ newer ++ r ∷ older
      → r.id ≡ c.id
      → get_conversation c.id newer ≡ none
      → (cfg : Config) (e : Env) (w : World) (channel : String)
      → cfg.survey_window ≡ some (survey_window u is_blob decode config_json)
      → e.search_fails ≡ false
      → w.conversations ≡ (closing k c d).conversations
      → let window = survey_window u is_blob decode config_json c.product_line_id in
        first (is_reachable e.now window r.customer_id) newer ≡ none
        → e.now < k.now + window
        → find_or_create_conversation cfg e w r.customer_id channel c.product_line_id ≡ (w, ok c.id)
  unfolding find_or_create_conversation get_conversation_by_customer
  find_or_create_conversation-on_close k c r d newer older h f t i n cfg e w channel sw sf we o l =
      elim (on_close_cases k c d) [
        | inl q ↦ let g = ap Desk.outbound q in ground arith
        | inr (s, a, q) ↦ elim (Bool-cases k.publish_fails) [
          | inl p ↦ let g = ap Desk.outbound (q ∙ sent_kept k c d s p) in ground arith
          | inr p ↦
              let window = survey_window u is_blob decode config_json c.product_line_id in
              let rows =
                we ∙ ap Desk.conversations q ∙ sent_newest k c r d s newer older p f t i n in
              let found =
                ap (first (is_reachable e.now window r.customer_id)) rows
                ∙ first-append (is_reachable e.now window r.customer_id) newer
                    (with_survey k.now "sent" none r) (set_survey k.now c.id "sent" none older) o
                    (sent-reachable r k.now e.now window l) in
              found_conversation cfg e w r.customer_id channel c.product_line_id
                (survey_window u is_blob decode config_json) (with_survey k.now "sent" none r) sw sf
                found
              ∙ ap (λ x. (w, ok x)) i
        ]
      ]
