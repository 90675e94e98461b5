-- ===== src/Router/Survey/Replies.antt =====
-- What `HandleSurveyReply` of unica/router/internal/survey/handler.go does about a reply.
use lurus_unica.Common.{
  ℕ, ◌≤◌, String, Bool, true, false, Option, none, some, List, [], ◌∷◌, str_eq, eq_iff, arith, ◌≡◌,
  ◌≢◌, refl, ap, ◌∙◌, inl, inr, ◌⊎◌, Option-cases, Bool-cases, if◌then◌else◌, ℤ, pos, negsuc,
}
use lurus_unica.Common.Maps.{put_self}
use lurus_unica.Common.Text.{Text, trim_space}
use lurus_unica.Domain.Text.{Categories}
use lurus_unica.Domain.Ontology.Values.{atoi}
use lurus_unica.Router.State.Store.{Conversation, first, get_conversation}
use lurus_unica.Router.Survey.Settings.{SurveyConfig, thanks_text}
use lurus_unica.Router.Survey.Rating.{spells_signed, parse_rating_iff}
use lurus_unica.Router.Survey.{
  PendingSurvey, PendingSurveyData, Outbound, product_line_of, thank_you_config, Desk, Calls,
  SurveyError, with_survey, set_survey, update_survey_status, parse_rating, send_thank_you_message,
  record_rating, handle_survey_reply,
}

-- The write of one row as others see it.
pub get_conversation-set_survey :
    (now : ℕ) (id k status : String) (score : Option ℤ) (rows : List Conversation)
    → get_conversation k (set_survey now id status score rows) ≡ (
        if str_eq id k
        then elim (get_conversation k rows) [
          | none ↦ none
          | some c ↦ some (with_survey now status score c)
        ]
        else get_conversation k rows)
unfolding get_conversation set_survey first
get_conversation-set_survey now id k status none [] = ground arith
get_conversation-set_survey now id k status (some score) [] = ground arith
get_conversation-set_survey now id k status none (r ∷ rs) = ground (
  arith,
  get_conversation-set_survey now id k status none rs,
  eq_iff id k,
  eq_iff r.id id,
  eq_iff r.id k,
)
get_conversation-set_survey now id k status (some score) (r ∷ rs) = ground (
  arith,
  get_conversation-set_survey now id k status (some score) rs,
  eq_iff id k,
  eq_iff r.id id,
  eq_iff r.id k,
)

pub parse_rating-pos :
    (message : Text) (score : ℤ) → parse_rating message ≡ some score → (n : ℕ) × (score ≡ pos n)
unfolding parse_rating
parse_rating-pos message (pos n) h = (n, refl)
parse_rating-pos message (negsuc n) h = elim (Option-cases (atoi (trim_space message))) [
  | inl p ↦ ground arith
  | inr (z, p) ↦ let e : z ≡ negsuc n = ground arith in ground arith
]

-- Whether a reply was taken as a rating.
pub is_rating : (s : SurveyError ⊎ Bool) → (s ≡ inr true) ⊎ (s ≢ inr true)
is_rating (inl x) = inr (λ p. ground arith)
is_rating (inr true) = inl refl
is_rating (inr false) = inr (λ p. ground arith)

module _ (u : Categories) {Json : Type 0} (is_blob : Json → Bool)
    (decode : Json → Option (Option SurveyConfig)) (config_json : String → Option Json) (k : Calls)
    (id : String) where
  abbrev handled : Text → Desk → Desk × (SurveyError ⊎ Bool)
  handled = handle_survey_reply u is_blob decode config_json k id

  abbrev rated : PendingSurveyData → ℤ → Desk → Option Desk
  rated = record_rating u is_blob decode config_json k id

  -- What the writes of a rating leave.
  rated_rows :
      (p : PendingSurveyData) (score : ℤ) (d d' : Desk)
      → rated p score d ≡ some d'
      → (c : Conversation) × (get_conversation id d.conversations ≡ some c)
        × (d'.conversations ≡ set_survey k.now id "completed" (some score) d.conversations)
        × (k.del_fails ≡ false → d'.pending id ≡ none)
  unfolding record_rating update_survey_status send_thank_you_message
  rated_rows p score d d' h = elim (Option-cases (get_conversation id d.conversations)) [
    | inl n ↦ ground arith
    | inr (c, q) ↦ (c, q, ground arith, λ f. ground (arith, put_self d.pending id none))
  ]

  rated_outbound :
      (p : PendingSurveyData) (score : ℤ) (d d' : Desk)
      → d.outbound ≡ []
      → rated p score d ≡ some d'
      → (d'.outbound ≡ []) ⊎ ((m : Outbound) × (d'.outbound ≡ m ∷ []))
  unfolding record_rating send_thank_you_message
  rated_outbound p score d d' e h =
      elim (Option-cases
        (update_survey_status k.update_fails k.now id "completed" (some score) d.conversations)) [
          | inl n ↦ ground arith
          | inr (rows, q) ↦ elim (Bool-cases k.decode_fails) [
            | inl f ↦ inl (ground arith)
            | inr f ↦ elim (Bool-cases k.publish_fails) [
              | inl g ↦ inl (ground arith)
              | inr g ↦
                  let cfg =
                    thank_you_config u is_blob decode config_json (product_line_of k id rows) in
                  let m : Outbound = record {
                    conversation_id = id;
                    channel_id = p.channel_id;
                    customer_id = p.customer_id;
                    text = thanks_text u cfg;
                  } in
                  inr (m, ground arith)
            ]
          ]
        ]

  -- A reply that is taken: there was a survey to answer, and the reply is a rating.
  pub taken_as_rating :
      (message : Text) (d : Desk)
      → (handled message d).1 ≡ inr true
      → (p : PendingSurvey) × (score : ℤ) × (parse_rating message ≡ some score)
        × (rated p.value score d ≡ some (handled message d).0)
  unfolding handle_survey_reply
  taken_as_rating message d h = elim (Bool-cases k.get_fails) [
    | inl f ↦ ground arith
    | inr f ↦ elim (Option-cases (d.pending id)) [
      | inl n ↦ ground arith
      | inr (p, a) ↦ elim (Option-cases (parse_rating message)) [
        | inl n ↦ ground arith
        | inr (score, b) ↦ elim (Option-cases (rated p.value score d)) [
          | inl n ↦ ground arith
          | inr (d', q) ↦ (p, score, b, ground arith)
        ]
      ]
    ]
  ]

  -- At most one message is published for a reply.
  pub taken_outbound :
      (message : Text) (d : Desk)
      → d.outbound ≡ []
      → (handled message d).1 ≡ inr true
      → ((handled message d).0.outbound ≡ [])
        ⊎ ((m : Outbound) × ((handled message d).0.outbound ≡ m ∷ []))
  taken_outbound message d e h =
      let (p, score, b, q) = taken_as_rating message d h in
      rated_outbound p.value score d (handled message d).0 e q

  -- A reply that is not taken as a rating changes nothing, whatever the error.
  pub handle_survey_reply_untouched :
      (message : Text) (d : Desk) → (handled message d).1 ≢ inr true → (handled message d).0 ≡ d
  unfolding handle_survey_reply
  handle_survey_reply_untouched message d h = elim (Bool-cases k.get_fails) [
    | inl f ↦ ground arith
    | inr f ↦ elim (Option-cases (d.pending id)) [
      | inl n ↦ ground arith
      | inr (p, a) ↦ elim (Option-cases (parse_rating message)) [
        | inl n ↦ ground arith
        | inr (score, b) ↦ elim (Option-cases (rated p.value score d)) [
          | inl n ↦ ground arith
          | inr (d', q) ↦ ground arith
        ]
      ]
    ]
  ]

  -- A reply that is taken as a rating spells a number from 1 to 5; that number and the status are stored
  -- with the conversation, and no other conversation changes.
  pub handle_survey_reply_rated :
      (message : Text) (d : Desk)
      → (handled message d).1 ≡ inr true
      → (n : ℕ) × ((1 ≤ n) × (n ≤ 5) × (spells_signed n (trim_space message) ≡ true))
        × ((c : Conversation) × (get_conversation id d.conversations ≡ some c)
            × (get_conversation id (handled message d).0.conversations
                ≡ some (with_survey k.now "completed" (some (pos n)) c))
            × ((j : String)
                → j ≢ id
                → get_conversation j (handled message d).0.conversations
                  ≡ get_conversation j d.conversations))
  handle_survey_reply_rated message d h =
      let (p, score, b, q) = taken_as_rating message d h in
      let (n, e) = parse_rating-pos message score b in
      let (c, r, w, f) = rated_rows p.value score d (handled message d).0 q in
      let seen = λ (j : String).
        get_conversation-set_survey k.now id j "completed" (some score) d.conversations in
      (
        n,
        (parse_rating_iff message n).0 (ground arith),
        (
          c,
          r,
          ap (get_conversation id) w ∙ seen id ∙ ground (arith, eq_iff id id),
          λ j ne. ap (get_conversation j) w ∙ seen j ∙ ground (arith, eq_iff id j),
        ),
      )

  unanswered :
      (again : Text) (d' : Desk)
      → k.get_fails ≡ false
      → d'.pending id ≡ none
      → handled again d' ≡ (d', inr false)
  unfolding handle_survey_reply
  unanswered again d' g n = ground arith

module _ (u : Categories) {Json : Type 0} (is_blob : Json → Bool)
    (decode : Json → Option (Option SurveyConfig)) (config_json : String → Option Json) where
  -- A survey is answered once: where the pending record was deleted, a later reply is not taken as one,
  -- and changes nothing.
  pub handle_survey_reply_once :
      (k k' : Calls) (id : String) (message again : Text) (d d' : Desk)
      → handle_survey_reply u is_blob decode config_json k id message d ≡ (d', inr true)
      → k.del_fails ≡ false
      → k'.get_fails ≡ false
      → handle_survey_reply u is_blob decode config_json k' id again d' ≡ (d', inr false)
  handle_survey_reply_once k k' id message again d d' h f g =
      let (p, score, b, q) =
        taken_as_rating u is_blob decode config_json k id message d (ground arith) in
      let (c, r, w, gone) =
        rated_rows u is_blob decode config_json k id p.value score d d' (ground arith) in
      unanswered u is_blob decode config_json k' id again d' g (gone f)
