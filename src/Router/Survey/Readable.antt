-- ===== src/Router/Survey/Readable.antt =====
-- The texts that unica/router/internal/survey/handler.go publishes: `promptText` and `thanksText`.
use lurus_unica.Common.{
  ℕ, String, Bool, true, false, Option, none, some, List, [], ◌∷◌, ◌++◌, arith, ◌≡◌, sym, subst,
  inl, inr, Bool-cases, Option-cases, if◌then◌else◌, ℤ,
}
use lurus_unica.Common.Maps.{put}
use lurus_unica.Common.Search.{any}
use lurus_unica.Common.Text.{Text}
use lurus_unica.Domain.Text.{Categories, is_unread, is_blank_answer}
use lurus_unica.Router.State.Store.{Conversation}
use lurus_unica.Router.Survey.Settings.{SurveyConfig, defaults, text_or, prompt_text, thanks_text}
use lurus_unica.Router.Survey.{
  PendingSurveyData, Outbound, Desk, Calls, publish, product_line_of, send_survey, on_close,
  thank_you_config, send_thank_you_message, record_rating, update_survey_status,
  handle_survey_reply,
}
use lurus_unica.Router.Survey.Sending.{on_close_cases}
use lurus_unica.Router.Survey.Replies.{taken_as_rating, is_rating, handle_survey_reply_untouched}

-- What happens to a desk: a conversation is closed, or a message comes to a closed one.
pub data Event : Type 0 where
  closed : Calls → Conversation → Event
  replied : Calls → String → Text → Event

module _ (u : Categories) where
  -- The character 感, with which both default texts begin, is not invisible.
  abbrev pub Legible : Type 0
  Legible = is_unread u 0x611F ≡ false

  abbrev pub IsReadable : Desk → Type 0
  IsReadable d = any (λ (m : Outbound). is_blank_answer u m.text) d.outbound ≡ false

  text_or-read :
      (t d : Text) → is_blank_answer u d ≡ false → is_blank_answer u (text_or u t d) ≡ false
  text_or-read t d h = elim (Bool-cases (is_blank_answer u t)) [
    | inl b ↦ ground arith
    | inr b ↦ ground arith
  ]

  opens-read : (c : ℕ) (t : Text) → is_unread u c ≡ false → is_blank_answer u (c ∷ t) ≡ false
  unfolding is_blank_answer
  opens-read c t h = ground arith

  defaults-read :
      Legible
      → (is_blank_answer u defaults.prompt_message ≡ false)
        × (is_blank_answer u defaults.thanks_message ≡ false)
  unfolding defaults
  defaults-read g = (opens-read 0x611F _ g, opens-read 0x611F _ g)

  prompt_text-read :
      Legible → (cfg : Option SurveyConfig) → is_blank_answer u (prompt_text u cfg) ≡ false
  unfolding prompt_text
  prompt_text-read g none = (defaults-read g).0
  prompt_text-read g (some c) =
      text_or-read c.prompt_message defaults.prompt_message (defaults-read g).0

  thanks_text-read :
      Legible → (cfg : Option SurveyConfig) → is_blank_answer u (thanks_text u cfg) ≡ false
  unfolding thanks_text
  thanks_text-read g none = (defaults-read g).1
  thanks_text-read g (some c) =
      text_or-read c.thanks_message defaults.thanks_message (defaults-read g).1

  one_more :
      (ms : List Outbound) (m : Outbound)
      → any (λ (m : Outbound). is_blank_answer u m.text) ms ≡ false
      → is_blank_answer u m.text ≡ false
      → any (λ (m : Outbound). is_blank_answer u m.text) (ms ++ (m ∷ [])) ≡ false
  unfolding any
  one_more [] m h b = ground arith
  one_more (x ∷ xs) m h b = ground (arith, one_more xs m)

  publish-IsReadable :
      (fails : Bool) (m : Outbound) (d : Desk)
      → IsReadable d
      → is_blank_answer u m.text ≡ false
      → IsReadable (publish fails m d)
  publish-IsReadable true m d r b = r
  publish-IsReadable false m d r b = one_more d.outbound m r b

  module _ {Json : Type 0} (is_blob : Json → Bool) (decode : Json → Option (Option SurveyConfig))
      (config_json : String → Option Json) where
    unfoldable pub run : List Event → Desk → Desk
    unfolding on_close handle_survey_reply
    run [] d = d
    run (closed k c ∷ es) d = run es (on_close u is_blob decode config_json k c d)
    run (replied k id m ∷ es) d =
        run es (handle_survey_reply u is_blob decode config_json k id m d).0

    send-IsReadable :
        (k : Calls) (c : Conversation) (cfg : Option SurveyConfig) (d : Desk)
        → Legible
        → IsReadable d
        → IsReadable (send_survey u is_blob decode config_json k c cfg d).0
    unfolding send_survey
    send-IsReadable k c cfg d g r = elim (Bool-cases k.publish_fails) [
      | inl f ↦ ground arith
      | inr f ↦ ground (
        arith,
        one_more d.outbound
            (record {
              conversation_id = c.id;
              channel_id = c.channel_id;
              customer_id = c.customer_id;
              text = prompt_text u cfg;
            })
            r (prompt_text-read g cfg),
      )
    ]

    close-IsReadable :
        (k : Calls) (c : Conversation) (d : Desk)
        → Legible
        → IsReadable d
        → IsReadable (on_close u is_blob decode config_json k c d)
    close-IsReadable k c d g r = elim (on_close_cases u is_blob decode config_json k c d) [
      | inl e ↦ subst IsReadable (sym e) r
      | inr (cfg, a, e) ↦ subst IsReadable (sym e) (send-IsReadable k c (some cfg) d g r)
    ]

    thank-IsReadable :
        (k : Calls) (id : String) (p : PendingSurveyData) (cfg : Option SurveyConfig) (d : Desk)
        → Legible
        → IsReadable d
        → IsReadable (send_thank_you_message u is_blob decode config_json k id p cfg d)
    unfolding send_thank_you_message
    thank-IsReadable k id p cfg d g r = elim (Bool-cases k.decode_fails) [
      | inl f ↦ ground arith
      | inr f ↦
          let m : Outbound = record {
            conversation_id = id;
            channel_id = p.channel_id;
            customer_id = p.customer_id;
            text = thanks_text u cfg;
          } in
          ground (arith, publish-IsReadable k.publish_fails m d r (thanks_text-read g cfg))
    ]

    rating-IsReadable :
        (k : Calls) (id : String) (p : PendingSurveyData) (score : ℤ) (d d' : Desk)
        → Legible
        → IsReadable d
        → record_rating u is_blob decode config_json k id p score d ≡ some d'
        → IsReadable d'
    unfolding record_rating
    rating-IsReadable k id p score d d' g r h =
        elim (Option-cases
          (update_survey_status k.update_fails k.now id "completed" (some score) d.conversations)) [
            | inl n ↦ ground arith
            | inr (rows, q) ↦
                let cfg =
                  thank_you_config u is_blob decode config_json (product_line_of k id rows) in
                let stored : Desk = record d {
                  conversations = rows;
                  pending = if k.del_fails then d.pending else put d.pending id none;
                } in
                let e : send_thank_you_message u is_blob decode config_json k id p cfg stored ≡ d' =
                  ground arith in
                subst IsReadable e (thank-IsReadable k id p cfg stored g r)
          ]

    reply-IsReadable :
        (k : Calls) (id : String) (m : Text) (d : Desk)
        → Legible
        → IsReadable d
        → IsReadable (handle_survey_reply u is_blob decode config_json k id m d).0
    reply-IsReadable k id m d g r =
        elim (is_rating (handle_survey_reply u is_blob decode config_json k id m d).1) [
          | inr n ↦
              subst IsReadable
                (sym (handle_survey_reply_untouched u is_blob decode config_json k id m d n)) r
          | inl t ↦
              let (p, score, b, q) = taken_as_rating u is_blob decode config_json k id m d t in
              rating-IsReadable k id p.value score d _ g r q
        ]

    -- Whatever closes and whatever is answered, no text that the survey sends is blank, under any
    -- settings, where the tables of categories show the first character of the default texts.
    pub run-IsReadable :
        (es : List Event) (d : Desk) → Legible → IsReadable d → IsReadable (run es d)
    unfolding run
    run-IsReadable [] d g r = r
    run-IsReadable (closed k c ∷ es) d g r = run-IsReadable es _ g (close-IsReadable k c d g r)
    run-IsReadable (replied k id m ∷ es) d g r =
        run-IsReadable es _ g (reply-IsReadable k id m d g r)
