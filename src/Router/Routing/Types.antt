-- ===== src/Router/Routing/Types.antt =====
-- The types of unica/router/internal/routing: router.go, and scene.go. What a call of Redis, of the
-- database or of the model answers is part of the `Replies` to an entry; the writes to streams and to
-- other stores are `Effect`s, in their order.
use lurus_unica.Common.{
  ℕ, String, Bool, ◌||◌, Option, none, some, List, [], map, ◌⊎◌, if◌then◌else◌, ℤ,
}
use lurus_unica.Common.Text.{Text, codes, trim_space, is_empty, text_eq}
use lurus_unica.Domain.Breaker.{Breaker}
use lurus_unica.Domain.Violation.{Violation}
use lurus_unica.Domain.Config.{Config as OntologyConfig}
use lurus_unica.Router.Guardrail.Settings.{Block}
use lurus_unica.Router.Guardrail.Evaluator.{TriageMode}
use lurus_unica.Router.Intent.Stage.{Stage}
use lurus_unica.Router.Confidence.{DifyResponse}
use lurus_unica.Router.State.Manager.{World, Env, Config as ManagerConfig}
use lurus_unica.Router.State.Inbound.{Inbound}
use lurus_unica.Router.Survey.Settings.{SurveyConfig}
use lurus_unica.Router.Survey.{PendingSurvey, Outbound, Calls}

-- A scene mode is a string, as in the source.
abbrev pub SceneMode : Type 0
SceneMode = Text

abbrev pub scene_off : SceneMode
scene_off = codes "off"

abbrev pub scene_shadow : SceneMode
scene_shadow = codes "shadow"

abbrev pub scene_on : SceneMode
scene_on = codes "on"

unfoldable pub parse_scene_mode : (ℕ → ℕ) → Text → Option SceneMode
unfolding is_empty text_eq
parse_scene_mode lower s =
    let mode = map lower (trim_space s) in
    if is_empty mode
    then some scene_shadow
    else if text_eq mode scene_off || (text_eq mode scene_shadow || text_eq mode scene_on)
    then some mode
    else none

unfoldable pub classifies_scene : SceneMode → Bool
unfolding text_eq
classifies_scene m = text_eq m scene_shadow || text_eq m scene_on

unfoldable pub injects_scene : SceneMode → Bool
unfolding text_eq
injects_scene m = text_eq m scene_on

-- A message, of which `inbound` is what the manager reads.
pub record Message : Type 0 where
  pub inbound : Inbound
  pub customer_id : String
  pub text : Text

-- An entry of the stream: its `payload` is absent, or does not decode, or is a message.
pub record Entry : Type 0 where
  pub id : String
  pub payload : Option (Option Message)

pub record Route (Json : Type 0) : Type 0 where
  pub product_line_id : String
  pub config_json : Json

pub record DifyConvSession : Type 0 where
  pub dify_conversation_id : Text
  pub message_count : ℕ
  pub stage : Stage

abbrev pub no_session : DifyConvSession
no_session = record { dify_conversation_id = []; message_count = 0; stage = "" }

pub record Inputs : Type 0 where
  pub customer_name : String
  pub channel : String
  pub product_line : String
  pub scene_context : Option Text
  pub experience_context : Option Text
  pub knowledge_context : Option Text
  pub facts_context : Option Text

pub record HandoffRecord (F : Type 0) : Type 0 where
  pub conversation_id : String
  pub product_line_id : String
  pub reason : String
  pub detail : Text
  pub confidence : F
  pub answer_suppressed : Bool

pub record HandoffEvent (F : Type 0) : Type 0 where
  pub conversation_id : String
  pub product_line_id : String
  pub reason : String
  pub confidence_score : F
  pub ai_response_suppressed : Text
  pub customer_message : Text
  pub detail : Text

pub data Effect (F : Type 0) : Type 0 where
  asked : Text → Text → Inputs → Effect F
  answered : Text → Effect F
  held : Text → Effect F
  thanked : Outbound → Effect F
  recorded : HandoffRecord F → Effect F
  handed_off : HandoffEvent F → Effect F
  submitted : Text → Bool → Effect F
  evidence : List Violation → Bool → Effect F
  forwarded : Effect F
  requeued : Entry → Effect F
  acked : String → Effect F

-- What the router changes.
pub record Live : Type 0 where
  pub world : World
  pub breaker : Breaker
  pub sessions : String → Option DifyConvSession
  pub pending : String → Option PendingSurvey

-- What the router is set up with.
pub record Setup (F Json Ontology : Type 0) : Type 0 where
  pub manager : ManagerConfig
  pub triage : TriageMode
  pub scene : SceneMode
  pub strategy_for : Stage → Text
  pub render : Ontology → Text
  pub is_blob : Json → Bool
  pub decode_guardrail : Json → Option (Option (Block F))
  pub decode_ontology : Json → Option (Option (OntologyConfig F))
  pub has_survey : Bool
  pub decode_survey : Json → Option (Option SurveyConfig)
  pub has_ontology : Bool
  pub has_handoff_log : Bool
  pub has_collector : Bool

-- What is answered to the calls that the processing of one entry makes.
pub record Replies (F Json Ontology : Type 0) : Type 0 where
  pub route : String → Option (Route Json)
  pub locked : Bool
  pub requeue_fails : Bool
  -- The manager's calls: the message, the state, the transition to the AI, the one to a person.
  pub handle_env : Env
  pub load_fails : Bool
  pub ai_env : Env
  pub human_env : Env
  pub forward_fails : Bool
  -- What `HandleSurveyReply` calls, and the settings of the product lines.
  pub survey_calls : Calls
  pub survey_json : String → Option Json
  pub get_dify_session_fails : Bool
  pub set_dify_session_fails : Bool
  pub experience : Text
  pub knowledge : Text
  pub active_ontology : Option Ontology
  pub chat : Text → String → Text → Inputs → Text ⊎ DifyResponse F
  pub answer_fails : Bool
  pub hold_fails : Bool
  pub handoff_fails : Bool
  pub ack_fails : Bool
  -- `CreateMessage` of the answer.
  pub answer_id : String
  pub month : ℕ
  pub insert_fails : Bool
  pub locate_fails : Bool
  pub content_of : Text → String
  pub before : ℤ
  pub after : ℤ
