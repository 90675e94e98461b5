-- ===== src/Router/Routing/Context.antt =====
-- What unica/router/internal/routing/router.go prepares for a call of the model: `prepareAIContext`, and
-- the session that it reads.
use lurus_unica.Common.{ℕ, String, Bool, not, ◌&&◌, Option, none, some, List, if◌then◌else◌, str_eq}
use lurus_unica.Common.Floats.{Floats}
use lurus_unica.Common.Maps.{put}
use lurus_unica.Common.Text.{Text, is_empty}
use lurus_unica.Common.Search.{is_some}
use lurus_unica.Domain.Text.{Categories}
use lurus_unica.Domain.Claims.{Claim}
use lurus_unica.Domain.Violation.{Violation}
use lurus_unica.Domain.Config.{Config as OntologyConfig, active, load as load_ontology_config}
use lurus_unica.Router.Intent.Stage.{Stage, resolve_stage}
use lurus_unica.Router.Routing.Types.{
  classifies_scene, injects_scene, Message, Route, DifyConvSession, no_session, Inputs, Live, Setup,
  Replies,
}

module _ {F Json Ontology : Type 0} where
  -- `getDifySession`, and `setDifyConvID`.
  unfoldable pub get_dify_session : Replies F Json Ontology → String → Live → DifyConvSession
  get_dify_session v conv s =
      if v.get_dify_session_fails
      then no_session
      else elim (s.sessions conv) [ none ↦ no_session | some x ↦ x ]

  unfoldable pub set_dify_conv_id :
      Replies F Json Ontology → String → Text → ℕ → Stage → Live → Live
  unfolding put
  set_dify_conv_id v conv dify count stage s = if v.set_dify_session_fails then s else record s {
    sessions =
        put s.sessions conv
          (some (record { dify_conversation_id = dify; message_count = count; stage = stage }));
  }

-- What the preparation decides, for the call of the model and for the judgement.
pub record AiCallContext (F Ontology : Type 0) : Type 0 where
  pub inputs : Inputs
  pub user_id : String
  pub dify_conv_id : Text
  pub stage : Stage
  pub ontology : Option Ontology
  pub ontology_cfg : OntologyConfig F
  pub facts_injected : Bool
  pub experience_injected : Bool

abbrev unless_empty : Text → Option Text
unless_empty t = if is_empty t then none else some t

module _ (lower : ℕ → ℕ) (fl : Floats) (u : Categories) {Json Ontology : Type 0}
    (validate : Ontology → List Claim → Text → List Violation)
    (d : Setup fl.Float Json Ontology) where
  open fl use {Float}

  -- The stage of the message, and the active ontology, where they are asked for.
  unfoldable pub stage_of : DifyConvSession → Text → Stage
  unfolding classifies_scene resolve_stage
  stage_of session query =
      if classifies_scene d.scene then (resolve_stage lower session.stage query).stage else ""

  unfoldable pub prepare_ai_context :
      Replies Float Json Ontology
      → Route Json
      → Message
      → String
      → Text
      → Live
      → AiCallContext Float Ontology
  unfolding get_dify_session stage_of injects_scene load_ontology_config active is_some
  prepare_ai_context v r m conv query s =
      let session = get_dify_session v conv s in
      let stage = stage_of session query in
      let cfg = load_ontology_config fl d.is_blob d.decode_ontology lower r.config_json in
      let ontology = if d.has_ontology && active (some cfg) then v.active_ontology else none in
      let facts = is_some ontology && cfg.inject_facts in
      record {
        inputs = record {
          customer_name = m.inbound.platform_user_id;
          channel = m.inbound.channel_id;
          product_line = r.product_line_id;
          scene_context = if injects_scene d.scene then some (d.strategy_for stage) else none;
          experience_context = unless_empty v.experience;
          knowledge_context = unless_empty v.knowledge;
          facts_context = elim ontology [
            | none ↦ none
            | some o ↦ if cfg.inject_facts then unless_empty (d.render o) else none
          ];
        };
        user_id =
            if str_eq m.inbound.platform_user_id ""
            then m.customer_id
            else m.inbound.platform_user_id;
        dify_conv_id = session.dify_conversation_id;
        stage = stage;
        ontology = ontology;
        ontology_cfg = cfg;
        facts_injected = facts;
        experience_injected = not (is_empty v.experience);
      }
