-- ===== src/Gitlab/Processors.antt =====
-- internal/source/gitlab: event.go, processor.go, processor_pipelineevent.go and
-- processor_pushevent.go. `decode_object_kind` is json.Unmarshal for a struct that has only the field
-- object_kind.
pub mod Laws
use ibdm.Base.{
  ℕ, ℤ, String, Bool, true, false, not, Option, none, some, List, [], ◌∷◌, Err, message, Result, ok,
  err, lookup, ◌==◌, if◌then◌else◌,
}
use ibdm.Value.{
  Value, as_float64, value_or_null, Fields, null, object, end, field, get_field, as_object,
  text_or_empty,
}
use ibdm.Source.{Data, upsert, wants}
use ibdm.Effect.{Effect, ◌>>=◌, pure, fail, lift}
use ibdm.Http.{Web, itoa}
use ibdm.Gitlab.{SourceConfig, get_project, get_project_languages, get_pipeline}
use ibdm.Gitlab.Sync.{
  project_resource, pipeline_resource, project_wrapper, parsed_or_now, time_field,
}

pub record PipelineEvent : Type 0 where
  pub object_kind : String
  pub object_attributes : Fields
  pub pipeline : Fields
  pub project : Fields

pub record PushEvent : Type 0 where
  pub object_kind : String
  pub project : Fields

module _ {W : Type 0} (web : Web W) (c : SourceConfig) where
  abbrev pub require : {A : Type 0} → String → Option A → Effect W A
  require problem none = fail (message problem)
  require problem (some a) = pure a

  abbrev pub pipeline_event_time : PipelineEvent → Effect W ℕ
  pipeline_event_time e = parsed_or_now web (time_field web "updated_at" e.object_attributes)

  unfoldable pub parse_pipeline_event : String → Effect W PipelineEvent
  unfolding get_field itoa get_project get_project_languages get_pipeline project_wrapper
  parse_pipeline_event body = do
    payload ← lift (web.decode_object body)
    payload_project ←
        require "event payload missing project field" (as_object (get_field "project" payload))
    project_bits ←
        require "event payload project.id is missing or invalid"
          (as_float64 (get_field "id" payload_project))
    object_attributes ←
        require "event payload missing object_attributes field"
          (as_object (get_field "object_attributes" payload))
    pipeline_bits ←
        require "event payload object_attributes.id is missing or invalid"
          (as_float64 (get_field "id" object_attributes))
    project ← get_project web c (web.int_of project_bits)
    langs ← get_project_languages web c (itoa (web.int_of project_bits))
    pipeline ← get_pipeline web c (itoa (web.int_of project_bits)) (itoa (web.int_of pipeline_bits))
    pure (record {
      object_kind = text_or_empty (get_field "object_kind" payload);
      object_attributes = object_attributes;
      pipeline = pipeline;
      project = project_wrapper project langs;
    })

  unfoldable pub parse_push_event : String → Effect W PushEvent
  unfolding get_field itoa get_project get_project_languages project_wrapper
  parse_push_event body = do
    payload ← lift (web.decode_object body)
    project_bits ←
        require "event payload missing project_id field"
          (as_float64 (get_field "project_id" payload))
    project ← get_project web c (web.int_of project_bits)
    langs ← get_project_languages web c (itoa (web.int_of project_bits))
    pure (record {
      object_kind = text_or_empty (get_field "object_kind" payload);
      project = project_wrapper project langs;
    })

  abbrev pub pipeline_event_data : PipelineEvent → ℕ → ℕ → List Data
  pipeline_event_data ev first second =
      record { kind = project_resource; operation = upsert; values = ev.project; time = first }
      ∷ record {
        kind = pipeline_resource;
        operation = upsert;
        values =
            field "pipeline" (object ev.pipeline)
              (field project_resource (value_or_null (get_field project_resource ev.project)) end);
        time = second;
      }
      ∷ []

  abbrev pub push_event_data : PushEvent → ℕ → List Data
  push_event_data ev time =
      record { kind = project_resource; operation = upsert; values = ev.project; time = time } ∷ []

  module _ (decode_object_kind : String → Result String) where
    unfoldable pub process_pipeline_event : List (String × Fields) → String → Effect W (List Data)
    unfolding lookup time_field get_field parse_pipeline_event
    process_pipeline_event types_to_stream body = do
      kind ← lift (decode_object_kind body)
      if not (kind == "pipeline") then pure [] else (do
        ev ← parse_pipeline_event body
        if not (wants project_resource types_to_stream) then pure [] else (do
          first ← pipeline_event_time ev
          if not (wants pipeline_resource types_to_stream) then pure [] else (do
            second ← pipeline_event_time ev
            pure (pipeline_event_data ev first second))))

    unfoldable pub process_push_event : List (String × Fields) → String → Effect W (List Data)
    unfolding lookup parse_push_event
    process_push_event types_to_stream body = do
      kind ← lift (decode_object_kind body)
      if not (kind == "push") then pure [] else (do
        ev ← parse_push_event body
        if not (wants project_resource types_to_stream)
            then pure []
            else (do time ← parsed_or_now web none; pure (push_event_data ev time)))

-- The values of the map `eventProcessors`.
pub data EventProcessor : Type 0 where
  pipeline_event_processor push_event_processor : EventProcessor

abbrev pub event_processors : List (String × EventProcessor)
event_processors =
    ("Pipeline Hook", pipeline_event_processor) ∷ ("Push Hook", push_event_processor) ∷ []

unfoldable pub process :
    {W : Type 0}
    → Web W
    → SourceConfig
    → (String → Result String)
    → EventProcessor
    → List (String × Fields)
    → String
    → Effect W (List Data)
unfolding process_pipeline_event process_push_event
process web c decode_object_kind pipeline_event_processor types_to_stream body =
    process_pipeline_event web c decode_object_kind types_to_stream body
process web c decode_object_kind push_event_processor types_to_stream body =
    process_push_event web c decode_object_kind types_to_stream body
