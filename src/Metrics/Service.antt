-- ===== src/Metrics/Service.antt =====
-- `MetricsExtractionService.extract_for_plan` of app/services/metrics_extraction_service.py, as the
-- execution of plans calls it. Execution's rows hold JSON as texts and no dimensions.
use outbox_service.Prelude.{ℕ, Option, none, some, List, [], ◌∷◌, String, Result, ok, err, ◌>>=◌}
use Prim.Native.String.{◌++◌ as concat}
use outbox_service.Json.{Json, text}
use outbox_service.Aggregation.Values.{Floats}
use outbox_service.Execution.Model.{Event, ProcessingPlan, PlanExecution, Observation}
use outbox_service.Execution.Service.{Runtime, ExecutionError, permanent, technical}
use outbox_service.Metrics.Extractor.{
  ExtractionFailure, extraction, counter_value, default_limits, Numbers, ObservationKey, occurrence,
  KeyedObservation, extract_keyed_observations_from_compiled_plan,
}

-- the document of a JSONB column, `str` of an integer, and `str` of an exception
pub record Texts : Type 0 where
  pub document : String → Json
  pub digits : ℕ → String
  pub error_text : ExtractionFailure → String

-- `f"observation:{definition_index}:occurrence:{index}"`
unfoldable pub key_text : (ℕ → String) → ObservationKey → String
key_text digits (occurrence n i) =
    concat "observation:" (concat (digits n) (concat ":occurrence:" (digits i)))

-- `except (CounterValueError, ObservationExtractionError)`, or any other exception
unfoldable pub raised : (ExtractionFailure → String) → ExtractionFailure → ExecutionError
raised error_text (extraction e) = permanent (error_text (extraction e))
raised error_text (counter_value e) = permanent (error_text (counter_value e))
raised error_text f = technical (error_text f)

-- The code as the text of its column. Codes are texts, as the compiler writes them: any other is an
-- error here.
unfoldable pub code_text : Json → Result ExecutionError String
code_text (text s) = ok s
code_text _ = err (technical "the code is no text")

module _ {V : Type 0} (fl : Floats V) (numbers : Numbers V)
    (find : String → Json → Option (List Json)) (texts : Texts) where
  module _ (event : Event) (plan : ProcessingPlan) (execution : PlanExecution) where
    unfoldable pub analytical_observation :
        KeyedObservation V → Result ExecutionError (Observation V)
    unfolding key_text code_text
    analytical_observation item = code_text item.observation.metric_code >>= λ code. ok (record {
      project_id = event.project_id;
      event_type_id = event.event_type_id;
      event_id = event.id;
      processing_plan_id = plan.id;
      metric_plan_execution_id = execution.id;
      observation_key = key_text texts.digits item.observation_key;
      metric_code = code;
      value = item.observation.value;
    })

    unfoldable pub analytical_observations :
        List (KeyedObservation V) → Result ExecutionError (List (Observation V))
    unfolding analytical_observation
    analytical_observations [] = ok []
    analytical_observations (item ∷ items) =
        analytical_observation item >>= λ o. analytical_observations items >>= λ rest. ok (o ∷ rest)

    -- the observations of a compiled document
    unfoldable pub extract_compiled : String → Result ExecutionError (List (Observation V))
    unfolding raised analytical_observations
    extract_compiled compiled_plan_json =
        elim (extract_keyed_observations_from_compiled_plan fl numbers find default_limits
          (texts.document event.payload) (texts.document compiled_plan_json)) [
            | err f ↦ err (raised texts.error_text f)
            | ok items ↦ analytical_observations items
          ]

  unfoldable pub extract_for_plan :
      Event → ProcessingPlan → PlanExecution → Result ExecutionError (List (Observation V))
  unfolding extract_compiled
  extract_for_plan event plan execution = elim plan.compiled_plan_json [
    | none ↦ err (technical "has no compiled document")
    | some compiled_plan_json ↦ extract_compiled event plan execution compiled_plan_json
  ]

  -- the collaborators of the worker
  abbrev pub metrics_runtime :
      (ℕ → ℕ) → ℕ → (Observation V → Option String) → (PlanExecution → Option String) → Runtime V
  metrics_runtime retry_delay max_attempts insert_error release_error = record {
    extract_for_plan = extract_for_plan;
    retry_delay = retry_delay;
    max_attempts = max_attempts;
    insert_error = insert_error;
    release_error = release_error;
  }
