-- ===== src/Execution/Model.antt =====
-- The rows of metric processing: app/core/metric_execution_status.py,
-- app/models/metric_plan_execution.py, app/models/metric_processing_execution.py,
-- app/models/processing_chain.py, app/models/processing_plan.py and the runtime part of
-- app/models/analytical_observation.py. `V` is the type of the observed values, Python's floats.
use outbox_service.Prelude.{ℕ, Bool, Option, List, String}

pub data ProcessingStatus : Type 0 where
  materialized processing succeeded completed_with_errors failed_configuration : ProcessingStatus

pub data PlanStatus : Type 0 where
  pending running retryable succeeded failed_permanent : PlanStatus

pub record PlanExecution : Type 0 where
  pub id : ℕ
  pub metric_processing_execution_id : ℕ
  pub event_id : ℕ
  pub processing_chain_id : ℕ
  pub processing_plan_id : ℕ
  pub status : PlanStatus
  pub attempt_count : ℕ
  pub next_attempt_at : Option ℕ
  pub started_at : Option ℕ
  pub succeeded_at : Option ℕ
  pub last_error : Option String
  pub is_retryable : Bool
  pub created_at : ℕ

pub record ProcessingExecution : Type 0 where
  pub id : ℕ
  pub event_id : ℕ
  pub processing_chain_id : ℕ
  pub status : ProcessingStatus
  pub last_error : Option String
  pub updated_at : ℕ

-- `compiled_plan_json` is the JSON document as its text. The last two fields are what the
-- relationships lead to: `metric_definition.event_type_id` and
-- `metric_definition_version.metric_definition_id`.
pub record ProcessingPlan : Type 0 where
  pub id : ℕ
  pub processing_chain_id : ℕ
  pub metric_definition_id : ℕ
  pub metric_definition_version_id : ℕ
  pub position : ℕ
  pub is_active : Bool
  pub compiled_plan_json : Option String
  pub definition_event_type_id : ℕ
  pub version_definition_id : ℕ

pub data ChainStatus : Type 0 where
  draft incomplete active retired : ChainStatus

pub record ProcessingChain : Type 0 where
  pub id : ℕ
  pub event_type_id : ℕ
  pub schema_definition_id : ℕ
  pub version_number : ℕ
  pub status : ChainStatus
  pub is_active : Bool

-- one row of `metric_definition_version_schema`
pub record Compatibility : Type 0 where
  pub metric_definition_version_id : ℕ
  pub schema_definition_id : ℕ

-- The event, with what its relationships lead to: `event_type.project_id` and the fields of
-- `schema_definition`.
pub record Event : Type 0 where
  pub id : ℕ
  pub project_id : ℕ
  pub event_type_id : ℕ
  pub schema_definition_id : ℕ
  pub json_version_internal : String
  pub payload : String
  pub type_project_id : ℕ
  pub schema_event_type_id : ℕ
  pub schema_json_version_internal : String

pub record Observation (V : Type 0) : Type 0 where
  pub project_id : ℕ
  pub event_type_id : ℕ
  pub event_id : ℕ
  pub processing_plan_id : ℕ
  pub metric_plan_execution_id : ℕ
  pub observation_key : String
  pub metric_code : String
  pub value : V

pub record Store (V : Type 0) : Type 0 where
  pub events : List Event
  pub chains : List ProcessingChain
  pub plans : List ProcessingPlan
  pub compatibilities : List Compatibility
  pub processings : List ProcessingExecution
  pub executions : List PlanExecution
  pub observations : List (Observation V)
  -- the sequences of the two execution tables
  pub next_processing_id : ℕ
  pub next_execution_id : ℕ
