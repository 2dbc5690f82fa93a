-- ===== src/Chains/Model.antt =====
-- The rows of app/models/processing_chain.py, processing_plan.py, metric_definition_version.py and
-- schema_definition.py, and the dataclasses of app/services/processing_chain_builder_service.py.
use outbox_service.Prelude.{ℕ, Bool, Option, List, String, Result}
use outbox_service.Json.{Json, Fields}
use outbox_service.Cardinality.Model.{CardinalityDiagnostic}
use outbox_service.Execution.Model.{ChainStatus, Compatibility}

pub record ProcessingChain : Type 0 where
  pub id : ℕ
  pub event_type_id : ℕ
  pub schema_definition_id : ℕ
  pub version_number : ℕ
  pub status : ChainStatus
  pub is_active : Bool
  pub valid_from : Option ℕ
  pub valid_to : Option ℕ
  pub activated_at : Option ℕ

-- `compiled_plan_json` is a document; `null` is Python's `None`.
pub record ProcessingPlan : Type 0 where
  pub id : ℕ
  pub processing_chain_id : ℕ
  pub metric_definition_id : ℕ
  pub metric_definition_version_id : ℕ
  pub position : ℕ
  pub is_active : Bool
  pub compiled_plan_json : Json

-- The last two fields are those of the row's `metric_definition`.
pub record MetricDefinitionVersion : Type 0 where
  pub id : ℕ
  pub metric_definition_id : ℕ
  pub yaml_version_number : ℕ
  pub yaml_content : String
  pub is_active : Bool
  pub definition_event_type_id : ℕ
  pub definition_is_active : Bool

pub record SchemaDefinition : Type 0 where
  pub id : ℕ
  pub event_type_id : ℕ
  pub json_schema : Json

-- the tables, with the sequences of the two that are written
pub record Registry : Type 0 where
  pub event_types : List ℕ
  pub schemas : List SchemaDefinition
  pub versions : List MetricDefinitionVersion
  pub compatibilities : List Compatibility
  pub chains : List ProcessingChain
  pub plans : List ProcessingPlan
  pub next_chain_id : ℕ
  pub next_plan_id : ℕ

pub record PreparedProcessingPlan : Type 0 where
  pub metric_definition_id : ℕ
  pub metric_definition_version_id : ℕ
  pub compiled_plan_json : Fields

pub record PreparedProcessingChain : Type 0 where
  pub event_type_id : ℕ
  pub schema_definition_id : ℕ
  pub plans : List PreparedProcessingPlan

-- one entry of a signature
pub record PlanSignature : Type 0 where
  pub metric_definition_id : ℕ
  pub metric_definition_version_id : ℕ
  pub plan_text : String

-- `metric_yaml_service.compile` on the content and the schema, and `json.dumps` with sorted keys
pub record Tools : Type 0 where
  pub compile : String → Json → Result String Fields
  pub dumps : Json → String

-- the exceptions; `malformed` is what Python raises on a document of another shape
pub data ChainError : Type 0 where
  configuration_not_found configuration_scope chain_not_found chain_incomplete : ChainError
  selection prometheus_collision multiple_rows malformed : ChainError
  compilation analysis : String → ChainError
  over_budget : Option CardinalityDiagnostic → ChainError
