-- ===== src/Cardinality/Model.antt =====
-- The data of app/services/metric_cardinality_service.py, and what it takes of
-- app/services/metric_builder_schema_analyzer.py.
use outbox_service.Prelude.{ℕ, Bool, Option, none, List, String, Result}
use outbox_service.Json.{Json, Fields}

pub data CardinalityDecision : Type 0 where
  info warning error : CardinalityDecision

-- the codes, without their common prefix BUILDER_
pub data DiagnosticCode : Type 0 where
  prometheus_name_collision prometheus_label_collision cardinality_unbounded : DiagnosticCode
  cardinality_inconsistent_snapshot cardinality_budget_exceeded cardinality_budget_warning :
      DiagnosticCode

pub data Details : Type 0 where
  collision : (first_metric_code second_metric_code prometheus_metric_name : String) → Details
  budget : (budget_limit projected_estimated_series : ℕ) → Details

pub record CardinalityDiagnostic : Type 0 where
  pub code : DiagnosticCode
  pub message : String
  pub location : Option String
  pub details : Option Details

-- one entry of `labels`
pub record LabelBreakdown : Type 0 where
  pub name : String
  pub path : String
  pub cardinality : Option ℕ
  pub source : Option String

pub record MetricCardinalityBreakdown : Type 0 where
  pub metric_code : String
  pub prometheus_metric_name : String
  pub intent : String
  pub labels : List LabelBreakdown
  pub contribution : Option ℕ
  pub accepted : Bool
  pub source_schema_definition_id : Option ℕ

pub record CardinalityAssessment : Type 0 where
  pub decision : CardinalityDecision
  pub budget_limit : ℕ
  pub current_estimated_series : ℕ
  pub candidate_contribution : Option ℕ
  pub replaced_contribution : ℕ
  pub projected_estimated_series : Option ℕ
  pub remaining_budget : Option ℕ
  pub warnings : List CardinalityDiagnostic
  pub errors : List CardinalityDiagnostic
  pub metric_breakdown : List MetricCardinalityBreakdown

pub record CardinalityPlan : Type 0 where
  pub compiled_plan_json : Fields
  pub schema_definition_id : Option ℕ
  pub json_schema : Json

-- the limits that the estimate reads
pub record AnalysisLimits : Type 0 where
  pub event_type_series_budget : ℕ
  pub event_type_series_warning : ℕ
  pub max_metric_series_estimate : ℕ

-- the fields of a descriptor that the estimate reads
pub record AnalyzedBuilderField : Type 0 where
  pub path : String
  pub label_allowed : Bool
  pub label_cardinality : Option ℕ
  pub label_cardinality_source : Option String

-- `MetricCardinalityService` with its analyzer; `analyze` raises on a schema that is too complex.
pub record CardinalityService : Type 0 where
  pub analyze : Json → Result String (List AnalyzedBuilderField)
  pub limits : AnalysisLimits

abbrev pub diagnostic : DiagnosticCode → String → Option String → CardinalityDiagnostic
diagnostic code message location = record {
  code = code;
  message = message;
  location = location;
  details = none;
}
