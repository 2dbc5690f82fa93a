-- ===== src/Chains/Service.antt =====
-- app/services/processing_chain_activation_service.py, with the cardinality service and the lock of
-- the event type that app/container/service_factory.py gives it.
use outbox_service.Prelude.{
  ℕ, Bool, true, false, not, Option, none, some, List, [], ◌∷◌, ◌++◌, String, map, if◌then◌else◌,
  ◌==◌, any_of, find_row, Result, ok, err, ◌>>=◌, ◌>>◌, raise_if, or_raise,
}
use outbox_service.Json.{Json, object, Fields}
use outbox_service.Cardinality.Model.{
  CardinalityDecision, error, CardinalityDiagnostic, CardinalityAssessment, CardinalityPlan,
  CardinalityService,
}
use outbox_service.Cardinality.Assess.{assess}
use outbox_service.Chains.Model.{
  ProcessingChain, ProcessingPlan, SchemaDefinition, Registry, ChainError, configuration_not_found,
  configuration_scope, chain_incomplete, analysis, over_budget,
}
use outbox_service.Chains.Repository.{list_active_by_event_type, list_active_by_chain_id}

abbrev pub find_schema : ℕ → Registry → Option SchemaDefinition
find_schema id db = find_row (λ (s : SchemaDefinition). s.id) id db.schemas

-- `_lock_event_type`
unfoldable pub lock_event_type : ℕ → Registry → Result ChainError (Unit {0})
lock_event_type event_type_id db =
    raise_if (not (any_of (λ i. i == event_type_id) db.event_types)) configuration_not_found

-- `_validate_schema_scope`, with the schema that is there
unfoldable pub validate_schema_scope :
    Option SchemaDefinition → ℕ → Result ChainError SchemaDefinition
validate_schema_scope schema event_type_id = do
  s ← or_raise schema configuration_not_found
  raise_if (not (s.event_type_id == event_type_id)) configuration_scope
  ok s

abbrev pub cardinality_plan : SchemaDefinition → Fields → CardinalityPlan
cardinality_plan schema plan = record {
  compiled_plan_json = plan;
  schema_definition_id = some schema.id;
  json_schema = schema.json_schema;
}

-- a document that is a dict
unfoldable pub dict_of : ChainError → Json → Result ChainError Fields
dict_of e (object fs) = ok fs
dict_of e _ = err e

-- the loop over the plans of an active chain
unfoldable pub plan_entries :
    SchemaDefinition → List ProcessingPlan → Result ChainError (List CardinalityPlan)
plan_entries schema [] = ok []
plan_entries schema (p ∷ ps) = dict_of chain_incomplete p.compiled_plan_json >>= λ fs.
    plan_entries schema ps >>= λ rest. ok (cardinality_plan schema fs ∷ rest)

-- the loop over the active chains: `current` and `replaced`
unfoldable pub active_entries :
    ℕ
    → List ProcessingChain
    → Registry
    → Result ChainError (List CardinalityPlan × List CardinalityPlan)
active_entries schema_id [] db = ok ([], [])
active_entries schema_id (c ∷ cs) db = do
  active_schema ← or_raise (find_schema c.schema_definition_id db) chain_incomplete
  entries ← plan_entries active_schema (list_active_by_chain_id c.id db)
  (current, replaced) ← active_entries schema_id cs db
  ok (
    entries ++ current,
    if c.schema_definition_id == schema_id then entries ++ replaced else replaced,
  )

-- an error of the analyzer is passed on
unfoldable pub assessed :
    Result String CardinalityAssessment → Result ChainError CardinalityAssessment
assessed (ok a) = ok a
assessed (err e) = err (analysis e)

unfoldable pub is_error : CardinalityDecision → Bool
is_error error = true
is_error _ = false

-- `errors[0]`
unfoldable pub first_error : List CardinalityDiagnostic → Option CardinalityDiagnostic
first_error [] = none
first_error (d ∷ _) = some d

-- `_require_safe_cardinality`, with the cardinality service that the factory always supplies
unfoldable pub require_safe_cardinality :
    CardinalityService
    → ℕ
    → SchemaDefinition
    → List Fields
    → Registry
    → Result ChainError (Unit {0})
unfolding assessed is_error first_error
require_safe_cardinality cardinality event_type_id schema candidate_plans db = do
  (current, replaced) ← active_entries schema.id (list_active_by_event_type event_type_id db) db
  a ← assessed (assess cardinality current (map (cardinality_plan schema) candidate_plans) replaced)
  raise_if (is_error a.decision) (over_budget (first_error a.errors))
