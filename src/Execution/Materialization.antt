-- ===== src/Execution/Materialization.antt =====
-- `MetricExecutionMaterializationService` of app/services/metric_runtime_service.py.
use outbox_service.Prelude.{
  ℕ, Bool, not, ◌||◌, Option, none, some, map, String, Result, ok, err, if◌then◌else◌, ◌==◌, str_eq,
  truncate,
}
use outbox_service.Execution.Model.{
  materialized, failed_configuration, ProcessingExecution, Event, Store,
}
use outbox_service.Execution.Provider.{ConfigurationError, Snapshot, get_active_snapshot}
use outbox_service.Execution.Repository.{
  find_processing_by_event_id, create_processing_if_absent, create_plan_executions_if_absent,
  create_failed_plan_execution_if_absent,
}

-- the event does not fit the schema that it names
unfoldable pub is_out_of_scope : Event → Bool
is_out_of_scope e =
    not (e.type_project_id == e.project_id)
    || not (e.schema_event_type_id == e.event_type_id)
    || not (str_eq e.schema_json_version_internal e.json_version_internal)

-- `describe` is `str(exception)`.
module _ {V : Type 0} (describe : ConfigurationError → String) (now : ℕ) where
  unfoldable pub record_defect :
      Event → ConfigurationError → Store V → Store V × Option ProcessingExecution
  record_defect e x s =
      let (s', p) =
        create_processing_if_absent now e.id x.processing_chain_id failed_configuration
          (some (truncate 2000 (describe x))) s in
      elim x.processing_plan_id [
        | none ↦ (s', some p)
        | some plan_id ↦ (
          create_failed_plan_execution_if_absent now p.id e.id x.processing_chain_id plan_id
              (describe x) s',
          some p,
        )
      ]

  unfoldable pub record_snapshot : Event → Snapshot → Store V → Store V × Option ProcessingExecution
  record_snapshot e snapshot s =
      if is_out_of_scope e
      then (let (s', p) =
            create_processing_if_absent now e.id snapshot.processing_chain_id failed_configuration
              (some "Event scope does not match its exact SchemaDefinition") s in
          (s', some p))
      else (let (s', p) =
            create_processing_if_absent now e.id snapshot.processing_chain_id materialized none s in
          if p.processing_chain_id == snapshot.processing_chain_id
          then (
            create_plan_executions_if_absent now p.id e.id snapshot.processing_chain_id
                (map (λ plan. plan.processing_plan_id) snapshot.plans) s',
            some p,
          )
          else (s', some p))

  unfoldable pub record_answer :
      Event
      → Result ConfigurationError (Option Snapshot)
      → Store V
      → Store V × Option ProcessingExecution
  record_answer e (err x) s = record_defect e x s
  record_answer e (ok none) s = (s, none)
  record_answer e (ok (some snapshot)) s = record_snapshot e snapshot s

  -- `materialize_for_event`
  unfoldable pub materialize_for_event : Event → Store V → Store V × Option ProcessingExecution
  materialize_for_event e s = elim (find_processing_by_event_id e.id s) [
    | some p ↦ (s, some p)
    | none ↦ record_answer e (get_active_snapshot e.event_type_id e.schema_definition_id s) s
  ]
