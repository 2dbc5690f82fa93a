-- ===== src/Execution/Tests.antt =====
-- Runs of the execution of metric plans, and its theorems at a small store.
use outbox_service.Prelude.{
  ℕ, ◌+◌, ◌≤◌, ◌<◌, ◌≡◌, refl, true, none, some, [], ◌∷◌, ok, err, length, ap, false, All, any_of,
}
use outbox_service.Execution.Model.{
  PlanStatus, ProcessingStatus, ChainStatus, PlanExecution, ProcessingExecution, ProcessingPlan,
  Event, Observation, Store,
}
use outbox_service.Execution.Provider.{
  get_active_snapshot, find_active, list_active_by_chain_id, snapshot_of, compile_plans,
  compile_plan, is_compatible,
}
use outbox_service.Execution.Repository.{
  is_eligible, find_processing_by_event_id, create_processing_if_absent,
  create_plan_executions_if_absent, insert_execution, has_execution,
}
use outbox_service.Execution.Materialization.{
  materialize_for_event, record_answer, record_snapshot, is_out_of_scope,
}
use outbox_service.Execution.Service.{Runtime, technical, execute_next, execute_order}
use outbox_service.Execution.Lifecycle.{IsAtRestStore, execute_next-IsAtRestStore}
use outbox_service.Execution.Cycle.{
  Turn, process_metric_plan_executions, remaining_attempts, process_metric_plan_executions_drains,
}
use outbox_service.Execution.Reachable.{
  start_here, then_step, materializes, cycles, Steps-IsAtRestStore,
}
use outbox_service.Execution.Atomicity.{IsAtomic, execute_order-IsAtomic}
use outbox_service.Execution.Freeze.{materialize_for_event_again}

abbrev order_placed : Event
order_placed = record {
  id = 1;
  project_id = 7;
  event_type_id = 2;
  schema_definition_id = 3;
  json_version_internal = "1";
  payload = "{}";
  type_project_id = 7;
  schema_event_type_id = 2;
  schema_json_version_internal = "1";
}

abbrev count_orders : ProcessingPlan
count_orders = record {
  id = 5;
  processing_chain_id = 4;
  metric_definition_id = 6;
  metric_definition_version_id = 8;
  position = 0;
  is_active = true;
  compiled_plan_json = some "{}";
  definition_event_type_id = 2;
  version_definition_id = 6;
}

abbrev start : Store ℕ
start = record {
  events = order_placed ∷ [];
  chains =
      record {
        id = 4;
        event_type_id = 2;
        schema_definition_id = 3;
        version_number = 1;
        status = ChainStatus.active;
        is_active = true;
      }
      ∷ [];
  plans = count_orders ∷ [];
  compatibilities = record { metric_definition_version_id = 8; schema_definition_id = 3 } ∷ [];
  processings = [];
  executions = [];
  observations = [];
  next_processing_id = 1;
  next_execution_id = 1;
}

abbrev frozen : ProcessingExecution
frozen = record {
  id = 1;
  event_id = 1;
  processing_chain_id = 4;
  status = ProcessingStatus.materialized;
  last_error = none;
  updated_at = 50;
}

abbrev waiting : PlanExecution
waiting = record {
  id = 1;
  metric_processing_execution_id = 1;
  event_id = 1;
  processing_chain_id = 4;
  processing_plan_id = 5;
  status = PlanStatus.pending;
  attempt_count = 0;
  next_attempt_at = none;
  started_at = none;
  succeeded_at = none;
  last_error = none;
  is_retryable = true;
  created_at = 50;
}

abbrev planned : Store ℕ
planned = record start {
  processings = frozen ∷ [];
  executions = waiting ∷ [];
  next_processing_id = 2;
  next_execution_id = 2;
}

abbrev one : Observation ℕ
one = record {
  project_id = 7;
  event_type_id = 2;
  event_id = 1;
  processing_plan_id = 5;
  metric_plan_execution_id = 1;
  observation_key = "k";
  metric_code = "orders";
  value = 1;
}

abbrev working : Runtime ℕ
working = record {
  extract_for_plan = λ _ _ _. ok (one ∷ []);
  retry_delay = λ n. n;
  max_attempts = 3;
  insert_error = λ o. none;
  release_error = λ x. none;
}

abbrev broken : Runtime ℕ
broken = record working { extract_for_plan = λ _ _ _. err (technical "down") }

order_is_planned :
    materialize_for_event (λ _. "defect") 50 order_placed start ≡ (planned, some frozen)
unfolding materialize_for_event record_answer record_snapshot is_out_of_scope get_active_snapshot
    find_active list_active_by_chain_id snapshot_of compile_plans compile_plan is_compatible
    find_processing_by_event_id create_processing_if_absent create_plan_executions_if_absent
    insert_execution has_execution
order_is_planned = refl

materialize_for_event_again_example :
    materialize_for_event
      (λ _. "defect")
      90
      order_placed
      (materialize_for_event (λ _. "defect") 50 order_placed start).0
    ≡ ((materialize_for_event (λ _. "defect") 50 order_placed start).0, some frozen)
materialize_for_event_again_example =
    materialize_for_event_again (λ _. "defect") 50 90 order_placed start frozen
      (ap (λ a. a.1) order_is_planned)

planned-IsAtRestStore : IsAtRestStore 3 planned
planned-IsAtRestStore = ((refl, refl, refl), tt)

execute_next-IsAtRestStore_example : IsAtRestStore 3 (execute_next broken 60 planned).0
execute_next-IsAtRestStore_example =
    execute_next-IsAtRestStore broken 60 planned planned-IsAtRestStore

abbrev turn : Turn
turn = record { now = 60; commits = true; publishes = true }

process_metric_plan_executions_drains_example :
    let turns = turn ∷ turn ∷ turn ∷ turn ∷ [] in
    let (s', results) = process_metric_plan_executions working turns planned in
    (length results ≤ length turns)
    × (length results + remaining_attempts working s' ≤ remaining_attempts working planned)
    × (All (λ t. (t.commits ≡ true) × (t.publishes ≡ true) × (55 ≤ t.now)) turns
        → remaining_attempts working planned < length turns
        → any_of (is_eligible 3 55) s'.executions ≡ false)
process_metric_plan_executions_drains_example =
    process_metric_plan_executions_drains working 55 (turn ∷ turn ∷ turn ∷ turn ∷ []) planned
      (tt, tt)

execute_order-IsAtomic_example :
    let (s', r) = execute_order working 60 waiting planned in
    IsAtomic working 60 [] s'.observations r.status r.observation_count
execute_order-IsAtomic_example = execute_order-IsAtomic working 60 waiting planned

Steps-IsAtRestStore_example :
    IsAtRestStore 3
      (process_metric_plan_executions broken
        (turn ∷ turn ∷ [])
        (materialize_for_event (λ _. "defect") 50 order_placed start).0).0
Steps-IsAtRestStore_example =
    Steps-IsAtRestStore 3 start
      (process_metric_plan_executions broken (turn ∷ turn ∷ [])
        (materialize_for_event (λ _. "defect") 50 order_placed start).0).0
      tt
      (then_step (then_step start_here (materializes (λ _. "defect") 50 order_placed))
        (cycles broken (turn ∷ turn ∷ []) refl))
