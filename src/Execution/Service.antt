-- ===== src/Execution/Service.antt =====
-- `MetricPlanExecutionService` of app/services/metric_runtime_service.py.
use outbox_service.Prelude.{
  ℕ, suc, ◌+◌, Bool, true, false, ◌&&◌, ◌||◌, Option, none, some, List, [], ◌∷◌, String, Result, ok,
  err, if◌then◌else◌, ◌==◌, leb, find_row, truncate, all_of, any_of,
}
use outbox_service.Execution.Model.{
  ProcessingStatus, PlanStatus, PlanExecution, ProcessingExecution, ProcessingPlan, Event,
  Observation, Store,
}
use outbox_service.Execution.Repository.{
  lock_next_eligible, list_plan_executions, touch_processing, save_execution,
  add_runtime_observation_if_absent, is_plan_status,
}

-- What a plan may raise: `ObservationExtractionError` and `CounterValueError` are permanent.
pub data ExecutionError : Type 0 where
  permanent : String → ExecutionError
  technical : String → ExecutionError

abbrev pub message : ExecutionError → String
message (permanent m) = m
message (technical m) = m

-- The collaborators: `MetricsExtractionService.extract_for_plan`, the delay before a retry, and what
-- the database raises on the insert of a row, as on a code that is too long for its column, and on the
-- flush at the end of the savepoint.
pub record Runtime (V : Type 0) : Type 0 where
  pub extract_for_plan :
      Event → ProcessingPlan → PlanExecution → Result ExecutionError (List (Observation V))
  pub retry_delay : ℕ → ℕ
  pub max_attempts : ℕ
  pub insert_error : Observation V → Option String
  pub release_error : PlanExecution → Option String

-- `MetricPlanExecutionResult`
pub record ExecutionResult : Type 0 where
  pub execution_id : ℕ
  pub status : PlanStatus
  pub observation_count : ℕ
  pub error : Option String

unfoldable pub coherent_plan : PlanExecution → ProcessingPlan → Bool
coherent_plan x p =
    p.processing_chain_id == x.processing_chain_id && is_compiled p.compiled_plan_json
  where
    is_compiled : Option String → Bool
    is_compiled none = false
    is_compiled (some _) = true

-- the order as it is locked: RUNNING, with one more attempt
unfoldable pub begin_attempt : ℕ → PlanExecution → PlanExecution
begin_attempt now x = record x {
  status = PlanStatus.running;
  attempt_count = x.attempt_count + 1;
  started_at = some now;
  next_attempt_at = none;
}

unfoldable pub mark_succeeded : ℕ → PlanExecution → PlanExecution
mark_succeeded now x = record x {
  status = PlanStatus.succeeded;
  succeeded_at = some now;
  last_error = none;
  is_retryable = false;
}

-- `_record_permanent_failure`
unfoldable pub record_permanent_failure : String → PlanExecution → PlanExecution
record_permanent_failure error x = record x {
  status = PlanStatus.failed_permanent;
  is_retryable = false;
  next_attempt_at = none;
  last_error = some (truncate 2000 error);
}

-- the status of the parent, from the statuses of its plans
unfoldable pub parent_after : List PlanExecution → ProcessingExecution → ProcessingExecution
parent_after plans p =
    if all_of (λ x. is_plan_status x.status PlanStatus.succeeded) plans
    then record p { status = ProcessingStatus.succeeded; last_error = none }
    else if all_of
          (λ x.
            is_plan_status x.status PlanStatus.succeeded
            || is_plan_status x.status PlanStatus.failed_permanent)
          plans
        && any_of (λ x. is_plan_status x.status PlanStatus.failed_permanent) plans
    then record p {
      status = ProcessingStatus.completed_with_errors;
      last_error = some "One or more metric plans failed permanently";
    }
    else record p { status = ProcessingStatus.materialized }

module _ {V : Type 0} (rt : Runtime V) (now : ℕ) where
  unfoldable pub inserted_one :
      Bool
      → List (Observation V) × Result ExecutionError ℕ
      → List (Observation V) × Result ExecutionError ℕ
  inserted_one inserted (os, ok count) = (os, ok (if inserted then suc count else count))
  inserted_one inserted (os, err f) = (os, err f)

  -- the loop of `_execute_locked`: the observations as they are written, and how many were inserted
  -- or what was raised
  unfoldable pub insert_observations :
      List (Observation V) → List (Observation V) → List (Observation V) × Result ExecutionError ℕ
  unfolding inserted_one
  insert_observations [] os = (os, ok 0)
  insert_observations (o ∷ rest) os = elim (rt.insert_error o) [
    | some m ↦ (os, err (technical m))
    | none ↦
        let (os', inserted) = add_runtime_observation_if_absent o os in
        inserted_one inserted (insert_observations rest os')
  ]

  -- `_execute_locked`: the observations as they are written, and the count or what is raised
  unfoldable pub execute_locked :
      PlanExecution → Store V → List (Observation V) × Result ExecutionError ℕ
  execute_locked x s = elim (find_row (λ e. e.id) x.event_id s.events) [
    | none ↦ (s.observations, err (permanent "references a missing Event"))
    | some e ↦ elim (find_row (λ p. p.id) x.processing_plan_id s.plans) [
      | none ↦ (s.observations, err (permanent "references a missing ProcessingPlan"))
      | some p ↦
          if coherent_plan x p
          then elim (rt.extract_for_plan e p x) [
            | err f ↦ (s.observations, err f)
            | ok os ↦ insert_observations os s.observations
          ]
          else (s.observations, err (permanent "references an incoherent plan"))
    ]
  ]

  -- `_record_technical_failure`
  unfoldable pub record_technical_failure : String → PlanExecution → PlanExecution
  record_technical_failure error x =
      if leb rt.max_attempts x.attempt_count
      then record x {
        last_error = some (truncate 2000 error);
        status = PlanStatus.failed_permanent;
        is_retryable = false;
        next_attempt_at = none;
      }
      else record x {
        last_error = some (truncate 2000 error);
        status = PlanStatus.retryable;
        is_retryable = true;
        next_attempt_at = some (now + rt.retry_delay x.attempt_count);
      }

  unfoldable pub record_error : ExecutionError → PlanExecution → PlanExecution
  record_error (permanent m) x = record_permanent_failure m x
  record_error (technical m) x = record_technical_failure m x

  -- the end of the savepoint, after `count` observations: the flush may raise, with the count kept
  unfoldable pub release :
      PlanExecution
      → List (Observation V)
      → ℕ
      → Store V
      → Option String
      → Store V × PlanExecution × ℕ
  release x os count s none =
      let done = mark_succeeded now x in
      (record (save_execution done s) { observations = os }, done, count)
  release x os count s (some m) =
      let failed = record_error (technical m) x in (save_execution failed s, failed, count)

  -- the savepoint: an exception takes back the observations that were written, and leaves the attempt
  unfoldable pub settle :
      PlanExecution
      → List (Observation V) × Result ExecutionError ℕ
      → Store V
      → Store V × PlanExecution × ℕ
  unfolding release
  settle x (os, ok count) s = release x os count s (rt.release_error (mark_succeeded now x))
  settle x (os, err f) s = let failed = record_error f x in (save_execution failed s, failed, 0)

  -- `_refresh_parent_status`; a parent with no plans is left alone
  unfoldable pub refresh_parent_status : ℕ → Store V → Store V
  unfolding parent_after
  refresh_parent_status processing_id s = elim (list_plan_executions processing_id s) [
    | [] ↦ s
    | x ∷ xs ↦ elim (find_row (λ p. p.id) processing_id s.processings) [
      | none ↦ s
      | some p ↦ touch_processing now (parent_after (x ∷ xs) p) s
    ]
  ]

  -- the parent goes to PROCESSING while the order runs
  unfoldable pub start_parent : ℕ → Store V → Store V
  start_parent processing_id s = elim (find_row (λ p. p.id) processing_id s.processings) [
    | none ↦ s
    | some p ↦ touch_processing now (record p { status = ProcessingStatus.processing }) s
  ]

  -- `execute_next` on the order that it locked
  unfoldable pub execute_order : PlanExecution → Store V → Store V × ExecutionResult
  execute_order x s =
      let running = begin_attempt now x in
      let s' = start_parent x.metric_processing_execution_id (save_execution running s) in
      let (s'', settled, count) = settle running (execute_locked running s') s' in
      (
        refresh_parent_status x.metric_processing_execution_id s'',
        record {
          execution_id = settled.id;
          status = settled.status;
          observation_count = count;
          error = settled.last_error;
        },
      )

  -- `execute_next`
  unfoldable pub execute_next : Store V → Store V × Option ExecutionResult
  execute_next s = elim (lock_next_eligible rt.max_attempts now s) [
    | none ↦ (s, none)
    | some x ↦ let (s', result) = execute_order x s in (s', some result)
  ]
