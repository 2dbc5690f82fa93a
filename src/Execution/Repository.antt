-- ===== src/Execution/Repository.antt =====
-- app/repositories/metric_execution_repository.py, and the insert of
-- app/repositories/analytical_observation_repository.py.
use outbox_service.Prelude.{
  ℕ, suc, Bool, true, false, not, ◌&&◌, ◌||◌, Option, none, some, List, [], ◌∷◌, ◌++◌, String,
  if◌then◌else◌, ◌==◌, str_eq, leb, ltb, select, any_of, order_by, find_row, put_row, truncate,
}
use outbox_service.Execution.Model.{
  ProcessingStatus, PlanStatus, PlanExecution, ProcessingExecution, Observation, Store,
}

-- the unique key (event_id, processing_plan_id)
unfoldable pub has_execution : ℕ → ℕ → List PlanExecution → Bool
has_execution event_id plan_id =
    any_of (λ x. x.event_id == event_id && x.processing_plan_id == plan_id)

abbrev pub fresh_execution : ℕ → ℕ → ℕ → ℕ → ℕ → ℕ → PlanExecution
fresh_execution id now processing_id event_id chain_id plan_id = record {
  id = id;
  metric_processing_execution_id = processing_id;
  event_id = event_id;
  processing_chain_id = chain_id;
  processing_plan_id = plan_id;
  status = PlanStatus.pending;
  attempt_count = 0;
  next_attempt_at = none;
  started_at = none;
  succeeded_at = none;
  last_error = none;
  is_retryable = true;
  created_at = now;
}

module _ {V : Type 0} where
  -- `find_processing_by_event_id`
  unfoldable pub find_processing_by_event_id : ℕ → Store V → Option ProcessingExecution
  find_processing_by_event_id event_id s = find_row (λ p. p.event_id) event_id s.processings

  insert_processing : ProcessingExecution → Store V → Store V × ProcessingExecution
  insert_processing p s = (
    record s {
      processings = s.processings ++ p ∷ [];
      next_processing_id = suc s.next_processing_id;
    },
    p,
  )

  -- `create_processing_if_absent`: the insert does nothing where the event has a row already
  unfoldable pub create_processing_if_absent :
      ℕ → ℕ → ℕ → ProcessingStatus → Option String → Store V → Store V × ProcessingExecution
  unfolding find_processing_by_event_id insert_processing
  create_processing_if_absent now event_id chain_id status last_error s =
      elim (find_processing_by_event_id event_id s) [
        | some p ↦ (s, p)
        | none ↦
            insert_processing
              (record {
                id = s.next_processing_id;
                event_id = event_id;
                processing_chain_id = chain_id;
                status = status;
                last_error = last_error;
                updated_at = now;
              })
              s
      ]

  -- `INSERT ... ON CONFLICT DO NOTHING` of one row
  unfoldable pub insert_execution : PlanExecution → Store V → Store V
  insert_execution x s =
      if has_execution x.event_id x.processing_plan_id s.executions then s else record s {
        executions = s.executions ++ x ∷ [];
        next_execution_id = suc s.next_execution_id;
      }

  -- `create_plan_executions_if_absent`
  unfoldable pub create_plan_executions_if_absent : ℕ → ℕ → ℕ → ℕ → List ℕ → Store V → Store V
  create_plan_executions_if_absent now processing_id event_id chain_id [] s = s
  create_plan_executions_if_absent now processing_id event_id chain_id (plan_id ∷ plan_ids) s =
      create_plan_executions_if_absent now processing_id event_id chain_id plan_ids (
        insert_execution
          (fresh_execution s.next_execution_id now processing_id event_id chain_id plan_id) s)

  -- `create_failed_plan_execution_if_absent`
  unfoldable pub create_failed_plan_execution_if_absent :
      ℕ → ℕ → ℕ → ℕ → ℕ → String → Store V → Store V
  create_failed_plan_execution_if_absent now processing_id event_id chain_id plan_id last_error s =
      insert_execution
        (record (fresh_execution s.next_execution_id now processing_id event_id chain_id plan_id) {
          status = PlanStatus.failed_permanent;
          last_error = some (truncate 2000 last_error);
          is_retryable = false;
        })
        s

  -- the unique key (event_id, processing_plan_id, observation_key)
  unfoldable pub has_observation : Observation V → List (Observation V) → Bool
  has_observation o = any_of (λ x.
      x.event_id == o.event_id
      && x.processing_plan_id == o.processing_plan_id
      && str_eq x.observation_key o.observation_key)

  -- `add_runtime_observation_if_absent`
  unfoldable pub add_runtime_observation_if_absent :
      Observation V → List (Observation V) → List (Observation V) × Bool
  add_runtime_observation_if_absent o os =
      if has_observation o os then (os, false) else (os ++ o ∷ [], true)

  -- `list_plan_executions`
  unfoldable pub list_plan_executions : ℕ → Store V → List PlanExecution
  list_plan_executions processing_id s =
      order_by (λ x y. leb x.id y.id)
        (select (λ x. x.metric_processing_execution_id == processing_id) s.executions)

  -- `touch_processing`, with the flush of the row
  unfoldable pub touch_processing : ℕ → ProcessingExecution → Store V → Store V
  touch_processing now p s = record s {
    processings = put_row (λ r. r.id) (record p { updated_at = now }) s.processings;
  }

  -- the flush of a changed order
  abbrev pub save_execution : PlanExecution → Store V → Store V
  save_execution x s = record s { executions = put_row (λ r. r.id) x s.executions }

abbrev pub is_plan_status : PlanStatus → PlanStatus → Bool
is_plan_status PlanStatus.pending PlanStatus.pending = true
is_plan_status PlanStatus.running PlanStatus.running = true
is_plan_status PlanStatus.retryable PlanStatus.retryable = true
is_plan_status PlanStatus.succeeded PlanStatus.succeeded = true
is_plan_status PlanStatus.failed_permanent PlanStatus.failed_permanent = true
is_plan_status _ _ = false

abbrev pub is_due : ℕ → Option ℕ → Bool
is_due now none = true
is_due now (some t) = leb t now

-- the `WHERE` of `lock_next_eligible`
unfoldable pub is_eligible : ℕ → ℕ → PlanExecution → Bool
is_eligible max_attempts now x =
    ltb x.attempt_count max_attempts
    && (is_plan_status x.status PlanStatus.pending
        || is_plan_status x.status PlanStatus.retryable && is_due now x.next_attempt_at)

-- lexicographic order by creation and id
created_first : PlanExecution → PlanExecution → Bool
created_first x y =
    ltb x.created_at y.created_at || x.created_at == y.created_at && not (ltb y.id x.id)

due_first : Option ℕ → Option ℕ → Bool → Bool
due_first none none tie = tie
due_first none (some u) tie = true
due_first (some t) none tie = false
due_first (some t) (some u) tie = ltb t u || t == u && tie

-- `ORDER BY next_attempt_at NULLS FIRST, created_at, id`
unfoldable pub comes_first : PlanExecution → PlanExecution → Bool
unfolding due_first created_first
comes_first x y = due_first x.next_attempt_at y.next_attempt_at (created_first x y)

unfoldable pub head : List PlanExecution → Option PlanExecution
head [] = none
head (x ∷ xs) = some x

-- `lock_next_eligible`
unfoldable pub lock_next_eligible : {V : Type 0} → ℕ → ℕ → Store V → Option PlanExecution
lock_next_eligible max_attempts now s =
    head (order_by comes_first (select (is_eligible max_attempts now) s.executions))
