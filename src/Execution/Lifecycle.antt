-- ===== src/Execution/Lifecycle.antt =====
-- The lifecycle of a metric plan order under `execute_next`.
use outbox_service.Prelude.{
  ℕ, ◌+◌, ◌≤◌, ◌<◌, ◌≡◌, refl, Bool, true, false, Option, none, some, List, [], ◌∷◌, Result, ok,
  err, inl, inr, ◌⊎◌, arith, All, All-select, Bool-cases, Option-cases, leb, put_row, put_row-All,
  put_row-put_row, order_by-All, select-All, ap, ◌∙◌, subst, String,
}
use outbox_service.Execution.Model.{
  PlanStatus, pending, running, retryable, succeeded, failed_permanent, PlanExecution, Observation,
  Store,
}
use outbox_service.Execution.Repository.{
  is_eligible, comes_first, lock_next_eligible, head, save_execution, touch_processing,
}
use outbox_service.Execution.Service.{
  ExecutionError, permanent, technical, Runtime, begin_attempt, mark_succeeded,
  record_permanent_failure, record_technical_failure, record_error, execute_locked, settle,
  refresh_parent_status, start_parent, execute_order, execute_next, release,
}

-- What the status of an order says of its attempts, its next attempt, its error and whether it is
-- retryable. No order that is at rest is RUNNING.
abbrev pub AtStatus : ℕ → ℕ → Option ℕ → Option String → Bool → PlanStatus → Type 0
AtStatus max attempts next error again pending = (attempts ≡ 0) × (next ≡ none) × (again ≡ true)
AtStatus max attempts next error again running = ⊥
AtStatus max attempts next error again retryable =
    (1 ≤ attempts)
    × (attempts < max)
    × ((t : ℕ) × (next ≡ some t))
    × ((m : String) × (error ≡ some m))
    × (again ≡ true)
AtStatus max attempts next error again succeeded =
    (1 ≤ attempts) × (attempts ≤ max) × (next ≡ none) × (error ≡ none) × (again ≡ false)
AtStatus max attempts next error again failed_permanent =
    (attempts ≤ max) × (next ≡ none) × ((m : String) × (error ≡ some m)) × (again ≡ false)

abbrev pub IsAtRest : ℕ → PlanExecution → Type 0
IsAtRest max x = AtStatus max x.attempt_count x.next_attempt_at x.last_error x.is_retryable x.status

abbrev pub IsAtRestStore : {V : Type 0} → ℕ → Store V → Type 0
IsAtRestStore max s = All (IsAtRest max) s.executions

module _ {V : Type 0} (rt : Runtime V) (now : ℕ) where
  executions-start_parent :
      (i : ℕ) (s : Store V) → (start_parent rt now i s).executions ≡ s.executions
  unfolding start_parent touch_processing
  executions-start_parent i s = ground arith

  executions-refresh :
      (i : ℕ) (s : Store V) → (refresh_parent_status rt now i s).executions ≡ s.executions
  unfolding refresh_parent_status touch_processing
  executions-refresh i s = ground arith

  record_error-IsAtRest :
      (f : ExecutionError) (x : PlanExecution)
      → x.attempt_count < rt.max_attempts
      → IsAtRest rt.max_attempts (record_error rt now f (begin_attempt now x))
  unfolding record_error begin_attempt record_permanent_failure record_technical_failure
  record_error-IsAtRest (permanent m) x h = (omega arith, refl, (_, refl), refl)
  record_error-IsAtRest (technical m) x h =
      elim (Bool-cases (leb rt.max_attempts (x.attempt_count + 1))) [
        | inl last ↦ rw last (omega arith, refl, (_, refl), refl)
        | inr more ↦ rw more (omega arith, ground arith, (_, refl), (_, refl), refl)
      ]

  -- a savepoint that is kept, or one that is rolled back for an error
  pub settle-cases :
      (x : PlanExecution) (r : List (Observation V) × Result ExecutionError ℕ) (s : Store V)
      → ((n : ℕ) × (r.1 ≡ ok n)
          × (settle rt now x r s ≡ (
            record (save_execution (mark_succeeded now x) s) { observations = r.0 },
            mark_succeeded now x,
            n,
          )))
        ⊎ ((f : ExecutionError) × (n : ℕ) × (settle rt now x r s
              ≡ (save_execution (record_error rt now f x) s, record_error rt now f x, n)))
  unfolding settle release
  settle-cases x (os, err f) s = inr (f, 0, refl)
  settle-cases x (os, ok n) s = elim (Option-cases (rt.release_error (mark_succeeded now x))) [
    | inl released ↦ inl (n, refl, rw released refl)
    | inr (m, raised) ↦ inr (technical m, n, rw raised refl)
  ]

  settle-IsAtRest :
      (x : PlanExecution) (r : List (Observation V) × Result ExecutionError ℕ) (s : Store V)
      → x.attempt_count < rt.max_attempts
      → IsAtRest rt.max_attempts (settle rt now (begin_attempt now x) r s).1
  settle-IsAtRest x r s h = elim (settle-cases (begin_attempt now x) r s) [
    | inl (n, _, kept) ↦ rw kept (
        unfold mark_succeeded in
        unfold begin_attempt in (omega arith, omega arith, refl, refl, refl))
    | inr (f, n, undone) ↦ rw undone (record_error-IsAtRest f x h)
  ]

  executions-settle :
      (x : PlanExecution) (r : List (Observation V) × Result ExecutionError ℕ) (s : Store V)
      → (settle rt now x r s).0.executions
        ≡ put_row (λ y. y.id) (settle rt now x r s).1 s.executions
  executions-settle x r s = elim (settle-cases x r s) [
    | inl (n, _, kept) ↦ rw kept refl
    | inr (f, n, undone) ↦ rw undone refl
  ]

  error_keeps :
      (f : ExecutionError) (x : PlanExecution)
      → ((record_error rt now f x).id ≡ x.id)
        × ((record_error rt now f x).attempt_count ≡ x.attempt_count)
  unfolding record_error record_permanent_failure record_technical_failure
  error_keeps (permanent m) x = (refl, refl)
  error_keeps (technical m) x = (ground arith, ground arith)

  settle_keeps :
      (x : PlanExecution) (r : List (Observation V) × Result ExecutionError ℕ) (s : Store V)
      → ((settle rt now x r s).1.id ≡ x.id)
        × ((settle rt now x r s).1.attempt_count ≡ x.attempt_count)
  settle_keeps x r s = elim (settle-cases x r s) [
    | inl (n, _, kept) ↦ rw kept (unfold mark_succeeded in (refl, refl))
    | inr (f, n, undone) ↦ rw undone (error_keeps f x)
  ]

  -- the store in which the plan runs, and the order as it ends
  running_store : PlanExecution → Store V → Store V
  running_store x s =
      start_parent rt now x.metric_processing_execution_id (save_execution (begin_attempt now x) s)

  pub settled_order : PlanExecution → Store V → PlanExecution
  unfolding running_store
  settled_order x s =
      let s' = running_store x s in
      (settle rt now (begin_attempt now x) (execute_locked rt now (begin_attempt now x) s') s').1

  pub executions-execute_order :
      (x : PlanExecution) (s : Store V)
      → (execute_order rt now x s).0.executions
        ≡ put_row (λ y. y.id) (settled_order x s) s.executions
  unfolding execute_order settled_order
  executions-execute_order x s =
      let running = begin_attempt now x in
      let s' = running_store x s in
      let r = execute_locked rt now running s' in
      executions-refresh x.metric_processing_execution_id (settle rt now running r s').0
      ∙ executions-settle running r s'
      ∙ ap (put_row (λ y. y.id) (settled_order x s))
          (executions-start_parent x.metric_processing_execution_id (save_execution running s))
      ∙ put_row-put_row (λ y. y.id) (settled_order x s) running s.executions
          ((settle_keeps running r s').0 ∙ unfold begin_attempt in refl)

  pub settled_order-IsAtRest :
      (x : PlanExecution) (s : Store V)
      → x.attempt_count < rt.max_attempts
      → IsAtRest rt.max_attempts (settled_order x s)
  unfolding settled_order
  settled_order-IsAtRest x s h = settle-IsAtRest x _ (running_store x s) h

  pub attempts-settled_order :
      (x : PlanExecution) (s : Store V) → (settled_order x s).attempt_count ≡ x.attempt_count + 1
  unfolding settled_order
  attempts-settled_order x s =
      (settle_keeps (begin_attempt now x) _ (running_store x s)).1 ∙ unfold begin_attempt in refl

  pub id-settled_order : (x : PlanExecution) (s : Store V) → (settled_order x s).id ≡ x.id
  unfolding settled_order
  id-settled_order x s =
      (settle_keeps (begin_attempt now x) _ (running_store x s)).0 ∙ unfold begin_attempt in refl

-- An order that is picked is eligible and stands in the table.
head-All :
    (P : PlanExecution → Type 0) (xs : List PlanExecution) {x : PlanExecution}
    → All P xs
    → head xs ≡ some x
    → P x
unfolding head
head-All P [] h e = cc
head-All P (y ∷ ys) {x} h e = let same : y ≡ x = ground arith in subst P same h.0

pub lock_next_eligible-All :
    {V : Type 0} (P : PlanExecution → Type 0) (max now : ℕ) (s : Store V) {x : PlanExecution}
    → All P s.executions
    → lock_next_eligible max now s ≡ some x
    → P x
unfolding lock_next_eligible
lock_next_eligible-All P max now s h e =
    head-All P _ (order_by-All comes_first P _ (All-select P (is_eligible max now) s.executions h))
      e

pub lock_next_eligible-is_eligible :
    {V : Type 0} (max now : ℕ) (s : Store V) {x : PlanExecution}
    → lock_next_eligible max now s ≡ some x
    → is_eligible max now x ≡ true
unfolding lock_next_eligible
lock_next_eligible-is_eligible max now s {x} e =
    let P : PlanExecution → Type 0 = λ y. is_eligible max now y ≡ true in
    head-All P _ (order_by-All comes_first P _ (select-All (is_eligible max now) s.executions)) e

pub attempts_left :
    (max now : ℕ) (x : PlanExecution) → is_eligible max now x ≡ true → x.attempt_count < max
unfolding is_eligible
attempts_left max now x h = ground arith

-- If every order is at rest, then whatever a plan raises or returns, `execute_next` leaves every order
-- at rest: none RUNNING, a PENDING one untried, a RETRYABLE one scheduled with attempts left, a
-- SUCCEEDED one without an error, a FAILED_PERMANENT one with an error and unscheduled, and none with
-- more than the maximum of attempts.
pub execute_next-IsAtRestStore :
    {V : Type 0} (rt : Runtime V) (now : ℕ) (s : Store V)
    → IsAtRestStore rt.max_attempts s
    → IsAtRestStore rt.max_attempts (execute_next rt now s).0
unfolding execute_next
execute_next-IsAtRestStore rt now s h =
    elim (Option-cases (lock_next_eligible rt.max_attempts now s)) [
      | inl idle ↦ rw (idle, execute_next) h
      | inr (x, picked) ↦
          rw (picked, execute_next, executions-execute_order rt now x s)
            (put_row-All (λ y. y.id) (IsAtRest rt.max_attempts) (settled_order rt now x s)
              s.executions
              (settled_order-IsAtRest rt now x s (
                attempts_left rt.max_attempts now x
                  (lock_next_eligible-is_eligible rt.max_attempts now s picked)))
              h)
    ]
