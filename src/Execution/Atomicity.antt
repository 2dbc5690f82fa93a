-- ===== src/Execution/Atomicity.antt =====
-- What the savepoint of `execute_next` keeps of the observations.
use outbox_service.Prelude.{
  ℕ, suc, ◌+◌, ◌≡◌, ◌≢◌, refl, Bool, List, [], ◌∷◌, Result, ok, err, inl, inr, arith, Bool-cases,
  Option-cases, Result-cases, length, length-append, leb, OnOk, OnOk-eq, subst, if◌then◌else◌,
  find_row,
}
use outbox_service.Execution.Model.{PlanStatus, PlanExecution, Observation, Store}
use outbox_service.Execution.Repository.{
  has_observation, add_runtime_observation_if_absent, touch_processing, save_execution,
}
use outbox_service.Execution.Lifecycle.{settle-cases}
use outbox_service.Execution.Service.{
  Runtime, ExecutionError, permanent, technical, inserted_one, insert_observations, begin_attempt,
  coherent_plan, execute_locked, settle, refresh_parent_status, start_parent, execute_order,
  mark_succeeded, record_error, record_permanent_failure, record_technical_failure,
}

module _ {V : Type 0} where
  length-add :
      (o : Observation V) (os : List (Observation V))
      → let (os', inserted) = add_runtime_observation_if_absent o os in
        length os' ≡ (if inserted then suc (length os) else length os)
  unfolding add_runtime_observation_if_absent
  length-add o os = elim (Bool-cases (has_observation o os)) [
    | inl there ↦ simp there refl
    | inr absent ↦ simp absent (omega (arith, length-append os (o ∷ [])))
  ]

module _ {V : Type 0} (rt : Runtime V) (now : ℕ) where
  pub observations-start_parent :
      (i : ℕ) (s : Store V) → (start_parent rt now i s).observations ≡ s.observations
  unfolding start_parent touch_processing
  observations-start_parent i s = ground arith

  pub observations-refresh :
      (i : ℕ) (s : Store V) → (refresh_parent_status rt now i s).observations ≡ s.observations
  unfolding refresh_parent_status touch_processing
  observations-refresh i s = ground arith

  -- the observations before and after, and what is reported of the order
  abbrev pub IsAtomic : List (Observation V) → List (Observation V) → PlanStatus → ℕ → Type 0
  IsAtomic before after status count =
      (status ≡ PlanStatus.succeeded → length after ≡ length before + count)
      × (status ≢ PlanStatus.succeeded → after ≡ before)

  -- the observations as they are written have grown by the count
  abbrev Grows : List (Observation V) → List (Observation V) × Result ExecutionError ℕ → Type 0
  Grows os r = OnOk (λ count. length r.0 ≡ length os + count) r.1

  inserted_one-Grows :
      (inserted : Bool) (os : List (Observation V)) (n : ℕ)
      (r : List (Observation V) × Result ExecutionError ℕ)
      → n ≡ (if inserted then suc (length os) else length os)
      → OnOk (λ count. length r.0 ≡ n + count) r.1
      → Grows os (inserted_one rt now inserted r)
  unfolding inserted_one
  inserted_one-Grows inserted os n (written, ok count) grown rest = ground (arith, grown, rest)
  inserted_one-Grows inserted os n (written, err f) grown rest = tt

  insert_observations-Grows :
      (new os : List (Observation V)) → Grows os (insert_observations rt now new os)
  unfolding insert_observations
  insert_observations-Grows [] os = omega arith
  insert_observations-Grows (o ∷ new) os = elim (Option-cases (rt.insert_error o)) [
    | inr (m, raised) ↦ simp (raised, insert_observations) tt
    | inl accepted ↦
        let (os', inserted) = add_runtime_observation_if_absent o os in
        simp (accepted, insert_observations)
          (inserted_one-Grows inserted os (length os') (insert_observations rt now new os')
            (length-add o os) (insert_observations-Grows new os'))
  ]

  execute_locked-Grows :
      (x : PlanExecution) (s : Store V) → Grows s.observations (execute_locked rt now x s)
  unfolding execute_locked
  execute_locked-Grows x s = elim (Option-cases (find_row (λ e. e.id) x.event_id s.events)) [
    | inl missing ↦ simp (missing, execute_locked) tt
    | inr (e, found) ↦ elim (Option-cases (find_row (λ p. p.id) x.processing_plan_id s.plans)) [
      | inl missing ↦ simp (found, missing, execute_locked) tt
      | inr (p, planned) ↦ elim (Bool-cases (coherent_plan x p)) [
        | inl coherent ↦ elim (Result-cases (rt.extract_for_plan e p x)) [
          | inl (os, extracted) ↦
              simp (found, planned, coherent, extracted, execute_locked)
                (insert_observations-Grows os s.observations)
          | inr (f, raised) ↦ simp (found, planned, coherent, raised, execute_locked) tt
        ]
        | inr incoherent ↦ simp (found, planned, incoherent, execute_locked) tt
      ]
    ]
  ]

  record_error-failed :
      (f : ExecutionError) (x : PlanExecution)
      → (record_error rt now f x).status ≢ PlanStatus.succeeded
  unfolding record_error record_permanent_failure record_technical_failure
  record_error-failed (permanent m) x = λ h. cc
  record_error-failed (technical m) x = elim (Bool-cases (leb rt.max_attempts x.attempt_count)) [
    | inl last ↦ rw last (λ h. cc)
    | inr more ↦ rw more (λ h. cc)
  ]

  settle-IsAtomic :
      (x : PlanExecution) (r : List (Observation V) × Result ExecutionError ℕ) (s : Store V)
      → Grows s.observations r
      → let (s', settled, count) = settle rt now x r s in
        IsAtomic s.observations s'.observations settled.status count
  settle-IsAtomic x r s h = elim (settle-cases rt now x r s) [
    | inl (n, counted, kept) ↦ rw kept (
        unfold mark_succeeded in
        (
          λ _. OnOk-eq (λ count. length r.0 ≡ length s.observations + count) r.1 h counted,
          λ failed. absurd (failed refl),
        ))
    | inr (f, n, undone) ↦ rw undone (λ done. absurd (record_error-failed f x done), λ _. refl)
  ]

  -- Whatever is raised by the plan, by the insert of a row or by the flush at the end of the savepoint,
  -- an order that does not end as SUCCEEDED leaves the observations as they were, without those that
  -- were written before; otherwise the table grows by the count that is reported.
  pub execute_order-IsAtomic :
      (x : PlanExecution) (s : Store V)
      → let (s', r) = execute_order rt now x s in
        IsAtomic s.observations s'.observations r.status r.observation_count
  unfolding execute_order
  execute_order-IsAtomic x s =
      let running = begin_attempt now x in
      let stored = save_execution running s in
      let s' = start_parent rt now x.metric_processing_execution_id stored in
      let r = execute_locked rt now running s' in
      rw (observations-refresh x.metric_processing_execution_id (settle rt now running r s').0) (
        subst
          (λ os.
            IsAtomic os (settle rt now running r s').0.observations
              (settle rt now running r s').1.status (settle rt now running r s').2)
          (observations-start_parent x.metric_processing_execution_id stored)
          (settle-IsAtomic running r s' (execute_locked-Grows running s')))
