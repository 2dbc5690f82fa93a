-- ===== src/Execution/Reachable.antt =====
-- The orders of every store that materializations and worker cycles lead to.
use outbox_service.Prelude.{
  ℕ, ◌≡◌, refl, Option, none, some, List, [], ◌∷◌, String, Result, ok, err, inl, inr, arith, map,
  sym, subst, All-append, Option-cases, Bool-cases, if_both, truncate, ◌==◌,
}
use outbox_service.Execution.Model.{ProcessingStatus, PlanExecution, Event, Store}
use outbox_service.Execution.Provider.{ConfigurationError, Snapshot}
use outbox_service.Execution.Repository.{
  find_processing_by_event_id, create_processing_if_absent, insert_execution, has_execution,
  create_plan_executions_if_absent, create_failed_plan_execution_if_absent,
}
use outbox_service.Execution.Materialization.{
  is_out_of_scope, record_defect, record_snapshot, record_answer, materialize_for_event,
}
use outbox_service.Execution.Service.{Runtime, ExecutionResult, execute_next}
use outbox_service.Execution.Lifecycle.{IsAtRest, IsAtRestStore, execute_next-IsAtRestStore}
use outbox_service.Execution.Cycle.{Turn, next_round, process_metric_plan_executions}

module _ {V : Type 0} (max : ℕ) where
  insert-IsAtRestStore :
      (x : PlanExecution) (s : Store V)
      → IsAtRest max x
      → IsAtRestStore max s
      → IsAtRestStore max (insert_execution x s)
  unfolding insert_execution
  insert-IsAtRestStore x s p h =
      if_both (λ (t : Store V). IsAtRestStore max t)
        (has_execution x.event_id x.processing_plan_id s.executions) h
        (All-append (IsAtRest max) s.executions (x ∷ []) h (p, tt))

  plans-IsAtRestStore :
      (now i e c : ℕ) (ids : List ℕ) (s : Store V)
      → IsAtRestStore max s
      → IsAtRestStore max (create_plan_executions_if_absent now i e c ids s)
  unfolding create_plan_executions_if_absent
  plans-IsAtRestStore now i e c [] s h = h
  plans-IsAtRestStore now i e c (id ∷ ids) s h =
      plans-IsAtRestStore now i e c ids _ (insert-IsAtRestStore _ s (refl, refl, refl) h)

  processing-IsAtRestStore :
      (now i c : ℕ) (status : ProcessingStatus) (error : Option String) (s : Store V)
      → IsAtRestStore max s
      → IsAtRestStore max (create_processing_if_absent now i c status error s).0
  unfolding create_processing_if_absent
  processing-IsAtRestStore now i c status error s h =
      elim (Option-cases (find_processing_by_event_id i s)) [
        | inl absent ↦ simp (absent, create_processing_if_absent) h
        | inr (p, found) ↦ simp (found, create_processing_if_absent) h
      ]

  module _ (describe : ConfigurationError → String) (now : ℕ) where
    defect-IsAtRestStore :
        (e : Event) (x : ConfigurationError) (s : Store V)
        → IsAtRestStore max s
        → IsAtRestStore max (record_defect describe now e x s).0
    unfolding record_defect create_failed_plan_execution_if_absent
    defect-IsAtRestStore e x s h =
        let made =
          processing-IsAtRestStore now e.id x.processing_chain_id
            ProcessingStatus.failed_configuration (some (truncate 2000 (describe x))) s h in
        elim (Option-cases x.processing_plan_id) [
          | inl absent ↦ simp (absent, record_defect) made
          | inr (plan, known) ↦
              simp (known, record_defect)
                (insert-IsAtRestStore _ _ (omega arith, refl, (_, refl), refl) made)
        ]

    snapshot-IsAtRestStore :
        (e : Event) (x : Snapshot) (s : Store V)
        → IsAtRestStore max s
        → IsAtRestStore max (record_snapshot describe now e x s).0
    unfolding record_snapshot
    snapshot-IsAtRestStore e x s h =
        let Rest : Store V × Option _ → Type 0 = λ a. IsAtRestStore max a.0 in
        let (s', p) =
          create_processing_if_absent now e.id x.processing_chain_id ProcessingStatus.materialized
            none s in
        let made =
          processing-IsAtRestStore now e.id x.processing_chain_id ProcessingStatus.materialized none
            s h in
        if_both Rest (is_out_of_scope e)
          (processing-IsAtRestStore now e.id x.processing_chain_id
            ProcessingStatus.failed_configuration
            (some "Event scope does not match its exact SchemaDefinition") s h)
          (if_both Rest (p.processing_chain_id == x.processing_chain_id)
            (plans-IsAtRestStore now p.id e.id x.processing_chain_id
              (map (λ plan. plan.processing_plan_id) x.plans) s' made)
            made)

    answer-IsAtRestStore :
        (e : Event) (r : Result ConfigurationError (Option Snapshot)) (s : Store V)
        → IsAtRestStore max s
        → IsAtRestStore max (record_answer describe now e r s).0
    unfolding record_answer
    answer-IsAtRestStore e (err x) s h = defect-IsAtRestStore e x s h
    answer-IsAtRestStore e (ok none) s h = h
    answer-IsAtRestStore e (ok (some x)) s h = snapshot-IsAtRestStore e x s h

    materialize_for_event-IsAtRestStore :
        (e : Event) (s : Store V)
        → IsAtRestStore max s
        → IsAtRestStore max (materialize_for_event describe now e s).0
    unfolding materialize_for_event
    materialize_for_event-IsAtRestStore e s h =
        elim (Option-cases (find_processing_by_event_id e.id s)) [
          | inl absent ↦ simp (absent, materialize_for_event) (answer-IsAtRestStore e _ s h)
          | inr (p, found) ↦ simp (found, materialize_for_event) h
        ]

next_round-IsAtRestStore :
    {V : Type 0} (rt : Runtime V) (again : Store V → Store V × List ExecutionResult) (t : Turn)
    (s : Store V) (a : Store V × Option ExecutionResult)
    → ((s : Store V) → IsAtRestStore rt.max_attempts s → IsAtRestStore rt.max_attempts (again s).0)
    → IsAtRestStore rt.max_attempts s
    → IsAtRestStore rt.max_attempts a.0
    → IsAtRestStore rt.max_attempts (next_round rt again t s a).0
unfolding next_round
next_round-IsAtRestStore rt again t s (s', none) keeps h h' = h
next_round-IsAtRestStore rt again t s (s', some r) keeps h h' = elim (Bool-cases t.commits) [
  | inr refused ↦ rw refused h
  | inl committed ↦ elim (Bool-cases t.publishes) [
    | inr unpublished ↦ rw (committed, unpublished) h'
    | inl published ↦ rw (committed, published) (keeps s' h')
  ]
]

cycle-IsAtRestStore :
    {V : Type 0} (rt : Runtime V) (turns : List Turn) (s : Store V)
    → IsAtRestStore rt.max_attempts s
    → IsAtRestStore rt.max_attempts (process_metric_plan_executions rt turns s).0
unfolding process_metric_plan_executions
cycle-IsAtRestStore rt [] s h = h
cycle-IsAtRestStore rt (t ∷ turns) s h =
    next_round-IsAtRestStore rt (process_metric_plan_executions rt turns) t s
      (execute_next rt t.now s) (cycle-IsAtRestStore rt turns) h
      (execute_next-IsAtRestStore rt t.now s h)

-- A materialization or a worker cycle, at whatever time; the plans of a cycle may raise or return
-- what they like, within one maximum of attempts.
pub data Step {V : Type 0} (max : ℕ) : Store V → Store V → Type 0 where
  materializes :
      {s : Store V} (describe : ConfigurationError → String) (now : ℕ) (e : Event)
      → Step max s (materialize_for_event describe now e s).0
  cycles :
      {s : Store V} (rt : Runtime V) (turns : List Turn)
      → rt.max_attempts ≡ max
      → Step max s (process_metric_plan_executions rt turns s).0

pub data Steps {V : Type 0} (max : ℕ) : Store V → Store V → Type 0 where
  start_here : {s : Store V} → Steps max s s
  then_step : {s t u : Store V} → Steps max s t → Step max t u → Steps max s u

Step-IsAtRestStore :
    {V : Type 0} (max : ℕ) {s t : Store V}
    → IsAtRestStore max s
    → Step max s t
    → IsAtRestStore max t
Step-IsAtRestStore max {s} h (materializes describe now e) =
    materialize_for_event-IsAtRestStore max describe now e s h
Step-IsAtRestStore max {s} h (cycles rt turns same) =
    subst (λ m. IsAtRestStore m (process_metric_plan_executions rt turns s).0) same
      (cycle-IsAtRestStore rt turns s (subst (λ m. IsAtRestStore m s) (sym same) h))

-- From a store whose orders are at rest, any sequence of materializations and worker cycles with the
-- same maximum of attempts leads to one whose orders are at rest.
pub Steps-IsAtRestStore :
    {V : Type 0} (max : ℕ) (s t : Store V)
    → IsAtRestStore max s
    → Steps max s t
    → IsAtRestStore max t
Steps-IsAtRestStore max s t h start_here = h
Steps-IsAtRestStore max s t h (then_step before last) =
    Step-IsAtRestStore max (Steps-IsAtRestStore max s _ h before) last
