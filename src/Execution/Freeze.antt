-- ===== src/Execution/Freeze.antt =====
-- An event is materialized once: what `materialize_for_event` keeps when it is called again.
use outbox_service.Prelude.{
  ℕ, ◌≡◌, refl, Option, none, some, List, [], ◌∷◌, ◌++◌, String, Result, ok, err, truncate, if_both,
  map, subst, arith, Option-cases, ap, sym, ◌∙◌, find_row, inl, inr, ◌==◌,
}
use outbox_service.Execution.Model.{
  ProcessingStatus, ProcessingExecution, PlanExecution, Event, Store,
}
use outbox_service.Execution.Provider.{ConfigurationError, Snapshot, get_active_snapshot}
use outbox_service.Execution.Repository.{
  find_processing_by_event_id, create_processing_if_absent, insert_execution,
  create_plan_executions_if_absent, create_failed_plan_execution_if_absent,
}
use outbox_service.Execution.Materialization.{
  is_out_of_scope, record_defect, record_snapshot, record_answer, materialize_for_event,
}

find_row-append {ℓ} :
    {A : Type ℓ} (key : A → ℕ) (x : A) (xs : List A)
    → find_row key (key x) xs ≡ none
    → find_row key (key x) (xs ++ x ∷ []) ≡ some x
find_row-append key x [] h = ground arith
find_row-append key x (y ∷ ys) h = ground (arith, find_row-append key x ys)

module _ {V : Type 0} where
  -- the processings decide what is found
  find_processing-same :
      (i : ℕ) (s s' : Store V)
      → s.processings ≡ s'.processings
      → find_processing_by_event_id i s ≡ find_processing_by_event_id i s'
  unfolding find_processing_by_event_id
  find_processing-same i s s' h = ap (find_row (λ p. p.event_id) i) h

  processings-insert :
      (x : PlanExecution) (s : Store V) → (insert_execution x s).processings ≡ s.processings
  unfolding insert_execution
  processings-insert x s = ground arith

  processings-plans :
      (now i e c : ℕ) (ids : List ℕ) (s : Store V)
      → (create_plan_executions_if_absent now i e c ids s).processings ≡ s.processings
  unfolding create_plan_executions_if_absent
  processings-plans now i e c [] s = refl
  processings-plans now i e c (id ∷ ids) s =
      processings-plans now i e c ids _ ∙ processings-insert _ s

  processings-failed_plan :
      (now i e c p : ℕ) (m : String) (s : Store V)
      → (create_failed_plan_execution_if_absent now i e c p m s).processings ≡ s.processings
  unfolding create_failed_plan_execution_if_absent
  processings-failed_plan now i e c p m s = processings-insert _ s

  create-finds :
      (now i c : ℕ) (status : ProcessingStatus) (error : Option String) (s : Store V)
      → let (s', p) = create_processing_if_absent now i c status error s in
        find_processing_by_event_id i s' ≡ some p
  unfolding create_processing_if_absent
  create-finds now i c status error s = elim (Option-cases (find_processing_by_event_id i s)) [
    | inl absent ↦
        simp (absent, create_processing_if_absent)
          (find_row-append (λ p. p.event_id) _ s.processings
            (unfold find_processing_by_event_id in absent))
    | inr (p, found) ↦
        subst (λ a. find_processing_by_event_id i a.0 ≡ some a.1) (sym (stored p found)) found
  ]
    where
      stored :
          (p : ProcessingExecution)
          → find_processing_by_event_id i s ≡ some p
          → create_processing_if_absent now i c status error s ≡ (s, p)
      stored p h = simp (h, create_processing_if_absent) refl

  -- what `materialize_for_event` answers is what the store then has for the event
  abbrev Answers : ℕ → Store V × Option ProcessingExecution → Type 0
  Answers i (s, p) = find_processing_by_event_id i s ≡ p

  record_defect-Answers :
      (describe : ConfigurationError → String) (now : ℕ) (e : Event) (x : ConfigurationError)
      (s : Store V)
      → Answers e.id (record_defect describe now e x s)
  unfolding record_defect
  record_defect-Answers describe now e x s =
      let made =
        create-finds now e.id x.processing_chain_id ProcessingStatus.failed_configuration
          (some (truncate 2000 (describe x))) s in
      elim (Option-cases x.processing_plan_id) [
        | inl absent ↦ simp (absent, record_defect) made
        | inr (plan, known) ↦
            simp (known, record_defect)
              (find_processing-same e.id _ _
                  (processings-failed_plan now _ e.id x.processing_chain_id plan (describe x) _)
                ∙ made)
      ]

  record_snapshot-Answers :
      (describe : ConfigurationError → String) (now : ℕ) (e : Event) (x : Snapshot) (s : Store V)
      → Answers e.id (record_snapshot describe now e x s)
  unfolding record_snapshot
  record_snapshot-Answers describe now e x s =
      let (s', p) =
        create_processing_if_absent now e.id x.processing_chain_id ProcessingStatus.materialized
          none s in
      let made = create-finds now e.id x.processing_chain_id ProcessingStatus.materialized none s in
      if_both (Answers e.id) (is_out_of_scope e)
        (create-finds now e.id x.processing_chain_id ProcessingStatus.failed_configuration
          (some "Event scope does not match its exact SchemaDefinition") s)
        (if_both (Answers e.id) (p.processing_chain_id == x.processing_chain_id)
          (find_processing-same e.id _ _ (
              processings-plans now p.id e.id x.processing_chain_id
                (map (λ plan. plan.processing_plan_id) x.plans) s')
            ∙ made)
          made)

  record_answer-Answers :
      (describe : ConfigurationError → String) (now : ℕ) (e : Event)
      (r : Result ConfigurationError (Option Snapshot)) (s : Store V)
      → find_processing_by_event_id e.id s ≡ none
      → Answers e.id (record_answer describe now e r s)
  unfolding record_answer
  record_answer-Answers describe now e (err x) s h = record_defect-Answers describe now e x s
  record_answer-Answers describe now e (ok none) s h = h
  record_answer-Answers describe now e (ok (some x)) s h =
      record_snapshot-Answers describe now e x s

  -- `materialize_for_event` answers the processing that the store then has for the event.
  materialize_for_event-Answers :
      (describe : ConfigurationError → String) (now : ℕ) (e : Event) (s : Store V)
      → Answers e.id (materialize_for_event describe now e s)
  unfolding materialize_for_event
  materialize_for_event-Answers describe now e s =
      elim (Option-cases (find_processing_by_event_id e.id s)) [
        | inl absent ↦
            subst (Answers e.id) (sym (fresh absent))
              (record_answer-Answers describe now e _ s absent)
        | inr (p, found) ↦ subst (Answers e.id) (sym (known p found)) found
      ]
    where
      fresh :
          find_processing_by_event_id e.id s ≡ none
          → materialize_for_event describe now e s
            ≡ record_answer describe now e
                (get_active_snapshot e.event_type_id e.schema_definition_id s)
                s
      fresh h = simp (h, materialize_for_event) refl

      known :
          (p : ProcessingExecution)
          → find_processing_by_event_id e.id s ≡ some p
          → materialize_for_event describe now e s ≡ (s, some p)
      known p h = simp (h, materialize_for_event) refl

  -- If materializing an event answers a processing, a second materialization of the store that it
  -- leaves, at whatever time, writes nothing and answers the same processing.
  pub materialize_for_event_again :
      (describe : ConfigurationError → String) (now later : ℕ) (e : Event) (s : Store V)
      (p : ProcessingExecution)
      → (materialize_for_event describe now e s).1 ≡ some p
      → materialize_for_event describe later e (materialize_for_event describe now e s).0
        ≡ ((materialize_for_event describe now e s).0, some p)
  unfolding materialize_for_event
  materialize_for_event_again describe now later e s p h =
      kept (materialize_for_event describe now e s) (materialize_for_event-Answers describe now e s)
        h
    where
      kept :
          (a : Store V × Option ProcessingExecution)
          → Answers e.id a
          → a.1 ≡ some p
          → materialize_for_event describe later e a.0 ≡ (a.0, some p)
      kept (s', q) found is_p = simp (found ∙ is_p, materialize_for_event) refl
