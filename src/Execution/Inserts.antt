-- ===== src/Execution/Inserts.antt =====
-- What an order inserts where nothing is stored for its event and plan.
use outbox_service.Prelude.{
  ℕ, ◌≡◌, refl, sym, ap, subst, ◌∙◌, Bool, true, false, ◌&&◌, List, [], ◌∷◌, ◌++◌, none, some,
  Result, ok, arith, All, length, any_of, str_eq, ◌==◌, find_row,
}
use mathlib.Core.List.{append-nil, append_assoc}
use outbox_service.Execution.Atomicity.{observations-start_parent, observations-refresh}
use outbox_service.Execution.Model.{
  PlanStatus, PlanExecution, Event, ProcessingPlan, Observation, Store,
}
use outbox_service.Execution.Repository.{
  has_observation, add_runtime_observation_if_absent, touch_processing, save_execution,
}
use outbox_service.Execution.Service.{
  Runtime, ExecutionError, ExecutionResult, inserted_one, insert_observations, release,
  begin_attempt, coherent_plan, execute_locked, settle, start_parent, execute_order, mark_succeeded,
}

module _ {V : Type 0} where
  -- the unique key of a row
  abbrev pub is_same_row : Observation V → Observation V → Bool
  is_same_row x o =
      x.event_id == o.event_id
      && x.processing_plan_id == o.processing_plan_id
      && str_eq x.observation_key o.observation_key

  abbrev pub AreDistinct : List (Observation V) → Type 0
  AreDistinct [] = Unit
  AreDistinct (o ∷ os) = All (λ x. is_same_row o x ≡ false) os × AreDistinct os

  any_of-add :
      (p : Observation V → Bool) (os : List (Observation V)) (o : Observation V)
      → any_of p os ≡ false
      → p o ≡ false
      → any_of p (os ++ o ∷ []) ≡ false
  any_of-add p [] o h k = ground arith
  any_of-add p (x ∷ xs) o h k = ground (arith, any_of-add p xs o)

  add-absent :
      (x o : Observation V) (os : List (Observation V))
      → has_observation x os ≡ false
      → is_same_row o x ≡ false
      → has_observation x (os ++ o ∷ []) ≡ false
  unfolding has_observation
  add-absent x o os h other = any_of-add _ os o h other

  pub all_absent :
      (o : Observation V) (os new : List (Observation V))
      → All (λ x. has_observation x os ≡ false) new
      → All (λ x. is_same_row o x ≡ false) new
      → All (λ x. has_observation x (os ++ o ∷ []) ≡ false) new
  all_absent o os [] fresh other = tt
  all_absent o os (x ∷ new) (h, fresh) (k, other) =
      (add-absent x o os h k, all_absent o os new fresh other)

  -- the rows that the extraction returns are new, and each has a key of its own
  abbrev pub AreNew : List (Observation V) → List (Observation V) → Type 0
  AreNew new os = AreDistinct new × All (λ o. has_observation o os ≡ false) new

  abbrev pub IsInserted : List (Observation V) → Store V → Store V × ExecutionResult → Type 0
  IsInserted new s (s', r) =
      (r.status ≡ PlanStatus.succeeded)
      × (r.observation_count ≡ length new)
      × (s'.observations ≡ s.observations ++ new)

module _ {V : Type 0} (rt : Runtime V) (now : ℕ) where
  insert_observations-distinct :
      (new os : List (Observation V))
      → AreDistinct new
      → All (λ o. has_observation o os ≡ false) new
      → All (λ o. rt.insert_error o ≡ none) new
      → insert_observations rt now new os ≡ (os ++ new, ok (length new))
  unfolding insert_observations inserted_one add_runtime_observation_if_absent
  insert_observations-distinct [] os distinct fresh accepted = simp append-nil refl
  insert_observations-distinct (o ∷ new) os (other, distinct) (absent, fresh) (here, accepted) =
      simp
        (
          here,
          absent,
          insert_observations,
          insert_observations-distinct new (os ++ o ∷ []) distinct (all_absent o os new fresh other)
              accepted,
          append_assoc,
        )
        refl

  events-start_parent : (i : ℕ) (s : Store V) → (start_parent rt now i s).events ≡ s.events
  unfolding start_parent touch_processing
  events-start_parent i s = ground arith

  plans-start_parent : (i : ℕ) (s : Store V) → (start_parent rt now i s).plans ≡ s.plans
  unfolding start_parent touch_processing
  plans-start_parent i s = ground arith

  coherent-begin_attempt :
      (x : PlanExecution) (p : ProcessingPlan)
      → coherent_plan (begin_attempt now x) p ≡ coherent_plan x p
  unfolding coherent_plan begin_attempt
  coherent-begin_attempt x p = refl

  execute_locked-inserts :
      (x : PlanExecution) (s : Store V) (e : Event) (p : ProcessingPlan)
      (new : List (Observation V))
      → find_row (λ e. e.id) x.event_id s.events ≡ some e
      → find_row (λ p. p.id) x.processing_plan_id s.plans ≡ some p
      → coherent_plan x p ≡ true
      → rt.extract_for_plan e p x ≡ ok new
      → AreNew new s.observations
      → All (λ o. rt.insert_error o ≡ none) new
      → execute_locked rt now x s ≡ (s.observations ++ new, ok (length new))
  unfolding execute_locked
  execute_locked-inserts x s e p new found planned coherent extracted (distinct, fresh) accepted =
      simp
        (
          found,
          planned,
          coherent,
          extracted,
          execute_locked,
          insert_observations-distinct new s.observations distinct fresh,
        )
        refl

  settled :
      (x : PlanExecution) (s : Store V) (new : List (Observation V))
      (r : List (Observation V) × Result ExecutionError ℕ)
      → r ≡ (s.observations ++ new, ok (length new))
      → rt.release_error (mark_succeeded now x) ≡ none
      → let (s', done, count) = settle rt now x r s in
        (done.status ≡ PlanStatus.succeeded)
        × (count ≡ length new)
        × (s'.observations ≡ s.observations ++ new)
  unfolding settle release
  settled x s new r h released = rw (h, released) (unfold mark_succeeded in (refl, refl, refl))

  pub execute_order-inserts :
      (x : PlanExecution) (s : Store V) (e : Event) (p : ProcessingPlan)
      (new : List (Observation V))
      → find_row (λ e. e.id) x.event_id s.events ≡ some e
      → find_row (λ p. p.id) x.processing_plan_id s.plans ≡ some p
      → coherent_plan x p ≡ true
      → rt.extract_for_plan e p (begin_attempt now x) ≡ ok new
      → AreNew new s.observations
      → All (λ o. rt.insert_error o ≡ none) new
      → rt.release_error (mark_succeeded now (begin_attempt now x)) ≡ none
      → IsInserted new s (execute_order rt now x s)
  unfolding execute_order begin_attempt
  execute_order-inserts x s e p new found planned coherent extracted fresh accepted released =
      let i = x.metric_processing_execution_id in
      let running = begin_attempt now x in
      let stored = save_execution running s in
      let s' = start_parent rt now i stored in
      let same : s'.observations ≡ s.observations = observations-start_parent rt now i stored in
      let locked : execute_locked rt now running s' ≡ (s'.observations ++ new, ok (length new)) =
        execute_locked-inserts running s' e p new
          (ap (find_row (λ e. e.id) x.event_id) (events-start_parent i stored) ∙ found)
          (ap (find_row (λ p. p.id) x.processing_plan_id) (plans-start_parent i stored) ∙ planned)
          (coherent-begin_attempt x p ∙ coherent) extracted (subst (AreNew new) (sym same) fresh)
          accepted in
      let r = settle rt now running (execute_locked rt now running s') s' in
      let (done, count, rows) = settled running s' new _ locked released in
      (done, count, observations-refresh rt now i r.0 ∙ rows ∙ ap (λ os. os ++ new) same)
