-- ===== src/Metrics/Inserted.antt =====
-- The rows that an order makes of an event by a compiled plan.
pub mod Keys
use outbox_service.Prelude.{
  ℕ, suc, ◌≡◌, refl, ap, Bool, true, false, not, ◌&&◌, Option, none, some, List, [], ◌∷◌, ◌≤◌,
  String, ok, arith, inl, inr, All, OnOk, OnOk-bind, OnOk-eq, OnOk-mono, Option-cases, Result-cases,
  length, find_row, any_of, ◌==◌,
}
use Prim.Native.Char.{code}
use outbox_service.Json.{Json}
use outbox_service.Aggregation.Values.{Floats}
use outbox_service.Execution.Model.{Event, ProcessingPlan, PlanExecution, Observation, Store}
use outbox_service.Execution.Repository.{has_observation}
use outbox_service.Execution.Service.{begin_attempt, mark_succeeded, coherent_plan, execute_order}
use outbox_service.Execution.Inserts.{
  is_same_row, AreDistinct, AreNew, IsInserted, execute_order-inserts,
}
use outbox_service.Metrics.Extractor.{
  default_limits, Numbers, KeyedObservation, extract_keyed_observations_from_compiled_plan,
}
use outbox_service.Metrics.Keys.{before, Ascends, extract_keyed_observations_ascend}
use outbox_service.Metrics.Service.{
  Texts, key_text, code_text, analytical_observation, analytical_observations, extract_compiled,
  extract_for_plan, metrics_runtime,
}
use Keys.{IsDecimal, key_text-before}

module _ {V : Type 0} (event_id plan_id : ℕ) where
  -- no row of this event and plan
  abbrev pub is_unseen : List (Observation V) → Bool
  is_unseen os = not (any_of (λ x. x.event_id == event_id && x.processing_plan_id == plan_id) os)

  unseen-absent :
      (o : Observation V) (os : List (Observation V))
      → o.event_id ≡ event_id
      → o.processing_plan_id ≡ plan_id
      → is_unseen os ≡ true
      → has_observation o os ≡ false
  unfolding has_observation
  unseen-absent o [] e p unseen = refl
  unseen-absent o (x ∷ os) e p unseen =
      ground (arith, e, p, unseen, unseen-absent o os e p (ground (arith, unseen)))

module _ {V : Type 0} (digits : ℕ → String) (event_id plan_id : ℕ) where
  -- the row of an observation
  abbrev IsMade : KeyedObservation V → Observation V → Type 0
  IsMade k o =
      (o.event_id ≡ event_id)
      × (o.processing_plan_id ≡ plan_id)
      × (o.observation_key ≡ key_text digits k.observation_key)

  abbrev AreMade : List (KeyedObservation V) → List (Observation V) → Type 0
  AreMade [] [] = Unit
  AreMade (k ∷ ks) (o ∷ os) = IsMade k o × AreMade ks os
  AreMade _ _ = ⊥

  later-distinct :
      (k : KeyedObservation V) (o : Observation V) (ks : List (KeyedObservation V))
      (os : List (Observation V))
      → IsDecimal digits
      → IsMade k o
      → AreMade ks os
      → All (λ l. before k.observation_key l.observation_key ≡ true) ks
      → All (λ x. is_same_row o x ≡ false) os
  later-distinct k o [] [] decimal made all later = tt
  later-distinct k o (l ∷ ks) (x ∷ os) decimal (e, p, key) ((e', p', key'), all) (first, later) = (
    rw (key, key', key_text-before digits k.observation_key l.observation_key decimal first)
        (ground arith),
    later-distinct k o ks os decimal (e, p, key) all later,
  )
  later-distinct k o [] (x ∷ os) decimal made all later = absurd all
  later-distinct k o (l ∷ ks) [] decimal made all later = absurd all

  ascending-distinct :
      (ks : List (KeyedObservation V)) (os : List (Observation V))
      → IsDecimal digits
      → AreMade ks os
      → Ascends ks
      → AreDistinct os
  ascending-distinct [] [] decimal made ascends = tt
  ascending-distinct (k ∷ ks) (o ∷ os) decimal (made, all) (later, ascends) = (
    later-distinct k o ks os decimal made all later,
    ascending-distinct ks os decimal all ascends,
  )
  ascending-distinct [] (x ∷ os) decimal all ascends = absurd all
  ascending-distinct (l ∷ ks) [] decimal all ascends = absurd all

  made-fresh :
      (ks : List (KeyedObservation V)) (new os : List (Observation V))
      → AreMade ks new
      → is_unseen event_id plan_id os ≡ true
      → All (λ o. has_observation o os ≡ false) new
  made-fresh [] [] os made unseen = tt
  made-fresh (k ∷ ks) (o ∷ new) os ((e, p, _), made) unseen =
      (unseen-absent event_id plan_id o os e p unseen, made-fresh ks new os made unseen)
  made-fresh [] (o ∷ new) os made unseen = absurd made
  made-fresh (k ∷ ks) [] os made unseen = absurd made

  length-made :
      (ks : List (KeyedObservation V)) (new : List (Observation V))
      → AreMade ks new
      → length new ≡ length ks
  length-made [] [] made = refl
  length-made (k ∷ ks) (o ∷ new) (_, made) = ap (λ n. suc n) (length-made ks new made)
  length-made [] (o ∷ new) made = absurd made
  length-made (k ∷ ks) [] made = absurd made

module _ {V : Type 0} (fl : Floats V) (numbers : Numbers V)
    (find : String → Json → Option (List Json)) (texts : Texts) where
  module _ (event : Event) (plan : ProcessingPlan) (execution : PlanExecution) where
    analytical_observations-AreMade :
        (ks : List (KeyedObservation V))
        → OnOk
            (AreMade texts.digits event.id plan.id ks)
            (analytical_observations fl numbers find texts event plan execution ks)
    unfolding analytical_observations analytical_observation
    analytical_observations-AreMade [] = tt
    analytical_observations-AreMade (k ∷ ks) =
        let R = AreMade texts.digits event.id plan.id (k ∷ ks) in
        let rest = analytical_observations fl numbers find texts event plan execution ks in
        elim (Result-cases (code_text k.observation.metric_code)) [
          | inr (e, bad) ↦ rw bad tt
          | inl (code, good) ↦ rw good (
              OnOk-bind R rest _ (λ os made. (
                (refl, refl, refl),
                OnOk-eq (AreMade texts.digits event.id plan.id ks) rest
                    (analytical_observations-AreMade ks) made,
              )))
        ]

    -- the rows are those of observations with ascending keys, within the limit
    abbrev AreKeyed : List (Observation V) → Type 0
    AreKeyed new =
        (ks : List (KeyedObservation V)) × AreMade texts.digits event.id plan.id ks new
        × (length ks ≤ 1000)
        × Ascends ks

    extract_for_plan-AreKeyed :
        OnOk AreKeyed (extract_for_plan fl numbers find texts event plan execution)
    unfolding extract_for_plan extract_compiled
    extract_for_plan-AreKeyed = elim (Option-cases plan.compiled_plan_json) [
      | inl missing ↦ simp (missing, extract_for_plan) tt
      | inr (t, compiled) ↦
          let payload = texts.document event.payload in
          let document = texts.document t in
          elim (Result-cases (
            extract_keyed_observations_from_compiled_plan fl numbers find default_limits payload
              document)) [
                | inr (f, fails) ↦ simp (compiled, fails, extract_for_plan, extract_compiled) tt
                | inl (ks, extracts) ↦
                    simp (compiled, extracts, extract_for_plan, extract_compiled)
                      (OnOk-mono _ AreKeyed
                        (analytical_observations fl numbers find texts event plan execution ks)
                        (λ new made.
                          let (within, ascends) =
                            extract_keyed_observations_ascend fl numbers default_limits find payload
                              document ks extracts in
                          (ks, made, within, ascends))
                        (analytical_observations-AreMade ks))
              ]
    ]

    extract_for_plan-AreNew :
        (new os : List (Observation V))
        → IsDecimal texts.digits
        → extract_for_plan fl numbers find texts event plan execution ≡ ok new
        → is_unseen event.id plan.id os ≡ true
        → AreNew new os × (length new ≤ 1000)
    extract_for_plan-AreNew new os decimal extracted unseen =
        let (ks, made, within, ascends) =
          OnOk-eq AreKeyed (extract_for_plan fl numbers find texts event plan execution)
            extract_for_plan-AreKeyed extracted in
        (
          (
            ascending-distinct texts.digits event.id plan.id ks new decimal made ascends,
            made-fresh texts.digits event.id plan.id ks new os made unseen,
          ),
          omega (arith, length-made texts.digits event.id plan.id ks new made, within),
        )

  -- An order whose event and plan are stored and belong together, whose plan extracts rows from the
  -- event, and that has no row yet, ends as SUCCEEDED with all of these rows inserted and counted, at
  -- most 1000, if the database accepts the rows and the flush at the end of the savepoint, and integers
  -- have texts of their own without colons.
  pub execute_order_inserts_all :
      (retry_delay : ℕ → ℕ) (max_attempts : ℕ) (insert_error : Observation V → Option String)
      (release_error : PlanExecution → Option String) (now : ℕ) (x : PlanExecution) (s : Store V)
      (event : Event) (plan : ProcessingPlan) (new : List (Observation V))
      → IsDecimal texts.digits
      → find_row (λ e. e.id) x.event_id s.events ≡ some event
      → find_row (λ p. p.id) x.processing_plan_id s.plans ≡ some plan
      → coherent_plan x plan ≡ true
      → extract_for_plan fl numbers find texts event plan (begin_attempt now x) ≡ ok new
      → is_unseen event.id plan.id s.observations ≡ true
      → All (λ o. insert_error o ≡ none) new
      → release_error (mark_succeeded now (begin_attempt now x)) ≡ none
      → (length new ≤ 1000)
        × IsInserted new s (
            execute_order
              (metrics_runtime fl numbers find texts retry_delay max_attempts insert_error
                release_error)
              now
              x
              s)
  execute_order_inserts_all retry_delay max_attempts insert_error release_error now x s event plan
        new decimal found planned coherent extracted unseen accepted released =
      let (fresh, within) =
        extract_for_plan-AreNew event plan (begin_attempt now x) new s.observations decimal
          extracted unseen in
      (
        within,
        execute_order-inserts
            (metrics_runtime fl numbers find texts retry_delay max_attempts insert_error
              release_error)
            now x s event plan new found planned coherent extracted fresh accepted released,
      )
