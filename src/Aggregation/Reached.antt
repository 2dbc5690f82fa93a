-- ===== src/Aggregation/Reached.antt =====
-- The tables that new observations and worker cycles lead to.
use outbox_service.Prelude.{
  ℕ, suc, ◌<◌, ◌≡◌, refl, sym, subst, true, false, List, [], ◌∷◌, ◌++◌, String, if◌then◌else◌, ltb,
  leb, arith, All, All-map, All-append, All-append_left, ◌∙◌, sum_of-append,
}
use outbox_service.Aggregation.Values.{Floats, Counts, IsCount, IsExact}
use outbox_service.Aggregation.Labels.{Label}
use outbox_service.Aggregation.Model.{AnalyticalObservation, Tables}
use outbox_service.Aggregation.Repository.{find_checkpoint, find_series}
use outbox_service.Aggregation.Worker.{Faults, aggregate_prometheus_metric_state}
use outbox_service.Aggregation.Groups.{share}
use outbox_service.Aggregation.States.{stored_value}
use outbox_service.Aggregation.Log.{cycle_log}
use outbox_service.Aggregation.Pending.{Ascends, total_until}
use outbox_service.Aggregation.Positions.{position, position-same}
use outbox_service.Aggregation.Batches.{IsRefined, IsCounted, name_of}
use outbox_service.Aggregation.Refinement.{IsOrderly, IsSound, cycle-Advanced}

abbrev pub empty_tables : {V : Type 0} → Tables V
empty_tables = record {
  observations = [];
  states = [];
  checkpoints = [];
  next_observation_id = 1;
  next_state_id = 1;
}

module _ {V : Type 0} where
  -- an observation that becomes visible with the next id of the sequence
  abbrev pub observed : AnalyticalObservation V → Tables V → Tables V
  observed o db = record db {
    observations = db.observations ++ o ∷ [];
    next_observation_id = suc db.next_observation_id;
  }

  append-Ascends :
      (o : AnalyticalObservation V) (os : List (AnalyticalObservation V))
      → Ascends os
      → All (λ x. x.id < o.id) os
      → Ascends (os ++ o ∷ [])
  append-Ascends o [] h below = (tt, tt)
  append-Ascends o (x ∷ os) h below = (
    All-append (λ y. ltb x.id y.id ≡ true) os (o ∷ []) h.0 (ground arith, tt),
    append-Ascends o os h.1 below.1,
  )

  observed-IsOrderly :
      (o : AnalyticalObservation V) (db : Tables V)
      → o.id ≡ db.next_observation_id
      → IsOrderly db
      → IsOrderly (observed o db)
  observed-IsOrderly o db new orderly = record {
    ascends = append-Ascends o db.observations orderly.ascends (rw new orderly.given_out);
    given_out =
        All-append (λ x. x.id < suc db.next_observation_id) db.observations (o ∷ [])
          (All-map (λ x (h : x.id < db.next_observation_id). omega arith) db.observations
            orderly.given_out)
          (omega arith, tt);
    behind = λ n.
        let before = orderly.behind n in rw (position-same n db (observed o db) refl) (omega arith);
  }

-- What happens to the tables: an observation is written, or a worker runs a cycle with whatever
-- failures of the database.
pub data Step {V : Type 0} (fl : Floats V) (hash : List Label → String)
    : Tables V → Tables V → Type 0 where
  observes :
      {db : Tables V} (o : AnalyticalObservation V)
      → o.id ≡ db.next_observation_id
      → Step fl hash db (observed o db)
  aggregates :
      {db : Tables V} (faults : Faults) (now : ℕ)
      → Step fl hash db (aggregate_prometheus_metric_state fl hash faults now db).0

pub data Steps {V : Type 0} (fl : Floats V) (hash : List Label → String)
    : Tables V → Tables V → Type 0 where
  start_here : {db : Tables V} → Steps fl hash db db
  then_step : {s t u : Tables V} → Steps fl hash s t → Step fl hash t u → Steps fl hash s u

module _ {V : Type 0} {fl : Floats V} (c : Counts fl) (hash : List Label → String)
    (exact : IsExact c) where
  prefix-IsCounted :
      (o : AnalyticalObservation V) (os : List (AnalyticalObservation V))
      → IsCounted c hash (os ++ o ∷ [])
      → IsCounted c hash os
  prefix-IsCounted o os counted = (
    All-append_left (λ x. IsCount c x.value) os (o ∷ []) counted.0,
    λ k. omega (arith, counted.1 k, sum_of-append (share c hash k) os (o ∷ [])),
  )

  observed-IsSound :
      (o : AnalyticalObservation V) (db : Tables V)
      → o.id ≡ db.next_observation_id
      → IsSound c hash exact db
      → IsSound c hash exact (observed o db)
  observed-IsSound o db new (refined, orderly) = (
    λ k.
        let here = position (name_of k) db in
        let not_yet : leb o.id here ≡ false =
          let behind = orderly.behind (name_of k) in ground arith in
        let same : total_until c hash k here (db.observations ++ o ∷ [])
            ≡ total_until c hash k here db.observations =
          sum_of-append (λ x. if leb x.id here then share c hash k x else 0) db.observations
            (o ∷ [])
          ∙ rw not_yet (omega arith) in
        rw (position-same (name_of k) db (observed o db) refl, same) (refined k),
    observed-IsOrderly o db new orderly,
  )

  Step-IsSound :
      (s t : Tables V)
      → Step fl hash s t
      → (IsCounted c hash s.observations → IsSound c hash exact s)
      → IsCounted c hash t.observations
      → IsSound c hash exact t
  Step-IsSound s t (observes o new) sound counted =
      observed-IsSound o s new (sound (prefix-IsCounted o s.observations counted))
  Step-IsSound s t (aggregates faults now) sound counted =
      let before : IsCounted c hash s.observations =
        subst (IsCounted c hash) (cycle_log fl hash faults now s) counted in
      (cycle-Advanced c hash exact faults now s (sound before) before).0

  pub Steps-IsSound :
      (s t : Tables V)
      → IsSound c hash exact s
      → Steps fl hash s t
      → IsCounted c hash t.observations
      → IsSound c hash exact t
  Steps-IsSound s t sound start_here counted = sound
  Steps-IsSound s t sound (then_step {t = u} before last) counted =
      Step-IsSound u t last (Steps-IsSound s u sound before) counted

  pub empty_tables-IsSound : IsSound c hash exact empty_tables
  unfolding stored_value find_series position find_checkpoint
  empty_tables-IsSound = (
    λ k. sym exact.of_count_zero,
    record { ascends = tt; given_out = tt; behind = λ n. omega arith },
  )

  -- If sums of counts are exact up to a bound, every observation's value is a count and the
  -- observations of each series stay within the bound, then after any observations, whose ids are
  -- consecutive and become visible in their order, one after the other, and any cycles, with whatever
  -- failures of the database, from empty tables, each series has as its value the total of the
  -- observations of its stream, metric code and labels up to its stream's checkpoint, and 0 is the
  -- total of a series that has no row.
  pub Steps-IsRefined :
      (t : Tables V)
      → Steps fl hash empty_tables t
      → IsCounted c hash t.observations
      → IsRefined c hash t
  Steps-IsRefined t steps counted =
      (Steps-IsSound empty_tables t empty_tables-IsSound steps counted).0
