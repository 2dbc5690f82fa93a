-- ===== src/Aggregation/Refinement.antt =====
-- The counters of the database refine the log: whatever cycles have run, a series has the total of
-- its stream's observations up to the checkpoint.
use outbox_service.Prelude.{
  ℕ, ◌<◌, ◌≡◌, refl, sym, subst, ap, ◌∙◌, some, List, [], ◌∷◌, String, Result, inl, inr, Bool-cases,
  Result-cases, All, All-select, OnOk, OnOk-mono, OnOk-eq, if_both,
}
use outbox_service.Aggregation.Values.{Floats, Counts, IsExact}
use outbox_service.Aggregation.Labels.{Label}
use outbox_service.Aggregation.Model.{
  AnalyticalObservation, MetricObservationStream, CheckpointName, MetricCheckpoint, Tables,
  same_name,
}
use outbox_service.Aggregation.Repository.{
  build_checkpoint_name, find_checkpoint, find_observations_after, find_observation_streams,
  is_pending, get_or_create_checkpoint,
}
use outbox_service.Aggregation.Service.{last_id, aggregate_batch, aggregate_stream}
use outbox_service.Aggregation.Worker.{
  Faults, end_stream, run_stream, run_streams, aggregate_prometheus_metric_state,
}
use outbox_service.Aggregation.Pending.{Ascends, last_id-All, find_observations_after-All}
use outbox_service.Aggregation.Positions.{position, get_or_create_checkpoint-position}
use outbox_service.Aggregation.Batches.{IsRefined, IsCounted, Kept, batch-Kept, name_of}

module _ {V : Type 0} where
  -- The log is in the order of its ids, which the sequence has given out, and no checkpoint is ahead
  -- of the sequence.
  pub record IsOrderly (db : Tables V) : Type 0 where
    pub ascends : Ascends db.observations
    pub given_out : All (λ o. o.id < db.next_observation_id) db.observations
    pub behind : (n : CheckpointName) → position n db < db.next_observation_id

module _ {V : Type 0} {fl : Floats V} (c : Counts fl) (hash : List Label → String)
    (exact : IsExact c) where
  abbrev pub IsSound : Tables V → Type 0
  IsSound db = IsRefined c hash db × IsOrderly db

  -- sound tables with the same log
  abbrev Advanced : List (AnalyticalObservation V) → Tables V × ℕ → Type 0
  Advanced os (db', count) = IsSound db' × (db'.observations ≡ os)

  module _ (db : Tables V) (p e limit now : ℕ) (cp : MetricCheckpoint) (sound : IsSound db)
      (counted : IsCounted c hash db.observations)
      (locked : find_checkpoint (build_checkpoint_name p e) db.checkpoints ≡ some cp) where
    batch-Advanced :
        (os : List (AnalyticalObservation V))
        → find_observations_after p e (position (build_checkpoint_name p e) db) limit db ≡ os
        → OnOk (Advanced db.observations) (aggregate_batch fl hash now p e cp os db)
    unfolding aggregate_batch
    batch-Advanced [] found = (sound, refl)
    batch-Advanced (o ∷ os) found =
        let orderly = sound.1 in
        let name = build_checkpoint_name p e in
        let last = last_id o os in
        let next = db.next_observation_id in
        let given : last < next =
          last_id-All (λ i. i < next) o os
            (subst (All (λ x. x.id < next)) found (
              find_observations_after-All (λ x. x.id < next) p e (position name db) limit db
                (All-select (λ x. x.id < next) (is_pending p e (position name db)) db.observations
                  orderly.given_out))) in
        OnOk-mono (Kept c hash db name last) (Advanced db.observations)
          (aggregate_batch fl hash now p e cp (o ∷ os) db)
          (λ (db', count) (refined, log, same_next, places). (
            (
              refined,
              record {
                ascends = rw log orderly.ascends;
                given_out = rw (log, same_next) orderly.given_out;
                behind = λ n.
                    rw (places n, same_next)
                      (if_both (λ i. i < next) (same_name n name) given (orderly.behind n));
              },
            ),
            log,
          ))
          (batch-Kept c hash db p e limit o os orderly.ascends found now cp exact counted sound.0
            locked)

  pub get_or_create-IsSound :
      (now : ℕ) (name : CheckpointName) (db : Tables V)
      → IsSound db
      → IsSound (get_or_create_checkpoint now name db).0
  get_or_create-IsSound now name db (refined, orderly) =
      let (locked, place, places, rest) = get_or_create_checkpoint-position now name db in
      let log = ap (λ t. t.observations) rest in
      let next = ap (λ t. t.next_observation_id) rest in
      let same_states = ap (λ t. t.states) rest in
      (
        λ k. rw (places (name_of k), log, same_states) (refined k),
        record {
          ascends = rw log orderly.ascends;
          given_out = rw (log, next) orderly.given_out;
          behind = λ n. rw (places n, next) (orderly.behind n);
        },
      )

  stream-Advanced :
      (now p e limit : ℕ) (db : Tables V)
      → IsSound db
      → IsCounted c hash db.observations
      → OnOk (Advanced db.observations) (aggregate_stream fl hash now p e limit db)
  unfolding aggregate_stream
  stream-Advanced now p e limit db sound counted =
      let name = build_checkpoint_name p e in
      let (locked, place, places, rest) = get_or_create_checkpoint-position now name db in
      let (db1, cp) = get_or_create_checkpoint now name db in
      let log : db1.observations ≡ db.observations = ap (λ t. t.observations) rest in
      let found = find_observations_after p e cp.last_processed_observation_id limit db1 in
      subst (λ os. OnOk (Advanced os) (aggregate_batch fl hash now p e cp found db1)) log
        (batch-Advanced db1 p e limit now cp (get_or_create-IsSound now name db sound)
          (rw log counted) locked found
          (ap (λ i. find_observations_after p e i limit db1) (places name ∙ sym place)))

  module _ (faults : Faults) (now : ℕ) where
    run_stream-Advanced :
        (s : MetricObservationStream) (db : Tables V)
        → IsSound db
        → IsCounted c hash db.observations
        → let db' = (run_stream fl hash faults now s db).0 in
          IsSound db' × (db'.observations ≡ db.observations)
    unfolding end_stream
    run_stream-Advanced s db sound counted =
        let r = aggregate_stream fl hash now s.project_id s.event_type_id 1000 db in
        let advanced = stream-Advanced now s.project_id s.event_type_id 1000 db sound counted in
        elim (Result-cases r) [
          | inr (e, failed) ↦ rw failed (sound, refl)
          | inl ((db', count), returned) ↦
              let kept = OnOk-eq (Advanced db.observations) r advanced returned in
              rw returned (
                if_both
                  (λ (a : Tables V × Result _ ℕ).
                    IsSound a.0 × (a.0.observations ≡ db.observations))
                  (faults.stream_fails s) (sound, refl) kept)
        ]

    run_streams-Advanced :
        (ss : List MetricObservationStream) (db : Tables V)
        → IsSound db
        → IsCounted c hash db.observations
        → let db' = (run_streams fl hash faults now ss db).0 in
          IsSound db' × (db'.observations ≡ db.observations)
    unfolding run_streams
    run_streams-Advanced [] db sound counted = (sound, refl)
    run_streams-Advanced (s ∷ ss) db sound counted =
        let db' = (run_stream fl hash faults now s db).0 in
        let (sound', log) = run_stream-Advanced s db sound counted in
        let (sound'', log') = run_streams-Advanced ss db' sound' (rw log counted) in
        (sound'', log' ∙ log)

    -- a cycle keeps sound tables sound and leaves the log as it is
    pub cycle-Advanced :
        (db : Tables V)
        → IsSound db
        → IsCounted c hash db.observations
        → let db' = (aggregate_prometheus_metric_state fl hash faults now db).0 in
          IsSound db' × (db'.observations ≡ db.observations)
    unfolding aggregate_prometheus_metric_state
    cycle-Advanced db sound counted = elim (Bool-cases faults.query_fails) [
      | inl fails ↦ simp fails (sound, refl)
      | inr runs ↦ simp runs (run_streams-Advanced (find_observation_streams db) db sound counted)
    ]
