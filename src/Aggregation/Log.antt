-- ===== src/Aggregation/Log.antt =====
-- The aggregation only reads the log of observations.
use outbox_service.Prelude.{
  ap, ℕ, ◌≡◌, refl, ◌∙◌, none, some, List, [], ◌∷◌, String, Result, inl, inr, Option-cases,
  Result-cases, Bool-cases, OnOk, OnOk-bind, OnOk-mono, OnOk-eq, if_both, subst, Option,
}
use outbox_service.Aggregation.Values.{Floats}
use outbox_service.Aggregation.Labels.{Label}
use outbox_service.Aggregation.Model.{
  AnalyticalObservation, MetricObservationStream, MetricCheckpoint, MetricStateDelta, MetricState,
  Tables, series_of_delta,
}
use outbox_service.Aggregation.Repository.{
  upsert_delta, merge_delta, get_or_create_checkpoint, build_checkpoint_name,
  find_observation_streams, find_observations_after, find_series,
}
use outbox_service.Aggregation.Service.{
  upsert_deltas, aggregate_batch, aggregate_stream, validate_observation_batch,
  aggregate_observations, last_id,
}
use outbox_service.Aggregation.Worker.{
  Faults, end_stream, run_stream, run_streams, aggregate_prometheus_metric_state,
}
use outbox_service.Aggregation.Positions.{update_checkpoint_rest, get_or_create_checkpoint-position}

module _ {V : Type 0} (fl : Floats V) where
  abbrev Logs : List (AnalyticalObservation V) → Tables V → Type 0
  Logs os db = db.observations ≡ os

  merge_delta-Logs :
      (now : ℕ) (d : MetricStateDelta V) (s : Option (MetricState V)) (db : Tables V)
      → OnOk (Logs db.observations) (merge_delta fl now d s db)
  unfolding merge_delta
  merge_delta-Logs now d none db = refl
  merge_delta-Logs now d (some s) db = elim (Option-cases (fl.db_plus s.value d.value)) [
    | inl fails ↦ simp (fails, merge_delta) tt
    | inr (sum, made) ↦ simp (made, merge_delta) refl
  ]

  upsert_deltas-Logs :
      (now : ℕ) (ds : List (MetricStateDelta V)) (db : Tables V)
      → OnOk (Logs db.observations) (upsert_deltas fl now ds db)
  unfolding upsert_deltas upsert_delta
  upsert_deltas-Logs now [] db = refl
  upsert_deltas-Logs now (d ∷ ds) db =
      let held = find_series (series_of_delta d) db.states in
      let r = merge_delta fl now d held db in
      OnOk-bind (Logs db.observations) r (upsert_deltas fl now ds) (λ db' made.
        let same : db'.observations ≡ db.observations =
          OnOk-eq (Logs db.observations) r (merge_delta-Logs now d held db) made in
        OnOk-mono (Logs db'.observations) (Logs db.observations) (upsert_deltas fl now ds db')
          (λ db'' e. e ∙ same) (upsert_deltas-Logs now ds db'))

  module _ (hash : List Label → String) where
    abbrev Logged : List (AnalyticalObservation V) → Tables V × ℕ → Type 0
    Logged os (db, count) = db.observations ≡ os

    batch-Logged :
        (now p e : ℕ) (c : MetricCheckpoint) (os : List (AnalyticalObservation V)) (db : Tables V)
        → OnOk (Logged db.observations) (aggregate_batch fl hash now p e c os db)
    unfolding aggregate_batch
    batch-Logged now p e c [] db = refl
    batch-Logged now p e c (o ∷ os) db =
        let Kept = Logged db.observations in
        OnOk-bind Kept (validate_observation_batch (o ∷ os) p e c.last_processed_observation_id) _
          (λ _ _. OnOk-bind Kept (aggregate_observations fl hash (o ∷ os)) _ (λ ds _.
            OnOk-bind Kept (upsert_deltas fl now ds db) _ (λ db' made.
              (update_checkpoint_rest now (last_id o os) c db').1
              ∙ OnOk-eq (Logs db.observations) (upsert_deltas fl now ds db)
                  (upsert_deltas-Logs now ds db) made)))

    stream-Logged :
        (now p e limit : ℕ) (db : Tables V)
        → OnOk (Logged db.observations) (aggregate_stream fl hash now p e limit db)
    unfolding aggregate_stream
    stream-Logged now p e limit db =
        let name = build_checkpoint_name p e in
        let (_, _, _, rest) = get_or_create_checkpoint-position now name db in
        let (db1, c) = get_or_create_checkpoint now name db in
        let found = find_observations_after p e c.last_processed_observation_id limit db1 in
        subst (λ os. OnOk (Logged os) (aggregate_batch fl hash now p e c found db1))
          (ap (λ t. t.observations) rest) (batch-Logged now p e c found db1)

    module _ (faults : Faults) (now : ℕ) where
      run_stream_log :
          (s : MetricObservationStream) (db : Tables V)
          → (run_stream fl hash faults now s db).0.observations ≡ db.observations
      unfolding end_stream
      run_stream_log s db =
          let r = aggregate_stream fl hash now s.project_id s.event_type_id 1000 db in
          elim (Result-cases r) [
            | inr (e, failed) ↦ rw failed refl
            | inl ((db', count), returned) ↦ rw returned (
                if_both (λ (a : Tables V × Result _ ℕ). a.0.observations ≡ db.observations)
                  (faults.stream_fails s) refl
                  (OnOk-eq (Logged db.observations) r
                    (stream-Logged now s.project_id s.event_type_id 1000 db) returned))
          ]

      run_streams_log :
          (ss : List MetricObservationStream) (db : Tables V)
          → (run_streams fl hash faults now ss db).0.observations ≡ db.observations
      unfolding run_streams
      run_streams_log [] db = refl
      run_streams_log (s ∷ ss) db =
          run_streams_log ss (run_stream fl hash faults now s db).0 ∙ run_stream_log s db

      pub cycle_log :
          (db : Tables V)
          → (aggregate_prometheus_metric_state fl hash faults now db).0.observations
            ≡ db.observations
      unfolding aggregate_prometheus_metric_state
      cycle_log db = elim (Bool-cases faults.query_fails) [
        | inl fails ↦ simp fails refl
        | inr runs ↦ simp runs (run_streams_log (find_observation_streams db) db)
      ]
