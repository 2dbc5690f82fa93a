-- ===== src/Aggregation/Repository.antt =====
-- app/repositories/metric_state_repository.py.
use outbox_service.Prelude.{
  ℕ, suc, Bool, ◌&&◌, ◌||◌, not, Option, none, some, List, [], ◌∷◌, ◌++◌, map, ◌==◌, ltb, leb,
  select, order_by, take, find_by, put_by, Result, ok, err,
}
use outbox_service.Aggregation.Values.{Floats, CounterValueError}
use outbox_service.Aggregation.Labels.{RenderingError}
use outbox_service.Aggregation.Model.{
  AnalyticalObservation, MetricObservationStream, CheckpointName, prometheus_metric_state,
  MetricCheckpoint, MetricStateDelta, MetricState, Tables, Series, same_series, same_name,
  series_of_state, series_of_delta,
}

-- What ends the aggregation of a stream: the errors of the service, and of the database.
pub data AggregationError : Type 0 where
  invalid_labels : RenderingError → AggregationError
  invalid_value : CounterValueError → AggregationError
  outside_stream not_ordered out_of_range : AggregationError

unfoldable pub stream_before : MetricObservationStream → MetricObservationStream → Bool
stream_before x y =
    ltb x.project_id y.project_id
    || x.project_id == y.project_id && leb x.event_type_id y.event_type_id

unfoldable pub same_stream : MetricObservationStream → MetricObservationStream → Bool
same_stream x y = x.project_id == y.project_id && x.event_type_id == y.event_type_id

-- `SELECT DISTINCT`
unfoldable pub distinct : List MetricObservationStream → List MetricObservationStream
unfolding same_stream
distinct [] = []
distinct (x ∷ xs) = x ∷ select (λ y. not (same_stream x y)) (distinct xs)

unfoldable pub build_checkpoint_name : ℕ → ℕ → CheckpointName
build_checkpoint_name project_id event_type_id = prometheus_metric_state project_id event_type_id

unfoldable pub find_checkpoint : CheckpointName → List MetricCheckpoint → Option MetricCheckpoint
find_checkpoint = find_by same_name (λ c. c.checkpoint_name)

-- the flush of a changed checkpoint
unfoldable pub put_checkpoint : MetricCheckpoint → List MetricCheckpoint → List MetricCheckpoint
put_checkpoint = put_by same_name (λ c. c.checkpoint_name)

abbrev pub fresh_checkpoint : ℕ → CheckpointName → MetricCheckpoint
fresh_checkpoint now name = record {
  checkpoint_name = name;
  last_processed_observation_id = 0;
  updated_at = now;
}

module _ {V : Type 0} where
  abbrev stream_of : AnalyticalObservation V → MetricObservationStream
  stream_of o = record { project_id = o.project_id; event_type_id = o.event_type_id }

  unfoldable pub find_observation_streams : Tables V → List MetricObservationStream
  unfolding stream_before
  find_observation_streams db = order_by stream_before (distinct (map stream_of db.observations))

  -- the `WHERE` of `find_observations_after`
  unfoldable pub is_pending : ℕ → ℕ → ℕ → AnalyticalObservation V → Bool
  is_pending project_id event_type_id observation_id o =
      o.project_id == project_id && o.event_type_id == event_type_id && ltb observation_id o.id

  unfoldable pub find_observations_after : ℕ → ℕ → ℕ → ℕ → Tables V → List (AnalyticalObservation V)
  unfolding is_pending
  find_observations_after project_id event_type_id observation_id limit db = take limit (
      order_by (λ x y. leb x.id y.id)
        (select (is_pending project_id event_type_id observation_id) db.observations))

  -- the insert that does nothing on a conflict, then the row under its name
  unfoldable pub get_or_create_checkpoint :
      ℕ → CheckpointName → Tables V → Tables V × MetricCheckpoint
  get_or_create_checkpoint now name db = elim (find_checkpoint name db.checkpoints) [
    | some c ↦ (db, c)
    | none ↦ (
      record db { checkpoints = db.checkpoints ++ fresh_checkpoint now name ∷ [] },
      fresh_checkpoint now name,
    )
  ]

  unfoldable pub update_checkpoint : ℕ → MetricCheckpoint → ℕ → Tables V → Tables V
  update_checkpoint now c last_processed_observation_id db = record db {
    checkpoints =
        put_checkpoint
          (record c {
            last_processed_observation_id = last_processed_observation_id;
            updated_at = now;
          })
          db.checkpoints;
  }

  unfoldable pub find_series : Series → List (MetricState V) → Option (MetricState V)
  find_series = find_by same_series series_of_state

  unfoldable pub put_series : MetricState V → List (MetricState V) → List (MetricState V)
  put_series = put_by same_series series_of_state

  abbrev pub new_state : ℕ → ℕ → MetricStateDelta V → MetricState V
  new_state now id d = record {
    id = id;
    project_id = d.project_id;
    event_type_id = d.event_type_id;
    metric_definition_id = d.metric_definition_id;
    metric_definition_version_id = d.metric_definition_version_id;
    metric_code = d.metric_code;
    labels_json = d.labels_json;
    labels_hash = d.labels_hash;
    value = d.value;
    updated_at = now;
  }

  -- the `SET` of the conflict, with the sum that the database has made
  abbrev pub changed_state : ℕ → V → MetricStateDelta V → MetricState V → MetricState V
  changed_state now sum d s = record s {
    value = sum;
    labels_json = d.labels_json;
    metric_definition_id = d.metric_definition_id;
    metric_definition_version_id = d.metric_definition_version_id;
    updated_at = now;
  }

  -- `INSERT ... ON CONFLICT DO UPDATE`, on the row in conflict
  unfoldable pub merge_delta :
      Floats V
      → ℕ
      → MetricStateDelta V
      → Option (MetricState V)
      → Tables V
      → Result AggregationError (Tables V)
  merge_delta fl now d none db = ok (record db {
    states = db.states ++ new_state now db.next_state_id d ∷ [];
    next_state_id = suc db.next_state_id;
  })
  merge_delta fl now d (some s) db = elim (fl.db_plus s.value d.value) [
    | none ↦ err out_of_range
    | some sum ↦ ok (record db { states = put_series (changed_state now sum d s) db.states })
  ]

  unfoldable pub upsert_delta :
      Floats V → ℕ → MetricStateDelta V → Tables V → Result AggregationError (Tables V)
  unfolding merge_delta
  upsert_delta fl now d db = merge_delta fl now d (find_series (series_of_delta d) db.states) db
