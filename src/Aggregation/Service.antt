-- ===== src/Aggregation/Service.antt =====
-- app/services/metric_state_aggregation_service.py. The hash of a set of labels is a parameter.
use outbox_service.Prelude.{
  ℕ, suc, ◌+◌, ◌||◌, not, some, List, [], ◌∷◌, ◌++◌, if◌then◌else◌, ◌==◌, leb, String, length,
  Result, ok, err, ◌>>=◌, ◌>>◌, raise_if,
}
use outbox_service.Aggregation.Values.{
  Floats, normalize_counter_increment, coalesce_counter_increments, CounterValueError,
}
use outbox_service.Aggregation.Labels.{Label, RenderingError, normalize_observation_business_labels}
use outbox_service.Aggregation.Model.{
  AnalyticalObservation, MetricObservationStream, MetricCheckpoint, MetricStateDelta, Tables,
  same_series, series_of_delta,
}
use outbox_service.Aggregation.Repository.{
  AggregationError, invalid_labels, invalid_value, outside_stream, not_ordered,
  build_checkpoint_name, get_or_create_checkpoint, find_observations_after, upsert_delta,
  update_checkpoint,
}

-- `raise MetricStateAggregationError(...) from exc`
unfoldable pub labels_raised : {A : Type 0} → Result RenderingError A → Result AggregationError A
labels_raised (ok a) = ok a
labels_raised (err e) = err (invalid_labels e)

unfoldable pub value_raised : {A : Type 0} → Result CounterValueError A → Result AggregationError A
value_raised (ok a) = ok a
value_raised (err e) = err (invalid_value e)

-- an entry of `grouped`, with the values of its key
abbrev pub Group : Type 0 → Type 0
Group V = MetricStateDelta V × List V

module _ {V : Type 0} where
  -- `values[key].append(value)`, after which a new key gets its entry
  unfoldable pub add_value : MetricStateDelta V → V → List (Group V) → List (Group V)
  add_value d v [] = (d, v ∷ []) ∷ []
  add_value d v ((g, vs) ∷ gs) =
      if same_series (series_of_delta d) (series_of_delta g)
      then (g, vs ++ v ∷ []) ∷ gs
      else (g, vs) ∷ add_value d v gs

  -- `_validate_observation_batch`
  unfoldable pub validate_observation_batch :
      List (AnalyticalObservation V) → ℕ → ℕ → ℕ → Result AggregationError (Unit {0})
  validate_observation_batch [] project_id event_type_id previous_id = ok tt
  validate_observation_batch (o ∷ os) project_id event_type_id previous_id =
      raise_if (not (o.project_id == project_id) || not (o.event_type_id == event_type_id))
        outside_stream
      >> raise_if (leb o.id previous_id) not_ordered
      >> validate_observation_batch os project_id event_type_id o.id

  -- `observations[-1].id`, after the first
  unfoldable pub last_id : AnalyticalObservation V → List (AnalyticalObservation V) → ℕ
  last_id o [] = o.id
  last_id o (p ∷ os) = last_id p os

  module _ (fl : Floats V) where
    -- the comprehension over the groups
    unfoldable pub coalesce_groups :
        List (Group V) → Result AggregationError (List (MetricStateDelta V))
    coalesce_groups [] = ok []
    coalesce_groups ((d, vs) ∷ gs) = value_raised (coalesce_counter_increments fl vs) >>= λ total.
        coalesce_groups gs >>= λ ds. ok (record d { value = total } ∷ ds)

    unfoldable pub upsert_deltas :
        ℕ → List (MetricStateDelta V) → Tables V → Result AggregationError (Tables V)
    upsert_deltas now [] db = ok db
    upsert_deltas now (d ∷ ds) db = upsert_delta fl now d db >>= upsert_deltas now ds

  module _ (fl : Floats V) (build_labels_hash : List Label → String) where
    -- the entry of an observation's key, with the value 0
    abbrev pub empty_delta : AnalyticalObservation V → List Label → MetricStateDelta V
    empty_delta o labels = record {
      project_id = o.project_id;
      event_type_id = o.event_type_id;
      metric_definition_id = some o.metric_definition_id;
      metric_definition_version_id = some o.metric_definition_version_id;
      metric_code = o.metric_code;
      labels_json = labels;
      labels_hash = build_labels_hash labels;
      value = fl.zero_value;
    }

    -- the loop over the observations
    unfoldable pub group_observations :
        List (AnalyticalObservation V) → List (Group V) → Result AggregationError (List (Group V))
    group_observations [] grouped = ok grouped
    group_observations (o ∷ os) grouped =
        labels_raised (normalize_observation_business_labels o.dimensions_json) >>= λ labels.
        value_raised (normalize_counter_increment fl o.value) >>= λ value.
        group_observations os (add_value (empty_delta o labels) value grouped)

    -- `_aggregate_observations`
    unfoldable pub aggregate_observations :
        List (AnalyticalObservation V) → Result AggregationError (List (MetricStateDelta V))
    aggregate_observations os = group_observations os [] >>= coalesce_groups fl

    -- `aggregate_stream` after the query
    unfoldable pub aggregate_batch :
        ℕ
        → ℕ
        → ℕ
        → MetricCheckpoint
        → List (AnalyticalObservation V)
        → Tables V
        → Result AggregationError (Tables V × ℕ)
    aggregate_batch now project_id event_type_id c [] db = ok (db, 0)
    aggregate_batch now project_id event_type_id c (o ∷ os) db =
        validate_observation_batch (o ∷ os) project_id event_type_id c.last_processed_observation_id
        >> (aggregate_observations (o ∷ os) >>= λ deltas. upsert_deltas fl now deltas db >>= λ db'.
            ok (update_checkpoint now c (last_id o os) db', suc (length os)))

    unfoldable pub aggregate_stream :
        ℕ → ℕ → ℕ → ℕ → Tables V → Result AggregationError (Tables V × ℕ)
    unfolding aggregate_batch
    aggregate_stream now project_id event_type_id limit db =
        let (db', c) =
          get_or_create_checkpoint now (build_checkpoint_name project_id event_type_id) db in
        aggregate_batch now project_id event_type_id c
          (find_observations_after project_id event_type_id c.last_processed_observation_id limit
            db')
          db'

    -- `aggregate_all_streams`, over the streams that the query has found
    unfoldable pub aggregate_all :
        ℕ → ℕ → List MetricObservationStream → Tables V → Result AggregationError (Tables V × ℕ)
    aggregate_all now limit [] db = ok (db, 0)
    aggregate_all now limit (s ∷ ss) db =
        aggregate_stream now s.project_id s.event_type_id limit db >>= λ (db', count).
        aggregate_all now limit ss db' >>= λ (db'', total). ok (db'', count + total)
