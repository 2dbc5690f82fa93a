-- ===== src/Aggregation/Model.antt =====
-- The rows of app/models/analytical_observation.py, metric_state.py and metric_checkpoint.py, and the
-- dataclasses of app/repositories/metric_state_repository.py.
use outbox_service.Prelude.{
  ℕ, Bool, ◌&&◌, ◌==◌, ◌≡◌, true, Option, List, String, str_eq, eq_iff, arith,
}
use outbox_service.Json.{Json}
use outbox_service.Aggregation.Labels.{Label}

pub record AnalyticalObservation (V : Type 0) : Type 0 where
  pub id : ℕ
  pub project_id : ℕ
  pub event_type_id : ℕ
  pub metric_definition_id : ℕ
  pub metric_definition_version_id : ℕ
  pub metric_code : String
  pub value : V
  pub dimensions_json : Json

pub record MetricObservationStream : Type 0 where
  pub project_id : ℕ
  pub event_type_id : ℕ

-- the name of a checkpoint, for the text that `build_checkpoint_name` makes of the two ids
pub data CheckpointName : Type 0 where
  prometheus_metric_state : ℕ → ℕ → CheckpointName

pub record MetricCheckpoint : Type 0 where
  pub checkpoint_name : CheckpointName
  pub last_processed_observation_id : ℕ
  pub updated_at : ℕ

pub record MetricStateDelta (V : Type 0) : Type 0 where
  pub project_id : ℕ
  pub event_type_id : ℕ
  pub metric_definition_id : Option ℕ
  pub metric_definition_version_id : Option ℕ
  pub metric_code : String
  pub labels_json : List Label
  pub labels_hash : String
  pub value : V

pub record MetricState (V : Type 0) : Type 0 where
  pub id : ℕ
  pub project_id : ℕ
  pub event_type_id : ℕ
  pub metric_definition_id : Option ℕ
  pub metric_definition_version_id : Option ℕ
  pub metric_code : String
  pub labels_json : List Label
  pub labels_hash : String
  pub value : V
  pub updated_at : ℕ

-- the tables that the aggregation reads and writes, with the next ids of two of them
pub record Tables (V : Type 0) : Type 0 where
  pub observations : List (AnalyticalObservation V)
  pub states : List (MetricState V)
  pub checkpoints : List MetricCheckpoint
  pub next_observation_id : ℕ
  pub next_state_id : ℕ

-- the columns of the unique key `uq_metric_state_series`
pub record Series : Type 0 where
  pub project_id : ℕ
  pub event_type_id : ℕ
  pub metric_code : String
  pub labels_hash : String

unfoldable pub same_series : Series → Series → Bool
same_series x y =
    x.project_id == y.project_id
    && x.event_type_id == y.event_type_id
    && str_eq x.metric_code y.metric_code
    && str_eq x.labels_hash y.labels_hash

unfoldable pub same_name : CheckpointName → CheckpointName → Bool
same_name (prometheus_metric_state p e) (prometheus_metric_state q f) = p == q && e == f

module _ {V : Type 0} where
  abbrev pub series_of_state : MetricState V → Series
  series_of_state s = record {
    project_id = s.project_id;
    event_type_id = s.event_type_id;
    metric_code = s.metric_code;
    labels_hash = s.labels_hash;
  }

  abbrev pub series_of_delta : MetricStateDelta V → Series
  series_of_delta d = record {
    project_id = d.project_id;
    event_type_id = d.event_type_id;
    metric_code = d.metric_code;
    labels_hash = d.labels_hash;
  }

pub same_series-eq : (x y : Series) → same_series x y ≡ true → x ≡ y
unfolding same_series
same_series-eq x y h =
    ground (arith, eq_iff x.metric_code y.metric_code, eq_iff x.labels_hash y.labels_hash)

pub same_series_refl : (x : Series) → same_series x x ≡ true
unfolding same_series
same_series_refl x =
    ground (arith, eq_iff x.metric_code x.metric_code, eq_iff x.labels_hash x.labels_hash)

pub same_name-eq : (x y : CheckpointName) → same_name x y ≡ true → x ≡ y
unfolding same_name
same_name-eq (prometheus_metric_state p e) (prometheus_metric_state q f) h = ground arith

pub same_name_refl : (x : CheckpointName) → same_name x x ≡ true
unfolding same_name
same_name_refl (prometheus_metric_state p e) = ground arith
