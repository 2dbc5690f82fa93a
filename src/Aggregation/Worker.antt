-- ===== src/Aggregation/Worker.antt =====
-- `aggregate_prometheus_metric_state` of app/worker.py: each stream in a transaction of its own.
use outbox_service.Prelude.{ℕ, ◌+◌, Bool, List, [], ◌∷◌, String, Result, ok, err, if◌then◌else◌}
use outbox_service.Aggregation.Values.{Floats}
use outbox_service.Aggregation.Labels.{Label}
use outbox_service.Aggregation.Model.{MetricObservationStream, Tables}
use outbox_service.Aggregation.Repository.{AggregationError, find_observation_streams}
use outbox_service.Aggregation.Service.{aggregate_stream}

-- Where the database fails: in the query for the streams, or in a stream's transaction, its commit
-- included.
pub record Faults : Type 0 where
  pub query_fails : Bool
  pub stream_fails : MetricObservationStream → Bool

pub data StreamError : Type 0 where
  aggregation : AggregationError → StreamError
  database : StreamError

pub record MetricStateAggregationFailure : Type 0 where
  pub project_id : ℕ
  pub event_type_id : ℕ
  pub error : StreamError

pub record MetricStateAggregationCycleResult : Type 0 where
  pub aggregated_count : ℕ
  pub failures : List MetricStateAggregationFailure

-- the count, or the failure, is noted
unfoldable pub note_stream :
    MetricObservationStream
    → Result StreamError ℕ
    → MetricStateAggregationCycleResult
    → MetricStateAggregationCycleResult
note_stream s (ok count) r = record r { aggregated_count = count + r.aggregated_count }
note_stream s (err e) r = record r {
  failures =
      record { project_id = s.project_id; event_type_id = s.event_type_id; error = e } ∷ r.failures;
}

module _ {V : Type 0} where
  -- the commit, or the rollback to the tables before the stream
  unfoldable pub end_stream :
      Bool → Tables V → Result AggregationError (Tables V × ℕ) → Tables V × Result StreamError ℕ
  end_stream fails db (err e) = (db, err (aggregation e))
  end_stream fails db (ok (db', count)) = if fails then (db, err database) else (db', ok count)

  module _ (fl : Floats V) (build_labels_hash : List Label → String) (faults : Faults)
      (now : ℕ) where
    abbrev pub run_stream : MetricObservationStream → Tables V → Tables V × Result StreamError ℕ
    run_stream s db =
        end_stream (faults.stream_fails s) db
          (aggregate_stream fl build_labels_hash now s.project_id s.event_type_id 1000 db)

    -- the loop over the streams
    unfoldable pub run_streams :
        List MetricObservationStream → Tables V → Tables V × MetricStateAggregationCycleResult
    run_streams [] db = (db, record { aggregated_count = 0; failures = [] })
    run_streams (s ∷ ss) db =
        let (db', r) = run_stream s db in
        let (db'', rest) = run_streams ss db' in (db'', note_stream s r rest)

    unfoldable pub aggregate_prometheus_metric_state :
        Tables V → Tables V × MetricStateAggregationCycleResult
    aggregate_prometheus_metric_state db =
        if faults.query_fails
        then (db, record { aggregated_count = 0; failures = [] })
        else run_streams (find_observation_streams db) db
