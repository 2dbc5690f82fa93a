-- ===== src/Aggregation/Tests.antt =====
-- Runs of the aggregation of metric states, and its theorems at a small log.
use outbox_service.Prelude.{
  sum_of, is_empty, ℕ, ◌+◌, ◌≤◌, ◌≡◌, refl, ap, true, false, some, List, [], ◌∷◌, String, ok, ◌==◌,
  leb, min, length, select, arith, All, subst, sym, inl, inr, Result-cases,
}
use outbox_service.Json.{text, object, field, end_fields}
use outbox_service.Cardinality.Names.{is_business_label_name}
use outbox_service.Aggregation.Values.{
  Floats, Counts, IsExact, count_sum, normalize_counter_increment, coalesce_counter_increments,
  normalize_all, total_of,
}
use outbox_service.Aggregation.Labels.{
  Label, normalize_observation_business_labels, checked_labels, is_container, text_leb,
}
use outbox_service.Aggregation.Model.{
  AnalyticalObservation, MetricState, Tables, Series, same_series, same_name,
}
use outbox_service.Aggregation.Repository.{
  build_checkpoint_name, find_observation_streams, find_observations_after, is_pending, distinct,
  get_or_create_checkpoint, find_checkpoint, find_series, merge_delta, put_checkpoint, put_series,
  same_stream, stream_before, update_checkpoint, upsert_delta,
}
use outbox_service.Aggregation.Service.{
  aggregate_stream, validate_observation_batch, aggregate_observations, group_observations,
  labels_raised, value_raised, add_value, aggregate_batch, coalesce_groups, last_id, upsert_deltas,
}
use outbox_service.Aggregation.Worker.{
  Faults, aggregate_prometheus_metric_state, run_streams, end_stream, note_stream,
}
use outbox_service.Aggregation.Log.{cycle_log}
use outbox_service.Aggregation.Groups.{share}
use outbox_service.Aggregation.States.{stored_value}
use outbox_service.Aggregation.Positions.{position}
use outbox_service.Aggregation.Batches.{name_of, IsRefined, IsCounted, logged}
use outbox_service.Aggregation.Refinement.{IsSound}
use outbox_service.Aggregation.Reached.{
  start_here, then_step, observes, aggregates, observed, empty_tables, Steps-IsRefined,
  Steps-IsSound, empty_tables-IsSound,
}
use outbox_service.Aggregation.Late.{late_observation_lost}
use outbox_service.Aggregation.Progress.{HasLabels, aggregate_stream_succeeds}

abbrev plain_sum : List ℕ → ℕ
plain_sum [] = 0
plain_sum (n ∷ ns) = n + plain_sum ns

abbrev whole_numbers : Floats ℕ
whole_numbers = record {
  zero_value = 0;
  is_finite = λ n. true;
  is_negative = λ n. false;
  is_zero = λ n. n == 0;
  le = leb;
  fsum = λ ns. some (plain_sum ns);
  db_plus = λ n m. some (n + m);
}

abbrev up_to_thousand : Counts whole_numbers
up_to_thousand = record { bound = 1000; of_count = λ n. n; count_of = λ n. n }

plain_sum_lem : (ns : List ℕ) → plain_sum ns ≡ count_sum up_to_thousand ns
plain_sum_lem [] = refl
plain_sum_lem (n ∷ ns) = omega (arith, plain_sum_lem ns)

up_to_thousand-IsExact : IsExact up_to_thousand
up_to_thousand-IsExact = record {
  count_of-of_count = λ n h. refl;
  of_count_zero = refl;
  is_finite-of_count = λ n h. refl;
  is_negative-of_count = λ n h. refl;
  is_zero-of_count = λ n h. refl;
  fsum-counts = λ ns counts h. ap some (plain_sum_lem ns);
  db_plus-counts = λ n m h. refl;
}

abbrev one_hash : List Label → String
one_hash labels = "h"

abbrev three_orders : AnalyticalObservation ℕ
three_orders = record {
  id = 1;
  project_id = 7;
  event_type_id = 2;
  metric_definition_id = 6;
  metric_definition_version_id = 8;
  metric_code = "orders";
  value = 3;
  dimensions_json = object (field "shop" (text "north") end_fields);
}

abbrev two_orders : AnalyticalObservation ℕ
two_orders = record three_orders { id = 2; value = 2 }

abbrev log : Tables ℕ
log = observed two_orders (observed three_orders empty_tables)

abbrev no_faults : Faults
no_faults = record { query_fails = false; stream_fails = λ s. false }

abbrev orders_series : Series
orders_series = record {
  project_id = 7;
  event_type_id = 2;
  metric_code = "orders";
  labels_hash = "h";
}

abbrev after_cycle : Tables ℕ
after_cycle = (aggregate_prometheus_metric_state whole_numbers one_hash no_faults 50 log).0

share-le : (k : Series) (o : AnalyticalObservation ℕ) → share up_to_thousand one_hash k o ≤ o.value
unfolding share
share-le k o = elim (Result-cases (normalize_observation_business_labels o.dimensions_json)) [
  | inl (labels, good) ↦ simp good (ground arith)
  | inr (e, bad) ↦ simp bad (omega arith)
]

log-IsCounted : IsCounted up_to_thousand one_hash log.observations
log-IsCounted = (
  ((omega arith, refl), ((omega arith, refl), tt)),
  λ k. omega (arith, share-le k three_orders, share-le k two_orders),
)

abbrev orders_state : MetricState ℕ
orders_state = record {
  id = 1;
  project_id = 7;
  event_type_id = 2;
  metric_definition_id = some 6;
  metric_definition_version_id = some 8;
  metric_code = "orders";
  labels_json = record { name = "shop"; value = text "north" } ∷ [];
  labels_hash = "h";
  value = 5;
  updated_at = 50;
}

cycle_adds_up : aggregate_prometheus_metric_state whole_numbers one_hash no_faults 50 log ≡ (
  record log {
    states = orders_state ∷ [];
    next_state_id = 2;
    checkpoints =
        record {
          checkpoint_name = build_checkpoint_name 7 2;
          last_processed_observation_id = 2;
          updated_at = 50;
        }
        ∷ [];
  },
  record { aggregated_count = 2; failures = [] },
)
unfolding aggregate_prometheus_metric_state run_streams end_stream note_stream
    find_observation_streams distinct find_observations_after get_or_create_checkpoint
    find_checkpoint build_checkpoint_name find_series is_pending merge_delta put_checkpoint
    put_series same_stream stream_before update_checkpoint upsert_delta aggregate_stream
    validate_observation_batch aggregate_observations group_observations labels_raised value_raised
    add_value aggregate_batch coalesce_groups last_id upsert_deltas
    normalize_observation_business_labels is_container checked_labels text_leb
    coalesce_counter_increments normalize_all normalize_counter_increment total_of same_name
    same_series is_business_label_name is_empty
cycle_adds_up = refl

Steps-IsRefined_example :
    stored_value up_to_thousand orders_series after_cycle.states
    ≡ logged up_to_thousand one_hash after_cycle orders_series
Steps-IsRefined_example =
    Steps-IsRefined up_to_thousand one_hash up_to_thousand-IsExact after_cycle
      (then_step
        (then_step (then_step start_here (observes three_orders refl)) (observes two_orders refl))
        (aggregates no_faults 50))
      (subst (IsCounted up_to_thousand one_hash)
        (sym (cycle_log whole_numbers one_hash no_faults 50 log)) log-IsCounted)
      orders_series

labels_are_valid : All HasLabels log.observations
unfolding normalize_observation_business_labels checked_labels is_business_label_name is_empty
    is_container
labels_are_valid = ((_, refl), ((_, refl), tt))

aggregate_stream_succeeds_example :
    let first = position (build_checkpoint_name 7 2) log in
    (db' : Tables ℕ) × (aggregate_stream whole_numbers one_hash 50 7 2 1000 log
      ≡ ok (db', min 1000 (length (select (is_pending 7 2 first) log.observations))))
aggregate_stream_succeeds_example =
    aggregate_stream_succeeds up_to_thousand one_hash up_to_thousand-IsExact 50 7 2 1000 log
      (Steps-IsSound up_to_thousand one_hash up_to_thousand-IsExact empty_tables log
        (empty_tables-IsSound up_to_thousand one_hash up_to_thousand-IsExact)
        (then_step (then_step start_here (observes three_orders refl)) (observes two_orders refl))
        log-IsCounted)
      log-IsCounted labels_are_valid

-- the sequence has given out the id 1, which is not visible yet
abbrev one_missing : Tables ℕ
one_missing = record empty_tables { next_observation_id = 2 }

one_missing-IsSound : IsSound up_to_thousand one_hash up_to_thousand-IsExact one_missing
unfolding stored_value find_series position find_checkpoint
one_missing-IsSound =
    (λ k. refl, record { ascends = tt; given_out = tt; behind = λ n. omega arith })

abbrev second_aggregated : Tables ℕ
second_aggregated =
    (aggregate_prometheus_metric_state whole_numbers one_hash no_faults 50
      (observed two_orders one_missing)).0

second_is_processed : position (build_checkpoint_name 7 2) second_aggregated ≡ 2
unfolding aggregate_prometheus_metric_state run_streams end_stream note_stream
    find_observation_streams distinct find_observations_after get_or_create_checkpoint
    find_checkpoint build_checkpoint_name find_series is_pending merge_delta put_checkpoint
    put_series same_stream stream_before update_checkpoint upsert_delta aggregate_stream
    validate_observation_batch aggregate_observations group_observations labels_raised value_raised
    add_value aggregate_batch coalesce_groups last_id upsert_deltas
    normalize_observation_business_labels is_container checked_labels text_leb
    coalesce_counter_increments normalize_all normalize_counter_increment total_of same_name
    same_series is_business_label_name is_empty position
second_is_processed = refl

share_of_first : share up_to_thousand one_hash orders_series three_orders ≡ 3
unfolding share normalize_observation_business_labels checked_labels is_business_label_name is_empty
    is_container text_leb same_series
share_of_first = refl

second-IsCounted : IsCounted up_to_thousand one_hash second_aggregated.observations
second-IsCounted =
    subst (IsCounted up_to_thousand one_hash)
      (sym (cycle_log whole_numbers one_hash no_faults 50 (observed two_orders one_missing)))
      (((omega arith, refl), tt), λ k. omega (arith, share-le k two_orders))

second_small :
    sum_of (share up_to_thousand one_hash orders_series) second_aggregated.observations ≤ 2
second_small =
    rw (cycle_log whole_numbers one_hash no_faults 50 (observed two_orders one_missing))
      (omega (arith, share-le orders_series two_orders))

late_observation_lost_example :
    let first = position (name_of orders_series) second_aggregated in
    let late = record second_aggregated { observations = three_orders ∷ two_orders ∷ [] } in
    ¬ (IsRefined up_to_thousand one_hash late)
    × (find_observations_after 7 2 first 1000 late
        ≡ find_observations_after 7 2 first 1000 second_aggregated)
late_observation_lost_example =
    late_observation_lost up_to_thousand one_hash up_to_thousand-IsExact orders_series three_orders
      [] (two_orders ∷ []) 1000 second_aggregated
      (cycle_log whole_numbers one_hash no_faults 50 (observed two_orders one_missing))
      (Steps-IsSound up_to_thousand one_hash up_to_thousand-IsExact one_missing second_aggregated
        one_missing-IsSound
        (then_step (then_step start_here (observes two_orders refl)) (aggregates no_faults 50))
        second-IsCounted).0
      (omega (arith, second_is_processed)) (omega (arith, share_of_first))
      (omega (arith, second_small, share_of_first))
