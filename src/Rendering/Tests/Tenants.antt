-- ===== src/Rendering/Tests/Tenants.antt =====
-- A document beside the aggregation of another project.
use outbox_service.Prelude.{some, ℕ, ◌≡◌, refl, [], ◌∷◌, ok, is_empty}
use outbox_service.Json.{null}
use outbox_service.Cardinality.Names.{is_business_label_name}
use outbox_service.Aggregation.Labels.{
  is_container, text_leb, normalize_observation_business_labels, checked_labels,
}
use outbox_service.Aggregation.Values.{
  normalize_counter_increment, normalize_all, total_of, coalesce_counter_increments,
}
use outbox_service.Aggregation.Model.{Tables, same_name, same_series}
use outbox_service.Aggregation.Repository as States
use outbox_service.Aggregation.Service as Aggregate
use outbox_service.Rendering.Service.{render_project}
use outbox_service.Rendering.Isolation.{render_project_isolated}
use outbox_service.Rendering.Tests.{whole_numbers, plain, orders_state, shop_project, order_type}

-- an observation of project 8 that is pending, beside a state of project 7
abbrev before_aggregation : Tables ℕ
before_aggregation = record {
  observations =
      record {
        id = 1;
        project_id = 8;
        event_type_id = 3;
        metric_definition_id = 4;
        metric_definition_version_id = 5;
        metric_code = "orders";
        value = 9;
        dimensions_json = null;
      }
      ∷ [];
  states = orders_state ∷ [];
  checkpoints = [];
  next_observation_id = 2;
  next_state_id = 2;
}

abbrev after_aggregation : Tables ℕ
after_aggregation = record before_aggregation {
  states =
      orders_state
      ∷ record {
        id = 2;
        project_id = 8;
        event_type_id = 3;
        metric_definition_id = some 4;
        metric_definition_version_id = some 5;
        metric_code = "orders";
        labels_json = [];
        labels_hash = "h";
        value = 9;
        updated_at = 60;
      }
      ∷ [];
  checkpoints =
      record {
        checkpoint_name = States.build_checkpoint_name 8 3;
        last_processed_observation_id = 1;
        updated_at = 60;
      }
      ∷ [];
  next_state_id = 3;
}

other_project_is_aggregated :
    Aggregate.aggregate_stream whole_numbers (λ _. "h") 60 8 3 1000 before_aggregation
    ≡ ok (after_aggregation, 1)
unfolding States.find_observations_after States.get_or_create_checkpoint States.find_checkpoint
    States.build_checkpoint_name States.find_series States.is_pending States.merge_delta
    States.put_checkpoint States.put_series States.update_checkpoint States.upsert_delta
    Aggregate.aggregate_stream Aggregate.validate_observation_batch Aggregate.aggregate_observations
    Aggregate.group_observations Aggregate.labels_raised Aggregate.value_raised Aggregate.add_value
    Aggregate.aggregate_batch Aggregate.coalesce_groups Aggregate.last_id Aggregate.upsert_deltas
    normalize_observation_business_labels checked_labels is_container text_leb
    coalesce_counter_increments normalize_all normalize_counter_increment total_of same_name
    same_series is_business_label_name is_empty
other_project_is_aggregated = refl

render_project_isolated_example :
    render_project whole_numbers plain 7
      (shop_project ∷ [])
      after_aggregation.states
      (order_type ∷ [])
    ≡ render_project whole_numbers plain 7
        (shop_project ∷ [])
        before_aggregation.states
        (order_type ∷ [])
render_project_isolated_example =
    render_project_isolated whole_numbers plain (λ _. "h") 7 8 3 60 1000 1 (shop_project ∷ [])
      (order_type ∷ []) before_aggregation after_aggregation refl other_project_is_aggregated
