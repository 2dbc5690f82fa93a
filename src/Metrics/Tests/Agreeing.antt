-- ===== src/Metrics/Tests/Agreeing.antt =====
-- A document and its compiled plan, on one order.
use outbox_service.Prelude.{ℕ, ◌≡◌, refl, List, [], ◌∷◌, map, ok, char_count, is_empty}
use outbox_service.Json.{items_of, get}
use outbox_service.Aggregation.Values.{normalize_counter_increment}
use outbox_service.Aggregation.Labels.{text_leb}
use outbox_service.Metrics.Paths.{parse_json_path, has_bracket}
use outbox_service.Metrics.Compiler.{sorted_labels, compile_metric_yaml_to_json}
use outbox_service.Metrics.Extractor.{
  KeyedObservation, default_limits, extract_keyed_observations_from_compiled_plan,
  extract_observations, is_null,
}
use outbox_service.Metrics.Conforms.{walk}
use outbox_service.Metrics.Agreement.{in_order, extract_observations_agrees}
use outbox_service.Metrics.Tests.{
  order_schema, order_node, schema_is_built, revenue_yaml, revenue, yaml_is_valid, walker,
  whole_numbers, by_length, two_items,
}
use outbox_service.Metrics.Tests.Extraction.{observed}

two_items_are_observed_directly :
    extract_observations whole_numbers by_length default_limits walker two_items
      (record revenue { observations = map in_order revenue.observations })
    ≡ ok ((observed 0 2 "book").observation ∷ (observed 1 3 "pen").observation ∷ [])
unfolding extract_observations parse_json_path is_empty has_bracket walk text_leb
    normalize_counter_increment char_count get sorted_labels
two_items_are_observed_directly = refl

extract_observations_agrees_example :
    (ks : List (KeyedObservation ℕ)) × (extract_keyed_observations_from_compiled_plan whole_numbers
        by_length walker default_limits two_items
        (compile_metric_yaml_to_json revenue)
      ≡ ok ks)
    × (map (λ k. k.observation) ks
        ≡ (observed 0 2 "book").observation ∷ (observed 1 3 "pen").observation ∷ [])
unfolding walk parse_json_path is_empty has_bracket get items_of is_null
extract_observations_agrees_example =
    extract_observations_agrees whole_numbers by_length default_limits walker two_items revenue_yaml
      order_schema order_node revenue
      ((observed 0 2 "book").observation ∷ (observed 1 3 "pen").observation ∷ []) schema_is_built
      yaml_is_valid ((refl, (refl, tt)), tt) two_items_are_observed_directly
