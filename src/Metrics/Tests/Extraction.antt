-- ===== src/Metrics/Tests/Extraction.antt =====
-- The observations that a compiled plan makes of events.
use outbox_service.Prelude.{
  ℕ, ◌≡◌, refl, true, none, some, [], ◌∷◌, String, ok, err, All, length, ◌≤◌, char_count, is_empty,
}
use outbox_service.Json.{
  Json, null, number, text, array, object, end_items, item, end_fields, field, get, items_of,
}
use outbox_service.Cardinality.Names.{is_label_name}
use outbox_service.Aggregation.Values.{normalize_counter_increment}
use outbox_service.Aggregation.Labels.{text_leb}
use outbox_service.Metrics.Paths.{parse_json_path, has_bracket}
use outbox_service.Metrics.Schema.{ResolvedPath, resolve_path, find_child}
use outbox_service.Metrics.Compiler.{compile_observation, compile_metric_yaml_to_json}
use outbox_service.Metrics.Extractor as Extractor
use outbox_service.Metrics.Extractor.{
  default_limits, extraction, no_value, no_value_at_index, occurrence, position, scalar,
  KeyedObservation, extract_keyed_observations_from_compiled_plan,
}
use outbox_service.Metrics.Conforms.{Conforms, walk}
use outbox_service.Metrics.Typed.{IsPlainPath, fits, resolve_path-IsTyped}
use outbox_service.Metrics.Keys.{Ascends, extract_keyed_observations_ascend}
use outbox_service.Metrics.Hazards.{labelled, null_value_shifts_labels, single_label_fails}
use outbox_service.Metrics.Tests.{
  order_node, price_path, kind_path, revenue, walker, walker-WalksPaths, whole_numbers, by_length,
  item_of, empty_order, two_items, first_item_free,
}

plain_paths : All (λ o. IsPlainPath o.value_path.path) revenue.observations
unfolding parse_json_path is_empty has_bracket is_label_name
plain_paths = (refl, tt)

pub empty_order-Conforms : Conforms order_node empty_order
unfolding Conforms get items_of
empty_order-Conforms = (tt, tt)

first_item_free-Conforms : Conforms order_node first_item_free
unfolding Conforms get items_of
first_item_free-Conforms = (((refl, (refl, tt)), ((refl, (refl, tt)), tt)), tt)

order_has_no_value :
    extract_keyed_observations_from_compiled_plan whole_numbers by_length walker default_limits
      empty_order
      (compile_metric_yaml_to_json revenue)
    ≡ err (extraction no_value)
unfolding extract_keyed_observations_from_compiled_plan compile_metric_yaml_to_json parse_json_path
    is_empty has_bracket walk
order_has_no_value = refl

prices_are_found : walker "$.items[*].price" first_item_free ≡ some (null ∷ number "100" ∷ [])
unfolding walk parse_json_path is_empty has_bracket get items_of
prices_are_found = refl

kinds_are_found : walker "$.items[*].kind" first_item_free ≡ some (text "book" ∷ text "pen" ∷ [])
unfolding walk parse_json_path is_empty has_bracket get items_of
kinds_are_found = refl

price_is_resolved : resolve_path order_node "$.items[*].price" ≡ ok price_path
unfolding resolve_path parse_json_path is_empty has_bracket find_child
price_is_resolved = refl

resolve_path-IsTyped_example : All (λ v. fits price_path v ≡ true) (null ∷ number "100" ∷ [])
resolve_path-IsTyped_example =
    resolve_path-IsTyped order_node "$.items[*].price" walker first_item_free price_path
      (null ∷ number "100" ∷ []) (walker-WalksPaths order_node) first_item_free-Conforms
      plain_paths.0 price_is_resolved prices_are_found

abbrev pub observed : ℕ → ℕ → String → KeyedObservation ℕ
observed i value kind = record {
  observation_key = occurrence 0 i;
  observation = record {
    metric_code = text "revenue";
    value = value;
    dimensions = ("kind", scalar (text kind)) ∷ ("place", position i) ∷ [];
  };
}

two_items_are_observed :
    extract_keyed_observations_from_compiled_plan whole_numbers by_length walker default_limits
      two_items
      (compile_metric_yaml_to_json revenue)
    ≡ ok (observed 0 2 "book" ∷ observed 1 3 "pen" ∷ [])
unfolding extract_keyed_observations_from_compiled_plan compile_metric_yaml_to_json parse_json_path
    is_empty has_bracket walk text_leb normalize_counter_increment char_count
two_items_are_observed = refl

extract_keyed_observations_ascend_example :
    (length (observed 0 2 "book" ∷ observed 1 3 "pen" ∷ []) ≤ 1000)
    × Ascends (observed 0 2 "book" ∷ observed 1 3 "pen" ∷ [])
extract_keyed_observations_ascend_example =
    extract_keyed_observations_ascend whole_numbers by_length default_limits walker two_items
      (compile_metric_yaml_to_json revenue) (observed 0 2 "book" ∷ observed 1 3 "pen" ∷ [])
      two_items_are_observed

null_value_shifts_labels_example :
    Extractor.extract_definition whole_numbers by_length walker default_limits first_item_free 0 0
      (compile_observation (labelled "revenue" "kind" price_path kind_path))
    ≡ ok (
        record {
          observation_key = occurrence 0 0;
          observation = record {
            metric_code = text "revenue";
            value = 3;
            dimensions = ("kind", scalar (text "book")) ∷ [];
          };
        }
        ∷ [])
unfolding is_empty char_count normalize_counter_increment
null_value_shifts_labels_example =
    null_value_shifts_labels whole_numbers by_length walker first_item_free "revenue" "kind" "100"
      "book" "pen" price_path kind_path 3 3 refl refl prices_are_found kinds_are_found refl refl

-- an order with a label of its own
abbrev shop_order : Json
shop_order = object (
    field "shop" (text "north") (
      field "items"
        (array (item (item_of (number "12") "book") (item (item_of (number "7") "pen") end_items)))
        end_fields))

abbrev shop_path : ResolvedPath
shop_path = record kind_path { path = "$.shop"; iterator_path = none }

single_label_fails_example :
    Extractor.extract_definition whole_numbers by_length walker default_limits shop_order 0 0
      (compile_observation (labelled "revenue" "shop" price_path shop_path))
    ≡ err (extraction no_value_at_index)
unfolding is_empty char_count normalize_counter_increment Extractor.is_null walk parse_json_path
    has_bracket get items_of
single_label_fails_example =
    single_label_fails whole_numbers by_length walker shop_order "revenue" "shop" "12" "north"
      (number "7") [] price_path shop_path 2 2 refl refl refl refl refl refl refl
