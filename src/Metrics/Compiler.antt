-- ===== src/Metrics/Compiler.antt =====
-- app/metrics_engine/metric_plan_compiler.py.
use outbox_service.Prelude.{Bool, true, false, Option, none, some, List, [], ◌∷◌, String, order_by}
use outbox_service.Json.{
  Json, null, true_value, false_value, text, array, object, Items, end_items, item, Fields,
  end_fields, field,
}
use outbox_service.Aggregation.Labels.{text_leb}
use outbox_service.Metrics.Schema.{
  JsonType, object_type, array_type, string_type, number_type, integer_type, boolean_type,
  null_type, unknown_type, constant_type, ResolvedPath,
}
use outbox_service.Metrics.Yaml.{LabelPath, index, along, ValidatedObservation, ValidatedMetricYaml}

unfoldable pub type_text : JsonType → String
type_text object_type = "object"
type_text array_type = "array"
type_text string_type = "string"
type_text number_type = "number"
type_text integer_type = "integer"
type_text boolean_type = "boolean"
type_text null_type = "null"
type_text unknown_type = "unknown"
type_text constant_type = "constant"

unfoldable pub bool_json : Bool → Json
bool_json true = true_value
bool_json false = false_value

unfoldable pub optional_json : Option String → Json
optional_json none = null
optional_json (some s) = text s

-- the entries of a path, after those that stand before it
unfoldable pub path_fields : ResolvedPath → Fields
unfolding type_text bool_json optional_json
path_fields r = field "path" (text r.path) (
    field "json_type" (text (type_text r.json_type)) (
      field "required" (bool_json r.required) (
        field "nullable" (bool_json r.nullable)
          (field "iterator_path" (optional_json r.iterator_path) end_fields))))

abbrev no_path : Fields
no_path = field "path" null (
    field "json_type" null
      (field "required" null (field "nullable" null (field "iterator_path" null end_fields))))

unfoldable pub compile_label : String × LabelPath → Json
unfolding path_fields
compile_label (name, index) =
    object (field "name" (text name) (field "kind" (text "index") no_path))
compile_label (name, along r) =
    object (field "name" (text name) (field "kind" (text "path") (path_fields r)))

unfoldable pub label_items : List (String × LabelPath) → Items
unfolding compile_label
label_items [] = end_items
label_items (l ∷ ls) = item (compile_label l) (label_items ls)

-- `sorted(observation.labels.items())`; the names are distinct
unfoldable pub sorted_labels : List (String × LabelPath) → List (String × LabelPath)
sorted_labels = order_by (λ x y. text_leb x.0 y.0)

unfoldable pub compile_observation : ValidatedObservation → Json
unfolding path_fields label_items sorted_labels
compile_observation o = object (
    field "metric_code" (text o.code) (
      field "transform" (text o.transform) (
        field "value" (object (path_fields o.value_path))
          (field "labels" (array (label_items (sorted_labels o.labels))) end_fields))))

unfoldable pub observation_items : List ValidatedObservation → Items
unfolding compile_observation
observation_items [] = end_items
observation_items (o ∷ os) = item (compile_observation o) (observation_items os)

unfoldable pub compile_metric_yaml_to_json : ValidatedMetricYaml → Json
unfolding observation_items
compile_metric_yaml_to_json validated_metric_yaml = object (
    field "compiler_version" (text "1.1") (
      field "yaml_version" (text validated_metric_yaml.version) (
        field "observations" (array (observation_items validated_metric_yaml.observations))
          end_fields)))
