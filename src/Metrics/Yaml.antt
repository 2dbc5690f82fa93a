-- ===== src/Metrics/Yaml.antt =====
-- app/metrics_engine/metric_yaml_parser.py and metric_yaml_validator.py, on documents whose values are
-- those of JSON and whose keys are texts. The loader of YAML is a parameter.
use outbox_service.Prelude.{
  Bool, true, false, not, ◌||◌, Option, none, some, List, [], ◌∷◌, String, Result, ok, err, ◌>>=◌,
  ◌>>◌, raise_if, or_raise, if◌then◌else◌, str_eq, is_empty, is_blank,
}
use outbox_service.Json.{
  Json, null, text, array, object, end_items, items_of, Fields, end_fields, field, get,
}
use outbox_service.Cardinality.Names.{is_business_label_name}
use outbox_service.Metrics.Schema.{
  JsonType, array_type, string_type, number_type, integer_type, boolean_type, constant_type,
  SchemaNode, SchemaGraphError, build_schema_graph, ResolvedPath, PathError, resolve_path,
}

-- what the loader raises: `ConstructorError`, or another `YAMLError`
pub data LoadError : Type 0 where
  construction syntax : LoadError

pub data MetricYamlParseError : Type 0 where
  empty_document root_not_an_object : MetricYamlParseError
  not_loaded : LoadError → MetricYamlParseError

unfoldable pub loaded : Result LoadError Json → Result MetricYamlParseError Json
loaded (ok null) = err empty_document
loaded (ok (object fs)) = ok (object fs)
loaded (ok _) = err root_not_an_object
loaded (err e) = err (not_loaded e)

unfoldable pub parse_metric_yaml :
    (String → Result LoadError Json) → String → Result MetricYamlParseError Json
unfolding loaded
parse_metric_yaml safe_load yaml_content =
    raise_if (is_blank yaml_content) empty_document >> loaded (safe_load yaml_content)

pub data MetricYamlValidationError : Type 0 where
  not_an_object bad_version no_observations observation_not_an_object : MetricYamlValidationError
  no_code bad_transform unsupported_transform labels_not_an_object : MetricYamlValidationError
  constant_with_path no_value_path unsupported_type bad_label_name : MetricYamlValidationError
  index_without_iteration bad_label_path value_not_iterated : MetricYamlValidationError
  other_iteration : MetricYamlValidationError
  bad_path : PathError → MetricYamlValidationError
  bad_schema : SchemaGraphError → MetricYamlValidationError

-- a path, or `"$index"`
pub data LabelPath : Type 0 where
  index : LabelPath
  along : ResolvedPath → LabelPath

-- the items of `labels` in their order
pub record ValidatedObservation : Type 0 where
  pub code : String
  pub transform : String
  pub value_path : ResolvedPath
  pub labels : List (String × LabelPath)

pub record ValidatedMetricYaml : Type 0 where
  pub version : String
  pub observations : List ValidatedObservation

-- `{"number", "integer"}`
unfoldable pub is_number : JsonType → Bool
is_number number_type = true
is_number integer_type = true
is_number _ = false

unfoldable pub is_array : JsonType → Bool
is_array array_type = true
is_array _ = false

unfoldable pub is_string : JsonType → Bool
is_string string_type = true
is_string _ = false

unfoldable pub is_boolean : JsonType → Bool
is_boolean boolean_type = true
is_boolean _ = false

-- `transform in TRANSFORM_ALLOWED_TYPES`
unfoldable pub is_transform : String → Bool
is_transform transform =
    str_eq transform "constant"
    || str_eq transform "identity"
    || str_eq transform "count"
    || str_eq transform "length"
    || str_eq transform "to_number"

-- `json_type in TRANSFORM_ALLOWED_TYPES[transform]`
unfoldable pub allows : String → JsonType → Bool
unfolding is_number is_array is_string is_boolean
allows transform t =
    if str_eq transform "identity"
    then is_number t
    else if str_eq transform "count"
    then is_array t
    else if str_eq transform "length"
    then is_string t
    else if str_eq transform "to_number"
    then is_boolean t
    else false

-- the value, if it is a text that is not empty
unfoldable pub filled : Option Json → Option String
filled (some (text s)) = if is_empty s then none else some s
filled _ = none

-- `observation.get("transform", "identity")`
unfoldable pub transform_of : Option Json → Option String
unfolding filled
transform_of none = some "identity"
transform_of given = filled given

-- `observation.get("labels", {})`
unfoldable pub labels_given : Option Json → Result MetricYamlValidationError Fields
labels_given none = ok end_fields
labels_given (some (object fs)) = ok fs
labels_given (some _) = err labels_not_an_object

unfoldable pub is_given : Option Json → Bool
is_given none = false
is_given (some null) = false
is_given (some _) = true

unfoldable pub resolve_existing_path :
    SchemaNode → String → Result MetricYamlValidationError ResolvedPath
resolve_existing_path schema_graph path = elim (resolve_path schema_graph path) [
  | ok r ↦ ok r
  | err e ↦ err (bad_path e)
]

unfoldable pub validate_iterator_alignment :
    Option String → Option String → Result MetricYamlValidationError (Unit {0})
validate_iterator_alignment value_iterator none = ok tt
validate_iterator_alignment none (some label_iterator) = err value_not_iterated
validate_iterator_alignment (some value_iterator) (some label_iterator) =
    raise_if (not (str_eq label_iterator value_iterator)) other_iteration

unfoldable pub iterates : Option String → Bool
iterates none = false
iterates (some _) = true

unfoldable pub is_index : Json → Bool
is_index (text s) = str_eq s "$index"
is_index _ = false

abbrev pub constant_path : ResolvedPath
constant_path = record {
  path = "";
  json_type = constant_type;
  iterator_path = none;
  required = true;
  nullable = false;
}

module _ (schema_graph : SchemaNode) where
  -- one round of the loop over the labels
  unfoldable pub validate_label :
      ResolvedPath → String → Json → Result MetricYamlValidationError LabelPath
  unfolding is_index iterates filled resolve_existing_path validate_iterator_alignment
  validate_label value_path label_name label_path =
      raise_if (not (is_business_label_name label_name)) bad_label_name
      >> (if is_index label_path
          then raise_if (not (iterates value_path.iterator_path)) index_without_iteration
            >> ok index
          else or_raise (filled (some label_path)) bad_label_path >>= λ path.
              resolve_existing_path schema_graph path >>= λ r.
              validate_iterator_alignment value_path.iterator_path r.iterator_path >> ok (along r))

  unfoldable pub validate_labels :
      ResolvedPath → Fields → Result MetricYamlValidationError (List (String × LabelPath))
  unfolding validate_label
  validate_labels value_path end_fields = ok []
  validate_labels value_path (field name path fs) = do
    label ← validate_label value_path name path
    rest ← validate_labels value_path fs
    ok ((name, label) ∷ rest)

  -- `resolved_value_path`
  unfoldable pub validate_value_path :
      String → Option Json → Result MetricYamlValidationError ResolvedPath
  unfolding is_given filled resolve_existing_path allows
  validate_value_path transform value_path =
      if str_eq transform "constant"
      then raise_if (is_given value_path) constant_with_path >> ok constant_path
      else or_raise (filled value_path) no_value_path >>= λ path.
          resolve_existing_path schema_graph path >>= λ r.
          raise_if (not (allows transform r.json_type)) unsupported_type >> ok r

  unfoldable pub validate_observation : Json → Result MetricYamlValidationError ValidatedObservation
  unfolding get filled transform_of is_transform labels_given validate_value_path validate_labels
  validate_observation (object fs) = do
    code ← or_raise (filled (get "code" fs)) no_code
    transform ← or_raise (transform_of (get "transform" fs)) bad_transform
    raise_if (not (is_transform transform)) unsupported_transform
    labels ← labels_given (get "labels" fs)
    value_path ← validate_value_path transform (get "value_path" fs)
    validated ← validate_labels value_path labels
    ok (record { code = code; transform = transform; value_path = value_path; labels = validated })
  validate_observation _ = err observation_not_an_object

  unfoldable pub validate_observations :
      List Json → Result MetricYamlValidationError (List ValidatedObservation)
  unfolding validate_observation
  validate_observations [] = ok []
  validate_observations (j ∷ js) =
      validate_observation j >>= λ o. validate_observations js >>= λ os. ok (o ∷ os)

-- `version != "1.0"`
unfoldable pub is_version : Option Json → Bool
is_version (some (text s)) = str_eq s "1.0"
is_version _ = false

-- the list of observations, if it is a list that is not empty
unfoldable pub observations_given : Option Json → Option (List Json)
unfolding items_of
observations_given (some (array end_items)) = none
observations_given (some (array js)) = some (items_of js)
observations_given _ = none

unfoldable pub built :
    Result SchemaGraphError SchemaNode → Result MetricYamlValidationError SchemaNode
built (ok node) = ok node
built (err e) = err (bad_schema e)

unfoldable pub validate_metric_yaml :
    Json → Json → Result MetricYamlValidationError ValidatedMetricYaml
unfolding get is_version observations_given built validate_observations
validate_metric_yaml (object fs) json_schema = do
  raise_if (not (is_version (get "version" fs))) bad_version
  observations ← or_raise (observations_given (get "observations" fs)) no_observations
  schema_graph ← built (build_schema_graph json_schema)
  validated ← validate_observations schema_graph observations
  ok (record { version = "1.0"; observations = validated })
validate_metric_yaml _ json_schema = err not_an_object
