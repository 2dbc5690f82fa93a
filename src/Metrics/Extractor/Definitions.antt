-- ===== src/Metrics/Extractor/Definitions.antt =====
-- What the extractor reads of a compiled plan, and what it raises.
use outbox_service.Prelude.{
  ℕ, Bool, true, false, not, ◌&&◌, Option, none, some, List, [], ◌∷◌, String, Result, ok, err,
  ◌>>=◌, ◌>>◌, raise_if, or_raise, if◌then◌else◌, str_eq, ltb, length, any_of, select, is_empty,
}
use outbox_service.Json.{
  Json, null, true_value, false_value, number, text, array, object, items_of, Fields, end_fields,
  get,
}
use outbox_service.Aggregation.Values.{CounterValueError}

pub data ObservationExtractionError : Type 0 where
  plan_not_an_object unsupported_version no_observations incomplete : ObservationExtractionError
  no_value null_value too_many_matches too_many_observations : ObservationExtractionError
  incomplete_label label_without_path no_label_value null_label : ObservationExtractionError
  no_value_at_index not_an_array not_a_string not_a_boolean : ObservationExtractionError
  unsupported_transform not_a_scalar : ObservationExtractionError

-- What an extraction raises: its own error, `CounterValueError`, what JSONPath raises, the
-- `OverflowError` of `float`, and the `TypeError` of a list or an object as a key or a number as a list.
pub data ExtractionFailure : Type 0 where
  extraction : ObservationExtractionError → ExtractionFailure
  counter_value : CounterValueError → ExtractionFailure
  path_raised overflow type_error : ExtractionFailure

pub record ExtractionLimits : Type 0 where
  pub max_observations_per_event : ℕ
  pub max_matches_per_observation : ℕ

abbrev pub default_limits : ExtractionLimits
default_limits = record { max_observations_per_event = 1000; max_matches_per_observation = 200 }

-- `float(n)` of a number's literal, or nothing where it overflows, and of a length
pub record Numbers (V : Type 0) : Type 0 where
  pub float_of : String → Option V
  pub float_of_count : ℕ → V

-- `f"observation:{definition_index}:occurrence:{index}"`
pub data ObservationKey : Type 0 where
  occurrence : ℕ → ℕ → ObservationKey

pub data DimensionValue : Type 0 where
  scalar : Json → DimensionValue
  position : ℕ → DimensionValue

pub record Observation (V : Type 0) : Type 0 where
  pub metric_code : Json
  pub value : V
  pub dimensions : List (String × DimensionValue)

pub record KeyedObservation (V : Type 0) : Type 0 where
  pub observation_key : ObservationKey
  pub observation : Observation V

unfoldable pub is_text : String → Json → Bool
is_text wanted (text s) = str_eq s wanted
is_text wanted _ = false

unfoldable pub is_null : Json → Bool
is_null null = true
is_null _ = false

-- `is True`, and `is False`
unfoldable pub is_true : Json → Bool
is_true true_value = true
is_true _ = false

unfoldable pub is_false : Json → Bool
is_false false_value = true
is_false _ = false

-- `d.get("nullable", False) is True`
unfoldable pub is_nullable : Option Json → Bool
unfolding is_true
is_nullable none = false
is_nullable (some j) = is_true j

-- what the loop reads of a definition
pub record Definition : Type 0 where
  pub metric_code : Json
  pub path : Json
  pub is_optional : Bool
  pub allows_null : Bool
  pub transform : Json
  pub labels : Option Json

unfoldable pub fields_of : Json → ExtractionFailure → Result ExtractionFailure Fields
fields_of (object fs) e = ok fs
fields_of _ e = err e

unfoldable pub definition_of : Json → Result ExtractionFailure Definition
unfolding fields_of get is_false is_nullable
definition_of j = do
  fs ← fields_of j (extraction incomplete)
  metric_code ← or_raise (get "metric_code" fs) (extraction incomplete)
  value ← or_raise (get "value" fs) (extraction incomplete)
  vs ← fields_of value (extraction incomplete)
  path ← or_raise (get "path" vs) (extraction incomplete)
  required ← or_raise (get "required" vs) (extraction incomplete)
  transform ← or_raise (get "transform" fs) (extraction incomplete)
  ok (record {
    metric_code = metric_code;
    path = path;
    is_optional = is_false required;
    allows_null = is_nullable (get "nullable" vs);
    transform = transform;
    labels = get "labels" fs;
  })

-- the values of a label: none as it is missing, the index, or its matches
pub data LabelValues : Type 0 where
  missing at_index : LabelValues
  matches : List Json → LabelValues

-- `label_matches_by_name[label_name] = ...`
unfoldable pub put_label :
    String → LabelValues → List (String × LabelValues) → List (String × LabelValues)
put_label name values [] = (name, values) ∷ []
put_label name values ((k, old) ∷ rest) =
    if str_eq name k then (k, values) ∷ rest else (k, old) ∷ put_label name values rest

-- The name of a label as a key. Names are texts, as the compiler writes them: any other is an error
-- here.
unfoldable pub label_name_of : Json → Result ExtractionFailure String
label_name_of (text s) = ok s
label_name_of _ = err type_error

unfoldable pub label_path_of : Option Json → Result ExtractionFailure String
label_path_of (some (text s)) = raise_if (is_empty s) (extraction label_without_path) >> ok s
label_path_of _ = err (extraction label_without_path)

unfoldable pub is_optional_label : Option Json → Bool
unfolding is_false
is_optional_label none = false
is_optional_label (some j) = is_false j

-- the list that `observation_definition.get("labels", [])` is walked as
unfoldable pub label_definitions : Option Json → Result ExtractionFailure (List Json)
unfolding items_of
label_definitions none = ok []
label_definitions (some (array js)) = ok (items_of js)
label_definitions (some (object end_fields)) = ok []
label_definitions (some (object _)) = err (extraction incomplete_label)
label_definitions (some (text s)) = if is_empty s then ok [] else err (extraction incomplete_label)
label_definitions (some _) = err type_error

unfoldable pub label_matches : Bool → Bool → List Json → Result ExtractionFailure LabelValues
unfolding is_null
label_matches optional allows_null [] =
    if optional then ok missing else err (extraction no_label_value)
label_matches optional allows_null (v ∷ vs) =
    raise_if (any_of is_null (v ∷ vs) && not allows_null) (extraction null_label)
    >> ok (matches (v ∷ vs))

unfoldable pub constant_match : List Json
constant_match = number "1.0" ∷ []

-- the matches within the limit; nothing where the loop continues with the next definition
unfoldable pub limited : ℕ → List Json → Result ExtractionFailure (Option (List Json))
limited limit [] = ok none
limited limit (m ∷ ms) =
    raise_if (ltb limit (length (m ∷ ms))) (extraction too_many_matches) >> ok (some (m ∷ ms))

unfoldable pub present_values :
    ℕ → Definition → List Json → Result ExtractionFailure (Option (List Json))
unfolding is_null limited
present_values limit d [] = if d.is_optional then ok none else err (extraction no_value)
present_values limit d (v ∷ vs) =
    if any_of is_null (v ∷ vs)
    then (if d.allows_null
        then limited limit (select (λ m. not (is_null m)) (v ∷ vs))
        else err (extraction null_value))
    else limited limit (v ∷ vs)
