-- ===== src/Metrics/Extractor/Loop.antt =====
-- The observations of the matches, and the loop over the definitions.
use outbox_service.Prelude.{
  ℕ, suc, ◌+◌, not, ◌||◌, Option, none, some, List, [], ◌∷◌, ◌++◌, String, Result, ok, err, ◌>>=◌,
  ◌>>◌, raise_if, or_raise, if◌then◌else◌, str_eq, leb, length, get_elem?, char_count,
}
use outbox_service.Json.{
  Json, null, true_value, false_value, number, text, array, object, item, items_of, get,
}
use outbox_service.Aggregation.Values.{
  Floats, CounterValueError, not_numeric, normalize_counter_increment,
}
use outbox_service.Metrics.Extractor.Definitions.{
  ExtractionFailure, ExtractionLimits, Numbers, DimensionValue, KeyedObservation, is_text,
  Definition, definition_of, LabelValues, label_definitions, plan_not_an_object,
  unsupported_version, no_observations, too_many_observations, no_value_at_index, not_an_array,
  not_a_string, not_a_boolean, unsupported_transform, not_a_scalar, extraction, counter_value,
  overflow, type_error, occurrence, scalar, position, missing, at_index, matches,
}
use outbox_service.Metrics.Extractor.Matches.{value_matches, extract_labels}

-- `_to_dimension_value`
unfoldable pub to_dimension_value : Json → Result ExtractionFailure DimensionValue
to_dimension_value (array _) = err (extraction not_a_scalar)
to_dimension_value (object _) = err (extraction not_a_scalar)
to_dimension_value j = ok (scalar j)

unfoldable pub dimension_at : ℕ → LabelValues → Result ExtractionFailure DimensionValue
unfolding to_dimension_value
dimension_at index missing = ok (scalar null)
dimension_at index at_index = ok (position index)
dimension_at index (matches values) =
    or_raise (get_elem? values index) (extraction no_value_at_index) >>= to_dimension_value

-- `_build_dimensions`
unfoldable pub build_dimensions :
    ℕ → List (String × LabelValues) → Result ExtractionFailure (List (String × DimensionValue))
unfolding dimension_at
build_dimensions index [] = ok []
build_dimensions index ((name, values) ∷ labels) = dimension_at index values >>= λ d.
    build_dimensions index labels >>= λ rest. ok ((name, d) ∷ rest)

-- `compiler_version not in {"1.0", "1.1"}`
unfoldable pub check_version : Option Json → Result ExtractionFailure (Unit {0})
check_version (some (text s)) =
    raise_if (not (str_eq s "1.0" || str_eq s "1.1")) (extraction unsupported_version)
check_version (some (array _)) = err type_error
check_version (some (object _)) = err type_error
check_version _ = err (extraction unsupported_version)

unfoldable pub compiled_observations : Option Json → Result ExtractionFailure (List Json)
unfolding items_of
compiled_observations (some (array (item j js))) = ok (j ∷ items_of js)
compiled_observations _ = err (extraction no_observations)

-- the object that a transform makes: the value itself, or a float
pub data Transformed (V : Type 0) : Type 0 where
  as_it_is : Json → Transformed V
  as_float : V → Transformed V

module _ {V : Type 0} (fl : Floats V) (numbers : Numbers V) where
  -- `count`, `length` and `to_number` of a value
  unfoldable pub count_of : Json → Result ExtractionFailure (Transformed V)
  unfolding items_of
  count_of (array js) = ok (as_float (numbers.float_of_count (length (items_of js))))
  count_of _ = err (extraction not_an_array)

  unfoldable pub length_of : Json → Result ExtractionFailure (Transformed V)
  length_of (text s) = ok (as_float (numbers.float_of_count (char_count s)))
  length_of _ = err (extraction not_a_string)

  unfoldable pub number_of : Json → Result ExtractionFailure (Transformed V)
  number_of true_value = ok (as_float (numbers.float_of_count 1))
  number_of false_value = ok (as_float (numbers.float_of_count 0))
  number_of _ = err (extraction not_a_boolean)

  -- `_apply_transform`
  unfoldable pub apply_transform : Json → Json → Result ExtractionFailure (Transformed V)
  unfolding is_text count_of length_of number_of
  apply_transform transform value =
      if is_text "identity" transform
      then ok (as_it_is value)
      else if is_text "count" transform
      then count_of value
      else if is_text "length" transform
      then length_of value
      else if is_text "to_number" transform
      then number_of value
      else if is_text "constant" transform
      then ok (as_float (numbers.float_of_count 1))
      else err (extraction unsupported_transform)

  unfoldable pub counter_raised : Result CounterValueError V → Result ExtractionFailure V
  counter_raised (ok v) = ok v
  counter_raised (err e) = err (counter_value e)

  -- `normalize_counter_increment` of any object
  unfoldable pub normalize_object : Transformed V → Result ExtractionFailure V
  unfolding counter_raised
  normalize_object (as_float v) = counter_raised (normalize_counter_increment fl v)
  normalize_object (as_it_is (number n)) = or_raise (numbers.float_of n) overflow >>= λ v.
      counter_raised (normalize_counter_increment fl v)
  normalize_object (as_it_is _) = err (counter_value not_numeric)

  -- the loop over the matches, after `count` observations
  unfoldable pub extract_matches :
      ExtractionLimits
      → ℕ
      → Definition
      → List (String × LabelValues)
      → ℕ
      → ℕ
      → List Json
      → Result ExtractionFailure (List (KeyedObservation V))
  unfolding build_dimensions apply_transform normalize_object
  extract_matches limits n d labels count index [] = ok []
  extract_matches limits n d labels count index (m ∷ ms) =
      build_dimensions index labels >>= λ dimensions.
      raise_if (leb limits.max_observations_per_event count) (extraction too_many_observations)
      >> (apply_transform d.transform m >>= normalize_object >>= λ value.
          extract_matches limits n d labels (suc count) (suc index) ms >>= λ rest. ok (
            record {
              observation_key = occurrence n index;
              observation = record {
                metric_code = d.metric_code;
                value = value;
                dimensions = dimensions;
              };
            }
            ∷ rest))

  module _ (find : String → Json → Option (List Json)) (limits : ExtractionLimits)
      (payload : Json) where
    unfoldable pub extract_present :
        ℕ
        → ℕ
        → Definition
        → Option (List Json)
        → Result ExtractionFailure (List (KeyedObservation V))
    unfolding label_definitions extract_labels extract_matches
    extract_present n count d none = ok []
    extract_present n count d (some ms) = label_definitions d.labels >>= λ definitions.
        extract_labels find payload definitions [] >>= λ labels.
        extract_matches limits n d labels count 0 ms

    -- one round of the loop over the definitions
    unfoldable pub extract_definition :
        ℕ → ℕ → Json → Result ExtractionFailure (List (KeyedObservation V))
    unfolding definition_of value_matches extract_present
    extract_definition n count j = definition_of j >>= λ d.
        value_matches find payload limits.max_matches_per_observation d
        >>= extract_present n count d

    unfoldable pub extract_definitions :
        ℕ → ℕ → List Json → Result ExtractionFailure (List (KeyedObservation V))
    unfolding extract_definition
    extract_definitions n count [] = ok []
    extract_definitions n count (j ∷ js) = extract_definition n count j >>= λ first.
        extract_definitions (suc n) (count + length first) js >>= λ rest. ok (first ++ rest)

    unfoldable pub extract_keyed_observations_from_compiled_plan :
        Json → Result ExtractionFailure (List (KeyedObservation V))
    unfolding get check_version compiled_observations extract_definitions
    extract_keyed_observations_from_compiled_plan (object fs) =
        check_version (get "compiler_version" fs)
        >> (compiled_observations (get "observations" fs) >>= extract_definitions 0 0)
    extract_keyed_observations_from_compiled_plan _ = err (extraction plan_not_an_object)
