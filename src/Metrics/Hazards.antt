-- ===== src/Metrics/Hazards.antt =====
-- How the labels of an observation are paired with its values: by their places in two lists.
use outbox_service.Prelude.{
  ◌≡◌, refl, true, false, Option, some, List, [], ◌∷◌, String, ok, err, is_empty, any_of, ltb,
  length,
}
use outbox_service.Json.{Json, null, number, text}
use outbox_service.Aggregation.Values.{Floats, normalize_counter_increment}
use outbox_service.Metrics.Schema.{ResolvedPath}
use outbox_service.Metrics.Yaml.{along, ValidatedObservation}
use outbox_service.Metrics.Compiler.{compile_observation}
use outbox_service.Metrics.Extractor.{
  extraction, no_value_at_index, default_limits, Numbers, occurrence, scalar, is_null,
  extract_definition,
}

-- an observation that takes the numbers along a path, with one label
abbrev pub labelled : String → String → ResolvedPath → ResolvedPath → ValidatedObservation
labelled code name value label = record {
  code = code;
  transform = "identity";
  value_path = value;
  labels = (name, along label) ∷ [];
}

module _ {V : Type 0} (fl : Floats V) (numbers : Numbers V)
    (find : String → Json → Option (List Json)) (payload : Json) where
  -- Where the value of the first of two items is null, which the path allows, the observation of the
  -- second item gets the label of the first.
  pub null_value_shifts_labels :
      (code name n a b : String) (value label : ResolvedPath) (v v' : V)
      → value.nullable ≡ true
      → is_empty label.path ≡ false
      → find value.path payload ≡ some (null ∷ number n ∷ [])
      → find label.path payload ≡ some (text a ∷ text b ∷ [])
      → numbers.float_of n ≡ some v
      → normalize_counter_increment fl v ≡ ok v'
      → extract_definition fl numbers find default_limits payload 0 0
          (compile_observation (labelled code name value label))
        ≡ ok (
            record {
              observation_key = occurrence 0 0;
              observation = record {
                metric_code = text code;
                value = v';
                dimensions = (name, scalar (text a)) ∷ [];
              };
            }
            ∷ [])
  unfolding extract_definition compile_observation
  null_value_shifts_labels code name n a b value label v v' nullable filled values labels float
        increment =
      simp (values, labels, filled, nullable, float, increment) refl

  -- A label that has one value, such as one of the event itself, ends the extraction where the value's
  -- path finds more, none of them null: the label has no value for the second.
  pub single_label_fails :
      (code name n a : String) (m : Json) (ms : List Json) (value label : ResolvedPath) (v v' : V)
      → is_empty label.path ≡ false
      → find value.path payload ≡ some (number n ∷ m ∷ ms)
      → any_of is_null (m ∷ ms) ≡ false
      → ltb 200 (length (number n ∷ m ∷ ms)) ≡ false
      → find label.path payload ≡ some (text a ∷ [])
      → numbers.float_of n ≡ some v
      → normalize_counter_increment fl v ≡ ok v'
      → extract_definition fl numbers find default_limits payload 0 0
          (compile_observation (labelled code name value label))
        ≡ err (extraction no_value_at_index)
  unfolding extract_definition compile_observation
  single_label_fails code name n a m ms value label v v' filled values present few labels float
        increment =
      simp (values, labels, filled, present, few, float, increment) refl
