-- ===== src/Metrics/Extractor/Direct.antt =====
-- `extract_observations`: the observations of an event by the validated document itself.
use outbox_service.Prelude.{
  ℕ, suc, ◌+◌, List, [], ◌∷◌, ◌++◌, Option, String, Result, ok, err, ◌>>=◌, ◌>>◌, raise_if,
  or_raise, if◌then◌else◌, str_eq, ltb, leb, length,
}
use outbox_service.Json.{Json, text}
use outbox_service.Aggregation.Values.{Floats}
use outbox_service.Metrics.Yaml.{LabelPath, index, along, ValidatedObservation, ValidatedMetricYaml}
use outbox_service.Metrics.Extractor.Definitions.{
  ExtractionFailure, ExtractionLimits, Numbers, Observation, LabelValues, put_label, constant_match,
  extraction, no_value, no_label_value, path_raised, too_many_matches, too_many_observations,
  at_index, matches,
}
use outbox_service.Metrics.Extractor.Loop.{build_dimensions, apply_transform, normalize_object}

unfoldable pub required_matches : ℕ → List Json → Result ExtractionFailure (List Json)
required_matches limit [] = err (extraction no_value)
required_matches limit (m ∷ ms) =
    raise_if (ltb limit (length (m ∷ ms))) (extraction too_many_matches) >> ok (m ∷ ms)

unfoldable pub required_label : List Json → Result ExtractionFailure LabelValues
required_label [] = err (extraction no_label_value)
required_label (m ∷ ms) = ok (matches (m ∷ ms))

module _ (find : String → Json → Option (List Json)) (payload : Json) where
  -- the matches of the value
  unfoldable pub validated_matches : ℕ → ValidatedObservation → Result ExtractionFailure (List Json)
  unfolding constant_match required_matches
  validated_matches limit o =
      if str_eq o.transform "constant"
      then ok constant_match
      else or_raise (find o.value_path.path payload) path_raised >>= required_matches limit

  unfoldable pub validated_label : LabelPath → Result ExtractionFailure LabelValues
  unfolding required_label
  validated_label index = ok at_index
  validated_label (along r) = or_raise (find r.path payload) path_raised >>= required_label

  -- `_extract_label_matches_by_name`
  unfoldable pub validated_labels :
      List (String × LabelPath)
      → List (String × LabelValues)
      → Result ExtractionFailure (List (String × LabelValues))
  unfolding validated_label put_label
  validated_labels [] labels = ok labels
  validated_labels ((name, path) ∷ ls) labels =
      validated_label path >>= λ values. validated_labels ls (put_label name values labels)

module _ {V : Type 0} (fl : Floats V) (numbers : Numbers V) (limits : ExtractionLimits) where
  -- the loop over the matches, after `count` observations
  unfoldable pub observe_matches :
      String
      → String
      → List (String × LabelValues)
      → ℕ
      → ℕ
      → List Json
      → Result ExtractionFailure (List (Observation V))
  unfolding build_dimensions apply_transform normalize_object
  observe_matches code transform labels count i [] = ok []
  observe_matches code transform labels count i (m ∷ ms) =
      build_dimensions i labels >>= λ dimensions.
      raise_if (leb limits.max_observations_per_event count) (extraction too_many_observations)
      >> (apply_transform fl numbers (text transform) m >>= normalize_object fl numbers >>= λ value.
          observe_matches code transform labels (suc count) (suc i) ms >>= λ rest.
          ok (record { metric_code = text code; value = value; dimensions = dimensions } ∷ rest))

  module _ (find : String → Json → Option (List Json)) (payload : Json) where
    -- one round of the loop over the definitions
    unfoldable pub observe :
        ℕ → ValidatedObservation → Result ExtractionFailure (List (Observation V))
    unfolding validated_matches validated_labels observe_matches
    observe count o = validated_matches find payload limits.max_matches_per_observation o >>= λ ms.
        validated_labels find payload o.labels [] >>= λ labels.
        observe_matches o.code o.transform labels count 0 ms

    unfoldable pub observe_all :
        ℕ → List ValidatedObservation → Result ExtractionFailure (List (Observation V))
    unfolding observe
    observe_all count [] = ok []
    observe_all count (o ∷ os) = observe count o >>= λ first.
        observe_all (count + length first) os >>= λ rest. ok (first ++ rest)

    unfoldable pub extract_observations :
        ValidatedMetricYaml → Result ExtractionFailure (List (Observation V))
    unfolding observe_all
    extract_observations metric_yaml = observe_all 0 metric_yaml.observations
