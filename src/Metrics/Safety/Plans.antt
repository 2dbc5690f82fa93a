-- ===== src/Metrics/Safety/Plans.antt =====
-- The extraction of a compiled plan, on an event that fits the schema.
use outbox_service.Prelude.{
  ℕ, suc, ◌+◌, ◌≡◌, refl, true, Option, none, some, List, [], ◌∷◌, String, ok, raise_if, str_eq,
  leb, length, All, All-map, OnOk-eq, OnErr, OnErr-bind, OnErr-raise_if, arith, inl, inr, ◌⊎◌,
  Bool-cases, Option-cases, order_by-All, ◌∙◌,
}
use outbox_service.Json.{Json, number, text, array, items_of}
use outbox_service.Aggregation.Values.{Floats}
use outbox_service.Aggregation.Labels.{text_leb}
use outbox_service.Metrics.Schema.{SchemaNode}
use outbox_service.Metrics.Yaml.{ValidatedObservation, allows}
use outbox_service.Metrics.Compiler.{
  bool_json, label_items, sorted_labels, compile_observation, observation_items,
}
use outbox_service.Metrics.Extractor.{
  extraction, too_many_observations, ExtractionLimits, Numbers, Definition, LabelValues, is_text,
  is_true, is_false, definition_of, constant_match, found, value_matches, build_dimensions,
  normalize_object, extract_matches, label_definitions, extract_labels, extract_present,
  extract_definition, extract_definitions,
}
use outbox_service.Metrics.Conforms.{has_type, Conforms, WalksPaths}
use outbox_service.Metrics.Typed.{IsPlainPath, fits, resolve_path-IsTyped}
use outbox_service.Metrics.Safety.Values.{
  IsOfData, Suits, apply_transform-Suits, constant-Suits, normalize_object-IsOfData,
}
use outbox_service.Metrics.Safety.Labels.{
  HasPath, finds_allowed, label_path-HasPath, extract_labels-IsOfData, build_dimensions-IsOfData,
}
use outbox_service.Metrics.Safety.Matches.{
  IsTypedObservation, IsValid, allowed_not_null, is_true-bool_json, AllSuit, Behaves, IsGood,
  present_values-Behaves,
}

-- what the extractor reads of a compiled observation
abbrev pub compiled_definition : ValidatedObservation → Definition
compiled_definition o = record {
  metric_code = text o.code;
  path = text o.value_path.path;
  is_optional = is_false (bool_json o.value_path.required);
  allows_null = is_true (bool_json o.value_path.nullable);
  transform = text o.transform;
  labels = some (array (label_items (sorted_labels o.labels)));
}

pub definition_of-compile_observation :
    (o : ValidatedObservation) → definition_of (compile_observation o) ≡ ok (compiled_definition o)
unfolding definition_of compile_observation
definition_of-compile_observation o = refl

-- a value path of plain names, where the value is no constant
abbrev pub IsPlainValue : ValidatedObservation → Type 0
IsPlainValue o = (str_eq o.transform "constant" ≡ true) ⊎ IsPlainPath o.value_path.path

module _ {V : Type 0} (fl : Floats V) (numbers : Numbers V) where
  extract_matches-IsOfData :
      (limits : ExtractionLimits) (n : ℕ) (d : Definition) (labels : List (String × LabelValues))
      (count i : ℕ) (ms : List Json)
      → All (Suits fl numbers d.transform) ms
      → OnErr IsOfData (extract_matches fl numbers limits n d labels count i ms)
  unfolding extract_matches
  extract_matches-IsOfData limits n d labels count i [] h = tt
  extract_matches-IsOfData limits n d labels count i (m ∷ ms) ((x, transformed, numeric), h) =
      OnErr-bind IsOfData (build_dimensions i labels) _ (build_dimensions-IsOfData i labels) (λ _ _.
        OnErr-bind IsOfData
          (raise_if (leb limits.max_observations_per_event count)
            (extraction too_many_observations))
          _ (OnErr-raise_if IsOfData _ (extraction too_many_observations) refl)
          (λ _ _. rw transformed (
            OnErr-bind IsOfData (normalize_object fl numbers x) _
              (normalize_object-IsOfData fl numbers x numeric)
              (λ value _.
                OnErr-bind IsOfData
                  (extract_matches fl numbers limits n d labels (suc count) (suc i) ms) _
                  (extract_matches-IsOfData limits n d labels (suc count) (suc i) ms h)
                  (λ rest _. tt)))))

  module _ (find : String → Json → Option (List Json)) (limits : ExtractionLimits) (payload : Json)
      (node : SchemaNode) (conforms : Conforms node payload) (walks : WalksPaths node find) where
    fit-IsGood :
        (o : ValidatedObservation) (v : Json)
        → allows o.transform o.value_path.json_type ≡ true
        → fits o.value_path v ≡ true
        → IsGood fl numbers (is_true (bool_json o.value_path.nullable)) (text o.transform) v
    fit-IsGood o v allowed fit = elim (Bool-cases (has_type o.value_path.json_type v)) [
      | inl typed ↦ inr (
        allowed_not_null o.transform o.value_path.json_type v allowed typed,
        apply_transform-Suits fl numbers o.transform o.value_path.json_type v allowed typed,
      )
      | inr other ↦ inl (
        ground (arith, fit, other),
        is_true-bool_json o.value_path.nullable ∙ ground (arith, fit, other),
      )
    ]

    value_matches-Behaves :
        (o : ValidatedObservation)
        → IsTypedObservation node o
        → IsPlainValue o
        → Behaves fl numbers
            (text o.transform)
            (value_matches find payload limits.max_matches_per_observation (compiled_definition o))
    unfolding value_matches is_text found constant_match
    value_matches-Behaves o (inl constant) plain =
        rw constant (tt, (constant-Suits fl numbers o.transform (number "1.0") constant, tt))
    value_matches-Behaves o (inr _) (inl constant) =
        rw constant (tt, (constant-Suits fl numbers o.transform (number "1.0") constant, tt))
    value_matches-Behaves o (inr (resolves, allowed)) (inr plain) =
        elim (Bool-cases (str_eq o.transform "constant")) [
          | inl constant ↦
              rw constant (tt, (constant-Suits fl numbers o.transform (number "1.0") constant, tt))
          | inr other ↦ elim (Option-cases (find o.value_path.path payload)) [
            | inl refused ↦ rw (other, refused) (refl, tt)
            | inr (ms, finds) ↦
                rw (other, finds)
                  (present_values-Behaves fl numbers limits.max_matches_per_observation
                    (compiled_definition o) ms
                    (All-map (λ v fit. fit-IsGood o v allowed fit) ms
                      (resolve_path-IsTyped node o.value_path.path find payload o.value_path ms
                        walks conforms plain resolves finds)))
          ]
        ]

    extract_present-IsOfData :
        (n count : ℕ) (o : ValidatedObservation) (ms : Option (List Json))
        → All HasPath o.labels
        → All (λ l. finds_allowed find payload l ≡ true) o.labels
        → AllSuit fl numbers (text o.transform) ms
        → OnErr IsOfData
            (extract_present fl numbers find limits payload n count (compiled_definition o) ms)
    unfolding extract_present label_definitions sorted_labels
    extract_present-IsOfData n count o none paths allowed suit = tt
    extract_present-IsOfData n count o (some ms) paths allowed suit =
        let ls = sorted_labels o.labels in
        OnErr-bind IsOfData (extract_labels find payload (items_of (label_items ls)) []) _
          (extract_labels-IsOfData find payload ls []
            (order_by-All (λ x y. text_leb x.0 y.0) HasPath o.labels paths)
            (order_by-All (λ x y. text_leb x.0 y.0) (λ l. finds_allowed find payload l ≡ true)
              o.labels allowed))
          (λ labels _.
            extract_matches-IsOfData limits n (compiled_definition o) labels count 0 ms suit)

    extract_definition-IsOfData :
        (n count : ℕ) (o : ValidatedObservation)
        → IsValid node o
        → IsPlainValue o
        → All (λ l. finds_allowed find payload l ≡ true) o.labels
        → OnErr IsOfData
            (extract_definition fl numbers find limits payload n count (compile_observation o))
    unfolding extract_definition
    extract_definition-IsOfData n count o (typed, paths) plain allowed =
        let d = compiled_definition o in
        let ms = value_matches find payload limits.max_matches_per_observation d in
        let (failing, finding) = value_matches-Behaves o typed plain in
        rw (definition_of-compile_observation o) (
          OnErr-bind IsOfData ms _ failing (λ found made.
            extract_present-IsOfData n count o found
              (All-map (λ l h. label_path-HasPath node l h) o.labels paths) allowed
              (OnOk-eq (AllSuit fl numbers (text o.transform)) ms finding made)))

    pub extract_definitions-IsOfData :
        (n count : ℕ) (os : List ValidatedObservation)
        → All (IsValid node) os
        → All IsPlainValue os
        → All (λ o. All (λ l. finds_allowed find payload l ≡ true) o.labels) os
        → OnErr IsOfData (
            extract_definitions fl numbers find limits payload n count
              (items_of (observation_items os)))
    unfolding extract_definitions observation_items items_of
    extract_definitions-IsOfData n count [] valid plain allowed = tt
    extract_definitions-IsOfData n count (o ∷ os) valid plain allowed =
        let first =
          extract_definition fl numbers find limits payload n count (compile_observation o) in
        OnErr-bind IsOfData first _
          (extract_definition-IsOfData n count o valid.0 plain.0 allowed.0)
          (λ keyed _.
            OnErr-bind IsOfData
              (extract_definitions fl numbers find limits payload (suc n) (count + length keyed)
                (items_of (observation_items os)))
              _
              (extract_definitions-IsOfData (suc n) (count + length keyed) os valid.1 plain.1
                allowed.1)
              (λ rest _. tt))
