-- ===== src/Metrics/Agreement.antt =====
-- The compiled plan makes the observations that the document itself makes.
pub mod Labels
pub mod Matches
pub mod Values
use outbox_service.Prelude.{
  ℕ, suc, ◌+◌, ◌≡◌, refl, sym, ap, ◌∙◌, true, Option, some, List, [], ◌∷◌, ◌++◌, map, String,
  Result, ok, length, All, All-map, OnOk, OnOk-bind, OnOk-eq, OnOk-intro, arith, order_by-All,
  length,
}
use mathlib.Core.List.{map-append}
use outbox_service.Json.{Json, items_of}
use outbox_service.Aggregation.Values.{Floats}
use outbox_service.Aggregation.Labels.{text_leb}
use outbox_service.Metrics.Schema.{SchemaNode, build_schema_graph}
use outbox_service.Metrics.Yaml.{ValidatedObservation, ValidatedMetricYaml, validate_metric_yaml}
use outbox_service.Metrics.Compiler.{
  label_items, sorted_labels, compile_observation, observation_items, compile_metric_yaml_to_json,
}
use outbox_service.Metrics.Extractor.{
  ExtractionFailure, ExtractionLimits, Numbers, Observation, KeyedObservation, extract_labels,
  found, value_matches, extract_definition, extract_definitions, extract_present, label_definitions,
  validated_matches, validated_labels, observe_matches, observe, observe_all, extract_observations,
  extract_keyed_observations_from_compiled_plan,
}
use outbox_service.Metrics.Safety.Labels.{HasPath, finds_allowed, label_path-HasPath}
use outbox_service.Metrics.Safety.Matches.{IsValid}
use outbox_service.Metrics.Safety.Validated.{AreValid, validate_metric_yaml-AreValid}
use outbox_service.Metrics.Safety.Plans.{compiled_definition, definition_of-compile_observation}
use Labels.{Reads, validated_labels-Reads}
use Matches.{Keys, observe_matches-Keys}
use Values.{FoundValues, validated_matches-FoundValues, constant_or_not_null}

-- the document with the labels of each observation in the order of their names
abbrev pub in_order : ValidatedObservation → ValidatedObservation
in_order o = record o { labels = sorted_labels o.labels }

module _ {V : Type 0} (fl : Floats V) (numbers : Numbers V) (limits : ExtractionLimits)
    (find : String → Json → Option (List Json)) (payload : Json) where
  -- what compiled observations make, as `os` without their keys
  abbrev Agrees :
      Result ExtractionFailure (List (KeyedObservation V)) → List (Observation V) → Type 0
  Agrees r os = (ks : List (KeyedObservation V)) × (r ≡ ok ks) × (map (λ k. k.observation) ks ≡ os)

  abbrev pub IsSound : ValidatedObservation → Type 0
  IsSound o = All HasPath o.labels × All (λ l. finds_allowed find payload l ≡ true) o.labels

  observe-Agrees :
      (n count : ℕ) (o : ValidatedObservation)
      → IsSound o
      → OnOk
          (Agrees
            (extract_definition fl numbers find limits payload n count (compile_observation o)))
          (observe fl numbers limits find payload count (in_order o))
  unfolding observe extract_definition extract_present label_definitions sorted_labels
  observe-Agrees n count o (paths, allowed) =
      let R =
        Agrees
          (extract_definition fl numbers find limits payload n count (compile_observation o)) in
      let ls = sorted_labels o.labels in
      let limit = limits.max_matches_per_observation in
      OnOk-bind R (validated_matches find payload limit o) _ (λ ms found.
        OnOk-bind R (validated_labels find payload ls []) _ (λ labels read.
          let observed = observe_matches fl numbers limits o.code o.transform labels count 0 ms in
          OnOk-intro R observed (λ xs made.
            let no_null =
              constant_or_not_null find payload fl numbers limits o labels count ms found made in
            let values : value_matches find payload limit (compiled_definition o) ≡ ok (some ms) =
              OnOk-eq (FoundValues find payload limit o) (validated_matches find payload limit o)
                (validated_matches-FoundValues find payload limit o) found no_null in
            let reads : extract_labels find payload (items_of (label_items ls)) [] ≡ ok labels =
              OnOk-eq (Reads find payload ls []) (validated_labels find payload ls [])
                (validated_labels-Reads find payload ls []
                  (order_by-All (λ x y. text_leb x.0 y.0) HasPath o.labels paths)
                  (order_by-All (λ x y. text_leb x.0 y.0) (λ l. finds_allowed find payload l ≡ true)
                    o.labels allowed))
                read in
            let (ks, keyed, same) =
              OnOk-eq
                (Keys fl numbers limits o.code o.transform labels (compiled_definition o) n count 0
                  ms)
                observed
                (observe_matches-Keys fl numbers limits o.code o.transform labels
                  (compiled_definition o) n count 0 ms refl refl)
                made in
            (ks, rw (definition_of-compile_observation o, values, reads, keyed) refl, same))))

  length-map : (ks : List (KeyedObservation V)) → length (map (λ k. k.observation) ks) ≡ length ks
  length-map [] = refl
  length-map (k ∷ ks) = ap (λ n. suc n) (length-map ks)

  extract_definitions-cons :
      (n count : ℕ) (j : Json) (js : List Json) (ks ls : List (KeyedObservation V))
      → extract_definition fl numbers find limits payload n count j ≡ ok ks
      → extract_definitions fl numbers find limits payload (suc n) (count + length ks) js ≡ ok ls
      → extract_definitions fl numbers find limits payload n count (j ∷ js) ≡ ok (ks ++ ls)
  unfolding extract_definitions
  extract_definitions-cons n count j js ks ls first rest = rw (first, rest) refl

  observe_all-Agrees :
      (n count : ℕ) (os : List ValidatedObservation)
      → All IsSound os
      → OnOk
          (Agrees (
            extract_definitions fl numbers find limits payload n count
              (items_of (observation_items os))))
          (observe_all fl numbers limits find payload count (map in_order os))
  unfolding observe_all observation_items items_of
  observe_all-Agrees n count [] sound = ([], unfold extract_definitions in refl, refl)
  observe_all-Agrees n count (o ∷ os) (here, sound) =
      let R = Agrees (
        extract_definitions fl numbers find limits payload n count
          (items_of (observation_items (o ∷ os)))) in
      let first = observe fl numbers limits find payload count (in_order o) in
      OnOk-bind R first _ (λ xs made.
        let (ks, keyed, same) =
          OnOk-eq
            (Agrees
              (extract_definition fl numbers find limits payload n count (compile_observation o)))
            first (observe-Agrees n count o here) made in
        let rest =
          observe_all fl numbers limits find payload (count + length xs) (map in_order os) in
        OnOk-bind R rest _ (λ ys others.
          let (ls, keyed', same') =
            OnOk-eq
              (Agrees (
                extract_definitions fl numbers find limits payload (suc n) (count + length xs)
                  (items_of (observation_items os))))
              rest (observe_all-Agrees (suc n) (count + length xs) os sound) others in
          let counted : length xs ≡ length ks = ap length (sym same) ∙ length-map ks in
          (
            ks ++ ls,
            extract_definitions-cons n count (compile_observation o)
                (items_of (observation_items os)) ks ls keyed
                (ap
                    (λ c.
                      extract_definitions fl numbers find limits payload (suc n) (count + c)
                        (items_of (observation_items os)))
                    (sym counted)
                  ∙ keyed'),
            map-append (λ k. k.observation) ks ls ∙ rw (same, same') refl,
          )))

  all-IsSound :
      (node : SchemaNode) (os : List ValidatedObservation)
      → All (IsValid node) os
      → All (λ o. All (λ l. finds_allowed find payload l ≡ true) o.labels) os
      → All IsSound os
  all-IsSound node [] valid allowed = tt
  all-IsSound node (o ∷ os) ((_, paths), valid) (here, allowed) = (
    (All-map (λ l h. label_path-HasPath node l h) o.labels paths, here),
    all-IsSound node os valid allowed,
  )

  compiled-Agrees :
      (node : SchemaNode) (version : String) (os : List ValidatedObservation)
      → AreValid node os
      → All (λ o. All (λ l. finds_allowed find payload l ≡ true) o.labels) os
      → OnOk
          (Agrees (
            extract_keyed_observations_from_compiled_plan fl numbers find limits payload
              (compile_metric_yaml_to_json (record { version = version; observations = os }))))
          (observe_all fl numbers limits find payload 0 (map in_order os))
  unfolding extract_keyed_observations_from_compiled_plan compile_metric_yaml_to_json
  compiled-Agrees node version [] valid allowed = absurd valid
  compiled-Agrees node version (o ∷ os) valid allowed =
      unfold items_of in
      unfold observation_items in
      observe_all-Agrees 0 0 (o ∷ os) (all-IsSound node (o ∷ os) valid allowed)

  -- Where a document that the validator accepts, with the labels of each observation in the order of
  -- their names, makes observations of an event, and its labels find null only where their paths
  -- allow it, its compiled plan makes the same observations in the same order, with keys.
  pub extract_observations_agrees :
      (metric_yaml json_schema : Json) (node : SchemaNode) (yaml : ValidatedMetricYaml)
      (os : List (Observation V))
      → build_schema_graph json_schema ≡ ok node
      → validate_metric_yaml metric_yaml json_schema ≡ ok yaml
      → All (λ o. All (λ l. finds_allowed find payload l ≡ true) o.labels) yaml.observations
      → extract_observations fl numbers limits find payload
          (record yaml { observations = map in_order yaml.observations })
        ≡ ok os
      → (ks : List (KeyedObservation V)) × (extract_keyed_observations_from_compiled_plan fl numbers
            find limits payload
            (compile_metric_yaml_to_json yaml)
          ≡ ok ks)
        × (map (λ k. k.observation) ks ≡ os)
  unfolding extract_observations
  extract_observations_agrees metric_yaml json_schema node yaml os builds valid allowed made =
      OnOk-eq
        (Agrees (
          extract_keyed_observations_from_compiled_plan fl numbers find limits payload
            (compile_metric_yaml_to_json yaml)))
        (observe_all fl numbers limits find payload 0 (map in_order yaml.observations))
        (compiled-Agrees node yaml.version yaml.observations
          (OnOk-eq (λ y. AreValid node y.observations)
            (validate_metric_yaml metric_yaml json_schema)
            (validate_metric_yaml-AreValid metric_yaml json_schema node builds) valid)
          allowed)
        made
