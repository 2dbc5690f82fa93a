-- ===== src/Metrics/Safety.antt =====
-- Plans that are compiled from valid documents raise no error of type, on events that fit the schema.
pub mod Values
pub mod Labels
pub mod Matches
pub mod Plans
pub mod Validated
use outbox_service.Prelude.{
  ℕ, ◌≡◌, true, List, [], ◌∷◌, String, Option, ok, err, All, OnOk-eq, OnErr, OnErr-eq, All-map, inr,
}
use outbox_service.Json.{Json, items_of}
use outbox_service.Aggregation.Values.{Floats}
use outbox_service.Metrics.Schema.{SchemaNode, build_schema_graph}
use outbox_service.Metrics.Yaml.{ValidatedObservation, ValidatedMetricYaml, validate_metric_yaml}
use outbox_service.Metrics.Compiler.{compile_metric_yaml_to_json, observation_items}
use outbox_service.Metrics.Extractor.{
  ExtractionFailure, ExtractionLimits, Numbers, extract_keyed_observations_from_compiled_plan,
}
use outbox_service.Metrics.Conforms.{Conforms, WalksPaths}
use outbox_service.Metrics.Typed.{IsPlainPath}
use Values.{IsOfData}
use Labels.{finds_allowed}
use Plans.{IsPlainValue, extract_definitions-IsOfData}
use Validated.{AreValid, validate_metric_yaml-AreValid}

module _ {V : Type 0} (fl : Floats V) (numbers : Numbers V)
    (find : String → Json → Option (List Json)) (limits : ExtractionLimits) where
  pub compiled_plan-IsOfData :
      (payload : Json) (node : SchemaNode) (version : String) (os : List ValidatedObservation)
      → Conforms node payload
      → WalksPaths node find
      → AreValid node os
      → All IsPlainValue os
      → All (λ o. All (λ l. finds_allowed find payload l ≡ true) o.labels) os
      → OnErr IsOfData (
          extract_keyed_observations_from_compiled_plan fl numbers find limits payload
            (compile_metric_yaml_to_json (record { version = version; observations = os })))
  unfolding extract_keyed_observations_from_compiled_plan compile_metric_yaml_to_json
  compiled_plan-IsOfData payload node version [] conforms walks valid plain allowed = absurd valid
  compiled_plan-IsOfData payload node version (o ∷ os) conforms walks valid plain allowed =
      unfold items_of in
      unfold observation_items in
      extract_definitions-IsOfData fl numbers find limits payload node conforms walks 0 0 (o ∷ os)
        valid plain allowed
