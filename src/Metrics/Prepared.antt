-- ===== src/Metrics/Prepared.antt =====
-- The plans of a prepared chain, on the events that fit the chain's schema.
use outbox_service.Prelude.{◌≡◌, ok}
use outbox_service.Json.{Json}
use outbox_service.Metrics.Yaml.{ValidatedMetricYaml, validate_metric_yaml}
use outbox_service.Metrics.Compiler.{compile_metric_yaml_to_json}
use outbox_service.Metrics.Conforms.{Conforms}

-- the entries are those of the compiled form of a document that is valid for the schema
abbrev IsOfDocument : Json → Json → Type 0
IsOfDocument json_schema plan =
    (metric_yaml : Json) × (yaml : ValidatedMetricYaml) × (validate_metric_yaml metric_yaml
        json_schema
      ≡ ok yaml)
    × (plan ≡ compile_metric_yaml_to_json yaml)
