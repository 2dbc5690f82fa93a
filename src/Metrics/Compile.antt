-- ===== src/Metrics/Compile.antt =====
-- `MetricYamlService.compile` of app/services/metric_yaml_service.py, as Chains calls it.
use outbox_service.Prelude.{String, Result, ok, err, ◌>>=◌}
use outbox_service.Json.{Json, object, Fields, end_fields}
use outbox_service.Chains.Model.{Tools}
use outbox_service.Metrics.Yaml.{
  LoadError, MetricYamlParseError, parse_metric_yaml, MetricYamlValidationError,
  ValidatedMetricYaml, validate_metric_yaml,
}
use outbox_service.Metrics.Compiler.{compile_metric_yaml_to_json}

-- what a compilation raises
pub data MetricYamlError : Type 0 where
  not_parsed : MetricYamlParseError → MetricYamlError
  not_valid : MetricYamlValidationError → MetricYamlError

unfoldable pub parse_raised : Result MetricYamlParseError Json → Result MetricYamlError Json
parse_raised (ok j) = ok j
parse_raised (err e) = err (not_parsed e)

unfoldable pub validation_raised :
    Result MetricYamlValidationError ValidatedMetricYaml
    → Result MetricYamlError ValidatedMetricYaml
validation_raised (ok y) = ok y
validation_raised (err e) = err (not_valid e)

unfoldable pub compile :
    (String → Result LoadError Json) → String → Json → Result MetricYamlError Json
unfolding parse_raised validation_raised
compile safe_load yaml_content json_schema = do
  metric_yaml ← parse_raised (parse_metric_yaml safe_load yaml_content)
  validated ← validation_raised (validate_metric_yaml metric_yaml json_schema)
  ok (compile_metric_yaml_to_json validated)

-- the entries of the compiled document, which is an object, or the exception as its text
unfoldable pub entries :
    (MetricYamlError → String) → Result MetricYamlError Json → Result String Fields
entries error_text (ok (object fs)) = ok fs
entries error_text (ok _) = ok end_fields
entries error_text (err e) = err (error_text e)

-- the tools of the chain builder
abbrev pub metric_tools :
    (String → Result LoadError Json) → (MetricYamlError → String) → (Json → String) → Tools
metric_tools safe_load error_text dumps = record {
  compile =
      λ yaml_content json_schema. entries error_text (compile safe_load yaml_content json_schema);
  dumps = dumps;
}
