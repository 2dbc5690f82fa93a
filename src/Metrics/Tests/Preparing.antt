-- ===== src/Metrics/Tests/Preparing.antt =====
-- A chain that is prepared from one document, and an event that it fails on.
use outbox_service.Prelude.{true, [], ◌∷◌, String, Result, ok}
use outbox_service.Json.{Json, object, end_fields, Fields}
use outbox_service.Chains.Model.{
  MetricDefinitionVersion, SchemaDefinition, Registry, PreparedProcessingChain,
}
use outbox_service.Metrics.Yaml.{LoadError}
use outbox_service.Metrics.Compiler.{compile_metric_yaml_to_json}
use outbox_service.Metrics.Tests.{order_schema, revenue_yaml, revenue}

abbrev load : String → Result LoadError Json
load s = ok revenue_yaml

abbrev schema : SchemaDefinition
schema = record { id = 3; event_type_id = 2; json_schema = order_schema }

abbrev version : MetricDefinitionVersion
version = record {
  id = 8;
  metric_definition_id = 6;
  yaml_version_number = 1;
  yaml_content = "revenue";
  is_active = true;
  definition_event_type_id = 2;
  definition_is_active = true;
}

abbrev registry : Registry
registry = record {
  event_types = 2 ∷ [];
  schemas = schema ∷ [];
  versions = version ∷ [];
  compatibilities = record { metric_definition_version_id = 8; schema_definition_id = 3 } ∷ [];
  chains = [];
  plans = [];
  next_chain_id = 1;
  next_plan_id = 1;
}

abbrev fields_of_json : Json → Fields
fields_of_json (object fs) = fs
fields_of_json _ = end_fields

abbrev prepared : PreparedProcessingChain
prepared = record {
  event_type_id = 2;
  schema_definition_id = 3;
  plans =
      record {
        metric_definition_id = 6;
        metric_definition_version_id = 8;
        compiled_plan_json = fields_of_json (compile_metric_yaml_to_json revenue);
      }
      ∷ [];
}
