-- ===== src/Cardinality/Tests.antt =====
-- An assessment of one metric with one label.
use outbox_service.Prelude.{is_empty, ◌≡◌, refl, true, some, [], ◌∷◌, ok, arith}
use outbox_service.Json.{
  null, text, array, object, item, end_items, field, end_fields, get, items_of, text_of,
}
use outbox_service.Cardinality.Model.{
  info, CardinalityPlan, CardinalityService, CardinalityAssessment, MetricCardinalityBreakdown,
}
use outbox_service.Cardinality.Names.{
  normalize_prometheus_metric_name, substitute, is_business_label_name,
}
use outbox_service.Cardinality.Estimate.{
  field_at, bounded_field, code_of, check_name, check_names, safe_multiply, safe_add,
  label_identity, count_label, analyze_named, analyze_label, analyze_labels, labels_of,
  analyze_identified,
}
use outbox_service.Cardinality.Assess.{
  identity_of, analyze_observation, add_contribution, tally_item, tally_observations, tally_plan,
  analyze_many, project, conclude, assess,
}
use outbox_service.Cardinality.Budget.{IsSound, assess-IsSound}

abbrev service : CardinalityService
service = record {
  analyze = λ _. ok (
      record {
        path = "$.kind";
        label_allowed = true;
        label_cardinality = some 3;
        label_cardinality_source = some "enum";
      }
      ∷ []);
  limits = record {
    event_type_series_budget = 200;
    event_type_series_warning = 160;
    max_metric_series_estimate = 1000;
  };
}

abbrev plan : CardinalityPlan
plan = record {
  compiled_plan_json =
      field "observations"
        (array (
          item
            (object (
              field "metric_code" (text "orders-placed") (
                field "transform" (text "COUNT") (
                  field "labels"
                    (array (
                      item
                        (object
                          (field "name" (text "kind") (field "path" (text "$.kind") end_fields)))
                        end_items))
                    end_fields))))
            end_items))
        end_fields;
  schema_definition_id = some 1;
  json_schema = null;
}

abbrev expected : CardinalityAssessment
expected = record {
  decision = info;
  budget_limit = 200;
  current_estimated_series = 3;
  candidate_contribution = some 3;
  replaced_contribution = 3;
  projected_estimated_series = some 3;
  remaining_budget = some 197;
  warnings = [];
  errors = [];
  metric_breakdown = orders ∷ orders ∷ [];
}
  where
    orders : MetricCardinalityBreakdown
    orders = record {
      metric_code = "orders-placed";
      prometheus_metric_name = "ob1_orders_placed";
      intent = "COUNT";
      labels =
          record { name = "kind"; path = "$.kind"; cardinality = some 3; source = some "enum" }
          ∷ [];
      contribution = some 3;
      accepted = true;
      source_schema_definition_id = some 1;
    }

plan_is_assessed : assess service (plan ∷ []) (plan ∷ []) (plan ∷ []) ≡ ok expected
unfolding assess analyze_many tally_plan tally_observations tally_item add_contribution
    analyze_observation identity_of analyze_identified labels_of analyze_labels analyze_label
    analyze_named count_label label_identity safe_add safe_multiply check_names check_name code_of
    bounded_field field_at conclude project normalize_prometheus_metric_name substitute
    is_business_label_name get items_of text_of is_empty
plan_is_assessed = refl

assess-IsSound_example : IsSound service.limits expected
assess-IsSound_example =
    assess-IsSound service (plan ∷ []) (plan ∷ []) (plan ∷ []) expected (omega arith)
      plan_is_assessed (λ bad. cc)
