-- ===== src/Rendering/Tests.antt =====
-- Labels of a document, escaped and merged.
mod Tenants
use outbox_service.Prelude.{
  none, some, true, ◌+◌, ◌==◌, leb, sum_of, ℕ, ◌≡◌, refl, false, [], ◌∷◌, ok, err, is_empty,
}
use outbox_service.Json.{null, number, text, object, field, end_fields}
use outbox_service.Cardinality.Names.{
  is_business_label_name, normalize_prometheus_metric_name, substitute,
}
use outbox_service.Aggregation.Labels.{bad_label_name, is_container, text_leb}
use Prim.Native.String.{◌++◌ as concat}
use outbox_service.Rendering.Escape.{replace_char, escape_prometheus_label_value}
use outbox_service.Chains.Builder.{add_code}
use outbox_service.Projects.Model.{Project}
use outbox_service.Aggregation.Values.{
  Floats, normalize_counter_increment, normalize_all, total_of, coalesce_counter_increments,
}
use outbox_service.Aggregation.Model.{MetricState}
use outbox_service.Rendering.Render.{
  PrometheusMetricStateSample, Formats, family_collision, same_items, items_leb, labels_raised,
  value_raised, render_label, render_labels, join_lines, add_series, add_sample, collect,
  render_line, render_series, render_families, render_prometheus_metric_states,
}
use outbox_service.Rendering.Legacy.{
  MetricSample, sample_line, header_lines, sample_lines, render_prometheus,
}
use outbox_service.Rendering.Service.{
  EventType, document_of, text_then, rendered, join_event_types, row_before,
  find_prometheus_rows_by_project, samples_of, render_project,
}
use outbox_service.Rendering.Families.{AreUnambiguous, render_prometheus_metric_states_unambiguous}
use outbox_service.Rendering.RoundTrip.{read_value, escape_prometheus_label_value_reads}
use outbox_service.Rendering.Labels.{
  merge_prometheus_labels, normalize_business_labels, business_items, str_of, is_omitted, set_label,
}

value_is_escaped : escape_prometheus_label_value "a\\b\n\"c" ≡ "a\\\\b\\n\\\"c"
unfolding escape_prometheus_label_value
value_is_escaped = refl

labels_are_merged :
    merge_prometheus_labels
      (λ n. n)
      (object
        (field "shop" (text "north") (field "age" (number "4") (field "note" null end_fields))))
      "P"
      "order"
    ≡ ok (
        record { name = "age"; value = "4" }
        ∷ record { name = "ob1_event_type"; value = "order" }
        ∷ record { name = "ob1_project"; value = "P" }
        ∷ record { name = "shop"; value = "north" }
        ∷ [])
unfolding merge_prometheus_labels normalize_business_labels business_items str_of is_omitted
    set_label is_business_label_name is_empty is_container text_leb
labels_are_merged = refl

platform_labels_are_reserved :
    merge_prometheus_labels
      (λ n. n)
      (object (field "ob1_project" (text "x") end_fields))
      "P"
      "order"
    ≡ err (bad_label_name "ob1_project")
unfolding merge_prometheus_labels normalize_business_labels business_items is_business_label_name
    is_empty
platform_labels_are_reserved = refl

escape_prometheus_label_value_reads_example :
    read_value false (concat (escape_prometheus_label_value "a\\b\n\"c") (concat "\"" "} 1"))
    ≡ some ("a\\b\n\"c", "} 1")
escape_prometheus_label_value_reads_example = escape_prometheus_label_value_reads "a\\b\n\"c" "} 1"

abbrev pub whole_numbers : Floats ℕ
whole_numbers = record {
  zero_value = 0;
  is_finite = λ n. true;
  is_negative = λ n. false;
  is_zero = λ n. n == 0;
  le = leb;
  fsum = λ ns. some (sum_of (λ n. n) ns);
  db_plus = λ n m. some (n + m);
}

abbrev pub plain : Formats ℕ
plain = record { number_text = λ n. n; format_value = λ n. "5" }

abbrev pub orders_state : MetricState ℕ
orders_state = record {
  id = 1;
  project_id = 7;
  event_type_id = 2;
  metric_definition_id = none;
  metric_definition_version_id = none;
  metric_code = "orders";
  labels_json = record { name = "shop"; value = text "north" } ∷ [];
  labels_hash = "h";
  value = 5;
  updated_at = 50;
}

abbrev pub shop_project : Project
shop_project = record { id = 7; name = "P"; description = none; is_active = true }

abbrev pub order_type : EventType
order_type = record { id = 2; project_id = 7; code = "order" }

document_is_rendered :
    render_project whole_numbers plain 7 (shop_project ∷ []) (orders_state ∷ []) (order_type ∷ [])
    ≡ ok
        "# TYPE ob1_orders counter\nob1_orders{ob1_event_type=\"order\",ob1_project=\"P\",shop=\"north\"} 5\n"
unfolding same_items items_leb labels_raised value_raised render_label render_labels join_lines
    add_series add_sample collect render_line render_series render_families
    render_prometheus_metric_states document_of text_then rendered join_event_types row_before
    find_prometheus_rows_by_project samples_of render_project normalize_counter_increment
    normalize_all total_of coalesce_counter_increments merge_prometheus_labels
    normalize_business_labels business_items str_of is_omitted set_label is_business_label_name
    is_empty is_container text_leb normalize_prometheus_metric_name substitute add_code
    escape_prometheus_label_value replace_char
document_is_rendered = refl

abbrev orders_sample : PrometheusMetricStateSample ℕ
orders_sample = record {
  metric_code = "orders";
  value = 5;
  business_labels = null;
  project_name = "P";
  event_type_code = "order";
}

samples_are_rendered :
    render_prometheus_metric_states whole_numbers plain (orders_sample ∷ orders_sample ∷ [])
    ≡ ok "# TYPE ob1_orders counter\nob1_orders{ob1_event_type=\"order\",ob1_project=\"P\"} 5\n"
unfolding same_items items_leb labels_raised value_raised render_label render_labels join_lines
    add_series add_sample collect render_line render_series render_families
    render_prometheus_metric_states document_of text_then rendered join_event_types row_before
    find_prometheus_rows_by_project samples_of render_project normalize_counter_increment
    normalize_all total_of coalesce_counter_increments merge_prometheus_labels
    normalize_business_labels business_items str_of is_omitted set_label is_business_label_name
    is_empty is_container text_leb normalize_prometheus_metric_name substitute add_code
    escape_prometheus_label_value replace_char
samples_are_rendered = refl

names_collide :
    render_prometheus_metric_states whole_numbers plain
      (orders_sample ∷ record orders_sample { metric_code = "ob1_orders" } ∷ [])
    ≡ err family_collision
unfolding same_items items_leb labels_raised value_raised render_label render_labels join_lines
    add_series add_sample collect render_line render_series render_families
    render_prometheus_metric_states document_of text_then rendered join_event_types row_before
    find_prometheus_rows_by_project samples_of render_project normalize_counter_increment
    normalize_all total_of coalesce_counter_increments merge_prometheus_labels
    normalize_business_labels business_items str_of is_omitted set_label is_business_label_name
    is_empty is_container text_leb normalize_prometheus_metric_name substitute add_code
    escape_prometheus_label_value replace_char
names_collide = refl

render_prometheus_metric_states_unambiguous_example :
    AreUnambiguous (orders_sample ∷ orders_sample ∷ [])
render_prometheus_metric_states_unambiguous_example =
    render_prometheus_metric_states_unambiguous whole_numbers plain
      (orders_sample ∷ orders_sample ∷ [])
      "# TYPE ob1_orders counter\nob1_orders{ob1_event_type=\"order\",ob1_project=\"P\"} 5\n"
      samples_are_rendered

abbrev small_sample : MetricSample ℕ
small_sample = record { name = "m"; type = "gauge"; help = "h"; value = 5; labels = [] }

headers_come_once :
    render_prometheus
      (λ _. "5.0")
      (small_sample ∷ record small_sample { labels = record { name = "a"; value = "b" } ∷ [] } ∷ [])
    ≡ "# HELP m h\n# TYPE m gauge\nm 5.0\nm{a=\"b\"} 5.0\n"
unfolding render_prometheus sample_lines sample_line header_lines render_label render_labels
    join_lines escape_prometheus_label_value replace_char
headers_come_once = refl
