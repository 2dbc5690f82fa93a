-- ===== src/Metrics/Tests/Storage.antt =====
-- An order that stores what its plan makes of an event.
use outbox_service.Prelude.{
  ℕ, zero, suc, ◌≡◌, refl, sym, ap, ◌∙◌, true, none, some, List, [], ◌∷◌, String, ok, length, ◌≤◌,
  char_count, is_empty, str_eq, if◌then◌else◌,
}
use Prim.Native.Char.{char}
use outbox_service.Aggregation.Values.{normalize_counter_increment}
use outbox_service.Aggregation.Labels.{text_leb}
use outbox_service.Execution.Model.{
  PlanStatus, PlanExecution, Event, ProcessingPlan, Observation, Store,
}
use outbox_service.Execution.Service.{begin_attempt, coherent_plan, execute_order}
use outbox_service.Execution.Inserts.{IsInserted}
use outbox_service.Metrics.Paths.{parse_json_path, has_bracket}
use outbox_service.Metrics.Compiler.{compile_metric_yaml_to_json}
use outbox_service.Metrics.Extractor.{extract_keyed_observations_from_compiled_plan}
use outbox_service.Metrics.Conforms.{walk}
use outbox_service.Metrics.Service.{Texts, extract_for_plan, metrics_runtime}
use outbox_service.Metrics.Inserted.{execute_order_inserts_all}
use outbox_service.Metrics.Inserted.Keys.{no_colon, IsDecimal}
use outbox_service.Metrics.Tests.{revenue, walker, whole_numbers, by_length, two_items}

-- a number as as many ones
abbrev ones : ℕ → String
ones zero = ""
ones (suc n) = String.◌∷◌ (char 49 tt) (ones n)

count_of_ones : (n : ℕ) → char_count (ones n) ≡ n
unfolding char_count
count_of_ones zero = refl
count_of_ones (suc n) = ap (λ m. suc m) (count_of_ones n)

ones_have_no_colon : (n : ℕ) → no_colon (ones n) ≡ true
ones_have_no_colon zero = refl
ones_have_no_colon (suc n) = ones_have_no_colon n

ones-IsDecimal : IsDecimal ones
ones-IsDecimal =
    (λ n m same. sym (count_of_ones n) ∙ ap char_count same ∙ count_of_ones m, ones_have_no_colon)

abbrev texts : Texts
texts = record {
  document = λ t. if str_eq t "plan" then compile_metric_yaml_to_json revenue else two_items;
  digits = ones;
  error_text = λ f. "error";
}

abbrev order_event : Event
order_event = record {
  id = 4;
  project_id = 1;
  event_type_id = 2;
  schema_definition_id = 3;
  json_version_internal = "1";
  payload = "event";
  type_project_id = 1;
  schema_event_type_id = 2;
  schema_json_version_internal = "1";
}

abbrev revenue_plan : ProcessingPlan
revenue_plan = record {
  id = 6;
  processing_chain_id = 5;
  metric_definition_id = 7;
  metric_definition_version_id = 8;
  position = 0;
  is_active = true;
  compiled_plan_json = some "plan";
  definition_event_type_id = 2;
  version_definition_id = 7;
}

abbrev order : PlanExecution
order = record {
  id = 9;
  metric_processing_execution_id = 10;
  event_id = 4;
  processing_chain_id = 5;
  processing_plan_id = 6;
  status = PlanStatus.pending;
  attempt_count = 0;
  next_attempt_at = none;
  started_at = none;
  succeeded_at = none;
  last_error = none;
  is_retryable = true;
  created_at = 11;
}

abbrev store : Store ℕ
store = record {
  events = order_event ∷ [];
  chains = [];
  plans = revenue_plan ∷ [];
  compatibilities = [];
  processings = [];
  executions = order ∷ [];
  observations = [];
  next_processing_id = 11;
  next_execution_id = 10;
}

abbrev row : String → ℕ → Observation ℕ
row key value = record {
  project_id = 1;
  event_type_id = 2;
  event_id = 4;
  processing_plan_id = 6;
  metric_plan_execution_id = 9;
  observation_key = key;
  metric_code = "revenue";
  value = value;
}

abbrev rows : List (Observation ℕ)
rows = row "observation::occurrence:" 2 ∷ row "observation::occurrence:1" 3 ∷ []

two_rows :
    extract_for_plan whole_numbers by_length walker texts order_event revenue_plan
      (begin_attempt 12 order)
    ≡ ok rows
unfolding extract_for_plan extract_keyed_observations_from_compiled_plan compile_metric_yaml_to_json
    parse_json_path is_empty has_bracket walk text_leb normalize_counter_increment char_count
    begin_attempt
two_rows = refl

execute_order_inserts_all_example :
    (length rows ≤ 1000)
    × IsInserted rows store (
        execute_order
          (metrics_runtime whole_numbers by_length walker texts (λ n. 60) 5 (λ o. none) (λ x. none))
          12
          order
          store)
unfolding coherent_plan
execute_order_inserts_all_example =
    execute_order_inserts_all whole_numbers by_length walker texts (λ n. 60) 5 (λ o. none)
      (λ x. none) 12 order store order_event revenue_plan rows ones-IsDecimal refl refl refl
      two_rows refl (refl, (refl, tt)) refl
