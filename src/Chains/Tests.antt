-- ===== src/Chains/Tests.antt =====
-- Runs of the building and activation of processing chains, and its theorems at one metric.
use outbox_service.Prelude.{
  is_empty, ℕ, ◌≡◌, refl, true, false, ◌&&◌, ◌==◌, none, some, [], ◌∷◌, ok, arith,
}
use outbox_service.Chains.Repository.{
  scalar_one_or_none, add_chain, find_active, newest_first, list_by_scope, by_schema,
  list_active_by_event_type, number_after, find_next_version_number, add_plans, by_position,
  list_by_chain_id, list_active_by_chain_id, is_compatible, by_definition, is_candidate, is_latest,
  find_latest_compatible_versions, find_by_ids,
}
use outbox_service.Chains.Builder.{
  add_code, note_code, checked_code, code_of_observation, note_observations, observations_of,
  note_plans, validate_prometheus_identities, compiled, is_none, is_null, same_signatures, has_gap,
  plan_rows, persist_chain, prepare_plans, prepare_chain, signature, signature_for_chain,
  matches_complete_snapshot,
}
use outbox_service.Chains.Service.{
  lock_event_type, validate_schema_scope, dict_of, plan_entries, active_entries, assessed, is_error,
  first_error, require_safe_cardinality,
}
use outbox_service.Chains.Activation.{
  plan_documents, find_equivalent_draft, find_reusable, reuse_or_persist, rebuild_chain,
  retire_other, activate_locked, switch_chain, differ, check_chain, activate_chain,
}
use outbox_service.Cardinality.Assess.{
  assess, analyze_many, tally_plan, tally_observations, tally_item, add_contribution,
  analyze_observation, identity_of, project, conclude,
}
use outbox_service.Cardinality.Estimate.{
  field_at, bounded_field, code_of, check_name, check_names, safe_multiply, safe_add,
  label_identity, count_label, analyze_named, analyze_label, analyze_labels, labels_of,
  analyze_identified,
}
use outbox_service.Cardinality.Names.{
  normalize_prometheus_metric_name, substitute, is_business_label_name,
}
use outbox_service.Json.{
  get, items_of, text_of, null, text, array, object, item, end_items, field, end_fields, Fields,
}
use outbox_service.Execution.Model.{ChainStatus}
use outbox_service.Cardinality.Model.{CardinalityService}
use outbox_service.Chains.Model.{
  ProcessingChain, SchemaDefinition, Registry, PreparedProcessingChain, Tools,
}
use outbox_service.Chains.Exclusive.{IsCoherent}
use outbox_service.Chains.Activations.{activate_chain-IsActivated}
use outbox_service.Chains.Changes.{start_here, then_step, rebuilds, activates, Steps-IsCoherent}
use outbox_service.Chains.Snapshots.{persist_chain_matches}
use outbox_service.Chains.Prepared.{ArePrepared, prepare_chain-ArePrepared}

abbrev count_document : Fields
count_document =
    field "observations"
      (array (
        item
          (object (
            field "metric_code" (text "orders")
              (field "transform" (text "COUNT") (field "labels" (array end_items) end_fields))))
          end_items))
      end_fields

abbrev tools : Tools
tools = record { compile = λ yaml schema. ok count_document; dumps = λ j. "count" }

abbrev service : CardinalityService
service = record {
  analyze = λ schema. ok [];
  limits = record {
    event_type_series_budget = 200;
    event_type_series_warning = 160;
    max_metric_series_estimate = 1000;
  };
}

abbrev order_schema : SchemaDefinition
order_schema = record { id = 3; event_type_id = 2; json_schema = null }

abbrev start : Registry
start = record {
  event_types = 2 ∷ [];
  schemas = order_schema ∷ [];
  versions =
      record {
        id = 8;
        metric_definition_id = 6;
        yaml_version_number = 1;
        yaml_content = "metrics";
        is_active = true;
        definition_event_type_id = 2;
        definition_is_active = true;
      }
      ∷ [];
  compatibilities = record { metric_definition_version_id = 8; schema_definition_id = 3 } ∷ [];
  chains = [];
  plans = [];
  next_chain_id = 1;
  next_plan_id = 1;
}

abbrev snapshot : PreparedProcessingChain
snapshot = record {
  event_type_id = 2;
  schema_definition_id = 3;
  plans =
      record {
        metric_definition_id = 6;
        metric_definition_version_id = 8;
        compiled_plan_json = count_document;
      }
      ∷ [];
}

abbrev draft_chain : ProcessingChain
draft_chain = record {
  id = 1;
  event_type_id = 2;
  schema_definition_id = 3;
  version_number = 1;
  status = ChainStatus.draft;
  is_active = false;
  valid_from = none;
  valid_to = none;
  activated_at = none;
}

abbrev drafted : Registry
drafted = record start {
  chains = draft_chain ∷ [];
  plans =
      record {
        id = 1;
        processing_chain_id = 1;
        metric_definition_id = 6;
        metric_definition_version_id = 8;
        position = 0;
        is_active = true;
        compiled_plan_json = object count_document;
      }
      ∷ [];
  next_chain_id = 2;
  next_plan_id = 2;
}

abbrev active_chain : ProcessingChain
active_chain = record draft_chain {
  status = ChainStatus.active;
  is_active = true;
  valid_from = some 50;
  activated_at = some 50;
}

abbrev running : Registry
running = record drafted { chains = active_chain ∷ [] }

snapshot_is_prepared :
    prepare_chain tools 2 order_schema start (find_latest_compatible_versions 2 3 start)
    ≡ ok snapshot
unfolding scalar_one_or_none add_chain find_active newest_first list_by_scope by_schema
    list_active_by_event_type number_after find_next_version_number add_plans by_position
    list_by_chain_id list_active_by_chain_id is_compatible by_definition is_candidate is_latest
    find_latest_compatible_versions find_by_ids add_code note_code checked_code code_of_observation
    note_observations observations_of note_plans validate_prometheus_identities compiled is_none
    is_null same_signatures has_gap plan_rows persist_chain prepare_plans prepare_chain signature
    signature_for_chain matches_complete_snapshot lock_event_type validate_schema_scope dict_of
    plan_entries active_entries assessed is_error first_error require_safe_cardinality
    plan_documents find_equivalent_draft find_reusable reuse_or_persist rebuild_chain retire_other
    activate_locked switch_chain differ check_chain activate_chain assess analyze_many tally_plan
    tally_observations tally_item add_contribution analyze_observation identity_of project conclude
    field_at bounded_field code_of check_name check_names safe_multiply safe_add label_identity
    count_label analyze_named analyze_label analyze_labels labels_of analyze_identified
    normalize_prometheus_metric_name substitute is_business_label_name get items_of text_of is_empty
snapshot_is_prepared = refl

draft_is_persisted : persist_chain snapshot 1 ChainStatus.draft start ≡ ok (drafted, draft_chain)
unfolding scalar_one_or_none add_chain find_active newest_first list_by_scope by_schema
    list_active_by_event_type number_after find_next_version_number add_plans by_position
    list_by_chain_id list_active_by_chain_id is_compatible by_definition is_candidate is_latest
    find_latest_compatible_versions find_by_ids add_code note_code checked_code code_of_observation
    note_observations observations_of note_plans validate_prometheus_identities compiled is_none
    is_null same_signatures has_gap plan_rows persist_chain prepare_plans prepare_chain signature
    signature_for_chain matches_complete_snapshot lock_event_type validate_schema_scope dict_of
    plan_entries active_entries assessed is_error first_error require_safe_cardinality
    plan_documents find_equivalent_draft find_reusable reuse_or_persist rebuild_chain retire_other
    activate_locked switch_chain differ check_chain activate_chain assess analyze_many tally_plan
    tally_observations tally_item add_contribution analyze_observation identity_of project conclude
    field_at bounded_field code_of check_name check_names safe_multiply safe_add label_identity
    count_label analyze_named analyze_label analyze_labels labels_of analyze_identified
    normalize_prometheus_metric_name substitute is_business_label_name get items_of text_of is_empty
draft_is_persisted = refl

draft_is_built : rebuild_chain tools service 2 3 start ≡ ok (drafted, draft_chain)
unfolding scalar_one_or_none add_chain find_active newest_first list_by_scope by_schema
    list_active_by_event_type number_after find_next_version_number add_plans by_position
    list_by_chain_id list_active_by_chain_id is_compatible by_definition is_candidate is_latest
    find_latest_compatible_versions find_by_ids add_code note_code checked_code code_of_observation
    note_observations observations_of note_plans validate_prometheus_identities compiled is_none
    is_null same_signatures has_gap plan_rows persist_chain prepare_plans prepare_chain signature
    signature_for_chain matches_complete_snapshot lock_event_type validate_schema_scope dict_of
    plan_entries active_entries assessed is_error first_error require_safe_cardinality
    plan_documents find_equivalent_draft find_reusable reuse_or_persist rebuild_chain retire_other
    activate_locked switch_chain differ check_chain activate_chain assess analyze_many tally_plan
    tally_observations tally_item add_contribution analyze_observation identity_of project conclude
    field_at bounded_field code_of check_name check_names safe_multiply safe_add label_identity
    count_label analyze_named analyze_label analyze_labels labels_of analyze_identified
    normalize_prometheus_metric_name substitute is_business_label_name get items_of text_of is_empty
draft_is_built = refl

draft_is_reused : rebuild_chain tools service 2 3 drafted ≡ ok (drafted, draft_chain)
unfolding scalar_one_or_none add_chain find_active newest_first list_by_scope by_schema
    list_active_by_event_type number_after find_next_version_number add_plans by_position
    list_by_chain_id list_active_by_chain_id is_compatible by_definition is_candidate is_latest
    find_latest_compatible_versions find_by_ids add_code note_code checked_code code_of_observation
    note_observations observations_of note_plans validate_prometheus_identities compiled is_none
    is_null same_signatures has_gap plan_rows persist_chain prepare_plans prepare_chain signature
    signature_for_chain matches_complete_snapshot lock_event_type validate_schema_scope dict_of
    plan_entries active_entries assessed is_error first_error require_safe_cardinality
    plan_documents find_equivalent_draft find_reusable reuse_or_persist rebuild_chain retire_other
    activate_locked switch_chain differ check_chain activate_chain assess analyze_many tally_plan
    tally_observations tally_item add_contribution analyze_observation identity_of project conclude
    field_at bounded_field code_of check_name check_names safe_multiply safe_add label_identity
    count_label analyze_named analyze_label analyze_labels labels_of analyze_identified
    normalize_prometheus_metric_name substitute is_business_label_name get items_of text_of is_empty
draft_is_reused = refl

draft_is_activated : activate_chain tools service 50 2 3 1 drafted ≡ ok (running, active_chain)
unfolding scalar_one_or_none add_chain find_active newest_first list_by_scope by_schema
    list_active_by_event_type number_after find_next_version_number add_plans by_position
    list_by_chain_id list_active_by_chain_id is_compatible by_definition is_candidate is_latest
    find_latest_compatible_versions find_by_ids add_code note_code checked_code code_of_observation
    note_observations observations_of note_plans validate_prometheus_identities compiled is_none
    is_null same_signatures has_gap plan_rows persist_chain prepare_plans prepare_chain signature
    signature_for_chain matches_complete_snapshot lock_event_type validate_schema_scope dict_of
    plan_entries active_entries assessed is_error first_error require_safe_cardinality
    plan_documents find_equivalent_draft find_reusable reuse_or_persist rebuild_chain retire_other
    activate_locked switch_chain differ check_chain activate_chain assess analyze_many tally_plan
    tally_observations tally_item add_contribution analyze_observation identity_of project conclude
    field_at bounded_field code_of check_name check_names safe_multiply safe_add label_identity
    count_label analyze_named analyze_label analyze_labels labels_of analyze_identified
    normalize_prometheus_metric_name substitute is_business_label_name get items_of text_of is_empty
draft_is_activated = refl

start-IsCoherent : IsCoherent start
start-IsCoherent = record { keyed = tt; below = tt; lifecycle = tt; exclusive = λ f t. omega arith }

Steps-IsCoherent_example : IsCoherent running
Steps-IsCoherent_example = Steps-IsCoherent start running start-IsCoherent (
    then_step (then_step start_here (rebuilds tools service 2 3 draft_chain draft_is_built))
      (activates tools service 50 2 3 1 active_chain draft_is_activated))

drafted-IsCoherent : IsCoherent drafted
drafted-IsCoherent =
    Steps-IsCoherent start drafted start-IsCoherent
      (then_step start_here (rebuilds tools service 2 3 draft_chain draft_is_built))

activate_chain-IsActivated_example :
    (find_active 2 3 running ≡ ok (some active_chain))
    × (active_chain.id ≡ 1)
    × ((f t : ℕ) → (f == 2 && t == 3) ≡ false → find_active f t running ≡ find_active f t drafted)
activate_chain-IsActivated_example =
    activate_chain-IsActivated tools service 50 2 3 1 drafted running active_chain
      drafted-IsCoherent draft_is_activated

persist_chain_matches_example : matches_complete_snapshot tools 1 snapshot drafted ≡ true
persist_chain_matches_example =
    persist_chain_matches tools snapshot 1 start drafted draft_chain tt draft_is_persisted

prepare_chain-ArePrepared_example :
    (2 ≡ order_schema.event_type_id)
    × (3 ≡ order_schema.id)
    × ArePrepared tools 2 order_schema start
        (find_latest_compatible_versions 2 3 start)
        snapshot.plans
prepare_chain-ArePrepared_example =
    prepare_chain-ArePrepared tools 2 order_schema start (find_latest_compatible_versions 2 3 start)
      snapshot snapshot_is_prepared
