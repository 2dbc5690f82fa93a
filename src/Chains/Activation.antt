-- ===== src/Chains/Activation.antt =====
-- `rebuild_chain` and `activate_chain` of app/services/processing_chain_activation_service.py. An error
-- rolls the transaction back: nothing is stored.
use outbox_service.Prelude.{
  ℕ, Bool, true, false, not, ◌&&◌, ◌||◌, Option, none, some, List, [], ◌∷◌, map, if◌then◌else◌,
  ◌==◌, length, Result, ok, ◌>>=◌, ◌>>◌, raise_if, or_raise,
}
use outbox_service.Json.{Fields}
use outbox_service.Execution.Model.{ChainStatus}
use outbox_service.Cardinality.Model.{CardinalityService}
use outbox_service.Chains.Model.{
  ProcessingChain, ProcessingPlan, SchemaDefinition, Registry, PreparedProcessingChain, Tools,
  ChainError, configuration_scope, chain_not_found, chain_incomplete, malformed,
}
use outbox_service.Chains.Repository.{
  is_chain_status, find_active, find_chain, save_chain, list_by_scope, find_next_version_number,
  list_by_chain_id, find_latest_compatible_versions, find_by_ids,
}
use outbox_service.Chains.Builder.{has_gap, persist_chain, prepare_chain, matches_complete_snapshot}
use outbox_service.Chains.Service.{
  find_schema, lock_event_type, validate_schema_scope, dict_of, require_safe_cardinality,
}

-- `[plan.compiled_plan_json for plan in plans]`, of which the assessment takes dicts
unfoldable pub plan_documents : List ProcessingPlan → Result ChainError (List Fields)
plan_documents [] = ok []
plan_documents (p ∷ ps) =
    dict_of malformed p.compiled_plan_json >>= λ fs. plan_documents ps >>= λ rest. ok (fs ∷ rest)

-- the loop of `_find_equivalent_draft`
unfoldable pub find_equivalent_draft :
    Tools → PreparedProcessingChain → Registry → List ProcessingChain → Option ProcessingChain
find_equivalent_draft tools prepared db [] = none
find_equivalent_draft tools prepared db (c ∷ cs) =
    let rest = find_equivalent_draft tools prepared db cs in
    if not (is_chain_status c.status ChainStatus.draft) || c.is_active
    then rest
    else if matches_complete_snapshot tools c.id prepared db
    then some c
    else rest

-- the active chain, if it `_matches`, or an equivalent draft
unfoldable pub find_reusable :
    Tools → PreparedProcessingChain → Registry → Option ProcessingChain → Option ProcessingChain
unfolding find_equivalent_draft
find_reusable tools prepared db none =
    find_equivalent_draft tools prepared db
      (list_by_scope prepared.event_type_id prepared.schema_definition_id db)
find_reusable tools prepared db (some active) =
    if matches_complete_snapshot tools active.id prepared db
    then some active
    else find_equivalent_draft tools prepared db
        (list_by_scope prepared.event_type_id prepared.schema_definition_id db)

-- what is reused, or a new draft
unfoldable pub reuse_or_persist :
    PreparedProcessingChain
    → Registry
    → Option ProcessingChain
    → Result ChainError (Registry × ProcessingChain)
reuse_or_persist prepared db (some chain) = ok (db, chain)
reuse_or_persist prepared db none =
    persist_chain prepared
      (find_next_version_number prepared.event_type_id prepared.schema_definition_id db)
      ChainStatus.draft db

unfoldable pub rebuild_chain :
    Tools → CardinalityService → ℕ → ℕ → Registry → Result ChainError (Registry × ProcessingChain)
unfolding reuse_or_persist find_reusable
rebuild_chain tools cardinality event_type_id schema_definition_id db = do
  lock_event_type event_type_id db
  schema ← validate_schema_scope (find_schema schema_definition_id db) event_type_id
  prepared ←
      prepare_chain tools event_type_id schema db
        (find_latest_compatible_versions event_type_id schema_definition_id db)
  require_safe_cardinality cardinality event_type_id schema
      (map (λ plan. plan.compiled_plan_json) prepared.plans) db
  current_active ← find_active event_type_id schema_definition_id db
  reuse_or_persist prepared db (find_reusable tools prepared db current_active)

abbrev pub retired_chain : ℕ → ProcessingChain → ProcessingChain
retired_chain now c = record c {
  is_active = false;
  status = ChainStatus.retired;
  valid_to = some now;
}

abbrev pub activated_chain : ℕ → ProcessingChain → ProcessingChain
activated_chain now c = record c {
  is_active = true;
  status = ChainStatus.active;
  valid_from = some now;
  valid_to = none;
  activated_at = some now;
}

unfoldable pub retire_other : ℕ → ProcessingChain → Option ProcessingChain → Registry → Registry
retire_other now chain none db = db
retire_other now chain (some current_active) db =
    if current_active.id == chain.id then db else save_chain (retired_chain now current_active) db

-- `_activate_locked`
unfoldable pub activate_locked : ℕ → ProcessingChain → Option ProcessingChain → Registry → Registry
unfolding retire_other
activate_locked now chain current_active db =
    save_chain (activated_chain now chain) (retire_other now chain current_active db)

-- the switch, unless the chain is active
unfoldable pub switch_chain :
    ℕ → ℕ → ℕ → ProcessingChain → Registry → Result ChainError (Registry × ProcessingChain)
switch_chain now event_type_id schema_definition_id chain db = elim chain.is_active [
  | true ↦ ok (db, chain)
  | false ↦ find_active event_type_id schema_definition_id db >>= λ current_active.
      ok (activate_locked now chain current_active db, activated_chain now chain)
]

-- `a != b`
unfoldable pub differ : Bool → Bool → Bool
differ true b = not b
differ false b = b

-- the tests of the chain and its plans
unfoldable pub check_chain :
    Tools
    → CardinalityService
    → ℕ
    → ℕ
    → SchemaDefinition
    → ProcessingChain
    → Registry
    → Result ChainError (Unit {0})
check_chain tools cardinality event_type_id schema_definition_id schema chain db = do
  raise_if
      (not (chain.event_type_id == event_type_id)
        || not (chain.schema_definition_id == schema_definition_id))
      configuration_scope
  raise_if (differ chain.is_active (is_chain_status chain.status ChainStatus.active))
      chain_incomplete
  raise_if (not chain.is_active && not (is_chain_status chain.status ChainStatus.draft))
      chain_incomplete
  let plans = list_by_chain_id chain.id db
  raise_if (has_gap plans) chain_incomplete
  let metric_versions = find_by_ids (map (λ plan. plan.metric_definition_version_id) plans) db
  raise_if (not (length metric_versions == length plans)) chain_incomplete
  canonical_snapshot ← prepare_chain tools event_type_id schema db metric_versions
  raise_if (not (matches_complete_snapshot tools chain.id canonical_snapshot db)) chain_incomplete
  candidate_plans ← plan_documents plans
  require_safe_cardinality cardinality event_type_id schema candidate_plans db

unfoldable pub activate_chain :
    Tools
    → CardinalityService
    → ℕ
    → ℕ
    → ℕ
    → ℕ
    → Registry
    → Result ChainError (Registry × ProcessingChain)
unfolding check_chain switch_chain
activate_chain tools cardinality now event_type_id schema_definition_id processing_chain_id db = do
  lock_event_type event_type_id db
  schema ← validate_schema_scope (find_schema schema_definition_id db) event_type_id
  chain ← or_raise (find_chain processing_chain_id db) chain_not_found
  check_chain tools cardinality event_type_id schema_definition_id schema chain db
  switch_chain now event_type_id schema_definition_id chain db
