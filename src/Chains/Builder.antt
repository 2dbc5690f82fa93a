-- ===== src/Chains/Builder.antt =====
-- app/services/processing_chain_builder_service.py.
use outbox_service.Prelude.{
  ℕ, suc, Bool, true, false, not, ◌&&◌, ◌||◌, Option, none, some, List, [], ◌∷◌, ◌++◌, String, map,
  if◌then◌else◌, ◌==◌, str_eq, any_of, order_by, is_empty, length, ltb, Result, ok, err, ◌>>=◌,
  ◌>>◌, raise_if,
}
use outbox_service.Json.{Json, null, text, array, object, Fields, get, items_of}
use outbox_service.Cardinality.Names.{normalize_prometheus_metric_name}
use outbox_service.Execution.Model.{ChainStatus}
use outbox_service.Chains.Model.{
  ProcessingChain, ProcessingPlan, MetricDefinitionVersion, SchemaDefinition, Registry,
  PreparedProcessingPlan, PreparedProcessingChain, PlanSignature, Tools, ChainError, selection,
  prometheus_collision, malformed, compilation,
}
use outbox_service.Chains.Repository.{
  add_chain, add_plans, list_by_chain_id, is_compatible, by_definition, is_chain_status,
}

-- `source_codes`: the codes that have a name
abbrev pub SourceCodes : Type 0
SourceCodes = List (String × List String)

-- `set.add`
unfoldable pub add_code : String → List String → List String
add_code code codes = if any_of (str_eq code) codes then codes else codes ++ code ∷ []

-- `source_codes.setdefault(final_name, set()).add(metric_code)`
unfoldable pub note_code : String → String → SourceCodes → SourceCodes
unfolding add_code
note_code name code [] = (name, code ∷ []) ∷ []
note_code name code ((n, codes) ∷ rest) =
    if str_eq name n then (n, add_code code codes) ∷ rest else (n, codes) ∷ note_code name code rest

-- a metric code that is a `str` and not empty
unfoldable pub checked_code : Option Json → Result ChainError String
checked_code (some (text code)) = if is_empty code then err selection else ok code
checked_code _ = err selection

unfoldable pub code_of_observation : Json → Result ChainError String
unfolding checked_code
code_of_observation (object fs) = checked_code (get "metric_code" fs)
code_of_observation _ = err malformed

-- the loop over the observations of a plan
unfoldable pub note_observations : List Json → SourceCodes → Result ChainError SourceCodes
unfolding note_code
note_observations [] codes = ok codes
note_observations (o ∷ os) codes = code_of_observation o >>= λ code.
    note_observations os (note_code (normalize_prometheus_metric_name code) code codes)

-- `plan.compiled_plan_json.get("observations", [])`
unfoldable pub observations_of : Option Json → Result ChainError (List Json)
observations_of none = ok []
observations_of (some (array os)) = ok (items_of os)
observations_of (some _) = err malformed

-- the loop over the plans
unfoldable pub note_plans :
    List PreparedProcessingPlan → SourceCodes → Result ChainError SourceCodes
note_plans [] codes = ok codes
note_plans (p ∷ ps) codes = observations_of (get "observations" p.compiled_plan_json) >>= λ os.
    note_observations os codes >>= note_plans ps

-- `_validate_prometheus_identities`
unfoldable pub validate_prometheus_identities :
    List PreparedProcessingPlan → Result ChainError (Unit {0})
validate_prometheus_identities plans = note_plans plans [] >>= λ source_codes.
    raise_if (any_of (λ entry. ltb 1 (length entry.1)) source_codes) prometheus_collision

-- an error of the compiler is passed on
unfoldable pub compiled : Result String Fields → Result ChainError Fields
compiled (ok fs) = ok fs
compiled (err e) = err (compilation e)

-- `not xs`
unfoldable pub is_none : {A : Type 0} → List A → Bool
is_none [] = true
is_none (_ ∷ _) = false

unfoldable pub is_null : Json → Bool
is_null null = true
is_null _ = false

unfoldable pub same_signatures : List PlanSignature → List PlanSignature → Bool
same_signatures [] [] = true
same_signatures (x ∷ xs) (y ∷ ys) =
    (x.metric_definition_id == y.metric_definition_id
      && x.metric_definition_version_id == y.metric_definition_version_id
      && str_eq x.plan_text y.plan_text)
    && same_signatures xs ys
same_signatures _ _ = false

-- `not plans or any(...)`
unfoldable pub has_gap : List ProcessingPlan → Bool
unfolding is_none is_null
has_gap plans = is_none plans || any_of (λ p. not p.is_active || is_null p.compiled_plan_json) plans

-- the rows of a prepared chain, from a position on
unfoldable pub plan_rows : ℕ → ℕ → List PreparedProcessingPlan → List ProcessingPlan
plan_rows chain_id position [] = []
plan_rows chain_id position (p ∷ ps) =
    record {
      id = 0;
      processing_chain_id = chain_id;
      metric_definition_id = p.metric_definition_id;
      metric_definition_version_id = p.metric_definition_version_id;
      position = position;
      is_active = true;
      compiled_plan_json = object p.compiled_plan_json;
    }
    ∷ plan_rows chain_id (suc position) ps

-- `persist_chain`; the id of a row is that of its insertion
unfoldable pub persist_chain :
    PreparedProcessingChain
    → ℕ
    → ChainStatus
    → Registry
    → Result ChainError (Registry × ProcessingChain)
unfolding is_none plan_rows
persist_chain prepared version_number status db = do
  raise_if
      (not (is_chain_status status ChainStatus.draft)
        && not (is_chain_status status ChainStatus.incomplete))
      selection
  raise_if (is_none prepared.plans) selection
  let (db', chain) =
      add_chain
        (record {
          id = 0;
          event_type_id = prepared.event_type_id;
          schema_definition_id = prepared.schema_definition_id;
          version_number = version_number;
          status = status;
          is_active = false;
          valid_from = none;
          valid_to = none;
          activated_at = none;
        })
        db
  ok (add_plans (plan_rows chain.id 0 prepared.plans) db', chain)

module _ (tools : Tools) where
  module _ (event_type_id : ℕ) (schema : SchemaDefinition) (db : Registry) where
    -- the loop over the versions, with `seen_metric_definitions`
    unfoldable pub prepare_plans :
        List MetricDefinitionVersion → List ℕ → Result ChainError (List PreparedProcessingPlan)
    prepare_plans [] seen = ok []
    prepare_plans (v ∷ vs) seen = do
      raise_if (not (v.definition_event_type_id == event_type_id)) selection
      raise_if (any_of (λ i. i == v.metric_definition_id) seen) selection
      raise_if (not (is_compatible v.id schema.id db)) selection
      plan ← compiled (tools.compile v.yaml_content schema.json_schema)
      plans ← prepare_plans vs (v.metric_definition_id ∷ seen)
      ok (
          record {
            metric_definition_id = v.metric_definition_id;
            metric_definition_version_id = v.id;
            compiled_plan_json = plan;
          }
          ∷ plans)

    unfoldable pub prepare_chain :
        List MetricDefinitionVersion → Result ChainError PreparedProcessingChain
    prepare_chain versions = do
      raise_if (not (schema.event_type_id == event_type_id)) selection
      raise_if (is_none versions) selection
      plans ← prepare_plans (order_by by_definition versions) []
      validate_prometheus_identities plans
      ok (record { event_type_id = event_type_id; schema_definition_id = schema.id; plans = plans })

  -- `signature`
  unfoldable pub signature : PreparedProcessingChain → List PlanSignature
  signature prepared =
      map
        (λ plan. record {
          metric_definition_id = plan.metric_definition_id;
          metric_definition_version_id = plan.metric_definition_version_id;
          plan_text = tools.dumps (object plan.compiled_plan_json);
        })
        prepared.plans

  abbrev pub signature_of_plans : List ProcessingPlan → List PlanSignature
  signature_of_plans = map (λ plan. record {
    metric_definition_id = plan.metric_definition_id;
    metric_definition_version_id = plan.metric_definition_version_id;
    plan_text = tools.dumps plan.compiled_plan_json;
  })

  unfoldable pub signature_for_chain : ℕ → Registry → List PlanSignature
  signature_for_chain chain_id db = signature_of_plans (list_by_chain_id chain_id db)

  unfoldable pub matches_complete_snapshot : ℕ → PreparedProcessingChain → Registry → Bool
  unfolding has_gap signature_for_chain signature same_signatures
  matches_complete_snapshot chain_id prepared db =
      not (has_gap (list_by_chain_id chain_id db))
      && same_signatures (signature_for_chain chain_id db) (signature prepared)
