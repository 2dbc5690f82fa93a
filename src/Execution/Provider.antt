-- ===== src/Execution/Provider.antt =====
-- app/services/processing_plan_provider.py, over the queries of
-- app/repositories/processing_chain_repository.py and app/repositories/processing_plan_repository.py.
use outbox_service.Prelude.{
  ℕ, Bool, true, false, not, ◌&&◌, ◌||◌, Option, none, some, List, [], ◌∷◌, Result, ok, err, ◌>>=◌,
  ◌>>◌, raise_if, ◌==◌, ltb, select, any_of, order_by, String,
}
use outbox_service.Execution.Model.{
  ProcessingPlan, ProcessingChain, ChainStatus, active, Compatibility, Store,
}

-- the message is told by the constructor
pub data ConfigurationDefect : Type 0 where
  no_executable_plans no_compiled_plan another_chain incoherent_references no_compatibility :
      ConfigurationDefect

-- `ProcessingPlanConfigurationError`
pub record ConfigurationError : Type 0 where
  pub defect : ConfigurationDefect
  pub processing_chain_id : ℕ
  pub processing_plan_id : Option ℕ

pub record CompiledPlan : Type 0 where
  pub processing_chain_id : ℕ
  pub processing_plan_id : ℕ
  pub metric_definition_id : ℕ
  pub metric_definition_version_id : ℕ
  pub position : ℕ
  pub compiled_plan_json : String

pub record Snapshot : Type 0 where
  pub processing_chain_id : ℕ
  pub plans : List CompiledPlan

is_active_status : ChainStatus → Bool
is_active_status active = true
is_active_status _ = false

in_scope : ℕ → ℕ → ProcessingChain → Bool
unfolding is_active_status
in_scope event_type_id schema_definition_id c =
    c.event_type_id == event_type_id
    && c.schema_definition_id == schema_definition_id
    && c.is_active
    && is_active_status c.status

first : List ProcessingChain → Option ProcessingChain
first [] = none
first (c ∷ cs) = some c

-- `find_active`; at most one chain of a scope is active
unfoldable pub find_active : ℕ → ℕ → List ProcessingChain → Option ProcessingChain
unfolding in_scope first
find_active event_type_id schema_definition_id cs =
    first (select (in_scope event_type_id schema_definition_id) cs)

-- `ORDER BY position, id`
abbrev pub before : ProcessingPlan → ProcessingPlan → Bool
before p q = ltb p.position q.position || p.position == q.position && not (ltb q.id p.id)

-- `list_active_by_chain_id`
unfoldable pub list_active_by_chain_id : ℕ → List ProcessingPlan → List ProcessingPlan
list_active_by_chain_id chain_id ps =
    order_by before (select (λ p. p.processing_chain_id == chain_id && p.is_active) ps)

-- `find_by_version_and_schema(...) is not None`
unfoldable pub is_compatible : ℕ → ℕ → List Compatibility → Bool
is_compatible version_id schema_id =
    any_of
      (λ k. k.metric_definition_version_id == version_id && k.schema_definition_id == schema_id)

abbrev pub defect_of : ConfigurationDefect → ℕ → ℕ → ConfigurationError
defect_of defect chain_id plan_id = record {
  defect = defect;
  processing_chain_id = chain_id;
  processing_plan_id = some plan_id;
}

-- one round of the loop over the plans
unfoldable pub compile_plan :
    List Compatibility → ℕ → ℕ → ℕ → ProcessingPlan → Result ConfigurationError CompiledPlan
compile_plan ks chain_id event_type_id schema_id p = elim p.compiled_plan_json [
  | none ↦ err (defect_of no_compiled_plan chain_id p.id)
  | some document ↦ do
    raise_if (not (p.processing_chain_id == chain_id)) (defect_of another_chain chain_id p.id)
    raise_if
        (not (p.definition_event_type_id == event_type_id)
          || not (p.version_definition_id == p.metric_definition_id))
        (defect_of incoherent_references chain_id p.id)
    raise_if (not (is_compatible p.metric_definition_version_id schema_id ks))
        (defect_of no_compatibility chain_id p.id)
    ok (record {
      processing_chain_id = chain_id;
      processing_plan_id = p.id;
      metric_definition_id = p.metric_definition_id;
      metric_definition_version_id = p.metric_definition_version_id;
      position = p.position;
      compiled_plan_json = document;
    })
]

unfoldable pub compile_plans :
    List Compatibility
    → ℕ
    → ℕ
    → ℕ
    → List ProcessingPlan
    → Result ConfigurationError (List CompiledPlan)
compile_plans ks chain_id event_type_id schema_id [] = ok []
compile_plans ks chain_id event_type_id schema_id (p ∷ ps) = do
  compiled ← compile_plan ks chain_id event_type_id schema_id p
  rest ← compile_plans ks chain_id event_type_id schema_id ps
  ok (compiled ∷ rest)

-- the plans of the active chain
unfoldable pub snapshot_of :
    List Compatibility
    → ℕ
    → ℕ
    → ℕ
    → List ProcessingPlan
    → Result ConfigurationError (Option Snapshot)
snapshot_of ks chain_id event_type_id schema_id [] = err (record {
  defect = no_executable_plans;
  processing_chain_id = chain_id;
  processing_plan_id = none;
})
snapshot_of ks chain_id event_type_id schema_id (p ∷ ps) = do
  plans ← compile_plans ks chain_id event_type_id schema_id (p ∷ ps)
  ok (some (record { processing_chain_id = chain_id; plans = plans }))

-- `get_active_snapshot`
unfoldable pub get_active_snapshot :
    {V : Type 0} → ℕ → ℕ → Store V → Result ConfigurationError (Option Snapshot)
get_active_snapshot event_type_id schema_id s =
    elim (find_active event_type_id schema_id s.chains) [
      | none ↦ ok none
      | some c ↦
          snapshot_of s.compatibilities c.id event_type_id schema_id
            (list_active_by_chain_id c.id s.plans)
    ]
