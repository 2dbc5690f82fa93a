-- ===== src/Chains/Repository.antt =====
-- app/repositories/processing_chain_repository.py, processing_plan_repository.py, and the queries of
-- metric_definition_version_repository.py and metric_definition_version_schema_repository.py.
use outbox_service.Prelude.{
  ℕ, suc, ◌+◌, Bool, true, false, not, ◌&&◌, ◌||◌, Option, none, some, List, [], ◌∷◌, ◌++◌, ◌==◌,
  ltb, leb, select, any_of, all_of, order_by, find_row, put_row, Result, ok, err,
}
use outbox_service.Execution.Model.{ChainStatus}
use outbox_service.Chains.Model.{
  ProcessingChain, ProcessingPlan, MetricDefinitionVersion, Registry, ChainError, multiple_rows,
}

abbrev pub is_chain_status : ChainStatus → ChainStatus → Bool
is_chain_status ChainStatus.draft ChainStatus.draft = true
is_chain_status ChainStatus.incomplete ChainStatus.incomplete = true
is_chain_status ChainStatus.active ChainStatus.active = true
is_chain_status ChainStatus.retired ChainStatus.retired = true
is_chain_status _ _ = false

-- `scalar_one_or_none`
unfoldable pub scalar_one_or_none : {A : Type 0} → List A → Result ChainError (Option A)
scalar_one_or_none [] = ok none
scalar_one_or_none (x ∷ []) = ok (some x)
scalar_one_or_none (x ∷ _ ∷ _) = err multiple_rows

abbrev pub in_scope : ℕ → ℕ → ProcessingChain → Bool
in_scope event_type_id schema_definition_id c =
    c.event_type_id == event_type_id && c.schema_definition_id == schema_definition_id

-- `add`: the row with the next id of the sequence
unfoldable pub add_chain : ProcessingChain → Registry → Registry × ProcessingChain
add_chain c db =
    let row = record c { id = db.next_chain_id } in
    (record db { chains = db.chains ++ row ∷ []; next_chain_id = suc db.next_chain_id }, row)

unfoldable pub find_active : ℕ → ℕ → Registry → Result ChainError (Option ProcessingChain)
unfolding scalar_one_or_none
find_active event_type_id schema_definition_id db = scalar_one_or_none (
    select
      (λ c.
        in_scope event_type_id schema_definition_id c
        && (c.is_active && is_chain_status c.status ChainStatus.active))
      db.chains)

abbrev pub find_chain : ℕ → Registry → Option ProcessingChain
find_chain id db = find_row (λ (c : ProcessingChain). c.id) id db.chains

-- the flush of a changed chain
abbrev pub save_chain : ProcessingChain → Registry → Registry
save_chain c db = record db { chains = put_row (λ (x : ProcessingChain). x.id) c db.chains }

-- newest first
unfoldable pub newest_first : ProcessingChain → ProcessingChain → Bool
newest_first x y =
    ltb y.version_number x.version_number || x.version_number == y.version_number && leb y.id x.id

unfoldable pub list_by_scope : ℕ → ℕ → Registry → List ProcessingChain
unfolding newest_first
list_by_scope event_type_id schema_definition_id db =
    order_by newest_first (select (in_scope event_type_id schema_definition_id) db.chains)

unfoldable pub by_schema : ProcessingChain → ProcessingChain → Bool
by_schema x y =
    ltb x.schema_definition_id y.schema_definition_id
    || x.schema_definition_id == y.schema_definition_id && leb x.id y.id

unfoldable pub list_active_by_event_type : ℕ → Registry → List ProcessingChain
unfolding by_schema
list_active_by_event_type event_type_id db = order_by by_schema (
    select
      (λ c.
        c.event_type_id == event_type_id
        && (c.is_active && is_chain_status c.status ChainStatus.active))
      db.chains)

unfoldable pub number_after : List ProcessingChain → ℕ
number_after [] = 1
number_after (c ∷ _) = c.version_number + 1

-- the query sorts by the version number, downwards
unfoldable pub find_next_version_number : ℕ → ℕ → Registry → ℕ
unfolding number_after
find_next_version_number event_type_id schema_definition_id db = number_after (
    order_by (λ x y. leb y.version_number x.version_number)
      (select (in_scope event_type_id schema_definition_id) db.chains))

-- `add_all`: the rows get the next ids in their order
unfoldable pub add_plans : List ProcessingPlan → Registry → Registry
add_plans [] db = db
add_plans (p ∷ ps) db = add_plans ps (record db {
  plans = db.plans ++ record p { id = db.next_plan_id } ∷ [];
  next_plan_id = suc db.next_plan_id;
})

unfoldable pub by_position : ProcessingPlan → ProcessingPlan → Bool
by_position x y = ltb x.position y.position || x.position == y.position && leb x.id y.id

unfoldable pub list_by_chain_id : ℕ → Registry → List ProcessingPlan
unfolding by_position
list_by_chain_id chain_id db =
    order_by by_position (select (λ p. p.processing_chain_id == chain_id) db.plans)

unfoldable pub list_active_by_chain_id : ℕ → Registry → List ProcessingPlan
unfolding by_position
list_active_by_chain_id chain_id db =
    order_by by_position (select (λ p. p.processing_chain_id == chain_id && p.is_active) db.plans)

-- `find_by_version_and_schema`: whether there is a row; the two ids are its key
unfoldable pub is_compatible : ℕ → ℕ → Registry → Bool
is_compatible version_id schema_id db =
    any_of
      (λ x. x.metric_definition_version_id == version_id && x.schema_definition_id == schema_id)
      db.compatibilities

-- the sort key (metric_definition_id, yaml_version_number, id)
unfoldable pub by_definition : MetricDefinitionVersion → MetricDefinitionVersion → Bool
by_definition x y =
    ltb x.metric_definition_id y.metric_definition_id
    || x.metric_definition_id == y.metric_definition_id
      && (ltb x.yaml_version_number y.yaml_version_number
          || x.yaml_version_number == y.yaml_version_number && leb x.id y.id)

-- the `WHERE` of the subquery
unfoldable pub is_candidate : ℕ → ℕ → Registry → MetricDefinitionVersion → Bool
unfolding is_compatible
is_candidate event_type_id schema_definition_id db v =
    v.definition_event_type_id == event_type_id
    && v.definition_is_active
    && v.is_active
    && is_compatible v.id schema_definition_id db

-- the join: the number is the greatest of the candidates of the same definition
unfoldable pub is_latest : List MetricDefinitionVersion → MetricDefinitionVersion → Bool
is_latest candidates v =
    any_of
      (λ x.
        x.metric_definition_id == v.metric_definition_id
        && x.yaml_version_number == v.yaml_version_number)
      candidates
    && all_of
        (λ x.
          not (x.metric_definition_id == v.metric_definition_id)
          || leb x.yaml_version_number v.yaml_version_number)
        candidates

unfoldable pub find_latest_compatible_versions : ℕ → ℕ → Registry → List MetricDefinitionVersion
unfolding is_candidate is_latest
find_latest_compatible_versions event_type_id schema_definition_id db =
    order_by (λ x y. leb x.metric_definition_id y.metric_definition_id)
      (select (is_latest (select (is_candidate event_type_id schema_definition_id db) db.versions))
        db.versions)

unfoldable pub find_by_ids : List ℕ → Registry → List MetricDefinitionVersion
unfolding by_definition
find_by_ids ids db = order_by by_definition (select (λ v. any_of (λ i. i == v.id) ids) db.versions)
