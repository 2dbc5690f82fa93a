-- ===== src/Chains/Changes.antt =====
-- Rebuilds and activations, in any order, keep the table of chains coherent.
use outbox_service.Prelude.{
  ℕ, suc, ◌<◌, ◌≡◌, refl, sym, subst, ap, ◌∙◌, false, Option, List, [], ◌∷◌, ◌++◌, ok, raise_if,
  arith, inl, inr, Option-cases, ◌⊎◌, map, All-map, All-append, select, OnOk, OnOk-bind, OnOk-eq,
  OnOk-mono,
}
use outbox_service.Execution.Model.{ChainStatus}
use outbox_service.Cardinality.Model.{CardinalityService}
use outbox_service.Chains.Model.{
  ProcessingChain, ProcessingPlan, SchemaDefinition, Registry, PreparedProcessingChain, Tools,
  selection,
}
use outbox_service.Chains.Repository.{
  add_chain, add_plans, find_active, find_next_version_number, scalar_one_or_none,
  find_latest_compatible_versions,
}
use outbox_service.Chains.Builder.{persist_chain, plan_rows, prepare_chain, is_none}
use outbox_service.Chains.Service.{
  find_schema, lock_event_type, validate_schema_scope, require_safe_cardinality,
}
use outbox_service.Chains.Activation.{
  find_reusable, reuse_or_persist, rebuild_chain, activate_chain,
}
use outbox_service.Chains.Exclusive.{id_of, claims, IsLifecycle, IsCoherent, find_active-claims}
use outbox_service.Chains.Selections.{select-append_out, append-IsKeyed}
use outbox_service.Chains.Activations.{activate_chain-IsCoherent}

add_plans_rest :
    (ps : List ProcessingPlan) (db : Registry)
    → ((add_plans ps db).chains ≡ db.chains) × ((add_plans ps db).next_chain_id ≡ db.next_chain_id)
unfolding add_plans
add_plans_rest [] db = (refl, refl)
add_plans_rest (p ∷ ps) db = add_plans_rest ps _

-- one inactive chain more, with the next id
abbrev IsDrafted : Registry → Registry × ProcessingChain → Type 0
IsDrafted db (db', c) =
    (db'.chains ≡ db.chains ++ c ∷ [])
    × (db'.next_chain_id ≡ suc db.next_chain_id)
    × (c.id ≡ db.next_chain_id)
    × (c.is_active ≡ false)
    × IsLifecycle c

persist_chain-IsDrafted :
    (prepared : PreparedProcessingChain) (number : ℕ) (db : Registry)
    → OnOk (IsDrafted db) (persist_chain prepared number ChainStatus.draft db)
unfolding persist_chain add_chain
persist_chain-IsDrafted prepared number db =
    OnOk-bind (IsDrafted db) (raise_if (is_none prepared.plans) selection) _ (λ _ _.
      let rest = add_plans_rest (plan_rows db.next_chain_id 0 prepared.plans) _ in
      (rest.0, rest.1, refl, refl, refl))

-- the index has no row for a draft
drafted_claims :
    (f t : ℕ) (db : Registry) (c : ProcessingChain)
    → c.is_active ≡ false
    → select (claims f t) (db.chains ++ c ∷ []) ≡ select (claims f t) db.chains
drafted_claims f t db c idle =
    select-append_out id_of (claims f t) db.chains c (ground (arith, idle))

drafted-IsCoherent :
    (db db' : Registry) (c : ProcessingChain)
    → IsCoherent db
    → IsDrafted db (db', c)
    → IsCoherent db'
drafted-IsCoherent db db' c coherent (rows, next, new, idle, lifecycle) = record {
  keyed =
      rw rows (append-IsKeyed id_of db.chains c db.next_chain_id coherent.below new coherent.keyed);
  below =
      rw (rows, next)
        (All-append (λ x. x.id < suc db.next_chain_id) db.chains (c ∷ [])
          (All-map (λ x (h : x.id < db.next_chain_id). omega arith) db.chains coherent.below)
          (omega (arith, new), tt));
  lifecycle =
      rw rows (All-append IsLifecycle db.chains (c ∷ []) coherent.lifecycle (lifecycle, tt));
  exclusive =
      λ f t. let before = coherent.exclusive f t in rw (rows, drafted_claims f t db c idle) before;
}

module _ (tools : Tools) (cardinality : CardinalityService) (e s : ℕ) (db : Registry) where
  -- what holds of a reused chain and of a new draft holds of the rebuild
  pub rebuild_chain_elim {κ} :
      (P : Registry × ProcessingChain → Type κ)
      → ((schema : SchemaDefinition) (prepared : PreparedProcessingChain)
            (cur : Option ProcessingChain)
          → find_active e s db ≡ ok cur
          → OnOk P (reuse_or_persist prepared db (find_reusable tools prepared db cur)))
      → OnOk P (rebuild_chain tools cardinality e s db)
  unfolding rebuild_chain
  rebuild_chain_elim P h = OnOk-bind P (lock_event_type e db) _ (λ _ _.
      OnOk-bind P (validate_schema_scope (find_schema s db) e) _ (λ schema _.
        OnOk-bind P (prepare_chain tools e schema db (find_latest_compatible_versions e s db)) _
          (λ prepared _.
            OnOk-bind P
              (require_safe_cardinality cardinality e schema
                (map (λ plan. plan.compiled_plan_json) prepared.plans) db)
              _
              (λ _ _.
                OnOk-bind P (find_active e s db) _ (λ cur answer. h schema prepared cur answer)))))

  -- the table as it was, or with one draft more
  Rebuilt : Registry × ProcessingChain → Type 0
  Rebuilt (db', c) = (db' ≡ db) ⊎ IsDrafted db (db', c)

  rebuild_chain-Rebuilt : OnOk Rebuilt (rebuild_chain tools cardinality e s db)
  unfolding reuse_or_persist Rebuilt
  rebuild_chain-Rebuilt = rebuild_chain_elim Rebuilt (λ schema prepared cur answer.
      elim (Option-cases (find_reusable tools prepared db cur)) [
        | inr (c, found) ↦ rw found (inl refl)
        | inl absent ↦
            let number =
              find_next_version_number prepared.event_type_id prepared.schema_definition_id db in
            rw absent (
              OnOk-mono (IsDrafted db) Rebuilt (persist_chain prepared number ChainStatus.draft db)
                (λ a drafted. inr drafted) (persist_chain-IsDrafted prepared number db))
      ])

  -- If the table is coherent, a rebuild leaves every scope the active chain that it had, whatever it
  -- stores.
  pub rebuild_chain_keeps_active :
      (db' : Registry) (c : ProcessingChain)
      → IsCoherent db
      → rebuild_chain tools cardinality e s db ≡ ok (db', c)
      → (f t : ℕ) → find_active f t db' ≡ find_active f t db
  unfolding Rebuilt
  rebuild_chain_keeps_active db' c coherent returned f t =
      elim (OnOk-eq Rebuilt (rebuild_chain tools cardinality e s db) rebuild_chain-Rebuilt
        returned) [
          | inl same ↦ ap (find_active f t) same
          | inr drafted ↦
              let after = drafted-IsCoherent db db' c coherent drafted in
              let rows =
                ap (λ l. select (claims f t) l) drafted.0 ∙ drafted_claims f t db c drafted.3 in
              find_active-claims f t db' after.lifecycle
              ∙ ap scalar_one_or_none rows
              ∙ sym (find_active-claims f t db coherent.lifecycle)
        ]

  rebuild_chain-IsCoherent :
      (db' : Registry) (c : ProcessingChain)
      → IsCoherent db
      → rebuild_chain tools cardinality e s db ≡ ok (db', c)
      → IsCoherent db'
  unfolding Rebuilt
  rebuild_chain-IsCoherent db' c coherent returned =
      elim (OnOk-eq Rebuilt (rebuild_chain tools cardinality e s db) rebuild_chain-Rebuilt
        returned) [
          | inl same ↦ subst IsCoherent (sym same) coherent
          | inr drafted ↦ drafted-IsCoherent db db' c coherent drafted
        ]

-- A request that returns; one that raises stores nothing.
pub data Step : Registry → Registry → Type 0 where
  rebuilds :
      {db db' : Registry} (tools : Tools) (cardinality : CardinalityService) (e s : ℕ)
      (c : ProcessingChain)
      → rebuild_chain tools cardinality e s db ≡ ok (db', c)
      → Step db db'
  activates :
      {db db' : Registry} (tools : Tools) (cardinality : CardinalityService) (now e s id : ℕ)
      (c : ProcessingChain)
      → activate_chain tools cardinality now e s id db ≡ ok (db', c)
      → Step db db'

pub data Steps : Registry → Registry → Type 0 where
  start_here : {db : Registry} → Steps db db
  then_step : {db db' db'' : Registry} → Steps db db' → Step db' db'' → Steps db db''

Step-IsCoherent : (db db' : Registry) → IsCoherent db → Step db db' → IsCoherent db'
Step-IsCoherent db db' coherent (rebuilds tools cardinality e s c returned) =
    rebuild_chain-IsCoherent tools cardinality e s db db' c coherent returned
Step-IsCoherent db db' coherent (activates tools cardinality now e s id c returned) =
    OnOk-eq (λ (a : Registry × ProcessingChain). IsCoherent a.0)
      (activate_chain tools cardinality now e s id db)
      (activate_chain-IsCoherent tools cardinality now e s id db coherent) returned

-- From a coherent table, any sequence of rebuilds and activations leads to a coherent one: at most
-- one chain of a scope is active, so that the unique index of the active chains never fails.
pub Steps-IsCoherent : (db db' : Registry) → IsCoherent db → Steps db db' → IsCoherent db'
Steps-IsCoherent db db' coherent start_here = coherent
Steps-IsCoherent db db' coherent (then_step before last) =
    Step-IsCoherent _ db' (Steps-IsCoherent db _ coherent before) last
