-- ===== src/Chains/Snapshots.antt =====
-- A stored snapshot is what was prepared.
use mathlib.Core.List.{append_assoc, append-nil}
use outbox_service.Prelude.{
  ℕ, suc, ◌<◌, ◌≡◌, refl, sym, ap, ◌∙◌, true, false, not, ◌||◌, List, [], ◌∷◌, ◌++◌, ok, ◌==◌,
  ==_refl, eq_iff, ltb, arith, All, All-map, select, any_of, IsOrdered, order_by_ordered, raise_if,
  raise_if_ok, OnOk-bind, OnOk-eq,
}
use outbox_service.Json.{object}
use outbox_service.Execution.Model.{ChainStatus}
use outbox_service.Chains.Model.{
  ProcessingChain, ProcessingPlan, Registry, PreparedProcessingPlan, PreparedProcessingChain,
  PlanSignature, Tools, selection,
}
use outbox_service.Chains.Repository.{add_chain, add_plans, by_position, list_by_chain_id}
use outbox_service.Chains.Builder.{
  is_none, is_null, has_gap, plan_rows, persist_chain, signature, signature_of_plans,
  signature_for_chain, same_signatures, matches_complete_snapshot,
}

-- rows with the ids that their insertion gives them
abbrev numbered : ℕ → List ProcessingPlan → List ProcessingPlan
numbered id [] = []
numbered id (p ∷ ps) = record p { id = id } ∷ numbered (suc id) ps

add_plans_plans :
    (ps : List ProcessingPlan) (db : Registry)
    → (add_plans ps db).plans ≡ db.plans ++ numbered db.next_plan_id ps
unfolding add_plans
add_plans_plans [] db = sym (append-nil db.plans)
add_plans_plans (p ∷ ps) db =
    add_plans_plans ps _
    ∙ append_assoc db.plans (record p { id = db.next_plan_id } ∷ [])
        (numbered (suc db.next_plan_id) ps)

module _ (chain_id : ℕ) where
  -- the query finds the new rows
  select_rows :
      (id position : ℕ) (ps : List PreparedProcessingPlan) (old : List ProcessingPlan)
      → All (λ (p : ProcessingPlan). p.processing_chain_id < chain_id) old
      → select
          (λ (p : ProcessingPlan). p.processing_chain_id == chain_id)
          (old ++ numbered id (plan_rows chain_id position ps))
        ≡ numbered id (plan_rows chain_id position ps)
  unfolding plan_rows
  select_rows id position [] [] h = refl
  select_rows id position (p ∷ ps) [] h =
      let row : ProcessingPlan = record {
        id = id;
        processing_chain_id = chain_id;
        metric_definition_id = p.metric_definition_id;
        metric_definition_version_id = p.metric_definition_version_id;
        position = position;
        is_active = true;
        compiled_plan_json = object p.compiled_plan_json;
      } in
      rw (==_refl chain_id) (ap (λ l. row ∷ l) (select_rows (suc id) (suc position) ps [] tt))
  select_rows id position ps (o ∷ old) h =
      let away : (o.processing_chain_id == chain_id) ≡ false = ground (arith, h.0) in
      rw away (select_rows id position ps old h.1)

  rows_after :
      (id position first : ℕ) (ps : List PreparedProcessingPlan)
      → first < position
      → All
          (λ (q : ProcessingPlan). ltb first q.position ≡ true)
          (numbered id (plan_rows chain_id position ps))
  unfolding plan_rows
  rows_after id position first [] h = tt
  rows_after id position first (p ∷ ps) h =
      (ground (arith, h), rows_after (suc id) (suc position) first ps (omega (arith, h)))

  rows-IsOrdered :
      (id position : ℕ) (ps : List PreparedProcessingPlan)
      → IsOrdered by_position (numbered id (plan_rows chain_id position ps))
  unfolding plan_rows by_position
  rows-IsOrdered id position [] = tt
  rows-IsOrdered id position (p ∷ ps) = (
    All-map (λ q (h : ltb position q.position ≡ true). ground (arith, h))
        (numbered (suc id) (plan_rows chain_id (suc position) ps))
        (rows_after (suc id) (suc position) position ps (omega arith)),
    rows-IsOrdered (suc id) (suc position) ps,
  )

  rows_have_no_gap :
      (id position : ℕ) (ps : List PreparedProcessingPlan)
      → any_of
          (λ (p : ProcessingPlan). not p.is_active || is_null p.compiled_plan_json)
          (numbered id (plan_rows chain_id position ps))
        ≡ false
  unfolding plan_rows is_null
  rows_have_no_gap id position [] = refl
  rows_have_no_gap id position (p ∷ ps) = rows_have_no_gap (suc id) (suc position) ps

same_signatures_refl : (xs : List PlanSignature) → same_signatures xs xs ≡ true
unfolding same_signatures
same_signatures_refl [] = refl
same_signatures_refl (x ∷ xs) =
    ground (arith, eq_iff x.plan_text x.plan_text, same_signatures_refl xs)

module _ (tools : Tools) where
  rows_signature :
      (chain_id id position : ℕ) (ps : List PreparedProcessingPlan) (e s : ℕ)
      → signature_of_plans tools (numbered id (plan_rows chain_id position ps))
        ≡ signature tools (record { event_type_id = e; schema_definition_id = s; plans = ps })
  unfolding plan_rows signature
  rows_signature chain_id id position [] e s = refl
  rows_signature chain_id id position (p ∷ ps) e s =
      ap
        (λ (l : List PlanSignature).
          record {
            metric_definition_id = p.metric_definition_id;
            metric_definition_version_id = p.metric_definition_version_id;
            plan_text = tools.dumps (object p.compiled_plan_json);
          }
          ∷ l)
        (rows_signature chain_id (suc id) (suc position) ps e s)

  rows_complete :
      (chain_id id : ℕ) (ps : List PreparedProcessingPlan)
      → is_none ps ≡ false
      → has_gap (numbered id (plan_rows chain_id 0 ps)) ≡ false
  unfolding has_gap is_none plan_rows
  rows_complete chain_id id [] h = cc
  rows_complete chain_id id (p ∷ ps) h = rows_have_no_gap chain_id id 0 (p ∷ ps)

  listed_rows :
      (prepared : PreparedProcessingChain) (db db' : Registry)
      → All (λ (p : ProcessingPlan). p.processing_chain_id < db.next_chain_id) db.plans
      → db'.plans
        ≡ db.plans ++ numbered db.next_plan_id (plan_rows db.next_chain_id 0 prepared.plans)
      → list_by_chain_id db.next_chain_id db'
        ≡ numbered db.next_plan_id (plan_rows db.next_chain_id 0 prepared.plans)
  unfolding list_by_chain_id
  listed_rows prepared db db' below rows =
      rw (rows, select_rows db.next_chain_id db.next_plan_id 0 prepared.plans db.plans below)
        (order_by_ordered by_position _
          (rows-IsOrdered db.next_chain_id db.next_plan_id 0 prepared.plans))

  matches_rows :
      (prepared : PreparedProcessingChain) (db db' : Registry)
      → is_none prepared.plans ≡ false
      → list_by_chain_id db.next_chain_id db'
        ≡ numbered db.next_plan_id (plan_rows db.next_chain_id 0 prepared.plans)
      → matches_complete_snapshot tools db.next_chain_id prepared db' ≡ true
  unfolding matches_complete_snapshot signature_for_chain
  matches_rows prepared db db' complete listed =
      rw
        (
          listed,
          rows_complete db.next_chain_id db.next_plan_id prepared.plans complete,
          rows_signature db.next_chain_id db.next_plan_id 0 prepared.plans prepared.event_type_id
              prepared.schema_definition_id,
        )
        (same_signatures_refl (signature tools prepared))

  -- If the plans that are stored belong to chains with smaller ids than the next one, a draft that
  -- is persisted is found to be a complete copy of the snapshot that was prepared.
  pub persist_chain_matches :
      (prepared : PreparedProcessingChain) (number : ℕ) (db db' : Registry) (c : ProcessingChain)
      → All (λ (p : ProcessingPlan). p.processing_chain_id < db.next_chain_id) db.plans
      → persist_chain prepared number ChainStatus.draft db ≡ ok (db', c)
      → matches_complete_snapshot tools c.id prepared db' ≡ true
  unfolding persist_chain add_chain
  persist_chain_matches prepared number db db' c below returned =
      let Matches : Registry × ProcessingChain → Type 0 = λ (a : Registry × ProcessingChain).
        matches_complete_snapshot tools a.1.id prepared a.0 ≡ true in
      OnOk-eq Matches (persist_chain prepared number ChainStatus.draft db)
        (OnOk-bind Matches (raise_if (is_none prepared.plans) selection) _ (λ u some_plans.
          matches_rows prepared db _ (raise_if_ok (is_none prepared.plans) selection some_plans) (
            listed_rows prepared db _ below
              (add_plans_plans (plan_rows db.next_chain_id 0 prepared.plans) _))))
        returned
