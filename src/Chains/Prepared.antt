-- ===== src/Chains/Prepared.antt =====
-- What a prepared snapshot is made of.
use outbox_service.Prelude.{
  ℕ, ◌≡◌, refl, sym, Bool, true, false, not, List, [], ◌∷◌, String, ok, err, ◌==◌, arith, All,
  All-map, any_of, order_by, order_by-All, IsKeyed, raise_if, raise_if_ok, OnOk, OnOk-bind, OnOk-eq,
  Result,
}
use mathlib.Core.List.{Mem, mem-cons_of_mem, mem-cons_self}
use outbox_service.Json.{Fields}
use outbox_service.Chains.Model.{
  MetricDefinitionVersion, SchemaDefinition, Registry, PreparedProcessingPlan,
  PreparedProcessingChain, Tools, selection,
}
use outbox_service.Chains.Repository.{is_compatible, by_definition}
use outbox_service.Chains.Builder.{
  compiled, prepare_plans, prepare_chain, validate_prometheus_identities, is_none,
}

compiled_ok : (r : Result String Fields) (fs : Fields) → compiled r ≡ ok fs → r ≡ ok fs
unfolding compiled
compiled_ok (ok a) fs h = cc
compiled_ok (err e) fs h = cc

-- a number that is not in a longer list
not_seen :
    (d x : ℕ) (seen : List ℕ)
    → any_of (λ i. i == d) (x ∷ seen) ≡ false
    → ((x == d) ≡ false) × (any_of (λ i. i == d) seen ≡ false)
not_seen d x seen h = ground (arith, h)

equal_of : (a b : ℕ) → not (a == b) ≡ false → a ≡ b
equal_of a b h = ground arith

holds : (b : Bool) → not b ≡ false → b ≡ true
holds true h = refl
holds false h = cc

all_Mem : (vs : List MetricDefinitionVersion) → All (λ v. Mem v vs) vs
all_Mem [] = tt
all_Mem (v ∷ vs) = (mem-cons_self, All-map (λ x h. mem-cons_of_mem v h) vs (all_Mem vs))

module _ (tools : Tools) (e : ℕ) (schema : SchemaDefinition) (db : Registry)
    (versions : List MetricDefinitionVersion) where
  -- a plan is the compilation of a compatible version of a metric of the event type
  abbrev pub IsCompiled : PreparedProcessingPlan → Type 0
  IsCompiled p =
      (v : MetricDefinitionVersion) × Mem v versions
      × (v.id ≡ p.metric_definition_version_id)
      × (v.metric_definition_id ≡ p.metric_definition_id)
      × (v.definition_event_type_id ≡ e)
      × (is_compatible v.id schema.id db ≡ true)
      × (tools.compile v.yaml_content schema.json_schema ≡ ok p.compiled_plan_json)

  -- one plan for a metric, each compiled from a compatible version
  abbrev pub ArePrepared : List PreparedProcessingPlan → Type 0
  ArePrepared ps =
      IsKeyed (λ (p : PreparedProcessingPlan). p.metric_definition_id) ps × All IsCompiled ps

  abbrev AreNew : List ℕ → List PreparedProcessingPlan → Type 0
  AreNew seen = All (λ p. any_of (λ i. i == p.metric_definition_id) seen ≡ false)

  prepare_plans-ArePrepared :
      (vs : List MetricDefinitionVersion) (seen : List ℕ)
      → All (λ v. Mem v versions) vs
      → OnOk (λ ps. ArePrepared ps × AreNew seen ps) (prepare_plans tools e schema db vs seen)
  unfolding prepare_plans
  prepare_plans-ArePrepared [] seen given = ((tt, tt), tt)
  prepare_plans-ArePrepared (v ∷ vs) seen (member, given) =
      let Q : List PreparedProcessingPlan → Type 0 = λ ps. ArePrepared ps × AreNew seen ps in
      let seen' = v.metric_definition_id ∷ seen in
      let Q' : List PreparedProcessingPlan → Type 0 = λ ps. ArePrepared ps × AreNew seen' ps in
      OnOk-bind Q (raise_if (not (v.definition_event_type_id == e)) selection) _ (λ _ of_type.
        OnOk-bind Q (raise_if (any_of (λ i. i == v.metric_definition_id) seen) selection) _
          (λ _ new.
            OnOk-bind Q (raise_if (not (is_compatible v.id schema.id db)) selection) _ (λ _ fits.
              OnOk-bind Q (compiled (tools.compile v.yaml_content schema.json_schema)) _
                (λ plan made. OnOk-bind Q (prepare_plans tools e schema db vs seen') _ (λ ps rest.
                  let ((keyed, all), new_rest) : Q' ps =
                    OnOk-eq Q' (prepare_plans tools e schema db vs seen')
                      (prepare_plans-ArePrepared vs seen' given) rest in
                  let type_ok =
                    raise_if_ok (not (v.definition_event_type_id == e)) selection of_type in
                  let fits_ok =
                    raise_if_ok (not (is_compatible v.id schema.id db)) selection fits in
                  let compiled_from =
                    compiled_ok (tools.compile v.yaml_content schema.json_schema) plan made in
                  (
                    (
                      (
                        All-map
                            (λ p h.
                              (not_seen p.metric_definition_id v.metric_definition_id seen h).0)
                            ps new_rest,
                        keyed,
                      ),
                      (
                        (
                          v,
                          member,
                          refl,
                          refl,
                          equal_of v.definition_event_type_id e type_ok,
                          holds (is_compatible v.id schema.id db) fits_ok,
                          compiled_from,
                        ),
                        all,
                      ),
                    ),
                    (
                      raise_if_ok (any_of (λ i. i == v.metric_definition_id) seen) selection new,
                      All-map
                          (λ p h. (not_seen p.metric_definition_id v.metric_definition_id seen h).1)
                          ps new_rest,
                    ),
                  ))))))

  -- A snapshot that is prepared is for the event type and the schema, has at most one plan for a
  -- metric, and each plan is the compilation for the schema of one of the versions given, which is
  -- compatible with it and of a metric of the event type.
  pub prepare_chain-ArePrepared :
      (prepared : PreparedProcessingChain)
      → prepare_chain tools e schema db versions ≡ ok prepared
      → (prepared.event_type_id ≡ schema.event_type_id)
        × (prepared.schema_definition_id ≡ schema.id)
        × ArePrepared prepared.plans
  unfolding prepare_chain
  prepare_chain-ArePrepared prepared returned =
      let Q : PreparedProcessingChain → Type 0 = λ p.
        (p.event_type_id ≡ schema.event_type_id)
        × (p.schema_definition_id ≡ schema.id)
        × ArePrepared p.plans in
      let sorted = order_by by_definition versions in
      let R : List PreparedProcessingPlan → Type 0 = λ ps. ArePrepared ps × AreNew [] ps in
      OnOk-eq Q (prepare_chain tools e schema db versions)
        (OnOk-bind Q (raise_if (not (schema.event_type_id == e)) selection) _ (λ _ scoped.
          OnOk-bind Q (raise_if (is_none versions) selection) _ (λ _ _.
            OnOk-bind Q (prepare_plans tools e schema db sorted []) _ (λ ps made.
              OnOk-bind Q (validate_prometheus_identities ps) _ (λ _ _.
                let same = raise_if_ok (not (schema.event_type_id == e)) selection scoped in
                let found =
                  OnOk-eq R (prepare_plans tools e schema db sorted [])
                    (prepare_plans-ArePrepared sorted [] (
                      order_by-All by_definition (λ v. Mem v versions) versions (all_Mem versions)))
                    made in
                (sym (equal_of schema.event_type_id e same), refl, found.0))))))
        returned
