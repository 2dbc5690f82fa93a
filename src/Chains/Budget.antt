-- ===== src/Chains/Budget.antt =====
-- The budget of metric series is kept by what is activated.
use outbox_service.Prelude.{
  ℕ, ◌≤◌, ◌≡◌, ◌≢◌, false, List, String, Result, ok, err, raise_if, raise_if_ok, map, OnOk,
  OnOk-bind, OnOk-intro,
}
use outbox_service.Json.{Fields}
use outbox_service.Cardinality.Model.{
  CardinalityDecision, info, warning, error, CardinalityAssessment, CardinalityPlan,
  CardinalityService,
}
use outbox_service.Cardinality.Assess.{assess}
use outbox_service.Cardinality.Budget.{IsSound, assess-IsSound}
use outbox_service.Chains.Model.{ProcessingChain, SchemaDefinition, Registry, Tools, over_budget}
use outbox_service.Chains.Repository.{list_active_by_event_type, list_by_chain_id}
use outbox_service.Chains.Service.{
  find_schema, validate_schema_scope, cardinality_plan, active_entries, assessed, is_error,
  first_error, require_safe_cardinality,
}
use outbox_service.Chains.Activation.{plan_documents}

assessed_ok :
    (r : Result String CardinalityAssessment) (a : CardinalityAssessment)
    → assessed r ≡ ok a
    → r ≡ ok a
unfolding assessed
assessed_ok (ok b) a h = cc
assessed_ok (err e) a h = cc

no_error : (d : CardinalityDecision) → is_error d ≡ false → d ≢ error
unfolding is_error
no_error info h = λ e. cc
no_error warning h = λ e. cc
no_error error h = cc

module _ (cardinality : CardinalityService) (e : ℕ) (schema : SchemaDefinition)
    (db : Registry) where
  -- The candidate's plans, beside those of the event type's active chains and in place of those of
  -- its own scope, keep the budget.
  pub record IsBudgeted (candidate_plans : List Fields) : Type 0 where
    pub current : List CardinalityPlan
    pub replaced : List CardinalityPlan
    pub assessment : CardinalityAssessment
    pub are_entries :
        active_entries schema.id (list_active_by_event_type e db) db ≡ ok (current, replaced)
    pub is_assessed :
        assess cardinality current (map (cardinality_plan schema) candidate_plans) replaced
        ≡ ok assessment
    pub sound : IsSound cardinality.limits assessment

  pub require_safe_cardinality-IsBudgeted :
      (candidate_plans : List Fields)
      → 1 ≤ cardinality.limits.max_metric_series_estimate
      → OnOk
          (λ (u : Unit {0}). IsBudgeted candidate_plans)
          (require_safe_cardinality cardinality e schema candidate_plans db)
  unfolding require_safe_cardinality
  require_safe_cardinality-IsBudgeted candidate_plans positive =
      let P : Unit {0} → Type 0 = λ u. IsBudgeted candidate_plans in
      let candidates = map (cardinality_plan schema) candidate_plans in
      OnOk-bind P (active_entries schema.id (list_active_by_event_type e db) db) _
        (λ (current, replaced) entries.
          OnOk-bind P (assessed (assess cardinality current candidates replaced)) _ (λ a returned.
            OnOk-intro P (raise_if (is_error a.decision) (over_budget (first_error a.errors)))
              (λ u passed.
                let done =
                  assessed_ok (assess cardinality current candidates replaced) a returned in
                record {
                  current = current;
                  replaced = replaced;
                  assessment = a;
                  are_entries = entries;
                  is_assessed = done;
                  sound = assess-IsSound cardinality current candidates replaced a positive done (
                      no_error a.decision (
                        raise_if_ok (is_error a.decision) (over_budget (first_error a.errors))
                          passed));
                })))

-- what an activation that returns has assessed
pub record IsAffordable (cardinality : CardinalityService) (e s id : ℕ) (db : Registry)
    : Type 0 where
  pub schema : SchemaDefinition
  pub candidate_plans : List Fields
  pub of_scope : validate_schema_scope (find_schema s db) e ≡ ok schema
  pub are_plans : plan_documents (list_by_chain_id id db) ≡ ok candidate_plans
  pub budgeted : IsBudgeted cardinality e schema db candidate_plans

module _ (tools : Tools) (cardinality : CardinalityService) (e s : ℕ) (schema : SchemaDefinition)
    (chain : ProcessingChain) (db : Registry) where
  -- what the tests of a chain have assessed
  abbrev Tested : Unit {0} → Type 0
  Tested u =
      (candidate_plans : List Fields) × (plan_documents (list_by_chain_id chain.id db)
        ≡ ok candidate_plans)
      × IsBudgeted cardinality e schema db candidate_plans
