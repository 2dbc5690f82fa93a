-- ===== src/Cardinality/Assess.antt =====
-- `_analyze_observation`, `_analyze_many` and `assess` of app/services/metric_cardinality_service.py.
use outbox_service.Prelude.{
  ℕ, ◌+◌, ◌-◌, Option, none, some, List, [], ◌∷◌, ◌++◌, String, Result, ok, ◌>>=◌, if◌then◌else◌,
  ltb, leb, is_empty,
}
use outbox_service.Json.{Json, array, object, Fields, get, text_of, items_of}
use outbox_service.Cardinality.Model.{
  CardinalityDecision, info, warning, error, cardinality_unbounded,
  cardinality_inconsistent_snapshot, cardinality_budget_exceeded, cardinality_budget_warning,
  budget, CardinalityDiagnostic, MetricCardinalityBreakdown, CardinalityAssessment, CardinalityPlan,
  AnalysisLimits, AnalyzedBuilderField, CardinalityService, diagnostic,
}
use outbox_service.Cardinality.Estimate.{
  analyze_identified, unknown_metric, check_name, check_names, note_name, safe_add,
}

-- the code and the transform of an observation
unfoldable pub identity_of : Fields → Option (String × String)
identity_of fs = both (text_of (get "metric_code" fs)) (text_of (get "transform" fs))
  where
    both : Option String → Option String → Option (String × String)
    both (some code) (some transform) = if is_empty code then none else some (code, transform)
    both _ _ = none

-- `_analyze_observation`
unfoldable pub analyze_observation :
    ℕ
    → List AnalyzedBuilderField
    → Option ℕ
    → Json
    → MetricCardinalityBreakdown × List CardinalityDiagnostic
analyze_observation limit fields schema_id (object fs) = elim (identity_of fs) [
  | none ↦ (
    unknown_metric schema_id,
    diagnostic cardinality_unbounded "Compiled observation lacks a metric identity" none ∷ [],
  )
  | some (code, transform) ↦
      analyze_identified limit fields schema_id (get "labels" fs) code transform
]
analyze_observation limit fields schema_id _ = (
  unknown_metric schema_id,
  diagnostic cardinality_unbounded "Compiled observation is invalid" none ∷ [],
)

-- the loop variables of `_analyze_many`
pub record Tally : Type 0 where
  pub total : ℕ
  pub errors : List CardinalityDiagnostic
  pub breakdown : List MetricCardinalityBreakdown
  pub seen_names : List (String × String)

abbrev pub no_tally : Tally
no_tally = record { total = 0; errors = []; breakdown = []; seen_names = [] }

unfoldable pub add_contribution : ℕ → ℕ → Option ℕ → ℕ × List CardinalityDiagnostic
add_contribution limit total none = (total, [])
add_contribution limit total (some n) = safe_add limit total n

-- one round of the loop over the observations, for the estimate of the observation
unfoldable pub tally_item :
    ℕ → MetricCardinalityBreakdown × List CardinalityDiagnostic → Tally → Tally
tally_item limit (item, item_errors) t =
    let (sum, raised) = add_contribution limit t.total item.contribution in
    record {
      total = sum;
      errors = t.errors ++ item_errors ++ raised ++ check_name t.seen_names item;
      breakdown = t.breakdown ++ item ∷ [];
      seen_names = note_name item t.seen_names;
    }

unfoldable pub tally_observations :
    ℕ → List AnalyzedBuilderField → Option ℕ → List Json → Tally → Tally
tally_observations limit fields schema_id [] t = t
tally_observations limit fields schema_id (o ∷ os) t =
    tally_observations limit fields schema_id os
      (tally_item limit (analyze_observation limit fields schema_id o) t)

-- `plan.compiled_plan_json.get("observations", [])`
unfoldable pub tally_plan : ℕ → List AnalyzedBuilderField → Option ℕ → Option Json → Tally → Tally
tally_plan limit fields schema_id none t = t
tally_plan limit fields schema_id (some (array os)) t =
    tally_observations limit fields schema_id (items_of os) t
tally_plan limit fields schema_id (some _) t = record t {
  errors =
      t.errors
      ++ diagnostic cardinality_unbounded
          "Compiled metric plan has an unsupported observation shape" none
        ∷ [];
}

-- `_analyze_many`, from the loop variables as they stand
unfoldable pub analyze_many :
    CardinalityService → List CardinalityPlan → Tally → Result String Tally
analyze_many c [] t = ok t
analyze_many c (p ∷ ps) t = do
  fields ← c.analyze p.json_schema
  analyze_many c ps (
      tally_plan c.limits.max_metric_series_estimate fields p.schema_definition_id
        (get "observations" p.compiled_plan_json) t)

abbrev rejected :
    AnalysisLimits
    → Tally
    → Tally
    → Tally
    → Option ℕ
    → List CardinalityDiagnostic
    → CardinalityAssessment
rejected limits current candidate replaced contribution errors = record {
  decision = error;
  budget_limit = limits.event_type_series_budget;
  current_estimated_series = current.total;
  candidate_contribution = contribution;
  replaced_contribution = replaced.total;
  projected_estimated_series = none;
  remaining_budget = none;
  warnings = [];
  errors = errors;
  metric_breakdown = current.breakdown ++ candidate.breakdown;
}

abbrev accepted_with :
    AnalysisLimits
    → Tally
    → Tally
    → Tally
    → ℕ
    → CardinalityDecision
    → List CardinalityDiagnostic
    → CardinalityAssessment
accepted_with limits current candidate replaced projected decision warnings = record {
  decision = decision;
  budget_limit = limits.event_type_series_budget;
  current_estimated_series = current.total;
  candidate_contribution = some candidate.total;
  replaced_contribution = replaced.total;
  projected_estimated_series = some projected;
  remaining_budget = some (limits.event_type_series_budget - projected);
  warnings = warnings;
  errors = [];
  metric_breakdown = current.breakdown ++ candidate.breakdown;
}

-- the budget, once nothing else is wrong; `projected < 0` is a test of its own
unfoldable pub project : AnalysisLimits → Tally → Tally → Tally → CardinalityAssessment
project limits current candidate replaced =
    let projected = current.total + candidate.total - replaced.total in
    if ltb (current.total + candidate.total) replaced.total
    then rejected limits current candidate replaced (some candidate.total) (
        diagnostic cardinality_inconsistent_snapshot
          "The active metric snapshot cannot be projected safely" none
        ∷ [])
    else if ltb limits.event_type_series_budget projected
    then rejected limits current candidate replaced (some candidate.total) (
        record {
          code = cardinality_budget_exceeded;
          message = "Projected metric series exceed the EventType budget";
          location = none;
          details = some (budget limits.event_type_series_budget projected);
        }
        ∷ [])
    else if leb limits.event_type_series_warning projected
    then accepted_with limits current candidate replaced projected warning (
        record {
          code = cardinality_budget_warning;
          message = "Projected metric series are close to the EventType budget";
          location = none;
          details = some (budget limits.event_type_series_budget projected);
        }
        ∷ [])
    else accepted_with limits current candidate replaced projected info []

unfoldable pub conclude : AnalysisLimits → Tally → Tally → Tally → CardinalityAssessment
conclude limits current candidate replaced = decide (
    current.errors
    ++ candidate.errors
    ++ replaced.errors
    ++ check_names [] (current.breakdown ++ candidate.breakdown))
  where
    decide : List CardinalityDiagnostic → CardinalityAssessment
    decide [] = project limits current candidate replaced
    decide (d ∷ ds) = rejected limits current candidate replaced none (d ∷ ds)

-- `assess`; an error of the analyzer is passed on
unfoldable pub assess :
    CardinalityService
    → List CardinalityPlan
    → List CardinalityPlan
    → List CardinalityPlan
    → Result String CardinalityAssessment
assess c current_plans candidate_plans replaced_plans = do
  current ← analyze_many c current_plans no_tally
  candidate ← analyze_many c candidate_plans no_tally
  replaced ← analyze_many c replaced_plans no_tally
  ok (conclude c.limits current candidate replaced)
