-- ===== src/Cardinality/Tallies.antt =====
-- What `_analyze_many` has counted, if it reports no errors.
use outbox_service.Prelude.{
  ℕ, ◌+◌, ◌≤◌, ◌≡◌, subst, Option, none, some, List, [], ◌∷◌, ◌++◌, inl, inr, arith, All,
  All-append, Option-cases, OnOk, OnOk-bind,
}
use outbox_service.Json.{
  Json, null, true_value, false_value, number, text, array, object, get, items_of,
}
use outbox_service.Cardinality.Model.{
  CardinalityDiagnostic, MetricCardinalityBreakdown, CardinalityPlan, AnalyzedBuilderField,
  CardinalityService,
}
use outbox_service.Cardinality.Estimate.{check_name, safe_add}
use outbox_service.Cardinality.Assess.{
  identity_of, analyze_observation, Tally, add_contribution, tally_item, tally_observations,
  tally_plan, analyze_many,
}
use outbox_service.Cardinality.Bounds.{
  append-nil, snoc-ne, combinations, IsBounded, safe_add-exact, analyze_identified-IsBounded,
}

-- the series of the metrics, as the product of each one's labels
unfoldable pub series : List MetricCardinalityBreakdown → ℕ
series [] = 0
series (b ∷ bs) = combinations b.labels + series bs

pub series-append :
    (bs cs : List MetricCardinalityBreakdown) → series (bs ++ cs) ≡ series bs + series cs
unfolding series
series-append [] cs = omega arith
series-append (b ∷ bs) cs = omega (arith, series-append bs cs)

analyze_observation-IsBounded :
    (limit : ℕ) (fields : List AnalyzedBuilderField) (schema_id : Option ℕ) (o : Json)
    → 1 ≤ limit
    → (analyze_observation limit fields schema_id o).1 ≡ []
    → IsBounded limit (analyze_observation limit fields schema_id o).0
unfolding analyze_observation
analyze_observation-IsBounded limit fields schema_id (object fs) positive h =
    elim (Option-cases (identity_of fs)) [
      | inl missing ↦ let bad = rw (missing, analyze_observation) at h in cc
      | inr ((code, transform), e) ↦
          rw (e, analyze_observation)
            (analyze_identified-IsBounded limit fields schema_id (get "labels" fs) code transform
              positive (rw (e, analyze_observation) at h))
    ]
analyze_observation-IsBounded limit fields schema_id null positive h = cc
analyze_observation-IsBounded limit fields schema_id true_value positive h = cc
analyze_observation-IsBounded limit fields schema_id false_value positive h = cc
analyze_observation-IsBounded limit fields schema_id (number _) positive h = cc
analyze_observation-IsBounded limit fields schema_id (text _) positive h = cc
analyze_observation-IsBounded limit fields schema_id (array _) positive h = cc

-- without errors: the metrics so far, and their total
abbrev pub IsTallied : ℕ → Tally → Type 0
IsTallied limit t =
    t.errors ≡ []
    → All (IsBounded limit) t.breakdown × (t.total ≡ series t.breakdown) × (t.total ≤ limit)

add_contribution-exact :
    (limit total n : ℕ) (c : Option ℕ)
    → c ≡ some n
    → (add_contribution limit total c).1 ≡ []
    → ((add_contribution limit total c).0 ≡ total + n) × (total + n ≤ limit)
unfolding add_contribution
add_contribution-exact limit total n none e h = cc
add_contribution-exact limit total n (some m) e h =
    let same : m ≡ n = ground arith in
    subst (λ k. ((safe_add limit total m).0 ≡ total + k) × (total + k ≤ limit)) same
      (safe_add-exact limit total m h)

tally_item-IsTallied :
    (limit : ℕ) (item : MetricCardinalityBreakdown) (errors : List CardinalityDiagnostic)
    (t : Tally)
    → (errors ≡ [] → IsBounded limit item)
    → IsTallied limit t
    → IsTallied limit (tally_item limit (item, errors) t)
unfolding tally_item series
tally_item-IsTallied limit item errors t bounded before h =
    let (sum, raised) = add_contribution limit t.total item.contribution in
    let named = check_name t.seen_names item in
    let (three, _) = append-nil (t.errors ++ errors ++ raised) named h in
    let (two, raised_clean) = append-nil (t.errors ++ errors) raised three in
    let (clean, item_clean) = append-nil t.errors errors two in
    let (all_bounded, total, below) = before clean in
    let item_bounded = bounded item_clean in
    let (exact, fits) =
      add_contribution-exact limit t.total (combinations item.labels) item.contribution
        item_bounded.1 raised_clean in
    (
      All-append (IsBounded limit) t.breakdown (item ∷ []) all_bounded (item_bounded, tt),
      omega (arith, exact, total, series-append t.breakdown (item ∷ [])),
      omega (arith, exact, fits),
    )

tally_observations-IsTallied :
    (limit : ℕ) (fields : List AnalyzedBuilderField) (schema_id : Option ℕ) (os : List Json)
    (t : Tally)
    → 1 ≤ limit
    → IsTallied limit t
    → IsTallied limit (tally_observations limit fields schema_id os t)
unfolding tally_observations
tally_observations-IsTallied limit fields schema_id [] t positive before = before
tally_observations-IsTallied limit fields schema_id (o ∷ os) t positive before =
    tally_observations-IsTallied limit fields schema_id os _ positive (
      tally_item-IsTallied limit _ _ t
        (analyze_observation-IsBounded limit fields schema_id o positive) before)

tally_plan-IsTallied :
    (limit : ℕ) (fields : List AnalyzedBuilderField) (schema_id : Option ℕ) (j : Option Json)
    (t : Tally)
    → 1 ≤ limit
    → IsTallied limit t
    → IsTallied limit (tally_plan limit fields schema_id j t)
unfolding tally_plan
tally_plan-IsTallied limit fields schema_id none t positive before = before
tally_plan-IsTallied limit fields schema_id (some (array os)) t positive before =
    tally_observations-IsTallied limit fields schema_id (items_of os) t positive before
tally_plan-IsTallied limit fields schema_id (some null) t positive before =
    λ h. absurd (snoc-ne t.errors _ h)
tally_plan-IsTallied limit fields schema_id (some true_value) t positive before =
    λ h. absurd (snoc-ne t.errors _ h)
tally_plan-IsTallied limit fields schema_id (some false_value) t positive before =
    λ h. absurd (snoc-ne t.errors _ h)
tally_plan-IsTallied limit fields schema_id (some (number _)) t positive before =
    λ h. absurd (snoc-ne t.errors _ h)
tally_plan-IsTallied limit fields schema_id (some (text _)) t positive before =
    λ h. absurd (snoc-ne t.errors _ h)
tally_plan-IsTallied limit fields schema_id (some (object _)) t positive before =
    λ h. absurd (snoc-ne t.errors _ h)

module _ (c : CardinalityService) (positive : 1 ≤ c.limits.max_metric_series_estimate) where
  abbrev limit : ℕ
  limit = c.limits.max_metric_series_estimate

  pub analyze_many-IsTallied :
      (ps : List CardinalityPlan) (t : Tally)
      → IsTallied limit t
      → OnOk (IsTallied limit) (analyze_many c ps t)
  unfolding analyze_many
  analyze_many-IsTallied [] t before = before
  analyze_many-IsTallied (p ∷ ps) t before =
      OnOk-bind (IsTallied limit) (c.analyze p.json_schema) _ (λ fields _.
        analyze_many-IsTallied ps _ (
          tally_plan-IsTallied limit fields p.schema_definition_id
            (get "observations" p.compiled_plan_json) t positive before))
