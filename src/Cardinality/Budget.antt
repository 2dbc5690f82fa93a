-- ===== src/Cardinality/Budget.antt =====
-- An assessment that is not an error: the projected series and the budget.
use outbox_service.Prelude.{
  ℕ, ◌+◌, ◌-◌, ◌≤◌, ◌≡◌, ◌≢◌, ◌↔◌, refl, some, List, [], ◌∷◌, ◌++◌, ok, inl, inr, arith, All,
  All-append, Bool-cases, leb, ltb, OnOk, OnOk-bind, OnOk-eq,
}
use outbox_service.Cardinality.Model.{
  warning, error, CardinalityDiagnostic, CardinalityAssessment, CardinalityPlan, AnalysisLimits,
  CardinalityService,
}
use outbox_service.Cardinality.Estimate.{check_names}
use outbox_service.Cardinality.Assess.{Tally, no_tally, analyze_many, project, conclude, assess}
use outbox_service.Cardinality.Bounds.{append-nil, IsBounded}
use outbox_service.Cardinality.Unambiguous.{IsUnambiguous, check_names-IsUnambiguous}
use outbox_service.Cardinality.Tallies.{series, series-append, IsTallied, analyze_many-IsTallied}

-- An assessment that is not an error: every metric is bounded and its code alone has its Prometheus
-- name, the projection is what is left of the current series and the candidate's, and it is within
-- the budget; it is a warning from the warning threshold on.
pub record IsSound (limits : AnalysisLimits) (a : CardinalityAssessment) : Type 0 where
  pub bounded : All (IsBounded limits.max_metric_series_estimate) a.metric_breakdown
  pub unambiguous : IsUnambiguous a.metric_breakdown
  pub no_errors : a.errors ≡ []
  pub projected : ℕ
  pub candidate : ℕ
  pub is_projected : a.projected_estimated_series ≡ some projected
  pub is_candidate : a.candidate_contribution ≡ some candidate
  pub total : a.current_estimated_series + candidate ≡ series a.metric_breakdown
  pub projection : projected + a.replaced_contribution ≡ series a.metric_breakdown
  pub affordable : projected ≤ limits.event_type_series_budget
  pub told : (a.decision ≡ warning) ↔ (limits.event_type_series_warning ≤ projected)

-- what is known of a snapshot's tallies without errors
abbrev IsClean : AnalysisLimits → Tally → Tally → Type 0
IsClean limits current candidate =
    All (IsBounded limits.max_metric_series_estimate) (current.breakdown ++ candidate.breakdown)
    × IsUnambiguous (current.breakdown ++ candidate.breakdown)
    × (current.total + candidate.total ≡ series (current.breakdown ++ candidate.breakdown))

project-IsSound :
    (limits : AnalysisLimits) (current candidate replaced : Tally)
    → IsClean limits current candidate
    → let a = project limits current candidate replaced in a.decision ≢ error → IsSound limits a
unfolding project
project-IsSound limits current candidate replaced (bounded, unambiguous, total) =
    let projected = current.total + candidate.total - replaced.total in
    elim (Bool-cases (ltb (current.total + candidate.total) replaced.total)) [
      | inl negative ↦ rw (negative, project) (λ h. absurd (h refl))
      | inr positive ↦ elim (Bool-cases (ltb limits.event_type_series_budget projected)) [
        | inl over ↦ rw (positive, project) (rw over (λ h. absurd (h refl)))
        | inr within ↦ elim (Bool-cases (leb limits.event_type_series_warning projected)) [
          | inl close ↦
              rw (positive, project)
                (rw within (
                  rw close (λ _. record {
                    bounded = bounded;
                    unambiguous = unambiguous;
                    no_errors = refl;
                    projected = projected;
                    candidate = candidate.total;
                    is_projected = refl;
                    is_candidate = refl;
                    total = total;
                    projection = ground (arith, total);
                    affordable = ground arith;
                    told = ((λ _. ground arith), λ _. refl);
                  })))
          | inr far ↦
              rw (positive, project)
                (rw within (
                  rw far (λ _. record {
                    bounded = bounded;
                    unambiguous = unambiguous;
                    no_errors = refl;
                    projected = projected;
                    candidate = candidate.total;
                    is_projected = refl;
                    is_candidate = refl;
                    total = total;
                    projection = ground (arith, total);
                    affordable = ground arith;
                    told = ((λ e. cc), λ below. absurd (ground arith));
                  })))
        ]
      ]
    ]

conclude-IsSound :
    (limits : AnalysisLimits) (current candidate replaced : Tally)
    → IsTallied limits.max_metric_series_estimate current
    → IsTallied limits.max_metric_series_estimate candidate
    → let a = conclude limits current candidate replaced in a.decision ≢ error → IsSound limits a
unfolding conclude
conclude-IsSound limits current candidate replaced tallied tallied' =
    decided
      (current.errors
        ++ candidate.errors
        ++ replaced.errors
        ++ check_names [] (current.breakdown ++ candidate.breakdown))
      refl
  where
    clean :
        current.errors
            ++ candidate.errors
            ++ replaced.errors
            ++ check_names [] (current.breakdown ++ candidate.breakdown)
          ≡ []
        → IsClean limits current candidate
    clean h =
        let (three, names) =
          append-nil (current.errors ++ candidate.errors ++ replaced.errors) _ h in
        let (two, _) = append-nil (current.errors ++ candidate.errors) replaced.errors three in
        let (one, other) = append-nil current.errors candidate.errors two in
        let (bounded, total, _) = tallied one in
        let (bounded', total', _) = tallied' other in
        (
          All-append (IsBounded limits.max_metric_series_estimate) current.breakdown
              candidate.breakdown bounded bounded',
          check_names-IsUnambiguous [] (current.breakdown ++ candidate.breakdown) names,
          omega (arith, total, total', series-append current.breakdown candidate.breakdown),
        )

    decided :
        (es : List CardinalityDiagnostic)
        → current.errors
            ++ candidate.errors
            ++ replaced.errors
            ++ check_names [] (current.breakdown ++ candidate.breakdown)
          ≡ es
        → (conclude limits current candidate replaced).decision ≢ error
        → IsSound limits (conclude limits current candidate replaced)
    decided [] h = rw h (project-IsSound limits current candidate replaced (clean h))
    decided (d ∷ ds) h = rw h (λ bad. absurd (bad refl))

assess-OnOk :
    (c : CardinalityService) (current candidate replaced : List CardinalityPlan)
    → 1 ≤ c.limits.max_metric_series_estimate
    → OnOk (λ a. a.decision ≢ error → IsSound c.limits a) (assess c current candidate replaced)
unfolding assess
assess-OnOk c current candidate replaced positive =
    let Sound : CardinalityAssessment → Type 0 = λ a. a.decision ≢ error → IsSound c.limits a in
    let nothing : IsTallied c.limits.max_metric_series_estimate no_tally =
      λ _. (tt, unfold series in refl, omega arith) in
    let tallied : (ps : List CardinalityPlan)
        → OnOk (IsTallied c.limits.max_metric_series_estimate) (analyze_many c ps no_tally) =
      λ ps. analyze_many-IsTallied c positive ps no_tally nothing in
    OnOk-bind Sound (analyze_many c current no_tally) _ (λ t e.
      OnOk-bind Sound (analyze_many c candidate no_tally) _ (λ t' e'.
        OnOk-bind Sound (analyze_many c replaced no_tally) _ (λ t'' _.
          conclude-IsSound c.limits t t' t''
            (OnOk-eq (IsTallied c.limits.max_metric_series_estimate)
              (analyze_many c current no_tally) (tallied current) e)
            (OnOk-eq (IsTallied c.limits.max_metric_series_estimate)
              (analyze_many c candidate no_tally) (tallied candidate) e'))))

-- If the limit on one estimate is positive, an assessment that returns and is not an error is sound:
-- every metric's contribution is the product of its labels' cardinalities, within that limit; each
-- Prometheus name belongs to one metric code; the projection, with what is replaced added, is the sum
-- of all contributions; it is within the event type's budget; and the decision is a warning exactly
-- from the warning threshold on.
pub assess-IsSound :
    (c : CardinalityService) (current candidate replaced : List CardinalityPlan)
    (a : CardinalityAssessment)
    → 1 ≤ c.limits.max_metric_series_estimate
    → assess c current candidate replaced ≡ ok a
    → a.decision ≢ error
    → IsSound c.limits a
assess-IsSound c current candidate replaced a positive returned accepted =
    OnOk-eq (λ b. b.decision ≢ error → IsSound c.limits b) (assess c current candidate replaced)
      (assess-OnOk c current candidate replaced positive) returned accepted
