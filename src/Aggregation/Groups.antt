-- ===== src/Aggregation/Groups.antt =====
-- What the groups of a batch of observations add up to.
use outbox_service.Prelude.{
  ℕ, ◌+◌, ◌≤◌, ◌≡◌, refl, List, [], ◌∷◌, ◌++◌, String, Result, ok, err, if◌then◌else◌, arith, inl,
  inr, Bool-cases, All, sum_of, OnOk, OnOk-mono, OnOk-bind, OnOk-eq, Yields, Result-cases,
  All-append,
}
use outbox_service.Aggregation.Values.{
  Floats, Counts, IsCount, IsExact, count_sum, normalize-IsCount, coalesce-counts, of_count-IsCount,
}
use outbox_service.Aggregation.Labels.{Label, RenderingError, normalize_observation_business_labels}
use outbox_service.Aggregation.Model.{
  AnalyticalObservation, MetricStateDelta, Series, same_series, series_of_delta, same_series-eq,
  same_series_refl,
}
use outbox_service.Aggregation.Service.{
  Group, add_value, group_observations, coalesce_groups, aggregate_observations, empty_delta,
  labels_raised, value_raised,
}

module _ {V : Type 0} {fl : Floats V} (c : Counts fl) (k : Series) where
  -- what values under a series give the series `k`
  abbrev pub given : Series → ℕ → ℕ
  given s n = if same_series k s then n else 0

  abbrev pub group_total : List (Group V) → ℕ
  group_total = sum_of (λ g. given (series_of_delta g.0) (count_sum c g.1))

  abbrev pub delta_total : List (MetricStateDelta V) → ℕ
  delta_total = sum_of (λ d. given (series_of_delta d) (c.count_of d.value))

  count_sum-add : (vs : List V) (v : V) → count_sum c (vs ++ v ∷ []) ≡ count_sum c vs + c.count_of v
  count_sum-add [] v = omega arith
  count_sum-add (w ∷ vs) v = omega (arith, count_sum-add vs v)

  add_value-total :
      (d : MetricStateDelta V) (v : V) (gs : List (Group V))
      → group_total (add_value d v gs) ≡ group_total gs + given (series_of_delta d) (c.count_of v)
  unfolding add_value
  add_value-total d v [] = ground arith
  add_value-total d v ((g, vs) ∷ gs) =
      elim (Bool-cases (same_series (series_of_delta d) (series_of_delta g))) [
        | inl same ↦
            rw (same, same_series-eq (series_of_delta d) (series_of_delta g) same)
              (ground (arith, count_sum-add vs v))
        | inr other ↦ rw other (omega (arith, add_value-total d v gs))
      ]

module _ {V : Type 0} {fl : Floats V} (c : Counts fl) where
  abbrev pub AreCounts : List (Group V) → Type 0
  AreCounts = All (λ g. All (IsCount c) g.1)

  add_value-AreCounts :
      (d : MetricStateDelta V) (v : V) (gs : List (Group V))
      → IsCount c v
      → AreCounts gs
      → AreCounts (add_value d v gs)
  unfolding add_value
  add_value-AreCounts d v [] count h = ((count, tt), tt)
  add_value-AreCounts d v ((g, vs) ∷ gs) count h =
      elim (Bool-cases (same_series (series_of_delta d) (series_of_delta g))) [
        | inl same ↦ rw same (All-append (IsCount c) vs (v ∷ []) h.0 (count, tt), h.1)
        | inr other ↦ rw other (h.0, add_value-AreCounts d v gs count h.1)
      ]

  module _ (hash : List Label → String) where
    abbrev share_labelled :
        Series → AnalyticalObservation V → Result RenderingError (List Label) → ℕ
    share_labelled k o (ok labels) =
        given c k (series_of_delta (empty_delta fl hash o labels)) (c.count_of o.value)
    share_labelled k o (err e) = 0

    -- what an observation gives the series `k`: its count, if its labels are valid and it is of `k`
    unfoldable pub share : Series → AnalyticalObservation V → ℕ
    share k o = share_labelled k o (normalize_observation_business_labels o.dimensions_json)

    abbrev pub Grouped : List (AnalyticalObservation V) → List (Group V) → List (Group V) → Type 0
    Grouped os before after =
        ((k : Series) → group_total c k after ≡ group_total c k before + sum_of (share k) os)
        × AreCounts after

    module _ (exact : IsExact c) where
      pub group_observations-Grouped :
          (os : List (AnalyticalObservation V)) (gs : List (Group V))
          → All (λ o. IsCount c o.value) os
          → AreCounts gs
          → OnOk (Grouped os gs) (group_observations fl hash os gs)
      unfolding group_observations labels_raised value_raised share
      group_observations-Grouped [] gs counts h = ((λ k. omega arith), h)
      group_observations-Grouped (o ∷ os) gs counts h =
          elim (Result-cases (normalize_observation_business_labels o.dimensions_json)) [
            | inr (e, bad) ↦ simp bad tt
            | inl (labels, good) ↦
                let d : MetricStateDelta V = empty_delta fl hash o labels in
                simp (good, normalize-IsCount c exact o.value counts.0)
                  (OnOk-mono (Grouped os (add_value d o.value gs)) (Grouped (o ∷ os) gs)
                    (group_observations fl hash os (add_value d o.value gs))
                    (λ after (totals, all). (
                      (λ k. simp good (omega (arith, totals k, add_value-total c k d o.value gs))),
                      all,
                    ))
                    (group_observations-Grouped os (add_value d o.value gs) counts.1
                      (add_value-AreCounts d o.value gs counts.0 h)))
          ]

  abbrev pub Coalesced : List (Group V) → List (MetricStateDelta V) → Type 0
  Coalesced gs ds =
      ((k : Series) → delta_total c k ds ≡ group_total c k gs) × All (λ d. IsCount c d.value) ds

  module _ (exact : IsExact c) where
    pub coalesce_groups-Coalesced :
        (gs : List (Group V))
        → AreCounts gs
        → ((k : Series) → group_total c k gs ≤ c.bound)
        → Yields (Coalesced gs) (coalesce_groups fl gs)
    unfolding coalesce_groups value_raised
    coalesce_groups-Coalesced [] h small = ([], refl, ((λ k. refl), tt))
    coalesce_groups-Coalesced ((d, vs) ∷ gs) h small =
        let n = count_sum c vs in
        let fits : n ≤ c.bound =
          omega (arith, rw (same_series_refl (series_of_delta d)) at (small (series_of_delta d))) in
        let (ds, e, (totals, all)) =
          coalesce_groups-Coalesced gs h.1 (λ k. omega (arith, small k)) in
        (
          record d { value = c.of_count n } ∷ ds,
          simp (coalesce-counts c exact vs h.0 fits, e) refl,
          (
            (λ k. rw (exact.count_of-of_count n fits) (omega (arith, totals k))),
            (of_count-IsCount c exact n fits, all),
          ),
        )

  -- the deltas add up to the shares of the observations
  abbrev pub Summed :
      (List Label → String) → List (AnalyticalObservation V) → List (MetricStateDelta V) → Type 0
  Summed hash os ds =
      ((k : Series) → delta_total c k ds ≡ sum_of (share hash k) os)
      × All (λ d. IsCount c d.value) ds

  pub coalesced-Summed :
      (exact : IsExact c) (hash : List Label → String) (os : List (AnalyticalObservation V))
      (gs : List (Group V))
      → All (λ o. IsCount c o.value) os
      → ((k : Series) → sum_of (share hash k) os ≤ c.bound)
      → group_observations fl hash os [] ≡ ok gs
      → Yields (Summed hash os) (coalesce_groups fl gs)
  coalesced-Summed exact hash os gs counts small made =
      let (totals, all) : Grouped hash os [] gs =
        OnOk-eq (Grouped hash os []) (group_observations fl hash os [])
          (group_observations-Grouped hash exact os [] counts tt) made in
      let (ds, e, (sums, all_counts)) =
        coalesce_groups-Coalesced exact gs all (λ k. omega (arith, totals k, small k)) in
      (ds, e, ((λ k. omega (arith, sums k, totals k)), all_counts))

  pub aggregate_observations-Summed :
      (exact : IsExact c) (hash : List Label → String) (os : List (AnalyticalObservation V))
      → All (λ o. IsCount c o.value) os
      → ((k : Series) → sum_of (share hash k) os ≤ c.bound)
      → OnOk (Summed hash os) (aggregate_observations fl hash os)
  unfolding aggregate_observations
  aggregate_observations-Summed exact hash os counts small =
      OnOk-bind (Summed hash os) (group_observations fl hash os []) (coalesce_groups fl) (λ gs made.
        let (ds, e, summed) = coalesced-Summed exact hash os gs counts small made in rw e summed)
