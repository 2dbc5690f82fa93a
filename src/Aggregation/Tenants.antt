-- ===== src/Aggregation/Tenants.antt =====
-- The states that the aggregation of a stream leaves as they are: those of the other projects.
use outbox_service.Prelude.{
  ℕ, ◌≡◌, refl, sym, subst, ap, ◌∙◌, Bool, true, false, not, ◌||◌, List, [], ◌∷◌, ◌++◌, String, ok,
  ◌>>◌, raise_if, ◌==◌, leb, select, arith, inl, inr, Bool-cases, Option-cases, All, OnOk,
  OnOk-bind, OnOk-eq, OnOk-intro, find_by-key, put_by,
}
use outbox_service.Aggregation.Values.{
  Floats, normalize_counter_increment, coalesce_counter_increments,
}
use outbox_service.Aggregation.Labels.{Label, normalize_observation_business_labels}
use outbox_service.Aggregation.Model.{
  AnalyticalObservation, MetricStateDelta, MetricState, Tables, Series, MetricCheckpoint,
  same_series, series_of_state, series_of_delta, same_series-eq,
}
use outbox_service.Aggregation.Repository.{
  outside_stream, not_ordered, find_series, put_series, new_state, changed_state, upsert_delta,
  merge_delta, get_or_create_checkpoint, build_checkpoint_name, find_observations_after,
  update_checkpoint,
}
use outbox_service.Aggregation.Positions.{get_or_create_checkpoint-position}
use outbox_service.Aggregation.Service.{
  Group, add_value, empty_delta, labels_raised, value_raised, validate_observation_batch,
  group_observations, coalesce_groups, aggregate_observations, upsert_deltas, aggregate_batch,
  aggregate_stream,
}

same_series-project :
    (x y : Series) (p : ℕ)
    → same_series x y ≡ true
    → (x.project_id == p) ≡ false
    → (y.project_id == p) ≡ false
same_series-project x y p same away = rw (sym (same_series-eq x y same)) away

first_passed :
    (foreign late : Bool) {u : Unit {0}}
    → (raise_if foreign outside_stream >> raise_if late not_ordered) ≡ ok u
    → foreign ≡ false
first_passed true late passed = cc
first_passed false late passed = refl

module _ {V : Type 0} (p : ℕ) where
  -- the rows of the project
  abbrev pub own : List (MetricState V) → List (MetricState V)
  own = select (λ s. s.project_id == p)

  own-append :
      (r : MetricState V) (ss : List (MetricState V))
      → (r.project_id == p) ≡ false
      → own (ss ++ r ∷ []) ≡ own ss
  own-append r [] away = rw away refl
  own-append r (s ∷ ss) away = rw (own-append r ss away) refl

  own-put :
      (r : MetricState V) (ss : List (MetricState V))
      → (r.project_id == p) ≡ false
      → own (put_by same_series series_of_state r ss) ≡ own ss
  own-put r [] away = refl
  own-put r (s ∷ ss) away =
      elim (Bool-cases (same_series (series_of_state r) (series_of_state s))) [
        | inl hit ↦
            let gone = same_series-project (series_of_state r) (series_of_state s) p hit away in
            rw (hit, away, gone) refl
        | inr miss ↦ rw (miss, own-put r ss away) refl
      ]

  abbrev KeepsOwn : Tables V → Tables V → Type 0
  KeepsOwn db db' = own db'.states ≡ own db.states

  abbrev AreForeign : List (MetricStateDelta V) → Type 0
  AreForeign = All (λ d. (d.project_id == p) ≡ false)

  upsert_delta-KeepsOwn :
      (fl : Floats V) (now : ℕ) (d : MetricStateDelta V) (db : Tables V)
      → (d.project_id == p) ≡ false
      → OnOk (KeepsOwn db) (upsert_delta fl now d db)
  unfolding upsert_delta merge_delta find_series put_series
  upsert_delta-KeepsOwn fl now d db away =
      elim (Option-cases (find_series (series_of_delta d) db.states)) [
        | inl absent ↦ simp absent (own-append (new_state now db.next_state_id d) db.states away)
        | inr (s, found) ↦
            let same : series_of_delta d ≡ series_of_state s =
              find_by-key same_series series_of_state same_series-eq (series_of_delta d) s db.states
                found in
            let gone : (s.project_id == p) ≡ false =
              rw (ap (λ (k : Series). k.project_id) same) at away in
            elim (Option-cases (fl.db_plus s.value d.value)) [
              | inl over ↦ simp (found, over, merge_delta) tt
              | inr (sum, added) ↦
                  simp (found, added, merge_delta)
                    (own-put (changed_state now sum d s) db.states gone)
            ]
      ]

  upsert_deltas-KeepsOwn :
      (fl : Floats V) (now : ℕ) (ds : List (MetricStateDelta V)) (db : Tables V)
      → AreForeign ds
      → OnOk (KeepsOwn db) (upsert_deltas fl now ds db)
  unfolding upsert_deltas
  upsert_deltas-KeepsOwn fl now [] db away = refl
  upsert_deltas-KeepsOwn fl now (d ∷ ds) db away =
      OnOk-bind (KeepsOwn db) (upsert_delta fl now d db) (upsert_deltas fl now ds) (λ db1 first.
        OnOk-intro (KeepsOwn db) (upsert_deltas fl now ds db1) (λ db2 others.
          OnOk-eq (KeepsOwn db1) (upsert_deltas fl now ds db1)
            (upsert_deltas-KeepsOwn fl now ds db1 away.1) others
          ∙ OnOk-eq (KeepsOwn db) (upsert_delta fl now d db)
              (upsert_delta-KeepsOwn fl now d db away.0) first))

  abbrev HaveForeign : List (Group V) → Type 0
  HaveForeign = All (λ g. (g.0.project_id == p) ≡ false)

  add_value-HaveForeign :
      (d : MetricStateDelta V) (v : V) (gs : List (Group V))
      → (d.project_id == p) ≡ false
      → HaveForeign gs
      → HaveForeign (add_value d v gs)
  unfolding add_value
  add_value-HaveForeign d v [] away h = (away, tt)
  add_value-HaveForeign d v ((g, vs) ∷ gs) away h =
      elim (Bool-cases (same_series (series_of_delta d) (series_of_delta g))) [
        | inl same ↦ rw same h
        | inr other ↦ rw other (h.0, add_value-HaveForeign d v gs away h.1)
      ]

  coalesce_groups-AreForeign :
      (fl : Floats V) (gs : List (Group V))
      → HaveForeign gs
      → OnOk AreForeign (coalesce_groups fl gs)
  unfolding coalesce_groups
  coalesce_groups-AreForeign fl [] h = tt
  coalesce_groups-AreForeign fl ((d, vs) ∷ gs) h =
      OnOk-bind AreForeign (value_raised (coalesce_counter_increments fl vs)) _ (λ total _.
        OnOk-bind AreForeign (coalesce_groups fl gs) _ (λ ds made. (
          h.0,
          OnOk-eq AreForeign (coalesce_groups fl gs) (coalesce_groups-AreForeign fl gs h.1) made,
        )))

  module _ (fl : Floats V) (hash : List Label → String) where
    abbrev AreElsewhere : List (AnalyticalObservation V) → Type 0
    AreElsewhere = All (λ o. (o.project_id == p) ≡ false)

    group_observations-HaveForeign :
        (os : List (AnalyticalObservation V)) (gs : List (Group V))
        → AreElsewhere os
        → HaveForeign gs
        → OnOk HaveForeign (group_observations fl hash os gs)
    unfolding group_observations
    group_observations-HaveForeign [] gs away h = h
    group_observations-HaveForeign (o ∷ os) gs away h =
        OnOk-bind HaveForeign
          (labels_raised (normalize_observation_business_labels o.dimensions_json)) _
          (λ labels _.
            OnOk-bind HaveForeign (value_raised (normalize_counter_increment fl o.value)) _
              (λ value _.
                group_observations-HaveForeign os
                  (add_value (empty_delta fl hash o labels) value gs) away.1
                  (add_value-HaveForeign (empty_delta fl hash o labels) value gs away.0 h)))

    aggregate_observations-AreForeign :
        (os : List (AnalyticalObservation V))
        → AreElsewhere os
        → OnOk AreForeign (aggregate_observations fl hash os)
    unfolding aggregate_observations
    aggregate_observations-AreForeign os away =
        OnOk-bind AreForeign (group_observations fl hash os []) (coalesce_groups fl) (λ gs made.
          coalesce_groups-AreForeign fl gs (
            OnOk-eq HaveForeign (group_observations fl hash os [])
              (group_observations-HaveForeign os [] away tt) made))

    -- a batch that is valid is of the stream's project
    validated-AreElsewhere :
        (os : List (AnalyticalObservation V)) (q e previous : ℕ)
        → (q == p) ≡ false
        → OnOk (λ _. AreElsewhere os) (validate_observation_batch os q e previous)
    unfolding validate_observation_batch
    validated-AreElsewhere [] q e previous away = tt
    validated-AreElsewhere (o ∷ os) q e previous away =
        let R : Unit {0} → Type 0 = λ _. AreElsewhere (o ∷ os) in
        let foreign = not (o.project_id == q) || not (o.event_type_id == e) in
        let checks = raise_if foreign outside_stream >> raise_if (leb o.id previous) not_ordered in
        OnOk-bind R checks _ (λ _ passed.
          OnOk-intro R (validate_observation_batch os q e o.id) (λ u valid. (
            of_stream o q e away (first_passed foreign (leb o.id previous) passed),
            OnOk-eq (λ _. AreElsewhere os) (validate_observation_batch os q e o.id)
                (validated-AreElsewhere os q e o.id away) valid,
          )))
      where
        of_stream :
            (o : AnalyticalObservation V) (q e : ℕ)
            → (q == p) ≡ false
            → (not (o.project_id == q) || not (o.event_type_id == e)) ≡ false
            → (o.project_id == p) ≡ false
        of_stream o q e away passed = ground arith

    aggregate_batch-KeepsOwn :
        (now q e : ℕ) (c : MetricCheckpoint) (os : List (AnalyticalObservation V)) (db : Tables V)
        → (q == p) ≡ false
        → OnOk (λ r. KeepsOwn db r.0) (aggregate_batch fl hash now q e c os db)
    unfolding aggregate_batch update_checkpoint
    aggregate_batch-KeepsOwn now q e c [] db away = refl
    aggregate_batch-KeepsOwn now q e c (o ∷ os) db away =
        let R : Tables V × ℕ → Type 0 = λ r. KeepsOwn db r.0 in
        let valid = validate_observation_batch (o ∷ os) q e c.last_processed_observation_id in
        OnOk-bind R valid _ (λ u checked.
          OnOk-bind R (aggregate_observations fl hash (o ∷ os)) _ (λ deltas made.
            let elsewhere =
              OnOk-eq (λ _. AreElsewhere (o ∷ os)) valid
                (validated-AreElsewhere (o ∷ os) q e c.last_processed_observation_id away)
                checked in
            let foreign =
              OnOk-eq AreForeign (aggregate_observations fl hash (o ∷ os))
                (aggregate_observations-AreForeign (o ∷ os) elsewhere) made in
            OnOk-bind R (upsert_deltas fl now deltas db) _ (λ db1 stored.
              OnOk-eq (KeepsOwn db) (upsert_deltas fl now deltas db)
                (upsert_deltas-KeepsOwn fl now deltas db foreign) stored)))

    -- The aggregation of a stream keeps the states of every other project.
    pub aggregate_stream_keeps :
        (now q e limit : ℕ) (db : Tables V)
        → (q == p) ≡ false
        → OnOk (λ r. own r.0.states ≡ own db.states) (aggregate_stream fl hash now q e limit db)
    unfolding aggregate_stream
    aggregate_stream_keeps now q e limit db away =
        let name = build_checkpoint_name q e in
        let (_, _, _, rest) = get_or_create_checkpoint-position now name db in
        let (db1, c) = get_or_create_checkpoint now name db in
        let found = find_observations_after q e c.last_processed_observation_id limit db1 in
        subst
          (λ ss. OnOk (λ r. own r.0.states ≡ own ss) (aggregate_batch fl hash now q e c found db1))
          (ap (λ t. t.states) rest) (aggregate_batch-KeepsOwn now q e c found db1 away)
