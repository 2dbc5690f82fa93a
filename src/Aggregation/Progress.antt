-- ===== src/Aggregation/Progress.antt =====
-- When the aggregation of a stream succeeds, and how much of the log it takes.
use outbox_service.Prelude.{
  some, ℕ, ◌≡◌, refl, sym, subst, ap, ◌∙◌, min, true, false, ◌==◌, List, [], ◌∷◌, String, ok, ltb,
  leb, arith, All, All-both, All-select, length, length-take, length-order_by, select, order_by,
}
use outbox_service.Aggregation.Values.{Floats, Counts, IsCount, IsExact, normalize-IsCount}
use outbox_service.Aggregation.Labels.{Label, normalize_observation_business_labels}
use outbox_service.Aggregation.Model.{AnalyticalObservation, MetricCheckpoint, Tables}
use outbox_service.Aggregation.Repository.{
  build_checkpoint_name, find_checkpoint, find_observations_after, is_pending,
  get_or_create_checkpoint, update_checkpoint,
}
use outbox_service.Aggregation.Service.{
  Group, last_id, validate_observation_batch, group_observations, add_value, empty_delta,
  labels_raised, value_raised, aggregate_observations, aggregate_batch, aggregate_stream,
}
use outbox_service.Aggregation.Groups.{coalesced-Summed}
use outbox_service.Aggregation.Pending.{
  find_observations_after-All, Ascends, find_observations_after-Ascends,
  find_observations_after-is_pending,
}
use outbox_service.Aggregation.Positions.{position, get_or_create_checkpoint-position}
use outbox_service.Aggregation.Batches.{IsCounted, fits, batch_counts, deltas_stored}
use outbox_service.Aggregation.Refinement.{IsSound, get_or_create-IsSound}

module _ {V : Type 0} where
  -- the dimensions are an object of scalars under valid names, or null
  abbrev pub HasLabels : AnalyticalObservation V → Type 0
  HasLabels o =
      (labels : List Label) × (normalize_observation_business_labels o.dimensions_json ≡ ok labels)

  found_length :
      (p e first limit : ℕ) (db : Tables V)
      → length (find_observations_after p e first limit db)
        ≡ min limit (length (select (is_pending p e first) db.observations))
  unfolding find_observations_after
  found_length p e first limit db =
      let pending = select (is_pending {V = V} p e first) db.observations in
      let sorted = order_by (λ x y. leb x.id y.id) pending in
      length-take limit sorted ∙ ap (min limit) (length-order_by (λ x y. leb x.id y.id) pending)

  validate_pending :
      (p e previous : ℕ) (os : List (AnalyticalObservation V))
      → All (λ o. is_pending p e previous o ≡ true) os
      → Ascends os
      → validate_observation_batch os p e previous ≡ ok tt
  unfolding validate_observation_batch is_pending
  validate_pending p e previous [] h ascends = refl
  validate_pending p e previous (o ∷ os) h ascends =
      let of_project : (o.project_id == p) ≡ true = ground (arith, h.0) in
      let of_type : (o.event_type_id == e) ≡ true = ground (arith, h.0) in
      let later : leb o.id previous ≡ false = ground (arith, h.0) in
      simp (of_project, of_type, later)
        (validate_pending p e o.id os
          (All-both
            (λ x (pending : is_pending p e previous x ≡ true) (after : ltb o.id x.id ≡ true).
              ground (arith, pending, after))
            os h.1 ascends.0)
          ascends.1)

  module _ {fl : Floats V} (c : Counts fl) (hash : List Label → String) (exact : IsExact c) where
    group_observations_succeeds :
        (os : List (AnalyticalObservation V)) (gs : List (Group V))
        → All HasLabels os
        → All (λ o. IsCount c o.value) os
        → (grouped : List (Group V)) × (group_observations fl hash os gs ≡ ok grouped)
    unfolding group_observations labels_raised value_raised
    group_observations_succeeds [] gs valid counts = (gs, refl)
    group_observations_succeeds (o ∷ os) gs ((labels, good), valid) (count, counts) =
        let (grouped, e) =
          group_observations_succeeds os (add_value (empty_delta fl hash o labels) o.value gs) valid
            counts in
        (grouped, simp (good, normalize-IsCount c exact o.value count) e)

    module _ (now p e limit : ℕ) (cp : MetricCheckpoint) (db : Tables V)
        (sound : IsSound c hash exact db) (counted : IsCounted c hash db.observations)
        (locked : find_checkpoint (build_checkpoint_name p e) db.checkpoints ≡ some cp)
        (place : cp.last_processed_observation_id ≡ position (build_checkpoint_name p e) db) where
      batch_succeeds :
          (os : List (AnalyticalObservation V))
          → find_observations_after p e (position (build_checkpoint_name p e) db) limit db ≡ os
          → All HasLabels os
          → (db' : Tables V) × (aggregate_batch fl hash now p e cp os db ≡ ok (db', length os))
      unfolding aggregate_batch aggregate_observations
      batch_succeeds [] found valid = (db, refl)
      batch_succeeds (o ∷ os) found valid =
          let first = position (build_checkpoint_name p e) db in
          let ascends = sound.1.ascends in
          let pending =
            subst (All (λ x. is_pending p e first x ≡ true)) found
              (find_observations_after-is_pending p e first limit db) in
          let sorted =
            subst Ascends found (find_observations_after-Ascends p e first limit db ascends) in
          let counts =
            batch_counts c hash db p e limit o os ascends found now cp exact counted sound.0
              locked in
          let small =
            fits c hash db p e limit o os ascends found now cp exact counted sound.0 locked in
          let (gs, grouped) = group_observations_succeeds (o ∷ os) [] valid counts in
          let (ds, coalesced, _) =
            coalesced-Summed c exact hash (o ∷ os) gs counts (λ k. omega (arith, small k))
              grouped in
          let made : aggregate_observations fl hash (o ∷ os) ≡ ok ds =
            simp (grouped, coalesced) refl in
          let (db', stored, _) =
            deltas_stored c hash db p e limit o os ascends found now cp exact counted sound.0 locked
              ds made in
          (
            update_checkpoint now cp (last_id o os) db',
            rw (place, validate_pending p e first (o ∷ os) pending sorted, made, stored) refl,
          )

    -- If sums of counts are exact up to a bound, in sound tables whose observations are counts within
    -- the bound and have valid labels, the aggregation of a stream succeeds and takes all of its
    -- pending observations, up to the limit.
    pub aggregate_stream_succeeds :
        (now p e limit : ℕ) (db : Tables V)
        → IsSound c hash exact db
        → IsCounted c hash db.observations
        → All HasLabels db.observations
        → let first = position (build_checkpoint_name p e) db in
          (db' : Tables V) × (aggregate_stream fl hash now p e limit db
            ≡ ok (db', min limit (length (select (is_pending p e first) db.observations))))
    unfolding aggregate_stream
    aggregate_stream_succeeds now p e limit db sound counted valid =
        let name = build_checkpoint_name p e in
        let first = position name db in
        let (locked, place, places, rest) = get_or_create_checkpoint-position now name db in
        let (db1, cp) = get_or_create_checkpoint now name db in
        let log : db1.observations ≡ db.observations = ap (λ t. t.observations) rest in
        let found = find_observations_after p e first limit db1 in
        let labelled : All HasLabels found =
          find_observations_after-All HasLabels p e first limit db1
            (All-select HasLabels (is_pending p e first) db1.observations (rw log valid)) in
        let (db', done) =
          batch_succeeds now p e limit cp db1 (get_or_create-IsSound c hash exact now name db sound)
            (rw log counted) locked (place ∙ sym (places name)) found
            (ap (λ i. find_observations_after p e i limit db1) (places name)) labelled in
        let taken : length found
            ≡ min limit (length (select (is_pending p e first) db.observations)) =
          found_length p e first limit db1
          ∙ ap (λ os. min limit (length (select (is_pending p e first) os))) log in
        (db', rw (place, sym taken) done)
