-- ===== src/Aggregation/Batches.antt =====
-- One stream's aggregation keeps the states equal to the totals of the log.
use outbox_service.Prelude.{
  ℕ, suc, ◌+◌, ◌≤◌, ◌<◌, ◌≡◌, refl, subst, ap, ◌∙◌, true, false, List, [], ◌∷◌, String, ok,
  if◌then◌else◌, arith, inl, inr, Bool-cases, All, All-map, All-select, sum_of, length, some, OnOk,
  OnOk-bind, OnOk-eq,
}
use outbox_service.Aggregation.Values.{Floats, Counts, IsCount, IsExact}
use outbox_service.Aggregation.Labels.{Label}
use outbox_service.Aggregation.Model.{
  AnalyticalObservation, CheckpointName, MetricCheckpoint, MetricStateDelta, Tables, Series,
  same_name, same_name-eq,
}
use outbox_service.Aggregation.Repository.{
  build_checkpoint_name, find_checkpoint, find_observations_after, is_pending, update_checkpoint,
}
use outbox_service.Aggregation.Service.{
  last_id, validate_observation_batch, aggregate_observations, upsert_deltas, aggregate_batch,
}
use outbox_service.Aggregation.Groups.{share, delta_total, Summed, aggregate_observations-Summed}
use outbox_service.Aggregation.States.{Represents, SameLog, upsert_deltas-AllUpserted}
use outbox_service.Aggregation.Pending.{
  Ascends, total_until, total_until-le, share_other, batch_total, last_id-All,
  find_observations_after-All, find_observations_after-is_pending,
}
use outbox_service.Aggregation.Positions.{
  position, update_checkpoint-position, position-same, update_checkpoint_rest,
}

abbrev pub name_of : Series → CheckpointName
name_of k = build_checkpoint_name k.project_id k.event_type_id

module _ {V : Type 0} {fl : Floats V} (c : Counts fl) (hash : List Label → String) where
  -- the counters as the log gives them: the totals up to the checkpoint of each stream
  abbrev pub logged : Tables V → Series → ℕ
  logged db k = total_until c hash k (position (name_of k) db) db.observations

  -- every stored state has the value that the log gives it, and no other series has any
  abbrev pub IsRefined : Tables V → Type 0
  IsRefined db = Represents c (logged db) db.states

  -- the observations are counts, and those of a series stay within the bound
  abbrev pub IsCounted : List (AnalyticalObservation V) → Type 0
  IsCounted os =
      All (λ o. IsCount c o.value) os × ((k : Series) → sum_of (share c hash k) os ≤ c.bound)

  -- The states hold the log's totals, and only the stream of the checkpoint moves, to `last`.
  abbrev pub Kept : Tables V → CheckpointName → ℕ → Tables V × ℕ → Type 0
  Kept db name last (db', count) =
      IsRefined db'
      × (db'.observations ≡ db.observations)
      × (db'.next_observation_id ≡ db.next_observation_id)
      × ((n : CheckpointName) → position n db' ≡ (if same_name n name then last else position n db))

  -- the position of a series after a batch
  abbrev moved : CheckpointName → ℕ → Tables V → Series → ℕ
  moved name last db k = if same_name (name_of k) name then last else position (name_of k) db

  share_zero :
      (k : Series) (p e first : ℕ) (os : List (AnalyticalObservation V))
      → same_name (name_of k) (build_checkpoint_name p e) ≡ false
      → All (λ o. is_pending p e first o ≡ true) os
      → sum_of (share c hash k) os ≡ 0
  unfolding is_pending same_name build_checkpoint_name
  share_zero k p e first [] other h = refl
  share_zero k p e first (o ∷ os) other h =
      let none_of_k : share c hash k o ≡ 0 = share_other c hash k o (ground (arith, h.0)) in
      omega (arith, none_of_k, share_zero k p e first os other h.1)

  module _ (db : Tables V) (p e : ℕ) (limit : ℕ) (o : AnalyticalObservation V)
      (os : List (AnalyticalObservation V)) (ascends : Ascends db.observations)
      (found : find_observations_after p e (position (build_checkpoint_name p e) db) limit db
        ≡ o ∷ os) where
    abbrev name : CheckpointName
    name = build_checkpoint_name p e

    pending : All (λ x. is_pending p e (position name db) x ≡ true) (o ∷ os)
    pending =
        subst (All (λ x. is_pending p e (position name db) x ≡ true)) found
          (find_observations_after-is_pending p e (position name db) limit db)

    ahead : position name db < last_id o os
    unfolding is_pending
    ahead =
        last_id-All (λ i. position name db < i) o os
          (All-map (λ x h. ground (arith, h)) (o ∷ os) pending)

    -- what the batch gives a series is what lies between its old and its new position
    batch_logged :
        (k : Series)
        → total_until c hash k (moved name (last_id o os) db k) db.observations
          ≡ logged db k + sum_of (share c hash k) (o ∷ os)
    unfolding same_name build_checkpoint_name
    batch_logged k = elim (Bool-cases (same_name (name_of k) name)) [
      | inl mine ↦
          let same_project : p ≡ k.project_id = ground arith in
          let same_type : e ≡ k.event_type_id = ground arith in
          let first = position name db in
          let here : find_observations_after k.project_id k.event_type_id first limit db ≡ o ∷ os =
            subst (λ q. find_observations_after q k.event_type_id first limit db ≡ o ∷ os)
              same_project
              (subst (λ f. find_observations_after p f first limit db ≡ o ∷ os) same_type found) in
          rw (mine, same_name-eq (name_of k) name mine)
            (batch_total c hash k (position name db) limit o os db ascends here
              (omega (arith, ahead)))
      | inr other ↦
          rw other (omega (arith, share_zero k p e (position name db) (o ∷ os) other pending))
    ]

    module _ (now : ℕ) (cp : MetricCheckpoint) (exact : IsExact c)
        (counted : IsCounted db.observations) (refined : IsRefined db)
        (locked : find_checkpoint name db.checkpoints ≡ some cp) where
      pub fits : (k : Series) → logged db k + sum_of (share c hash k) (o ∷ os) ≤ c.bound
      fits k =
          let last = moved name (last_id o os) db k in
          omega (arith, batch_logged k, total_until-le c hash k last db.observations, counted.1 k)

      upserted-Kept :
          (ds : List (MetricStateDelta V)) (db' : Tables V)
          → ((k : Series) → delta_total c k ds ≡ sum_of (share c hash k) (o ∷ os))
          → Represents c (λ k. logged db k + delta_total c k ds) db'.states
          → SameLog db db'
          → Kept db name
              (last_id o os)
              (update_checkpoint now cp (last_id o os) db', suc (length os))
      upserted-Kept ds db' totals represents (log, checkpoints, next) =
          let there : find_checkpoint name db'.checkpoints ≡ some cp = rw checkpoints locked in
          let places : (n : CheckpointName)
              → position n (update_checkpoint now cp (last_id o os) db')
                ≡ (if same_name n name then last_id o os else position n db) =
            λ n.
              rw (position-same n db db' checkpoints) at
                (update_checkpoint-position now (last_id o os) name n cp db' there) in
          let (states_rest, log_rest, next_rest) =
            update_checkpoint_rest now (last_id o os) cp db' in
          (
            (λ k.
                rw (places (name_of k), states_rest, log_rest, log)
                  (represents k ∙ ap c.of_count (omega (arith, batch_logged k, totals k)))),
            log_rest ∙ log,
            next_rest ∙ next,
            places,
          )

      pub batch_counts : All (λ x. IsCount c x.value) (o ∷ os)
      batch_counts =
          let Count : AnalyticalObservation V → Type 0 = λ x. IsCount c x.value in
          let first = position name db in
          subst (All Count) found (
            find_observations_after-All Count p e first limit db
              (All-select Count (is_pending p e first) db.observations counted.0))

      -- the deltas of the batch can be stored
      pub deltas_stored :
          (ds : List (MetricStateDelta V))
          → aggregate_observations fl hash (o ∷ os) ≡ ok ds
          → (db' : Tables V) × (upsert_deltas fl now ds db ≡ ok db')
            × Kept db name
                (last_id o os)
                (update_checkpoint now cp (last_id o os) db', suc (length os))
      deltas_stored ds made =
          let (totals, counts) : Summed c hash (o ∷ os) ds =
            OnOk-eq (Summed c hash (o ∷ os)) (aggregate_observations fl hash (o ∷ os))
              (aggregate_observations-Summed c exact hash (o ∷ os) batch_counts
                (λ k. omega (arith, fits k)))
              made in
          let (db', e, (represents, same)) =
            upsert_deltas-AllUpserted c exact now (logged db) ds db refined counts
              (λ k. omega (arith, fits k, totals k)) in
          (db', e, upserted-Kept ds db' totals represents same)

      pub batch-Kept :
          OnOk (Kept db name (last_id o os)) (aggregate_batch fl hash now p e cp (o ∷ os) db)
      unfolding aggregate_batch
      batch-Kept =
          let K = Kept db name (last_id o os) in
          OnOk-bind K (validate_observation_batch (o ∷ os) p e cp.last_processed_observation_id) _
            (λ _ _.
              OnOk-bind K (aggregate_observations fl hash (o ∷ os)) _
                (λ ds made. let (db', e, kept) = deltas_stored ds made in rw e kept))
