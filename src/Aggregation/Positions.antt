-- ===== src/Aggregation/Positions.antt =====
-- The position of each stream's checkpoint.
use outbox_service.Prelude.{
  ℕ, ◌≡◌, refl, sym, subst, Option, none, some, inl, inr, if◌then◌else◌, Option-cases, Bool-cases,
  find_by-append, find_by-put_by, find_by-key,
}
use outbox_service.Aggregation.Model.{
  CheckpointName, MetricCheckpoint, Tables, same_name, same_name-eq, same_name_refl,
}
use outbox_service.Aggregation.Repository.{
  find_checkpoint, put_checkpoint, fresh_checkpoint, get_or_create_checkpoint, update_checkpoint,
}

abbrev position_in : Option MetricCheckpoint → ℕ
position_in none = 0
position_in (some c) = c.last_processed_observation_id

module _ {V : Type 0} where
  -- the last id that a stream has processed, 0 without a checkpoint
  unfoldable pub position : CheckpointName → Tables V → ℕ
  position name db = position_in (find_checkpoint name db.checkpoints)

  pub position-same :
      (n : CheckpointName) (db db' : Tables V)
      → db'.checkpoints ≡ db.checkpoints
      → position n db' ≡ position n db
  unfolding position
  position-same n db db' same = rw same refl

  -- the checkpoint is made at the place where the stream was, and no other moves
  pub get_or_create_checkpoint-position :
      (now : ℕ) (name : CheckpointName) (db : Tables V)
      → let (db', c) = get_or_create_checkpoint now name db in
        (find_checkpoint name db'.checkpoints ≡ some c)
        × (c.last_processed_observation_id ≡ position name db)
        × ((n : CheckpointName) → position n db' ≡ position n db)
        × (db' ≡ record db { checkpoints = db'.checkpoints })
  unfolding get_or_create_checkpoint position find_checkpoint
  get_or_create_checkpoint-position now name db =
      elim (Option-cases (find_checkpoint name db.checkpoints)) [
        | inr (c, found) ↦ simp (found, get_or_create_checkpoint) (refl, refl, (λ n. refl), refl)
        | inl absent ↦
            let laws = λ (n : CheckpointName).
              find_by-append same_name (λ (c : MetricCheckpoint). c.checkpoint_name) same_name-eq
                same_name_refl n (fresh_checkpoint now name) db.checkpoints absent in
            simp (absent, get_or_create_checkpoint)
              (
                rw (laws name, same_name_refl name) refl,
                refl,
                (λ n. rw (laws n) (elim (Bool-cases (same_name n name)) [
                  | inl same ↦ rw (same_name-eq n name same, same_name_refl name, absent) refl
                  | inr other ↦ rw other refl
                ])),
                refl,
              )
      ]

  -- only the stream of the checkpoint moves
  pub update_checkpoint-position :
      (now last : ℕ) (name n : CheckpointName) (c : MetricCheckpoint) (db : Tables V)
      → find_checkpoint name db.checkpoints ≡ some c
      → position n (update_checkpoint now c last db)
        ≡ (if same_name n name then last else position n db)
  unfolding update_checkpoint position find_checkpoint put_checkpoint
  update_checkpoint-position now last name n c db found =
      let key = λ (c : MetricCheckpoint). c.checkpoint_name in
      let same : name ≡ c.checkpoint_name =
        find_by-key same_name key same_name-eq name c db.checkpoints found in
      let moved = record c { last_processed_observation_id = last; updated_at = now } in
      rw
        (
          find_by-put_by same_name key same_name-eq same_name_refl n moved c db.checkpoints
              (subst (λ m. find_checkpoint m db.checkpoints ≡ some c) same found),
          sym same,
        )
        (elim (Bool-cases (same_name n name)) [ inl hit ↦ rw hit refl | inr miss ↦ rw miss refl ])

  -- the rest of the tables stays
  pub update_checkpoint_rest :
      (now last : ℕ) (c : MetricCheckpoint) (db : Tables V)
      → let db' = update_checkpoint now c last db in
        (db'.states ≡ db.states)
        × (db'.observations ≡ db.observations)
        × (db'.next_observation_id ≡ db.next_observation_id)
  unfolding update_checkpoint
  update_checkpoint_rest now last c db = (refl, refl, refl)
