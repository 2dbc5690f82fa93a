-- ===== src/Delivery/Release.antt =====
-- What the dead-letter service does to the rows.
use outbox_service.Prelude.{
  ℕ, ◌≤◌, ◌≡◌, refl, Bool, true, false, ◌&&◌, none, some, List, [], ◌∷◌, Result, ok, err, inl, inr,
  arith, All, All-map, All-select, All-take, order_by, order_by-All, Bool-cases, length,
  length-take, select, if◌then◌else◌, if_both, take, ◌==◌, ◌≢◌, find_row-put_row, All-find_row,
  find_row-key, find_row-put_row_ne, subst, sym,
}
use outbox_service.Delivery.Model.{EventDelivery, Db, pending, dead_letter}
use outbox_service.Delivery.Repository.{
  find_by_id, save, is_status, in_project, updated_after, find_dead_letters_by_project,
}
use outbox_service.Delivery.DeadLetters.{
  DeadLetterError, not_found, not_dead_letter, reset_for_retry, retry_dead_letter, reset_all,
  retry_all_dead_letters_by_project,
}

-- The row waits for a first attempt, with nothing left of the earlier ones.
abbrev pub IsFresh : EventDelivery → Type 0
IsFresh r =
    (r.status ≡ pending)
    × (r.attempt_count ≡ 0)
    × (r.last_error ≡ none)
    × (r.next_attempt_at ≡ none)

abbrev pub IsReleased : List EventDelivery → ℕ → Type 0
IsReleased ds i = (r : EventDelivery) × (find_by_id i ds ≡ some r) × IsFresh r

abbrev IsStored : List EventDelivery → ℕ → Type 0
IsStored ds i = (r : EventDelivery) × (find_by_id i ds ≡ some r)

module _ (now : ℕ) where
  saved_lem :
      (d : EventDelivery) (ds : List EventDelivery) (i : ℕ) (r : EventDelivery)
      → find_by_id i ds ≡ some r
      → find_by_id i (save now d ds) ≡ some (if d.id == i then record d { updated_at = now } else r)
  saved_lem d ds i r h = find_row-put_row (λ x. x.id) i (record d { updated_at = now }) r ds h

  reset-IsReleased :
      (d : EventDelivery) (ds : List EventDelivery)
      → IsStored ds d.id
      → IsReleased (save now (reset_for_retry d) ds) d.id
  unfolding reset_for_retry
  reset-IsReleased d ds (r, h) = (
    record (reset_for_retry d) { updated_at = now },
    ground (arith, saved_lem (reset_for_retry d) ds d.id r h),
    (refl, refl, refl, refl),
  )

  keep-IsReleased :
      (d : EventDelivery) (ds : List EventDelivery) (i : ℕ)
      → IsReleased ds i
      → IsReleased (save now (reset_for_retry d) ds) i
  unfolding reset_for_retry
  keep-IsReleased d ds i (r, found, fresh) = (
    _,
    saved_lem (reset_for_retry d) ds i r found,
    if_both IsFresh (d.id == i) (refl, refl, refl, refl) fresh,
  )

  keep-IsStored :
      (d : EventDelivery) (ds : List EventDelivery) (i : ℕ)
      → IsStored ds i
      → IsStored (save now (reset_for_retry d) ds) i
  keep-IsStored d ds i (r, found) = (_, saved_lem (reset_for_retry d) ds i r found)

  reset_all-keeps :
      (dead ds : List EventDelivery) (i : ℕ)
      → IsReleased ds i
      → IsReleased (reset_all now dead ds) i
  unfolding reset_all
  reset_all-keeps [] ds i h = h
  reset_all-keeps (d ∷ dead) ds i h =
      reset_all-keeps dead (save now (reset_for_retry d) ds) i (keep-IsReleased d ds i h)

  reset_all-IsReleased :
      (dead ds : List EventDelivery)
      → All (λ d. IsStored ds d.id) dead
      → All (λ d. IsReleased (reset_all now dead ds) d.id) dead
  unfolding reset_all
  reset_all-IsReleased [] ds h = tt
  reset_all-IsReleased (d ∷ dead) ds h =
      let ds' = save now (reset_for_retry d) ds in
      (
        reset_all-keeps dead ds' d.id (reset-IsReleased d ds h.0),
        reset_all-IsReleased dead ds'
            (All-map (λ x stored. keep-IsStored d ds x.id stored) dead h.1),
      )

  -- Retrying all dead letters of a project releases every one that it counts, and at most 100.
  pub retry_every-IsReleased :
      (project_id : ℕ) (db : Db)
      → let (db', count) = retry_all_dead_letters_by_project now project_id db in
        let dead = find_dead_letters_by_project project_id 100 db in
        All (λ d. IsReleased db'.deliveries d.id) dead
        × (count ≡ length dead)
        × (count ≤ 100)
        × (db'.events ≡ db.events)
  unfolding retry_all_dead_letters_by_project find_dead_letters_by_project
  retry_every-IsReleased project_id db =
      let P : EventDelivery → Type 0 = λ d. IsStored db.deliveries d.id in
      let chosen : EventDelivery → Bool =
        λ d. in_project db.events project_id d && is_status d.status dead_letter in
      let rows = order_by updated_after (select chosen db.deliveries) in
      (
        reset_all-IsReleased (take 100 rows) db.deliveries (
            All-take P 100 rows (
              order_by-All updated_after P (select chosen db.deliveries)
                (All-select P chosen db.deliveries (All-find_row (λ x. x.id) db.deliveries)))),
        refl,
        omega (arith, length-take 100 rows),
        refl,
      )

-- What a retry of the row `d` of id `i` may answer.
abbrev pub RetryOutcome :
    ℕ → ℕ → Db → EventDelivery → Result DeadLetterError (Db × EventDelivery) → Type 0
RetryOutcome project_id i db d (ok (db', shown)) =
    (in_project db.events project_id d ≡ true)
    × (is_status d.status dead_letter ≡ true)
    × IsReleased db'.deliveries i
    × IsFresh shown
    × ((j : ℕ) → j ≢ i → find_by_id j db'.deliveries ≡ find_by_id j db.deliveries)
RetryOutcome project_id i db d (err not_found) = in_project db.events project_id d ≡ false
RetryOutcome project_id i db d (err not_dead_letter) =
    (in_project db.events project_id d ≡ true) × (is_status d.status dead_letter ≡ false)

-- A single retry succeeds exactly for a DEAD_LETTER row of the project; it releases that row and
-- keeps every other one. A row of another project is answered as a missing one.
pub retry_dead_letter_exact :
    (now project_id i : ℕ) (db : Db) (d : EventDelivery)
    → find_by_id i db.deliveries ≡ some d
    → RetryOutcome project_id i db d (retry_dead_letter now project_id i db)
unfolding retry_dead_letter
retry_dead_letter_exact now project_id i db d found =
    let same : d.id ≡ i = find_row-key (λ x. x.id) i db.deliveries d found in
    elim (Bool-cases (in_project db.events project_id d)) [
      | inl inside ↦ elim (Bool-cases (is_status d.status dead_letter)) [
        | inl dead ↦
            simp (found, inside, dead)
              (
                refl,
                refl,
                subst (λ j. IsReleased (save now (reset_for_retry d) db.deliveries) j) same
                    (reset-IsReleased now d db.deliveries
                      (d, subst (λ j. find_by_id j db.deliveries ≡ some d) (sym same) found)),
                unfold reset_for_retry in (refl, refl, refl, refl),
                λ j other.
                    unfold reset_for_retry in
                    find_row-put_row_ne (λ x. x.id) j _ db.deliveries (rw same other),
              )
        | inr alive ↦ simp (found, inside, alive) (refl, refl)
      ]
      | inr outside ↦ simp (found, outside) refl
    ]
