-- ===== src/Delivery/DeadLetters.antt =====
-- app/services/dead_letter_service.py: the list of dead letters and their release for another try.
use outbox_service.Prelude.{
  ℕ, not, none, List, [], ◌∷◌, length, Result, ok, ◌>>=◌, ◌>>◌, raise_if, or_raise,
}
use outbox_service.Delivery.Model.{EventDelivery, Db, pending, dead_letter}
use outbox_service.Delivery.Repository.{
  find_by_id, save, is_status, in_project, find_dead_letters_by_project,
}

pub data DeadLetterError : Type 0 where
  not_found not_dead_letter : DeadLetterError

-- `_reset_for_retry`
unfoldable pub reset_for_retry : EventDelivery → EventDelivery
reset_for_retry d = record d {
  status = pending;
  last_error = none;
  attempt_count = 0;
  next_attempt_at = none;
}

-- `list_dead_letters_by_project`: the rows that the answer copies
unfoldable pub list_dead_letters_by_project : ℕ → Db → List EventDelivery
list_dead_letters_by_project project_id db = find_dead_letters_by_project project_id 100 db

-- `retry_dead_letter`: the new database and the row that the answer shows
unfoldable pub retry_dead_letter : ℕ → ℕ → ℕ → Db → Result DeadLetterError (Db × EventDelivery)
unfolding reset_for_retry in_project
retry_dead_letter now project_id delivery_id db = do
  d ← or_raise (find_by_id delivery_id db.deliveries) not_found
  raise_if (not (in_project db.events project_id d)) not_found
  raise_if (not (is_status d.status dead_letter)) not_dead_letter
  let d' = reset_for_retry d
  ok (record db { deliveries = save now d' db.deliveries }, d')

-- the loop of `retry_all_dead_letters_by_project`
unfoldable pub reset_all : ℕ → List EventDelivery → List EventDelivery → List EventDelivery
unfolding reset_for_retry
reset_all now [] ds = ds
reset_all now (d ∷ dead) ds = reset_all now dead (save now (reset_for_retry d) ds)

-- `retry_all_dead_letters_by_project`: the new database and `retried_count`
unfoldable pub retry_all_dead_letters_by_project : ℕ → ℕ → Db → Db × ℕ
unfolding reset_all
retry_all_dead_letters_by_project now project_id db =
    let dead = find_dead_letters_by_project project_id 100 db in
    (record db { deliveries = reset_all now dead db.deliveries }, length dead)
