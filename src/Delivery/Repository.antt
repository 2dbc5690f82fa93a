-- ===== src/Delivery/Repository.antt =====
-- app/repositories/event_delivery_repository.py: the queries on deliveries. A `SELECT` is a filter, a
-- sort and a limit over the rows of the table.
use outbox_service.Prelude.{
  not, ℕ, ◌+◌, ◌-◌, ◌/◌, Bool, true, false, ◌&&◌, ◌||◌, Option, none, some, List, [], ◌∷◌, length,
  leb, ltb, ◌==◌, if◌then◌else◌, select, take, find_row, put_row, order_by,
}
use outbox_service.Delivery.Model.{
  DeliveryStatus, pending, delivered, failed, dead_letter, EventDelivery, Event, Db,
}

-- `find_by_id`
abbrev pub find_by_id : ℕ → List EventDelivery → Option EventDelivery
find_by_id = find_row (λ d. d.id)

-- `EventRepository.get_by_id`
abbrev pub get_by_id : ℕ → List Event → Option Event
get_by_id = find_row (λ e. e.id)

-- `save`: the flush of the changed row, which stamps `updated_at` (`onupdate` of the model)
abbrev pub save : ℕ → EventDelivery → List EventDelivery → List EventDelivery
save now d = put_row (λ r. r.id) (record d { updated_at = now })

abbrev pub is_status : DeliveryStatus → DeliveryStatus → Bool
is_status pending pending = true
is_status delivered delivered = true
is_status failed failed = true
is_status dead_letter dead_letter = true
is_status _ _ = false

-- `next_attempt_at IS NULL OR next_attempt_at <= now()`
abbrev pub is_due : ℕ → Option ℕ → Bool
is_due now none = true
is_due now (some t) = leb t now

-- the `WHERE` of `find_pending_and_retryable`
unfoldable pub is_eligible : ℕ → ℕ → EventDelivery → Bool
is_eligible max_attempts now d =
    is_status d.status pending
    || is_status d.status failed && ltb d.attempt_count max_attempts && is_due now d.next_attempt_at

abbrev pub created_before : EventDelivery → EventDelivery → Bool
created_before a b = leb a.created_at b.created_at

abbrev pub updated_after : EventDelivery → EventDelivery → Bool
updated_after a b = leb b.updated_at a.updated_at

-- `find_pending`
unfoldable pub find_pending : ℕ → List EventDelivery → List EventDelivery
find_pending limit ds =
    take limit (order_by created_before (select (λ d. is_status d.status pending) ds))

-- `find_pending_and_retryable`; `FOR UPDATE SKIP LOCKED` leaves out the ids that another transaction
-- has locked
unfoldable pub find_pending_and_retryable :
    ℕ → ℕ → ℕ → (ℕ → Bool) → List EventDelivery → List EventDelivery
find_pending_and_retryable max_attempts limit now locked ds =
    take limit (
      order_by created_before
        (select (λ d. is_eligible max_attempts now d && not (locked d.id)) ds))

-- `find_dead_letters`
unfoldable pub find_dead_letters : ℕ → List EventDelivery → List EventDelivery
find_dead_letters limit ds =
    take limit (order_by updated_after (select (λ d. is_status d.status dead_letter) ds))

-- `delivery.event.project_id == project_id`, through the join with the event table
unfoldable pub in_project : List Event → ℕ → EventDelivery → Bool
in_project events project_id d = elim (get_by_id d.event_id events) [
  | none ↦ false
  | some e ↦ e.project_id == project_id
]

-- `find_dead_letters_by_project`
unfoldable pub find_dead_letters_by_project : ℕ → ℕ → Db → List EventDelivery
unfolding in_project
find_dead_letters_by_project project_id limit db = take limit (
    order_by updated_after (
      select (λ d. in_project db.events project_id d && is_status d.status dead_letter)
        db.deliveries))

-- `count_all`
unfoldable pub count_all : List EventDelivery → ℕ
count_all = length

-- `count_by_status`
unfoldable pub count_by_status : DeliveryStatus → List EventDelivery → ℕ
count_by_status s ds = length (select (λ d. is_status d.status s) ds)

-- `sum(attempt_count - 1)`, over the rows with more than one attempt
retries_in : List EventDelivery → ℕ
retries_in [] = 0
retries_in (d ∷ ds) = (if ltb 1 d.attempt_count then d.attempt_count - 1 else 0) + retries_in ds

-- `count_retries`
unfoldable pub count_retries : List EventDelivery → ℕ
unfolding retries_in
count_retries = retries_in

earliest : Option ℕ → ℕ → Option ℕ
earliest none t = some t
earliest (some u) t = some (if leb u t then u else t)

-- `min(created_at)`
min_created_at : List EventDelivery → Option ℕ
unfolding earliest
min_created_at [] = none
min_created_at (d ∷ ds) = earliest (min_created_at ds) d.created_at

-- `get_oldest_pending_age_seconds`: the clock is in microseconds, the answer in whole seconds
unfoldable pub get_oldest_pending_age : ℕ → List EventDelivery → Option ℕ
unfolding min_created_at
get_oldest_pending_age now ds =
    elim (min_created_at (select (λ d. is_status d.status pending) ds)) [
      | none ↦ none
      | some t ↦ some ((now - t) / 1000000)
    ]
