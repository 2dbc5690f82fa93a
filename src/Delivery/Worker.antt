-- ===== src/Delivery/Worker.antt =====
-- The delivery half of app/worker.py, as the worker runs it: each function opens and closes a session
-- of its own.
use outbox_service.Prelude.{
  Bool, ℕ, ◌+◌, none, some, List, [], ◌∷◌, ◌++◌, map, Result, ok, err, ◌>>=◌, leb, if◌then◌else◌,
  truncate,
}
use outbox_service.Delivery.Model.{
  EventDelivery, Event, Failure, Config, Platform, World, Attempt, RuntimeEvent, publish,
  with_deliveries, failed, dead_letter, database_error, publication_error, delivery_started,
  event_not_found, delivery_succeeded, delivery_failed, delivery_dead_lettered,
}
use outbox_service.Delivery.Repository.{find_by_id, get_by_id, save, find_pending_and_retryable}
use outbox_service.Delivery.Retry.{retry_delay}
use outbox_service.Delivery.Service.{deliver}

-- `persist_delivery_failure` on the row that it found: the new row and the event to publish, or what
-- `retry_delay_seconds` raises.
unfoldable pub failed_row :
    Config → Platform → Attempt → Failure → EventDelivery → Result Failure EventDelivery
failed_row c p a error d =
    let attempts = d.attempt_count + 1 in
    let last_error = some (truncate 1000 (p.describe error)) in
    if leb c.max_attempts attempts
    then ok (record d {
      status = dead_letter;
      attempt_count = attempts;
      last_error = last_error;
      next_attempt_at = none;
    })
    else do
      delay ← retry_delay c a.uniform attempts
      ok (record d {
        status = failed;
        attempt_count = attempts;
        last_error = last_error;
        next_attempt_at = some (a.now + delay);
      })

-- the event that `persist_delivery_failure` publishes
unfoldable pub failure_event : Config → EventDelivery → RuntimeEvent
failure_event c d = record {
  kind = if leb c.max_attempts d.attempt_count then delivery_dead_lettered else delivery_failed;
  delivery_id = d.id;
  delivery_status = d.status;
}

-- the publication, the save and the commit; whatever raises rolls the row back
unfoldable pub record_failure : Config → Attempt → Result Failure EventDelivery → World → World
record_failure c a (err _) w = w
record_failure c a (ok d) w =
    if a.report_ok
    then (let told = publish (failure_event c d) w in
        if a.record_ok then with_deliveries (save a.now d w.db.deliveries) told else told)
    else w

-- `persist_delivery_failure`
unfoldable pub persist_delivery_failure : Config → Platform → Attempt → ℕ → Failure → World → World
persist_delivery_failure c p a delivery_id error w = elim (find_by_id delivery_id w.db.deliveries) [
  | none ↦ w
  | some d ↦ record_failure c a (failed_row c p a error d) w
]

-- the branch of `deliver_one_delivery` for a delivery whose event is gone
unfoldable pub orphan_row : Platform → EventDelivery → EventDelivery
orphan_row p d = record d {
  status = dead_letter;
  last_error = some (p.describe (event_not_found d.event_id));
  next_attempt_at = none;
}

-- after `deliver`: the save, the commit and the publication, or the failure path after a rollback
unfoldable pub finish_delivery :
    Config → Platform → Attempt → ℕ → Result Failure EventDelivery → World → World
finish_delivery c p a delivery_id (err f) w = persist_delivery_failure c p a delivery_id f w
finish_delivery c p a delivery_id (ok d) w =
    if a.commit_ok
    then (let committed = with_deliveries (save a.now d w.db.deliveries) w in
        if a.announce_ok
        then publish
            (record { kind = delivery_succeeded; delivery_id = d.id; delivery_status = d.status })
            committed
        else persist_delivery_failure c p a delivery_id publication_error committed)
    else persist_delivery_failure c p a delivery_id database_error w

-- the request of one attempt, after DELIVERY_STARTED is published
unfoldable pub attempt_delivery :
    Config → Platform → Attempt → Event → EventDelivery → World → World
attempt_delivery c p a e d w =
    if a.start_ok
    then (let started =
          publish
            (record { kind = delivery_started; delivery_id = d.id; delivery_status = d.status })
            w in
        let (posts, outcome) = deliver c p a e d in
        finish_delivery c p a d.id outcome (record started { posts = started.posts ++ posts }))
    else persist_delivery_failure c p a d.id publication_error w

-- `deliver_one_delivery`
unfoldable pub deliver_one_delivery : Config → Platform → Attempt → ℕ → World → World
deliver_one_delivery c p a delivery_id w = elim (find_by_id delivery_id w.db.deliveries) [
  | none ↦ w
  | some d ↦ elim (get_by_id d.event_id w.db.events) [
    | none ↦
        if a.commit_ok
        then with_deliveries (save a.now (orphan_row p d) w.db.deliveries) w
        else persist_delivery_failure c p a delivery_id database_error w
    | some e ↦ attempt_delivery c p a e d w
  ]
]

-- the loop of `deliver_pending_deliveries`; `weather` is what happens during each attempt
unfoldable pub deliver_all : Config → Platform → (ℕ → Attempt) → List ℕ → World → World
deliver_all c p weather [] w = w
deliver_all c p weather (i ∷ ids) w =
    deliver_all c p weather ids (deliver_one_delivery c p (weather i) i w)

-- `deliver_pending_deliveries`: the ids are read in a session that is closed before the first attempt;
-- `locked` tells the rows that another session has locked meanwhile
unfoldable pub deliver_pending_deliveries :
    Config → Platform → (ℕ → Attempt) → ℕ → (ℕ → Bool) → World → World
deliver_pending_deliveries c p weather now locked w =
    deliver_all c p weather
      (map (λ d. d.id) (find_pending_and_retryable c.max_attempts 100 now locked w.db.deliveries)) w
