-- ===== src/Delivery/Lifecycle.antt =====
-- The lifecycle invariant of deliveries, under every operation of app/worker.py and
-- app/services/dead_letter_service.py that writes one.
use outbox_service.Prelude.{
  Bool, if_both, OnOk, OnOk-bind, Result-cases, String, truncate, ℕ, ◌+◌, ◌≤◌, ◌<◌, ◌≡◌, refl,
  Option, none, some, List, [], ◌∷◌, Result, ok, err, inl, inr, arith, All, Bool-cases,
  Option-cases, leb, if◌then◌else◌, put_row-All,
}
use outbox_service.Delivery.Model.{
  DeliveryStatus, EventDelivery, Event, Failure, Config, Platform, World, Attempt, pending,
  delivered, failed, dead_letter, with_deliveries, publication_error, database_error,
}
use outbox_service.Delivery.Repository.{find_by_id, get_by_id, save}
use outbox_service.Delivery.Service.{deliver, prepare_request, mark_delivered}
use outbox_service.Delivery.Worker.{
  failed_row, persist_delivery_failure, orphan_row, finish_delivery, attempt_delivery,
  deliver_one_delivery, deliver_all, deliver_pending_deliveries, record_failure,
}
use outbox_service.Delivery.Retry.{retry_delay}

-- What a status says of the number of attempts, the last error and the time of the next attempt.
abbrev pub AtStatus : ℕ → ℕ → Option String → Option ℕ → DeliveryStatus → Type 0
AtStatus max attempts error next pending = (attempts ≡ 0) × (next ≡ none)
AtStatus max attempts error next delivered = (1 ≤ attempts) × (error ≡ none)
AtStatus max attempts error next failed =
    (1 ≤ attempts) × (attempts < max) × ((t : ℕ) × (next ≡ some t))
AtStatus max attempts error next dead_letter = next ≡ none

abbrev pub IsCoherent : Config → EventDelivery → Type 0
IsCoherent c d = AtStatus c.max_attempts d.attempt_count d.last_error d.next_attempt_at d.status

abbrev pub IsCoherentWorld : Config → World → Type 0
IsCoherentWorld c w = All (IsCoherent c) w.db.deliveries

module _ (c : Config) (p : Platform) (a : Attempt) where
  failed_row-IsCoherent :
      (f : Failure) (d : EventDelivery) → OnOk (IsCoherent c) (failed_row c p a f d)
  unfolding failed_row
  failed_row-IsCoherent f d = elim (Bool-cases (leb c.max_attempts (d.attempt_count + 1))) [
    | inl last ↦ rw last refl
    | inr more ↦ rw more (
        OnOk-bind (IsCoherent c) (retry_delay c a.uniform (d.attempt_count + 1))
          (λ delay. ok (record d {
            status = failed;
            attempt_count = d.attempt_count + 1;
            last_error = some (truncate 1000 (p.describe f));
            next_attempt_at = some (a.now + delay);
          }))
          (λ delay _. (omega arith, ground arith, (a.now + delay, refl))))
  ]

  save-IsCoherent :
      (d : EventDelivery) (ds : List EventDelivery)
      → IsCoherent c d
      → All (IsCoherent c) ds
      → All (IsCoherent c) (save a.now d ds)
  save-IsCoherent d ds k h =
      put_row-All (λ r. r.id) (IsCoherent c) (record d { updated_at = a.now }) ds k h

  record_failure-IsCoherentWorld :
      (r : Result Failure EventDelivery) (w : World)
      → OnOk (IsCoherent c) r
      → IsCoherentWorld c w
      → IsCoherentWorld c (record_failure c a r w)
  unfolding record_failure
  record_failure-IsCoherentWorld (err f) w k h = h
  record_failure-IsCoherentWorld (ok d) w k h =
      ground (arith, save-IsCoherent d w.db.deliveries k h)

  persist_delivery_failure-IsCoherentWorld :
      (i : ℕ) (f : Failure) (w : World)
      → IsCoherentWorld c w
      → IsCoherentWorld c (persist_delivery_failure c p a i f w)
  unfolding persist_delivery_failure
  persist_delivery_failure-IsCoherentWorld i f w h =
      elim (Option-cases (find_by_id i w.db.deliveries)) [
        | inl missing ↦ rw (missing, persist_delivery_failure) h
        | inr (d, found) ↦
            rw (found, persist_delivery_failure)
              (record_failure-IsCoherentWorld (failed_row c p a f d) w (failed_row-IsCoherent f d)
                h)
      ]

  finish_delivery-IsCoherentWorld :
      (i : ℕ) (r : Result Failure EventDelivery) (w : World)
      → OnOk (IsCoherent c) r
      → IsCoherentWorld c w
      → IsCoherentWorld c (finish_delivery c p a i r w)
  unfolding finish_delivery
  finish_delivery-IsCoherentWorld i (err f) w k h = persist_delivery_failure-IsCoherentWorld i f w h
  finish_delivery-IsCoherentWorld i (ok d) w k h =
      let saved = with_deliveries (save a.now d w.db.deliveries) w in
      let coherent : IsCoherentWorld c saved = save-IsCoherent d w.db.deliveries k h in
      ground (
        arith,
        coherent,
        persist_delivery_failure-IsCoherentWorld i publication_error saved coherent,
        persist_delivery_failure-IsCoherentWorld i database_error w h,
      )

  deliver-IsCoherent : (e : Event) (d : EventDelivery) → OnOk (IsCoherent c) (deliver c p a e d).1
  unfolding deliver mark_delivered
  deliver-IsCoherent e d = elim (Result-cases (prepare_request c p e d)) [
    | inl (post, ready) ↦
        rw (ready, deliver)
          (OnOk-bind (IsCoherent c) a.reply (λ _. ok (mark_delivered d))
            (λ _ _. (omega arith, refl)))
    | inr (f, refused) ↦ rw (refused, deliver) tt
  ]

  attempt_delivery-IsCoherentWorld :
      (e : Event) (d : EventDelivery) (w : World)
      → IsCoherentWorld c w
      → IsCoherentWorld c (attempt_delivery c p a e d w)
  unfolding attempt_delivery
  attempt_delivery-IsCoherentWorld e d w h =
      if_both (IsCoherentWorld c) a.start_ok
        (finish_delivery-IsCoherentWorld d.id (deliver c p a e d).1 _ (deliver-IsCoherent e d) h)
        (persist_delivery_failure-IsCoherentWorld d.id publication_error w h)

  finish_orphan :
      (i : ℕ) (d : EventDelivery) (w : World)
      → IsCoherentWorld c w
      → IsCoherentWorld c (
          if a.commit_ok
          then with_deliveries (save a.now (orphan_row p d) w.db.deliveries) w
          else persist_delivery_failure c p a i database_error w)
  unfolding orphan_row
  finish_orphan i d w h = ground (
    arith,
    save-IsCoherent (orphan_row p d) w.db.deliveries refl h,
    persist_delivery_failure-IsCoherentWorld i database_error w h,
  )

  -- One attempt, whatever happens in it, keeps every delivery coherent.
  pub deliver_one_delivery-IsCoherentWorld :
      (i : ℕ) (w : World) → IsCoherentWorld c w → IsCoherentWorld c (deliver_one_delivery c p a i w)
  unfolding deliver_one_delivery
  deliver_one_delivery-IsCoherentWorld i w h = elim (Option-cases (find_by_id i w.db.deliveries)) [
    | inl missing ↦ rw (missing, deliver_one_delivery) h
    | inr (d, found) ↦ elim (Option-cases (get_by_id d.event_id w.db.events)) [
      | inl gone ↦ rw (found, deliver_one_delivery, gone) (finish_orphan i d w h)
      | inr (e, there) ↦
          rw (found, deliver_one_delivery, there) (attempt_delivery-IsCoherentWorld e d w h)
    ]
  ]

module _ (c : Config) (p : Platform) (weather : ℕ → Attempt) where
  deliver_all-IsCoherentWorld :
      (ids : List ℕ) (w : World)
      → IsCoherentWorld c w
      → IsCoherentWorld c (deliver_all c p weather ids w)
  unfolding deliver_all
  deliver_all-IsCoherentWorld [] w h = h
  deliver_all-IsCoherentWorld (i ∷ ids) w h =
      deliver_all-IsCoherentWorld ids (deliver_one_delivery c p (weather i) i w)
        (deliver_one_delivery-IsCoherentWorld c p (weather i) i w h)

  -- A cycle of the worker keeps every delivery coherent with its status, whatever the requests, the
  -- publications and the commits do: a PENDING delivery has made no attempt and has no scheduled one,
  -- a FAILED one has made between one attempt and fewer than the maximum and has a scheduled one, a
  -- DELIVERED one has made an attempt and shows no error, a DEAD_LETTER one has none scheduled.
  pub deliver_pending_deliveries-IsCoherentWorld :
      (now : ℕ) (locked : ℕ → Bool) (w : World)
      → IsCoherentWorld c w
      → IsCoherentWorld c (deliver_pending_deliveries c p weather now locked w)
  unfolding deliver_pending_deliveries
  deliver_pending_deliveries-IsCoherentWorld now locked w h = deliver_all-IsCoherentWorld _ w h
