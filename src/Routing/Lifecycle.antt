-- ===== src/Routing/Lifecycle.antt =====
-- An event and its deliveries: what the status of each event says of them, after every cycle.
use outbox_service.Prelude.{
  ℕ, ◌≤◌, ◌≡◌, refl, ◌∙◌, subst, Bool, true, false, ◌&&◌, some, List, [], ◌∷◌, ◌++◌, String, ◌==◌,
  if_both, arith, All, All-map, All-both, All-take, All-select, select-All, order_by-All, select,
  length, IsKeyed, select-IsKeyed, take-IsKeyed, order_by-IsKeyed, put_row-IsKeyed,
  put_row-All_other, find_row, find_row-All, find_row-IsKeyed, find_row-put_row_ne,
}
use outbox_service.Delivery.Model.{EventDelivery}
use outbox_service.Execution.Provider.{ConfigurationError}
use outbox_service.Routing.Model.{
  EventStatus, received, routed, unroutable, failed, InboxEvent, RouteDefinition, Db, World, Round,
  event_key, is_received,
}
use outbox_service.Routing.Worker.{
  find_by_event_type, older, find_received, create_deliveries, status_for, route_materialized_event,
  report_failure, route_event, process_event, process_events, route_received_events,
}
use outbox_service.Execution.Materialization.{materialize_for_event}
use outbox_service.Routing.Counts.{
  deliveries_of, deliveries_of-append, deliveries_of-created, deliveries_of-other,
}

-- what a status says of the number of the deliveries
abbrev pub AtStatus : ℕ → EventStatus → Type 0
AtStatus n received = n ≡ 0
AtStatus n routed = 1 ≤ n
AtStatus n unroutable = n ≡ 0
AtStatus n failed = Unit

abbrev pub IsSettled : List EventDelivery → InboxEvent → Type 0
IsSettled ds e = AtStatus (deliveries_of e.event.id ds) e.status

pub record IsRouted {V : Type 0} (db : Db V) : Type 0 where
  pub keyed : IsKeyed event_key db.events
  pub settled : All (IsSettled db.deliveries) db.events

status_for-AtStatus :
    (rs : List RouteDefinition) (n : ℕ) → n ≡ length rs → AtStatus n (status_for rs)
unfolding status_for
status_for-AtStatus [] n h = h
status_for-AtStatus (r ∷ rs) n h = omega (arith, h)

-- an event that waits: its row is the one of the batch, and it is RECEIVED
abbrev pub IsWaiting : List InboxEvent → InboxEvent → Type 0
IsWaiting rows e = (find_row event_key (event_key e) rows ≡ some e) × (e.status ≡ received)

-- the deliveries of an event that waits
waiting_count :
    (ds : List EventDelivery) (e : InboxEvent)
    → IsSettled ds e
    → e.status ≡ received
    → deliveries_of e.event.id ds ≡ 0
waiting_count ds e h is = subst (AtStatus (deliveries_of e.event.id ds)) is h

module _ {V : Type 0} (now : ℕ) where
  route-IsRouted :
      (e : InboxEvent) (db : Db V)
      → IsRouted db
      → IsWaiting db.events e
      → IsRouted (route_materialized_event now e db)
  unfolding route_materialized_event
  route-IsRouted e db h (stored, is) =
      let routes = find_by_event_type e.event.event_type_id db.routes in
      let made = create_deliveries now db.next_delivery_id e.event.id routes in
      let old : deliveries_of e.event.id db.deliveries ≡ 0 =
        waiting_count db.deliveries e
          (find_row-All event_key (IsSettled db.deliveries) (event_key e) db.events e h.settled
            stored)
          is in
      let done : InboxEvent = record e { status = status_for routes } in
      record {
        keyed = put_row-IsKeyed event_key done db.events h.keyed;
        settled =
            put_row-All_other event_key (IsSettled (db.deliveries ++ made)) done db.events h.keyed
              (status_for-AtStatus routes _ (
                omega (
                  arith,
                  old,
                  deliveries_of-append e.event.id db.deliveries made,
                  deliveries_of-created now db.next_delivery_id e.event.id routes,
                )))
              (All-map
                (λ f settled other.
                  subst (λ n. AtStatus n f.status)
                    (omega (
                      arith,
                      deliveries_of-append f.event.id db.deliveries made,
                      deliveries_of-other now db.next_delivery_id e.event.id f.event.id routes
                          other,
                    ))
                    settled)
                db.events h.settled);
      }

  route-IsWaiting :
      (e f : InboxEvent) (db : Db V)
      → (event_key e == event_key f) ≡ false
      → IsWaiting db.events f
      → IsWaiting (route_materialized_event now e db).events f
  unfolding route_materialized_event
  route-IsWaiting e f db other (stored, is) = (
    find_row-put_row_ne event_key (event_key f) _ db.events (λ same. ground (arith, same)) ∙ stored,
    is,
  )

module _ {V : Type 0} (describe : ConfigurationError → String) (now : ℕ) where
  -- the tables are sound, and the events that are left in the batch wait
  abbrev IsReady : List InboxEvent → Db V → Type 0
  IsReady es db = IsRouted db × All (IsWaiting db.events) es

  route_event-IsReady :
      (e : InboxEvent) (es : List InboxEvent) (db : Db V)
      → IsKeyed event_key (e ∷ es)
      → IsReady (e ∷ es) db
      → IsReady es (route_event describe now e db)
  unfolding route_event
  route_event-IsReady e es db keyed (h, (waiting, others)) =
      let db' : Db V = record db {
        metrics = (materialize_for_event describe now e.event db.metrics).0;
      } in
      (
        route-IsRouted now e db' (record { keyed = h.keyed; settled = h.settled }) waiting,
        All-both (λ f other waits. route-IsWaiting now e f db' other waits) es keyed.0 others,
      )

  process_event-IsReady :
      (r : Round) (e : InboxEvent) (es : List InboxEvent) (w : World V)
      → IsKeyed event_key (e ∷ es)
      → IsReady (e ∷ es) w.db
      → IsReady es (process_event describe now r e w).0.db
  unfolding process_event report_failure
  process_event-IsReady r e es w keyed h =
      let Ready : World V × Bool → Type 0 = λ a. IsReady es a.0.db in
      if_both Ready (r.unit_ok && r.publish_ok) (route_event-IsReady e es w.db keyed h)
        (if_both Ready r.report_ok (h.0, h.1.1) (h.0, h.1.1))

  process_events-IsRouted :
      (rounds : ℕ → Round) (es : List InboxEvent) (w : World V)
      → IsKeyed event_key es
      → IsReady es w.db
      → IsRouted (process_events describe now rounds es w).0.db
  unfolding process_events
  process_events-IsRouted rounds [] w keyed h = h.0
  process_events-IsRouted rounds (e ∷ es) w keyed h =
      let (w', goes_on) = process_event describe now (rounds e.event.id) e w in
      let ready = process_event-IsReady (rounds e.event.id) e es w keyed h in
      if_both (λ (a : World V × Bool). IsRouted a.0.db) goes_on
        (process_events-IsRouted rounds es w' keyed.1 ready) ready.0

-- the batch: distinct rows of the table, RECEIVED
find_received-IsKeyed :
    (limit : ℕ) (es : List InboxEvent)
    → IsKeyed event_key es
    → IsKeyed event_key (find_received limit es)
unfolding find_received
find_received-IsKeyed limit es h =
    take-IsKeyed event_key limit _ (
      order_by-IsKeyed event_key older _
        (select-IsKeyed event_key (λ e. is_received e.status) es h))

is_received_sound : (s : EventStatus) → is_received s ≡ true → s ≡ received
is_received_sound received h = refl
is_received_sound routed h = cc
is_received_sound unroutable h = cc
is_received_sound failed h = cc

pub find_received-waits :
    (limit : ℕ) (es : List InboxEvent)
    → IsKeyed event_key es
    → All (IsWaiting es) (find_received limit es)
unfolding find_received
find_received-waits limit es h =
    let Received : InboxEvent → Type 0 = λ e. is_received e.status ≡ true in
    let Stored : InboxEvent → Type 0 = λ e. find_row event_key (event_key e) es ≡ some e in
    let chosen = select (λ e. is_received e.status) es in
    All-take (IsWaiting es) limit _ (
      order_by-All older (IsWaiting es) chosen (
        All-both (λ e stored is. (stored, is_received_sound e.status is)) chosen
          (All-select Stored (λ e. is_received e.status) es (find_row-IsKeyed event_key es h))
          (select-All (λ e. is_received e.status) es)))

-- If event ids are unique, and a RECEIVED or UNROUTABLE event has no delivery and a ROUTED one at
-- least one, a cycle of `route_received_events` keeps that, whichever savepoints, publications and
-- commits fail.
pub route_received_events-IsRouted :
    {V : Type 0} (describe : ConfigurationError → String) (now : ℕ) (rounds : ℕ → Round)
    (commit_ok : Bool) (w : World V)
    → IsRouted w.db
    → IsRouted (route_received_events describe now rounds commit_ok w).db
unfolding route_received_events
route_received_events-IsRouted {V} describe now rounds commit_ok w h =
    let batch = find_received 100 w.db.events in
    let (w', done) = process_events describe now rounds batch w in
    if_both (λ (a : World V). IsRouted a.db) (done && commit_ok)
      (process_events-IsRouted describe now rounds batch w
        (find_received-IsKeyed 100 w.db.events h.keyed)
        (h, find_received-waits 100 w.db.events h.keyed))
      h
