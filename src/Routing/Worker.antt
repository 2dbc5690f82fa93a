-- ===== src/Routing/Worker.antt =====
-- `route_received_events` and `_route_materialized_event` of app/worker.py with a session of their
-- own, and the queries of app/repositories/event_repository.py and app/repositories/route_repository.py.
use outbox_service.Prelude.{
  ℕ, suc, ◌+◌, Bool, true, false, ◌&&◌, none, some, List, [], ◌∷◌, ◌++◌, String, ◌==◌, leb,
  if◌then◌else◌, select, take, order_by, put_row, length,
}
use outbox_service.Delivery.Model.{EventDelivery, pending}
use outbox_service.Execution.Provider.{ConfigurationError}
use outbox_service.Execution.Materialization.{materialize_for_event}
use outbox_service.Routing.Model.{
  EventStatus, routed, unroutable, InboxEvent, RouteDefinition, Db, event_routed, event_unroutable,
  event_failed, Notice, World, Round, event_key, is_received,
}

-- `find_by_event_type`
unfoldable pub find_by_event_type : ℕ → List RouteDefinition → List RouteDefinition
find_by_event_type event_type_id = select (λ r. r.event_type_id == event_type_id && r.is_active)

-- `ORDER BY created_at`
abbrev pub older : InboxEvent → InboxEvent → Bool
older e f = leb e.created_at f.created_at

-- `find_received`
unfoldable pub find_received : ℕ → List InboxEvent → List InboxEvent
find_received limit es = take limit (order_by older (select (λ e. is_received e.status) es))

-- the delivery of an event to a route, with the columns' defaults
abbrev pub new_delivery : ℕ → ℕ → ℕ → RouteDefinition → EventDelivery
new_delivery now id event_id r = record {
  id = id;
  event_id = event_id;
  destination_name = r.destination_name;
  destination_type = "webhook";
  destination_url = some r.destination_url;
  auth_type = r.auth_type;
  auth_config = r.auth_config;
  secret_ref = r.secret_ref;
  status = pending;
  attempt_count = 0;
  last_error = none;
  next_attempt_at = none;
  created_at = now;
  updated_at = now;
}

-- the loop over the routes
unfoldable pub create_deliveries : ℕ → ℕ → ℕ → List RouteDefinition → List EventDelivery
create_deliveries now id event_id [] = []
create_deliveries now id event_id (r ∷ rs) =
    new_delivery now id event_id r ∷ create_deliveries now (suc id) event_id rs

unfoldable pub status_for : List RouteDefinition → EventStatus
status_for [] = unroutable
status_for (_ ∷ _) = routed

unfoldable pub notice_for : ℕ → List RouteDefinition → Notice
notice_for event_id [] = record {
  kind = event_unroutable;
  event_id = event_id;
  event_status = unroutable;
}
notice_for event_id (_ ∷ _) = record {
  kind = event_routed;
  event_id = event_id;
  event_status = routed;
}

module _ {V : Type 0} where
  -- the rows that `_route_materialized_event` writes
  unfoldable pub route_materialized_event : ℕ → InboxEvent → Db V → Db V
  route_materialized_event now e db =
      let routes = find_by_event_type e.event.event_type_id db.routes in
      record db {
        deliveries = db.deliveries ++ create_deliveries now db.next_delivery_id e.event.id routes;
        next_delivery_id = db.next_delivery_id + length routes;
        events = put_row event_key (record e { status = status_for routes }) db.events;
      }

  -- the `except` of an event: the savepoint is taken back, and whether the cycle goes on
  unfoldable pub report_failure : Round → InboxEvent → World V → World V × Bool
  report_failure h e w =
      if h.report_ok
      then (
        record w {
          published =
              w.published
              ++ record { kind = event_failed; event_id = e.event.id; event_status = e.status }
                ∷ [];
        },
        true,
      )
      else (w, false)

  module _ (describe : ConfigurationError → String) (now : ℕ) where
    -- the savepoint of one event
    unfoldable pub route_event : InboxEvent → Db V → Db V
    route_event e db =
        let (metrics, _) = materialize_for_event describe now e.event db.metrics in
        route_materialized_event now e (record db { metrics = metrics })

    -- one round of the loop over the events
    unfoldable pub process_event : Round → InboxEvent → World V → World V × Bool
    process_event h e w =
        if h.unit_ok && h.publish_ok
        then (
          record w {
            db = route_event e w.db;
            published =
                w.published
                ++ notice_for e.event.id (find_by_event_type e.event.event_type_id w.db.routes)
                  ∷ [];
          },
          true,
        )
        else report_failure h e w

    unfoldable pub process_events : (ℕ → Round) → List InboxEvent → World V → World V × Bool
    process_events rounds [] w = (w, true)
    process_events rounds (e ∷ es) w =
        let (w', goes_on) = process_event (rounds e.event.id) e w in
        let rest = process_events rounds es w' in if goes_on then rest else (w', false)

    -- `route_received_events`; without its commit the tables are as before
    unfoldable pub route_received_events : (ℕ → Round) → Bool → World V → World V
    route_received_events rounds commit_ok w =
        let (w', done) = process_events rounds (find_received 100 w.db.events) w in
        if done && commit_ok then w' else record w' { db = w.db }
