-- ===== src/Routing/Tests.antt =====
-- A cycle over two events, one with a route and one without.
use outbox_service.Prelude.{ℕ, ◌≡◌, refl, true, false, none, some, [], ◌∷◌, find_row}
use outbox_service.Delivery.Model.{no_auth}
use outbox_service.Execution.Model.{Event, Store}
use outbox_service.Routing.Model.{
  received, routed, unroutable, InboxEvent, RouteDefinition, World, Round, event_key,
}
use outbox_service.Routing.Worker.{
  find_by_event_type, find_received, status_for, route_materialized_event, route_event,
  process_event, process_events, route_received_events,
}
use outbox_service.Routing.Counts.{deliveries_of}
use outbox_service.Routing.Lifecycle.{IsRouted, route_received_events-IsRouted}
use outbox_service.Routing.Once.{route_received_events_once}

abbrev payload_of : ℕ → ℕ → Event
payload_of id event_type_id = record {
  id = id;
  project_id = 7;
  event_type_id = event_type_id;
  schema_definition_id = 3;
  json_version_internal = "1";
  payload = "{}";
  type_project_id = 7;
  schema_event_type_id = event_type_id;
  schema_json_version_internal = "1";
}

abbrev arrived : InboxEvent
arrived = record { event = payload_of 1 2; status = received; created_at = 10 }

abbrev stranger : InboxEvent
stranger = record { event = payload_of 2 9; status = received; created_at = 5 }

abbrev refused : InboxEvent
refused = record { event = payload_of 3 9; status = unroutable; created_at = 1 }

abbrev to_crm : RouteDefinition
to_crm = record {
  id = 1;
  event_type_id = 2;
  routing_key = "orders";
  destination_name = "crm";
  destination_url = "https://a.example/hook";
  is_active = true;
  auth_type = no_auth;
  auth_config = none;
  secret_ref = none;
}

abbrev no_metrics : Store ℕ
no_metrics = record {
  events = [];
  chains = [];
  plans = [];
  compatibilities = [];
  processings = [];
  executions = [];
  observations = [];
  next_processing_id = 1;
  next_execution_id = 1;
}

abbrev start : World ℕ
start = record {
  db = record {
    events = arrived ∷ stranger ∷ refused ∷ [];
    routes = to_crm ∷ record to_crm { id = 2; is_active = false } ∷ [];
    deliveries = [];
    next_delivery_id = 1;
    metrics = no_metrics;
  };
  published = [];
}

abbrev fine : Round
fine = record { unit_ok = true; publish_ok = true; report_ok = true }

cycle : World ℕ
cycle = route_received_events (λ _. "defect") 100 (λ _. fine) true start

cycle_routes :
    cycle.db.events
    ≡ record arrived { status = routed } ∷ record stranger { status = unroutable } ∷ refused ∷ []
unfolding cycle route_received_events process_events process_event route_event
    route_materialized_event find_received find_by_event_type status_for
cycle_routes = refl

start-IsRouted : IsRouted start.db
unfolding deliveries_of
start-IsRouted = record {
  keyed = ((refl, (refl, tt)), ((refl, tt), (tt, tt)));
  settled = (refl, (refl, (refl, tt)));
}

route_received_events-IsRouted_example :
    IsRouted (route_received_events (λ _. "defect") 100 (λ _. fine) true start).db
route_received_events-IsRouted_example =
    route_received_events-IsRouted (λ _. "defect") 100 (λ _. fine) true start start-IsRouted

route_received_events_once_example :
    let w' = route_received_events (λ _. "defect") 100 (λ _. fine) true start in
    (find_row event_key 3 w'.db.events ≡ some refused)
    × (deliveries_of 3 w'.db.deliveries ≡ deliveries_of 3 start.db.deliveries)
route_received_events_once_example =
    route_received_events_once (λ _. "defect") 100 (λ _. fine) true start 3 refused
      start-IsRouted.keyed refl (λ is. cc)
