-- ===== src/Delivery/Tests.antt =====
-- Runs of the delivery pipeline, and its theorems at a small database.
use outbox_service.Prelude.{
  ◌+◌, ◌≤◌, ◌≡◌, refl, true, false, none, some, List, [], ◌∷◌, ◌++◌, ok, err, All, length,
}
use outbox_service.Delivery.Model.{
  EventDelivery, Event, Config, Platform, World, Attempt, Post, no_auth, pending, failed,
  dead_letter, request_failed,
}
use outbox_service.Delivery.Repository.{find_by_id, find_dead_letters_by_project}
use outbox_service.Delivery.Retry.{backoff_seconds}
use outbox_service.Delivery.Service.{
  prepare_request, build_headers, destination, is_web_scheme, mark_delivered,
  validate_destination_url,
}
use outbox_service.Delivery.Lifecycle.{IsCoherentWorld, deliver_pending_deliveries-IsCoherentWorld}
use outbox_service.Delivery.Requests.{
  IsAllowedPost, Sends, deliver_one_delivery-Sends, deliver_pending_deliveries-IsAllowed,
}
use outbox_service.Delivery.Hazards.{
  IsReady, deliver_one_delivery_twice, deliver_one_delivery_unannounced,
}
use outbox_service.Delivery.DeadLetters.{retry_all_dead_letters_by_project}
use outbox_service.Delivery.Release.{IsReleased, retry_every-IsReleased}
use outbox_service.Delivery.Worker.{deliver_one_delivery, deliver_pending_deliveries}

abbrev settings : Config
settings = record {
  max_attempts = 3;
  retry_strategy = "exponential";
  initial_delay = 5;
  max_delay = 600;
  jitter = false;
  require_https = true;
  secret_provider = "environment";
}

abbrev machine : Platform
machine = record {
  getenv = λ _. none;
  urlsplit = λ _.
      ok (record {
        scheme = "https";
        hostname = some "a.example";
        username = none;
        password = none;
      });
  describe = λ _. "failed";
}

abbrev order_placed : Event
order_placed = record {
  id = 1;
  event_uuid = "u-1";
  project_id = 7;
  event_type_id = 2;
  correlation_id = none;
  payload = "{}";
}

abbrev waiting : EventDelivery
waiting = record {
  id = 4;
  event_id = 1;
  destination_name = "crm";
  destination_type = "webhook";
  destination_url = some "https://a.example/hook";
  auth_type = no_auth;
  auth_config = none;
  secret_ref = none;
  status = pending;
  attempt_count = 0;
  last_error = none;
  next_attempt_at = none;
  created_at = 10;
  updated_at = 10;
}

abbrev buried : EventDelivery
buried = record waiting { id = 5; status = dead_letter; attempt_count = 3; last_error = some "x" }

abbrev start : World
start = record {
  db = record { events = order_placed ∷ []; deliveries = waiting ∷ buried ∷ [] };
  posts = [];
  published = [];
}

abbrev fine : Attempt
fine = record {
  reply = ok tt;
  start_ok = true;
  commit_ok = true;
  announce_ok = true;
  report_ok = true;
  record_ok = true;
  now = 100;
  uniform = λ d. d;
}

abbrev refused : Attempt
refused = record fine { reply = err (request_failed 503) }

abbrev request : Post
request = record {
  delivery_id = 4;
  url = "https://a.example/hook";
  body = "{}";
  headers = ("Idempotency-Key", "u-1") ∷ ("X-Outbox-Event-Id", "u-1") ∷ [];
}

request_ready : prepare_request settings machine order_placed waiting ≡ ok request
unfolding prepare_request validate_destination_url build_headers destination is_web_scheme
request_ready = refl

start-IsCoherentWorld : IsCoherentWorld settings start
start-IsCoherentWorld = ((refl, refl), (refl, tt))

deliver_pending_deliveries-IsCoherentWorld_example :
    IsCoherentWorld settings
      (deliver_pending_deliveries settings machine (λ _. refused) 50 (λ _. false) start)
deliver_pending_deliveries-IsCoherentWorld_example =
    deliver_pending_deliveries-IsCoherentWorld settings machine (λ _. refused) 50 (λ _. false) start
      start-IsCoherentWorld

backoff_grows : backoff_seconds 5 600 4 ≡ 40
unfolding backoff_seconds
backoff_grows = refl

deliver_one_delivery-Sends_example :
    Sends settings machine 4 start (deliver_one_delivery settings machine fine 4 start)
deliver_one_delivery-Sends_example = deliver_one_delivery-Sends settings machine fine 4 start

deliver_pending_deliveries-IsAllowed_example :
    All
      (IsAllowedPost settings machine)
      (deliver_pending_deliveries settings machine (λ _. fine) 50 (λ _. false) start).posts
deliver_pending_deliveries-IsAllowed_example =
    deliver_pending_deliveries-IsAllowed settings machine (λ _. fine) 50 (λ _. false) start tt

start-IsReady : IsReady settings machine 4 start waiting order_placed request
start-IsReady = record { found = refl; there = refl; ready = request_ready }

deliver_one_delivery_twice_example :
    (find_by_id 4 (deliver_one_delivery settings machine fine 4 start).db.deliveries
      ≡ some (record (mark_delivered waiting) { updated_at = 100 }))
    × ((deliver_one_delivery settings machine refused 4
          (deliver_one_delivery settings machine fine 4 start)).posts
        ≡ ([] ++ request ∷ []) ++ request ∷ [])
deliver_one_delivery_twice_example =
    deliver_one_delivery_twice settings machine 4 start waiting order_placed request fine refused
      start-IsReady refl refl refl refl refl

abbrev unannounced : Attempt
unannounced = record fine { announce_ok = false }

deliver_one_delivery_unannounced_example :
    (d' : EventDelivery) × (find_by_id 4
        (deliver_one_delivery settings machine unannounced 4 start).db.deliveries
      ≡ some d')
    × (d'.attempt_count ≡ 0 + 2)
    × (d'.status ≡ failed)
deliver_one_delivery_unannounced_example =
    deliver_one_delivery_unannounced settings machine 4 start waiting order_placed request
      unannounced start-IsReady refl refl refl refl refl refl refl

retry_every-IsReleased_example :
    let (db', count) = retry_all_dead_letters_by_project 200 7 start.db in
    let dead = find_dead_letters_by_project 7 100 start.db in
    All (λ d. IsReleased db'.deliveries d.id) dead
    × (count ≡ length dead)
    × (count ≤ 100)
    × (db'.events ≡ start.db.events)
retry_every-IsReleased_example = retry_every-IsReleased 200 7 start.db
