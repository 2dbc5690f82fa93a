-- ===== src/Routing/Model.antt =====
-- The rows that routing reads and writes: app/core/event_status.py, app/models/event.py and
-- app/models/route_definition.py, beside the deliveries and the metric executions.
use outbox_service.Prelude.{ℕ, Bool, true, false, Option, List, String}
use outbox_service.Delivery.Model.{EventDelivery, AuthType, AuthConfig}
use outbox_service.Execution.Model.{Store, Event}

pub data EventStatus : Type 0 where
  received routed unroutable failed : EventStatus

-- the event's row: what the metrics read of it, its status and its creation
pub record InboxEvent : Type 0 where
  pub event : Event
  pub status : EventStatus
  pub created_at : ℕ

pub record RouteDefinition : Type 0 where
  pub id : ℕ
  pub event_type_id : ℕ
  pub routing_key : String
  pub destination_name : String
  pub destination_url : String
  pub is_active : Bool
  pub auth_type : AuthType
  pub auth_config : Option AuthConfig
  pub secret_ref : Option String

pub record Db (V : Type 0) : Type 0 where
  pub events : List InboxEvent
  pub routes : List RouteDefinition
  pub deliveries : List EventDelivery
  pub next_delivery_id : ℕ
  pub metrics : Store V

pub data NoticeType : Type 0 where
  event_routed event_unroutable event_failed : NoticeType

-- the runtime event that is published
pub record Notice : Type 0 where
  pub kind : NoticeType
  pub event_id : ℕ
  pub event_status : EventStatus

pub record World (V : Type 0) : Type 0 where
  pub db : Db V
  pub published : List Notice

-- How the savepoint of one event ends: whether its statements, its publication and, after an error,
-- the publication of the error go through.
pub record Round : Type 0 where
  pub unit_ok : Bool
  pub publish_ok : Bool
  pub report_ok : Bool

abbrev pub event_key : InboxEvent → ℕ
event_key e = e.event.id

abbrev pub is_received : EventStatus → Bool
is_received received = true
is_received _ = false
