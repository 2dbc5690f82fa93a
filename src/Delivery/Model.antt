-- ===== src/Delivery/Model.antt =====
-- The rows and values of the delivery pipeline: app/core/delivery_status.py, app/core/auth_type.py,
-- app/models/event_delivery.py, the fields of app/models/event.py that it reads, the delivery part of
-- app/services/config_service.py, and app/runtime/runtime_event.py. Times are microseconds.
use outbox_service.Prelude.{ℕ, Bool, Option, List, [], ◌∷◌, String, ◌++◌, Result}

pub data DeliveryStatus : Type 0 where
  pending delivered failed dead_letter : DeliveryStatus

-- the column is a text: a value outside the enumeration stays readable
pub data AuthType : Type 0 where
  no_auth api_key_header bearer_token api_key bearer : AuthType
  other_auth : String → AuthType

-- a value of the JSON object `auth_config`, of which only texts are accepted
pub data ConfigValue : Type 0 where
  text : String → ConfigValue
  not_text : ConfigValue

-- `auth_config`, as far as it is read: its entry "header_name", if there is one
pub record AuthConfig : Type 0 where
  pub header_name : Option ConfigValue

pub record EventDelivery : Type 0 where
  pub id : ℕ
  pub event_id : ℕ
  pub destination_name : String
  pub destination_type : String
  pub destination_url : Option String
  pub auth_type : AuthType
  pub auth_config : Option AuthConfig
  pub secret_ref : Option String
  pub status : DeliveryStatus
  pub attempt_count : ℕ
  pub last_error : Option String
  pub next_attempt_at : Option ℕ
  pub created_at : ℕ
  pub updated_at : ℕ

pub record Event : Type 0 where
  pub id : ℕ
  pub event_uuid : String
  pub project_id : ℕ
  pub event_type_id : ℕ
  pub correlation_id : Option String
  pub payload : String

pub record Db : Type 0 where
  pub events : List Event
  pub deliveries : List EventDelivery

-- What a delivery attempt may raise.
pub data Failure : Type 0 where
  unsupported_destination_type no_destination_url not_absolute_http url_credentials : Failure
  https_required no_secret_ref unsupported_provider secret_not_found no_header_name : Failure
  unsupported_auth invalid_url : Failure
  -- raised by `httpx.post` and `raise_for_status`
  request_failed : ℕ → Failure
  -- raised by the database session
  database_error : Failure
  -- raised while a runtime event is published
  publication_error : Failure
  unsupported_strategy : Failure
  event_not_found : ℕ → Failure

-- The settings that the pipeline reads from `ConfigService`.
pub record Config : Type 0 where
  pub max_attempts : ℕ
  pub retry_strategy : String
  pub initial_delay : ℕ
  pub max_delay : ℕ
  pub jitter : Bool
  pub require_https : Bool
  pub secret_provider : String

-- The parts of `urlsplit(url)` that are read.
pub record SplitUrl : Type 0 where
  pub scheme : String
  pub hostname : Option String
  pub username : Option String
  pub password : Option String

-- The platform: `os.getenv`, `urllib.parse.urlsplit` and `str(exception)`.
pub record Platform : Type 0 where
  pub getenv : String → Option String
  pub urlsplit : String → Result Failure SplitUrl
  pub describe : Failure → String

abbrev pub Headers : Type 0
Headers = List (String × String)

-- One request that was handed to `httpx.post`.
pub record Post : Type 0 where
  pub delivery_id : ℕ
  pub url : String
  pub body : String
  pub headers : Headers

pub data RuntimeEventType : Type 0 where
  delivery_started delivery_succeeded delivery_failed delivery_dead_lettered : RuntimeEventType

pub record RuntimeEvent : Type 0 where
  pub kind : RuntimeEventType
  pub delivery_id : ℕ
  pub delivery_status : DeliveryStatus

-- The durable database, and what has left the process: requests and published events. A rollback
-- takes back only the first.
pub record World : Type 0 where
  pub db : Db
  pub posts : List Post
  pub published : List RuntimeEvent

-- What the environment does during one attempt: the outcome of the request, whether each publication
-- and each commit goes through, the time, and the jitter that `random.uniform(0, delay)` draws.
pub record Attempt : Type 0 where
  pub reply : Result Failure (Unit {0})
  pub start_ok : Bool
  pub commit_ok : Bool
  pub announce_ok : Bool
  pub report_ok : Bool
  pub record_ok : Bool
  pub now : ℕ
  pub uniform : ℕ → ℕ

abbrev pub with_deliveries : List EventDelivery → World → World
with_deliveries ds w = record w { db = record w.db { deliveries = ds } }

abbrev pub publish : RuntimeEvent → World → World
publish e w = record w { published = w.published ++ e ∷ [] }
