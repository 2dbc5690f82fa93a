-- ===== src/Delivery/Service.antt =====
-- app/services/delivery_service.py: the checks before a request, its headers, and `deliver`.
use outbox_service.Prelude.{
  ◌+◌, Bool, true, false, not, ◌&&◌, ◌||◌, Option, none, some, List, [], ◌∷◌, ◌++◌, String, Result,
  ok, err, ◌>>=◌, ◌>>◌, raise_if, if◌then◌else◌, str_eq, is_empty, is_blank,
}
use Prim.Native.String.{◌++◌ as str_append}
use outbox_service.Delivery.Model.{
  AuthType, no_auth, api_key_header, bearer_token, api_key, bearer, other_auth, ConfigValue, text,
  not_text, AuthConfig, EventDelivery, Event, Failure, Config, Platform, Headers, Post, Attempt,
  delivered, unsupported_destination_type, no_destination_url, not_absolute_http, url_credentials,
  https_required, no_secret_ref, unsupported_provider, secret_not_found, no_header_name,
  unsupported_auth,
}

-- a text that is `None` or empty is false
unfoldable pub is_falsy : Option String → Bool
unfolding is_empty
is_falsy none = true
is_falsy (some s) = is_empty s

-- `headers[name] = value`, on a dict in insertion order
unfoldable pub set_header : String → String → Headers → Headers
set_header k v [] = (k, v) ∷ []
set_header k v ((j, w) ∷ hs) = if str_eq j k then (k, v) ∷ hs else (j, w) ∷ set_header k v hs

-- `if not secret_ref: raise`
secret_reference : Option String → Result Failure String
unfolding is_falsy
secret_reference none = err no_secret_ref
secret_reference (some ref) = if is_falsy (some ref) then err no_secret_ref else ok ref

environment_secret : Option String → Result Failure String
unfolding is_falsy
environment_secret none = err secret_not_found
environment_secret (some s) = if is_falsy (some s) then err secret_not_found else ok s

-- `_resolve_destination_secret`
unfoldable pub resolve_destination_secret :
    Config → Platform → Option String → Result Failure String
unfolding secret_reference environment_secret
resolve_destination_secret c p secret_ref = do
  ref ← secret_reference secret_ref
  raise_if (not (str_eq c.secret_provider "environment")) unsupported_provider
  environment_secret (p.getenv ref)

-- `auth_config.get("header_name", "X-API-Key")`, where `auth_config` may be `None`
header_setting : Option AuthConfig → ConfigValue
header_setting none = text "X-API-Key"
header_setting (some a) = elim a.header_name [ none ↦ text "X-API-Key" | some v ↦ v ]

header_name_of : ConfigValue → Result Failure String
unfolding is_blank
header_name_of not_text = err no_header_name
header_name_of (text name) = if is_blank name then err no_header_name else ok name

base_headers : Event → Headers
unfolding is_falsy
base_headers e =
    let headers : Headers =
      ("Idempotency-Key", e.event_uuid) ∷ ("X-Outbox-Event-Id", e.event_uuid) ∷ [] in
    elim e.correlation_id [
      | none ↦ headers
      | some cid ↦
          if is_falsy (some cid) then headers else headers ++ ("X-Outbox-Correlation-Id", cid) ∷ []
    ]

auth_headers : AuthType → Option AuthConfig → String → Headers → Result Failure Headers
unfolding header_setting header_name_of set_header
auth_headers api_key_header cfg secret hs = do
  name ← header_name_of (header_setting cfg)
  ok (set_header name secret hs)
auth_headers api_key cfg secret hs = do
  name ← header_name_of (header_setting cfg)
  ok (set_header name secret hs)
auth_headers bearer_token cfg secret hs =
    ok (set_header "Authorization" (str_append "Bearer " secret) hs)
auth_headers bearer cfg secret hs = ok (set_header "Authorization" (str_append "Bearer " secret) hs)
auth_headers no_auth cfg secret hs = err unsupported_auth
auth_headers (other_auth t) cfg secret hs = err unsupported_auth

is_no_auth : AuthType → Bool
is_no_auth no_auth = true
is_no_auth _ = false

-- `_build_headers`
unfoldable pub build_headers : Config → Platform → Event → EventDelivery → Result Failure Headers
unfolding base_headers auth_headers is_no_auth
build_headers c p e d = if is_no_auth d.auth_type then ok (base_headers e) else do
  secret ← resolve_destination_secret c p d.secret_ref
  auth_headers d.auth_type d.auth_config secret (base_headers e)

unfoldable pub is_web_scheme : String → Bool
is_web_scheme s = str_eq s "http" || str_eq s "https"

-- `_validate_destination_url`
unfoldable pub validate_destination_url : Config → Platform → String → Result Failure (Unit {0})
validate_destination_url c p url = do
  parsed ← p.urlsplit url
  raise_if (not (is_web_scheme parsed.scheme) || is_falsy parsed.hostname) not_absolute_http
  raise_if (not (is_falsy parsed.username) || not (is_falsy parsed.password)) url_credentials
  raise_if (c.require_https && not (str_eq parsed.scheme "https")) https_required

unfoldable pub destination : Option String → Result Failure String
unfolding is_falsy
destination none = err no_destination_url
destination (some url) = if is_falsy (some url) then err no_destination_url else ok url

-- the part of `deliver` before the request: the request that it makes, or what it raises
unfoldable pub prepare_request : Config → Platform → Event → EventDelivery → Result Failure Post
prepare_request c p e d = do
  raise_if (not (str_eq d.destination_type "webhook")) unsupported_destination_type
  url ← destination d.destination_url
  validate_destination_url c p url
  headers ← build_headers c p e d
  ok (record { delivery_id = d.id; url = url; body = e.payload; headers = headers })

-- the part of `deliver` after an accepted response
unfoldable pub mark_delivered : EventDelivery → EventDelivery
mark_delivered d = record d {
  status = delivered;
  attempt_count = d.attempt_count + 1;
  last_error = none;
}

-- `deliver`: the requests that it hands to httpx, and the delivery or what it raises.
unfoldable pub deliver :
    Config → Platform → Attempt → Event → EventDelivery → List Post × Result Failure EventDelivery
deliver c p a e d = elim (prepare_request c p e d) [
  | err f ↦ ([], err f)
  | ok post ↦ (post ∷ [], a.reply >> ok (mark_delivered d))
]
