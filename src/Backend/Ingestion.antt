-- ===== src/Backend/Ingestion.antt =====
-- backend/src/myaqi_backend/ingestion.py: the handler of POST /v1/devices/<id>/measurements:batch.
-- A request runs in one database transaction; an exception rolls the tables back, while the
-- metrics keep what was counted. The three dialects of the code (PostgreSQL, SQLite, and a loop of
-- nested transactions) insert a row unless a unique constraint forbids it, and are one function.
pub mod Tables
pub mod Devices
pub mod Batches
pub mod Statuses
pub mod Replays
pub mod Tests
use myaqi_iot_platform.Prelude.{
  ℕ, zero, suc, ◌+◌, ◌-◌, max, String, Bool, true, false, ◌&&◌, ◌||◌, not, Option, none, some,
  is_some, List, [], ◌∷◌, map, ltb, leb, ◌==◌, if◌then◌else◌, length, all,
}
use myaqi_iot_platform.Prelude.Int.{ℤ}
use myaqi_iot_platform.Prelude.Result.{Result, ok, err, ◌>>=◌, ◌>>◌, raise_if, or_raise}
use myaqi_iot_platform.Python.Text.{Text, Bytes, text_eq}
use myaqi_iot_platform.Python.Json.{Json}
use myaqi_iot_platform.Backend.Models.{
  Device, ResponseBody, IngestRequest, Measurement, OutboxEvent, Database, pending,
}
use myaqi_iot_platform.Backend.Auth
use myaqi_iot_platform.Backend.Auth.{
  body_sha256, derive_device_secret, verify_request_signature, is_empty,
}
use myaqi_iot_platform.Backend.Validation.{Stamp, ReadingInput, parse_batch, overflow_error}
use myaqi_iot_platform.Backend.Validation

-- What the handler reads from the Flask request
pub record Request : Type 0 where
  pub device_id : Text
  pub body : Bytes
  pub idempotency_key : Text
  pub firmware_version : Option Text
  pub timestamp : Option Text
  pub signature : Option Text
  pub method : Text
  pub path : Text
  pub is_json : Bool

-- The application's configuration, and the libraries that the handler calls: the digest of
-- `hashlib`, `int(text)`, `json.loads` and `datetime.fromisoformat`.
pub record Config : Type 0 where
  pub device_master_key : Text
  pub auth_clock_skew_seconds : ℕ
  pub max_batch_size : ℕ
  pub sha256 : Bytes → Bytes
  pub parse_int : Text → Option ℤ
  pub loads : Bytes → Option Json
  pub fromisoformat : Text → Option Stamp

-- `ApiError` by its code, and the exceptions that the handler lets through: a request that is not
-- JSON by its Content-Type, and what Flask answers with status 500.
pub data Failure : Type 0 where
  invalid_idempotency_key invalid_firmware_version : Failure
  authentication_failed invalid_batch : Failure
  idempotency_conflict idempotency_in_progress : Failure
  unsupported_media_type internal_error : Failure

-- The status of the answer to a failure
unfoldable pub status_of : Failure → ℕ
status_of invalid_idempotency_key = 400
status_of invalid_firmware_version = 400
status_of authentication_failed = 401
status_of invalid_batch = 422
status_of idempotency_conflict = 409
status_of idempotency_in_progress = 409
status_of unsupported_media_type = 415
status_of internal_error = 500

pub record Metrics : Type 0 where
  pub authentication_failures : ℕ
  pub requests_accepted : ℕ
  pub requests_replayed : ℕ
  pub requests_conflict : ℕ
  pub readings_accepted : ℕ
  pub readings_duplicate : ℕ
  pub latency_observations : ℕ

pub record Response : Type 0 where
  pub status : ℕ
  pub body : ResponseBody
  pub replayed : Bool

-- `[A-Za-z0-9]`
abbrev is_alphanumeric : ℕ → Bool
is_alphanumeric c =
    (leb b'A' c && leb c b'Z') || (leb b'a' c && leb c b'z') || (leb b'0' c && leb c b'9')

-- `IDEMPOTENCY_KEY.fullmatch`
unfoldable pub is_idempotency_key : Text → Bool
is_idempotency_key key =
    all (λ c. is_alphanumeric c || c == b'.' || c == b'_' || c == b':' || c == b'-') key
    && leb 16 (length key)
    && leb (length key) 128

-- `FIRMWARE_VERSION.fullmatch`
unfoldable pub is_firmware_version : Text → Bool
is_firmware_version [] = false
is_firmware_version (c ∷ cs) =
    is_alphanumeric c
    && all (λ d. is_alphanumeric d || d == b'.' || d == b'_' || d == b'+' || d == b'-') cs
    && leb (length cs) 63

abbrev pub valid_version : Option Text → Bool
valid_version none = true
valid_version (some version) = is_firmware_version version

-- `session.get(Device, device_id)`
unfoldable pub get_device : Text → List Device → Option Device
get_device i [] = none
get_device i (d ∷ ds) = if text_eq d.id i then some d else get_device i ds

unfoldable pub put_device : Device → List Device → List Device
put_device d [] = []
put_device d (e ∷ ds) = let rest = put_device d ds in if text_eq e.id d.id then d ∷ ds else e ∷ rest

-- The row of `(device_id, idempotency_key)`, if there is one
unfoldable pub find_request : Text → Text → List IngestRequest → Option IngestRequest
find_request device key [] = none
find_request device key (r ∷ rs) =
    if text_eq r.device_id device && text_eq r.idempotency_key key
    then some r
    else find_request device key rs

-- Is there a row of `(device_id, sequence)`?
unfoldable pub has_measurement : Text → ℕ → List Measurement → Bool
has_measurement device sequence [] = false
has_measurement device sequence (m ∷ ms) =
    (text_eq m.device_id device && m.sequence == sequence) || has_measurement device sequence ms

-- `_insert_ingest_request`: the row that was created, or the one that is there.
unfoldable pub insert_ingest_request :
    Text → Text → Text → ℕ → Database → IngestRequest × Bool × Database
unfolding find_request
insert_ingest_request device key digest now db = elim (find_request device key db.ingest_requests) [
  | some existing ↦ (existing, false, record db { next_id = db.next_id + 1 })
  | none ↦
      let created : IngestRequest = record {
        id = db.next_id;
        device_id = device;
        idempotency_key = key;
        payload_sha256 = digest;
        response_status = none;
        response_body = none;
        created_at = now;
      } in
      (
        created,
        true,
        record db { ingest_requests = created ∷ db.ingest_requests; next_id = db.next_id + 1 },
      )
]

-- One row of `_measurement_values`
abbrev pub measurement_of : Text → ℕ → ℕ → ℕ → ReadingInput → Measurement
measurement_of device request_id received id r = record {
  id = id;
  device_id = device;
  ingest_request_id = request_id;
  sequence = r.sequence;
  observed_at = r.observed_at;
  received_at = received;
  pm25_ug_m3 = r.pm25_ug_m3;
  temperature_c = r.temperature_c;
  relative_humidity = r.relative_humidity;
}

-- The rows of `_insert_measurements` one after the other: a row whose `(device_id, sequence)` is
-- there is passed over. The answer is the number of rows inserted.
unfoldable pub insert_measurements :
    Text → ℕ → ℕ → ℕ → List ReadingInput → List Measurement → ℕ × List Measurement
insert_measurements device request_id received id [] table = (0, table)
insert_measurements device request_id received id (r ∷ rs) table =
    let known = has_measurement device r.sequence table in
    let (n, after) =
      insert_measurements device request_id received (id + 1) rs
        (if known then table else measurement_of device request_id received id r ∷ table) in
    (if known then n else suc n, after)

-- `max(reading.sequence for reading in readings)`
unfoldable pub highest_sequence : List ReadingInput → ℕ
highest_sequence [] = 0
highest_sequence (r ∷ rs) = max r.sequence (highest_sequence rs)

abbrev pub or_zero : Option ℕ → ℕ
or_zero none = 0
or_zero (some n) = n

abbrev pub or_kept : Option Text → Option Text → Option Text
or_kept none old = old
or_kept (some new) old = some new

-- The heartbeat of the device
unfoldable pub update_device : ℕ → Option Text → List ReadingInput → Device → Device
unfolding highest_sequence
update_device now version readings d = record d {
  updated_at = now;
  last_seen_at = some now;
  last_sequence = some (max (or_zero d.last_sequence) (highest_sequence readings));
  last_firmware_version = or_kept version d.last_firmware_version;
}

-- `ingest_request.response_body = …` and `ingest_request.response_status = 202`
unfoldable pub answer_request : ℕ → ResponseBody → List IngestRequest → List IngestRequest
answer_request i body [] = []
answer_request i body (r ∷ rs) =
    let rest = answer_request i body rs in
    if r.id == i
    then record r { response_body = some body; response_status = some 202 } ∷ rs
    else r ∷ rest

-- The body of the transaction once a new request has been reserved
unfoldable pub store_batch :
    IngestRequest → Text → ℕ → List ReadingInput → Database → Response × Database
store_batch reserved device now readings db =
    let (accepted, measurements) =
      insert_measurements device reserved.id now db.next_id readings db.measurements in
    let body : ResponseBody = record {
      request_id = reserved.id;
      device_id = device;
      accepted = accepted;
      duplicates = length readings - accepted;
    } in
    let event : OutboxEvent = record {
      id = db.next_id + length readings;
      event_type = "measurements.ingested";
      aggregate_type = "ingest_request";
      aggregate_id = reserved.id;
      payload = body;
      status = pending;
      attempts = 0;
      available_at = now;
      locked_at = none;
      locked_by = none;
      published_at = none;
      last_error = none;
      created_at = now;
    } in
    (
      record { status = 202; body = body; replayed = false },
      record db {
        ingest_requests = answer_request reserved.id body db.ingest_requests;
        measurements = measurements;
        outbox_events = event ∷ db.outbox_events;
        next_id = db.next_id + length readings + 1;
      },
    )

-- The answer to a key that has been used: the committed one, if the payload is the same.
unfoldable pub replay_request : IngestRequest → Text → Result Failure Response
replay_request existing digest =
    if not (text_eq existing.payload_sha256 digest)
    then err idempotency_conflict
    else elim existing.response_body [
      | none ↦ err idempotency_in_progress
      | some body ↦ ok (record {
        status = elim existing.response_status [ none ↦ 202 | some s ↦ if s == 0 then 202 else s ];
        body = body;
        replayed = true;
      })
    ]

-- The rest of the transaction after validation
unfoldable pub commit_batch :
    Config
    → ℕ
    → Request
    → Device
    → List ReadingInput
    → Database
    → Result Failure (Response × Database)
commit_batch config now request device readings db =
    let digest = body_sha256 config.sha256 request.body in
    let updated = update_device now request.firmware_version readings device in
    let seen = record db { devices = put_device updated db.devices } in
    let (row, created, reserved) =
      insert_ingest_request device.id request.idempotency_key digest now seen in
    if created
    then ok (store_batch row device.id now readings reserved)
    else (do response ← replay_request row digest; ok (response, reserved))

-- An exception of `parse_batch`, as the handler's `except` clauses treat it
abbrev batch_failure : Validation.Raised → Failure
batch_failure overflow_error = internal_error
batch_failure _ = invalid_batch

abbrev parsed_batch :
    Result Validation.Raised (List ReadingInput) → Result Failure (List ReadingInput)
parsed_batch (ok readings) = ok readings
parsed_batch (err raised) = err (batch_failure raised)

unfoldable pub read_batch : Config → Request → Result Failure (List ReadingInput)
read_batch config request = do
  raise_if (not request.is_json) unsupported_media_type
  payload ← or_raise (config.loads request.body) invalid_batch
  parsed_batch (parse_batch config.fromisoformat config.max_batch_size payload)

-- An exception of `verify_request_signature`: only `AuthenticationError` is caught.
abbrev auth_failure : Auth.Raised → Failure
auth_failure Auth.type_error = internal_error
auth_failure _ = authentication_failed

abbrev pub admit : Device → Result Auth.Raised (Unit {0}) → Result Failure Device
admit device (ok _) = ok device
admit device (err raised) = err (auth_failure raised)

unfoldable pub authenticate : Config → ℤ → Request → List Device → Result Failure Device
authenticate config clock request devices = do
  device ← or_raise (get_device request.device_id devices) authentication_failed
  raise_if (not device.active) authentication_failed
  let secret =
      derive_device_secret config.sha256 config.device_master_key device.id device.key_version
  admit device (
      verify_request_signature config.sha256 config.parse_int secret request.timestamp
        request.signature request.method request.path request.body config.auth_clock_skew_seconds
        clock)

-- The transaction: the answer and the tables to commit, or the exception that rolls back.
unfoldable pub transaction :
    Config → ℤ → ℕ → Request → Database → Result Failure (Response × Database)
transaction config clock now request db = do
  raise_if (not (is_idempotency_key request.idempotency_key)) invalid_idempotency_key
  raise_if (not (valid_version request.firmware_version)) invalid_firmware_version
  device ← authenticate config clock request db.devices
  readings ← read_batch config request
  commit_batch config now request device readings db

-- What is counted before an exception leaves the handler
abbrev pub count_failure : Failure → Metrics → Metrics
count_failure authentication_failed m = record m {
  authentication_failures = m.authentication_failures + 1;
}
count_failure idempotency_conflict m = record m { requests_conflict = m.requests_conflict + 1 }
count_failure _ m = m

-- What is counted for an answer
abbrev pub count_response : Response → Metrics → Metrics
count_response r m =
    if r.replayed then record m { requests_replayed = m.requests_replayed + 1 } else record m {
      requests_accepted = m.requests_accepted + 1;
      readings_accepted = m.readings_accepted + r.body.accepted;
      readings_duplicate = m.readings_duplicate + r.body.duplicates;
    }

abbrev pub observe_latency : Metrics → Metrics
observe_latency m = record m { latency_observations = m.latency_observations + 1 }

-- `ingest_measurements`, with the clock of the authentication and that of the rows
unfoldable pub ingest_measurements :
    Config → ℤ → ℕ → Request → Database → Metrics → Result Failure Response × Database × Metrics
ingest_measurements config clock now request db metrics =
    elim (transaction config clock now request db) [
      | ok (response, after) ↦
          (ok response, after, observe_latency (count_response response metrics))
      | err failure ↦ (err failure, db, observe_latency (count_failure failure metrics))
    ]
