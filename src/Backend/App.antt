-- ===== src/Backend/App.antt =====
-- backend/src/myaqi_backend/app.py: the answers of the application. `uuid` writes an id of the tables,
-- `detail` is the text of a PayloadError, and `version` and its like come from the settings.
pub mod Answers
mod Tests
use myaqi_iot_platform.Prelude.{
  ℕ, ◌+◌, String, Bool, true, false, ◌&&◌, Option, none, some, List, [], ◌∷◌, ◌++◌, if◌then◌else◌,
  take, map,
}
use myaqi_iot_platform.Prelude.Int.{ℤ, pos}
use myaqi_iot_platform.Prelude.Result.{Result, ok, err}
use myaqi_iot_platform.Python.Text.{Text, codes}
use myaqi_iot_platform.Python.Json.{Json, null, int, str, obj, Fields, field, end}
use myaqi_iot_platform.Backend.Models.{ResponseBody, OutboxEvent, Database}
use myaqi_iot_platform.Backend.Ingestion.{
  Request, Config, Failure, invalid_idempotency_key, invalid_firmware_version,
  authentication_failed, invalid_batch, idempotency_conflict, idempotency_in_progress,
  unsupported_media_type, internal_error, status_of, Metrics, Response, is_idempotency_key,
  valid_version, observe_latency, transaction, ingest_measurements,
}
use myaqi_iot_platform.Backend.Outbox.{Health, outbox_health}

-- `ApiError`
pub record ApiError : Type 0 where
  pub status : ℕ
  pub title : Text
  pub detail : Text
  pub code : Text

abbrev pub api_error : ℕ → String → Text → String → ApiError
api_error status title detail code = record {
  status = status;
  title = codes title;
  detail = detail;
  code = codes code;
}

-- The ApiError that the endpoint raises; `none` for what Flask answers itself.
unfoldable pub error_of : Text → Failure → Option ApiError
error_of detail invalid_idempotency_key = some (
    api_error 400 "Invalid idempotency key"
      (codes "Idempotency-Key must be 16-128 URL-safe characters") "invalid_idempotency_key")
error_of detail invalid_firmware_version = some (
    api_error 400 "Invalid firmware version"
      (codes "X-Firmware-Version must be a 1-64 character release identifier")
      "invalid_firmware_version")
error_of detail authentication_failed = some (
    api_error 401 "Authentication failed" (codes "Device credentials were rejected")
      "authentication_failed")
error_of detail invalid_batch =
    some (api_error 422 "Invalid measurement batch" detail "invalid_batch")
error_of detail idempotency_conflict = some (
    api_error 409 "Idempotency conflict"
      (codes "The idempotency key was already used with a different payload")
      "idempotency_conflict")
error_of detail idempotency_in_progress = some (
    api_error 409 "Request still processing"
      (codes "The matching idempotent request has not completed") "idempotency_in_progress")
error_of detail unsupported_media_type = none
error_of detail internal_error = none

-- A response: its status, its JSON, and the headers that the platform reads
pub record HttpResponse : Type 0 where
  pub status : ℕ
  pub body : Option Json
  pub idempotent_replayed : Bool
  pub request_id : Text

-- `begin_request`: the id of the request, from the X-Request-ID header, which may be empty
unfoldable pub request_id_of : Text → Text → Text
request_id_of uuid [] = uuid
request_id_of uuid (c ∷ cs) = take 128 (c ∷ cs)

-- `handle_api_error`
unfoldable pub handle_api_error : Text → ApiError → HttpResponse
handle_api_error request_id e = record {
  status = e.status;
  body = some (
      obj (
        field "type" (str (codes "https://github.com/rdfds/myaqi-iot-platform/errors/" ++ e.code)) (
          field "title" (str e.title) (
            field "status" (int (pos e.status))
              (field "detail" (str e.detail) (field "request_id" (str request_id) end))))));
  idempotent_replayed = false;
  request_id = request_id;
}

-- `handle_database_error`
unfoldable pub handle_database_error : Text → HttpResponse
handle_database_error request_id = record {
  status = 503;
  body = some (
      obj (
        field "title" (str (codes "Database unavailable")) (
          field "status" (int (pos 503)) (
            field "detail" (str (codes "The request could not be completed safely"))
              (field "request_id" (str request_id) end)))));
  idempotent_replayed = false;
  request_id = request_id;
}

-- `jsonify(response_body)`
abbrev pub response_json : (ℕ → Text) → ResponseBody → Json
response_json uuid b = obj (
    field "request_id" (str (uuid b.request_id)) (
      field "device_id" (str b.device_id) (
        field "accepted" (int (pos b.accepted)) (field "duplicates" (int (pos b.duplicates)) end))))

-- What Flask answers to an exception that no handler takes
abbrev pub unhandled : ℕ → Text → HttpResponse
unhandled status request_id = record {
  status = status;
  body = none;
  idempotent_replayed = false;
  request_id = request_id;
}

abbrev pub error_response : Text → ℕ → Option ApiError → HttpResponse
error_response request_id status (some e) = handle_api_error request_id e
error_response request_id status none = unhandled status request_id

-- The response to what the endpoint returns or raises
unfoldable pub respond : (ℕ → Text) → Text → Text → Result Failure Response → HttpResponse
unfolding handle_api_error error_of
respond uuid detail request_id (ok r) = record {
  status = r.status;
  body = some (response_json uuid r.body);
  idempotent_replayed = r.replayed;
  request_id = request_id;
}
respond uuid detail request_id (err failure) =
    error_response request_id (status_of failure) (error_of detail failure)

-- When the database raises an SQLAlchemyError in an upload: at its first query, at the commit, or not
pub data DatabaseFault : Type 0 where
  no_fault at_first_query at_commit : DatabaseFault

-- The counters of readings, which are raised before the commit
abbrev pub count_readings : Response → Metrics → Metrics
count_readings r m = if r.replayed then m else record m {
  readings_accepted = m.readings_accepted + r.body.accepted;
  readings_duplicate = m.readings_duplicate + r.body.duplicates;
}

-- A commit that fails after the transaction's result: an exception of the transaction comes first.
abbrev pub fail_commit :
    Text
    → Database
    → Metrics
    → HttpResponse × Database × Metrics
    → Result Failure (Response × Database)
    → HttpResponse × Database × Metrics
fail_commit request_id db metrics committed (err failure) = committed
fail_commit request_id db metrics committed (ok (r, after)) =
    (handle_database_error request_id, db, observe_latency (count_readings r metrics))

-- An upload through the application
unfoldable pub upload :
    Config
    → (ℕ → Text)
    → Text
    → Text
    → DatabaseFault
    → ℤ
    → ℕ
    → Request
    → Database
    → Metrics
    → HttpResponse × Database × Metrics
unfolding respond handle_database_error
upload config uuid detail request_id fault clock now request db metrics =
    let (result, after, counted) = ingest_measurements config clock now request db metrics in
    let done : HttpResponse × Database × Metrics =
      (respond uuid detail request_id result, after, counted) in
    elim fault [
      | no_fault ↦ done
      | at_first_query ↦
          if is_idempotency_key request.idempotency_key && valid_version request.firmware_version
          then (handle_database_error request_id, db, observe_latency metrics)
          else done
      | at_commit ↦ fail_commit request_id db metrics done (transaction config clock now request db)
    ]

-- The settings that the health routes show
pub record Release : Type 0 where
  pub service_version : Text
  pub revision : Text
  pub environment : Text

-- `live`
unfoldable pub live : Release → Text → HttpResponse
live release request_id = record {
  status = 200;
  body = some (
      obj (
        field "status" (str (codes "ok")) (
          field "service" (str (codes "myaqi-api")) (
            field "version" (str release.service_version) (
              field "revision" (str release.revision)
                (field "environment" (str release.environment) end))))));
  idempotent_replayed = false;
  request_id = request_id;
}

-- `ready`, which asks the database
unfoldable pub ready : Bool → Release → Text → HttpResponse
unfolding handle_database_error
ready true release request_id = handle_database_error request_id
ready false release request_id = record {
  status = 200;
  body =
      some
        (obj (field "status" (str (codes "ready")) (field "revision" (str release.revision) end)));
  idempotent_replayed = false;
  request_id = request_id;
}

-- The gauges that `metrics` sets by `update_outbox_health`
pub record Gauges : Type 0 where
  pub outbox_pending : ℕ
  pub outbox_processing : ℕ
  pub outbox_dead : ℕ
  pub outbox_oldest_pending : ℕ

unfoldable pub scrape : ℕ → List OutboxEvent → Gauges
scrape now table =
    let health = outbox_health now table in
    record {
      outbox_pending = health.pending_count;
      outbox_processing = health.processing_count;
      outbox_dead = health.dead_count;
      outbox_oldest_pending = health.oldest_pending_seconds;
    }
