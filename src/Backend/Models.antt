-- ===== src/Backend/Models.antt =====
-- backend/src/myaqi_backend/models.py: one record for each table, and the database that holds them.
-- A UUID of `new_id` is a number that `next_id` has not yet given out; a datetime is a number of
-- seconds. A column that may be NULL is an `Option`.
use myaqi_iot_platform.Prelude.{ℕ, String, Bool, Option, List}
use myaqi_iot_platform.Python.Text.{Text}
use myaqi_iot_platform.Python.Float.{Float}

-- `Device`
pub record Device : Type 0 where
  pub id : Text
  pub display_name : Text
  pub active : Bool
  pub key_version : ℕ
  pub created_at : ℕ
  pub updated_at : ℕ
  pub last_seen_at : Option ℕ
  pub last_firmware_version : Option Text
  pub last_sequence : Option ℕ

-- The JSON object that the service answers with, keeps, and hands to the outbox.
pub record ResponseBody : Type 0 where
  pub request_id : ℕ
  pub device_id : Text
  pub accepted : ℕ
  pub duplicates : ℕ

-- `IngestRequest`
pub record IngestRequest : Type 0 where
  pub id : ℕ
  pub device_id : Text
  pub idempotency_key : Text
  pub payload_sha256 : Text
  pub response_status : Option ℕ
  pub response_body : Option ResponseBody
  pub created_at : ℕ

-- The values of `OutboxEvent.status`.
pub data Status : Type 0 where
  pending processing published dead : Status

-- `OutboxEvent`
pub record OutboxEvent : Type 0 where
  pub id : ℕ
  pub event_type : String
  pub aggregate_type : String
  pub aggregate_id : ℕ
  pub payload : ResponseBody
  pub status : Status
  pub attempts : ℕ
  pub available_at : ℕ
  pub locked_at : Option ℕ
  pub locked_by : Option String
  pub published_at : Option ℕ
  pub last_error : Option Text
  pub created_at : ℕ

-- `Measurement`
pub record Measurement : Type 0 where
  pub id : ℕ
  pub device_id : Text
  pub ingest_request_id : ℕ
  pub sequence : ℕ
  pub observed_at : ℕ
  pub received_at : ℕ
  pub pm25_ug_m3 : Float
  pub temperature_c : Option Float
  pub relative_humidity : Option Float

-- The tables, and the first number that `new_id` has not given out.
pub record Database : Type 0 where
  pub devices : List Device
  pub ingest_requests : List IngestRequest
  pub measurements : List Measurement
  pub outbox_events : List OutboxEvent
  pub next_id : ℕ
