-- ===== src/Backend/Ingestion/Tests.antt =====
-- The handler on a small database, with a toy digest in the place of SHA-256.
use myaqi_iot_platform.Prelude.{
  ℕ, ◌+◌, ◌*◌, ◌^◌, ◌%◌, ◌≡◌, refl, true, false, none, some, List, [], ◌∷◌, length, arith,
}
use myaqi_iot_platform.Prelude.Int.{pos}
use myaqi_iot_platform.Prelude.Result.{Result, ok, err}
use myaqi_iot_platform.Python.Text.{Text, Bytes, codes, text_eq, encode, decimal, replace_z}
use myaqi_iot_platform.Python.Float.{fin, float_of_int, int_le, le_int, scaled}
use myaqi_iot_platform.Python.Json.{Json, int, str, arr, obj, nil, cons, end, field, get}
use myaqi_iot_platform.Backend.Models.{Device, IngestRequest, Measurement, Database, pending}
use myaqi_iot_platform.Backend.Auth
use myaqi_iot_platform.Backend.Validation.{ReadingInput, parse_batch}
use myaqi_iot_platform.Backend.Ingestion.{
  Request, Config, Failure, Metrics, Response, idempotency_conflict, is_idempotency_key,
  is_firmware_version, get_device, put_device, find_request, has_measurement, insert_ingest_request,
  insert_measurements, highest_sequence, update_device, answer_request, store_batch, replay_request,
  commit_batch, read_batch, authenticate, transaction, ingest_measurements, count_failure,
  observe_latency,
}
use myaqi_iot_platform.Backend.Ingestion.Tables.{IsUnique}
use myaqi_iot_platform.Backend.Ingestion.Batches.{
  Stored, Acknowledged, commit_batch-Stored, commit_batch_resent,
}
use myaqi_iot_platform.Backend.Ingestion.Replays.{
  transaction_retried, transaction_conflict, ingest_measurements-IsUnique,
}

abbrev sum_of : Bytes → ℕ
sum_of [] = 0
sum_of (b ∷ bs) = b + sum_of bs

-- A digest of two bytes.
abbrev pub toy_digest : Bytes → Bytes
toy_digest m = (sum_of m % 256) ∷ (length m % 256) ∷ []

abbrev reading : ℕ → Json
reading n = obj (
    field "sequence" (int (pos n)) (
      field "observed_at" (str (codes "2026-08-23T14:30:00Z"))
        (field "pm25_ug_m3" (int (pos 12)) end)))

abbrev payload : Json
payload = obj (field "readings" (arr (cons (reading 7) (cons (reading 8) nil))) end)

abbrev pub config : Config
config = record {
  device_master_key = codes "key";
  auth_clock_skew_seconds = 300;
  max_batch_size = 500;
  sha256 = toy_digest;
  parse_int = λ t. some (pos 1000);
  loads = λ b. some payload;
  fromisoformat = λ t. some (record { instant = 900; has_zone = true });
}

abbrev pub school : Device
school = record {
  id = codes "school-1";
  display_name = codes "Room 1";
  active = true;
  key_version = 1;
  created_at = 1;
  updated_at = 1;
  last_seen_at = none;
  last_firmware_version = none;
  last_sequence = some 3;
}

abbrev pub empty_db : Database
empty_db = record {
  devices = school ∷ [];
  ingest_requests = [];
  measurements = [];
  outbox_events = [];
  next_id = 10;
}

abbrev body : Bytes
body = 1 ∷ 2 ∷ 3 ∷ []

abbrev path : Text
path = codes "/v1/devices/school-1/measurements:batch"

pub signature : Text
unfolding Auth.sign_request Auth.derive_device_secret Auth.body_sha256 encode decimal
signature =
    Auth.sign_request toy_digest
      (Auth.derive_device_secret toy_digest (codes "key") (codes "school-1") 1) (codes "1000")
      (codes "POST") path body

abbrev request_with : Text → Bytes → Request
request_with key sent = record {
  device_id = codes "school-1";
  body = sent;
  idempotency_key = key;
  firmware_version = some (codes "2026.08");
  timestamp = some (codes "1000");
  signature = some signature;
  method = codes "POST";
  path = path;
  is_json = true;
}

abbrev pub request : Request
request = request_with (codes "myaqi-batch-school-1-7-8") body

abbrev pub metrics : Metrics
metrics = record {
  authentication_failures = 0;
  requests_accepted = 0;
  requests_replayed = 0;
  requests_conflict = 0;
  readings_accepted = 0;
  readings_duplicate = 0;
  latency_observations = 0;
}

abbrev committed : Result Failure (Response × Database) → Database
committed (ok (_, after)) = after
committed (err _) = empty_db

abbrev second_request : Request
second_request = request_with (codes "another-key-of-20-ch") body

abbrev changed_request : Request
changed_request = request_with (codes "myaqi-batch-school-1-7-8") (9 ∷ [])

abbrev answered : Response
answered = record {
  status = 202;
  body = record { request_id = 10; device_id = codes "school-1"; accepted = 2; duplicates = 0 };
  replayed = false;
}

abbrev row : ℕ → ℕ → Measurement
row id n = record {
  id = id;
  device_id = codes "school-1";
  ingest_request_id = 10;
  sequence = n;
  observed_at = 900;
  received_at = 50;
  pm25_ug_m3 = fin (pos (12 * 2 ^ 1074));
  temperature_c = none;
  relative_humidity = none;
}

-- The request row of the first batch.
abbrev stored_request : IngestRequest
stored_request = record {
  id = 10;
  device_id = codes "school-1";
  idempotency_key = codes "myaqi-batch-school-1-7-8";
  payload_sha256 = codes "0603";
  response_status = some 202;
  response_body = some answered.body;
  created_at = 50;
}

abbrev seen_school : Device
seen_school = record school {
  updated_at = 50;
  last_seen_at = some 50;
  last_firmware_version = some (codes "2026.08");
  last_sequence = some 8;
}

abbrev after_first : Database
after_first = record {
  devices = seen_school ∷ [];
  ingest_requests = stored_request ∷ [];
  measurements = row 12 8 ∷ row 11 7 ∷ [];
  outbox_events =
      record {
        id = 13;
        event_type = "measurements.ingested";
        aggregate_type = "ingest_request";
        aggregate_id = 10;
        payload = answered.body;
        status = pending;
        attempts = 0;
        available_at = 50;
        locked_at = none;
        locked_by = none;
        published_at = none;
        last_error = none;
        created_at = 50;
      }
      ∷ [];
  next_id = 14;
}

first_batch : transaction config (pos 1100) 50 request empty_db ≡ ok (answered, after_first)
unfolding transaction is_idempotency_key is_firmware_version authenticate get_device
    Auth.verify_request_signature Auth.derive_device_secret Auth.body_sha256 read_batch parse_batch
    commit_batch update_device put_device insert_ingest_request insert_measurements has_measurement
    store_batch answer_request replay_request text_eq encode decimal replace_z highest_sequence
    float_of_int int_le le_int scaled get signature
first_batch = refl

abbrev parsed : ℕ → ReadingInput
parsed n = record {
  sequence = n;
  observed_at = 900;
  pm25_ug_m3 = fin (pos (12 * 2 ^ 1074));
  temperature_c = none;
  relative_humidity = none;
}

abbrev readings : List ReadingInput
readings = parsed 7 ∷ parsed 8 ∷ []

-- The same body under the same key, signed for another timestamp
later_signature : Text
unfolding Auth.sign_request Auth.derive_device_secret Auth.body_sha256 encode decimal
later_signature =
    Auth.sign_request toy_digest
      (Auth.derive_device_secret toy_digest (codes "key") (codes "school-1") 1) (codes "1150")
      (codes "POST") path body

abbrev later_request : Request
later_request = record request { timestamp = some (codes "1150"); signature = some later_signature }

later_authentic : authenticate config (pos 1200) later_request after_first.devices ≡ ok seen_school
unfolding authenticate get_device Auth.verify_request_signature Auth.derive_device_secret text_eq
    encode decimal later_signature
later_authentic = refl

transaction_retried_example :
    (last : Database) × (transaction config (pos 1200) 60 later_request after_first
      ≡ ok (record answered { replayed = true }, last))
    × (last.measurements ≡ after_first.measurements)
    × (last.outbox_events ≡ after_first.outbox_events)
    × (last.ingest_requests ≡ after_first.ingest_requests)
unfolding is_firmware_version
transaction_retried_example =
    transaction_retried config (pos 1100) (pos 1200) 50 60 request later_request empty_db answered
      after_first seen_school first_batch refl refl refl refl refl later_authentic

commit_batch-Stored_example :
    (response : Response) × (after : Database) × (commit_batch config 50 request school readings
        empty_db
      ≡ ok (response, after))
    × (response.status ≡ 202)
    × (response.replayed ≡ false)
    × Stored school.id readings empty_db response after
    × Acknowledged config 50 request school readings response after
unfolding find_request get_device text_eq
commit_batch-Stored_example =
    commit_batch-Stored config 50 request school readings empty_db refl refl (refl, (refl, tt))
      (omega arith, (omega arith, tt)) (omega arith)

commit_batch_resent_example :
    (response : Response) × (after : Database) × (commit_batch config 60 second_request school
        readings after_first
      ≡ ok (response, after))
    × (response.body.accepted ≡ 0)
    × (response.body.duplicates ≡ 2)
    × (after.measurements ≡ after_first.measurements)
unfolding find_request has_measurement text_eq
commit_batch_resent_example =
    commit_batch_resent config 60 second_request school readings after_first refl (refl, (refl, tt))

changed_signature : Text
unfolding Auth.sign_request Auth.derive_device_secret Auth.body_sha256 encode decimal
changed_signature =
    Auth.sign_request toy_digest
      (Auth.derive_device_secret toy_digest (codes "key") (codes "school-1") 1) (codes "1000")
      (codes "POST") path (9 ∷ [])

abbrev conflicting : Request
conflicting = record changed_request { signature = some changed_signature }

transaction_conflict_example :
    ingest_measurements config (pos 1200) 60 conflicting after_first metrics ≡ (
      err idempotency_conflict,
      after_first,
      observe_latency (count_failure idempotency_conflict metrics),
    )
unfolding is_idempotency_key is_firmware_version authenticate get_device
    Auth.verify_request_signature Auth.derive_device_secret Auth.body_sha256 read_batch parse_batch
    find_request text_eq encode decimal replace_z float_of_int int_le le_int scaled get
    changed_signature
transaction_conflict_example =
    transaction_conflict config (pos 1200) 60 conflicting after_first metrics seen_school readings
      stored_request refl refl refl refl refl refl

ingest_measurements-IsUnique_example :
    IsUnique (ingest_measurements config (pos 1100) 50 request empty_db metrics).1.measurements
ingest_measurements-IsUnique_example =
    ingest_measurements-IsUnique config (pos 1100) 50 request empty_db metrics tt
