-- ===== src/System/Tests.antt =====
-- A device with two readings and a service that knows it, with a toy digest in the place of SHA-256.
use myaqi_iot_platform.Prelude.{ℕ, ◌≡◌, refl, true, some, List, [], ◌∷◌, arith, all, All, ltb}
use myaqi_iot_platform.Prelude.Int.{pos}
use myaqi_iot_platform.Prelude.Result.{ok}
use myaqi_iot_platform.Python.Text.{Text, Bytes, codes, decimal, text_eq}
use myaqi_iot_platform.Python.Json.{obj, arr, field, end}
use myaqi_iot_platform.Firmware.State.{readings_json}
use myaqi_iot_platform.Firmware.State.Tests.{sample_reading, sample_state-IsState}
use myaqi_iot_platform.Firmware.Store.{save}
use myaqi_iot_platform.Firmware.Store.Tests.{no_faults}
use myaqi_iot_platform.Firmware.Client.{Client, batch, batch_key, is_device_id_char}
use myaqi_iot_platform.Firmware.Client.Tests.{sample_client, no_int, no_dumps}
use myaqi_iot_platform.Backend.Models.{Device}
use myaqi_iot_platform.Backend.Auth.{derive_device_secret}
use myaqi_iot_platform.Backend.Validation.{ReadingInput, parse_batch}
use myaqi_iot_platform.Backend.Ingestion.{
  Config, get_device, is_firmware_version, is_idempotency_key, find_request,
}
use myaqi_iot_platform.Backend.Ingestion.Tests
use myaqi_iot_platform.Backend.App.{no_fault}
use myaqi_iot_platform.System.{Network, delivered, response_lost, Exchange, Platform, exchange}
use myaqi_iot_platform.System.Batches.{
  IsDated, sequences, input_sequences, parse_batch-readings_json,
}
use myaqi_iot_platform.System.Keys.{batch_key-is_idempotency_key}
use myaqi_iot_platform.System.Delivery.{HasNewEvent, IsStored, Uploaded}
use myaqi_iot_platform.System.Exchanges.{CanUpload, exchange_delivered}
use myaqi_iot_platform.System.Retries.{exchange_retried}

abbrev config : Config
config = record Tests.config {
  loads = λ b. some (obj (field "readings" (arr (readings_json (batch sample_client))) end));
}

abbrev known_device : Device
known_device = record Tests.school { id = codes "device-1" }

client_secret : Bytes
unfolding derive_device_secret
client_secret = derive_device_secret Tests.toy_digest (codes "key") (codes "device-1") 1

abbrev client : Client
client = record sample_client { secret = client_secret }

abbrev platform : Platform
platform = record {
  client = client;
  database = record Tests.empty_db { devices = known_device ∷ [] };
  metrics = Tests.metrics;
}

abbrev direct : Exchange
direct = record {
  network = delivered;
  device_time = 1000;
  clock = pos 1100;
  now = 50;
  request_id = codes "request-1";
  detail = [];
  database_fault = no_fault;
  store_faults = no_faults;
}

abbrev unanswered : Exchange
unanswered = record direct { network = response_lost }

abbrev later : Exchange
later = record direct { clock = pos 1150; now = 60 }

abbrev uuid_text : ℕ → Text
uuid_text n = codes "00000000"

toy_digest-bytes : (m : Bytes) → all (λ b. ltb b 256) (Tests.toy_digest m) ≡ true
toy_digest-bytes m = ground arith

client-IsDated : All (IsDated config.fromisoformat) client.state.pending
client-IsDated = ((_, refl, refl), ((_, refl, refl), tt))

client-CanUpload :
    (x : Network) → CanUpload config no_dumps (record direct { network = x }) platform
unfolding get_device is_device_id_char batch_key is_firmware_version client_secret decimal text_eq
client-CanUpload x = record {
  registered = record { device = known_device; found = refl; active = refl; secret = refl };
  timely = record { parsed = refl; in_window = omega arith };
  readable = record {
    size = omega arith;
    decoded = refl;
    dated = client-IsDated;
    id_chars = refl;
    id_length = omega arith;
    key_length = omega arith;
    version = refl;
  };
  valid = sample_state-IsState;
  size = omega arith;
  range = omega arith;
  last = omega arith;
  filled = refl;
}

exchange_delivered_example :
    let (result, after) = exchange config uuid_text no_dumps no_int direct platform in
    Uploaded client (result, after.client)
    × All
        (IsStored config.fromisoformat client.device_id [] after.database.measurements)
        (batch client)
    × HasNewEvent client [] after.database.outbox_events
unfolding find_request save
exchange_delivered_example =
    exchange_delivered config uuid_text no_int no_dumps toy_digest-bytes direct platform
      (client-CanUpload delivered) refl refl refl refl

exchange_retried_example :
    let middle = (exchange config uuid_text no_dumps no_int unanswered platform).1 in
    let (result, last) = exchange config uuid_text no_dumps no_int later middle in
    Uploaded middle.client (result, last.client)
    × All
        (IsStored config.fromisoformat client.device_id [] last.database.measurements)
        (batch client)
    × HasNewEvent client [] last.database.outbox_events
    × (last.database.measurements ≡ middle.database.measurements)
    × (last.database.outbox_events ≡ middle.database.outbox_events)
unfolding find_request save
exchange_retried_example =
    exchange_retried config uuid_text no_int no_dumps toy_digest-bytes unanswered later platform
      (client-CanUpload response_lost) refl refl refl
      (record { parsed = refl; in_window = omega arith }) refl refl refl

parse_batch-readings_json_example :
    (readings : List ReadingInput) × (parse_batch config.fromisoformat 500
        (obj (field "readings" (arr (readings_json client.state.pending)) end))
      ≡ ok readings)
    × (input_sequences readings ≡ sequences client.state.pending)
parse_batch-readings_json_example =
    parse_batch-readings_json config.fromisoformat 500 0 6 sample_reading
      (record sample_reading { sequence = 5 } ∷ []) client-IsDated sample_state-IsState.ascends
      (omega arith)

batch_key-is_idempotency_key_example :
    is_idempotency_key (batch_key client.device_id (batch client)) ≡ true
unfolding is_device_id_char batch_key decimal
batch_key-is_idempotency_key_example =
    batch_key-is_idempotency_key client.device_id (batch client) refl (omega arith) (omega arith)
