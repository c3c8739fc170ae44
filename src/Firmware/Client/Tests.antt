-- ===== src/Firmware/Client/Tests.antt =====
-- A client with two readings in its queue.
use myaqi_iot_platform.Prelude.{◌*◌, ◌≡◌, refl, Option, none, some, [], ◌∷◌, arith}
use myaqi_iot_platform.Prelude.Int.{ℤ, pos}
use myaqi_iot_platform.Python.Text.{Text, Bytes, codes}
use myaqi_iot_platform.Python.Json.{Json, int, obj, end, field}
use myaqi_iot_platform.Firmware.State.Tests.{sample_state, sample_state-IsState}
use myaqi_iot_platform.Firmware.Store.Tests.{sample_files, no_faults, write_fault}
use myaqi_iot_platform.Firmware.Client.{
  Client, Answer, lost, response, flush_one, flush, upload_request, acknowledged,
}
use myaqi_iot_platform.Firmware.Client.Uploads.{
  UploadOutcome, flush_one_outcome, upload_request_stable,
}
use myaqi_iot_platform.Firmware.Client.Flushes.{Shortened, flush-Shortened}

abbrev pub sample_client : Client
sample_client = record {
  api_base_url = codes "https://aqi.example";
  device_id = codes "device-1";
  secret = 7 ∷ 8 ∷ [];
  batch_size = 2;
  max_pending = 2;
  firmware_version = codes "2.0.0";
  state = sample_state;
  files = sample_files;
}

abbrev pub no_int : Text → Option ℤ
no_int t = none

-- The acknowledgement of both readings, one of them a duplicate
abbrev pub acknowledgement : Answer
acknowledgement =
    response 202
      (some (obj (field "accepted" (int (pos 1)) (field "duplicates" (int (pos 1)) end))))

flush_one_outcome_example :
    UploadOutcome no_int sample_client acknowledgement
      (flush_one no_int no_faults acknowledgement sample_client)
flush_one_outcome_example =
    flush_one_outcome no_int no_faults acknowledgement sample_client sample_state-IsState
      (omega arith) refl (omega arith, omega arith)

abbrev no_hash : Bytes → Bytes
no_hash m = []

abbrev pub no_dumps : Json → Bytes
no_dumps v = []

upload_request_stable_example :
    let first = upload_request no_hash no_dumps 100 sample_client in
    let second =
      upload_request no_hash no_dumps 200 (flush_one no_int write_fault lost sample_client).1 in
    (second.idempotency_key ≡ first.idempotency_key)
    × (second.body ≡ first.body)
    × (second.url ≡ first.url)
unfolding acknowledged
upload_request_stable_example =
    upload_request_stable no_int write_fault lost sample_client no_hash no_dumps 100 200 refl

flush-Shortened_example :
    Shortened
      (3 * 2)
      sample_state
      (flush no_int 3 (λ k. (no_faults, acknowledgement)) sample_client).1.state
flush-Shortened_example =
    flush-Shortened no_int 3 (λ k. (no_faults, acknowledgement)) sample_client
      (λ k. (omega arith, omega arith)) sample_state-IsState (omega arith)
