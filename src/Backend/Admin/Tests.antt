-- ===== src/Backend/Admin/Tests.antt =====
-- Reports on a few measurements.
use myaqi_iot_platform.Prelude.{ℕ, ◌≡◌, refl, false, none, List, [], ◌∷◌, length}
use myaqi_iot_platform.Prelude.Int.{pos}
use myaqi_iot_platform.Python.Text.{Bytes, codes, text_eq}
use myaqi_iot_platform.Python.Float.{fin}
use myaqi_iot_platform.Backend.Models.{Measurement, Database}
use myaqi_iot_platform.Backend.Ingestion.{has_measurement, get_device}
use myaqi_iot_platform.Backend.Ingestion.Tables.{IsUnique}
use myaqi_iot_platform.Backend.Admin.{
  default_device, provision_device, missing_ranges, select_sequences, RangeReport,
  verify_sequence_range,
}
use myaqi_iot_platform.Backend.Admin.Devices.{IsProvisioned, provision_device-IsProvisioned}
use myaqi_iot_platform.Backend.Admin.Verification.{IsExact, verify_sequence_range-IsExact}

abbrev row : ℕ → Measurement
row n = record {
  id = n;
  device_id = codes "school-1";
  ingest_request_id = 1;
  sequence = n;
  observed_at = 1;
  received_at = 1;
  pm25_ug_m3 = fin (pos 0);
  temperature_c = none;
  relative_humidity = none;
}

abbrev rows : List Measurement
rows = row 5 ∷ row 2 ∷ row 3 ∷ []

gaps : missing_ranges (2 ∷ 3 ∷ 5 ∷ []) 1 8 ≡ (1, 1) ∷ (4, 4) ∷ (6, 8) ∷ []
unfolding missing_ranges
gaps = refl

rows-IsUnique : IsUnique rows
unfolding has_measurement text_eq
rows-IsUnique = (refl, (refl, (refl, tt)))

abbrev toy_digest : Bytes → Bytes
toy_digest m = length m ∷ []

abbrev one_device : Database
one_device = record {
  devices = record (default_device 5 (codes "school-1") (codes "old")) { key_version = 3 } ∷ [];
  ingest_requests = [];
  measurements = [];
  outbox_events = [];
  next_id = 1;
}

abbrev three_rows : Database
three_rows = record one_device { measurements = rows }

-- The report on the sequences from 1 to 8
abbrev sample_report : RangeReport
sample_report = record {
  received = 3;
  missing = pos 5;
  ranges = (1, 1) ∷ (4, 4) ∷ (6, 8) ∷ [];
  complete = false;
}

verify_sequence_range-IsExact_example : IsExact (codes "school-1") 1 8 rows sample_report
unfolding verify_sequence_range select_sequences missing_ranges text_eq get_device
verify_sequence_range-IsExact_example =
    verify_sequence_range-IsExact (codes "school-1") 1 8 three_rows rows-IsUnique refl

provision_device-IsProvisioned_example :
    let (p, after) =
      provision_device toy_digest (codes "key") 9 (codes "school-1") (codes "roof") one_device in
    IsProvisioned toy_digest
      (codes "key")
      (codes "school-1")
      (codes "roof")
      one_device.devices
      p
      after
    × (get_device (codes "school-2") after.devices
        ≡ get_device (codes "school-2") one_device.devices)
unfolding text_eq
provision_device-IsProvisioned_example =
    provision_device-IsProvisioned toy_digest (codes "key") 9 (codes "school-1") (codes "roof")
      one_device (codes "school-2") refl
