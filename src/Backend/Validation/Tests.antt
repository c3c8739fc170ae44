-- ===== src/Backend/Validation/Tests.antt =====
-- A batch of one reading.
use myaqi_iot_platform.Prelude.{ℕ, true, ◌*◌, ◌^◌, ◌≡◌, refl, Option, none, some, [], ◌∷◌}
use myaqi_iot_platform.Prelude.Int.{pos}
use myaqi_iot_platform.Prelude.Result.{err}
use myaqi_iot_platform.Python.Text.{Text, codes, replace_z}
use myaqi_iot_platform.Python.Float.{fin, nan, float_of_int, int_le, le_int, scaled}
use myaqi_iot_platform.Python.Json.{Json, int, float, str, arr, obj, nil, cons, end, field, get}
use myaqi_iot_platform.Backend.Validation.{
  Stamp, ReadingInput, out_of_range, duplicate_sequence, parse_batch,
}
use myaqi_iot_platform.Backend.Validation.Readings.{IsBatch, parse_batch-IsBatch}

abbrev clock : Text → Option Stamp
clock t = some (record { instant = 900; has_zone = true })

abbrev item : ℕ → Json → Json
item n value = obj (
    field "sequence" (int (pos n))
      (field "observed_at" (str (codes "2026-08-23T14:30:00Z")) (field "pm25_ug_m3" value end)))

abbrev payload : Json → Json
payload one = obj (field "readings" (arr (cons one nil)) end)

abbrev parsed : ReadingInput
parsed = record {
  sequence = 4;
  observed_at = 900;
  pm25_ug_m3 = fin (pos (12 * 2 ^ 1074));
  temperature_c = none;
  relative_humidity = none;
}

parse_batch-IsBatch_example : IsBatch 500 (parsed ∷ [])
unfolding parse_batch get replace_z float_of_int int_le le_int scaled
parse_batch-IsBatch_example =
    parse_batch-IsBatch clock 500 (payload (item 4 (int (pos 12)))) (parsed ∷ []) refl

nan_refused : parse_batch clock 500 (payload (item 4 (float nan))) ≡ err out_of_range
unfolding parse_batch get replace_z int_le
nan_refused = refl

repeated_sequence :
    parse_batch clock 500 (
      obj (
        field "readings" (arr (cons (item 4 (int (pos 1))) (cons (item 4 (int (pos 2))) nil))) end))
    ≡ err (duplicate_sequence 4)
unfolding parse_batch get replace_z float_of_int int_le le_int scaled
repeated_sequence = refl
