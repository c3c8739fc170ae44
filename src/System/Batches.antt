-- ===== src/System/Batches.antt =====
-- A batch of the device before `parse_batch` of the service.
use myaqi_iot_platform.Prelude.{
  ℕ, zero, suc, ◌+◌, ◌^◌, ◌*◌, ◌≤◌, ◌<◌, ◌≡◌, refl, true, false, Option, none, some, List, [], ◌∷◌,
  map, arith, ltb, leb, length, All, All-imp, contains,
}
use myaqi_iot_platform.Prelude.Int.{pos, negsuc}
use myaqi_iot_platform.Prelude.Result.{ok}
use myaqi_iot_platform.Python.Text.{Text, replace_z}
use myaqi_iot_platform.Python.Float.{
  Float, fin, one, scaled, int_le, le_int, excess_bits, round_int, float_of_int,
}
use myaqi_iot_platform.Python.Json.{Json, arr, obj, field, end, get}
use myaqi_iot_platform.Firmware.State.{
  Number, whole, real, is_concentration, Reading, reading_json, readings_json, number_json,
}
use myaqi_iot_platform.Firmware.State.Valid.{Ascends}
use myaqi_iot_platform.Backend.Validation.{
  Stamp, ReadingInput, count_items, in_range, number, timestamp, parse_item, parse_items,
  parse_batch,
}

excess_bits_small : (fuel n : ℕ) → n < 2 ^ 53 → excess_bits fuel n ≡ 0
unfolding excess_bits
excess_bits_small zero n h = refl
excess_bits_small (suc fuel) n h = ground arith

round_int_small : (n : ℕ) → n < 2 ^ 53 → round_int n ≡ n
unfolding round_int
round_int_small n h = rw (excess_bits_small n n h) (ground arith)

float_of_int_small : (n : ℕ) → n ≤ 5000 → float_of_int (pos n) ≡ some (fin (pos (n * one)))
unfolding float_of_int
float_of_int_small n h =
    let same = round_int_small n (omega arith) in
    let small : leb (2 ^ 1024) n ≡ false = (ground arith) in rw (same, small)

in_range_small : (n : ℕ) → n ≤ 5000 → in_range (pos 0) (pos 5000) (fin (pos (n * one))) ≡ true
unfolding int_le le_int scaled
in_range_small n h = ground arith

-- The float is the value of the number.
abbrev pub HasValue : Number → Float → Type 0
HasValue (real x) y = y ≡ x
HasValue (whole n) y = float_of_int n ≡ some y

-- A concentration is the same number for both sides.
number-concentration :
    (x : Number)
    → is_concentration x ≡ true
    → (y : Float) × (number (pos 0) (pos 5000) (number_json x) ≡ ok y) × HasValue x y
unfolding number is_concentration
number-concentration (real x) h = (x, rw h, refl)
number-concentration (whole (negsuc n)) h = absurd (ground arith)
number-concentration (whole (pos n)) h =
    let small : n ≤ 5000 = (ground arith) in
    (
      fin (pos (n * one)),
      rw (float_of_int_small n small, in_range_small n small),
      float_of_int_small n small,
    )

-- The timestamp of a reading is one that `datetime.fromisoformat` reads, with its zone.
abbrev pub IsDated : (Text → Option Stamp) → Reading → Type 0
IsDated fromisoformat r =
    (stamp : Stamp) × (fromisoformat (replace_z r.observed_at) ≡ some stamp)
    × (stamp.has_zone ≡ true)

timestamp-IsDated :
    (fromisoformat : Text → Option Stamp) (r : Reading) (h : IsDated fromisoformat r)
    → timestamp fromisoformat (Json.str r.observed_at) ≡ ok h.0.instant
unfolding timestamp
timestamp-IsDated fromisoformat r h = rw (h.1, h.2)

-- What the service reads is the reading of the device: its sequence, its time, its concentration,
-- and no temperature and no humidity.
pub record IsInputOf (fromisoformat : Text → Option Stamp) (r : Reading) (input : ReadingInput)
    : Type 0 where
  pub sequence : input.sequence ≡ r.sequence
  pub stamp : Stamp
  pub dated : fromisoformat (replace_z r.observed_at) ≡ some stamp
  pub observed_at : input.observed_at ≡ stamp.instant
  pub pm25_ug_m3 : HasValue r.pm25_ug_m3 input.pm25_ug_m3
  pub temperature_c : input.temperature_c ≡ none
  pub relative_humidity : input.relative_humidity ≡ none

-- One for each, in order
abbrev pub AreInputsOf : (Text → Option Stamp) → List Reading → List ReadingInput → Type 0
AreInputsOf fromisoformat [] [] = Unit
AreInputsOf fromisoformat [] (input ∷ inputs) = ⊥
AreInputsOf fromisoformat (r ∷ rs) [] = ⊥
AreInputsOf fromisoformat (r ∷ rs) (input ∷ inputs) =
    IsInputOf fromisoformat r input × AreInputsOf fromisoformat rs inputs

new_sequence :
    (last n : ℕ) (seen : List ℕ) → All (λ s. s ≤ last) seen → last < n → contains n seen ≡ false
new_sequence last n [] h p = refl
new_sequence last n (s ∷ seen) h p = ground (arith, new_sequence last n seen)

parse_item-reading_json :
    (fromisoformat : Text → Option Stamp) (index : ℕ) (r : Reading) (seen : List ℕ)
    → IsDated fromisoformat r
    → is_concentration r.pm25_ug_m3 ≡ true
    → contains r.sequence seen ≡ false
    → (reading : ReadingInput) × (parse_item fromisoformat index (reading_json r) seen ≡ ok reading)
      × (reading.sequence ≡ r.sequence)
      × IsInputOf fromisoformat r reading
unfolding parse_item get
parse_item-reading_json fromisoformat index r seen dated fits new =
    let (x, p, value) = number-concentration r.pm25_ug_m3 fits in
    (
      record {
        sequence = r.sequence;
        observed_at = dated.0.instant;
        pm25_ug_m3 = x;
        temperature_c = none;
        relative_humidity = none;
      },
      rw new (rw (timestamp-IsDated fromisoformat r dated) (rw p)),
      refl,
      record {
        sequence = refl;
        stamp = dated.0;
        dated = dated.1;
        observed_at = refl;
        pm25_ug_m3 = value;
        temperature_c = refl;
        relative_humidity = refl;
      },
    )

le_of_lt_bound : (s last n : ℕ) → s ≤ last → last < n → s ≤ n
le_of_lt_bound s last n h p = omega arith

-- What `parse_batch` makes of readings: one input for each, with its sequence.
abbrev pub sequences : List Reading → List ℕ
sequences rs = map (λ r. r.sequence) rs

abbrev pub input_sequences : List ReadingInput → List ℕ
input_sequences rs = map (λ r. r.sequence) rs

parse_items-readings_json :
    (fromisoformat : Text → Option Stamp) (index last next : ℕ) (rs : List Reading) (seen : List ℕ)
    → All (IsDated fromisoformat) rs
    → Ascends last next rs
    → All (λ s. s ≤ last) seen
    → (readings : List ReadingInput) × (parse_items fromisoformat index (readings_json rs) seen
        ≡ ok readings)
      × (input_sequences readings ≡ sequences rs)
      × AreInputsOf fromisoformat rs readings
unfolding parse_items
parse_items-readings_json fromisoformat index last next [] seen dated order old =
    ([], refl, refl, tt)
parse_items-readings_json fromisoformat index last next (r ∷ rs) seen dated order old =
    let (reading, p, e, input) =
      parse_item-reading_json fromisoformat index r seen dated.0 order.2
        (new_sequence last r.sequence seen old order.0) in
    let below : All (λ s. s ≤ r.sequence) (reading.sequence ∷ seen) = (
      omega (arith, e),
      All-imp _ _ seen (λ s (h : s ≤ last). le_of_lt_bound s last r.sequence h order.0) old,
    ) in
    let (rest, q, f, inputs) =
      parse_items-readings_json fromisoformat (index + 1) r.sequence next rs
        (reading.sequence ∷ seen) dated.1 order.3 below in
    (reading ∷ rest, rw p (rw q), cc, (input, inputs))

count_items-readings_json : (rs : List Reading) → count_items (readings_json rs) ≡ length rs
count_items-readings_json [] = refl
count_items-readings_json (r ∷ rs) = omega (arith, count_items-readings_json rs)

-- What `parse_batch` makes of such readings is them.
pub parse_batch-AreInputsOf :
    (fromisoformat : Text → Option Stamp) (max_batch_size last next : ℕ) (r : Reading)
    (rs : List Reading)
    → All (IsDated fromisoformat) (r ∷ rs)
    → Ascends last next (r ∷ rs)
    → length (r ∷ rs) ≤ max_batch_size
    → (readings : List ReadingInput) × (parse_batch fromisoformat max_batch_size
          (obj (field "readings" (arr (readings_json (r ∷ rs))) end))
        ≡ ok readings)
      × (input_sequences readings ≡ sequences (r ∷ rs))
      × AreInputsOf fromisoformat (r ∷ rs) readings
unfolding parse_batch get
parse_batch-AreInputsOf fromisoformat max_batch_size last next r rs dated order fits =
    let (readings, p, e, inputs) =
      parse_items-readings_json fromisoformat 0 last next (r ∷ rs) [] dated order tt in
    let few : ltb max_batch_size (count_items (readings_json (r ∷ rs))) ≡ false =
      (ground (arith, count_items-readings_json (r ∷ rs))) in
    (readings, rw few p, e, inputs)

-- Readings that are not too many, with ascending sequences, values within their limits and dates
-- that the service can read, pass validation, each with its sequence.
pub parse_batch-readings_json :
    (fromisoformat : Text → Option Stamp) (max_batch_size last next : ℕ) (r : Reading)
    (rs : List Reading)
    → All (IsDated fromisoformat) (r ∷ rs)
    → Ascends last next (r ∷ rs)
    → length (r ∷ rs) ≤ max_batch_size
    → (readings : List ReadingInput) × (parse_batch fromisoformat max_batch_size
          (obj (field "readings" (arr (readings_json (r ∷ rs))) end))
        ≡ ok readings)
      × (input_sequences readings ≡ sequences (r ∷ rs))
parse_batch-readings_json fromisoformat max_batch_size last next r rs dated order fits =
    let (readings, p, e, inputs) =
      parse_batch-AreInputsOf fromisoformat max_batch_size last next r rs dated order fits in
    (readings, p, e)
