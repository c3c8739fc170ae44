-- ===== src/Backend/Validation.antt =====
-- backend/src/myaqi_backend/validation.py: from a decoded request body to readings.
-- `fromisoformat` is `datetime.fromisoformat`, an argument; `none` is its ValueError.
pub mod Readings
mod Tests
use myaqi_iot_platform.Prelude.{
  ℕ, suc, ◌+◌, String, Bool, true, false, ◌&&◌, not, Option, none, some, List, [], ◌∷◌, ltb, leb,
  ◌==◌, if◌then◌else◌, contains,
}
use myaqi_iot_platform.Prelude.Int.{ℤ, pos, negsuc}
use myaqi_iot_platform.Prelude.Result.{Result, ok, err, ◌>>=◌, ◌>>◌, raise_if, or_raise}
use myaqi_iot_platform.Python.Text.{Text, replace_z}
use myaqi_iot_platform.Python.Float.{Float, int_le, le_int, float_of_int}
use myaqi_iot_platform.Python.Json.{
  Json, null, bool, int, float, str, arr, obj, Items, nil, cons, Fields, get,
}

-- What `parse_batch` may raise: `PayloadError` by its message, and the OverflowError of `float`.
pub data Raised : Type 0 where
  not_an_object readings_not_an_array too_many_readings : Raised
  item_not_an_object invalid_sequence duplicate_sequence : ℕ → Raised
  invalid_timestamp timestamp_without_zone : Raised
  not_a_number out_of_range : Raised
  overflow_error : Raised

-- A datetime: its instant, and whether it carries a timezone.
pub record Stamp : Type 0 where
  pub instant : ℕ
  pub has_zone : Bool

-- `ReadingInput`
pub record ReadingInput : Type 0 where
  pub sequence : ℕ
  pub observed_at : ℕ
  pub pm25_ug_m3 : Float
  pub temperature_c : Option Float
  pub relative_humidity : Option Float

abbrev pub in_range : ℤ → ℤ → Float → Bool
in_range minimum maximum x = int_le minimum x && le_int x maximum

-- The end of `_number`, from `converted` on.
abbrev check_range : ℤ → ℤ → Float → Result Raised Float
check_range minimum maximum converted =
    if in_range minimum maximum converted then ok converted else err out_of_range

-- `_number`, where None is not allowed
unfoldable pub number : ℤ → ℤ → Json → Result Raised Float
number minimum maximum (int k) = do
  converted ← or_raise (float_of_int k) overflow_error
  check_range minimum maximum converted
number minimum maximum (float x) = check_range minimum maximum x
number minimum maximum _ = err not_a_number

-- `_number` with `optional=True`
unfoldable pub optional_number : ℤ → ℤ → Json → Result Raised (Option Float)
unfolding number
optional_number minimum maximum null = ok none
optional_number minimum maximum v = do converted ← number minimum maximum v; ok (some converted)

-- `_timestamp`
unfoldable pub timestamp : (Text → Option Stamp) → Json → Result Raised ℕ
timestamp fromisoformat (str t) = do
  parsed ← or_raise (fromisoformat (replace_z t)) invalid_timestamp
  raise_if (not parsed.has_zone) timestamp_without_zone
  ok parsed.instant
timestamp fromisoformat _ = err invalid_timestamp

-- The tests on `item["sequence"]`: `bool` is refused, though it is a subclass of `int`.
unfoldable pub sequence_of : ℕ → Json → Result Raised ℕ
sequence_of index (int (pos n)) = ok n
sequence_of index _ = err (invalid_sequence index)

-- The body of the loop of `parse_batch`
unfoldable pub parse_item : (Text → Option Stamp) → ℕ → Json → List ℕ → Result Raised ReadingInput
unfolding sequence_of timestamp number optional_number
parse_item fromisoformat index (obj item) seen = do
  sequence ← sequence_of index (get "sequence" item)
  raise_if (contains sequence seen) (duplicate_sequence sequence)
  observed_at ← timestamp fromisoformat (get "observed_at" item)
  pm25 ← number (pos 0) (pos 5000) (get "pm25_ug_m3" item)
  temperature ← optional_number (negsuc 79) (pos 100) (get "temperature_c" item)
  humidity ← optional_number (pos 0) (pos 100) (get "relative_humidity" item)
  ok (record {
    sequence = sequence;
    observed_at = observed_at;
    pm25_ug_m3 = pm25;
    temperature_c = temperature;
    relative_humidity = humidity;
  })
parse_item fromisoformat index _ seen = err (item_not_an_object index)

-- The loop, with the sequences seen so far
unfoldable pub parse_items :
    (Text → Option Stamp) → ℕ → Items → List ℕ → Result Raised (List ReadingInput)
unfolding parse_item
parse_items fromisoformat index nil seen = ok []
parse_items fromisoformat index (cons item items) seen = do
  reading ← parse_item fromisoformat index item seen
  rest ← parse_items fromisoformat (index + 1) items (reading.sequence ∷ seen)
  ok (reading ∷ rest)

-- `len(readings)`
abbrev pub count_items : Items → ℕ
count_items nil = 0
count_items (cons _ items) = suc (count_items items)

-- The tests on `payload["readings"]`
unfoldable pub parse_readings : (Text → Option Stamp) → ℕ → Json → Result Raised (List ReadingInput)
unfolding parse_items
parse_readings fromisoformat max_batch_size (arr (cons item items)) = do
  raise_if (ltb max_batch_size (count_items (cons item items))) too_many_readings
  parse_items fromisoformat 0 (cons item items) []
parse_readings fromisoformat max_batch_size _ = err readings_not_an_array

unfoldable pub parse_batch : (Text → Option Stamp) → ℕ → Json → Result Raised (List ReadingInput)
unfolding parse_readings
parse_batch fromisoformat max_batch_size (obj payload) =
    parse_readings fromisoformat max_batch_size (get "readings" payload)
parse_batch fromisoformat max_batch_size _ = err not_an_object
