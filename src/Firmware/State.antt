-- ===== src/Firmware/State.antt =====
-- The state document of `JsonStateStore`: DEFAULT_STATE, what `json.dump` writes of it, and the
-- checks of `_read`.
pub mod Valid
pub mod RoundTrip
pub mod Accepted
pub mod Tests
use myaqi_iot_platform.Prelude.{
  ℕ, zero, suc, String, Bool, true, false, ◌&&◌, ◌||◌, not, Option, none, some, List, [], ◌∷◌, ltb,
  leb, ◌==◌, if◌then◌else◌,
}
use myaqi_iot_platform.Prelude.Int.{ℤ, pos, negsuc, leb_ℤ}
use myaqi_iot_platform.Python.Text.{Text}
use myaqi_iot_platform.Python.Float.{Float, int_le, le_int}
use myaqi_iot_platform.Python.Json.{
  Json, null, bool, int, float, str, arr, obj, Items, nil, cons, Fields, end, field, get, find,
}

-- A Python number that is not a bool
pub data Number : Type 0 where
  whole : ℤ → Number
  real : Float → Number

-- `0 <= concentration <= 5000`, which nan does not satisfy
unfoldable pub is_concentration : Number → Bool
is_concentration (whole k) = leb_ℤ (pos 0) k && leb_ℤ k (pos 5000)
is_concentration (real x) = int_le (pos 0) x && le_int x (pos 5000)

pub record Reading : Type 0 where
  pub sequence : ℕ
  pub observed_at : Text
  pub pm25_ug_m3 : Number

pub record State : Type 0 where
  pub next_sequence : ℕ
  pub pending : List Reading
  pub dropped_readings : ℕ
  pub upload_attempts : ℕ
  pub upload_failures : ℕ
  pub last_http_status : Option ℕ
  pub last_acknowledged_sequence : Option ℕ

abbrev pub default_state : State
default_state = record {
  next_sequence = 1;
  pending = [];
  dropped_readings = 0;
  upload_attempts = 0;
  upload_failures = 0;
  last_http_status = none;
  last_acknowledged_sequence = none;
}

abbrev pub number_json : Number → Json
number_json (whole k) = int k
number_json (real x) = float x

abbrev pub reading_json : Reading → Json
reading_json r = obj (
    field "sequence" (int (pos r.sequence))
      (field "observed_at" (str r.observed_at) (field "pm25_ug_m3" (number_json r.pm25_ug_m3) end)))

abbrev pub readings_json : List Reading → Items
readings_json [] = nil
readings_json (r ∷ rs) = cons (reading_json r) (readings_json rs)

abbrev pub optional_json : Option ℕ → Json
optional_json none = null
optional_json (some n) = int (pos n)

-- The document that `save` writes
unfoldable pub state_json : State → Json
state_json s = obj (
    field "next_sequence" (int (pos s.next_sequence)) (
      field "pending" (arr (readings_json s.pending)) (
        field "dropped_readings" (int (pos s.dropped_readings)) (
          field "upload_attempts" (int (pos s.upload_attempts)) (
            field "upload_failures" (int (pos s.upload_failures)) (
              field "last_http_status" (optional_json s.last_http_status) (
                field "last_acknowledged_sequence" (optional_json s.last_acknowledged_sequence)
                  end)))))))

infixl 5 ◌>>=◌ ◌>>◌
abbrev pub ◌>>=◌ : {A B : Type 0} → Option A → (A → Option B) → Option B
none >>= f = none
some a >>= f = f a

abbrev pub ◌>>◌ : {B : Type 0} → Option (Unit {0}) → Option B → Option B
m >> k = m >>= λ _. k

-- `if not …: raise ValueError`
abbrev pub require : Bool → Option (Unit {0})
require true = some tt
require false = none

-- An `int` that is not a bool and not negative
abbrev pub natural : Json → Option ℕ
natural (int (pos n)) = some n
natural _ = none

abbrev pub text : Json → Option Text
text (str t) = some t
text _ = none

abbrev pub number : Json → Option Number
number (int k) = some (whole k)
number (float x) = some (real x)
number _ = none

-- One round of the loop over `pending`, after the sequence `last`
unfoldable pub read_reading : ℕ → ℕ → Json → Option Reading
read_reading last next (obj reading) = do
  sequence ← natural (get "sequence" reading)
  require (ltb last sequence)
  require (ltb sequence next)
  observed_at ← text (get "observed_at" reading)
  concentration ← number (get "pm25_ug_m3" reading)
  require (is_concentration concentration)
  some (record { sequence = sequence; observed_at = observed_at; pm25_ug_m3 = concentration })
read_reading last next _ = none

unfoldable pub read_readings : ℕ → ℕ → Items → Option (List Reading)
read_readings last next nil = some []
read_readings last next (cons v items) = do
  r ← read_reading last next v
  rs ← read_readings r.sequence next items
  some (r ∷ rs)

unfoldable pub read_pending : ℕ → Json → Option (List Reading)
read_pending next (arr items) = read_readings 0 next items
read_pending next _ = none

-- `value.setdefault(field, 0)` and the test of a counter
abbrev pub counter : Option Json → Option ℕ
counter none = some 0
counter (some v) = natural v

-- `value.setdefault(field, None)` and the test of an optional number
abbrev pub optional : (ℕ → Bool) → Option Json → Option (Option ℕ)
optional p none = some none
optional p (some null) = some none
optional p (some (int (pos n))) = if p n then some (some n) else none
optional p (some _) = none

-- `_read`, from the decoded document on; `none` is its ValueError.
unfoldable pub read_state : Json → Option State
read_state (obj value) = do
  next ← natural (get "next_sequence" value)
  require (leb 1 next)
  pending ← read_pending next (get "pending" value)
  dropped ← counter (find "dropped_readings" value)
  attempts ← counter (find "upload_attempts" value)
  failures ← counter (find "upload_failures" value)
  status ← optional (λ s. leb 100 s && leb s 599) (find "last_http_status" value)
  acknowledged ← optional (λ n. leb 1 n && ltb n next) (find "last_acknowledged_sequence" value)
  some (record {
    next_sequence = next;
    pending = pending;
    dropped_readings = dropped;
    upload_attempts = attempts;
    upload_failures = failures;
    last_http_status = status;
    last_acknowledged_sequence = acknowledged;
  })
read_state _ = none
