-- ===== src/Firmware/Client.antt =====
-- `MyAQIClient`: the queue of readings, its uploads, and its diagnostics.
-- The network and the file system are arguments: each call is given the answer that its POST meets
-- and the faults that its `save` meets. `parse_int` is `int(text)`, `dumps` is `json.dumps`.
pub mod Queue
pub mod Uploads
pub mod Flushes
pub mod Tests
use myaqi_iot_platform.Prelude.{
  ℕ, zero, suc, ◌+◌, ◌-◌, ◌/◌, ◌%◌, ◌*◌, String, Bool, true, false, ◌&&◌, ◌||◌, not, Option, none,
  some, List, [], ◌∷◌, ◌++◌, ltb, leb, ◌==◌, if◌then◌else◌, length, take, drop, all,
}
use myaqi_iot_platform.Prelude.Int.{ℤ, pos, negsuc, ◌+ℤ◌, pos_part, neg_part}
use myaqi_iot_platform.Prelude.Result.{Result, ok, err, ◌>>=◌, ◌>>◌, raise_if, or_raise}
use myaqi_iot_platform.Python.Text.{Text, Bytes, codes, decimal, text_eq}
use myaqi_iot_platform.Python.Float.{Float, nan, neg_inf, pos_inf, fin, one}
use myaqi_iot_platform.Python.Json.{
  Json, null, bool, int, float, str, arr, obj, Fields, field, end, find,
}
use myaqi_iot_platform.Firmware.Signing.{sign_request, decode_device_secret}
use myaqi_iot_platform.Firmware.State.{
  Number, real, is_concentration, Reading, State, readings_json,
}
use myaqi_iot_platform.Firmware.Store.{Files, FaultPlan, load, save}

pub record Client : Type 0 where
  pub api_base_url : Text
  pub device_id : Text
  pub secret : Bytes
  pub batch_size : ℕ
  pub max_pending : ℕ
  pub firmware_version : Text
  pub state : State
  pub files : Files

-- The ValueErrors of `__init__`
pub data Invalid : Type 0 where
  api_base_url queue_limits device_id_characters device_secret state_files : Invalid

-- `s.startswith(prefix)`, with the rest
unfoldable pub after_prefix : Text → Text → Option Text
after_prefix [] s = some s
after_prefix (c ∷ cs) [] = none
after_prefix (c ∷ cs) (d ∷ ds) = let rest = after_prefix cs ds in if c == d then rest else none

abbrev strip_slash : ℕ → Text → Text
strip_slash c [] = if c == b'/' then [] else c ∷ []
strip_slash c (d ∷ ds) = c ∷ d ∷ ds

-- `s.rstrip("/")`
unfoldable pub rstrip_slash : Text → Text
rstrip_slash [] = []
rstrip_slash (c ∷ cs) = strip_slash c (rstrip_slash cs)

-- The part of an origin after the first "://", when nothing follows the host and the port
abbrev pub is_authority : Text → Bool
is_authority [] = false
is_authority (c ∷ cs) = all (λ d. not (d == b'/' || d == b'?' || d == b'#')) (c ∷ cs)

abbrev is_some_authority : Option Text → Bool
is_some_authority none = false
is_some_authority (some a) = is_authority a

abbrev is_local_port : Option Text → Bool
is_local_port none = false
is_local_port (some []) = true
is_local_port (some (c ∷ cs)) = c == b':' && is_authority (c ∷ cs)

-- An https origin, or an http origin on localhost
unfoldable pub is_origin : Text → Bool
unfolding after_prefix
is_origin url =
    is_some_authority (after_prefix (codes "https://") url)
    || is_local_port (after_prefix (codes "http://localhost") url)

-- The characters that a device's name may have
unfoldable pub is_device_id_char : ℕ → Bool
is_device_id_char c =
    (leb b'a' c && leb c b'z')
    || (leb b'A' c && leb c b'Z')
    || (leb b'0' c && leb c b'9')
    || c == b'.'
    || c == b'_'
    || c == b':'
    || c == b'-'

abbrev pub is_empty : Text → Bool
is_empty [] = true
is_empty (_ ∷ _) = false

-- `__init__`
unfoldable pub new_client :
    (Bytes → Option Bytes) → Text → Text → Text → Files → ℕ → ℕ → Text → Result Invalid Client
new_client a2b_base64 url device secret files batch_size max_pending version = do
  raise_if (not (is_origin (rstrip_slash url))) api_base_url
  raise_if (ltb batch_size 1 || ltb 500 batch_size || ltb max_pending batch_size) queue_limits
  raise_if (is_empty device || not (all is_device_id_char device)) device_id_characters
  key ← or_raise (decode_device_secret a2b_base64 secret) device_secret
  raise_if (not (length key == 32)) device_secret
  state ← or_raise (load files) state_files
  ok (record {
    api_base_url = rstrip_slash url;
    device_id = device;
    secret = key;
    batch_size = batch_size;
    max_pending = max_pending;
    firmware_version = version;
    state = state;
    files = files;
  })

-- The two exceptions of `enqueue`
pub data EnqueueError : Type 0 where
  value_error os_error : EnqueueError

-- The new queue and the number of readings dropped, from a queue that may be full
abbrev pub make_room : ℕ → List Reading → ℕ → List Reading × ℕ
make_room max_pending queue dropped =
    if leb max_pending (length queue) then (drop 1 queue, dropped + 1) else (queue, dropped)

-- The state after `enqueue`
unfoldable pub queued : ℕ → Reading → State → State
queued max_pending reading s =
    let (queue, dropped) = make_room max_pending s.pending s.dropped_readings in
    record s {
      next_sequence = s.next_sequence + 1;
      pending = queue ++ reading ∷ [];
      dropped_readings = dropped;
    }

abbrev pub new_reading : Float → Text → State → Reading
new_reading x observed_at s = record {
  sequence = s.next_sequence;
  observed_at = observed_at;
  pm25_ug_m3 = real x;
}

-- `concentration` is `float(pm25_ug_m3)`, and `observed_at` the text given or that of `format_utc`.
unfoldable pub enqueue : FaultPlan → Float → Text → Client → Result EnqueueError Reading × Client
enqueue plan x observed_at c =
    if not (is_concentration (real x))
    then (err value_error, c)
    else (let reading = new_reading x observed_at c.state in
        let next = queued c.max_pending reading c.state in
        let (saved, files) = save plan next c.files in
        if saved
        then (ok reading, record c { state = next; files = files })
        else (err os_error, record c { files = files }))

-- What the session's `post` is called with
pub record Request : Type 0 where
  pub url : Text
  pub body : Bytes
  pub idempotency_key : Text
  pub timestamp : Text
  pub signature : Text
  pub firmware_version : Text

-- The first and the last sequence of a batch
unfoldable pub last_sequence : ℕ → List Reading → ℕ
last_sequence n [] = n
last_sequence n (r ∷ rs) = last_sequence r.sequence rs

abbrev pub first_sequence : List Reading → ℕ
first_sequence [] = 0
first_sequence (r ∷ rs) = r.sequence

abbrev pub batch : Client → List Reading
batch c = take c.batch_size c.state.pending

unfoldable pub batch_body : (Json → Bytes) → List Reading → Bytes
batch_body dumps readings = dumps (obj (field "readings" (arr (readings_json readings)) end))

unfoldable pub batch_key : Text → List Reading → Text
unfolding last_sequence
batch_key device readings =
    codes "myaqi-batch-"
    ++ (device
        ++ (b'-'
            ∷ (decimal (first_sequence readings) ++ (b'-' ∷ decimal (last_sequence 0 readings)))))

unfoldable pub upload_path : Text → Text
upload_path device = codes "/v1/devices/" ++ (device ++ codes "/measurements:batch")

unfoldable pub upload_request : (Bytes → Bytes) → (Json → Bytes) → ℕ → Client → Request
unfolding batch_body batch_key upload_path
upload_request sha256 dumps now c =
    let body = batch_body dumps (batch c) in
    record {
      url = c.api_base_url ++ upload_path c.device_id;
      body = body;
      idempotency_key = batch_key c.device_id (batch c);
      timestamp = decimal now;
      signature =
          sign_request sha256 c.secret (decimal now) (codes "POST") (upload_path c.device_id) body;
      firmware_version = c.firmware_version;
    }

-- What the POST meets: an exception, or a response with its status and its body, if that is JSON.
pub data Answer : Type 0 where
  lost : Answer
  response : ℕ → Option Json → Answer

-- `int(value)`; `none` is a ValueError, an OverflowError or a TypeError.
unfoldable pub int_of : (Text → Option ℤ) → Json → Option ℤ
int_of parse_int null = none
int_of parse_int (bool b) = some (pos (if b then 1 else 0))
int_of parse_int (int k) = some k
int_of parse_int (float (fin (pos m))) = some (pos (m / one))
int_of parse_int (float (fin (negsuc m))) =
    some (if suc m / one == 0 then pos 0 else negsuc (suc m / one - 1))
int_of parse_int (float _) = none
int_of parse_int (str t) = parse_int t
int_of parse_int (arr _) = none
int_of parse_int (obj _) = none

-- `int(result.get(key, 0))`
abbrev pub int_or_zero : (Text → Option ℤ) → Option Json → Option ℤ
int_or_zero parse_int none = some (pos 0)
int_or_zero parse_int (some v) = int_of parse_int v

pub record Counts : Type 0 where
  pub accepted : ℤ
  pub duplicates : ℤ

abbrev both_counts : Option ℤ → Option ℤ → Option Counts
both_counts (some a) (some d) = some (record { accepted = a; duplicates = d })
both_counts _ _ = none

-- The counts in the body of a response; an exception for what is not a dict of integers
unfoldable pub counts_of : (Text → Option ℤ) → Option Json → Option Counts
counts_of parse_int (some (obj result)) =
    both_counts (int_or_zero parse_int (find "accepted" result))
      (int_or_zero parse_int (find "duplicates" result))
counts_of parse_int _ = none

abbrev pub eq_ℤ : ℤ → ℤ → Bool
eq_ℤ a b = pos_part a + neg_part b == pos_part b + neg_part a

abbrev pub covers : ℕ → Counts → Bool
covers n k = eq_ℤ (k.accepted +ℤ k.duplicates) (pos n)

abbrev pub covering_counts : ℕ → Option Counts → Option Counts
covering_counts n none = none
covering_counts n (some k) = if covers n k then some k else none

-- The counts of an acknowledgement that covers a batch of `n` readings
unfoldable pub acknowledged : (Text → Option ℤ) → ℕ → Answer → Option Counts
acknowledged parse_int n lost = none
acknowledged parse_int n (response status body) =
    if not (status == 202) then none else covering_counts n (counts_of parse_int body)

abbrev pub status_of : Answer → Option ℕ
status_of lost = none
status_of (response status _) = some status

-- The state that `_record_upload_failure` makes
abbrev pub failed : Option ℕ → State → State
failed status s = record s {
  upload_attempts = s.upload_attempts + 1;
  upload_failures = s.upload_failures + 1;
  last_http_status = status;
}

-- `_record_upload_failure`: an OSError of `save` is swallowed.
unfoldable pub record_upload_failure : FaultPlan → Option ℕ → Client → Client
record_upload_failure plan status c =
    let next = failed status c.state in
    record c { state = next; files = (save plan next c.files).1 }

-- The state after an acknowledged batch of `n` readings that ends in the sequence `last`
abbrev pub uploaded : ℕ → ℕ → Option ℕ → State → State
uploaded n last status s = record s {
  pending = drop n s.pending;
  upload_attempts = s.upload_attempts + 1;
  last_http_status = status;
  last_acknowledged_sequence = some last;
}

-- The exceptions of `flush_one`: that of a failed upload, with the status of the response, if there
-- was one, and an OSError of `save`.
pub data FlushError : Type 0 where
  upload_error : Option ℕ → FlushError
  os_error : FlushError

pub record Flushed : Type 0 where
  pub counts : Counts
  pub remaining : ℕ

abbrev pub no_counts : Counts
no_counts = record { accepted = pos 0; duplicates = pos 0 }

-- The part of `flush_one` after the response, on a queue that is not empty
unfoldable pub settle_upload :
    (Text → Option ℤ) → FaultPlan → Answer → Client → Result FlushError Flushed × Client
unfolding record_upload_failure
settle_upload parse_int plan answer c = elim (acknowledged parse_int (length (batch c)) answer) [
  | none ↦ (err (upload_error (status_of answer)), record_upload_failure plan (status_of answer) c)
  | some k ↦
      let next =
        uploaded (length (batch c)) (last_sequence 0 (batch c)) (status_of answer) c.state in
      let (saved, files) = save plan next c.files in
      if saved
      then (
        ok (record { counts = k; remaining = length next.pending }),
        record c { state = next; files = files },
      )
      else (err os_error, record c { files = files })
]

abbrev pub is_empty_queue : List Reading → Bool
is_empty_queue [] = true
is_empty_queue (_ ∷ _) = false

unfoldable pub flush_one :
    (Text → Option ℤ) → FaultPlan → Answer → Client → Result FlushError Flushed × Client
flush_one parse_int plan answer c =
    if is_empty_queue c.state.pending
    then (ok (record { counts = no_counts; remaining = 0 }), c)
    else settle_upload parse_int plan answer c

-- The totals of `flush` after one more batch
abbrev pub add_flushed : Flushed → Flushed → Flushed
add_flushed total current = record {
  counts = record {
    accepted = total.counts.accepted +ℤ current.counts.accepted;
    duplicates = total.counts.duplicates +ℤ current.counts.duplicates;
  };
  remaining = current.remaining;
}

-- `flush`, with the faults and the answer of each upload, by the number of rounds left after it
unfoldable pub flush_from :
    (Text → Option ℤ)
    → ℕ
    → (ℕ → FaultPlan × Answer)
    → Flushed
    → Client
    → Result FlushError Flushed × Client
flush_from parse_int zero world total c = (ok total, c)
flush_from parse_int (suc n) world total c =
    if is_empty_queue c.state.pending
    then (ok total, c)
    else (let (result, after) = flush_one parse_int (world n).0 (world n).1 c in
        elim result [
          | err e ↦ (err e, after)
          | ok current ↦ flush_from parse_int n world (add_flushed total current) after
        ])

unfoldable pub flush :
    (Text → Option ℤ) → ℕ → (ℕ → FaultPlan × Answer) → Client → Result FlushError Flushed × Client
unfolding flush_from
flush parse_int max_batches world c =
    flush_from parse_int max_batches world
      (record { counts = no_counts; remaining = length c.state.pending }) c

-- `diagnostics`
pub record Diagnostics : Type 0 where
  pub firmware_version : Text
  pub next_sequence : ℕ
  pub pending_readings : ℕ
  pub oldest_pending_sequence : Option ℕ
  pub newest_pending_sequence : Option ℕ
  pub dropped_readings : ℕ
  pub upload_attempts : ℕ
  pub upload_failures : ℕ
  pub last_http_status : Option ℕ
  pub last_acknowledged_sequence : Option ℕ

unfoldable pub diagnostics : Client → Diagnostics
unfolding last_sequence
diagnostics c =
    let s = c.state in
    let queued_any = not (is_empty_queue s.pending) in
    record {
      firmware_version = c.firmware_version;
      next_sequence = s.next_sequence;
      pending_readings = length s.pending;
      oldest_pending_sequence = if queued_any then some (first_sequence s.pending) else none;
      newest_pending_sequence = if queued_any then some (last_sequence 0 s.pending) else none;
      dropped_readings = s.dropped_readings;
      upload_attempts = s.upload_attempts;
      upload_failures = s.upload_failures;
      last_http_status = s.last_http_status;
      last_acknowledged_sequence = s.last_acknowledged_sequence;
    }
