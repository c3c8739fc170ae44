-- ===== src/Firmware/Client/Uploads.antt =====
-- `flush_one`: a batch leaves the queue only when the whole of it is acknowledged.
use myaqi_iot_platform.Prelude.{
  ℕ, zero, suc, ◌≤◌, ◌<◌, ◌≡◌, refl, ap, inl, inr, true, false, Option, none, some, List, [], ◌∷◌,
  ◌++◌, arith, ◌==◌, Bool-cases, Option-cases, length, take, drop,
}
use myaqi_iot_platform.Prelude.Int.{ℤ}
use mathlib.Core.Path.{subst}
use mathlib.Core.Option.{some-injective}
use myaqi_iot_platform.Prelude.Result.{Result, ok, err}
use myaqi_iot_platform.Python.Text.{Text, Bytes}
use myaqi_iot_platform.Python.Json.{Json}
use myaqi_iot_platform.Firmware.State.{Reading, State}
use myaqi_iot_platform.Firmware.State.Valid.{Ascends, StatusInRange, AcknowledgedBelow, IsState}
use myaqi_iot_platform.Firmware.Store.{FaultPlan, load, save}
use myaqi_iot_platform.Firmware.Store.Faults.{load-save}
use myaqi_iot_platform.Firmware.Client.{
  Client, Answer, lost, response, Counts, FlushError, upload_error, os_error, Flushed, batch,
  uploaded, failed, last_sequence, acknowledged, counts_of, status_of, covers, covering_counts,
  settle_upload, flush_one, is_empty_queue, upload_request,
}
use myaqi_iot_platform.Firmware.Client.Queue.{Ascends-drop}

-- The sequence of the last of some readings lies above `last` and below `next`.
last_sequence_bounds :
    (last next : ℕ) (r : Reading) (rs : List Reading) (n : ℕ)
    → Ascends last next (r ∷ rs)
    → (last < last_sequence r.sequence (take n rs)) × (last_sequence r.sequence (take n rs) < next)
unfolding last_sequence
last_sequence_bounds last next r rs zero h = (h.0, h.1)
last_sequence_bounds last next r [] (suc n) h = (h.0, h.1)
last_sequence_bounds last next r (x ∷ rs) (suc n) h =
    let ih = last_sequence_bounds r.sequence next x rs n h.3 in
    let above = h.0 in (omega arith, omega arith)

-- The acknowledged sequence of a batch from a queue that is not empty is one of the queue's.
batch-AcknowledgedBelow :
    (n next : ℕ) (rs : List Reading)
    → 1 ≤ n
    → is_empty_queue rs ≡ false
    → Ascends 0 next rs
    → AcknowledgedBelow next (some (last_sequence 0 (take n rs)))
unfolding last_sequence
batch-AcknowledgedBelow zero next rs p q h = absurd (omega arith)
batch-AcknowledgedBelow (suc n) next [] p q h = absurd (cc)
batch-AcknowledgedBelow (suc n) next (r ∷ rs) p q h =
    let b = last_sequence_bounds 0 next r rs n h in (omega arith, omega arith)

covering_counts-covers :
    (n : ℕ) (o : Option Counts) (k : Counts)
    → covering_counts n o ≡ some k
    → (covers n k ≡ true) × (o ≡ some k)
covering_counts-covers n none k h = absurd (cc)
covering_counts-covers n (some j) k h = elim (Bool-cases (covers n j)) [
  | inr t ↦ let impossible : none ≡ some k = (rw t at h) in absurd (cc)
  | inl t ↦
      subst (λ i. (covers n i ≡ true) × (some j ≡ some i)) (some-injective j k (rw t at h))
        (t, refl)
]

-- The JSON of an answer
abbrev pub body_of : Answer → Option Json
body_of lost = none
body_of (response status body) = body

-- Only a 202 whose counts add up to the batch is an acknowledgement.
acknowledged-covers :
    (parse_int : Text → Option ℤ) (n : ℕ) (answer : Answer) (k : Counts)
    → acknowledged parse_int n answer ≡ some k
    → (status_of answer ≡ some 202)
      × (covers n k ≡ true)
      × (counts_of parse_int (body_of answer) ≡ some k)
unfolding acknowledged
acknowledged-covers parse_int n lost k h = absurd (cc)
acknowledged-covers parse_int n (response status body) k h = elim (Bool-cases (status == 202)) [
  | inr p ↦ let impossible : none ≡ some k = (rw p at h) in absurd (cc)
  | inl p ↦
      let (all_counted, same) = covering_counts-covers n (counts_of parse_int body) k (rw p at h) in
      (ground (arith, p), all_counted, same)
]

-- The state after an acknowledged batch is one that `_read` accepts.
uploaded-IsState :
    (n : ℕ) (s : State)
    → IsState s
    → 1 ≤ n
    → is_empty_queue s.pending ≡ false
    → IsState
        (uploaded (length (take n s.pending)) (last_sequence 0 (take n s.pending)) (some 202) s)
uploaded-IsState n s h p q = record {
  starts = h.starts;
  ascends = Ascends-drop (length (take n s.pending)) 0 s.next_sequence s.pending h.ascends;
  status = (omega arith, omega arith);
  acknowledged = batch-AcknowledgedBelow n s.next_sequence s.pending p q h.ascends;
}

failed-IsState :
    (status : Option ℕ) (s : State) → IsState s → StatusInRange status → IsState (failed status s)
failed-IsState status s h p = record {
  starts = h.starts;
  ascends = h.ascends;
  status = p;
  acknowledged = h.acknowledged;
}

-- What `flush_one` has done to a queue that is not empty, by how it ended. A batch that was
-- acknowledged in full has left the front of the queue, and the files hold the new state. After a
-- failed upload the queue is as it was, and attempt and failure are counted; an OSError of `save`
-- leaves the whole state as it was.
abbrev pub UploadOutcome :
    (Text → Option ℤ) → Client → Answer → Result FlushError Flushed × Client → Type 0
UploadOutcome parse_int c answer (ok done, after) =
    (status_of answer ≡ some 202)
    × (covers (length (batch c)) done.counts ≡ true)
    × (batch c ++ after.state.pending ≡ c.state.pending)
    × (after.state.last_acknowledged_sequence ≡ some (last_sequence 0 (batch c)))
    × (done.remaining ≡ length after.state.pending)
    × IsState after.state
    × (load after.files ≡ some after.state)
    × (counts_of parse_int (body_of answer) ≡ some done.counts)
    × (after.state.next_sequence ≡ c.state.next_sequence)
    × (after.state.dropped_readings ≡ c.state.dropped_readings)
UploadOutcome parse_int c answer (err (upload_error status), after) =
    (status ≡ status_of answer) × (after.state ≡ failed status c.state) × IsState after.state
UploadOutcome parse_int c answer (err os_error, after) = after.state ≡ c.state

pub drop-length-take : (n : ℕ) (rs : List Reading) → take n rs ++ drop (length (take n rs)) rs ≡ rs
drop-length-take zero rs = refl
drop-length-take (suc n) [] = refl
drop-length-take (suc n) (r ∷ rs) = ap (λ t. r ∷ t) (drop-length-take n rs)

settle_upload-UploadOutcome :
    (parse_int : Text → Option ℤ) (plan : FaultPlan) (answer : Answer) (c : Client)
    → IsState c.state
    → 1 ≤ c.batch_size
    → is_empty_queue c.state.pending ≡ false
    → StatusInRange (status_of answer)
    → UploadOutcome parse_int c answer (settle_upload parse_int plan answer c)
unfolding settle_upload
settle_upload-UploadOutcome parse_int plan answer c valid size filled status =
    elim (Option-cases (acknowledged parse_int (length (batch c)) answer)) [
      | inl p ↦
          rw (p, settle_upload) (refl, refl, failed-IsState (status_of answer) c.state valid status)
      | inr (k, p) ↦
          let (code, all_counted, counted) =
            acknowledged-covers parse_int (length (batch c)) answer k p in
          let next =
            uploaded (length (batch c)) (last_sequence 0 (batch c)) (status_of answer) c.state in
          let is_state : IsState next =
            rw code (uploaded-IsState c.batch_size c.state valid size filled) in
          elim (Bool-cases (save plan next c.files).0) [
            | inl saved ↦
                rw (p, settle_upload, saved)
                  (
                    code,
                    all_counted,
                    drop-length-take c.batch_size c.state.pending,
                    refl,
                    refl,
                    is_state,
                    load-save plan next c.files is_state saved,
                    counted,
                    refl,
                    refl,
                  )
            | inr failed_save ↦ rw (p, settle_upload, failed_save) refl
          ]
    ]

-- From a state that `_read` accepts, with a queue that is not empty, a batch size of at least 1, and
-- an HTTP status, if any, within 100 to 599: readings leave the queue only as a whole batch at its
-- front, after a 202 whose body counts accepted and duplicate readings that add up to the batch, and
-- once the shorter queue is in the file; the counts are handed on. Everything else, a lost response
-- too, leaves the queue as it was.
pub flush_one_outcome :
    (parse_int : Text → Option ℤ) (plan : FaultPlan) (answer : Answer) (c : Client)
    → IsState c.state
    → 1 ≤ c.batch_size
    → is_empty_queue c.state.pending ≡ false
    → StatusInRange (status_of answer)
    → UploadOutcome parse_int c answer (flush_one parse_int plan answer c)
unfolding flush_one
flush_one_outcome parse_int plan answer c valid size filled status =
    rw filled (settle_upload-UploadOutcome parse_int plan answer c valid size filled status)

-- After an upload that was not acknowledged, the next request has the same key, body and URL, when no
-- reading has been queued in between.
pub upload_request_stable :
    (parse_int : Text → Option ℤ) (plan : FaultPlan) (answer : Answer) (c : Client)
    (sha256 : Bytes → Bytes) (dumps : Json → Bytes) (now later : ℕ)
    → acknowledged parse_int (length (batch c)) answer ≡ none
    → let first = upload_request sha256 dumps now c in
      let second = upload_request sha256 dumps later (flush_one parse_int plan answer c).1 in
      (second.idempotency_key ≡ first.idempotency_key)
      × (second.body ≡ first.body)
      × (second.url ≡ first.url)
unfolding flush_one settle_upload upload_request
upload_request_stable parse_int plan answer c sha256 dumps now later h =
    elim (Bool-cases (is_empty_queue c.state.pending)) [
      | inl p ↦ rw p (refl, refl, refl)
      | inr p ↦ rw p (rw (h, settle_upload) (refl, refl, refl))
    ]
