-- ===== src/Firmware/Client/Flushes.antt =====
-- `flush`: several uploads in a row.
use myaqi_iot_platform.Prelude.{
  ℕ, zero, suc, ◌+◌, ◌*◌, ◌≤◌, ◌≡◌, refl, ap, ◌∙◌, inl, inr, Option, List, [], ◌++◌, arith,
  Bool-cases, Option-cases, length, length-append, length-take,
}
use mathlib.Core.List.{append_assoc}
use myaqi_iot_platform.Prelude.Result.{Result, ok, err, Result-cases}
use myaqi_iot_platform.Prelude.Int.{ℤ}
use myaqi_iot_platform.Python.Text.{Text}
use myaqi_iot_platform.Firmware.State.{Reading, State}
use myaqi_iot_platform.Firmware.State.Valid.{StatusInRange, IsState}
use myaqi_iot_platform.Firmware.Store.{FaultPlan, save}
use myaqi_iot_platform.Firmware.Client.{
  Client, Answer, FlushError, upload_error, os_error, Flushed, add_flushed, batch, status_of,
  flush_one, flush_from, flush, no_counts, is_empty_queue, settle_upload, acknowledged, uploaded,
  last_sequence,
}
use myaqi_iot_platform.Firmware.Client.Uploads.{UploadOutcome, flush_one_outcome}

-- What uploads may do to a state: some readings, at most `n`, have left the front of the queue, and
-- the counters of sequences and of dropped readings are as they were.
pub record Shortened (n : ℕ) (s after : State) : Type 0 where
  pub sent : List Reading
  pub split : sent ++ after.pending ≡ s.pending
  pub bounded : length sent ≤ n
  pub valid : IsState after
  pub numbers : after.next_sequence ≡ s.next_sequence
  pub dropped : after.dropped_readings ≡ s.dropped_readings

Shortened-refl : (n : ℕ) (s : State) → IsState s → Shortened n s s
Shortened-refl n s h = record {
  sent = [];
  split = refl;
  bounded = omega arith;
  valid = h;
  numbers = refl;
  dropped = refl;
}

UploadOutcome-Shortened :
    (parse_int : Text → Option ℤ) (c : Client) (answer : Answer)
    (result : Result FlushError Flushed × Client)
    → IsState c.state
    → UploadOutcome parse_int c answer result
    → Shortened c.batch_size c.state result.1.state
UploadOutcome-Shortened parse_int c answer (ok done, after) valid h = record {
  sent = batch c;
  split = h.2;
  bounded = omega (arith, length-take {0} c.batch_size c.state.pending);
  valid = h.5;
  numbers = h.8;
  dropped = h.9;
}
UploadOutcome-Shortened parse_int c answer (err (upload_error status), after) valid h =
    rw h.1 (record {
      sent = [];
      split = refl;
      bounded = omega arith;
      valid = rw (← h.1) h.2;
      numbers = refl;
      dropped = refl;
    })
UploadOutcome-Shortened parse_int c answer (err os_error, after) valid h =
    rw h (Shortened-refl c.batch_size c.state valid)

Shortened-trans :
    (n m : ℕ) (s t u : State) → Shortened n s t → Shortened m t u → Shortened (n + m) s u
Shortened-trans n m s t u h k = record {
  sent = h.sent ++ k.sent;
  split = append_assoc h.sent k.sent u.pending ∙ (ap (λ r. h.sent ++ r) k.split ∙ h.split);
  bounded =
      (let p = h.bounded in let q = k.bounded in omega (arith, length-append {0} h.sent k.sent));
  valid = k.valid;
  numbers = k.numbers ∙ h.numbers;
  dropped = k.dropped ∙ h.dropped;
}

abbrev next_state : Answer → Client → State
next_state answer c =
    uploaded (length (batch c)) (last_sequence 0 (batch c)) (status_of answer) c.state

-- The limits of a client, which no call changes
abbrev pub limits : Client → ℕ × ℕ
limits c = (c.batch_size, c.max_pending)

limits-flush_one :
    (parse_int : Text → Option ℤ) (plan : FaultPlan) (answer : Answer) (c : Client)
    → limits (flush_one parse_int plan answer c).1 ≡ limits c
unfolding flush_one settle_upload
limits-flush_one parse_int plan answer c = elim (Bool-cases (is_empty_queue c.state.pending)) [
  | inl p ↦ rw p refl
  | inr p ↦ elim (Option-cases (acknowledged parse_int (length (batch c)) answer)) [
    | inl q ↦ rw p (rw (q, settle_upload) refl)
    | inr (k, q) ↦ elim (Bool-cases (save plan (next_state answer c) c.files).0) [
      | inl r ↦ rw p (rw (q, settle_upload, r) refl)
      | inr r ↦ rw p (rw (q, settle_upload, r) refl)
    ]
  ]
]

limits-flush_from :
    (parse_int : Text → Option ℤ) (n : ℕ) (world : ℕ → FaultPlan × Answer) (total : Flushed)
    (c : Client)
    → limits (flush_from parse_int n world total c).1 ≡ limits c
unfolding flush_from
limits-flush_from parse_int zero world total c = refl
limits-flush_from parse_int (suc n) world total c =
    elim (Bool-cases (is_empty_queue c.state.pending)) [
      | inl p ↦ rw p refl
      | inr p ↦
          let (result, after) = flush_one parse_int (world n).0 (world n).1 c in
          let same = limits-flush_one parse_int (world n).0 (world n).1 c in
          elim (Result-cases result) [
            | inr (e, q) ↦ rw (p, flush_from, q) same
            | inl (current, q) ↦
                rw (p, flush_from, q)
                  (limits-flush_from parse_int n world (add_flushed total current) after ∙ same)
          ]
    ]

pub limits-flush :
    (parse_int : Text → Option ℤ) (max_batches : ℕ) (world : ℕ → FaultPlan × Answer) (c : Client)
    → limits (flush parse_int max_batches world c).1 ≡ limits c
unfolding flush
limits-flush parse_int max_batches world c =
    limits-flush_from parse_int max_batches world
      (record { counts = no_counts; remaining = length c.state.pending }) c

Shortened-mono : (n m : ℕ) (s t : State) → n ≤ m → Shortened n s t → Shortened m s t
Shortened-mono n m s t p h = record {
  sent = h.sent;
  split = h.split;
  bounded = (let q = h.bounded in omega arith);
  valid = h.valid;
  numbers = h.numbers;
  dropped = h.dropped;
}

flush_from-Shortened :
    (parse_int : Text → Option ℤ) (n : ℕ) (world : ℕ → FaultPlan × Answer) (total : Flushed)
    (c : Client)
    → ((k : ℕ) → StatusInRange (status_of (world k).1))
    → IsState c.state
    → 1 ≤ c.batch_size
    → Shortened (n * c.batch_size) c.state (flush_from parse_int n world total c).1.state
unfolding flush_from
flush_from-Shortened parse_int zero world total c status valid size =
    Shortened-mono 0 (zero * c.batch_size) c.state c.state (omega arith)
      (Shortened-refl 0 c.state valid)
flush_from-Shortened parse_int (suc n) world total c status valid size =
    elim (Bool-cases (is_empty_queue c.state.pending)) [
      | inl p ↦ rw p (Shortened-refl (suc n * c.batch_size) c.state valid)
      | inr p ↦
          let (result, after) = flush_one parse_int (world n).0 (world n).1 c in
          let one : Shortened c.batch_size c.state after.state =
            UploadOutcome-Shortened parse_int c (world n).1 (result, after) valid
              (flush_one_outcome parse_int (world n).0 (world n).1 c valid size p (status n)) in
          let same : after.batch_size ≡ c.batch_size =
            ap (λ l. l.0) (limits-flush_one parse_int (world n).0 (world n).1 c) in
          elim (Result-cases result) [
            | inr (e, q) ↦
                rw (p, flush_from, q)
                  (Shortened-mono c.batch_size (suc n * c.batch_size) c.state after.state
                    (grind arith) one)
            | inl (current, q) ↦
                rw (p, flush_from, q)
                  (Shortened-mono (c.batch_size + n * after.batch_size) (suc n * c.batch_size)
                    c.state _ (rw same (grind arith))
                    (Shortened-trans c.batch_size (n * after.batch_size) c.state after.state _ one (
                      flush_from-Shortened parse_int n world (add_flushed total current) after
                        status one.valid (rw same size))))
          ]
    ]

-- From a state that `_read` accepts, a batch size of at least 1, and statuses within 100 to 599:
-- however many of its uploads fail, a `flush` takes readings only from the front of the queue, at
-- most `max_batches` batches of them, leaves the counters of sequences and of dropped readings as
-- they were, and leaves a state that `_read` accepts.
pub flush-Shortened :
    (parse_int : Text → Option ℤ) (max_batches : ℕ) (world : ℕ → FaultPlan × Answer) (c : Client)
    → ((k : ℕ) → StatusInRange (status_of (world k).1))
    → IsState c.state
    → 1 ≤ c.batch_size
    → Shortened (max_batches * c.batch_size) c.state (flush parse_int max_batches world c).1.state
unfolding flush
flush-Shortened parse_int max_batches world c status valid size =
    flush_from-Shortened parse_int max_batches world
      (record { counts = no_counts; remaining = length c.state.pending }) c status valid size
