-- ===== src/Firmware/Client/Queue.antt =====
-- `enqueue`: the sequence numbers, the bound of the queue, and the count of what is dropped.
use myaqi_iot_platform.Prelude.{
  ℕ, suc, ◌+◌, zero, max, ◌≤◌, ◌<◌, ◌≡◌, refl, inl, inr, ◌⊎◌, true, false, Option, none, some, List,
  [], ◌∷◌, ◌++◌, arith, leb, if◌then◌else◌, Bool-cases, length, length-append, drop,
}
use myaqi_iot_platform.Prelude.Result.{Result, ok, err}
use myaqi_iot_platform.Python.Text.{Text}
use myaqi_iot_platform.Python.Float.{Float}
use myaqi_iot_platform.Firmware.State.{real, is_concentration, Reading, State}
use myaqi_iot_platform.Firmware.State.Valid.{Ascends, AcknowledgedBelow, IsState}
use myaqi_iot_platform.Firmware.Store.{FaultPlan, load, save}
use myaqi_iot_platform.Firmware.Store.Faults.{load-save}
use myaqi_iot_platform.Firmware.Client.{
  Client, EnqueueError, value_error, make_room, queued, new_reading, enqueue,
}

pub Ascends-weaken :
    (last last' next next' : ℕ) (rs : List Reading)
    → last' ≤ last
    → next ≤ next'
    → Ascends last next rs
    → Ascends last' next' rs
Ascends-weaken last last' next next' [] p q h = tt
Ascends-weaken last last' next next' (r ∷ rs) p q h = (
  omega arith,
  omega arith,
  h.2,
  Ascends-weaken r.sequence r.sequence next next' rs (omega arith) q h.3,
)

pub Ascends-drop :
    (n last next : ℕ) (rs : List Reading) → Ascends last next rs → Ascends last next (drop n rs)
Ascends-drop zero last next rs h = h
Ascends-drop (suc n) last next [] h = tt
Ascends-drop (suc n) last next (r ∷ rs) h =
    Ascends-drop n last next rs
      (Ascends-weaken r.sequence last next next rs (omega arith) (omega arith) h.3)

Ascends-append :
    (last next : ℕ) (rs : List Reading) (r : Reading)
    → last < next
    → Ascends last next rs
    → r.sequence ≡ next
    → is_concentration r.pm25_ug_m3 ≡ true
    → Ascends last (next + 1) (rs ++ r ∷ [])
Ascends-append last next [] r p h e v = (omega arith, omega arith, v, tt)
Ascends-append last next (x ∷ rs) r p h e v =
    (h.0, omega arith, h.2, Ascends-append x.sequence next rs r h.1 h.3 e v)

AcknowledgedBelow-suc :
    (next : ℕ) (o : Option ℕ) → AcknowledgedBelow next o → AcknowledgedBelow (next + 1) o
AcknowledgedBelow-suc next none h = tt
AcknowledgedBelow-suc next (some n) h = omega arith

-- The state after a reading with the next sequence is one that `_read` accepts.
pub queued-IsState :
    (max_pending : ℕ) (r : Reading) (s : State)
    → IsState s
    → r.sequence ≡ s.next_sequence
    → is_concentration r.pm25_ug_m3 ≡ true
    → IsState (queued max_pending r s)
unfolding queued
queued-IsState max_pending r s h e v = record {
  starts = (let one = h.starts in omega arith);
  ascends = room (Bool-cases (leb max_pending (length s.pending)));
  status = h.status;
  acknowledged = AcknowledgedBelow-suc s.next_sequence s.last_acknowledged_sequence h.acknowledged;
}
  where
    room :
        (leb max_pending (length s.pending) ≡ true) ⊎ (leb max_pending (length s.pending) ≡ false)
        → Ascends 0
            (s.next_sequence + 1)
            ((make_room max_pending s.pending s.dropped_readings).0 ++ r ∷ [])
    room (inl p) = rw p (
        Ascends-append 0 s.next_sequence (drop 1 s.pending) r h.starts
          (Ascends-drop 1 0 s.next_sequence s.pending h.ascends) e v)
    room (inr p) = rw p (Ascends-append 0 s.next_sequence s.pending r h.starts h.ascends e v)

-- A reading is numbered, counted and bounded: the next sequence grows by one, the readings queued
-- and dropped grow by one together, the new reading is the last of the queue, the oldest reading has
-- left the queue exactly if it was full, and a queue within its bound stays there.
pub record Enqueued (max_pending : ℕ) (reading : Reading) (s next : State) : Type 0 where
  pub numbered : reading.sequence ≡ s.next_sequence
  pub advanced : next.next_sequence ≡ s.next_sequence + 1
  pub conserved :
      length next.pending + next.dropped_readings ≡ length s.pending + s.dropped_readings + 1
  pub older : List Reading
  pub kept : older ≡ drop (if leb max_pending (length s.pending) then 1 else 0) s.pending
  pub appended : next.pending ≡ older ++ reading ∷ []
  pub bounded : length next.pending ≤ max (length s.pending) max_pending

make_room-length :
    (max_pending dropped : ℕ) (queue : List Reading)
    → 1 ≤ max_pending
    → let (rest, count) = make_room max_pending queue dropped in
      (length rest + count ≡ length queue + dropped)
      × (length rest + 1 ≤ max (length queue) max_pending)
make_room-length max_pending dropped [] h = (ground arith, ground arith)
make_room-length max_pending dropped (x ∷ xs) h = (ground arith, ground arith)

make_room-drop :
    (max_pending dropped : ℕ) (queue : List Reading)
    → (make_room max_pending queue dropped).0
      ≡ drop (if leb max_pending (length queue) then 1 else 0) queue
make_room-drop max_pending dropped queue = elim (Bool-cases (leb max_pending (length queue))) [
  | inl p ↦ rw p refl
  | inr p ↦ rw p refl
]

queued-Enqueued :
    (max_pending : ℕ) (r : Reading) (s : State)
    → 1 ≤ max_pending
    → r.sequence ≡ s.next_sequence
    → Enqueued max_pending r s (queued max_pending r s)
unfolding queued
queued-Enqueued max_pending r s pos_bound e =
    let (rest, count) = make_room max_pending s.pending s.dropped_readings in
    let room = make_room-length max_pending s.dropped_readings s.pending pos_bound in
    record {
      numbered = e;
      advanced = refl;
      conserved = omega (arith, room.0, length-append {0} rest (r ∷ []));
      older = rest;
      kept = make_room-drop max_pending s.dropped_readings s.pending;
      appended = refl;
      bounded = omega (arith, room.1, length-append {0} rest (r ∷ []));
    }

-- What `enqueue` has done, by how it ended: a reading that is returned has been queued, in a state
-- that the files hold; an exception leaves the queue as it was.
abbrev pub EnqueueOutcome : Float → Text → Client → Result EnqueueError Reading × Client → Type 0
EnqueueOutcome x observed_at c (ok reading, after) =
    Enqueued c.max_pending reading c.state after.state
    × IsState after.state
    × (load after.files ≡ some after.state)
    × (reading.pm25_ug_m3 ≡ real x)
    × (reading.observed_at ≡ observed_at)
EnqueueOutcome x observed_at c (err e, after) = after.state ≡ c.state

pub enqueue_outcome :
    (plan : FaultPlan) (x : Float) (observed_at : Text) (c : Client)
    → IsState c.state
    → 1 ≤ c.max_pending
    → EnqueueOutcome x observed_at c (enqueue plan x observed_at c)
unfolding enqueue
enqueue_outcome plan x observed_at c valid room = elim (Bool-cases (is_concentration (real x))) [
  | inr bad ↦ rw bad refl
  | inl good ↦
      let reading = new_reading x observed_at c.state in
      let next = queued c.max_pending reading c.state in
      let is_state = queued-IsState c.max_pending reading c.state valid refl good in
      elim (Bool-cases (save plan next c.files).0) [
        | inl saved ↦
            rw (good, saved)
              (
                queued-Enqueued c.max_pending reading c.state room refl,
                is_state,
                load-save plan next c.files is_state saved,
                refl,
                refl,
              )
        | inr failed ↦ rw (good, failed) refl
      ]
]

-- A value that is not a number, or out of range, is refused before anything changes.
pub enqueue_invalid :
    (plan : FaultPlan) (x : Float) (observed_at : Text) (c : Client)
    → is_concentration (real x) ≡ false
    → enqueue plan x observed_at c ≡ (err value_error, c)
unfolding enqueue
enqueue_invalid plan x observed_at c bad = rw bad
