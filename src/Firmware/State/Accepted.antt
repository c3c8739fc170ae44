-- ===== src/Firmware/State/Accepted.antt =====
-- What `_read` accepts.
use myaqi_iot_platform.Prelude.{
  ℕ, ◌<◌, ◌≡◌, refl, Bool, true, false, Option, none, some, List, arith, ltb, leb, ◌&&◌,
}
use mathlib.Core.Path.{subst}
use mathlib.Core.Option.{some-injective}
use myaqi_iot_platform.Python.Json.{
  Json, null, bool, int, float, str, arr, obj, Items, nil, cons, get, find,
}
use myaqi_iot_platform.Prelude.Int.{pos, negsuc}
use myaqi_iot_platform.Firmware.State.{
  Reading, State, is_concentration, ◌>>=◌, require, natural, text, number, counter, optional,
  read_reading, read_readings, read_pending, read_state,
}
use myaqi_iot_platform.Firmware.State.Valid.{Ascends, StatusInRange, AcknowledgedBelow, IsState}

-- A chain that gives a value ran both of its parts.
pub >>=-eq-some :
    {A B : Type 0} (m : Option A) (f : A → Option B) {b : B}
    → (m >>= f) ≡ some b
    → (a : A) × (m ≡ some a) × (f a ≡ some b)
>>=-eq-some none f h = absurd (cc)
>>=-eq-some (some a) f h = (a, refl, h)

require-some : (b : Bool) {u : Unit {0}} → require b ≡ some u → b ≡ true
require-some true h = refl
require-some false h = absurd (cc)

read_reading-bounds :
    (last next : ℕ) (v : Json) {r : Reading}
    → read_reading last next v ≡ some r
    → (last < r.sequence) × (r.sequence < next) × (is_concentration r.pm25_ug_m3 ≡ true)
unfolding read_reading
read_reading-bounds last next (obj fields) {r} h =
    let (sequence, _, h1) = >>=-eq-some (natural (get "sequence" fields)) _ h in
    let (_, above, h2) = >>=-eq-some (require (ltb last sequence)) _ h1 in
    let (_, below, h3) = >>=-eq-some (require (ltb sequence next)) _ h2 in
    let (observed_at, _, h4) = >>=-eq-some (text (get "observed_at" fields)) _ h3 in
    let (x, _, h5) = >>=-eq-some (number (get "pm25_ug_m3" fields)) _ h4 in
    let (_, fits, h6) = >>=-eq-some (require (is_concentration x)) _ h5 in
    let p : ltb last sequence ≡ true = require-some _ above in
    let q : ltb sequence next ≡ true = require-some _ below in
    let same = some-injective _ _ h6 in
    subst
      (λ (r : Reading).
        (last < r.sequence) × (r.sequence < next) × (is_concentration r.pm25_ug_m3 ≡ true))
      same (ground arith, ground arith, require-some _ fits)
read_reading-bounds last next null h = absurd (cc)
read_reading-bounds last next (bool _) h = absurd (cc)
read_reading-bounds last next (int _) h = absurd (cc)
read_reading-bounds last next (float _) h = absurd (cc)
read_reading-bounds last next (str _) h = absurd (cc)
read_reading-bounds last next (arr _) h = absurd (cc)

read_readings-Ascends :
    (last next : ℕ) (items : Items) {rs : List Reading}
    → read_readings last next items ≡ some rs
    → Ascends last next rs
unfolding read_readings
read_readings-Ascends last next nil h = subst (λ rs. Ascends last next rs) (some-injective _ _ h) tt
read_readings-Ascends last next (cons v items) h =
    let (r, first, h1) = >>=-eq-some (read_reading last next v) _ h in
    let (rs, rest, h2) = >>=-eq-some (read_readings r.sequence next items) _ h1 in
    let b = read_reading-bounds last next v first in
    subst (λ rs. Ascends last next rs) (some-injective _ _ h2)
      (b.0, b.1, b.2, read_readings-Ascends r.sequence next items rest)

read_pending-Ascends :
    (next : ℕ) (v : Json) {rs : List Reading} → read_pending next v ≡ some rs → Ascends 0 next rs
unfolding read_pending
read_pending-Ascends next (arr items) h = read_readings-Ascends 0 next items h
read_pending-Ascends next null h = absurd (cc)
read_pending-Ascends next (bool _) h = absurd (cc)
read_pending-Ascends next (int _) h = absurd (cc)
read_pending-Ascends next (float _) h = absurd (cc)
read_pending-Ascends next (str _) h = absurd (cc)
read_pending-Ascends next (obj _) h = absurd (cc)

optional-holds :
    (p : ℕ → Bool) (v : Option Json) {n : ℕ} → optional p v ≡ some (some n) → p n ≡ true
optional-holds p none h = absurd (cc)
optional-holds p (some null) h = absurd (cc)
optional-holds p (some (int (pos n))) h = ground arith
optional-holds p (some (int (negsuc n))) h = absurd (cc)
optional-holds p (some (bool _)) h = absurd (cc)
optional-holds p (some (float _)) h = absurd (cc)
optional-holds p (some (str _)) h = absurd (cc)
optional-holds p (some (arr _)) h = absurd (cc)
optional-holds p (some (obj _)) h = absurd (cc)

optional-StatusInRange :
    (v : Option Json) (o : Option ℕ)
    → optional (λ s. leb 100 s && leb s 599) v ≡ some o
    → StatusInRange o
optional-StatusInRange v none h = tt
optional-StatusInRange v (some s) h =
    let fits = optional-holds (λ s. leb 100 s && leb s 599) v h in (ground arith, ground arith)

optional-AcknowledgedBelow :
    (next : ℕ) (v : Option Json) (o : Option ℕ)
    → optional (λ n. leb 1 n && ltb n next) v ≡ some o
    → AcknowledgedBelow next o
optional-AcknowledgedBelow next v none h = tt
optional-AcknowledgedBelow next v (some n) h =
    let fits = optional-holds (λ n. leb 1 n && ltb n next) v h in (ground arith, ground arith)

-- Every document that `_read` accepts gives a state with ascending sequences below the next one,
-- values within their limits, and a status and an acknowledged sequence in range.
pub read_state-IsState : (v : Json) (s : State) → read_state v ≡ some s → IsState s
unfolding read_state
read_state-IsState (obj value) s h =
    let (next, _, h1) = >>=-eq-some (natural (get "next_sequence" value)) _ h in
    let (_, starts, h2) = >>=-eq-some (require (leb 1 next)) _ h1 in
    let (pending, queue, h3) = >>=-eq-some (read_pending next (get "pending" value)) _ h2 in
    let (dropped, _, h4) = >>=-eq-some (counter (find "dropped_readings" value)) _ h3 in
    let (attempts, _, h5) = >>=-eq-some (counter (find "upload_attempts" value)) _ h4 in
    let (failures, _, h6) = >>=-eq-some (counter (find "upload_failures" value)) _ h5 in
    let (status, in_range, h7) =
      >>=-eq-some (optional (λ s. leb 100 s && leb s 599) (find "last_http_status" value)) _ h6 in
    let (acknowledged, below, h8) =
      >>=-eq-some (optional (λ n. leb 1 n && ltb n next) (find "last_acknowledged_sequence" value))
        _ h7 in
    let one : leb 1 next ≡ true = require-some _ starts in
    subst (λ (s : State). IsState s) (some-injective _ _ h8)
      (record {
        starts = ground arith;
        ascends = read_pending-Ascends next (get "pending" value) queue;
        status = optional-StatusInRange (find "last_http_status" value) status in_range;
        acknowledged =
            optional-AcknowledgedBelow next (find "last_acknowledged_sequence" value) acknowledged
              below;
      })
read_state-IsState null s h = absurd (cc)
read_state-IsState (bool _) s h = absurd (cc)
read_state-IsState (int _) s h = absurd (cc)
read_state-IsState (float _) s h = absurd (cc)
read_state-IsState (str _) s h = absurd (cc)
read_state-IsState (arr _) s h = absurd (cc)
