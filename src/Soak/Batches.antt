-- ===== src/Soak/Batches.antt =====
-- `build_batches` of soak/run_software.py. `value` is the concentration that the trial makes up for a
-- sequence, `dumps` the printer of JSON, and `observed_at` the time of the start.
use myaqi_iot_platform.Prelude.{
  ℕ, zero, suc, ◌+◌, ◌-◌, ◌≤◌, ◌<◌, min, ◌≡◌, refl, ◌||◌, not, List, [], ◌∷◌, ◌++◌, ltb,
  if◌then◌else◌, arith, take, inl, inr, Bool-cases, Option, none, some,
}
use mathlib.Core.Path.{subst}
use myaqi_iot_platform.Prelude.Int.{ℤ, pos, negsuc, leb_ℤ, pos_part}
use myaqi_iot_platform.Python.Text.{Text, Bytes, codes, decimal}
use myaqi_iot_platform.Python.Float.{Float}
use myaqi_iot_platform.Python.Json.{Json, Items, int, str, float, arr, nil, cons, obj, field, end}

pub record Batch : Type 0 where
  pub first_sequence : ℕ
  pub last_sequence : ℕ
  pub idempotency_key : Text
  pub body : Bytes

-- `Batch.size`
abbrev pub size : Batch → ℕ
size b = b.last_sequence + 1 - b.first_sequence

abbrev pub batch_key : Text → ℕ → ℕ → Text
batch_key run_id first last =
    codes "software-trial-"
    ++ (take 12 run_id ++ (codes "-" ++ (decimal first ++ (codes "-" ++ decimal last))))

module _ (value : ℕ → Float) (observed_at : Text) where
  abbrev pub reading_json : ℕ → Json
  reading_json sequence = obj (
      field "sequence" (int (pos sequence))
        (field "observed_at" (str observed_at) (field "pm25_ug_m3" (float (value sequence)) end)))

  -- `n` readings from `sequence` on
  unfoldable pub readings_json : ℕ → ℕ → Items
  readings_json zero sequence = nil
  readings_json (suc n) sequence = cons (reading_json sequence) (readings_json n (sequence + 1))

  -- The batch of the sequences from `first` to `last`
  unfoldable pub build_batch : (Json → Bytes) → Text → ℕ → ℕ → Batch
  unfolding readings_json
  build_batch dumps run_id first last = record {
    first_sequence = first;
    last_sequence = last;
    idempotency_key = batch_key run_id first last;
    body = dumps (obj (field "readings" (arr (readings_json (last + 1 - first) first)) end));
  }

  -- The loop over `range(first, readings + 1, batch_size)`
  unfoldable pub batches_from : (Json → Bytes) → Text → ℕ → ℕ → ℕ → ℕ → List Batch
  batches_from dumps run_id readings batch_size zero first = []
  batches_from dumps run_id readings batch_size (suc fuel) first =
      let last = min readings (first + batch_size - 1) in
      let rest = batches_from dumps run_id readings batch_size fuel (first + batch_size) in
      if ltb readings first then [] else build_batch dumps run_id first last ∷ rest

  -- `none` for the ValueError. Each batch takes a sequence or more, so the number of readings is fuel
  -- enough.
  unfoldable pub build_batches : (Json → Bytes) → Text → ℤ → ℤ → Option (List Batch)
  unfolding batches_from
  build_batches dumps run_id readings batch_size =
      if not (leb_ℤ (pos 1) readings)
        || (not (leb_ℤ (pos 1) batch_size) || not (leb_ℤ batch_size (pos 500)))
      then none
      else some (
          batches_from dumps run_id (pos_part readings) (pos_part batch_size) (pos_part readings) 1)

-- `items` are the readings of the sequences from `first` on, and the last of them is `last`.
abbrev pub HoldsReadings : (ℕ → Float) → Text → ℕ → ℕ → Items → Type 0
HoldsReadings value observed_at first last nil = first ≡ last + 1
HoldsReadings value observed_at first last (cons j items) =
    (j ≡ reading_json value observed_at first)
    × HoldsReadings value observed_at (first + 1) last items

-- The body is the JSON of the readings that the batch stands for, each once.
abbrev pub HasBody : (ℕ → Float) → Text → (Json → Bytes) → Batch → Type 0
HasBody value observed_at dumps b =
    (items : Items) × (b.body ≡ dumps (obj (field "readings" (arr items) end)))
    × HoldsReadings value observed_at b.first_sequence b.last_sequence items

-- The batches take the sequences from `first` to `readings` in order, without a gap or an overlap,
-- each at least one and at most `batch_size`, and the body of each has its readings.
abbrev pub Covers : (ℕ → Float) → Text → (Json → Bytes) → ℕ → ℕ → ℕ → List Batch → Type 0
Covers value observed_at dumps batch_size readings first [] = first ≡ readings + 1
Covers value observed_at dumps batch_size readings first (b ∷ bs) =
    (b.first_sequence ≡ first)
    × (b.first_sequence ≤ b.last_sequence)
    × (size b ≤ batch_size)
    × (b.last_sequence ≤ readings)
    × HasBody value observed_at dumps b
    × Covers value observed_at dumps batch_size readings (b.last_sequence + 1) bs

abbrev pub readings_of : List Batch → ℕ
readings_of [] = 0
readings_of (b ∷ bs) = size b + readings_of bs

-- So they have as many readings as there are sequences.
pub readings_of-Covers :
    (value : ℕ → Float) (observed_at : Text) (dumps : Json → Bytes) (batch_size readings first : ℕ)
    (bs : List Batch)
    → first ≤ readings + 1
    → Covers value observed_at dumps batch_size readings first bs
    → readings_of bs + first ≡ readings + 1
readings_of-Covers value observed_at dumps batch_size readings first [] h c = omega (arith, c)
readings_of-Covers value observed_at dumps batch_size readings first (b ∷ bs) h c = omega (
  arith,
  c.0,
  c.1,
  c.3,
  readings_of-Covers value observed_at dumps batch_size readings (b.last_sequence + 1) bs
      (omega (arith, c.3)) c.5,
)

module _ (value : ℕ → Float) (observed_at : Text) (dumps : Json → Bytes) (run_id : Text) where
  batches_from_past :
      (readings batch_size fuel first : ℕ)
      → readings < first
      → batches_from value observed_at dumps run_id readings batch_size fuel first ≡ []
  unfolding batches_from
  batches_from_past readings batch_size zero first h = refl
  batches_from_past readings batch_size (suc fuel) first h = ground arith

  readings_json-HoldsReadings :
      (n first last : ℕ)
      → n + first ≡ last + 1
      → HoldsReadings value observed_at first last (readings_json value observed_at n first)
  unfolding readings_json
  readings_json-HoldsReadings zero first last h = omega (arith, h)
  readings_json-HoldsReadings (suc n) first last h =
      (refl, readings_json-HoldsReadings n (first + 1) last (omega arith))

  batches_from-Covers :
      (readings batch_size fuel first : ℕ)
      → 1 ≤ batch_size
      → first ≤ readings + 1
      → readings + 1 ≤ fuel + first
      → Covers value observed_at dumps batch_size readings first
          (batches_from value observed_at dumps run_id readings batch_size fuel first)
  unfolding batches_from build_batch
  batches_from-Covers readings batch_size zero first size_ok low enough = omega arith
  batches_from-Covers readings batch_size (suc fuel) first size_ok low enough =
      let last = min readings (first + batch_size - 1) in
      let rest =
        batches_from value observed_at dumps run_id readings batch_size fuel (first + batch_size) in
      elim (Bool-cases (ltb readings first)) [
        | inl p ↦ rw p (ground arith)
        | inr p ↦
            let tail : Covers value observed_at dumps batch_size readings (last + 1) rest =
              elim (Bool-cases (ltb readings (first + batch_size - 1))) [
                | inl q ↦
                    let none_left =
                      batches_from_past readings batch_size fuel (first + batch_size)
                        (ground arith) in
                    rw none_left (ground arith)
                | inr q ↦
                    let next : last + 1 ≡ first + batch_size = (ground arith) in
                    rw next (
                      batches_from-Covers readings batch_size fuel (first + batch_size) size_ok
                        (ground arith) (omega arith))
              ] in
            let items = readings_json value observed_at (last + 1 - first) first in
            let holds : HoldsReadings value observed_at first last items =
              readings_json-HoldsReadings (last + 1 - first) first last (ground arith) in
            rw p (refl, ground arith, ground arith, omega arith, (items, refl, holds), tail)
      ]

  -- Whatever the sizes that are not refused, the batches hold every sequence from 1 to the number of
  -- readings once and in order, and the body of each is the JSON of exactly its readings.
  pub build_batches-Covers :
      (readings batch_size : ℤ) {bs : List Batch}
      → build_batches value observed_at dumps run_id readings batch_size ≡ some bs
      → Covers value observed_at dumps (pos_part batch_size) (pos_part readings) 1 bs
        × (readings_of bs ≡ pos_part readings)
  unfolding build_batches
  build_batches-Covers (negsuc n) batch_size h = absurd (ground arith)
  build_batches-Covers (pos readings) (negsuc n) h = absurd (ground arith)
  build_batches-Covers (pos readings) (pos batch_size) {bs} h =
      let bs' = batches_from value observed_at dumps run_id readings batch_size readings 1 in
      let sizes : (1 ≤ readings) × (1 ≤ batch_size) = (ground arith, ground arith) in
      let same : bs' ≡ bs = (ground arith) in
      let covers =
        batches_from-Covers readings batch_size readings 1 sizes.1 (omega arith) (omega arith) in
      let all =
        readings_of-Covers value observed_at dumps batch_size readings 1 bs' (omega arith) covers in
      subst
        (λ cs.
          Covers value observed_at dumps batch_size readings 1 cs × (readings_of cs ≡ readings))
        same (covers, omega (arith, all))
