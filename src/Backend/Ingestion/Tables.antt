-- ===== src/Backend/Ingestion/Tables.antt =====
-- Laws of the tables under `_insert_measurements`: the unique constraint on (device, sequence) and
-- the number of rows.
use myaqi_iot_platform.Prelude.{
  ℕ, ◌+◌, ◌≤◌, ◌≡◌, refl, ◌⊎◌, inl, inr, true, false, List, [], ◌∷◌, arith, length, All, Any,
  Bool-cases, Distinct, contains, map, if◌then◌else◌,
}
use myaqi_iot_platform.Python.Text.{Text, text_eq_self}
use myaqi_iot_platform.Backend.Models.{Measurement}
use myaqi_iot_platform.Backend.Validation.{ReadingInput}
use myaqi_iot_platform.Backend.Ingestion.{has_measurement, measurement_of, insert_measurements}

-- No two rows have the same device and sequence.
abbrev pub IsUnique : List Measurement → Type 0
IsUnique [] = Unit
IsUnique (m ∷ ms) = (has_measurement m.device_id m.sequence ms ≡ false) × IsUnique ms

-- The row has the values of the reading.
pub record IsRowOf (device : Text) (r : ReadingInput) (m : Measurement) : Type 0 where
  pub device_id : m.device_id ≡ device
  pub sequence : m.sequence ≡ r.sequence
  pub observed_at : m.observed_at ≡ r.observed_at
  pub pm25_ug_m3 : m.pm25_ug_m3 ≡ r.pm25_ug_m3
  pub temperature_c : m.temperature_c ≡ r.temperature_c
  pub relative_humidity : m.relative_humidity ≡ r.relative_humidity

-- The reading had a row in the table before, or one with its values is in the table after.
abbrev pub IsRecorded : Text → List Measurement → List Measurement → ReadingInput → Type 0
IsRecorded device before after r =
    (has_measurement device r.sequence before ≡ true) ⊎ Any (IsRowOf device r) after

has_measurement_self :
    (device : Text) (request_id received id : ℕ) (r : ReadingInput) (table : List Measurement)
    → has_measurement device r.sequence (measurement_of device request_id received id r ∷ table)
      ≡ true
unfolding has_measurement
has_measurement_self device request_id received id r table = ground (arith, text_eq_self device)

has_measurement-cons :
    (device : Text) (sequence : ℕ) (m : Measurement) (table : List Measurement)
    → has_measurement device sequence table ≡ true
    → has_measurement device sequence (m ∷ table) ≡ true
unfolding has_measurement
has_measurement-cons device sequence m table h = ground arith

module _ (device : Text) (request_id received : ℕ) where
  -- The table after one reading
  abbrev after_one : ℕ → ReadingInput → List Measurement → List Measurement
  after_one id r table =
      if has_measurement device r.sequence table
      then table
      else measurement_of device request_id received id r ∷ table

  -- Rows stay: what the table had, it has afterwards.
  pub has_measurement-insert :
      (id : ℕ) (rs : List ReadingInput) (table : List Measurement) (other : Text) (sequence : ℕ)
      → has_measurement other sequence table ≡ true
      → has_measurement other sequence
          (insert_measurements device request_id received id rs table).1
        ≡ true
  unfolding insert_measurements
  has_measurement-insert id [] table other sequence h = h
  has_measurement-insert id (r ∷ rs) table other sequence h =
      has_measurement-insert (id + 1) rs (after_one id r table) other sequence
        (one_more (Bool-cases (has_measurement device r.sequence table)))
    where
      one_more :
          (has_measurement device r.sequence table ≡ true)
            ⊎ (has_measurement device r.sequence table ≡ false)
          → has_measurement other sequence (after_one id r table) ≡ true
      one_more (inl p) = rw p h
      one_more (inr p) = rw p (
          has_measurement-cons other sequence (measurement_of device request_id received id r) table
            h)

  -- Every reading of the batch is in the table afterwards.
  pub insert_measurements-stores :
      (id : ℕ) (rs : List ReadingInput) (table : List Measurement)
      → All
          (λ r.
            has_measurement device r.sequence
              (insert_measurements device request_id received id rs table).1
            ≡ true)
          rs
  unfolding insert_measurements
  insert_measurements-stores id [] table = tt
  insert_measurements-stores id (r ∷ rs) table = (
    has_measurement-insert (id + 1) rs (after_one id r table) device r.sequence
        (here (Bool-cases (has_measurement device r.sequence table))),
    insert_measurements-stores (id + 1) rs (after_one id r table),
  )
    where
      here :
          (has_measurement device r.sequence table ≡ true)
            ⊎ (has_measurement device r.sequence table ≡ false)
          → has_measurement device r.sequence (after_one id r table) ≡ true
      here (inl p) = rw p p
      here (inr p) = rw p (has_measurement_self device request_id received id r table)

  -- The answer counts the new rows, at most one for each reading.
  pub insert_measurements_count :
      (id : ℕ) (rs : List ReadingInput) (table : List Measurement)
      → let (n, after) = insert_measurements device request_id received id rs table in
        (length after ≡ length table + n) × (n ≤ length rs)
  unfolding insert_measurements
  insert_measurements_count id [] table = (omega arith, omega arith)
  insert_measurements_count id (r ∷ rs) table =
      let ih = insert_measurements_count (id + 1) rs (after_one id r table) in
      elim (Bool-cases (has_measurement device r.sequence table)) [
        | inl p ↦ let ih' = rw p at ih in rw p (omega arith)
        | inr p ↦ let ih' = rw p at ih in rw p (omega arith)
      ]

  -- The unique constraint holds afterwards.
  pub insert_measurements-IsUnique :
      (id : ℕ) (rs : List ReadingInput) (table : List Measurement)
      → IsUnique table
      → IsUnique (insert_measurements device request_id received id rs table).1
  unfolding insert_measurements
  insert_measurements-IsUnique id [] table h = h
  insert_measurements-IsUnique id (r ∷ rs) table h =
      insert_measurements-IsUnique (id + 1) rs (after_one id r table)
        (one_more (Bool-cases (has_measurement device r.sequence table)))
    where
      one_more :
          (has_measurement device r.sequence table ≡ true)
            ⊎ (has_measurement device r.sequence table ≡ false)
          → IsUnique (after_one id r table)
      one_more (inl p) = rw p h
      one_more (inr p) = rw p (p, h)

  -- If every reading is there already, nothing is inserted.
  pub insert_measurements_known :
      (id : ℕ) (rs : List ReadingInput) (table : List Measurement)
      → All (λ r. has_measurement device r.sequence table ≡ true) rs
      → insert_measurements device request_id received id rs table ≡ (0, table)
  unfolding insert_measurements
  insert_measurements_known id [] table h = refl
  insert_measurements_known id (r ∷ rs) table h =
      rw h.0 (rw (insert_measurements_known (id + 1) rs table h.1))

  -- A row stays with its values.
  Any-insert :
      (P : Measurement → Type 0) (id : ℕ) (rs : List ReadingInput) (table : List Measurement)
      → Any P table
      → Any P (insert_measurements device request_id received id rs table).1
  unfolding insert_measurements
  Any-insert P id [] table h = h
  Any-insert P id (r ∷ rs) table h =
      Any-insert P (id + 1) rs (after_one id r table)
        (elim (Bool-cases (has_measurement device r.sequence table)) [
          | inl p ↦ rw p h
          | inr p ↦ rw p (inr h)
        ])

  -- A reading with another sequence is as new after a row as before it.
  IsRecorded-after_one :
      (id : ℕ) (r : ReadingInput) (table final : List Measurement) (rs : List ReadingInput)
      → contains r.sequence (map (λ (x : ReadingInput). x.sequence) rs) ≡ false
      → All (IsRecorded device (after_one id r table) final) rs
      → All (IsRecorded device table final) rs
  unfolding has_measurement
  IsRecorded-after_one id r table final [] apart h = tt
  IsRecorded-after_one id r table final (x ∷ xs) apart h = (
    elim h.0 [
      | inr row ↦ inr row
      | inl known ↦ inl (elim (Bool-cases (has_measurement device r.sequence table)) [
        | inl p ↦ let known' = rw p at known in known'
        | inr p ↦ let known' = rw p at known in ground arith
      ])
    ],
    IsRecorded-after_one id r table final xs (ground arith) h.1,
  )

  -- Each reading of the batch, all of which have other sequences, had a row before, or has one with
  -- its values afterwards.
  pub insert_measurements-writes :
      (id : ℕ) (rs : List ReadingInput) (table : List Measurement)
      → Distinct (map (λ (r : ReadingInput). r.sequence) rs)
      → All
          (IsRecorded device table (insert_measurements device request_id received id rs table).1)
          rs
  unfolding insert_measurements
  insert_measurements-writes id [] table d = tt
  insert_measurements-writes id (r ∷ rs) table d =
      let next = after_one id r table in
      let final = (insert_measurements device request_id received (id + 1) rs next).1 in
      (
        elim (Bool-cases (has_measurement device r.sequence table)) [
          | inl p ↦ inl p
          | inr p ↦ inr (
              Any-insert (IsRowOf device r) (id + 1) rs next (
                rw p (
                  inl (record {
                    device_id = refl;
                    sequence = refl;
                    observed_at = refl;
                    pm25_ug_m3 = refl;
                    temperature_c = refl;
                    relative_humidity = refl;
                  }))))
        ],
        IsRecorded-after_one id r table final rs d.0
            (insert_measurements-writes (id + 1) rs next d.1),
      )
