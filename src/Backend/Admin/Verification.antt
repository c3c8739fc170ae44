-- ===== src/Backend/Admin/Verification.antt =====
-- `verify_sequence_range` against the table of measurements.
use myaqi_iot_platform.Prelude.{
  ℕ, ◌+◌, ◌≤◌, ◌≡◌, refl, ◌∙◌, inl, inr, true, false, ◌&&◌, ◌||◌, not, List, [], ◌∷◌, arith, leb,
  ◌==◌, keep, length, ◌-◌, ltb, contains, Distinct, Bool-cases,
}
use mathlib.Core.Path.{subst}
use myaqi_iot_platform.Prelude.Int.{pos, ◌-ℤ◌}
use myaqi_iot_platform.Prelude.Result.{ok, raise_if, or_raise, >>=-eq-ok, ok-injective}
use myaqi_iot_platform.Python.Text.{Text, text_eq, text_eq→eq}
use myaqi_iot_platform.Backend.Models.{Measurement, Database}
use myaqi_iot_platform.Backend.Ingestion.{has_measurement, get_device}
use myaqi_iot_platform.Backend.Ingestion.Tables.{IsUnique}
use myaqi_iot_platform.Backend.Admin.{
  in_query, sequences_of, insert_sequence, order_sequences, select_sequences, range_report,
  RangeReport, is_nil, verify_sequence_range, sequence_range, unknown_device,
}
use myaqi_iot_platform.Backend.Admin.Ranges.{AscendsIn, in_ranges, missing_ranges_exact}

contains-insert_sequence :
    (x k : ℕ) (ks : List ℕ) → contains x (insert_sequence k ks) ≡ (x == k || contains x ks)
unfolding insert_sequence
contains-insert_sequence x k [] = refl
contains-insert_sequence x k (y ∷ ys) = ground (arith, contains-insert_sequence x k ys)

contains-order_sequences : (x : ℕ) (ks : List ℕ) → contains x (order_sequences ks) ≡ contains x ks
unfolding order_sequences
contains-order_sequences x [] = refl
contains-order_sequences x (k ∷ ks) =
    contains-insert_sequence x k (order_sequences ks) ∙ rw (contains-order_sequences x ks)

AscendsIn-insert_sequence :
    (first last k : ℕ) (ks : List ℕ)
    → AscendsIn first last ks
    → contains k ks ≡ false
    → first ≤ k
    → k ≤ last
    → AscendsIn first last (insert_sequence k ks)
unfolding insert_sequence
AscendsIn-insert_sequence first last k [] h absent low high = (low, high, tt)
AscendsIn-insert_sequence first last k (y ∷ ys) h absent low high = elim (Bool-cases (leb k y)) [
  | inl p ↦ rw p (low, high, (ground (arith, p), h.1, h.2))
  | inr p ↦ rw p (
    h.0,
    h.1,
    AscendsIn-insert_sequence (y + 1) last k ys h.2 (ground arith) (ground (arith, p)) high,
  )
]

-- All numbers of a list lie between two bounds.
abbrev Between : ℕ → ℕ → List ℕ → Type 0
Between first last [] = Unit
Between first last (k ∷ ks) = (first ≤ k) × (k ≤ last) × Between first last ks

AscendsIn-order_sequences :
    (first last : ℕ) (ks : List ℕ)
    → Distinct ks
    → Between first last ks
    → AscendsIn first last (order_sequences ks)
unfolding order_sequences
AscendsIn-order_sequences first last [] d b = tt
AscendsIn-order_sequences first last (k ∷ ks) d b =
    AscendsIn-insert_sequence first last k (order_sequences ks)
      (AscendsIn-order_sequences first last ks d.1 b.2) (contains-order_sequences k ks ∙ d.0) b.0
      b.1

-- The queried sequences are those of the device's rows within the range.
contains-query :
    (device : Text) (start last x : ℕ) (table : List Measurement)
    → contains x (sequences_of (keep (in_query device start last) table))
      ≡ (leb start x && leb x last && has_measurement device x table)
unfolding has_measurement
contains-query device start last x [] = ground arith
contains-query device start last x (m ∷ ms) = elim (Bool-cases (in_query device start last m)) [
  | inl p ↦ rw p (ground (arith, p, contains-query device start last x ms))
  | inr p ↦ rw p (ground (arith, p, contains-query device start last x ms))
]

Between-query :
    (device : Text) (start last : ℕ) (table : List Measurement)
    → Between start last (sequences_of (keep (in_query device start last) table))
Between-query device start last [] = tt
Between-query device start last (m ∷ ms) = elim (Bool-cases (in_query device start last m)) [
  | inl p ↦ rw p (ground (arith, p), ground (arith, p), Between-query device start last ms)
  | inr p ↦ rw p (Between-query device start last ms)
]

Distinct-query :
    (device : Text) (start last : ℕ) (table : List Measurement)
    → IsUnique table
    → Distinct (sequences_of (keep (in_query device start last) table))
Distinct-query device start last [] u = tt
Distinct-query device start last (m ∷ ms) u = elim (Bool-cases (in_query device start last m)) [
  | inl p ↦ rw p (
    contains-query device start last m.sequence ms ∙ other_row device m ms (ground (arith, p)) u.0,
    Distinct-query device start last ms u.1,
  )
  | inr p ↦ rw p (Distinct-query device start last ms u.1)
]
  where
    other_row :
        (i : Text) (row : Measurement) (rows : List Measurement)
        → text_eq row.device_id i ≡ true
        → has_measurement row.device_id row.sequence rows ≡ false
        → (leb start row.sequence && leb row.sequence last && has_measurement i row.sequence rows)
          ≡ false
    other_row i row rows same absent =
        let e : has_measurement i row.sequence rows ≡ false =
          subst (λ t. has_measurement t row.sequence rows ≡ false) (text_eq→eq row.device_id i same)
            absent in
        ground (arith, e)

select_sequences-AscendsIn :
    (device : Text) (start last : ℕ) (table : List Measurement)
    → IsUnique table
    → AscendsIn start last (select_sequences device start last table)
unfolding select_sequences
select_sequences-AscendsIn device start last table u =
    AscendsIn-order_sequences start last (sequences_of (keep (in_query device start last) table))
      (Distinct-query device start last table u) (Between-query device start last table)

length-insert_sequence : (k : ℕ) (ks : List ℕ) → length (insert_sequence k ks) ≡ length ks + 1
unfolding insert_sequence
length-insert_sequence k [] = refl
length-insert_sequence k (y ∷ ys) = ground (arith, length-insert_sequence k ys)

length-order_sequences : (ks : List ℕ) → length (order_sequences ks) ≡ length ks
unfolding order_sequences
length-order_sequences [] = refl
length-order_sequences (k ∷ ks) =
    omega (arith, length-insert_sequence k (order_sequences ks), length-order_sequences ks)

length-sequences_of : (table : List Measurement) → length (sequences_of table) ≡ length table
length-sequences_of [] = refl
length-sequences_of (m ∷ ms) = omega (arith, length-sequences_of ms)

-- A number is in one of the report's ranges exactly if it was asked for and no row of the device has
-- it; the counts are those of the device's rows within the range; and the report is complete exactly
-- if it has no range.
pub record IsExact (device : Text) (start last : ℕ) (table : List Measurement)
    (report : RangeReport) : Type 0 where
  pub ranges_exact :
      (x : ℕ)
      → in_ranges x report.ranges
        ≡ (leb start x && (leb x last && not (has_measurement device x table)))
  pub received_exact : report.received ≡ length (keep (in_query device start last) table)
  pub missing_exact :
      report.missing
      ≡ pos (last + 1 - start) -ℤ pos (length (keep (in_query device start last) table))
  pub complete_exact : report.complete ≡ is_nil report.ranges

range_report-IsExact :
    (device : Text) (start last : ℕ) (table : List Measurement)
    → IsUnique table
    → IsExact device start last table
        (range_report start last (select_sequences device start last table))
unfolding select_sequences
range_report-IsExact device start last table u =
    let queried = keep (in_query device start last) table in
    let count : length (order_sequences (sequences_of queried)) ≡ length queried =
      length-order_sequences (sequences_of queried) ∙ length-sequences_of queried in
    record {
      ranges_exact = λ x.
          (missing_ranges_exact x start last (select_sequences device start last table)
            (select_sequences-AscendsIn device start last table u)).0
          ∙ ground (
            arith,
            contains-order_sequences x (sequences_of queried),
            contains-query device start last x table,
          );
      received_exact = count;
      missing_exact = rw count;
      complete_exact = refl;
    }

-- On a table without duplicates, every report that `verify_sequence_range` returns is exact: a number
-- is in one of its ranges exactly if it is in the range asked for and no row of the device has it, and
-- its counts are those of the device's rows in that range.
pub verify_sequence_range-IsExact :
    (device : Text) (start last : ℕ) (db : Database) {report : RangeReport}
    → IsUnique db.measurements
    → verify_sequence_range device (pos start) (pos last) db ≡ ok report
    → IsExact device start last db.measurements report
unfolding verify_sequence_range
verify_sequence_range-IsExact device start last db u h =
    let (a, p1, h1) =
      >>=-eq-ok
        (raise_if (ltb start 1 || ltb last start || ltb 1000000 (last + 1 - start)) sequence_range)
        _ h in
    let (d, p2, h2) = >>=-eq-ok (or_raise (get_device device db.devices) unknown_device) _ h1 in
    subst (λ r. IsExact device start last db.measurements r) (ok-injective h2)
      (range_report-IsExact device start last db.measurements u)
