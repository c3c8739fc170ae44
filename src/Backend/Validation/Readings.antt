-- ===== src/Backend/Validation/Readings.antt =====
-- `parse_batch`: what every accepted batch satisfies.
use myaqi_iot_platform.Prelude.{
  ℕ, suc, ◌+◌, ◌≤◌, ◌<◌, ◌≡◌, refl, ap, inl, inr, true, false, Option, none, some, List, [], ◌∷◌,
  map, arith, ltb, if◌then◌else◌, contains, Distinct, contains-map-false, All, length, Bool-cases,
}
use myaqi_iot_platform.Prelude.Int.{ℤ, pos, negsuc}
use myaqi_iot_platform.Prelude.Result.{
  ok, err, raise_if, or_raise, >>=-eq-ok, ok-injective, raise_if-ok,
}
use mathlib.Core.Path.{subst}
use mathlib.Core.Option.{some-injective}
use myaqi_iot_platform.Python.Text.{Text}
use myaqi_iot_platform.Python.Float.{Float, float_of_int}
use myaqi_iot_platform.Python.Json.{Json, null, int, float, arr, obj, Items, nil, cons, get}
use myaqi_iot_platform.Backend.Validation.{
  Stamp, ReadingInput, in_range, number, optional_number, timestamp, sequence_of, parse_item,
  parse_items, count_items, parse_readings, parse_batch, out_of_range, duplicate_sequence,
  too_many_readings, overflow_error,
}

abbrev pub OptionalInRange : ℤ → ℤ → Option Float → Type 0
OptionalInRange minimum maximum none = Unit
OptionalInRange minimum maximum (some x) = in_range minimum maximum x ≡ true

-- The limits that a stored reading respects.
pub record IsInRange (r : ReadingInput) : Type 0 where
  pub pm25 : in_range (pos 0) (pos 5000) r.pm25_ug_m3 ≡ true
  pub temperature : OptionalInRange (negsuc 79) (pos 100) r.temperature_c
  pub humidity : OptionalInRange (pos 0) (pos 100) r.relative_humidity

check_range-ok :
    (minimum maximum : ℤ) (x y : Float)
    → (if in_range minimum maximum x then ok x else err out_of_range) ≡ ok y
    → in_range minimum maximum y ≡ true
check_range-ok minimum maximum x y h = elim (Bool-cases (in_range minimum maximum x)) [
  | inl p ↦ let e : x ≡ y = (ground (arith, p)) in rw (← e) p
  | inr p ↦ absurd (ground (arith, p))
]

pub number-in_range :
    (minimum maximum : ℤ) (v : Json) (x : Float)
    → number minimum maximum v ≡ ok x
    → in_range minimum maximum x ≡ true
unfolding number
number-in_range minimum maximum (int k) x h =
    let (c, p, q) = >>=-eq-ok (or_raise (float_of_int k) overflow_error) _ h in
    check_range-ok minimum maximum c x q
number-in_range minimum maximum (float c) x h = check_range-ok minimum maximum c x h
number-in_range minimum maximum null x h = cc
number-in_range minimum maximum _ x h = cc

optional_number-in_range :
    (minimum maximum : ℤ) (v : Json) (o : Option Float)
    → optional_number minimum maximum v ≡ ok o
    → OptionalInRange minimum maximum o
unfolding optional_number
optional_number-in_range minimum maximum null none h = tt
optional_number-in_range minimum maximum null (some x) h = absurd (cc)
optional_number-in_range minimum maximum v none h = tt
optional_number-in_range minimum maximum v (some x) h =
    let (c, p, q) = >>=-eq-ok (number minimum maximum v) (λ c. ok (some c)) h in
    let e : c ≡ x = some-injective c x (ok-injective q) in
    rw (← e) (number-in_range minimum maximum v c p)

-- What one round of the loop lets through.
parse_item-ok :
    (f : Text → Option Stamp) (index : ℕ) (item : Json) (seen : List ℕ) (r : ReadingInput)
    → parse_item f index item seen ≡ ok r
    → IsInRange r × (contains r.sequence seen ≡ false)
unfolding parse_item
parse_item-ok f index (obj item) seen r h =
    let (s, p1, h1) = >>=-eq-ok (sequence_of index (get "sequence" item)) _ h in
    let (u, p2, h2) = >>=-eq-ok (raise_if (contains s seen) (duplicate_sequence s)) _ h1 in
    let (t, p3, h3) = >>=-eq-ok (timestamp f (get "observed_at" item)) _ h2 in
    let (x, p4, h4) = >>=-eq-ok (number (pos 0) (pos 5000) (get "pm25_ug_m3" item)) _ h3 in
    let (y, p5, h5) =
      >>=-eq-ok (optional_number (negsuc 79) (pos 100) (get "temperature_c" item)) _ h4 in
    let (z, p6, h6) =
      >>=-eq-ok (optional_number (pos 0) (pos 100) (get "relative_humidity" item)) _ h5 in
    let made : ReadingInput = record {
      sequence = s;
      observed_at = t;
      pm25_ug_m3 = x;
      temperature_c = y;
      relative_humidity = z;
    } in
    let e : made ≡ r = (ok-injective h6) in
    subst (λ v. IsInRange v × (contains v.sequence seen ≡ false)) e
      (
        record {
          pm25 = number-in_range (pos 0) (pos 5000) (get "pm25_ug_m3" item) x p4;
          temperature =
              optional_number-in_range (negsuc 79) (pos 100) (get "temperature_c" item) y p5;
          humidity = optional_number-in_range (pos 0) (pos 100) (get "relative_humidity" item) z p6;
        },
        raise_if-ok (contains s seen) (duplicate_sequence s) p2,
      )
parse_item-ok f index null seen r h = absurd (cc)
parse_item-ok f index _ seen r h = absurd (cc)

abbrev pub sequences : List ReadingInput → List ℕ
sequences rs = map (λ r. r.sequence) rs

-- What the whole loop lets through: as many readings as items, in range, with sequences that are
-- new and distinct.
record IsParsed (items : Items) (seen : List ℕ) (rs : List ReadingInput) : Type 0 where
  count : length rs ≡ count_items items
  ranges : All IsInRange rs
  fresh : All (λ r. contains r.sequence seen ≡ false) rs
  distinct : Distinct (sequences rs)

parse_items-IsParsed :
    (f : Text → Option Stamp) (index : ℕ) (items : Items) (seen : List ℕ) (rs : List ReadingInput)
    → parse_items f index items seen ≡ ok rs
    → IsParsed items seen rs
unfolding parse_items
parse_items-IsParsed f index nil seen [] h = record {
  count = refl;
  ranges = tt;
  fresh = tt;
  distinct = tt;
}
parse_items-IsParsed f index nil seen (r ∷ rs) h = absurd (cc)
parse_items-IsParsed f index (cons item items) seen rs h =
    let (r, p, k) = >>=-eq-ok (parse_item f index item seen) _ h in
    let (rest, q, e) = >>=-eq-ok (parse_items f (index + 1) items (r.sequence ∷ seen)) _ k in
    let one = parse_item-ok f index item seen r p in
    let more = parse_items-IsParsed f (index + 1) items (r.sequence ∷ seen) rest q in
    let apart = contains-map-false (λ v. v.sequence) r.sequence seen rest more.fresh in
    subst (IsParsed (cons item items) seen) (ok-injective e) (record {
      count = ap suc more.count;
      ranges = (one.0, more.ranges);
      fresh = (one.1, apart.1);
      distinct = (apart.0, more.distinct);
    })

-- The contract of an accepted batch.
pub record IsBatch (max_batch_size : ℕ) (rs : List ReadingInput) : Type 0 where
  pub some_reading : 0 < length rs
  pub bounded : length rs ≤ max_batch_size
  pub distinct : Distinct (sequences rs)
  pub ranges : All IsInRange rs

parse_readings-IsBatch :
    (f : Text → Option Stamp) (max_batch_size : ℕ) (readings : Json) (rs : List ReadingInput)
    → parse_readings f max_batch_size readings ≡ ok rs
    → IsBatch max_batch_size rs
unfolding parse_readings
parse_readings-IsBatch f m (arr (cons item items)) rs h =
    let (u, p, k) =
      >>=-eq-ok (raise_if (ltb m (count_items (cons item items))) too_many_readings) _ h in
    let parsed = parse_items-IsParsed f 0 (cons item items) [] rs k in
    let fits = raise_if-ok (ltb m (count_items (cons item items))) too_many_readings p in
    record {
      some_reading = omega (arith, parsed.count);
      bounded = ground (arith, parsed.count);
      distinct = parsed.distinct;
      ranges = parsed.ranges;
    }
parse_readings-IsBatch f m (arr nil) rs h = absurd (cc)
parse_readings-IsBatch f m _ rs h = absurd (cc)

-- A batch that is accepted holds between 1 and `max_batch_size` readings, no sequence twice, and
-- each value within its limits; nothing in it is nan or infinite.
pub parse_batch-IsBatch :
    (f : Text → Option Stamp) (max_batch_size : ℕ) (payload : Json) (rs : List ReadingInput)
    → parse_batch f max_batch_size payload ≡ ok rs
    → IsBatch max_batch_size rs
unfolding parse_batch
parse_batch-IsBatch f m (obj payload) rs h =
    parse_readings-IsBatch f m (get "readings" payload) rs h
parse_batch-IsBatch f m null rs h = absurd (cc)
parse_batch-IsBatch f m _ rs h = absurd (cc)
