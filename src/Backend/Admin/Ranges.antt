-- ===== src/Backend/Admin/Ranges.antt =====
-- `_missing_ranges`: the ranges name exactly the numbers that are missing.
use myaqi_iot_platform.Prelude.{
  ℕ, ◌+◌, ◌-◌, ◌≤◌, ◌<◌, ◌≡◌, refl, Bool, false, ◌&&◌, ◌||◌, not, List, [], ◌∷◌, arith, leb, length,
  contains,
}
use myaqi_iot_platform.Backend.Admin.{Range, missing_from, missing_ranges}

-- Ascending numbers from `first` up to `last`, as the query returns them.
abbrev pub AscendsIn : ℕ → ℕ → List ℕ → Type 0
AscendsIn first last [] = Unit
AscendsIn first last (s ∷ ss) = (first ≤ s) × (s ≤ last) × AscendsIn (s + 1) last ss

abbrev pub in_ranges : ℕ → List Range → Bool
in_ranges x [] = false
in_ranges x ((a, b) ∷ rs) = (leb a x && leb x b) || in_ranges x rs

-- The numbers in some ranges
abbrev pub range_total : List Range → ℕ
range_total [] = 0
range_total ((a, b) ∷ rs) = (b + 1 - a) + range_total rs

contains-below :
    (x first last : ℕ) (ss : List ℕ) → AscendsIn first last ss → x < first → contains x ss ≡ false
contains-below x first last [] h p = refl
contains-below x first last (s ∷ ss) h p = ground (arith, contains-below x (s + 1) last ss h.2)

missing_from_exact :
    (x first last : ℕ) (ss : List ℕ)
    → AscendsIn first last ss
    → in_ranges x (missing_from first last ss)
      ≡ (leb first x && (leb x last && not (contains x ss)))
unfolding missing_from
missing_from_exact x first last [] h = ground arith
missing_from_exact x first last (s ∷ ss) h =
    ground (arith, missing_from_exact x (s + 1) last ss h.2, contains-below x (s + 1) last ss h.2)

missing_from_total :
    (first last : ℕ) (ss : List ℕ)
    → AscendsIn first last ss
    → range_total (missing_from first last ss) + length ss ≡ last + 1 - first
unfolding missing_from
missing_from_total first last [] h = ground arith
missing_from_total first last (s ∷ ss) h = ground (arith, missing_from_total (s + 1) last ss h.2)

-- For ascending numbers within a range, a number lies in one of the missing ranges exactly if it is
-- in the range and not among the numbers; and the sizes of the ranges add up to what is missing.
pub missing_ranges_exact :
    (x start last : ℕ) (sequences : List ℕ)
    → AscendsIn start last sequences
    → (in_ranges x (missing_ranges sequences start last)
        ≡ (leb start x && (leb x last && not (contains x sequences))))
      × (range_total (missing_ranges sequences start last) + length sequences ≡ last + 1 - start)
unfolding missing_ranges
missing_ranges_exact x start last sequences h =
    (missing_from_exact x start last sequences h, missing_from_total start last sequences h)
