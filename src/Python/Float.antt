-- ===== src/Python/Float.antt =====
-- Python's `float`, a 64-bit binary number. Every finite one is a whole multiple of 2 ^ -1074, so
-- `fin m` is the value m / 2 ^ 1074, exactly.
use myaqi_iot_platform.Prelude.{
  ℕ, zero, suc, ◌+◌, ◌*◌, ◌/◌, ◌%◌, ◌^◌, Bool, true, false, ◌&&◌, ◌||◌, Option, none, some, ltb,
  leb, ◌==◌, if◌then◌else◌,
}
use myaqi_iot_platform.Prelude.Int.{ℤ, pos, negsuc, leb_ℤ, pos_part, neg_part, sub_ℕ}

pub data Float : Type 0 where
  nan neg_inf pos_inf : Float
  fin : ℤ → Float

-- The numerator of 1.
unfoldable pub one : ℕ
one = 2 ^ 1074

unfoldable pub scaled : ℤ → ℤ
unfolding one
scaled k = sub_ℕ (pos_part k * one) (neg_part k * one)

-- `k <= x` and `x <= k` for an int `k`: an order with nan does not hold.
unfoldable pub int_le : ℤ → Float → Bool
int_le k nan = false
int_le k neg_inf = false
int_le k pos_inf = true
int_le k (fin m) = leb_ℤ (scaled k) m

unfoldable pub le_int : Float → ℤ → Bool
le_int nan k = false
le_int neg_inf k = true
le_int pos_inf k = false
le_int (fin m) k = leb_ℤ m (scaled k)

-- `x != x`
abbrev pub is_nan : Float → Bool
is_nan nan = true
is_nan _ = false

-- How often `n` is halved until it fits 53 bits; `n` rounds of fuel are more than enough.
unfoldable pub excess_bits : ℕ → ℕ → ℕ
excess_bits zero n = 0
excess_bits (suc fuel) n =
    let rest = excess_bits fuel (n / 2) in if ltb n (2 ^ 53) then 0 else suc rest

-- Round to 53 bits, half to even.
unfoldable pub round_int : ℕ → ℕ
unfolding excess_bits
round_int n =
    let unit = 2 ^ excess_bits n n in
    let q = n / unit in
    let r = n % unit in
    if ltb unit (r * 2) || (unit == r * 2 && q % 2 == 1) then (q + 1) * unit else q * unit

-- `float(k)`; `none` is the OverflowError.
unfoldable pub float_of_int : ℤ → Option Float
unfolding round_int one
float_of_int (pos n) =
    if leb (2 ^ 1024) (round_int n) then none else some (fin (pos (round_int n * one)))
float_of_int (negsuc n) =
    if leb (2 ^ 1024) (round_int (suc n))
    then none
    else some (fin (sub_ℕ 0 (round_int (suc n) * one)))
