-- ===== src/System/Keys.antt =====
-- The idempotency key that the device makes is one that the service takes.
use myaqi_iot_platform.Prelude.{
  ℕ, zero, suc, ◌+◌, ◌*◌, ◌/◌, ◌%◌, ◌≤◌, ◌<◌, ◌≡◌, refl, Bool, true, ◌&&◌, ◌||◌, List, [], ◌∷◌,
  ◌++◌, arith, leb, ◌==◌, length, length-append, all,
}
use myaqi_iot_platform.Python.Text.{Text, codes, decimal, decimal_digits}
use myaqi_iot_platform.Firmware.State.{Reading}
use myaqi_iot_platform.Firmware.Client.{is_device_id_char, batch_key, first_sequence, last_sequence}
use myaqi_iot_platform.Backend.Ingestion.{is_idempotency_key}

all-append :
    (p : ℕ → Bool) (xs ys : Text) → all p xs ≡ true → all p ys ≡ true → all p (xs ++ ys) ≡ true
all-append p [] ys h k = k
all-append p (x ∷ xs) ys h k = ground (arith, all-append p xs ys)

all_imp :
    (p q : ℕ → Bool) (xs : Text)
    → ((c : ℕ) → p c ≡ true → q c ≡ true)
    → all p xs ≡ true
    → all q xs ≡ true
all_imp p q [] f h = refl
all_imp p q (x ∷ xs) f h = ground (arith, f x, all_imp p q xs f)

-- The characters of a key
abbrev is_key_char : ℕ → Bool
is_key_char c =
    ((leb b'A' c && leb c b'Z') || (leb b'a' c && leb c b'z') || (leb b'0' c && leb c b'9'))
    || c == b'.'
    || c == b'_'
    || c == b':'
    || c == b'-'

decimal_digits-is_key_char :
    (fuel n : ℕ) (acc : Text)
    → n < 10 * fuel + 10
    → all is_key_char acc ≡ true
    → all is_key_char (decimal_digits fuel n acc) ≡ true
unfolding decimal_digits
decimal_digits-is_key_char zero n acc h k = ground arith
decimal_digits-is_key_char (suc fuel) n acc h k =
    ground (arith, decimal_digits-is_key_char fuel (n / 10) ((48 + n % 10) ∷ acc))

length-decimal_digits :
    (fuel n : ℕ) (acc : Text) → length acc + 1 ≤ length (decimal_digits fuel n acc)
unfolding decimal_digits
length-decimal_digits zero n acc = omega arith
length-decimal_digits (suc fuel) n acc =
    ground (arith, length-decimal_digits fuel (n / 10) ((48 + n % 10) ∷ acc))

decimal-is_key_char : (n : ℕ) → all is_key_char (decimal n) ≡ true
unfolding decimal
decimal-is_key_char n = decimal_digits-is_key_char n n [] (omega arith) refl

pub length-decimal : (n : ℕ) → 1 ≤ length (decimal n)
unfolding decimal
length-decimal n = length-decimal_digits n n []

is_device_id_char-is_key_char : (c : ℕ) → is_device_id_char c ≡ true → is_key_char c ≡ true
unfolding is_device_id_char
is_device_id_char-is_key_char c h = ground arith

-- For a device id of the characters that `__init__` allows, and a key of at most 128 characters, the
-- key passes the service's pattern.
pub batch_key-is_idempotency_key :
    (device : Text) (rs : List Reading)
    → all is_device_id_char device ≡ true
    → 1 ≤ length device
    → length (batch_key device rs) ≤ 128
    → is_idempotency_key (batch_key device rs) ≡ true
unfolding batch_key is_idempotency_key
batch_key-is_idempotency_key device rs chars some_char short =
    let first = decimal (first_sequence rs) in
    let last = decimal (last_sequence 0 rs) in
    let tail : Text = b'-' ∷ last in
    let rest : Text = b'-' ∷ (first ++ tail) in
    let p =
      all-append is_key_char first tail (decimal-is_key_char (first_sequence rs))
        (decimal-is_key_char (last_sequence 0 rs)) in
    let q =
      all-append is_key_char device rest
        (all_imp is_device_id_char is_key_char device is_device_id_char-is_key_char chars) p in
    let parts = length-append {0} first tail in
    let whole = length-append {0} device rest in
    let long : leb 16 (length (codes "myaqi-batch-" ++ (device ++ rest))) ≡ true =
      (ground (
        arith,
        length-decimal (first_sequence rs),
        length-decimal (last_sequence 0 rs),
        parts,
        whole,
      )) in
    let bounded : leb (length (codes "myaqi-batch-" ++ (device ++ rest))) 128 ≡ true =
      (ground arith) in
    rw (q, long, bounded)
