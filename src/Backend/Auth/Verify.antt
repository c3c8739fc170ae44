-- ===== src/Backend/Auth/Verify.antt =====
-- What a verified request shows, and what a rightly signed request meets.
use myaqi_iot_platform.Prelude.{
  ℕ, ◌<◌, ◌≤◌, ◌/◌, ◌%◌, ◌≡◌, refl, ◌≢◌, true, false, Option, some, List, [], ◌∷◌, ◌++◌, arith, ltb,
  all,
}
use myaqi_iot_platform.Prelude.Int.{ℤ, ◌-ℤ◌, magnitude}
use myaqi_iot_platform.Prelude.Result.{ok}
use myaqi_iot_platform.Python.Text.{Text, Bytes, text_eq_self, hexlify, hex_digit}
use myaqi_iot_platform.Backend.Auth.{
  is_ascii, sign_request, verify_request_signature, canonical_request, hmac_digest,
}

-- The headers of a request that may enter: neither is empty, the timestamp is an integer within the
-- clock window, and the signature is that of the timestamp, method, path and body under the secret.
pub record IsAuthentic (sha256 : Bytes → Bytes) (parse_int : Text → Option ℤ)
    (secret timestamp signature method path body : List ℕ) (skew : ℕ) (now : ℤ) : Type 0 where
  pub timestamp_given : timestamp ≢ []
  pub signature_given : signature ≢ []
  pub request_time : ℤ
  pub parsed : parse_int timestamp ≡ some request_time
  pub in_window : magnitude (now -ℤ request_time) ≤ skew
  pub signed : signature ≡ sign_request sha256 secret timestamp method path body

hexlify-is_ascii : (bs : Bytes) → all (λ b. ltb b 256) bs ≡ true → is_ascii (hexlify bs) ≡ true
hexlify-is_ascii [] h = refl
hexlify-is_ascii (b ∷ bs) h =
    ground
      (arith, hexlify-is_ascii bs, hex_digit_small (b / 16), hex_digit_small (b % 16), byte_parts b)
  where
    hex_digit_small : (d : ℕ) → d < 16 → hex_digit d < 128
    hex_digit_small d small = ground arith

    byte_parts : (c : ℕ) → c < 256 → (c / 16 < 16) × (c % 16 < 16)
    byte_parts c small = omega arith

is_ascii-append :
    (xs ys : Text) → is_ascii xs ≡ true → is_ascii ys ≡ true → is_ascii (xs ++ ys) ≡ true
is_ascii-append [] ys h k = k
is_ascii-append (x ∷ xs) ys h k = ground (arith, is_ascii-append xs ys)

module _ (sha256 : Bytes → Bytes)
    (digest_bytes : (m : Bytes) → all (λ b. ltb b 256) (sha256 m) ≡ true) where
  -- A signature is ASCII text.
  sign_request-is_ascii :
      (secret timestamp method path body : List ℕ)
      → is_ascii (sign_request sha256 secret timestamp method path body) ≡ true
  unfolding sign_request hmac_digest
  sign_request-is_ascii secret timestamp method path body =
      hexlify-is_ascii
        (hmac_digest sha256 secret (canonical_request sha256 timestamp method path body))
        (digest_bytes _)

  -- A request that carries the signature under the device's secret, and a timestamp that lies
  -- within the clock window, passes.
  pub verify-sign_request :
      (parse_int : Text → Option ℤ) (secret timestamp method path body : List ℕ) (skew : ℕ)
      (now request_time : ℤ)
      → timestamp ≢ []
      → parse_int timestamp ≡ some request_time
      → magnitude (now -ℤ request_time) ≤ skew
      → verify_request_signature sha256 parse_int secret
          (some timestamp)
          (some (sign_request sha256 secret timestamp method path body))
          method
          path
          body
          skew
          now
        ≡ ok tt
  unfolding verify_request_signature
  verify-sign_request parse_int secret [] method path body skew now request_time e p h =
      absurd (e refl)
  verify-sign_request parse_int secret (c ∷ cs) method path body skew now request_time e p h =
      let signature = sign_request sha256 secret (c ∷ cs) method path body in
      let late : ltb skew (magnitude (now -ℤ request_time)) ≡ false = (ground arith) in
      rw (p, late, sign_request-is_ascii secret (c ∷ cs) method path body, text_eq_self signature)
