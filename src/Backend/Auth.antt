-- ===== src/Backend/Auth.antt =====
-- backend/src/myaqi_backend/auth.py: the keys of the devices and the signature of a request.
-- `sha256` is the digest of `hashlib`, and `parse_int` is `int(text)` (`none` is its ValueError);
-- both are arguments.
pub mod Verify
mod Tests
use myaqi_iot_platform.Prelude.{
  ℕ, ◌+◌, ◌-◌, ◌<◌, Bool, true, false, ◌&&◌, ◌||◌, not, Option, none, some, List, [], ◌∷◌, ◌++◌,
  map, ltb, ◌==◌, if◌then◌else◌, length, replicate, all,
}
use Prim.Native.Nat.{bit_xor}
use myaqi_iot_platform.Prelude.Int.{ℤ, ◌-ℤ◌, magnitude}
use myaqi_iot_platform.Prelude.Result.{Result, ok, err, ◌>>=◌, ◌>>◌, raise_if, or_raise}
use myaqi_iot_platform.Python.Text.{Text, Bytes, codes, text_eq, encode, upper, decimal, hexlify}

-- `AuthenticationError` by its message, and the TypeError of `compare_digest`
pub data Raised : Type 0 where
  missing_headers invalid_timestamp outside_window invalid_signature : Raised
  type_error : Raised

-- `hmac.compare_digest` refuses a str with a character beyond ASCII.
abbrev pub is_ascii : Text → Bool
is_ascii t = all (λ c. ltb c 128) t

-- `not timestamp`
abbrev pub is_empty : Text → Bool
is_empty [] = true
is_empty (_ ∷ _) = false

module _ (sha256 : Bytes → Bytes) where
  -- `hmac.new(key, message, sha256).digest()`: a long key is hashed, `ljust` fills the block with
  -- zeros, and the two digests take their input in two updates.
  abbrev pub block_key : Bytes → Bytes
  block_key key = if ltb 64 (length key) then sha256 key else key

  unfoldable pub hmac_digest : Bytes → Bytes → Bytes
  hmac_digest key message =
      let block = block_key key ++ replicate (64 - length (block_key key)) 0 in
      let inner = sha256 (map (λ b. bit_xor b 0x36) block ++ message) in
      sha256 (map (λ b. bit_xor b 0x5C) block ++ inner)

  unfoldable pub derive_device_secret : Text → Text → ℕ → Bytes
  unfolding hmac_digest
  derive_device_secret master_key device_id key_version =
      hmac_digest (encode master_key)
        (encode (codes "myaqi/device-key/v" ++ (decimal key_version ++ (codes "/" ++ device_id))))

  unfoldable pub body_sha256 : Bytes → Text
  body_sha256 body = hexlify (sha256 body)

  unfoldable pub canonical_request : Text → Text → Text → Bytes → Bytes
  unfolding body_sha256
  canonical_request timestamp method path body =
      encode (timestamp ++ (10 ∷ (upper method ++ (10 ∷ (path ++ (10 ∷ body_sha256 body))))))

  unfoldable pub sign_request : Bytes → Text → Text → Text → Bytes → Text
  unfolding hmac_digest canonical_request
  sign_request secret timestamp method path body =
      codes "v1=" ++ hexlify (hmac_digest secret (canonical_request timestamp method path body))

  -- The tests of `verify_request_signature` on headers that are there
  unfoldable pub verify_headers :
      (Text → Option ℤ)
      → Bytes
      → Text
      → Text
      → Text
      → Text
      → Bytes
      → ℕ
      → ℤ
      → Result Raised (Unit {0})
  unfolding sign_request
  verify_headers parse_int secret timestamp signature method path body max_clock_skew now = do
    raise_if (is_empty timestamp || is_empty signature) missing_headers
    request_time ← or_raise (parse_int timestamp) invalid_timestamp
    raise_if (ltb max_clock_skew (magnitude (now -ℤ request_time))) outside_window
    raise_if (not (is_ascii signature)) type_error
    raise_if (not (text_eq (sign_request secret timestamp method path body) signature))
        invalid_signature

  unfoldable pub verify_request_signature :
      (Text → Option ℤ)
      → Bytes
      → Option Text
      → Option Text
      → Text
      → Text
      → Bytes
      → ℕ
      → ℤ
      → Result Raised (Unit {0})
  unfolding verify_headers
  verify_request_signature parse_int secret none signature method path body skew now =
      err missing_headers
  verify_request_signature parse_int secret (some t) none method path body skew now =
      err missing_headers
  verify_request_signature parse_int secret (some t) (some s) method path body skew now =
      verify_headers parse_int secret t s method path body skew now
