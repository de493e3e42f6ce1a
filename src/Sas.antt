-- ===== src/Sas.antt =====
-- src/sas.c: short authentication strings.
-- A function that changes the object returns it first. A result `none` is `size_t(-1)`; where a
-- buffer is written, the result is what stands in it, and the value returned is zero.
pub mod Agreement
use olm.Base.{
  ℕ, zero, suc, ◌+◌, ◌*◌, ◌/◌, ◌%◌, Bytes, Bool, true, false, Option, none, some, [], ◌∷◌, ◌++◌,
  length, take, drop, get_or, replicate, ltb, ◌==◌, if◌then◌else◌,
}
use olm.Error.{
  ErrorCode, success, not_enough_random, output_buffer_too_small, input_buffer_too_small,
  invalid_base64, sas_their_key_not_set,
}
use olm.Base64.{
  encode_base64_length, encode_base64, decode_base64, encode_group, encode_two, encode_one,
}
use olm.Pickle.{KeyPair, curve25519_key_length}
use olm.Crypto.External.{Primitives}
use olm.Crypto.{
  sha256_output_length, hmac_sha256, hkdf_sha256, curve25519_generate_key, curve25519_shared_secret,
}
use olm.Cipher.{write}

pub record OlmSas : Type 0 where
  pub last_error : ErrorCode
  pub curve25519_key : KeyPair
  pub secret : Bytes
  pub their_key_set : Bool

abbrev zeros : Bytes
zeros = replicate curve25519_key_length 0

unfoldable pub clear_sas : OlmSas
clear_sas = record {
  last_error = success;
  curve25519_key = record { public_key = zeros; private_key = zeros };
  secret = zeros;
  their_key_set = false;
}

abbrev sas_fail : OlmSas → ErrorCode → OlmSas
sas_fail sas error = record sas { last_error = error }

unfoldable pub create_sas_random_length : ℕ
create_sas_random_length = curve25519_key_length

unfoldable pub sas_pubkey_length : ℕ
sas_pubkey_length = encode_base64_length curve25519_key_length

unfoldable pub sas_get_pubkey : OlmSas → ℕ → OlmSas × Option Bytes
sas_get_pubkey sas pubkey_length =
    if ltb pubkey_length sas_pubkey_length
    then (sas_fail sas output_buffer_too_small, none)
    else (sas, some (encode_base64 (take curve25519_key_length sas.curve25519_key.public_key)))

unfoldable pub sas_is_their_key_set : OlmSas → Bool
sas_is_their_key_set sas = sas.their_key_set

unfoldable pub sas_mac_length : ℕ
sas_mac_length = encode_base64_length sha256_output_length

-- `_olm_encode_base64` with one pointer as input and output: group `j` is read at `3 * j`, where an
-- earlier group may have been written already, and written at `4 * j`.
pub encode_in_place_loop : ℕ → ℕ → Bytes → Bytes
encode_in_place_loop zero j buffer = buffer
encode_in_place_loop (suc groups) j buffer = encode_in_place_loop groups (j + 1) (
    write buffer (4 * j) (
      encode_group (get_or buffer (3 * j) 0) (get_or buffer (3 * j + 1) 0)
        (get_or buffer (3 * j + 2) 0)))

unfoldable pub encode_in_place : ℕ → Bytes → Bytes
encode_in_place input_length buffer =
    let groups = input_length / 3 in
    let buffer' = encode_in_place_loop groups 0 buffer in
    let a = get_or buffer' (3 * groups) 0 in
    let b = get_or buffer' (3 * groups + 1) 0 in
    if input_length % 3 == 0
    then buffer'
    else if input_length % 3 == 2
    then write buffer' (4 * groups) (encode_two a b)
    else write buffer' (4 * groups) (encode_one a)

module _ (p : Primitives) where
  unfoldable pub create_sas : OlmSas → Bytes → OlmSas × Option ℕ
  create_sas sas random =
      if ltb (length random) create_sas_random_length
      then (sas_fail sas not_enough_random, none)
      else (
        record sas { curve25519_key = curve25519_generate_key p random; their_key_set = false },
        some 0,
      )

  -- The text is decoded in place; a longer one than a key needs is not refused.
  unfoldable pub sas_set_their_key : OlmSas → Bytes → OlmSas × Option ℕ
  sas_set_their_key sas their_key =
      if ltb (length their_key) sas_pubkey_length
      then (sas_fail sas input_buffer_too_small, none)
      else elim (decode_base64 their_key) [
        | none ↦ (sas_fail sas invalid_base64, none)
        | some raw ↦ (
          record sas {
            secret = curve25519_shared_secret p sas.curve25519_key (take curve25519_key_length raw);
            their_key_set = true;
          },
          some 0,
        )
      ]

  unfoldable pub sas_generate_bytes : OlmSas → Bytes → ℕ → OlmSas × Option Bytes
  sas_generate_bytes sas info output_length =
      if sas.their_key_set
      then (sas, some (hkdf_sha256 p sas.secret none info output_length))
      else (sas_fail sas sas_their_key_not_set, none)

  -- The HMAC under a derived key of `key_length` bytes: 32, or 256 in the compatible variant.
  unfoldable pub sas_hmac : OlmSas → ℕ → Bytes → Bytes → Bytes
  sas_hmac sas key_length input info =
      hmac_sha256 p (hkdf_sha256 p sas.secret none info key_length) input

  -- The checks that the three variants make, and the text that each makes of the HMAC.
  unfoldable pub sas_mac_checked :
      OlmSas → ℕ → (Bytes → Bytes) → ℕ → Bytes → Bytes → OlmSas × Option Bytes
  sas_mac_checked sas key_length encode mac_length input info =
      if ltb mac_length sas_mac_length
      then (sas_fail sas output_buffer_too_small, none)
      else if sas.their_key_set
      then (sas, some (encode (sas_hmac sas key_length input info)))
      else (sas_fail sas sas_their_key_not_set, none)

  -- The last argument is the length of the output buffer.
  unfoldable pub sas_calculate_mac_fixed_base64 : OlmSas → Bytes → Bytes → ℕ → OlmSas × Option Bytes
  sas_calculate_mac_fixed_base64 sas input info mac_length =
      sas_mac_checked sas 32 encode_base64 mac_length input info

  -- `mac` is the output buffer; the HMAC is written to its front and encoded over itself.
  unfoldable pub sas_calculate_mac : OlmSas → Bytes → Bytes → Bytes → OlmSas × Option Bytes
  sas_calculate_mac sas input info mac =
      sas_mac_checked sas 32 (λ temp. encode_in_place sha256_output_length (write mac 0 temp))
        (length mac) input info

  unfoldable pub sas_calculate_mac_long_kdf : OlmSas → Bytes → Bytes → Bytes → OlmSas × Option Bytes
  sas_calculate_mac_long_kdf sas input info mac =
      sas_mac_checked sas 256 (λ temp. encode_in_place sha256_output_length (write mac 0 temp))
        (length mac) input info
