-- ===== src/Crypto.antt =====
-- src/crypto.cpp over the third-party primitives that it calls: SHA-256 and the AES block cipher
-- of lib/crypto-algorithms, Ed25519 and Curve25519.
pub mod External
pub mod Hmac
pub mod Cbc
use olm.Base.{
  ℕ, zero, suc, ◌+◌, ◌-◌, ◌*◌, ◌/◌, ◌%◌, bit_xor, Bytes, Bool, true, false, not, Option, none, some,
  List, [], ◌∷◌, ◌++◌, length, take, drop, replicate, get_or, ltb, ◌==◌, if◌then◌else◌, ◌||◌,
}
use mathlib.Core.List.{map}
use olm.Pickle.{KeyPair}
use olm.Crypto.External.{Primitives}

abbrev pub sha256_output_length : ℕ
sha256_output_length = 32

abbrev pub sha256_block_length : ℕ
sha256_block_length = 64

abbrev pub aes_block_length : ℕ
aes_block_length = 16

abbrev pub aes256_key_length : ℕ
aes256_key_length = 32

abbrev pub aes256_iv_length : ℕ
aes256_iv_length = 16

abbrev hkdf_default_salt : Bytes
hkdf_default_salt = replicate 32 0

abbrev pub curve25519_basepoint : Bytes
curve25519_basepoint = 9 ∷ replicate 31 0

-- `block[i] ^= input[i]` over the length of both.
pub xor_block : Bytes → Bytes → Bytes
xor_block [] input = []
xor_block (b ∷ block) [] = b ∷ block
xor_block (b ∷ block) (x ∷ input) = bit_xor b x ∷ xor_block block input

-- The result of a decryption: a plaintext, the return value `size_t(-1)`, or an access outside of
-- the buffers that were given, which C leaves undefined.
pub data Decrypted : Type 0 where
  plaintext : Bytes → Decrypted
  failed fault : Decrypted

-- Whether the decryption loop ends in the middle of a block, or has none.
abbrev has_partial_block : ℕ → Bool
has_partial_block n = n == 0 || not (n % aes_block_length == 0)

-- `sha256_init` and `sha256_update` calls are the concatenation of what was fed so far.
unfoldable pub hmac_sha256_init : Bytes → Bytes
hmac_sha256_init hmac_key = map (λ b. bit_xor b 0x36) hmac_key

unfoldable pub aes_encrypt_cbc_length : ℕ → ℕ
aes_encrypt_cbc_length input_length =
    input_length + aes_block_length - input_length % aes_block_length

-- The two loops over the last block: the bytes that are left, then the padding.
pub pad_block : Bytes → Bytes
pad_block input =
    input ++ replicate (aes_block_length - length input) (aes_block_length - length input)

module _ (p : Primitives) where
  open p use {
    sha256, aes_encrypt, aes_decrypt, ed25519_create_keypair, ed25519_sign, ed25519_verify,
    curve25519_donna,
  }

  -- `memset` to zero, then the key or its hash at the front.
  unfoldable pub hmac_sha256_key : Bytes → Bytes
  hmac_sha256_key input_key =
      let key =
        if ltb sha256_block_length (length input_key) then sha256 input_key else input_key in
      key ++ replicate (sha256_block_length - length key) 0

  unfoldable pub hmac_sha256_final : Bytes → Bytes → Bytes
  hmac_sha256_final context hmac_key = sha256 (map (λ b. bit_xor b 0x5c) hmac_key ++ sha256 context)

  unfoldable pub hmac_sha256 : Bytes → Bytes → Bytes
  hmac_sha256 key input =
      let hmac_key = hmac_sha256_key key in
      hmac_sha256_final (hmac_sha256_init hmac_key ++ input) hmac_key

  -- The `while (bytes_remaining > SHA256_OUTPUT_LENGTH)` loop of HKDF and the copy behind it. Each
  -- round takes 32 bytes off, so `bytes_remaining` rounds of fuel are enough.
  pub hkdf_loop : ℕ → ℕ → Bytes → Bytes → ℕ → Bytes → Bytes
  hkdf_loop zero bytes_remaining hmac_key info iteration step_result =
      take bytes_remaining step_result
  hkdf_loop (suc fuel) bytes_remaining hmac_key info iteration step_result =
      elim (ltb sha256_output_length bytes_remaining) [
        | false ↦ take bytes_remaining step_result
        | true ↦
            let iteration' = (iteration + 1) % 256 in
            step_result
            ++ hkdf_loop fuel (bytes_remaining - sha256_output_length) hmac_key info iteration' (
                hmac_sha256_final
                  (((hmac_sha256_init hmac_key ++ step_result) ++ info) ++ iteration' ∷ [])
                  hmac_key)
      ]

  -- `salt` is `none` for the null pointer.
  unfoldable pub hkdf_sha256 : Bytes → Option Bytes → Bytes → ℕ → Bytes
  hkdf_sha256 input salt info output_length =
      let salt' : Bytes = elim salt [ none ↦ hkdf_default_salt | some s ↦ s ] in
      let extract_key = hmac_sha256_key salt' in
      let extracted = hmac_sha256_final (hmac_sha256_init extract_key ++ input) extract_key in
      let hmac_key = hmac_sha256_key extracted in
      hkdf_loop output_length output_length hmac_key info 1
        (hmac_sha256_final ((hmac_sha256_init hmac_key ++ info) ++ 1 ∷ []) hmac_key)

  -- The loop over whole blocks, with its rounds counted, and the padded block behind it.
  pub cbc_encrypt_loop : ℕ → Bytes → Bytes → Bytes → Bytes
  cbc_encrypt_loop zero key input_block input =
      aes_encrypt key (xor_block input_block (pad_block input))
  cbc_encrypt_loop (suc rounds) key input_block input =
      let output = aes_encrypt key (xor_block input_block (take aes_block_length input)) in
      output ++ cbc_encrypt_loop rounds key output (drop aes_block_length input)

  -- `while (input_length >= AES_BLOCK_LENGTH)` makes `input_length / 16` rounds.
  unfoldable pub aes_encrypt_cbc : Bytes → Bytes → Bytes → Bytes
  aes_encrypt_cbc key iv input = cbc_encrypt_loop (length input / aes_block_length) key iv input

  pub cbc_decrypt_loop : ℕ → Bytes → Bytes → Bytes → Bytes
  cbc_decrypt_loop zero key block1 input = []
  cbc_decrypt_loop (suc rounds) key block1 input =
      let block2 = take aes_block_length input in
      xor_block (aes_decrypt key block2) block1
      ++ cbc_decrypt_loop rounds key block2 (drop aes_block_length input)

  -- The padding test at the end. On an empty input `output[input_length - 1]` is in front of the
  -- buffer; on a broken last block the loop runs past the end of both buffers.
  unfoldable pub aes_decrypt_cbc : Bytes → Bytes → Bytes → Decrypted
  aes_decrypt_cbc key iv input =
      let input_length = length input in
      let output = cbc_decrypt_loop (input_length / aes_block_length) key iv input in
      let padding = get_or output (input_length - 1) 0 in
      if has_partial_block input_length
      then fault
      else if ltb input_length padding
      then failed
      else plaintext (take (input_length - padding) output)

  unfoldable pub crypto_sha256 : Bytes → Bytes
  crypto_sha256 input = sha256 input

  unfoldable pub ed25519_generate_key : Bytes → KeyPair
  ed25519_generate_key random_32_bytes = ed25519_create_keypair (take 32 random_32_bytes)

  unfoldable pub crypto_ed25519_sign : KeyPair → Bytes → Bytes
  crypto_ed25519_sign our_key message = ed25519_sign message our_key.public_key our_key.private_key

  unfoldable pub crypto_ed25519_verify : Bytes → Bytes → Bytes → Bool
  crypto_ed25519_verify their_key message signature = ed25519_verify signature message their_key

  unfoldable pub curve25519_generate_key : Bytes → KeyPair
  curve25519_generate_key random_32_bytes =
      let private_key = take 32 random_32_bytes in
      record {
        public_key = curve25519_donna private_key curve25519_basepoint;
        private_key = private_key;
      }

  unfoldable pub curve25519_shared_secret : KeyPair → Bytes → Bytes
  curve25519_shared_secret our_key their_key = curve25519_donna our_key.private_key their_key
