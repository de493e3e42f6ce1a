-- ===== src/Cipher.antt =====
-- src/cipher.cpp: AES-256 in CBC mode with a truncated HMAC, under keys that HKDF derives.
pub mod RoundTrip
pub mod Room
use olm.Base.{
  ℕ, ◌+◌, ◌-◌, Bytes, Bool, true, false, Option, none, some, ◌++◌, length, take, drop, ltb,
  if◌then◌else◌, ◌||◌, not,
}
use olm.Memory.{is_equal}
use olm.Crypto.External.{Primitives}
use olm.Crypto.{
  aes256_key_length, aes256_iv_length, Decrypted, plaintext, failed, fault, hmac_sha256,
  hkdf_sha256, aes_encrypt_cbc_length, aes_encrypt_cbc, aes_decrypt_cbc,
}

abbrev pub hmac_key_length : ℕ
hmac_key_length = 32

abbrev pub mac_length : ℕ
mac_length = 8

pub record DerivedKeys : Type 0 where
  pub aes_key : Bytes
  pub mac_key : Bytes
  pub aes_iv : Bytes

-- `memcpy(buffer + at, bytes, …)`
unfoldable pub write : Bytes → ℕ → Bytes → Bytes
write buffer at bytes = take at buffer ++ (bytes ++ drop (at + length bytes) buffer)

unfoldable pub encrypt_ciphertext_length : ℕ → ℕ
encrypt_ciphertext_length plaintext_length = aes_encrypt_cbc_length plaintext_length

unfoldable pub decrypt_max_plaintext_length : ℕ → ℕ
decrypt_max_plaintext_length ciphertext_length = ciphertext_length

module _ (p : Primitives) (kdf_info key : Bytes) where
  -- Three arrays are loaded from the derived secrets, one behind the other.
  unfoldable pub derive_keys : DerivedKeys
  derive_keys =
      let derived_secrets =
        hkdf_sha256 p key none kdf_info (aes256_key_length + hmac_key_length + aes256_iv_length) in
      record {
        aes_key = take aes256_key_length derived_secrets;
        mac_key = take hmac_key_length (drop aes256_key_length derived_secrets);
        aes_iv = take aes256_iv_length (drop (aes256_key_length + hmac_key_length) derived_secrets);
      }

  -- `output` is the whole output buffer, and the ciphertext starts at `output + at`. The result is
  -- the buffer afterwards, `none` for `size_t(-1)`; the value returned is `output_length`.
  unfoldable pub encrypt : Bytes → Bytes → ℕ → ℕ → Option Bytes
  encrypt plain output at ciphertext_length =
      let keys = derive_keys in
      let output_length = length output in
      let output' = write output at (aes_encrypt_cbc p keys.aes_key keys.aes_iv plain) in
      let mac = hmac_sha256 p keys.mac_key (take (output_length - mac_length) output') in
      if ltb ciphertext_length (encrypt_ciphertext_length (length plain))
        || ltb output_length mac_length
      then none
      else some (write output' (output_length - mac_length) (take mac_length mac))

  -- The tag is compared before anything is decrypted.
  unfoldable pub decrypt : Bytes → Bytes → ℕ → Decrypted
  decrypt input ciphertext max_plaintext_length =
      let keys = derive_keys in
      let input_length = length input in
      let mac = hmac_sha256 p keys.mac_key (take (input_length - mac_length) input) in
      let input_mac = drop (input_length - mac_length) input in
      if ltb max_plaintext_length (decrypt_max_plaintext_length (length ciphertext))
        || ltb input_length mac_length
      then failed
      else if is_equal input_mac mac mac_length
      then aes_decrypt_cbc p keys.aes_key keys.aes_iv ciphertext
      else failed
