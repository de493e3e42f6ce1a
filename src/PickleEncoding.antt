-- ===== src/PickleEncoding.antt =====
-- src/pickle_encoding.c: the encrypted, base64 encoded form of a pickle.
pub mod RoundTrip
use olm.Base.{
  ℕ, ◌+◌, ◌-◌, ◌^◌, Bytes, Option, none, some, [], ◌∷◌, ◌++◌, length, take, replicate, ltb,
  if◌then◌else◌,
}
use olm.Error.{ErrorCode, invalid_base64, bad_account_key}
use olm.Base64.{encode_base64_length, encode_base64, decode_base64}
use olm.Crypto.External.{Primitives}
use olm.Crypto.{Decrypted, plaintext, failed, fault}
use olm.Cipher.{mac_length, encrypt_ciphertext_length, encrypt, decrypt}

-- `"Pickle"`
abbrev pub pickle_cipher : Bytes
pickle_cipher = 0x50 ∷ 0x69 ∷ 0x63 ∷ 0x6b ∷ 0x6c ∷ 0x65 ∷ []

unfoldable pub enc_output_length : ℕ → ℕ
enc_output_length raw_length =
    encode_base64_length (encrypt_ciphertext_length raw_length + mac_length)

-- What the call on a loaded pickle returns, or an access outside of the buffers.
pub data Unpickled : Type 0 where
  returned : ℕ → Unpickled
  refused undefined : Unpickled

module _ (p : Primitives) where
  -- The raw pickle stands at `raw_output`, and it is encrypted in place: its bytes, with whatever
  -- follows them in the buffer, are the buffer that the cipher writes to.
  unfoldable pub enc_output : Bytes → Bytes → Bytes → Option Bytes
  enc_output key raw behind =
      let ciphertext_length = encrypt_ciphertext_length (length raw) in
      elim (encrypt p pickle_cipher key raw (raw ++ behind) 0 ciphertext_length) [
        | none ↦ none
        | some raw_output ↦ some (encode_base64 raw_output)
      ]

  -- The `last_error` afterwards, and the raw pickle. `enc_length - mac_length` wraps around, and the
  -- buffer ends before it does.
  unfoldable pub enc_input : Bytes → Bytes → ErrorCode → ErrorCode × Decrypted
  enc_input key input last_error = elim (decode_base64 input) [
    | none ↦ (invalid_base64, failed)
    | some raw ↦
        let enc_length = length raw in
        let raw_length =
          if ltb enc_length mac_length
          then 2 ^ 64 + enc_length - mac_length
          else enc_length - mac_length in
        elim (decrypt p pickle_cipher key raw (take raw_length raw) raw_length) [
          | plaintext pickle ↦ (last_error, plaintext pickle)
          | failed ↦ (bad_account_key, failed)
          | fault ↦ (last_error, fault)
        ]
  ]
