-- ===== src/InboundGroupSession/Decryption.antt =====
-- The decryption of a group message in src/inbound_group_session.c. The branch for a message
-- decoder without fuel left stands for nothing in the source.
use olm.Base.{ℕ, ◌-◌, Bytes, true, Option, none, some, length, take, drop, ltb, ◌==◌, if◌then◌else◌}
use olm.Error.{
  output_buffer_too_small, bad_message_version, bad_message_format, bad_message_mac, invalid_base64,
  bad_signature,
}
use olm.Base64.{decode_base64}
use olm.Crypto.External.{Primitives}
use olm.Crypto.{Decrypted, plaintext, failed, fault, crypto_ed25519_verify}
use olm.Cipher.{mac_length, decrypt_max_plaintext_length, decrypt}
use olm.Megolm.{megolm_get_data, megolm_cipher}
use olm.Message.{decode_group_message}
use olm.OutboundGroupSession.{olm_protocol_version, ed25519_signature_length}
use olm.InboundGroupSession.{InboundGroupSession, inbound_fail}
use olm.InboundGroupSession.Ratchet.{get_megolm}

-- `_decrypt_max_plaintext_length`, on a message that is decoded from base64 already.
unfoldable pub raw_max_plaintext_length :
    InboundGroupSession → Bytes → InboundGroupSession × Option ℕ
raw_max_plaintext_length session message =
    elim (decode_group_message message mac_length ed25519_signature_length) [
      | none ↦ (session, none)
      | some decoded_results ↦
          if decoded_results.version == olm_protocol_version
          then elim decoded_results.ciphertext [
            | none ↦ (inbound_fail session bad_message_format, none)
            | some ciphertext ↦ (session, some (decrypt_max_plaintext_length (length ciphertext)))
          ]
          else (inbound_fail session bad_message_version, none)
    ]

unfoldable pub group_decrypt_max_plaintext_length :
    InboundGroupSession → Bytes → InboundGroupSession × Option ℕ
group_decrypt_max_plaintext_length session message = elim (decode_base64 message) [
  | none ↦ (inbound_fail session invalid_base64, none)
  | some raw ↦ raw_max_plaintext_length session raw
]

module _ (p : Primitives) where
  -- `_decrypt` after the signature and the buffer are checked. `message` is the raw message without
  -- its signature.
  unfoldable pub decrypt_verified :
      InboundGroupSession → Bytes → ℕ → Bytes → ℕ → InboundGroupSession × Decrypted
  decrypt_verified session message message_index ciphertext max_plaintext_length =
      let (session1, megolm) = get_megolm p session message_index in
      elim megolm [
        | none ↦ (session1, failed)
        | some megolm ↦
            elim (decrypt p megolm_cipher (megolm_get_data megolm) message ciphertext
              max_plaintext_length) [
                | plaintext plain ↦
                    (record session1 { signing_key_verified = true }, plaintext plain)
                | failed ↦ (inbound_fail session1 bad_message_mac, failed)
                | fault ↦ (session1, fault)
              ]
      ]

  -- `_decrypt` on the fields that the decoder found; the second result is what `*message_index` is
  -- set to, if it is.
  unfoldable pub decrypt_fields :
      InboundGroupSession
      → Bytes
      → ℕ
      → Option Bytes
      → ℕ
      → InboundGroupSession × Option ℕ × Decrypted
  decrypt_fields session message message_index none max_plaintext_length =
      (inbound_fail session bad_message_format, none, failed)
  decrypt_fields session message message_index (some ciphertext) max_plaintext_length =
      let signed = take (length message - ed25519_signature_length) message in
      let signature = drop (length message - ed25519_signature_length) message in
      let (session1, result) =
        decrypt_verified session signed message_index ciphertext max_plaintext_length in
      if crypto_ed25519_verify p session.signing_key signed signature
      then (if ltb max_plaintext_length (decrypt_max_plaintext_length (length ciphertext))
          then (inbound_fail session output_buffer_too_small, some message_index, failed)
          else (session1, some message_index, result))
      else (inbound_fail session bad_signature, some message_index, failed)

  unfoldable pub decrypt_raw :
      InboundGroupSession → Bytes → ℕ → InboundGroupSession × Option ℕ × Decrypted
  decrypt_raw session message max_plaintext_length =
      elim (decode_group_message message mac_length ed25519_signature_length) [
        | none ↦ (session, none, failed)
        | some results ↦
            if results.version == olm_protocol_version
            then (if results.has_message_index
                then decrypt_fields session message results.message_index results.ciphertext
                    max_plaintext_length
                else (inbound_fail session bad_message_format, none, failed))
            else (inbound_fail session bad_message_version, none, failed)
      ]

  unfoldable pub group_decrypt :
      InboundGroupSession → Bytes → ℕ → InboundGroupSession × Option ℕ × Decrypted
  group_decrypt session message max_plaintext_length = elim (decode_base64 message) [
    | none ↦ (inbound_fail session invalid_base64, none, failed)
    | some raw ↦ decrypt_raw session raw max_plaintext_length
  ]
