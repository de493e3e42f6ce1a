-- ===== src/InboundGroupSession/Unsigned.antt =====
-- Messages without the sender's signature in src/inbound_group_session.c.
use olm.Base.{
  ℕ, ◌-◌, Bytes, Bool, false, Option, none, some, length, take, drop, ◌==◌, Bool-cases,
  Option-cases, inl, inr, ◌≡◌, refl,
}
use olm.Error.{ErrorCode, bad_signature, bad_message_format, bad_message_version}
use olm.Base64.{decode_base64}
use olm.Crypto.External.{Primitives}
use olm.Crypto.{Decrypted, failed, crypto_ed25519_verify}
use olm.Message.{decode_group_message}
use olm.InboundGroupSession.{InboundGroupSession, inbound_fail}
use olm.InboundGroupSession.Decryption.{decrypt_fields, decrypt_raw, group_decrypt}

-- Nothing is decrypted, and nothing of the session changes but its last error.
pub record Refused (session : InboundGroupSession)
    (result : InboundGroupSession × Option ℕ × Decrypted) : Type 0 where
  pub error : ErrorCode
  pub only_error : result.0 ≡ inbound_fail session error
  pub no_plaintext : result.2 ≡ failed

abbrev refused_with :
    (session : InboundGroupSession) (e : ErrorCode) (index : Option ℕ)
    → Refused session (inbound_fail session e, index, failed)
refused_with session e index = record { error = e; only_error = refl; no_plaintext = refl }

module _ (p : Primitives) where
  -- `signature` stands behind the signed part of the message.
  abbrev pub is_signed : InboundGroupSession → Bytes → Bool
  is_signed session raw =
      crypto_ed25519_verify p session.signing_key (take (length raw - 64) raw)
        (drop (length raw - 64) raw)

  decrypt_fields_unsigned :
      (session : InboundGroupSession) (raw : Bytes) (index : ℕ) (ct : Option Bytes) (max : ℕ)
      → is_signed session raw ≡ false
      → Refused session (decrypt_fields p session raw index ct max)
  unfolding decrypt_fields
  decrypt_fields_unsigned session raw index none max h =
      refused_with session bad_message_format none
  decrypt_fields_unsigned session raw index (some ct) max h =
      rw h (refused_with session bad_signature (some index))

  decrypt_raw_unsigned :
      (session : InboundGroupSession) (raw : Bytes) (max : ℕ)
      → is_signed session raw ≡ false
      → Refused session (decrypt_raw p session raw max)
  unfolding decrypt_raw
  decrypt_raw_unsigned session raw max h = elim (Option-cases (decode_group_message raw 8 64)) [
    | inl e ↦ rw (e, decrypt_raw) (refused_with session session.last_error none)
    | inr (r, e) ↦ elim (Bool-cases (r.version == 3)) [
      | inl version ↦ elim (Bool-cases r.has_message_index) [
        | inl found ↦
            rw (e, version, found, decrypt_raw)
              (decrypt_fields_unsigned session raw r.message_index r.ciphertext max h)
        | inr missing ↦
            rw (e, version, missing, decrypt_raw) (refused_with session bad_message_format none)
      ]
      | inr other ↦ rw (e, other, decrypt_raw) (refused_with session bad_message_version none)
    ]
  ]

  -- A message that decodes from base64 and whose last 64 bytes do not verify as a signature of the
  -- rest under the session's key is refused by `group_decrypt`: it returns `failed`, and nothing
  -- of the session changes but its last error.
  pub group_decrypt_unsigned :
      (session : InboundGroupSession) (message raw : Bytes) (max : ℕ)
      → decode_base64 message ≡ some raw
      → is_signed session raw ≡ false
      → Refused session (group_decrypt p session message max)
  unfolding group_decrypt
  group_decrypt_unsigned session message raw max e h =
      rw (e, group_decrypt) (decrypt_raw_unsigned session raw max h)
