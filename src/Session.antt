-- ===== src/Session.antt =====
-- src/session.cpp: a session between two devices, over the double ratchet.
-- A function that changes the session returns it first; a result `none` is `size_t(-1)`.

pub mod Starting
pub mod Secret
pub mod PreKeyText
pub mod Meeting
pub mod Handshake
pub mod Stored
pub mod Errors
use olm.Base.{
  ℕ, ◌+◌, ◌-◌, ◌*◌, Bytes, Bool, true, false, Option, none, some, [], ◌∷◌, ◌++◌, take, drop,
  replicate, length, ltb, ◌==◌, ◌&&◌, ◌||◌, not, if◌then◌else◌,
}
use olm.Error.{
  ErrorCode, success, not_enough_random, output_buffer_too_small, bad_message_format, bad_signature,
  bad_message_key_id, code_number,
}
use olm.Memory.{is_equal, memcmp_equal}
use olm.Pickle.{KeyPair, curve25519_key_length}
use olm.Crypto.External.{Primitives}
use olm.Crypto.{Decrypted, plaintext, failed, fault, sha256_output_length, crypto_sha256}
use olm.Message.PreKey.{
  PreKeyMessageReader, encode_one_time_key_message, encode_one_time_key_message_length,
  decode_one_time_key_message,
}
use olm.Ratchet.{Ratchet, KdfInfo, new_ratchet, ratchet_fail}
use olm.Ratchet.Encrypting.{
  Encrypted, message, refused, undefined, encrypt_output_length, encrypt_random_length,
  ratchet_encrypt,
}
use olm.Ratchet.Decryption.{ratchet_decrypt_max_plaintext_length, ratchet_decrypt}

abbrev pub session_protocol_version : ℕ
session_protocol_version = 3

-- `"OLM_ROOT"`, `"OLM_RATCHET"` and `"OLM_KEYS"`
abbrev pub olm_kdf_info : KdfInfo
olm_kdf_info = record {
  root_info = 0x4f ∷ 0x4c ∷ 0x4d ∷ 0x5f ∷ 0x52 ∷ 0x4f ∷ 0x4f ∷ 0x54 ∷ [];
  ratchet_info = 0x4f ∷ 0x4c ∷ 0x4d ∷ 0x5f ∷ 0x52 ∷ 0x41 ∷ 0x54 ∷ 0x43 ∷ 0x48 ∷ 0x45 ∷ 0x54 ∷ [];
}

abbrev pub olm_cipher : Bytes
olm_cipher = 0x4f ∷ 0x4c ∷ 0x4d ∷ 0x5f ∷ 0x4b ∷ 0x45 ∷ 0x59 ∷ 0x53 ∷ []

pub data MessageType : Type 0 where
  prekey_message normal_message : MessageType

pub record Session : Type 0 where
  pub ratchet : Ratchet
  pub last_error : ErrorCode
  pub received_message : Bool
  pub alice_identity_key : Bytes
  pub alice_base_key : Bytes
  pub bob_one_time_key : Bytes
  pub bob_prekey : Bytes

abbrev zeros : Bytes
zeros = replicate 32 0

-- The constructor; the keys are what the memory holds, here zeros.
unfoldable pub new_session : Session
new_session = record {
  ratchet = new_ratchet olm_kdf_info olm_cipher zeros;
  last_error = success;
  received_message = false;
  alice_identity_key = zeros;
  alice_base_key = zeros;
  bob_one_time_key = zeros;
  bob_prekey = zeros;
}

abbrev pub session_fail : Session → ErrorCode → Session
session_fail session error = record session { last_error = error }

-- The error of the ratchet is taken over, and cleared there.
abbrev pub take_ratchet_error : Session → Ratchet → Session
take_ratchet_error session ratchet = record session {
  ratchet = ratchet_fail ratchet success;
  last_error = ratchet.last_error;
}

unfoldable pub encrypt_message_type : Session → MessageType
encrypt_message_type session = if session.received_message then normal_message else prekey_message

unfoldable pub encrypt_message_length : Session → ℕ → ℕ
encrypt_message_length session plaintext_length =
    let message_length = encrypt_output_length session.ratchet plaintext_length in
    if session.received_message
    then message_length
    else encode_one_time_key_message_length curve25519_key_length curve25519_key_length
        curve25519_key_length curve25519_key_length message_length

unfoldable pub session_encrypt_random_length : Session → ℕ
session_encrypt_random_length session = encrypt_random_length session.ratchet

-- The message that the ratchet works on: the whole of it, or the inner one of a pre-key message.
-- `none` is a pre-key message without an inner one.
unfoldable pub message_body : MessageType → Bytes → Option Bytes
message_body normal_message text = some text
message_body prekey_message text = elim (decode_one_time_key_message text) [
  | none ↦ none
  | some reader ↦ reader.message
]

unfoldable pub session_decrypt_max_plaintext_length :
    Session → MessageType → Bytes → Session × Option ℕ
session_decrypt_max_plaintext_length session message_type text =
    elim (message_body message_type text) [
      | none ↦ (session_fail session bad_message_format, none)
      | some body ↦
          let (ratchet, result) = ratchet_decrypt_max_plaintext_length session.ratchet body in
          elim result [
            | none ↦ (take_ratchet_error session ratchet, none)
            | some n ↦ (record session { ratchet = ratchet }, some n)
          ]
    ]

unfoldable pub session_id_length : ℕ
session_id_length = sha256_output_length

module _ (p : Primitives) where
  -- The ratchet writes behind the header of the pre-key message, into a buffer with the room for it.
  unfoldable pub session_encrypt : Session → Bytes → Bytes → Bytes → Session × Encrypted
  session_encrypt session plain random output =
      let body_length = encrypt_output_length session.ratchet (length plain) in
      let header_length = encrypt_message_length session (length plain) - body_length in
      let buffer =
        take body_length (if session.received_message then output else drop header_length output) in
      let (ratchet, result) = ratchet_encrypt p session.ratchet plain random buffer in
      if ltb (length output) (encrypt_message_length session (length plain))
      then (session_fail session output_buffer_too_small, refused)
      else elim result [
        | refused ↦ (take_ratchet_error session ratchet, refused)
        | undefined ↦ (record session { ratchet = ratchet }, undefined)
        | message body ↦ (
          record session { ratchet = ratchet },
          message (
              if session.received_message
              then body
              else encode_one_time_key_message session_protocol_version session.alice_identity_key
                  session.alice_base_key session.bob_prekey session.bob_one_time_key body),
        )
      ]

  unfoldable pub session_decrypt : Session → MessageType → Bytes → ℕ → Bool → Session × Decrypted
  session_decrypt session message_type text max_plaintext_length is_sequential =
      elim (message_body message_type text) [
        | none ↦ (session_fail session bad_message_format, failed)
        | some body ↦
            let (ratchet, result) =
              ratchet_decrypt p session.ratchet body max_plaintext_length is_sequential in
            elim result [
              | failed ↦ (take_ratchet_error session ratchet, failed)
              | fault ↦ (record session { ratchet = ratchet }, fault)
              | plaintext plain ↦
                  (record session { ratchet = ratchet; received_message = true }, plaintext plain)
            ]
      ]
