-- ===== src/InboundGroupSession.antt =====
-- src/inbound_group_session.c: the receiver's side of a group session.
-- A function that changes the session returns it first. A result `none` is `size_t(-1)`; where a
-- buffer is written, the result is what stands in it, and the value returned is its length.
pub mod Ratchet
pub mod Stored
pub mod Decryption
pub mod Following
pub mod Exchange
pub mod KeyBuffer
pub mod Sharing
pub mod Restored
pub mod Authenticity
pub mod Unsigned
pub mod Conversation
use olm.Base.{
  get_or, ℕ, zero, suc, ◌+◌, ◌-◌, ◌*◌, ◌/◌, ◌%◌, ◌^◌, Bytes, Bool, true, false, not, ◌||◌, Option,
  none, some, [], ◌∷◌, ◌++◌, length, take, drop, replicate, ltb, ◌==◌, if◌then◌else◌,
}
use olm.Error.{
  ErrorCode, success, output_buffer_too_small, bad_message_version, bad_message_format,
  bad_message_mac, invalid_base64, unknown_pickle_version, corrupted_pickle, bad_session_key,
  unknown_message_index, bad_signature, pickle_extra_data,
}
use olm.Base64.{encode_base64_length, decode_base64_length, encode_base64, decode_base64}
use olm.Pickle.{
  ed25519_public_key_length, pickle_uint32, unpickle_uint32, pickle_ed25519_public_key,
  unpickle_ed25519_public_key, pickle_bool, unpickle_bool, unpickle_loop,
}
use olm.Crypto.External.{Primitives}
use olm.Crypto.{Decrypted, plaintext, failed, fault, crypto_ed25519_verify}
use olm.Cipher.{mac_length, encrypt_ciphertext_length, decrypt_max_plaintext_length, decrypt}
use olm.Megolm.{
  Megolm, megolm_ratchet_length, megolm_get_data, megolm_init, megolm_pickle_length, megolm_pickle,
  megolm_unpickle, megolm_advance_to, megolm_cipher,
}
use olm.Message.{GroupMessage, decode_group_message}
use olm.PickleEncoding.{
  enc_output_length, enc_output, enc_input, Unpickled, returned, refused, undefined,
}
use olm.OutboundGroupSession.{
  olm_protocol_version, ed25519_signature_length, session_key_version, session_key_raw_length,
  zero_megolm, encode_counter,
}

abbrev pub session_export_version : ℕ
session_export_version = 1

abbrev pub session_export_raw_length : ℕ
session_export_raw_length = 1 + 4 + megolm_ratchet_length + ed25519_public_key_length

pub record InboundGroupSession : Type 0 where
  pub initial_ratchet : Megolm
  pub latest_ratchet : Megolm
  pub signing_key : Bytes
  pub signing_key_verified : Bool
  pub last_error : ErrorCode

unfoldable pub clear_inbound_group_session : InboundGroupSession
clear_inbound_group_session = record {
  initial_ratchet = zero_megolm;
  latest_ratchet = zero_megolm;
  signing_key = replicate ed25519_public_key_length 0;
  signing_key_verified = false;
  last_error = success;
}

abbrev pub inbound_fail : InboundGroupSession → ErrorCode → InboundGroupSession
inbound_fail session error = record session { last_error = error }

-- `counter <<= 8; counter |= *ptr++` four times, the loop of `unpickle_uint32`.
unfoldable pub decode_counter : Bytes → ℕ × Bytes
decode_counter ptr = unpickle_loop 32 4 0 ptr

unfoldable pub inbound_group_session_id_length : ℕ
inbound_group_session_id_length = encode_base64_length ed25519_public_key_length

unfoldable pub inbound_group_session_id :
    InboundGroupSession → ℕ → InboundGroupSession × Option Bytes
inbound_group_session_id session id_length =
    if ltb id_length inbound_group_session_id_length
    then (inbound_fail session output_buffer_too_small, none)
    else (session, some (encode_base64 (take ed25519_public_key_length session.signing_key)))

unfoldable pub inbound_group_session_first_known_index : InboundGroupSession → ℕ
inbound_group_session_first_known_index session = session.initial_ratchet.counter

unfoldable pub inbound_group_session_is_verified : InboundGroupSession → Bool
inbound_group_session_is_verified session = session.signing_key_verified

-- The fields that `_init_group_session_keys` stores: both ratchets and the signing key.
unfoldable pub store_session_key : InboundGroupSession → Bytes → InboundGroupSession
store_session_key session key_buf =
    let (counter, ptr) = decode_counter (drop 1 key_buf) in
    record session {
      initial_ratchet = megolm_init ptr counter;
      latest_ratchet = megolm_init ptr counter;
      signing_key = take ed25519_public_key_length (drop megolm_ratchet_length ptr);
    }

module _ (p : Primitives) where
  -- `_init_group_session_keys`; the fields are stored before the signature is verified. `some 0` is
  -- the return value zero.
  unfoldable pub init_group_session_keys :
      InboundGroupSession → Bytes → Bool → InboundGroupSession × Option ℕ
  init_group_session_keys session key_buf export_format =
      let expected_version =
        if export_format then session_export_version else session_key_version in
      let session1 = store_session_key session key_buf in
      if get_or key_buf 0 0 == expected_version
      then (if export_format
          then (session1, some 0)
          else if crypto_ed25519_verify p session1.signing_key
              (take session_export_raw_length key_buf)
              (take ed25519_signature_length (drop session_export_raw_length key_buf))
          then (record session1 { signing_key_verified = true }, some 0)
          else (inbound_fail session1 bad_signature, none))
      else (inbound_fail session bad_session_key, none)

  -- The checks on the length come first, so the decoder is called on what it can decode.
  unfoldable pub init_from_text :
      InboundGroupSession → Bytes → ℕ → Bool → InboundGroupSession × Option ℕ
  init_from_text session session_key raw_key_length export_format =
      elim (decode_base64_length (length session_key)) [
        | none ↦ (inbound_fail session invalid_base64, none)
        | some raw_length ↦
            if raw_length == raw_key_length
            then elim (decode_base64 session_key) [
              | none ↦ (session, none)
              | some key_buf ↦ init_group_session_keys session key_buf export_format
            ]
            else (inbound_fail session bad_session_key, none)
      ]

  unfoldable pub init_inbound_group_session :
      InboundGroupSession → Bytes → InboundGroupSession × Option ℕ
  init_inbound_group_session session session_key =
      init_from_text session session_key session_key_raw_length false

  unfoldable pub import_inbound_group_session :
      InboundGroupSession → Bytes → InboundGroupSession × Option ℕ
  import_inbound_group_session session session_key =
      init_from_text session session_key session_export_raw_length true
