-- ===== src/OutboundGroupSession.antt =====
-- src/outbound_group_session.c: the sender's side of a group session.
-- A function that changes the session returns it first. A result `none` is `size_t(-1)`; where a
-- buffer is written, the result is what stands in it, and the value returned is its length.
-- The output buffers are arguments with what they hold before the call.
pub mod Encrypting
pub mod Restored
use olm.Base.{
  ℕ, zero, suc, ◌+◌, ◌-◌, ◌*◌, ◌/◌, ◌%◌, ◌^◌, bit_and, Bytes, Option, none, some, [], ◌∷◌, ◌++◌,
  length, take, drop, replicate, ltb, ◌==◌, if◌then◌else◌,
}
use olm.Error.{
  ErrorCode, success, not_enough_random, output_buffer_too_small, unknown_pickle_version,
  corrupted_pickle, pickle_extra_data,
}
use olm.Base64.{encode_base64_length, encode_base64}
use olm.Pickle.{
  KeyPair, ed25519_public_key_length, ed25519_private_key_length, pickle_uint32, unpickle_uint32,
  pickle_ed25519_key_pair, unpickle_ed25519_key_pair,
}
use olm.Memory.{unset}
use olm.Crypto.External.{Primitives}
use olm.Crypto.{Decrypted, plaintext, failed, fault, ed25519_generate_key, crypto_ed25519_sign}
use olm.Cipher.{mac_length, write, encrypt_ciphertext_length, encrypt}
use olm.Megolm.{
  Parts, Megolm, megolm_ratchet_length, megolm_get_data, megolm_init, megolm_pickle_length,
  megolm_pickle, megolm_unpickle, megolm_advance, megolm_cipher,
}
use olm.Message.{
  encode_group_message_length, encode_group_message_header, encode_group_message_result,
}
use olm.PickleEncoding.{
  enc_output_length, enc_output, enc_input, Unpickled, returned, refused, undefined,
}

abbrev pub olm_protocol_version : ℕ
olm_protocol_version = 3

abbrev pub ed25519_signature_length : ℕ
ed25519_signature_length = 64

abbrev pub ed25519_random_length : ℕ
ed25519_random_length = 32

abbrev outbound_pickle_version : ℕ
outbound_pickle_version = 1

abbrev pub session_key_version : ℕ
session_key_version = 2

pub record OutboundGroupSession : Type 0 where
  pub ratchet : Megolm
  pub signing_key : KeyPair
  pub last_error : ErrorCode

abbrev zeros : ℕ → Bytes
zeros n = replicate n 0

abbrev pub zero_megolm : Megolm
zero_megolm = record {
  data_parts = record { r0 = zeros 32; r1 = zeros 32; r2 = zeros 32; r3 = zeros 32 };
  counter = 0;
}

-- All of the memory is set to zero, which `olm_outbound_group_session` starts from as well.
unfoldable pub clear_outbound_group_session : OutboundGroupSession
clear_outbound_group_session = record {
  ratchet = zero_megolm;
  signing_key = record {
    public_key = zeros ed25519_public_key_length;
    private_key = zeros ed25519_private_key_length;
  };
  last_error = success;
}

unfoldable pub outbound_raw_pickle_length : ℕ
outbound_raw_pickle_length =
    4 + megolm_pickle_length + (ed25519_public_key_length + ed25519_private_key_length)

unfoldable pub pickle_outbound_group_session_length : ℕ
pickle_outbound_group_session_length = enc_output_length outbound_raw_pickle_length

unfoldable pub outbound_raw_pickle : OutboundGroupSession → Bytes
outbound_raw_pickle session =
    pickle_uint32 outbound_pickle_version
    ++ (megolm_pickle session.ratchet ++ pickle_ed25519_key_pair session.signing_key)

abbrev outbound_fail : OutboundGroupSession → ErrorCode → OutboundGroupSession
outbound_fail session error = record session { last_error = error }

-- `pos != end` after the last field.
abbrev outbound_end : OutboundGroupSession → Bytes → ℕ → OutboundGroupSession × Unpickled
outbound_end session pos pickled_length =
    if length pos == 0
    then (session, returned pickled_length)
    else (outbound_fail session pickle_extra_data, refused)

-- What follows `_olm_enc_input`. Every field is stored as soon as it is read, so a pickle that is
-- refused leaves behind the fields in front of the fault.
unfoldable pub outbound_raw_unpickle :
    OutboundGroupSession → Bytes → ℕ → OutboundGroupSession × Unpickled
outbound_raw_unpickle session pos pickled_length =
    let (pickle_version, pos1) = unpickle_uint32 pos in
    elim pos1 [
      | none ↦ (outbound_fail session corrupted_pickle, refused)
      | some pos1 ↦
          if pickle_version == outbound_pickle_version
          then (let (ratchet, pos2) = megolm_unpickle session.ratchet pos1 in
              let session1 : OutboundGroupSession = record session { ratchet = ratchet } in
              elim pos2 [
                | none ↦ (outbound_fail session1 corrupted_pickle, refused)
                | some pos2 ↦
                    let (signing_key, pos3) = unpickle_ed25519_key_pair session.signing_key pos2 in
                    let session2 : OutboundGroupSession = record session1 {
                      signing_key = signing_key;
                    } in
                    elim pos3 [
                      | none ↦ (outbound_fail session2 corrupted_pickle, refused)
                      | some pos3 ↦ outbound_end session2 pos3 pickled_length
                    ]
              ])
          else (outbound_fail session unknown_pickle_version, refused)
    ]

unfoldable pub init_outbound_group_session_random_length : ℕ
init_outbound_group_session_random_length = megolm_ratchet_length + ed25519_random_length

unfoldable pub raw_message_length : OutboundGroupSession → ℕ → ℕ
raw_message_length session plaintext_length =
    encode_group_message_length session.ratchet.counter (encrypt_ciphertext_length plaintext_length)
      mac_length ed25519_signature_length

unfoldable pub group_encrypt_message_length : OutboundGroupSession → ℕ → ℕ
group_encrypt_message_length session plaintext_length =
    encode_base64_length (raw_message_length session plaintext_length)

abbrev group_session_id_length : ℕ
group_session_id_length = ed25519_public_key_length

unfoldable pub outbound_group_session_id_length : ℕ
outbound_group_session_id_length = encode_base64_length group_session_id_length

unfoldable pub outbound_group_session_id :
    OutboundGroupSession → ℕ → OutboundGroupSession × Option Bytes
outbound_group_session_id session id_length =
    if ltb id_length outbound_group_session_id_length
    then (outbound_fail session output_buffer_too_small, none)
    else (
      session,
      some (encode_base64 (take group_session_id_length session.signing_key.public_key)),
    )

unfoldable pub outbound_group_session_message_index : OutboundGroupSession → ℕ
outbound_group_session_message_index session = session.ratchet.counter

abbrev pub session_key_raw_length : ℕ
session_key_raw_length =
    1 + 4 + megolm_ratchet_length + ed25519_public_key_length + ed25519_signature_length

unfoldable pub outbound_group_session_key_length : ℕ
outbound_group_session_key_length = encode_base64_length session_key_raw_length

-- `*ptr++ = 0xFF & (counter >> 24); counter <<= 8;`
unfoldable pub encode_counter : ℕ → ℕ → Bytes
encode_counter zero counter = []
encode_counter (suc i) counter =
    bit_and 0xff (counter / 2 ^ 24) ∷ encode_counter i (counter * 2 ^ 8 % 2 ^ 32)

-- The session key in front of its signature.
unfoldable pub session_key_body : OutboundGroupSession → Bytes
session_key_body session =
    session_key_version
    ∷ (encode_counter 4 session.ratchet.counter
        ++ (take megolm_ratchet_length (megolm_get_data session.ratchet)
            ++ take ed25519_public_key_length session.signing_key.public_key))

module _ (p : Primitives) where
  -- `pickled` is the output buffer.
  unfoldable pub pickle_outbound_group_session :
      OutboundGroupSession → Bytes → Bytes → OutboundGroupSession × Option Bytes
  pickle_outbound_group_session session key pickled =
      let raw_length = outbound_raw_pickle_length in
      let length = encrypt_ciphertext_length raw_length + mac_length in
      let output_pos = take length (drop (enc_output_length raw_length - length) pickled) in
      if ltb (olm.Base.length pickled) (enc_output_length raw_length)
      then (outbound_fail session output_buffer_too_small, none)
      else (session, enc_output p key (outbound_raw_pickle session) (drop raw_length output_pos))

  unfoldable pub unpickle_outbound_group_session :
      OutboundGroupSession → Bytes → Bytes → OutboundGroupSession × Unpickled
  unpickle_outbound_group_session session key pickled =
      let (last_error, raw) = enc_input p key pickled session.last_error in
      let session' = outbound_fail session last_error in
      elim raw [
        | plaintext pos ↦ outbound_raw_unpickle session' pos (length pickled)
        | failed ↦ (session', refused)
        | fault ↦ (session', undefined)
      ]

  -- The second result is `random` after the call.
  unfoldable pub init_outbound_group_session :
      OutboundGroupSession → Bytes → OutboundGroupSession × Bytes × Option ℕ
  init_outbound_group_session session random =
      if ltb (length random) init_outbound_group_session_random_length
      then (outbound_fail session not_enough_random, random, none)
      else (
        record session {
          ratchet = megolm_init random 0;
          signing_key = ed25519_generate_key p (drop megolm_ratchet_length random);
        },
        unset random,
        some 0,
      )

  -- `_encrypt`: `buffer` is the room for the message, and `message_pos` in the caller.
  unfoldable pub encrypt_raw :
      OutboundGroupSession → Bytes → Bytes → OutboundGroupSession × Option Bytes
  encrypt_raw session plain buffer =
      let ciphertext_length = encrypt_ciphertext_length (length plain) in
      let counter = session.ratchet.counter in
      let header = encode_group_message_header olm_protocol_version counter ciphertext_length in
      let message_length =
        encode_group_message_result olm_protocol_version counter ciphertext_length + mac_length in
      elim (encrypt p megolm_cipher (megolm_get_data session.ratchet) plain
        (take message_length (write buffer 0 header)) (length header) ciphertext_length) [
          | none ↦ (session, none)
          | some message ↦ (
            record session { ratchet = megolm_advance p session.ratchet },
            some (message ++ crypto_ed25519_sign p session.signing_key message),
          )
        ]

  -- `message` is the output buffer. The raw message is built at its end, for the encoder to work in
  -- place; the bytes are those of an encoder with an output of its own.
  unfoldable pub group_encrypt :
      OutboundGroupSession → Bytes → Bytes → OutboundGroupSession × Option Bytes
  group_encrypt session plain message =
      let rawmsglen = raw_message_length session (length plain) in
      let message_pos =
        take rawmsglen (drop (encode_base64_length rawmsglen - rawmsglen) message) in
      if ltb (length message) (encode_base64_length rawmsglen)
      then (outbound_fail session output_buffer_too_small, none)
      else (let (session', raw) = encrypt_raw session plain message_pos in
          elim raw [ none ↦ (session', none) | some raw ↦ (session', some (encode_base64 raw)) ])

  unfoldable pub outbound_group_session_key :
      OutboundGroupSession → ℕ → OutboundGroupSession × Option Bytes
  outbound_group_session_key session key_length =
      let raw = session_key_body session in
      if ltb key_length outbound_group_session_key_length
      then (outbound_fail session output_buffer_too_small, none)
      else (session, some (encode_base64 (raw ++ crypto_ed25519_sign p session.signing_key raw)))
