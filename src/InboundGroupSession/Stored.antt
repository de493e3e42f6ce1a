-- ===== src/InboundGroupSession/Stored.antt =====
-- The pickled form of the receiver's session in src/inbound_group_session.c.
use olm.Base.{
  get_or, ℕ, zero, suc, ◌+◌, ◌-◌, ◌*◌, ◌/◌, ◌%◌, ◌^◌, Bytes, Bool, true, false, not, ◌||◌, Option,
  none, some, [], ◌∷◌, ◌++◌, length, take, drop, replicate, ltb, ◌==◌, if◌then◌else◌,
}
use olm.Error.{output_buffer_too_small, unknown_pickle_version, corrupted_pickle, pickle_extra_data}
use olm.Pickle.{
  ed25519_public_key_length, pickle_uint32, unpickle_uint32, pickle_ed25519_public_key,
  unpickle_ed25519_public_key, pickle_bool, unpickle_bool,
}
use olm.Crypto.External.{Primitives}
use olm.Crypto.{plaintext, failed, fault}
use olm.Cipher.{mac_length, encrypt_ciphertext_length}
use olm.Megolm.{megolm_pickle_length, megolm_pickle, megolm_unpickle}
use olm.PickleEncoding.{
  enc_output_length, enc_output, enc_input, Unpickled, returned, refused, undefined,
}
use olm.InboundGroupSession.{InboundGroupSession, inbound_fail}

abbrev inbound_pickle_version : ℕ
inbound_pickle_version = 2

unfoldable pub inbound_raw_pickle_length : ℕ
inbound_raw_pickle_length =
    4 + megolm_pickle_length + megolm_pickle_length + ed25519_public_key_length + 1

unfoldable pub pickle_inbound_group_session_length : ℕ
pickle_inbound_group_session_length = enc_output_length inbound_raw_pickle_length

unfoldable pub inbound_raw_pickle : InboundGroupSession → Bytes
inbound_raw_pickle session =
    pickle_uint32 inbound_pickle_version
    ++ (megolm_pickle session.initial_ratchet
        ++ (megolm_pickle session.latest_ratchet
            ++ (pickle_ed25519_public_key session.signing_key
                ++ pickle_bool session.signing_key_verified)))

-- `pos != end` after the last field.
abbrev inbound_end : InboundGroupSession → Option Bytes → ℕ → InboundGroupSession × Unpickled
inbound_end session pos pickled_length = elim pos [
  | none ↦ (inbound_fail session corrupted_pickle, refused)
  | some pos ↦
      if length pos == 0
      then (session, returned pickled_length)
      else (inbound_fail session pickle_extra_data, refused)
]

-- The last field, which version 1 lacks.
unfoldable pub unpickle_verified : ℕ → Bool → Bytes → Bool × Option Bytes
unpickle_verified pickle_version signing_key_verified pos =
    if pickle_version == 1 then (true, some pos) else unpickle_bool signing_key_verified pos

-- What follows the version. Every field is stored as soon as it is read, so a pickle that is
-- refused leaves behind the fields in front of the fault.
unfoldable pub unpickle_fields :
    InboundGroupSession → ℕ → Bytes → ℕ → InboundGroupSession × Unpickled
unpickle_fields session pickle_version pos pickled_length =
    let (initial_ratchet, pos1) = megolm_unpickle session.initial_ratchet pos in
    let session1 : InboundGroupSession = record session { initial_ratchet = initial_ratchet } in
    elim pos1 [
      | none ↦ (inbound_fail session1 corrupted_pickle, refused)
      | some pos1 ↦
          let (latest_ratchet, pos2) = megolm_unpickle session.latest_ratchet pos1 in
          let session2 : InboundGroupSession = record session1 {
            latest_ratchet = latest_ratchet;
          } in
          elim pos2 [
            | none ↦ (inbound_fail session2 corrupted_pickle, refused)
            | some pos2 ↦
                let (signing_key, pos3) = unpickle_ed25519_public_key session.signing_key pos2 in
                let session3 : InboundGroupSession = record session2 {
                  signing_key = signing_key;
                } in
                elim pos3 [
                  | none ↦ (inbound_fail session3 corrupted_pickle, refused)
                  | some pos3 ↦
                      let (verified, pos4) =
                        unpickle_verified pickle_version session.signing_key_verified pos3 in
                      inbound_end (record session3 { signing_key_verified = verified }) pos4
                        pickled_length
                ]
          ]
    ]

unfoldable pub inbound_raw_unpickle :
    InboundGroupSession → Bytes → ℕ → InboundGroupSession × Unpickled
inbound_raw_unpickle session pos pickled_length =
    let (pickle_version, pos1) = unpickle_uint32 pos in
    elim pos1 [
      | none ↦ (inbound_fail session corrupted_pickle, refused)
      | some pos1 ↦
          if ltb pickle_version 1 || ltb inbound_pickle_version pickle_version
          then (inbound_fail session unknown_pickle_version, refused)
          else unpickle_fields session pickle_version pos1 pickled_length
    ]

module _ (p : Primitives) where
  -- `pickled` is the output buffer.
  unfoldable pub pickle_inbound_group_session :
      InboundGroupSession → Bytes → Bytes → InboundGroupSession × Option Bytes
  pickle_inbound_group_session session key pickled =
      let raw_length = inbound_raw_pickle_length in
      let length = encrypt_ciphertext_length raw_length + mac_length in
      let output_pos = take length (drop (enc_output_length raw_length - length) pickled) in
      if ltb (olm.Base.length pickled) (enc_output_length raw_length)
      then (inbound_fail session output_buffer_too_small, none)
      else (session, enc_output p key (inbound_raw_pickle session) (drop raw_length output_pos))

  unfoldable pub unpickle_inbound_group_session :
      InboundGroupSession → Bytes → Bytes → InboundGroupSession × Unpickled
  unpickle_inbound_group_session session key pickled =
      let (last_error, raw) = enc_input p key pickled session.last_error in
      let session' = inbound_fail session last_error in
      elim raw [
        | plaintext pos ↦ inbound_raw_unpickle session' pos (length pickled)
        | failed ↦ (session', refused)
        | fault ↦ (session', undefined)
      ]
