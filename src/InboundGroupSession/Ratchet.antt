-- ===== src/InboundGroupSession/Ratchet.antt =====
-- The ratchet at a message index, and the exported session, in src/inbound_group_session.c.
use olm.Base.{ℕ, ◌+◌, ◌-◌, ◌%◌, ◌^◌, Bytes, Option, none, some, ◌∷◌, ◌++◌, take, ltb, if◌then◌else◌}
use olm.Error.{output_buffer_too_small, unknown_message_index}
use olm.Base64.{encode_base64_length, encode_base64}
use olm.Pickle.{ed25519_public_key_length}
use olm.Crypto.External.{Primitives}
use olm.Megolm.{Megolm, megolm_ratchet_length, megolm_get_data, megolm_advance_to}
use olm.OutboundGroupSession.{encode_counter}
use olm.InboundGroupSession.{
  InboundGroupSession, inbound_fail, session_export_version, session_export_raw_length,
}

unfoldable pub export_inbound_group_session_length : ℕ
export_inbound_group_session_length = encode_base64_length session_export_raw_length

-- `a - b` on 32 bits.
abbrev pub counter_minus : ℕ → ℕ → ℕ
counter_minus a b = (a + 2 ^ 32 - b) % 2 ^ 32

-- The exported form of the session at a message index.
unfoldable pub export_body : Megolm → ℕ → Bytes → Bytes
export_body megolm message_index signing_key =
    session_export_version
    ∷ (encode_counter 4 message_index
        ++ (take megolm_ratchet_length (megolm_get_data megolm)
            ++ take ed25519_public_key_length signing_key))

module _ (p : Primitives) where
  -- `_get_megolm`: the ratchet at the index, `none` for an index that is out of reach.
  unfoldable pub get_megolm : InboundGroupSession → ℕ → InboundGroupSession × Option Megolm
  get_megolm session message_index =
      if ltb (counter_minus message_index session.latest_ratchet.counter) (2 ^ 31)
      then (let latest_ratchet = megolm_advance_to p session.latest_ratchet message_index in
          (record session { latest_ratchet = latest_ratchet }, some latest_ratchet))
      else if ltb (counter_minus message_index session.initial_ratchet.counter) (2 ^ 31)
      then (session, some (megolm_advance_to p session.initial_ratchet message_index))
      else (inbound_fail session unknown_message_index, none)

  unfoldable pub export_inbound_group_session :
      InboundGroupSession → ℕ → ℕ → InboundGroupSession × Option Bytes
  export_inbound_group_session session key_length message_index =
      if ltb key_length export_inbound_group_session_length
      then (inbound_fail session output_buffer_too_small, none)
      else (let (session1, megolm) = get_megolm session message_index in
          elim megolm [
            | none ↦ (session1, none)
            | some megolm ↦ (
              session1,
              some (encode_base64 (export_body megolm message_index session.signing_key)),
            )
          ])
