-- ===== src/OutboundGroupSession/Encrypting.antt =====
-- The encryption of src/outbound_group_session.c.
use olm.Base.{
  ◌+◌, ◌-◌, ◌≤◌, Bytes, IsBytes, some, ◌++◌, length, take, drop, le→ltb, length-take, length-drop,
  ◌≡◌, refl, arith,
}
use olm.Base64.{encode_base64_length, encode_base64}
use olm.Crypto.External.{Primitives, PrimitiveLaws}
use olm.Crypto.{crypto_ed25519_sign}
use olm.Cipher.{mac_length, write, encrypt_ciphertext_length, encrypt}
use olm.Cipher.RoundTrip.{ciphertext_of, tag_of, ciphertext_of-IsBuffer}
use olm.Cipher.Room.{take-write_front, encrypt_in_room}
use olm.Megolm.{Megolm, megolm_get_data, megolm_advance, megolm_cipher}
use olm.Message.{encode_group_message_header, encode_group_message_result}
use olm.Message.GroupRoundTrip.{encode_group_message_result-add}
use olm.OutboundGroupSession.{
  OutboundGroupSession, raw_message_length, group_encrypt_message_length, encrypt_raw,
  group_encrypt,
}

module _ (p : Primitives) where
  unfoldable pub ratchet_ciphertext : Megolm → Bytes → Bytes
  ratchet_ciphertext ratchet plain = ciphertext_of p megolm_cipher (megolm_get_data ratchet) plain

  -- The message in front of its MAC, and in front of its signature.
  unfoldable pub authenticated_part : Megolm → Bytes → Bytes
  authenticated_part ratchet plain =
      encode_group_message_header 3 ratchet.counter (length (ratchet_ciphertext ratchet plain))
      ++ ratchet_ciphertext ratchet plain

  unfoldable pub signed_part : Megolm → Bytes → Bytes
  signed_part ratchet plain =
      authenticated_part ratchet plain
      ++ tag_of p megolm_cipher (megolm_get_data ratchet) (authenticated_part ratchet plain)

  unfoldable pub group_message : OutboundGroupSession → Bytes → Bytes
  group_message session plain =
      signed_part session.ratchet plain
      ++ crypto_ed25519_sign p session.signing_key (signed_part session.ratchet plain)

  abbrev pub next_session : OutboundGroupSession → OutboundGroupSession
  next_session session = record session { ratchet = megolm_advance p session.ratchet }

module _ (p : Primitives) where
  encrypt_raw_written :
      (session : OutboundGroupSession) (plain buffer message : Bytes)
      → encrypt p megolm_cipher
          (megolm_get_data session.ratchet)
          plain
          (take
            (encode_group_message_result 3 session.ratchet.counter
                (encrypt_ciphertext_length (length plain))
              + mac_length)
            (write buffer 0 (
              encode_group_message_header 3 session.ratchet.counter
                (encrypt_ciphertext_length (length plain)))))
          (length (
            encode_group_message_header 3 session.ratchet.counter
              (encrypt_ciphertext_length (length plain))))
          (encrypt_ciphertext_length (length plain))
        ≡ some message
      → encrypt_raw p session plain buffer ≡ (
        next_session p session,
        some (message ++ crypto_ed25519_sign p session.signing_key message),
      )
  unfolding encrypt_raw
  encrypt_raw_written session plain buffer message h = rw (h, encrypt_raw)

  group_encrypt_written :
      (session session' : OutboundGroupSession) (plain message raw : Bytes)
      → group_encrypt_message_length session (length plain) ≤ length message
      → encrypt_raw p session plain (
          take (raw_message_length session (length plain)) (
            drop
              (encode_base64_length (raw_message_length session (length plain))
                - raw_message_length session (length plain))
              message))
        ≡ (session', some raw)
      → group_encrypt p session plain message ≡ (session', some (encode_base64 raw))
  unfolding group_encrypt group_encrypt_message_length
  group_encrypt_written session session' plain message raw hm h =
      let room =
        le→ltb (length message) (encode_base64_length (raw_message_length session (length plain)))
          hm in
      rw (room, h, group_encrypt, h)

module _ (p : Primitives) (laws : PrimitiveLaws p) where
  length-ratchet_ciphertext :
      (ratchet : Megolm) (plain : Bytes)
      → IsBytes plain
      → length (ratchet_ciphertext p ratchet plain) ≡ encrypt_ciphertext_length (length plain)
  unfolding ratchet_ciphertext
  length-ratchet_ciphertext ratchet plain hp =
      (ciphertext_of-IsBuffer p laws megolm_cipher (megolm_get_data ratchet) plain hp).0

  pub encrypt_raw_lem :
      (session : OutboundGroupSession) (plain buffer : Bytes)
      → IsBytes plain
      → length buffer ≡ raw_message_length session (length plain)
      → encrypt_raw p session plain buffer
        ≡ (next_session p session, some (group_message p session plain))
  unfolding raw_message_length group_message signed_part authenticated_part ratchet_ciphertext
  encrypt_raw_lem session plain buffer hp hb =
      let n = encrypt_ciphertext_length (length plain) in
      let counter = session.ratchet.counter in
      let header = encode_group_message_header 3 counter n in
      let body = take (n + 8) (drop (length header) buffer) in
      let announced = encode_group_message_result-add 3 counter n 8 64 in
      let result : encode_group_message_result 3 counter n + 8 ≡ length header + (n + 8) =
        unfold encode_group_message_result in omega arith in
      let body_length : length body ≡ n + 8 = omega (
        arith,
        length-take (n + 8) (drop (length header) buffer),
        length-drop (length header) buffer,
        announced,
        hb,
        result,
      ) in
      encrypt_raw_written p session plain buffer _ (
        rw
          (
            result,
            take-write_front header buffer (n + 8),
            length-ratchet_ciphertext session.ratchet plain hp,
          )
          (encrypt_in_room p laws megolm_cipher (megolm_get_data session.ratchet) plain header body
            n hp refl body_length))

  -- With primitives that keep the stated laws: For a plaintext of bytes and an output buffer of at
  -- least the announced length, whatever it holds, `group_encrypt` succeeds: the ratchet advances
  -- once, and the text is the base64 form of header, ciphertext, tag and signature, computed with
  -- the ratchet and the signing key from before the call.
  pub group_encrypt_lem :
      (session : OutboundGroupSession) (plain message : Bytes)
      → IsBytes plain
      → group_encrypt_message_length session (length plain) ≤ length message
      → group_encrypt p session plain message
        ≡ (next_session p session, some (encode_base64 (group_message p session plain)))
  unfolding group_encrypt_message_length encode_base64_length
  group_encrypt_lem session plain message hp hm =
      let n = raw_message_length session (length plain) in
      group_encrypt_written p session (next_session p session) plain message _ hm (
        encrypt_raw_lem session plain _ hp (
          omega (
            arith,
            hm,
            length-take n (drop (encode_base64_length n - n) message),
            length-drop (encode_base64_length n - n) message,
          )))
