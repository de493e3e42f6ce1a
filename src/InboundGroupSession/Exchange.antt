-- ===== src/InboundGroupSession/Exchange.antt =====
-- Messages from src/outbound_group_session.c to src/inbound_group_session.c.
use olm.Base.{
  ℕ, ◌+◌, ◌-◌, ◌%◌, ◌^◌, ◌≤◌, ◌<◌, Bytes, IsByte, IsBytes, IsBuffer, true, some, ◌++◌, length,
  le→ltb, length-append, take-append, drop-append, All-append, append_assoc, ◌≡◌, refl, sym, ap,
  arith, ◌∙◌,
}
use olm.Base64.{encode_base64}
use olm.Base64.RoundTrip.{decode_base64-encode_base64}
use olm.Pickle.{KeyPair}
use olm.Crypto.External.{Primitives, PrimitiveLaws}
use olm.Crypto.{plaintext, crypto_ed25519_sign, crypto_ed25519_verify}
use olm.Cipher.{encrypt_ciphertext_length, decrypt_max_plaintext_length, decrypt}
use olm.Cipher.RoundTrip.{
  ciphertext_of, tag_of, ciphertext_of-IsBuffer, tag_of-IsBuffer, decrypt-tag_of,
}
use olm.Megolm.{Megolm, megolm_get_data, megolm_cipher}
use olm.Megolm.Advance.{advance_times}
use olm.Megolm.Ahead.{advance_times-counter}
use olm.Message.{encode_group_message_header, decode_group_message}
use olm.Message.GroupRoundTrip.{
  decoded_group_message, decode_group_message-encode_group_message,
  IsBytes-encode_group_message_header,
}
use olm.OutboundGroupSession.{OutboundGroupSession, group_encrypt_message_length, group_encrypt}
use olm.OutboundGroupSession.Encrypting.{
  ratchet_ciphertext, authenticated_part, signed_part, group_message, next_session,
  group_encrypt_lem,
}
use olm.InboundGroupSession.{InboundGroupSession}
use olm.InboundGroupSession.Ratchet.{get_megolm}
use olm.InboundGroupSession.Decryption.{
  decrypt_verified, decrypt_fields, decrypt_raw, group_decrypt,
}
use olm.InboundGroupSession.Following.{later, with_latest, Follows, get_megolm-Follows}

-- The session after a message has been decrypted.
abbrev pub verified_at : InboundGroupSession → Megolm → InboundGroupSession
verified_at session latest = record session { latest_ratchet = latest; signing_key_verified = true }

module _ (p : Primitives) (laws : PrimitiveLaws p) where
  signed_part-IsBytes :
      (m : Megolm) (plain : Bytes) → IsBytes plain → IsBytes (signed_part p m plain)
  unfolding signed_part authenticated_part ratchet_ciphertext
  signed_part-IsBytes m plain h =
      let secret = megolm_get_data m in
      let ct = ciphertext_of p megolm_cipher secret plain in
      let header = encode_group_message_header 3 m.counter (length ct) in
      All-append IsByte (header ++ ct) _
        (All-append IsByte header ct
          (IsBytes-encode_group_message_header 3 m.counter (length ct) (omega arith))
          (ciphertext_of-IsBuffer p laws megolm_cipher secret plain h).1)
        (tag_of-IsBuffer p laws megolm_cipher secret (header ++ ct)).1

  pub signature-IsBuffer :
      (key : KeyPair) (message : Bytes) → IsBuffer 64 (crypto_ed25519_sign p key message)
  unfolding crypto_ed25519_sign
  signature-IsBuffer key message = laws.ed25519_sign-IsBuffer message key.public_key key.private_key

  pub verify-sign :
      (key : KeyPair) (seed message : Bytes)
      → key ≡ p.ed25519_create_keypair seed
      → crypto_ed25519_verify p key.public_key message (crypto_ed25519_sign p key message) ≡ true
  unfolding crypto_ed25519_sign crypto_ed25519_verify
  verify-sign key seed message e = rw (e) (laws.ed25519_verify-ed25519_sign seed message)

  -- The decoder finds the ciphertext of the sender's message.
  decode_group_message-group_message :
      (m : Megolm) (plain signature : Bytes)
      → m.counter < 2 ^ 32
      → length (ratchet_ciphertext p m plain) < 2 ^ 64
      → length signature ≡ 64
      → decode_group_message (signed_part p m plain ++ signature) 8 64
        ≡ some (decoded_group_message 3 m.counter (ratchet_ciphertext p m plain))
  unfolding signed_part authenticated_part
  decode_group_message-group_message m plain signature hm hc hs =
      let ct = ratchet_ciphertext p m plain in
      let front = encode_group_message_header 3 m.counter (length ct) ++ ct in
      let tag = tag_of p megolm_cipher (megolm_get_data m) front in
      rw (append_assoc front tag signature) (
        decode_group_message-encode_group_message 3 m.counter 8 64 ct (tag ++ signature) hm hc (
          omega (
            arith,
            length-append tag signature,
            (tag_of-IsBuffer p laws megolm_cipher (megolm_get_data m) front).0,
            hs,
          )))

  decrypt_verified_opens :
      (session session1 : InboundGroupSession) (m : Megolm) (index max : ℕ)
      (signed ct plain : Bytes)
      → get_megolm p session index ≡ (session1, some m)
      → decrypt p megolm_cipher (megolm_get_data m) signed ct max ≡ plaintext plain
      → decrypt_verified p session signed index ct max
        ≡ (record session1 { signing_key_verified = true }, plaintext plain)
  unfolding decrypt_verified
  decrypt_verified_opens session session1 m index max signed ct plain hg hd =
      rw (hg, hd, decrypt_verified, hg)

  decrypt_fields_opens :
      (session session1 : InboundGroupSession) (index max : ℕ) (signed signature ct plain : Bytes)
      → length signature ≡ 64
      → crypto_ed25519_verify p session.signing_key signed signature ≡ true
      → length ct ≤ max
      → decrypt_verified p session signed index ct max ≡ (session1, plaintext plain)
      → decrypt_fields p session (signed ++ signature) index (some ct) max
        ≡ (session1, some index, plaintext plain)
  unfolding decrypt_fields decrypt_max_plaintext_length
  decrypt_fields_opens session session1 index max signed signature ct plain hs hv hm hd =
      let rest : length (signed ++ signature) - 64 ≡ length signed =
        omega (arith, length-append signed signature, hs) in
      rw (
        rest,
        take-append (length signed) signed signature refl,
        drop-append (length signed) signed signature refl,
        hv,
        le→ltb max (length ct) hm,
        hd,
      )

  group_decrypt_decoded :
      (session : InboundGroupSession) (raw : Bytes) (max : ℕ)
      → IsBytes raw
      → group_decrypt p session (encode_base64 raw) max ≡ decrypt_raw p session raw max
  unfolding group_decrypt
  group_decrypt_decoded session raw max hb = rw (decode_base64-encode_base64 raw hb, group_decrypt)

  decrypt_raw_opens :
      (session session1 : InboundGroupSession) (index max : ℕ) (raw ct plain : Bytes)
      → decode_group_message raw 8 64 ≡ some (decoded_group_message 3 index ct)
      → decrypt_fields p session raw index (some ct) max ≡ (session1, some index, plaintext plain)
      → decrypt_raw p session raw max ≡ (session1, some index, plaintext plain)
  unfolding decrypt_raw
  decrypt_raw_opens session session1 index max raw ct plain hr hd = rw (hr, hd, decrypt_raw)

  group_decrypt_opens :
      (session session1 : InboundGroupSession) (index max : ℕ) (raw ct plain : Bytes)
      → IsBytes raw
      → decode_group_message raw 8 64 ≡ some (decoded_group_message 3 index ct)
      → decrypt_fields p session raw index (some ct) max ≡ (session1, some index, plaintext plain)
      → group_decrypt p session (encode_base64 raw) max ≡ (session1, some index, plaintext plain)
  group_decrypt_opens session session1 index max raw ct plain hb hr hd =
      group_decrypt_decoded session raw max hb
      ∙ decrypt_raw_opens session session1 index max raw ct plain hr hd

  -- The ratchets agree, so the tag is right and the ciphertext opens.
  decrypt-signed_part :
      (m : Megolm) (plain : Bytes) (max : ℕ)
      → IsBytes plain
      → length (ratchet_ciphertext p m plain) ≤ max
      → decrypt p megolm_cipher
          (megolm_get_data m)
          (signed_part p m plain)
          (ratchet_ciphertext p m plain)
          max
        ≡ plaintext plain
  unfolding signed_part authenticated_part ratchet_ciphertext
  decrypt-signed_part m plain max hp hm =
      decrypt-tag_of p laws megolm_cipher (megolm_get_data m) plain _ max hp hm

  length-ratchet_ciphertext :
      (m : Megolm) (plain : Bytes)
      → IsBytes plain
      → length (ratchet_ciphertext p m plain) ≡ encrypt_ciphertext_length (length plain)
  unfolding ratchet_ciphertext
  length-ratchet_ciphertext m plain hp =
      (ciphertext_of-IsBuffer p laws megolm_cipher (megolm_get_data m) plain hp).0

  pub opens-group_message :
      (sender : OutboundGroupSession) (session : InboundGroupSession) (m : Megolm)
      → (seed plain : Bytes) (j k max : ℕ) → sender.ratchet ≡ advance_times p k m
      → k < 2 ^ 31
      → Follows p m j session
      → sender.signing_key ≡ p.ed25519_create_keypair seed
      → session.signing_key ≡ sender.signing_key.public_key
      → IsBytes plain
      → encrypt_ciphertext_length (length plain) < 2 ^ 64
      → encrypt_ciphertext_length (length plain) ≤ max
      → group_decrypt p session (encode_base64 (group_message p sender plain)) max ≡ (
        verified_at session (advance_times p (later j k) m),
        some ((m.counter + k) % 2 ^ 32),
        plaintext plain,
      )
  unfolding group_message
  opens-group_message sender session m seed plain j k max hr hk f hkey hsign hp hc hm =
      let r = sender.ratchet in
      let signed = signed_part p r plain in
      let signature = crypto_ed25519_sign p sender.signing_key signed in
      let ct = ratchet_ciphertext p r plain in
      let ct_length = length-ratchet_ciphertext r plain hp in
      let signature_bytes = signature-IsBuffer sender.signing_key signed in
      let counter : r.counter ≡ (m.counter + k) % 2 ^ 32 =
        ap (λ (x : Megolm). x.counter) hr ∙ advance_times-counter p k m f.counter_bits in
      let index = (m.counter + k) % 2 ^ 32 in
      let found : get_megolm p session index
          ≡ (with_latest session (advance_times p (later j k) m), some r) =
        get_megolm-Follows p m j k session f hk
        ∙ ap (λ (x : Megolm). (with_latest session (advance_times p (later j k) m), some x))
            (sym hr) in
      let verified : crypto_ed25519_verify p session.signing_key signed signature ≡ true =
        rw (hsign) (verify-sign sender.signing_key seed signed hkey) in
      let decoded : decode_group_message (signed ++ signature) 8 64
          ≡ some (decoded_group_message 3 index ct) =
        decode_group_message-group_message r plain signature (omega (arith, counter))
          (omega (arith, ct_length)) signature_bytes.0
        ∙ ap (λ (n : ℕ). some (decoded_group_message 3 n ct)) counter in
      group_decrypt_opens session (verified_at session (advance_times p (later j k) m)) index max
        (signed ++ signature) ct plain
        (All-append IsByte signed signature (signed_part-IsBytes r plain hp) signature_bytes.1)
        decoded
        (decrypt_fields_opens session (verified_at session (advance_times p (later j k) m)) index
          max signed signature ct plain signature_bytes.0 verified (omega (arith, ct_length))
          (decrypt_verified_opens session (with_latest session (advance_times p (later j k) m)) r
            index max signed ct plain found
            (decrypt-signed_part r plain max hp (omega (arith, ct_length)))))

  -- With primitives that keep the stated laws: Take a receiver's session that was shared at
  -- ratchet `m` and whose latest ratchet is `j` steps further (j < 2 ^ 31), and a sender whose
  -- ratchet is `k` steps from `m` (k < 2 ^ 31), before or after the receiver's, with the receiver
  -- holding the sender's public key of a generated pair. With room in both buffers, and a
  -- ciphertext shorter than 2 ^ 64, `group_encrypt` on a plaintext of bytes returns a text and
  -- advances the sender's ratchet once, and `group_decrypt` on the text returns the plaintext and
  -- the index `counter + k` modulo 2 ^ 32, marks the session verified, and leaves its latest
  -- ratchet at the later of the two.
  pub group_decrypt-group_encrypt :
      (sender : OutboundGroupSession) (session : InboundGroupSession) (m : Megolm)
      → (seed plain buffer : Bytes) (j k max : ℕ) → sender.ratchet ≡ advance_times p k m
      → k < 2 ^ 31
      → Follows p m j session
      → sender.signing_key ≡ p.ed25519_create_keypair seed
      → session.signing_key ≡ sender.signing_key.public_key
      → IsBytes plain
      → encrypt_ciphertext_length (length plain) < 2 ^ 64
      → group_encrypt_message_length sender (length plain) ≤ length buffer
      → encrypt_ciphertext_length (length plain) ≤ max
      → (text : Bytes) × (group_encrypt p sender plain buffer ≡ (next_session p sender, some text))
        × (group_decrypt p session text max ≡ (
          verified_at session (advance_times p (later j k) m),
          some ((m.counter + k) % 2 ^ 32),
          plaintext plain,
        ))
  group_decrypt-group_encrypt sender session m seed plain buffer j k max hr hk f hkey hsign hp hc hb
        hm =
      (
        encode_base64 (group_message p sender plain),
        group_encrypt_lem p laws sender plain buffer hp hb,
        opens-group_message sender session m seed plain j k max hr hk f hkey hsign hp hc hm,
      )
