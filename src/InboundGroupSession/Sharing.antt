-- ===== src/InboundGroupSession/Sharing.antt =====
-- Session keys of src/outbound_group_session.c, and exported sessions, as the start of a session
-- of src/inbound_group_session.c.
use olm.Base.{
  ℕ, ◌+◌, ◌%◌, ◌^◌, ◌≤◌, ◌<◌, Bytes, IsBuffer, true, false, some, [], le→ltb, take_all, append-nil,
  ◌≡◌, refl, sym, ap, arith, ◌∙◌,
}
use olm.Base64.{encode_base64}
use olm.Crypto.External.{Primitives, PrimitiveLaws}
use olm.Crypto.{crypto_ed25519_sign}
use olm.Megolm.{Megolm, megolm_get_data}
use olm.Megolm.Advance.{advance_times}
use olm.Megolm.Ahead.{advance_times-counter}
use olm.Megolm.Pickling.{IsMegolm, megolm_get_data-IsBuffer}
use olm.Megolm.Shape.{advance_times-IsMegolm}
use olm.OutboundGroupSession.{
  OutboundGroupSession, session_key_body, outbound_group_session_key,
  outbound_group_session_key_length,
}
use olm.InboundGroupSession.{
  InboundGroupSession, init_group_session_keys, init_inbound_group_session,
  import_inbound_group_session,
}
use olm.InboundGroupSession.Ratchet.{
  get_megolm, export_body, export_inbound_group_session, export_inbound_group_session_length,
}
use olm.InboundGroupSession.KeyBuffer.{
  key_buffer, key_buffer-append, key_buffer-IsBuffer, key_buffer-first, shared_at,
  store_session_key-key_buffer, init_group_session_keys-signed, init_from_text-key_buffer,
}
use olm.InboundGroupSession.Exchange.{verify-sign, signature-IsBuffer}
use olm.InboundGroupSession.Following.{later, with_latest, Follows, get_megolm-Follows}

session_key_body-eq-key_buffer :
    (sender : OutboundGroupSession)
    → IsMegolm sender.ratchet
    → IsBuffer 32 sender.signing_key.public_key
    → session_key_body sender ≡ key_buffer 2 sender.ratchet sender.signing_key.public_key []
unfolding session_key_body key_buffer
session_key_body-eq-key_buffer sender h hk =
    let data_length = (megolm_get_data-IsBuffer sender.ratchet h).0 in
    rw (
      take_all 128 (megolm_get_data sender.ratchet) (omega (arith, data_length)),
      take_all 32 sender.signing_key.public_key (omega (arith, hk.0)),
      append-nil,
    )

-- A session that the receiver holds after `_init_group_session_keys` has verified the key.
abbrev pub verified_shared_at : InboundGroupSession → Megolm → Bytes → InboundGroupSession
verified_shared_at session m signing_key = record (shared_at session m signing_key) {
  signing_key_verified = true;
}

module _ (p : Primitives) (laws : PrimitiveLaws p) where
  outbound_group_session_key_text :
      (sender : OutboundGroupSession) (key_length : ℕ)
      → IsMegolm sender.ratchet
      → IsBuffer 32 sender.signing_key.public_key
      → outbound_group_session_key_length ≤ key_length
      → outbound_group_session_key p sender key_length ≡ (
        sender,
        some (
            encode_base64 (
              key_buffer 2 sender.ratchet sender.signing_key.public_key (
                crypto_ed25519_sign p sender.signing_key
                  (key_buffer 2 sender.ratchet sender.signing_key.public_key [])))),
      )
  unfolding outbound_group_session_key
  outbound_group_session_key_text sender key_length h hk hl = rw (
    le→ltb key_length outbound_group_session_key_length hl,
    session_key_body-eq-key_buffer sender h hk,
    key_buffer-append,
  )

  -- With primitives that keep the stated laws: For a sender with a ratchet of the C type's shape
  -- and a signing key pair generated from a seed, and a key buffer that is long enough,
  -- `outbound_group_session_key` returns a text and leaves the sender alone, and
  -- `init_inbound_group_session` on the text succeeds from any session: both ratchets are the
  -- sender's, the signing key is the sender's public key, the session is verified, and the last
  -- error is kept.
  pub init_inbound_group_session-outbound_group_session_key :
      (sender : OutboundGroupSession) (session : InboundGroupSession) (seed : Bytes)
      (key_length : ℕ)
      → IsMegolm sender.ratchet
      → sender.signing_key ≡ p.ed25519_create_keypair seed
      → outbound_group_session_key_length ≤ key_length
      → (text : Bytes) × (outbound_group_session_key p sender key_length ≡ (sender, some text))
        × (init_inbound_group_session p session text
            ≡ (verified_shared_at session sender.ratchet sender.signing_key.public_key, some 0))
  unfolding init_inbound_group_session
  init_inbound_group_session-outbound_group_session_key sender session seed key_length h hkey hl =
      let m = sender.ratchet in
      let pk = sender.signing_key.public_key in
      let hk : IsBuffer 32 pk = rw hkey (laws.public_key-IsBuffer seed) in
      let body = key_buffer 2 m pk [] in
      let signature = crypto_ed25519_sign p sender.signing_key body in
      let hs = signature-IsBuffer p laws sender.signing_key body in
      let whole = key_buffer-IsBuffer 2 m pk signature 64 (omega arith) h hk hs in
      (
        encode_base64 (key_buffer 2 m pk signature),
        outbound_group_session_key_text sender key_length h hk hl,
        init_from_text-key_buffer p session (key_buffer 2 m pk signature) 229 false whole
            ∙ init_group_session_keys-signed p session m pk signature h hk hs.0
                (verify-sign p laws sender.signing_key seed body hkey),
      )

  export_body-eq-key_buffer :
      (m : Megolm) (signing_key : Bytes)
      → IsMegolm m
      → IsBuffer 32 signing_key
      → export_body m m.counter signing_key ≡ key_buffer 1 m signing_key []
  unfolding export_body key_buffer
  export_body-eq-key_buffer m signing_key h hk =
      let data_length = (megolm_get_data-IsBuffer m h).0 in
      rw (
        take_all 128 (megolm_get_data m) (omega (arith, data_length)),
        take_all 32 signing_key (omega (arith, hk.0)),
        append-nil,
      )

  init_group_session_keys-exported :
      (session : InboundGroupSession) (m : Megolm) (signing_key : Bytes)
      → IsMegolm m
      → IsBuffer 32 signing_key
      → init_group_session_keys p session (key_buffer 1 m signing_key []) true
        ≡ (shared_at session m signing_key, some 0)
  unfolding init_group_session_keys
  init_group_session_keys-exported session m signing_key h hk = rw (
    store_session_key-key_buffer session 1 m signing_key [] h hk.0,
    key_buffer-first 1 m signing_key [],
  )

  export_inbound_group_session_found :
      (session session1 : InboundGroupSession) (m : Megolm) (key_length index : ℕ)
      → export_inbound_group_session_length ≤ key_length
      → get_megolm p session index ≡ (session1, some m)
      → export_inbound_group_session p session key_length index
        ≡ (session1, some (encode_base64 (export_body m index session.signing_key)))
  unfolding export_inbound_group_session
  export_inbound_group_session_found session session1 m key_length index hl h =
      rw (
        le→ltb key_length export_inbound_group_session_length hl,
        h,
        export_inbound_group_session,
        h,
      )

  -- With primitives that keep the stated laws: Take a session shared at a ratchet `m` of the C
  -- type's shape, its latest ratchet `j` < 2 ^ 31 steps further, with a signing key of 32 bytes,
  -- an index `k` < 2 ^ 31 steps after `m`, and a key buffer that is long enough.
  -- `export_inbound_group_session` returns a text and at most moves the latest ratchet on to that
  -- index; `import_inbound_group_session` on the text succeeds from any other session, whose two
  -- ratchets become `m` advanced `k` times and whose signing key becomes the same, while its
  -- verified flag and last error are kept.
  pub import_inbound_group_session-export_inbound_group_session :
      (session other : InboundGroupSession) (m : Megolm) (j k key_length : ℕ)
      → IsMegolm m
      → Follows p m j session
      → k < 2 ^ 31
      → IsBuffer 32 session.signing_key
      → export_inbound_group_session_length ≤ key_length
      → (text : Bytes) × (export_inbound_group_session p session key_length
            ((m.counter + k) % 2 ^ 32)
          ≡ (with_latest session (advance_times p (later j k) m), some text))
        × (import_inbound_group_session p other text
            ≡ (shared_at other (advance_times p k m) session.signing_key, some 0))
  unfolding import_inbound_group_session
  import_inbound_group_session-export_inbound_group_session session other m j k key_length h f hk
        hsign hl =
      let r = advance_times p k m in
      let hr = advance_times-IsMegolm p laws k m h in
      let buffer = key_buffer 1 r session.signing_key [] in
      let same : export_body r ((m.counter + k) % 2 ^ 32) session.signing_key ≡ buffer =
        ap (λ (n : ℕ). export_body r n session.signing_key)
          (sym (advance_times-counter p k m f.counter_bits))
        ∙ export_body-eq-key_buffer r session.signing_key hr hsign in
      (
        encode_base64 buffer,
        export_inbound_group_session_found session _ r key_length _ hl
              (get_megolm-Follows p m j k session f hk)
            ∙ ap
                (λ (b : Bytes).
                  (with_latest session (advance_times p (later j k) m), some (encode_base64 b)))
                same,
        init_from_text-key_buffer p other buffer 165 true
              (key_buffer-IsBuffer 1 r session.signing_key [] 0 (omega arith) hr hsign (refl, tt))
            ∙ init_group_session_keys-exported other r session.signing_key hr hsign,
      )
