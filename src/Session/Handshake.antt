-- ===== src/Session/Handshake.antt =====
-- The first message of a session of src/session.cpp, and the session that it starts at the other
-- side.
use olm.Base.{
  ℕ, ◌-◌, ◌^◌, ◌≤◌, ◌<◌, Bytes, true, Option, some, drop, length, replicate, length-take,
  length-drop, ◌≡◌, refl, arith, ◌∙◌, inl,
}
use olm.Crypto.External.{Primitives, PrimitiveLaws}
use olm.Crypto.{plaintext, curve25519_generate_key, crypto_ed25519_verify}
use olm.Ratchet.{Ratchet, SenderChain, new_ratchet, initialise_as_alice, initialise_as_bob}
use olm.Ratchet.Encrypting.{message, encrypt_output_length}
use olm.Ratchet.Decryption.{ratchet_decrypt}
use olm.Ratchet.Messages.{
  length-chain_message, length-chain_ciphertext, sent, chain_message, chain_ciphertext,
}
use olm.Ratchet.Receiving.{decode_chain_message, ratchet_decrypt-chain_message}
use olm.Ratchet.Turns.{
  InStep, following_chain, length-leader_key, sends_continued, random_continued, find_following,
  InStep_continued,
}
use olm.Ratchet.Conversation.{InContact, initialise-InStep}
use olm.Ratchet.Late.{IsReadable}
use olm.Ratchet.Chains.{chain_at}
use olm.Ratchet.Sending.{ratchet_encrypt_lem, encrypt_output_length-sending_chain}
use olm.Ratchet.Delivery.{passed, decrypt_received_delivered}
use olm.Account.{Account}
use olm.Session.{
  Session, prekey_message, new_session, encrypt_message_length, message_body, session_encrypt,
  session_decrypt, olm_kdf_info, olm_cipher,
}
use olm.Session.Starting.{
  started, agrees, inner_ratchet_key, new_outbound_session, new_inbound_session,
}
use olm.Session.PreKeyText.{
  Keys, AreKeys, with_keys, prekey_text, body_buffer, decode_prekey_text,
  new_inbound_session-prekey_text, session_encrypt-prekey, length-body_buffer,
}
use olm.Session.Meeting.{
  Meeting, keys_of, secret_of, first_ratchet_of, new_outbound_session_lem, answer_keys_lem,
  keys_of-AreKeys,
}

module _ (p : Primitives) (laws : PrimitiveLaws p) where
  session_decrypt-prekey_text :
      (base : Session) (keys : Keys) (before after : Ratchet) (body : Bytes) (max : ℕ)
      (plain : Bytes)
      → AreKeys keys
      → length body < 2 ^ 64
      → ratchet_decrypt p before body max true ≡ (after, plaintext plain)
      → session_decrypt p
          (with_keys base keys before)
          prekey_message
          (prekey_text keys body)
          max
          true
        ≡ (record (with_keys base keys after) { received_message = true }, plaintext plain)
  unfolding session_decrypt message_body
  session_decrypt-prekey_text base keys before after body max plain k h reads =
      rw (decode_prekey_text keys body k h, session_decrypt, reads, reads) refl

  inner_ratchet_key-chain_message :
      (cipher : Bytes) (sender : SenderChain) (plain : Bytes)
      → sender.chain_key.index < 2 ^ 32
      → length sender.ratchet_key.public_key ≡ 32
      → length (chain_ciphertext p cipher sender plain) < 2 ^ 64
      → inner_ratchet_key (some (chain_message p cipher sender plain))
        ≡ some sender.ratchet_key.public_key
  unfolding inner_ratchet_key
  inner_ratchet_key-chain_message cipher sender plain hi hk hc =
      rw (decode_chain_message p laws cipher sender plain hi hk hc, inner_ratchet_key, hk) refl

  -- What a started session and its first message come to at both sides.
  abbrev pub IsOpened :
      (keys : Keys) (bob : Account) (their_identity_key : Option Bytes) (alice1 : Ratchet)
      (plain random output : Bytes) (max : ℕ)
      → Type 0
  IsOpened keys bob their_identity_key alice1 plain random output max =
      (text : Bytes) × (alice2 : Ratchet) × (bob1 : Ratchet) × (bob2 : Ratchet) × (session_encrypt p
          (with_keys new_session keys alice1) plain random output
        ≡ (with_keys new_session keys alice2, message text))
      × (new_inbound_session p new_session bob their_identity_key text
          ≡ (with_keys new_session keys bob1, started))
      × (session_decrypt p (with_keys new_session keys bob1) prekey_message text max true
          ≡ (record (with_keys new_session keys bob2) { received_message = true }, plaintext plain))
      × InContact p alice2 bob2

  -- With primitives that keep the stated laws: Take two accounts whose identity keys are generated
  -- from secrets, the second with a one-time key and a pre-key, generated and different, which its
  -- look-ups find. With at least 64 random bytes and a pre-key whose signature verifies,
  -- `new_outbound_session` starts a session with these keys and a first sender chain. For a
  -- plaintext of bytes whose ciphertext is shorter than 2 ^ 64 and fits in the receiver's buffer,
  -- and an output buffer of at least the announced length and below 2 ^ 64 bytes,
  -- `session_encrypt` writes a pre-key message; `new_inbound_session` on it, where no identity key
  -- or the first account's is given, starts the session at the other side with the same keys, and
  -- `session_decrypt` there returns the plaintext, notes that a message came, and leaves both
  -- ratchets in step.
  pub session_first_message :
      (alice bob : Account) (m : Meeting p alice bob) (their_identity_key : Option Bytes)
      (signing_key signature random plain random' output : Bytes) (max : ℕ)
      → 64 ≤ length random
      → crypto_ed25519_verify p signing_key m.prekey.key.public_key signature ≡ true
      → agrees their_identity_key (some alice.identity_keys.curve25519_key.public_key) ≡ true
      → IsReadable plain max
      → encrypt_message_length
          (with_keys new_session
            (keys_of p alice bob m random)
            (first_ratchet_of p alice bob m random))
          (length plain)
        ≤ length output
      → length output < 2 ^ 64
      → (new_outbound_session p new_session alice bob.identity_keys.curve25519_key.public_key
            signing_key m.prekey.key.public_key signature random
            (some m.one_time_key.key.public_key)
          ≡ (
            with_keys new_session
                (keys_of p alice bob m random)
                (first_ratchet_of p alice bob m random),
            started,
          ))
        × IsOpened
            (keys_of p alice bob m random)
            bob
            their_identity_key
            (first_ratchet_of p alice bob m random)
            plain
            random'
            output
            max
  unfolding new_session initialise-InStep initialise_as_alice initialise_as_bob new_ratchet chain_at
  session_first_message alice bob m their signing_key signature random plain random' output max room
        valid same (hp, hc, hm) fits small =
      let keys = keys_of p alice bob m random in
      let leader = first_ratchet_of p alice bob m random in
      let shared = secret_of p alice bob m random in
      let secret = drop 32 random in
      let follower =
        initialise_as_bob p new_session.ratchet shared
          (curve25519_generate_key p secret).public_key in
      let s : InStep p leader follower =
        initialise-InStep p olm_kdf_info olm_cipher shared secret (replicate 32 0)
          (replicate 32 0) in
      let sender = s.sender in
      let body = chain_message p olm_cipher sender plain in
      let k = keys_of-AreKeys p laws alice bob m random in
      let buffer = length-body_buffer new_session keys leader (length plain) output fits in
      let pk = length-leader_key p laws leader follower s in
      let writes =
        ratchet_encrypt_lem p laws leader leader sender plain random'
          (body_buffer (with_keys new_session keys leader) (length plain) output)
          (sends_continued p laws leader follower random' s) pk hp
          (omega (arith, random_continued p laws leader follower s)) buffer in
      let body_size : length body < 2 ^ 64 = omega (
        arith,
        length-chain_message p laws olm_cipher sender plain hp pk,
        encrypt_output_length-sending_chain p laws leader leader sender random' (length plain)
            (sends_continued p laws leader follower random' s),
        buffer,
        length-take (encrypt_output_length leader (length plain)) (
            drop
              (encrypt_message_length (with_keys new_session keys leader) (length plain)
                - encrypt_output_length leader (length plain))
              output),
        length-drop
            (encrypt_message_length (with_keys new_session keys leader) (length plain)
              - encrypt_output_length leader (length plain))
            output,
        small,
      ) in
      let inner =
        inner_ratchet_key-chain_message olm_cipher sender plain (omega arith) pk
          (omega (arith, length-chain_ciphertext p laws olm_cipher sender plain hp, hc)) in
      let reads =
        ratchet_decrypt-chain_message p laws follower olm_cipher sender plain max true (omega arith)
          pk hp hc hm
        ∙ decrypt_received_delivered p laws follower sender 0 0 (following_chain sender) plain max
            true (find_following p laws leader follower s) refl (omega arith) (omega arith) refl hp
            hm in
      (
        new_outbound_session_lem p alice bob m signing_key signature random room valid,
        (
          prekey_text keys body,
          sent p leader sender,
          follower,
          passed p follower 0 (following_chain sender) 0,
          session_encrypt-prekey p new_session keys leader (sent p leader sender) plain random'
              output body fits writes,
          new_inbound_session-prekey_text p new_session bob their keys body
                sender.ratchet_key.public_key k body_size same inner
              ∙ answer_keys_lem p laws alice bob m random sender.ratchet_key.public_key,
          session_decrypt-prekey_text new_session keys follower _ body max plain k body_size reads,
          inl (InStep_continued p laws leader follower s),
        ),
      )
