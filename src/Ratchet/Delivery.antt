-- ===== src/Ratchet/Delivery.antt =====
-- The delivery of a message on a chain that the receiver of src/ratchet.cpp has.
use olm.Base.{
  ℕ, ◌+◌, ◌-◌, ◌^◌, ◌≤◌, ◌<◌, Bytes, IsBytes, Bool, false, some, length, ltb, le→ltb, ◌≡◌, refl, ap,
  arith, ◌∙◌, sym, ◌&&◌,
}
use olm.BoundedList.{set_elem}
use olm.Crypto.External.{Primitives, PrimitiveLaws}
use olm.Crypto.{plaintext}
use olm.Error.{ErrorCode}
use olm.Cipher.{encrypt_ciphertext_length}
use olm.Ratchet.{
  Ratchet, SenderChain, ReceiverChain, Received, ChainKey, advance_chain_key,
  verify_mac_and_decrypt_for_existing_chain,
}
use olm.Ratchet.Encrypting.{message, encrypt_output_length, encrypt_random_length, ratchet_encrypt}
use olm.Ratchet.Decryption.{
  find_chain, pass_message, decrypt_on_chain, decrypt_received, ratchet_decrypt,
}
use olm.Ratchet.Chains.{chain_at, skipped_after, index-chain_at, store_skipped-chain_at}
use olm.Ratchet.Messages.{chain_message, sent}
use olm.Ratchet.Sending.{sending_chain, ratchet_encrypt_lem}
use olm.Ratchet.Receiving.{received_of, ratchet_decrypt-chain_message, existing_chain_own}

module _ (p : Primitives) where
  -- The receiver chain behind a message that was `gap` steps ahead of it.
  abbrev pub moved_chain : ℕ → ReceiverChain → ReceiverChain
  moved_chain gap chain = record chain {
    chain_key = advance_chain_key p (chain_at p gap chain.chain_key);
  }

  -- The receiver after such a message: the chain is behind it, and the keys in between are kept.
  unfoldable pub passed : Ratchet → ℕ → ReceiverChain → ℕ → Ratchet
  passed session position chain gap = record session {
    receiver_chains = set_elem session.receiver_chains position (moved_chain gap chain);
    skipped_message_keys =
        skipped_after p gap chain.ratchet_key chain.chain_key session.skipped_message_keys;
  }

  pub pass_message-passed :
      (session : Ratchet) (position : ℕ) (chain : ReceiverChain) (gap counter : ℕ)
      → counter ≡ chain.chain_key.index + gap
      → counter < 2 ^ 32
      → pass_message p session position chain counter ≡ passed session position chain gap
  unfolding pass_message passed
  pass_message-passed session position chain gap counter h k =
      let rounds : counter - chain.chain_key.index ≡ gap = omega arith in
      rw
        (
          rounds,
          store_skipped-chain_at p gap counter chain.ratchet_key chain.chain_key
              session.skipped_message_keys (sym h) k,
        )
        refl

  decrypt_on_chain_opened :
      (session : Ratchet) (position : ℕ) (chain : ReceiverChain) (reader : Received) (max : ℕ)
      (error : ErrorCode) (plain : Bytes)
      → verify_mac_and_decrypt_for_existing_chain p session chain.chain_key reader max
        ≡ (error, plaintext plain)
      → decrypt_on_chain p session position chain reader max
        ≡ (pass_message p session position chain reader.counter, plaintext plain)
  unfolding decrypt_on_chain
  decrypt_on_chain_opened session position chain reader max error plain h =
      rw (h, decrypt_on_chain) refl

  pub decrypt_received_found :
      (session : Ratchet) (reader : Received) (max position : ℕ) (sequential : Bool)
      (chain : ReceiverChain)
      → find_chain reader.ratchet_key 0 session.receiver_chains ≡ some (position, chain)
      → chain.chain_key.index ≤ reader.counter
      → (sequential && ltb chain.chain_key.index reader.counter) ≡ false
      → decrypt_received p session reader max sequential
        ≡ decrypt_on_chain p session position chain reader max
  unfolding decrypt_received
  decrypt_received_found session reader max position sequential chain h k s =
      rw (h, decrypt_received, s, le→ltb reader.counter chain.chain_key.index k) refl

module _ (p : Primitives) (laws : PrimitiveLaws p) where
  pub decrypt_received_delivered :
      (session : Ratchet) (sender : SenderChain) (position gap : ℕ) (chain : ReceiverChain)
      (plain : Bytes) (max : ℕ) (sequential : Bool)
      → find_chain sender.ratchet_key.public_key 0 session.receiver_chains ≡ some (position, chain)
      → sender.chain_key ≡ chain_at p gap chain.chain_key
      → gap ≤ 2000
      → chain.chain_key.index + gap < 2 ^ 32
      → (sequential && ltb 0 gap) ≡ false
      → IsBytes plain
      → encrypt_ciphertext_length (length plain) ≤ max
      → decrypt_received p session
          (received_of p session.ratchet_cipher sender plain)
          max
          sequential
        ≡ (passed p session position chain gap, plaintext plain)
  decrypt_received_delivered session sender position gap chain plain max sequential found hs hg hi
        order hp hm =
      let at : sender.chain_key.index ≡ chain.chain_key.index + gap =
        ap (λ (c : ChainKey). c.index) hs ∙ index-chain_at p gap chain.chain_key hi in
      let ahead : ltb chain.chain_key.index sender.chain_key.index ≡ ltb 0 gap =
        rw at (ground arith) in
      decrypt_received_found p session (received_of p session.ratchet_cipher sender plain) max
        position sequential chain found (omega (arith, at)) (rw ahead order)
      ∙ decrypt_on_chain_opened p session position chain _ max session.last_error plain
          (existing_chain_own p laws session chain.chain_key sender gap plain max hs hg hi hp hm)
      ∙ ap (λ (s : Ratchet). (s, plaintext plain))
          (pass_message-passed p session position chain gap sender.chain_key.index at
            (omega (arith, at)))

  -- With primitives that keep the stated laws: Take a sender with a chain to send on, or one to
  -- start, and a receiver that has this chain, `gap` <= 2000 steps behind, whose counter does not
  -- reach 2 ^ 32, with the same cipher; `gap` is 0 where order is demanded. With as many random
  -- bytes and as much output as announced, a public key of 32 bytes, and a plaintext of bytes
  -- whose ciphertext is shorter than 2 ^ 64 and fits in the receiver's buffer, `ratchet_encrypt`
  -- returns a text and moves its chain on once; `ratchet_decrypt` on it returns the plaintext,
  -- moves its chain behind the message and stores the keys that it skipped.
  pub ratchet_decrypt-ratchet_encrypt :
      (alice alice' bob : Ratchet) (sender : SenderChain) (position gap : ℕ) (chain : ReceiverChain)
      (plain random output : Bytes) (max : ℕ) (sequential : Bool)
      → sending_chain p alice random ≡ some (alice', sender)
      → length sender.ratchet_key.public_key ≡ 32
      → encrypt_random_length alice ≤ length random
      → encrypt_output_length alice (length plain) ≤ length output
      → alice'.ratchet_cipher ≡ bob.ratchet_cipher
      → find_chain sender.ratchet_key.public_key 0 bob.receiver_chains ≡ some (position, chain)
      → sender.chain_key ≡ chain_at p gap chain.chain_key
      → gap ≤ 2000
      → chain.chain_key.index + gap < 2 ^ 32
      → (sequential && ltb 0 gap) ≡ false
      → IsBytes plain
      → encrypt_ciphertext_length (length plain) < 2 ^ 64
      → encrypt_ciphertext_length (length plain) ≤ max
      → (text : Bytes) × (ratchet_encrypt p alice plain random output
          ≡ (sent p alice' sender, message text))
        × (ratchet_decrypt p bob text max sequential
            ≡ (passed p bob position chain gap, plaintext plain))
  ratchet_decrypt-ratchet_encrypt alice alice' bob sender position gap chain plain random output max
        sequential sends hk hr ho cipher found hs hg hi order hp hc hm =
      let at : sender.chain_key.index ≡ chain.chain_key.index + gap =
        ap (λ (c : ChainKey). c.index) hs ∙ index-chain_at p gap chain.chain_key hi in
      (
        chain_message p alice'.ratchet_cipher sender plain,
        ratchet_encrypt_lem p laws alice alice' sender plain random output sends hk hp hr ho,
        rw cipher (
            ratchet_decrypt-chain_message p laws bob bob.ratchet_cipher sender plain max sequential
              (omega (arith, at)) hk hp hc hm
            ∙ decrypt_received_delivered bob sender position gap chain plain max sequential found hs
                hg hi order hp hm),
      )
