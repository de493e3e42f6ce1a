-- ===== src/Ratchet/Late.antt =====
-- Messages that reach `decrypt` of src/ratchet.cpp late, or twice.
use olm.Base.{
  ℕ, ◌+◌, ◌-◌, ◌^◌, ◌≤◌, ◌<◌, Bytes, IsBytes, Bool, false, some, length, ◌≡◌, refl, ap, arith, ◌∙◌,
  sym,
}
use olm.Error.{already_decrypted_or_keys_skipped}
use olm.BoundedList.{erase_at}
use olm.Crypto.External.{Primitives, PrimitiveLaws}
use olm.Crypto.{plaintext, failed}
use olm.Cipher.{encrypt_ciphertext_length}
use olm.Ratchet.{
  Ratchet, ReceiverChain, SenderChain, Received, ChainKey, create_message_keys,
  verify_mac_and_decrypt,
}
use olm.Ratchet.Decryption.{
  find_chain, try_skipped, failed_with, decrypt_skipped, decrypt_received, ratchet_decrypt,
}
use olm.Ratchet.Chains.{chain_at, skipped_after, index-chain_at, index-advance_chain_key}
use olm.Ratchet.Messages.{chain_message}
use olm.Ratchet.Receiving.{received_of, ratchet_decrypt-chain_message, verify_mac_and_decrypt_own}
use olm.Ratchet.Delivery.{passed, moved_chain, decrypt_received_delivered}
use olm.Ratchet.Skipped.{
  find_chain-matches, find_chain-set_elem, try_skipped-skipped_after, skipped_after_bounded,
}
use olm.Ratchet.Past.{IsPast, skipped_after-IsPast, try_skipped-IsPast}

-- A plaintext of bytes whose ciphertext fits the message format and the output buffer.
abbrev pub IsReadable : Bytes → ℕ → Type 0
IsReadable plain max =
    IsBytes plain
    × (encrypt_ciphertext_length (length plain) < 2 ^ 64)
    × (encrypt_ciphertext_length (length plain) ≤ max)

abbrev pub forget_skipped : Ratchet → ℕ → Ratchet
forget_skipped session position = record session {
  skipped_message_keys = erase_at position session.skipped_message_keys;
}

module _ (p : Primitives) where
  decrypt_received_behind :
      (session : Ratchet) (reader : Received) (max position : ℕ) (sequential : Bool)
      (chain : ReceiverChain)
      → find_chain reader.ratchet_key 0 session.receiver_chains ≡ some (position, chain)
      → reader.counter < chain.chain_key.index
      → decrypt_received p session reader max sequential ≡ decrypt_skipped p session reader max
  unfolding decrypt_received
  decrypt_received_behind session reader max position sequential chain h k = ground (arith, h)

  decrypt_skipped_hit :
      (session : Ratchet) (reader : Received) (max position : ℕ) (plain : Bytes)
      → try_skipped p session.ratchet_cipher reader max 0 session.skipped_message_keys
        ≡ (position, plaintext plain)
      → decrypt_skipped p session reader max ≡ (forget_skipped session position, plaintext plain)
  unfolding decrypt_skipped
  decrypt_skipped_hit session reader max position plain h = rw (h, decrypt_skipped, h) refl

  decrypt_skipped_missing :
      (session : Ratchet) (reader : Received) (max : ℕ)
      → (try_skipped p session.ratchet_cipher reader max 0 session.skipped_message_keys).1 ≡ failed
      → decrypt_skipped p session reader max
        ≡ (failed_with session already_decrypted_or_keys_skipped, failed)
  unfolding decrypt_skipped
  decrypt_skipped_missing session reader max h = rw (h, decrypt_skipped) refl

  -- After a message the chain is found behind it.
  find_chain-passed :
      (session : Ratchet) (ratchet_key : Bytes) (position gap : ℕ) (chain : ReceiverChain)
      → find_chain ratchet_key 0 session.receiver_chains ≡ some (position, chain)
      → find_chain ratchet_key 0 (passed p session position chain gap).receiver_chains
        ≡ some (position, moved_chain p gap chain)
  unfolding passed
  find_chain-passed session ratchet_key position gap chain h =
      find_chain-set_elem ratchet_key 0 position position session.receiver_chains chain
        (moved_chain p gap chain) h (omega arith) refl

  pub index-moved_chain :
      (gap : ℕ) (chain : ReceiverChain)
      → chain.chain_key.index + gap + 1 < 2 ^ 32
      → (moved_chain p gap chain).chain_key.index ≡ chain.chain_key.index + gap + 1
  index-moved_chain gap chain h =
      let e = index-chain_at p gap chain.chain_key (omega arith) in
      omega
        (arith, e, index-advance_chain_key p (chain_at p gap chain.chain_key) (omega (arith, e)))

module _ (p : Primitives) (laws : PrimitiveLaws p) where
  pub decrypt_received_late :
      (session : Ratchet) (sender : SenderChain) (position gap j : ℕ) (chain : ReceiverChain)
      (plain : Bytes) (max : ℕ) (sequential : Bool)
      → find_chain sender.ratchet_key.public_key 0 session.receiver_chains ≡ some (position, chain)
      → sender.chain_key ≡ chain_at p j chain.chain_key
      → j < gap
      → gap ≤ j + 40
      → chain.chain_key.index + gap + 1 < 2 ^ 32
      → IsBytes plain
      → encrypt_ciphertext_length (length plain) ≤ max
      → decrypt_received p
          (passed p session position chain gap)
          (received_of p session.ratchet_cipher sender plain)
          max
          sequential
        ≡ (forget_skipped (passed p session position chain gap) (gap - 1 - j), plaintext plain)
  decrypt_received_late session sender position gap j chain plain max sequential found hs hj room
        bits hp hm =
      let reader = received_of p session.ratchet_cipher sender plain in
      let counter : sender.chain_key.index ≡ chain.chain_key.index + j =
        ap (λ (c : ChainKey). c.index) hs ∙ index-chain_at p j chain.chain_key (omega arith) in
      let ahead = index-moved_chain p gap chain bits in
      let opens : verify_mac_and_decrypt p session.ratchet_cipher
            (create_message_keys p (chain_at p j chain.chain_key)) reader max
          ≡ plaintext plain =
        rw (← hs)
          (verify_mac_and_decrypt_own p laws session.ratchet_cipher sender plain max hp hm) in
      let hit : try_skipped p session.ratchet_cipher reader max 0
            (passed p session position chain gap).skipped_message_keys
          ≡ (gap - 1 - j, plaintext plain) =
        unfold passed in
        ap (try_skipped p session.ratchet_cipher reader max 0) (
          sym (
            skipped_after_bounded p gap chain.ratchet_key chain.chain_key
              session.skipped_message_keys (omega arith)))
        ∙ try_skipped-skipped_after p gap j 40 0 max session.ratchet_cipher reader chain.ratchet_key
            chain.chain_key session.skipped_message_keys plain hj room (omega arith) (omega arith)
            counter
            (find_chain-matches sender.ratchet_key.public_key 0 position session.receiver_chains
              chain found)
            opens
        ∙ ap (λ (i : ℕ). (i, plaintext plain)) (omega arith) in
      decrypt_received_behind p (passed p session position chain gap) reader max position sequential
        (moved_chain p gap chain)
        (find_chain-passed p session sender.ratchet_key.public_key position gap chain found)
        (omega (arith, counter, ahead))
      ∙ decrypt_skipped_hit p (passed p session position chain gap) reader max (gap - 1 - j) plain
          (unfold passed in hit)

  pub decrypt_received_twice :
      (session : Ratchet) (sender : SenderChain) (position gap : ℕ) (chain : ReceiverChain)
      (plain : Bytes) (max : ℕ) (sequential : Bool)
      → find_chain sender.ratchet_key.public_key 0 session.receiver_chains ≡ some (position, chain)
      → sender.chain_key ≡ chain_at p gap chain.chain_key
      → chain.chain_key.index + gap + 1 < 2 ^ 32
      → IsPast sender.ratchet_key.public_key chain.chain_key.index session.skipped_message_keys
      → decrypt_received p
          (passed p session position chain gap)
          (received_of p session.ratchet_cipher sender plain)
          max
          sequential
        ≡ (
          failed_with (passed p session position chain gap) already_decrypted_or_keys_skipped,
          failed,
        )
  decrypt_received_twice session sender position gap chain plain max sequential found hs bits past =
      let reader = received_of p session.ratchet_cipher sender plain in
      let counter : sender.chain_key.index ≡ chain.chain_key.index + gap =
        ap (λ (c : ChainKey). c.index) hs ∙ index-chain_at p gap chain.chain_key (omega arith) in
      let ahead = index-moved_chain p gap chain bits in
      decrypt_received_behind p (passed p session position chain gap) reader max position sequential
        (moved_chain p gap chain)
        (find_chain-passed p session sender.ratchet_key.public_key position gap chain found)
        (omega (arith, counter, ahead))
      ∙ decrypt_skipped_missing p (passed p session position chain gap) reader max (
          unfold passed in
          try_skipped-IsPast p session.ratchet_cipher reader max 0 (chain.chain_key.index + gap)
            (skipped_after p gap chain.ratchet_key chain.chain_key session.skipped_message_keys)
            (skipped_after-IsPast p gap sender.ratchet_key.public_key chain.ratchet_key
              chain.chain_key session.skipped_message_keys (omega arith) past)
            (omega (arith, counter)))

  -- With primitives that keep the stated laws: Of two messages on one chain that the receiver has,
  -- `j` and `gap` steps ahead, with j < gap <= j + 40, gap <= 2000, counters below 2 ^ 32, a
  -- public key of 32 bytes, and plaintexts of bytes whose ciphertexts are shorter than 2 ^ 64 and
  -- fit in the buffer, the later comes first, and no order is demanded: `ratchet_decrypt` opens
  -- both, and afterwards the key of the earlier one is gone.
  pub ratchet_decrypt_out_of_order :
      (bob : Ratchet) (earlier later : SenderChain) (position gap j : ℕ) (chain : ReceiverChain)
      (plain plain' : Bytes) (max : ℕ)
      → find_chain later.ratchet_key.public_key 0 bob.receiver_chains ≡ some (position, chain)
      → earlier.ratchet_key.public_key ≡ later.ratchet_key.public_key
      → length later.ratchet_key.public_key ≡ 32
      → earlier.chain_key ≡ chain_at p j chain.chain_key
      → later.chain_key ≡ chain_at p gap chain.chain_key
      → j < gap
      → gap ≤ j + 40
      → gap ≤ 2000
      → chain.chain_key.index + gap + 1 < 2 ^ 32
      → IsReadable plain max
      → IsReadable plain' max
      → (ratchet_decrypt p bob (chain_message p bob.ratchet_cipher later plain) max false
          ≡ (passed p bob position chain gap, plaintext plain))
        × (ratchet_decrypt p
              (passed p bob position chain gap)
              (chain_message p bob.ratchet_cipher earlier plain')
              max
              false
            ≡ (forget_skipped (passed p bob position chain gap) (gap - 1 - j), plaintext plain'))
  ratchet_decrypt_out_of_order bob earlier later position gap j chain plain plain' max found same hk
        he hl hj room limit bits (hp, hc, hm) (hp', hc', hm') =
      let before : earlier.chain_key.index ≡ chain.chain_key.index + j =
        ap (λ (c : ChainKey). c.index) he ∙ index-chain_at p j chain.chain_key (omega arith) in
      let after : later.chain_key.index ≡ chain.chain_key.index + gap =
        ap (λ (c : ChainKey). c.index) hl ∙ index-chain_at p gap chain.chain_key (omega arith) in
      (
        ratchet_decrypt-chain_message p laws bob bob.ratchet_cipher later plain max false
              (omega (arith, after)) hk hp hc hm
            ∙ decrypt_received_delivered p laws bob later position gap chain plain max false found
                hl limit (omega arith) refl hp hm,
        ratchet_decrypt-chain_message p laws (passed p bob position chain gap) bob.ratchet_cipher
              earlier plain' max false (omega (arith, before)) (rw same hk) hp' hc' hm'
            ∙ decrypt_received_late bob earlier position gap j chain plain' max false
                (rw same found) he hj room bits hp' hm',
      )

  -- With primitives that keep the stated laws: A message on a chain that the receiver has, `gap`
  -- <= 2000 steps ahead, with a counter below 2 ^ 32, a public key of 32 bytes, and a plaintext of
  -- bytes whose ciphertext is shorter than 2 ^ 64 and fits in the buffer, is opened once, where no
  -- order is demanded. Given a second time it is refused, with the error
  -- `already_decrypted_or_keys_skipped` and nothing else changed, where the keys stored of this
  -- chain before all lay behind its start.
  pub ratchet_decrypt_twice :
      (bob : Ratchet) (sender : SenderChain) (position gap : ℕ) (chain : ReceiverChain)
      (plain : Bytes) (max : ℕ)
      → find_chain sender.ratchet_key.public_key 0 bob.receiver_chains ≡ some (position, chain)
      → length sender.ratchet_key.public_key ≡ 32
      → sender.chain_key ≡ chain_at p gap chain.chain_key
      → gap ≤ 2000
      → chain.chain_key.index + gap + 1 < 2 ^ 32
      → IsPast sender.ratchet_key.public_key chain.chain_key.index bob.skipped_message_keys
      → IsReadable plain max
      → (ratchet_decrypt p bob (chain_message p bob.ratchet_cipher sender plain) max false
          ≡ (passed p bob position chain gap, plaintext plain))
        × (ratchet_decrypt p
              (passed p bob position chain gap)
              (chain_message p bob.ratchet_cipher sender plain)
              max
              false
            ≡ (
              failed_with (passed p bob position chain gap) already_decrypted_or_keys_skipped,
              failed,
            ))
  ratchet_decrypt_twice bob sender position gap chain plain max found hk hs limit bits past
        (hp, hc, hm) =
      let counter : sender.chain_key.index ≡ chain.chain_key.index + gap =
        ap (λ (c : ChainKey). c.index) hs ∙ index-chain_at p gap chain.chain_key (omega arith) in
      let checks = λ (session : Ratchet).
        ratchet_decrypt-chain_message p laws session bob.ratchet_cipher sender plain max false
          (omega (arith, counter)) hk hp hc hm in
      (
        checks bob
            ∙ decrypt_received_delivered p laws bob sender position gap chain plain max false found
                hs limit (omega arith) refl hp hm,
        checks (passed p bob position chain gap)
            ∙ decrypt_received_twice bob sender position gap chain plain max false found hs bits
                past,
      )
