-- ===== src/Ratchet/Receiving.antt =====
-- `decrypt` of src/ratchet.cpp on the messages that `encrypt` writes.
use olm.Base.{
  ℕ, ◌+◌, ◌-◌, ◌^◌, ◌≤◌, ◌<◌, Bytes, IsBytes, Bool, some, length, le→ltb, ◌≡◌, refl, ap, arith, ◌∙◌,
}
use olm.Crypto.External.{Primitives, PrimitiveLaws}
use olm.Crypto.{plaintext}
use olm.Cipher.{encrypt_ciphertext_length, decrypt_max_plaintext_length}
use olm.Cipher.RoundTrip.{decrypt-tag_of, tag_of-IsBuffer}
use olm.Message.Normal.{encode_message_header, MessageReader, decode_message}
use olm.Message.Normal.RoundTrip.{decode_message-encode_message, decoded_message}
use olm.Ratchet.{
  Ratchet, SenderChain, Received, ChainKey, create_message_keys, verify_mac_and_decrypt,
  verify_mac_and_decrypt_for_existing_chain,
}
use olm.Ratchet.Decryption.{decrypt_received, decrypt_reader, ratchet_decrypt}
use olm.Ratchet.Chains.{chain_at, advance_to-chain_at, index-chain_at}
use olm.Ratchet.Messages.{
  chain_ciphertext, chain_body, chain_message, message_key_of, length-chain_ciphertext, header_body,
}

module _ (p : Primitives) where
  -- The fields that a receiver finds in a message.
  abbrev pub received_of : Bytes → SenderChain → Bytes → Received
  received_of cipher sender plain = record {
    input = chain_message p cipher sender plain;
    counter = sender.chain_key.index;
    ratchet_key = sender.ratchet_key.public_key;
    ciphertext = chain_ciphertext p cipher sender plain;
  }

module _ (p : Primitives) (laws : PrimitiveLaws p) where
  pub decode_chain_message :
      (cipher : Bytes) (sender : SenderChain) (plain : Bytes)
      → sender.chain_key.index < 2 ^ 32
      → length sender.ratchet_key.public_key ≡ 32
      → length (chain_ciphertext p cipher sender plain) < 2 ^ 64
      → decode_message (chain_message p cipher sender plain) 8
        ≡ some (
            decoded_message 3 sender.chain_key.index sender.ratchet_key.public_key
              (chain_ciphertext p cipher sender plain)
              (chain_message p cipher sender plain))
  unfolding chain_message chain_body
  decode_chain_message cipher sender plain hi hk hc =
      decode_message-encode_message 3 sender.chain_key.index 8 sender.ratchet_key.public_key
        (chain_ciphertext p cipher sender plain) _ hi (omega arith) hc
        (tag_of-IsBuffer p laws cipher (message_key_of p sender)
          (chain_body p cipher sender plain)).0

  decrypt_reader_checked :
      (session : Ratchet) (counter : ℕ) (ratchet_key ciphertext input : Bytes) (max : ℕ)
      (sequential : Bool)
      → length ratchet_key ≡ 32
      → length ciphertext ≤ max
      → decrypt_reader p session
          (decoded_message 3 counter ratchet_key ciphertext input)
          max
          sequential
        ≡ decrypt_received p session
            (record {
              input = input;
              counter = counter;
              ratchet_key = ratchet_key;
              ciphertext = ciphertext;
            })
            max
            sequential
  unfolding decrypt_reader decrypt_max_plaintext_length
  decrypt_reader_checked session counter ratchet_key ciphertext input max sequential hk hm =
      ground arith

  ratchet_decrypt_decoded :
      (session : Ratchet) (input : Bytes) (reader : MessageReader) (max : ℕ) (sequential : Bool)
      → decode_message input 8 ≡ some reader
      → ratchet_decrypt p session input max sequential
        ≡ decrypt_reader p session reader max sequential
  unfolding ratchet_decrypt
  ratchet_decrypt_decoded session input reader max sequential h = rw (h, ratchet_decrypt) refl

  -- A message reaches the chains with its fields.
  pub ratchet_decrypt-chain_message :
      (session : Ratchet) (cipher : Bytes) (sender : SenderChain) (plain : Bytes) (max : ℕ)
      (sequential : Bool)
      → sender.chain_key.index < 2 ^ 32
      → length sender.ratchet_key.public_key ≡ 32
      → IsBytes plain
      → encrypt_ciphertext_length (length plain) < 2 ^ 64
      → encrypt_ciphertext_length (length plain) ≤ max
      → ratchet_decrypt p session (chain_message p cipher sender plain) max sequential
        ≡ decrypt_received p session (received_of p cipher sender plain) max sequential
  ratchet_decrypt-chain_message session cipher sender plain max sequential hi hk hp hc hm =
      let size = length-chain_ciphertext p laws cipher sender plain hp in
      ratchet_decrypt_decoded session _ _ max sequential
        (decode_chain_message cipher sender plain hi hk (omega (arith, size)))
      ∙ decrypt_reader_checked session sender.chain_key.index sender.ratchet_key.public_key
          (chain_ciphertext p cipher sender plain) (chain_message p cipher sender plain) max
          sequential hk (omega (arith, size))

  -- The key of the message opens it.
  pub verify_mac_and_decrypt_own :
      (cipher : Bytes) (sender : SenderChain) (plain : Bytes) (max : ℕ)
      → IsBytes plain
      → encrypt_ciphertext_length (length plain) ≤ max
      → verify_mac_and_decrypt p cipher
          (create_message_keys p sender.chain_key)
          (received_of p cipher sender plain)
          max
        ≡ plaintext plain
  unfolding verify_mac_and_decrypt chain_message chain_ciphertext
  verify_mac_and_decrypt_own cipher sender plain max hp hm =
      let header =
        encode_message_header 3 sender.chain_key.index sender.ratchet_key.public_key
          (encrypt_ciphertext_length (length plain)) in
      let size = length-chain_ciphertext p laws cipher sender plain hp in
      rw (← header_body p laws cipher sender plain hp) (
        decrypt-tag_of p laws cipher (message_key_of p sender) plain header max hp
          (omega (arith, size, hm)))

  -- The chain that the receiver has is moved on to the message.
  pub existing_chain_own :
      (session : Ratchet) (chain : ChainKey) (sender : SenderChain) (gap : ℕ) (plain : Bytes)
      (max : ℕ)
      → sender.chain_key ≡ chain_at p gap chain
      → gap ≤ 2000
      → chain.index + gap < 2 ^ 32
      → IsBytes plain
      → encrypt_ciphertext_length (length plain) ≤ max
      → verify_mac_and_decrypt_for_existing_chain p session chain
          (received_of p session.ratchet_cipher sender plain)
          max
        ≡ (session.last_error, plaintext plain)
  unfolding verify_mac_and_decrypt_for_existing_chain
  existing_chain_own session chain sender gap plain max hs hg hi hp hm =
      let at : sender.chain_key.index ≡ chain.index + gap =
        ap (λ (c : ChainKey). c.index) hs ∙ index-chain_at p gap chain hi in
      let rounds : sender.chain_key.index - chain.index ≡ gap = omega (arith, at) in
      rw
        (
          le→ltb sender.chain_key.index chain.index (omega (arith, at)),
          rounds,
          le→ltb 2000 gap hg,
          advance_to-chain_at p gap sender.chain_key.index chain (omega (arith, at))
              (omega (arith, at)),
          ← hs,
          verify_mac_and_decrypt_own session.ratchet_cipher sender plain max hp hm,
        )
        refl
