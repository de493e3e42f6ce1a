-- ===== src/Ratchet/Messages.antt =====
-- The messages that the encryption of src/ratchet.cpp writes.
use olm.Base.{
  ℕ, ◌+◌, ◌≤◌, Bytes, IsBytes, some, [], ◌++◌, length, take, drop, length-take, length-drop,
  length-append, ◌≡◌, refl, ap, arith, ◌∙◌, sym,
}
use olm.BoundedList.{set_elem}
use olm.Crypto.External.{Primitives, PrimitiveLaws}
use olm.Cipher.{write, encrypt_ciphertext_length, encrypt}
use olm.Cipher.RoundTrip.{ciphertext_of, tag_of, ciphertext_of-IsBuffer, tag_of-IsBuffer}
use olm.Cipher.Room.{take-write_front, encrypt_in_room}
use olm.Message.Normal.{encode_message, encode_message_header, encode_message_length}
use olm.Message.Normal.RoundTrip.{encode_message_header-append, length-encode_message}
use olm.Ratchet.{Ratchet, SenderChain, advance_chain_key, create_message_keys}
use olm.Ratchet.Encrypting.{message, encrypt_on_chain}

module _ (p : Primitives) where
  -- The key of the next message of a chain.
  abbrev pub message_key_of : SenderChain → Bytes
  message_key_of sender = (create_message_keys p sender.chain_key).key

  unfoldable pub chain_ciphertext : Bytes → SenderChain → Bytes → Bytes
  chain_ciphertext cipher sender plain = ciphertext_of p cipher (message_key_of sender) plain

  -- The message in front of its MAC.
  unfoldable pub chain_body : Bytes → SenderChain → Bytes → Bytes
  chain_body cipher sender plain =
      encode_message 3 sender.chain_key.index sender.ratchet_key.public_key
        (chain_ciphertext cipher sender plain)

  unfoldable pub chain_message : Bytes → SenderChain → Bytes → Bytes
  chain_message cipher sender plain =
      chain_body cipher sender plain
      ++ tag_of p cipher (message_key_of sender) (chain_body cipher sender plain)

  abbrev pub next_sender : SenderChain → SenderChain
  next_sender sender = record sender { chain_key = advance_chain_key p sender.chain_key }

  abbrev pub sent : Ratchet → SenderChain → Ratchet
  sent session sender = record session {
    sender_chain = set_elem session.sender_chain 0 (next_sender sender);
  }

  encrypt_on_chain_written :
      (session : Ratchet) (sender : SenderChain) (plain output text : Bytes) (n : ℕ)
      → encrypt p session.ratchet_cipher
          (message_key_of sender)
          plain
          (take n (
            write output 0 (
              encode_message_header 3 sender.chain_key.index sender.ratchet_key.public_key
                (encrypt_ciphertext_length (length plain)))))
          (length (
            encode_message_header 3 sender.chain_key.index sender.ratchet_key.public_key
              (encrypt_ciphertext_length (length plain))))
          (encrypt_ciphertext_length (length plain))
        ≡ some text
      → encrypt_on_chain p session sender plain output n ≡ (sent session sender, message text)
  unfolding encrypt_on_chain create_message_keys
  encrypt_on_chain_written session sender plain output text n h = rw (h, encrypt_on_chain)

module _ (p : Primitives) (laws : PrimitiveLaws p) where
  pub length-chain_ciphertext :
      (cipher : Bytes) (sender : SenderChain) (plain : Bytes)
      → IsBytes plain
      → length (chain_ciphertext p cipher sender plain) ≡ encrypt_ciphertext_length (length plain)
  unfolding chain_ciphertext
  length-chain_ciphertext cipher sender plain hp =
      (ciphertext_of-IsBuffer p laws cipher (message_key_of p sender) plain hp).0

  pub length-chain_message :
      (cipher : Bytes) (sender : SenderChain) (plain : Bytes)
      → IsBytes plain
      → length sender.ratchet_key.public_key ≡ 32
      → length (chain_message p cipher sender plain)
        ≡ encode_message_length sender.chain_key.index 32
            (encrypt_ciphertext_length (length plain))
            8
  unfolding chain_message chain_body
  length-chain_message cipher sender plain hp hk =
      length-encode_message 3 sender.chain_key.index sender.ratchet_key.public_key
        (chain_ciphertext p cipher sender plain) _
      ∙ rw (
        hk,
        length-chain_ciphertext cipher sender plain hp,
        (tag_of-IsBuffer p laws cipher (message_key_of p sender)
            (chain_body p cipher sender plain)).0,
      )

  pub header_body :
      (cipher : Bytes) (sender : SenderChain) (plain : Bytes)
      → IsBytes plain
      → encode_message_header 3 sender.chain_key.index sender.ratchet_key.public_key
            (encrypt_ciphertext_length (length plain))
          ++ chain_ciphertext p cipher sender plain
        ≡ chain_body p cipher sender plain
  unfolding chain_body
  header_body cipher sender plain hp = rw (← length-chain_ciphertext cipher sender plain hp) (
      encode_message_header-append 3 sender.chain_key.index sender.ratchet_key.public_key
        (chain_ciphertext p cipher sender plain))

  length-header :
      (sender : SenderChain) (plain : Bytes)
      → IsBytes plain
      → length sender.ratchet_key.public_key ≡ 32
      → length (
            encode_message_header 3 sender.chain_key.index sender.ratchet_key.public_key
              (encrypt_ciphertext_length (length plain)))
          + (encrypt_ciphertext_length (length plain) + 8)
        ≡ encode_message_length sender.chain_key.index 32
            (encrypt_ciphertext_length (length plain))
            8
  unfolding chain_message
  length-header sender plain hp hk =
      let body = chain_body p [] sender plain in
      omega (
        arith,
        length-chain_message [] sender plain hp hk,
        length-append body (tag_of p [] (message_key_of p sender) body),
        (tag_of-IsBuffer p laws [] (message_key_of p sender) body).0,
        ap length (header_body [] sender plain hp),
        length-append
            (encode_message_header 3 sender.chain_key.index sender.ratchet_key.public_key
              (encrypt_ciphertext_length (length plain)))
            (chain_ciphertext p [] sender plain),
        length-chain_ciphertext [] sender plain hp,
      )

  pub encrypt_on_chain_lem :
      (session : Ratchet) (sender : SenderChain) (plain output : Bytes) (n : ℕ)
      → IsBytes plain
      → length sender.ratchet_key.public_key ≡ 32
      → n
        ≡ encode_message_length sender.chain_key.index 32
            (encrypt_ciphertext_length (length plain))
            8
      → n ≤ length output
      → encrypt_on_chain p session sender plain output n
        ≡ (sent p session sender, message (chain_message p session.ratchet_cipher sender plain))
  unfolding chain_message chain_ciphertext
  encrypt_on_chain_lem session sender plain output n hp hk hn hr =
      let c = encrypt_ciphertext_length (length plain) in
      let cipher = session.ratchet_cipher in
      let header = encode_message_header 3 sender.chain_key.index sender.ratchet_key.public_key c in
      let body = take (c + 8) (drop (length header) output) in
      let e : n ≡ length header + (c + 8) = hn ∙ sym (length-header sender plain hp hk) in
      let room : length body ≡ c + 8 = omega (
        arith,
        length-take (c + 8) (drop (length header) output),
        length-drop (length header) output,
        e,
        hr,
      ) in
      encrypt_on_chain_written p session sender plain output _ n (
        rw (e, take-write_front header output (c + 8), ← header_body cipher sender plain hp)
          (encrypt_in_room p laws cipher (message_key_of p sender) plain header body c hp refl
            room))
