-- ===== src/Ratchet/Sending.antt =====
-- What `encrypt` of src/ratchet.cpp sends, with a sender chain and without one.
use olm.Base.{ℕ, ◌≤◌, Bytes, IsBytes, Option, none, some, [], ◌∷◌, length, ◌≡◌, arith, ◌∙◌}
use olm.Crypto.External.{Primitives, PrimitiveLaws}
use olm.Crypto.{curve25519_generate_key}
use olm.Cipher.{encrypt_ciphertext_length}
use olm.Message.Normal.{encode_message_length}
use olm.Ratchet.{Ratchet, SenderChain, ReceiverChain, create_chain_key}
use olm.Ratchet.Encrypting.{
  message, encrypt_output_length, encrypt_random_length, start_sender_chain, encrypt_on_chain,
  ratchet_encrypt,
}
use olm.Ratchet.Messages.{chain_message, sent, encrypt_on_chain_lem}

module _ (p : Primitives) where
  -- The chain that the next message is sent on, and the session with it.
  unfoldable pub sending_chain : Ratchet → Bytes → Option (Ratchet × SenderChain)
  sending_chain session random = elim session.sender_chain [
    | sender ∷ _ ↦ some (session, sender)
    | [] ↦ elim session.receiver_chains [
      | receiver ∷ _ ↦ some (start_sender_chain p session receiver random)
      | [] ↦ none
    ]
  ]

module _ (p : Primitives) (laws : PrimitiveLaws p) where
  length-new_key :
      (session : Ratchet) (receiver : ReceiverChain) (random : Bytes)
      → length (start_sender_chain p session receiver random).1.ratchet_key.public_key ≡ 32
  unfolding start_sender_chain curve25519_generate_key
  length-new_key session receiver random = (laws.curve25519_donna-IsBuffer _ _).0

  ratchet_encrypt_written :
      (session session' : Ratchet) (sender : SenderChain) (plain random output : Bytes)
      → sending_chain p session random ≡ some (session', sender)
      → encrypt_random_length session ≤ length random
      → encrypt_output_length session (length plain) ≤ length output
      → ratchet_encrypt p session plain random output
        ≡ encrypt_on_chain p session' sender plain output
            (encrypt_output_length session (length plain))
  unfolding ratchet_encrypt sending_chain
  ratchet_encrypt_written session session' sender plain random output e hr ho =
      ground (arith, e, hr, ho)

  -- The announced length is that of the chain that the message is sent on.
  pub encrypt_output_length-sending_chain :
      (session session' : Ratchet) (sender : SenderChain) (random : Bytes) (n : ℕ)
      → sending_chain p session random ≡ some (session', sender)
      → encrypt_output_length session n
        ≡ encode_message_length sender.chain_key.index 32 (encrypt_ciphertext_length n) 8
  unfolding encrypt_output_length sending_chain start_sender_chain create_chain_key
  encrypt_output_length-sending_chain session session' sender random n e = ground (arith, e)

  -- With primitives that keep the stated laws: Where there is a chain to send on, its public key
  -- has 32 bytes, the random bytes and the output buffer are as long as announced and the
  -- plaintext is of bytes, `encrypt` returns header, ciphertext and tag under the next key of that
  -- chain, which it starts first where there is none, and the chain moves on by one step.
  pub ratchet_encrypt_lem :
      (session session' : Ratchet) (sender : SenderChain) (plain random output : Bytes)
      → sending_chain p session random ≡ some (session', sender)
      → length sender.ratchet_key.public_key ≡ 32
      → IsBytes plain
      → encrypt_random_length session ≤ length random
      → encrypt_output_length session (length plain) ≤ length output
      → ratchet_encrypt p session plain random output
        ≡ (sent p session' sender, message (chain_message p session'.ratchet_cipher sender plain))
  ratchet_encrypt_lem session session' sender plain random output e hk hp hr ho =
      ratchet_encrypt_written session session' sender plain random output e hr ho
      ∙ encrypt_on_chain_lem p laws session' sender plain output _ hp hk
          (encrypt_output_length-sending_chain session session' sender random (length plain) e) ho
