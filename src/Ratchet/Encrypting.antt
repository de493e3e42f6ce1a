-- ===== src/Ratchet/Encrypting.antt =====
-- The encryption of src/ratchet.cpp.
use olm.Base.{ℕ, Bytes, Option, none, some, [], ◌∷◌, take, length, ltb, if◌then◌else◌}
use olm.Error.{not_enough_random, output_buffer_too_small}
use olm.BoundedList.{insert_front, set_elem}
use olm.Pickle.{curve25519_key_length}
use olm.Crypto.External.{Primitives}
use olm.Crypto.{curve25519_generate_key}
use olm.Cipher.{mac_length, write, encrypt_ciphertext_length, encrypt}
use olm.Message.Normal.{encode_message_length, encode_message_header}
use olm.Ratchet.{
  SenderChain, ReceiverChain, Ratchet, protocol_version, ratchet_fail, create_chain_key,
  advance_chain_key, create_message_keys,
}

abbrev pub curve25519_random_length : ℕ
curve25519_random_length = 32

-- What an encryption returns: the message, `size_t(-1)`, or nothing that C defines.
pub data Encrypted : Type 0 where
  message : Bytes → Encrypted
  refused undefined : Encrypted

unfoldable pub encrypt_output_length : Ratchet → ℕ → ℕ
encrypt_output_length session plaintext_length =
    let counter : ℕ = elim session.sender_chain [ [] ↦ 0 | sender ∷ _ ↦ sender.chain_key.index ] in
    encode_message_length counter curve25519_key_length (encrypt_ciphertext_length plaintext_length)
      mac_length

unfoldable pub encrypt_random_length : Ratchet → ℕ
encrypt_random_length session = elim session.sender_chain [
  | [] ↦ curve25519_random_length
  | _ ∷ _ ↦ 0
]

module _ (p : Primitives) where
  -- The chain that `encrypt` starts where there is none, on the newest key of the other side.
  unfoldable pub start_sender_chain : Ratchet → ReceiverChain → Bytes → Ratchet × SenderChain
  start_sender_chain session receiver random =
      let ratchet_key = curve25519_generate_key p random in
      let (root_key, chain_key) =
        create_chain_key p session.root_key ratchet_key receiver.ratchet_key session.kdf_info in
      let sender : SenderChain = record { ratchet_key = ratchet_key; chain_key = chain_key } in
      (
        record session {
          root_key = root_key;
          sender_chain = insert_front 1 sender session.sender_chain;
        },
        sender,
      )

  -- `encrypt` with its first sender chain. The header and the room for the ciphertext and the MAC
  -- are the first `output_length` bytes of the buffer. What the cipher returns is not looked at.
  unfoldable pub encrypt_on_chain : Ratchet → SenderChain → Bytes → Bytes → ℕ → Ratchet × Encrypted
  encrypt_on_chain session sender plain output output_length =
      let keys = create_message_keys p sender.chain_key in
      let sender' : SenderChain = record sender {
        chain_key = advance_chain_key p sender.chain_key;
      } in
      let ciphertext_length = encrypt_ciphertext_length (length plain) in
      let header =
        encode_message_header protocol_version keys.index sender.ratchet_key.public_key
          ciphertext_length in
      let buffer = take output_length (write output 0 header) in
      let written : Option Bytes =
        encrypt p session.ratchet_cipher keys.key plain buffer (length header) ciphertext_length in
      (
        record session { sender_chain = set_elem session.sender_chain 0 sender' },
        message (elim written [ none ↦ buffer | some text ↦ text ]),
      )

  -- Without any chain the source reads a receiver chain that is not there.
  unfoldable pub ratchet_encrypt : Ratchet → Bytes → Bytes → Bytes → Ratchet × Encrypted
  ratchet_encrypt session plain random output =
      let output_length = encrypt_output_length session (length plain) in
      if ltb (length random) (encrypt_random_length session)
      then (ratchet_fail session not_enough_random, refused)
      else if ltb (length output) output_length
      then (ratchet_fail session output_buffer_too_small, refused)
      else elim session.sender_chain [
        | sender ∷ _ ↦ encrypt_on_chain session sender plain output output_length
        | [] ↦ elim session.receiver_chains [
          | [] ↦ (session, undefined)
          | receiver ∷ _ ↦
              let (session', sender) = start_sender_chain session receiver random in
              encrypt_on_chain session' sender plain output output_length
        ]
      ]
