-- ===== src/Ratchet/NewChain.antt =====
-- A new chain of src/ratchet.cpp: the side that starts it and the side that first receives on it
-- derive the same keys.
use olm.Base.{
  ℕ, ◌+◌, ◌≤◌, Bytes, IsBytes, Bool, none, List, [], ◌∷◌, length, take, ◌≡◌, refl, ap, arith, ◌∙◌,
}
use olm.BoundedList.{insert_front}
use olm.Crypto.External.{Primitives, PrimitiveLaws}
use olm.Crypto.{plaintext, curve25519_generate_key, curve25519_shared_secret}
use olm.Error.{ErrorCode}
use olm.Cipher.{encrypt_ciphertext_length}
use olm.Ratchet.{
  Ratchet, SenderChain, Received, ChainKey, KdfInfo, create_chain_key,
  verify_mac_and_decrypt_for_existing_chain, verify_mac_and_decrypt_for_new_chain,
  max_receiver_chains,
}
use olm.Ratchet.Decryption.{
  find_chain, pass_message, accept_new_chain, decrypt_on_new_chain, decrypt_received,
}
use olm.Ratchet.Chains.{chain_at, index-chain_at}
use olm.Ratchet.Receiving.{received_of, existing_chain_own}
use olm.Ratchet.Delivery.{passed, pass_message-passed}

-- The receiver with the new chain in front, a new root key and no sender chain.
unfoldable pub turned : Ratchet → Bytes × ChainKey → Bytes → Ratchet
turned session keys ratchet_key = record session {
  root_key = keys.0;
  sender_chain = [];
  receiver_chains =
      insert_front max_receiver_chains (record { ratchet_key = ratchet_key; chain_key = keys.1 })
        session.receiver_chains;
}

module _ (p : Primitives) (laws : PrimitiveLaws p) where
  pub create_chain_key_agreement :
      (root_key ours theirs : Bytes) (info : KdfInfo)
      → create_chain_key p root_key
          (curve25519_generate_key p ours)
          (curve25519_generate_key p theirs).public_key
          info
        ≡ create_chain_key p root_key
            (curve25519_generate_key p theirs)
            (curve25519_generate_key p ours).public_key
            info
  unfolding create_chain_key curve25519_generate_key curve25519_shared_secret
  create_chain_key_agreement root_key ours theirs info =
      rw (laws.curve25519_agreement (take 32 ours) (take 32 theirs) _) refl

module _ (p : Primitives) where
  decrypt_received_new :
      (session : Ratchet) (reader : Received) (max : ℕ) (sequential : Bool)
      → find_chain reader.ratchet_key 0 session.receiver_chains ≡ none
      → decrypt_received p session reader max sequential ≡ decrypt_on_new_chain p session reader max
  unfolding decrypt_received
  decrypt_received_new session reader max sequential h = rw (h, decrypt_received) refl

  decrypt_on_new_chain_opened :
      (session : Ratchet) (reader : Received) (max : ℕ) (error : ErrorCode) (plain : Bytes)
      → verify_mac_and_decrypt_for_new_chain p session reader max ≡ (error, plaintext plain)
      → decrypt_on_new_chain p session reader max ≡ (
        pass_message p
            (accept_new_chain p session reader).0
            0
            (accept_new_chain p session reader).1
            reader.counter,
        plaintext plain,
      )
  unfolding decrypt_on_new_chain
  decrypt_on_new_chain_opened session reader max error plain h = rw (h, decrypt_on_new_chain) refl

  verify_for_new_chain :
      (session : Ratchet) (sender : SenderChain) (rest : List SenderChain) (reader : Received)
      (max : ℕ)
      → session.sender_chain ≡ sender ∷ rest
      → reader.counter ≤ 2000
      → verify_mac_and_decrypt_for_new_chain p session reader max
        ≡ verify_mac_and_decrypt_for_existing_chain p session
            (create_chain_key p session.root_key sender.ratchet_key reader.ratchet_key
              session.kdf_info).1
            reader
            max
  unfolding verify_mac_and_decrypt_for_new_chain
  verify_for_new_chain session sender rest reader max h k = ground (arith, h)

  accept_new_chain-turned :
      (session : Ratchet) (sender : SenderChain) (reader : Received)
      → session.sender_chain ≡ sender ∷ []
      → accept_new_chain p session reader ≡ (
        turned session
            (create_chain_key p session.root_key sender.ratchet_key reader.ratchet_key
              session.kdf_info)
            reader.ratchet_key,
        record {
          ratchet_key = reader.ratchet_key;
          chain_key =
              (create_chain_key p session.root_key sender.ratchet_key reader.ratchet_key
                session.kdf_info).1;
        },
      )
  unfolding accept_new_chain turned
  accept_new_chain-turned session sender reader h = rw (h, accept_new_chain, h) refl

module _ (p : Primitives) (laws : PrimitiveLaws p) where
  -- A message on a chain that the receiver does not have, `gap` messages into it.
  pub decrypt_received-turned :
      (session : Ratchet) (ours sender : SenderChain) (gap : ℕ) (plain : Bytes) (max : ℕ)
      (sequential : Bool) (keys : Bytes × ChainKey)
      → find_chain sender.ratchet_key.public_key 0 session.receiver_chains ≡ none
      → session.sender_chain ≡ ours ∷ []
      → create_chain_key p session.root_key ours.ratchet_key sender.ratchet_key.public_key
          session.kdf_info
        ≡ keys
      → sender.chain_key ≡ chain_at p gap keys.1
      → keys.1.index ≡ 0
      → gap ≤ 2000
      → IsBytes plain
      → encrypt_ciphertext_length (length plain) ≤ max
      → decrypt_received p session
          (received_of p session.ratchet_cipher sender plain)
          max
          sequential
        ≡ (
          passed p
              (turned session keys sender.ratchet_key.public_key)
              0
              (record { ratchet_key = sender.ratchet_key.public_key; chain_key = keys.1 })
              gap,
          plaintext plain,
        )
  decrypt_received-turned session ours sender gap plain max sequential keys absent one derived hs
        start hg hp hm =
      let at : sender.chain_key.index ≡ keys.1.index + gap =
        ap (λ (c : ChainKey). c.index) hs ∙ index-chain_at p gap keys.1 (omega arith) in
      let reader = received_of p session.ratchet_cipher sender plain in
      let opened : verify_mac_and_decrypt_for_new_chain p session reader max
          ≡ (session.last_error, plaintext plain) =
        verify_for_new_chain p session ours [] reader max one (omega (arith, at))
        ∙ rw derived (
            existing_chain_own p laws session keys.1 sender gap plain max hs hg (omega arith) hp
              hm) in
      decrypt_received_new p session reader max sequential absent
      ∙ decrypt_on_new_chain_opened p session reader max session.last_error plain opened
      ∙ rw (accept_new_chain-turned p session ours reader one, derived)
          (ap (λ (s : Ratchet). (s, plaintext plain))
            (pass_message-passed p (turned session keys sender.ratchet_key.public_key) 0
              (record { ratchet_key = sender.ratchet_key.public_key; chain_key = keys.1 }) gap
              sender.chain_key.index at (omega (arith, at))))
