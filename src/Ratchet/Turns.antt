-- ===== src/Ratchet/Turns.antt =====
-- Two devices that use src/ratchet.cpp in turns, each message delivered before the next is written.
use olm.Base.{
  ℕ, ◌+◌, ◌^◌, ◌≤◌, ◌<◌, Bytes, IsBytes, true, none, some, List, [], ◌∷◌, length, ◌≡◌, refl, arith,
  sym,
}
use olm.Memory.Equality.{memcmp_equal_refl}
use olm.BoundedList.{set_elem}
use olm.Crypto.External.{Primitives, PrimitiveLaws}
use olm.Crypto.{Decrypted, plaintext, failed, fault, curve25519_generate_key}
use olm.Cipher.{encrypt_ciphertext_length}
use olm.Ratchet.{Ratchet, SenderChain, ReceiverChain}
use olm.Ratchet.Encrypting.{
  message, refused, undefined, encrypt_output_length, encrypt_random_length, ratchet_encrypt,
}
use olm.Ratchet.Decryption.{find_chain, ratchet_decrypt}
use olm.Ratchet.Chains.{chain_at}
use olm.Ratchet.Messages.{sent, next_sender}
use olm.Ratchet.Sending.{sending_chain}
use olm.Ratchet.Delivery.{passed, ratchet_decrypt-ratchet_encrypt}

-- The chain of a receiver that has followed the sender up to now.
abbrev pub following_chain : SenderChain → ReceiverChain
following_chain sender = record {
  ratchet_key = sender.ratchet_key.public_key;
  chain_key = sender.chain_key;
}

-- The leader has a sender chain, whose key it made from `secret`, and the follower has none and has
-- the same chain in front of its receiver chains.
pub record InStep (p : Primitives) (leader follower : Ratchet) : Type 0 where
  pub sender : SenderChain
  pub secret : Bytes
  pub others : List ReceiverChain
  pub leader_chain : leader.sender_chain ≡ sender ∷ []
  pub follower_none : follower.sender_chain ≡ []
  pub key_made : sender.ratchet_key ≡ curve25519_generate_key p secret
  pub follower_chain : follower.receiver_chains ≡ following_chain sender ∷ others
  pub same_root : follower.root_key ≡ leader.root_key
  pub same_info : follower.kdf_info ≡ leader.kdf_info
  pub same_cipher : follower.ratchet_cipher ≡ leader.ratchet_cipher

-- One message and what the two calls are given for it.
pub record Turn : Type 0 where
  pub plain : Bytes
  pub random : Bytes
  pub output : Bytes
  pub max_plaintext_length : ℕ

-- What a turn needs: room in the buffers, random bytes, a counter that does not wrap, and, where a
-- chain is started, a key that the receiver does not have yet.
pub record IsFit (p : Primitives) (sender receiver : Ratchet) (turn : Turn) : Type 0 where
  pub plain_bytes : IsBytes turn.plain
  pub random_room : 32 ≤ length turn.random
  pub output_room : encrypt_output_length sender (length turn.plain) ≤ length turn.output
  pub size_room : encrypt_ciphertext_length (length turn.plain) < 2 ^ 64
  pub plain_room : encrypt_ciphertext_length (length turn.plain) ≤ turn.max_plaintext_length
  pub counter_room :
      (chain : SenderChain) → sender.sender_chain ≡ chain ∷ [] → chain.chain_key.index + 1 < 2 ^ 32
  pub new_key :
      sender.sender_chain ≡ []
      → find_chain (curve25519_generate_key p turn.random).public_key 0 receiver.receiver_chains
        ≡ none

module _ (p : Primitives) where
  unfoldable pub exchange : Ratchet → Ratchet → Turn → (Ratchet × Ratchet) × Decrypted
  exchange sender receiver turn =
      let (sender', written) = ratchet_encrypt p sender turn.plain turn.random turn.output in
      elim written [
        | message text ↦
            let (receiver', result) =
              ratchet_decrypt p receiver text turn.max_plaintext_length true in
            ((sender', receiver'), result)
        | refused ↦ ((sender', receiver), failed)
        | undefined ↦ ((sender', receiver), fault)
      ]

  pub exchange_written :
      (sender sender' receiver receiver' : Ratchet) (turn : Turn) (text : Bytes)
      (result : Decrypted)
      → ratchet_encrypt p sender turn.plain turn.random turn.output ≡ (sender', message text)
      → ratchet_decrypt p receiver text turn.max_plaintext_length true ≡ (receiver', result)
      → exchange sender receiver turn ≡ ((sender', receiver'), result)
  unfolding exchange
  exchange_written sender sender' receiver receiver' turn text result h k =
      rw (h, exchange, k, h) refl

module _ (p : Primitives) (laws : PrimitiveLaws p) where
  pub length-leader_key :
      (leader follower : Ratchet) (s : InStep p leader follower)
      → length s.sender.ratchet_key.public_key ≡ 32
  unfolding curve25519_generate_key
  length-leader_key leader follower s = rw (s.key_made) (laws.curve25519_donna-IsBuffer _ _).0

  pub find_following :
      (leader follower : Ratchet) (s : InStep p leader follower)
      → find_chain s.sender.ratchet_key.public_key 0 follower.receiver_chains
        ≡ some (0, following_chain s.sender)
  unfolding find_chain
  find_following leader follower s =
      let h = length-leader_key leader follower s in
      rw (s.follower_chain, memcmp_equal_refl 32 s.sender.ratchet_key.public_key (omega arith)) refl

  pub sends_continued :
      (leader follower : Ratchet) (random : Bytes) (s : InStep p leader follower)
      → sending_chain p leader random ≡ some (leader, s.sender)
  unfolding sending_chain
  sends_continued leader follower random s = ground (arith, s.leader_chain)

  pub random_continued :
      (leader follower : Ratchet) (s : InStep p leader follower) → encrypt_random_length leader ≡ 0
  unfolding encrypt_random_length
  random_continued leader follower s = rw (s.leader_chain, encrypt_random_length) refl

  -- The leader sends again.
  pub exchange_continued :
      (leader follower : Ratchet) (turn : Turn) (s : InStep p leader follower)
      → IsFit p leader follower turn
      → exchange p leader follower turn ≡ (
        (sent p leader s.sender, passed p follower 0 (following_chain s.sender) 0),
        plaintext turn.plain,
      )
  unfolding chain_at
  exchange_continued leader follower turn s f =
      let room = f.counter_room s.sender s.leader_chain in
      let (text, writes, reads) =
        ratchet_decrypt-ratchet_encrypt p laws leader leader follower s.sender 0 0
          (following_chain s.sender) turn.plain turn.random turn.output turn.max_plaintext_length
          true (sends_continued leader follower turn.random s) (length-leader_key leader follower s)
          (omega (arith, random_continued leader follower s)) f.output_room (sym s.same_cipher)
          (find_following leader follower s) refl (omega arith) (omega arith) refl f.plain_bytes
          f.size_room f.plain_room in
      exchange_written p leader _ follower _ turn text (plaintext turn.plain) writes reads

  pub InStep_continued :
      (leader follower : Ratchet) (s : InStep p leader follower)
      → InStep p (sent p leader s.sender) (passed p follower 0 (following_chain s.sender) 0)
  unfolding passed chain_at set_elem
  InStep_continued leader follower s = record {
    sender = next_sender p s.sender;
    secret = s.secret;
    others = s.others;
    leader_chain = rw (s.leader_chain) refl;
    follower_none = s.follower_none;
    key_made = s.key_made;
    follower_chain = rw (s.follower_chain) refl;
    same_root = s.same_root;
    same_info = s.same_info;
    same_cipher = s.same_cipher;
  }
