-- ===== src/Ratchet/Replies.antt =====
-- The turn of the device that follows, with which it starts a chain of its own in src/ratchet.cpp.
use olm.Base.{◌≤◌, Bytes, true, some, [], ◌∷◌, length, take, ◌≡◌, refl, ap, arith, ◌∙◌, sym}
use olm.BoundedList.{set_elem}
use olm.Crypto.External.{Primitives, PrimitiveLaws}
use olm.Crypto.{plaintext, curve25519_generate_key}
use olm.Ratchet.{Ratchet, SenderChain, ChainKey, create_chain_key}
use olm.Ratchet.Encrypting.{encrypt_random_length, start_sender_chain}
use olm.Ratchet.Chains.{chain_at}
use olm.Ratchet.Messages.{sent, next_sender}
use olm.Ratchet.Sending.{sending_chain, ratchet_encrypt_lem}
use olm.Ratchet.Receiving.{ratchet_decrypt-chain_message}
use olm.Ratchet.Delivery.{passed}
use olm.Ratchet.NewChain.{turned, create_chain_key_agreement, decrypt_received-turned}
use olm.Ratchet.Turns.{InStep, Turn, IsFit, exchange, exchange_written, following_chain}

-- The follower once it has started a chain, and that chain.
abbrev pub new_sender : Primitives → Bytes → Bytes × ChainKey → SenderChain
new_sender p random keys = record {
  ratchet_key = curve25519_generate_key p random;
  chain_key = keys.1;
}

abbrev pub with_new_sender : Primitives → Ratchet → Bytes → Bytes × ChainKey → Ratchet
with_new_sender p follower random keys = record follower {
  root_key = keys.0;
  sender_chain = new_sender p random keys ∷ [];
}

module _ (p : Primitives) (laws : PrimitiveLaws p) where
  abbrev pub turn_keys :
      (leader follower : Ratchet) (s : InStep p leader follower) → Bytes → Bytes × ChainKey
  turn_keys leader follower s random =
      create_chain_key p leader.root_key s.sender.ratchet_key
        (curve25519_generate_key p random).public_key leader.kdf_info

  same_turn_keys :
      (leader follower : Ratchet) (random : Bytes) (s : InStep p leader follower)
      → create_chain_key p follower.root_key
          (curve25519_generate_key p random)
          s.sender.ratchet_key.public_key
          follower.kdf_info
        ≡ turn_keys leader follower s random
  same_turn_keys leader follower random s =
      rw (s.same_root, s.same_info, s.key_made)
        (create_chain_key_agreement p laws leader.root_key random s.secret leader.kdf_info)

  start_sender_chain-new :
      (leader follower : Ratchet) (random : Bytes) (s : InStep p leader follower)
      → start_sender_chain p follower (following_chain s.sender) random ≡ (
        with_new_sender p follower random (turn_keys leader follower s random),
        new_sender p random (turn_keys leader follower s random),
      )
  unfolding start_sender_chain
  start_sender_chain-new leader follower random s =
      rw (same_turn_keys leader follower random s) refl

  sends_started :
      (leader follower : Ratchet) (random : Bytes) (s : InStep p leader follower)
      → sending_chain p follower random
        ≡ some (start_sender_chain p follower (following_chain s.sender) random)
  unfolding sending_chain
  sends_started leader follower random s = ground (arith, s.follower_none, s.follower_chain)

  sends_turned :
      (leader follower : Ratchet) (random : Bytes) (s : InStep p leader follower)
      → sending_chain p follower random
        ≡ some (
          with_new_sender p follower random (turn_keys leader follower s random),
          new_sender p random (turn_keys leader follower s random),
        )
  sends_turned leader follower random s =
      sends_started leader follower random s
      ∙ ap some (start_sender_chain-new leader follower random s)

  random_started :
      (leader follower : Ratchet) (random : Bytes) (s : InStep p leader follower)
      → 32 ≤ length random
      → encrypt_random_length follower ≤ length random
  unfolding encrypt_random_length
  random_started leader follower random s h = ground (arith, s.follower_none)

  -- The follower sends, and is the leader from then on.
  pub exchange-turned :
      (leader follower : Ratchet) (turn : Turn) (s : InStep p leader follower)
      → IsFit p follower leader turn
      → exchange p follower leader turn ≡ (
        (
          sent p
              (with_new_sender p follower turn.random (turn_keys leader follower s turn.random))
              (new_sender p turn.random (turn_keys leader follower s turn.random)),
          passed p
              (turned leader
                (turn_keys leader follower s turn.random)
                (curve25519_generate_key p turn.random).public_key)
              0
              (following_chain (new_sender p turn.random (turn_keys leader follower s turn.random)))
              0,
        ),
        plaintext turn.plain,
      )
  unfolding chain_at
  exchange-turned leader follower turn s f =
      let keys = turn_keys leader follower s turn.random in
      let key_length : length (curve25519_generate_key p turn.random).public_key ≡ 32 =
        unfold curve25519_generate_key in (laws.curve25519_donna-IsBuffer _ _).0 in
      let start : keys.1.index ≡ 0 = unfold create_chain_key in refl in
      let writes =
        ratchet_encrypt_lem p laws follower (with_new_sender p follower turn.random keys)
          (new_sender p turn.random keys) turn.plain turn.random turn.output
          (sends_turned leader follower turn.random s) key_length f.plain_bytes
          (random_started leader follower turn.random s f.random_room) f.output_room in
      let reads =
        ratchet_decrypt-chain_message p laws leader leader.ratchet_cipher
          (new_sender p turn.random keys) turn.plain turn.max_plaintext_length true
          (omega (arith, start)) key_length f.plain_bytes f.size_room f.plain_room
        ∙ decrypt_received-turned p laws leader s.sender (new_sender p turn.random keys) 0
            turn.plain turn.max_plaintext_length true keys (f.new_key s.follower_none)
            s.leader_chain refl refl start (omega arith) f.plain_bytes f.plain_room in
      exchange_written p follower _ leader _ turn _ (plaintext turn.plain) writes
        (rw (s.same_cipher) reads)

  pub InStep_turned :
      (leader follower : Ratchet) (random : Bytes) (s : InStep p leader follower)
      → InStep p
          (sent p
            (with_new_sender p follower random (turn_keys leader follower s random))
            (new_sender p random (turn_keys leader follower s random)))
          (passed p
            (turned leader
              (turn_keys leader follower s random)
              (curve25519_generate_key p random).public_key)
            0
            (following_chain (new_sender p random (turn_keys leader follower s random)))
            0)
  unfolding passed turned chain_at set_elem
  InStep_turned leader follower random s = record {
    sender = next_sender p (new_sender p random (turn_keys leader follower s random));
    secret = random;
    others = take 4 leader.receiver_chains;
    leader_chain = refl;
    follower_none = refl;
    key_made = refl;
    follower_chain = refl;
    same_root = refl;
    same_info = sym s.same_info;
    same_cipher = sym s.same_cipher;
  }
