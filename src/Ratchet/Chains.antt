-- ===== src/Ratchet/Chains.antt =====
-- The chain keys of src/ratchet.cpp, and the loops that move them on.
use olm.Base.{ℕ, zero, suc, ◌+◌, ◌^◌, ◌<◌, Bytes, List, lt→ltb, ◌≡◌, refl, arith}
use olm.BoundedList.{insert_front}
use olm.Crypto.External.{Primitives}
use olm.Ratchet.{
  ChainKey, SkippedMessageKey, max_skipped_message_keys, advance_chain_key, create_message_keys,
  advance_to,
}
use olm.Ratchet.Decryption.{store_skipped}

module _ (p : Primitives) where
  -- The chain key after `n` steps.
  unfoldable pub chain_at : ℕ → ChainKey → ChainKey
  chain_at zero chain_key = chain_key
  chain_at (suc n) chain_key = chain_at n (advance_chain_key p chain_key)

  -- The skipped keys after `n` more keys of a chain.
  unfoldable pub skipped_after :
      ℕ → Bytes → ChainKey → List SkippedMessageKey → List SkippedMessageKey
  skipped_after zero ratchet_key chain_key keys = keys
  skipped_after (suc n) ratchet_key chain_key keys =
      skipped_after n ratchet_key (advance_chain_key p chain_key) (
        insert_front max_skipped_message_keys
          (record { ratchet_key = ratchet_key; message_key = create_message_keys p chain_key })
          keys)

  pub index-advance_chain_key :
      (chain_key : ChainKey)
      → chain_key.index + 1 < 2 ^ 32
      → (advance_chain_key p chain_key).index ≡ chain_key.index + 1
  unfolding advance_chain_key
  index-advance_chain_key chain_key h = omega arith

  pub index-chain_at :
      (n : ℕ) (chain_key : ChainKey)
      → chain_key.index + n < 2 ^ 32
      → (chain_at n chain_key).index ≡ chain_key.index + n
  unfolding chain_at
  index-chain_at zero chain_key h = omega arith
  index-chain_at (suc n) chain_key h =
      let e = index-advance_chain_key chain_key (omega arith) in
      omega (arith, e, index-chain_at n (advance_chain_key p chain_key) (omega (arith, e)))

  pub chain_at-suc :
      (n : ℕ) (chain_key : ChainKey)
      → chain_at (suc n) chain_key ≡ advance_chain_key p (chain_at n chain_key)
  unfolding chain_at
  chain_at-suc zero chain_key = refl
  chain_at-suc (suc n) chain_key = chain_at-suc n (advance_chain_key p chain_key)

  pub chain_at-add :
      (m n : ℕ) (chain_key : ChainKey)
      → chain_at (m + n) chain_key ≡ chain_at n (chain_at m chain_key)
  unfolding chain_at
  chain_at-add zero n chain_key = let e : 0 + n ≡ n = omega arith in rw e refl
  chain_at-add (suc m) n chain_key =
      let e : suc m + n ≡ suc (m + n) = omega arith in
      rw e (chain_at-add m n (advance_chain_key p chain_key))

  -- The loop ends, by its test, at the counter.
  pub advance_to-chain_at :
      (n counter : ℕ) (chain_key : ChainKey)
      → chain_key.index + n ≡ counter
      → counter < 2 ^ 32
      → advance_to p n counter chain_key ≡ chain_at n chain_key
  unfolding advance_to chain_at
  advance_to-chain_at zero counter chain_key h k = refl
  advance_to-chain_at (suc n) counter chain_key h k =
      let e = index-advance_chain_key chain_key (omega arith) in
      rw (lt→ltb chain_key.index counter (omega arith), advance_to)
        (advance_to-chain_at n counter (advance_chain_key p chain_key) (omega (arith, e)) k)

  pub store_skipped-chain_at :
      (n counter : ℕ) (ratchet_key : Bytes) (chain_key : ChainKey) (keys : List SkippedMessageKey)
      → chain_key.index + n ≡ counter
      → counter < 2 ^ 32
      → store_skipped p n counter ratchet_key chain_key keys
        ≡ (chain_at n chain_key, skipped_after n ratchet_key chain_key keys)
  unfolding store_skipped chain_at skipped_after
  store_skipped-chain_at zero counter ratchet_key chain_key keys h k = refl
  store_skipped-chain_at (suc n) counter ratchet_key chain_key keys h k =
      let e = index-advance_chain_key chain_key (omega arith) in
      rw (lt→ltb chain_key.index counter (omega arith), store_skipped)
        (store_skipped-chain_at n counter ratchet_key (advance_chain_key p chain_key) _
          (omega (arith, e)) k)
