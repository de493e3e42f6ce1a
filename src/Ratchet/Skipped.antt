-- ===== src/Ratchet/Skipped.antt =====
-- The keys that src/ratchet.cpp keeps for messages that have been overtaken.
use olm.Base.{
  ℕ, zero, suc, ◌+◌, ◌-◌, ◌^◌, ◌≤◌, ◌<◌, Bytes, true, false, some, List, [], ◌∷◌, take, ltb, ◌==◌,
  ◌≡◌, refl, ap, arith, ◌∙◌, ◌&&◌, Bool-cases, inl, inr, take-take,
}
use olm.Memory.{memcmp_equal}
use olm.BoundedList.{set_elem, insert_front}
use olm.Crypto.External.{Primitives}
use olm.Crypto.{plaintext}
use olm.Ratchet.{
  ReceiverChain, Received, ChainKey, SkippedMessageKey, advance_chain_key, create_message_keys,
  verify_mac_and_decrypt,
}
use olm.Ratchet.Decryption.{find_chain, try_skipped}
use olm.Ratchet.Chains.{chain_at, skipped_after, index-chain_at}

-- A chain that is found has the ratchet key.
pub find_chain-matches :
    (ratchet_key : Bytes) (start position : ℕ) (chains : List ReceiverChain) (chain : ReceiverChain)
    → find_chain ratchet_key start chains ≡ some (position, chain)
    → memcmp_equal 32 chain.ratchet_key ratchet_key ≡ true
unfolding find_chain
find_chain-matches ratchet_key start position [] chain h = absurd (ground arith)
find_chain-matches ratchet_key start position (c ∷ chains) chain h =
    ground (arith, find_chain-matches ratchet_key (suc start) position chains chain)

pub find_chain_later :
    (ratchet_key : Bytes) (start position : ℕ) (chains : List ReceiverChain) (chain : ReceiverChain)
    → find_chain ratchet_key start chains ≡ some (position, chain)
    → start ≤ position
unfolding find_chain
find_chain_later ratchet_key start position [] chain h = absurd (ground arith)
find_chain_later ratchet_key start position (c ∷ chains) chain h =
    ground (arith, find_chain_later ratchet_key (suc start) position chains chain)

-- A chain that moves on is found in its old place.
pub find_chain-set_elem :
    (ratchet_key : Bytes) (start found position : ℕ) (chains : List ReceiverChain)
    (chain chain' : ReceiverChain)
    → find_chain ratchet_key start chains ≡ some (found, chain)
    → found ≡ start + position
    → chain'.ratchet_key ≡ chain.ratchet_key
    → find_chain ratchet_key start (set_elem chains position chain') ≡ some (found, chain')
unfolding find_chain set_elem
find_chain-set_elem ratchet_key start found position [] chain chain' h at k = absurd (ground arith)
find_chain-set_elem ratchet_key start found zero (c ∷ chains) chain chain' h at k =
    elim (Bool-cases (memcmp_equal 32 c.ratchet_key ratchet_key)) [
      | inl same ↦
          let e : memcmp_equal 32 chain'.ratchet_key ratchet_key ≡ true =
            rw k (find_chain-matches ratchet_key start found (c ∷ chains) chain h) in
          let here : start ≡ found = omega arith in rw e (ap (λ (t : ℕ). some (t, chain')) here)
      | inr other ↦ absurd (
          let r : find_chain ratchet_key (suc start) chains ≡ some (found, chain) = rw other at h in
          let later = find_chain_later ratchet_key (suc start) found chains chain r in
          omega (arith))
    ]
find_chain-set_elem ratchet_key start found (suc position) (c ∷ chains) chain chain' h at k =
    elim (Bool-cases (memcmp_equal 32 c.ratchet_key ratchet_key)) [
      | inl same ↦ absurd (ground arith)
      | inr other ↦
          let r : find_chain ratchet_key (suc start) chains ≡ some (found, chain) = rw other at h in
          rw other (
            find_chain-set_elem ratchet_key (suc start) found position chains chain chain' r
              (omega arith) k)
    ]

module _ (p : Primitives) where
  -- The key of the message `n` steps on.
  abbrev pub kept_key : Bytes → ℕ → ChainKey → SkippedMessageKey
  kept_key ratchet_key n chain_key = record {
    ratchet_key = ratchet_key;
    message_key = create_message_keys p (chain_at p n chain_key);
  }

  skipped_after-suc :
      (n : ℕ) (ratchet_key : Bytes) (chain_key : ChainKey) (keys : List SkippedMessageKey)
      → skipped_after p (suc n) ratchet_key chain_key keys
        ≡ insert_front 40
            (kept_key ratchet_key n chain_key)
            (skipped_after p n ratchet_key chain_key keys)
  unfolding skipped_after chain_at
  skipped_after-suc zero ratchet_key chain_key keys = refl
  skipped_after-suc (suc n) ratchet_key chain_key keys =
      skipped_after-suc n ratchet_key (advance_chain_key p chain_key) _

  try_skipped_hit :
      (cipher : Bytes) (reader : Received) (max position : ℕ) (key : SkippedMessageKey)
      (keys : List SkippedMessageKey) (plain : Bytes)
      → (reader.counter == key.message_key.index) ≡ true
      → memcmp_equal 32 key.ratchet_key reader.ratchet_key ≡ true
      → verify_mac_and_decrypt p cipher key.message_key reader max ≡ plaintext plain
      → try_skipped p cipher reader max position (key ∷ keys) ≡ (position, plaintext plain)
  unfolding try_skipped
  try_skipped_hit cipher reader max position key keys plain h k v = rw (h, k, v, try_skipped) refl

  try_skipped_miss :
      (cipher : Bytes) (reader : Received) (max position : ℕ) (key : SkippedMessageKey)
      (keys : List SkippedMessageKey)
      → ((reader.counter == key.message_key.index)
          && memcmp_equal 32 key.ratchet_key reader.ratchet_key)
        ≡ false
      → try_skipped p cipher reader max position (key ∷ keys)
        ≡ try_skipped p cipher reader max (suc position) keys
  unfolding try_skipped
  try_skipped_miss cipher reader max position key keys h = rw (h, try_skipped) refl

  index_below :
      (j n : ℕ) (chain_key : ChainKey)
      → j < n
      → chain_key.index + n < 2 ^ 32
      → ((chain_key.index + j) == (chain_at p n chain_key).index) ≡ false
  index_below j n chain_key h k = ground (arith, index-chain_at p n chain_key k)

  -- The `j`th of the last `t` keys of `n` is found among them.
  pub try_skipped-skipped_after :
      (n j t position max : ℕ) (cipher : Bytes) (reader : Received) (ratchet_key : Bytes)
      (chain_key : ChainKey) (keys : List SkippedMessageKey) (plain : Bytes)
      → j < n
      → n ≤ j + t
      → t ≤ 40
      → chain_key.index + n < 2 ^ 32
      → reader.counter ≡ chain_key.index + j
      → memcmp_equal 32 ratchet_key reader.ratchet_key ≡ true
      → verify_mac_and_decrypt p cipher (create_message_keys p (chain_at p j chain_key)) reader max
        ≡ plaintext plain
      → try_skipped p cipher reader max position
          (take t (skipped_after p n ratchet_key chain_key keys))
        ≡ (position + (n - 1 - j), plaintext plain)
  unfolding create_message_keys
  try_skipped-skipped_after zero j t position max cipher reader ratchet_key chain_key keys plain h
        room t40 bits counter same opens =
      absurd (omega arith)
  try_skipped-skipped_after (suc n) j zero position max cipher reader ratchet_key chain_key keys
        plain h room t40 bits counter same opens =
      absurd (omega arith)
  try_skipped-skipped_after (suc n) j (suc t) position max cipher reader ratchet_key chain_key keys
        plain h room t40 bits counter same opens =
      let front = kept_key ratchet_key n chain_key in
      let before = skipped_after p n ratchet_key chain_key keys in
      let shape : take (suc t) (skipped_after p (suc n) ratchet_key chain_key keys)
          ≡ front ∷ take t before =
        ap (take (suc t)) (skipped_after-suc n ratchet_key chain_key keys)
        ∙ take-take (suc t) 40 (front ∷ before) t40 in
      ap (try_skipped p cipher reader max position) shape ∙ elim (Bool-cases (ltb j n)) [
        | inl earlier ↦
            let below : j < n = ground arith in
            let differs : (reader.counter == (chain_at p n chain_key).index) ≡ false =
              ap (λ (i : ℕ). i == (chain_at p n chain_key).index) counter
              ∙ index_below j n chain_key below (omega arith) in
            let at : suc position + (n - 1 - j) ≡ position + (suc n - 1 - j) = omega arith in
            try_skipped_miss cipher reader max position front (take t before) (rw differs refl)
            ∙ try_skipped-skipped_after n j t (suc position) max cipher reader ratchet_key chain_key
                keys plain below (omega arith) (omega arith) (omega arith) counter same opens
            ∙ ap (λ (i : ℕ). (i, plaintext plain)) at
        | inr last ↦
            let here : j ≡ n = ground arith in
            let equal : (reader.counter == (chain_at p n chain_key).index) ≡ true =
              ground (arith, index-chain_at p n chain_key, counter) in
            let at : position ≡ position + (suc n - 1 - j) = omega arith in
            try_skipped_hit cipher reader max position front (take t before) plain equal same
              (rw here at opens)
            ∙ ap (λ (i : ℕ). (i, plaintext plain)) at
      ]

  -- The kept keys are no more than the list has room for.
  pub skipped_after_bounded :
      (n : ℕ) (ratchet_key : Bytes) (chain_key : ChainKey) (keys : List SkippedMessageKey)
      → 0 < n
      → take 40 (skipped_after p n ratchet_key chain_key keys)
        ≡ skipped_after p n ratchet_key chain_key keys
  skipped_after_bounded zero ratchet_key chain_key keys h = absurd (omega arith)
  skipped_after_bounded (suc n) ratchet_key chain_key keys h =
      rw (skipped_after-suc n ratchet_key chain_key keys) (
        take-take 40 40
          (kept_key ratchet_key n chain_key ∷ skipped_after p n ratchet_key chain_key keys)
          (omega arith))
