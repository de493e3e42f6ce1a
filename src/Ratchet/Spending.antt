-- ===== src/Ratchet/Spending.antt =====
-- What the loops of `decrypt` in src/ratchet.cpp do to the skipped keys of one ratchet key.
use olm.Base.{
  ℕ, zero, suc, ◌+◌, ◌^◌, ◌<◌, Bytes, true, false, List, [], ◌∷◌, All, All-take, ◌==◌, ◌&&◌, ◌≡◌,
  refl, arith, Bool-cases, inl, inr,
}
use olm.Memory.{memcmp_equal}
use olm.BoundedList.{erase_at}
use olm.Crypto.External.{Primitives}
use olm.Crypto.{Decrypted, plaintext, failed, fault}
use olm.Ratchet.{
  ChainKey, SkippedMessageKey, Received, advance_chain_key, create_message_keys,
  verify_mac_and_decrypt,
}
use olm.Ratchet.Decryption.{try_skipped}
use olm.Ratchet.Chains.{skipped_after, index-advance_chain_key}
use olm.Ratchet.Past.{IsPastKey, IsPast, IsPast-later}
use olm.Ratchet.Counters.{IsOtherKey, IsAbsent, IsDistinct, IsPast-IsAbsent, IsDistinct-take}

-- What a key that fits comes to, with the keys behind it.
abbrev or_rest : ℕ → Decrypted → ℕ × Decrypted → ℕ × Decrypted
or_rest position result rest = elim result [
  | plaintext plain ↦ (position, plaintext plain)
  | failed ↦ rest
  | fault ↦ (position, fault)
]

opened_here :
    (start position : ℕ) (result : Decrypted) (rest : ℕ × Decrypted) (plain : Bytes)
    → rest.1 ≡ failed
    → or_rest start result rest ≡ (position, plaintext plain)
    → position ≡ start
opened_here start position (plaintext text) rest plain none_left h = ground (arith, h)
opened_here start position failed (at, result) plain none_left h =
    absurd (ground (arith, h, none_left))
opened_here start position fault rest plain none_left h = absurd (ground (arith, h))

module _ (p : Primitives) where
  -- A predicate that holds of the keys of a chain is kept by keeping more of them.
  pub skipped_after-All :
      (P : SkippedMessageKey → Type 0) (n : ℕ) (theirs : Bytes) (chain_key : ChainKey)
      (keys : List SkippedMessageKey)
      → ((c : ChainKey)
          → P (record { ratchet_key = theirs; message_key = create_message_keys p c }))
      → All P keys
      → All P (skipped_after p n theirs chain_key keys)
  unfolding skipped_after
  skipped_after-All P zero theirs chain_key keys new h = h
  skipped_after-All P (suc n) theirs chain_key keys new h =
      skipped_after-All P n theirs (advance_chain_key p chain_key) _ new
        (All-take P 40 (_ ∷ keys) (new chain_key, h))

  pub skipped_after-IsDistinct_other :
      (n : ℕ) (ratchet_key theirs : Bytes) (chain_key : ChainKey) (keys : List SkippedMessageKey)
      → memcmp_equal 32 theirs ratchet_key ≡ false
      → IsDistinct ratchet_key keys
      → IsDistinct ratchet_key (skipped_after p n theirs chain_key keys)
  unfolding skipped_after IsDistinct
  skipped_after-IsDistinct_other zero ratchet_key theirs chain_key keys differs h = h
  skipped_after-IsDistinct_other (suc n) ratchet_key theirs chain_key keys differs h =
      let key : SkippedMessageKey = record {
        ratchet_key = theirs;
        message_key = create_message_keys p chain_key;
      } in
      skipped_after-IsDistinct_other n ratchet_key theirs (advance_chain_key p chain_key) _ differs
        (IsDistinct-take ratchet_key 40 (key ∷ keys)
          (λ same. absurd (ground (arith, same, differs)), h))

  -- The keys of the chain itself, which come behind those that are kept.
  pub skipped_after-IsDistinct :
      (n : ℕ) (ratchet_key theirs : Bytes) (chain_key : ChainKey) (keys : List SkippedMessageKey)
      → chain_key.index + n < 2 ^ 32
      → IsPast ratchet_key chain_key.index keys
      → IsDistinct ratchet_key keys
      → IsDistinct ratchet_key (skipped_after p n theirs chain_key keys)
  unfolding skipped_after IsDistinct create_message_keys
  skipped_after-IsDistinct zero ratchet_key theirs chain_key keys h past distinct = distinct
  skipped_after-IsDistinct (suc n) ratchet_key theirs chain_key keys h past distinct =
      let e = index-advance_chain_key p chain_key (omega arith) in
      let next = advance_chain_key p chain_key in
      let key : SkippedMessageKey = record {
        ratchet_key = theirs;
        message_key = create_message_keys p chain_key;
      } in
      skipped_after-IsDistinct n ratchet_key theirs next _ (omega (arith, e))
        (All-take (IsPastKey ratchet_key next.index) 40 (key ∷ keys) (
          λ same. omega (arith, e),
          IsPast-later ratchet_key chain_key.index next.index keys (omega (arith, e)) past,
        ))
        (IsDistinct-take ratchet_key 40 (key ∷ keys) (
          λ same.
              IsPast-IsAbsent ratchet_key chain_key.index chain_key.index keys (omega arith) past,
          distinct,
        ))

  pub skipped_after-IsAbsent :
      (n counter : ℕ) (ratchet_key theirs : Bytes) (chain_key : ChainKey)
      (keys : List SkippedMessageKey)
      → chain_key.index + n < 2 ^ 32
      → counter < chain_key.index
      → IsAbsent ratchet_key counter keys
      → IsAbsent ratchet_key counter (skipped_after p n theirs chain_key keys)
  unfolding skipped_after create_message_keys
  skipped_after-IsAbsent zero counter ratchet_key theirs chain_key keys h before absent = absent
  skipped_after-IsAbsent (suc n) counter ratchet_key theirs chain_key keys h before absent =
      let e = index-advance_chain_key p chain_key (omega arith) in
      let key : SkippedMessageKey = record {
        ratchet_key = theirs;
        message_key = create_message_keys p chain_key;
      } in
      skipped_after-IsAbsent n counter ratchet_key theirs (advance_chain_key p chain_key) _
        (omega (arith, e)) (omega (arith, e))
        (All-take (IsOtherKey ratchet_key counter) 40 (key ∷ keys)
          (λ same equal. omega (arith, equal), absent))

  -- A message for which no key is kept is not opened.
  pub try_skipped-IsAbsent :
      (cipher : Bytes) (reader : Received) (max position : ℕ) (keys : List SkippedMessageKey)
      → IsAbsent reader.ratchet_key reader.counter keys
      → (try_skipped p cipher reader max position keys).1 ≡ failed
  unfolding try_skipped
  try_skipped-IsAbsent cipher reader max position [] absent = refl
  try_skipped-IsAbsent cipher reader max position (key ∷ keys) (first, rest) =
      let miss : ((reader.counter == key.message_key.index)
            && memcmp_equal 32 key.ratchet_key reader.ratchet_key)
          ≡ false =
        elim (Bool-cases (memcmp_equal 32 key.ratchet_key reader.ratchet_key)) [
          | inl same ↦ ground (arith, first same)
          | inr other ↦ ground (arith, other)
        ] in
      rw (miss, try_skipped) (try_skipped-IsAbsent cipher reader max (suc position) keys rest)

  -- Once the key that opened the message is erased, none is kept for it.
  pub try_skipped-erase_at :
      (cipher : Bytes) (reader : Received) (max start position : ℕ) (keys : List SkippedMessageKey)
      (plain : Bytes)
      → IsDistinct reader.ratchet_key keys
      → try_skipped p cipher reader max start keys ≡ (position, plaintext plain)
      → (i : ℕ) × (position ≡ start + i)
        × IsAbsent reader.ratchet_key reader.counter (erase_at i keys)
  unfolding try_skipped IsDistinct
  try_skipped-erase_at cipher reader max start position [] plain distinct h =
      absurd (ground (arith, h))
  try_skipped-erase_at cipher reader max start position (key ∷ keys) plain (first, rest) h =
      let fits =
        (reader.counter == key.message_key.index)
        && memcmp_equal 32 key.ratchet_key reader.ratchet_key in
      elim (Bool-cases fits) [
        | inl hit ↦
            let absent : IsAbsent reader.ratchet_key reader.counter keys =
              let same : memcmp_equal 32 key.ratchet_key reader.ratchet_key ≡ true =
                ground (arith, hit) in
              let equal : key.message_key.index ≡ reader.counter = ground (arith, hit) in
              rw equal at (first same) in
            let here =
              opened_here start position
                (verify_mac_and_decrypt p cipher key.message_key reader max)
                (try_skipped p cipher reader max (suc start) keys) plain
                (try_skipped-IsAbsent cipher reader max (suc start) keys absent) (rw hit at h) in
            (0, omega (arith, here), absent)
        | inr miss ↦
            let (i, at, absent) =
              try_skipped-erase_at cipher reader max (suc start) position keys plain rest
                (rw miss at h) in
            (suc i, omega (arith, at), (λ same equal. ground (arith, miss, same, equal), absent))
      ]
