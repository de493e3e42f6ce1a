-- ===== src/Ratchet/Past.antt =====
-- Keys of src/ratchet.cpp that are kept belong to messages that their chain has passed.
use olm.Base.{
  ℕ, zero, suc, ◌+◌, ◌^◌, ◌≤◌, ◌<◌, Bytes, true, false, List, [], ◌∷◌, All, All-take, ◌==◌, ◌&&◌,
  ◌≡◌, refl, arith, Bool-cases, inl, inr,
}
use olm.Memory.{memcmp_equal}
use olm.BoundedList.{insert_front}
use olm.Crypto.External.{Primitives}
use olm.Crypto.{failed}
use olm.Ratchet.{ChainKey, SkippedMessageKey, Received, advance_chain_key, create_message_keys}
use olm.Ratchet.Decryption.{try_skipped}
use olm.Ratchet.Chains.{skipped_after, index-advance_chain_key}

-- A key of the chain of `ratchet_key` is for a message in front of `bound`.
abbrev pub IsPastKey : Bytes → ℕ → SkippedMessageKey → Type 0
IsPastKey ratchet_key bound key =
    memcmp_equal 32 key.ratchet_key ratchet_key ≡ true → key.message_key.index < bound

abbrev pub IsPast : Bytes → ℕ → List SkippedMessageKey → Type 0
IsPast ratchet_key bound = All (IsPastKey ratchet_key bound)

pub IsPast-later :
    (ratchet_key : Bytes) (bound later : ℕ) (keys : List SkippedMessageKey)
    → bound ≤ later
    → IsPast ratchet_key bound keys
    → IsPast ratchet_key later keys
IsPast-later ratchet_key bound later [] h k = tt
IsPast-later ratchet_key bound later (key ∷ keys) h (first, rest) =
    (λ same. omega (arith, first same), IsPast-later ratchet_key bound later keys h rest)

module _ (p : Primitives) where
  pub skipped_after-IsPast :
      (n : ℕ) (ratchet_key theirs : Bytes) (chain_key : ChainKey) (keys : List SkippedMessageKey)
      → chain_key.index + n < 2 ^ 32
      → IsPast ratchet_key chain_key.index keys
      → IsPast ratchet_key (chain_key.index + n) (skipped_after p n theirs chain_key keys)
  unfolding skipped_after create_message_keys
  skipped_after-IsPast zero ratchet_key theirs chain_key keys h past =
      IsPast-later ratchet_key chain_key.index (chain_key.index + 0) keys (omega arith) past
  skipped_after-IsPast (suc n) ratchet_key theirs chain_key keys h past =
      let e = index-advance_chain_key p chain_key (omega arith) in
      let next = advance_chain_key p chain_key in
      let key : SkippedMessageKey = record {
        ratchet_key = theirs;
        message_key = create_message_keys p chain_key;
      } in
      let one_more : IsPast ratchet_key next.index (key ∷ keys) = (
        λ same. omega (arith, e),
        IsPast-later ratchet_key chain_key.index next.index keys (omega (arith, e)) past,
      ) in
      IsPast-later ratchet_key (next.index + n) (chain_key.index + suc n) _ (omega (arith, e)) (
        skipped_after-IsPast n ratchet_key theirs next (insert_front 40 key keys) (omega (arith, e))
          (All-take (IsPastKey ratchet_key next.index) 40 (key ∷ keys) one_more))

  -- None of them is tried on a message that the chain has not passed.
  pub try_skipped-IsPast :
      (cipher : Bytes) (reader : Received) (max position bound : ℕ) (keys : List SkippedMessageKey)
      → IsPast reader.ratchet_key bound keys
      → bound ≤ reader.counter
      → (try_skipped p cipher reader max position keys).1 ≡ failed
  unfolding try_skipped
  try_skipped-IsPast cipher reader max position bound [] past h = refl
  try_skipped-IsPast cipher reader max position bound (key ∷ keys) (first, rest) h =
      let miss : ((reader.counter == key.message_key.index)
            && memcmp_equal 32 key.ratchet_key reader.ratchet_key)
          ≡ false =
        elim (Bool-cases (memcmp_equal 32 key.ratchet_key reader.ratchet_key)) [
          | inl same ↦ ground (arith, first same)
          | inr other ↦ ground (arith, other)
        ] in
      rw (miss, try_skipped) (try_skipped-IsPast cipher reader max (suc position) bound keys rest h)
