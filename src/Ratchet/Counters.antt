-- ===== src/Ratchet/Counters.antt =====
-- The numbers of the messages of one ratchet key in the state of src/ratchet.cpp: the index of its
-- chain, and the skipped keys that are kept of it.
use olm.Base.{
  ℕ, zero, suc, ◌+◌, ◌≤◌, Bytes, true, false, none, some, List, [], ◌∷◌, All, All-take, take,
  if◌then◌else◌, ◌≡◌, ◌≢◌, ◌⊎◌, refl, ap, arith, Bool-cases, inl, inr,
}
use olm.Memory.{memcmp_equal}
use olm.BoundedList.{set_elem, erase_at}
use olm.Ratchet.{ReceiverChain, SkippedMessageKey}
use olm.Ratchet.Decryption.{find_chain}
use olm.Ratchet.Skipped.{find_chain_later, find_chain-set_elem}
use olm.Ratchet.Past.{IsPast}

-- The index of the chain of a ratchet key, which is 0 where there is none.
unfoldable pub next_index : Bytes → List ReceiverChain → ℕ
next_index ratchet_key [] = 0
next_index ratchet_key (chain ∷ chains) =
    let rest = next_index ratchet_key chains in
    if memcmp_equal 32 chain.ratchet_key ratchet_key then chain.chain_key.index else rest

pub next_index-found :
    (ratchet_key : Bytes) (start position : ℕ) (chains : List ReceiverChain) (chain : ReceiverChain)
    → find_chain ratchet_key start chains ≡ some (position, chain)
    → next_index ratchet_key chains ≡ chain.chain_key.index
unfolding find_chain next_index
next_index-found ratchet_key start position [] chain h = absurd (ground arith)
next_index-found ratchet_key start position (c ∷ chains) chain h =
    ground (arith, next_index-found ratchet_key (suc start) position chains chain)

pub next_index-missing :
    (ratchet_key : Bytes) (start : ℕ) (chains : List ReceiverChain)
    → find_chain ratchet_key start chains ≡ none
    → next_index ratchet_key chains ≡ 0
unfolding find_chain next_index
next_index-missing ratchet_key start [] h = refl
next_index-missing ratchet_key start (c ∷ chains) h =
    ground (arith, next_index-missing ratchet_key (suc start) chains)

-- A chain that moves on, seen by its own key and by another one.
pub next_index-set_elem :
    (ratchet_key : Bytes) (position : ℕ) (chains : List ReceiverChain)
    (chain chain' : ReceiverChain)
    → find_chain ratchet_key 0 chains ≡ some (position, chain)
    → chain'.ratchet_key ≡ chain.ratchet_key
    → next_index ratchet_key (set_elem chains position chain') ≡ chain'.chain_key.index
next_index-set_elem ratchet_key position chains chain chain' h same =
    next_index-found ratchet_key 0 position (set_elem chains position chain') chain'
      (find_chain-set_elem ratchet_key 0 position position chains chain chain' h (omega arith) same)

pub next_index-set_elem_other :
    (ratchet_key theirs : Bytes) (start found position : ℕ) (chains : List ReceiverChain)
    (chain chain' : ReceiverChain)
    → find_chain theirs start chains ≡ some (found, chain)
    → found ≡ start + position
    → chain'.ratchet_key ≡ chain.ratchet_key
    → memcmp_equal 32 chain.ratchet_key ratchet_key ≡ false
    → next_index ratchet_key (set_elem chains position chain') ≡ next_index ratchet_key chains
unfolding find_chain next_index set_elem
next_index-set_elem_other ratchet_key theirs start found position [] chain chain' h at k differs =
    absurd (ground arith)
next_index-set_elem_other ratchet_key theirs start found zero (c ∷ chains) chain chain' h at k
      differs =
    elim (Bool-cases (memcmp_equal 32 c.ratchet_key theirs)) [
      | inl same ↦
          let e : c ≡ chain = ground (arith, h, same) in
          let d : memcmp_equal 32 c.ratchet_key ratchet_key ≡ false = rw e differs in
          rw (k, differs, d) refl
      | inr other ↦ absurd (
          let r : find_chain theirs (suc start) chains ≡ some (found, chain) = rw other at h in
          let later = find_chain_later theirs (suc start) found chains chain r in omega (arith))
    ]
next_index-set_elem_other ratchet_key theirs start found (suc position) (c ∷ chains) chain chain' h
      at k differs =
    elim (Bool-cases (memcmp_equal 32 c.ratchet_key theirs)) [
      | inl same ↦ absurd (ground arith)
      | inr other ↦
          let r : find_chain theirs (suc start) chains ≡ some (found, chain) = rw other at h in
          ap (λ (n : ℕ). if memcmp_equal 32 c.ratchet_key ratchet_key then c.chain_key.index else n)
            (next_index-set_elem_other ratchet_key theirs (suc start) found position chains chain
              chain' r (omega arith) k differs)
    ]

pub next_index-take :
    (ratchet_key : Bytes) (n : ℕ) (chains : List ReceiverChain)
    → (next_index ratchet_key (take n chains) ≡ next_index ratchet_key chains)
      ⊎ (next_index ratchet_key (take n chains) ≡ 0)
unfolding next_index
next_index-take ratchet_key zero chains = inr refl
next_index-take ratchet_key (suc n) [] = inr refl
next_index-take ratchet_key (suc n) (c ∷ chains) =
    elim (Bool-cases (memcmp_equal 32 c.ratchet_key ratchet_key)) [
      | inl same ↦ inl (rw same refl)
      | inr other ↦ rw other (next_index-take ratchet_key n chains)
    ]

-- No key of the ratchet key is kept for the message with the counter.
abbrev pub IsOtherKey : Bytes → ℕ → SkippedMessageKey → Type 0
IsOtherKey ratchet_key counter key =
    memcmp_equal 32 key.ratchet_key ratchet_key ≡ true → key.message_key.index ≢ counter

abbrev pub IsAbsent : Bytes → ℕ → List SkippedMessageKey → Type 0
IsAbsent ratchet_key counter = All (IsOtherKey ratchet_key counter)

-- No two keys of the ratchet key are for one message.
unfoldable pub IsDistinct : Bytes → List SkippedMessageKey → Type 0
IsDistinct ratchet_key [] = Unit
IsDistinct ratchet_key (key ∷ keys) =
    (memcmp_equal 32 key.ratchet_key ratchet_key ≡ true
      → IsAbsent ratchet_key key.message_key.index keys)
    × IsDistinct ratchet_key keys

pub IsPast-IsAbsent :
    (ratchet_key : Bytes) (bound counter : ℕ) (keys : List SkippedMessageKey)
    → bound ≤ counter
    → IsPast ratchet_key bound keys
    → IsAbsent ratchet_key counter keys
IsPast-IsAbsent ratchet_key bound counter [] h past = tt
IsPast-IsAbsent ratchet_key bound counter (key ∷ keys) h (first, rest) =
    (λ same e. omega (arith, first same), IsPast-IsAbsent ratchet_key bound counter keys h rest)

pub IsDistinct-take :
    (ratchet_key : Bytes) (n : ℕ) (keys : List SkippedMessageKey)
    → IsDistinct ratchet_key keys
    → IsDistinct ratchet_key (take n keys)
unfolding IsDistinct
IsDistinct-take ratchet_key zero keys h = tt
IsDistinct-take ratchet_key (suc n) [] h = tt
IsDistinct-take ratchet_key (suc n) (key ∷ keys) (first, rest) = (
  λ same. All-take (IsOtherKey ratchet_key key.message_key.index) n keys (first same),
  IsDistinct-take ratchet_key n keys rest,
)

pub All-erase_at :
    (P : SkippedMessageKey → Type 0) (position : ℕ) (keys : List SkippedMessageKey)
    → All P keys
    → All P (erase_at position keys)
All-erase_at P zero [] h = tt
All-erase_at P (suc position) [] h = tt
All-erase_at P zero (key ∷ keys) (first, rest) = rest
All-erase_at P (suc position) (key ∷ keys) (first, rest) =
    (first, All-erase_at P position keys rest)

pub IsDistinct-erase_at :
    (ratchet_key : Bytes) (position : ℕ) (keys : List SkippedMessageKey)
    → IsDistinct ratchet_key keys
    → IsDistinct ratchet_key (erase_at position keys)
unfolding IsDistinct
IsDistinct-erase_at ratchet_key zero [] h = tt
IsDistinct-erase_at ratchet_key (suc position) [] h = tt
IsDistinct-erase_at ratchet_key zero (key ∷ keys) (first, rest) = rest
IsDistinct-erase_at ratchet_key (suc position) (key ∷ keys) (first, rest) = (
  λ same. All-erase_at (IsOtherKey ratchet_key key.message_key.index) position keys (first same),
  IsDistinct-erase_at ratchet_key position keys rest,
)
