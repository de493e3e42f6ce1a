-- ===== src/Ratchet/Spent.antt =====
-- Messages that `decrypt` of src/ratchet.cpp has opened, and what moving a chain does to them.
use olm.Base.{ℕ, ◌+◌, ◌%◌, ◌^◌, ◌<◌, Bytes, true, false, some, length, ◌≡◌, arith}
use olm.Memory.{memcmp_equal}
use olm.Memory.Equality.{memcmp_equal_refl}
use olm.Crypto.External.{Primitives}
use olm.Crypto.{Decrypted, plaintext}
use olm.Message.Normal.{MessageReader, decode_message}
use olm.Ratchet.{Ratchet, ChainKey, ReceiverChain, Received, advance_chain_key}
use olm.Ratchet.Chains.{skipped_after, index-chain_at}
use olm.Ratchet.Delivery.{moved_chain}
use olm.Ratchet.Cases.{IsReading}
use olm.Ratchet.Past.{IsPastKey, IsPast, IsPast-later, skipped_after-IsPast}
use olm.Ratchet.Counters.{next_index, IsOtherKey, IsAbsent, IsDistinct, IsPast-IsAbsent}
use olm.Ratchet.Spending.{
  skipped_after-All, skipped_after-IsDistinct_other, skipped_after-IsDistinct,
  skipped_after-IsAbsent,
}

pub index-moved_chain_wrap :
    (p : Primitives) (gap : ℕ) (chain : ReceiverChain)
    → chain.chain_key.index + gap < 2 ^ 32
    → (moved_chain p gap chain).chain_key.index ≡ (chain.chain_key.index + gap + 1) % 2 ^ 32
unfolding advance_chain_key
index-moved_chain_wrap p gap chain h = omega (arith, index-chain_at p gap chain.chain_key h)

-- The ratchet key and the counter of a message.
abbrev pub IsNumbered : Bytes → Bytes → ℕ → Type 0
IsNumbered text ratchet_key counter =
    (fields : MessageReader) × (decode_message text 8 ≡ some fields)
    × (fields.ratchet_key ≡ some ratchet_key)
    × (fields.counter ≡ counter)

-- The index of the chain of a ratchet key.
abbrev pub index_of : Bytes → Ratchet → ℕ
index_of ratchet_key session = next_index ratchet_key session.receiver_chains

-- The keys that are kept of a ratchet key are for messages in front of its chain, one for each.
abbrev pub IsOrderly : Bytes → Ratchet → Type 0
IsOrderly ratchet_key session =
    IsPast ratchet_key (index_of ratchet_key session) session.skipped_message_keys
    × IsDistinct ratchet_key session.skipped_message_keys

-- The chain has passed the message, and no key is kept for it.
abbrev pub IsSpent : Bytes → ℕ → Ratchet → Type 0
IsSpent ratchet_key counter session =
    (counter < index_of ratchet_key session)
    × IsAbsent ratchet_key counter session.skipped_message_keys

-- What a call does to the order of the keys and to a message that is spent.
pub record Step (ratchet_key : Bytes) (counter : ℕ) (session : Ratchet) (input : Bytes)
    (outcome : Ratchet × Decrypted) : Type 0 where
  pub orderly : IsOrderly ratchet_key outcome.0
  pub still : IsSpent ratchet_key counter session → IsSpent ratchet_key counter outcome.0
  pub spends :
      IsNumbered input ratchet_key counter
      → (plain : Bytes) → outcome.1 ≡ plaintext plain
      → IsSpent ratchet_key counter outcome.0

pub same_number :
    (input ratchet_key : Bytes) (counter : ℕ) (reader : Received)
    → IsReading input reader
    → IsNumbered input ratchet_key counter
    → (reader.ratchet_key ≡ ratchet_key) × (reader.counter ≡ counter)
same_number input ratchet_key counter reader (fields, decoded, key, at, size)
      (fields', decoded', key', at') =
    let e : fields ≡ fields' = ground (arith, decoded, decoded') in
    (ground (arith, e, key, key'), ground (arith, e, at, at'))

module _ (p : Primitives) (ratchet_key : Bytes) (counter : ℕ) (session session' : Ratchet)
    (input : Bytes) (reader : Received) (r : IsReading input reader)
    (orderly : IsOrderly ratchet_key session) (gap : ℕ) (theirs : Bytes) (chain_key : ChainKey)
    (plain : Bytes)
    (keys : session'.skipped_message_keys
      ≡ skipped_after p gap theirs chain_key session.skipped_message_keys) where
  -- A message of the ratchet key itself that is opened on its chain.
  pub own_chain :
      reader.ratchet_key ≡ ratchet_key
      → index_of ratchet_key session ≡ chain_key.index
      → chain_key.index + gap ≡ reader.counter
      → reader.counter + 1 < 2 ^ 32
      → index_of ratchet_key session' ≡ reader.counter + 1
      → Step ratchet_key counter session input (session', plaintext plain)
  own_chain own before at bits after =
      let (past0, distinct) = orderly in
      let past : IsPast ratchet_key chain_key.index session.skipped_message_keys =
        rw before at past0 in
      let passed_by : IsPast ratchet_key (chain_key.index + gap) session'.skipped_message_keys =
        rw keys (skipped_after-IsPast p gap ratchet_key theirs chain_key _ (omega arith) past) in
      record {
        orderly = (
          IsPast-later ratchet_key (chain_key.index + gap) (index_of ratchet_key session') _
              (omega (arith, after)) passed_by,
          rw keys (
              skipped_after-IsDistinct p gap ratchet_key theirs chain_key _ (omega arith) past
                distinct),
        );
        still = λ (passed_it, absent). (
          omega (arith, before, after),
          rw keys (
              skipped_after-IsAbsent p gap counter ratchet_key theirs chain_key _ (omega arith)
                (omega (arith, before)) absent),
        );
        spends = λ numbered text opened.
            let (same, equal) = same_number input ratchet_key counter reader r numbered in
            (
              omega (arith, equal, after),
              IsPast-IsAbsent ratchet_key (chain_key.index + gap) counter _ (omega (arith, equal))
                  passed_by,
            );
      }

  -- A message of another ratchet key.
  pub other_chain :
      memcmp_equal 32 reader.ratchet_key ratchet_key ≡ false
      → memcmp_equal 32 theirs ratchet_key ≡ false
      → length ratchet_key ≡ 32
      → index_of ratchet_key session' ≡ index_of ratchet_key session
      → Step ratchet_key counter session input (session', plaintext plain)
  other_chain other differs size same_index =
      let (past, distinct) = orderly in
      let not_numbered : (same : reader.ratchet_key ≡ ratchet_key)
          → memcmp_equal 32 reader.ratchet_key ratchet_key ≡ true =
        λ same. rw same (memcmp_equal_refl 32 ratchet_key (omega arith)) in
      record {
        orderly = (
          rw (keys, same_index)
              (skipped_after-All p (IsPastKey ratchet_key (index_of ratchet_key session)) gap theirs
                chain_key _ (λ c same. absurd (ground (arith, same, differs))) past),
          rw keys (
              skipped_after-IsDistinct_other p gap ratchet_key theirs chain_key _ differs distinct),
        );
        still = λ (passed_it, absent). (
          omega (arith, same_index),
          rw keys (
              skipped_after-All p (IsOtherKey ratchet_key counter) gap theirs chain_key _
                (λ c same. absurd (ground (arith, same, differs))) absent),
        );
        spends = λ numbered text opened. absurd (
            ground (
              arith,
              other,
              not_numbered (same_number input ratchet_key counter reader r numbered).0,
            ));
      }
