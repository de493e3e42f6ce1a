-- ===== src/Ratchet/SpentCalls.antt =====
-- What one call of `decrypt` of src/ratchet.cpp does to a message that has been opened before.
use olm.Base.{
  ℕ, ◌+◌, ◌-◌, ◌^◌, ◌≤◌, ◌<◌, Bytes, Bool, false, none, some, List, ◌∷◌, length, take, ◌≡◌, ◌≢◌,
  refl, ap, ◌∙◌, arith, Bool-cases, inl, inr,
}
use olm.Memory.{memcmp_equal}
use olm.Memory.Equality.{memcmp_equal→≡}
use olm.BoundedList.{insert_front, erase_at, set_elem}
use olm.Crypto.External.{Primitives, PrimitiveLaws}
use olm.Crypto.{Decrypted, plaintext, failed, fault}
use olm.Message.Normal.Counter.{decode_message_bound}
use olm.Ratchet.{Ratchet, ReceiverChain, SenderChain, Received, ratchet_fail, create_chain_key}
use olm.Ratchet.Decryption.{
  find_chain, pass_message, accept_new_chain, ratchet_decrypt, try_skipped,
}
use olm.Ratchet.Chains.{skipped_after}
use olm.Ratchet.Skipped.{find_chain-matches}
use olm.Ratchet.Delivery.{moved_chain, passed, pass_message-passed}
use olm.Ratchet.Cases.{Outcomes, IsReading, ratchet_decrypt_case}
use olm.Ratchet.Invariant.{IsRatchet, found-IsReceiverChain}
use olm.Ratchet.Past.{IsPastKey}
use olm.Ratchet.Late.{index-moved_chain}
use olm.Ratchet.Counters.{
  next_index, next_index-found, next_index-missing, next_index-set_elem, next_index-set_elem_other,
  next_index-take, IsOtherKey, All-erase_at, IsDistinct-erase_at,
}
use olm.Ratchet.Spending.{try_skipped-IsAbsent, try_skipped-erase_at}
use olm.Ratchet.Spent.{
  index-moved_chain_wrap, same_number, own_chain, other_chain, IsNumbered, index_of, IsOrderly,
  IsSpent, Step,
}

module _ (p : Primitives) (laws : PrimitiveLaws p) (ratchet_key : Bytes)
    (size : length ratchet_key ≡ 32) (counter : ℕ) (session : Ratchet) (input : Bytes)
    (whole : IsRatchet session) (orderly : IsOrderly ratchet_key session) where
  -- The outcome of a call that does not lower the index of the chain.
  abbrev Rises : Ratchet × Decrypted → Type 0
  Rises outcome =
      index_of ratchet_key session ≤ index_of ratchet_key outcome.0
      → Step ratchet_key counter session input outcome

  unopened_step :
      (session' : Ratchet) (result : Decrypted)
      → session'.receiver_chains ≡ session.receiver_chains
      → session'.skipped_message_keys ≡ session.skipped_message_keys
      → ((plain : Bytes) → result ≢ plaintext plain)
      → Rises (session', result)
  unopened_step session' result chains keys unopened rises = record {
    orderly = rw (chains, keys) orderly;
    still = λ spent. rw (chains, keys) spent;
    spends = λ numbered plain opened. absurd (unopened plain opened);
  }

  skipped_step :
      (reader : Received) (max position at : ℕ) (chain : ReceiverChain) (plain : Bytes)
      → IsReading input reader
      → find_chain reader.ratchet_key 0 session.receiver_chains ≡ some (at, chain)
      → reader.counter < chain.chain_key.index
      → try_skipped p session.ratchet_cipher reader max 0 session.skipped_message_keys
        ≡ (position, plaintext plain)
      → Rises (
        record session { skipped_message_keys = erase_at position session.skipped_message_keys },
        plaintext plain,
      )
  skipped_step reader max position at chain plain r found earlier tried rises =
      let (past, distinct) = orderly in
      let keys = session.skipped_message_keys in
      record {
        orderly = (
          All-erase_at (IsPastKey ratchet_key (index_of ratchet_key session)) position keys past,
          IsDistinct-erase_at ratchet_key position keys distinct,
        );
        still = λ (passed_it, absent).
            (passed_it, All-erase_at (IsOtherKey ratchet_key counter) position keys absent);
        spends = λ numbered text opened.
            let (same, equal) = same_number input ratchet_key counter reader r numbered in
            let (i, here, absent) =
              try_skipped-erase_at p session.ratchet_cipher reader max 0 position keys plain
                (rw same distinct) tried in
            let e : i ≡ position = omega (arith, here) in
            (
              omega (
                arith,
                equal,
                next_index-found reader.ratchet_key 0 at session.receiver_chains chain found,
                ap (λ (k : Bytes). index_of k session) same,
              ),
              rw (e, same, equal) at absent,
            );
      }

  -- A chain that moves on to a message with `gap` keys in between.
  found_key :
      (reader : Received) (position : ℕ) (chain : ReceiverChain)
      → length reader.ratchet_key ≡ 32
      → find_chain reader.ratchet_key 0 session.receiver_chains ≡ some (position, chain)
      → chain.ratchet_key ≡ reader.ratchet_key
  found_key reader position chain h found =
      memcmp_equal→≡ 32 chain.ratchet_key reader.ratchet_key
        (found-IsReceiverChain p laws reader.ratchet_key 0 position session.receiver_chains chain
          found whole.receivers.1).0
        h (find_chain-matches reader.ratchet_key 0 position session.receiver_chains chain found)

  chain_step :
      (reader : Received) (position : ℕ) (chain : ReceiverChain) (plain : Bytes)
      → IsReading input reader
      → find_chain reader.ratchet_key 0 session.receiver_chains ≡ some (position, chain)
      → chain.chain_key.index ≤ reader.counter
      → reader.counter ≤ chain.chain_key.index + 2000
      → Rises (pass_message p session position chain reader.counter, plaintext plain)
  unfolding passed
  chain_step reader position chain plain (fields, decoded, key, at, length_r) found later near
        rises =
      let r : IsReading input reader = (fields, decoded, key, at, length_r) in
      let bound : reader.counter < 2 ^ 32 =
        omega (arith, decode_message_bound input 8 fields decoded, at) in
      let gap = reader.counter - chain.chain_key.index in
      let ahead : chain.chain_key.index + gap ≡ reader.counter = omega arith in
      let moved = moved_chain p gap chain in
      let moved_at = index-moved_chain_wrap p gap chain (omega arith) in
      let e = pass_message-passed p session position chain gap reader.counter (omega arith) bound in
      let up : index_of ratchet_key session
          ≤ index_of ratchet_key (passed p session position chain gap) =
        rw e at rises in
      rw e (elim (Bool-cases (memcmp_equal 32 reader.ratchet_key ratchet_key)) [
        | inl match ↦
            let same = memcmp_equal→≡ 32 reader.ratchet_key ratchet_key length_r size match in
            let mine : find_chain ratchet_key 0 session.receiver_chains ≡ some (position, chain) =
              rw same at found in
            let before =
              next_index-found ratchet_key 0 position session.receiver_chains chain mine in
            let after =
              next_index-set_elem ratchet_key position session.receiver_chains chain moved mine
                refl in
            own_chain p ratchet_key counter session (passed p session position chain gap) input
              reader r orderly gap chain.ratchet_key chain.chain_key plain refl same before ahead
              (omega (arith, up, before, after, moved_at))
              (omega (arith, up, before, after, moved_at))
        | inr other ↦
            let differs : memcmp_equal 32 chain.ratchet_key ratchet_key ≡ false =
              rw (found_key reader position chain length_r found) other in
            other_chain p ratchet_key counter session (passed p session position chain gap) input
              reader r orderly gap chain.ratchet_key chain.chain_key plain refl other differs size
              (next_index-set_elem_other ratchet_key reader.ratchet_key 0 position position
                session.receiver_chains chain moved found (omega arith) refl differs)
      ])

  -- A chain that has just been put in front of the others.
  front_step :
      (reader : Received) (session1 : Ratchet) (chain : ReceiverChain) (plain : Bytes)
      → IsReading input reader
      → find_chain reader.ratchet_key 0 session.receiver_chains ≡ none
      → reader.counter ≤ 2000
      → chain.ratchet_key ≡ reader.ratchet_key
      → chain.chain_key.index ≡ 0
      → session1.receiver_chains ≡ insert_front 5 chain session.receiver_chains
      → session1.skipped_message_keys ≡ session.skipped_message_keys
      → Rises (pass_message p session1 0 chain reader.counter, plaintext plain)
  unfolding passed set_elem next_index
  front_step reader session1 chain plain (fields, decoded, key, at, length_r) missing near own start
        chains keys rises =
      let r : IsReading input reader = (fields, decoded, key, at, length_r) in
      let gap = reader.counter in
      let moved = moved_chain p gap chain in
      let moved_at = index-moved_chain p gap chain (omega (arith, start)) in
      let after : Ratchet = passed p session1 0 chain gap in
      let e =
        pass_message-passed p session1 0 chain gap reader.counter (omega (arith, start))
          (omega arith) in
      let up : index_of ratchet_key session ≤ index_of ratchet_key after = rw e at rises in
      let shape : after.receiver_chains ≡ moved ∷ take 4 session.receiver_chains =
        ap (λ (cs : List ReceiverChain). set_elem cs 0 moved) chains in
      let kept : after.skipped_message_keys
          ≡ skipped_after p gap chain.ratchet_key chain.chain_key session.skipped_message_keys =
        ap (skipped_after p gap chain.ratchet_key chain.chain_key) keys in
      rw e (elim (Bool-cases (memcmp_equal 32 reader.ratchet_key ratchet_key)) [
        | inl match ↦
            let same = memcmp_equal→≡ 32 reader.ratchet_key ratchet_key length_r size match in
            let before : index_of ratchet_key session ≡ 0 =
              next_index-missing ratchet_key 0 session.receiver_chains (rw same at missing) in
            let here : index_of ratchet_key after ≡ moved.chain_key.index =
              ap (next_index ratchet_key) shape ∙ rw (own, match) refl in
            own_chain p ratchet_key counter session after input reader r orderly gap
              chain.ratchet_key chain.chain_key plain kept same (omega (arith, before, start))
              (omega (arith, start)) (omega arith) (omega (arith, here, moved_at, start))
        | inr other ↦
            let differs : memcmp_equal 32 chain.ratchet_key ratchet_key ≡ false = rw own other in
            let behind : index_of ratchet_key after
                ≡ next_index ratchet_key (take 4 session.receiver_chains) =
              ap (next_index ratchet_key) shape ∙ rw (own, other) refl in
            other_chain p ratchet_key counter session after input reader r orderly gap
              chain.ratchet_key chain.chain_key plain kept other differs size
              (elim (next_index-take ratchet_key 4 session.receiver_chains) [
                | inl all ↦ behind ∙ all
                | inr gone ↦ omega (arith, behind, gone, up)
              ])
      ])

  accepted :
      (reader : Received) (sender : SenderChain) (senders : List SenderChain)
      → session.sender_chain ≡ sender ∷ senders
      → ((accept_new_chain p session reader).1.ratchet_key ≡ reader.ratchet_key)
        × ((accept_new_chain p session reader).1.chain_key.index ≡ 0)
        × ((accept_new_chain p session reader).0.receiver_chains
            ≡ insert_front 5 (accept_new_chain p session reader).1 session.receiver_chains)
        × ((accept_new_chain p session reader).0.skipped_message_keys
            ≡ session.skipped_message_keys)
  unfolding accept_new_chain create_chain_key
  accepted reader sender senders e = (
    rw (e, accept_new_chain) refl,
    rw (e, accept_new_chain) refl,
    rw (e, accept_new_chain) refl,
    rw (e, accept_new_chain) refl,
  )

  new_chain_step :
      (reader : Received) (sender : SenderChain) (senders : List SenderChain) (plain : Bytes)
      → IsReading input reader
      → find_chain reader.ratchet_key 0 session.receiver_chains ≡ none
      → session.sender_chain ≡ sender ∷ senders
      → reader.counter ≤ 2000
      → Rises (
        pass_message p
            (accept_new_chain p session reader).0
            0
            (accept_new_chain p session reader).1
            reader.counter,
        plaintext plain,
      )
  new_chain_step reader sender senders plain r missing e near =
      let (own, start, chains, keys) = accepted reader sender senders e in
      front_step reader (accept_new_chain p session reader).0 (accept_new_chain p session reader).1
        plain r missing near own start chains keys

  Step-Outcomes : Outcomes p session input Rises
  Step-Outcomes = record {
    on_refused = λ error code.
        unopened_step (ratchet_fail session error) failed refl refl (λ plain h. ground (arith, h));
    on_fault = unopened_step session fault refl refl (λ plain h. ground (arith, h));
    on_new_chain = new_chain_step;
    on_skipped = skipped_step;
    on_chain = chain_step;
  }

  pub ratchet_decrypt-Step :
      (max : ℕ) (sequential : Bool)
      → index_of ratchet_key session
        ≤ index_of ratchet_key (ratchet_decrypt p session input max sequential).0
      → Step ratchet_key counter session input (ratchet_decrypt p session input max sequential)
  ratchet_decrypt-Step = ratchet_decrypt_case p session input Rises Step-Outcomes

-- A message that is spent is not opened.
module _ (p : Primitives) (ratchet_key : Bytes) (counter : ℕ) (session : Ratchet) (input : Bytes)
    (numbered : IsNumbered input ratchet_key counter)
    (spent : IsSpent ratchet_key counter session) where
  abbrev IsUnopened : Ratchet × Decrypted → Type 0
  IsUnopened outcome = (plain : Bytes) → outcome.1 ≢ plaintext plain

  spent-Outcomes : Outcomes p session input IsUnopened
  spent-Outcomes = record {
    on_refused = λ error code plain h. ground (arith, h);
    on_fault = λ plain h. ground (arith, h);
    on_new_chain = λ reader sender senders plain r missing e near text h.
        let (same, equal) = same_number input ratchet_key counter reader r numbered in
        let start = next_index-missing ratchet_key 0 session.receiver_chains (rw same at missing) in
        omega (arith, start, spent.0);
    on_skipped = λ reader max position at chain plain r found earlier tried text h.
        let (same, equal) = same_number input ratchet_key counter reader r numbered in
        let none_left =
          try_skipped-IsAbsent p session.ratchet_cipher reader max 0 session.skipped_message_keys
            (rw (same, equal) spent.1) in
        ground (arith, none_left, tried);
    on_chain = λ reader position chain plain r found later near text h.
        let (same, equal) = same_number input ratchet_key counter reader r numbered in
        let before =
          next_index-found ratchet_key 0 position session.receiver_chains chain
            (rw same at found) in
        omega (arith, before, equal, spent.0);
  }

  pub ratchet_decrypt_spent :
      (max : ℕ) (sequential : Bool) (plain : Bytes)
      → (ratchet_decrypt p session input max sequential).1 ≢ plaintext plain
  ratchet_decrypt_spent = ratchet_decrypt_case p session input IsUnopened spent-Outcomes
