-- ===== src/Ratchet/Invariant.antt =====
-- What holds of a ratchet of src/ratchet.cpp between two calls.
use olm.Base.{
  ℕ, zero, suc, ◌≤◌, Bytes, Bool, some, List, [], ◌∷◌, All, length, ltb, inl, inr, Bool-cases,
  List-cases, none, ltb→le, ◌≡◌, arith,
}
use olm.BoundedList.Bounds.{IsListOf, insert_front-IsListOf, erase_at-IsListOf, set_elem-IsListOf}
use olm.Pickle.{KeyPair}
use olm.Memory.{memcmp_equal}
use olm.Crypto.External.{Primitives, PrimitiveLaws}
use olm.Crypto.{Decrypted, curve25519_generate_key}
use olm.Crypto.Hmac.{hkdf_sha256-IsBuffer}
use olm.Ratchet.{
  Ratchet, ratchet_fail, ChainKey, SenderChain, ReceiverChain, SkippedMessageKey, Received,
  advance_chain_key, derive_root_secrets, initialise_as_alice, initialise_as_bob,
}
use olm.Error.{ErrorCode, not_enough_random, output_buffer_too_small}
use olm.Ratchet.Cases.{Outcomes, if_case, ratchet_decrypt_case}
use olm.Ratchet.Encrypting.{
  Encrypted, encrypt_random_length, encrypt_on_chain, start_sender_chain, ratchet_encrypt,
  encrypt_output_length,
}
use olm.Ratchet.Decryption.{
  store_skipped, pass_message, accept_new_chain, ratchet_decrypt, find_chain,
}
use olm.Ratchet.KeySizes.{
  IsChainKey, IsKeyPair, IsSenderChain, IsReceiverChain, IsSkippedKey, halves,
  advance_chain_key-IsChainKey, create_message_keys-IsMessageKey, create_chain_key-IsChainKey,
  curve25519_generate_key-IsKeyPair,
}

pub record IsRatchet (session : Ratchet) : Type 0 where
  pub root_size : length session.root_key ≡ 32
  pub senders : IsListOf 1 IsSenderChain session.sender_chain
  pub receivers : IsListOf 5 IsReceiverChain session.receiver_chains
  pub skipped : IsListOf 40 IsSkippedKey session.skipped_message_keys

ratchet_fail-IsRatchet :
    (session : Ratchet) (error : ErrorCode)
    → IsRatchet session
    → IsRatchet (ratchet_fail session error)
ratchet_fail-IsRatchet session error h = record {
  root_size = h.root_size;
  senders = h.senders;
  receivers = h.receivers;
  skipped = h.skipped;
}

module _ (p : Primitives) (laws : PrimitiveLaws p) where
  store_skipped-IsListOf :
      (fuel counter : ℕ) (ratchet_key : Bytes) (c : ChainKey) (keys : List SkippedMessageKey)
      → length ratchet_key ≡ 32
      → IsChainKey c
      → IsListOf 40 IsSkippedKey keys
      → IsListOf 40 IsSkippedKey (store_skipped p fuel counter ratchet_key c keys).1
  unfolding store_skipped
  store_skipped-IsListOf zero counter ratchet_key c keys hk hc h = h
  store_skipped-IsListOf (suc fuel) counter ratchet_key c keys hk hc h =
      elim (Bool-cases (ltb c.index counter)) [
        | inl before ↦
            rw (before, store_skipped)
              (store_skipped-IsListOf fuel counter ratchet_key (advance_chain_key p c) _ hk
                (advance_chain_key-IsChainKey p laws c)
                (insert_front-IsListOf IsSkippedKey 40 _ keys
                  (hk, create_message_keys-IsMessageKey p laws c hc) h))
        | inr there ↦ rw (there, store_skipped) h
      ]

  pub found-IsReceiverChain :
      (ratchet_key : Bytes) (start position : ℕ) (chains : List ReceiverChain)
      (chain : ReceiverChain)
      → find_chain ratchet_key start chains ≡ some (position, chain)
      → All IsReceiverChain chains
      → IsReceiverChain chain
  unfolding find_chain
  found-IsReceiverChain ratchet_key start position [] chain h all = absurd (ground arith)
  found-IsReceiverChain ratchet_key start position (c ∷ chains) chain h (first, rest) =
      elim (Bool-cases (memcmp_equal 32 c.ratchet_key ratchet_key)) [
        | inl same ↦ let e : c ≡ chain = ground (arith, h, same) in rw (← e) first
        | inr other ↦
            found-IsReceiverChain ratchet_key (suc start) position chains chain (rw other at h) rest
      ]

  pass_message-IsRatchet :
      (session : Ratchet) (position : ℕ) (chain : ReceiverChain) (counter : ℕ)
      → IsReceiverChain chain
      → IsRatchet session
      → IsRatchet (pass_message p session position chain counter)
  unfolding pass_message
  pass_message-IsRatchet session position chain counter (hk, hc) h = record {
    root_size = h.root_size;
    senders = h.senders;
    receivers =
        set_elem-IsListOf IsReceiverChain 5 position _ session.receiver_chains
          (hk, advance_chain_key-IsChainKey p laws _) h.receivers;
    skipped = store_skipped-IsListOf _ counter chain.ratchet_key chain.chain_key _ hk hc h.skipped;
  }

  accept_new_chain-IsRatchet :
      (session : Ratchet) (reader : Received)
      → length reader.ratchet_key ≡ 32
      → IsRatchet session
      → IsRatchet (accept_new_chain p session reader).0
        × IsReceiverChain (accept_new_chain p session reader).1
  unfolding accept_new_chain
  accept_new_chain-IsRatchet session reader hk h = elim (List-cases session.sender_chain) [
    | inl e ↦ rw (e, accept_new_chain) (h, (hk, (omega arith, h.root_size)))
    | inr (sender, rest, e) ↦
        let (root_size, chain_key) =
          create_chain_key-IsChainKey p laws session.root_key sender.ratchet_key reader.ratchet_key
            session.kdf_info in
        let senders = erase_at-IsListOf IsSenderChain 1 0 session.sender_chain h.senders in
        rw (e, accept_new_chain)
          (
            record {
              root_size = root_size;
              senders = senders;
              receivers =
                  insert_front-IsListOf IsReceiverChain 5 _ session.receiver_chains (hk, chain_key)
                    h.receivers;
              skipped = h.skipped;
            },
            (hk, chain_key),
          )
  ]

  IsRatchet-Outcomes :
      (session : Ratchet) (input : Bytes)
      → IsRatchet session
      → Outcomes p session input (λ (outcome : Ratchet × Decrypted). IsRatchet outcome.0)
  IsRatchet-Outcomes session input h = record {
    on_refused = λ error code. ratchet_fail-IsRatchet session error h;
    on_fault = h;
    on_new_chain = λ reader sender senders plain (fields, decoded, key, counter, hk) missing e near.
        let (new, chain) = accept_new_chain-IsRatchet session reader hk h in
        pass_message-IsRatchet _ 0 _ reader.counter chain new;
    on_skipped = λ reader max position at chain plain r found earlier tried. record {
      root_size = h.root_size;
      senders = h.senders;
      receivers = h.receivers;
      skipped = erase_at-IsListOf IsSkippedKey 40 position session.skipped_message_keys h.skipped;
    };
    on_chain = λ reader position chain plain r found later near.
        pass_message-IsRatchet session position chain reader.counter
          (found-IsReceiverChain reader.ratchet_key 0 position session.receiver_chains chain found
            h.receivers.1)
          h;
  }

  -- With primitives that keep the stated laws: A well-formed ratchet, with keys of 32 bytes,
  -- counters of 32 bits, at most one sender chain, five receiver chains and 40 skipped keys, is
  -- well formed after `ratchet_decrypt`, whatever the message, the buffer size and the outcome.
  pub ratchet_decrypt-IsRatchet :
      (session : Ratchet) (input : Bytes) (max : ℕ) (sequential : Bool)
      → IsRatchet session
      → IsRatchet (ratchet_decrypt p session input max sequential).0
  ratchet_decrypt-IsRatchet session input max sequential h =
      ratchet_decrypt_case p session input (λ (outcome : Ratchet × Decrypted). IsRatchet outcome.0)
        (IsRatchet-Outcomes session input h) max sequential

  pub initialise_as_alice-IsRatchet :
      (session : Ratchet) (shared_secret : Bytes) (ours : KeyPair)
      → IsKeyPair ours
      → IsRatchet session
      → IsRatchet (initialise_as_alice p session shared_secret ours)
  unfolding initialise_as_alice derive_root_secrets
  initialise_as_alice-IsRatchet session shared_secret ours hk h =
      let (first, second) =
        halves _
          (hkdf_sha256-IsBuffer p laws shared_secret session.kdf_info.root_info none 64
            (omega arith)).0 in
      record {
        root_size = first;
        senders =
            insert_front-IsListOf IsSenderChain 1 _ session.sender_chain (hk, (omega arith, second))
              h.senders;
        receivers = h.receivers;
        skipped = h.skipped;
      }

  pub initialise_as_bob-IsRatchet :
      (session : Ratchet) (shared_secret theirs : Bytes)
      → length theirs ≡ 32
      → IsRatchet session
      → IsRatchet (initialise_as_bob p session shared_secret theirs)
  unfolding initialise_as_bob derive_root_secrets
  initialise_as_bob-IsRatchet session shared_secret theirs hk h =
      let (first, second) =
        halves _
          (hkdf_sha256-IsBuffer p laws shared_secret session.kdf_info.root_info none 64
            (omega arith)).0 in
      record {
        root_size = first;
        senders = h.senders;
        receivers =
            insert_front-IsListOf IsReceiverChain 5 _ session.receiver_chains
              (hk, (omega arith, second)) h.receivers;
        skipped = h.skipped;
      }

  encrypt_on_chain-IsRatchet :
      (session : Ratchet) (sender : SenderChain) (plain output : Bytes) (n : ℕ)
      → IsSenderChain sender
      → IsRatchet session
      → IsRatchet (encrypt_on_chain p session sender plain output n).0
  unfolding encrypt_on_chain
  encrypt_on_chain-IsRatchet session sender plain output n (hk, hc) h = record {
    root_size = h.root_size;
    senders =
        set_elem-IsListOf IsSenderChain 1 0 _ session.sender_chain
          (hk, advance_chain_key-IsChainKey p laws sender.chain_key) h.senders;
    receivers = h.receivers;
    skipped = h.skipped;
  }

  start_sender_chain-IsRatchet :
      (session : Ratchet) (receiver : ReceiverChain) (random : Bytes)
      → 32 ≤ length random
      → IsRatchet session
      → IsSenderChain (start_sender_chain p session receiver random).1
        × IsRatchet (start_sender_chain p session receiver random).0
  unfolding start_sender_chain
  start_sender_chain-IsRatchet session receiver random hr h =
      let (root_size, chain_key) =
        create_chain_key-IsChainKey p laws session.root_key (curve25519_generate_key p random)
          receiver.ratchet_key session.kdf_info in
      let pair = curve25519_generate_key-IsKeyPair p laws random hr in
      (
        (pair, chain_key),
        record {
          root_size = root_size;
          senders =
              insert_front-IsListOf IsSenderChain 1 _ session.sender_chain (pair, chain_key)
                h.senders;
          receivers = h.receivers;
          skipped = h.skipped;
        },
      )

  -- With primitives that keep the stated laws: A well-formed ratchet is well formed after
  -- `ratchet_encrypt`, whatever the plaintext, the random bytes and the buffer, the refusals
  -- included.
  pub ratchet_encrypt-IsRatchet :
      (session : Ratchet) (plain random output : Bytes)
      → IsRatchet session
      → IsRatchet (ratchet_encrypt p session plain random output).0
  unfolding ratchet_encrypt encrypt_random_length
  ratchet_encrypt-IsRatchet session plain random output h =
      let kept = λ (error : ErrorCode). ratchet_fail-IsRatchet session error h in
      let n = encrypt_output_length session (length plain) in
      let Q = λ (outcome : Ratchet × Encrypted). IsRatchet outcome.0 in
      if_case Q (ltb (length random) (encrypt_random_length session)) _ _
        (λ _. kept not_enough_random)
        (λ enough.
          if_case Q (ltb (length output) n) _ _ (λ _. kept output_buffer_too_small)
            (λ _. elim (List-cases session.sender_chain) [
              | inr (sender, rest, e) ↦
                  let senders = rw e at h.senders in
                  rw e (encrypt_on_chain-IsRatchet session sender plain output n senders.1.0 h)
              | inl e ↦ elim (List-cases session.receiver_chains) [
                | inl none_at_all ↦ rw (e, none_at_all) h
                | inr (receiver, rest, f) ↦
                    let room : 32 ≤ length random = ltb→le _ _ (rw e at enough) in
                    let (sender, started) =
                      start_sender_chain-IsRatchet session receiver random room h in
                    rw (e, f) (encrypt_on_chain-IsRatchet _ _ plain output n sender started)
              ]
            ]))
