-- ===== src/Ratchet/Decryption.antt =====
-- The decryption of src/ratchet.cpp. The branch for a message decoder without fuel left stands for
-- nothing in the source.
use olm.Base.{
  ℕ, zero, suc, ◌-◌, Bytes, Bool, true, false, Option, none, some, List, [], ◌∷◌, length, ltb, ◌==◌,
  if◌then◌else◌, ◌&&◌, not,
}
use olm.Error.{
  ErrorCode, output_buffer_too_small, bad_message_version, bad_message_format, bad_message_mac,
  message_out_of_order, already_decrypted_or_keys_skipped, code_number,
}
use olm.Memory.{memcmp_equal}
use olm.BoundedList.{insert_front, erase_at, set_elem}
use olm.Pickle.{curve25519_key_length}
use olm.Crypto.External.{Primitives}
use olm.Crypto.{Decrypted, plaintext, failed, fault}
use olm.Cipher.{mac_length, decrypt_max_plaintext_length}
use olm.Message.Normal.{MessageReader, decode_message}
use olm.Ratchet.{
  ChainKey, ReceiverChain, SkippedMessageKey, Ratchet, Received, protocol_version, ratchet_fail,
  max_receiver_chains, max_skipped_message_keys, create_chain_key, advance_chain_key,
  create_message_keys, verify_mac_and_decrypt, verify_mac_and_decrypt_for_existing_chain,
  verify_mac_and_decrypt_for_new_chain,
}

unfoldable pub ratchet_decrypt_max_plaintext_length : Ratchet → Bytes → Ratchet × Option ℕ
ratchet_decrypt_max_plaintext_length session input = elim (decode_message input mac_length) [
  | none ↦ (session, none)
  | some reader ↦ elim reader.ciphertext [
    | none ↦ (ratchet_fail session bad_message_format, none)
    | some ciphertext ↦ (session, some (decrypt_max_plaintext_length (length ciphertext)))
  ]
]

-- The first receiver chain with the ratchet key, and its position.
unfoldable pub find_chain : Bytes → ℕ → List ReceiverChain → Option (ℕ × ReceiverChain)
find_chain ratchet_key position [] = none
find_chain ratchet_key position (chain ∷ chains) =
    let rest = find_chain ratchet_key (suc position) chains in
    if memcmp_equal curve25519_key_length chain.ratchet_key ratchet_key
    then some (position, chain)
    else rest

-- The end of a call that failed: a specific error code is kept.
unfoldable pub failed_with : Ratchet → ErrorCode → Ratchet
failed_with session last_error =
    ratchet_fail session (if code_number last_error == 0 then bad_message_mac else last_error)

module _ (p : Primitives) where
  -- The loop over the skipped keys: the position of the key that opens the message, and the result.
  -- A key that fits and does not open the message is passed by.
  unfoldable pub try_skipped : Bytes → Received → ℕ → ℕ → List SkippedMessageKey → ℕ × Decrypted
  try_skipped cipher reader max_plaintext_length position [] = (position, failed)
  try_skipped cipher reader max_plaintext_length position (skipped ∷ keys) =
      let rest = try_skipped cipher reader max_plaintext_length (suc position) keys in
      if (reader.counter == skipped.message_key.index)
        && memcmp_equal curve25519_key_length skipped.ratchet_key reader.ratchet_key
      then elim (verify_mac_and_decrypt p cipher skipped.message_key reader max_plaintext_length) [
        | plaintext plain ↦ (position, plaintext plain)
        | failed ↦ rest
        | fault ↦ (position, fault)
      ]
      else rest

  -- `while (chain->chain_key.index < reader.counter)` on fuel: each key that is passed is stored.
  unfoldable pub store_skipped :
      ℕ → ℕ → Bytes → ChainKey → List SkippedMessageKey → ChainKey × List SkippedMessageKey
  store_skipped zero counter ratchet_key chain_key keys = (chain_key, keys)
  store_skipped (suc fuel) counter ratchet_key chain_key keys = elim (ltb chain_key.index counter) [
    | true ↦
        let key : SkippedMessageKey = record {
          ratchet_key = ratchet_key;
          message_key = create_message_keys p chain_key;
        } in
        store_skipped fuel counter ratchet_key (advance_chain_key p chain_key)
          (insert_front max_skipped_message_keys key keys)
    | false ↦ (chain_key, keys)
  ]

  -- The end of a call that succeeded, on the receiver chain at `position`.
  unfoldable pub pass_message : Ratchet → ℕ → ReceiverChain → ℕ → Ratchet
  pass_message session position chain counter =
      let (chain_key, keys) =
        store_skipped (counter - chain.chain_key.index) counter chain.ratchet_key chain.chain_key
          session.skipped_message_keys in
      record session {
        receiver_chains =
            set_elem session.receiver_chains position
              (record chain { chain_key = advance_chain_key p chain_key });
        skipped_message_keys = keys;
      }

  -- The new receiver chain in front of the others, and no sender chain. `sender_chain[0]` is there,
  -- since the message was opened with it; the branch without it is not reached.
  unfoldable pub accept_new_chain : Ratchet → Received → Ratchet × ReceiverChain
  accept_new_chain session reader = elim session.sender_chain [
    | [] ↦ (
      session,
      record {
        ratchet_key = reader.ratchet_key;
        chain_key = record { index = 0; key = session.root_key };
      },
    )
    | sender ∷ _ ↦
        let (root_key, chain_key) =
          create_chain_key p session.root_key sender.ratchet_key reader.ratchet_key
            session.kdf_info in
        let chain : ReceiverChain = record {
          ratchet_key = reader.ratchet_key;
          chain_key = chain_key;
        } in
        (
          record session {
            root_key = root_key;
            receiver_chains = insert_front max_receiver_chains chain session.receiver_chains;
            sender_chain = erase_at 0 session.sender_chain;
          },
          chain,
        )
  ]

  unfoldable pub decrypt_on_new_chain : Ratchet → Received → ℕ → Ratchet × Decrypted
  decrypt_on_new_chain session reader max_plaintext_length =
      let (last_error, result) =
        verify_mac_and_decrypt_for_new_chain p session reader max_plaintext_length in
      let (session', chain) = accept_new_chain session reader in
      elim result [
        | plaintext plain ↦ (pass_message session' 0 chain reader.counter, plaintext plain)
        | failed ↦ (failed_with session last_error, failed)
        | fault ↦ (session, fault)
      ]

  unfoldable pub decrypt_skipped : Ratchet → Received → ℕ → Ratchet × Decrypted
  decrypt_skipped session reader max_plaintext_length =
      let (position, result) =
        try_skipped session.ratchet_cipher reader max_plaintext_length 0
          session.skipped_message_keys in
      elim result [
        | plaintext plain ↦ (
          record session { skipped_message_keys = erase_at position session.skipped_message_keys },
          plaintext plain,
        )
        | failed ↦ (failed_with session already_decrypted_or_keys_skipped, failed)
        | fault ↦ (session, fault)
      ]

  unfoldable pub decrypt_on_chain : Ratchet → ℕ → ReceiverChain → Received → ℕ → Ratchet × Decrypted
  decrypt_on_chain session position chain reader max_plaintext_length =
      let (last_error, result) =
        verify_mac_and_decrypt_for_existing_chain p session chain.chain_key reader
          max_plaintext_length in
      elim result [
        | plaintext plain ↦ (pass_message session position chain reader.counter, plaintext plain)
        | failed ↦ (failed_with session last_error, failed)
        | fault ↦ (session, fault)
      ]

  -- `decrypt` after the checks on the message.
  unfoldable pub decrypt_received : Ratchet → Received → ℕ → Bool → Ratchet × Decrypted
  decrypt_received session reader max_plaintext_length is_sequential =
      elim (find_chain reader.ratchet_key 0 session.receiver_chains) [
        | none ↦ decrypt_on_new_chain session reader max_plaintext_length
        | some (position, chain) ↦
            if is_sequential && ltb chain.chain_key.index reader.counter
            then (ratchet_fail session message_out_of_order, failed)
            else if ltb reader.counter chain.chain_key.index
            then decrypt_skipped session reader max_plaintext_length
            else decrypt_on_chain session position chain reader max_plaintext_length
      ]

  -- The checks on the fields that the decoder found.
  unfoldable pub decrypt_reader : Ratchet → MessageReader → ℕ → Bool → Ratchet × Decrypted
  decrypt_reader session reader max_plaintext_length is_sequential =
      if not (reader.version == protocol_version)
      then (ratchet_fail session bad_message_version, failed)
      else if not reader.has_counter
      then (ratchet_fail session bad_message_format, failed)
      else elim reader.ratchet_key [
        | none ↦ (ratchet_fail session bad_message_format, failed)
        | some ratchet_key ↦ elim reader.ciphertext [
          | none ↦ (ratchet_fail session bad_message_format, failed)
          | some ciphertext ↦
              if ltb max_plaintext_length (decrypt_max_plaintext_length (length ciphertext))
              then (ratchet_fail session output_buffer_too_small, failed)
              else if not (length ratchet_key == curve25519_key_length)
              then (ratchet_fail session bad_message_format, failed)
              else decrypt_received session
                  (record {
                    input = reader.input;
                    counter = reader.counter;
                    ratchet_key = ratchet_key;
                    ciphertext = ciphertext;
                  })
                  max_plaintext_length is_sequential
        ]
      ]

  unfoldable pub ratchet_decrypt : Ratchet → Bytes → ℕ → Bool → Ratchet × Decrypted
  ratchet_decrypt session input max_plaintext_length is_sequential =
      elim (decode_message input mac_length) [
        | none ↦ (session, failed)
        | some reader ↦ decrypt_reader session reader max_plaintext_length is_sequential
      ]
