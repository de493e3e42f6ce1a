-- ===== src/Ratchet/Cases.antt =====
-- The ways in which a call of `decrypt` of src/ratchet.cpp can end.
use olm.Base.{
  ℕ, Bytes, Bool, true, false, not, Option, none, some, length, ltb, ◌==◌, ◌&&◌, if◌then◌else◌, ◌≡◌,
  ◌≢◌, refl, ap, arith, ◌+◌, ◌≤◌, ◌<◌, List, ◌∷◌, List-cases, ltb→le, ltb→lt, inl, inr, Bool-cases,
  Option-cases,
}
use olm.Error.{
  ErrorCode, code_number, message_out_of_order, bad_message_format, bad_message_version,
  output_buffer_too_small, already_decrypted_or_keys_skipped, bad_message_mac,
}
use olm.BoundedList.{erase_at}
use olm.Pickle.{curve25519_key_length}
use olm.Crypto.External.{Primitives}
use olm.Crypto.{Decrypted, plaintext, failed, fault}
use olm.Cipher.{decrypt_max_plaintext_length}
use olm.Message.Normal.{MessageReader, decode_message}
use olm.Message.Normal.RoundTrip.{decode_message_total}
use olm.Ratchet.{
  Ratchet, ReceiverChain, SenderChain, ChainKey, Received, ratchet_fail, protocol_version,
  verify_mac_and_decrypt_for_existing_chain, verify_mac_and_decrypt_for_new_chain,
}
use olm.Ratchet.Decryption.{
  failed_with, decrypt_on_new_chain, decrypt_skipped, decrypt_on_chain, decrypt_received,
  decrypt_reader, ratchet_decrypt, find_chain, accept_new_chain, pass_message, try_skipped,
}

pub if_case {ℓ} :
    {A : Type 0} (Q : A → Type ℓ) (b : Bool) (t e : A)
    → (b ≡ true → Q t)
    → (b ≡ false → Q e)
    → Q (if b then t else e)
if_case Q true t e h k = h refl
if_case Q false t e h k = k refl

option_case {ℓ} :
    {A : Type 0} (Q : A → Type ℓ) (o : Option Bytes) (t : A) (next : Bytes → A)
    → Q t
    → ((bytes : Bytes) → o ≡ some bytes → Q (next bytes))
    → Q (elim o [ none ↦ t | some bytes ↦ next bytes ])
option_case Q none t next h k = h
option_case Q (some bytes) t next h k = k bytes refl

-- The fields that `decrypt` takes from the message.
abbrev pub IsReading : Bytes → Received → Type 0
IsReading input reader =
    (fields : MessageReader) × (decode_message input 8 ≡ some fields)
    × (fields.ratchet_key ≡ some reader.ratchet_key)
    × (fields.counter ≡ reader.counter)
    × (length reader.ratchet_key ≡ 32)

-- What a predicate on the outcomes has to hold of, for one call.
pub record Outcomes {ℓ} (p : Primitives) (session : Ratchet) (input : Bytes)
    (Q : Ratchet × Decrypted → Type ℓ) : Type ℓ where
  pub on_refused :
      (error : ErrorCode) → code_number error ≢ 0 → Q (ratchet_fail session error, failed)
  pub on_fault : Q (session, fault)
  pub on_new_chain :
      (reader : Received) (sender : SenderChain) (senders : List SenderChain) (plain : Bytes)
      → IsReading input reader
      → find_chain reader.ratchet_key 0 session.receiver_chains ≡ none
      → session.sender_chain ≡ sender ∷ senders
      → reader.counter ≤ 2000
      → Q (
        pass_message p
            (accept_new_chain p session reader).0
            0
            (accept_new_chain p session reader).1
            reader.counter,
        plaintext plain,
      )
  pub on_skipped :
      (reader : Received) (max position at : ℕ) (chain : ReceiverChain) (plain : Bytes)
      → IsReading input reader
      → find_chain reader.ratchet_key 0 session.receiver_chains ≡ some (at, chain)
      → reader.counter < chain.chain_key.index
      → try_skipped p session.ratchet_cipher reader max 0 session.skipped_message_keys
        ≡ (position, plaintext plain)
      → Q (
        record session { skipped_message_keys = erase_at position session.skipped_message_keys },
        plaintext plain,
      )
  pub on_chain :
      (reader : Received) (position : ℕ) (chain : ReceiverChain) (plain : Bytes)
      → IsReading input reader
      → find_chain reader.ratchet_key 0 session.receiver_chains ≡ some (position, chain)
      → chain.chain_key.index ≤ reader.counter
      → reader.counter ≤ chain.chain_key.index + 2000
      → Q (pass_message p session position chain reader.counter, plaintext plain)

module _ (p : Primitives) (session : Ratchet) where
  existing_chain_near :
      (chain_key : ChainKey) (reader : Received) (max : ℕ) (plain : Bytes)
      → (verify_mac_and_decrypt_for_existing_chain p session chain_key reader max).1
        ≡ plaintext plain
      → reader.counter ≤ chain_key.index + 2000
  unfolding verify_mac_and_decrypt_for_existing_chain
  existing_chain_near chain_key reader max plain h = ground (arith, h)

  new_chain_near :
      (reader : Received) (max : ℕ) (plain : Bytes)
      → (verify_mac_and_decrypt_for_new_chain p session reader max).1 ≡ plaintext plain
      → (sender : SenderChain) × (senders : List SenderChain) × (session.sender_chain
          ≡ sender ∷ senders)
        × (reader.counter ≤ 2000)
  unfolding verify_mac_and_decrypt_for_new_chain
  new_chain_near reader max plain h = elim (List-cases session.sender_chain) [
    | inl e ↦ absurd (ground (arith, h, e))
    | inr (sender, senders, e) ↦ (sender, senders, e, ground (arith, h, e))
  ]

module _ {ℓ} (p : Primitives) (session : Ratchet) (input : Bytes) (Q : Ratchet × Decrypted → Type ℓ)
    (cases : Outcomes p session input Q) where
  failed_with_case : (error : ErrorCode) → Q (failed_with session error, failed)
  unfolding failed_with
  failed_with_case error = elim (Bool-cases (code_number error == 0)) [
    | inl zero_code ↦
        rw zero_code (cases.on_refused bad_message_mac (unfold code_number in omega arith))
    | inr code ↦ rw code (cases.on_refused error (λ h. ground (arith, h)))
  ]

  ending_case :
      (opened : Ratchet) (error : ErrorCode) (result : Decrypted)
      → ((plain : Bytes) → result ≡ plaintext plain → Q (opened, plaintext plain))
      → Q (elim result [
        | plaintext plain ↦ (opened, plaintext plain)
        | failed ↦ (failed_with session error, failed)
        | fault ↦ (session, fault)
      ])
  ending_case opened error (plaintext plain) h = h plain refl
  ending_case opened error failed h = failed_with_case error
  ending_case opened error fault h = cases.on_fault

  decrypt_on_new_chain_case :
      (reader : Received) (max : ℕ)
      → IsReading input reader
      → find_chain reader.ratchet_key 0 session.receiver_chains ≡ none
      → Q (decrypt_on_new_chain p session reader max)
  unfolding decrypt_on_new_chain
  decrypt_on_new_chain_case reader max r missing =
      let (session', chain) = accept_new_chain p session reader in
      ending_case (pass_message p session' 0 chain reader.counter) _
        (verify_mac_and_decrypt_for_new_chain p session reader max).1
        (λ plain opened.
          let (sender, senders, e, near) = new_chain_near p session reader max plain opened in
          cases.on_new_chain reader sender senders plain r missing e near)

  decrypt_skipped_case :
      (reader : Received) (max at : ℕ) (chain : ReceiverChain)
      → IsReading input reader
      → find_chain reader.ratchet_key 0 session.receiver_chains ≡ some (at, chain)
      → reader.counter < chain.chain_key.index
      → Q (decrypt_skipped p session reader max)
  unfolding decrypt_skipped
  decrypt_skipped_case reader max at chain r found earlier =
      let tried = try_skipped p session.ratchet_cipher reader max 0 session.skipped_message_keys in
      ending_case
        (record session { skipped_message_keys = erase_at tried.0 session.skipped_message_keys })
        already_decrypted_or_keys_skipped tried.1
        (λ plain opened.
          cases.on_skipped reader max tried.0 at chain plain r found earlier
            (ap (λ (result : Decrypted). (tried.0, result)) opened))

  decrypt_on_chain_case :
      (position : ℕ) (chain : ReceiverChain) (reader : Received) (max : ℕ)
      → IsReading input reader
      → find_chain reader.ratchet_key 0 session.receiver_chains ≡ some (position, chain)
      → chain.chain_key.index ≤ reader.counter
      → Q (decrypt_on_chain p session position chain reader max)
  unfolding decrypt_on_chain
  decrypt_on_chain_case position chain reader max r found later =
      ending_case (pass_message p session position chain reader.counter) _
        (verify_mac_and_decrypt_for_existing_chain p session chain.chain_key reader max).1
        (λ plain opened.
          cases.on_chain reader position chain plain r found later
            (existing_chain_near p session chain.chain_key reader max plain opened))

  decrypt_received_case :
      (reader : Received) (max : ℕ) (sequential : Bool)
      → IsReading input reader
      → Q (decrypt_received p session reader max sequential)
  unfolding decrypt_received code_number
  decrypt_received_case reader max sequential r =
      elim (Option-cases (find_chain reader.ratchet_key 0 session.receiver_chains)) [
        | inl e ↦ rw (e, decrypt_received) (decrypt_on_new_chain_case reader max r e)
        | inr ((position, chain), e) ↦
            rw (e, decrypt_received)
              (if_case Q (sequential && ltb chain.chain_key.index reader.counter) _ _
                (λ _. cases.on_refused message_out_of_order (omega arith))
                (λ _.
                  if_case Q (ltb reader.counter chain.chain_key.index) _ _
                    (λ earlier.
                      decrypt_skipped_case reader max position chain r e (ltb→lt _ _ earlier))
                    (λ later.
                      decrypt_on_chain_case position chain reader max r e (ltb→le _ _ later))))
      ]

  decrypt_reader_case :
      (reader : MessageReader) (max : ℕ) (sequential : Bool)
      → decode_message input 8 ≡ some reader
      → Q (decrypt_reader p session reader max sequential)
  unfolding decrypt_reader code_number
  decrypt_reader_case reader max sequential decoded =
      if_case Q (not (reader.version == protocol_version)) _ _
        (λ _. cases.on_refused bad_message_version (omega arith))
        (λ _.
          if_case Q (not reader.has_counter) _ _
            (λ _. cases.on_refused bad_message_format (omega arith))
            (λ _.
              option_case Q reader.ratchet_key _ _
                (cases.on_refused bad_message_format (omega arith))
                (λ ratchet_key key.
                  option_case Q reader.ciphertext _ _
                    (cases.on_refused bad_message_format (omega arith))
                    (λ ciphertext _.
                      if_case Q (ltb max (decrypt_max_plaintext_length (length ciphertext))) _ _
                        (λ _. cases.on_refused output_buffer_too_small (omega arith))
                        (λ _.
                          if_case Q (not (length ratchet_key == curve25519_key_length)) _ _
                            (λ _. cases.on_refused bad_message_format (omega arith))
                            (λ size.
                              decrypt_received_case _ max sequential
                                (reader, decoded, key, refl, ground arith)))))))

  pub ratchet_decrypt_case :
      (max : ℕ) (sequential : Bool) → Q (ratchet_decrypt p session input max sequential)
  unfolding ratchet_decrypt
  ratchet_decrypt_case max sequential =
      let (reader, e) = decode_message_total input 8 in
      rw (e, ratchet_decrypt) (decrypt_reader_case reader max sequential e)
