-- ===== src/Tests/Ratchet.antt =====
-- Examples for src/ratchet.cpp.
use olm.Base.{
  ℕ, ◌≤◌, Bytes, Bool, true, false, some, List, [], ◌∷◌, ◌++◌, length, replicate, ◌≡◌, ◌≢◌, refl,
  ap, ◌∙◌, arith,
}
use mathlib.Core.List.{map}
use olm.Error.{already_decrypted_or_keys_skipped}
use olm.Crypto.{Decrypted, plaintext, failed, aes_encrypt_cbc_length, curve25519_generate_key}
use olm.Cipher.{encrypt_ciphertext_length}
use olm.Message.{varint_length, varint_length_loop, varstring_length}
use olm.Message.Normal.{encode_message_length}
use olm.Ratchet.{
  Ratchet, KdfInfo, SenderChain, new_ratchet, advance_chain_key, initialise_as_alice,
  initialise_as_bob,
}
use olm.Ratchet.Encrypting.{message, encrypt_output_length, encrypt_random_length, ratchet_encrypt}
use olm.Ratchet.Decryption.{find_chain, failed_with, ratchet_decrypt}
use olm.Ratchet.Stored.{pickle_ratchet, unpickle_ratchet}
use olm.Ratchet.Chains.{chain_at}
use olm.Ratchet.Messages.{sent, chain_message}
use olm.Ratchet.Sending.{sending_chain, ratchet_encrypt_lem}
use olm.Ratchet.Delivery.{passed, ratchet_decrypt-ratchet_encrypt}
use olm.Ratchet.Turns.{Turn, IsFit, exchange_continued, following_chain, find_following}
use olm.Ratchet.Conversation.{
  AllFit, converse, plain_of, first_sender, first_alice, first_bob, initialise-InStep,
  converse_started,
}
use olm.Ratchet.Messages.{length-chain_ciphertext}
use olm.Ratchet.Receiving.{decode_chain_message}
use olm.Ratchet.Counters.{next_index, next_index-found}
use olm.Ratchet.Spent.{IsNumbered, index_of}
use olm.Ratchet.Replay.{
  Delivery, Call, receive, send, deliver, after_call, after_calls, IsKept, ratchet_encrypt-IsApart,
  ratchet_decrypt_once,
}
use olm.Ratchet.Failure.{Unopened, ratchet_decrypt-Unopened}
use olm.Ratchet.Late.{
  IsReadable, forget_skipped, ratchet_decrypt_out_of_order, ratchet_decrypt_twice,
}
use olm.Ratchet.Invariant.{
  IsRatchet, initialise_as_alice-IsRatchet, initialise_as_bob-IsRatchet, ratchet_decrypt-IsRatchet,
  ratchet_encrypt-IsRatchet,
}
use olm.Ratchet.Restored.{IsFresh, ratchet_restored, unpickle_ratchet-pickle_ratchet}
use olm.Tests.{toy, toy_laws, two_bytes, some_key}
use olm.Tests.Codecs.{two_bytes-IsBytes}

abbrev info : KdfInfo
info = record { root_info = some_key; ratchet_info = two_bytes }

abbrev zeros : Bytes
zeros = replicate 32 0

abbrev secret : Bytes
secret = replicate 32 7

abbrev fresh : Ratchet
fresh = new_ratchet info some_key zeros

abbrev alice : Ratchet
alice = first_alice toy info some_key two_bytes secret zeros

abbrev bob : Ratchet
bob = first_bob toy info some_key two_bytes secret zeros

abbrev sender : SenderChain
sender = first_sender toy info two_bytes secret

-- The chain of the first side after some messages.
abbrev sender_after : ℕ → SenderChain
sender_after n = record sender { chain_key = chain_at toy n sender.chain_key }

abbrev alice_after : ℕ → Ratchet
alice_after n = record alice { sender_chain = sender_after n ∷ [] }

found :
    find_chain sender.ratchet_key.public_key 0 bob.receiver_chains
    ≡ some (0, following_chain sender)
unfolding initialise-InStep
found =
    find_following toy toy_laws alice bob
      (initialise-InStep toy info some_key two_bytes secret zeros zeros)

sends : (n : ℕ) → sending_chain toy (alice_after n) [] ≡ some (alice_after n, sender_after n)
unfolding sending_chain
sends n = refl

key_length : length sender.ratchet_key.public_key ≡ 32
unfolding curve25519_generate_key
key_length = refl

no_random : (n : ℕ) → encrypt_random_length (alice_after n) ≤ 0
unfolding encrypt_random_length
no_random n = omega arith

abbrev buffer : Bytes
buffer = replicate 200 0

two-IsReadable : IsReadable two_bytes 16
unfolding encrypt_ciphertext_length aes_encrypt_cbc_length
two-IsReadable = (two_bytes-IsBytes, omega arith, omega arith)

room : encrypt_output_length (alice_after 2) 2 ≤ length buffer
unfolding encrypt_output_length encode_message_length varint_length varint_length_loop
    varstring_length encrypt_ciphertext_length aes_encrypt_cbc_length chain_at advance_chain_key
room = omega arith

third_message : ratchet_encrypt toy (alice_after 2) two_bytes [] buffer ≡ (
  sent toy (alice_after 2) (sender_after 2),
  message (chain_message toy some_key (sender_after 2) two_bytes),
)
unfolding initialise_as_alice new_ratchet
third_message =
    ratchet_encrypt_lem toy toy_laws (alice_after 2) (alice_after 2) (sender_after 2) two_bytes []
      buffer (sends 2) key_length two_bytes-IsBytes (no_random 2) room

-- The third message comes first.
ratchet_decrypt-ratchet_encrypt_example :
    (text : Bytes) × (ratchet_encrypt toy (alice_after 2) two_bytes [] buffer
      ≡ (sent toy (alice_after 2) (sender_after 2), message text))
    × (ratchet_decrypt toy bob text 16 false
        ≡ (passed toy bob 0 (following_chain sender) 2, plaintext two_bytes))
unfolding initialise_as_alice initialise_as_bob new_ratchet
ratchet_decrypt-ratchet_encrypt_example =
    ratchet_decrypt-ratchet_encrypt toy toy_laws (alice_after 2) (alice_after 2) bob
      (sender_after 2) 0 2 (following_chain sender) two_bytes [] buffer 16 false (sends 2)
      key_length (no_random 2) room refl found refl (omega arith) (omega arith) refl
      two-IsReadable.0 two-IsReadable.1 two-IsReadable.2

ratchet_decrypt_out_of_order_example :
    (ratchet_decrypt toy bob
        (chain_message toy bob.ratchet_cipher (sender_after 2) two_bytes)
        16
        false
      ≡ (passed toy bob 0 (following_chain sender) 2, plaintext two_bytes))
    × (ratchet_decrypt toy
          (passed toy bob 0 (following_chain sender) 2)
          (chain_message toy bob.ratchet_cipher (sender_after 0) two_bytes)
          16
          false
        ≡ (forget_skipped (passed toy bob 0 (following_chain sender) 2) 1, plaintext two_bytes))
ratchet_decrypt_out_of_order_example =
    ratchet_decrypt_out_of_order toy toy_laws bob (sender_after 0) (sender_after 2) 0 2 0
      (following_chain sender) two_bytes two_bytes 16 found refl key_length refl refl (omega arith)
      (omega arith) (omega arith) (omega arith) two-IsReadable two-IsReadable

none_skipped : bob.skipped_message_keys ≡ []
unfolding initialise_as_bob new_ratchet
none_skipped = refl

given_twice :
    (ratchet_decrypt toy bob
        (chain_message toy bob.ratchet_cipher (sender_after 2) two_bytes)
        16
        false
      ≡ (passed toy bob 0 (following_chain sender) 2, plaintext two_bytes))
    × (ratchet_decrypt toy
          (passed toy bob 0 (following_chain sender) 2)
          (chain_message toy bob.ratchet_cipher (sender_after 2) two_bytes)
          16
          false
        ≡ (
          failed_with
              (passed toy bob 0 (following_chain sender) 2)
              already_decrypted_or_keys_skipped,
          failed,
        ))
unfolding initialise_as_bob new_ratchet
given_twice =
    ratchet_decrypt_twice toy toy_laws bob (sender_after 2) 0 2 (following_chain sender) two_bytes
      16 found key_length refl (omega arith) (omega arith) tt two-IsReadable

ratchet_decrypt-Unopened_example : Unopened bob (ratchet_decrypt toy bob two_bytes 16 true)
ratchet_decrypt-Unopened_example = ratchet_decrypt-Unopened toy bob two_bytes 16 true

fresh-IsRatchet : IsRatchet fresh
unfolding new_ratchet
fresh-IsRatchet = record {
  root_size = refl;
  senders = (omega arith, tt);
  receivers = (omega arith, tt);
  skipped = (omega arith, tt);
}

alice-IsRatchet : IsRatchet alice
unfolding curve25519_generate_key
alice-IsRatchet =
    initialise_as_alice-IsRatchet toy toy_laws fresh two_bytes (curve25519_generate_key toy secret)
      (refl, refl) fresh-IsRatchet

bob-IsRatchet : IsRatchet bob
unfolding curve25519_generate_key
bob-IsRatchet =
    initialise_as_bob-IsRatchet toy toy_laws fresh two_bytes
      (curve25519_generate_key toy secret).public_key refl fresh-IsRatchet

ratchet_decrypt-IsRatchet_example :
    IsRatchet
      (ratchet_decrypt toy bob (chain_message toy bob.ratchet_cipher sender two_bytes) 16 true).0
ratchet_decrypt-IsRatchet_example =
    ratchet_decrypt-IsRatchet toy toy_laws bob
      (chain_message toy bob.ratchet_cipher sender two_bytes) 16 true bob-IsRatchet

ratchet_encrypt-IsRatchet_example : IsRatchet (ratchet_encrypt toy alice two_bytes [] buffer).0
ratchet_encrypt-IsRatchet_example =
    ratchet_encrypt-IsRatchet toy toy_laws alice two_bytes [] buffer alice-IsRatchet

pub fresh-IsFresh : IsFresh fresh
unfolding new_ratchet
fresh-IsFresh = record { no_sender = refl; no_receiver = refl; no_skipped = refl }

unpickle_ratchet-pickle_ratchet_example :
    unpickle_ratchet fresh (pickle_ratchet alice ++ two_bytes) false
    ≡ some (ratchet_restored fresh alice, two_bytes)
unpickle_ratchet-pickle_ratchet_example =
    unpickle_ratchet-pickle_ratchet fresh alice two_bytes fresh-IsFresh alice-IsRatchet

-- The first side says something, and the second one answers with a key of its own.
abbrev first_turn : Turn
first_turn = record {
  plain = two_bytes;
  random = zeros;
  output = buffer;
  max_plaintext_length = 16;
}

abbrev answer_turn : Turn
answer_turn = record {
  plain = some_key;
  random = replicate 32 5;
  output = buffer;
  max_plaintext_length = 16;
}

abbrev turns : List (Bool × Turn)
turns = (true, first_turn) ∷ (false, answer_turn) ∷ []

first_fits : IsFit toy alice bob first_turn
unfolding encrypt_output_length encode_message_length varint_length varint_length_loop
    varstring_length encrypt_ciphertext_length aes_encrypt_cbc_length initialise_as_alice
    new_ratchet
first_fits = record {
  plain_bytes = two_bytes-IsBytes;
  random_room = omega arith;
  output_room = omega arith;
  size_room = omega arith;
  plain_room = omega arith;
  counter_room = λ chain h. ground (arith, h);
  new_key = λ h. absurd (ground (arith, h));
}

answer_fits :
    IsFit toy (passed toy bob 0 (following_chain sender) 0) (sent toy alice sender) answer_turn
unfolding encrypt_output_length encode_message_length varint_length varint_length_loop
    varstring_length encrypt_ciphertext_length aes_encrypt_cbc_length initialise_as_alice
    initialise_as_bob new_ratchet passed find_chain
answer_fits = record {
  plain_bytes = (omega arith, (omega arith, (omega arith, tt)));
  random_room = omega arith;
  output_room = omega arith;
  size_room = omega arith;
  plain_room = omega arith;
  counter_room = λ chain h. absurd (ground (arith, h));
  new_key = λ h. refl;
}

turns_fit : AllFit toy turns alice bob
unfolding AllFit initialise-InStep
turns_fit = (
  first_fits,
  rw
      (exchange_continued toy toy_laws alice bob first_turn
        (initialise-InStep toy info some_key two_bytes secret zeros zeros) first_fits)
      (answer_fits, tt),
)

converse_started_example : converse toy turns alice bob ≡ map plain_of turns
converse_started_example =
    converse_started toy toy_laws turns info some_key two_bytes secret zeros zeros turns_fit

-- The third message comes first, then the first one with a key that was stored; the receiver
-- answers, and gets the first one again.
abbrev third : Delivery
third = record {
  text = chain_message toy bob.ratchet_cipher (sender_after 2) two_bytes;
  max_plaintext_length = 16;
  is_sequential = false;
}

abbrev first : Delivery
first = record {
  text = chain_message toy bob.ratchet_cipher (sender_after 0) two_bytes;
  max_plaintext_length = 16;
  is_sequential = false;
}

abbrev reply : Call
reply = send two_bytes zeros buffer

abbrev shared_key : Bytes
shared_key = sender.ratchet_key.public_key

abbrev after_third : Ratchet
after_third = passed toy bob 0 (following_chain sender) 2

abbrev after_first : Ratchet
after_first = forget_skipped after_third 1

first-IsNumbered : IsNumbered first.text shared_key 0
unfolding chain_at
first-IsNumbered = (
  _,
  decode_chain_message toy toy_laws bob.ratchet_cipher (sender_after 0) two_bytes (omega arith)
      key_length
      (omega (
        arith,
        length-chain_ciphertext toy toy_laws bob.ratchet_cipher (sender_after 0) two_bytes
            two_bytes-IsBytes,
        two-IsReadable.1,
      )),
  refl,
  refl,
)

third_opens : deliver toy bob third ≡ (after_third, plaintext two_bytes)
third_opens = ratchet_decrypt_out_of_order_example.0

first_opens : deliver toy after_third first ≡ (after_first, plaintext two_bytes)
first_opens = ratchet_decrypt_out_of_order_example.1

IsKept-after :
    (session session' : Ratchet) (call : Call) (calls : List Call)
    → after_call toy session call ≡ session'
    → index_of shared_key session ≤ index_of shared_key session'
    → IsKept toy shared_key session' calls
    → IsKept toy shared_key session (call ∷ calls)
unfolding IsKept
IsKept-after session session' call calls e rises kept = rw e (rises, kept)

reply-IsKept : IsKept toy shared_key after_first (reply ∷ [])
unfolding IsKept after_call
reply-IsKept = (
  omega (
    arith,
    ap (next_index shared_key) (ratchet_encrypt-IsApart toy after_first two_bytes zeros buffer).0,
  ),
  tt,
)

calls-IsKept : IsKept toy shared_key bob (receive third ∷ (receive first ∷ (reply ∷ [])))
unfolding after_call
calls-IsKept =
    IsKept-after bob after_third (receive third) (receive first ∷ (reply ∷ []))
      (ap (λ (outcome : Ratchet × Decrypted). outcome.0) third_opens)
      (omega
        (arith, next_index-found shared_key 0 0 bob.receiver_chains (following_chain sender) found))
      (IsKept-after after_third after_first (receive first) (reply ∷ [])
        (ap (λ (outcome : Ratchet × Decrypted). outcome.0) first_opens) (omega arith) reply-IsKept)

opened_first :
    (deliver toy (after_calls toy bob (receive third ∷ [])) first).1 ≡ plaintext two_bytes
unfolding after_calls after_call
opened_first =
    ap (λ (outcome : Ratchet × Decrypted). (deliver toy outcome.0 first).1) third_opens
    ∙ ap (λ (outcome : Ratchet × Decrypted). outcome.1) first_opens

ratchet_decrypt_once_example :
    (deliver toy (after_calls toy bob (receive third ∷ (receive first ∷ (reply ∷ [])))) first).1
    ≢ plaintext two_bytes
ratchet_decrypt_once_example =
    ratchet_decrypt_once toy toy_laws shared_key key_length 0 bob (receive third ∷ []) (reply ∷ [])
      first first two_bytes two_bytes bob-IsRatchet none_skipped first-IsNumbered first-IsNumbered
      calls-IsKept opened_first
