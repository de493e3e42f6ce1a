-- ===== src/Tests/Session.antt =====
-- Examples for src/session.cpp and src/account.cpp.
use olm.Base.{
  ℕ, ◌≤◌, Bytes, true, false, none, some, List, [], ◌∷◌, ◌++◌, drop, length, replicate, ◌≡◌, refl,
  arith,
}
use olm.Error.{success}
use olm.Memory.{is_equal}
use olm.Memory.Equality.{memcmp_equal_refl}
use olm.Pickle.{KeyPair}
use olm.Crypto.{
  curve25519_generate_key, ed25519_generate_key, crypto_ed25519_verify, aes_encrypt_cbc_length,
}
use olm.Cipher.{encrypt_ciphertext_length}
use olm.Message.{
  decode_string, varint_skip, varint_decode, varint_length, varint_length_loop, varstring_length,
}
use olm.Message.Normal.{encode_message_length}
use olm.Message.PreKey.{
  PreKeyMessageReader, encode_one_time_key_message_length, decode_one_time_key_message,
  decode_one_time_key_loop, decode_one_time_key_round,
}
use olm.Ratchet.{new_ratchet, initialise_as_alice}
use olm.Ratchet.Encrypting.{encrypt_output_length}
use olm.Ratchet.Late.{IsReadable}
use olm.Ratchet.Restored.{IsFresh}
use olm.Ratchet.Invariant.{initialise_as_alice-IsRatchet}
use olm.Account.{
  Account, PreKey, OneTimeKey, lookup_key, lookup_prekey, find_one_time_key, generate_one_time_keys,
  mark_keys_as_published,
}
use olm.Account.OneTimeKeys.{
  IsFound, lookup_key-generate_one_time_keys, mark_keys_as_published_again,
}
use olm.Session.{
  Session, new_session, prekey_message, session_decrypt, encrypt_message_length, session_id_length,
}
use olm.Account.Stored.{account_raw_pickle, account_raw_unpickle}
use olm.Account.Restored.{IsAccount, account_restored, account_raw_unpickle-account_raw_pickle}
use olm.Session.Starting.{
  new_outbound_session, new_inbound_session, check_message_fields, session_id, started, overrun,
  stray,
}
use olm.Session.Secret.{new_outbound_session_any_identity, session_id_overrun}
use olm.Session.PreKeyText.{with_keys}
use olm.Session.Meeting.{Meeting, keys_of, secret_of, first_ratchet_of}
use olm.Session.Handshake.{IsOpened, session_first_message}
use olm.Session.Stored.{
  IsSession, session_restored, session_raw_pickle, session_raw_unpickle,
  session_raw_unpickle-session_raw_pickle,
}
use olm.Session.Errors.{Failed, session_decrypt-Failed, new_inbound_session_stray}
use olm.Tests.{toy, toy_laws, two_bytes, some_key}
use olm.Tests.Codecs.{two_bytes-IsBytes}

-- A key pair from a secret.
abbrev pair : ℕ → KeyPair
pair n = curve25519_generate_key toy (replicate 32 n)

abbrev one_time_key : OneTimeKey
one_time_key = record { id = 1; published = false; key = pair 3 }

abbrev prekey : PreKey
prekey = record { id = 1; published = true; key = pair 4; signature = replicate 64 1 }

abbrev account : ℕ → List OneTimeKey → Account
account n keys = record {
  identity_keys = record {
    ed25519_key = ed25519_generate_key toy (replicate 32 n);
    curve25519_key = pair n;
  };
  one_time_keys = keys;
  current_prekey = prekey;
  prev_prekey = prekey;
  next_prekey_id = 2;
  last_prekey_publish_time = 0;
  num_prekeys = 1;
  num_fallback_keys = 0;
  current_fallback_key = one_time_key;
  prev_fallback_key = one_time_key;
  next_one_time_key_id = 2;
  last_error = success;
}

abbrev alice : Account
alice = account 1 []

abbrev bob : Account
bob = account 2 (one_time_key ∷ [])

abbrev buffer : Bytes
buffer = replicate 400 0

abbrev random : Bytes
random = replicate 64 6

meeting : Meeting toy alice bob
unfolding find_one_time_key lookup_key lookup_prekey curve25519_generate_key is_equal
meeting = record {
  alice_secret = replicate 32 1;
  bob_secret = replicate 32 2;
  one_time_secret = replicate 32 3;
  prekey_secret = replicate 32 4;
  one_time_key = one_time_key;
  prekey = prekey;
  alice_identity = refl;
  bob_identity = refl;
  one_time_made = refl;
  prekey_made = refl;
  one_time_found = refl;
  prekey_found = refl;
  different = refl;
}

-- The session that the first side starts.
abbrev outbound : Session
outbound =
    with_keys new_session (keys_of toy alice bob meeting random)
      (first_ratchet_of toy alice bob meeting random)

room : encrypt_message_length outbound 2 ≤ length buffer
unfolding encrypt_message_length encrypt_output_length encode_message_length
    encode_one_time_key_message_length varint_length varint_length_loop varstring_length
    encrypt_ciphertext_length aes_encrypt_cbc_length initialise_as_alice new_session new_ratchet
room = omega arith

two-IsReadable : IsReadable two_bytes 16
unfolding encrypt_ciphertext_length aes_encrypt_cbc_length
two-IsReadable = (two_bytes-IsBytes, omega arith, omega arith)

session_first_message_example :
    (new_outbound_session toy new_session alice
        (pair 2).public_key
        some_key
        (pair 4).public_key
        (replicate 64 1)
        random
        (some (pair 3).public_key)
      ≡ (outbound, started))
    × IsOpened toy toy_laws
        (keys_of toy alice bob meeting random)
        bob
        (some (pair 1).public_key)
        (first_ratchet_of toy alice bob meeting random)
        two_bytes
        []
        buffer
        16
unfolding crypto_ed25519_verify curve25519_generate_key meeting
session_first_message_example =
    session_first_message toy toy_laws alice bob meeting (some (pair 1).public_key) some_key
      (replicate 64 1) random two_bytes [] buffer 16 (omega arith) refl
      (memcmp_equal_refl 32 (pair 1).public_key (omega arith)) two-IsReadable room (omega arith)

lookup_key-generate_one_time_keys_example :
    ((generate_one_time_keys toy alice 2 random).1 ≡ some 2)
    × IsFound (curve25519_generate_key toy (drop 32 random)).public_key (
        lookup_key
          (generate_one_time_keys toy alice 2 random).0
          (curve25519_generate_key toy (drop 32 random)).public_key)
lookup_key-generate_one_time_keys_example =
    lookup_key-generate_one_time_keys toy toy_laws alice 2 1 random (omega arith) (omega arith)
      (omega arith)

published_twice :
    mark_keys_as_published (mark_keys_as_published bob).0 ≡ ((mark_keys_as_published bob).0, 0)
published_twice = mark_keys_as_published_again bob

new_outbound_session_any_identity_example :
    new_outbound_session toy new_session alice
      (pair 2).public_key
      some_key
      (pair 4).public_key
      (replicate 64 1)
      random
      none
    ≡ new_outbound_session toy new_session alice
        (pair 9).public_key
        some_key
        (pair 4).public_key
        (replicate 64 1)
        random
        none
new_outbound_session_any_identity_example =
    new_outbound_session_any_identity toy toy_laws new_session alice (pair 2).public_key
      (pair 9).public_key some_key (pair 4).public_key (replicate 64 1) random none

overrun_identifier : session_id toy outbound 32 ≡ (outbound, overrun)
unfolding curve25519_generate_key session_id_length meeting
overrun_identifier = session_id_overrun toy toy_laws outbound 32 refl refl refl refl (omega arith)

clear : new_session.ratchet.last_error ≡ success
unfolding new_session new_ratchet
clear = refl

session_decrypt-Failed_example :
    Failed new_session (session_decrypt toy new_session prekey_message two_bytes 16 true)
session_decrypt-Failed_example =
    session_decrypt-Failed toy new_session prekey_message two_bytes 16 true clear

-- A message with all the fields that are asked for, and without a pre-key.
abbrev stray_text : Bytes
stray_text =
    3
    ∷ 0o12
    ∷ 32
    ∷ (replicate 32 5
        ++ (0o22 ∷ 32 ∷ (replicate 32 6 ++ (0o32 ∷ 32 ∷ (replicate 32 7 ++ (0o42 ∷ 1 ∷ 8 ∷ []))))))

abbrev stray_reader : PreKeyMessageReader
stray_reader = record {
  version = 3;
  identity_key = some (replicate 32 7);
  base_key = some (replicate 32 6);
  prekey = none;
  one_time_key = some (replicate 32 5);
  message = some (8 ∷ []);
}

stray_read : decode_one_time_key_message stray_text ≡ some stray_reader
unfolding decode_one_time_key_message decode_one_time_key_loop decode_one_time_key_round
    decode_string varint_skip varint_decode
stray_read = refl

no_prekey : new_inbound_session toy new_session bob none stray_text ≡ (new_session, stray)
unfolding check_message_fields
no_prekey =
    new_inbound_session_stray toy new_session bob none stray_text stray_reader stray_read refl refl
      refl

outbound-IsSession : IsSession outbound
unfolding curve25519_generate_key meeting new_session new_ratchet
outbound-IsSession = record {
  ratchet_whole =
      initialise_as_alice-IsRatchet toy toy_laws new_session.ratchet
        (secret_of toy alice bob meeting random) (curve25519_generate_key toy (drop 32 random))
        (refl, refl)
        (record {
          root_size = refl;
          senders = (omega arith, tt);
          receivers = (omega arith, tt);
          skipped = (omega arith, tt);
        });
  alice_identity_size = refl;
  alice_base_size = refl;
  bob_one_time_size = refl;
  bob_prekey_size = refl;
}

new_session-IsFresh : IsFresh new_session.ratchet
unfolding new_session new_ratchet
new_session-IsFresh = record { no_sender = refl; no_receiver = refl; no_skipped = refl }

session_raw_unpickle-session_raw_pickle_example :
    session_raw_unpickle new_session (session_raw_pickle outbound ++ two_bytes)
    ≡ (new_session, some (session_restored new_session outbound, two_bytes))
session_raw_unpickle-session_raw_pickle_example =
    session_raw_unpickle-session_raw_pickle new_session outbound two_bytes new_session-IsFresh
      outbound-IsSession

bob-IsAccount : IsAccount bob
unfolding curve25519_generate_key ed25519_generate_key
bob-IsAccount = record {
  identity_whole = ((refl, refl), (refl, refl));
  one_time_whole = (omega arith, ((omega arith, (refl, refl)), tt));
  current_prekey_whole = (omega arith, ((refl, refl), refl));
  prev_prekey_whole = (omega arith, ((refl, refl), refl));
  prekey_id_bits = omega arith;
  time_bits = omega arith;
  few_prekeys = omega arith;
  few_fallback_keys = omega arith;
  current_fallback_whole = (omega arith, (refl, refl));
  prev_fallback_whole = (omega arith, (refl, refl));
  key_id_bits = omega arith;
}

account_raw_unpickle-account_raw_pickle_example :
    account_raw_unpickle alice (account_raw_pickle bob ++ two_bytes)
    ≡ (none, some (account_restored alice bob, two_bytes))
account_raw_unpickle-account_raw_pickle_example =
    account_raw_unpickle-account_raw_pickle alice bob two_bytes refl bob-IsAccount
