-- ===== src/Session/Starting.antt =====
-- The start of a session in src/session.cpp, and its identifier. The branches for a message decoder
-- without fuel left stand for nothing in the source.
use olm.Base.{
  ℕ, ◌*◌, Bytes, Bool, true, false, Option, none, some, [], ◌++◌, take, drop, length, ltb, ◌==◌,
  ◌&&◌, ◌||◌, not, if◌then◌else◌,
}
use olm.Error.{
  not_enough_random, output_buffer_too_small, bad_message_format, bad_signature, bad_message_key_id,
}
use olm.Memory.{is_equal, memcmp_equal}
use olm.Pickle.{KeyPair, curve25519_key_length}
use olm.Crypto.External.{Primitives}
use olm.Crypto.{
  crypto_sha256, crypto_ed25519_verify, curve25519_generate_key, curve25519_shared_secret,
}
use olm.Cipher.{mac_length}
use olm.Message.Normal.{decode_message}
use olm.Message.PreKey.{PreKeyMessageReader, decode_one_time_key_message}
use olm.Ratchet.{initialise_as_alice, initialise_as_bob}
use olm.Account.{Account, curve25519_random_length, lookup_key, lookup_prekey}
use olm.Session.{Session, session_fail, session_id_length}

abbrev pub new_outbound_session_random_length : ℕ
new_outbound_session_random_length = curve25519_random_length * 2

-- What starting a session returns: zero, `size_t(-1)`, or nothing that C defines, after a read
-- through a null pointer or behind the end of a field.
pub data Started : Type 0 where
  started refused stray : Started

-- What `session_id` returns: the hash, `size_t(-1)`, or nothing that C defines, after a write behind
-- the end of an array.
pub data Identified : Type 0 where
  identifier : Bytes → Identified
  refused overrun : Identified

-- The bytes of an array of `size` bytes into which others are stored from its front on.
unfoldable pub store_arrays : ℕ → Bytes → Option Bytes
store_arrays size bytes = if ltb size (length bytes) then none else some bytes

-- `shared_secret_steps`, and `sizeof(std::uint8_t) * shared_secret_steps` bytes of the secret.
abbrev pub shared_secret_part : Bool → Bytes → Bytes
shared_secret_part four_steps secret = take (1 * (if four_steps then 4 else 3)) secret

abbrev pub is_present : Option Bytes → Bool
is_present none = false
is_present (some bytes) = true

abbrev pub is_key : Option Bytes → Bool
is_key none = false
is_key (some bytes) = length bytes == curve25519_key_length

unfoldable pub check_message_fields : PreKeyMessageReader → Bool → Bool
check_message_fields reader have_their_identity_key =
    (have_their_identity_key || is_present reader.identity_key)
    && (not (is_present reader.identity_key) || is_key reader.identity_key)
    && is_present reader.message
    && is_key reader.base_key
    && is_key reader.one_time_key

-- `0 == memcmp(key, bytes, CURVE25519_KEY_LENGTH)` where both are there, and true where one is not.
abbrev pub agrees : Option Bytes → Option Bytes → Bool
agrees (some key) (some bytes) = memcmp_equal curve25519_key_length key bytes
agrees _ _ = true

unfoldable pub matches_inbound_session : Session → Option Bytes → Bytes → Bool
matches_inbound_session session their_identity_key text = elim (decode_one_time_key_message text) [
  | none ↦ false
  | some reader ↦
      check_message_fields reader (is_present their_identity_key)
      && agrees reader.identity_key (some session.alice_identity_key)
      && agrees their_identity_key (some session.alice_identity_key)
      && agrees reader.base_key (some session.alice_base_key)
      && agrees reader.one_time_key (some session.bob_one_time_key)
]

-- `load_array` from a pointer: the first bytes of a field that is there and long enough.
abbrev pub load_key : Option Bytes → Option Bytes
load_key none = none
load_key (some bytes) =
    if ltb (length bytes) curve25519_key_length
    then none
    else some (take curve25519_key_length bytes)

-- The four keys of a pre-key message, all loaded.
unfoldable pub load_keys : Session → PreKeyMessageReader → Option Session
load_keys session reader = elim (load_key reader.identity_key) [
  | none ↦ none
  | some identity_key ↦ elim (load_key reader.base_key) [
    | none ↦ none
    | some base_key ↦ elim (load_key reader.one_time_key) [
      | none ↦ none
      | some one_time_key ↦ elim (load_key reader.prekey) [
        | none ↦ none
        | some prekey ↦ some (record session {
          alice_identity_key = identity_key;
          alice_base_key = base_key;
          bob_one_time_key = one_time_key;
          bob_prekey = prekey;
        })
      ]
    ]
  ]
]

-- The ratchet key of the inner message.
unfoldable pub inner_ratchet_key : Option Bytes → Option Bytes
inner_ratchet_key none = none
inner_ratchet_key (some body) = elim (decode_message body mac_length) [
  | none ↦ none
  | some reader ↦ elim reader.ratchet_key [
    | none ↦ none
    | some ratchet_key ↦
        if length ratchet_key == curve25519_key_length then some ratchet_key else none
  ]
]

module _ (p : Primitives) where
  unfoldable pub session_id : Session → ℕ → Session × Identified
  session_id session id_length =
      let keys =
        session.alice_identity_key
        ++ (session.alice_base_key ++ (session.bob_one_time_key ++ session.bob_prekey)) in
      if ltb id_length session_id_length
      then (session_fail session output_buffer_too_small, refused)
      else elim (store_arrays (curve25519_key_length * 3) keys) [
        | none ↦ (session, overrun)
        | some tmp ↦ (session, identifier (crypto_sha256 p tmp))
      ]

  -- The shared secrets of the side that starts; the last one is only there with a one-time key.
  unfoldable pub outbound_secret : KeyPair → KeyPair → Bytes → Bytes → Option Bytes → Bytes
  outbound_secret identity_pair base_pair identity_key pre_key one_time_key =
      let bob_one_time_key : Bytes = elim one_time_key [ none ↦ pre_key | some key ↦ key ] in
      let last : Bytes =
        if is_present one_time_key then curve25519_shared_secret p base_pair pre_key else [] in
      curve25519_shared_secret p identity_pair bob_one_time_key
      ++ (curve25519_shared_secret p base_pair identity_key
          ++ (curve25519_shared_secret p base_pair bob_one_time_key ++ last))

  unfoldable pub new_outbound_session :
      Session
      → Account
      → (identity_key signing_key pre_key pre_key_signature random : Bytes) → Option Bytes
      → Session × Started
  new_outbound_session session local_account identity_key signing_key pre_key pre_key_signature
        random one_time_key =
      let base_pair = curve25519_generate_key p random in
      let ratchet_pair = curve25519_generate_key p (drop curve25519_random_length random) in
      let identity_pair = local_account.identity_keys.curve25519_key in
      let session1 : Session = record session {
        received_message = false;
        alice_identity_key = identity_pair.public_key;
        alice_base_key = base_pair.public_key;
        bob_one_time_key = elim one_time_key [ none ↦ pre_key | some key ↦ key ];
        bob_prekey = pre_key;
      } in
      let secret = outbound_secret identity_pair base_pair identity_key pre_key one_time_key in
      if ltb (length random) new_outbound_session_random_length
      then (session_fail session not_enough_random, refused)
      else if crypto_ed25519_verify p signing_key pre_key pre_key_signature
      then (
        record session1 {
          ratchet =
              initialise_as_alice p session.ratchet
                (shared_secret_part (is_present one_time_key) secret) ratchet_pair;
        },
        started,
      )
      else (session_fail session1 bad_signature, refused)

  -- The shared secrets of the side that answers; the last one is left out where the pre-key is used
  -- as the one-time key.
  unfoldable pub inbound_secret : KeyPair → KeyPair → KeyPair → Bytes → Bytes → Bool → Bytes
  inbound_secret identity_pair one_time_pair prekey_pair their_identity_key their_base_key
        using_prekey =
      let last : Bytes =
        if using_prekey then [] else curve25519_shared_secret p prekey_pair their_base_key in
      curve25519_shared_secret p one_time_pair their_identity_key
      ++ (curve25519_shared_secret p identity_pair their_base_key
          ++ (curve25519_shared_secret p one_time_pair their_base_key ++ last))

  -- With both keys of this account found.
  unfoldable pub answer : Session → Account → Bytes → KeyPair → KeyPair → Bool → Session × Started
  answer session local_account ratchet_key one_time_pair prekey_pair using_prekey =
      let secret =
        inbound_secret local_account.identity_keys.curve25519_key one_time_pair prekey_pair
          session.alice_identity_key session.alice_base_key using_prekey in
      (
        record session {
          ratchet =
              initialise_as_bob p session.ratchet (shared_secret_part (not using_prekey) secret)
                ratchet_key;
        },
        started,
      )

  -- With the keys of the message loaded.
  unfoldable pub answer_keys : Session → Account → Bytes → Session × Started
  answer_keys session local_account ratchet_key =
      let using_prekey =
        is_equal session.bob_prekey session.bob_one_time_key curve25519_key_length in
      let missing : Session × Started = (session_fail session bad_message_key_id, refused) in
      elim (lookup_key local_account session.bob_one_time_key) [
        | none ↦
            if using_prekey
            then elim (lookup_prekey local_account session.bob_prekey) [
              | none ↦ missing
              | some our_prekey ↦
                  answer session local_account ratchet_key our_prekey.key our_prekey.key true
            ]
            else missing
        | some our_one_time_key ↦ elim (lookup_prekey local_account session.bob_prekey) [
          | none ↦ missing
          | some our_prekey ↦
              answer session local_account ratchet_key
                (if using_prekey then our_prekey.key else our_one_time_key.key) our_prekey.key
                using_prekey
        ]
      ]

  unfoldable pub new_inbound_session : Session → Account → Option Bytes → Bytes → Session × Started
  new_inbound_session session local_account their_identity_key text =
      elim (decode_one_time_key_message text) [
        | none ↦ (session, refused)
        | some reader ↦
            if not (check_message_fields reader (is_present their_identity_key))
            then (session_fail session bad_message_format, refused)
            else if not (agrees their_identity_key reader.identity_key)
            then (session_fail session bad_message_key_id, refused)
            else elim (load_keys session reader) [
              | none ↦ (session, stray)
              | some session1 ↦ elim (inner_ratchet_key reader.message) [
                | none ↦ (session_fail session1 bad_message_format, refused)
                | some ratchet_key ↦ answer_keys session1 local_account ratchet_key
              ]
            ]
      ]
