-- ===== src/Session/Stored.antt =====
-- The pickling of src/session.cpp. A reader returns the value and the new position, or `none`; of
-- what it leaves in the session where it fails, only the error code is kept.
use olm.Base.{
  ℕ, ◌+◌, Bytes, Bool, true, false, Option, none, some, [], ◌++◌, append_assoc, length, ◌==◌,
  if◌then◌else◌, ◌>>=◌, ◌≡◌, refl, arith,
}
use olm.Error.{unknown_pickle_version}
use olm.Pickle.{
  pickle_uint32, unpickle_uint32, pickle_bool, unpickle_bool, pickle_curve25519_public_key,
  unpickle_curve25519_public_key, curve25519_key_length,
}
use olm.Pickle.RoundTrip.{unpickle_uint32-pickle_uint32, unpickle_bool-pickle_bool}
use olm.Pickle.Lists.{unpickle_ok}
use olm.Ratchet.Invariant.{IsRatchet}
use olm.Ratchet.Stored.{pickle_ratchet, unpickle_ratchet, ratchet_pickle_length}
use olm.Ratchet.Restored.{
  IsFresh, ratchet_restored, unpickle_ratchet-pickle_ratchet, read_public_key,
}
use olm.Session.{Session, session_fail}

abbrev pub session_pickle_version : ℕ
session_pickle_version = 1

unfoldable pub session_raw_pickle_length : Session → ℕ
session_raw_pickle_length value =
    4
    + 1
    + curve25519_key_length
    + curve25519_key_length
    + curve25519_key_length
    + curve25519_key_length
    + ratchet_pickle_length value.ratchet

unfoldable pub session_raw_pickle : Session → Bytes
session_raw_pickle value =
    pickle_uint32 session_pickle_version
    ++ (pickle_bool value.received_message
        ++ (pickle_curve25519_public_key value.alice_identity_key
            ++ (pickle_curve25519_public_key value.alice_base_key
                ++ (pickle_curve25519_public_key value.bob_one_time_key
                    ++ (pickle_curve25519_public_key value.bob_prekey
                        ++ pickle_ratchet value.ratchet)))))

-- Behind the version.
unfoldable pub unpickle_session_fields : Session → Bytes → Bool → Option (Session × Bytes)
unpickle_session_fields value pos includes_chain_index = do
  (received_message, pos1) ← unpickle_ok (unpickle_bool value.received_message pos)
  (alice_identity_key, pos2) ← unpickle_ok (unpickle_curve25519_public_key [] pos1)
  (alice_base_key, pos3) ← unpickle_ok (unpickle_curve25519_public_key [] pos2)
  (bob_one_time_key, pos4) ← unpickle_ok (unpickle_curve25519_public_key [] pos3)
  (bob_prekey, pos5) ← unpickle_ok (unpickle_curve25519_public_key [] pos4)
  (ratchet, pos6) ← unpickle_ratchet value.ratchet pos5 includes_chain_index
  some (
    record value {
      ratchet = ratchet;
      received_message = received_message;
      alice_identity_key = alice_identity_key;
      alice_base_key = alice_base_key;
      bob_one_time_key = bob_one_time_key;
      bob_prekey = bob_prekey;
    },
    pos6,
  )

-- The `switch` on the version: whether there is a chain index, `none` for an unknown version.
unfoldable pub session_version : ℕ → Option Bool
session_version pickle_version =
    if pickle_version == session_pickle_version
    then some false
    else if pickle_version == 0x80000001
    then some true
    else none

-- The session is returned first, for its error code.
unfoldable pub session_raw_unpickle : Session → Bytes → Session × Option (Session × Bytes)
session_raw_unpickle value pos = elim (unpickle_ok (unpickle_uint32 pos)) [
  | none ↦ (value, none)
  | some (pickle_version, pos1) ↦ elim (session_version pickle_version) [
    | none ↦ (session_fail value unknown_pickle_version, none)
    | some includes_chain_index ↦ (value, unpickle_session_fields value pos1 includes_chain_index)
  ]
]

pub record IsSession (value : Session) : Type 0 where
  pub ratchet_whole : IsRatchet value.ratchet
  pub alice_identity_size : length value.alice_identity_key ≡ 32
  pub alice_base_size : length value.alice_base_key ≡ 32
  pub bob_one_time_size : length value.bob_one_time_key ≡ 32
  pub bob_prekey_size : length value.bob_prekey ≡ 32

abbrev pub session_restored : Session → Session → Session
session_restored fresh value = record value {
  ratchet = ratchet_restored fresh.ratchet value.ratchet;
  last_error = fresh.last_error;
}

unpickle_session_fields_lem :
    (fresh value : Session) (rest : Bytes)
    → IsFresh fresh.ratchet
    → IsSession value
    → unpickle_session_fields fresh
        (pickle_bool value.received_message
          ++ (pickle_curve25519_public_key value.alice_identity_key
              ++ (pickle_curve25519_public_key value.alice_base_key
                  ++ (pickle_curve25519_public_key value.bob_one_time_key
                      ++ (pickle_curve25519_public_key value.bob_prekey
                          ++ (pickle_ratchet value.ratchet ++ rest))))))
        false
      ≡ some (session_restored fresh value, rest)
unfolding unpickle_session_fields unpickle_ok
unpickle_session_fields_lem fresh value rest new h =
    let five = pickle_ratchet value.ratchet ++ rest in
    let four = pickle_curve25519_public_key value.bob_prekey ++ five in
    let three = pickle_curve25519_public_key value.bob_one_time_key ++ four in
    let two = pickle_curve25519_public_key value.alice_base_key ++ three in
    let one = pickle_curve25519_public_key value.alice_identity_key ++ two in
    rw
      (
        unpickle_bool-pickle_bool fresh.received_message value.received_message one,
        read_public_key value.alice_identity_key two h.alice_identity_size,
        read_public_key value.alice_base_key three h.alice_base_size,
        read_public_key value.bob_one_time_key four h.bob_one_time_size,
        read_public_key value.bob_prekey five h.bob_prekey_size,
        unpickle_ratchet-pickle_ratchet fresh.ratchet value.ratchet rest new h.ratchet_whole,
      )
      refl

session_version_first :
    (fresh : Session) (pos : Bytes)
    → session_raw_unpickle fresh (pickle_uint32 session_pickle_version ++ pos)
      ≡ (fresh, unpickle_session_fields fresh pos false)
unfolding session_raw_unpickle session_version unpickle_ok
session_version_first fresh pos =
    let version = unpickle_uint32-pickle_uint32 session_pickle_version pos (omega arith) in
    rw (version, session_raw_unpickle, version) refl

-- A session with a well-formed ratchet and keys of 32 bytes, pickled in front of any bytes, is
-- read back over a session whose ratchet has no chains and keys: the keys and the flag are those
-- stored, the cipher and the last error those of the session read into, and the position is at
-- those bytes.
pub session_raw_unpickle-session_raw_pickle :
    (fresh value : Session) (rest : Bytes)
    → IsFresh fresh.ratchet
    → IsSession value
    → session_raw_unpickle fresh (session_raw_pickle value ++ rest)
      ≡ (fresh, some (session_restored fresh value, rest))
unfolding session_raw_pickle
session_raw_unpickle-session_raw_pickle fresh value rest new h =
    let five = pickle_ratchet value.ratchet in
    let four = pickle_curve25519_public_key value.bob_prekey ++ five in
    let three = pickle_curve25519_public_key value.bob_one_time_key ++ four in
    let two = pickle_curve25519_public_key value.alice_base_key ++ three in
    let one = pickle_curve25519_public_key value.alice_identity_key ++ two in
    rw
      (
        append_assoc (pickle_uint32 session_pickle_version)
            (pickle_bool value.received_message ++ one) rest,
        append_assoc (pickle_bool value.received_message) one rest,
        append_assoc (pickle_curve25519_public_key value.alice_identity_key) two rest,
        append_assoc (pickle_curve25519_public_key value.alice_base_key) three rest,
        append_assoc (pickle_curve25519_public_key value.bob_one_time_key) four rest,
        append_assoc (pickle_curve25519_public_key value.bob_prekey) five rest,
        session_version_first fresh,
        unpickle_session_fields_lem fresh value rest new h,
      )
      refl
