-- ===== src/Account/Stored.antt =====
-- The pickling of src/account.cpp, and the versions that it reads. A reader returns the value and
-- the new position, or `none`; of what it leaves in the account where it fails, only the error code
-- is kept.
use olm.Base.{
  ℕ, Bytes, Bool, false, Option, none, some, [], ◌++◌, ltb, ◌==◌, ◌||◌, if◌then◌else◌, ◌>>=◌,
}
use olm.Error.{ErrorCode, unknown_pickle_version, bad_legacy_account_pickle, corrupted_pickle}
use olm.Pickle.{
  pickle_uint32, unpickle_uint32, pickle_uint64, unpickle_uint64, pickle_uint8, unpickle_uint8,
  pickle_bool, unpickle_bool, pickle_bytes, unpickle_bytes, pickle_curve25519_key_pair,
  unpickle_curve25519_key_pair, pickle_ed25519_key_pair, unpickle_ed25519_key_pair,
}
use olm.Pickle.Lists.{unpickle_ok, pickle_list, unpickle_list}
use olm.Ratchet.Stored.{blank_key_pair}
use olm.Account.{
  Account, IdentityKeys, PreKey, OneTimeKey, ed25519_signature_length, max_one_time_keys,
}

abbrev pub account_pickle_version : ℕ
account_pickle_version = 10005

unfoldable pub pickle_identity_keys : IdentityKeys → Bytes
pickle_identity_keys value =
    pickle_ed25519_key_pair value.ed25519_key ++ pickle_curve25519_key_pair value.curve25519_key

unfoldable pub unpickle_identity_keys : Bytes → Option (IdentityKeys × Bytes)
unpickle_identity_keys pos = do
  (ed25519_key, pos1) ← unpickle_ok (unpickle_ed25519_key_pair blank_key_pair pos)
  (curve25519_key, pos2) ← unpickle_ok (unpickle_curve25519_key_pair blank_key_pair pos1)
  some (record { ed25519_key = ed25519_key; curve25519_key = curve25519_key }, pos2)

unfoldable pub pickle_prekey : PreKey → Bytes
pickle_prekey value =
    pickle_uint32 value.id
    ++ (pickle_bool value.published
        ++ (pickle_curve25519_key_pair value.key
            ++ pickle_bytes value.signature ed25519_signature_length))

unfoldable pub unpickle_prekey : Bytes → Option (PreKey × Bytes)
unpickle_prekey pos = do
  (id, pos1) ← unpickle_ok (unpickle_uint32 pos)
  (published, pos2) ← unpickle_ok (unpickle_bool false pos1)
  (key, pos3) ← unpickle_ok (unpickle_curve25519_key_pair blank_key_pair pos2)
  (signature, pos4) ← unpickle_ok (unpickle_bytes [] ed25519_signature_length pos3)
  some (record { id = id; published = published; key = key; signature = signature }, pos4)

unfoldable pub pickle_one_time_key : OneTimeKey → Bytes
pickle_one_time_key value =
    pickle_uint32 value.id ++ (pickle_bool value.published ++ pickle_curve25519_key_pair value.key)

unfoldable pub unpickle_one_time_key : Bytes → Option (OneTimeKey × Bytes)
unpickle_one_time_key pos = do
  (id, pos1) ← unpickle_ok (unpickle_uint32 pos)
  (published, pos2) ← unpickle_ok (unpickle_bool false pos1)
  (key, pos3) ← unpickle_ok (unpickle_curve25519_key_pair blank_key_pair pos2)
  some (record { id = id; published = published; key = key }, pos3)

-- A count with as many values behind it, the first two of two.
unfoldable pub pickle_counted {ℓ} : {A : Type ℓ} → (A → Bytes) → ℕ → A → A → Bytes
pickle_counted pickle count current prev =
    pickle_uint8 count
    ++ (if ltb count 1
        then []
        else (if ltb count 2 then pickle current else pickle current ++ pickle prev))

unfoldable pub account_raw_pickle : Account → Bytes
account_raw_pickle value =
    pickle_uint32 account_pickle_version
    ++ (pickle_identity_keys value.identity_keys
        ++ (pickle_counted pickle_prekey value.num_prekeys value.current_prekey value.prev_prekey
            ++ (pickle_uint32 value.next_prekey_id
                ++ (pickle_uint64 value.last_prekey_publish_time
                    ++ (pickle_list pickle_one_time_key value.one_time_keys
                        ++ (pickle_counted pickle_one_time_key value.num_fallback_keys
                              value.current_fallback_key value.prev_fallback_key
                            ++ pickle_uint32 value.next_one_time_key_id))))))

-- What a reader comes to that can also set the error code: the value and the new position, or
-- `none` with the code, where one is set.
abbrev pub Reading {ℓ} : Type ℓ → Type ℓ
Reading A = Option ErrorCode × Option (A × Bytes)

-- The count and the values; three or more are refused, after both values are read.
unfoldable pub unpickle_counted {ℓ} :
    {A : Type ℓ} → (Bytes → Option (A × Bytes)) → A → A → Bytes → Reading (ℕ × A × A)
unpickle_counted unpickle current prev pos = elim (unpickle_ok (unpickle_uint8 0 pos)) [
  | none ↦ (none, none)
  | some (count, pos1) ↦
      if ltb count 1 then (none, some ((count, current, prev), pos1)) else elim (unpickle pos1) [
        | none ↦ (none, none)
        | some (current', pos2) ↦
            if ltb count 2
            then (none, some ((count, current', prev), pos2))
            else elim (unpickle pos2) [
              | none ↦ (none, none)
              | some (prev', pos3) ↦
                  if ltb count 3
                  then (none, some ((count, current', prev'), pos3))
                  else (some corrupted_pickle, none)
            ]
      ]
]

-- Version 3 used the published flags for the number of keys.
unfoldable pub unpickle_flagged : Bytes → Reading (ℕ × OneTimeKey × OneTimeKey)
unpickle_flagged pos = (
  none,
  do
    (current, pos1) ← unpickle_one_time_key pos
    (prev, pos2) ← unpickle_one_time_key pos1
    some
        ((if current.published then (if prev.published then 2 else 1) else 0, current, prev), pos2),
)

unfoldable pub unpickle_fallback_keys : ℕ → Account → Bytes → Reading (ℕ × OneTimeKey × OneTimeKey)
unpickle_fallback_keys pickle_version value pos =
    if ltb pickle_version 3
    then (none, some ((0, value.current_fallback_key, value.prev_fallback_key), pos))
    else if pickle_version == 3
    then unpickle_flagged pos
    else unpickle_counted unpickle_one_time_key value.current_fallback_key value.prev_fallback_key
        pos

-- The pre-keys, with the number of the next one and the time, which came with version 10005.
unfoldable pub unpickle_prekeys : ℕ → Account → Bytes → Reading Account
unpickle_prekeys pickle_version value pos =
    if ltb pickle_version 10005
    then (none, some (value, pos))
    else (let (error, prekeys) =
          unpickle_counted unpickle_prekey value.current_prekey value.prev_prekey pos in
        (
          error,
          do
            ((count, current, prev), pos1) ← prekeys
            (next_prekey_id, pos2) ← unpickle_ok (unpickle_uint32 pos1)
            (time, pos3) ← unpickle_ok (unpickle_uint64 pos2)
            some (
              record value {
                num_prekeys = count;
                current_prekey = current;
                prev_prekey = prev;
                next_prekey_id = next_prekey_id;
                last_prekey_publish_time = time;
              },
              pos3,
            ),
        ))

-- What follows the pre-keys.
unfoldable pub unpickle_account_keys : ℕ → Account → Bytes → Reading Account
unpickle_account_keys pickle_version value pos =
    elim (unpickle_list max_one_time_keys unpickle_one_time_key value.one_time_keys pos) [
      | none ↦ (none, none)
      | some (one_time_keys, pos1) ↦
          let (error, fallback) = unpickle_fallback_keys pickle_version value pos1 in
          (
            error,
            do
              ((count, current, prev), pos2) ← fallback
              (next_one_time_key_id, pos3) ← unpickle_ok (unpickle_uint32 pos2)
              some (
                record value {
                  one_time_keys = one_time_keys;
                  num_fallback_keys = count;
                  current_fallback_key = current;
                  prev_fallback_key = prev;
                  next_one_time_key_id = next_one_time_key_id;
                },
                pos3,
              ),
          )
    ]

-- Behind the version.
unfoldable pub unpickle_account_fields : ℕ → Account → Bytes → Reading Account
unpickle_account_fields pickle_version value pos = elim (unpickle_identity_keys pos) [
  | none ↦ (none, none)
  | some (identity_keys, pos1) ↦
      let (error, prekeys) =
        unpickle_prekeys pickle_version (record value { identity_keys = identity_keys }) pos1 in
      elim prekeys [
        | none ↦ (error, none)
        | some (value', pos2) ↦ unpickle_account_keys pickle_version value' pos2
      ]
]

-- The `switch` on the version.
abbrev pub is_known_version : ℕ → Bool
is_known_version pickle_version =
    pickle_version == account_pickle_version
    || (pickle_version == 4 || (pickle_version == 3 || pickle_version == 2))

unfoldable pub account_raw_unpickle : Account → Bytes → Reading Account
account_raw_unpickle value pos = elim (unpickle_ok (unpickle_uint32 pos)) [
  | none ↦ (none, none)
  | some (pickle_version, pos1) ↦
      if is_known_version pickle_version
      then unpickle_account_fields pickle_version value pos1
      else if pickle_version == 1
      then (some bad_legacy_account_pickle, none)
      else (some unknown_pickle_version, none)
]
