-- ===== src/Account/Restored.antt =====
-- The pickling of src/account.cpp, read back.
use olm.Base.{
  ℕ, zero, suc, false, ◌^◌, ◌<◌, Bytes, none, some, [], ◌++◌, append_assoc, length, length-append,
  ltb, if◌then◌else◌, Option, ◌≡◌, refl, arith,
}
use olm.BoundedList.Bounds.{IsListOf}
use olm.Pickle.{
  KeyPair, pickle_uint32, pickle_uint64, pickle_uint8, unpickle_uint8, pickle_bool,
  pickle_curve25519_key_pair, pickle_ed25519_key_pair, unpickle_ed25519_key_pair,
}
use olm.Pickle.RoundTrip.{
  unpickle_uint32-pickle_uint32, unpickle_uint64-pickle_uint64, unpickle_bool-pickle_bool,
  pickle_uint32-IsBuffer, unpickle_bytes-append, unpickle_key_pair-append, pickle_bytes_exact,
}
use olm.Pickle.Lists.{unpickle_ok, pickle_list, unpickle_list, unpickle_list-pickle_list}
use olm.Ratchet.KeySizes.{IsKeyPair}
use olm.Ratchet.Stored.{blank_key_pair}
use olm.Ratchet.Restored.{read_key_pair, read_index}
use olm.Account.{Account, IdentityKeys, PreKey, OneTimeKey}
use olm.Account.Stored.{
  account_pickle_version, pickle_identity_keys, unpickle_identity_keys, pickle_prekey,
  unpickle_prekey, pickle_one_time_key, unpickle_one_time_key, pickle_counted, unpickle_counted,
  account_raw_pickle, account_raw_unpickle, unpickle_account_fields, unpickle_account_keys,
  unpickle_prekeys, unpickle_fallback_keys,
}

abbrev pub IsIdentity : IdentityKeys → Type 0
IsIdentity keys =
    ((length keys.ed25519_key.public_key ≡ 32) × (length keys.ed25519_key.private_key ≡ 64))
    × IsKeyPair keys.curve25519_key

abbrev pub IsOneTimeKey : OneTimeKey → Type 0
IsOneTimeKey key = (key.id < 2 ^ 32) × IsKeyPair key.key

abbrev pub IsPreKey : PreKey → Type 0
IsPreKey prekey = (prekey.id < 2 ^ 32) × (IsKeyPair prekey.key × (length prekey.signature ≡ 64))

pub record IsAccount (value : Account) : Type 0 where
  pub identity_whole : IsIdentity value.identity_keys
  pub one_time_whole : IsListOf 100 IsOneTimeKey value.one_time_keys
  pub current_prekey_whole : IsPreKey value.current_prekey
  pub prev_prekey_whole : IsPreKey value.prev_prekey
  pub prekey_id_bits : value.next_prekey_id < 2 ^ 32
  pub time_bits : value.last_prekey_publish_time < 2 ^ 64
  pub few_prekeys : value.num_prekeys < 3
  pub few_fallback_keys : value.num_fallback_keys < 3
  pub current_fallback_whole : IsOneTimeKey value.current_fallback_key
  pub prev_fallback_whole : IsOneTimeKey value.prev_fallback_key
  pub key_id_bits : value.next_one_time_key_id < 2 ^ 32

-- Of a pair of values those that the count covers are stored, the others stay as they are.
abbrev pub covered {ℓ} : {A : Type ℓ} → ℕ → ℕ → A → A → A
covered n count old value = if ltb count n then old else value

abbrev pub account_restored : Account → Account → Account
account_restored fresh value = record value {
  current_prekey = covered 1 value.num_prekeys fresh.current_prekey value.current_prekey;
  prev_prekey = covered 2 value.num_prekeys fresh.prev_prekey value.prev_prekey;
  current_fallback_key =
      covered 1 value.num_fallback_keys fresh.current_fallback_key value.current_fallback_key;
  prev_fallback_key =
      covered 2 value.num_fallback_keys fresh.prev_fallback_key value.prev_fallback_key;
  last_error = fresh.last_error;
}

read_ed25519_key_pair :
    (pair : KeyPair) (rest : Bytes)
    → length pair.public_key ≡ 32
    → length pair.private_key ≡ 64
    → unpickle_ok (unpickle_ed25519_key_pair blank_key_pair (pickle_ed25519_key_pair pair ++ rest))
      ≡ some (pair, rest)
unfolding unpickle_ed25519_key_pair pickle_ed25519_key_pair unpickle_ok
read_ed25519_key_pair pair rest h k =
    rw
      (
        pickle_bytes_exact pair.public_key 32 h,
        pickle_bytes_exact pair.private_key 64 k,
        append_assoc pair.public_key pair.private_key rest,
        unpickle_key_pair-append 32 64 blank_key_pair pair rest h k,
      )
      refl

read_identity_keys :
    (keys : IdentityKeys) (rest : Bytes)
    → IsIdentity keys
    → unpickle_identity_keys (pickle_identity_keys keys ++ rest) ≡ some (keys, rest)
unfolding unpickle_identity_keys pickle_identity_keys
read_identity_keys keys rest ((h, k), c) =
    let other = pickle_curve25519_key_pair keys.curve25519_key in
    rw
      (
        append_assoc (pickle_ed25519_key_pair keys.ed25519_key) other rest,
        read_ed25519_key_pair keys.ed25519_key (other ++ rest) h k,
        read_key_pair keys.curve25519_key rest c,
      )
      refl

read_one_time_key :
    (key : OneTimeKey) (rest : Bytes)
    → IsOneTimeKey key
    → unpickle_one_time_key (pickle_one_time_key key ++ rest) ≡ some (key, rest)
unfolding unpickle_one_time_key pickle_one_time_key unpickle_ok
read_one_time_key key rest (hi, hk) =
    let flag = pickle_bool key.published in
    let pair = pickle_curve25519_key_pair key.key in
    rw
      (
        append_assoc (pickle_uint32 key.id) (flag ++ pair) rest,
        append_assoc flag pair rest,
        unpickle_uint32-pickle_uint32 key.id (flag ++ (pair ++ rest)) hi,
        unpickle_bool-pickle_bool false key.published (pair ++ rest),
        read_key_pair key.key rest hk,
      )
      refl

read_prekey :
    (prekey : PreKey) (rest : Bytes)
    → IsPreKey prekey
    → unpickle_prekey (pickle_prekey prekey ++ rest) ≡ some (prekey, rest)
unfolding unpickle_prekey pickle_prekey unpickle_ok
read_prekey prekey rest (hi, (hk, hs)) =
    let flag = pickle_bool prekey.published in
    let pair = pickle_curve25519_key_pair prekey.key in
    let signature = prekey.signature in
    rw
      (
        pickle_bytes_exact signature 64 hs,
        append_assoc (pickle_uint32 prekey.id) (flag ++ (pair ++ signature)) rest,
        append_assoc flag (pair ++ signature) rest,
        append_assoc pair signature rest,
        unpickle_uint32-pickle_uint32 prekey.id (flag ++ (pair ++ (signature ++ rest))) hi,
        unpickle_bool-pickle_bool false prekey.published (pair ++ (signature ++ rest)),
        read_key_pair prekey.key (signature ++ rest) hk,
        unpickle_bytes-append [] signature rest 64 hs,
      )
      refl

module _ {A : Type 0} (pickle : A → Bytes) (unpickle : Bytes → Option (A × Bytes)) where
  read_counted :
      (count : ℕ) (old_current old_prev current prev : A) (rest : Bytes)
      → count < 3
      → ((rest' : Bytes) → unpickle (pickle current ++ rest') ≡ some (current, rest'))
      → ((rest' : Bytes) → unpickle (pickle prev ++ rest') ≡ some (prev, rest'))
      → unpickle_counted unpickle old_current old_prev
          (pickle_counted pickle count current prev ++ rest)
        ≡ (
          none,
          some ((count, covered 1 count old_current current, covered 2 count old_prev prev), rest),
        )
  unfolding unpickle_counted pickle_counted unpickle_uint8 pickle_uint8 unpickle_ok
  read_counted zero old_current old_prev current prev rest few h k = refl
  read_counted (suc zero) old_current old_prev current prev rest few h k = rw (h rest) refl
  read_counted (suc (suc zero)) old_current old_prev current prev rest few h k =
      rw (append_assoc (pickle current) (pickle prev) rest, h (pickle prev ++ rest), k rest) refl
  read_counted (suc (suc (suc n))) old_current old_prev current prev rest few h k =
      absurd (omega arith)

-- The stored form behind the version, in two parts.
abbrev keys_part : Account → Bytes
keys_part value =
    pickle_list pickle_one_time_key value.one_time_keys
    ++ (pickle_counted pickle_one_time_key value.num_fallback_keys value.current_fallback_key
          value.prev_fallback_key
        ++ pickle_uint32 value.next_one_time_key_id)

abbrev prekeys_part : Account → Bytes
prekeys_part value =
    pickle_counted pickle_prekey value.num_prekeys value.current_prekey value.prev_prekey
    ++ (pickle_uint32 value.next_prekey_id ++ pickle_uint64 value.last_prekey_publish_time)

abbrev with_prekeys : Account → Account → Account
with_prekeys fresh value = record fresh {
  num_prekeys = value.num_prekeys;
  current_prekey = covered 1 value.num_prekeys fresh.current_prekey value.current_prekey;
  prev_prekey = covered 2 value.num_prekeys fresh.prev_prekey value.prev_prekey;
  next_prekey_id = value.next_prekey_id;
  last_prekey_publish_time = value.last_prekey_publish_time;
}

read_prekeys :
    (fresh value : Account) (rest : Bytes)
    → IsAccount value
    → unpickle_prekeys account_pickle_version fresh (prekeys_part value ++ rest)
      ≡ (none, some (with_prekeys fresh value, rest))
unfolding unpickle_prekeys unpickle_ok
read_prekeys fresh value rest h =
    let counted =
      pickle_counted pickle_prekey value.num_prekeys value.current_prekey value.prev_prekey in
    let id = pickle_uint32 value.next_prekey_id in
    let time = pickle_uint64 value.last_prekey_publish_time in
    rw
      (
        append_assoc counted (id ++ time) rest,
        append_assoc id time rest,
        read_counted pickle_prekey unpickle_prekey value.num_prekeys fresh.current_prekey
            fresh.prev_prekey value.current_prekey value.prev_prekey (id ++ (time ++ rest))
            h.few_prekeys (λ rest'. read_prekey value.current_prekey rest' h.current_prekey_whole)
            (λ rest'. read_prekey value.prev_prekey rest' h.prev_prekey_whole),
        unpickle_uint32-pickle_uint32 value.next_prekey_id (time ++ rest) h.prekey_id_bits,
        unpickle_uint64-pickle_uint64 value.last_prekey_publish_time rest h.time_bits,
      )
      refl

length-pickle_one_time_key :
    (key : OneTimeKey) → IsOneTimeKey key → 0 < length (pickle_one_time_key key)
unfolding pickle_one_time_key
length-pickle_one_time_key key h = omega (
  arith,
  length-append (pickle_uint32 key.id)
      (pickle_bool key.published ++ pickle_curve25519_key_pair key.key),
  (pickle_uint32-IsBuffer key.id).0,
)

abbrev with_account_keys : Account → Account → Account
with_account_keys fresh value = record fresh {
  one_time_keys = value.one_time_keys;
  num_fallback_keys = value.num_fallback_keys;
  current_fallback_key =
      covered 1 value.num_fallback_keys fresh.current_fallback_key value.current_fallback_key;
  prev_fallback_key =
      covered 2 value.num_fallback_keys fresh.prev_fallback_key value.prev_fallback_key;
  next_one_time_key_id = value.next_one_time_key_id;
}

read_account_keys :
    (fresh value : Account) (rest : Bytes)
    → fresh.one_time_keys ≡ []
    → IsAccount value
    → unpickle_account_keys account_pickle_version fresh (keys_part value ++ rest)
      ≡ (none, some (with_account_keys fresh value, rest))
unfolding unpickle_account_keys unpickle_fallback_keys
read_account_keys fresh value rest new h =
    let keys = pickle_list pickle_one_time_key value.one_time_keys in
    let counted =
      pickle_counted pickle_one_time_key value.num_fallback_keys value.current_fallback_key
        value.prev_fallback_key in
    let id = pickle_uint32 value.next_one_time_key_id in
    let (few, all) = h.one_time_whole in
    let list : unpickle_list 100 unpickle_one_time_key fresh.one_time_keys
          (keys ++ (counted ++ (id ++ rest)))
        ≡ some (value.one_time_keys, counted ++ (id ++ rest)) =
      rw new (
        unpickle_list-pickle_list IsOneTimeKey pickle_one_time_key unpickle_one_time_key
          read_one_time_key length-pickle_one_time_key 100 value.one_time_keys
          (counted ++ (id ++ rest)) all few (omega arith)) in
    rw
      (
        append_assoc keys (counted ++ id) rest,
        append_assoc counted id rest,
        list,
        unpickle_account_keys,
        read_counted pickle_one_time_key unpickle_one_time_key value.num_fallback_keys
            fresh.current_fallback_key fresh.prev_fallback_key value.current_fallback_key
            value.prev_fallback_key (id ++ rest) h.few_fallback_keys
            (λ rest'. read_one_time_key value.current_fallback_key rest' h.current_fallback_whole)
            (λ rest'. read_one_time_key value.prev_fallback_key rest' h.prev_fallback_whole),
        read_index value.next_one_time_key_id rest h.key_id_bits,
      )
      refl

regrouped :
    (a b c d e f g h rest : Bytes)
    → (a ++ (b ++ (c ++ (d ++ (e ++ (f ++ (g ++ h))))))) ++ rest
      ≡ a ++ (b ++ ((c ++ (d ++ e)) ++ ((f ++ (g ++ h)) ++ rest)))
regrouped a b c d e f g h rest = simp append_assoc refl

-- The parts of the stored form.
account_raw_pickle-append :
    (value : Account) (rest : Bytes)
    → account_raw_pickle value ++ rest
      ≡ pickle_uint32 account_pickle_version
        ++ (pickle_identity_keys value.identity_keys
            ++ (prekeys_part value ++ (keys_part value ++ rest)))
unfolding account_raw_pickle
account_raw_pickle-append value rest =
    regrouped (pickle_uint32 account_pickle_version) (pickle_identity_keys value.identity_keys)
      (pickle_counted pickle_prekey value.num_prekeys value.current_prekey value.prev_prekey)
      (pickle_uint32 value.next_prekey_id) (pickle_uint64 value.last_prekey_publish_time)
      (pickle_list pickle_one_time_key value.one_time_keys)
      (pickle_counted pickle_one_time_key value.num_fallback_keys value.current_fallback_key
        value.prev_fallback_key)
      (pickle_uint32 value.next_one_time_key_id) rest

unpickle_account_fields_lem :
    (fresh value : Account) (rest : Bytes)
    → fresh.one_time_keys ≡ []
    → IsAccount value
    → unpickle_account_fields account_pickle_version fresh (
        pickle_identity_keys value.identity_keys
        ++ (prekeys_part value ++ (keys_part value ++ rest)))
      ≡ (none, some (account_restored fresh value, rest))
unfolding unpickle_account_fields
unpickle_account_fields_lem fresh value rest new h =
    let fresh1 : Account = record fresh { identity_keys = value.identity_keys } in
    rw
      (
        read_identity_keys value.identity_keys (prekeys_part value ++ (keys_part value ++ rest))
            h.identity_whole,
        unpickle_account_fields,
        read_prekeys fresh1 value (keys_part value ++ rest) h,
        read_account_keys (with_prekeys fresh1 value) value rest new h,
      )
      refl

-- An account with keys and signatures of their sizes, ids of 32 bits, a time of 64 bits, at most
-- 100 one-time keys and at most two pre-keys and two fallback keys, pickled in front of any bytes,
-- is read back over an account without one-time keys, and the position is at those bytes. Of the
-- two pre-keys and the two fallback keys, those beyond their number are left as they were in the
-- account read into, as is the last error.
pub account_raw_unpickle-account_raw_pickle :
    (fresh value : Account) (rest : Bytes)
    → fresh.one_time_keys ≡ []
    → IsAccount value
    → account_raw_unpickle fresh (account_raw_pickle value ++ rest)
      ≡ (none, some (account_restored fresh value, rest))
unfolding account_raw_unpickle
account_raw_unpickle-account_raw_pickle fresh value rest new h =
    rw
      (
        account_raw_pickle-append value rest,
        read_index account_pickle_version
            (pickle_identity_keys value.identity_keys
              ++ (prekeys_part value ++ (keys_part value ++ rest)))
            (omega arith),
        account_raw_unpickle,
      )
      (unpickle_account_fields_lem fresh value rest new h)
