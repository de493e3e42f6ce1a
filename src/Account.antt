-- ===== src/Account.antt =====
-- src/account.cpp: the identity keys of a device and the keys that it hands out.
-- A function that changes the account returns it first; a result `none` is `size_t(-1)`, or the
-- null pointer.
pub mod OneTimeKeys
pub mod Stored
pub mod Restored
use olm.Base.{
  ℕ, zero, suc, ◌+◌, ◌-◌, ◌*◌, ◌%◌, ◌^◌, Bytes, Bool, true, false, Option, none, some, List, [],
  ◌∷◌, drop, replicate, length, ltb, ◌==◌, ◌&&◌, not, if◌then◌else◌,
}
use olm.Error.{ErrorCode, success, not_enough_random, output_buffer_too_small}
use olm.Memory.{is_equal}
use olm.BoundedList.{insert_front, erase_at}
use olm.Pickle.{KeyPair, curve25519_key_length}
use olm.Crypto.External.{Primitives}
use olm.Crypto.{crypto_ed25519_sign, ed25519_generate_key, curve25519_generate_key}

abbrev pub ed25519_random_length : ℕ
ed25519_random_length = 32

abbrev pub curve25519_random_length : ℕ
curve25519_random_length = 32

abbrev pub ed25519_signature_length : ℕ
ed25519_signature_length = 64

abbrev pub max_one_time_keys : ℕ
max_one_time_keys = 100

pub record IdentityKeys : Type 0 where
  pub ed25519_key : KeyPair
  pub curve25519_key : KeyPair

pub record PreKey : Type 0 where
  pub id : ℕ
  pub published : Bool
  pub key : KeyPair
  pub signature : Bytes

pub record OneTimeKey : Type 0 where
  pub id : ℕ
  pub published : Bool
  pub key : KeyPair

pub record Account : Type 0 where
  pub identity_keys : IdentityKeys
  pub one_time_keys : List OneTimeKey
  pub current_prekey : PreKey
  pub prev_prekey : PreKey
  pub next_prekey_id : ℕ
  pub last_prekey_publish_time : ℕ
  pub num_prekeys : ℕ
  pub num_fallback_keys : ℕ
  pub current_fallback_key : OneTimeKey
  pub prev_fallback_key : OneTimeKey
  pub next_one_time_key_id : ℕ
  pub last_error : ErrorCode

abbrev pub account_fail : Account → ErrorCode → Account
account_fail account error = record account { last_error = error }

-- `array_equal` on two public keys.
abbrev pub has_public_key : KeyPair → Bytes → Bool
has_public_key pair public_key = is_equal pair.public_key public_key curve25519_key_length

-- The first one-time key with the public key.
unfoldable pub find_one_time_key : Bytes → List OneTimeKey → Option OneTimeKey
find_one_time_key public_key [] = none
find_one_time_key public_key (key ∷ keys) =
    let rest = find_one_time_key public_key keys in
    if has_public_key key.key public_key then some key else rest

unfoldable pub lookup_key : Account → Bytes → Option OneTimeKey
lookup_key account public_key =
    let fallback =
      if not (ltb account.num_fallback_keys 1)
        && has_public_key account.current_fallback_key.key public_key
      then some account.current_fallback_key
      else if not (ltb account.num_fallback_keys 2)
          && has_public_key account.prev_fallback_key.key public_key
      then some account.prev_fallback_key
      else none in
    elim (find_one_time_key public_key account.one_time_keys) [
      | some key ↦ some key
      | none ↦ fallback
    ]

-- The position and the number of the first one-time key with the public key.
unfoldable pub find_position : Bytes → ℕ → List OneTimeKey → Option (ℕ × ℕ)
find_position public_key position [] = none
find_position public_key position (key ∷ keys) =
    let rest = find_position public_key (suc position) keys in
    if has_public_key key.key public_key then some (position, key.id) else rest

unfoldable pub remove_key : Account → Bytes → Account × Option ℕ
remove_key account public_key =
    let fallback : Option ℕ =
      if not (ltb account.num_fallback_keys 1)
        && has_public_key account.current_fallback_key.key public_key
      then some account.current_fallback_key.id
      else if not (ltb account.num_fallback_keys 2)
          && has_public_key account.prev_fallback_key.key public_key
      then some account.prev_fallback_key.id
      else none in
    elim (find_position public_key 0 account.one_time_keys) [
      | some (position, id) ↦
          (record account { one_time_keys = erase_at position account.one_time_keys }, some id)
      | none ↦ (account, fallback)
    ]

unfoldable pub generate_prekey_random_length : ℕ
generate_prekey_random_length = curve25519_random_length

unfoldable pub new_account_random_length : ℕ
new_account_random_length =
    ed25519_random_length + curve25519_random_length + generate_prekey_random_length

-- The loop of `mark_keys_as_published`, with the count.
unfoldable pub mark_loop : List OneTimeKey → List OneTimeKey × ℕ
mark_loop [] = ([], 0)
mark_loop (key ∷ keys) =
    let (keys', count) = mark_loop keys in
    (record key { published = true } ∷ keys', if key.published then count else count + 1)

unfoldable pub mark_keys_as_published : Account → Account × ℕ
mark_keys_as_published account =
    let (keys, count) = mark_loop account.one_time_keys in
    (
      record account {
        one_time_keys = keys;
        current_fallback_key = record account.current_fallback_key { published = true };
      },
      count,
    )

unfoldable pub generate_one_time_keys_random_length : ℕ → ℕ
generate_one_time_keys_random_length number_of_keys =
    curve25519_random_length * number_of_keys % 2 ^ 64

unfoldable pub lookup_prekey : Account → Bytes → Option PreKey
lookup_prekey account public_key =
    if has_public_key account.current_prekey.key public_key
    then some account.current_prekey
    else if has_public_key account.prev_prekey.key public_key
    then some account.prev_prekey
    else none

-- `unset` on the whole object.
abbrev pub zero_prekey : PreKey
zero_prekey = record {
  id = 0;
  published = false;
  key = record { public_key = replicate 32 0; private_key = replicate 32 0 };
  signature = replicate 64 0;
}

abbrev pub zero_one_time_key : OneTimeKey
zero_one_time_key = record {
  id = 0;
  published = false;
  key = record { public_key = replicate 32 0; private_key = replicate 32 0 };
}

unfoldable pub forget_old_prekey : Account → Account
forget_old_prekey account =
    if account.num_prekeys == 2
    then record account { prev_prekey = zero_prekey; num_prekeys = account.num_prekeys - 1 }
    else account

-- `now` is what `std::time` returns.
unfoldable pub mark_prekey_as_published : Account → ℕ → Account × Option ℕ
mark_prekey_as_published account now =
    if account.current_prekey.published then (account, none) else (
      record account {
        last_prekey_publish_time = now;
        current_prekey = record account.current_prekey { published = true };
      },
      some 0,
    )

unfoldable pub generate_fallback_key_random_length : ℕ
generate_fallback_key_random_length = curve25519_random_length

unfoldable pub forget_old_fallback_key : Account → Account
forget_old_fallback_key account =
    if ltb account.num_fallback_keys 2
    then account
    else record account { num_fallback_keys = 1; prev_fallback_key = zero_one_time_key }

module _ (p : Primitives) where
  unfoldable pub account_sign : Account → Bytes → ℕ → Account × Option Bytes
  account_sign account text signature_length =
      if ltb signature_length ed25519_signature_length
      then (account_fail account output_buffer_too_small, none)
      else (account, some (crypto_ed25519_sign p account.identity_keys.ed25519_key text))

  -- One round of the loop of `generate_one_time_keys`.
  unfoldable pub add_one_time_key : Account → Bytes → Account
  add_one_time_key account random =
      let id = (account.next_one_time_key_id + 1) % 2 ^ 32 in
      let key : OneTimeKey = record {
        id = id;
        published = false;
        key = curve25519_generate_key p random;
      } in
      record account {
        one_time_keys = insert_front max_one_time_keys key account.one_time_keys;
        next_one_time_key_id = id;
      }

  unfoldable pub add_one_time_keys : ℕ → Account → Bytes → Account
  add_one_time_keys zero account random = account
  add_one_time_keys (suc rounds) account random =
      add_one_time_keys rounds (add_one_time_key account random)
        (drop curve25519_random_length random)

  unfoldable pub generate_one_time_keys : Account → ℕ → Bytes → Account × Option ℕ
  generate_one_time_keys account number_of_keys random =
      if ltb (length random) (generate_one_time_keys_random_length number_of_keys)
      then (account_fail account not_enough_random, none)
      else (add_one_time_keys number_of_keys account random, some number_of_keys)

  -- The call of `sign` has room for the signature.
  unfoldable pub generate_prekey : Account → Bytes → Account × Option ℕ
  generate_prekey account random =
      let id = (account.next_prekey_id + 1) % 2 ^ 32 in
      let key = curve25519_generate_key p random in
      let prekey : PreKey = record {
        id = id;
        published = false;
        key = key;
        signature = crypto_ed25519_sign p account.identity_keys.ed25519_key key.public_key;
      } in
      if ltb (length random) generate_prekey_random_length
      then (account_fail account not_enough_random, none)
      else (
        record account {
          num_prekeys =
              if ltb account.num_prekeys 2 then account.num_prekeys + 1 else account.num_prekeys;
          prev_prekey = account.current_prekey;
          current_prekey = prekey;
          next_prekey_id = id;
        },
        some 1,
      )

  unfoldable pub new_account : Account → Bytes → Account × Option ℕ
  new_account account random =
      let identity_keys : IdentityKeys = record {
        ed25519_key = ed25519_generate_key p random;
        curve25519_key = curve25519_generate_key p (drop ed25519_random_length random);
      } in
      if ltb (length random) new_account_random_length
      then (account_fail account not_enough_random, none)
      else (
        (generate_prekey (record account { identity_keys = identity_keys })
            (drop (ed25519_random_length + curve25519_random_length) random)).0,
        some 0,
      )

  unfoldable pub generate_fallback_key : Account → Bytes → Account × Option ℕ
  generate_fallback_key account random =
      let id = (account.next_one_time_key_id + 1) % 2 ^ 32 in
      let key : OneTimeKey = record {
        id = id;
        published = false;
        key = curve25519_generate_key p random;
      } in
      if ltb (length random) generate_fallback_key_random_length
      then (account_fail account not_enough_random, none)
      else (
        record account {
          num_fallback_keys =
              if ltb account.num_fallback_keys 2
              then account.num_fallback_keys + 1
              else account.num_fallback_keys;
          prev_fallback_key = account.current_fallback_key;
          current_fallback_key = key;
          next_one_time_key_id = id;
        },
        some 1,
      )
