-- ===== src/Session/Meeting.antt =====
-- The keys of two accounts that start a session of src/session.cpp, and what both sides make of
-- them.
use olm.Base.{◌≤◌, Bytes, true, false, some, drop, length, le→ltb, ◌≡◌, refl, ap, sym}
use olm.Memory.{is_equal}
use olm.Crypto.External.{Primitives, PrimitiveLaws}
use olm.Crypto.{curve25519_generate_key, crypto_ed25519_verify}
use olm.Ratchet.{Ratchet, initialise_as_alice, initialise_as_bob}
use olm.Account.{Account, OneTimeKey, PreKey, lookup_key, lookup_prekey}
use olm.Session.{new_session}
use olm.Session.Starting.{
  started, shared_secret_part, outbound_secret, inbound_secret, new_outbound_session, answer,
  answer_keys,
}
use olm.Session.Secret.{outbound_secret-inbound_secret}
use olm.Session.PreKeyText.{Keys, AreKeys, with_keys}

-- The accounts of both sides: the keys that they were made from, and that the second one has the
-- one-time key and the pre-key, which differ.
pub record Meeting (p : Primitives) (alice bob : Account) : Type 0 where
  pub alice_secret : Bytes
  pub bob_secret : Bytes
  pub one_time_secret : Bytes
  pub prekey_secret : Bytes
  pub one_time_key : OneTimeKey
  pub prekey : PreKey
  pub alice_identity : alice.identity_keys.curve25519_key ≡ curve25519_generate_key p alice_secret
  pub bob_identity : bob.identity_keys.curve25519_key ≡ curve25519_generate_key p bob_secret
  pub one_time_made : one_time_key.key ≡ curve25519_generate_key p one_time_secret
  pub prekey_made : prekey.key ≡ curve25519_generate_key p prekey_secret
  pub one_time_found : lookup_key bob one_time_key.key.public_key ≡ some one_time_key
  pub prekey_found : lookup_prekey bob prekey.key.public_key ≡ some prekey
  pub different : is_equal prekey.key.public_key one_time_key.key.public_key 32 ≡ false

module _ (p : Primitives) where
  -- The keys and the shared secret of a session that the first side starts with `random`.
  abbrev pub keys_of : (alice bob : Account) → Meeting p alice bob → Bytes → Keys
  keys_of alice bob m random = record {
    identity_key = alice.identity_keys.curve25519_key.public_key;
    base_key = (curve25519_generate_key p random).public_key;
    one_time_key = m.one_time_key.key.public_key;
    prekey = m.prekey.key.public_key;
  }

  abbrev pub secret_of : (alice bob : Account) → Meeting p alice bob → Bytes → Bytes
  secret_of alice bob m random = shared_secret_part true (
      outbound_secret p alice.identity_keys.curve25519_key (curve25519_generate_key p random)
        bob.identity_keys.curve25519_key.public_key m.prekey.key.public_key
        (some m.one_time_key.key.public_key))

  abbrev pub first_ratchet_of : (alice bob : Account) → Meeting p alice bob → Bytes → Ratchet
  first_ratchet_of alice bob m random =
      initialise_as_alice p new_session.ratchet (secret_of alice bob m random)
        (curve25519_generate_key p (drop 32 random))

  pub new_outbound_session_lem :
      (alice bob : Account) (m : Meeting p alice bob) (signing_key signature random : Bytes)
      → 64 ≤ length random
      → crypto_ed25519_verify p signing_key m.prekey.key.public_key signature ≡ true
      → new_outbound_session p new_session alice bob.identity_keys.curve25519_key.public_key
          signing_key m.prekey.key.public_key signature random
          (some m.one_time_key.key.public_key)
        ≡ (
          with_keys new_session (keys_of alice bob m random) (first_ratchet_of alice bob m random),
          started,
        )
  unfolding new_outbound_session
  new_outbound_session_lem alice bob m signing_key signature random room valid =
      rw (le→ltb (length random) 64 room, valid) refl

module _ (p : Primitives) (laws : PrimitiveLaws p) where
  same_secret :
      (alice bob : Account) (m : Meeting p alice bob) (random : Bytes)
      → shared_secret_part true (
          inbound_secret p bob.identity_keys.curve25519_key m.one_time_key.key m.prekey.key
            alice.identity_keys.curve25519_key.public_key
            (curve25519_generate_key p random).public_key
            false)
        ≡ secret_of p alice bob m random
  same_secret alice bob m random =
      rw (m.alice_identity, m.bob_identity, m.one_time_made, m.prekey_made)
        (ap (shared_secret_part true) (
          sym (
            outbound_secret-inbound_secret p laws m.alice_secret random m.bob_secret m.prekey_secret
              m.one_time_secret)))

  pub answer_keys_lem :
      (alice bob : Account) (m : Meeting p alice bob) (random ratchet_key : Bytes)
      → answer_keys p
          (with_keys new_session (keys_of p alice bob m random) new_session.ratchet)
          bob
          ratchet_key
        ≡ (
          with_keys new_session (keys_of p alice bob m random) (
              initialise_as_bob p new_session.ratchet (secret_of p alice bob m random) ratchet_key),
          started,
        )
  unfolding answer_keys answer
  answer_keys_lem alice bob m random ratchet_key =
      rw
        (m.one_time_found, answer_keys, m.prekey_found, m.different, same_secret alice bob m random)
        refl

  pub keys_of-AreKeys :
      (alice bob : Account) (m : Meeting p alice bob) (random : Bytes)
      → AreKeys (keys_of p alice bob m random)
  unfolding curve25519_generate_key
  keys_of-AreKeys alice bob m random = record {
    identity_size = rw (m.alice_identity) (laws.curve25519_donna-IsBuffer _ _).0;
    base_size = (laws.curve25519_donna-IsBuffer _ _).0;
    one_time_size = rw (m.one_time_made) (laws.curve25519_donna-IsBuffer _ _).0;
    prekey_size = rw (m.prekey_made) (laws.curve25519_donna-IsBuffer _ _).0;
  }
