-- ===== src/Session/Secret.antt =====
-- The shared secret of src/session.cpp, and what the two sides make of it.
use olm.Base.{
  ℕ, ◌≤◌, ◌<◌, Bytes, true, false, Option, none, some, ◌++◌, take, length, take-append_less, lt→ltb,
  le→ltb, length-append, ◌≡◌, refl, arith,
}
use olm.Pickle.{KeyPair}
use olm.Crypto.External.{Primitives, PrimitiveLaws}
use olm.Crypto.{curve25519_generate_key, curve25519_shared_secret}
use olm.Account.{Account}
use olm.Session.{Session, session_id_length}
use olm.Session.Starting.{
  overrun, store_arrays, shared_secret_part, is_present, session_id, outbound_secret,
  inbound_secret, new_outbound_session,
}

module _ (p : Primitives) (laws : PrimitiveLaws p) where
  shared_secret_agreement :
      (ours theirs : Bytes)
      → curve25519_shared_secret p
          (curve25519_generate_key p ours)
          (curve25519_generate_key p theirs).public_key
        ≡ curve25519_shared_secret p
            (curve25519_generate_key p theirs)
            (curve25519_generate_key p ours).public_key
  unfolding curve25519_shared_secret curve25519_generate_key
  shared_secret_agreement ours theirs = laws.curve25519_agreement (take 32 ours) (take 32 theirs) _

  -- The names of the randomness: `a` and `e` of the side that starts, for its identity and its base
  -- key, and `b`, `s` and `o` of the other side, for its identity, its pre-key and its one-time key.
  pub outbound_secret-inbound_secret :
      (a e b s o : Bytes)
      → outbound_secret p
          (curve25519_generate_key p a)
          (curve25519_generate_key p e)
          (curve25519_generate_key p b).public_key
          (curve25519_generate_key p s).public_key
          (some (curve25519_generate_key p o).public_key)
        ≡ inbound_secret p
            (curve25519_generate_key p b)
            (curve25519_generate_key p o)
            (curve25519_generate_key p s)
            (curve25519_generate_key p a).public_key
            (curve25519_generate_key p e).public_key
            false
  unfolding outbound_secret inbound_secret
  outbound_secret-inbound_secret a e b s o =
      rw
        (
          shared_secret_agreement a o,
          shared_secret_agreement e b,
          shared_secret_agreement e o,
          shared_secret_agreement e s,
        )
        refl

  -- Without a one-time key the pre-key takes its place.
  pub outbound_secret-inbound_secret_short :
      (a e b s : Bytes)
      → outbound_secret p
          (curve25519_generate_key p a)
          (curve25519_generate_key p e)
          (curve25519_generate_key p b).public_key
          (curve25519_generate_key p s).public_key
          none
        ≡ inbound_secret p
            (curve25519_generate_key p b)
            (curve25519_generate_key p s)
            (curve25519_generate_key p s)
            (curve25519_generate_key p a).public_key
            (curve25519_generate_key p e).public_key
            true
  unfolding outbound_secret inbound_secret
  outbound_secret-inbound_secret_short a e b s =
      rw (shared_secret_agreement a s, shared_secret_agreement e b, shared_secret_agreement e s)
        refl

  shared_size : (pair : KeyPair) (key : Bytes) → length (curve25519_shared_secret p pair key) ≡ 32
  unfolding curve25519_shared_secret
  shared_size pair key = (laws.curve25519_donna-IsBuffer _ _).0

  -- Four bytes of the secret, or three, are bytes of the first shared secret.
  shared_secret_part-outbound_secret :
      (identity_pair base_pair : KeyPair) (identity_key pre_key : Bytes)
      (one_time_key : Option Bytes)
      → shared_secret_part
          (is_present one_time_key)
          (outbound_secret p identity_pair base_pair identity_key pre_key one_time_key)
        ≡ shared_secret_part (is_present one_time_key) (
            curve25519_shared_secret p identity_pair
              (elim one_time_key [ none ↦ pre_key | some key ↦ key ]))
  unfolding outbound_secret
  shared_secret_part-outbound_secret identity_pair base_pair identity_key pre_key none =
      take-append_less 3 (curve25519_shared_secret p identity_pair pre_key) _
        (omega (arith, (shared_size identity_pair pre_key)))
  shared_secret_part-outbound_secret identity_pair base_pair identity_key pre_key (some key) =
      take-append_less 4 (curve25519_shared_secret p identity_pair key) _
        (omega (arith, (shared_size identity_pair key)))

  -- With primitives that keep the stated laws: Two calls of `new_outbound_session` that differ in
  -- nothing but the identity key of the other side have the same outcome and the same session,
  -- ratchet and keys included.
  pub new_outbound_session_any_identity :
      (session : Session) (local_account : Account)
      (identity_key identity_key' signing_key pre_key pre_key_signature random : Bytes)
      (one_time_key : Option Bytes)
      → new_outbound_session p session local_account identity_key signing_key pre_key
          pre_key_signature random one_time_key
        ≡ new_outbound_session p session local_account identity_key' signing_key pre_key
            pre_key_signature random one_time_key
  unfolding new_outbound_session
  new_outbound_session_any_identity session local_account identity_key identity_key' signing_key
        pre_key pre_key_signature random one_time_key =
      let pair = local_account.identity_keys.curve25519_key in
      let base_pair = curve25519_generate_key p random in
      rw
        (
          shared_secret_part-outbound_secret pair base_pair identity_key pre_key one_time_key,
          shared_secret_part-outbound_secret pair base_pair identity_key' pre_key one_time_key,
        )
        refl

  -- The fourth key does not fit.
  pub session_id_overrun :
      (session : Session) (id_length : ℕ)
      → length session.alice_identity_key ≡ 32
      → length session.alice_base_key ≡ 32
      → length session.bob_one_time_key ≡ 32
      → length session.bob_prekey ≡ 32
      → session_id_length ≤ id_length
      → session_id p session id_length ≡ (session, overrun)
  unfolding session_id store_arrays session_id_length
  session_id_overrun session id_length h1 h2 h3 h4 room =
      let last = session.bob_one_time_key ++ session.bob_prekey in
      let keys = session.alice_identity_key ++ (session.alice_base_key ++ last) in
      let size : 96 < length keys = omega (
        arith,
        length-append session.alice_identity_key (session.alice_base_key ++ last),
        length-append session.alice_base_key last,
        length-append session.bob_one_time_key session.bob_prekey,
      ) in
      rw (le→ltb id_length 32 room, lt→ltb 96 (length keys) size) refl
