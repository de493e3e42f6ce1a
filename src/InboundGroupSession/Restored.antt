-- ===== src/InboundGroupSession/Restored.antt =====
-- Writing and reading the pickles of src/inbound_group_session.c.
use olm.Base.{
  ℕ, ◌+◌, ◌-◌, ◌≤◌, Bytes, IsByte, IsBuffer, Bool, true, false, some, [], ◌++◌, length, take, drop,
  le→ltb, length-append, All-append, append-nil, ◌≡◌, refl, ap, arith, ◌∙◌,
}
use olm.Pickle.{pickle_uint32, pickle_bool, pickle_ed25519_public_key, unpickle_ed25519_public_key}
use olm.Pickle.RoundTrip.{
  pickle_uint32-IsBuffer, unpickle_uint32-pickle_uint32, pickle_bytes_exact, unpickle_bytes-append,
  unpickle_bool-pickle_bool,
}
use olm.Crypto.External.{Primitives, PrimitiveLaws}
use olm.Crypto.{plaintext}
use olm.Cipher.{mac_length, encrypt_ciphertext_length}
use olm.Megolm.{megolm_pickle}
use olm.Megolm.Pickling.{IsMegolm, megolm_unpickle-megolm_pickle, megolm_pickle-IsBuffer}
use olm.PickleEncoding.{returned, enc_output, enc_output_length, enc_input}
use olm.PickleEncoding.RoundTrip.{enc_input-enc_output, length-output_pos}
use olm.InboundGroupSession.{InboundGroupSession}
use olm.InboundGroupSession.Stored.{
  inbound_raw_pickle, inbound_raw_pickle_length, unpickle_verified, unpickle_fields,
  inbound_raw_unpickle, pickle_inbound_group_session_length, pickle_inbound_group_session,
  unpickle_inbound_group_session,
}

-- A session as the C type allows it.
pub record IsInbound (session : InboundGroupSession) : Type 0 where
  pub initial_shape : IsMegolm session.initial_ratchet
  pub latest_shape : IsMegolm session.latest_ratchet
  pub key_bytes : IsBuffer 32 session.signing_key

-- Everything but the last error comes from the pickle.
abbrev pub inbound_restored : InboundGroupSession → InboundGroupSession → InboundGroupSession
inbound_restored old session = record session { last_error = old.last_error }

pickle_ed25519_public_key_exact :
    (key : Bytes) → IsBuffer 32 key → pickle_ed25519_public_key key ≡ key
unfolding pickle_ed25519_public_key
pickle_ed25519_public_key_exact key h = pickle_bytes_exact key 32 h.0

unpickle_ed25519_public_key-append :
    (old key rest : Bytes)
    → IsBuffer 32 key
    → unpickle_ed25519_public_key old (pickle_ed25519_public_key key ++ rest) ≡ (key, some rest)
unfolding unpickle_ed25519_public_key
unpickle_ed25519_public_key-append old key rest h =
    rw (pickle_ed25519_public_key_exact key h) (unpickle_bytes-append old key rest 32 h.0)

unpickle_verified-pickle_bool :
    (old verified : Bool) → unpickle_verified 2 old (pickle_bool verified) ≡ (verified, some [])
unfolding unpickle_verified
unpickle_verified-pickle_bool old verified =
    rw (append-nil) at (unpickle_bool-pickle_bool old verified [])

inbound_raw_unpickle-inbound_raw_pickle :
    (old session : InboundGroupSession) (n : ℕ)
    → IsInbound session
    → inbound_raw_unpickle old (inbound_raw_pickle session) n
      ≡ (inbound_restored old session, returned n)
unfolding inbound_raw_unpickle inbound_raw_pickle unpickle_fields
inbound_raw_unpickle-inbound_raw_pickle old session n h =
    let verified = pickle_bool session.signing_key_verified in
    let keys = pickle_ed25519_public_key session.signing_key ++ verified in
    let latest = megolm_pickle session.latest_ratchet ++ keys in
    ground (
      arith,
      unpickle_uint32-pickle_uint32 2 (megolm_pickle session.initial_ratchet ++ latest)
          (omega arith),
      megolm_unpickle-megolm_pickle old.initial_ratchet session.initial_ratchet latest
          h.initial_shape,
      megolm_unpickle-megolm_pickle old.latest_ratchet session.latest_ratchet keys h.latest_shape,
      unpickle_ed25519_public_key-append old.signing_key session.signing_key verified h.key_bytes,
      unpickle_verified-pickle_bool old.signing_key_verified session.signing_key_verified,
    )

pickle_bool-IsBuffer : (verified : Bool) → IsBuffer 1 (pickle_bool verified)
unfolding pickle_bool
pickle_bool-IsBuffer true = (refl, (omega arith, tt))
pickle_bool-IsBuffer false = (refl, (omega arith, tt))

inbound_raw_pickle-IsBuffer :
    (session : InboundGroupSession)
    → IsInbound session
    → IsBuffer inbound_raw_pickle_length (inbound_raw_pickle session)
unfolding inbound_raw_pickle inbound_raw_pickle_length
inbound_raw_pickle-IsBuffer session h =
    let version = pickle_uint32 2 in
    let initial = megolm_pickle session.initial_ratchet in
    let latest = megolm_pickle session.latest_ratchet in
    let key = session.signing_key in
    let verified = pickle_bool session.signing_key_verified in
    let version_bytes = pickle_uint32-IsBuffer 2 in
    let initial_bytes = megolm_pickle-IsBuffer session.initial_ratchet h.initial_shape in
    let latest_bytes = megolm_pickle-IsBuffer session.latest_ratchet h.latest_shape in
    let verified_bytes = pickle_bool-IsBuffer session.signing_key_verified in
    rw (pickle_ed25519_public_key_exact key h.key_bytes) (
      omega (
        arith,
        length-append version (initial ++ (latest ++ (key ++ verified))),
        length-append initial (latest ++ (key ++ verified)),
        length-append latest (key ++ verified),
        length-append key verified,
        version_bytes.0,
        initial_bytes.0,
        latest_bytes.0,
        verified_bytes.0,
        h.key_bytes.0,
      ),
      All-append IsByte version _ version_bytes.1 (
          All-append IsByte initial _ initial_bytes.1 (
            All-append IsByte latest _ latest_bytes.1
              (All-append IsByte key verified h.key_bytes.1 verified_bytes.1))),
    )

module _ (p : Primitives) (laws : PrimitiveLaws p) where
  pickle_inbound_group_session_room :
      (session : InboundGroupSession) (key pickled text : Bytes)
      → pickle_inbound_group_session_length ≤ length pickled
      → enc_output p key (inbound_raw_pickle session) (
          drop inbound_raw_pickle_length (
            take (encrypt_ciphertext_length inbound_raw_pickle_length + mac_length) (
              drop
                (enc_output_length inbound_raw_pickle_length
                  - (encrypt_ciphertext_length inbound_raw_pickle_length + mac_length))
                pickled)))
        ≡ some text
      → pickle_inbound_group_session p session key pickled ≡ (session, some text)
  unfolding pickle_inbound_group_session pickle_inbound_group_session_length
  pickle_inbound_group_session_room session key pickled text hl h =
      rw (le→ltb (length pickled) (enc_output_length inbound_raw_pickle_length) hl, h)

  unpickle_inbound_group_session_opens :
      (old : InboundGroupSession) (key text raw : Bytes)
      → enc_input p key text old.last_error ≡ (old.last_error, plaintext raw)
      → unpickle_inbound_group_session p old key text ≡ inbound_raw_unpickle old raw (length text)
  unfolding unpickle_inbound_group_session
  unpickle_inbound_group_session_opens old key text raw h = ground (arith, h)

  -- With primitives that keep the stated laws: A receiver's session of the C type's shape is
  -- pickled, where the output buffer has the announced length, to a text of exactly that length
  -- and is itself left alone; unpickled with the same key over any session, the text gives the
  -- session back, with the last error of the old one, and the length is returned.
  pub unpickle_inbound_group_session-pickle_inbound_group_session :
      (session old : InboundGroupSession) (key pickled : Bytes)
      → IsInbound session
      → pickle_inbound_group_session_length ≤ length pickled
      → (text : Bytes) × (pickle_inbound_group_session p session key pickled ≡ (session, some text))
        × (length text ≡ pickle_inbound_group_session_length)
        × (unpickle_inbound_group_session p old key text
            ≡ (inbound_restored old session, returned (length text)))
  unfolding pickle_inbound_group_session_length
  unpickle_inbound_group_session-pickle_inbound_group_session session old key pickled h hl =
      let raw = inbound_raw_pickle session in
      let raw_bytes = inbound_raw_pickle-IsBuffer session h in
      let (text, written, text_length, read) =
        enc_input-enc_output p laws key raw _ old.last_error raw_bytes.1
          (length-output_pos inbound_raw_pickle_length raw pickled raw_bytes.0 hl) in
      (
        text,
        pickle_inbound_group_session_room session key pickled text hl written,
        text_length ∙ ap enc_output_length raw_bytes.0,
        unpickle_inbound_group_session_opens old key text raw read
            ∙ inbound_raw_unpickle-inbound_raw_pickle old session (length text) h,
      )
