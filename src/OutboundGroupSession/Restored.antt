-- ===== src/OutboundGroupSession/Restored.antt =====
-- Writing and reading the pickles of src/outbound_group_session.c.
use olm.Base.{
  ℕ, ◌+◌, ◌-◌, ◌≤◌, Bytes, IsByte, IsBuffer, some, [], ◌++◌, length, take, drop, le→ltb,
  length-append, All-append, append-nil, ◌≡◌, ap, arith, ◌∙◌,
}
use olm.Pickle.{KeyPair, pickle_uint32, pickle_ed25519_key_pair, unpickle_ed25519_key_pair}
use olm.Pickle.RoundTrip.{
  pickle_uint32-IsBuffer, unpickle_uint32-pickle_uint32, pickle_bytes_exact,
  unpickle_key_pair-append,
}
use olm.Crypto.External.{Primitives, PrimitiveLaws}
use olm.Crypto.{plaintext}
use olm.Cipher.{mac_length, encrypt_ciphertext_length}
use olm.Megolm.{megolm_pickle}
use olm.Megolm.Pickling.{IsMegolm, megolm_unpickle-megolm_pickle, megolm_pickle-IsBuffer}
use olm.PickleEncoding.{returned, enc_output, enc_output_length, enc_input}
use olm.PickleEncoding.RoundTrip.{enc_input-enc_output, length-output_pos}
use olm.OutboundGroupSession.{
  OutboundGroupSession, outbound_raw_pickle, outbound_raw_pickle_length, outbound_raw_unpickle,
  pickle_outbound_group_session_length, pickle_outbound_group_session,
  unpickle_outbound_group_session,
}

-- A session as the C type allows it.
pub record IsOutbound (session : OutboundGroupSession) : Type 0 where
  pub ratchet_shape : IsMegolm session.ratchet
  pub public_bytes : IsBuffer 32 session.signing_key.public_key
  pub private_bytes : IsBuffer 64 session.signing_key.private_key

-- Everything but the last error comes from the pickle.
abbrev pub outbound_restored : OutboundGroupSession → OutboundGroupSession → OutboundGroupSession
outbound_restored old session = record session { last_error = old.last_error }

key_pair_exact :
    (key : KeyPair)
    → IsBuffer 32 key.public_key
    → IsBuffer 64 key.private_key
    → pickle_ed25519_key_pair key ≡ key.public_key ++ key.private_key
unfolding pickle_ed25519_key_pair
key_pair_exact key h1 h2 =
    rw (pickle_bytes_exact key.public_key 32 h1.0, pickle_bytes_exact key.private_key 64 h2.0)

unpickle_ed25519_key_pair-append :
    (old key : KeyPair)
    → IsBuffer 32 key.public_key
    → IsBuffer 64 key.private_key
    → unpickle_ed25519_key_pair old (pickle_ed25519_key_pair key) ≡ (key, some [])
unfolding unpickle_ed25519_key_pair
unpickle_ed25519_key_pair-append old key h1 h2 =
    rw (key_pair_exact key h1 h2)
      (rw (append-nil) at (unpickle_key_pair-append 32 64 old key [] h1.0 h2.0))

outbound_raw_unpickle-outbound_raw_pickle :
    (old session : OutboundGroupSession) (n : ℕ)
    → IsOutbound session
    → outbound_raw_unpickle old (outbound_raw_pickle session) n
      ≡ (outbound_restored old session, returned n)
unfolding outbound_raw_unpickle outbound_raw_pickle
outbound_raw_unpickle-outbound_raw_pickle old session n h =
    let keys = pickle_ed25519_key_pair session.signing_key in
    ground (
      arith,
      unpickle_uint32-pickle_uint32 1 (megolm_pickle session.ratchet ++ keys) (omega arith),
      megolm_unpickle-megolm_pickle old.ratchet session.ratchet keys h.ratchet_shape,
      unpickle_ed25519_key_pair-append old.signing_key session.signing_key h.public_bytes
          h.private_bytes,
    )

outbound_raw_pickle-IsBuffer :
    (session : OutboundGroupSession)
    → IsOutbound session
    → IsBuffer outbound_raw_pickle_length (outbound_raw_pickle session)
unfolding outbound_raw_pickle outbound_raw_pickle_length
outbound_raw_pickle-IsBuffer session h =
    let version = pickle_uint32 1 in
    let ratchet = megolm_pickle session.ratchet in
    let key = session.signing_key in
    let version_bytes = pickle_uint32-IsBuffer 1 in
    let ratchet_bytes = megolm_pickle-IsBuffer session.ratchet h.ratchet_shape in
    rw (key_pair_exact key h.public_bytes h.private_bytes) (
      omega (
        arith,
        length-append version (ratchet ++ (key.public_key ++ key.private_key)),
        length-append ratchet (key.public_key ++ key.private_key),
        length-append key.public_key key.private_key,
        version_bytes.0,
        ratchet_bytes.0,
        h.public_bytes.0,
        h.private_bytes.0,
      ),
      All-append IsByte version _ version_bytes.1 (
          All-append IsByte ratchet _ ratchet_bytes.1
            (All-append IsByte key.public_key key.private_key h.public_bytes.1 h.private_bytes.1)),
    )

module _ (p : Primitives) (laws : PrimitiveLaws p) where
  pickle_outbound_group_session_room :
      (session : OutboundGroupSession) (key pickled text : Bytes)
      → pickle_outbound_group_session_length ≤ length pickled
      → enc_output p key (outbound_raw_pickle session) (
          drop outbound_raw_pickle_length (
            take (encrypt_ciphertext_length outbound_raw_pickle_length + mac_length) (
              drop
                (enc_output_length outbound_raw_pickle_length
                  - (encrypt_ciphertext_length outbound_raw_pickle_length + mac_length))
                pickled)))
        ≡ some text
      → pickle_outbound_group_session p session key pickled ≡ (session, some text)
  unfolding pickle_outbound_group_session pickle_outbound_group_session_length
  pickle_outbound_group_session_room session key pickled text hl h =
      rw (le→ltb (length pickled) (enc_output_length outbound_raw_pickle_length) hl, h)

  unpickle_outbound_group_session_opens :
      (old : OutboundGroupSession) (key text raw : Bytes)
      → enc_input p key text old.last_error ≡ (old.last_error, plaintext raw)
      → unpickle_outbound_group_session p old key text ≡ outbound_raw_unpickle old raw (length text)
  unfolding unpickle_outbound_group_session
  unpickle_outbound_group_session_opens old key text raw h = ground (arith, h)

  -- With primitives that keep the stated laws: A sender's session of the C type's shape is
  -- pickled, where the output buffer has the announced length, to a text of exactly that length
  -- and is itself left alone; unpickled with the same key over any session, the text gives the
  -- session back, with the last error of the old one, and the length is returned.
  pub unpickle_outbound_group_session-pickle_outbound_group_session :
      (session old : OutboundGroupSession) (key pickled : Bytes)
      → IsOutbound session
      → pickle_outbound_group_session_length ≤ length pickled
      → (text : Bytes) × (pickle_outbound_group_session p session key pickled
          ≡ (session, some text))
        × (length text ≡ pickle_outbound_group_session_length)
        × (unpickle_outbound_group_session p old key text
            ≡ (outbound_restored old session, returned (length text)))
  unfolding pickle_outbound_group_session_length
  unpickle_outbound_group_session-pickle_outbound_group_session session old key pickled h hl =
      let raw = outbound_raw_pickle session in
      let raw_bytes = outbound_raw_pickle-IsBuffer session h in
      let (text, written, text_length, read) =
        enc_input-enc_output p laws key raw _ old.last_error raw_bytes.1
          (length-output_pos outbound_raw_pickle_length raw pickled raw_bytes.0 hl) in
      (
        text,
        pickle_outbound_group_session_room session key pickled text hl written,
        text_length ∙ ap enc_output_length raw_bytes.0,
        unpickle_outbound_group_session_opens old key text raw read
            ∙ outbound_raw_unpickle-outbound_raw_pickle old session (length text) h,
      )
