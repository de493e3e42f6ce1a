-- ===== src/Session/PreKeyText.antt =====
-- The pre-key messages of src/session.cpp: what is written for a session that has not received a
-- message yet, and what the other side loads from it.
use olm.Base.{
  ℕ, ◌-◌, ◌^◌, ◌≤◌, ◌<◌, Bytes, Bool, true, false, Option, some, take, drop, length, take_all,
  le→ltb, length-take, length-drop, ◌≡◌, refl, arith,
}
use olm.Crypto.External.{Primitives}
use olm.Message.{varstring_length}
use olm.Message.PreKey.{
  encode_one_time_key_message, encode_one_time_key_message_length, decode_one_time_key_message,
}
use olm.Message.PreKey.RoundTrip.{
  decode_one_time_key_message-encode_one_time_key_message, decoded_prekey_message,
}
use olm.Ratchet.{Ratchet}
use olm.Ratchet.Encrypting.{message, encrypt_output_length, ratchet_encrypt}
use olm.Account.{Account}
use olm.Session.{Session, encrypt_message_length, session_encrypt, session_protocol_version}
use olm.Session.Starting.{
  is_present, agrees, inner_ratchet_key, load_keys, answer_keys, new_inbound_session,
  check_message_fields,
}

-- The four keys of a session that is starting.
pub record Keys : Type 0 where
  pub identity_key : Bytes
  pub base_key : Bytes
  pub one_time_key : Bytes
  pub prekey : Bytes

abbrev pub with_keys : Session → Keys → Ratchet → Session
with_keys session keys ratchet = record session {
  ratchet = ratchet;
  received_message = false;
  alice_identity_key = keys.identity_key;
  alice_base_key = keys.base_key;
  bob_one_time_key = keys.one_time_key;
  bob_prekey = keys.prekey;
}

pub record AreKeys (keys : Keys) : Type 0 where
  pub identity_size : length keys.identity_key ≡ 32
  pub base_size : length keys.base_key ≡ 32
  pub one_time_size : length keys.one_time_key ≡ 32
  pub prekey_size : length keys.prekey ≡ 32

-- The message that carries the keys and an inner message.
abbrev pub prekey_text : Keys → Bytes → Bytes
prekey_text keys body =
    encode_one_time_key_message session_protocol_version keys.identity_key keys.base_key keys.prekey
      keys.one_time_key body

abbrev pub prekey_reader : Keys → Bytes → olm.Message.PreKey.PreKeyMessageReader
prekey_reader keys body =
    decoded_prekey_message session_protocol_version keys.identity_key keys.base_key keys.prekey
      keys.one_time_key body

pub decode_prekey_text :
    (keys : Keys) (body : Bytes)
    → AreKeys keys
    → length body < 2 ^ 64
    → decode_one_time_key_message (prekey_text keys body) ≡ some (prekey_reader keys body)
decode_prekey_text keys body k h =
    decode_one_time_key_message-encode_one_time_key_message keys.identity_key keys.base_key
      keys.prekey keys.one_time_key body (omega (arith, k.identity_size))
      (omega (arith, k.base_size)) (omega (arith, k.prekey_size)) (omega (arith, k.one_time_size)) h
      session_protocol_version

load_prekey_reader :
    (session : Session) (keys : Keys) (body : Bytes)
    → AreKeys keys
    → load_keys session (prekey_reader keys body)
      ≡ some (record session {
        alice_identity_key = keys.identity_key;
        alice_base_key = keys.base_key;
        bob_one_time_key = keys.one_time_key;
        bob_prekey = keys.prekey;
      })
unfolding load_keys
load_prekey_reader session keys body k = ground (
  arith,
  k.identity_size,
  k.base_size,
  k.one_time_size,
  k.prekey_size,
  take_all 32 keys.identity_key,
  take_all 32 keys.base_key,
  take_all 32 keys.one_time_key,
  take_all 32 keys.prekey,
)

checked_prekey_reader :
    (keys : Keys) (body : Bytes) (have : Bool)
    → AreKeys keys
    → check_message_fields (prekey_reader keys body) have ≡ true
unfolding check_message_fields
checked_prekey_reader keys body true k = rw (k.identity_size, k.base_size, k.one_time_size) refl
checked_prekey_reader keys body false k = rw (k.identity_size, k.base_size, k.one_time_size) refl

-- The buffer that the ratchet is given, behind the header.
abbrev pub body_buffer : Session → ℕ → Bytes → Bytes
body_buffer session n output =
    take (encrypt_output_length session.ratchet n)
      (drop (encrypt_message_length session n - encrypt_output_length session.ratchet n) output)

module _ (p : Primitives) where
  pub new_inbound_session-prekey_text :
      (session : Session) (local_account : Account) (their_identity_key : Option Bytes)
      (keys : Keys) (body ratchet_key : Bytes)
      → AreKeys keys
      → length body < 2 ^ 64
      → agrees their_identity_key (some keys.identity_key) ≡ true
      → inner_ratchet_key (some body) ≡ some ratchet_key
      → new_inbound_session p session local_account their_identity_key (prekey_text keys body)
        ≡ answer_keys p
            (record session {
              alice_identity_key = keys.identity_key;
              alice_base_key = keys.base_key;
              bob_one_time_key = keys.one_time_key;
              bob_prekey = keys.prekey;
            })
            local_account
            ratchet_key
  unfolding new_inbound_session
  new_inbound_session-prekey_text session local_account their keys body ratchet_key k h same inner =
      rw
        (
          decode_prekey_text keys body k h,
          new_inbound_session,
          checked_prekey_reader keys body (is_present their) k,
          same,
          load_prekey_reader session keys body k,
          inner,
        )
        refl

  pub session_encrypt-prekey :
      (base : Session) (keys : Keys) (before ratchet : Ratchet) (plain random output body : Bytes)
      → encrypt_message_length (with_keys base keys before) (length plain) ≤ length output
      → ratchet_encrypt p before plain random
          (body_buffer (with_keys base keys before) (length plain) output)
        ≡ (ratchet, message body)
      → session_encrypt p (with_keys base keys before) plain random output
        ≡ (with_keys base keys ratchet, message (prekey_text keys body))
  unfolding session_encrypt
  session_encrypt-prekey base keys before ratchet plain random output body room written =
      let n = encrypt_message_length (with_keys base keys before) (length plain) in
      rw (written, session_encrypt, le→ltb (length output) n room, written) refl

pub length-body_buffer :
    (base : Session) (keys : Keys) (ratchet : Ratchet) (n : ℕ) (output : Bytes)
    → encrypt_message_length (with_keys base keys ratchet) n ≤ length output
    → encrypt_output_length ratchet n ≤ length (body_buffer (with_keys base keys ratchet) n output)
unfolding encrypt_message_length encode_one_time_key_message_length varstring_length
length-body_buffer base keys ratchet n output room =
    let inner = encrypt_output_length ratchet n in
    let all = encrypt_message_length (with_keys base keys ratchet) n in
    omega
      (arith, room, length-take inner (drop (all - inner) output), length-drop (all - inner) output)
