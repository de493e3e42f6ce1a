-- ===== src/Tests/Sessions.antt =====
-- Examples for src/outbound_group_session.c and src/inbound_group_session.c.
use olm.Base.{
  [], ◌∷◌, ◌+◌, ◌-◌, ◌%◌, ◌^◌, ◌≤◌, ◌<◌, Bytes, IsBuffer, false, none, some, length, replicate, ◌≡◌,
  refl, arith,
}
use olm.Error.{success, unknown_message_index}
use olm.Base64.{encode_base64_length, encode_base64}
use olm.Base64.RoundTrip.{decode_base64-encode_base64}
use olm.Crypto.{plaintext, crypto_ed25519_verify, aes_encrypt_cbc_length}
use olm.Cipher.{encrypt_ciphertext_length}
use olm.Megolm.{megolm_pickle_length}
use olm.Megolm.Advance.{advance_times}
use olm.Message.{varint_length, varint_length_loop, varstring_length, encode_group_message_length}
use olm.PickleEncoding.{enc_output_length, returned}
use olm.OutboundGroupSession.{
  OutboundGroupSession, outbound_raw_pickle_length, pickle_outbound_group_session_length,
  pickle_outbound_group_session, unpickle_outbound_group_session, raw_message_length,
  group_encrypt_message_length, group_encrypt, outbound_group_session_key,
  outbound_group_session_key_length, clear_outbound_group_session,
}
use olm.OutboundGroupSession.Encrypting.{group_message, next_session, group_encrypt_lem}
use olm.OutboundGroupSession.Restored.{
  IsOutbound, outbound_restored, unpickle_outbound_group_session-pickle_outbound_group_session,
}
use olm.InboundGroupSession.{
  InboundGroupSession, inbound_fail, clear_inbound_group_session, init_inbound_group_session,
  import_inbound_group_session,
}
use olm.InboundGroupSession.Ratchet.{
  get_megolm, export_inbound_group_session, export_inbound_group_session_length,
}
use olm.InboundGroupSession.Stored.{
  inbound_raw_pickle_length, pickle_inbound_group_session_length, pickle_inbound_group_session,
  unpickle_inbound_group_session,
}
use olm.InboundGroupSession.Decryption.{group_decrypt}
use olm.InboundGroupSession.Following.{
  later, with_latest, Follows, get_megolm-Follows, get_megolm_too_early,
}
use olm.InboundGroupSession.Exchange.{verified_at, group_decrypt-group_encrypt}
use olm.InboundGroupSession.KeyBuffer.{shared_at}
use olm.InboundGroupSession.Sharing.{
  verified_shared_at, init_inbound_group_session-outbound_group_session_key,
  import_inbound_group_session-export_inbound_group_session,
}
use olm.InboundGroupSession.Restored.{
  IsInbound, inbound_restored, unpickle_inbound_group_session-pickle_inbound_group_session,
}
use olm.InboundGroupSession.Authenticity.{Keeps, group_decrypt-Keeps}
use olm.InboundGroupSession.Conversation.{receive_all, all_opened, receive_all-eq-all_opened}
use olm.InboundGroupSession.Unsigned.{Refused, is_signed, group_decrypt_unsigned}
use olm.Tests.{toy, toy_laws, two_bytes, some_key, some_ratchet, some_ratchet-IsMegolm}
use olm.Tests.Codecs.{two_bytes-IsBytes}

abbrev sender : OutboundGroupSession
sender = record {
  ratchet = some_ratchet;
  signing_key = toy.ed25519_create_keypair some_key;
  last_error = success;
}

-- A receiver that is one message ahead of the sender.
abbrev receiver : InboundGroupSession
receiver = record {
  initial_ratchet = some_ratchet;
  latest_ratchet = advance_times toy 1 some_ratchet;
  signing_key = sender.signing_key.public_key;
  signing_key_verified = false;
  last_error = success;
}

abbrev buffer : Bytes
buffer = replicate 600 0

receiver-Follows : Follows toy some_ratchet 1 receiver
receiver-Follows = record {
  initial_here = refl;
  latest_ahead = refl;
  counter_bits = omega arith;
  in_reach = omega arith;
}

room_for_message : group_encrypt_message_length sender 2 ≤ length buffer
unfolding group_encrypt_message_length raw_message_length encode_base64_length
    encode_group_message_length varint_length varint_length_loop varstring_length
    encrypt_ciphertext_length aes_encrypt_cbc_length
room_for_message = omega arith

two_fit : encrypt_ciphertext_length 2 ≤ 16
unfolding encrypt_ciphertext_length aes_encrypt_cbc_length
two_fit = omega arith

two_fit_size : encrypt_ciphertext_length 2 < 2 ^ 64
unfolding encrypt_ciphertext_length aes_encrypt_cbc_length
two_fit_size = omega arith

start : sender.ratchet ≡ advance_times toy 0 some_ratchet
unfolding advance_times
start = refl

group_decrypt-group_encrypt_example :
    (text : Bytes) × (group_encrypt toy sender two_bytes buffer
      ≡ (next_session toy sender, some text))
    × (group_decrypt toy receiver text 16 ≡ (
      verified_at receiver (advance_times toy (later 1 0) some_ratchet),
      some ((some_ratchet.counter + 0) % 2 ^ 32),
      plaintext two_bytes,
    ))
group_decrypt-group_encrypt_example =
    group_decrypt-group_encrypt toy toy_laws sender receiver some_ratchet some_key two_bytes buffer
      1 0 16 start (omega arith) receiver-Follows refl refl two_bytes-IsBytes two_fit_size
      room_for_message two_fit

key_room : outbound_group_session_key_length ≤ 400
unfolding outbound_group_session_key_length encode_base64_length
key_room = omega arith

init_inbound_group_session-outbound_group_session_key_example :
    (text : Bytes) × (outbound_group_session_key toy sender 400 ≡ (sender, some text))
    × (init_inbound_group_session toy clear_inbound_group_session text ≡ (
      verified_shared_at clear_inbound_group_session some_ratchet sender.signing_key.public_key,
      some 0,
    ))
init_inbound_group_session-outbound_group_session_key_example =
    init_inbound_group_session-outbound_group_session_key toy toy_laws sender
      clear_inbound_group_session some_key 400 some_ratchet-IsMegolm refl key_room

public_bytes : IsBuffer 32 sender.signing_key.public_key
public_bytes = toy_laws.public_key-IsBuffer some_key

export_room : export_inbound_group_session_length ≤ 400
unfolding export_inbound_group_session_length encode_base64_length
export_room = omega arith

import_inbound_group_session-export_inbound_group_session_example :
    (text : Bytes) × (export_inbound_group_session toy receiver 400
        ((some_ratchet.counter + 9) % 2 ^ 32)
      ≡ (with_latest receiver (advance_times toy (later 1 9) some_ratchet), some text))
    × (import_inbound_group_session toy clear_inbound_group_session text ≡ (
      shared_at clear_inbound_group_session (advance_times toy 9 some_ratchet) receiver.signing_key,
      some 0,
    ))
import_inbound_group_session-export_inbound_group_session_example =
    import_inbound_group_session-export_inbound_group_session toy toy_laws receiver
      clear_inbound_group_session some_ratchet 1 9 400 some_ratchet-IsMegolm receiver-Follows
      (omega arith) public_bytes export_room

get_megolm-Follows_example : get_megolm toy receiver ((some_ratchet.counter + 9) % 2 ^ 32) ≡ (
  with_latest receiver (advance_times toy (later 1 9) some_ratchet),
  some (advance_times toy 9 some_ratchet),
)
get_megolm-Follows_example =
    get_megolm-Follows toy some_ratchet 1 9 receiver receiver-Follows (omega arith)

get_megolm_too_early_example :
    get_megolm toy receiver ((some_ratchet.counter + 2 ^ 32 - 5) % 2 ^ 32)
    ≡ (inbound_fail receiver unknown_message_index, none)
get_megolm_too_early_example =
    get_megolm_too_early toy some_ratchet 1 5 receiver receiver-Follows (omega arith) (omega arith)

group_encrypt_lem_example :
    group_encrypt toy sender two_bytes buffer
    ≡ (next_session toy sender, some (encode_base64 (group_message toy sender two_bytes)))
group_encrypt_lem_example =
    group_encrypt_lem toy toy_laws sender two_bytes buffer two_bytes-IsBytes room_for_message

sender-IsOutbound : IsOutbound sender
sender-IsOutbound = record {
  ratchet_shape = some_ratchet-IsMegolm;
  public_bytes = public_bytes;
  private_bytes = toy_laws.private_key-IsBuffer some_key;
}

outbound_pickle_room : pickle_outbound_group_session_length ≤ length buffer
unfolding pickle_outbound_group_session_length outbound_raw_pickle_length megolm_pickle_length
    enc_output_length encode_base64_length encrypt_ciphertext_length aes_encrypt_cbc_length
outbound_pickle_room = omega arith

unpickle_outbound_group_session-pickle_outbound_group_session_example :
    (text : Bytes) × (pickle_outbound_group_session toy sender some_key buffer
      ≡ (sender, some text))
    × (length text ≡ pickle_outbound_group_session_length)
    × (unpickle_outbound_group_session toy clear_outbound_group_session some_key text
        ≡ (outbound_restored clear_outbound_group_session sender, returned (length text)))
unpickle_outbound_group_session-pickle_outbound_group_session_example =
    unpickle_outbound_group_session-pickle_outbound_group_session toy toy_laws sender
      clear_outbound_group_session some_key buffer sender-IsOutbound outbound_pickle_room

-- A receiver that has not decrypted anything yet.
abbrev new_receiver : InboundGroupSession
new_receiver = verified_shared_at receiver some_ratchet receiver.signing_key

new_receiver-IsInbound : IsInbound new_receiver
new_receiver-IsInbound = record {
  initial_shape = some_ratchet-IsMegolm;
  latest_shape = some_ratchet-IsMegolm;
  key_bytes = public_bytes;
}

inbound_pickle_room : pickle_inbound_group_session_length ≤ length buffer
unfolding pickle_inbound_group_session_length inbound_raw_pickle_length megolm_pickle_length
    enc_output_length encode_base64_length encrypt_ciphertext_length aes_encrypt_cbc_length
inbound_pickle_room = omega arith

unpickle_inbound_group_session-pickle_inbound_group_session_example :
    (text : Bytes) × (pickle_inbound_group_session toy new_receiver some_key buffer
      ≡ (new_receiver, some text))
    × (length text ≡ pickle_inbound_group_session_length)
    × (unpickle_inbound_group_session toy clear_inbound_group_session some_key text
        ≡ (inbound_restored clear_inbound_group_session new_receiver, returned (length text)))
unpickle_inbound_group_session-pickle_inbound_group_session_example =
    unpickle_inbound_group_session-pickle_inbound_group_session toy toy_laws new_receiver
      clear_inbound_group_session some_key buffer new_receiver-IsInbound inbound_pickle_room

group_decrypt-Keeps_example : Keeps receiver (group_decrypt toy receiver two_bytes 16).0
group_decrypt-Keeps_example = group_decrypt-Keeps toy receiver two_bytes 16

not_signed : is_signed toy receiver two_bytes ≡ false
unfolding crypto_ed25519_verify
not_signed = refl

group_decrypt_unsigned_example :
    Refused receiver (group_decrypt toy receiver (encode_base64 two_bytes) 16)
group_decrypt_unsigned_example =
    group_decrypt_unsigned toy receiver (encode_base64 two_bytes) two_bytes 16
      (decode_base64-encode_base64 two_bytes two_bytes-IsBytes) not_signed

-- Every message says the same here; the third is received first, and again at the end.
receive_all-eq-all_opened_example :
    receive_all toy sender (λ n. two_bytes) receiver 16 (2 ∷ 0 ∷ 1 ∷ 2 ∷ [])
    ≡ all_opened sender (λ n. two_bytes) (2 ∷ 0 ∷ 1 ∷ 2 ∷ [])
receive_all-eq-all_opened_example =
    receive_all-eq-all_opened toy toy_laws sender (λ n. two_bytes) (λ n. two_bytes-IsBytes) receiver
      some_key 1 16 (2 ∷ 0 ∷ 1 ∷ 2 ∷ []) receiver-Follows refl refl (λ n. two_fit_size)
      (λ n. two_fit) (omega arith, (omega arith, (omega arith, (omega arith, tt))))
