-- ===== src/Tests/Messages.antt =====
-- Examples for the messages between two devices of src/message.cpp.
use olm.Base.{some, [], ◌∷◌, ◌++◌, ◌≡◌, refl, arith}
use olm.Message.Normal.{encode_message, decode_message}
use olm.Message.Normal.RoundTrip.{decoded_message, decode_message-encode_message}
use olm.Message.PreKey.{encode_one_time_key_message, decode_one_time_key_message}
use olm.Message.PreKey.RoundTrip.{
  decoded_prekey_message, decode_one_time_key_message-encode_one_time_key_message,
}
use olm.Tests.{two_bytes, some_key}

decode_message-encode_message_example :
    decode_message (encode_message 3 300 some_key two_bytes ++ (9 ∷ 8 ∷ [])) 2
    ≡ some (
        decoded_message 3 300 some_key two_bytes
          (encode_message 3 300 some_key two_bytes ++ (9 ∷ 8 ∷ [])))
decode_message-encode_message_example =
    decode_message-encode_message 3 300 2 some_key two_bytes (9 ∷ 8 ∷ []) (omega arith)
      (omega arith) (omega arith) refl

decode_one_time_key_message-encode_one_time_key_message_example :
    decode_one_time_key_message
      (encode_one_time_key_message 3 some_key two_bytes some_key two_bytes some_key)
    ≡ some (decoded_prekey_message 3 some_key two_bytes some_key two_bytes some_key)
decode_one_time_key_message-encode_one_time_key_message_example =
    decode_one_time_key_message-encode_one_time_key_message some_key two_bytes some_key two_bytes
      some_key (omega arith) (omega arith) (omega arith) (omega arith) (omega arith) 3
