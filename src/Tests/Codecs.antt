-- ===== src/Tests/Codecs.antt =====
-- Examples for src/base64.cpp, src/memory.cpp, src/message.cpp, src/pickle.cpp and the ratchet's pickle.
use olm.Base.{IsBytes, true, some, [], ◌∷◌, ◌++◌, take, ◌↔◌, ◌≡◌, refl, arith}
use olm.Error.{error_to_string, code_number, pickle_extra_data}
use olm.Base64.{encode_base64, decode_base64}
use olm.Base64.RoundTrip.{decode_base64-encode_base64, DecodesTo, decode_base64-DecodesTo}
use olm.Memory.{is_equal}
use olm.Memory.Equality.{is_equal_iff}
use olm.Message.{GroupMessage, encode_group_message_header, decode_group_message}
use olm.Message.Group.{decode_group_message_total}
use olm.Message.GroupRoundTrip.{decoded_group_message, decode_group_message-encode_group_message}
use olm.Tests.{two_bytes}

pub two_bytes-IsBytes : IsBytes two_bytes
two_bytes-IsBytes = (omega arith, (omega arith, tt))

encodes : encode_base64 (0xff ∷ 0xfe ∷ []) ≡ 0x2f ∷ 0x2f ∷ 0x34 ∷ []
unfolding encode_base64
encodes = refl

names_error : error_to_string (code_number pickle_extra_data) ≡ "OLM_PICKLE_EXTRA_DATA"
unfolding error_to_string code_number
names_error = refl

decode_base64-encode_base64_example : decode_base64 (encode_base64 two_bytes) ≡ some two_bytes
decode_base64-encode_base64_example = decode_base64-encode_base64 two_bytes two_bytes-IsBytes

decode_base64-DecodesTo_example : DecodesTo (65 ∷ 66 ∷ []) (decode_base64 (65 ∷ 66 ∷ []))
decode_base64-DecodesTo_example = decode_base64-DecodesTo (65 ∷ 66 ∷ [])

is_equal_iff_example :
    (is_equal two_bytes (7 ∷ 201 ∷ []) 1 ≡ true) ↔ (take 1 two_bytes ≡ take 1 (7 ∷ 201 ∷ []))
is_equal_iff_example = is_equal_iff two_bytes (7 ∷ 201 ∷ []) 1 (omega arith) (omega arith)

decode_group_message-encode_group_message_example :
    decode_group_message ((encode_group_message_header 3 300 2 ++ two_bytes) ++ (5 ∷ 6 ∷ [])) 1 1
    ≡ some (decoded_group_message 3 300 two_bytes)
decode_group_message-encode_group_message_example =
    decode_group_message-encode_group_message 3 300 1 1 two_bytes (5 ∷ 6 ∷ []) (omega arith)
      (omega arith) refl

decode_group_message_total_example :
    (r : GroupMessage) × (decode_group_message (3 ∷ 0xff ∷ 1 ∷ []) 0 0 ≡ some r)
decode_group_message_total_example = decode_group_message_total (3 ∷ 0xff ∷ 1 ∷ []) 0 0
