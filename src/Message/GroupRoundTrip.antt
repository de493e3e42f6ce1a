-- ===== src/Message/GroupRoundTrip.antt =====
-- The encoder and the decoder of group messages in src/message.cpp.
use olm.Base.{
  append-nil, ℕ, zero, suc, ◌+◌, ◌-◌, ◌^◌, ◌≤◌, ◌<◌, Bytes, IsByte, IsBytes, Bool, true, false,
  Option, none, some, [], ◌∷◌, ◌++◌, length, ltb, ◌==◌, le→ltb, ==_refl, length-append, take-append,
  drop-append, append_assoc, All-append, ◌≡◌, refl, arith, ◌∙◌,
}
use olm.Message.{
  varint_encode, varstring_length, encode_number, encode_string_header, decode_number,
  decode_string, GroupMessage, encode_group_message_length, encode_group_message_header,
  encode_group_message_result, decode_group_round, decode_group_loop, decode_group_body,
  no_group_message, decode_group_message, group_message_index_tag, group_ciphertext_tag,
}
use olm.Message.Varint.{
  varint_skip-varint_encode, varint_decode-varint_encode, length-varint_encode,
  IsBytes-varint_encode,
}

pub decode_number-encode_number :
    (tag value old : ℕ) (has_value : Bool) (rest : Bytes)
    → value < 2 ^ 32
    → decode_number tag (encode_number tag value ++ rest) old has_value ≡ (rest, value, true)
unfolding decode_number encode_number
decode_number-encode_number tag value old has_value rest h =
    ground (arith, varint_skip-varint_encode value rest, varint_decode-varint_encode 32 value h)

-- The field is the whole of what follows its header here.
pub decode_string-encode_string_header :
    (tag : ℕ) (value rest : Bytes) (old : Option Bytes)
    → length value < 2 ^ 64
    → decode_string tag (encode_string_header tag (length value) ++ (value ++ rest)) old
      ≡ (rest, some value)
unfolding decode_string encode_string_header
decode_string-encode_string_header tag value rest old h =
    let room : ltb (length (value ++ rest)) (length value) ≡ false =
      le→ltb (length (value ++ rest)) (length value) (omega (arith, length-append value rest)) in
    rw (
      varint_skip-varint_encode (length value) (value ++ rest),
      varint_decode-varint_encode 64 (length value) h,
      room,
      ==_refl tag,
      take-append (length value) value rest refl,
      drop-append (length value) value rest refl,
    )

-- The message of a body: one round of the loop reads both fields.
abbrev pub decoded_group_message : ℕ → ℕ → Bytes → GroupMessage
decoded_group_message version message_index ciphertext = record {
  version = version;
  message_index = message_index;
  has_message_index = true;
  ciphertext = some ciphertext;
}

fields_of : ℕ → Bytes → Bytes
fields_of message_index ciphertext =
    encode_number group_message_index_tag message_index
    ++ (encode_string_header group_ciphertext_tag (length ciphertext) ++ (ciphertext ++ []))

decode_group_round-fields :
    (version message_index : ℕ) (ciphertext : Bytes)
    → message_index < 2 ^ 32
    → length ciphertext < 2 ^ 64
    → decode_group_round
        (fields_of message_index ciphertext)
        (record no_group_message { version = version })
      ≡ ([], decoded_group_message version message_index ciphertext)
unfolding decode_group_round fields_of
decode_group_round-fields version message_index ciphertext hi hc =
    let after =
      encode_string_header group_ciphertext_tag (length ciphertext) ++ (ciphertext ++ []) in
    let some_bytes : (0 == length (encode_number group_message_index_tag message_index ++ after))
        ≡ false =
      unfold encode_number in ground arith in
    rw (
      decode_number-encode_number group_message_index_tag message_index 0 false after hi,
      decode_string-encode_string_header group_ciphertext_tag ciphertext [] none hc,
      some_bytes,
    )

decode_group_loop_done :
    (fuel : ℕ) (results : GroupMessage) → decode_group_loop fuel [] results ≡ some results
unfolding decode_group_loop
decode_group_loop_done zero results = refl
decode_group_loop_done (suc fuel) results = refl

decode_group_loop_step :
    (fuel b : ℕ) (pos : Bytes) (results : GroupMessage)
    → decode_group_loop (suc fuel) (b ∷ pos) results
      ≡ decode_group_loop fuel
          (decode_group_round (b ∷ pos) results).0
          (decode_group_round (b ∷ pos) results).1
unfolding decode_group_loop
decode_group_loop_step fuel b pos results = refl

decode_group_loop_once :
    (fuel b : ℕ) (pos : Bytes) (results results' : GroupMessage)
    → decode_group_round (b ∷ pos) results ≡ ([], results')
    → decode_group_loop (suc fuel) (b ∷ pos) results ≡ some results'
decode_group_loop_once fuel b pos results results' h =
    decode_group_loop_step fuel b pos results ∙ rw (h) (decode_group_loop_done fuel results')

decode_group_loop_nonempty :
    (pos : Bytes) (b : ℕ) (pos' : Bytes) (results results' : GroupMessage)
    → pos ≡ b ∷ pos'
    → decode_group_round pos results ≡ ([], results')
    → decode_group_loop (length pos) pos results ≡ some results'
decode_group_loop_nonempty pos b pos' results results' e h =
    rw (e) (decode_group_loop_once (length pos') b pos' results results' (rw (e) at h))

abbrev fields_after_tag : ℕ → Bytes → Bytes
fields_after_tag message_index ciphertext =
    varint_encode message_index
    ++ (encode_string_header group_ciphertext_tag (length ciphertext) ++ (ciphertext ++ []))

fields_of_lem :
    (message_index : ℕ) (ciphertext : Bytes)
    → fields_of message_index ciphertext
      ≡ group_message_index_tag ∷ fields_after_tag message_index ciphertext
unfolding fields_of encode_number
fields_of_lem message_index ciphertext = refl

decode_group_body-fields :
    (version message_index : ℕ) (ciphertext : Bytes)
    → message_index < 2 ^ 32
    → length ciphertext < 2 ^ 64
    → decode_group_body (version ∷ fields_of message_index ciphertext)
      ≡ some (decoded_group_message version message_index ciphertext)
unfolding decode_group_body
decode_group_body-fields version message_index ciphertext hi hc =
    decode_group_loop_nonempty _ group_message_index_tag (fields_after_tag message_index ciphertext)
      _ _ (fields_of_lem message_index ciphertext)
      (decode_group_round-fields version message_index ciphertext hi hc)

body_lem :
    (version message_index : ℕ) (ciphertext : Bytes)
    → encode_group_message_header version message_index (length ciphertext) ++ ciphertext
      ≡ version ∷ fields_of message_index ciphertext
unfolding encode_group_message_header fields_of
body_lem version message_index ciphertext = rw (append-nil, append_assoc)

-- For a message index below 2 ^ 32 and a ciphertext shorter than 2 ^ 64, the encoder's header, the
-- ciphertext and a trailer of as many bytes as MAC and signature take decode to the version, the
-- index, marked as present, and the ciphertext.
pub decode_group_message-encode_group_message :
    (version message_index mac_length signature_length : ℕ) (ciphertext trailer : Bytes)
    → message_index < 2 ^ 32
    → length ciphertext < 2 ^ 64
    → length trailer ≡ mac_length + signature_length
    → decode_group_message
        ((encode_group_message_header version message_index (length ciphertext) ++ ciphertext)
          ++ trailer)
        mac_length
        signature_length
      ≡ some (decoded_group_message version message_index ciphertext)
unfolding decode_group_message
decode_group_message-encode_group_message version message_index mac_length signature_length
      ciphertext trailer hi hc ht =
    let message =
      encode_group_message_header version message_index (length ciphertext) ++ ciphertext in
    let body : message ≡ version ∷ fields_of message_index ciphertext =
      body_lem version message_index ciphertext in
    let rest : length (message ++ trailer) - (mac_length + signature_length) ≡ length message =
      omega (arith, length-append message trailer, ht) in
    let room : mac_length + signature_length ≤ length (message ++ trailer) =
      omega (arith, length-append message trailer, ht) in
    rw (
      le→ltb (length (message ++ trailer)) (mac_length + signature_length) room,
      rest,
      take-append (length message) message trailer refl,
      body,
      decode_group_body-fields version message_index ciphertext hi hc,
    )

-- The length that `_olm_encode_group_message` returns, with the lengths of the MAC and the
-- signature, is the length that `_olm_encode_group_message_length` announces.
pub encode_group_message_result-add :
    (version message_index ciphertext_length mac_length signature_length : ℕ)
    → encode_group_message_result version message_index ciphertext_length
        + mac_length
        + signature_length
      ≡ encode_group_message_length message_index ciphertext_length mac_length signature_length
unfolding encode_group_message_result encode_group_message_header encode_group_message_length
    varstring_length encode_number encode_string_header
encode_group_message_result-add version message_index ciphertext_length mac_length
      signature_length =
    omega (
      arith,
      length-append (varint_encode message_index)
          (group_ciphertext_tag ∷ varint_encode ciphertext_length),
      length-varint_encode message_index,
      length-varint_encode ciphertext_length,
    )

pub IsBytes-encode_group_message_header :
    (version message_index ciphertext_length : ℕ)
    → IsByte version
    → IsBytes (encode_group_message_header version message_index ciphertext_length)
unfolding encode_group_message_header encode_number encode_string_header
IsBytes-encode_group_message_header version message_index ciphertext_length hv = (
  hv,
  (
    omega arith,
    All-append IsByte _ _ (IsBytes-varint_encode message_index)
        (omega arith, IsBytes-varint_encode ciphertext_length),
  ),
)
