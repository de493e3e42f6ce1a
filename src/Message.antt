-- ===== src/Message.antt =====
-- src/message.cpp: the wire format of messages, a version byte and tagged fields.
-- A position is the list of the bytes from it up to `end`.
pub mod Varint
pub mod Group
pub mod GroupRoundTrip
pub mod Normal
pub mod PreKey
use olm.Base.{
  ℕ, zero, suc, ◌+◌, ◌-◌, ◌*◌, ◌/◌, ◌%◌, ◌^◌, bit_and, bit_or, Bytes, Bool, true, false, Option,
  none, some, [], ◌∷◌, ◌++◌, length, take, drop, ltb, ◌==◌, if◌then◌else◌,
}

-- `while (value >= 128U) { ++result; value >>= 7; }`. A value of 64 bits makes nine rounds at most;
-- the fuel is the value itself.
unfoldable pub varint_length_loop : ℕ → ℕ → ℕ → ℕ
varint_length_loop zero value result = result
varint_length_loop (suc fuel) value result =
    let longer = varint_length_loop fuel (value / 2 ^ 7) (result + 1) in
    if ltb value 128 then result else longer

unfoldable pub varint_length : ℕ → ℕ
varint_length value = varint_length_loop value value 1

-- `*(output++) = (0x7F & value) | 0x80` until the value fits seven bits.
unfoldable pub varint_encode_loop : ℕ → ℕ → Bytes
varint_encode_loop zero value = value % 256 ∷ []
varint_encode_loop (suc fuel) value =
    let more = bit_or (bit_and 0x7f value) 0x80 % 256 ∷ varint_encode_loop fuel (value / 2 ^ 7) in
    if ltb value 128 then value % 256 ∷ [] else more

unfoldable pub varint_encode : ℕ → Bytes
varint_encode value = varint_encode_loop value value

-- The bytes of the number are read from the last one back to the first, into `width` bits.
unfoldable pub varint_decode : ℕ → Bytes → ℕ
varint_decode width [] = 0
varint_decode width (b ∷ bytes) =
    bit_or (varint_decode width bytes * 2 ^ 7 % 2 ^ width) (bit_and 0x7f b)

-- The bytes that are skipped, and the position behind them.
unfoldable pub varint_skip : Bytes → Bytes × Bytes
varint_skip [] = ([], [])
varint_skip (tmp ∷ input) =
    let (skipped, rest) = varint_skip input in
    if bit_and tmp 0x80 == 0 then (tmp ∷ [], input) else (tmp ∷ skipped, rest)

unfoldable pub varstring_length : ℕ → ℕ
varstring_length string_length = varint_length string_length + string_length

abbrev pub version_length : ℕ
version_length = 1

-- `encode` of a number, and of the header of a string, whose bytes the caller fills in behind it.
unfoldable pub encode_number : ℕ → ℕ → Bytes
encode_number tag value = tag ∷ varint_encode value

unfoldable pub encode_string_header : ℕ → ℕ → Bytes
encode_string_header tag value_length = tag ∷ varint_encode value_length

-- `decode` of a `uint32_t` field: the new position, and the field with its `has_value` flag.
unfoldable pub decode_number : ℕ → Bytes → ℕ → Bool → Bytes × ℕ × Bool
decode_number tag [] value has_value = ([], value, has_value)
decode_number tag (b ∷ pos) value has_value =
    let (number, rest) = varint_skip pos in
    if b == tag then (rest, varint_decode 32 number, true) else (b ∷ pos, value, has_value)

-- `decode` of a string field; the null pointer is `none`. A length that passes the end moves the
-- position to the end and leaves the field alone.
unfoldable pub decode_string : ℕ → Bytes → Option Bytes → Bytes × Option Bytes
decode_string tag [] value = ([], value)
decode_string tag (b ∷ pos) value =
    let (number, rest) = varint_skip pos in
    let len = varint_decode 64 number in
    if b == tag
    then (if ltb (length rest) len then ([], value) else (drop len rest, some (take len rest)))
    else (b ∷ pos, value)

unfoldable pub skip_unknown : Bytes → Bytes
skip_unknown [] = []
skip_unknown (tag ∷ pos) =
    let after_tag = (varint_skip (tag ∷ pos)).1 in
    let (number, rest) = varint_skip after_tag in
    let len = varint_decode 64 number in
    if bit_and tag 0x7 == 0
    then rest
    else if bit_and tag 0x7 == 2
    then (if ltb (length rest) len then [] else drop len rest)
    else []

abbrev pub group_message_index_tag : ℕ
group_message_index_tag = 0o10

abbrev pub group_ciphertext_tag : ℕ
group_ciphertext_tag = 0o22

-- `struct _OlmDecodeGroupMessageResults`
pub record GroupMessage : Type 0 where
  pub version : ℕ
  pub message_index : ℕ
  pub has_message_index : Bool
  pub ciphertext : Option Bytes

unfoldable pub encode_group_message_length : ℕ → ℕ → ℕ → ℕ → ℕ
encode_group_message_length message_index ciphertext_length mac_length signature_length =
    version_length
    + (1 + varint_length message_index)
    + (1 + varstring_length ciphertext_length)
    + mac_length
    + signature_length

-- The bytes in front of the ciphertext, which starts at `*ciphertext_ptr`, right behind them.
unfoldable pub encode_group_message_header : ℕ → ℕ → ℕ → Bytes
encode_group_message_header version message_index ciphertext_length =
    version
    ∷ (encode_number group_message_index_tag message_index
        ++ encode_string_header group_ciphertext_tag ciphertext_length)

-- The value that `_olm_encode_group_message` returns: the length up to the end of the ciphertext.
unfoldable pub encode_group_message_result : ℕ → ℕ → ℕ → ℕ
encode_group_message_result version message_index ciphertext_length =
    length (encode_group_message_header version message_index ciphertext_length) + ciphertext_length

-- One round of the `while (pos != end)` loop.
unfoldable pub decode_group_round : Bytes → GroupMessage → Bytes × GroupMessage
decode_group_round pos results =
    let (pos1, message_index, has_message_index) =
      decode_number group_message_index_tag pos results.message_index results.has_message_index in
    let (pos2, ciphertext) = decode_string group_ciphertext_tag pos1 results.ciphertext in
    let results' : GroupMessage = record results {
      message_index = message_index;
      has_message_index = has_message_index;
      ciphertext = ciphertext;
    } in
    (if length pos2 == length pos then skip_unknown pos2 else pos2, results')

-- The loop with fuel; `none` means that the fuel ran out.
pub decode_group_loop : ℕ → Bytes → GroupMessage → Option GroupMessage
decode_group_loop fuel [] results = some results
decode_group_loop zero (b ∷ pos) results = none
decode_group_loop (suc fuel) (b ∷ pos) results =
    let (pos', results') = decode_group_round (b ∷ pos) results in
    decode_group_loop fuel pos' results'

abbrev pub no_group_message : GroupMessage
no_group_message = record {
  version = 0;
  message_index = 0;
  has_message_index = false;
  ciphertext = none;
}

-- Each round moves the position, so as many rounds as there are bytes are enough.
pub decode_group_body : Bytes → Option GroupMessage
decode_group_body [] = some no_group_message
decode_group_body (version ∷ pos) =
    decode_group_loop (length pos) pos (record no_group_message { version = version })

unfoldable pub decode_group_message : Bytes → ℕ → ℕ → Option GroupMessage
decode_group_message input mac_length signature_length =
    let trailer_length = mac_length + signature_length in
    if ltb (length input) trailer_length
    then some no_group_message
    else decode_group_body (take (length input - trailer_length) input)
