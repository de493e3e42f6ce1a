-- ===== src/Base64.antt =====
-- src/base64.cpp: unpadded base64 over buffers of bytes.
-- A pointer into a buffer is the list of the bytes from there on. A length check that fails
-- returns `size_t(-1)` in the source and `none` here.
pub mod Table
pub mod Groups
pub mod RoundTrip
use olm.Base.{
  ℕ, zero, suc, ◌+◌, ◌-◌, ◌*◌, ◌/◌, ◌%◌, ◌^◌, bit_and, bit_or, Bytes, Option, none, some, List, [],
  ◌∷◌, ◌++◌, length, get_or, ◌==◌, if◌then◌else◌,
}

abbrev encode_base64_table : Bytes
encode_base64_table =
    0x41 ∷ 0x42 ∷ 0x43 ∷ 0x44 ∷ 0x45 ∷ 0x46 ∷ 0x47 ∷ 0x48 ∷ 0x49 ∷ 0x4a ∷ 0x4b ∷ 0x4c ∷ 0x4d ∷ 0x4e
    ∷ 0x4f ∷ 0x50 ∷ 0x51 ∷ 0x52 ∷ 0x53 ∷ 0x54 ∷ 0x55 ∷ 0x56 ∷ 0x57 ∷ 0x58 ∷ 0x59 ∷ 0x5a ∷ 0x61
    ∷ 0x62 ∷ 0x63 ∷ 0x64 ∷ 0x65 ∷ 0x66 ∷ 0x67 ∷ 0x68 ∷ 0x69 ∷ 0x6a ∷ 0x6b ∷ 0x6c ∷ 0x6d ∷ 0x6e
    ∷ 0x6f ∷ 0x70 ∷ 0x71 ∷ 0x72 ∷ 0x73 ∷ 0x74 ∷ 0x75 ∷ 0x76 ∷ 0x77 ∷ 0x78 ∷ 0x79 ∷ 0x7a ∷ 0x30
    ∷ 0x31 ∷ 0x32 ∷ 0x33 ∷ 0x34 ∷ 0x35 ∷ 0x36 ∷ 0x37 ∷ 0x38 ∷ 0x39 ∷ 0x2b ∷ 0x2f ∷ []

-- `E`, the entry of a character outside of the alphabet.
abbrev e : ℕ
e = 255

abbrev decode_base64_table : Bytes
decode_base64_table =
    e ∷ e ∷ e ∷ e ∷ e ∷ e ∷ e ∷ e ∷ e ∷ e ∷ e ∷ e ∷ e ∷ e ∷ e ∷ e ∷ e ∷ e ∷ e ∷ e ∷ e ∷ e ∷ e ∷ e
    ∷ e ∷ e ∷ e ∷ e ∷ e ∷ e ∷ e ∷ e ∷ e ∷ e ∷ e ∷ e ∷ e ∷ e ∷ e ∷ e ∷ e ∷ e ∷ e ∷ 62 ∷ e ∷ e ∷ e
    ∷ 63 ∷ 52 ∷ 53 ∷ 54 ∷ 55 ∷ 56 ∷ 57 ∷ 58 ∷ 59 ∷ 60 ∷ 61 ∷ e ∷ e ∷ e ∷ e ∷ e ∷ e ∷ e ∷ 0 ∷ 1 ∷ 2
    ∷ 3 ∷ 4 ∷ 5 ∷ 6 ∷ 7 ∷ 8 ∷ 9 ∷ 10 ∷ 11 ∷ 12 ∷ 13 ∷ 14 ∷ 15 ∷ 16 ∷ 17 ∷ 18 ∷ 19 ∷ 20 ∷ 21 ∷ 22
    ∷ 23 ∷ 24 ∷ 25 ∷ e ∷ e ∷ e ∷ e ∷ e ∷ e ∷ 26 ∷ 27 ∷ 28 ∷ 29 ∷ 30 ∷ 31 ∷ 32 ∷ 33 ∷ 34 ∷ 35 ∷ 36
    ∷ 37 ∷ 38 ∷ 39 ∷ 40 ∷ 41 ∷ 42 ∷ 43 ∷ 44 ∷ 45 ∷ 46 ∷ 47 ∷ 48 ∷ 49 ∷ 50 ∷ 51 ∷ e ∷ e ∷ e ∷ e ∷ e
    ∷ []

-- `ENCODE_BASE64[value]`
pub encode_sextet : ℕ → ℕ
encode_sextet value = get_or encode_base64_table value 0

-- `DECODE_BASE64[c & 0x7F]`
pub decode_sextet : ℕ → ℕ
decode_sextet c = get_or decode_base64_table (bit_and c 0x7f) 0

unfoldable pub encode_base64_length : ℕ → ℕ
encode_base64_length input_length = 4 * ((input_length + 2) / 3) + (input_length + 2) % 3 - 2

-- The four characters of a whole group, first to last.
pub encode_group : ℕ → ℕ → ℕ → Bytes
encode_group a b c =
    let value = bit_or (bit_or (a * 2 ^ 8) b * 2 ^ 8) c in
    encode_sextet (value / 2 ^ 6 / 2 ^ 6 / 2 ^ 6)
    ∷ encode_sextet (bit_and (value / 2 ^ 6 / 2 ^ 6) 0x3f)
    ∷ encode_sextet (bit_and (value / 2 ^ 6) 0x3f)
    ∷ encode_sextet (bit_and value 0x3f)
    ∷ []

-- A remainder of two bytes, and of one.
pub encode_two : ℕ → ℕ → Bytes
encode_two a b =
    let value = bit_or (a * 2 ^ 8) b * 2 ^ 2 in
    encode_sextet (value / 2 ^ 6 / 2 ^ 6)
    ∷ encode_sextet (bit_and (value / 2 ^ 6) 0x3f)
    ∷ encode_sextet (bit_and value 0x3f)
    ∷ []

pub encode_one : ℕ → Bytes
encode_one a =
    let value = a * 2 ^ 4 in encode_sextet (value / 2 ^ 6) ∷ encode_sextet (bit_and value 0x3f) ∷ []

-- The loop takes three bytes a round; what is left at its end is the remainder.
unfoldable pub encode_base64 : Bytes → Bytes
unfolding encode_group encode_two encode_one encode_sextet
encode_base64 [] = []
encode_base64 (a ∷ []) = encode_one a
encode_base64 (a ∷ b ∷ []) = encode_two a b
encode_base64 (a ∷ b ∷ c ∷ rest) = encode_group a b c ++ encode_base64 rest

unfoldable pub decode_base64_length : ℕ → Option ℕ
decode_base64_length input_length =
    if input_length % 4 == 1
    then none
    else some (3 * ((input_length + 2) / 4) + (input_length + 2) % 4 - 2)

-- A store into `output[i]` keeps the low eight bits.
pub decode_group : ℕ → ℕ → ℕ → ℕ → Bytes
decode_group a b c d =
    let first = bit_or (decode_sextet a * 2 ^ 6) (decode_sextet b) in
    let value = bit_or (bit_or (first * 2 ^ 6) (decode_sextet c) * 2 ^ 6) (decode_sextet d) in
    (value / 2 ^ 8 / 2 ^ 8 % 256) ∷ (value / 2 ^ 8 % 256) ∷ (value % 256) ∷ []

pub decode_three : ℕ → ℕ → ℕ → Bytes
decode_three a b c =
    let first = bit_or (decode_sextet a * 2 ^ 6) (decode_sextet b) in
    let value = bit_or (first * 2 ^ 6) (decode_sextet c) / 2 ^ 2 in
    (value / 2 ^ 8 % 256) ∷ (value % 256) ∷ []

pub decode_two : ℕ → ℕ → Bytes
decode_two a b =
    let value = bit_or (decode_sextet a * 2 ^ 6) (decode_sextet b) / 2 ^ 4 in (value % 256) ∷ []

-- The loop and the remainder. A remainder of one character is the failed `assert`.
unfoldable pub decode_base64_groups : Bytes → Bytes
unfolding decode_group decode_three decode_two decode_sextet
decode_base64_groups [] = []
decode_base64_groups (a ∷ []) = []
decode_base64_groups (a ∷ b ∷ []) = decode_two a b
decode_base64_groups (a ∷ b ∷ c ∷ []) = decode_three a b c
decode_base64_groups (a ∷ b ∷ c ∷ d ∷ rest) = decode_group a b c d ++ decode_base64_groups rest

unfoldable pub decode_base64 : Bytes → Option Bytes
unfolding decode_base64_length decode_base64_groups
decode_base64 input = elim (decode_base64_length (length input)) [
  | none ↦ none
  | some raw_length ↦ some (decode_base64_groups input)
]
