-- ===== src/Message/Varint.antt =====
-- The variable-length numbers of src/message.cpp: writing, measuring, skipping and reading.
use olm.Base.{
  ℕ, zero, suc, ◌+◌, ◌*◌, ◌/◌, ◌%◌, ◌^◌, ◌≤◌, ◌<◌, bit_and, bit_or, Bytes, IsBytes, [], ◌∷◌, ◌++◌,
  length, ltb, Bool-cases, inl, inr, ltb→lt, ltb→le, lt→ltb, le→ltb, ◌≡◌, refl, sym, ap, arith, ◌∙◌,
}
use native.Mathlib.Nat.{mod-eq_of_lt, one-le-pow}
use olm.Base.Bits.{bit_or_fields, bit_and_mask, bit_and_comm, bit_or_comm, bit_and_bit}
use olm.Message.{
  varint_length_loop, varint_length, varint_encode_loop, varint_encode, varint_decode, varint_skip,
}

low_group : (b : ℕ) → bit_and 0x7f b ≡ b % 128
low_group b = bit_and_comm 0x7f b ∙ bit_and_mask 7 b

-- A byte that says that more follow.
inner_byte : (value : ℕ) → bit_or (bit_and 0x7f value) 0x80 % 256 ≡ value % 128 + 128
inner_byte value =
    rw (low_group value, bit_or_comm (value % 128) 0x80)
      (omega (arith, bit_or_fields 7 1 (value % 128) (omega arith)))

encode_last : (fuel value : ℕ) → value < 128 → varint_encode_loop fuel value ≡ value ∷ []
unfolding varint_encode_loop
encode_last zero value h = let e : value % 256 ≡ value = omega arith in rw e
encode_last (suc fuel) value h =
    let e : value % 256 ≡ value = omega arith in rw (lt→ltb value 128 h, e)

encode_more :
    (fuel value : ℕ)
    → 128 ≤ value
    → varint_encode_loop (suc fuel) value
      ≡ (value % 128 + 128) ∷ varint_encode_loop fuel (value / 128)
unfolding varint_encode_loop
encode_more fuel value h = rw (le→ltb value 128 h, inner_byte value)

skip_last : (b : ℕ) (rest : Bytes) → b < 128 → varint_skip (b ∷ rest) ≡ (b ∷ [], rest)
unfolding varint_skip
skip_last b rest h = ground (arith, bit_and_bit 7 b)

skip_more :
    (b : ℕ) (pos skipped rest : Bytes)
    → 128 ≤ b
    → b < 256
    → varint_skip pos ≡ (skipped, rest)
    → varint_skip (b ∷ pos) ≡ (b ∷ skipped, rest)
unfolding varint_skip
skip_more b pos skipped rest lo hi e = ground (arith, bit_and_bit 7 b)

-- Skipping stops right behind a number that was written.
skip_loop :
    (fuel value : ℕ) (rest : Bytes)
    → value ≤ fuel
    → varint_skip (varint_encode_loop fuel value ++ rest) ≡ (varint_encode_loop fuel value, rest)
skip_loop zero value rest h =
    rw (encode_last zero value (omega arith)) (skip_last value rest (omega arith))
skip_loop (suc fuel) value rest h = elim (Bool-cases (ltb value 128)) [
  | inl small ↦
      let lt = ltb→lt value 128 small in
      rw (encode_last (suc fuel) value lt) (skip_last value rest lt)
  | inr large ↦ rw (encode_more fuel value (ltb→le value 128 large)) (
      skip_more (value % 128 + 128) (varint_encode_loop fuel (value / 128) ++ rest)
        (varint_encode_loop fuel (value / 128)) rest (omega arith) (omega arith)
        (skip_loop fuel (value / 128) rest (omega (arith, ltb→le value 128 large))))
]

decode_cons :
    (width b : ℕ) (bytes : Bytes) (high : ℕ)
    → varint_decode width bytes ≡ high
    → high * 128 < 2 ^ width
    → varint_decode width (b ∷ bytes) ≡ high * 128 + b % 128
unfolding varint_decode
decode_cons width b bytes high e fits =
    rw (e, low_group b, mod-eq_of_lt fits) (bit_or_fields 7 high (b % 128) (omega arith))

decode_last : (width b : ℕ) → b < 128 → varint_decode width (b ∷ []) ≡ b
decode_last width b h =
    decode_cons width b [] 0 (unfold varint_decode in refl) (one-le-pow width 2 (omega arith))
    ∙ omega arith

-- Reading the bytes gives the number back, in a type that holds it.
decode_loop :
    (width fuel value : ℕ)
    → value ≤ fuel
    → value < 2 ^ width
    → varint_decode width (varint_encode_loop fuel value) ≡ value
decode_loop width zero value h fits =
    rw (encode_last zero value (omega arith)) (decode_last width value (omega arith))
decode_loop width (suc fuel) value h fits = elim (Bool-cases (ltb value 128)) [
  | inl small ↦
      let lt = ltb→lt value 128 small in
      rw (encode_last (suc fuel) value lt) (decode_last width value lt)
  | inr large ↦
      let le = ltb→le value 128 large in
      rw (encode_more fuel value le) (
        decode_cons width (value % 128 + 128) (varint_encode_loop fuel (value / 128)) (value / 128)
          (decode_loop width fuel (value / 128) (omega arith) (omega arith)) (omega arith)
        ∙ omega arith)
]

length_loop-suc :
    (fuel value result : ℕ)
    → varint_length_loop fuel value (suc result) ≡ suc (varint_length_loop fuel value result)
unfolding varint_length_loop
length_loop-suc zero value result = refl
length_loop-suc (suc fuel) value result =
    let e : suc result + 1 ≡ suc (result + 1) = omega arith in
    elim (Bool-cases (ltb value 128)) [
      | inl small ↦ rw small refl
      | inr large ↦ rw (large, e) (length_loop-suc fuel (value / 128) (result + 1))
    ]

length-encode_loop :
    (fuel value : ℕ) → length (varint_encode_loop fuel value) ≡ varint_length_loop fuel value 1
unfolding varint_length_loop varint_encode_loop
length-encode_loop zero value = refl
length-encode_loop (suc fuel) value = elim (Bool-cases (ltb value 128)) [
  | inl small ↦ rw small refl
  | inr large ↦ rw large (
      ap suc (length-encode_loop fuel (value / 2 ^ 7))
      ∙ sym (length_loop-suc fuel (value / 2 ^ 7) 1))
]

IsBytes-encode_loop : (fuel value : ℕ) → IsBytes (varint_encode_loop fuel value)
unfolding varint_encode_loop
IsBytes-encode_loop zero value = omega arith
IsBytes-encode_loop (suc fuel) value = elim (Bool-cases (ltb value 128)) [
  | inl small ↦ rw small (omega arith)
  | inr large ↦ rw large (omega arith, IsBytes-encode_loop fuel (value / 2 ^ 7))
]

-- In front of any bytes, `varint_skip` passes over the encoding of a value and nothing else.
pub varint_skip-varint_encode :
    (value : ℕ) (rest : Bytes)
    → varint_skip (varint_encode value ++ rest) ≡ (varint_encode value, rest)
unfolding varint_encode
varint_skip-varint_encode value rest = skip_loop value value rest (omega arith)

-- A value that fits `width` bits is decoded from its encoding into `width` bits.
pub varint_decode-varint_encode :
    (width value : ℕ) → value < 2 ^ width → varint_decode width (varint_encode value) ≡ value
unfolding varint_encode
varint_decode-varint_encode width value fits = decode_loop width value value (omega arith) fits

pub length-varint_encode : (value : ℕ) → length (varint_encode value) ≡ varint_length value
unfolding varint_encode varint_length
length-varint_encode value = length-encode_loop value value

pub IsBytes-varint_encode : (value : ℕ) → IsBytes (varint_encode value)
unfolding varint_encode
IsBytes-varint_encode value = IsBytes-encode_loop value value
