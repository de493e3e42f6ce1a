-- ===== src/Base64/RoundTrip.antt =====
-- Encoding and decoding of src/base64.cpp, and the lengths.
use olm.Base.{
  ℕ, ◌+◌, ◌-◌, ◌*◌, ◌/◌, ◌%◌, ◌≡◌, ◌≢◌, Bool-cases, inl, inr, ==_iff, refl, ap, ◌∙◌, arith, Bytes,
  IsByte, IsBytes, Option, none, some, [], ◌∷◌, ◌++◌, length, length-append, All-append, ◌==◌,
}
use olm.Base64.{
  encode_base64_length, encode_group, encode_base64, decode_base64_length, decode_group,
  decode_base64_groups, decode_base64,
}
use olm.Base64.Groups.{
  decode_base64_groups-cons, decode_group-append, decode_two-encode_two, decode_one-encode_one,
}

encode_base64-cons :
    (a b c : ℕ) (rest : Bytes)
    → encode_base64 (a ∷ b ∷ c ∷ rest) ≡ encode_group a b c ++ encode_base64 rest
unfolding encode_base64
encode_base64-cons a b c rest = refl

length-encode_group : (a b c : ℕ) → length (encode_group a b c) ≡ 4
unfolding encode_group
length-encode_group a b c = refl

length-decode_group : (a b c d : ℕ) → length (decode_group a b c d) ≡ 3
unfolding decode_group
length-decode_group a b c d = refl

pub decode_base64_groups-encode_base64 :
    (input : Bytes) → IsBytes input → decode_base64_groups (encode_base64 input) ≡ input
decode_base64_groups-encode_base64 [] h = unfold decode_base64_groups encode_base64 in refl
decode_base64_groups-encode_base64 (a ∷ []) h = unfold encode_base64 in decode_one-encode_one a h.0
decode_base64_groups-encode_base64 (a ∷ b ∷ []) h =
    unfold encode_base64 in decode_two-encode_two a b h.0 h.1.0
decode_base64_groups-encode_base64 (a ∷ b ∷ c ∷ rest) (ha, (hb, (hc, hrest))) =
    rw (encode_base64-cons, decode_group-append a b c (encode_base64 rest) ha hb hc)
      (ap (λ (xs : Bytes). a ∷ b ∷ c ∷ xs) (decode_base64_groups-encode_base64 rest hrest))

-- `encode_base64` writes exactly as many characters as `encode_base64_length` announces.
pub length-encode_base64 :
    (input : Bytes) → length (encode_base64 input) ≡ encode_base64_length (length input)
unfolding encode_base64_length
length-encode_base64 [] = unfold encode_base64 in refl
length-encode_base64 (a ∷ []) = unfold encode_base64 in refl
length-encode_base64 (a ∷ b ∷ []) = unfold encode_base64 in refl
length-encode_base64 (a ∷ b ∷ c ∷ rest) =
    rw (encode_base64-cons, length-append)
      (omega (arith, length-encode_group a b c, length-encode_base64 rest))

length-encode_base64-mod : (input : Bytes) → length (encode_base64 input) % 4 ≢ 1
length-encode_base64-mod input =
    unfold encode_base64_length in omega (arith, length-encode_base64 input)

pub decode_base64_length-encode_base64 :
    (input : Bytes) → decode_base64_length (length (encode_base64 input)) ≡ some (length input)
unfolding decode_base64_length encode_base64_length
decode_base64_length-encode_base64 input = rw (length-encode_base64 input) (ground arith)

decode_base64-some :
    (input : Bytes) → length input % 4 ≢ 1 → decode_base64 input ≡ some (decode_base64_groups input)
unfolding decode_base64 decode_base64_length
decode_base64-some input h = ground arith

-- Every buffer of bytes is decoded from its encoding, whose length the decoder does not refuse.
pub decode_base64-encode_base64 :
    (input : Bytes) → IsBytes input → decode_base64 (encode_base64 input) ≡ some input
decode_base64-encode_base64 input h =
    decode_base64-some (encode_base64 input) (length-encode_base64-mod input)
    ∙ ap some (decode_base64_groups-encode_base64 input h)

length-decode_base64_groups :
    (input : Bytes)
    → length input % 4 ≢ 1
    → length (decode_base64_groups input)
      ≡ 3 * ((length input + 2) / 4) + (length input + 2) % 4 - 2
length-decode_base64_groups [] h = unfold decode_base64_groups in refl
length-decode_base64_groups (a ∷ []) h = absurd (omega arith)
length-decode_base64_groups (a ∷ b ∷ []) h = unfold decode_base64_groups in refl
length-decode_base64_groups (a ∷ b ∷ c ∷ []) h = unfold decode_base64_groups in refl
length-decode_base64_groups (a ∷ b ∷ c ∷ d ∷ rest) h =
    rw (decode_base64_groups-cons, length-append)
      (omega (arith, length-decode_group a b c d, length-decode_base64_groups rest (omega arith)))

IsBytes-decode_base64_groups : (input : Bytes) → IsBytes (decode_base64_groups input)
IsBytes-decode_base64_groups [] = unfold decode_base64_groups in tt
IsBytes-decode_base64_groups (a ∷ []) = unfold decode_base64_groups in tt
IsBytes-decode_base64_groups (a ∷ b ∷ []) = unfold decode_base64_groups in omega arith
IsBytes-decode_base64_groups (a ∷ b ∷ c ∷ []) = unfold decode_base64_groups in omega arith
IsBytes-decode_base64_groups (a ∷ b ∷ c ∷ d ∷ rest) = rw decode_base64_groups-cons (
    All-append IsByte (decode_group a b c d) (decode_base64_groups rest)
      (unfold decode_group in omega arith) (IsBytes-decode_base64_groups rest))

-- What `decode_base64` does with any characters at all, in or out of the alphabet.
abbrev pub DecodesTo : Bytes → Option Bytes → Type 0
DecodesTo input none = (length input % 4 ≡ 1) × (decode_base64_length (length input) ≡ none)
DecodesTo input (some output) =
    (decode_base64_length (length input) ≡ some (length output)) × IsBytes output

-- On every input, `decode_base64` refuses exactly where `decode_base64_length` does, which is at
-- lengths that are 1 modulo 4, and otherwise returns bytes, as many as that function announces.
pub decode_base64-DecodesTo : (input : Bytes) → DecodesTo input (decode_base64 input)
unfolding decode_base64_length
decode_base64-DecodesTo input = elim (Bool-cases (length input % 4 == 1)) [
  | inl bad ↦ unfold decode_base64 in rw (bad, DecodesTo) ((==_iff _ _).0 bad, ground arith)
  | inr good ↦
      rw (decode_base64-some input (ground arith))
        (ground (arith, length-decode_base64_groups input), IsBytes-decode_base64_groups input)
]
