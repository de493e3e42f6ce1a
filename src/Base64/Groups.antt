-- ===== src/Base64/Groups.antt =====
-- One group of src/base64.cpp at a time, as arithmetic on sextets.
use olm.Base.{ℕ, ◌+◌, ◌*◌, ◌/◌, ◌%◌, ◌^◌, ◌<◌, ◌≡◌, refl, arith, bit_or, Bytes, [], ◌∷◌, ◌++◌}
use olm.Base.Bits.{bit_or_fields, bit_and_mask}
use olm.Base64.{
  encode_sextet, encode_group, encode_two, encode_one, decode_group, decode_three, decode_two,
  decode_base64_groups,
}
use olm.Base64.Table.{decode_sextet-encode_sextet}

-- Four sextets that are read back give the number that they were cut from.
decode_group-sextets :
    (s t u v : ℕ)
    → s < 64
    → t < 64
    → u < 64
    → v < 64
    → decode_group (encode_sextet s) (encode_sextet t) (encode_sextet u) (encode_sextet v)
      ≡ ((s * 4 + t / 16) ∷ (t % 16 * 16 + u / 4) ∷ (u % 4 * 64 + v) ∷ [])
unfolding decode_group
decode_group-sextets s t u v hs ht hu hv =
    rw
      (
        decode_sextet-encode_sextet s hs,
        decode_sextet-encode_sextet t ht,
        decode_sextet-encode_sextet u hu,
        decode_sextet-encode_sextet v hv,
        bit_or_fields 6 s t ht,
        bit_or_fields 6 (s * 2 ^ 6 + t) u hu,
        bit_or_fields 6 ((s * 2 ^ 6 + t) * 2 ^ 6 + u) v hv,
      )
      (ground arith)

group_value :
    (a b c : ℕ)
    → b < 256
    → c < 256
    → bit_or (bit_or (a * 2 ^ 8) b * 2 ^ 8) c ≡ a * 65536 + b * 256 + c
group_value a b c hb hc =
    omega (arith, bit_or_fields 8 (bit_or (a * 2 ^ 8) b) c hc, bit_or_fields 8 a b hb)

encode_group-sextets :
    (a b c : ℕ)
    → b < 256
    → c < 256
    → encode_group a b c ≡ (
        encode_sextet (a / 4)
        ∷ encode_sextet (a % 4 * 16 + b / 16)
        ∷ encode_sextet (b % 16 * 4 + c / 64)
        ∷ encode_sextet (c % 64)
        ∷ [])
unfolding encode_group
encode_group-sextets a b c hb hc =
    rw (group_value a b c hb hc) (simp (bit_and_mask 6) (ground arith))

encode_two-sextets :
    (a b : ℕ)
    → b < 256
    → encode_two a b ≡ (
        encode_sextet (a / 4)
        ∷ encode_sextet (a % 4 * 16 + b / 16)
        ∷ encode_sextet (b % 16 * 4)
        ∷ [])
unfolding encode_two
encode_two-sextets a b hb = rw (bit_or_fields 8 a b hb) (simp (bit_and_mask 6) (ground arith))

encode_one-sextets :
    (a : ℕ) → encode_one a ≡ (encode_sextet (a / 4) ∷ encode_sextet (a % 4 * 16) ∷ [])
unfolding encode_one
encode_one-sextets a = simp (bit_and_mask 6) (ground arith)

decode_three-sextets :
    (s t u : ℕ)
    → s < 64
    → t < 64
    → u < 64
    → decode_three (encode_sextet s) (encode_sextet t) (encode_sextet u)
      ≡ ((s * 4 + t / 16) ∷ (t % 16 * 16 + u / 4) ∷ [])
unfolding decode_three
decode_three-sextets s t u hs ht hu =
    rw
      (
        decode_sextet-encode_sextet s hs,
        decode_sextet-encode_sextet t ht,
        decode_sextet-encode_sextet u hu,
        bit_or_fields 6 s t ht,
        bit_or_fields 6 (s * 2 ^ 6 + t) u hu,
      )
      (ground arith)

decode_two-sextets :
    (s t : ℕ)
    → s < 64
    → t < 64
    → decode_two (encode_sextet s) (encode_sextet t) ≡ (s * 4 + t / 16) ∷ []
unfolding decode_two
decode_two-sextets s t hs ht =
    rw (decode_sextet-encode_sextet s hs, decode_sextet-encode_sextet t ht, bit_or_fields 6 s t ht)
      (ground arith)

pub decode_base64_groups-cons :
    (a b c d : ℕ) (rest : Bytes)
    → decode_base64_groups (a ∷ b ∷ c ∷ d ∷ rest)
      ≡ decode_group a b c d ++ decode_base64_groups rest
unfolding decode_base64_groups
decode_base64_groups-cons a b c d rest = refl

-- Appending to a whole group of characters prepends its three bytes.
pub decode_group-append :
    (a b c : ℕ) (rest : Bytes)
    → a < 256
    → b < 256
    → c < 256
    → decode_base64_groups (encode_group a b c ++ rest) ≡ a ∷ b ∷ c ∷ decode_base64_groups rest
decode_group-append a b c rest ha hb hc =
    rw
      (
        encode_group-sextets a b c hb hc,
        decode_base64_groups-cons,
        decode_group-sextets (a / 4) (a % 4 * 16 + b / 16) (b % 16 * 4 + c / 64) (c % 64)
            (omega arith) (omega arith) (omega arith) (omega arith),
      )
      (ground arith)

pub decode_two-encode_two :
    (a b : ℕ) → a < 256 → b < 256 → decode_base64_groups (encode_two a b) ≡ a ∷ b ∷ []
unfolding decode_base64_groups
decode_two-encode_two a b ha hb = rw (encode_two-sextets a b hb) (
    rw
      (decode_three-sextets (a / 4) (a % 4 * 16 + b / 16) (b % 16 * 4) (omega arith) (omega arith)
        (omega arith))
      (ground arith))

pub decode_one-encode_one : (a : ℕ) → a < 256 → decode_base64_groups (encode_one a) ≡ a ∷ []
unfolding decode_base64_groups
decode_one-encode_one a ha =
    rw (encode_one-sextets a)
      (rw (decode_two-sextets (a / 4) (a % 4 * 16) (omega arith) (omega arith)) (ground arith))
