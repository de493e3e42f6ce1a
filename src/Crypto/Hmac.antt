-- ===== src/Crypto/Hmac.antt =====
-- HMAC and HKDF of src/crypto.cpp, and HKDF against the blocks T(1), T(2), … of RFC 5869.
use olm.Base.{
  lt→ltb, le→ltb, append_assoc, ℕ, zero, suc, ◌+◌, ◌-◌, ◌*◌, ◌≤◌, ◌<◌, Bytes, IsByte, IsBuffer,
  Option, none, some, [], ◌∷◌, ◌++◌, length, take, ltb, length-append, length-take,
  take-append_more, take-append_less, All-append, All-take, Bool-cases, inl, inr, ltb→lt, ltb→le,
  ◌≡◌, refl, sym, ap, arith, ◌∙◌,
}
use native.Mathlib.Nat.{mod-eq_of_lt}
use olm.Crypto.External.{Primitives, PrimitiveLaws}
use olm.Crypto.{
  hmac_sha256_key, hmac_sha256_init, hmac_sha256_final, hmac_sha256, hkdf_loop, hkdf_sha256,
  hkdf_default_salt,
}

module _ (p : Primitives) (laws : PrimitiveLaws p) where
  pub hmac_sha256-IsBuffer : (key input : Bytes) → IsBuffer 32 (hmac_sha256 p key input)
  unfolding hmac_sha256 hmac_sha256_final
  hmac_sha256-IsBuffer key input = laws.sha256-IsBuffer _

module _ (p : Primitives) where
  -- T(i) ‖ T(i + 1) ‖ …, `n` blocks of them, where `t` is T(i).
  pub expand : Bytes → Bytes → ℕ → ℕ → Bytes → Bytes
  expand prk info zero i t = []
  expand prk info (suc n) i t =
      t ++ expand prk info n (i + 1) (hmac_sha256 p prk ((t ++ info) ++ (i + 1) ∷ []))

  -- RFC 5869: extract, then the first `n` blocks.
  pub extract : Bytes → Bytes → Bytes
  extract salt input = hmac_sha256 p salt input

  pub okm : Bytes → Bytes → ℕ → Bytes
  okm prk info n = expand prk info n 1 (hmac_sha256 p prk (info ++ 1 ∷ []))

module _ (p : Primitives) (prk info : Bytes) where
  -- The code feeds the context piece by piece.
  feed_three :
      (t : Bytes) (i : ℕ)
      → hmac_sha256_final p
          (((hmac_sha256_init (hmac_sha256_key p prk) ++ t) ++ info) ++ i ∷ [])
          (hmac_sha256_key p prk)
        ≡ hmac_sha256 p prk ((t ++ info) ++ i ∷ [])
  unfolding hmac_sha256
  feed_three t i = simp append_assoc

  pub feed_two :
      hmac_sha256_final p
        ((hmac_sha256_init (hmac_sha256_key p prk) ++ info) ++ 1 ∷ [])
        (hmac_sha256_key p prk)
      ≡ hmac_sha256 p prk (info ++ 1 ∷ [])
  unfolding hmac_sha256
  feed_two = simp append_assoc

  hkdf_loop_last :
      (fuel remaining i : ℕ) (t : Bytes)
      → remaining ≤ 32
      → hkdf_loop p fuel remaining (hmac_sha256_key p prk) info i t ≡ take remaining t
  unfolding hkdf_loop
  hkdf_loop_last zero remaining i t h = refl
  hkdf_loop_last (suc fuel) remaining i t h = rw (le→ltb 32 remaining h, hkdf_loop)

  hkdf_loop_more :
      (fuel remaining i : ℕ) (t : Bytes)
      → 32 < remaining
      → i + 1 < 256
      → hkdf_loop p (suc fuel) remaining (hmac_sha256_key p prk) info i t
        ≡ t
          ++ hkdf_loop p fuel
              (remaining - 32)
              (hmac_sha256_key p prk)
              info
              (i + 1)
              (hmac_sha256 p prk ((t ++ info) ++ (i + 1) ∷ []))
  unfolding hkdf_loop
  hkdf_loop_more fuel remaining i t h small =
      rw (lt→ltb 32 remaining h, hkdf_loop) (rw (mod-eq_of_lt small, feed_three t (i + 1)))

module _ (p : Primitives) (laws : PrimitiveLaws p) (prk info : Bytes) where
  hkdf_loop-expand :
      (fuel remaining n i : ℕ) (t : Bytes)
      → remaining ≤ fuel
      → remaining ≤ 32 * n
      → 0 < n
      → i + n ≤ 256
      → IsBuffer 32 t
      → hkdf_loop p fuel remaining (hmac_sha256_key p prk) info i t
        ≡ take remaining (expand p prk info n i t)
  unfolding expand
  hkdf_loop-expand fuel remaining zero i t hf hr hn hi ht = absurd (omega arith)
  hkdf_loop-expand zero remaining (suc n) i t hf hr hn hi ht =
      hkdf_loop_last p prk info 0 remaining i t (omega arith)
      ∙ sym (take-append_less remaining t _ (omega (arith, ht.0)))
  hkdf_loop-expand (suc fuel) remaining (suc n) i t hf hr hn hi ht =
      elim (Bool-cases (ltb 32 remaining)) [
        | inr few ↦
            hkdf_loop_last p prk info (suc fuel) remaining i t (ltb→le 32 remaining few)
            ∙ sym (take-append_less remaining t _ (omega (arith, ltb→le 32 remaining few, ht.0)))
        | inl many ↦
            let more : 32 < remaining = ltb→lt 32 remaining many in
            let t' = hmac_sha256 p prk ((t ++ info) ++ (i + 1) ∷ []) in
            let cut : remaining - length t ≡ remaining - 32 = omega (arith, ht.0) in
            hkdf_loop_more p prk info fuel remaining i t more (omega arith)
            ∙ ap (λ (r : Bytes). t ++ r)
                (hkdf_loop-expand fuel (remaining - 32) n (i + 1) t' (omega arith) (omega arith)
                  (omega arith) (omega arith) (hmac_sha256-IsBuffer p laws prk _))
            ∙ sym (
                take-append_more remaining t (expand p prk info n (i + 1) t') (omega (arith, ht.0))
                ∙ ap (λ (m : ℕ). t ++ take m (expand p prk info n (i + 1) t')) cut)
      ]

  IsBytes-expand :
      (n i : ℕ) (t : Bytes) → IsBuffer 32 t → IsBuffer (32 * n) (expand p prk info n i t)
  unfolding expand
  IsBytes-expand zero i t ht = (refl, tt)
  IsBytes-expand (suc n) i t ht =
      let t' = hmac_sha256 p prk ((t ++ info) ++ (i + 1) ∷ []) in
      let rest = IsBytes-expand n (i + 1) t' (hmac_sha256-IsBuffer p laws prk _) in
      (
        omega (arith, length-append t (expand p prk info n (i + 1) t'), ht.0, rest.0),
        All-append IsByte t _ ht.1 rest.1,
      )

abbrev pub default_salt : Option Bytes → Bytes
default_salt salt = elim salt [ none ↦ hkdf_default_salt | some s ↦ s ]

module _ (p : Primitives) (laws : PrimitiveLaws p) (input info : Bytes) (salt : Option Bytes) where
  -- With primitives that keep the stated laws: For an output of at most 32 * n bytes with 1 <= n
  -- <= 255, `hkdf_sha256` returns the front of the first `n` blocks of RFC 5869, extract then
  -- expand, with 32 zeros for a salt that is not given.
  pub hkdf_sha256-eq-okm :
      (output_length n : ℕ)
      → 0 < n
      → n ≤ 255
      → output_length ≤ 32 * n
      → hkdf_sha256 p input salt info output_length
        ≡ take output_length (okm p (extract p (default_salt salt) input) info n)
  unfolding hkdf_sha256 okm extract hmac_sha256
  hkdf_sha256-eq-okm output_length n hn hi hl =
      let prk = hmac_sha256 p (default_salt salt) input in
      ap (hkdf_loop p output_length output_length (hmac_sha256_key p prk) info 1)
        (feed_two p prk info)
      ∙ hkdf_loop-expand p laws prk info output_length output_length n 1
          (hmac_sha256 p prk (info ++ 1 ∷ [])) (omega arith) hl hn (omega arith)
          (hmac_sha256-IsBuffer p laws prk _)

  pub hkdf_sha256-IsBuffer :
      (output_length : ℕ)
      → output_length ≤ 8160
      → IsBuffer output_length (hkdf_sha256 p input salt info output_length)
  unfolding okm
  hkdf_sha256-IsBuffer output_length hl =
      let prk = extract p (default_salt salt) input in
      let whole =
        IsBytes-expand p laws prk info 255 1 _ (hmac_sha256-IsBuffer p laws prk (info ++ 1 ∷ [])) in
      let same = hkdf_sha256-eq-okm output_length 255 (omega arith) (omega arith) hl in
      rw same (
        omega (arith, length-take output_length (okm p prk info 255), whole.0),
        All-take IsByte output_length _ whole.1,
      )
