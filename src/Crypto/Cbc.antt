-- ===== src/Crypto/Cbc.antt =====
-- The CBC mode of src/crypto.cpp and its padding.
use olm.Base.{
  ℕ, zero, suc, ◌+◌, ◌-◌, ◌*◌, ◌/◌, ◌%◌, ◌≤◌, ◌<◌, bit_xor, Bytes, IsByte, IsBytes, IsBuffer, [],
  ◌∷◌, ◌++◌, length, take, drop, replicate, get_or, length-append, length-replicate, take-append,
  drop-append, length-take, length-drop, All-append, All-replicate, All-take, All-drop,
  take-append-drop, append_assoc, append-nil, get_or-append-replicate, ◌≡◌, refl, sym, ap, ap₂,
  arith, ◌∙◌,
}
use olm.Base.Bits.{bit_xor-lt, bit_xor_cancel, bit_xor_comm}
use olm.Crypto.External.{Primitives, PrimitiveLaws}
use olm.Crypto.{
  xor_block, aes_block_length, aes_encrypt_cbc_length, pad_block, cbc_encrypt_loop, aes_encrypt_cbc,
  cbc_decrypt_loop, aes_decrypt_cbc, plaintext,
}

length-xor_block : (block input : Bytes) → length (xor_block block input) ≡ length block
unfolding xor_block
length-xor_block [] input = refl
length-xor_block (b ∷ block) [] = refl
length-xor_block (b ∷ block) (x ∷ input) = ap suc (length-xor_block block input)

IsBytes-xor_block :
    (block input : Bytes) → IsBytes block → IsBytes input → IsBytes (xor_block block input)
unfolding xor_block
IsBytes-xor_block [] input h k = tt
IsBytes-xor_block (b ∷ block) [] h k = h
IsBytes-xor_block (b ∷ block) (x ∷ input) (hb, h) (hx, k) =
    (bit_xor-lt 8 b x hb hx, IsBytes-xor_block block input h k)

xor_block-IsBuffer :
    {n : ℕ} (block input : Bytes)
    → IsBuffer n block
    → IsBytes input
    → IsBuffer n (xor_block block input)
xor_block-IsBuffer block input h k =
    (length-xor_block block input ∙ h.0, IsBytes-xor_block block input h.1 k)

-- Mixing a block in, and the first one out again, leaves the second.
xor_block_cancel :
    (block input : Bytes)
    → length block ≡ length input
    → xor_block (xor_block block input) block ≡ input
unfolding xor_block
xor_block_cancel [] [] e = refl
xor_block_cancel [] (x ∷ input) e = absurd (omega arith)
xor_block_cancel (b ∷ block) [] e = absurd (omega arith)
xor_block_cancel (b ∷ block) (x ∷ input) e =
    ap₂ ◌∷◌ (ap (λ (t : ℕ). bit_xor t b) (bit_xor_comm b x) ∙ bit_xor_cancel x b)
      (xor_block_cancel block input (omega arith))

abbrev padding_of : Bytes → ℕ
padding_of input = aes_block_length - length input % aes_block_length

pad_block-IsBuffer :
    (input : Bytes) → length input < 16 → IsBytes input → IsBuffer 16 (pad_block input)
unfolding pad_block
pad_block-IsBuffer input h b = (
  omega (
    arith,
    length-append input (replicate (16 - length input) (16 - length input)),
    length-replicate (16 - length input) (16 - length input),
  ),
  All-append IsByte input _ b (All-replicate IsByte _ _ (omega arith)),
)

regroup :
    (input : Bytes)
    → 16 ≤ length input
    → take 16 input
        ++ (drop 16 input ++ replicate (padding_of (drop 16 input)) (padding_of (drop 16 input)))
      ≡ input ++ replicate (padding_of input) (padding_of input)
regroup input h =
    let same : padding_of (drop 16 input) ≡ padding_of input =
      omega (arith, length-drop 16 input) in
    rw (same, ← append_assoc, take-append-drop)

module _ (p : Primitives) (laws : PrimitiveLaws p) (key : Bytes) where
  abbrev Shaped : ℕ → Bytes → Type 0
  Shaped rounds input = (length input < 16 * rounds + 16) × (16 * rounds ≤ length input)

  cbc_encrypt_loop-IsBuffer :
      (rounds : ℕ) (block input : Bytes)
      → IsBuffer 16 block
      → IsBytes input
      → Shaped rounds input
      → IsBuffer (16 * rounds + 16) (cbc_encrypt_loop p rounds key block input)
  unfolding cbc_encrypt_loop
  cbc_encrypt_loop-IsBuffer zero block input hb hi s =
      laws.aes_encrypt-IsBuffer key _
        (xor_block-IsBuffer block _ hb (pad_block-IsBuffer input s.0 hi).1)
  cbc_encrypt_loop-IsBuffer (suc rounds) block input hb hi s =
      let output = p.aes_encrypt key (xor_block block (take 16 input)) in
      let here : IsBuffer 16 output =
        laws.aes_encrypt-IsBuffer key _
          (xor_block-IsBuffer block (take 16 input) hb (All-take IsByte 16 input hi)) in
      let there =
        cbc_encrypt_loop-IsBuffer rounds output (drop 16 input) here (All-drop IsByte 16 input hi)
          (omega (arith, length-drop 16 input)) in
      (
        omega (
          arith,
          length-append output (cbc_encrypt_loop p rounds key output (drop 16 input)),
          here,
          there,
        ),
        All-append IsByte output _ here.1 there.1,
      )

  cbc_decrypt_block :
      (block input : Bytes) (rounds : ℕ) (rest : Bytes)
      → IsBuffer 16 block
      → IsBuffer 16 input
      → cbc_decrypt_loop p
          (suc rounds)
          key
          block
          (p.aes_encrypt key (xor_block block input) ++ rest)
        ≡ input ++ cbc_decrypt_loop p rounds key (p.aes_encrypt key (xor_block block input)) rest
  unfolding cbc_decrypt_loop
  cbc_decrypt_block block input rounds rest hb hi =
      let mixed = xor_block-IsBuffer block input hb hi.1 in
      let full = (laws.aes_encrypt-IsBuffer key (xor_block block input) mixed).0 in
      rw (
        take-append 16 _ rest full,
        drop-append 16 _ rest full,
        laws.aes_decrypt-aes_encrypt key (xor_block block input) mixed,
        xor_block_cancel block input (hb.0 ∙ sym hi.0),
      )

  cbc_encrypt_loop-zero :
      (block input : Bytes)
      → cbc_encrypt_loop p 0 key block input
        ≡ p.aes_encrypt key (xor_block block (pad_block input)) ++ []
  unfolding cbc_encrypt_loop
  cbc_encrypt_loop-zero block input = sym (append-nil _)

  cbc_encrypt_loop-suc :
      (rounds : ℕ) (block input : Bytes)
      → cbc_encrypt_loop p (suc rounds) key block input
        ≡ p.aes_encrypt key (xor_block block (take 16 input))
          ++ cbc_encrypt_loop p rounds key
              (p.aes_encrypt key (xor_block block (take 16 input)))
              (drop 16 input)
  unfolding cbc_encrypt_loop
  cbc_encrypt_loop-suc rounds block input = refl

  -- Decryption gives the padded input back.
  cbc_decrypt_loop-cbc_encrypt_loop :
      (rounds : ℕ) (block input : Bytes)
      → IsBuffer 16 block
      → IsBytes input
      → Shaped rounds input
      → cbc_decrypt_loop p (suc rounds) key block (cbc_encrypt_loop p rounds key block input)
        ≡ input ++ replicate (padding_of input) (padding_of input)
  cbc_decrypt_loop-cbc_encrypt_loop zero block input hb hi s =
      let small : length input % 16 ≡ length input = omega arith in
      ap (cbc_decrypt_loop p 1 key block) (cbc_encrypt_loop-zero block input)
      ∙ cbc_decrypt_block block (pad_block input) 0 [] hb (pad_block-IsBuffer input s.0 hi)
      ∙ unfold cbc_decrypt_loop pad_block in rw (append-nil, small)
  cbc_decrypt_loop-cbc_encrypt_loop (suc rounds) block input hb hi s =
      let first = take 16 input in
      let output = p.aes_encrypt key (xor_block block first) in
      let full : IsBuffer 16 first =
        (omega (arith, length-take 16 input), All-take IsByte 16 input hi) in
      let here : IsBuffer 16 output =
        laws.aes_encrypt-IsBuffer key _ (xor_block-IsBuffer block first hb full.1) in
      ap (cbc_decrypt_loop p (suc (suc rounds)) key block) (cbc_encrypt_loop-suc rounds block input)
      ∙ cbc_decrypt_block block first (suc rounds)
          (cbc_encrypt_loop p rounds key output (drop 16 input)) hb full
      ∙ ap (λ (t : Bytes). first ++ t)
          (cbc_decrypt_loop-cbc_encrypt_loop rounds output (drop 16 input) here
            (All-drop IsByte 16 input hi) (omega (arith, length-drop 16 input)))
      ∙ regroup input (omega arith)

  -- The padding test passes on whole blocks that end in their padding.
  strip_padding :
      (iv input encrypted : Bytes) (n pad : ℕ)
      → length encrypted ≡ 16 * n + 16
      → cbc_decrypt_loop p (suc n) key iv encrypted ≡ input ++ replicate pad pad
      → length input + pad ≡ 16 * n + 16
      → 0 < pad
      → aes_decrypt_cbc p key iv encrypted ≡ plaintext input
  unfolding aes_decrypt_cbc
  strip_padding iv input encrypted n pad whole decrypted total some_padding =
      let rounds : length encrypted / 16 ≡ suc n = omega arith in
      let last : get_or (input ++ replicate pad pad) (length encrypted - 1) 0 ≡ pad =
        get_or-append-replicate input pad (length encrypted - 1) pad 0 (omega arith)
          (omega arith) in
      let text : take (length encrypted - pad) (input ++ replicate pad pad) ≡ input =
        take-append (length encrypted - pad) input (replicate pad pad) (omega arith) in
      rw (rounds, decrypted, last, text) (ground arith)

  module _ (iv input : Bytes) (hiv : IsBuffer 16 iv) (hi : IsBytes input) where
    -- The ciphertext is whole blocks, as many bytes as `aes_encrypt_cbc_length` says.
    pub aes_encrypt_cbc-IsBuffer :
        IsBuffer (aes_encrypt_cbc_length (length input)) (aes_encrypt_cbc p key iv input)
    unfolding aes_encrypt_cbc aes_encrypt_cbc_length
    aes_encrypt_cbc-IsBuffer =
        let whole = cbc_encrypt_loop-IsBuffer (length input / 16) iv input hiv hi (omega arith) in
        (omega (arith, whole.0), whole.1)

    -- With primitives that keep the stated laws: For an input of bytes and an initialisation
    -- vector of 16 bytes, decrypting what `aes_encrypt_cbc` wrote, under the same key and vector,
    -- returns the input, its padding removed.
    pub aes_decrypt_cbc-aes_encrypt_cbc :
        aes_decrypt_cbc p key iv (aes_encrypt_cbc p key iv input) ≡ plaintext input
    unfolding aes_encrypt_cbc
    aes_decrypt_cbc-aes_encrypt_cbc =
        strip_padding iv input _ (length input / 16) (padding_of input)
          (cbc_encrypt_loop-IsBuffer (length input / 16) iv input hiv hi (omega arith)).0
          (cbc_decrypt_loop-cbc_encrypt_loop (length input / 16) iv input hiv hi (omega arith))
          (omega arith) (omega arith)
