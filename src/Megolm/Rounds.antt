-- ===== src/Megolm/Rounds.antt =====
-- The four rounds of the loop in `megolm_advance_to` of src/megolm.c, at their widths.
use olm.Base.{ℕ, ◌+◌, ◌-◌, ◌*◌, ◌/◌, ◌%◌, ◌^◌, ◌≤◌, ◌<◌, bit_and, ◌≡◌, ◌≢◌, sym, ap, arith, ◌∙◌}
use native.Mathlib.Nat.{div-add-mod, div-add-mod', mod-lt, one-le-pow}
use olm.Base.Bits.{bit_and_mask, bit_and_shifted}
use olm.Crypto.External.{Primitives}
use olm.Megolm.{Parts, Megolm, rehash_down, steps_of, advance_part}
use olm.Megolm.Levels.{level, Agree, rehash_down_above}
use olm.Megolm.Runs.{run}
use olm.Megolm.Stage.{Reached, advance_part-Reached}

-- Off the multiples of its width a part is left alone.
miss_0 : (k : ℕ) → k % 2 ^ 24 ≢ 0 → (0 < level k) × (level k < 4)
miss_0 k h = ground arith

miss_1 : (k : ℕ) → k % 2 ^ 16 ≢ 0 → (1 < level k) × (level k < 4)
miss_1 k h = ground arith

miss_2 : (k : ℕ) → k % 2 ^ 8 ≢ 0 → (2 < level k) × (level k < 4)
miss_2 k h = ground arith

-- On them it is due, unless an earlier part is.
due_0 : (n : ℕ) → level (2 ^ 24 * n) ≡ 0
due_0 n = ground arith

due_1 : (n : ℕ) → n % 256 ≢ 0 → level (2 ^ 16 * n) ≡ 1
due_1 n h = ground arith

due_2 : (n : ℕ) → n % 256 ≢ 0 → level (2 ^ 8 * n) ≡ 2
due_2 n h = ground arith

due_3 : (n : ℕ) → n % 256 ≢ 0 → level (1 * n) ≡ 3
due_3 n h = ground arith

-- How many multiples lie between two counters, as the code computes it.
steps_0 :
    (k t : ℕ)
    → k ≤ t
    → t < k + 2 ^ 32
    → steps_of 24 (t % 2 ^ 32) (k % 2 ^ 32) ≡ t / 2 ^ 24 - k / 2 ^ 24
unfolding steps_of
steps_0 k t h near = rw (bit_and_mask 8) (ground arith)

steps_1 :
    (k t : ℕ)
    → k ≤ t
    → t / 2 ^ 24 ≡ k / 2 ^ 24
    → steps_of 16 (t % 2 ^ 32) (k % 2 ^ 32) ≡ t / 2 ^ 16 - k / 2 ^ 16
unfolding steps_of
steps_1 k t h near = rw (bit_and_mask 8) (ground arith)

steps_2 :
    (k t : ℕ)
    → k ≤ t
    → t / 2 ^ 16 ≡ k / 2 ^ 16
    → steps_of 8 (t % 2 ^ 32) (k % 2 ^ 32) ≡ t / 2 ^ 8 - k / 2 ^ 8
unfolding steps_of
steps_2 k t h near = rw (bit_and_mask 8) (ground arith)

steps_3 : (k t : ℕ) → k ≤ t → t / 2 ^ 8 ≡ k / 2 ^ 8 → steps_of 0 (t % 2 ^ 32) (k % 2 ^ 32) ≡ t - k
unfolding steps_of
steps_3 k t h near = rw (bit_and_mask 8) (ground arith)

-- `advance_to & mask` clears the bits below the part's shift.
high_mask : (s n x : ℕ) → bit_and x ((2 ^ n - 1) * 2 ^ s) ≡ x / 2 ^ s % 2 ^ n * 2 ^ s
high_mask s n x =
    let some_bits : 0 < 2 ^ s = one-le-pow s 2 (omega arith) in
    ap (λ (t : ℕ). bit_and t ((2 ^ n - 1) * 2 ^ s)) (sym (div-add-mod' x (2 ^ s)))
    ∙ bit_and_shifted s (x / 2 ^ s) (x % 2 ^ s) (2 ^ n - 1) (mod-lt x some_bits)
    ∙ ap (λ (t : ℕ). t * 2 ^ s) (bit_and_mask n (x / 2 ^ s))

-- The state after round `j`: the ratchet has run from `k` to a counter in the block of `target`.
pub record Ran (p : Primitives) (width k target : ℕ) (d : Parts) (m : Megolm) : Type 0 where
  pub end : ℕ
  pub forward : k ≤ end
  pub not_past : end ≤ target
  pub same_block : target / width ≡ end / width
  pub reached : m ≡ record { data_parts = run p (end - k) k d; counter = end % 2 ^ 32 }

glue : (width t : ℕ) → width * (t / width) + t % width ≡ t
glue width t = div-add-mod t width

block_of : (width u offset : ℕ) → offset < width → (width * u + offset) / width ≡ u
block_of width u offset h = grind arith

div_mono : (width k t : ℕ) → k ≤ t → k / width ≤ t / width
div_mono width k t h = grind arith

module _ (p : Primitives) (j width : ℕ) (lt : j < 4) (pos : 0 < width)
    (miss : (q r : ℕ) (d : Parts)
      → 0 < r
      → r < width
      → Agree j d (rehash_down p (level (width * q + r)) 4 d))
    (k t : ℕ) (le : k ≤ t) (due : (n : ℕ) → k / width < n → n ≤ t / width → level (width * n) ≡ j)
    (steps_lem : steps_of ((4 - j - 1) * 8) (t % 2 ^ 32) (k % 2 ^ 32) ≡ t / width - k / width)
    (mask_lem : bit_and (t % 2 ^ 32) ((2 ^ 32 - 1) * 2 ^ ((4 - j - 1) * 8) % 2 ^ 32)
      ≡ width * (t / width) % 2 ^ 32) where
  ran_there :
      (d : Parts)
      → Reached p width
          (t / width)
          (t % width)
          k
          d
          (advance_part p (t % 2 ^ 32) j (record { data_parts = d; counter = k % 2 ^ 32 }))
  ran_there d =
      rw (glue width t, glue width k) at
        (advance_part-Reached p j width lt pos miss (t / width) (t % width) (k / width) (k % width)
          (mod-lt k pos) (div_mono width k t le) (rw (glue width t, glue width k) le) due
          (rw (glue width t, glue width k) steps_lem) (rw (glue width t) mask_lem) d)

  pub round-Ran :
      (d : Parts)
      → Ran p width k t d
          (advance_part p (t % 2 ^ 32) j (record { data_parts = d; counter = k % 2 ^ 32 }))
  round-Ran d =
      let r = ran_there d in
      let small : r.offset < width = omega (arith, r.not_past, mod-lt t pos) in
      record {
        end = width * (t / width) + r.offset;
        forward = r.forward;
        not_past = omega (arith, r.not_past, glue width t);
        same_block = sym (block_of width (t / width) r.offset small);
        reached = cc (r.data_reached, r.counter_reached);
      }

module _ (p : Primitives) (k t : ℕ) (le : k ≤ t) where
  abbrev after : ℕ → Parts → Megolm
  after j d = advance_part p (t % 2 ^ 32) j (record { data_parts = d; counter = k % 2 ^ 32 })

  pub round_0 : (d : Parts) → t < k + 2 ^ 32 → Ran p (2 ^ 24) k t d (after 0 d)
  round_0 d near =
      round-Ran p 0 (2 ^ 24) (omega arith) (omega arith)
        (λ q r d' low high.
          let m = miss_0 (2 ^ 24 * q + r) (omega arith) in
          rehash_down_above p 0 (level (2 ^ 24 * q + r)) d' m.0 m.1)
        k t le (λ n lo hi. due_0 n) (steps_0 k t le near)
        (high_mask 24 8 (t % 2 ^ 32) ∙ omega arith) d

  pub round_1 : (d : Parts) → t / 2 ^ 24 ≡ k / 2 ^ 24 → Ran p (2 ^ 16) k t d (after 1 d)
  round_1 d near =
      round-Ran p 1 (2 ^ 16) (omega arith) (omega arith)
        (λ q r d' low high.
          let m = miss_1 (2 ^ 16 * q + r) (omega arith) in
          rehash_down_above p 1 (level (2 ^ 16 * q + r)) d' m.0 m.1)
        k t le (λ n lo hi. due_1 n (omega arith)) (steps_1 k t le near)
        (high_mask 16 16 (t % 2 ^ 32) ∙ omega arith) d

  pub round_2 : (d : Parts) → t / 2 ^ 16 ≡ k / 2 ^ 16 → Ran p (2 ^ 8) k t d (after 2 d)
  round_2 d near =
      round-Ran p 2 (2 ^ 8) (omega arith) (omega arith)
        (λ q r d' low high.
          let m = miss_2 (2 ^ 8 * q + r) (omega arith) in
          rehash_down_above p 2 (level (2 ^ 8 * q + r)) d' m.0 m.1)
        k t le (λ n lo hi. due_2 n (omega arith)) (steps_2 k t le near)
        (high_mask 8 24 (t % 2 ^ 32) ∙ omega arith) d

  pub round_3 : (d : Parts) → t / 2 ^ 8 ≡ k / 2 ^ 8 → Ran p 1 k t d (after 3 d)
  round_3 d near =
      round-Ran p 3 1 (omega arith) (omega arith) (λ q r d' low high. absurd (omega arith)) k t le
        (λ n lo hi. due_3 n (omega arith)) (steps_3 k t le near ∙ omega arith)
        (high_mask 0 32 (t % 2 ^ 32) ∙ omega arith) d
