-- ===== src/Megolm/Stage.antt =====
-- One round of the loop in `megolm_advance_to` of src/megolm.c, against a run of single steps.
use olm.Base.{
  ℕ, ◌+◌, ◌-◌, ◌*◌, ◌%◌, ◌^◌, ◌≤◌, ◌<◌, bit_and, ◌==◌, if◌then◌else◌, ◌≡◌, refl, sym, ap, arith,
  Bool-cases, inl, inr,
}
use olm.Crypto.External.{Primitives}
use olm.Megolm.{Parts, Megolm, rehash_down, rehash_self, steps_of, advance_part}
use olm.Megolm.Levels.{level, Agree}
use olm.Megolm.Runs.{run, blocks}

-- `m` is the ratchet `d` after the steps from the counter `k` to a counter in the block of `width`
-- that starts at `width * u`, at most `v` behind its start.
pub record Reached (p : Primitives) (width u v k : ℕ) (d : Parts) (m : Megolm) : Type 0 where
  pub offset : ℕ
  pub not_past : offset ≤ v
  pub forward : k ≤ width * u + offset
  pub data_reached : m.data_parts ≡ run p (width * u + offset - k) k d
  pub counter_reached : m.counter ≡ (width * u + offset) % 2 ^ 32

-- The counter is `width * q + r` and is to become `width * u + v`.
module _ (p : Primitives) (j width : ℕ) (lt : j < 4) (pos : 0 < width)
    (miss : (q r : ℕ) (d : Parts)
      → 0 < r
      → r < width
      → Agree j d (rehash_down p (level (width * q + r)) 4 d))
    (u v q r : ℕ) (fits : r < width) (le : q ≤ u) (ahead : width * q + r ≤ width * u + v)
    (due : (n : ℕ) → q < n → n ≤ u → level (width * n) ≡ j)
    (steps_lem : steps_of ((4 - j - 1) * 8) ((width * u + v) % 2 ^ 32) ((width * q + r) % 2 ^ 32)
      ≡ u - q)
    (mask_lem : bit_and ((width * u + v) % 2 ^ 32) ((2 ^ 32 - 1) * 2 ^ ((4 - j - 1) * 8) % 2 ^ 32)
      ≡ width * u % 2 ^ 32) where
  abbrev here : Parts → Megolm
  here d = record { data_parts = d; counter = (width * q + r) % 2 ^ 32 }

  abbrev bumped : Parts → Parts
  bumped d = rehash_down p j 4 (rehash_self p j (u - q - 1) d)

  advance_part_cases :
      (d : Parts)
      → advance_part p ((width * u + v) % 2 ^ 32) j (here d) ≡ (
          if u - q == 0
          then here d
          else record { data_parts = bumped d; counter = width * u % 2 ^ 32 })
  unfolding advance_part
  advance_part_cases d = rw (steps_lem, mask_lem) refl

  bumped-run :
      (d : Parts) → q < u → bumped d ≡ run p (width * u - (width * q + r)) (width * q + r) d
  bumped-run d more =
      let s = u - q - 1 in
      let split : u ≡ q + 1 + (u - q - 1) = omega arith in
      let grow : width * u ≡ width * q + width + width * s =
        omega (arith, ap (λ (t : ℕ). width * t) split) in
      let e : width * u - (width * q + r) ≡ width - r + width * s = omega arith in
      rw e (
        sym (
          blocks p j width lt pos miss s q r d fits
            (λ i hi. due (q + 1 + i) (omega arith) (omega arith))))

  pub advance_part-Reached :
      (d : Parts)
      → Reached p width u v (width * q + r) d (advance_part p ((width * u + v) % 2 ^ 32) j (here d))
  advance_part-Reached d = elim (Bool-cases (u - q == 0)) [
    | inl done ↦
        let same : u ≡ q = ground arith in
        let level_start : width * u ≡ width * q = ap (λ (t : ℕ). width * t) same in
        let nothing : width * u + r - (width * q + r) ≡ 0 = omega arith in
        rw (advance_part_cases d, done)
          (record {
            offset = r;
            not_past = omega arith;
            forward = omega arith;
            data_reached = rw nothing (unfold run in refl);
            counter_reached = ap (λ (t : ℕ). (t + r) % 2 ^ 32) (sym level_start);
          })
    | inr more ↦
        let later : q < u = ground arith in
        let split : u ≡ q + 1 + (u - q - 1) = omega arith in
        let start : width * u + 0 ≡ width * u = omega arith in
        rw (advance_part_cases d, more)
          (record {
            offset = 0;
            not_past = omega arith;
            forward = omega (arith, ap (λ (t : ℕ). width * t) split);
            data_reached = rw start (bumped-run d later);
            counter_reached = rw start;
          })
  ]
