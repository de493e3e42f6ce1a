-- ===== src/Megolm/Advance.antt =====
-- `megolm_advance_to` of src/megolm.c against repeated calls of `megolm_advance`.
use olm.Base.{ℕ, zero, suc, ◌+◌, ◌-◌, ◌%◌, ◌^◌, ◌≤◌, ◌<◌, ◌≡◌, refl, sym, ap, arith, ◌∙◌}
use olm.Crypto.External.{Primitives}
use olm.Megolm.{
  Parts, Megolm, rehash_down, advance_part, advance_parts, megolm_advance, megolm_advance_to,
}
use olm.Megolm.Levels.{level, rekey_part-eq-level}
use olm.Megolm.Runs.{run, run-add}
use olm.Megolm.Rounds.{Ran, round_0, round_1, round_2, round_3}

-- `n` calls of `megolm_advance`.
unfoldable pub advance_times : Primitives → ℕ → Megolm → Megolm
advance_times p zero m = m
advance_times p (suc n) m = advance_times p n (megolm_advance p m)

-- How far `advance_to` lies ahead of the counter, around the wrap.
abbrev pub distance : ℕ → ℕ → ℕ
distance counter advance_to = (advance_to + 2 ^ 32 - counter) % 2 ^ 32

level-wrap : (k : ℕ) → level ((k % 2 ^ 32 + 1) % 2 ^ 32) ≡ level (k + 1)
level-wrap k = ground arith

module _ (p : Primitives) where
  -- One step, whose counter wraps, is one step of a run, whose counter does not.
  megolm_advance-run :
      (k : ℕ) (d : Parts)
      → megolm_advance p (record { data_parts = d; counter = k % 2 ^ 32 })
        ≡ record { data_parts = rehash_down p (level (k + 1)) 4 d; counter = (k + 1) % 2 ^ 32 }
  unfolding megolm_advance
  megolm_advance-run k d =
      let wrap : (k % 2 ^ 32 + 1) % 2 ^ 32 ≡ (k + 1) % 2 ^ 32 = omega arith in
      rw (rekey_part-eq-level ((k % 2 ^ 32 + 1) % 2 ^ 32), level-wrap k, wrap) refl

  advance_times-run :
      (n k : ℕ) (d : Parts)
      → advance_times p n (record { data_parts = d; counter = k % 2 ^ 32 })
        ≡ record { data_parts = run p n k d; counter = (k + n) % 2 ^ 32 }
  unfolding advance_times run
  advance_times-run zero k d = let e : k + 0 ≡ k = omega arith in rw e refl
  advance_times-run (suc n) k d =
      let e : k + 1 + n ≡ k + suc n = omega arith in
      rw (megolm_advance-run k d)
        (advance_times-run n (k + 1) (rehash_down p (level (k + 1)) 4 d) ∙ rw e refl)

  -- A round that starts where the last one ended goes on with the same run.
  Ran-trans :
      (width next k t : ℕ) (d : Parts) (m m' : Megolm) (a : Ran p width k t d m)
      → Ran p next a.end t (run p (a.end - k) k d) m'
      → Ran p next k t d m'
  Ran-trans width next k t d m m' a b =
      let e : k + (a.end - k) ≡ a.end = omega (arith, a.forward) in
      let f : a.end - k + (b.end - a.end) ≡ b.end - k = omega (arith, a.forward, b.forward) in
      let joined : run p (b.end - a.end) a.end (run p (a.end - k) k d) ≡ run p (b.end - k) k d =
        sym (
          ap (λ (n : ℕ). run p n k d) (sym f)
          ∙ run-add p (a.end - k) (b.end - a.end) k d
          ∙ ap (λ (n : ℕ). run p (b.end - a.end) n (run p (a.end - k) k d)) e) in
      record {
        end = b.end;
        forward = omega (arith, a.forward, b.forward);
        not_past = b.not_past;
        same_block = b.same_block;
        reached =
            b.reached
            ∙ ap (λ (x : Parts). record { data_parts = x; counter = b.end % 2 ^ 32 }) joined;
      }

  module _ (k t : ℕ) (d : Parts) (le : k ≤ t) (near : t < k + 2 ^ 32) where
    abbrev start : Megolm
    start = record { data_parts = d; counter = k % 2 ^ 32 }

    abbrev do_part : ℕ → Megolm → Megolm
    do_part j m = advance_part p (t % 2 ^ 32) j m

    two_rounds : Ran p (2 ^ 16) k t d (do_part 1 (do_part 0 start))
    two_rounds =
        let a = round_0 p k t le d near in
        Ran-trans (2 ^ 24) (2 ^ 16) k t d (do_part 0 start) _ a
          (rw a.reached (round_1 p a.end t a.not_past (run p (a.end - k) k d) a.same_block))

    three_rounds : Ran p (2 ^ 8) k t d (do_part 2 (do_part 1 (do_part 0 start)))
    three_rounds =
        let a = two_rounds in
        Ran-trans (2 ^ 16) (2 ^ 8) k t d (do_part 1 (do_part 0 start)) _ a
          (rw a.reached (round_2 p a.end t a.not_past (run p (a.end - k) k d) a.same_block))

    four_rounds : Ran p 1 k t d (do_part 3 (do_part 2 (do_part 1 (do_part 0 start))))
    four_rounds =
        let a = three_rounds in
        Ran-trans (2 ^ 8) 1 k t d (do_part 2 (do_part 1 (do_part 0 start))) _ a
          (rw a.reached (round_3 p a.end t a.not_past (run p (a.end - k) k d) a.same_block))

    advance_parts-run :
        advance_parts p (t % 2 ^ 32) 4 0 start
        ≡ record { data_parts = run p (t - k) k d; counter = t % 2 ^ 32 }
    advance_parts-run =
        let a = four_rounds in
        let there : a.end ≡ t = omega (arith, a.same_block) in
        let four : advance_parts p (t % 2 ^ 32) 4 0 start
            ≡ do_part 3 (do_part 2 (do_part 1 (do_part 0 start))) =
          unfold advance_parts in refl in
        four
        ∙ a.reached
        ∙ ap (λ (n : ℕ). record { data_parts = run p (n - k) k d; counter = n % 2 ^ 32 }) there

  -- For a 32-bit counter and a 32-bit target, `megolm_advance_to` does what as many calls of
  -- `megolm_advance` do as the target lies ahead of the counter modulo 2 ^ 32: from 0 to 2 ^ 32 -
  -- 1 of them, also across the wrap of the counter.
  pub megolm_advance_to-eq-advance_times :
      (m : Megolm) (advance_to : ℕ)
      → m.counter < 2 ^ 32
      → advance_to < 2 ^ 32
      → megolm_advance_to p m advance_to ≡ advance_times p (distance m.counter advance_to) m
  unfolding megolm_advance_to
  megolm_advance_to-eq-advance_times m to hc ht =
      let k = m.counter in
      let n = distance k to in
      let small : k % 2 ^ 32 ≡ k = omega arith in
      let target : (k + n) % 2 ^ 32 ≡ to = omega arith in
      let gap : k + n - k ≡ n = omega arith in
      let d = m.data_parts in
      let both =
        advance_parts-run k (k + n) d (omega arith) (omega arith)
        ∙ ap (λ (r : ℕ). record { data_parts = run p r k d; counter = (k + n) % 2 ^ 32 }) gap
        ∙ sym (advance_times-run n k d) in
      rw (target, small) at both
