-- ===== src/Megolm/Ahead.antt =====
-- Repeated advances of the ratchet of src/megolm.c and their counters.
use olm.Base.{ℕ, zero, suc, ◌+◌, ◌-◌, ◌%◌, ◌^◌, ◌≤◌, ◌<◌, ◌≡◌, refl, sym, ap, arith, ◌∙◌}
use olm.Crypto.External.{Primitives}
use olm.Megolm.{Megolm, megolm_advance, megolm_advance_to}
use olm.Megolm.Advance.{advance_times, distance, megolm_advance_to-eq-advance_times}

module _ (p : Primitives) where
  pub advance_times-add :
      (n k : ℕ) (m : Megolm) → advance_times p (n + k) m ≡ advance_times p k (advance_times p n m)
  unfolding advance_times
  advance_times-add zero k m = let e : 0 + k ≡ k = omega arith in rw e
  advance_times-add (suc n) k m =
      let e : suc n + k ≡ suc (n + k) = omega arith in
      rw e (advance_times-add n k (megolm_advance p m))

  megolm_advance-counter : (m : Megolm) → (megolm_advance p m).counter ≡ (m.counter + 1) % 2 ^ 32
  unfolding megolm_advance
  megolm_advance-counter m = refl

  pub advance_times-counter :
      (n : ℕ) (m : Megolm)
      → m.counter < 2 ^ 32
      → (advance_times p n m).counter ≡ (m.counter + n) % 2 ^ 32
  unfolding advance_times
  advance_times-counter zero m h = omega arith
  advance_times-counter (suc n) m h =
      let step = megolm_advance-counter m in
      advance_times-counter n (megolm_advance p m) (omega (arith, step)) ∙ omega (arith, step)

  -- From where it stands after `j` advances, jumping to where it stands after `k` of them.
  pub megolm_advance_to-ahead :
      (j k : ℕ) (m : Megolm)
      → m.counter < 2 ^ 32
      → j ≤ k
      → k < j + 2 ^ 32
      → megolm_advance_to p (advance_times p j m) ((m.counter + k) % 2 ^ 32) ≡ advance_times p k m
  megolm_advance_to-ahead j k m h hj hk =
      let at = advance_times-counter j m h in
      let ahead : distance (advance_times p j m).counter ((m.counter + k) % 2 ^ 32) ≡ k - j =
        omega (arith, at) in
      let total : j + (k - j) ≡ k = omega arith in
      megolm_advance_to-eq-advance_times p (advance_times p j m) ((m.counter + k) % 2 ^ 32)
        (omega (arith, at)) (omega arith)
      ∙ ap (λ (n : ℕ). advance_times p n (advance_times p j m)) ahead
      ∙ sym (advance_times-add j (k - j) m)
      ∙ ap (λ (n : ℕ). advance_times p n m) total
