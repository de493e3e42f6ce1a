-- ===== src/Megolm/Runs.antt =====
-- Many single steps of src/megolm.c at once, without the wrap of the counter.
use olm.Base.{ℕ, zero, suc, ◌+◌, ◌-◌, ◌*◌, ◌≤◌, ◌<◌, ◌≡◌, refl, sym, ap, arith, ◌∙◌}
use olm.Crypto.External.{Primitives}
use olm.Megolm.{Parts, rehash_part, rehash_down, rehash_self}
use olm.Megolm.Levels.{
  level, Agree, Agree-refl, Agree-trans, rehash_down-Agree, rehash_self-Agree,
  rehash_down-rehash_part,
}

module _ (p : Primitives) where
  -- `n` steps from the counter `k`.
  unfoldable pub run : ℕ → ℕ → Parts → Parts
  run zero k d = d
  run (suc n) k d = run n (k + 1) (rehash_down p (level (k + 1)) 4 d)

  pub run-add : (m n k : ℕ) (d : Parts) → run (m + n) k d ≡ run n (k + m) (run m k d)
  unfolding run
  run-add zero n k d =
      let e : 0 + n ≡ n = omega arith in let f : k + 0 ≡ k = omega arith in rw (e, f) refl
  run-add (suc m) n k d =
      let e : suc m + n ≡ suc (m + n) = omega arith in
      let f : k + 1 + m ≡ k + suc m = omega arith in
      rw e (run-add m n (k + 1) (rehash_down p (level (k + 1)) 4 d) ∙ rw f refl)

  run-one : (k : ℕ) (d : Parts) → run 1 k d ≡ rehash_down p (level (k + 1)) 4 d
  unfolding run
  run-one k d = refl

  -- Part `j` is due at the multiples of `width`; in between only later parts are written.
  module _ (j width : ℕ) (lt : j < 4) (pos : 0 < width)
      (miss : (q r : ℕ) (d : Parts)
        → 0 < r
        → r < width
        → Agree j d (rehash_down p (level (width * q + r)) 4 d)) where
    keep : (n q r : ℕ) (d : Parts) → r + n < width → Agree j d (run n (width * q + r) d)
    unfolding run
    keep zero q r d h = Agree-refl p j d
    keep (suc n) q r d h =
        let e : width * q + r + 1 ≡ width * q + (r + 1) = omega arith in
        let d' = rehash_down p (level (width * q + (r + 1))) 4 d in
        rw e (
          Agree-trans p j d d' _ (miss q (r + 1) d (omega arith) (omega arith))
            (keep n q (r + 1) d' (omega arith)))

    -- The way to the next multiple.
    block :
        (q r : ℕ) (d : Parts)
        → r < width
        → level (width * (q + 1)) ≡ j
        → run (width - r) (width * q + r) d ≡ rehash_down p j 4 d
    block q r d h due =
        let n = width - r - 1 in
        let e : width - r ≡ n + 1 = omega arith in
        let f : width * q + r + n + 1 ≡ width * (q + 1) = omega arith in
        ap (λ (m : ℕ). run m (width * q + r) d) e
        ∙ run-add n 1 (width * q + r) d
        ∙ run-one (width * q + r + n) (run n (width * q + r) d)
        ∙ rw (f, due)
            (sym
              (rehash_down-Agree p j d (run n (width * q + r) d) lt (keep n q r d (omega arith))))

    rehash_self-zero : (d : Parts) → d ≡ rehash_self p j 0 d
    unfolding rehash_self
    rehash_self-zero d = refl

    rehash_self-suc :
        (s : ℕ) (d : Parts) → rehash_self p j s (rehash_part p d j j) ≡ rehash_self p j (suc s) d
    unfolding rehash_self
    rehash_self-suc s d = refl

    -- The way over `s` more multiples.
    pub blocks :
        (s q r : ℕ) (d : Parts)
        → r < width
        → ((i : ℕ) → i ≤ s → level (width * (q + 1 + i)) ≡ j)
        → run (width - r + width * s) (width * q + r) d ≡ rehash_down p j 4 (rehash_self p j s d)
    blocks zero q r d h due =
        let e : width - r + width * 0 ≡ width - r = omega arith in
        let first : level (width * (q + 1)) ≡ j =
          let f : q + 1 + 0 ≡ q + 1 = omega arith in rw f at (due 0 (omega arith)) in
        rw e (block q r d h first) ∙ ap (rehash_down p j 4) (rehash_self-zero d)
    blocks (suc s) q r d h due =
        let next = width * (q + 1) + 0 in
        let bumped = rehash_down p j 4 d in
        let first : level (width * (q + 1)) ≡ j =
          let f : q + 1 + 0 ≡ q + 1 = omega arith in rw f at (due 0 (omega arith)) in
        let e : width * q + r + (width - r) ≡ next = omega arith in
        let f : width * suc s ≡ width - 0 + width * s = omega arith in
        run-add (width - r) (width * suc s) (width * q + r) d
        ∙ rw (block q r d h first, e, f)
            (blocks s (q + 1) 0 bumped pos (λ i hi.
              let g : q + 1 + 1 + i ≡ q + 1 + (i + 1) = omega arith in
              rw g (due (i + 1) (omega arith))))
        ∙ rehash_down-Agree p j _ _ lt (
            rehash_self-Agree p j s bumped (rehash_part p d j j) lt
              (rehash_down-rehash_part p j d lt))
        ∙ ap (rehash_down p j 4) (rehash_self-suc s d)
