-- ===== src/Megolm/Levels.antt =====
-- Which parts of the ratchet a step of src/megolm.c writes, without the wrap of the counter.
use olm.Base.{ℕ, zero, suc, ◌%◌, ◌^◌, ◌<◌, ◌==◌, if◌then◌else◌, ◌≡◌, refl, ap, arith, ◌∙◌}
use olm.Base.Bits.{bit_and_mask, bit_and-zero}
use olm.Crypto.External.{Primitives}
use olm.Megolm.{Parts, part, set_part, rekey_part, rehash_part, rehash_down, rehash_self}

-- The part that the step to counter `k` starts from.
abbrev pub level : ℕ → ℕ
level k =
    if k % 2 ^ 24 == 0 then 0 else if k % 2 ^ 16 == 0 then 1 else if k % 2 ^ 8 == 0 then 2 else 3

pub rekey_part-eq-level : (k : ℕ) → rekey_part 4 k 0x00ff_ffff 0 ≡ level k
unfolding rekey_part
rekey_part-eq-level k =
    rw (bit_and_mask 24 k, bit_and_mask 16 k, bit_and_mask 8 k, bit_and-zero k) refl

-- Equal up to and with part `j`.
abbrev pub Agree : ℕ → Parts → Parts → Type 0
Agree zero d d' = d.r0 ≡ d'.r0
Agree (suc zero) d d' = (d.r0 ≡ d'.r0) × (d.r1 ≡ d'.r1)
Agree (suc (suc zero)) d d' = (d.r0 ≡ d'.r0) × (d.r1 ≡ d'.r1) × (d.r2 ≡ d'.r2)
Agree (suc (suc (suc j))) d d' = d ≡ d'

module _ (p : Primitives) where
  pub Agree-refl : (j : ℕ) (d : Parts) → Agree j d d
  Agree-refl zero d = refl
  Agree-refl (suc zero) d = (refl, refl)
  Agree-refl (suc (suc zero)) d = (refl, refl, refl)
  Agree-refl (suc (suc (suc j))) d = refl

  pub Agree-trans : (j : ℕ) (a b c : Parts) → Agree j a b → Agree j b c → Agree j a c
  Agree-trans zero a b c h k = h ∙ k
  Agree-trans (suc zero) a b c h k = (h.0 ∙ k.0, h.1 ∙ k.1)
  Agree-trans (suc (suc zero)) a b c h k = (h.0 ∙ k.0, h.1 ∙ k.1, h.2 ∙ k.2)
  Agree-trans (suc (suc (suc j))) a b c h k = h ∙ k

  -- A step from part `j` depends on the parts up to `j` alone.
  pub rehash_down-Agree :
      (j : ℕ) (d d' : Parts) → j < 4 → Agree j d d' → rehash_down p j 4 d ≡ rehash_down p j 4 d'
  unfolding rehash_down rehash_part set_part part
  rehash_down-Agree zero d d' lt h = cc
  rehash_down-Agree (suc zero) d d' lt h = cc
  rehash_down-Agree (suc (suc zero)) d d' lt h = cc
  rehash_down-Agree (suc (suc (suc j))) d d' lt h = ap (rehash_down p (suc (suc (suc j))) 4) h

  rehash_part-Agree :
      (j : ℕ) (d d' : Parts)
      → j < 4
      → Agree j d d'
      → Agree j (rehash_part p d j j) (rehash_part p d' j j)
  unfolding rehash_part set_part part
  rehash_part-Agree zero d d' lt h = cc
  rehash_part-Agree (suc zero) d d' lt h = (h.0, cc)
  rehash_part-Agree (suc (suc zero)) d d' lt h = (h.0, h.1, cc)
  rehash_part-Agree (suc (suc (suc j))) d d' lt h = cc

  pub rehash_self-Agree :
      (j rounds : ℕ) (d d' : Parts)
      → j < 4
      → Agree j d d'
      → Agree j (rehash_self p j rounds d) (rehash_self p j rounds d')
  unfolding rehash_self
  rehash_self-Agree j zero d d' lt h = h
  rehash_self-Agree j (suc rounds) d d' lt h =
      rehash_self-Agree j rounds (rehash_part p d j j) (rehash_part p d' j j) lt
        (rehash_part-Agree j d d' lt h)

  -- Up to part `j` a whole step from `j` is one rehash of part `j`.
  pub rehash_down-rehash_part :
      (j : ℕ) (d : Parts) → j < 4 → Agree j (rehash_down p j 4 d) (rehash_part p d j j)
  unfolding rehash_part rehash_down set_part part
  rehash_down-rehash_part zero d lt = refl
  rehash_down-rehash_part (suc zero) d lt = (refl, refl)
  rehash_down-rehash_part (suc (suc zero)) d lt = (refl, refl, refl)
  rehash_down-rehash_part (suc (suc (suc zero))) d lt = refl
  rehash_down-rehash_part (suc (suc (suc (suc j)))) d lt = absurd (omega arith)

  -- A step that starts behind part `j` leaves the parts up to `j` alone.
  pub rehash_down_above : (j h : ℕ) (d : Parts) → j < h → h < 4 → Agree j d (rehash_down p h 4 d)
  unfolding rehash_part rehash_down set_part part
  rehash_down_above zero (suc zero) d lt hi = refl
  rehash_down_above zero (suc (suc zero)) d lt hi = refl
  rehash_down_above zero (suc (suc (suc zero))) d lt hi = refl
  rehash_down_above (suc zero) (suc (suc zero)) d lt hi = (refl, refl)
  rehash_down_above (suc zero) (suc (suc (suc zero))) d lt hi = (refl, refl)
  rehash_down_above (suc (suc zero)) (suc (suc (suc zero))) d lt hi = (refl, refl, refl)
  rehash_down_above j h d lt hi = absurd (omega arith)
