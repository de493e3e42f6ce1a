-- ===== src/Memory/Equality.antt =====
-- `is_equal` of src/memory.cpp.
use olm.Base.{
  ℕ, zero, suc, ◌≤◌, bit_or, bit_xor, Bytes, true, [], ◌∷◌, get_or, drop, take, length, ◌≡◌, refl,
  ap, ap₂, arith, ◌↔◌, ==_iff, ==_refl,
}
use olm.Base.Bits.{bit_or-eq-zero, bit_xor-eq-zero, bit_xor_self}
use olm.Memory.{is_equal_loop, is_equal, memcmp_equal}

-- A difference that was seen once is never lost.
is_equal_loop-zero :
    (n : ℕ) (a b : Bytes) (result : ℕ)
    → n ≤ length a
    → n ≤ length b
    → is_equal_loop n a b result ≡ 0
    → (result ≡ 0) × (take n a ≡ take n b)
unfolding is_equal_loop
is_equal_loop-zero zero a b result p q e = (e, refl)
is_equal_loop-zero (suc n) [] b result p q e = absurd (omega arith)
is_equal_loop-zero (suc n) (x ∷ a) [] result p q e = absurd (omega arith)
is_equal_loop-zero (suc n) (x ∷ a) (y ∷ b) result p q e =
    let rest =
      is_equal_loop-zero n a b (bit_or result (bit_xor x y)) (omega arith) (omega arith) e in
    let parts = bit_or-eq-zero result (bit_xor x y) rest.0 in
    (parts.0, ap₂ ◌∷◌ (bit_xor-eq-zero x y parts.1) rest.1)

is_equal_loop_same :
    (n : ℕ) (a b : Bytes)
    → n ≤ length a
    → n ≤ length b
    → take n a ≡ take n b
    → is_equal_loop n a b 0 ≡ 0
unfolding is_equal_loop
is_equal_loop_same zero a b p q e = refl
is_equal_loop_same (suc n) [] b p q e = absurd (omega arith)
is_equal_loop_same (suc n) (x ∷ a) [] p q e = absurd (omega arith)
is_equal_loop_same (suc n) (x ∷ a) (y ∷ b) p q e =
    let heads : x ≡ y = ap (λ (l : Bytes). get_or l 0 0) e in
    let tails : take n a ≡ take n b = ap (drop 1) e in
    rw (heads, bit_xor_self) (is_equal_loop_same n a b (omega arith) (omega arith) tails)

-- On two buffers of at least `n` bytes, `is_equal` on `n` bytes answers true exactly when the
-- first `n` bytes of the two agree.
pub is_equal_iff :
    (a b : Bytes) (n : ℕ)
    → n ≤ length a
    → n ≤ length b
    → (is_equal a b n ≡ true) ↔ (take n a ≡ take n b)
unfolding is_equal
is_equal_iff a b n p q = (
  λ h. (is_equal_loop-zero n a b 0 p q ((==_iff _ 0).0 h)).1,
  λ e. (==_iff _ 0).1 (is_equal_loop_same n a b p q e),
)

pub memcmp_equal_refl :
    (n : ℕ) (bytes : Bytes) → n ≤ length bytes → memcmp_equal n bytes bytes ≡ true
unfolding memcmp_equal
memcmp_equal_refl zero bytes h = refl
memcmp_equal_refl (suc n) [] h = absurd (omega arith)
memcmp_equal_refl (suc n) (b ∷ bytes) h = rw (==_refl b) (memcmp_equal_refl n bytes (omega arith))

pub memcmp_equal→≡ :
    (n : ℕ) (xs ys : Bytes) → length xs ≡ n → length ys ≡ n → memcmp_equal n xs ys ≡ true → xs ≡ ys
unfolding memcmp_equal
memcmp_equal→≡ zero [] [] h k e = refl
memcmp_equal→≡ zero (x ∷ xs) ys h k e = absurd (omega arith)
memcmp_equal→≡ zero [] (y ∷ ys) h k e = absurd (omega arith)
memcmp_equal→≡ (suc n) [] ys h k e = absurd (omega arith)
memcmp_equal→≡ (suc n) (x ∷ xs) [] h k e = absurd (omega arith)
memcmp_equal→≡ (suc n) (x ∷ xs) (y ∷ ys) h k e =
    ap₂ (λ (a : ℕ) (t : Bytes). a ∷ t) (ground arith)
      (memcmp_equal→≡ n xs ys (omega arith) (omega arith) (ground arith))
