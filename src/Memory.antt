-- ===== src/Memory.antt =====
-- src/memory.cpp: clearing a buffer, and the comparison whose time does not depend on the contents.
pub mod Equality
use olm.Base.{
  ℕ, zero, suc, bit_or, bit_xor, Bytes, Bool, true, false, ◌&&◌, [], ◌∷◌, get_or, drop, ◌==◌,
}

-- `unset` writes a zero to each byte from `buffer` up to its end.
unfoldable pub unset : Bytes → Bytes
unset [] = []
unset (b ∷ buffer) = 0 ∷ unset buffer

-- The loop of `is_equal`: `result |= *(buffer_a++) ^ *(buffer_b++)`, `length` times.
pub is_equal_loop : ℕ → Bytes → Bytes → ℕ → ℕ
is_equal_loop zero buffer_a buffer_b result = result
is_equal_loop (suc length) buffer_a buffer_b result =
    is_equal_loop length (drop 1 buffer_a) (drop 1 buffer_b)
      (bit_or result (bit_xor (get_or buffer_a 0 0) (get_or buffer_b 0 0)))

unfoldable pub is_equal : Bytes → Bytes → ℕ → Bool
unfolding is_equal_loop
is_equal buffer_a buffer_b length = is_equal_loop length buffer_a buffer_b 0 == 0

-- `0 == memcmp(buffer_a, buffer_b, length)`
pub memcmp_equal : ℕ → Bytes → Bytes → Bool
memcmp_equal zero buffer_a buffer_b = true
memcmp_equal (suc length) [] buffer_b = false
memcmp_equal (suc length) (a ∷ buffer_a) [] = false
memcmp_equal (suc length) (a ∷ buffer_a) (b ∷ buffer_b) =
    (a == b) && memcmp_equal length buffer_a buffer_b
