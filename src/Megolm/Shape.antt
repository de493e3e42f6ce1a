-- ===== src/Megolm/Shape.antt =====
-- The shape of a ratchet under the advances of src/megolm.c.
use olm.Base.{ℕ, zero, suc, Bytes, IsBuffer, ltb, Bool-cases, inl, inr, arith}
use olm.Crypto.External.{Primitives, PrimitiveLaws}
use olm.Crypto.Hmac.{hmac_sha256-IsBuffer}
use olm.Megolm.{Parts, Megolm, set_part, rehash_part, rehash_down, megolm_advance}
use olm.Megolm.Advance.{advance_times}
use olm.Megolm.Pickling.{IsMegolm}

record IsParts (d : Parts) : Type 0 where
  pub r0_bytes : IsBuffer 32 d.r0
  pub r1_bytes : IsBuffer 32 d.r1
  pub r2_bytes : IsBuffer 32 d.r2
  pub r3_bytes : IsBuffer 32 d.r3

set_part-IsParts :
    (d : Parts) (i : ℕ) (bytes : Bytes)
    → IsParts d
    → IsBuffer 32 bytes
    → IsParts (set_part d i bytes)
unfolding set_part
set_part-IsParts d zero bytes h hb = record {
  r0_bytes = hb;
  r1_bytes = h.r1_bytes;
  r2_bytes = h.r2_bytes;
  r3_bytes = h.r3_bytes;
}
set_part-IsParts d (suc zero) bytes h hb = record {
  r0_bytes = h.r0_bytes;
  r1_bytes = hb;
  r2_bytes = h.r2_bytes;
  r3_bytes = h.r3_bytes;
}
set_part-IsParts d (suc (suc zero)) bytes h hb = record {
  r0_bytes = h.r0_bytes;
  r1_bytes = h.r1_bytes;
  r2_bytes = hb;
  r3_bytes = h.r3_bytes;
}
set_part-IsParts d (suc (suc (suc i))) bytes h hb = record {
  r0_bytes = h.r0_bytes;
  r1_bytes = h.r1_bytes;
  r2_bytes = h.r2_bytes;
  r3_bytes = hb;
}

module _ (p : Primitives) (laws : PrimitiveLaws p) where
  rehash_part-IsParts : (d : Parts) (i j : ℕ) → IsParts d → IsParts (rehash_part p d i j)
  unfolding rehash_part
  rehash_part-IsParts d i j h = set_part-IsParts d j _ h (hmac_sha256-IsBuffer p laws _ _)

  rehash_down-IsParts : (h i : ℕ) (d : Parts) → IsParts d → IsParts (rehash_down p h i d)
  unfolding rehash_down
  rehash_down-IsParts h zero d hd = hd
  rehash_down-IsParts h (suc i) d hd = elim (Bool-cases (ltb i h)) [
    | inl stop ↦ rw stop hd
    | inr next ↦
        rw next (rehash_down-IsParts h i (rehash_part p d h i) (rehash_part-IsParts d h i hd))
  ]

  megolm_advance-IsMegolm : (m : Megolm) → IsMegolm m → IsMegolm (megolm_advance p m)
  unfolding megolm_advance
  megolm_advance-IsMegolm m h =
      let start : IsParts m.data_parts = record {
        r0_bytes = h.r0_bytes;
        r1_bytes = h.r1_bytes;
        r2_bytes = h.r2_bytes;
        r3_bytes = h.r3_bytes;
      } in
      let after = rehash_down-IsParts _ 4 m.data_parts start in
      record {
        r0_bytes = after.r0_bytes;
        r1_bytes = after.r1_bytes;
        r2_bytes = after.r2_bytes;
        r3_bytes = after.r3_bytes;
        counter_bits = omega arith;
      }

  -- With primitives that keep the stated laws: A ratchet of four parts of 32 bytes and a 32-bit
  -- counter keeps this shape through any number of calls of `megolm_advance`.
  pub advance_times-IsMegolm : (n : ℕ) (m : Megolm) → IsMegolm m → IsMegolm (advance_times p n m)
  unfolding advance_times
  advance_times-IsMegolm zero m h = h
  advance_times-IsMegolm (suc n) m h =
      advance_times-IsMegolm n (megolm_advance p m) (megolm_advance-IsMegolm m h)
