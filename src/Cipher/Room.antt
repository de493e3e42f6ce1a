-- ===== src/Cipher/Room.antt =====
-- Encryption with the cipher of src/cipher.cpp into a buffer that has just the room for it.
use olm.Base.{
  ℕ, ◌+◌, ◌-◌, Bytes, IsBytes, some, ◌++◌, length, take, drop, length-take, length-drop,
  take-append-drop, take-append_more, ◌≡◌, ap, arith, ◌∙◌,
}
use olm.Crypto.External.{Primitives, PrimitiveLaws}
use olm.Cipher.{mac_length, write, encrypt_ciphertext_length, encrypt}
use olm.Cipher.RoundTrip.{ciphertext_of, tag_of, encrypt_lem}

-- The header is written to the front of a buffer, and the cipher is given the next `n` bytes.
write_front :
    (header buffer : Bytes) → write buffer 0 header ≡ header ++ drop (length header) buffer
unfolding write
write_front header buffer = let start : 0 + length header ≡ length header = omega arith in rw start

pub take-write_front :
    (header buffer : Bytes) (n : ℕ)
    → take (length header + n) (write buffer 0 header)
      ≡ header ++ take n (drop (length header) buffer)
take-write_front header buffer n =
    let rest : length header + n - length header ≡ n = omega arith in
    ap (take (length header + n)) (write_front header buffer)
    ∙ take-append_more (length header + n) header (drop (length header) buffer) (omega arith)
    ∙ ap (λ (m : ℕ). header ++ take m (drop (length header) buffer)) rest

module _ (p : Primitives) (laws : PrimitiveLaws p) (kdf_info key : Bytes) where
  pub encrypt_in_room :
      (plain header body : Bytes) (n : ℕ)
      → IsBytes plain
      → n ≡ encrypt_ciphertext_length (length plain)
      → length body ≡ n + mac_length
      → encrypt p kdf_info key plain (header ++ body) (length header) n
        ≡ some (
            (header ++ ciphertext_of p kdf_info key plain)
            ++ tag_of p kdf_info key (header ++ ciphertext_of p kdf_info key plain))
  encrypt_in_room plain header body n hp hn hb =
      let hole = take n body in
      let tail = drop n body in
      let hole_length : length hole ≡ n = omega (arith, length-take n body, hb) in
      let tail_length : length tail ≡ mac_length = omega (arith, length-drop n body, hb) in
      rw (take-append-drop n body, hole_length) at
        (encrypt_lem p laws kdf_info key plain header hole tail hp (hole_length ∙ hn) tail_length)
