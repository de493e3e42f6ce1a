-- ===== src/Cipher/RoundTrip.antt =====
-- Encryption and decryption with the cipher of src/cipher.cpp.
use olm.Base.{
  ◌↔◌, ◌||◌, if◌then◌else◌, drop_all, ℕ, ◌+◌, ◌-◌, ◌≤◌, Bytes, IsByte, IsBytes, IsBuffer, true,
  false, none, some, ◌++◌, length, take, drop, ltb, length-append, length-take, length-drop,
  take-append, drop-append, take_all, All-take, All-drop, Bool-cases, inl, inr, le→ltb,
  append_assoc, append-nil, ◌≡◌, ◌≢◌, refl, sym, arith, ◌∙◌,
}
use olm.Memory.{is_equal}
use olm.Memory.Equality.{is_equal_iff}
use olm.Crypto.External.{Primitives, PrimitiveLaws}
use olm.Crypto.{plaintext, failed, hmac_sha256, hkdf_sha256, aes_encrypt_cbc, aes_decrypt_cbc}
use olm.Crypto.Hmac.{hmac_sha256-IsBuffer, hkdf_sha256-IsBuffer}
use olm.Crypto.Cbc.{aes_encrypt_cbc-IsBuffer, aes_decrypt_cbc-aes_encrypt_cbc}
use olm.Cipher.{
  mac_length, write, encrypt_ciphertext_length, decrypt_max_plaintext_length, derive_keys, encrypt,
  decrypt,
}

-- Overwriting the middle of a buffer, and its end.
write_middle :
    (front hole tail bytes : Bytes)
    → length bytes ≡ length hole
    → write (front ++ (hole ++ tail)) (length front) bytes ≡ front ++ (bytes ++ tail)
unfolding write
write_middle front hole tail bytes e = rw (
  take-append (length front) front (hole ++ tail) refl,
  e,
  ← append_assoc front hole tail,
  drop-append (length front + length hole) (front ++ hole) tail (length-append front hole),
)

write_end :
    (front tail bytes : Bytes) (at : ℕ)
    → length front ≡ at
    → length bytes ≡ length tail
    → write (front ++ tail) at bytes ≡ front ++ bytes
unfolding write
write_end front tail bytes at e h =
    let past : length (front ++ tail) ≤ at + length bytes =
      omega (arith, length-append front tail) in
    rw (take-append at front tail e, drop_all (at + length bytes) (front ++ tail) past, append-nil)

module _ (p : Primitives) (kdf_info key : Bytes) where
  abbrev pub ciphertext_of : Bytes → Bytes
  ciphertext_of plain =
      aes_encrypt_cbc p (derive_keys p kdf_info key).aes_key (derive_keys p kdf_info key).aes_iv
        plain

  -- The tag of the bytes in front of it.
  abbrev pub tag_of : Bytes → Bytes
  tag_of message = take mac_length (hmac_sha256 p (derive_keys p kdf_info key).mac_key message)

module _ (p : Primitives) (laws : PrimitiveLaws p) (kdf_info key : Bytes) where
  aes_iv-IsBuffer : IsBuffer 16 (derive_keys p kdf_info key).aes_iv
  unfolding derive_keys
  aes_iv-IsBuffer =
      let whole = hkdf_sha256-IsBuffer p laws key kdf_info none 80 (omega arith) in
      (
        omega (
          arith,
          length-take 16 (drop 64 (hkdf_sha256 p key none kdf_info 80)),
          length-drop 64 (hkdf_sha256 p key none kdf_info 80),
          whole.0,
        ),
        All-take IsByte 16 _ (All-drop IsByte 64 _ whole.1),
      )

  pub ciphertext_of-IsBuffer :
      (plain : Bytes)
      → IsBytes plain
      → IsBuffer (encrypt_ciphertext_length (length plain)) (ciphertext_of p kdf_info key plain)
  unfolding encrypt_ciphertext_length
  ciphertext_of-IsBuffer plain h = aes_encrypt_cbc-IsBuffer p laws _ _ plain aes_iv-IsBuffer h

  pub tag_of-IsBuffer : (message : Bytes) → IsBuffer 8 (tag_of p kdf_info key message)
  tag_of-IsBuffer message =
      let mac = hmac_sha256-IsBuffer p laws (derive_keys p kdf_info key).mac_key message in
      (
        omega (
          arith,
          length-take 8 (hmac_sha256 p (derive_keys p kdf_info key).mac_key message),
          mac.0,
        ),
        All-take IsByte 8 _ mac.1,
      )

  -- With primitives that keep the stated laws: For a plaintext of bytes and a buffer of a header,
  -- room for exactly the ciphertext, and eight bytes, `encrypt` succeeds and the buffer becomes
  -- the header, the ciphertext, and the truncated HMAC of both, whatever stood behind the header
  -- before.
  pub encrypt_lem :
      (plain header hole tail : Bytes)
      → IsBytes plain
      → length hole ≡ encrypt_ciphertext_length (length plain)
      → length tail ≡ mac_length
      → encrypt p kdf_info key plain (header ++ (hole ++ tail)) (length header) (length hole)
        ≡ some (
            (header ++ ciphertext_of p kdf_info key plain)
            ++ tag_of p kdf_info key (header ++ ciphertext_of p kdf_info key plain))
  unfolding encrypt
  encrypt_lem plain header hole tail hp hh ht =
      let ct = ciphertext_of p kdf_info key plain in
      let ct_length : length ct ≡ length hole = (ciphertext_of-IsBuffer plain hp).0 ∙ sym hh in
      let total : length (header ++ (hole ++ tail)) - 8 ≡ length (header ++ ct) = omega (
        arith,
        length-append header (hole ++ tail),
        length-append hole tail,
        length-append header ct,
        ct_length,
        ht,
      ) in
      let room : 8 ≤ length (header ++ (hole ++ tail)) =
        omega (arith, length-append header (hole ++ tail), length-append hole tail, ht) in
      rw (
        le→ltb (length hole) (encrypt_ciphertext_length (length plain)) (omega arith),
        le→ltb (length (header ++ (hole ++ tail))) 8 room,
        write_middle header hole tail ct ct_length,
        total,
        ← append_assoc header ct tail,
        take-append (length (header ++ ct)) (header ++ ct) tail refl,
        write_end (header ++ ct) tail (tag_of p kdf_info key (header ++ ct)) (length (header ++ ct))
            refl ((tag_of-IsBuffer (header ++ ct)).0 ∙ sym ht),
      )

  decrypt_split :
      (message tag ciphertext : Bytes) (max : ℕ)
      → length tag ≡ mac_length
      → decrypt p kdf_info key (message ++ tag) ciphertext max ≡ (
          if ltb max (length ciphertext) || false
          then failed
          else if is_equal tag (hmac_sha256 p (derive_keys p kdf_info key).mac_key message) 8
          then aes_decrypt_cbc p
              (derive_keys p kdf_info key).aes_key
              (derive_keys p kdf_info key).aes_iv
              ciphertext
          else failed)
  unfolding decrypt decrypt_max_plaintext_length
  decrypt_split message tag ciphertext max ht =
      let rest : length (message ++ tag) - 8 ≡ length message =
        omega (arith, length-append message tag, ht) in
      let room : 8 ≤ length (message ++ tag) = omega (arith, length-append message tag, ht) in
      rw (
        rest,
        le→ltb (length (message ++ tag)) 8 room,
        take-append (length message) message tag refl,
        drop-append (length message) message tag refl,
      )

  is_equal-tag_of :
      (message tag : Bytes)
      → length tag ≡ mac_length
      → (is_equal tag (hmac_sha256 p (derive_keys p kdf_info key).mac_key message) 8 ≡ true)
        ↔ (tag ≡ tag_of p kdf_info key message)
  is_equal-tag_of message tag ht =
      let mac = hmac_sha256-IsBuffer p laws (derive_keys p kdf_info key).mac_key message in
      rw (take_all 8 tag (omega (arith, ht))) at (
        is_equal_iff tag (hmac_sha256 p (derive_keys p kdf_info key).mac_key message) 8
          (omega (arith, ht)) (omega (arith, mac.0)))

  -- With primitives that keep the stated laws: For a plaintext of bytes, `decrypt` on a header,
  -- its ciphertext and the right tag returns the plaintext, where the ciphertext is no longer than
  -- the output buffer.
  pub decrypt-tag_of :
      (plain header : Bytes) (max : ℕ)
      → IsBytes plain
      → length (ciphertext_of p kdf_info key plain) ≤ max
      → decrypt p kdf_info key
          ((header ++ ciphertext_of p kdf_info key plain)
            ++ tag_of p kdf_info key (header ++ ciphertext_of p kdf_info key plain))
          (ciphertext_of p kdf_info key plain)
          max
        ≡ plaintext plain
  decrypt-tag_of plain header max hp hm =
      let message = header ++ ciphertext_of p kdf_info key plain in
      let tag = tag_of p kdf_info key message in
      let ht = (tag_of-IsBuffer message).0 in
      decrypt_split message tag (ciphertext_of p kdf_info key plain) max ht
      ∙ rw
          (
            le→ltb max (length (ciphertext_of p kdf_info key plain)) hm,
            (is_equal-tag_of message tag ht).1 refl,
          )
          (aes_decrypt_cbc-aes_encrypt_cbc p laws _ _ plain aes_iv-IsBuffer hp)

  -- With primitives that keep the stated laws: Whatever the ciphertext and the buffer size,
  -- `decrypt` fails on a message that ends in eight bytes other than the truncated HMAC of the
  -- bytes in front of them.
  pub decrypt_wrong_tag :
      (message tag ciphertext : Bytes) (max : ℕ)
      → length tag ≡ mac_length
      → tag ≢ tag_of p kdf_info key message
      → decrypt p kdf_info key (message ++ tag) ciphertext max ≡ failed
  decrypt_wrong_tag message tag ciphertext max ht bad =
      decrypt_split message tag ciphertext max ht
      ∙ elim (Bool-cases
          (is_equal tag (hmac_sha256 p (derive_keys p kdf_info key).mac_key message) 8)) [
            | inl same ↦ absurd (bad ((is_equal-tag_of message tag ht).0 same))
            | inr differs ↦ rw differs (ground arith)
          ]
