-- ===== src/PickleEncoding/RoundTrip.antt =====
-- Encrypted pickles of src/pickle_encoding.c.
use olm.Base.{
  drop, length-take, length-drop, false, ℕ, ◌+◌, ◌-◌, ◌≤◌, Bytes, IsByte, IsBytes, some, [], ◌++◌,
  length, take, ltb, le→ltb, length-append, take-append, All-append, ◌≡◌, refl, ap, arith, ◌∙◌,
}
use olm.Error.{ErrorCode}
use olm.Base64.{encode_base64_length, encode_base64, decode_base64}
use olm.Base64.RoundTrip.{length-encode_base64, decode_base64-encode_base64}
use olm.Crypto.External.{Primitives, PrimitiveLaws}
use olm.Crypto.{plaintext, aes_encrypt_cbc_length}
use olm.Cipher.{mac_length, encrypt_ciphertext_length, encrypt, decrypt}
use olm.Cipher.RoundTrip.{
  ciphertext_of, tag_of, ciphertext_of-IsBuffer, tag_of-IsBuffer, decrypt-tag_of,
}
use olm.Cipher.Room.{encrypt_in_room}
use olm.PickleEncoding.{pickle_cipher, enc_output_length, enc_output, enc_input}

module _ (p : Primitives) (laws : PrimitiveLaws p) (key : Bytes) where
  sealed : Bytes → Bytes
  sealed raw =
      ciphertext_of p pickle_cipher key raw
      ++ tag_of p pickle_cipher key (ciphertext_of p pickle_cipher key raw)

  enc_output_exact :
      (raw behind : Bytes)
      → IsBytes raw
      → length (raw ++ behind) ≡ encrypt_ciphertext_length (length raw) + mac_length
      → enc_output p key raw behind ≡ some (encode_base64 (sealed raw))
  unfolding enc_output sealed
  enc_output_exact raw behind h hb =
      let n = encrypt_ciphertext_length (length raw) in
      let written : encrypt p pickle_cipher key raw (raw ++ behind) 0 n ≡ some (sealed raw) =
        encrypt_in_room p laws pickle_cipher key raw [] (raw ++ behind) n h refl hb in
      rw (written, enc_output)

  sealed-IsBytes : (raw : Bytes) → IsBytes raw → IsBytes (sealed raw)
  unfolding sealed
  sealed-IsBytes raw h =
      All-append IsByte _ _ (ciphertext_of-IsBuffer p laws pickle_cipher key raw h).1
        (tag_of-IsBuffer p laws pickle_cipher key (ciphertext_of p pickle_cipher key raw)).1

  length-sealed :
      (raw : Bytes) → IsBytes raw → length (sealed raw) ≡ encrypt_ciphertext_length (length raw) + 8
  unfolding sealed
  length-sealed raw h =
      let ct = ciphertext_of p pickle_cipher key raw in
      omega (
        arith,
        length-append ct (tag_of p pickle_cipher key ct),
        (ciphertext_of-IsBuffer p laws pickle_cipher key raw h).0,
        (tag_of-IsBuffer p laws pickle_cipher key ct).0,
      )

  enc_input-decoded :
      (text ct tag raw : Bytes) (last_error : ErrorCode)
      → decode_base64 text ≡ some (ct ++ tag)
      → length tag ≡ 8
      → decrypt p pickle_cipher key (ct ++ tag) ct (length ct) ≡ plaintext raw
      → enc_input p key text last_error ≡ (last_error, plaintext raw)
  unfolding enc_input
  enc_input-decoded text ct tag raw last_error he ht hd =
      let whole = length-append ct tag in
      let rest : length (ct ++ tag) - 8 ≡ length ct = omega (arith, whole, ht) in
      let room : ltb (length (ct ++ tag)) 8 ≡ false =
        le→ltb (length (ct ++ tag)) 8 (omega (arith, whole, ht)) in
      rw (he, room, rest, take-append (length ct) ct tag refl, hd, enc_input)

  enc_input-sealed :
      (raw : Bytes) (last_error : ErrorCode)
      → IsBytes raw
      → enc_input p key (encode_base64 (sealed raw)) last_error ≡ (last_error, plaintext raw)
  unfolding sealed
  enc_input-sealed raw last_error h =
      let ct = ciphertext_of p pickle_cipher key raw in
      let tag = tag_of p pickle_cipher key ct in
      let decoded : decode_base64 (encode_base64 (sealed raw)) ≡ some (ct ++ tag) =
        decode_base64-encode_base64 (sealed raw) (sealed-IsBytes raw h) in
      enc_input-decoded (encode_base64 (sealed raw)) ct tag raw last_error decoded
        (tag_of-IsBuffer p laws pickle_cipher key ct).0
        (decrypt-tag_of p laws pickle_cipher key raw [] (length ct) h (omega arith))

  -- With primitives that keep the stated laws: For a raw pickle of bytes in a buffer with just the
  -- room for ciphertext and MAC, `enc_output` returns a text of the announced length, and
  -- `enc_input` on the text with the same key returns the raw pickle and keeps the last error.
  pub enc_input-enc_output :
      (raw behind : Bytes) (last_error : ErrorCode)
      → IsBytes raw
      → length (raw ++ behind) ≡ encrypt_ciphertext_length (length raw) + mac_length
      → (text : Bytes) × (enc_output p key raw behind ≡ some text)
        × (length text ≡ enc_output_length (length raw))
        × (enc_input p key text last_error ≡ (last_error, plaintext raw))
  unfolding enc_output_length
  enc_input-enc_output raw behind last_error h hb =
      let text_length =
        length-encode_base64 (sealed raw) ∙ ap encode_base64_length (length-sealed raw h) in
      (
        encode_base64 (sealed raw),
        enc_output_exact raw behind h hb,
        text_length,
        enc_input-sealed raw last_error h,
      )

-- The raw pickle with what follows it in the output buffer fills the room for the cipher.
pub length-output_pos :
    (n : ℕ) (raw pickled : Bytes)
    → length raw ≡ n
    → enc_output_length n ≤ length pickled
    → length (
        raw
        ++ drop n (
            take
              (encrypt_ciphertext_length n + mac_length)
              (drop (enc_output_length n - (encrypt_ciphertext_length n + mac_length)) pickled)))
      ≡ encrypt_ciphertext_length (length raw) + mac_length
unfolding enc_output_length encode_base64_length encrypt_ciphertext_length aes_encrypt_cbc_length
length-output_pos n raw pickled hn h =
    let m = encrypt_ciphertext_length n + mac_length in
    let at = enc_output_length n - m in
    let room = take m (drop at pickled) in
    let same : encrypt_ciphertext_length (length raw) ≡ encrypt_ciphertext_length n =
      ap encrypt_ciphertext_length hn in
    omega (
      arith,
      length-append raw (drop n room),
      length-drop n room,
      length-take m (drop at pickled),
      length-drop at pickled,
      hn,
      h,
      same,
    )
