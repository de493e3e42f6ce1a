-- ===== src/Tests/Crypto.antt =====
-- Examples for src/crypto.cpp, src/cipher.cpp, src/pickle_encoding.c and src/megolm.c.
use olm.Base.{
  ◌+◌, ◌≤◌, Bytes, IsBuffer, none, ◌++◌, length, take, replicate, get_or, ◌≡◌, ◌≢◌, refl, ap, arith,
}
use olm.Crypto.{
  plaintext, failed, aes_encrypt_cbc, aes_decrypt_cbc, aes_encrypt_cbc_length, hkdf_sha256,
  hmac_sha256, hmac_sha256_final,
}
use olm.Crypto.Cbc.{aes_decrypt_cbc-aes_encrypt_cbc}
use olm.Crypto.Hmac.{okm, extract, default_salt, hkdf_sha256-eq-okm}
use olm.Cipher.{decrypt, encrypt_ciphertext_length}
use olm.Cipher.RoundTrip.{ciphertext_of, tag_of, ciphertext_of-IsBuffer, decrypt_wrong_tag}
use olm.Megolm.{megolm_advance_to}
use olm.Megolm.Advance.{advance_times, megolm_advance_to-eq-advance_times}
use olm.Tests.{toy, toy_laws, two_bytes, some_key, some_ratchet}
use olm.Tests.Codecs.{two_bytes-IsBytes}

abbrev zero_iv : Bytes
zero_iv = replicate 16 0

abbrev hole : Bytes
hole = replicate 16 5

abbrev tail : Bytes
tail = replicate 8 6

zero_iv-IsBuffer : IsBuffer 16 zero_iv
zero_iv-IsBuffer = (refl, ground arith)

aes_decrypt_cbc-aes_encrypt_cbc_example :
    aes_decrypt_cbc toy some_key zero_iv (aes_encrypt_cbc toy some_key zero_iv two_bytes)
    ≡ plaintext two_bytes
aes_decrypt_cbc-aes_encrypt_cbc_example =
    aes_decrypt_cbc-aes_encrypt_cbc toy toy_laws some_key zero_iv two_bytes zero_iv-IsBuffer
      two_bytes-IsBytes

hkdf_sha256-eq-okm_example :
    hkdf_sha256 toy some_key none two_bytes 80
    ≡ take 80 (okm toy (extract toy (default_salt none) some_key) two_bytes 3)
hkdf_sha256-eq-okm_example =
    hkdf_sha256-eq-okm toy toy_laws some_key two_bytes none 80 3 (omega arith) (omega arith)
      (omega arith)

room_for_two : length hole ≡ encrypt_ciphertext_length 2
unfolding encrypt_ciphertext_length aes_encrypt_cbc_length
room_for_two = refl

ciphertext_fits : length (ciphertext_of toy two_bytes some_key two_bytes) ≤ 16
unfolding encrypt_ciphertext_length aes_encrypt_cbc_length
ciphertext_fits =
    omega
      (arith, ciphertext_of-IsBuffer toy toy_laws two_bytes some_key two_bytes two_bytes-IsBytes)

wrong_tag : replicate 8 255 ≢ tag_of toy two_bytes some_key some_key
unfolding hmac_sha256 hmac_sha256_final
wrong_tag e = absurd (omega (arith, ap (λ (t : Bytes). get_or t 0 0) e))

decrypt_wrong_tag_example :
    decrypt toy two_bytes some_key (some_key ++ replicate 8 255) two_bytes 16 ≡ failed
decrypt_wrong_tag_example =
    decrypt_wrong_tag toy toy_laws two_bytes some_key some_key (replicate 8 255) two_bytes 16 refl
      wrong_tag

room_behind : length (two_bytes ++ replicate 22 5) ≡ encrypt_ciphertext_length 2 + 8
unfolding encrypt_ciphertext_length aes_encrypt_cbc_length
room_behind = refl

megolm_advance_to-eq-advance_times_example :
    megolm_advance_to toy some_ratchet 2 ≡ advance_times toy 8 some_ratchet
megolm_advance_to-eq-advance_times_example =
    megolm_advance_to-eq-advance_times toy some_ratchet 2 (omega arith) (omega arith)
