-- ===== src/Tests/Strings.antt =====
-- Examples for src/sas.c.
use olm.Base.{none, ◌≤◌, Bytes, false, some, replicate, ◌≡◌, refl, arith}
use olm.Base64.{encode_base64_length}
use olm.Sas.{
  OlmSas, clear_sas, create_sas, sas_get_pubkey, sas_set_their_key, sas_pubkey_length,
  sas_generate_bytes, sas_mac_length, sas_calculate_mac_fixed_base64,
}
use olm.Crypto.{curve25519_generate_key, curve25519_shared_secret, hkdf_sha256, hmac_sha256}
use olm.Base64.{encode_base64}
use olm.Sas.Agreement.{joined, sas_agreement}
use olm.Tests.{toy, toy_laws, two_bytes, some_key}

abbrev random : Bytes
random = replicate 32 5

key_fits : sas_pubkey_length ≤ 60
unfolding sas_pubkey_length encode_base64_length
key_fits = omega arith

mac_fits : sas_mac_length ≤ 60
unfolding sas_mac_length encode_base64_length
mac_fits = omega arith

sas_agreement_example :
    (alice' : OlmSas) × (bob' : OlmSas) × (key_a : Bytes) × (key_b : Bytes) × (secret : Bytes)
    × (secret
        ≡ curve25519_shared_secret toy
            (curve25519_generate_key toy random)
            (curve25519_generate_key toy random).public_key)
    × (create_sas toy clear_sas random ≡ (alice', some 0))
    × (create_sas toy clear_sas random ≡ (bob', some 0))
    × (sas_get_pubkey alice' 60 ≡ (alice', some key_a))
    × (sas_get_pubkey bob' 60 ≡ (bob', some key_b))
    × (sas_set_their_key toy alice' key_b ≡ (joined toy alice' secret, some 0))
    × (sas_set_their_key toy bob' key_a ≡ (joined toy bob' secret, some 0))
    × (sas_generate_bytes toy (joined toy alice' secret) two_bytes 7
        ≡ (joined toy alice' secret, some (hkdf_sha256 toy secret none two_bytes 7)))
    × (sas_generate_bytes toy (joined toy bob' secret) two_bytes 7
        ≡ (joined toy bob' secret, some (hkdf_sha256 toy secret none two_bytes 7)))
    × (sas_calculate_mac_fixed_base64 toy (joined toy alice' secret) some_key two_bytes 60 ≡ (
      joined toy alice' secret,
      some (encode_base64 (hmac_sha256 toy (hkdf_sha256 toy secret none two_bytes 32) some_key)),
    ))
    × (sas_calculate_mac_fixed_base64 toy (joined toy bob' secret) some_key two_bytes 60 ≡ (
      joined toy bob' secret,
      some (encode_base64 (hmac_sha256 toy (hkdf_sha256 toy secret none two_bytes 32) some_key)),
    ))
sas_agreement_example =
    sas_agreement toy toy_laws clear_sas clear_sas random random two_bytes some_key 7 60
      (omega arith) (omega arith) key_fits mac_fits

no_key : clear_sas.their_key_set ≡ false
unfolding clear_sas
no_key = refl
