-- ===== src/Sas/Agreement.antt =====
-- The two sides of a short authentication string, src/sas.c.
use olm.Base.{
  ℕ, ◌≤◌, Bytes, IsBuffer, true, false, none, some, length, take, ltb, Bool-cases, inl, inr, le→ltb,
  take_all, ◌≡◌, refl, sym, ap, arith, ◌∙◌,
}
use olm.Base64.{encode_base64_length, encode_base64}
use olm.Base64.RoundTrip.{length-encode_base64, decode_base64-encode_base64}
use olm.Crypto.External.{Primitives, PrimitiveLaws}
use olm.Crypto.{
  curve25519_generate_key, curve25519_shared_secret, curve25519_basepoint, hkdf_sha256, hmac_sha256,
}
use olm.Sas.{
  sas_calculate_mac, sas_calculate_mac_long_kdf, OlmSas, create_sas_random_length,
  sas_pubkey_length, create_sas, sas_get_pubkey, sas_set_their_key, sas_generate_bytes,
  sas_mac_length, sas_hmac, sas_mac_checked, sas_calculate_mac_fixed_base64,
}

module _ (p : Primitives) where
  -- A side that was created from `random`, and the same side with the shared secret.
  abbrev pub created : OlmSas → Bytes → OlmSas
  created sas random = record sas {
    curve25519_key = curve25519_generate_key p random;
    their_key_set = false;
  }

  abbrev pub joined : OlmSas → Bytes → OlmSas
  joined sas secret = record sas { secret = secret; their_key_set = true }

module _ (p : Primitives) (laws : PrimitiveLaws p) where
  public_key-IsBuffer : (random : Bytes) → IsBuffer 32 (curve25519_generate_key p random).public_key
  unfolding curve25519_generate_key
  public_key-IsBuffer random = laws.curve25519_donna-IsBuffer (take 32 random) curve25519_basepoint

  secrets_agree :
      (ra rb : Bytes)
      → curve25519_shared_secret p
          (curve25519_generate_key p ra)
          (curve25519_generate_key p rb).public_key
        ≡ curve25519_shared_secret p
            (curve25519_generate_key p rb)
            (curve25519_generate_key p ra).public_key
  unfolding curve25519_generate_key curve25519_shared_secret
  secrets_agree ra rb = laws.curve25519_agreement (take 32 ra) (take 32 rb) curve25519_basepoint

  get_pubkey_text :
      (sas : OlmSas) (pubkey_length : ℕ)
      → IsBuffer 32 sas.curve25519_key.public_key
      → sas_pubkey_length ≤ pubkey_length
      → sas_get_pubkey sas pubkey_length ≡ (sas, some (encode_base64 sas.curve25519_key.public_key))
  unfolding sas_get_pubkey
  get_pubkey_text sas pubkey_length h hl = rw (
    le→ltb pubkey_length sas_pubkey_length hl,
    take_all 32 sas.curve25519_key.public_key (omega (arith, h.0)),
  )

  set_their_key_text :
      (sas : OlmSas) (public_key : Bytes)
      → IsBuffer 32 public_key
      → sas_set_their_key p sas (encode_base64 public_key)
        ≡ (joined p sas (curve25519_shared_secret p sas.curve25519_key public_key), some 0)
  unfolding sas_set_their_key sas_pubkey_length
  set_their_key_text sas public_key h =
      let room : ltb (length (encode_base64 public_key)) (encode_base64_length 32) ≡ false =
        rw (length-encode_base64 public_key, h.0) (le→ltb _ _ (omega arith)) in
      rw (
        room,
        decode_base64-encode_base64 public_key h.1,
        take_all 32 public_key (omega (arith, h.0)),
        sas_set_their_key,
      )

  create_sas-created :
      (sas : OlmSas) (random : Bytes)
      → 32 ≤ length random
      → create_sas p sas random ≡ (created p sas random, some 0)
  unfolding create_sas create_sas_random_length
  create_sas-created sas random h = rw (le→ltb (length random) 32 h)

  generate_bytes_joined :
      (sas : OlmSas) (secret info : Bytes) (n : ℕ)
      → sas_generate_bytes p (joined p sas secret) info n
        ≡ (joined p sas secret, some (hkdf_sha256 p secret none info n))
  unfolding sas_generate_bytes
  generate_bytes_joined sas secret info n = refl

  mac_joined :
      (sas : OlmSas) (secret input info : Bytes) (mac_length : ℕ)
      → sas_mac_length ≤ mac_length
      → sas_calculate_mac_fixed_base64 p (joined p sas secret) input info mac_length ≡ (
        joined p sas secret,
        some (encode_base64 (hmac_sha256 p (hkdf_sha256 p secret none info 32) input)),
      )
  unfolding sas_calculate_mac_fixed_base64 sas_mac_checked sas_hmac
  mac_joined sas secret input info mac_length h = rw (le→ltb mac_length sas_mac_length h)

  -- With primitives that keep the stated laws: Two objects are created from at least 32 random
  -- bytes each, and each is given the text of the other's public key, with room in the buffers:
  -- every call succeeds, and both hold one secret, the Curve25519 secret of the first generated
  -- pair and the second public key. For the same info and input both then generate the same bytes,
  -- the HKDF of the secret and the info, and with `sas_calculate_mac_fixed_base64` the same MAC,
  -- the base64 form of the HMAC of the input under 32 bytes derived from secret and info; neither
  -- call changes its object.
  pub sas_agreement :
      (alice bob : OlmSas) (ra rb info input : Bytes) (n buffer_length : ℕ)
      → 32 ≤ length ra
      → 32 ≤ length rb
      → sas_pubkey_length ≤ buffer_length
      → sas_mac_length ≤ buffer_length
      → (alice' : OlmSas) × (bob' : OlmSas) × (key_a : Bytes) × (key_b : Bytes) × (secret : Bytes)
        × (secret
            ≡ curve25519_shared_secret p
                (curve25519_generate_key p ra)
                (curve25519_generate_key p rb).public_key)
        × (create_sas p alice ra ≡ (alice', some 0))
        × (create_sas p bob rb ≡ (bob', some 0))
        × (sas_get_pubkey alice' buffer_length ≡ (alice', some key_a))
        × (sas_get_pubkey bob' buffer_length ≡ (bob', some key_b))
        × (sas_set_their_key p alice' key_b ≡ (joined p alice' secret, some 0))
        × (sas_set_their_key p bob' key_a ≡ (joined p bob' secret, some 0))
        × (sas_generate_bytes p (joined p alice' secret) info n
            ≡ (joined p alice' secret, some (hkdf_sha256 p secret none info n)))
        × (sas_generate_bytes p (joined p bob' secret) info n
            ≡ (joined p bob' secret, some (hkdf_sha256 p secret none info n)))
        × (sas_calculate_mac_fixed_base64 p (joined p alice' secret) input info buffer_length ≡ (
          joined p alice' secret,
          some (encode_base64 (hmac_sha256 p (hkdf_sha256 p secret none info 32) input)),
        ))
        × (sas_calculate_mac_fixed_base64 p (joined p bob' secret) input info buffer_length ≡ (
          joined p bob' secret,
          some (encode_base64 (hmac_sha256 p (hkdf_sha256 p secret none info 32) input)),
        ))
  sas_agreement alice bob ra rb info input n buffer_length ha hb hk hm =
      let alice' = created p alice ra in
      let bob' = created p bob rb in
      let pa = public_key-IsBuffer ra in
      let pb = public_key-IsBuffer rb in
      let key_a = alice'.curve25519_key.public_key in
      let key_b = bob'.curve25519_key.public_key in
      let secret = curve25519_shared_secret p alice'.curve25519_key key_b in
      (
        alice',
        bob',
        encode_base64 key_a,
        encode_base64 key_b,
        secret,
        refl,
        create_sas-created alice ra ha,
        create_sas-created bob rb hb,
        get_pubkey_text alice' buffer_length pa hk,
        get_pubkey_text bob' buffer_length pb hk,
        set_their_key_text alice' key_b pb,
        set_their_key_text bob' key_a pa
            ∙ ap (λ (s : Bytes). (joined p bob' s, some 0)) (sym (secrets_agree ra rb)),
        generate_bytes_joined alice' secret info n,
        generate_bytes_joined bob' secret info n,
        mac_joined alice' secret input info buffer_length hm,
        mac_joined bob' secret input info buffer_length hm,
      )

module _ (p : Primitives) where
  mac_without_key :
      (sas : OlmSas) (key_length : ℕ) (encode : Bytes → Bytes) (mac_length : ℕ) (input info : Bytes)
      → sas.their_key_set ≡ false
      → (sas_mac_checked p sas key_length encode mac_length input info).1 ≡ none
  unfolding sas_mac_checked
  mac_without_key sas key_length encode mac_length input info h =
      elim (Bool-cases (ltb mac_length sas_mac_length)) [
        | inl short ↦ rw short
        | inr room ↦ rw (room, h)
      ]

  -- Before the other side's key is set, neither bytes nor any of the three MACs is given out,
  -- whatever the arguments and buffer sizes.
  pub sas_needs_their_key :
      (sas : OlmSas) (input info mac : Bytes) (n : ℕ)
      → sas.their_key_set ≡ false
      → ((sas_generate_bytes p sas info n).1 ≡ none)
        × ((sas_calculate_mac_fixed_base64 p sas input info n).1 ≡ none)
        × ((sas_calculate_mac p sas input info mac).1 ≡ none)
        × ((sas_calculate_mac_long_kdf p sas input info mac).1 ≡ none)
  unfolding sas_generate_bytes sas_calculate_mac_fixed_base64 sas_calculate_mac
      sas_calculate_mac_long_kdf
  sas_needs_their_key sas input info mac n h = (
    rw h,
    mac_without_key sas 32 encode_base64 n input info h,
    mac_without_key sas 32 _ (length mac) input info h,
    mac_without_key sas 256 _ (length mac) input info h,
  )
