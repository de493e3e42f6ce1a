-- ===== src/Crypto/External.antt =====
-- The cryptographic primitives that the library takes from third-party code, as parameters, and
-- what it relies on of them: sizes, decryption after encryption, verification after signing, and
-- the agreement of a key exchange. No security property is stated.
use olm.Base.{Bytes, Bool, true, ◌≡◌, IsBuffer}
use olm.Pickle.{KeyPair}

-- `sha256` is `sha256_init`, `sha256_update` and `sha256_final` on the whole input. The AES
-- functions are `aes_key_setup` with one call on one block.
pub record Primitives : Type 0 where
  pub sha256 : Bytes → Bytes
  pub aes_encrypt : Bytes → Bytes → Bytes
  pub aes_decrypt : Bytes → Bytes → Bytes
  pub ed25519_create_keypair : Bytes → KeyPair
  pub ed25519_sign : Bytes → Bytes → Bytes → Bytes
  pub ed25519_verify : Bytes → Bytes → Bytes → Bool
  pub curve25519_donna : Bytes → Bytes → Bytes

pub record PrimitiveLaws (p : Primitives) : Type 0 where
  pub sha256-IsBuffer : (input : Bytes) → IsBuffer 32 (p.sha256 input)
  pub aes_encrypt-IsBuffer :
      (key block : Bytes) → IsBuffer 16 block → IsBuffer 16 (p.aes_encrypt key block)
  pub aes_decrypt-aes_encrypt :
      (key block : Bytes) → IsBuffer 16 block → p.aes_decrypt key (p.aes_encrypt key block) ≡ block
  pub public_key-IsBuffer : (seed : Bytes) → IsBuffer 32 (p.ed25519_create_keypair seed).public_key
  pub private_key-IsBuffer :
      (seed : Bytes) → IsBuffer 64 (p.ed25519_create_keypair seed).private_key
  pub ed25519_sign-IsBuffer :
      (message public_key private_key : Bytes)
      → IsBuffer 64 (p.ed25519_sign message public_key private_key)
  pub ed25519_verify-ed25519_sign :
      (seed message : Bytes)
      → p.ed25519_verify
          (p.ed25519_sign message
            (p.ed25519_create_keypair seed).public_key
            (p.ed25519_create_keypair seed).private_key)
          message
          (p.ed25519_create_keypair seed).public_key
        ≡ true
  pub curve25519_donna-IsBuffer :
      (secret point : Bytes) → IsBuffer 32 (p.curve25519_donna secret point)
  pub curve25519_agreement :
      (a b point : Bytes)
      → p.curve25519_donna a (p.curve25519_donna b point)
        ≡ p.curve25519_donna b (p.curve25519_donna a point)
