-- ===== src/Tests.antt =====
-- Concrete primitives and sessions on which the theorems and the definitions are tried. The
-- primitives have the sizes and the laws of the real ones, and nothing of their strength.
mod Codecs
mod Crypto
mod Sessions
mod Strings
mod Messages
mod Lists
mod Ratchet
mod Session
use olm.Base.{
  ℕ, ◌+◌, ◌%◌, ◌<◌, Bytes, IsByte, IsBytes, IsBuffer, Bool, true, false, [], ◌∷◌, length, get_or,
  replicate, ◌==◌, length-replicate, All-replicate, ◌≡◌, refl, ap, arith,
}
use olm.Pickle.{KeyPair}
use olm.Crypto.External.{Primitives, PrimitiveLaws}
use olm.Megolm.{Megolm, Parts}
use olm.Megolm.Pickling.{IsMegolm}

abbrev pub toy : Primitives
toy = record {
  sha256 = λ input. replicate 32 (length input % 251);
  aes_encrypt = λ key block. block;
  aes_decrypt = λ key block. block;
  ed25519_create_keypair = λ seed. record {
    public_key = replicate 32 (length seed % 256);
    private_key = replicate 64 (length seed % 256);
  };
  ed25519_sign = λ message public_key private_key. replicate 64 1;
  ed25519_verify = λ signature message public_key. get_or signature 0 0 == 1;
  curve25519_donna = λ secret point. replicate 32 ((get_or secret 0 0 + get_or point 0 0) % 256);
}

replicate-IsBuffer : (n b : ℕ) → IsByte b → IsBuffer n (replicate n b)
replicate-IsBuffer n b h = (length-replicate n b, All-replicate IsByte n b h)

toy_agreement : (a b point : ℕ) → (a + (b + point) % 256) % 256 ≡ (b + (a + point) % 256) % 256
toy_agreement a b point = omega arith

pub toy_laws : PrimitiveLaws toy
toy_laws = record {
  sha256-IsBuffer = λ input. replicate-IsBuffer 32 (length input % 251) (omega arith);
  aes_encrypt-IsBuffer = λ key block h. h;
  aes_decrypt-aes_encrypt = λ key block h. refl;
  public_key-IsBuffer = λ seed. replicate-IsBuffer 32 (length seed % 256) (omega arith);
  private_key-IsBuffer = λ seed. replicate-IsBuffer 64 (length seed % 256) (omega arith);
  ed25519_sign-IsBuffer = λ message public_key private_key. replicate-IsBuffer 64 1 (omega arith);
  ed25519_verify-ed25519_sign = λ seed message. refl;
  curve25519_donna-IsBuffer = λ secret point.
      replicate-IsBuffer 32 ((get_or secret 0 0 + get_or point 0 0) % 256) (omega arith);
  curve25519_agreement = λ a b point.
      ap (replicate 32) (toy_agreement (get_or a 0 0) (get_or b 0 0) (get_or point 0 0));
}

abbrev pub two_bytes : Bytes
two_bytes = 7 ∷ 200 ∷ []

abbrev pub some_key : Bytes
some_key = 1 ∷ 2 ∷ 3 ∷ []

-- A ratchet in front of the wrap of its counter.
abbrev pub some_ratchet : Megolm
some_ratchet = record {
  data_parts = record {
    r0 = replicate 32 10;
    r1 = replicate 32 11;
    r2 = replicate 32 12;
    r3 = replicate 32 13;
  };
  counter = 4294967290;
}

pub some_ratchet-IsMegolm : IsMegolm some_ratchet
some_ratchet-IsMegolm = record {
  r0_bytes = replicate-IsBuffer 32 10 (omega arith);
  r1_bytes = replicate-IsBuffer 32 11 (omega arith);
  r2_bytes = replicate-IsBuffer 32 12 (omega arith);
  r3_bytes = replicate-IsBuffer 32 13 (omega arith);
  counter_bits = omega arith;
}
