-- ===== src/Ratchet/KeySizes.antt =====
-- The sizes of the keys of src/ratchet.cpp.
use olm.Base.{◌^◌, ◌≤◌, ◌<◌, Bytes, some, length, take, drop, length-take, length-drop, ◌≡◌, arith}
use olm.Pickle.{KeyPair}
use olm.Crypto.External.{Primitives, PrimitiveLaws}
use olm.Crypto.{curve25519_generate_key}
use olm.Crypto.Hmac.{hmac_sha256-IsBuffer, hkdf_sha256-IsBuffer}
use olm.Ratchet.{
  ChainKey, MessageKey, SenderChain, ReceiverChain, SkippedMessageKey, KdfInfo, create_chain_key,
  advance_chain_key, create_message_keys,
}

abbrev pub IsChainKey : ChainKey → Type 0
IsChainKey chain_key = (chain_key.index < 2 ^ 32) × (length chain_key.key ≡ 32)

abbrev pub IsMessageKey : MessageKey → Type 0
IsMessageKey message_key = (message_key.index < 2 ^ 32) × (length message_key.key ≡ 32)

abbrev pub IsKeyPair : KeyPair → Type 0
IsKeyPair pair = (length pair.public_key ≡ 32) × (length pair.private_key ≡ 32)

abbrev pub IsSenderChain : SenderChain → Type 0
IsSenderChain chain = IsKeyPair chain.ratchet_key × IsChainKey chain.chain_key

abbrev pub IsReceiverChain : ReceiverChain → Type 0
IsReceiverChain chain = (length chain.ratchet_key ≡ 32) × IsChainKey chain.chain_key

abbrev pub IsSkippedKey : SkippedMessageKey → Type 0
IsSkippedKey key = (length key.ratchet_key ≡ 32) × IsMessageKey key.message_key

-- Both halves of the 64 bytes.
pub halves :
    (bytes : Bytes)
    → length bytes ≡ 64
    → (length (take 32 bytes) ≡ 32) × (length (take 32 (drop 32 bytes)) ≡ 32)
halves bytes h = (
  omega (arith, length-take 32 bytes),
  omega (arith, length-take 32 (drop 32 bytes), length-drop 32 bytes),
)

module _ (p : Primitives) (laws : PrimitiveLaws p) where
  pub advance_chain_key-IsChainKey : (c : ChainKey) → IsChainKey (advance_chain_key p c)
  unfolding advance_chain_key
  advance_chain_key-IsChainKey c = (omega arith, (hmac_sha256-IsBuffer p laws _ _).0)

  pub create_message_keys-IsMessageKey :
      (c : ChainKey) → IsChainKey c → IsMessageKey (create_message_keys p c)
  unfolding create_message_keys
  create_message_keys-IsMessageKey c h = (h.0, (hmac_sha256-IsBuffer p laws _ _).0)

  pub create_chain_key-IsChainKey :
      (root_key : Bytes) (ours : KeyPair) (theirs : Bytes) (info : KdfInfo)
      → (length (create_chain_key p root_key ours theirs info).0 ≡ 32)
        × IsChainKey (create_chain_key p root_key ours theirs info).1
  unfolding create_chain_key
  create_chain_key-IsChainKey root_key ours theirs info =
      let (first, second) =
        halves _
          (hkdf_sha256-IsBuffer p laws _ info.ratchet_info (some root_key) 64 (omega arith)).0 in
      (first, (omega arith, second))

  pub curve25519_generate_key-IsKeyPair :
      (random : Bytes) → 32 ≤ length random → IsKeyPair (curve25519_generate_key p random)
  unfolding curve25519_generate_key
  curve25519_generate_key-IsKeyPair random h =
      ((laws.curve25519_donna-IsBuffer _ _).0, omega (arith, length-take 32 random))
