-- ===== src/Ratchet.antt =====
-- src/ratchet.cpp: the double ratchet of a session between two devices, its keys and chains.
-- A bounded list of the source is the list of its items. A result `none` is `size_t(-1)`. What is
-- only wiped from the stack is left out.
pub mod Encrypting
pub mod Decryption
pub mod Chains
pub mod Messages
pub mod Sending
pub mod Receiving
pub mod Delivery
pub mod NewChain
pub mod Turns
pub mod Replies
pub mod Conversation
pub mod Cases
pub mod Failure
pub mod KeySizes
pub mod Invariant
pub mod Stored
pub mod Restored
pub mod Skipped
pub mod Past
pub mod Late
pub mod Counters
pub mod Spending
pub mod Spent
pub mod SpentCalls
pub mod Replay
use olm.Base.{
  ℕ, zero, suc, ◌+◌, ◌-◌, ◌*◌, ◌%◌, ◌^◌, Bytes, Bool, true, false, none, some, List, [], ◌∷◌, take,
  drop, length, ltb, if◌then◌else◌,
}
use olm.Error.{
  ErrorCode, success, bad_message_mac, already_decrypted_or_keys_skipped, max_message_gap_exceeded,
  sender_chain_not_acknowledged,
}
use olm.BoundedList.{insert_front}
use olm.Pickle.{KeyPair}
use olm.Crypto.External.{Primitives}
use olm.Crypto.{Decrypted, failed, hmac_sha256, hkdf_sha256, curve25519_shared_secret}
use olm.Cipher.{decrypt}

abbrev pub protocol_version : ℕ
protocol_version = 3

abbrev pub message_key_seed : Bytes
message_key_seed = 0x01 ∷ []

abbrev pub chain_key_seed : Bytes
chain_key_seed = 0x02 ∷ []

abbrev pub max_message_gap : ℕ
max_message_gap = 2000

abbrev pub olm_shared_key_length : ℕ
olm_shared_key_length = 32

abbrev pub max_receiver_chains : ℕ
max_receiver_chains = 5

abbrev pub max_skipped_message_keys : ℕ
max_skipped_message_keys = 40

pub record ChainKey : Type 0 where
  pub index : ℕ
  pub key : Bytes

pub record MessageKey : Type 0 where
  pub index : ℕ
  pub key : Bytes

pub record SenderChain : Type 0 where
  pub ratchet_key : KeyPair
  pub chain_key : ChainKey

pub record ReceiverChain : Type 0 where
  pub ratchet_key : Bytes
  pub chain_key : ChainKey

pub record SkippedMessageKey : Type 0 where
  pub ratchet_key : Bytes
  pub message_key : MessageKey

pub record KdfInfo : Type 0 where
  pub root_info : Bytes
  pub ratchet_info : Bytes

-- `ratchet_cipher` is the key derivation info of the cipher, whose operations are those of
-- src/cipher.cpp.
pub record Ratchet : Type 0 where
  pub kdf_info : KdfInfo
  pub ratchet_cipher : Bytes
  pub last_error : ErrorCode
  pub root_key : Bytes
  pub sender_chain : List SenderChain
  pub receiver_chains : List ReceiverChain
  pub skipped_message_keys : List SkippedMessageKey

-- What the decryption reads of a message whose pointers are not null.
pub record Received : Type 0 where
  pub input : Bytes
  pub counter : ℕ
  pub ratchet_key : Bytes
  pub ciphertext : Bytes

-- The constructor; `root_key` is what the memory holds.
unfoldable pub new_ratchet : KdfInfo → Bytes → Bytes → Ratchet
new_ratchet kdf_info ratchet_cipher root_key = record {
  kdf_info = kdf_info;
  ratchet_cipher = ratchet_cipher;
  last_error = success;
  root_key = root_key;
  sender_chain = [];
  receiver_chains = [];
  skipped_message_keys = [];
}

abbrev pub ratchet_fail : Ratchet → ErrorCode → Ratchet
ratchet_fail session error = record session { last_error = error }

module _ (p : Primitives) where
  -- The new root key and the new chain key.
  unfoldable pub create_chain_key : Bytes → KeyPair → Bytes → KdfInfo → Bytes × ChainKey
  create_chain_key root_key our_key their_key info =
      let secret = curve25519_shared_secret p our_key their_key in
      let derived_secrets =
        hkdf_sha256 p secret (some root_key) info.ratchet_info (2 * olm_shared_key_length) in
      (
        take olm_shared_key_length derived_secrets,
        record {
          index = 0;
          key = take olm_shared_key_length (drop olm_shared_key_length derived_secrets);
        },
      )

  unfoldable pub advance_chain_key : ChainKey → ChainKey
  advance_chain_key chain_key = record {
    index = (chain_key.index + 1) % 2 ^ 32;
    key = hmac_sha256 p chain_key.key chain_key_seed;
  }

  -- The `info` of the source is not used there.
  unfoldable pub create_message_keys : ChainKey → MessageKey
  create_message_keys chain_key = record {
    index = chain_key.index;
    key = hmac_sha256 p chain_key.key message_key_seed;
  }

  unfoldable pub verify_mac_and_decrypt : Bytes → MessageKey → Received → ℕ → Decrypted
  verify_mac_and_decrypt cipher message_key reader max_plaintext_length =
      decrypt p cipher message_key.key reader.input reader.ciphertext max_plaintext_length

  -- `while (new_chain.index < counter) { advance_chain_key(…) }` on fuel; the index grows by one in
  -- each round, so `counter - index` is enough.
  unfoldable pub advance_to : ℕ → ℕ → ChainKey → ChainKey
  advance_to zero counter chain_key = chain_key
  advance_to (suc fuel) counter chain_key = elim (ltb chain_key.index counter) [
    | true ↦ advance_to fuel counter (advance_chain_key chain_key)
    | false ↦ chain_key
  ]

  -- The first result is `last_error` afterwards.
  unfoldable pub verify_mac_and_decrypt_for_existing_chain :
      Ratchet → ChainKey → Received → ℕ → ErrorCode × Decrypted
  verify_mac_and_decrypt_for_existing_chain session chain reader max_plaintext_length =
      if ltb reader.counter chain.index
      then (already_decrypted_or_keys_skipped, failed)
      else if ltb max_message_gap (reader.counter - chain.index)
      then (max_message_gap_exceeded, failed)
      else (
        session.last_error,
        verify_mac_and_decrypt session.ratchet_cipher
            (create_message_keys (advance_to (reader.counter - chain.index) reader.counter chain))
            reader max_plaintext_length,
      )

  unfoldable pub verify_mac_and_decrypt_for_new_chain :
      Ratchet → Received → ℕ → ErrorCode × Decrypted
  verify_mac_and_decrypt_for_new_chain session reader max_plaintext_length =
      elim session.sender_chain [
        | [] ↦ (sender_chain_not_acknowledged, failed)
        | sender ∷ _ ↦
            if ltb max_message_gap reader.counter
            then (max_message_gap_exceeded, failed)
            else (let (new_root_key, new_chain_key) =
                  create_chain_key session.root_key sender.ratchet_key reader.ratchet_key
                    session.kdf_info in
                verify_mac_and_decrypt_for_existing_chain session new_chain_key reader
                  max_plaintext_length)
      ]

  -- The 64 bytes that both sides derive from the shared secret, without a salt.
  unfoldable pub derive_root_secrets : Ratchet → Bytes → Bytes
  derive_root_secrets session shared_secret =
      hkdf_sha256 p shared_secret none session.kdf_info.root_info (2 * olm_shared_key_length)

  unfoldable pub initialise_as_bob : Ratchet → Bytes → Bytes → Ratchet
  initialise_as_bob session shared_secret their_ratchet_key =
      let derived_secrets = derive_root_secrets session shared_secret in
      let chain : ReceiverChain = record {
        ratchet_key = their_ratchet_key;
        chain_key = record {
          index = 0;
          key = take olm_shared_key_length (drop olm_shared_key_length derived_secrets);
        };
      } in
      record session {
        root_key = take olm_shared_key_length derived_secrets;
        receiver_chains = insert_front max_receiver_chains chain session.receiver_chains;
      }

  unfoldable pub initialise_as_alice : Ratchet → Bytes → KeyPair → Ratchet
  initialise_as_alice session shared_secret our_ratchet_key =
      let derived_secrets = derive_root_secrets session shared_secret in
      let chain : SenderChain = record {
        ratchet_key = our_ratchet_key;
        chain_key = record {
          index = 0;
          key = take olm_shared_key_length (drop olm_shared_key_length derived_secrets);
        };
      } in
      record session {
        root_key = take olm_shared_key_length derived_secrets;
        sender_chain = insert_front 1 chain session.sender_chain;
      }
