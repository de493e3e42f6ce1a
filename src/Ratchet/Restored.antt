-- ===== src/Ratchet/Restored.antt =====
-- The pickling of src/ratchet.cpp, read back.
use olm.Base.{
  ℕ, ◌^◌, ◌<◌, Bytes, false, some, [], ◌++◌, append_assoc, length, length-append, ◌≡◌, refl, ap,
  arith,
}
use olm.Pickle.{
  KeyPair, pickle_uint32, unpickle_uint32, pickle_bytes, pickle_curve25519_public_key,
  unpickle_curve25519_public_key, pickle_curve25519_key_pair, unpickle_curve25519_key_pair,
}
use olm.Pickle.RoundTrip.{
  unpickle_uint32-pickle_uint32, pickle_uint32-IsBuffer, unpickle_bytes-append,
  unpickle_key_pair-append, pickle_bytes_exact,
}
use olm.Pickle.Lists.{unpickle_ok, pickle_list, unpickle_list-pickle_list, length-pickle_list}
use olm.Ratchet.{Ratchet, SenderChain, ReceiverChain, SkippedMessageKey}
use olm.Ratchet.Invariant.{IsRatchet}
use olm.Ratchet.KeySizes.{IsSenderChain, IsReceiverChain, IsSkippedKey, IsKeyPair}
use olm.Ratchet.Stored.{
  blank_key_pair, pickle_shared_key, unpickle_shared_key, pickle_sender_chain,
  unpickle_sender_chain, pickle_receiver_chain, unpickle_receiver_chain, pickle_skipped_key,
  unpickle_skipped_key, pickle_ratchet, unpickle_ratchet, ratchet_pickle_length, skip_chain_index,
}

pub unpickle_shared_key-pickle_shared_key :
    (key rest : Bytes)
    → length key ≡ 32
    → unpickle_shared_key (pickle_shared_key key ++ rest) ≡ some (key, rest)
unfolding unpickle_shared_key pickle_shared_key unpickle_ok
unpickle_shared_key-pickle_shared_key key rest h =
    rw (pickle_bytes_exact key 32 h, unpickle_bytes-append [] key rest 32 h) refl

pub length-pickle_shared_key : (key : Bytes) → length key ≡ 32 → length (pickle_shared_key key) ≡ 32
unfolding pickle_shared_key
length-pickle_shared_key key h = rw (pickle_bytes_exact key 32 h) h

pub read_public_key :
    (key rest : Bytes)
    → length key ≡ 32
    → unpickle_ok (unpickle_curve25519_public_key [] (pickle_curve25519_public_key key ++ rest))
      ≡ some (key, rest)
unfolding unpickle_curve25519_public_key pickle_curve25519_public_key unpickle_ok
read_public_key key rest h =
    rw (pickle_bytes_exact key 32 h, unpickle_bytes-append [] key rest 32 h) refl

pub read_key_pair :
    (pair : KeyPair) (rest : Bytes)
    → IsKeyPair pair
    → unpickle_ok
        (unpickle_curve25519_key_pair blank_key_pair (pickle_curve25519_key_pair pair ++ rest))
      ≡ some (pair, rest)
unfolding unpickle_curve25519_key_pair pickle_curve25519_key_pair unpickle_ok
read_key_pair pair rest (h, k) =
    rw
      (
        pickle_bytes_exact pair.public_key 32 h,
        pickle_bytes_exact pair.private_key 32 k,
        append_assoc pair.public_key pair.private_key rest,
        unpickle_key_pair-append 32 32 blank_key_pair pair rest h k,
      )
      refl

pub read_index :
    (index : ℕ) (rest : Bytes)
    → index < 2 ^ 32
    → unpickle_ok (unpickle_uint32 (pickle_uint32 index ++ rest)) ≡ some (index, rest)
unfolding unpickle_ok
read_index index rest h = rw (unpickle_uint32-pickle_uint32 index rest h) refl

read_sender_chain :
    (chain : SenderChain) (rest : Bytes)
    → IsSenderChain chain
    → unpickle_sender_chain (pickle_sender_chain chain ++ rest) ≡ some (chain, rest)
unfolding unpickle_sender_chain pickle_sender_chain
read_sender_chain chain rest (hk, (hi, hc)) =
    let key = pickle_shared_key chain.chain_key.key in
    let index = pickle_uint32 chain.chain_key.index in
    rw
      (
        append_assoc (pickle_curve25519_key_pair chain.ratchet_key) (key ++ index) rest,
        append_assoc key index rest,
        read_key_pair chain.ratchet_key (key ++ (index ++ rest)) hk,
        unpickle_shared_key-pickle_shared_key chain.chain_key.key (index ++ rest) hc,
        read_index chain.chain_key.index rest hi,
      )
      refl

read_receiver_chain :
    (chain : ReceiverChain) (rest : Bytes)
    → IsReceiverChain chain
    → unpickle_receiver_chain (pickle_receiver_chain chain ++ rest) ≡ some (chain, rest)
unfolding unpickle_receiver_chain pickle_receiver_chain
read_receiver_chain chain rest (hk, (hi, hc)) =
    let key = pickle_shared_key chain.chain_key.key in
    let index = pickle_uint32 chain.chain_key.index in
    rw
      (
        append_assoc (pickle_curve25519_public_key chain.ratchet_key) (key ++ index) rest,
        append_assoc key index rest,
        read_public_key chain.ratchet_key (key ++ (index ++ rest)) hk,
        unpickle_shared_key-pickle_shared_key chain.chain_key.key (index ++ rest) hc,
        read_index chain.chain_key.index rest hi,
      )
      refl

read_skipped_key :
    (key : SkippedMessageKey) (rest : Bytes)
    → IsSkippedKey key
    → unpickle_skipped_key (pickle_skipped_key key ++ rest) ≡ some (key, rest)
unfolding unpickle_skipped_key pickle_skipped_key
read_skipped_key value rest (hk, (hi, hc)) =
    let key = pickle_shared_key value.message_key.key in
    let index = pickle_uint32 value.message_key.index in
    rw
      (
        append_assoc (pickle_curve25519_public_key value.ratchet_key) (key ++ index) rest,
        append_assoc key index rest,
        read_public_key value.ratchet_key (key ++ (index ++ rest)) hk,
        unpickle_shared_key-pickle_shared_key value.message_key.key (index ++ rest) hc,
        read_index value.message_key.index rest hi,
      )
      refl

length-pickle_sender_chain :
    (chain : SenderChain) → IsSenderChain chain → length (pickle_sender_chain chain) ≡ 100
unfolding pickle_sender_chain pickle_curve25519_key_pair
length-pickle_sender_chain chain ((h, k), (hi, hc)) =
    let key = pickle_shared_key chain.chain_key.key in
    let index = pickle_uint32 chain.chain_key.index in
    let pair =
      pickle_bytes chain.ratchet_key.public_key 32
      ++ pickle_bytes chain.ratchet_key.private_key 32 in
    omega (
      arith,
      length-append pair (key ++ index),
      length-append (pickle_bytes chain.ratchet_key.public_key 32)
          (pickle_bytes chain.ratchet_key.private_key 32),
      length-append key index,
      ap length (pickle_bytes_exact chain.ratchet_key.public_key 32 h),
      ap length (pickle_bytes_exact chain.ratchet_key.private_key 32 k),
      length-pickle_shared_key chain.chain_key.key hc,
      (pickle_uint32-IsBuffer chain.chain_key.index).0,
    )

length_key_index :
    (front key : Bytes) (index : ℕ)
    → length front ≡ 32
    → length key ≡ 32
    → length (pickle_curve25519_public_key front ++ (pickle_shared_key key ++ pickle_uint32 index))
      ≡ 68
unfolding pickle_curve25519_public_key
length_key_index front key index h k = omega (
  arith,
  length-append (pickle_bytes front 32) (pickle_shared_key key ++ pickle_uint32 index),
  length-append (pickle_shared_key key) (pickle_uint32 index),
  ap length (pickle_bytes_exact front 32 h),
  length-pickle_shared_key key k,
  (pickle_uint32-IsBuffer index).0,
)

length-pickle_receiver_chain :
    (chain : ReceiverChain) → IsReceiverChain chain → length (pickle_receiver_chain chain) ≡ 68
unfolding pickle_receiver_chain
length-pickle_receiver_chain chain (hk, (hi, hc)) =
    length_key_index chain.ratchet_key chain.chain_key.key chain.chain_key.index hk hc

length-pickle_skipped_key :
    (key : SkippedMessageKey) → IsSkippedKey key → length (pickle_skipped_key key) ≡ 68
unfolding pickle_skipped_key
length-pickle_skipped_key key (hk, (hi, hc)) =
    length_key_index key.ratchet_key key.message_key.key key.message_key.index hk hc

-- A fresh object with the fields of another one that are stored.
abbrev pub ratchet_restored : Ratchet → Ratchet → Ratchet
ratchet_restored fresh value = record fresh {
  root_key = value.root_key;
  sender_chain = value.sender_chain;
  receiver_chains = value.receiver_chains;
  skipped_message_keys = value.skipped_message_keys;
}

pub record IsFresh (fresh : Ratchet) : Type 0 where
  pub no_sender : fresh.sender_chain ≡ []
  pub no_receiver : fresh.receiver_chains ≡ []
  pub no_skipped : fresh.skipped_message_keys ≡ []

-- A well-formed ratchet, pickled in front of any bytes, is read back over a ratchet without chains
-- and keys, and the position is at those bytes.
pub unpickle_ratchet-pickle_ratchet :
    (fresh value : Ratchet) (rest : Bytes)
    → IsFresh fresh
    → IsRatchet value
    → unpickle_ratchet fresh (pickle_ratchet value ++ rest) false
      ≡ some (ratchet_restored fresh value, rest)
unfolding unpickle_ratchet pickle_ratchet skip_chain_index
unpickle_ratchet-pickle_ratchet fresh value rest new h =
    let senders = pickle_list pickle_sender_chain value.sender_chain in
    let receivers = pickle_list pickle_receiver_chain value.receiver_chains in
    let skipped = pickle_list pickle_skipped_key value.skipped_message_keys in
    let read1 =
      unpickle_list-pickle_list IsSenderChain pickle_sender_chain unpickle_sender_chain
        read_sender_chain (λ chain c. omega (arith, length-pickle_sender_chain chain c)) 1
        value.sender_chain (receivers ++ (skipped ++ rest)) h.senders.1 h.senders.0 (omega arith) in
    let read2 =
      unpickle_list-pickle_list IsReceiverChain pickle_receiver_chain unpickle_receiver_chain
        read_receiver_chain (λ chain c. omega (arith, length-pickle_receiver_chain chain c)) 5
        value.receiver_chains (skipped ++ rest) h.receivers.1 h.receivers.0 (omega arith) in
    let read3 =
      unpickle_list-pickle_list IsSkippedKey pickle_skipped_key unpickle_skipped_key
        read_skipped_key (λ key c. omega (arith, length-pickle_skipped_key key c)) 40
        value.skipped_message_keys rest h.skipped.1 h.skipped.0 (omega arith) in
    rw
      (
        append_assoc (pickle_shared_key value.root_key) (senders ++ (receivers ++ skipped)) rest,
        append_assoc senders (receivers ++ skipped) rest,
        append_assoc receivers skipped rest,
        unpickle_shared_key-pickle_shared_key value.root_key
            (senders ++ (receivers ++ (skipped ++ rest))) h.root_size,
        new.no_sender,
        read1,
        new.no_receiver,
        read2,
        new.no_skipped,
        read3,
      )
      refl

pub length-pickle_ratchet :
    (value : Ratchet)
    → IsRatchet value
    → length (pickle_ratchet value) ≡ ratchet_pickle_length value
unfolding pickle_ratchet ratchet_pickle_length
length-pickle_ratchet value h =
    let senders = pickle_list pickle_sender_chain value.sender_chain in
    let receivers = pickle_list pickle_receiver_chain value.receiver_chains in
    let skipped = pickle_list pickle_skipped_key value.skipped_message_keys in
    omega (
      arith,
      length-append (pickle_shared_key value.root_key) (senders ++ (receivers ++ skipped)),
      length-append senders (receivers ++ skipped),
      length-append receivers skipped,
      length-pickle_shared_key value.root_key h.root_size,
      length-pickle_list IsSenderChain pickle_sender_chain unpickle_sender_chain read_sender_chain
          (λ chain c. omega (arith, length-pickle_sender_chain chain c)) 1 100 value.sender_chain
          length-pickle_sender_chain h.senders.1,
      length-pickle_list IsReceiverChain pickle_receiver_chain unpickle_receiver_chain
          read_receiver_chain (λ chain c. omega (arith, length-pickle_receiver_chain chain c)) 5 68
          value.receiver_chains length-pickle_receiver_chain h.receivers.1,
      length-pickle_list IsSkippedKey pickle_skipped_key unpickle_skipped_key read_skipped_key
          (λ key c. omega (arith, length-pickle_skipped_key key c)) 40 68 value.skipped_message_keys
          length-pickle_skipped_key h.skipped.1,
    )
