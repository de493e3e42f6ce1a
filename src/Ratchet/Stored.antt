-- ===== src/Ratchet/Stored.antt =====
-- The pickling of src/ratchet.cpp. A reader of a part returns the value and the new position, or
-- `none`; what it leaves in its output argument where it fails is left out.
use olm.Base.{ℕ, ◌+◌, ◌*◌, Bytes, Bool, Option, some, [], ◌++◌, length, if◌then◌else◌, ◌>>=◌}
use olm.Pickle.{
  KeyPair, curve25519_key_length, pickle_uint32, unpickle_uint32, pickle_bytes, unpickle_bytes,
  pickle_curve25519_public_key, unpickle_curve25519_public_key, pickle_curve25519_key_pair,
  unpickle_curve25519_key_pair,
}
use olm.Pickle.Lists.{unpickle_ok, pickle_list, unpickle_list}
use olm.Ratchet.{
  Ratchet, SenderChain, ReceiverChain, SkippedMessageKey, olm_shared_key_length,
  max_receiver_chains, max_skipped_message_keys,
}

abbrev pub blank_key_pair : KeyPair
blank_key_pair = record { public_key = []; private_key = [] }

unfoldable pub pickle_shared_key : Bytes → Bytes
pickle_shared_key value = pickle_bytes value olm_shared_key_length

unfoldable pub unpickle_shared_key : Bytes → Option (Bytes × Bytes)
unpickle_shared_key pos = unpickle_ok (unpickle_bytes [] olm_shared_key_length pos)

abbrev pub sender_chain_pickle_length : ℕ
sender_chain_pickle_length = 2 * curve25519_key_length + olm_shared_key_length + 4

abbrev pub receiver_chain_pickle_length : ℕ
receiver_chain_pickle_length = curve25519_key_length + olm_shared_key_length + 4

abbrev pub skipped_key_pickle_length : ℕ
skipped_key_pickle_length = curve25519_key_length + olm_shared_key_length + 4

unfoldable pub pickle_sender_chain : SenderChain → Bytes
pickle_sender_chain value =
    pickle_curve25519_key_pair value.ratchet_key
    ++ (pickle_shared_key value.chain_key.key ++ pickle_uint32 value.chain_key.index)

unfoldable pub unpickle_sender_chain : Bytes → Option (SenderChain × Bytes)
unpickle_sender_chain pos = do
  (ratchet_key, pos1) ← unpickle_ok (unpickle_curve25519_key_pair blank_key_pair pos)
  (key, pos2) ← unpickle_shared_key pos1
  (index, pos3) ← unpickle_ok (unpickle_uint32 pos2)
  some (record { ratchet_key = ratchet_key; chain_key = record { index = index; key = key } }, pos3)

unfoldable pub pickle_receiver_chain : ReceiverChain → Bytes
pickle_receiver_chain value =
    pickle_curve25519_public_key value.ratchet_key
    ++ (pickle_shared_key value.chain_key.key ++ pickle_uint32 value.chain_key.index)

unfoldable pub unpickle_receiver_chain : Bytes → Option (ReceiverChain × Bytes)
unpickle_receiver_chain pos = do
  (ratchet_key, pos1) ← unpickle_ok (unpickle_curve25519_public_key [] pos)
  (key, pos2) ← unpickle_shared_key pos1
  (index, pos3) ← unpickle_ok (unpickle_uint32 pos2)
  some (record { ratchet_key = ratchet_key; chain_key = record { index = index; key = key } }, pos3)

unfoldable pub pickle_skipped_key : SkippedMessageKey → Bytes
pickle_skipped_key value =
    pickle_curve25519_public_key value.ratchet_key
    ++ (pickle_shared_key value.message_key.key ++ pickle_uint32 value.message_key.index)

unfoldable pub unpickle_skipped_key : Bytes → Option (SkippedMessageKey × Bytes)
unpickle_skipped_key pos = do
  (ratchet_key, pos1) ← unpickle_ok (unpickle_curve25519_public_key [] pos)
  (key, pos2) ← unpickle_shared_key pos1
  (index, pos3) ← unpickle_ok (unpickle_uint32 pos2)
  some (
    record { ratchet_key = ratchet_key; message_key = record { index = index; key = key } },
    pos3,
  )

unfoldable pub ratchet_pickle_length : Ratchet → ℕ
ratchet_pickle_length value =
    olm_shared_key_length
    + (4 + length value.sender_chain * sender_chain_pickle_length)
    + (4 + length value.receiver_chains * receiver_chain_pickle_length)
    + (4 + length value.skipped_message_keys * skipped_key_pickle_length)

unfoldable pub pickle_ratchet : Ratchet → Bytes
pickle_ratchet value =
    pickle_shared_key value.root_key
    ++ (pickle_list pickle_sender_chain value.sender_chain
        ++ (pickle_list pickle_receiver_chain value.receiver_chains
            ++ pickle_list pickle_skipped_key value.skipped_message_keys))

-- A pickle of version 0x80000001 has a chain index, which is read and dropped.
unfoldable pub skip_chain_index : Bool → Bytes → Option Bytes
skip_chain_index includes_chain_index pos =
    if includes_chain_index
    then (do (dummy, pos') ← unpickle_ok (unpickle_uint32 pos); some pos')
    else some pos

unfoldable pub unpickle_ratchet : Ratchet → Bytes → Bool → Option (Ratchet × Bytes)
unpickle_ratchet value pos includes_chain_index = do
  (root_key, pos1) ← unpickle_shared_key pos
  (sender_chain, pos2) ← unpickle_list 1 unpickle_sender_chain value.sender_chain pos1
  (receiver_chains, pos3) ←
      unpickle_list max_receiver_chains unpickle_receiver_chain value.receiver_chains pos2
  (skipped_message_keys, pos4) ←
      unpickle_list max_skipped_message_keys unpickle_skipped_key value.skipped_message_keys pos3
  pos5 ← skip_chain_index includes_chain_index pos4
  some (
    record value {
      root_key = root_key;
      sender_chain = sender_chain;
      receiver_chains = receiver_chains;
      skipped_message_keys = skipped_message_keys;
    },
    pos5,
  )
