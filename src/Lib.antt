-- ===== src/Lib.antt =====
-- libolm: the cryptographic ratchets of Matrix in C and C++.
--
-- The development models the library from the encodings up to the sessions, and what they stand
-- on. Two devices that talk to each other hold a session each (src/session.cpp), set up from the
-- keys of their accounts (src/account.cpp) and a message that carries them; a session encrypts
-- with a double ratchet (src/ratchet.cpp), whose chains and skipped keys are lists of bounded size
-- (include/olm/list.hh). In a group, a sender holds an outbound group session
-- (src/outbound_group_session.c), the receivers an inbound one (src/inbound_group_session.c); both
-- hold a Megolm ratchet (src/megolm.c), whose 128 bytes key the cipher of each message. A message
-- is built in the format of src/message.cpp, encrypted and authenticated by src/cipher.cpp with
-- the modes of src/crypto.cpp, signed, and encoded by src/base64.cpp. Sessions are stored with
-- src/pickle.cpp and src/pickle_encoding.c. Apart from these, src/sas.c lets two users compare a
-- short string that a key exchange gave them.
--
-- Conventions. A buffer is the list of its bytes as natural numbers, and a pointer into it the
-- list from there on; that the entries are below 256 is a hypothesis where a proof needs it.
-- Integers are natural numbers with the wrap of 32 bits written out. A function that changes an
-- object takes it and returns it as it is afterwards, also where it fails. `none`, `failed` and
-- `refused` stand for the return value size_t(-1), and where a buffer is written the result is
-- what stands in it. An access outside of the buffers given is a result of its own (`fault`,
-- `undefined`, `overrun`, `stray`).
--
-- Files, with the source each is about:
-- - Base (Base/Tests, Base/Lists, Base/Bits): shared names, Boolean tests, lists, bit operations;
--   no code.
-- - Base64: src/base64.cpp, one definition per function and per case of the remainder.
--   Base64/Table and Base64/Groups hold the lemmas on characters and groups, Base64/RoundTrip the
--   results.
-- - Error: src/error.c and include/olm/error.h.
-- - Memory, Memory/Equality: src/memory.cpp.
-- - Pickle, Pickle/RoundTrip: src/pickle.cpp. A reader returns the value its output argument
--   holds, also where it fails, and the new position.
-- - Crypto: src/crypto.cpp. Crypto/External has the functions of the vendored libraries as a
--   record of parameters, and the laws assumed of them: the sizes of their results, decryption of
--   a block after encryption, verification after signing, and the agreement of a key exchange.
--   Crypto/Cbc and Crypto/Hmac hold the results on the modes.
-- - Cipher, Cipher/RoundTrip, Cipher/Room: src/cipher.cpp, with the output buffer as an argument.
-- - Megolm: src/megolm.c. Megolm/Levels to Megolm/Rounds compare one round of megolm_advance_to
--   with a run of single steps, Megolm/Advance joins the four rounds, Megolm/Ahead adds runs up,
--   Megolm/Pickling and Megolm/Shape are about the stored form and the shape.
-- - Message: src/message.cpp, the integers, the fields and the group message (varint_encode,
--   encode, decode, skip_unknown, _olm_encode_group_message, _olm_decode_group_message);
--   Message/Normal and Message/PreKey have the messages between two devices, with their results in
--   a RoundTrip each and Message/Normal/Counter on the counter. Message/Varint, Message/Group and
--   Message/GroupRoundTrip hold the results.
-- - BoundedList: include/olm/list.hh. BoundedList/Refinement compares the loops on the array with
--   the operations on the items, BoundedList/Bounds is about sizes.
-- - Pickle/Lists: the list templates of include/olm/pickle.hh.
-- - Ratchet: src/ratchet.cpp and include/olm/ratchet.hh, the data, the keys and the start of both
--   sides (create_chain_key, advance_chain_key, create_message_keys, initialise_as_alice,
--   initialise_as_bob); Ratchet/Encrypting has encrypt, Ratchet/Decryption decrypt, one definition
--   per branch, and Ratchet/Stored the pickles. Chains, Messages, Sending, Receiving, Delivery and
--   NewChain are about single messages, Turns, Replies and Conversation about devices that write
--   in turns, Skipped, Past and Late about messages that come late or twice, Counters, Spending,
--   Spent, SpentCalls and Replay about a message that comes again at any time, Cases, Failure,
--   KeySizes and Invariant about every outcome, Restored about pickles.
-- - Account: src/account.cpp and include/olm/account.hh, the keys; Account/Stored has the pickles,
--   Account/OneTimeKeys the results on one-time keys, Account/Restored those on pickles.
-- - Session: src/session.cpp and include/olm/session.hh, a session that runs; Session/Starting has
--   the set-up of both sides (new_outbound_session, new_inbound_session, matches_inbound_session,
--   session_id), Session/Stored the pickles. Secret is about the shared secrets, PreKeyText,
--   Meeting and Handshake about the first message, Errors about calls that fail.
-- - PickleEncoding, PickleEncoding/RoundTrip: src/pickle_encoding.c.
-- - OutboundGroupSession: src/outbound_group_session.c. Its children Encrypting and Restored hold
--   the results on group_encrypt and on pickles.
-- - InboundGroupSession: src/inbound_group_session.c, with its children Ratchet (_get_megolm and
--   the export), Decryption (_decrypt, olm_group_decrypt) and Stored (pickles). Following is about
--   _get_megolm, Exchange about decrypting what the sender encrypted, Conversation about a whole
--   series of messages, KeyBuffer and Sharing about session keys and exports, Restored about
--   pickles, Authenticity and Unsigned about messages from anyone.
-- - Sas, Sas/Agreement: src/sas.c. The two older MAC functions encode the HMAC over itself, which
--   encode_in_place models byte by byte.
-- - Tests: concrete primitives that satisfy the laws, and examples.
--
-- Bounds and fuel. Variable-length integers are looped on with the value as fuel, which halves
-- seven times a round. The loop of each message decoder has the number of bytes as fuel. The key
-- expansion stops at 255 blocks, where its counter is one byte. The loops that advance a chain
-- have the distance to the counter as fuel, and the check against the gap of 2000 keys stands in
-- front of them. The group ratchet's counters wrap at 2 ^ 32, and an index is before or after
-- another by the half of that range in which their difference lies, as in the source.
--
-- Not modelled: src/pk.cpp, src/utility.cpp and the C interface src/olm.cpp; of src/account.cpp
-- the functions that print JSON, of src/session.cpp the one that prints a description, describe.
-- The libraries under lib/ are third-party. The text of a message or a pickle is encoded from the
-- end of its buffer to the front in place; the model encodes into a buffer of its own. Clearing of
-- secrets in local variables and timing are not modelled, nor are the branches under OLM_FUZZING.
pub mod Base
pub mod BoundedList
pub mod Base64
pub mod Error
pub mod Memory
pub mod Pickle
pub mod Crypto
pub mod Cipher
pub mod Megolm
pub mod Message
pub mod PickleEncoding
pub mod OutboundGroupSession
pub mod InboundGroupSession
pub mod Ratchet
pub mod Account
pub mod Session
pub mod Sas
pub mod Tests
