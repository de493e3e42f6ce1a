-- ===== src/Message/PreKey.antt =====
-- src/message.cpp: the messages that start a session, `encode_one_time_key_message` and
-- `decode_one_time_key_message`.
pub mod RoundTrip
use olm.Base.{
  ℕ, zero, suc, ◌+◌, Bytes, Option, none, some, [], ◌∷◌, ◌++◌, length, ◌==◌, if◌then◌else◌,
}
use olm.Message.{
  varstring_length, version_length, encode_string_header, decode_string, skip_unknown,
}

abbrev pub prekey_id_tag : ℕ
prekey_id_tag = 0o52

abbrev pub one_time_key_id_tag : ℕ
one_time_key_id_tag = 0o12

abbrev pub base_key_tag : ℕ
base_key_tag = 0o22

abbrev pub identity_key_tag : ℕ
identity_key_tag = 0o32

abbrev pub message_tag : ℕ
message_tag = 0o42

-- `PreKeyMessageReader`; a null pointer is `none`.
pub record PreKeyMessageReader : Type 0 where
  pub version : ℕ
  pub identity_key : Option Bytes
  pub base_key : Option Bytes
  pub prekey : Option Bytes
  pub one_time_key : Option Bytes
  pub message : Option Bytes

unfoldable pub encode_one_time_key_message_length : ℕ → ℕ → ℕ → ℕ → ℕ → ℕ
encode_one_time_key_message_length prekey_length identity_key_length base_key_length
      one_time_key_length message_length =
    version_length
    + (1 + varstring_length prekey_length)
    + (1 + varstring_length one_time_key_length)
    + (1 + varstring_length identity_key_length)
    + (1 + varstring_length base_key_length)
    + (1 + varstring_length message_length)

-- The last five arguments are what the caller stores through the pointers of the writer.
unfoldable pub encode_one_time_key_message : ℕ → Bytes → Bytes → Bytes → Bytes → Bytes → Bytes
encode_one_time_key_message version identity_key base_key prekey one_time_key message =
    version
    ∷ (encode_string_header prekey_id_tag (length prekey)
        ++ (prekey
            ++ (encode_string_header one_time_key_id_tag (length one_time_key)
                ++ (one_time_key
                    ++ (encode_string_header base_key_tag (length base_key)
                        ++ (base_key
                            ++ (encode_string_header identity_key_tag (length identity_key)
                                ++ (identity_key
                                    ++ (encode_string_header message_tag (length message)
                                        ++ (message))))))))))

-- One round of the `while (pos != end)` loop.
unfoldable pub decode_one_time_key_round : Bytes → PreKeyMessageReader → Bytes × PreKeyMessageReader
decode_one_time_key_round pos reader =
    let (pos1, prekey) = decode_string prekey_id_tag pos reader.prekey in
    let (pos2, one_time_key) = decode_string one_time_key_id_tag pos1 reader.one_time_key in
    let (pos3, base_key) = decode_string base_key_tag pos2 reader.base_key in
    let (pos4, identity_key) = decode_string identity_key_tag pos3 reader.identity_key in
    let (pos5, message) = decode_string message_tag pos4 reader.message in
    let reader' : PreKeyMessageReader = record reader {
      prekey = prekey;
      one_time_key = one_time_key;
      base_key = base_key;
      identity_key = identity_key;
      message = message;
    } in
    (if length pos5 == length pos then skip_unknown pos5 else pos5, reader')

-- The loop with fuel; `none` means that the fuel ran out.
unfoldable pub decode_one_time_key_loop :
    ℕ → Bytes → PreKeyMessageReader → Option PreKeyMessageReader
decode_one_time_key_loop fuel [] reader = some reader
decode_one_time_key_loop zero (b ∷ pos) reader = none
decode_one_time_key_loop (suc fuel) (b ∷ pos) reader =
    let (pos', reader') = decode_one_time_key_round (b ∷ pos) reader in
    decode_one_time_key_loop fuel pos' reader'

abbrev pub empty_prekey_reader : PreKeyMessageReader
empty_prekey_reader = record {
  version = 0;
  identity_key = none;
  base_key = none;
  prekey = none;
  one_time_key = none;
  message = none;
}

-- Each round moves the position, so as many rounds as there are bytes are enough.
unfoldable pub decode_one_time_key_message : Bytes → Option PreKeyMessageReader
decode_one_time_key_message [] = some empty_prekey_reader
decode_one_time_key_message (version ∷ pos) =
    decode_one_time_key_loop (length pos) pos (record empty_prekey_reader { version = version })
