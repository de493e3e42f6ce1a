-- ===== src/Message/Normal.antt =====
-- src/message.cpp: the messages of a session between two devices, `encode_message` and
-- `decode_message`.
pub mod RoundTrip
pub mod Counter
use olm.Base.{
  ℕ, zero, suc, ◌+◌, ◌-◌, Bytes, Bool, true, false, Option, none, some, [], ◌∷◌, ◌++◌, length, take,
  ltb, ◌==◌, if◌then◌else◌,
}
use olm.Message.{
  varint_length, varstring_length, version_length, encode_number, encode_string_header,
  decode_number, decode_string, skip_unknown,
}

abbrev pub ratchet_key_tag : ℕ
ratchet_key_tag = 0o12

abbrev pub counter_tag : ℕ
counter_tag = 0o20

abbrev pub ciphertext_tag : ℕ
ciphertext_tag = 0o42

-- `MessageReader`; a null pointer is `none`.
pub record MessageReader : Type 0 where
  pub version : ℕ
  pub has_counter : Bool
  pub counter : ℕ
  pub input : Bytes
  pub ratchet_key : Option Bytes
  pub ciphertext : Option Bytes

unfoldable pub encode_message_length : ℕ → ℕ → ℕ → ℕ → ℕ
encode_message_length counter ratchet_key_length ciphertext_length mac_length =
    version_length
    + (1 + varstring_length ratchet_key_length)
    + (1 + varint_length counter)
    + (1 + varstring_length ciphertext_length)
    + mac_length

-- What `encode_message` and the caller write in front of the ciphertext.
unfoldable pub encode_message_header : ℕ → ℕ → Bytes → ℕ → Bytes
encode_message_header version counter ratchet_key ciphertext_length =
    version
    ∷ (encode_string_header ratchet_key_tag (length ratchet_key)
        ++ (ratchet_key
            ++ (encode_number counter_tag counter
                ++ encode_string_header ciphertext_tag ciphertext_length)))

-- The last two arguments are what the caller stores through the two pointers of the writer.
unfoldable pub encode_message : ℕ → ℕ → Bytes → Bytes → Bytes
encode_message version counter ratchet_key ciphertext =
    version
    ∷ (encode_string_header ratchet_key_tag (length ratchet_key)
        ++ (ratchet_key
            ++ (encode_number counter_tag counter
                ++ (encode_string_header ciphertext_tag (length ciphertext) ++ ciphertext))))

-- One round of the `while (pos != end)` loop.
unfoldable pub decode_message_round : Bytes → MessageReader → Bytes × MessageReader
decode_message_round pos reader =
    let (pos1, ratchet_key) = decode_string ratchet_key_tag pos reader.ratchet_key in
    let (pos2, counter, has_counter) =
      decode_number counter_tag pos1 reader.counter reader.has_counter in
    let (pos3, ciphertext) = decode_string ciphertext_tag pos2 reader.ciphertext in
    let reader' : MessageReader = record reader {
      ratchet_key = ratchet_key;
      counter = counter;
      has_counter = has_counter;
      ciphertext = ciphertext;
    } in
    (if length pos3 == length pos then skip_unknown pos3 else pos3, reader')

-- The loop with fuel; `none` means that the fuel ran out.
pub decode_message_loop : ℕ → Bytes → MessageReader → Option MessageReader
decode_message_loop fuel [] reader = some reader
decode_message_loop zero (b ∷ pos) reader = none
decode_message_loop (suc fuel) (b ∷ pos) reader =
    let (pos', reader') = decode_message_round (b ∷ pos) reader in
    decode_message_loop fuel pos' reader'

abbrev pub empty_reader : Bytes → MessageReader
empty_reader input = record {
  version = 0;
  has_counter = false;
  counter = 0;
  input = input;
  ratchet_key = none;
  ciphertext = none;
}

-- Each round moves the position, so as many rounds as there are bytes are enough.
pub decode_message_body : Bytes → MessageReader → Option MessageReader
decode_message_body [] reader = some reader
decode_message_body (version ∷ pos) reader =
    decode_message_loop (length pos) pos (record reader { version = version })

unfoldable pub decode_message : Bytes → ℕ → Option MessageReader
decode_message input mac_length =
    if ltb (length input) mac_length
    then some (empty_reader input)
    else decode_message_body (take (length input - mac_length) input) (empty_reader input)
