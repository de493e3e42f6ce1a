-- ===== src/Message/Normal/RoundTrip.antt =====
-- The encoder and the decoder of normal messages in src/message.cpp.
use olm.Base.{
  ℕ, zero, suc, ◌-◌, ◌^◌, ◌≤◌, ◌<◌, Bytes, true, false, none, some, [], ◌∷◌, ◌++◌, length, ltb,
  ◌==◌, Bool-cases, inl, inr, le→ltb, length-append, take-append, append-nil, append_assoc, ◌≡◌,
  refl, ap, arith, ◌∙◌,
}
use olm.Message.{
  encode_number, encode_string_header, decode_number, decode_string, varint_encode,
  varstring_length,
}
use olm.Message.Varint.{length-varint_encode}
use olm.Message.Group.{decode_number-shorter, decode_string-shorter, skip_if_stuck}
use olm.Message.GroupRoundTrip.{decode_number-encode_number, decode_string-encode_string_header}
use olm.Message.Normal.{
  MessageReader, ratchet_key_tag, counter_tag, ciphertext_tag, encode_message,
  encode_message_header, encode_message_length, decode_message_round, decode_message_loop,
  empty_reader, decode_message_body, decode_message,
}

decode_message_round_takes :
    (b : ℕ) (pos : Bytes) (reader : MessageReader)
    → length (decode_message_round (b ∷ pos) reader).0 < length (b ∷ pos)
unfolding decode_message_round
decode_message_round_takes b pos reader =
    let after_key = decode_string ratchet_key_tag (b ∷ pos) reader.ratchet_key in
    let after_counter = decode_number counter_tag after_key.0 reader.counter reader.has_counter in
    skip_if_stuck b pos _ (
      omega (
        arith,
        decode_string-shorter ratchet_key_tag (b ∷ pos) reader.ratchet_key,
        decode_number-shorter counter_tag after_key.0 reader.counter reader.has_counter,
        decode_string-shorter ciphertext_tag after_counter.0 reader.ciphertext,
      ))

decode_message_loop_total :
    (fuel : ℕ) (pos : Bytes) (reader : MessageReader)
    → length pos ≤ fuel
    → (r : MessageReader) × (decode_message_loop fuel pos reader ≡ some r)
unfolding decode_message_loop
decode_message_loop_total fuel [] reader h = (reader, refl)
decode_message_loop_total zero (b ∷ pos) reader h = absurd (omega arith)
decode_message_loop_total (suc fuel) (b ∷ pos) reader h =
    decode_message_loop_total fuel _ _ (omega (arith, decode_message_round_takes b pos reader))

decode_message_body_total :
    (body : Bytes) (reader : MessageReader)
    → (r : MessageReader) × (decode_message_body body reader ≡ some r)
unfolding decode_message_body
decode_message_body_total [] reader = (reader, refl)
decode_message_body_total (version ∷ pos) reader =
    decode_message_loop_total (length pos) pos _ (omega arith)

-- On every input and for every length of the MAC, the loop of the decoder ends within as many
-- rounds as there are bytes, and `decode_message` returns a result.
pub decode_message_total :
    (input : Bytes) (mac_length : ℕ)
    → (r : MessageReader) × (decode_message input mac_length ≡ some r)
unfolding decode_message
decode_message_total input mac_length = elim (Bool-cases (ltb (length input) mac_length)) [
  | inl short ↦ rw short (empty_reader input, refl)
  | inr long ↦ rw long (decode_message_body_total _ (empty_reader input))
]

abbrev pub decoded_message : ℕ → ℕ → Bytes → Bytes → Bytes → MessageReader
decoded_message version counter ratchet_key ciphertext input = record {
  version = version;
  has_counter = true;
  counter = counter;
  input = input;
  ratchet_key = some ratchet_key;
  ciphertext = some ciphertext;
}

fields_of : ℕ → Bytes → Bytes → Bytes
fields_of counter ratchet_key ciphertext =
    encode_string_header ratchet_key_tag (length ratchet_key)
    ++ (ratchet_key
        ++ (encode_number counter_tag counter
            ++ (encode_string_header ciphertext_tag (length ciphertext) ++ (ciphertext ++ []))))

fields_after_tag : ℕ → Bytes → Bytes → Bytes
fields_after_tag counter ratchet_key ciphertext =
    varint_encode (length ratchet_key)
    ++ (ratchet_key
        ++ (encode_number counter_tag counter
            ++ (encode_string_header ciphertext_tag (length ciphertext) ++ (ciphertext ++ []))))

fields_of_lem :
    (counter : ℕ) (ratchet_key ciphertext : Bytes)
    → fields_of counter ratchet_key ciphertext
      ≡ ratchet_key_tag ∷ fields_after_tag counter ratchet_key ciphertext
unfolding fields_of fields_after_tag encode_string_header
fields_of_lem counter ratchet_key ciphertext = refl

length-fields_of :
    (counter : ℕ) (ratchet_key ciphertext : Bytes)
    → (0 == length (fields_of counter ratchet_key ciphertext)) ≡ false
length-fields_of counter ratchet_key ciphertext =
    rw (fields_of_lem counter ratchet_key ciphertext) (ground arith)

decode_message_round-fields :
    (version counter : ℕ) (ratchet_key ciphertext input : Bytes)
    → counter < 2 ^ 32
    → length ratchet_key < 2 ^ 64
    → length ciphertext < 2 ^ 64
    → decode_message_round
        (fields_of counter ratchet_key ciphertext)
        (record (empty_reader input) { version = version })
      ≡ ([], decoded_message version counter ratchet_key ciphertext input)
unfolding decode_message_round fields_of
decode_message_round-fields version counter ratchet_key ciphertext input hn hk hc =
    let tail = encode_string_header ciphertext_tag (length ciphertext) ++ (ciphertext ++ []) in
    let key : decode_string ratchet_key_tag (fields_of counter ratchet_key ciphertext) none
        ≡ (encode_number counter_tag counter ++ tail, some ratchet_key) =
      decode_string-encode_string_header ratchet_key_tag ratchet_key
        (encode_number counter_tag counter ++ tail) none hk in
    rw (
      key,
      decode_number-encode_number counter_tag counter 0 false tail hn,
      decode_string-encode_string_header ciphertext_tag ciphertext [] none hc,
      length-fields_of counter ratchet_key ciphertext,
    )

decode_message_loop_done :
    (fuel : ℕ) (reader : MessageReader) → decode_message_loop fuel [] reader ≡ some reader
unfolding decode_message_loop
decode_message_loop_done zero reader = refl
decode_message_loop_done (suc fuel) reader = refl

decode_message_loop_step :
    (fuel b : ℕ) (pos : Bytes) (reader : MessageReader)
    → decode_message_loop (suc fuel) (b ∷ pos) reader
      ≡ decode_message_loop fuel
          (decode_message_round (b ∷ pos) reader).0
          (decode_message_round (b ∷ pos) reader).1
unfolding decode_message_loop
decode_message_loop_step fuel b pos reader = refl

decode_message_loop_once :
    (b : ℕ) (tail pos : Bytes) (reader reader' : MessageReader)
    → pos ≡ b ∷ tail
    → decode_message_round pos reader ≡ ([], reader')
    → decode_message_loop (length pos) pos reader ≡ some reader'
decode_message_loop_once b tail pos reader reader' e h =
    let first : decode_message_round (b ∷ tail) reader ≡ ([], reader') = rw e at h in
    rw e (
      decode_message_loop_step (length tail) b tail reader
      ∙ rw first (decode_message_loop_done (length tail) reader'))

decode_message_body-fields :
    (version counter : ℕ) (ratchet_key ciphertext input : Bytes)
    → counter < 2 ^ 32
    → length ratchet_key < 2 ^ 64
    → length ciphertext < 2 ^ 64
    → decode_message_body (version ∷ fields_of counter ratchet_key ciphertext) (empty_reader input)
      ≡ some (decoded_message version counter ratchet_key ciphertext input)
unfolding decode_message_body
decode_message_body-fields version counter ratchet_key ciphertext input hn hk hc =
    decode_message_loop_once ratchet_key_tag (fields_after_tag counter ratchet_key ciphertext) _ _ _
      (fields_of_lem counter ratchet_key ciphertext)
      (decode_message_round-fields version counter ratchet_key ciphertext input hn hk hc)

encode_message-eq-fields :
    (version counter : ℕ) (ratchet_key ciphertext : Bytes)
    → encode_message version counter ratchet_key ciphertext
      ≡ version ∷ fields_of counter ratchet_key ciphertext
unfolding encode_message fields_of
encode_message-eq-fields version counter ratchet_key ciphertext = rw append-nil

-- For a counter below 2 ^ 32, and a ratchet key and a ciphertext shorter than 2 ^ 64, the encoded
-- message with a MAC of the length given behind it decodes to its version, its counter, marked as
-- present, its ratchet key and its ciphertext, and the reader keeps the whole input.
pub decode_message-encode_message :
    (version counter mac_length : ℕ) (ratchet_key ciphertext mac : Bytes)
    → counter < 2 ^ 32
    → length ratchet_key < 2 ^ 64
    → length ciphertext < 2 ^ 64
    → length mac ≡ mac_length
    → decode_message (encode_message version counter ratchet_key ciphertext ++ mac) mac_length
      ≡ some (
          decoded_message version counter ratchet_key ciphertext
            (encode_message version counter ratchet_key ciphertext ++ mac))
unfolding decode_message
decode_message-encode_message version counter mac_length ratchet_key ciphertext mac hn hk hc hm =
    let message = encode_message version counter ratchet_key ciphertext in
    let whole = length-append message mac in
    let rest : length (message ++ mac) - mac_length ≡ length message = omega (arith, whole, hm) in
    rw
      (
        le→ltb (length (message ++ mac)) mac_length (omega (arith, whole, hm)),
        rest,
        take-append (length message) message mac refl,
      )
      (ap (λ (body : Bytes). decode_message_body body (empty_reader (message ++ mac)))
          (encode_message-eq-fields version counter ratchet_key ciphertext)
        ∙ decode_message_body-fields version counter ratchet_key ciphertext (message ++ mac) hn hk
            hc)

-- An encoded message with its MAC is as long as `encode_message_length` announces.
pub length-encode_message :
    (version counter : ℕ) (ratchet_key ciphertext mac : Bytes)
    → length (encode_message version counter ratchet_key ciphertext ++ mac)
      ≡ encode_message_length counter (length ratchet_key) (length ciphertext) (length mac)
unfolding encode_message encode_message_length varstring_length encode_number encode_string_header
length-encode_message version counter ratchet_key ciphertext mac =
    let key_size = varint_encode (length ratchet_key) in
    let number = varint_encode counter in
    let size = varint_encode (length ciphertext) in
    let end = (ciphertext_tag ∷ size) ++ ciphertext in
    omega (
      arith,
      length-append
          (version
            ∷ ((ratchet_key_tag ∷ key_size) ++ (ratchet_key ++ ((counter_tag ∷ number) ++ end))))
          mac,
      length-append key_size (ratchet_key ++ ((counter_tag ∷ number) ++ end)),
      length-append ratchet_key ((counter_tag ∷ number) ++ end),
      length-append number end,
      length-append size ciphertext,
      length-varint_encode (length ratchet_key),
      length-varint_encode counter,
      length-varint_encode (length ciphertext),
    )

pub encode_message_header-append :
    (version counter : ℕ) (ratchet_key ciphertext : Bytes)
    → encode_message_header version counter ratchet_key (length ciphertext) ++ ciphertext
      ≡ encode_message version counter ratchet_key ciphertext
unfolding encode_message_header encode_message
encode_message_header-append version counter ratchet_key ciphertext =
    rw (append_assoc, append_assoc, append_assoc)
