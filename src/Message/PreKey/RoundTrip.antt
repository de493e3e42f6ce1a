-- ===== src/Message/PreKey/RoundTrip.antt =====
-- The encoder and the decoder of pre-key messages in src/message.cpp.
use olm.Base.{
  ℕ, zero, suc, ◌^◌, ◌≤◌, ◌<◌, Bytes, false, none, some, [], ◌∷◌, ◌++◌, length, ◌==◌, append-nil,
  ◌≡◌, refl, ap, arith, ◌∙◌,
}
use olm.Message.{encode_string_header, decode_string}
use olm.Message.Group.{decode_string-shorter, skip_if_stuck}
use olm.Message.GroupRoundTrip.{decode_string-encode_string_header}
use olm.Message.PreKey.{
  PreKeyMessageReader, prekey_id_tag, one_time_key_id_tag, base_key_tag, identity_key_tag,
  message_tag, encode_one_time_key_message, decode_one_time_key_round, decode_one_time_key_loop,
  empty_prekey_reader, decode_one_time_key_message,
}

decode_one_time_key_round_takes :
    (b : ℕ) (pos : Bytes) (reader : PreKeyMessageReader)
    → length (decode_one_time_key_round (b ∷ pos) reader).0 < length (b ∷ pos)
unfolding decode_one_time_key_round
decode_one_time_key_round_takes b pos reader =
    let r0 = decode_string prekey_id_tag (b ∷ pos) reader.prekey in
    let r1 = decode_string one_time_key_id_tag r0.0 reader.one_time_key in
    let r2 = decode_string base_key_tag r1.0 reader.base_key in
    let r3 = decode_string identity_key_tag r2.0 reader.identity_key in
    let r4 = decode_string message_tag r3.0 reader.message in
    skip_if_stuck b pos _ (
      omega (
        arith,
        decode_string-shorter prekey_id_tag (b ∷ pos) reader.prekey,
        decode_string-shorter one_time_key_id_tag r0.0 reader.one_time_key,
        decode_string-shorter base_key_tag r1.0 reader.base_key,
        decode_string-shorter identity_key_tag r2.0 reader.identity_key,
        decode_string-shorter message_tag r3.0 reader.message,
      ))

decode_one_time_key_loop_total :
    (fuel : ℕ) (pos : Bytes) (reader : PreKeyMessageReader)
    → length pos ≤ fuel
    → (r : PreKeyMessageReader) × (decode_one_time_key_loop fuel pos reader ≡ some r)
unfolding decode_one_time_key_loop
decode_one_time_key_loop_total fuel [] reader h = (reader, refl)
decode_one_time_key_loop_total zero (b ∷ pos) reader h = absurd (omega arith)
decode_one_time_key_loop_total (suc fuel) (b ∷ pos) reader h =
    decode_one_time_key_loop_total fuel _ _
      (omega (arith, decode_one_time_key_round_takes b pos reader))

-- On every input, the loop of the decoder ends within as many rounds as there are bytes, and
-- `decode_one_time_key_message` returns a result.
pub decode_one_time_key_message_total :
    (input : Bytes) → (r : PreKeyMessageReader) × (decode_one_time_key_message input ≡ some r)
unfolding decode_one_time_key_message
decode_one_time_key_message_total [] = (empty_prekey_reader, refl)
decode_one_time_key_message_total (version ∷ pos) =
    decode_one_time_key_loop_total (length pos) pos _ (omega arith)

abbrev pub decoded_prekey_message : ℕ → Bytes → Bytes → Bytes → Bytes → Bytes → PreKeyMessageReader
decoded_prekey_message version identity_key base_key prekey one_time_key message = record {
  version = version;
  identity_key = some identity_key;
  base_key = some base_key;
  prekey = some prekey;
  one_time_key = some one_time_key;
  message = some message;
}

fields_of : Bytes → Bytes → Bytes → Bytes → Bytes → Bytes
fields_of identity_key base_key prekey one_time_key message =
    encode_string_header prekey_id_tag (length prekey)
    ++ (prekey
        ++ (encode_string_header one_time_key_id_tag (length one_time_key)
            ++ (one_time_key
                ++ (encode_string_header base_key_tag (length base_key)
                    ++ (base_key
                        ++ (encode_string_header identity_key_tag (length identity_key)
                            ++ (identity_key
                                ++ (encode_string_header message_tag (length message)
                                    ++ (message ++ [])))))))))

length-fields_of :
    (identity_key base_key prekey one_time_key message : Bytes)
    → (0 == length (fields_of identity_key base_key prekey one_time_key message)) ≡ false
unfolding fields_of encode_string_header
length-fields_of identity_key base_key prekey one_time_key message = ground arith

decode_one_time_key_loop_done :
    (fuel : ℕ) (reader : PreKeyMessageReader)
    → decode_one_time_key_loop fuel [] reader ≡ some reader
unfolding decode_one_time_key_loop
decode_one_time_key_loop_done zero reader = refl
decode_one_time_key_loop_done (suc fuel) reader = refl

decode_one_time_key_loop_step :
    (fuel b : ℕ) (pos : Bytes) (reader : PreKeyMessageReader)
    → decode_one_time_key_loop (suc fuel) (b ∷ pos) reader
      ≡ decode_one_time_key_loop fuel
          (decode_one_time_key_round (b ∷ pos) reader).0
          (decode_one_time_key_round (b ∷ pos) reader).1
unfolding decode_one_time_key_loop
decode_one_time_key_loop_step fuel b pos reader = refl

decode_one_time_key_loop_once :
    (pos : Bytes) (reader reader' : PreKeyMessageReader)
    → (0 == length pos) ≡ false
    → decode_one_time_key_round pos reader ≡ ([], reader')
    → decode_one_time_key_loop (length pos) pos reader ≡ some reader'
decode_one_time_key_loop_once [] reader reader' e h = absurd (ground arith)
decode_one_time_key_loop_once (b ∷ tail) reader reader' e h =
    decode_one_time_key_loop_step (length tail) b tail reader
    ∙ rw h (decode_one_time_key_loop_done (length tail) reader')

module _ (identity_key base_key prekey one_time_key message : Bytes)
    (h_prekey : length prekey < 2 ^ 64) (h_one_time_key : length one_time_key < 2 ^ 64)
    (h_base_key : length base_key < 2 ^ 64) (h_identity_key : length identity_key < 2 ^ 64)
    (h_message : length message < 2 ^ 64) where
  decode_one_time_key_round-fields :
      (version : ℕ)
      → decode_one_time_key_round
          (fields_of identity_key base_key prekey one_time_key message)
          (record empty_prekey_reader { version = version })
        ≡ ([], decoded_prekey_message version identity_key base_key prekey one_time_key message)
  unfolding decode_one_time_key_round fields_of
  decode_one_time_key_round-fields version = rw (
    decode_string-encode_string_header prekey_id_tag prekey
        (encode_string_header one_time_key_id_tag (length one_time_key)
          ++ (one_time_key
              ++ (encode_string_header base_key_tag (length base_key)
                  ++ (base_key
                      ++ (encode_string_header identity_key_tag (length identity_key)
                          ++ (identity_key
                              ++ (encode_string_header message_tag (length message)
                                  ++ (message ++ []))))))))
        none h_prekey,
    decode_string-encode_string_header one_time_key_id_tag one_time_key
        (encode_string_header base_key_tag (length base_key)
          ++ (base_key
              ++ (encode_string_header identity_key_tag (length identity_key)
                  ++ (identity_key
                      ++ (encode_string_header message_tag (length message) ++ (message ++ []))))))
        none h_one_time_key,
    decode_string-encode_string_header base_key_tag base_key
        (encode_string_header identity_key_tag (length identity_key)
          ++ (identity_key
              ++ (encode_string_header message_tag (length message) ++ (message ++ []))))
        none h_base_key,
    decode_string-encode_string_header identity_key_tag identity_key
        (encode_string_header message_tag (length message) ++ (message ++ [])) none h_identity_key,
    decode_string-encode_string_header message_tag message ([]) none h_message,
    length-fields_of identity_key base_key prekey one_time_key message,
  )

  encode_one_time_key_message-eq-fields :
      (version : ℕ)
      → encode_one_time_key_message version identity_key base_key prekey one_time_key message
        ≡ version ∷ fields_of identity_key base_key prekey one_time_key message
  unfolding encode_one_time_key_message fields_of
  encode_one_time_key_message-eq-fields version = rw append-nil

  decode_one_time_key_message-fields :
      (version : ℕ)
      → decode_one_time_key_message
          (version ∷ fields_of identity_key base_key prekey one_time_key message)
        ≡ some (decoded_prekey_message version identity_key base_key prekey one_time_key message)
  unfolding decode_one_time_key_message
  decode_one_time_key_message-fields version =
      decode_one_time_key_loop_once _ _ _
        (length-fields_of identity_key base_key prekey one_time_key message)
        (decode_one_time_key_round-fields version)

  -- A pre-key message whose five fields are shorter than 2 ^ 64 decodes to its version and its
  -- five fields.
  pub decode_one_time_key_message-encode_one_time_key_message :
      (version : ℕ)
      → decode_one_time_key_message
          (encode_one_time_key_message version identity_key base_key prekey one_time_key message)
        ≡ some (decoded_prekey_message version identity_key base_key prekey one_time_key message)
  decode_one_time_key_message-encode_one_time_key_message version =
      ap decode_one_time_key_message (encode_one_time_key_message-eq-fields version)
      ∙ decode_one_time_key_message-fields version
