-- ===== src/Message/Normal/Counter.antt =====
-- The counter that `decode_message` of src/message.cpp finds.
use olm.Base.{
  ℕ, zero, suc, ◌*◌, ◌-◌, ◌%◌, ◌^◌, ◌<◌, Bytes, Bool, some, [], ◌∷◌, length, take, ltb, ◌==◌,
  Bool-cases, inl, inr, ◌≡◌, arith, ◌∙◌,
}
use olm.Base.Bits.{bit_or_fields, bit_and_mask, bit_and_comm}
use Prim.Native.Nat.{bit_and}
use olm.Message.{varint_decode, decode_number, decode_string, varint_skip}
use olm.Message.Normal.{
  MessageReader, ratchet_key_tag, counter_tag, decode_message_round, decode_message_loop,
  decode_message_body, decode_message, empty_reader,
}

varint_decode_bound : (bytes : Bytes) → varint_decode 32 bytes < 2 ^ 32
unfolding varint_decode
varint_decode_bound [] = omega arith
varint_decode_bound (b ∷ bytes) =
    let x = varint_decode 32 bytes in
    let q = x % 2 ^ 25 in
    let high : x * 2 ^ 7 % 2 ^ 32 ≡ q * 2 ^ 7 = omega arith in
    let low : bit_and 0x7f b ≡ b % 2 ^ 7 = bit_and_comm 0x7f b ∙ bit_and_mask 7 b in
    rw (high, low, bit_or_fields 7 q (b % 2 ^ 7) (omega arith)) (omega arith)

decode_number_bound :
    (tag : ℕ) (pos : Bytes) (value : ℕ) (has_value : Bool)
    → value < 2 ^ 32
    → (decode_number tag pos value has_value).1 < 2 ^ 32
unfolding decode_number
decode_number_bound tag [] value has_value h = h
decode_number_bound tag (b ∷ pos) value has_value h = elim (Bool-cases (b == tag)) [
  | inl same ↦ rw same (varint_decode_bound (varint_skip pos).0)
  | inr other ↦ rw other h
]

decode_message_round_bound :
    (pos : Bytes) (reader : MessageReader)
    → reader.counter < 2 ^ 32
    → (decode_message_round pos reader).1.counter < 2 ^ 32
unfolding decode_message_round
decode_message_round_bound pos reader h =
    decode_number_bound counter_tag (decode_string ratchet_key_tag pos reader.ratchet_key).0
      reader.counter reader.has_counter h

decode_message_loop_bound :
    (fuel : ℕ) (pos : Bytes) (reader fields : MessageReader)
    → reader.counter < 2 ^ 32
    → decode_message_loop fuel pos reader ≡ some fields
    → fields.counter < 2 ^ 32
unfolding decode_message_loop
decode_message_loop_bound fuel [] reader fields h e = ground (arith, h, e)
decode_message_loop_bound zero (b ∷ pos) reader fields h e = absurd (ground arith)
decode_message_loop_bound (suc fuel) (b ∷ pos) reader fields h e =
    decode_message_loop_bound fuel _ _ fields (decode_message_round_bound (b ∷ pos) reader h) e

decode_message_body_bound :
    (body : Bytes) (reader fields : MessageReader)
    → reader.counter < 2 ^ 32
    → decode_message_body body reader ≡ some fields
    → fields.counter < 2 ^ 32
unfolding decode_message_body
decode_message_body_bound [] reader fields h e = ground (arith, h, e)
decode_message_body_bound (version ∷ pos) reader fields h e =
    decode_message_loop_bound (length pos) pos _ fields h e

-- The counter has 32 bits.
pub decode_message_bound :
    (input : Bytes) (mac_length : ℕ) (fields : MessageReader)
    → decode_message input mac_length ≡ some fields
    → fields.counter < 2 ^ 32
unfolding decode_message
decode_message_bound input mac_length fields e = elim (Bool-cases (ltb (length input) mac_length)) [
  | inl short ↦ ground (arith, e, short)
  | inr long ↦
      decode_message_body_bound (take (length input - mac_length) input) (empty_reader input) fields
        (omega arith) (rw long at e)
]
