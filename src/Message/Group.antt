-- ===== src/Message/Group.antt =====
-- The loop of the group message decoder of src/message.cpp.
use olm.Base.{
  ℕ, zero, suc, ◌+◌, ◌≤◌, ◌<◌, Bytes, Bool, Option, some, [], ◌∷◌, length, ltb, ◌==◌, if◌then◌else◌,
  Bool-cases, inl, inr, length-drop, ◌≡◌, refl, arith,
}
use olm.Message.{
  varint_skip, varint_decode, decode_number, decode_string, skip_unknown, GroupMessage,
  decode_group_round, decode_group_loop, decode_group_body, no_group_message, decode_group_message,
  group_message_index_tag, group_ciphertext_tag,
}

-- A number takes a byte at least, where there is one.
pub varint_skip-shorter : (pos : Bytes) → length (varint_skip pos).1 ≤ length pos
unfolding varint_skip
varint_skip-shorter [] = omega arith
varint_skip-shorter (b ∷ pos) = ground (arith, varint_skip-shorter pos)

varint_skip_takes : (b : ℕ) (pos : Bytes) → length (varint_skip (b ∷ pos)).1 < length (b ∷ pos)
unfolding varint_skip
varint_skip_takes b pos = ground (arith, varint_skip-shorter pos)

pub decode_number-shorter :
    (tag : ℕ) (pos : Bytes) (value : ℕ) (has_value : Bool)
    → length (decode_number tag pos value has_value).0 ≤ length pos
unfolding decode_number
decode_number-shorter tag [] value has_value = omega arith
decode_number-shorter tag (b ∷ pos) value has_value = ground (arith, varint_skip-shorter pos)

pub decode_string-shorter :
    (tag : ℕ) (pos : Bytes) (value : Option Bytes)
    → length (decode_string tag pos value).0 ≤ length pos
unfolding decode_string
decode_string-shorter tag [] value = omega arith
decode_string-shorter tag (b ∷ pos) value = ground (
  arith,
  varint_skip-shorter pos,
  length-drop (varint_decode 64 (varint_skip pos).0) (varint_skip pos).1,
)

skip_unknown_takes : (b : ℕ) (pos : Bytes) → length (skip_unknown (b ∷ pos)) < length (b ∷ pos)
unfolding skip_unknown
skip_unknown_takes b pos =
    let after = (varint_skip (b ∷ pos)).1 in
    ground (
      arith,
      varint_skip_takes b pos,
      varint_skip-shorter after,
      length-drop (varint_decode 64 (varint_skip after).0) (varint_skip after).1,
    )

-- Every round of the loop moves the position forward.
pub skip_if_stuck :
    (b : ℕ) (pos pos' : Bytes)
    → length pos' ≤ length (b ∷ pos)
    → length (if length pos' == length (b ∷ pos) then skip_unknown pos' else pos')
      < length (b ∷ pos)
skip_if_stuck b pos [] h = ground arith
skip_if_stuck b pos (c ∷ pos') h = ground (arith, skip_unknown_takes c pos')

decode_group_round_takes :
    (b : ℕ) (pos : Bytes) (results : GroupMessage)
    → length (decode_group_round (b ∷ pos) results).0 < length (b ∷ pos)
unfolding decode_group_round
decode_group_round_takes b pos results = skip_if_stuck b pos _ (
    omega (
      arith,
      decode_number-shorter group_message_index_tag (b ∷ pos) results.message_index
          results.has_message_index,
      decode_string-shorter group_ciphertext_tag
          (decode_number group_message_index_tag (b ∷ pos) results.message_index
            results.has_message_index).0
          results.ciphertext,
    ))

decode_group_loop_total :
    (fuel : ℕ) (pos : Bytes) (results : GroupMessage)
    → length pos ≤ fuel
    → (r : GroupMessage) × (decode_group_loop fuel pos results ≡ some r)
unfolding decode_group_loop
decode_group_loop_total fuel [] results h = (results, refl)
decode_group_loop_total zero (b ∷ pos) results h = absurd (omega arith)
decode_group_loop_total (suc fuel) (b ∷ pos) results h =
    decode_group_loop_total fuel _ _ (omega (arith, decode_group_round_takes b pos results))

decode_group_body_total : (body : Bytes) → (r : GroupMessage) × (decode_group_body body ≡ some r)
unfolding decode_group_body
decode_group_body_total [] = (no_group_message, refl)
decode_group_body_total (version ∷ pos) = decode_group_loop_total (length pos) pos _ (omega arith)

-- On every input, well formed or not, and for all lengths of MAC and signature, the loop of the
-- decoder ends within as many rounds as there are bytes, and `decode_group_message` returns a
-- result.
pub decode_group_message_total :
    (input : Bytes) (mac_length signature_length : ℕ)
    → (r : GroupMessage) × (decode_group_message input mac_length signature_length ≡ some r)
unfolding decode_group_message
decode_group_message_total input mac_length signature_length =
    elim (Bool-cases (ltb (length input) (mac_length + signature_length))) [
      | inl short ↦ rw short (no_group_message, refl)
      | inr long ↦ rw long (decode_group_body_total _)
    ]
