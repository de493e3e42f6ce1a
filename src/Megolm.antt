-- ===== src/Megolm.antt =====
-- src/megolm.c: the four-part ratchet of group chats.
pub mod Levels
pub mod Runs
pub mod Stage
pub mod Rounds
pub mod Advance
pub mod Ahead
pub mod Pickling
pub mod Shape
use olm.Base.{
  ℕ, zero, suc, ◌+◌, ◌-◌, ◌*◌, ◌/◌, ◌%◌, ◌^◌, bit_and, Bytes, Bool, true, false, Option, none, some,
  [], ◌∷◌, ◌++◌, length, take, drop, ltb, ◌==◌, if◌then◌else◌,
}
use olm.Crypto.External.{Primitives}
use olm.Crypto.{hmac_sha256}
use olm.Pickle.{pickle_bytes, unpickle_bytes, pickle_uint32, unpickle_uint32}

abbrev pub megolm_ratchet_part_length : ℕ
megolm_ratchet_part_length = 32

abbrev pub megolm_ratchet_parts : ℕ
megolm_ratchet_parts = 4

abbrev pub megolm_ratchet_length : ℕ
megolm_ratchet_length = megolm_ratchet_parts * megolm_ratchet_part_length

-- `uint8_t data[4][32]`
pub record Parts : Type 0 where
  pub r0 : Bytes
  pub r1 : Bytes
  pub r2 : Bytes
  pub r3 : Bytes

pub record Megolm : Type 0 where
  pub data_parts : Parts
  pub counter : ℕ

-- `data[i]`, read and written; the code's indices are 0 to 3.
unfoldable pub part : Parts → ℕ → Bytes
part d zero = d.r0
part d (suc zero) = d.r1
part d (suc (suc zero)) = d.r2
part d (suc (suc (suc i))) = d.r3

unfoldable pub set_part : Parts → ℕ → Bytes → Parts
set_part d zero bytes = record d { r0 = bytes }
set_part d (suc zero) bytes = record d { r1 = bytes }
set_part d (suc (suc zero)) bytes = record d { r2 = bytes }
set_part d (suc (suc (suc i))) bytes = record d { r3 = bytes }

-- The 128 bytes in a row, and back.
unfoldable pub megolm_get_data : Megolm → Bytes
megolm_get_data megolm = let d = megolm.data_parts in d.r0 ++ (d.r1 ++ (d.r2 ++ d.r3))

unfoldable pub parts_of : Bytes → Parts
parts_of bytes =
    let bytes1 = drop 32 bytes in
    let bytes2 = drop 32 bytes1 in
    let bytes3 = drop 32 bytes2 in
    record { r0 = take 32 bytes; r1 = take 32 bytes1; r2 = take 32 bytes2; r3 = take 32 bytes3 }

abbrev hash_key_seed : ℕ → Bytes
hash_key_seed i = i ∷ []

unfoldable pub megolm_init : Bytes → ℕ → Megolm
megolm_init random_data counter = record { data_parts = parts_of random_data; counter = counter }

unfoldable pub megolm_pickle_length : ℕ
megolm_pickle_length = megolm_ratchet_length + 4

unfoldable pub megolm_pickle : Megolm → Bytes
megolm_pickle megolm =
    pickle_bytes (megolm_get_data megolm) megolm_ratchet_length ++ pickle_uint32 megolm.counter

-- The ratchet as it stands after the call, and the position. Where the counter is cut off, the
-- data is already stored and the counter is 0.
unfoldable pub megolm_unpickle : Megolm → Bytes → Megolm × Option Bytes
megolm_unpickle megolm pos =
    let (bytes, rest) = unpickle_bytes (megolm_get_data megolm) megolm_ratchet_length pos in
    elim rest [
      | none ↦ (megolm, none)
      | some pos' ↦
          let (counter, rest') = unpickle_uint32 pos' in
          (record { data_parts = parts_of bytes; counter = counter }, rest')
    ]

-- The `while` of `megolm_advance`: the first part whose mask the counter clears.
pub rekey_part : ℕ → ℕ → ℕ → ℕ → ℕ
rekey_part zero counter mask h = h
rekey_part (suc left) counter mask h =
    let later = rekey_part left counter (mask / 2 ^ 8) (h + 1) in
    if bit_and counter mask == 0 then h else later

-- How often part `j` is to be rehashed: 0 where the code says `continue`.
pub steps_of : ℕ → ℕ → ℕ → ℕ
steps_of shift advance_to counter =
    let steps = bit_and ((advance_to / 2 ^ shift + 2 ^ 32 - counter / 2 ^ shift) % 2 ^ 32) 0xff in
    if steps == 0 then (if ltb advance_to counter then 0x100 else 0) else steps

module _ (p : Primitives) where
  pub rehash_part : Parts → ℕ → ℕ → Parts
  rehash_part d rehash_from_part rehash_to_part =
      set_part d rehash_to_part
        (hmac_sha256 p (part d rehash_from_part) (hash_key_seed rehash_to_part))

  -- `for (i = n - 1; i >= h; i--) rehash_part(data, h, i);`
  pub rehash_down : ℕ → ℕ → Parts → Parts
  rehash_down h zero d = d
  rehash_down h (suc i) d =
      let next = rehash_down h i (rehash_part d h i) in if ltb i h then d else next

  unfoldable pub megolm_advance : Megolm → Megolm
  megolm_advance megolm =
      let counter = (megolm.counter + 1) % 2 ^ 32 in
      let h = rekey_part megolm_ratchet_parts counter 0x00ff_ffff 0 in
      record {
        data_parts = rehash_down h megolm_ratchet_parts megolm.data_parts;
        counter = counter;
      }

  -- `while (steps > 1) { rehash_part(data, j, j); steps--; }`, for `steps - 1` rounds.
  pub rehash_self : ℕ → ℕ → Parts → Parts
  rehash_self j zero d = d
  rehash_self j (suc rounds) d = rehash_self j rounds (rehash_part d j j)

  -- One round of the loop over the parts.
  pub advance_part : ℕ → ℕ → Megolm → Megolm
  advance_part advance_to j megolm =
      let shift = (megolm_ratchet_parts - j - 1) * 8 in
      let mask = (2 ^ 32 - 1) * 2 ^ shift % 2 ^ 32 in
      let steps = steps_of shift advance_to megolm.counter in
      if steps == 0 then megolm else record {
        data_parts =
            rehash_down j megolm_ratchet_parts (rehash_self j (steps - 1) megolm.data_parts);
        counter = bit_and advance_to mask;
      }

  -- `for (j = 0; j < MEGOLM_RATCHET_PARTS; j++)`, with the rounds that are left.
  pub advance_parts : ℕ → ℕ → ℕ → Megolm → Megolm
  advance_parts advance_to zero j megolm = megolm
  advance_parts advance_to (suc left) j megolm =
      advance_parts advance_to left (j + 1) (advance_part advance_to j megolm)

  unfoldable pub megolm_advance_to : Megolm → ℕ → Megolm
  megolm_advance_to megolm advance_to = advance_parts advance_to megolm_ratchet_parts 0 megolm

-- `"MEGOLM_KEYS"`, the key derivation info of `megolm_cipher`.
abbrev pub megolm_cipher : Bytes
megolm_cipher = 0x4d ∷ 0x45 ∷ 0x47 ∷ 0x4f ∷ 0x4c ∷ 0x4d ∷ 0x5f ∷ 0x4b ∷ 0x45 ∷ 0x59 ∷ 0x53 ∷ []
