-- ===== src/Pickle.antt =====
-- src/pickle.cpp, include/olm/pickle.h, include/olm/pickle.hh: the flat binary form of the
-- library's objects.
-- A writer returns the bytes that it stores from `pos` on. A reader takes the bytes between `pos`
-- and `end`; it returns the value that its output argument holds afterwards, also where it fails,
-- and the new position, `none` for the null pointer.
pub mod RoundTrip
pub mod Lists
use olm.Base.{
  ℕ, zero, suc, ◌+◌, ◌*◌, ◌/◌, ◌%◌, ◌^◌, bit_or, Bytes, Bool, true, false, not, Option, none, some,
  List, [], ◌∷◌, ◌++◌, length, take, drop, ltb, ◌==◌, if◌then◌else◌,
}

-- `for (i = n; i--;) { *(--pos) = value; value >>= 8; }`: the bytes are written from the last on.
unfoldable pub pickle_loop : ℕ → ℕ → Bytes → Bytes
pickle_loop zero value written = written
pickle_loop (suc i) value written = pickle_loop i (value / 2 ^ 8) (value % 256 ∷ written)

-- `for (i = n; i--;) { value <<= 8; value |= *(pos++); }` on a `width`-bit value.
pub unpickle_loop : ℕ → ℕ → ℕ → Bytes → ℕ × Bytes
unpickle_loop width zero value pos = (value, pos)
unpickle_loop width (suc i) value [] = (value, [])
unpickle_loop width (suc i) value (b ∷ pos) =
    unpickle_loop width i (bit_or (value * 2 ^ 8 % 2 ^ width) b) pos

abbrev pub uint32_length : ℕ
uint32_length = 4

unfoldable pub pickle_uint32 : ℕ → Bytes
pickle_uint32 value = pickle_loop 4 value []

unfoldable pub unpickle_uint32 : Bytes → ℕ × Option Bytes
unpickle_uint32 pos =
    if ltb (length pos) 4
    then (0, none)
    else (let (value, rest) = unpickle_loop 32 4 0 pos in (value, some rest))

unfoldable pub pickle_uint64 : ℕ → Bytes
pickle_uint64 value = pickle_loop 8 value []

unfoldable pub unpickle_uint64 : Bytes → ℕ × Option Bytes
unpickle_uint64 pos =
    if ltb (length pos) 8
    then (0, none)
    else (let (value, rest) = unpickle_loop 64 8 0 pos in (value, some rest))

unfoldable pub pickle_uint8 : ℕ → Bytes
pickle_uint8 value = value ∷ []

-- `value` is what the output argument holds before.
unfoldable pub unpickle_uint8 : ℕ → Bytes → ℕ × Option Bytes
unpickle_uint8 value [] = (value, none)
unpickle_uint8 value (b ∷ pos) = (b, some pos)

unfoldable pub pickle_bool : Bool → Bytes
pickle_bool value = (if value then 1 else 0) ∷ []

-- Any byte but zero reads as true.
unfoldable pub unpickle_bool : Bool → Bytes → Bool × Option Bytes
unpickle_bool value [] = (value, none)
unpickle_bool value (b ∷ pos) = (not (b == 0), some pos)

-- `memcpy(pos, bytes, bytes_length)`
unfoldable pub pickle_bytes : Bytes → ℕ → Bytes
pickle_bytes bytes bytes_length = take bytes_length bytes

unfoldable pub unpickle_bytes : Bytes → ℕ → Bytes → Bytes × Option Bytes
unpickle_bytes bytes bytes_length pos =
    if ltb (length pos) bytes_length
    then (bytes, none)
    else (take bytes_length pos, some (drop bytes_length pos))

abbrev pub ed25519_public_key_length : ℕ
ed25519_public_key_length = 32

abbrev pub ed25519_private_key_length : ℕ
ed25519_private_key_length = 64

abbrev pub curve25519_key_length : ℕ
curve25519_key_length = 32

-- `struct _olm_ed25519_key_pair` and `struct _olm_curve25519_key_pair`; a public key alone is its
-- bytes.
pub record KeyPair : Type 0 where
  pub public_key : Bytes
  pub private_key : Bytes

unfoldable pub pickle_ed25519_public_key : Bytes → Bytes
pickle_ed25519_public_key value = pickle_bytes value ed25519_public_key_length

unfoldable pub unpickle_ed25519_public_key : Bytes → Bytes → Bytes × Option Bytes
unpickle_ed25519_public_key value pos = unpickle_bytes value ed25519_public_key_length pos

unfoldable pub pickle_ed25519_key_pair : KeyPair → Bytes
pickle_ed25519_key_pair value =
    pickle_bytes value.public_key ed25519_public_key_length
    ++ pickle_bytes value.private_key ed25519_private_key_length

-- Both readers of a key pair stop after the first half that fails.
unfoldable pub unpickle_key_pair : ℕ → ℕ → KeyPair → Bytes → KeyPair × Option Bytes
unpickle_key_pair public_length private_length value pos =
    let (public_key, rest) = unpickle_bytes value.public_key public_length pos in
    elim rest [
      | none ↦ (record value { public_key = public_key }, none)
      | some pos' ↦
          let (private_key, rest') = unpickle_bytes value.private_key private_length pos' in
          (record { public_key = public_key; private_key = private_key }, rest')
    ]

unfoldable pub unpickle_ed25519_key_pair : KeyPair → Bytes → KeyPair × Option Bytes
unpickle_ed25519_key_pair = unpickle_key_pair ed25519_public_key_length ed25519_private_key_length

unfoldable pub pickle_curve25519_public_key : Bytes → Bytes
pickle_curve25519_public_key value = pickle_bytes value curve25519_key_length

unfoldable pub unpickle_curve25519_public_key : Bytes → Bytes → Bytes × Option Bytes
unpickle_curve25519_public_key value pos = unpickle_bytes value curve25519_key_length pos

unfoldable pub pickle_curve25519_key_pair : KeyPair → Bytes
pickle_curve25519_key_pair value =
    pickle_bytes value.public_key curve25519_key_length
    ++ pickle_bytes value.private_key curve25519_key_length

unfoldable pub unpickle_curve25519_key_pair : KeyPair → Bytes → KeyPair × Option Bytes
unpickle_curve25519_key_pair = unpickle_key_pair curve25519_key_length curve25519_key_length
