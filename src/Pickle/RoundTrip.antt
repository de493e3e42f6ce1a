-- ===== src/Pickle/RoundTrip.antt =====
-- The writers and readers of src/pickle.cpp.
use olm.Base.{
  ℕ, zero, suc, ◌+◌, ◌*◌, ◌/◌, ◌%◌, ◌^◌, ◌<◌, Bytes, IsBytes, IsBuffer, Bool, true, false, some, [],
  ◌∷◌, ◌++◌, length, length-append, take-append, drop-append, take_all, le→ltb, ◌≡◌, refl, ap,
  arith, ◌∙◌,
}
use native.Mathlib.Nat.{pow-suc, mod-eq_of_lt}
use olm.Base.Bits.{bit_or_fields}
use olm.Pickle.{
  pickle_loop, unpickle_loop, pickle_uint32, unpickle_uint32, pickle_uint64, unpickle_uint64,
  pickle_bool, unpickle_bool, pickle_bytes, unpickle_bytes, KeyPair, unpickle_key_pair,
}

power_step : (acc n v : ℕ) → (acc * 256 ^ n + v / 256) * 256 + v % 256 ≡ acc * 256 ^ suc n + v
power_step acc n v = omega (arith, ap (λ (t : ℕ). acc * t) (pow-suc 256 n))

last_byte :
    (width k acc b : ℕ) (rest : Bytes)
    → acc * 256 < 2 ^ width
    → b < 256
    → unpickle_loop width (suc k) acc (b ∷ rest) ≡ unpickle_loop width k (acc * 256 + b) rest
unfolding unpickle_loop
last_byte width k acc b rest room hb = rw (mod-eq_of_lt room, bit_or_fields 8 acc b hb)

-- Reading the `n` bytes of a value shifts it into the accumulator, and `k` rounds are left.
unpickle_loop-pickle_loop :
    (width n k rounds acc v : ℕ) (rest : Bytes)
    → rounds ≡ n + k
    → v < 256 ^ n
    → acc * 256 ^ n + v < 2 ^ width
    → unpickle_loop width rounds acc (pickle_loop n v rest)
      ≡ unpickle_loop width k (acc * 256 ^ n + v) rest
unfolding pickle_loop
unpickle_loop-pickle_loop width zero k rounds acc v rest e h fits =
    let r : rounds ≡ k = omega arith in
    let a : acc ≡ acc * 256 ^ 0 + v = omega arith in rw (r, ← a) refl
unpickle_loop-pickle_loop width (suc n) k rounds acc v rest e h fits =
    let high : v / 256 < 256 ^ n = omega (arith, pow-suc 256 n) in
    let room : (acc * 256 ^ n + v / 256) * 256 < 2 ^ width = omega (arith, power_step acc n v) in
    unpickle_loop-pickle_loop width n (suc k) rounds acc (v / 256) (v % 256 ∷ rest) (omega arith)
      high (omega arith)
    ∙ last_byte width k (acc * 256 ^ n + v / 256) (v % 256) rest room (omega arith)
    ∙ ap (λ (t : ℕ). unpickle_loop width k t rest) (power_step acc n v)

pub pickle_loop-append :
    (n v : ℕ) (written rest : Bytes)
    → pickle_loop n v written ++ rest ≡ pickle_loop n v (written ++ rest)
unfolding pickle_loop
pickle_loop-append zero v written rest = refl
pickle_loop-append (suc n) v written rest = pickle_loop-append n (v / 256) (v % 256 ∷ written) rest

length-pickle_loop :
    (n v : ℕ) (written : Bytes) → length (pickle_loop n v written) ≡ n + length written
unfolding pickle_loop
length-pickle_loop zero v written = omega arith
length-pickle_loop (suc n) v written =
    omega (arith, length-pickle_loop n (v / 256) (v % 256 ∷ written))

IsBytes-pickle_loop :
    (n v : ℕ) (written : Bytes) → IsBytes written → IsBytes (pickle_loop n v written)
unfolding pickle_loop
IsBytes-pickle_loop zero v written h = h
IsBytes-pickle_loop (suc n) v written h =
    IsBytes-pickle_loop n (v / 256) (v % 256 ∷ written) (omega arith, h)

pub pickle_uint32-IsBuffer : (v : ℕ) → IsBuffer 4 (pickle_uint32 v)
pickle_uint32-IsBuffer v =
    unfold pickle_uint32 in
    (omega (arith, length-pickle_loop 4 v []), IsBytes-pickle_loop 4 v [] tt)

pub pickle_uint64-IsBuffer : (v : ℕ) → IsBuffer 8 (pickle_uint64 v)
pickle_uint64-IsBuffer v =
    unfold pickle_uint64 in
    (omega (arith, length-pickle_loop 8 v []), IsBytes-pickle_loop 8 v [] tt)

pub uint32_loop :
    (v : ℕ) (rest : Bytes) → v < 2 ^ 32 → unpickle_loop 32 4 0 (pickle_loop 4 v rest) ≡ (v, rest)
uint32_loop v rest h =
    unpickle_loop-pickle_loop 32 4 0 4 0 v rest (omega arith) h (omega arith)
    ∙ unfold unpickle_loop in ap (λ (t : ℕ). (t, rest)) (omega arith)

uint64_loop :
    (v : ℕ) (rest : Bytes) → v < 2 ^ 64 → unpickle_loop 64 8 0 (pickle_loop 8 v rest) ≡ (v, rest)
uint64_loop v rest h =
    unpickle_loop-pickle_loop 64 8 0 8 0 v rest (omega arith) h (omega arith)
    ∙ unfold unpickle_loop in ap (λ (t : ℕ). (t, rest)) (omega arith)

-- A 32-bit value, pickled in front of any bytes, is read back, and the position is at those bytes.
pub unpickle_uint32-pickle_uint32 :
    (v : ℕ) (rest : Bytes) → v < 2 ^ 32 → unpickle_uint32 (pickle_uint32 v ++ rest) ≡ (v, some rest)
unpickle_uint32-pickle_uint32 v rest h =
    unfold pickle_uint32 unpickle_uint32 in
    rw (
      pickle_loop-append 4 v [] rest,
      le→ltb (length (pickle_loop 4 v rest)) 4 (omega (arith, length-pickle_loop 4 v rest)),
      uint32_loop v rest h,
    )

pub unpickle_uint64-pickle_uint64 :
    (v : ℕ) (rest : Bytes) → v < 2 ^ 64 → unpickle_uint64 (pickle_uint64 v ++ rest) ≡ (v, some rest)
unpickle_uint64-pickle_uint64 v rest h =
    unfold pickle_uint64 unpickle_uint64 in
    rw (
      pickle_loop-append 8 v [] rest,
      le→ltb (length (pickle_loop 8 v rest)) 8 (omega (arith, length-pickle_loop 8 v rest)),
      uint64_loop v rest h,
    )

pub unpickle_bool-pickle_bool :
    (old v : Bool) (rest : Bytes) → unpickle_bool old (pickle_bool v ++ rest) ≡ (v, some rest)
unfolding unpickle_bool pickle_bool
unpickle_bool-pickle_bool old true rest = refl
unpickle_bool-pickle_bool old false rest = refl

pub pickle_bytes_exact : (bytes : Bytes) (n : ℕ) → length bytes ≡ n → pickle_bytes bytes n ≡ bytes
unfolding pickle_bytes
pickle_bytes_exact bytes n h = take_all n bytes (omega arith)

pub unpickle_bytes-append :
    (old bytes rest : Bytes) (n : ℕ)
    → length bytes ≡ n
    → unpickle_bytes old n (bytes ++ rest) ≡ (bytes, some rest)
unfolding unpickle_bytes
unpickle_bytes-append old bytes rest n h = rw (
  le→ltb (length (bytes ++ rest)) n (omega (arith, length-append bytes rest)),
  take-append n bytes rest h,
  drop-append n bytes rest h,
)

pub unpickle_key_pair-append :
    (n m : ℕ) (old value : KeyPair) (rest : Bytes)
    → length value.public_key ≡ n
    → length value.private_key ≡ m
    → unpickle_key_pair n m old (value.public_key ++ (value.private_key ++ rest))
      ≡ (value, some rest)
unfolding unpickle_key_pair
unpickle_key_pair-append n m old value rest hn hm =
    rw
      (
        unpickle_key_pair,
        unpickle_bytes-append old.public_key value.public_key (value.private_key ++ rest) n hn,
      )
      (rw (
        unpickle_bytes-append old.public_key value.public_key (value.private_key ++ rest) n hn,
        unpickle_bytes-append old.private_key value.private_key rest m hm,
      ))
