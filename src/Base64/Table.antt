-- ===== src/Base64/Table.antt =====
-- The two tables of src/base64.cpp, on the 64 values of six bits.
use olm.Base.{
  ℕ, zero, suc, ◌+◌, ◌<◌, ◌≤◌, ◌≡◌, refl, arith, Bool, true, false, ◌==◌, ==_iff, ltb,
  if◌then◌else◌, Bool-cases, inl, inr,
}
use olm.Base64.{encode_sextet, decode_sextet}

-- The character of a value is in ASCII, and stands for the value.
is_good : ℕ → Bool
is_good value =
    if ltb (encode_sextet value) 128 then decode_sextet (encode_sextet value) == value else false

-- The `count` values from `first` on, tried one by one.
try_from : ℕ → ℕ → Bool
try_from zero first = true
try_from (suc count) first =
    let others = try_from count (first + 1) in if is_good first then others else false

try_from_lem :
    (count first value : ℕ)
    → try_from count first ≡ true
    → first ≤ value
    → value < first + count
    → is_good value ≡ true
unfolding try_from
try_from_lem zero first value tried from to = absurd (omega arith)
try_from_lem (suc count) first value tried from to = elim (Bool-cases (value == first)) [
  | inl here ↦ ground (arith, (==_iff value first).0 here)
  | inr elsewhere ↦ ground (arith, try_from_lem count (first + 1) value)
]

all_good : try_from 64 0 ≡ true
unfolding try_from is_good encode_sextet decode_sextet
all_good = refl

sextets : (value : ℕ) → value < 64 → is_good value ≡ true
sextets value h = try_from_lem 64 0 value all_good (omega arith) (omega arith)

pub encode_sextet-lt : (v : ℕ) → v < 64 → encode_sextet v < 128
unfolding is_good
encode_sextet-lt v h = ground (arith, sextets v h)

pub decode_sextet-encode_sextet : (v : ℕ) → v < 64 → decode_sextet (encode_sextet v) ≡ v
unfolding is_good
decode_sextet-encode_sextet v h = ground (arith, sextets v h)
