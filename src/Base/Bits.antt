-- ===== src/Base/Bits.antt =====
-- Masks, shifts and disjoint fields as arithmetic, at every width.
use Prim.Native.Nat.{
  ℕ, zero, suc, ◌+◌, ◌-◌, ◌*◌, ◌/◌, ◌%◌, ◌^◌, ◌≤◌, ◌<◌, min, max, bit_and, bit_or, bit_xor, digits,
  differ, bitwise, bit_and-bitwise, bit_or-bitwise, bit_xor-bitwise,
}
use olm.Base.Tests.{ltb, Bool-cases, ltb→lt, ltb→le}
use mathlib.Core.Path.{◌≡◌, refl, ap, sym, ◌∙◌}
use mathlib.Core.Logic.{◌⊎◌, inl, inr}
use native.Mathlib.Nat.{pow-suc, one-le-pow, div-add-mod', mod-lt}
use native.Mathlib.Omega.{arith}

-- A bitwise operation recurses on halves with the first argument as its fuel. More fuel makes no
-- difference: first one round more, then any.
module _ (rest : ℕ → ℕ) (on_bits : ℕ → ℕ → ℕ) where
  spare_round :
      (fuel x y : ℕ) → x ≤ fuel → digits rest on_bits (suc fuel) x y ≡ digits rest on_bits fuel x y
  spare_round zero zero y enough = refl
  spare_round (suc fuel) zero y enough = refl
  spare_round zero (suc x) y enough = absurd (omega arith)
  spare_round (suc fuel) (suc x) y enough =
      let halves = spare_round fuel (suc x / 2) (y / 2) (omega arith) in rw halves

  spare_fuel : (fuel x y : ℕ) → x ≤ fuel → digits rest on_bits fuel x y ≡ bitwise rest on_bits x y
  spare_fuel zero zero y enough = refl
  spare_fuel zero (suc x) y enough = absurd (omega arith)
  spare_fuel (suc fuel) x y enough = elim (Bool-cases (ltb fuel x)) [
    | inl exact ↦
        let e : suc fuel ≡ x = omega (arith, ltb→lt fuel x exact) in
        ap (λ (n : ℕ). digits rest on_bits n x y) e
    | inr spare ↦
        let fits = ltb→le fuel x spare in spare_round fuel x y fits ∙ spare_fuel fuel x y fits
  ]

  lowest_bit :
      (x y : ℕ)
      → bitwise rest on_bits (suc x) y
        ≡ bitwise rest on_bits (suc x / 2) (y / 2) * 2 + on_bits (suc x % 2) (y % 2)
  lowest_bit x y = let halves = spare_fuel x (suc x / 2) (y / 2) (omega arith) in rw halves

bits_differ : (x y : ℕ) → x < 2 → y < 2 → differ x y ≡ (x + y) % 2
bits_differ (suc (suc x)) y hx hy = absurd (omega arith)
bits_differ (suc zero) (suc (suc y)) hx hy = absurd (omega arith)
bits_differ (suc zero) (suc zero) hx hy = refl
bits_differ (suc zero) zero hx hy = refl
bits_differ zero y hx hy = omega arith

pub bit_xor_step : (x y : ℕ) → bit_xor x y ≡ bit_xor (x / 2) (y / 2) * 2 + (x + y) % 2
bit_xor_step zero y = simp bit_xor-bitwise (omega arith)
bit_xor_step (suc x) y =
    let low = bits_differ (suc x % 2) (y % 2) (omega arith) (omega arith) in
    simp bit_xor-bitwise (lowest_bit (λ t. t) differ x y ∙ rw low (omega arith))

pub bit_and_step : (x y : ℕ) → bit_and x y ≡ bit_and (x / 2) (y / 2) * 2 + min (x % 2) (y % 2)
bit_and_step (suc x) y = simp bit_and-bitwise (lowest_bit (λ t. 0) min x y)
bit_and_step zero y = simp bit_and-bitwise (omega arith)

pub bit_or_step : (x y : ℕ) → bit_or x y ≡ bit_or (x / 2) (y / 2) * 2 + max (x % 2) (y % 2)
bit_or_step (suc x) y = simp bit_or-bitwise (lowest_bit (λ t. t) max x y)
bit_or_step zero y = simp bit_or-bitwise (omega arith)

-- Nothing is left of a number masked by zero, and all of it when zero is added.
no_bits : (fuel x : ℕ) → x ≤ fuel → (bit_and x 0 ≡ 0) × (bit_or x 0 ≡ x)
no_bits fuel zero enough = (refl, refl)
no_bits zero (suc x) enough = absurd (omega arith)
no_bits (suc fuel) (suc x) enough =
    let halves = no_bits fuel (suc x / 2) (omega arith) in
    (omega (arith, bit_and_step (suc x) 0, halves), omega (arith, bit_or_step (suc x) 0, halves))

pub bit_and-zero : (x : ℕ) → bit_and x 0 ≡ 0
bit_and-zero x = (no_bits x x (omega arith)).0

pub bit_or-zero : (x : ℕ) → bit_or x 0 ≡ x
bit_or-zero x = (no_bits x x (omega arith)).1

double_shift : (n k : ℕ) → 2 * (n * 2 ^ k) ≡ n * 2 ^ suc k
double_shift n k = omega (arith, ap (λ (power : ℕ). n * power) (pow-suc 2 k))

-- Below bit `k` stands `low`, above it `high`: the two add up, and the mask of the low bits finds
-- `low` again.
two_fields :
    (high low k : ℕ)
    → low < 2 ^ k
    → (bit_or (high * 2 ^ k) low ≡ high * 2 ^ k + low)
      × (bit_and (high * 2 ^ k + low) (2 ^ k - 1) ≡ low)
two_fields high low zero h = (ground (arith, bit_or-zero high), ground (arith, bit_and-zero high))
two_fields high low (suc k) h =
    let halves = two_fields high (low / 2) k (omega arith) in
    let shift = double_shift high k in
    let power = pow-suc 2 k in
    (
      ground (arith, halves, shift, bit_or_step (high * 2 ^ suc k) low),
      ground (arith, halves, shift, power, bit_and_step (high * 2 ^ suc k + low) (2 ^ suc k - 1)),
    )

pub bit_or_fields : (k q r : ℕ) → r < 2 ^ k → bit_or (q * 2 ^ k) r ≡ q * 2 ^ k + r
bit_or_fields k q r fits = (two_fields q r k fits).0

-- A mask of `k` low bits is the remainder by `2 ^ k`.
pub bit_and_mask : (k a : ℕ) → bit_and a (2 ^ k - 1) ≡ a % 2 ^ k
bit_and_mask k a = ground (arith, one-le-pow k 2, two_fields (a / 2 ^ k) (a % 2 ^ k) k)

-- A mask that is shifted up by `k` clears the low `k` bits.
pub bit_and_shifted :
    (k q r m : ℕ) → r < 2 ^ k → bit_and (q * 2 ^ k + r) (m * 2 ^ k) ≡ bit_and q m * 2 ^ k
bit_and_shifted zero q r m fits = ground arith
bit_and_shifted (suc k) q r m fits = ground (
  arith,
  bit_and_step (q * 2 ^ suc k + r) (m * 2 ^ suc k),
  double_shift q k,
  double_shift m k,
  double_shift (bit_and q m) k,
  bit_and_shifted k q (r / 2) m (omega arith),
)

zero-bit_or : (b : ℕ) → bit_or 0 b ≡ b
zero-bit_or b = bit_or-bitwise 0 b

zero-bit_xor : (b : ℕ) → bit_xor 0 b ≡ b
zero-bit_xor b = bit_xor-bitwise 0 b

half_xor : (a b : ℕ) → bit_xor a b / 2 ≡ bit_xor (a / 2) (b / 2)
half_xor a b = omega (arith, bit_xor_step a b)

small_or_halves : (a b : ℕ) → ((a ≡ 0) × (b ≡ 0)) ⊎ (a / 2 + b / 2 < a + b)
small_or_halves zero zero = inl (refl, refl)
small_or_halves zero (suc b) = inr (omega arith)
small_or_halves (suc a) b = inr (omega arith)

bit_or-eq-zero_fuel : (n a b : ℕ) → a ≤ n → bit_or a b ≡ 0 → (a ≡ 0) × (b ≡ 0)
bit_or-eq-zero_fuel n zero b h e = (refl, rw zero-bit_or at e)
bit_or-eq-zero_fuel zero (suc a) b h e = absurd (omega arith)
bit_or-eq-zero_fuel (suc n) (suc a) b h e = omega (
  arith,
  bit_or_step (suc a) b,
  bit_or-eq-zero_fuel n (suc a / 2) (b / 2) (omega arith) (omega (arith, bit_or_step (suc a) b)),
)

pub bit_or-eq-zero : (a b : ℕ) → bit_or a b ≡ 0 → (a ≡ 0) × (b ≡ 0)
bit_or-eq-zero a b = bit_or-eq-zero_fuel a a b (omega arith)

bit_xor-eq-zero_fuel : (n a b : ℕ) → a ≤ n → bit_xor a b ≡ 0 → a ≡ b
bit_xor-eq-zero_fuel n zero b h e = sym (rw zero-bit_xor at e)
bit_xor-eq-zero_fuel zero (suc a) b h e = absurd (omega arith)
bit_xor-eq-zero_fuel (suc n) (suc a) b h e = omega (
  arith,
  bit_xor_step (suc a) b,
  bit_xor-eq-zero_fuel n (suc a / 2) (b / 2) (omega arith) (omega (arith, bit_xor_step (suc a) b)),
)

pub bit_xor-eq-zero : (a b : ℕ) → bit_xor a b ≡ 0 → a ≡ b
bit_xor-eq-zero a b = bit_xor-eq-zero_fuel a a b (omega arith)

bit_xor_self_fuel : (n a : ℕ) → a ≤ n → bit_xor a a ≡ 0
bit_xor_self_fuel n zero h = refl
bit_xor_self_fuel zero (suc a) h = absurd (omega arith)
bit_xor_self_fuel (suc n) (suc a) h =
    omega (arith, bit_xor_step (suc a) (suc a), bit_xor_self_fuel n (suc a / 2) (omega arith))

pub bit_xor_self : (a : ℕ) → bit_xor a a ≡ 0
bit_xor_self a = bit_xor_self_fuel a a (omega arith)

-- Two masks by one value cancel, which is how CBC is undone.
bit_xor_cancel_fuel : (n a b : ℕ) → a + b ≤ n → bit_xor (bit_xor a b) b ≡ a
bit_xor_cancel_fuel zero a b h =
    let p : a ≡ 0 = omega arith in let q : b ≡ 0 = omega arith in rw (p, q) refl
bit_xor_cancel_fuel (suc n) a b h = elim (small_or_halves a b) [
  | inl (p, q) ↦ rw (p, q) refl
  | inr lt ↦ omega (
    arith,
    bit_xor_step a b,
    bit_xor_step (bit_xor a b) b,
    bit_xor_cancel_fuel n (a / 2) (b / 2) (omega arith),
    ap (λ (t : ℕ). bit_xor t (b / 2)) (half_xor a b),
  )
]

pub bit_xor_cancel : (a b : ℕ) → bit_xor (bit_xor a b) b ≡ a
bit_xor_cancel a b = bit_xor_cancel_fuel (a + b) a b (omega arith)

-- Exclusive or stays within the width of its arguments.
pub bit_xor-lt : (k a b : ℕ) → a < 2 ^ k → b < 2 ^ k → bit_xor a b < 2 ^ k
bit_xor-lt zero a b p q =
    let e : a ≡ 0 = omega arith in let f : b ≡ 0 = omega arith in rw (e, f) (omega arith)
bit_xor-lt (suc k) a b p q = omega (
  arith,
  pow-suc 2 k,
  bit_xor_step a b,
  bit_xor-lt k (a / 2) (b / 2) (omega (arith, pow-suc 2 k)) (omega (arith, pow-suc 2 k)),
)

-- An operation on bits is commutative where its lowest bit is.
module _ (op low : ℕ → ℕ → ℕ) (op_step : (a b : ℕ) → op a b ≡ op (a / 2) (b / 2) * 2 + low a b)
    (low_comm : (a b : ℕ) → low a b ≡ low b a) where
  commutes_on : (n a b : ℕ) → a + b ≤ n → op a b ≡ op b a
  commutes_on zero a b h =
      let p : a ≡ 0 = omega arith in let q : b ≡ 0 = omega arith in rw (p, q) refl
  commutes_on (suc n) a b h = elim (small_or_halves a b) [
    | inl (p, q) ↦ rw (p, q) refl
    | inr lt ↦
        let halves = commutes_on n (a / 2) (b / 2) (omega arith) in
        omega (arith, op_step a b, op_step b a, low_comm a b, halves)
  ]

  commutes : (a b : ℕ) → op a b ≡ op b a
  commutes a b = commutes_on (a + b) a b (omega arith)

pub bit_xor_comm : (a b : ℕ) → bit_xor a b ≡ bit_xor b a
bit_xor_comm = commutes bit_xor (λ a b. (a + b) % 2) bit_xor_step (λ a b. omega arith)

pub bit_or_comm : (a b : ℕ) → bit_or a b ≡ bit_or b a
bit_or_comm = commutes bit_or (λ a b. max (a % 2) (b % 2)) bit_or_step (λ a b. omega arith)

pub bit_and_comm : (a b : ℕ) → bit_and a b ≡ bit_and b a
bit_and_comm = commutes bit_and (λ a b. min (a % 2) (b % 2)) bit_and_step (λ a b. omega arith)

-- The bit with the weight `2 ^ k`.
pub bit_and_bit : (k a : ℕ) → bit_and a (2 ^ k) ≡ a / 2 ^ k % 2 * 2 ^ k
bit_and_bit k a =
    let one_bit : 1 * 2 ^ k ≡ 2 ^ k = omega arith in
    ap (λ (t : ℕ). bit_and t (2 ^ k)) (sym (div-add-mod' a (2 ^ k)))
    ∙ ap (λ (t : ℕ). bit_and (a / 2 ^ k * 2 ^ k + a % 2 ^ k) t) (sym one_bit)
    ∙ bit_and_shifted k (a / 2 ^ k) (a % 2 ^ k) 1 (mod-lt a (one-le-pow k 2 (omega arith)))
    ∙ ap (λ (t : ℕ). t * 2 ^ k) (bit_and_mask 1 (a / 2 ^ k))
