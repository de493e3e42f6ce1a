-- ===== src/BoundedList/Bounds.antt =====
-- include/olm/list.hh: the operations on the items against the size of the array.
use olm.Base.{
  ℕ, zero, suc, ◌≤◌, List, [], ◌∷◌, All, All-take, All-drop, All-append, length, take, drop,
  length-take, length-drop, length-append, ◌≡◌, refl, ap, arith,
}
use olm.BoundedList.{set_elem, insert_front, erase_at}

-- A list that stays inside its array, of items that are well formed.
abbrev pub IsListOf {ℓ} : {A : Type 0} → ℕ → (A → Type ℓ) → List A → Type ℓ
IsListOf max_size P xs = (length xs ≤ max_size) × All P xs

-- The three operations on lists keep it.
pub insert_front-IsListOf {ℓ} :
    {A : Type 0} (P : A → Type ℓ) (n : ℕ) (x : A) (xs : List A)
    → P x
    → IsListOf n P xs
    → IsListOf n P (insert_front n x xs)
insert_front-IsListOf P n x xs h (size, all) =
    (omega (arith, length-take n (x ∷ xs)), All-take P n (x ∷ xs) (h, all))

pub erase_at-IsListOf {ℓ} :
    {A : Type 0} (P : A → Type ℓ) (n position : ℕ) (xs : List A)
    → IsListOf n P xs
    → IsListOf n P (erase_at position xs)
erase_at-IsListOf P n position xs (size, all) = (
  omega (
    arith,
    length-append (take position xs) (drop (suc position) xs),
    length-take position xs,
    length-drop (suc position) xs,
    size,
  ),
  All-append P (take position xs) (drop (suc position) xs) (All-take P position xs all)
      (All-drop P (suc position) xs all),
)

pub length-set_elem {ℓ} :
    {A : Type ℓ} (xs : List A) (position : ℕ) (x : A) → length (set_elem xs position x) ≡ length xs
unfolding set_elem
length-set_elem [] position x = refl
length-set_elem (y ∷ xs) zero x = refl
length-set_elem (y ∷ xs) (suc position) x = ap suc (length-set_elem xs position x)

pub All-set_elem {ℓ} :
    {A : Type 0} (P : A → Type ℓ) (xs : List A) (position : ℕ) (x : A)
    → P x
    → All P xs
    → All P (set_elem xs position x)
unfolding set_elem
All-set_elem P [] position x h all = tt
All-set_elem P (y ∷ xs) zero x h (first, rest) = (h, rest)
All-set_elem P (y ∷ xs) (suc position) x h (first, rest) =
    (first, All-set_elem P xs position x h rest)

pub set_elem-IsListOf {ℓ} :
    {A : Type 0} (P : A → Type ℓ) (n position : ℕ) (x : A) (xs : List A)
    → P x
    → IsListOf n P xs
    → IsListOf n P (set_elem xs position x)
set_elem-IsListOf P n position x xs h (size, all) =
    (omega (arith, length-set_elem xs position x), All-set_elem P xs position x h all)
