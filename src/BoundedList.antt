-- ===== src/BoundedList.antt =====
-- include/olm/list.hh: a list of bounded size in an array.
-- `BoundedList` is the array with the index of its end, and its operations are the source's loops.
-- The other components take a list for the items in front of the end, with `erase_at`,
-- `insert_at` and its two special cases for what the operations do to it.
pub mod Refinement
pub mod Bounds
use olm.Base.{
  ℕ, zero, suc, ◌+◌, ◌-◌, Bool, true, false, Option, none, some, List, [], ◌∷◌, ◌++◌, length, take,
  drop, min, ◌==◌, if◌then◌else◌,
}

module _ {ℓ} {A : Type ℓ} where
  -- `data[index]`, `none` out of range.
  unfoldable pub get_elem? : List A → ℕ → Option A
  get_elem? [] index = none
  get_elem? (x ∷ xs) zero = some x
  get_elem? (x ∷ xs) (suc index) = get_elem? xs index

  -- `data[index] = value`
  unfoldable pub set_elem : List A → ℕ → A → List A
  set_elem [] index value = []
  set_elem (x ∷ xs) zero value = value ∷ xs
  set_elem (x ∷ xs) (suc index) value = x ∷ set_elem xs index value

  -- `data[to] = data[from]`
  unfoldable pub copy_elem : List A → ℕ → ℕ → List A
  copy_elem xs from to = elim (get_elem? xs from) [ none ↦ xs | some value ↦ set_elem xs to value ]

  -- `while (pos != _end) { *pos = *(pos + 1); ++pos; }` over `rounds` items.
  pub shift_down : ℕ → ℕ → List A → List A
  shift_down zero pos xs = xs
  shift_down (suc rounds) pos xs = shift_down rounds (suc pos) (copy_elem xs (suc pos) pos)

  -- `while (tmp != pos) { *tmp = *(tmp - 1); --tmp; }` over `rounds` items.
  pub shift_up : ℕ → ℕ → List A → List A
  shift_up zero tmp xs = xs
  shift_up (suc rounds) tmp xs = shift_up rounds (tmp - 1) (copy_elem xs (tmp - 1) tmp)

-- `elements` is the whole array, of `max_size` entries.
pub record BoundedList {ℓ} (A : Type ℓ) : Type ℓ where
  pub elements : List A
  pub end : ℕ

module _ {ℓ} {A : Type ℓ} where
  unfoldable pub is_empty : BoundedList A → Bool
  is_empty list = list.end == 0

  unfoldable pub erase : BoundedList A → ℕ → BoundedList A
  erase list pos =
      let end' = list.end - 1 in
      record { elements = shift_down (end' - pos) pos list.elements; end = end' }

  -- The list after `insert(pos)`, and the position that it returns.
  unfoldable pub insert_slot : BoundedList A → ℕ → BoundedList A × ℕ
  insert_slot list pos =
      let is_full = list.end == length list.elements in
      let end' = if is_full then list.end else list.end + 1 in
      let pos' = if is_full then (if pos == list.end then pos - 1 else pos) else pos in
      (record { elements = shift_up (end' - 1 - pos') (end' - 1) list.elements; end = end' }, pos')

  -- `insert(pos, value)`
  unfoldable pub insert : BoundedList A → ℕ → A → BoundedList A
  insert list pos value =
      let (list', pos') = insert_slot list pos in
      record list' { elements = set_elem list'.elements pos' value }

  -- The items between `begin()` and `end()`.
  unfoldable pub items : BoundedList A → List A
  items list = take list.end list.elements

  -- The operations on the items; a list that is full loses its last item.
  abbrev pub erase_at : ℕ → List A → List A
  erase_at pos xs = take pos xs ++ drop (suc pos) xs

  abbrev pub insert_at : ℕ → ℕ → A → List A → List A
  insert_at max_size pos value xs =
      let pos' = min pos (max_size - 1) in take max_size (take pos' xs ++ value ∷ drop pos' xs)

  abbrev pub insert_front : ℕ → A → List A → List A
  insert_front max_size value xs = take max_size (value ∷ xs)

  abbrev pub insert_back : ℕ → A → List A → List A
  insert_back max_size value xs = insert_at max_size (length xs) value xs
