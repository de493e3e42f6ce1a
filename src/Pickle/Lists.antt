-- ===== src/Pickle/Lists.antt =====
-- The templates of include/olm/pickle.hh for lists, and the early return of `UNPICKLE_OK`.
-- The readers here return the value and the new position, or `none`; what a reader leaves in its
-- output argument where it fails is left out.
use olm.Base.{
  ℕ, zero, suc, ◌+◌, ◌*◌, ◌^◌, ◌≤◌, ◌<◌, Bytes, Option, none, some, List, [], ◌∷◌, ◌++◌,
  append_assoc, append-nil, All, length, length-append, take_all, drop_all, ◌>>=◌, ◌≡◌, refl, ap,
  arith, ◌∙◌,
}
use olm.BoundedList.{insert_back}
use olm.BoundedList.Refinement.{insert_at_room}
use olm.Pickle.{pickle_uint32, unpickle_uint32}
use olm.Pickle.RoundTrip.{unpickle_uint32-pickle_uint32, pickle_uint32-IsBuffer}

unfoldable pub unpickle_ok {ℓ} : {A : Type ℓ} → A × Option Bytes → Option (A × Bytes)
unpickle_ok (value, none) = none
unpickle_ok (value, some pos) = some (value, pos)

module _ {A : Type 0} (pickle : A → Bytes) where
  unfoldable pub pickle_items : List A → Bytes
  pickle_items [] = []
  pickle_items (value ∷ list) = pickle value ++ pickle_items list

  unfoldable pub pickle_list : List A → Bytes
  pickle_list list = pickle_uint32 (length list) ++ pickle_items list

module _ {A : Type 0} (max_size : ℕ) (unpickle : Bytes → Option (A × Bytes)) where
  -- `while (size-- && pos != end)`: the loop ends without an error where the input does.
  unfoldable pub unpickle_items : ℕ → Bytes → List A → Option (List A × Bytes)
  unpickle_items zero pos list = some (list, pos)
  unpickle_items (suc size) [] list = some (list, [])
  unpickle_items (suc size) (b ∷ pos) list = do
    (value, pos') ← unpickle (b ∷ pos)
    unpickle_items size pos' (insert_back max_size value list)

  unfoldable pub unpickle_list : List A → Bytes → Option (List A × Bytes)
  unpickle_list list pos = do
    (size, pos') ← unpickle_ok (unpickle_uint32 pos)
    unpickle_items size pos' list

insert_back_room :
    {A : Type 0} (max_size : ℕ) (x : A) (xs : List A)
    → length xs < max_size
    → insert_back max_size x xs ≡ xs ++ (x ∷ [])
insert_back_room max_size x xs h =
    insert_at_room max_size (length xs) x xs (omega arith) h
    ∙ rw (take_all (length xs) xs (omega arith), drop_all (length xs) xs (omega arith)) refl

module _ {A : Type 0} (P : A → Type 0) (pickle : A → Bytes) (unpickle : Bytes → Option (A × Bytes))
    (reads : (x : A) (rest : Bytes) → P x → unpickle (pickle x ++ rest) ≡ some (x, rest))
    (writes : (x : A) → P x → 0 < length (pickle x)) (max_size : ℕ) where
  unpickle_items_next :
      (size : ℕ) (x : A) (pos rest : Bytes) (list : List A)
      → 0 < length pos
      → unpickle pos ≡ some (x, rest)
      → unpickle_items max_size unpickle (suc size) pos list
        ≡ unpickle_items max_size unpickle size rest (insert_back max_size x list)
  unfolding unpickle_items
  unpickle_items_next size x [] rest list h k = absurd (omega arith)
  unpickle_items_next size x (b ∷ pos) rest list h k = rw k refl

  unpickle_items-pickle_items :
      (xs list : List A) (rest : Bytes)
      → All P xs
      → length list + length xs ≤ max_size
      → unpickle_items max_size unpickle (length xs) (pickle_items pickle xs ++ rest) list
        ≡ some (list ++ xs, rest)
  unfolding unpickle_items pickle_items
  unpickle_items-pickle_items [] list rest all room = rw append-nil refl
  unpickle_items-pickle_items (x ∷ xs) list rest (h, all) room =
      let after = pickle_items pickle xs ++ rest in
      let first = pickle x ++ after in
      let there : 0 < length first = omega (arith, length-append (pickle x) after, writes x h) in
      let more : length (list ++ (x ∷ [])) + length xs ≤ max_size =
        omega (arith, length-append list (x ∷ [])) in
      rw (append_assoc (pickle x) (pickle_items pickle xs) rest) (
        unpickle_items_next (length xs) x first after list there (reads x after h)
        ∙ ap (unpickle_items max_size unpickle (length xs) after)
            (insert_back_room max_size x list (omega arith))
        ∙ unpickle_items-pickle_items xs (list ++ (x ∷ [])) rest all more
        ∙ ap (λ (t : List A). some (t, rest)) (append_assoc list (x ∷ []) xs))

  -- A list that fits its array is read back, into one that is empty.
  pub unpickle_list-pickle_list :
      (xs : List A) (rest : Bytes)
      → All P xs
      → length xs ≤ max_size
      → max_size < 2 ^ 32
      → unpickle_list max_size unpickle [] (pickle_list pickle xs ++ rest) ≡ some (xs, rest)
  unfolding unpickle_list pickle_list unpickle_ok
  unpickle_list-pickle_list xs rest all room bits =
      let items = pickle_items pickle xs ++ rest in
      rw
        (
          append_assoc (pickle_uint32 (length xs)) (pickle_items pickle xs) rest,
          unpickle_uint32-pickle_uint32 (length xs) items (omega arith),
        )
        (unpickle_items-pickle_items xs [] rest all (omega arith))

  length-items :
      (n : ℕ) (xs : List A)
      → ((x : A) → P x → length (pickle x) ≡ n)
      → All P xs
      → length (pickle_items pickle xs) ≡ length xs * n
  unfolding pickle_items
  length-items n [] sizes all = omega arith
  length-items n (x ∷ xs) sizes (h, all) = omega (
    arith,
    length-append (pickle x) (pickle_items pickle xs),
    sizes x h,
    length-items n xs sizes all,
  )

  -- The announced length of a list whose items all have `n` bytes.
  pub length-pickle_list :
      (n : ℕ) (xs : List A)
      → ((x : A) → P x → length (pickle x) ≡ n)
      → All P xs
      → length (pickle_list pickle xs) ≡ 4 + length xs * n
  unfolding pickle_list
  length-pickle_list n xs sizes all = omega (
    arith,
    length-append (pickle_uint32 (length xs)) (pickle_items pickle xs),
    (pickle_uint32-IsBuffer (length xs)).0,
    length-items n xs sizes all,
  )
