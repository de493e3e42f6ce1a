-- ===== src/BoundedList/Refinement.antt =====
-- include/olm/list.hh: the loops on the array against the lists of items.
use olm.Base.{
  ℕ, zero, suc, ◌+◌, ◌-◌, ◌≤◌, ◌<◌, List, [], ◌∷◌, ◌++◌, length, take, drop, ◌≡◌, refl, take_all,
  length-append, if◌then◌else◌, ap, arith, ◌∙◌, sym, take-take, drop-take, length-take, length-drop,
  take-append, ◌==◌, Bool-cases, min, Option-cases, inl, inr,
}
use olm.BoundedList.{
  get_elem?, set_elem, copy_elem, shift_down, shift_up, BoundedList, erase, insert_slot, insert,
  items, erase_at, insert_at,
}

module _ {ℓ} {A : Type ℓ} where
  copy_elem-cons :
      (x : A) (xs : List A) (from to : ℕ)
      → copy_elem (x ∷ xs) (suc from) (suc to) ≡ x ∷ copy_elem xs from to
  unfolding copy_elem get_elem? set_elem
  copy_elem-cons x xs from to = elim (Option-cases (get_elem? xs from)) [
    | inl e ↦ rw (e, copy_elem) refl
    | inr (v, e) ↦ rw (e, copy_elem) refl
  ]

  shift_down-cons :
      (rounds pos : ℕ) (x : A) (xs : List A)
      → shift_down rounds (suc pos) (x ∷ xs) ≡ x ∷ shift_down rounds pos xs
  unfolding shift_down
  shift_down-cons zero pos x xs = refl
  shift_down-cons (suc rounds) pos x xs =
      ap (shift_down rounds (suc (suc pos))) (copy_elem-cons x xs (suc pos) pos)
      ∙ shift_down-cons rounds (suc pos) x (copy_elem xs (suc pos) pos)

  shift_down-next :
      (rounds : ℕ) (x y : A) (xs : List A)
      → shift_down (suc rounds) 0 (x ∷ y ∷ xs) ≡ y ∷ shift_down rounds 0 (y ∷ xs)
  unfolding shift_down copy_elem get_elem? set_elem
  shift_down-next rounds x y xs = shift_down-cons rounds 0 y (y ∷ xs)

  -- The items behind the position move down by one.
  take-shift_down_first :
      (rounds : ℕ) (x : A) (xs : List A)
      → rounds ≤ length xs
      → take rounds (shift_down rounds 0 (x ∷ xs)) ≡ take rounds xs
  take-shift_down_first zero x xs h = refl
  take-shift_down_first (suc rounds) x [] h = absurd (omega arith)
  take-shift_down_first (suc rounds) x (y ∷ xs) h =
      ap (take (suc rounds)) (shift_down-next rounds x y xs)
      ∙ ap (λ (t : List A). y ∷ t) (take-shift_down_first rounds y xs (omega arith))

  take-shift_down :
      (rounds pos : ℕ) (xs : List A)
      → suc (pos + rounds) ≤ length xs
      → take (pos + rounds) (shift_down rounds pos xs)
        ≡ take pos xs ++ take rounds (drop (suc pos) xs)
  take-shift_down rounds pos [] h = absurd (omega arith)
  take-shift_down rounds zero (x ∷ xs) h =
      let e : 0 + rounds ≡ rounds = omega arith in
      rw e (take-shift_down_first rounds x xs (omega arith))
  take-shift_down rounds (suc pos) (x ∷ xs) h =
      let e : suc pos + rounds ≡ suc (pos + rounds) = omega arith in
      rw e (
        ap (take (suc (pos + rounds))) (shift_down-cons rounds pos x xs)
        ∙ ap (λ (t : List A). x ∷ t) (take-shift_down rounds pos xs (omega arith)))

  shift_up-cons :
      (rounds tmp : ℕ) (x : A) (xs : List A)
      → rounds ≤ tmp
      → shift_up rounds (suc tmp) (x ∷ xs) ≡ x ∷ shift_up rounds tmp xs
  unfolding shift_up
  shift_up-cons zero tmp x xs h = refl
  shift_up-cons (suc rounds) zero x xs h = absurd (omega arith)
  shift_up-cons (suc rounds) (suc tmp) x xs h =
      let e : suc (suc tmp) - 1 ≡ suc tmp = omega arith in
      let f : suc tmp - 1 ≡ tmp = omega arith in
      rw (e, f, copy_elem-cons x xs tmp (suc tmp))
        (shift_up-cons rounds tmp x (copy_elem xs tmp (suc tmp)) (omega arith))

  shift_up_last :
      (rounds tmp from to : ℕ) (xs : List A)
      → tmp - rounds ≡ to
      → to - 1 ≡ from
      → shift_up (suc rounds) tmp xs ≡ copy_elem (shift_up rounds tmp xs) from to
  unfolding shift_up
  shift_up_last zero tmp from to xs h k = let e : tmp ≡ to = omega arith in rw (e, k) refl
  shift_up_last (suc rounds) tmp from to xs h k =
      shift_up_last rounds (tmp - 1) from to (copy_elem xs (tmp - 1) tmp) (omega arith) k

  copy_first : (x y : A) (xs : List A) → copy_elem (x ∷ y ∷ xs) 0 1 ≡ x ∷ x ∷ xs
  unfolding copy_elem get_elem? set_elem
  copy_first x y xs = refl

  -- The items from the position on move up by one.
  shift_up_first :
      (rounds : ℕ) (x : A) (xs : List A)
      → rounds ≤ length xs
      → shift_up rounds rounds (x ∷ xs) ≡ x ∷ (take rounds (x ∷ xs) ++ drop rounds xs)
  unfolding shift_up
  shift_up_first zero x xs h = refl
  shift_up_first (suc rounds) x [] h = absurd (omega arith)
  shift_up_first (suc rounds) x (y ∷ xs) h =
      shift_up_last rounds (suc rounds) 0 1 (x ∷ y ∷ xs) (omega arith) (omega arith)
      ∙ ap (λ (t : List A). copy_elem t 0 1)
          (shift_up-cons rounds rounds x (y ∷ xs) (omega arith)
            ∙ ap (λ (t : List A). x ∷ t) (shift_up_first rounds y xs (omega arith)))
      ∙ copy_first x y (take rounds (y ∷ xs) ++ drop rounds xs)

  -- The array after a shift up and a store at the position.
  set_elem-shift_up :
      (rounds pos : ℕ) (value : A) (xs : List A)
      → suc (pos + rounds) ≤ length xs
      → set_elem (shift_up rounds (pos + rounds) xs) pos value
        ≡ take pos xs ++ (value ∷ (take rounds (drop pos xs) ++ drop (suc (pos + rounds)) xs))
  unfolding set_elem
  set_elem-shift_up rounds pos value [] h = absurd (omega arith)
  set_elem-shift_up rounds zero value (x ∷ xs) h =
      let e : 0 + rounds ≡ rounds = omega arith in
      rw (e, shift_up_first rounds x xs (omega arith)) refl
  set_elem-shift_up rounds (suc pos) value (x ∷ xs) h =
      let e : suc pos + rounds ≡ suc (pos + rounds) = omega arith in
      rw e (
        ap (λ (t : List A). set_elem t (suc pos) value)
          (shift_up-cons rounds (pos + rounds) x xs (omega arith))
        ∙ ap (λ (t : List A). x ∷ t) (set_elem-shift_up rounds pos value xs (omega arith)))

  -- On an array of any size with the end inside of it, and a position in front of the end, `erase`
  -- leaves the items of the list without the one at the position, in their order.
  pub items-erase :
      (list : BoundedList A) (pos : ℕ)
      → pos < list.end
      → list.end ≤ length list.elements
      → items (erase list pos) ≡ erase_at pos (items list)
  unfolding items erase
  items-erase list pos h k =
      let r = list.end - 1 - pos in
      let e : list.end - 1 ≡ pos + r = omega arith in
      let f : list.end - suc pos ≡ r = omega arith in
      ap (λ (t : ℕ). take t (shift_down r pos list.elements)) e
      ∙ take-shift_down r pos list.elements (omega arith)
      ∙ sym (
          rw (
            take-take pos list.end list.elements (omega arith),
            drop-take (suc pos) list.end list.elements,
            f,
          ))

  take-insert :
      (pos rounds : ℕ) (value : A) (xs ys : List A)
      → pos ≤ length xs
      → take (suc (pos + rounds)) (take pos xs ++ value ∷ ys)
        ≡ take pos xs ++ value ∷ take rounds ys
  take-insert zero rounds value xs ys h = let e : 0 + rounds ≡ rounds = omega arith in rw e refl
  take-insert (suc pos) rounds value [] ys h = absurd (omega arith)
  take-insert (suc pos) rounds value (x ∷ xs) ys h =
      let e : suc pos + rounds ≡ suc (pos + rounds) = omega arith in
      rw e (ap (λ (t : List A). x ∷ t) (take-insert pos rounds value xs ys (omega arith)))

  take-set_elem-shift_up :
      (rounds pos : ℕ) (value : A) (xs : List A)
      → suc (pos + rounds) ≤ length xs
      → take (suc (pos + rounds)) (set_elem (shift_up rounds (pos + rounds) xs) pos value)
        ≡ take pos xs ++ value ∷ take rounds (drop pos xs)
  take-set_elem-shift_up rounds pos value xs h =
      let kept : length (take rounds (drop pos xs)) ≡ rounds =
        omega (arith, length-take rounds (drop pos xs), length-drop pos xs) in
      ap (take (suc (pos + rounds))) (set_elem-shift_up rounds pos value xs h)
      ∙ take-insert pos rounds value xs (take rounds (drop pos xs) ++ drop (suc (pos + rounds)) xs)
          (omega arith)
      ∙ ap (λ (t : List A). take pos xs ++ value ∷ t)
          (take-append rounds (take rounds (drop pos xs)) (drop (suc (pos + rounds)) xs) kept)

  insert_at_full :
      (n pos rounds : ℕ) (value : A) (xs : List A)
      → length xs ≡ n
      → n ≡ suc (min pos (n - 1) + rounds)
      → insert_at n pos value xs
        ≡ take (min pos (n - 1)) xs ++ value ∷ take rounds (drop (min pos (n - 1)) xs)
  insert_at_full n pos rounds value xs h k =
      ap (λ (t : ℕ). take t (take (min pos (n - 1)) xs ++ value ∷ drop (min pos (n - 1)) xs)) k
      ∙ take-insert (min pos (n - 1)) rounds value xs (drop (min pos (n - 1)) xs) (omega arith)

  pub insert_at_room :
      (n pos : ℕ) (value : A) (xs : List A)
      → pos ≤ length xs
      → length xs < n
      → insert_at n pos value xs ≡ take pos xs ++ value ∷ drop pos xs
  insert_at_room n pos value xs h k =
      let e : min pos (n - 1) ≡ pos = omega arith in
      rw e (
        take_all n (take pos xs ++ value ∷ drop pos xs) (
          omega (
            arith,
            length-append (take pos xs) (value ∷ drop pos xs),
            length-take pos xs,
            length-drop pos xs,
          )))

  -- The list after an insertion, by its number of rounds.
  items_after :
      (end tmp rounds pos : ℕ) (value : A) (xs : List A)
      → end ≡ suc (pos + rounds)
      → tmp ≡ pos + rounds
      → end ≤ length xs
      → take end (set_elem (shift_up rounds tmp xs) pos value)
        ≡ take pos xs ++ value ∷ take rounds (drop pos xs)
  items_after end tmp rounds pos value xs e f h =
      rw (e, f) (take-set_elem-shift_up rounds pos value xs (omega arith))

  -- On an array of at least one entry with the end inside of it, and a position up to the end,
  -- `insert` leaves the items of the list with the value at the position, cut to the size of the
  -- array; at the end of a full list it replaces the last item.
  pub items-insert :
      (list : BoundedList A) (pos : ℕ) (value : A)
      → pos ≤ list.end
      → list.end ≤ length list.elements
      → 0 < length list.elements
      → items (insert list pos value) ≡ insert_at (length list.elements) pos value (items list)
  unfolding items insert insert_slot
  items-insert list pos value h k l = elim (Bool-cases (list.end == length list.elements)) [
    | inl full ↦
        let n = length list.elements in
        let e : list.end ≡ n = ground arith in
        let p = min pos (n - 1) in
        let r = n - 1 - p in
        let at : (if pos == list.end then pos - 1 else pos) ≡ p = ground arith in
        rw (full, at, e, take_all n list.elements (omega arith))
          (items_after n (n - 1) r p value list.elements (omega arith) (omega arith) (omega arith)
            ∙ sym (insert_at_full n pos r value list.elements refl (omega arith)))
    | inr room ↦
        let open_end : list.end < length list.elements = ground arith in
        let kept : length (take list.end list.elements) ≡ list.end =
          omega (arith, length-take list.end list.elements) in
        let e : list.end + 1 - 1 ≡ list.end = omega arith in
        rw (room, e)
          (items_after (list.end + 1) list.end (list.end - pos) pos value list.elements
              (omega arith) (omega arith) (omega arith)
            ∙ sym (
                insert_at_room (length list.elements) pos value (take list.end list.elements)
                  (omega arith) (omega arith)
                ∙ rw
                    (take-take pos list.end list.elements h, drop-take pos list.end list.elements)))
  ]
