-- ===== src/Tests/Lists.antt =====
-- Examples for include/olm/list.hh and the lists of include/olm/pickle.hh.
use olm.Base.{ℕ, [], ◌∷◌, ◌≡◌, arith}
use olm.BoundedList.{BoundedList, insert, erase, items, insert_at, erase_at}
use olm.BoundedList.Refinement.{items-insert, items-erase}

-- A full list of three items.
abbrev full : BoundedList ℕ
full = record { elements = 5 ∷ 6 ∷ 7 ∷ []; end = 3 }

items-insert_example : items (insert full 1 9) ≡ insert_at 3 1 9 (items full)
items-insert_example = items-insert full 1 9 (omega arith) (omega arith) (omega arith)

items-erase_example : items (erase full 1) ≡ erase_at 1 (items full)
items-erase_example = items-erase full 1 (omega arith) (omega arith)

full_insertion : items (insert full 1 9) ≡ 5 ∷ 9 ∷ 6 ∷ []
unfolding items
full_insertion = items-insert full 1 9 (omega arith) (omega arith) (omega arith)

-- At the end of a full list the last item is replaced.
end_insertion : items (insert full 3 9) ≡ 5 ∷ 6 ∷ 9 ∷ []
unfolding items
end_insertion = items-insert full 3 9 (omega arith) (omega arith) (omega arith)
