-- ===== src/Account/OneTimeKeys.antt =====
-- The one-time keys of src/account.cpp: what is generated can be looked up, and is published once.
use olm.Base.{
  ℕ, zero, suc, ◌+◌, ◌-◌, ◌*◌, ◌^◌, ◌%◌, ◌≤◌, ◌<◌, Bytes, true, false, Option, some, List, [], ◌∷◌,
  take, drop, length, le→ltb, inl, inr, Bool-cases, ◌≡◌, refl, ap, arith, ◌∙◌, sym,
}
use olm.Memory.Equality.{is_equal_iff}
use olm.BoundedList.{get_elem?}
use olm.Crypto.External.{Primitives, PrimitiveLaws}
use olm.Crypto.{curve25519_generate_key, curve25519_basepoint}
use olm.Account.{
  Account, OneTimeKey, has_public_key, find_one_time_key, lookup_key, mark_loop,
  mark_keys_as_published, add_one_time_key, add_one_time_keys, generate_one_time_keys,
  generate_one_time_keys_random_length,
}

-- What `lookup_key` finds for a public key has that public key.
abbrev pub IsFound : Bytes → Option OneTimeKey → Type 0
IsFound public_key found =
    (key : OneTimeKey) × (found ≡ some key) × (has_public_key key.key public_key ≡ true)

find-IsFound :
    (public_key : Bytes) (keys : List OneTimeKey) (position : ℕ) (key : OneTimeKey)
    → get_elem? keys position ≡ some key
    → has_public_key key.key public_key ≡ true
    → IsFound public_key (find_one_time_key public_key keys)
unfolding find_one_time_key get_elem?
find-IsFound public_key [] position key h k = absurd (ground arith)
find-IsFound public_key (first ∷ keys) zero key h k =
    let same : has_public_key first.key public_key ≡ true = ground (arith, h, k) in
    (first, rw same refl, same)
find-IsFound public_key (first ∷ keys) (suc position) key h k =
    elim (Bool-cases (has_public_key first.key public_key)) [
      | inl same ↦ (first, rw same refl, same)
      | inr other ↦ rw other (find-IsFound public_key keys position key h k)
    ]

lookup_key-IsFound :
    (account : Account) (public_key : Bytes)
    → IsFound public_key (find_one_time_key public_key account.one_time_keys)
    → IsFound public_key (lookup_key account public_key)
unfolding lookup_key
lookup_key-IsFound account public_key (key, h, k) = (key, rw (h, lookup_key) refl, k)

module _ {ℓ} {A : Type ℓ} where
  get_elem?-take :
      (n : ℕ) (xs : List A) (position : ℕ) (y : A)
      → get_elem? xs position ≡ some y
      → position < n
      → get_elem? (take n xs) position ≡ some y
  unfolding get_elem?
  get_elem?-take zero xs position y h k = absurd (omega arith)
  get_elem?-take (suc n) [] position y h k = h
  get_elem?-take (suc n) (x ∷ xs) zero y h k = h
  get_elem?-take (suc n) (x ∷ xs) (suc position) y h k =
      get_elem?-take n xs position y h (omega arith)

  drop_nil : (n : ℕ) (xs : List A) → xs ≡ [] → drop n xs ≡ []
  drop_nil zero xs h = h
  drop_nil (suc n) [] h = refl
  drop_nil (suc n) (x ∷ xs) h = absurd (ground arith)

  drop-drop : (n m : ℕ) (xs : List A) → drop n (drop m xs) ≡ drop (m + n) xs
  drop-drop n zero xs = let e : 0 + n ≡ n = omega arith in rw e refl
  drop-drop n (suc m) [] = drop_nil n [] refl ∙ sym (drop_nil (suc m + n) [] refl)
  drop-drop n (suc m) (x ∷ xs) =
      let e : suc m + n ≡ suc (m + n) = omega arith in rw e (drop-drop n m xs)

-- The key that a round adds.
abbrev added : Primitives → Account → Bytes → OneTimeKey
added p account random = record {
  id = (account.next_one_time_key_id + 1) % 2 ^ 32;
  published = false;
  key = curve25519_generate_key p random;
}

module _ (p : Primitives) where
  -- The keys that are there move back, one place for each new key.
  add_one_time_keys-get_elem? :
      (rounds position at : ℕ) (account : Account) (random : Bytes) (key : OneTimeKey)
      → get_elem? account.one_time_keys position ≡ some key
      → at ≡ position + rounds
      → at < 100
      → get_elem? (add_one_time_keys p rounds account random).one_time_keys at ≡ some key
  unfolding add_one_time_keys add_one_time_key get_elem?
  add_one_time_keys-get_elem? zero position at account random key h e k =
      let f : at ≡ position = omega arith in rw f h
  add_one_time_keys-get_elem? (suc rounds) position at account random key h e k =
      add_one_time_keys-get_elem? rounds (suc position) at (add_one_time_key p account random)
        (drop 32 random) key
        (get_elem?-take 100 (added p account random ∷ account.one_time_keys) (suc position) key h
          (omega arith))
        (omega arith) k

  newest :
      (account : Account) (random : Bytes)
      → (key : OneTimeKey) × (get_elem? (add_one_time_key p account random).one_time_keys 0
          ≡ some key)
        × (key.key ≡ curve25519_generate_key p random)
  unfolding add_one_time_key get_elem?
  newest account random = (added p account random, refl, refl)

  -- The key of the `i`th round stands behind those of the later rounds.
  add_one_time_keys_placed :
      (rounds i : ℕ) (account : Account) (random : Bytes)
      → i < rounds
      → rounds ≤ 100
      → (key : OneTimeKey) × (get_elem?
            (add_one_time_keys p rounds account random).one_time_keys
            (rounds - 1 - i)
          ≡ some key)
        × (key.key ≡ curve25519_generate_key p (drop (32 * i) random))
  unfolding add_one_time_keys
  add_one_time_keys_placed zero i account random h k = absurd (omega arith)
  add_one_time_keys_placed (suc rounds) zero account random h k =
      let (key, front, made) = newest account random in
      let at : suc rounds - 1 - 0 ≡ rounds = omega arith in
      (
        key,
        rw at (
            add_one_time_keys-get_elem? rounds 0 rounds (add_one_time_key p account random)
              (drop 32 random) key front (omega arith) (omega arith)),
        made,
      )
  add_one_time_keys_placed (suc rounds) (suc i) account random h k =
      let (key, placed, made) =
        add_one_time_keys_placed rounds i (add_one_time_key p account random) (drop 32 random)
          (omega arith) (omega arith) in
      let at : suc rounds - 1 - suc i ≡ rounds - 1 - i = omega arith in
      let dropped : 32 * suc i ≡ 32 + 32 * i = omega arith in
      (
        key,
        rw at placed,
        rw dropped (made ∙ ap (curve25519_generate_key p) (drop-drop (32 * i) 32 random)),
      )

-- The second time there is nothing left to publish.
mark_loop_again : (keys : List OneTimeKey) → mark_loop (mark_loop keys).0 ≡ ((mark_loop keys).0, 0)
unfolding mark_loop
mark_loop_again [] = refl
mark_loop_again (key ∷ keys) = rw (mark_loop_again keys) refl

-- A second call of `mark_keys_as_published` changes nothing and counts no key.
pub mark_keys_as_published_again :
    (account : Account)
    → mark_keys_as_published (mark_keys_as_published account).0
      ≡ ((mark_keys_as_published account).0, 0)
unfolding mark_keys_as_published
mark_keys_as_published_again account = rw (mark_loop_again account.one_time_keys) refl

module _ (p : Primitives) (laws : PrimitiveLaws p) where
  own_key :
      (random : Bytes)
      → has_public_key
          (curve25519_generate_key p random)
          (curve25519_generate_key p random).public_key
        ≡ true
  unfolding curve25519_generate_key
  own_key random =
      let size = (laws.curve25519_donna-IsBuffer (take 32 random) curve25519_basepoint).0 in
      (is_equal_iff _ _ 32 (omega (arith, size)) (omega (arith, size))).1 refl

  -- With primitives that keep the stated laws: With 32 random bytes for each of at most 100 keys,
  -- `generate_one_time_keys` returns their number, and `lookup_key` finds each of the keys made
  -- from them under its public key, whatever keys the account had.
  pub lookup_key-generate_one_time_keys :
      (account : Account) (number_of_keys i : ℕ) (random : Bytes)
      → number_of_keys ≤ 100
      → i < number_of_keys
      → 32 * number_of_keys ≤ length random
      → ((generate_one_time_keys p account number_of_keys random).1 ≡ some number_of_keys)
        × IsFound (curve25519_generate_key p (drop (32 * i) random)).public_key (
            lookup_key
              (generate_one_time_keys p account number_of_keys random).0
              (curve25519_generate_key p (drop (32 * i) random)).public_key)
  unfolding generate_one_time_keys generate_one_time_keys_random_length
  lookup_key-generate_one_time_keys account n i random few h room =
      let (key, placed, made) = add_one_time_keys_placed p n i account random h few in
      let pk = (curve25519_generate_key p (drop (32 * i) random)).public_key in
      rw (le→ltb (length random) (32 * n % 2 ^ 64) (omega arith)) (
        refl,
        lookup_key-IsFound (add_one_time_keys p n account random) pk
            (find-IsFound pk _ (n - 1 - i) key placed (rw made (own_key (drop (32 * i) random)))),
      )
