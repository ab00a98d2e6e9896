-- ===== src/Table.antt =====
-- A database table as the list of its rows, and the queries that the services make through the
-- Prisma client: findUnique and findFirst, findMany, updateMany, deleteMany, create. A query is
-- a test on a row (its `where`), an update a function on a row (its `data`).
pub mod Laws
pub mod Counts
pub mod Any
use reedri_end.Base.{
  ℕ, suc, ◌≡◌, Bool, true, false, ◌||◌, not, Option, none, some, List, [], ◌∷◌, ◌++◌, if◌then◌else◌,
  ◌==◌,
}

module _ {ℓ} {A : Type ℓ} where
  -- The first row that the test accepts.
  unfoldable pub find_first : (A → Bool) → List A → Option A
  find_first p [] = none
  find_first p (x ∷ xs) = if p x then some x else find_first p xs

  -- All rows that the test accepts, in order.
  unfoldable pub find_many : (A → Bool) → List A → List A
  find_many p [] = []
  find_many p (x ∷ xs) = let rest = find_many p xs in if p x then x ∷ rest else rest

  -- Rewrites each row that the test accepts.
  unfoldable pub update_many : (A → Bool) → (A → A) → List A → List A
  update_many p f [] = []
  update_many p f (x ∷ xs) = (if p x then f x else x) ∷ update_many p f xs

  unfoldable pub delete_many : (A → Bool) → List A → List A
  delete_many p [] = []
  delete_many p (x ∷ xs) = let rest = delete_many p xs in if p x then rest else x ∷ rest

  -- `none` is a violation of a unique constraint: `clash x` holds of the rows that `x` clashes with.
  unfoldable pub create : (A → A → Bool) → A → List A → Option (List A)
  create clash x xs = elim (find_first (clash x) xs) [
    | none ↦ some (xs ++ x ∷ [])
    | some old ↦ none
  ]

  -- How many rows the test accepts.
  unfoldable pub count : (A → Bool) → List A → ℕ
  count p [] = 0
  count p (x ∷ xs) = let rest = count p xs in if p x then suc rest else rest

  -- A test accepts some row.
  unfoldable pub any : (A → Bool) → List A → Bool
  any p [] = false
  any p (x ∷ xs) = p x || any p xs

  -- No two rows have one key.
  abbrev pub IsUnique : (A → ℕ) → List A → Type ℓ
  IsUnique key [] = Unit
  IsUnique key (x ∷ xs) = (find_first (λ y. key y == key x) xs ≡ none) × IsUnique key xs
