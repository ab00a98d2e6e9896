-- ===== src/Table/Any.antt =====
-- The test for some row: what it says after each kind of write.
use reedri_end.Base.{
  ◌≡◌, refl, Bool, true, List, [], ◌∷◌, ◌++◌, arith, Bool-cases, inl, inr, All, some,
}
use reedri_end.Table.{any, update_many, delete_many, find_first}

module _ {ℓ} {A : Type ℓ} (p : A → Bool) where
  pub any-append : (xs ys : List A) → any p xs ≡ true → any p (xs ++ ys) ≡ true
  unfolding any
  any-append [] ys h = cc
  any-append (x ∷ xs) ys h = ground (arith, any-append xs ys)

  -- An update that the test does not see.
  pub any-update_many :
      (q : A → Bool) (f : A → A)
      → ((x : A) → p (f x) ≡ p x)
      → (xs : List A) → any p (update_many q f xs) ≡ any p xs
  unfolding any update_many
  any-update_many q f kept [] = refl
  any-update_many q f kept (x ∷ xs) = ground (arith, kept x, any-update_many q f kept xs)

  pub All-delete_many {κ} : (P : A → Type κ) (xs : List A) → All P xs → All P (delete_many p xs)
  unfolding delete_many
  All-delete_many P [] h = tt
  All-delete_many P (x ∷ xs) h = elim (Bool-cases (p x)) [
    | inl hit ↦ rw hit (All-delete_many P xs h.1)
    | inr miss ↦ rw miss (h.0, All-delete_many P xs h.1)
  ]

  -- A lookup finds a row where the last one is accepted.
  pub find_first-last :
      (xs : List A) (x : A) → p x ≡ true → (y : A) × (find_first p (xs ++ x ∷ []) ≡ some y)
  unfolding find_first
  find_first-last [] x h = (x, ground (arith, h))
  find_first-last (z ∷ zs) x h = elim (Bool-cases (p z)) [
    | inl hit ↦ (z, ground (arith, hit))
    | inr miss ↦ (let (y, e) = find_first-last zs x h in (y, ground (arith, miss, e)))
  ]
