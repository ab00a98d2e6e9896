-- ===== src/Table/Counts.antt =====
-- How writes change the number of rows that a test accepts.
use reedri_end.Base.{
  ℕ, suc, ◌+◌, ◌≡◌, refl, Bool, true, false, some, none, List, [], ◌∷◌, ◌++◌, arith, ◌==◌,
  if◌then◌else◌, Bool-cases, inl, inr, All, All-mono, ==→eq, subst,
}
use reedri_end.Table.{find_first, update_many, count, IsUnique}

module _ {ℓ} {A : Type ℓ} where
  pub count-append : (p : A → Bool) (xs ys : List A) → count p (xs ++ ys) ≡ count p xs + count p ys
  unfolding count
  count-append p [] ys = omega arith
  count-append p (x ∷ xs) ys = ground (arith, count-append p xs ys)

  pub count-none : (p : A → Bool) (xs : List A) → find_first p xs ≡ none → count p xs ≡ 0
  unfolding count find_first
  count-none p [] h = refl
  count-none p (x ∷ xs) h = ground (arith, count-none p xs)

  pub none-count : (p : A → Bool) (xs : List A) → count p xs ≡ 0 → find_first p xs ≡ none
  unfolding count find_first
  none-count p [] h = refl
  none-count p (x ∷ xs) h = ground (arith, none-count p xs)

  pub All-of-count : (p : A → Bool) (xs : List A) → count p xs ≡ 0 → All (λ x. p x ≡ false) xs
  unfolding count
  All-of-count p [] h = tt
  All-of-count p (x ∷ xs) h = (ground arith, All-of-count p xs (ground arith))

  -- An update that keeps the answer of the test on each row keeps the number.
  pub count-kept :
      (p q : A → Bool) (f : A → A) (xs : List A)
      → All (λ x. p (if q x then f x else x) ≡ p x) xs
      → count p (update_many q f xs) ≡ count p xs
  unfolding count update_many
  count-kept p q f [] h = refl
  count-kept p q f (x ∷ xs) h = rw (h.0, count-kept p q f xs h.1)

  pub count-vanishes :
      (p q : A → Bool) (f : A → A) (xs : List A)
      → All (λ x. p (if q x then f x else x) ≡ false) xs
      → count p (update_many q f xs) ≡ 0
  unfolding count update_many
  count-vanishes p q f [] h = refl
  count-vanishes p q f (x ∷ xs) h = rw (h.0, count-vanishes p q f xs h.1)

  pub none-All : (p : A → Bool) (xs : List A) → find_first p xs ≡ none → All (λ x. p x ≡ false) xs
  unfolding find_first
  none-All p [] e = tt
  none-All p (x ∷ xs) e = (ground arith, none-All p xs (ground arith))

  -- Behind a row, no row has its unique key.
  others_differ :
      (key : A → ℕ) (k : ℕ) (x : A) (xs : List A)
      → IsUnique key (x ∷ xs)
      → (key x == k) ≡ true
      → All (λ y. (key y == k) ≡ false) xs
  others_differ key k x xs u hit =
      none-All (λ y. key y == k) xs
        (subst (λ j. find_first (λ y. key y == j) xs ≡ none) (==→eq (key x) k hit) u.0)

  -- The row of a unique key is the only one with it.
  pub All-unique :
      (key : A → ℕ) (k : ℕ) (xs : List A) (x : A)
      → IsUnique key xs
      → find_first (λ y. key y == k) xs ≡ some x
      → All (λ y. (key y == k) ≡ true → y ≡ x) xs
  unfolding find_first
  All-unique key k [] x u e = tt
  All-unique key k (y ∷ ys) x u e = elim (Bool-cases (key y == k)) [
    | inl hit ↦
        (λ _. ground arith, All-mono _ _ (λ z d same. cc) ys (others_differ key k y ys u hit))
    | inr miss ↦ (λ same. cc, All-unique key k ys x u.1 (rw miss at e))
  ]

  -- An update of the row of a unique key, after which a test accepts it.
  pub count-gains :
      (key : A → ℕ) (k : ℕ) (p : A → Bool) (f : A → A) (xs : List A) (x : A)
      → IsUnique key xs
      → find_first (λ y. key y == k) xs ≡ some x
      → p x ≡ false
      → p (f x) ≡ true
      → count p (update_many (λ y. key y == k) f xs) ≡ suc (count p xs)
  unfolding count update_many find_first
  count-gains key k p f [] x u e before after = cc
  count-gains key k p f (y ∷ ys) x u e before after = elim (Bool-cases (key y == k)) [
    | inl hit ↦ ground (
      arith,
      count-kept p (λ z. key z == k) f ys
          (All-mono _ _ (λ z d. rw d) ys (others_differ key k y ys u hit)),
    )
    | inr miss ↦ ground (arith, count-gains key k p f ys x u.1)
  ]
