-- ===== src/Table/Laws.antt =====
-- The laws of the queries: what a lookup finds after each kind of write.
use reedri_end.Base.{
  ℕ, ◌≡◌, ◌≢◌, refl, Bool, true, false, ◌||◌, ◌≢◌, none, some, List, [], ◌∷◌, ◌++◌, arith, ◌==◌,
  if◌then◌else◌, map_option, Bool-cases, inl, inr, All, is_some, ==_refl, ==→eq, subst, ap,
}
use reedri_end.Table.{find_first, update_many, create, IsUnique}

module _ {ℓ} {A : Type ℓ} where
  pub find_first-accepted :
      (p : A → Bool) (xs : List A) (x : A) → find_first p xs ≡ some x → p x ≡ true
  unfolding find_first
  find_first-accepted p [] x h = cc
  find_first-accepted p (y ∷ ys) x h = ground (arith, find_first-accepted p ys x)

  pub find_first-All {κ} :
      (P : A → Type κ) (p : A → Bool) (xs : List A) (x : A)
      → All P xs
      → find_first p xs ≡ some x
      → P x
  unfolding find_first
  find_first-All P p [] x a h = cc
  find_first-All P p (y ∷ ys) x a h = elim (Bool-cases (p y)) [
    | inl hit ↦ subst P (ground arith) a.0
    | inr miss ↦ find_first-All P p ys x a.1 (ground arith)
  ]

  -- An update that the test does not see acts on what is found.
  pub find_first-update_many :
      (p q : A → Bool) (f : A → A) (xs : List A)
      → ((x : A) → p (f x) ≡ p x)
      → find_first p (update_many q f xs)
        ≡ map_option (λ x. if q x then f x else x) (find_first p xs)
  unfolding find_first update_many
  find_first-update_many p q f [] h = refl
  find_first-update_many p q f (x ∷ xs) h = ground (arith, h x, find_first-update_many p q f xs h)

  pub find_first-append :
      (p : A → Bool) (xs ys : List A)
      → find_first p (xs ++ ys)
        ≡ (if is_some (find_first p xs) then find_first p xs else find_first p ys)
  unfolding find_first
  find_first-append p [] ys = refl
  find_first-append p (x ∷ xs) ys = ground (arith, find_first-append p xs ys)

  pub create-appended :
      (clash : A → A → Bool) (x : A) (xs ys : List A)
      → create clash x xs ≡ some ys
      → (ys ≡ xs ++ x ∷ []) × (find_first (clash x) xs ≡ none)
  unfolding create
  create-appended clash x xs ys h = ground arith

  -- A weaker test finds a row where a stronger one does.
  pub find_first-none_of :
      (p q : A → Bool) (xs : List A)
      → ((x : A) → q x ≡ true → p x ≡ true)
      → find_first p xs ≡ none
      → find_first q xs ≡ none
  unfolding find_first
  find_first-none_of p q [] h e = refl
  find_first-none_of p q (x ∷ xs) h e = ground (arith, h x, find_first-none_of p q xs h)

  -- A row found by any test is found by a unique key.
  pub find_first-key :
      (key : A → ℕ) (p : A → Bool) (xs : List A) (x : A)
      → IsUnique key xs
      → find_first p xs ≡ some x
      → find_first (λ y. key y == key x) xs ≡ some x
  unfolding find_first
  find_first-key key p [] x u h = cc
  find_first-key key p (y ∷ ys) x u h =
      ground (arith, find_first-key key p ys x u.1, ==_refl (key x))

  key_kept :
      (key : A → ℕ) (f : A → A) (b : Bool) (x : A)
      → key (f x) ≡ key x
      → key (if b then f x else x) ≡ key x
  key_kept key f true x h = h
  key_kept key f false x h = refl

  pub IsUnique-update_many :
      (key : A → ℕ) (p : A → Bool) (f : A → A) (xs : List A)
      → ((x : A) → key (f x) ≡ key x)
      → IsUnique key xs
      → IsUnique key (update_many p f xs)
  unfolding update_many
  IsUnique-update_many key p f [] h u = tt
  IsUnique-update_many key p f (x ∷ xs) h u = (
    rw (key_kept key f (p x) x (h x)) (
        rw (
          find_first-update_many (λ y. key y == key x) p f xs (λ y. ap (λ k. k == key x) (h y)),
          u.0,
        )),
    IsUnique-update_many key p f xs h u.1,
  )

  pub IsUnique-append :
      (key : A → ℕ) (xs : List A) (x : A)
      → IsUnique key xs
      → find_first (λ y. key y == key x) xs ≡ none
      → IsUnique key (xs ++ x ∷ [])
  unfolding find_first
  IsUnique-append key [] x u h = (refl, tt)
  IsUnique-append key (y ∷ ys) x u h = (
    rw (find_first-append (λ z. key z == key y) ys (x ∷ []), u.0)
        (ground (arith, ==→eq (key y) (key x))),
    IsUnique-append key ys x u.1 (ground arith),
  )

  pub All-update_many {κ η} :
      (P : A → Type κ) (Q : A → Type η) (p : A → Bool) (f : A → A)
      → ((x : A) → P x → p x ≡ true → Q (f x))
      → ((x : A) → P x → p x ≡ false → Q x)
      → (xs : List A) → All P xs
      → All Q (update_many p f xs)
  unfolding update_many
  All-update_many P Q p f hit miss [] a = tt
  All-update_many P Q p f hit miss (x ∷ xs) a = elim (Bool-cases (p x)) [
    | inl e ↦ rw e (hit x a.0 e, All-update_many P Q p f hit miss xs a.1)
    | inr e ↦ rw e (miss x a.0 e, All-update_many P Q p f hit miss xs a.1)
  ]

  pub All-of-find_first {κ} :
      (P : A → Type κ) (key : A → ℕ) (xs : List A)
      → IsUnique key xs
      → ((x : A) → find_first (λ y. key y == key x) xs ≡ some x → P x)
      → All P xs
  unfolding find_first
  All-of-find_first P key [] u h = tt
  All-of-find_first P key (x ∷ xs) u h = (
    h x (rw (==_refl (key x))),
    All-of-find_first P key xs u.1 λ y e. h y (elim (Bool-cases (key x == key y)) [
      | inl same ↦
          cc (subst (λ k. find_first (λ z. key z == k) xs ≡ none) (==→eq (key x) (key y) same) u.0)
      | inr other ↦ rw other e
    ]),
  )

  -- Two rows that lookups find are one if their unique keys are equal.
  pub found_eq :
      (key : A → ℕ) (p q : A → Bool) (xs : List A) (x y : A)
      → IsUnique key xs
      → find_first p xs ≡ some x
      → find_first q xs ≡ some y
      → key x ≡ key y
      → x ≡ y
  found_eq key p q xs x y u ex ey same =
      let at : find_first (λ z. key z == key y) xs ≡ some x =
        subst (λ k. find_first (λ z. key z == k) xs ≡ some x) same
          (find_first-key key p xs x u ex) in
      cc (at, find_first-key key q xs y u ey)

  pub find_first-or :
      (p q : A → Bool) (xs : List A)
      → find_first p xs ≡ none
      → find_first q xs ≡ none
      → find_first (λ x. p x || q x) xs ≡ none
  unfolding find_first
  find_first-or p q [] ep eq = refl
  find_first-or p q (x ∷ xs) ep eq = ground (arith, find_first-or p q xs)

  pub create-new :
      (clash : A → A → Bool) (x : A) (xs : List A)
      → find_first (clash x) xs ≡ none
      → create clash x xs ≡ some (xs ++ x ∷ [])
  unfolding create
  create-new clash x xs e = ground arith

  pub create-clash :
      (clash : A → A → Bool) (x : A) (xs : List A)
      → find_first (clash x) xs ≢ none
      → create clash x xs ≡ none
  unfolding create
  create-clash clash x xs e = ground arith
