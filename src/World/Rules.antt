-- ===== src/World/Rules.antt =====
-- Rules for methods: what holds of the state after a method, from what holds at each of its exits.
use reedri_end.Base.{◌≡◌, ◌⊎◌, inl, inr, refl, Bool, true, false, Option, none, some}
use reedri_end.World.{
  World, Failure, PrismaError, prisma, Result, ok, err, M, ◌>>=◌, ◌>>◌, or_raise, raise_if, write,
  after,
}

module _ {ℓ κ} (P : World → Type κ) {B : Type ℓ} where
  -- A lookup throws and changes nothing, or the method goes on with what was found.
  pub or_raise-after {η} :
      {A : Type η} (o : Option A) (e : Failure) (k : A → M B) (w : World)
      → P w
      → ((a : A) → o ≡ some a → P (after (k a) w))
      → P (after (or_raise o e >>= k) w)
  or_raise-after none e k w h next = h
  or_raise-after (some a) e k w h next = next a refl

  pub raise_if-after :
      (c : Bool) (e : Failure) (k : M B) (w : World)
      → P w
      → (c ≡ false → P (after k w))
      → P (after (raise_if c e >> k) w)
  raise_if-after true e k w h next = h
  raise_if-after false e k w h next = next refl

  write_result :
      (o : Option World) (e : PrismaError) (k : M B) (w : World)
      → P w
      → ((w' : World) → o ≡ some w' → P (after k w'))
      → P (after ((λ _. elim o [ none ↦ (err (prisma e), w) | some w' ↦ (ok tt, w') ]) >> k) w)
  write_result none e k w h next = h
  write_result (some w') e k w h next = next w' refl

  pub write-after :
      (e : PrismaError) (f : World → Option World) (k : M B) (w : World)
      → P w
      → ((w' : World) → f w ≡ some w' → P (after k w'))
      → P (after (write e f >> k) w)
  write-after e f k w h next = write_result (f w) e k w h next

  bind_result {η} :
      {A : Type η} (r : Result A) (w' : World) (k : A → M B) (w : World)
      → P w'
      → ((a : A) → r ≡ ok a → P (after (k a) w'))
      → P (after ((λ _. (r, w')) >>= k) w)
  bind_result (ok a) w' k w thrown next = next a refl
  bind_result (err e) w' k w thrown next = thrown

  pub >>=-after {η} :
      {A : Type η} (m : M A) (k : A → M B) (w : World)
      → P (after m w)
      → ((a : A) → (m w).0 ≡ ok a → P (after (k a) (after m w)))
      → P (after (m >>= k) w)
  >>=-after m k w thrown next = bind_result (m w).0 (m w).1 k w thrown next

module _ {ℓ κ} {A : Type ℓ} {B : Type κ} where
  split_result :
      (r : Result A) (w' : World) (k : A → M B) (w : World)
      → ((e : Failure) × (r ≡ err e) × (((λ (v : World). (r, w')) >>= k) w ≡ (err e, w')))
        ⊎ ((a : A) × (r ≡ ok a) × (((λ (v : World). (r, w')) >>= k) w ≡ k a w'))
  split_result (ok a) w' k w = inr (a, refl, refl)
  split_result (err e) w' k w = inl (e, refl, refl)

  -- A method throws, or it returns and the rest runs in the state that it leaves.
  pub >>=-split :
      (m : M A) (k : A → M B) (w : World)
      → ((e : Failure) × ((m w).0 ≡ err e) × ((m >>= k) w ≡ (err e, after m w)))
        ⊎ ((a : A) × ((m w).0 ≡ ok a) × ((m >>= k) w ≡ k a (after m w)))
  >>=-split m k w = split_result (m w).0 (m w).1 k w
