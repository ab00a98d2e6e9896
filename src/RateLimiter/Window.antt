-- ===== src/RateLimiter/Window.antt =====
-- How many messages of a key the limiter lets through.
use reedri_end.Base.{
  ℕ, ◌+◌, ◌≤◌, ◌≡◌, refl, Bool, true, false, ◌&&◌, none, List, [], ◌∷◌, arith, ◌==◌, leb,
  if◌then◌else◌, length, length-append, Bool-cases, inl, inr, ◌∙◌, ==→eq, ==_refl, subst, sym,
}
use reedri_end.Table.{find_many, delete_many, count}
use reedri_end.Table.Counts.{count-append}
use reedri_end.Schema.{Time}
use reedri_end.RateLimiter.{Hits, timestamps_of, is_recent, consume, clear}

-- A message of a key at a time.
pub record Message : Type 0 where
  pub key : ℕ
  pub at : Time

-- A message, or a key that is cleared.
pub data Event : Type 0 where
  consumes : Message → Event
  clears : (key : ℕ) → Event

-- The times do not go back.
abbrev pub IsOrdered : Time → List Event → Type 0
IsOrdered n [] = Unit
IsOrdered n (consumes c ∷ es) = (n ≤ c.at) × IsOrdered c.at es
IsOrdered n (clears k ∷ es) = IsOrdered n es

abbrev pub last_time : Time → List Event → Time
last_time n [] = n
last_time n (consumes c ∷ es) = last_time c.at es
last_time n (clears k ∷ es) = last_time n es

count-length : {A : Type 0} (p : A → Bool) (xs : List A) → count p xs ≤ length xs
unfolding count
count-length p [] = omega arith
count-length p (x ∷ xs) = ground (arith, count-length p xs)

length-find_many : {A : Type 0} (p : A → Bool) (xs : List A) → length (find_many p xs) ≤ length xs
unfolding find_many
length-find_many p [] = omega arith
length-find_many p (x ∷ xs) = ground (arith, length-find_many p xs)

count-find_many :
    {A : Type 0} (p q : A → Bool)
    → ((x : A) → q x ≡ true → p x ≡ true)
    → (xs : List A) → count q (find_many p xs) ≡ count q xs
unfolding count find_many
count-find_many p q h [] = refl
count-find_many p q h (x ∷ xs) = ground (arith, h x, count-find_many p q h xs)

module _ (limit window_ms : ℕ) where
  -- The messages that were let through since their key was last cleared, the last one first, with
  -- the state of the limiter.
  unfoldable pub run : List Event → Hits × List Message → Hits × List Message
  run [] s = s
  run (consumes c ∷ es) (hits, allowed) =
      let (passed, hits') = consume limit window_ms c.key c.at hits in
      run es (hits', if passed then c ∷ allowed else allowed)
  run (clears k ∷ es) (hits, allowed) =
      run es (clear k hits, delete_many (λ (c : Message). c.key == k) allowed)

  -- The messages of a key in the window before a time.
  abbrev pub is_in_window : ℕ → Time → Message → Bool
  is_in_window k m c = c.key == k && is_recent limit window_ms m c.at

  -- From a time on, the limiter knows what it has let through in the window.
  record IsExact (n : Time) (hits : Hits) (allowed : List Message) : Type 0 where
    pub known :
        (k m : ℕ)
        → n ≤ m
        → count (is_recent limit window_ms m) (timestamps_of k hits)
          ≡ count (is_in_window k m) allowed
    pub bounded : (k : ℕ) → length (timestamps_of k hits) ≤ limit

  consume-IsExact :
      (c : Message) (n : Time) (hits : Hits) (allowed : List Message)
      → n ≤ c.at
      → IsExact n hits allowed
      → IsExact c.at
          (consume limit window_ms c.key c.at hits).1
          (if (consume limit window_ms c.key c.at hits).0 then c ∷ allowed else allowed)
  unfolding consume count
  consume-IsExact c n hits allowed later h =
      let kept : List Time =
        find_many (is_recent limit window_ms c.at) (timestamps_of c.key hits) in
      let same : (m : ℕ)
          → c.at ≤ m
          → count (is_recent limit window_ms m) kept ≡ count (is_in_window c.key m) allowed =
        λ m after_it.
          count-find_many (is_recent limit window_ms c.at) (is_recent limit window_ms m)
            (λ t r. ground (arith, r, after_it)) (timestamps_of c.key hits)
          ∙ h.known c.key m (ground (arith, later, after_it)) in
      elim (Bool-cases (leb limit (length kept))) [
        | inl full ↦ rw full (record {
          known = λ k m after_it. elim (Bool-cases (k == c.key)) [
            | inl own ↦ rw own (
                subst
                  (λ i. count (is_recent limit window_ms m) kept ≡ count (is_in_window i m) allowed)
                  (sym (==→eq k c.key own)) (same m after_it))
            | inr other ↦ rw other (h.known k m (ground (arith, later, after_it)))
          ];
          bounded = λ k. elim (Bool-cases (k == c.key)) [
            | inl own ↦ rw own (
                ground (
                  arith,
                  h.bounded c.key,
                  length-find_many (is_recent limit window_ms c.at) (timestamps_of c.key hits),
                ))
            | inr other ↦ rw other (h.bounded k)
          ];
        })
        | inr free ↦ rw free (record {
          known = λ k m after_it. elim (Bool-cases (k == c.key)) [
            | inl own ↦ rw own (
                count-append (is_recent limit window_ms m) kept (c.at ∷ [])
                ∙ subst
                    (λ i.
                      count (is_recent limit window_ms m) kept
                        + count (is_recent limit window_ms m) (c.at ∷ [])
                      ≡ count (is_in_window i m) (c ∷ allowed))
                    (sym (==→eq k c.key own)) (ground (arith, same m after_it, ==_refl c.key)))
            | inr other ↦
                rw other (ground (arith, other, h.known k m (ground (arith, later, after_it))))
          ];
          bounded = λ k. elim (Bool-cases (k == c.key)) [
            | inl own ↦ rw own (ground (arith, free, length-append kept (c.at ∷ [])))
            | inr other ↦ rw other (h.bounded k)
          ];
        })
      ]

  forgotten :
      (k m : ℕ) (cs : List Message)
      → count (is_in_window k m) (delete_many (λ (c : Message). c.key == k) cs) ≡ 0
  unfolding count delete_many
  forgotten k m [] = refl
  forgotten k m (c ∷ cs) = ground (arith, forgotten k m cs, Bool-cases (c.key == k))

  remembered :
      (k i m : ℕ) (cs : List Message)
      → (i == k) ≡ false
      → count (is_in_window i m) (delete_many (λ (c : Message). c.key == k) cs)
        ≡ count (is_in_window i m) cs
  unfolding count delete_many
  remembered k i m [] other = refl
  remembered k i m (c ∷ cs) other = elim (Bool-cases (c.key == k)) [
    | inl own ↦
        let miss : (c.key == i) ≡ false = ground (arith, own, other) in
        ground (arith, remembered k i m cs other, own, miss)
    | inr kept ↦ ground (arith, remembered k i m cs other, kept)
  ]

  clear-IsExact :
      (k : ℕ) (n : Time) (hits : Hits) (allowed : List Message)
      → IsExact n hits allowed
      → IsExact n (clear k hits) (delete_many (λ (c : Message). c.key == k) allowed)
  unfolding count
  clear-IsExact k n hits allowed h = record {
    known = λ i m later. elim (Bool-cases (i == k)) [
      | inl own ↦ rw own (
          subst
            (λ j. 0 ≡ count (is_in_window j m) (delete_many (λ (c : Message). c.key == k) allowed))
            (sym (==→eq i k own)) (sym (forgotten k m allowed)))
      | inr other ↦ rw other (h.known i m later ∙ sym (remembered k i m allowed other))
    ];
    bounded = λ i. elim (Bool-cases (i == k)) [
      | inl own ↦ rw own (ground arith)
      | inr other ↦ rw other (h.bounded i)
    ];
  }

  run-IsExact :
      (es : List Event) (n : Time) (hits : Hits) (allowed : List Message)
      → IsOrdered n es
      → IsExact n hits allowed
      → IsExact (last_time n es) (run es (hits, allowed)).0 (run es (hits, allowed)).1
  unfolding run
  run-IsExact [] n hits allowed o h = h
  run-IsExact (consumes c ∷ es) n hits allowed o h =
      run-IsExact es c.at _ _ o.1 (consume-IsExact c n hits allowed o.0 h)
  run-IsExact (clears k ∷ es) n hits allowed o h =
      run-IsExact es n _ _ o (clear-IsExact k n hits allowed h)

  -- Whatever messages come and whatever keys are cleared, if the clock does not go back: of the
  -- messages of a key that came in the window before any moment, from the last message on, and since
  -- the key was last cleared, the limiter has let through at most `limit`.
  pub run-limited :
      (es : List Event) (k m : ℕ)
      → IsOrdered 0 es
      → last_time 0 es ≤ m
      → count (is_in_window k m) (run es (λ key. none, [])).1 ≤ limit
  unfolding count
  run-limited es k m o late =
      let h : IsExact (last_time 0 es) (run es (λ key. none, [])).0 (run es (λ key. none, [])).1 =
        run-IsExact es 0 (λ key. none) [] o
          (record { known = λ i j _. refl; bounded = λ i. ground arith }) in
      ground (
        arith,
        h.known k m late,
        h.bounded k,
        count-length (is_recent limit window_ms m) (timestamps_of k (run es (λ key. none, [])).0),
      )
