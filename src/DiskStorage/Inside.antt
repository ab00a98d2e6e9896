-- ===== src/DiskStorage/Inside.antt =====
-- Keys that stay inside the base directory, and that they are kept apart.
use reedri_end.Base.{
  ℕ, ◌≡◌, refl, Bool, true, false, some, List, [], ◌∷◌, ◌++◌, if◌then◌else◌, arith, ap, sym, ◌∙◌,
  subst, ==_refl, ==→eq, Bool-cases, inl, inr, All,
}
use reedri_end.Table.{find_first, delete_many}
use reedri_end.DiskStorage.{
  Text, Directory, slash, same_text, starts_with, segments, is_here, is_up, step_into, walk,
  below_root, path_text, resolve_key, DiskFile, disk_save, disk_read,
}

-- A directory that is another one or lies in it.
pub data IsIn (base : Directory) : Directory → Type 0 where
  itself : IsIn base base
  inside : (s : Text) {p : Directory} → IsIn base p → IsIn base (s ∷ p)

pub starts_with_append : (p s : Text) → starts_with p (p ++ s) ≡ true
unfolding starts_with
starts_with_append [] s = refl
starts_with_append (c ∷ p) s = ground (arith, ==_refl c, starts_with_append p s)

pub append_assoc : (a b c : Text) → (a ++ b) ++ c ≡ a ++ (b ++ c)
append_assoc [] b c = refl
append_assoc (x ∷ a) b c = ap (λ t. x ∷ t) (append_assoc a b c)

append_nil : (a : Text) → a ++ [] ≡ a
append_nil [] = refl
append_nil (x ∷ a) = ap (λ t. x ∷ t) (append_nil a)

-- The text of what lies in a directory begins with the text of the directory.
IsIn-text :
    (base p : Directory) → IsIn base p → (rest : Text) × (below_root p ≡ below_root base ++ rest)
unfolding below_root
IsIn-text base _ itself = ([], sym (append_nil (below_root base)))
IsIn-text base _ (inside s {p} h) =
    let (rest, e) = IsIn-text base p h in
    (
      rest ++ slash ∷ s,
      ap (λ t. t ++ slash ∷ s) e ∙ append_assoc (below_root base) rest (slash ∷ s),
    )

-- Segments that do not lead up.
walk-IsIn :
    (base p : Directory) (ss : List Text)
    → All (λ s. is_up s ≡ false) ss
    → IsIn base p
    → IsIn base (walk p ss)
unfolding walk
walk-IsIn base p [] h i = i
walk-IsIn base p (s ∷ ss) h i = elim (Bool-cases (is_here s)) [
  | inl here ↦
      walk-IsIn base (step_into s p) ss h.1 (subst (IsIn base) (sym (ground (arith, here))) i)
  | inr other ↦
      walk-IsIn base (step_into s p) ss h.1
        (subst (IsIn base) (sym (ground (arith, other, h.0))) (inside s i))
]

-- A key none of whose parts is `..` is accepted, where the base directory is not the root, and its
-- path is the base directory or lies in it.
pub resolve_key-IsIn :
    (d : Text) (b : Directory) (key : Text)
    → All (λ s. is_up s ≡ false) (segments key)
    → let base = d ∷ b in
      let place = walk base (segments key) in
      (resolve_key base key ≡ some (path_text place)) × IsIn base place
unfolding resolve_key
resolve_key-IsIn d b key h =
    let base : Directory = d ∷ b in
    let lies : IsIn base (walk base (segments key)) = walk-IsIn base base (segments key) h itself in
    (ground (arith, accepted base (walk base (segments key)) lies), lies)
  where
    same_path : (p : Directory) → IsIn (d ∷ b) p → path_text p ≡ below_root p
    same_path _ itself = refl
    same_path _ (inside s h) = refl

    accepted :
        (base p : Directory) → IsIn (d ∷ b) p → starts_with (path_text (d ∷ b)) (path_text p) ≡ true
    accepted base p lies =
        let (rest, e) = IsIn-text (d ∷ b) p lies in
        subst (λ t. starts_with (below_root (d ∷ b)) t ≡ true) (sym (same_path p lies ∙ e))
          (starts_with_append (below_root (d ∷ b)) rest)

same_text_refl : (a : Text) → same_text a a ≡ true
same_text_refl [] = refl
same_text_refl (c ∷ a) = ground (arith, ==_refl c, same_text_refl a)

same_text→eq : (a b : Text) → same_text a b ≡ true → a ≡ b
same_text→eq [] [] h = refl
same_text→eq [] (d ∷ b) h = absurd (ground (arith, h))
same_text→eq (c ∷ a) [] h = absurd (ground (arith, h))
same_text→eq (c ∷ a) (d ∷ b) h =
    cc (==→eq c d (ground (arith, h)), same_text→eq a b (ground (arith, h)))

find_first-delete_many {ℓ} :
    {A : Type ℓ} (p q : A → Bool)
    → ((x : A) → p x ≡ true → q x ≡ false)
    → (xs : List A) → find_first p (delete_many q xs) ≡ find_first p xs
unfolding find_first delete_many
find_first-delete_many p q apart [] = refl
find_first-delete_many p q apart (x ∷ xs) = elim (Bool-cases (p x)) [
  | inl hit ↦ ground (arith, hit, apart x hit, find_first-delete_many p q apart xs)
  | inr miss ↦ elim (Bool-cases (q x)) [
    | inl gone ↦ ground (arith, miss, gone, find_first-delete_many p q apart xs)
    | inr stays ↦ ground (arith, miss, stays, find_first-delete_many p q apart xs)
  ]
]

same_text_apart :
    (a b c : Text) → same_text b c ≡ false → same_text a c ≡ true → same_text a b ≡ false
same_text_apart a b c other same = elim (Bool-cases (same_text a b)) [
  | inl hit ↦ absurd (cc (other, same, same_text→eq a b hit))
  | inr miss ↦ miss
]

module _ (base : Directory) (is_writable : Text → Bool) where
  -- A file that was saved is read as it was saved, under its key and under every key with the same
  -- path; and what is read under a key with another path, or under none, is what it was before.
  disk_save-disk_read :
      (key : Text) (buffer : List ℕ) (files saved : List DiskFile) (path : Text)
      → resolve_key base key ≡ some path
      → disk_save base is_writable key buffer files ≡ some saved
      → (other place : Text) → resolve_key base other ≡ some place
      → disk_read base is_writable other saved
        ≡ (if same_text path place then some buffer else disk_read base is_writable other files)
  unfolding disk_save disk_read find_first
  disk_save-disk_read key buffer files saved path e done other place there =
      let shape : saved
          ≡ record { path = path; content = buffer }
            ∷ delete_many (λ (f : DiskFile). same_text f.path path) files =
        ground (arith, e, done, Bool-cases (is_writable path)) in
      elim (Bool-cases (same_text path place)) [
        | inl hit ↦ ground (arith, shape, there, hit)
        | inr miss ↦ ground (
          arith,
          shape,
          there,
          miss,
          find_first-delete_many (λ (f : DiskFile). same_text f.path place)
              (λ (f : DiskFile). same_text f.path path)
              (λ f at_place. same_text_apart f.path path place miss at_place) files,
        )
      ]
