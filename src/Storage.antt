-- ===== src/Storage.antt =====
-- The file storage that the services call (src/common/storage/storage.service.ts), as an
-- interface: `save` may fail, and a failure of `delete` is not reported to its caller.
use reedri_end.Base.{
  ℕ, ◌≡◌, refl, Bool, true, false, ◌&&◌, Option, none, some, List, [], ◌∷◌, arith, ◌==◌,
  if◌then◌else◌, Bool-cases, inl, inr,
}
use text.Mathlib.Text.{◌==◌ as str_eq}
use text.Mathlib.TextPositions.{eq_refl}
use text.Mathlib.TextEquality.{eq_iff}
use reedri_end.Schema.{StorageKey, document_code}
use reedri_end.World.{StoredFile}

unfoldable pub same_key : StorageKey → StorageKey → Bool
same_key a b =
    a.uuid == b.uuid
    && (a.application_id == b.application_id
        && (document_code a.document_type == document_code b.document_type
            && str_eq a.extension b.extension))

pub record Storage : Type 0 where
  pub save : StorageKey → List ℕ → List StoredFile → Option (List StoredFile)
  pub read : StorageKey → List StoredFile → Option (List ℕ)
  pub delete : StorageKey → List StoredFile → List StoredFile
  pub read_saved :
      (k : StorageKey) (c : List ℕ) (fs gs : List StoredFile)
      → save k c fs ≡ some gs
      → read k gs ≡ some c
  pub read_deleted :
      (j k : StorageKey) (fs : List StoredFile)
      → same_key j k ≡ false
      → read k (delete j fs) ≡ read k fs

-- A storage that never fails.
unfoldable pub list_read : StorageKey → List StoredFile → Option (List ℕ)
list_read k [] = none
list_read k (f ∷ fs) = if same_key k f.storage_key then some f.content else list_read k fs

unfoldable pub list_delete : StorageKey → List StoredFile → List StoredFile
list_delete k [] = []
list_delete k (f ∷ fs) = if same_key k f.storage_key then list_delete k fs else f ∷ list_delete k fs

unfoldable pub list_save : StorageKey → List ℕ → List StoredFile → Option (List StoredFile)
list_save k c fs = some (record { storage_key = k; content = c } ∷ fs)

same_key_refl : (k : StorageKey) → same_key k k ≡ true
unfolding same_key
same_key_refl k = ground (arith, eq_refl k.extension)

pub list_read-saved :
    (k : StorageKey) (c : List ℕ) (fs gs : List StoredFile)
    → list_save k c fs ≡ some gs
    → list_read k gs ≡ some c
unfolding list_save list_read
list_read-saved k c fs gs e = ground (arith, same_key_refl k)

-- Keys that a third key equals are equal to one another.
same_key-join :
    (j k l : StorageKey) → same_key j l ≡ true → same_key k l ≡ true → same_key j k ≡ true
unfolding same_key
same_key-join j k l a b = ground (
  arith,
  eq_iff j.extension k.extension,
  eq_iff j.extension l.extension,
  eq_iff k.extension l.extension,
)

pub list_read-deleted :
    (j k : StorageKey) (fs : List StoredFile)
    → same_key j k ≡ false
    → list_read k (list_delete j fs) ≡ list_read k fs
unfolding list_read list_delete
list_read-deleted j k [] miss = refl
list_read-deleted j k (f ∷ fs) miss = elim (Bool-cases (same_key j f.storage_key)) [
  | inl hit ↦ rw hit (elim (Bool-cases (same_key k f.storage_key)) [
    | inl both ↦ absurd (cc (same_key-join j k f.storage_key hit both, miss))
    | inr apart ↦ rw apart (list_read-deleted j k fs miss)
  ])
  | inr other ↦ ground (arith, other, list_read-deleted j k fs miss)
]

abbrev pub list_storage : Storage
list_storage = record {
  save = list_save;
  read = list_read;
  delete = list_delete;
  read_saved = list_read-saved;
  read_deleted = list_read-deleted;
}
