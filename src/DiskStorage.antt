-- ===== src/DiskStorage.antt =====
-- The storage of files on the local disk (src/common/storage/local-disk-storage.service.ts). A text
-- is the list of its characters' codes; an absolute path that is resolved is the list of its
-- segments, the last one first. Whether the system lets a file be written is a parameter.
pub mod Inside
pub mod Sibling
use reedri_end.Base.{
  ℕ, Bool, true, false, ◌&&◌, ◌||◌, not, Option, none, some, List, [], ◌∷◌, ◌++◌, ◌==◌,
  if◌then◌else◌,
}
use reedri_end.Table.{find_first, delete_many}

abbrev pub Text : Type 0
Text = List ℕ

abbrev pub slash : ℕ
slash = 47

abbrev pub dot : ℕ
dot = 46

abbrev pub same_text : Text → Text → Bool
same_text [] [] = true
same_text (c ∷ s) (d ∷ t) = c == d && same_text s t
same_text _ _ = false

-- `startsWith`
unfoldable pub starts_with : (prefix s : Text) → Bool
starts_with [] s = true
starts_with (c ∷ p) [] = false
starts_with (c ∷ p) (d ∷ s) = c == d && starts_with p s

-- A character before the first of some texts.
abbrev pub before_first : ℕ → List Text → List Text
before_first c [] = (c ∷ []) ∷ []
before_first c (t ∷ ts) = (c ∷ t) ∷ ts

-- The parts between the slashes.
unfoldable pub segments : Text → List Text
segments [] = [] ∷ []
segments (c ∷ s) = let rest = segments s in if c == slash then [] ∷ rest else before_first c rest

abbrev pub is_here : Text → Bool
is_here s = same_text s [] || same_text s (dot ∷ [])

abbrev pub is_up : Text → Bool
is_up s = same_text s (dot ∷ dot ∷ [])

abbrev pub Directory : Type 0
Directory = List Text

abbrev pub parent : Directory → Directory
parent [] = []
parent (s ∷ p) = p

-- One step of `resolve`.
abbrev pub step_into : Text → Directory → Directory
step_into s p = if is_here s then p else if is_up s then parent p else s ∷ p

unfoldable pub walk : Directory → List Text → Directory
walk p [] = p
walk p (s ∷ ss) = walk (step_into s p) ss

-- The text of a path.
unfoldable pub below_root : Directory → Text
below_root [] = []
below_root (s ∷ p) = below_root p ++ slash ∷ s

abbrev pub path_text : Directory → Text
path_text [] = slash ∷ []
path_text (s ∷ p) = below_root (s ∷ p)

-- `resolveKey`; `none` is the exception `Invalid storage key`.
unfoldable pub resolve_key : (base_dir : Directory) → (key : Text) → Option Text
resolve_key base_dir key =
    let path = path_text (walk base_dir (segments key)) in
    if starts_with (path_text base_dir) path then some path else none

pub record DiskFile : Type 0 where
  pub path : Text
  pub content : List ℕ

module _ (base_dir : Directory) (is_writable : Text → Bool) where
  -- `save`; `none` where it throws.
  unfoldable pub disk_save : Text → List ℕ → List DiskFile → Option (List DiskFile)
  disk_save key buffer files = elim (resolve_key base_dir key) [
    | none ↦ none
    | some path ↦
        if is_writable path
        then some (
            record { path = path; content = buffer }
            ∷ delete_many (λ (f : DiskFile). same_text f.path path) files)
        else none
  ]

  -- `read`; `none` where it throws.
  unfoldable pub disk_read : Text → List DiskFile → Option (List ℕ)
  disk_read key files = elim (resolve_key base_dir key) [
    | none ↦ none
    | some path ↦ elim (find_first (λ (f : DiskFile). same_text f.path path) files) [
      | none ↦ none
      | some f ↦ some f.content
    ]
  ]

  -- `delete`; `none` where it throws.
  unfoldable pub disk_delete : Text → List DiskFile → Option (List DiskFile)
  disk_delete key files = elim (resolve_key base_dir key) [
    | none ↦ none
    | some path ↦ some (delete_many (λ (f : DiskFile). same_text f.path path) files)
  ]
