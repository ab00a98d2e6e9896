-- ===== src/DiskStorage/Sibling.antt =====
-- A key that leads out of the base directory and is accepted all the same
-- (src/common/storage/local-disk-storage.service.ts, resolveKey).
use reedri_end.Base.{
  ◌≡◌, refl, true, false, some, [], ◌∷◌, ◌++◌, ◌==◌, arith, ap, sym, ◌∙◌, subst, All,
}
use reedri_end.DiskStorage.{
  Text, Directory, slash, dot, starts_with, segments, is_here, is_up, walk, below_root, path_text,
  resolve_key,
}
use reedri_end.DiskStorage.Inside.{starts_with_append, append_assoc}

-- A name of a file or of a directory: it has no slash.
abbrev pub IsName : Text → Type 0
IsName s = All (λ c. (c == slash) ≡ false) s

segments-name : (s t : Text) → IsName s → segments (s ++ slash ∷ t) ≡ s ∷ segments t
unfolding segments
segments-name [] t h = refl
segments-name (c ∷ s) t h = ground (arith, h.0, segments-name s t h.1)

segments-last : (s : Text) → IsName s → segments s ≡ s ∷ []
unfolding segments
segments-last [] h = refl
segments-last (c ∷ s) h = ground (arith, h.0, segments-last s h.1)

IsName-append : (s t : Text) → IsName s → IsName t → IsName (s ++ t)
IsName-append [] t h k = k
IsName-append (c ∷ s) t h k = (h.0, IsName-append s t h.1 k)

-- `../<name of the base directory><more>/<file>`
abbrev pub sibling_key : (name more file : Text) → Text
sibling_key name more file = dot ∷ dot ∷ slash ∷ ((name ++ more) ++ slash ∷ file)

sibling-segments :
    (name more file : Text)
    → IsName name
    → IsName more
    → IsName file
    → segments (sibling_key name more file) ≡ (dot ∷ dot ∷ []) ∷ (name ++ more) ∷ file ∷ []
unfolding segments
sibling-segments name more file a b c =
    ap (λ ss. (dot ∷ dot ∷ []) ∷ ss)
      (segments-name (name ++ more) file (IsName-append name more a b)
        ∙ ap (λ ss. (name ++ more) ∷ ss) (segments-last file c))

-- Whatever the base directory is called, a key that goes up and down into another directory whose
-- name merely begins with the name of the base directory is accepted, and its path lies in that
-- other directory.
pub resolve_key-sibling :
    (parent_dir : Directory) (name more file : Text)
    → IsName name
    → IsName more
    → IsName file
    → is_here (name ++ more) ≡ false
    → is_up (name ++ more) ≡ false
    → is_here file ≡ false
    → is_up file ≡ false
    → resolve_key (name ∷ parent_dir) (sibling_key name more file)
      ≡ some (path_text (file ∷ (name ++ more) ∷ parent_dir))
unfolding resolve_key walk below_root
resolve_key-sibling parent_dir name more file a b c here up file_here file_up =
    let base_text : Text = below_root parent_dir ++ slash ∷ name in
    let place : Directory = file ∷ (name ++ more) ∷ parent_dir in
    let walked : walk (name ∷ parent_dir) (segments (sibling_key name more file)) ≡ place =
      ap (walk (name ∷ parent_dir)) (sibling-segments name more file a b c)
      ∙ ground (arith, here, up, file_here, file_up) in
    let text : path_text place ≡ base_text ++ (more ++ slash ∷ file) =
      ap (λ t. t ++ slash ∷ file) (sym (append_assoc (below_root parent_dir) (slash ∷ name) more))
      ∙ append_assoc base_text more (slash ∷ file) in
    let accepted : starts_with base_text (path_text place) ≡ true =
      subst (λ t. starts_with base_text t ≡ true) (sym text)
        (starts_with_append base_text (more ++ slash ∷ file)) in
    ground (arith, ap path_text walked, accepted)
