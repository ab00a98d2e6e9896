-- ===== src/Tests/StorageTests.antt =====
-- The disk storage: the properties at concrete inputs.
use reedri_end.Base.{◌≡◌, refl, some, [], ◌∷◌}
use reedri_end.DiskStorage.{Text, Directory, slash, segments, walk, path_text, resolve_key}
use reedri_end.DiskStorage.Inside.{IsIn, resolve_key-IsIn}
use reedri_end.DiskStorage.Sibling.{sibling_key, resolve_key-sibling}

-- `a/b`
abbrev key : Text
key = 97 ∷ slash ∷ 98 ∷ []

-- `/u`
abbrev base : Directory
base = (117 ∷ []) ∷ []

resolve_key-IsIn_example :
    (resolve_key base key ≡ some (path_text (walk base (segments key))))
    × IsIn base (walk base (segments key))
unfolding segments
resolve_key-IsIn_example = resolve_key-IsIn (117 ∷ []) [] key (refl, (refl, tt))

-- `../u1/x`
resolve_key-sibling_example :
    resolve_key base (sibling_key (117 ∷ []) (49 ∷ []) (120 ∷ []))
    ≡ some (path_text ((120 ∷ []) ∷ (117 ∷ 49 ∷ []) ∷ []))
resolve_key-sibling_example =
    resolve_key-sibling [] (117 ∷ []) (49 ∷ []) (120 ∷ []) (refl, tt) (refl, tt) (refl, tt) refl
      refl refl refl
