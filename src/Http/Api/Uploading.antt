-- ===== src/Http/Api/Uploading.antt =====
-- The files that the routes of an application's steps take
-- (src/driver-application/driver-application.controller.ts).
use reedri_end.Base.{
  ◌≡◌, Bool, true, false, not, Option, none, some, List, [], ◌∷◌, arith, Bool-cases, inl, inr,
}
use reedri_end.Table.{any}
use reedri_end.World.{World, ok, err, http, bad_request}
use reedri_end.Documents.{UploadableFile, is_allowed_mime_type}
use reedri_end.Access.{AuthenticatedUser}
use reedri_end.Http.{Claims, authenticate}
use reedri_end.Http.Onboarding.{
  Files, file_filter, filter_files, post_license, post_vehicle, post_optional_document,
}
use reedri_end.Http.Api.{Server, Request, asks_license, asks_vehicle, asks_optional_document, serve}

abbrev pub optional_file : Option UploadableFile → List UploadableFile
optional_file none = []
optional_file (some f) = f ∷ []

abbrev pub contents : Files → List UploadableFile
contents [] = []
contents ((field, f) ∷ files) = f ∷ contents files

-- The files of a request.
abbrev pub uploads : Request → List UploadableFile
uploads (asks_license dto image) = optional_file image
uploads (asks_vehicle dto files) = contents files
uploads (asks_optional_document t upload) = optional_file upload
uploads _ = []

abbrev pub is_refused_file : UploadableFile → Bool
is_refused_file f = not (is_allowed_mime_type f.mimetype)

refused_one :
    (f : UploadableFile) (w : World)
    → is_refused_file f ≡ true
    → file_filter f w
      ≡ (err (http (bad_request "Unsupported file type — use JPEG, PNG, or PDF")), w)
unfolding file_filter
refused_one f w bad = ground (arith, bad)

passed_one :
    (f : UploadableFile) (w : World) → is_refused_file f ≡ false → file_filter f w ≡ (ok tt, w)
unfolding file_filter
passed_one f w good = ground (arith, good)

refused_files :
    (files : Files) (w : World)
    → any is_refused_file (contents files) ≡ true
    → filter_files files w
      ≡ (err (http (bad_request "Unsupported file type — use JPEG, PNG, or PDF")), w)
unfolding filter_files any
refused_files [] w bad = absurd (ground (arith, bad))
refused_files ((field, f) ∷ files) w bad = elim (Bool-cases (is_refused_file f)) [
  | inl here ↦ ground (arith, refused_one f w here)
  | inr not_here ↦
      ground (arith, passed_one f w not_here, refused_files files w (ground (arith, bad, not_here)))
]

-- A request of a user with a valid token that has a file of a type that is not allowed, at
-- whatever place among its files, is a bad request and changes nothing: of its other files none
-- is stored, and whatever its form holds is not looked at.
pub serve-filters :
    (s : Server) (token : Option Claims) (user : AuthenticatedUser) (q : Request) (w : World)
    → authenticate token w ≡ (ok user, w)
    → any is_refused_file (uploads q) ≡ true
    → serve s token q w
      ≡ (err (http (bad_request "Unsupported file type — use JPEG, PNG, or PDF")), w)
unfolding serve post_license post_vehicle post_optional_document any
serve-filters s token user (asks_license dto (some f)) w valid bad =
    ground (arith, valid, refused_one f w (ground (arith, bad)))
serve-filters s token user (asks_vehicle dto files) w valid bad =
    ground (arith, valid, refused_files files w bad)
serve-filters s token user (asks_optional_document t (some f)) w valid bad =
    ground (arith, valid, refused_one f w (ground (arith, bad)))
serve-filters s token user q w valid bad = absurd (ground (arith, bad))
