-- ===== src/Applications/Documented.antt =====
-- What uploads do for an application: no document is lost, and nothing else of it changes.
use reedri_end.Base.{
  ◌≡◌, refl, Bool, true, false, List, [], ◌∷◌, arith, ◌==◌, Option-cases, Bool-cases, inl, inr, map,
  ◌∙◌,
}
use reedri_end.Table.{any, find_first, find_many, create}
use reedri_end.Table.Any.{any-append, any-update_many}
use reedri_end.Schema.{Uuid, DriverDocumentType, DriverDocument}
use reedri_end.World.{World, after}
use reedri_end.Storage.{Storage}
use reedri_end.Documents.{
  UploadableFile, is_document, document_of, replace_document, insert_document, upsert_document,
  save_file, delete_replaced, upload, uploaded_types,
}
use reedri_end.Documents.Uploads.{drawn_key}
use reedri_end.Applications.Forms.{has_type}
use reedri_end.Applications.{missing_types, is_nonempty}

-- An application has a document of a type.
abbrev pub has_document : Uuid → DriverDocumentType → List DriverDocument → Bool
has_document i t ds = any (is_document i t) ds

-- An application has all required documents.
abbrev pub IsDocumented : Uuid → List DriverDocument → Type 0
IsDocumented i ds =
    (has_document i DriverDocumentType.drivers_license ds ≡ true)
    × (has_document i DriverDocumentType.vehicle_registration ds ≡ true)
    × (has_document i DriverDocumentType.vehicle_photo ds ≡ true)

-- A state that an upload may leave.
pub record Keeps (w v : World) : Type 0 where
  pub applications : v.driver_applications ≡ w.driver_applications
  pub profiles : v.driver_profiles ≡ w.driver_profiles
  pub documents :
      (i : Uuid) (t : DriverDocumentType)
      → has_document i t w.driver_documents ≡ true
      → has_document i t v.driver_documents ≡ true

pub Keeps-refl : (w : World) → Keeps w w
Keeps-refl w = record { applications = refl; profiles = refl; documents = λ i t h. h }

pub Keeps-trans : (u v w : World) → Keeps u v → Keeps v w → Keeps u w
Keeps-trans u v w a b = record {
  applications = b.applications ∙ a.applications;
  profiles = b.profiles ∙ a.profiles;
  documents = λ i t h. b.documents i t (a.documents i t h);
}

-- The required types that are not uploaded are those that no document has.
has_type-uploaded :
    (i : Uuid) (t : DriverDocumentType) (ds : List DriverDocument)
    → has_type t (
        map
          (λ (d : DriverDocument). d.document_type)
          (find_many (λ (d : DriverDocument). d.driver_application_id == i) ds))
      ≡ has_document i t ds
unfolding any find_many
has_type-uploaded i t [] = refl
has_type-uploaded i t (d ∷ ds) = elim (Bool-cases (d.driver_application_id == i)) [
  | inl own ↦ rw (own, has_type-uploaded i t ds)
  | inr other ↦ rw (other, has_type-uploaded i t ds)
]

pub missing-none :
    (i : Uuid) (w : World)
    → is_nonempty (missing_types i w) ≡ false
    → IsDocumented i w.driver_documents
unfolding missing_types find_many uploaded_types
missing-none i w none_missing = ground (
  arith,
  has_type-uploaded i DriverDocumentType.drivers_license w.driver_documents,
  has_type-uploaded i DriverDocumentType.vehicle_registration w.driver_documents,
  has_type-uploaded i DriverDocumentType.vehicle_photo w.driver_documents,
)

module _ (storage : Storage) (j : Uuid) (u : DriverDocumentType) (file : UploadableFile) where
  upload-documents :
      (w : World) (i : Uuid) (t : DriverDocumentType)
      → has_document i t w.driver_documents ≡ true
      → has_document i t (after (upload storage j u file) w).driver_documents ≡ true
  unfolding upload save_file upsert_document delete_replaced insert_document create
  upload-documents w i t h = elim (Option-cases (find_first (is_document j u) w.driver_documents)) [
    | inl e ↦ ground (
      arith,
      e,
      h,
      any-append (is_document i t) w.driver_documents
          (document_of (w.random 1) j u (drawn_key j u file w) file w.now ∷ []) h,
    )
    | inr (old, e) ↦ ground (
      arith,
      e,
      h,
      any-update_many (is_document i t) (is_document j u)
          (replace_document (drawn_key j u file w) file w.now) (λ d. refl) w.driver_documents,
    )
  ]

  pub upload-Keeps : (w : World) → Keeps w (after (upload storage j u file) w)
  unfolding upload save_file upsert_document delete_replaced insert_document
  upload-Keeps w = elim (Option-cases (find_first (is_document j u) w.driver_documents)) [
    | inl e ↦ record {
      applications = ground (arith, e);
      profiles = ground (arith, e);
      documents = upload-documents w;
    }
    | inr (old, e) ↦ record {
      applications = ground (arith, e);
      profiles = ground (arith, e);
      documents = upload-documents w;
    }
  ]
