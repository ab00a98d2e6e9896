-- ===== src/Documents.antt =====
-- Documents of driver applications (src/drivers/driver-documents.service.ts). The extension that
-- `extname` takes of a file name is part of the file here.
pub mod Uploads
use text.Mathlib.Text.{◌==◌ as str_eq}
use reedri_end.Base.{
  ℕ, ◌&&◌, ◌||◌, Bool, not, Option, none, some, List, [], ◌∷◌, String, map, ◌==◌, if◌then◌else◌,
}
use reedri_end.Table.{find_first, find_many, update_many, create}
use reedri_end.Schema.{Uuid, Time, DriverDocumentType, document_code, DriverDocument, StorageKey}
use reedri_end.World.{
  World, bad_request, not_found, unique_violation, storage_failure, http, prisma, Failure, Result,
  ok, err, M, ◌>>=◌, ◌>>◌, pure, gets, or_raise, raise_if, modify, write, draw,
}
use reedri_end.Storage.{Storage, same_key}

pub record UploadableFile : Type 0 where
  pub buffer : List ℕ
  pub mimetype : String
  pub originalname : String
  pub extension : String
  pub size : ℕ

-- `ALLOWED_MIME_TYPES.has`
unfoldable pub is_allowed_mime_type : String → Bool
is_allowed_mime_type m =
    str_eq m "image/jpeg" || (str_eq m "image/png" || str_eq m "application/pdf")

abbrev pub is_document : Uuid → DriverDocumentType → DriverDocument → Bool
is_document application_id t d =
    d.driver_application_id == application_id && document_code d.document_type == document_code t

-- The unique keys of a document: its id, and its application with its type.
abbrev pub document_clash : DriverDocument → DriverDocument → Bool
document_clash a b = b.id == a.id || is_document a.driver_application_id a.document_type b

abbrev pub document_of :
    Uuid → Uuid → DriverDocumentType → StorageKey → UploadableFile → Time → DriverDocument
document_of id application_id t key file now = record {
  id = id;
  driver_application_id = application_id;
  document_type = t;
  storage_key = key;
  original_filename = file.originalname;
  mime_type = file.mimetype;
  size_bytes = file.size;
  uploaded_at = now;
}

-- What an upload writes over a document that is there.
abbrev pub replace_document : StorageKey → UploadableFile → Time → DriverDocument → DriverDocument
replace_document key file now d = record d {
  storage_key = key;
  original_filename = file.originalname;
  mime_type = file.mimetype;
  size_bytes = file.size;
  uploaded_at = now;
}

unfoldable pub insert_document : DriverDocument → World → Option World
insert_document d w = elim (create document_clash d w.driver_documents) [
  | none ↦ none
  | some rows ↦ some (record w { driver_documents = rows })
]

-- The upsert of the document's row.
unfoldable pub upsert_document :
    Uuid
    → DriverDocumentType
    → StorageKey
    → UploadableFile
    → Option DriverDocument
    → M DriverDocument
upsert_document application_id t key file none = do
  id ← draw
  now ← gets (λ w. w.now)
  write unique_violation (insert_document (document_of id application_id t key file now))
  pure (document_of id application_id t key file now)
upsert_document application_id t key file (some old) = do
  now ← gets (λ w. w.now)
  modify (λ w. record w {
    driver_documents =
        update_many (is_document application_id t) (replace_document key file now)
          w.driver_documents;
  })
  pure (replace_document key file now old)

-- `uploadedTypes`
unfoldable pub uploaded_types : Uuid → World → List DriverDocumentType
uploaded_types application_id w =
    map (λ (d : DriverDocument). d.document_type)
      (find_many (λ (d : DriverDocument). d.driver_application_id == application_id)
        w.driver_documents)

-- `listForApplication`
unfoldable pub list_for_application : Uuid → M (List DriverDocument)
list_for_application application_id = gets λ w.
    find_many (λ (d : DriverDocument). d.driver_application_id == application_id) w.driver_documents

pub record FileContent : Type 0 where
  pub buffer : List ℕ
  pub mime_type : String
  pub filename : String

module _ (storage : Storage) where
  unfoldable pub save_file : StorageKey → List ℕ → M (Unit {0})
  save_file key buffer w = elim (storage.save key buffer w.files) [
    | none ↦ (err storage_failure, w)
    | some files ↦ (ok tt, record w { files = files })
  ]

  -- The clean-up of a file that was replaced.
  unfoldable pub delete_replaced : StorageKey → Option DriverDocument → M (Unit {0})
  delete_replaced key none = pure tt
  delete_replaced key (some old) =
      if same_key old.storage_key key
      then pure tt
      else modify (λ w. record w { files = storage.delete old.storage_key w.files })

  unfoldable pub upload : Uuid → DriverDocumentType → UploadableFile → M DriverDocument
  upload application_id t file = do
    raise_if (not (is_allowed_mime_type file.mimetype))
        (http (bad_request "Unsupported file type — use JPEG, PNG, or PDF"))
    existing ← gets (λ w. find_first (is_document application_id t) w.driver_documents)
    uuid ← draw
    let key : StorageKey = record {
      application_id = application_id;
      document_type = t;
      uuid = uuid;
      extension = file.extension;
    }
    save_file key file.buffer
    document ← upsert_document application_id t key file existing
    delete_replaced key existing
    pure document

  -- `getFileBuffer`
  unfoldable pub get_file_buffer : Uuid → M FileContent
  get_file_buffer document_id = do
    document ←
        or_raise
          (← gets
            (λ w. find_first (λ (d : DriverDocument). d.id == document_id) w.driver_documents))
          (http (not_found "Document not found"))
    buffer ← or_raise (← gets (λ w. storage.read document.storage_key w.files)) storage_failure
    pure (record {
      buffer = buffer;
      mime_type = document.mime_type;
      filename = document.original_filename;
    })
