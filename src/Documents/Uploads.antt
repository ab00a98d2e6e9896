-- ===== src/Documents/Uploads.antt =====
-- Uploads of documents: what one that throws and one that returns leave behind.
use reedri_end.Base.{
  ◌≡◌, refl, none, some, [], ◌∷◌, ◌++◌, ◌==◌, arith, subst, sym, Option-cases, Bool-cases, inl, inr,
}
use reedri_end.Table.{find_first, update_many, create, IsUnique}
use reedri_end.Table.Laws.{
  find_first-update_many, find_first-accepted, find_first-key, find_first-append,
  find_first-none_of, IsUnique-update_many, IsUnique-append,
}
use reedri_end.Schema.{Uuid, DriverDocumentType, DriverDocument, StorageKey}
use reedri_end.World.{World, after, ok, err, Failure}
use reedri_end.Storage.{Storage, same_key}
use reedri_end.Documents.{
  UploadableFile, is_document, document_clash, document_of, replace_document, insert_document,
  upsert_document, save_file, delete_replaced, upload, get_file_buffer,
}

abbrev pub drawn_key : Uuid → DriverDocumentType → UploadableFile → World → StorageKey
drawn_key application_id t file w = record {
  application_id = application_id;
  document_type = t;
  uuid = w.random 0;
  extension = file.extension;
}

-- A document with a file that can be read.
pub record IsUploaded (storage : Storage) (application_id : Uuid) (t : DriverDocumentType)
    (file : UploadableFile) (v : World) (d : DriverDocument) : Type 0 where
  pub found : find_first (is_document application_id t) v.driver_documents ≡ some d
  pub readable : storage.read d.storage_key v.files ≡ some file.buffer
  pub same_mime : d.mime_type ≡ file.mimetype
  pub same_name : d.original_filename ≡ file.originalname
  pub ids : IsUnique (λ (x : DriverDocument). x.id) v.driver_documents

insert_document-appended :
    (d : DriverDocument) (w v : World)
    → insert_document d w ≡ some v
    → (v ≡ record w { driver_documents = w.driver_documents ++ d ∷ [] })
      × (find_first (document_clash d) w.driver_documents ≡ none)
unfolding insert_document create
insert_document-appended d w v e = ground arith

module _ (storage : Storage) (application_id : Uuid) (t : DriverDocumentType)
    (file : UploadableFile) where
  -- An upload that throws, be it that the type of the file is not allowed, that the storage fails
  -- or that a row clashes, changes no document, application or profile.
  pub upload-throws :
      (w : World) (e : Failure)
      → (upload storage application_id t file w).0 ≡ err e
      → let v = after (upload storage application_id t file) w in
        (v.driver_documents ≡ w.driver_documents)
        × (v.driver_applications ≡ w.driver_applications)
        × (v.driver_profiles ≡ w.driver_profiles)
  unfolding upload save_file upsert_document delete_replaced
  upload-throws w e thrown =
      elim (Option-cases (find_first (is_document application_id t) w.driver_documents)) [
        | inl none_there ↦ ground (arith, none_there)
        | inr (old, there) ↦ ground (arith, there)
      ]

  -- What an upload leaves where the application had no document of the type.
  record IsNew (w v : World) (d : DriverDocument) : Type 0 where
    pub saved : storage.save (drawn_key application_id t file w) file.buffer w.files ≡ some v.files
    pub document :
        d ≡ document_of (w.random 1) application_id t (drawn_key application_id t file w) file w.now
    pub appended : v.driver_documents ≡ w.driver_documents ++ d ∷ []
    pub no_clash : find_first (document_clash d) w.driver_documents ≡ none

  upload-IsNew :
      (w : World) (d : DriverDocument)
      → find_first (is_document application_id t) w.driver_documents ≡ none
      → (upload storage application_id t file w).0 ≡ ok d
      → IsNew w (after (upload storage application_id t file) w) d
  unfolding upload save_file upsert_document delete_replaced insert_document create
  upload-IsNew w d e returned =
      elim (Option-cases (storage.save (drawn_key application_id t file w) file.buffer w.files)) [
        | inl failed ↦ absurd (ground (arith, e, failed, returned))
        | inr (gs, saved) ↦ record {
          saved = ground (arith, e, saved, returned);
          document = ground (arith, e, saved, returned);
          appended = ground (arith, e, saved, returned);
          no_clash = ground (arith, e, saved, returned);
        }
      ]

  -- What an upload leaves where the application had a document of the type.
  record IsReplaced (w v : World) (d old : DriverDocument) : Type 0 where
    pub document : d ≡ replace_document (drawn_key application_id t file w) file w.now old
    pub replaced :
        v.driver_documents
        ≡ update_many
            (is_document application_id t)
            (replace_document (drawn_key application_id t file w) file w.now)
            w.driver_documents
    pub readable : storage.read (drawn_key application_id t file w) v.files ≡ some file.buffer

  upload-IsReplaced :
      (w : World) (d old : DriverDocument)
      → find_first (is_document application_id t) w.driver_documents ≡ some old
      → (upload storage application_id t file w).0 ≡ ok d
      → IsReplaced w (after (upload storage application_id t file) w) d old
  unfolding upload save_file upsert_document delete_replaced
  upload-IsReplaced w d old e returned =
      let key : StorageKey = drawn_key application_id t file w in
      elim (Option-cases (storage.save key file.buffer w.files)) [
        | inl failed ↦ absurd (ground (arith, e, failed, returned))
        | inr (gs, saved) ↦ elim (Bool-cases (same_key old.storage_key key)) [
          | inl same ↦ record {
            document = ground (arith, e, saved, same, returned);
            replaced = ground (arith, e, saved, same, returned);
            readable = ground (
              arith,
              e,
              saved,
              same,
              returned,
              storage.read_saved key file.buffer w.files gs saved,
            );
          }
          | inr other ↦ record {
            document = ground (arith, e, saved, other, returned);
            replaced = ground (arith, e, saved, other, returned);
            readable = ground (
              arith,
              e,
              saved,
              other,
              returned,
              storage.read_saved key file.buffer w.files gs saved,
              storage.read_deleted old.storage_key key gs other,
            );
          }
        ]
      ]

  new-IsUploaded :
      (w v : World) (d : DriverDocument)
      → IsUnique (λ (x : DriverDocument). x.id) w.driver_documents
      → find_first (is_document application_id t) w.driver_documents ≡ none
      → IsNew w v d
      → IsUploaded storage application_id t file v d
  unfolding find_first
  new-IsUploaded w v d u e h = record {
    found = ground (
      arith,
      h.appended,
      h.document,
      find_first-append (is_document application_id t) w.driver_documents (d ∷ []),
      e,
    );
    readable = ground (
      arith,
      h.document,
      storage.read_saved (drawn_key application_id t file w) file.buffer w.files v.files h.saved,
    );
    same_mime = ground (arith, h.document);
    same_name = ground (arith, h.document);
    ids = subst (IsUnique (λ (x : DriverDocument). x.id)) (sym h.appended) (
        IsUnique-append (λ (x : DriverDocument). x.id) w.driver_documents d u
          (find_first-none_of (document_clash d) (λ (x : DriverDocument). x.id == d.id)
            w.driver_documents (λ x hit. ground (arith, hit)) h.no_clash));
  }

  replaced-IsUploaded :
      (w v : World) (d old : DriverDocument)
      → IsUnique (λ (x : DriverDocument). x.id) w.driver_documents
      → find_first (is_document application_id t) w.driver_documents ≡ some old
      → IsReplaced w v d old
      → IsUploaded storage application_id t file v d
  replaced-IsUploaded w v d old u e h = record {
    found = ground (
      arith,
      h.replaced,
      h.document,
      e,
      find_first-accepted (is_document application_id t) w.driver_documents old e,
      find_first-update_many (is_document application_id t) (is_document application_id t)
          (replace_document (drawn_key application_id t file w) file w.now) w.driver_documents
          (λ x. refl),
    );
    readable = ground (arith, h.document, h.readable);
    same_mime = ground (arith, h.document);
    same_name = ground (arith, h.document);
    ids = subst (IsUnique (λ (x : DriverDocument). x.id)) (sym h.replaced) (
        IsUnique-update_many (λ (x : DriverDocument). x.id) (is_document application_id t)
          (replace_document (drawn_key application_id t file w) file w.now) w.driver_documents
          (λ x. refl) u);
  }

  pub upload-IsUploaded :
      (w : World) (d : DriverDocument)
      → IsUnique (λ (x : DriverDocument). x.id) w.driver_documents
      → (upload storage application_id t file w).0 ≡ ok d
      → IsUploaded storage application_id t file (after (upload storage application_id t file) w) d
  upload-IsUploaded w d u returned =
      elim (Option-cases (find_first (is_document application_id t) w.driver_documents)) [
        | inl e ↦ new-IsUploaded w _ d u e (upload-IsNew w d e returned)
        | inr (old, e) ↦ replaced-IsUploaded w _ d old u e (upload-IsReplaced w d old e returned)
      ]

  -- After an upload that returns, be it the first of its type or a replacement, the document that
  -- it returned is the application's document of the type, and reading it by its id gives the
  -- bytes, the type and the name of the file that was uploaded; the ids were unique and stay so.
  pub upload-get_file_buffer :
      (w : World) (d : DriverDocument)
      → IsUnique (λ (x : DriverDocument). x.id) w.driver_documents
      → (upload storage application_id t file w).0 ≡ ok d
      → let v = after (upload storage application_id t file) w in
        (find_first (is_document application_id t) v.driver_documents ≡ some d)
        × (get_file_buffer storage d.id v ≡ (
          ok (record {
            buffer = file.buffer;
            mime_type = file.mimetype;
            filename = file.originalname;
          }),
          v,
        ))
        × IsUnique (λ (x : DriverDocument). x.id) v.driver_documents
  unfolding get_file_buffer
  upload-get_file_buffer w d u returned =
      let v : World = after (upload storage application_id t file) w in
      let h : IsUploaded storage application_id t file v d = upload-IsUploaded w d u returned in
      (
        h.found,
        ground (
          arith,
          h.readable,
          h.same_mime,
          h.same_name,
          find_first-key (λ (x : DriverDocument). x.id) (is_document application_id t)
              v.driver_documents d h.ids h.found,
        ),
        h.ids,
      )
