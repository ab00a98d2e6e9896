-- ===== src/Tests/DriverTests.antt =====
-- Applications and documents: the properties at concrete inputs.
use reedri_end.Base.{◌≡◌, refl, some, List, [], ◌∷◌}
use reedri_end.Table.{find_first, update_many, any, IsUnique}
use reedri_end.Schema.{
  DriverDocumentType, DriverApplicationStatus, DriverApplication, DriverDocument,
}
use reedri_end.World.{World, after, ok, http, bad_request}
use reedri_end.Storage.{list_storage, list_save, same_key}
use reedri_end.Documents.{
  UploadableFile, is_allowed_mime_type, is_document, upsert_document, save_file, delete_replaced,
  upload, get_file_buffer,
}
use reedri_end.Documents.Uploads.{upload-throws, upload-get_file_buffer}
use reedri_end.Applications.{Review, new_application, find_application}
use reedri_end.Applications.Closure.{Call}
use reedri_end.Applications.Calls.{perform_all}
use reedri_end.Applications.Sound.{IsSound, perform_all-IsSound}
use reedri_end.Applications.Progress.{HasProgressed, perform_all-HasProgressed}
use reedri_end.Tests.Data.{start_world}

abbrev photo : UploadableFile
photo = record {
  buffer = 1 ∷ 2 ∷ [];
  mimetype = "image/png";
  originalname = "car.png";
  extension = ".png";
  size = 2;
}

abbrev old_photo : DriverDocument
old_photo = record {
  id = 400;
  driver_application_id = 60;
  document_type = DriverDocumentType.vehicle_photo;
  storage_key = record {
    application_id = 60;
    document_type = DriverDocumentType.vehicle_photo;
    uuid = 9;
    extension = ".jpg";
  };
  original_filename = "old.jpg";
  mime_type = "image/jpeg";
  size_bytes = 1;
  uploaded_at = 0;
}

abbrev office : World
office = record start_world { driver_documents = old_photo ∷ [] }

abbrev new_photo : DriverDocument
new_photo = record old_photo {
  storage_key = record {
    application_id = 60;
    document_type = DriverDocumentType.vehicle_photo;
    uuid = 500;
    extension = ".png";
  };
  original_filename = "car.png";
  mime_type = "image/png";
  size_bytes = 2;
  uploaded_at = 1000;
}

upload-get_file_buffer_example :
    let v = after (upload list_storage 60 DriverDocumentType.vehicle_photo photo) office in
    (find_first (is_document 60 DriverDocumentType.vehicle_photo) v.driver_documents
      ≡ some new_photo)
    × (get_file_buffer list_storage 400 v
        ≡ (ok (record { buffer = 1 ∷ 2 ∷ []; mime_type = "image/png"; filename = "car.png" }), v))
    × IsUnique (λ (x : DriverDocument). x.id) v.driver_documents
unfolding upload save_file upsert_document delete_replaced is_allowed_mime_type find_first
    update_many list_save same_key
upload-get_file_buffer_example =
    upload-get_file_buffer list_storage 60 DriverDocumentType.vehicle_photo photo office new_photo
      (refl, tt) refl

upload-throws_example :
    let v =
      after
        (upload list_storage 60 DriverDocumentType.vehicle_photo
          (record photo { mimetype = "text/html" }))
        office in
    (v.driver_documents ≡ office.driver_documents)
    × (v.driver_applications ≡ office.driver_applications)
    × (v.driver_profiles ≡ office.driver_profiles)
unfolding upload is_allowed_mime_type
upload-throws_example =
    upload-throws list_storage 60 DriverDocumentType.vehicle_photo
      (record photo { mimetype = "text/html" }) office
      (http (bad_request "Unsupported file type — use JPEG, PNG, or PDF")) refl

abbrev registration : DriverDocument
registration = record old_photo {
  id = 401;
  document_type = DriverDocumentType.vehicle_registration;
}

abbrev license_scan : DriverDocument
license_scan = record old_photo { id = 402; document_type = DriverDocumentType.drivers_license }

abbrev application : DriverApplication
application = record (new_application 60 2) { status = DriverApplicationStatus.under_review }

abbrev review_office : World
review_office = record start_world {
  driver_applications = application ∷ [];
  driver_profiles = [];
  driver_documents = old_photo ∷ registration ∷ license_scan ∷ [];
}

review_office-IsSound : IsSound review_office
unfolding any find_first
review_office-IsSound = record {
  ids = (refl, tt);
  profiles = tt;
  documented = ((λ s. (refl, refl, refl)), tt);
}

abbrev calls : List Call
calls =
    Call.reviewed 60 Review.verified
    ∷ Call.started 3
    ∷ Call.optional_document 2 DriverDocumentType.profile_photo photo
    ∷ []

perform_all-IsSound_example : IsSound (perform_all list_storage calls review_office)
perform_all-IsSound_example =
    perform_all-IsSound list_storage calls review_office review_office-IsSound

perform_all-HasProgressed_example :
    HasProgressed calls 60 2 DriverApplicationStatus.under_review
      (perform_all list_storage calls review_office)
    × (DriverApplicationStatus.under_review ≡ DriverApplicationStatus.verified
        → (b : DriverApplication) × (find_application 60
              (perform_all list_storage calls review_office)
            ≡ some b)
          × (b.status ≡ DriverApplicationStatus.verified))
unfolding find_first
perform_all-HasProgressed_example =
    perform_all-HasProgressed list_storage calls 60 application review_office review_office-IsSound
      refl
