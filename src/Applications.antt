-- ===== src/Applications.antt =====
-- Applications to become a driver (src/driver-application/driver-application.service.ts), from
-- the first step to the review that creates the driver's profile. A write of an application looks
-- its row up again, and fails where the row is gone or a plate number is taken, as the table does.
pub mod Forms
pub mod Documented
pub mod Closure
pub mod Closed
pub mod Calls
pub mod Sound
pub mod Progress
pub use reedri_end.Applications.Forms.{
  has_type, required_document_types, optional_document_types, same_status, is_submitted,
  document_name, status_name, join_names, resume_step, SubmitPersonalInfo, SubmitLicense,
  SubmitVehicle, Review, ApplicationStatus, new_application, application_clash, profile_clash,
  has_plate, find_application, restarted, with_personal_info, with_license, with_vehicle,
  with_rejection, with_approval, new_profile,
}
unfoldable pub use reedri_end.Applications.Forms.{insert_application, update_application}
use text.Mathlib.Text.{◌==◌ as str_eq}
use Prim.Native.String.{◌++◌ as str_append}
use reedri_end.Base.{
  ℕ, ◌&&◌, ◌||◌, Bool, true, false, not, Option, none, some, List, [], ◌∷◌, ◌++◌, String, ◌==◌, leb,
  if◌then◌else◌,
}
use reedri_end.Table.{find_first, find_many, update_many, create, any}
use reedri_end.Schema.{
  Uuid, Time, DriverApplicationStatus, DriverDocumentType, document_code, application_code,
  DriverApplication, DriverProfile, DriverDocument,
}
use reedri_end.World.{
  World, bad_request, not_found, conflict, unique_violation, record_not_found, http, prisma, Result,
  ok, err, M, ◌>>=◌, ◌>>◌, pure, raise, gets, or_raise, raise_if, modify, write, draw,
}
use reedri_end.Storage.{Storage}
use reedri_end.Documents.{UploadableFile, upload, uploaded_types, list_for_application}

-- `findByUserId`
unfoldable pub find_by_user_id : Uuid → M DriverApplication
find_by_user_id user_id w =
    or_raise (find_first (λ (a : DriverApplication). a.user_id == user_id) w.driver_applications)
      (http (not_found "No driver application started")) w

-- `findById`
unfoldable pub find_by_id : Uuid → M DriverApplication
find_by_id id w =
    or_raise (find_application id w) (http (not_found "Driver application not found")) w

-- `loadEditable`
unfoldable pub load_editable : Uuid → M DriverApplication
unfolding find_by_user_id
load_editable user_id = do
  a ← find_by_user_id user_id
  raise_if (is_submitted a.status)
      (http (conflict "Your driver application has already been submitted"))
  raise_if (same_status a.status DriverApplicationStatus.rejected)
      (http (conflict "Your application was rejected — restart it before resubmitting"))
  pure a

-- `start`, with the application that the user has.
unfoldable pub start_from : Uuid → Option DriverApplication → M DriverApplication
start_from user_id none = do
  id ← draw
  write unique_violation (insert_application (new_application id user_id))
  pure (new_application id user_id)
start_from user_id (some a) = do
  raise_if (is_submitted a.status)
      (http (conflict "Your driver application has already been submitted"))
  if same_status a.status DriverApplicationStatus.rejected
      then update_application a.id restarted
      else pure a

unfoldable pub start : Uuid → M DriverApplication
start user_id w =
    start_from user_id
      (find_first (λ (a : DriverApplication). a.user_id == user_id) w.driver_applications) w

-- `submitPersonalInfo`
unfoldable pub submit_personal_info : Uuid → SubmitPersonalInfo → M DriverApplication
submit_personal_info user_id dto = do
  a ← load_editable user_id
  update_application a.id (with_personal_info dto)

-- `missing`
unfoldable pub missing_types : Uuid → World → List DriverDocumentType
missing_types application_id w =
    find_many (λ t. not (has_type t (uploaded_types application_id w))) required_document_types

abbrev pub is_nonempty {ℓ} : {A : Type ℓ} → List A → Bool
is_nonempty [] = false
is_nonempty (x ∷ xs) = true

-- Whether the row of another application has the plate number.
unfoldable pub is_plate_taken : String → Uuid → World → Bool
is_plate_taken plate own_id w = elim (find_first (has_plate plate) w.driver_applications) [
  | none ↦ false
  | some a ↦ not (a.id == own_id)
]

-- `assertPlateNumberAvailable`
unfoldable pub assert_plate_number_available : String → Uuid → M (Unit {0})
assert_plate_number_available plate own_id w =
    raise_if (is_plate_taken plate own_id w) (http (conflict "Plate number already registered")) w

-- The last writes of `submitVehicle`.
unfoldable pub finish_vehicle : Uuid → SubmitVehicle → M DriverApplication
finish_vehicle application_id dto = do
  missing ← gets (missing_types application_id)
  raise_if (is_nonempty missing)
      (http (bad_request (str_append "Missing required document(s): " (join_names missing))))
  now ← gets (λ w. w.now)
  taken ← gets (is_plate_taken dto.plate_number application_id)
  raise_if taken (prisma unique_violation)
  update_application application_id (with_vehicle dto now)

-- The transaction of an approval.
unfoldable pub approve_transaction : DriverApplication → Time → DriverProfile → World → Option World
approve_transaction a now profile w = elim (create profile_clash profile w.driver_profiles) [
  | none ↦ none
  | some profiles ↦ some (record w {
    driver_applications =
        update_many (λ (x : DriverApplication). x.id == a.id) (with_approval now)
          w.driver_applications;
    driver_profiles = profiles;
  })
]

unfoldable pub decide : DriverApplication → Review → M DriverApplication
decide a (Review.rejected reason) = do
  now ← gets (λ w. w.now)
  update_application a.id (with_rejection reason now)
decide a Review.verified = do
  id ← draw
  now ← gets (λ w. w.now)
  write unique_violation (approve_transaction a now (new_profile id a))
  pure (with_approval now a)

unfoldable pub review : Uuid → Review → M DriverApplication
review application_id decision = do
  a ← find_by_id application_id
  raise_if (not (same_status a.status DriverApplicationStatus.under_review)) (
      http (
        conflict (
          str_append "Only applications under review can be reviewed (this one is "
            (str_append (status_name a.status) ")"))))
  decide a decision

-- `getStatus`
unfoldable pub get_status : Uuid → M ApplicationStatus
get_status user_id = do
  a ← find_by_user_id user_id
  pure (record {
    status = a.status;
    current_step = resume_step a.status;
    rejection_reason = a.rejection_reason;
  })

-- `listOwnDocuments`
unfoldable pub list_own_documents : Uuid → M (List DriverDocument)
list_own_documents user_id = do a ← find_by_user_id user_id; list_for_application a.id

-- `listDocumentsForApplication`
unfoldable pub list_documents_for_application : Uuid → M (List DriverDocument)
list_documents_for_application application_id = do
  a ← find_by_id application_id
  list_for_application application_id

-- `ORDER BY submitted_at ASC`, with the rows that have none last.
abbrev pub is_no_later : Option Time → Option Time → Bool
is_no_later (some a) (some b) = leb a b
is_no_later none (some b) = false
is_no_later a none = true

unfoldable pub insert_by_submission :
    DriverApplication → List DriverApplication → List DriverApplication
insert_by_submission a [] = a ∷ []
insert_by_submission a (b ∷ bs) =
    let rest = insert_by_submission a bs in
    if is_no_later a.submitted_at b.submitted_at then a ∷ b ∷ bs else b ∷ rest

unfoldable pub sort_by_submission : List DriverApplication → List DriverApplication
sort_by_submission [] = []
sort_by_submission (a ∷ rest) = insert_by_submission a (sort_by_submission rest)

-- `listForReview`
unfoldable pub list_for_review : DriverApplicationStatus → M (List DriverApplication)
list_for_review status = gets λ w.
    sort_by_submission
      (find_many (λ (a : DriverApplication). same_status a.status status) w.driver_applications)

module _ (storage : Storage) where
  -- `submitLicense`
  unfoldable pub submit_license : Uuid → SubmitLicense → UploadableFile → M DriverApplication
  submit_license user_id dto license_image = do
    a ← load_editable user_id
    document ← upload storage a.id DriverDocumentType.drivers_license license_image
    update_application a.id (with_license dto)

  unfoldable pub upload_all : Uuid → List (DriverDocumentType × UploadableFile) → M (Unit {0})
  upload_all application_id [] = pure tt
  upload_all application_id ((t, file) ∷ files) = do
    document ← upload storage application_id t file
    upload_all application_id files

  -- `submitVehicle`
  unfoldable pub submit_vehicle :
      Uuid → SubmitVehicle → List (DriverDocumentType × UploadableFile) → M DriverApplication
  submit_vehicle user_id dto files = do
    a ← load_editable user_id
    assert_plate_number_available dto.plate_number a.id
    upload_all a.id files
    finish_vehicle a.id dto

  -- `uploadOptionalDocument`
  unfoldable pub upload_optional_document :
      Uuid → DriverDocumentType → UploadableFile → M DriverDocument
  upload_optional_document user_id t file = do
    raise_if (not (has_type t optional_document_types)) (
        http (
          bad_request (
            str_append (document_name t)
              " is submitted as part of the application steps, not here")))
    a ← find_by_user_id user_id
    upload storage a.id t file
