-- ===== src/Http/Onboarding.antt =====
-- The controllers of driver applications, for the applicant
-- (src/driver-application/driver-application.controller.ts) and for administrators
-- (src/admin/admin.controller.ts).
use text.Mathlib.Text.{◌==◌ as str_eq}
use reedri_end.Base.{
  ℕ, not, Option, none, some, List, [], ◌∷◌, map, String, or_default, if◌then◌else◌,
}
use reedri_end.Schema.{
  Uuid, Time, Role, DriverApplicationStatus, DriverDocumentType, DriverApplication,
}
use reedri_end.World.{bad_request, http, M, ◌>>=◌, ◌>>◌, pure, gets, or_raise, raise_if}
use reedri_end.Storage.{Storage}
use reedri_end.Documents.{UploadableFile, FileContent, is_allowed_mime_type, get_file_buffer}
use reedri_end.Applications.{
  SubmitPersonalInfo, SubmitLicense, SubmitVehicle, Review, ApplicationStatus, start,
  submit_personal_info, review, get_status, list_own_documents, list_documents_for_application,
  list_for_review, submit_license, submit_vehicle, upload_optional_document,
}
use reedri_end.Http.{Claims, signed_in, for_roles, answered, validated}
use reedri_end.Http.Forms.{
  accepts_personal_info, accepts_license, accepts_vehicle, accepts_optional_type, accepts_review,
}
use reedri_end.Http.Responses.{DriverDocumentResponse, driver_document_response}

-- `fileFilter`
unfoldable pub file_filter : UploadableFile → M (Unit {0})
file_filter file =
    raise_if (not (is_allowed_mime_type file.mimetype))
      (http (bad_request "Unsupported file type — use JPEG, PNG, or PDF"))

-- The files of a request, each under the name of its field, in the order in which they came.
abbrev pub Files : Type 0
Files = List (String × UploadableFile)

-- The filter sees the files one by one.
unfoldable pub filter_files : Files → M (Unit {0})
filter_files [] = pure tt
filter_files ((field, file) ∷ files) = file_filter file >> filter_files files

-- `files?.[field]?.[0]`
unfoldable pub first_file : String → Files → Option UploadableFile
first_file field [] = none
first_file field ((name, file) ∷ files) =
    if str_eq name field then some file else first_file field files

-- `fieldToType`
abbrev pub field_to_type : List (String × DriverDocumentType)
field_to_type =
    ("vehiclePhoto", DriverDocumentType.vehicle_photo)
    ∷ ("registrationDocument", DriverDocumentType.vehicle_registration)
    ∷ ("proofOfInsurance", DriverDocumentType.proof_of_insurance)
    ∷ ("profilePhoto", DriverDocumentType.profile_photo)
    ∷ []

-- The loop that fills `byType`.
unfoldable pub by_type :
    List (String × DriverDocumentType) → Files → List (DriverDocumentType × UploadableFile)
by_type [] files = []
by_type ((field, t) ∷ fields) files =
    let rest = by_type fields files in
    elim (first_file field files) [ none ↦ rest | some file ↦ (t, file) ∷ rest ]

-- `DriverApplicationController.start`
unfoldable pub start_application : Option Claims → M DriverApplication
start_application token = signed_in token (λ user. start user.user_id)

-- `DriverApplicationController.getStatus`
unfoldable pub get_application_status : Option Claims → M ApplicationStatus
get_application_status token = signed_in token (λ user. get_status user.user_id)

-- `DriverApplicationController.submitPersonalInfo`
unfoldable pub post_personal_info :
    (Time → Time) → Option Claims → SubmitPersonalInfo → M DriverApplication
post_personal_info eighteen_years_before token dto = signed_in token (λ user.
    gets (λ w. w.now) >>= λ now.
    validated (accepts_personal_info eighteen_years_before now dto)
    >> submit_personal_info user.user_id dto)

-- `DriverApplicationController.listDocuments`
unfoldable pub get_own_documents : Option Claims → M (List DriverDocumentResponse)
get_own_documents token =
    signed_in token
      (λ user. answered (map driver_document_response) (list_own_documents user.user_id))

-- `AdminController.listApplications`
unfoldable pub list_applications :
    Option Claims → Option DriverApplicationStatus → M (List DriverApplication)
list_applications token status =
    for_roles (Role.admin ∷ []) token
      (λ user. list_for_review (or_default status DriverApplicationStatus.under_review))

-- `AdminController.review`
unfoldable pub review_application : Option Claims → Uuid → Review → M DriverApplication
review_application token id dto =
    for_roles (Role.admin ∷ []) token (λ user. validated (accepts_review dto) >> review id dto)

-- `AdminController.listDocuments`
unfoldable pub list_documents : Option Claims → Uuid → M (List DriverDocumentResponse)
list_documents token id =
    for_roles (Role.admin ∷ []) token
      (λ user. answered (map driver_document_response) (list_documents_for_application id))

module _ (storage : Storage) where
  -- `DriverApplicationController.submitLicense`
  unfoldable pub post_license :
      Option Claims → SubmitLicense → Option UploadableFile → M DriverApplication
  post_license token dto none = signed_in token (λ user. gets (λ w. w.now) >>= λ now.
      validated (accepts_license now dto)
      >> or_raise none (http (bad_request "A photo of your license is required")))
  post_license token dto (some license_image) = signed_in token (λ user.
      file_filter license_image
      >> (gets (λ w. w.now) >>= λ now.
          validated (accepts_license now dto)
          >> submit_license storage user.user_id dto license_image))

  -- `DriverApplicationController.submitVehicle`
  unfoldable pub post_vehicle :
      (start_year : ℕ) → Option Claims → SubmitVehicle → Files → M DriverApplication
  post_vehicle start_year token dto files = signed_in token (λ user.
      filter_files files
      >> (gets (λ w. w.now) >>= λ now.
          validated (accepts_vehicle start_year now dto)
          >> submit_vehicle storage user.user_id dto (by_type field_to_type files)))

  -- `DriverApplicationController.uploadOptionalDocument`
  unfoldable pub post_optional_document :
      Option Claims → DriverDocumentType → Option UploadableFile → M DriverDocumentResponse
  post_optional_document token t none = signed_in token (λ user.
      validated (accepts_optional_type t) >> or_raise none (http (bad_request "No file uploaded")))
  post_optional_document token t (some file) = signed_in token (λ user.
      file_filter file
      >> (validated (accepts_optional_type t)
          >> answered driver_document_response
              (upload_optional_document storage user.user_id t file)))

  -- `AdminController.downloadDocument`; the headers and the body are made of the result.
  unfoldable pub download_document : Option Claims → Uuid → M FileContent
  download_document token document_id =
      for_roles (Role.admin ∷ []) token (λ user. get_file_buffer storage document_id)
