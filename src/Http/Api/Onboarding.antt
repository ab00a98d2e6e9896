-- ===== src/Http/Api/Onboarding.antt =====
-- The routes of applications and documents, over a relation on the tables of rides
-- (src/driver-application/driver-application.controller.ts and src/admin/admin.controller.ts).
use reedri_end.Base.{ℕ, [], ◌∷◌, Option, none, some, arith, or_default, map, refl}
use reedri_end.Schema.{
  Uuid, Time, DriverApplication, Role, DriverApplicationStatus, DriverDocumentType,
}
use reedri_end.World.{M, ◌>>=◌, ◌>>◌, http, bad_request, gets, or_raise}
use reedri_end.Storage.{Storage}
use reedri_end.Access.{AuthenticatedUser}
use reedri_end.Documents.{UploadableFile, get_file_buffer, list_for_application}
use reedri_end.Applications.{
  SubmitPersonalInfo, SubmitLicense, SubmitVehicle, Review, get_status, start, submit_personal_info,
  list_own_documents, list_documents_for_application, list_for_review, review, submit_license,
  submit_vehicle, upload_optional_document, find_by_user_id, find_by_id,
}
use reedri_end.Http.{Claims, answered, validated}
use reedri_end.Http.Forms.{
  accepts_personal_info, accepts_license, accepts_vehicle, accepts_optional_type, accepts_review,
}
use reedri_end.Http.Responses.{driver_document_response}
use reedri_end.Http.Onboarding.{
  Files, file_filter, filter_files, by_type, field_to_type, start_application,
  get_application_status, post_personal_info, post_license, post_vehicle, post_optional_document,
  get_own_documents, list_applications, review_application, list_documents, download_document,
}
use reedri_end.Http.Api.Calm.{
  IsCalm, start-IsCalm, personal-IsCalm, review-IsCalm, license-IsCalm, vehicle-IsCalm,
  optional-IsCalm,
}
use reedri_end.Http.Api.Effects.{
  kept, IsStep, calm-IsStep, bind-IsStep, signed_in-IsStep, for_roles-IsStep, validated-IsStep,
}
use reedri_end.World.{Rides}

module _ (R : Rides → Rides → Type 0) (stay : (x : Rides) → R x x) where
  module _ (token : Option Claims) where
    pub start_application-IsStep : IsStep R (start_application token)
    unfolding start_application
    start_application-IsStep =
        signed_in-IsStep R stay (λ user. start user.user_id)
          (λ user. calm-IsStep R stay (start user.user_id) (start-IsCalm user.user_id)) token

    pub get_application_status-IsStep : IsStep R (get_application_status token)
    unfolding get_application_status get_status find_by_user_id
    get_application_status-IsStep =
        signed_in-IsStep R stay (λ user. get_status user.user_id)
          (λ user w. kept R stay _ _ (ground arith)) token

    pub post_personal_info-IsStep :
        (before : Time → Time) (d : SubmitPersonalInfo)
        → IsStep R (post_personal_info before token d)
    unfolding post_personal_info
    post_personal_info-IsStep before d =
        signed_in-IsStep R stay
          (λ user. gets (λ w. w.now) >>= λ now.
            validated (accepts_personal_info before now d) >> submit_personal_info user.user_id d)
          (λ user w. kept R stay _ _ (ground (arith, personal-IsCalm user.user_id d w))) token

    pub get_own_documents-IsStep : IsStep R (get_own_documents token)
    unfolding get_own_documents list_own_documents find_by_user_id list_for_application
    get_own_documents-IsStep =
        signed_in-IsStep R stay
          (λ user. answered (map driver_document_response) (list_own_documents user.user_id))
          (λ user w. kept R stay _ _ (ground arith)) token

    pub list_applications-IsStep :
        (st : Option DriverApplicationStatus) → IsStep R (list_applications token st)
    unfolding list_applications list_for_review
    list_applications-IsStep st =
        for_roles-IsStep R stay
          (λ user. list_for_review (or_default st DriverApplicationStatus.under_review))
          (λ user w. kept R stay _ _ (ground arith)) token (Role.admin ∷ [])

    pub review_application-IsStep :
        (i : Uuid) (d : Review) → IsStep R (review_application token i d)
    unfolding review_application
    review_application-IsStep i d =
        for_roles-IsStep R stay (λ user. validated (accepts_review d) >> review i d)
          (λ user.
            validated-IsStep R stay (accepts_review d) (review i d)
              (calm-IsStep R stay (review i d) (review-IsCalm i d)))
          token (Role.admin ∷ [])

    pub list_documents-IsStep : (i : Uuid) → IsStep R (list_documents token i)
    unfolding list_documents list_documents_for_application find_by_id list_for_application
    list_documents-IsStep i =
        for_roles-IsStep R stay
          (λ user. answered (map driver_document_response) (list_documents_for_application i))
          (λ user w. kept R stay _ _ (ground arith)) token (Role.admin ∷ [])

  module _ (s : Storage) (token : Option Claims) where
    filter_files-IsCalm : (fs : Files) → IsCalm (filter_files fs)
    unfolding filter_files file_filter
    filter_files-IsCalm [] w = refl
    filter_files-IsCalm ((n, f) ∷ fs) w = ground (arith, filter_files-IsCalm fs w)

    pub post_license-IsStep :
        (d : SubmitLicense) (f : Option UploadableFile) → IsStep R (post_license s token d f)
    unfolding post_license file_filter
    post_license-IsStep d none =
        signed_in-IsStep R stay
          (λ user. gets (λ w. w.now) >>= λ now.
            validated (accepts_license now d)
            >> or_raise none (http (bad_request "A photo of your license is required")))
          (λ user w. kept R stay _ _ (ground arith)) token
    post_license-IsStep d (some f) =
        signed_in-IsStep R stay
          (λ user.
            file_filter f
            >> (gets (λ w. w.now) >>= λ now.
                validated (accepts_license now d) >> submit_license s user.user_id d f))
          (λ user w. kept R stay _ _ (ground (arith, license-IsCalm s user.user_id d f w))) token

    pub post_vehicle-IsStep :
        (y : ℕ) (d : SubmitVehicle) (fs : Files) → IsStep R (post_vehicle s y token d fs)
    unfolding post_vehicle
    post_vehicle-IsStep y d fs =
        let k : AuthenticatedUser → M DriverApplication = λ user. gets (λ w. w.now) >>= λ now.
        validated (accepts_vehicle y now d)
        >> submit_vehicle s user.user_id d (by_type field_to_type fs) in
        signed_in-IsStep R stay (λ user. filter_files fs >> k user)
          (λ user.
            bind-IsStep R stay (filter_files fs) (λ _. k user) (filter_files-IsCalm fs)
              (λ _ w.
                kept R stay _ _
                  (ground (arith, vehicle-IsCalm s user.user_id d (by_type field_to_type fs) w))))
          token

    pub post_optional_document-IsStep :
        (t : DriverDocumentType) (f : Option UploadableFile)
        → IsStep R (post_optional_document s token t f)
    unfolding post_optional_document file_filter
    post_optional_document-IsStep t none =
        signed_in-IsStep R stay
          (λ user.
            validated (accepts_optional_type t)
            >> or_raise none (http (bad_request "No file uploaded")))
          (λ user w. kept R stay _ _ (ground arith)) token
    post_optional_document-IsStep t (some f) =
        signed_in-IsStep R stay
          (λ user.
            file_filter f
            >> (validated (accepts_optional_type t)
                >> answered driver_document_response (upload_optional_document s user.user_id t f)))
          (λ user w. kept R stay _ _ (ground (arith, optional-IsCalm s user.user_id t f w))) token

    pub download_document-IsStep : (i : Uuid) → IsStep R (download_document s token i)
    unfolding download_document get_file_buffer
    download_document-IsStep i =
        for_roles-IsStep R stay (λ user. get_file_buffer s i)
          (λ user w. kept R stay _ _ (ground arith)) token (Role.admin ∷ [])
