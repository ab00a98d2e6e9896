-- ===== src/Applications/Closed.antt =====
-- Each call on applications preserves what the rule of the parent's Closure asks for.
use reedri_end.Base.{String, ◌≡◌, refl, true, some, List, [], ◌∷◌, arith, Bool-cases, inl, inr}
use reedri_end.Schema.{
  DriverApplicationStatus, Uuid, DriverDocumentType, DriverApplication, DriverDocument,
}
use reedri_end.World.{World, after, http, conflict, M, ◌>>=◌, ◌>>◌}
use reedri_end.World.Rules.{raise_if-after, >>=-after}
use reedri_end.Storage.{Storage}
use reedri_end.Documents.{UploadableFile, upload}
use reedri_end.Applications.{
  SubmitPersonalInfo, SubmitLicense, SubmitVehicle, find_application, update_application,
  with_personal_info, with_license, with_vehicle, submit_personal_info, missing_types, is_nonempty,
  is_plate_taken, assert_plate_number_available, finish_vehicle, submit_license, upload_all,
  submit_vehicle,
}
use reedri_end.Applications.Documented.{Keeps, Keeps-refl, Keeps-trans, missing-none, upload-Keeps}
use reedri_end.Applications.Closure.{
  Call, Allowed, Stays, IsClosed, submit-closed, load_editable-closed,
}

upload_all-Keeps :
    (storage : Storage) (i : Uuid) (files : List (DriverDocumentType × UploadableFile)) (w : World)
    → Keeps w (after (upload_all storage i files) w)
unfolding upload_all
upload_all-Keeps storage i [] w = Keeps-refl w
upload_all-Keeps storage i ((t, file) ∷ files) w =
    >>=-after (Keeps w) (upload storage i t file) (λ d. upload_all storage i files) w
      (upload-Keeps storage i t file w)
      (λ d e.
        Keeps-trans w (after (upload storage i t file) w)
          (after (upload_all storage i files) (after (upload storage i t file) w))
          (upload-Keeps storage i t file w)
          (upload_all-Keeps storage i files (after (upload storage i t file) w)))

-- What is found stays found in a state with the same applications.
Keeps-found :
    (w v : World) (a : DriverApplication)
    → Keeps w v
    → find_application a.id w ≡ some a
    → find_application a.id v ≡ some a
Keeps-found w v a k e = rw k.applications e

assert-closed {ℓ} :
    {A : Type ℓ} (P : World → Type 0) (plate : String) (i : Uuid) (k : M A) (w : World)
    → P w
    → P (after k w)
    → P (after (assert_plate_number_available plate i >> k) w)
unfolding assert_plate_number_available
assert-closed P plate i k w h next =
    raise_if-after P (is_plate_taken plate i w) (http (conflict "Plate number already registered"))
      k w h λ free. next

module _ (storage : Storage) (allowed : Allowed) (P : World → Type 0)
    (closed : IsClosed allowed P) where
  pub submit_personal_info-closed :
      (user_id : Uuid) (dto : SubmitPersonalInfo) (w : World)
      → Stays allowed (Call.personal_info user_id dto)
      → P w
      → P (after (submit_personal_info user_id dto) w)
  unfolding submit_personal_info
  submit_personal_info-closed user_id dto w stays h =
      load_editable-closed allowed P closed user_id
        (λ a. update_application a.id (with_personal_info dto)) w h
        λ a found own open_now.
          submit-closed allowed P closed w a (with_personal_info dto) (λ x. refl) (λ x. refl) found
            (stays a.id a.user_id a.status DriverApplicationStatus.personal_info_submitted
              (ground (arith, own, open_now)))
            (λ s. ground (arith, s)) h

  pub submit_license-closed :
      (user_id : Uuid) (dto : SubmitLicense) (image : UploadableFile) (w : World)
      → Stays allowed (Call.license user_id dto image)
      → P w
      → P (after (submit_license storage user_id dto image) w)
  unfolding submit_license
  submit_license-closed user_id dto image w stays h =
      load_editable-closed allowed P closed user_id
        (λ a. do
          document ← upload storage a.id DriverDocumentType.drivers_license image
          update_application a.id (with_license dto))
        w h
        λ a found own open_now.
          let up : M DriverDocument =
            upload storage a.id DriverDocumentType.drivers_license image in
          let kept : Keeps w (after up w) =
            upload-Keeps storage a.id DriverDocumentType.drivers_license image w in
          let h' : P (after up w) = closed.keeps w (after up w) kept h in
          >>=-after P up (λ d. update_application a.id (with_license dto)) w h'
            λ d e.
              submit-closed allowed P closed (after up w) a (with_license dto) (λ x. refl)
                (λ x. refl) (Keeps-found w (after up w) a kept found)
                (stays a.id a.user_id a.status DriverApplicationStatus.license_submitted
                  (ground (arith, own, open_now)))
                (λ s. ground (arith, s)) h'

  finish_vehicle-closed :
      (a : DriverApplication) (dto : SubmitVehicle) (w : World)
      → find_application a.id w ≡ some a
      → allowed a.id a.user_id a.status DriverApplicationStatus.under_review ≡ true
      → P w
      → P (after (finish_vehicle a.id dto) w)
  unfolding finish_vehicle
  finish_vehicle-closed a dto w found open_now h =
      elim (Bool-cases (is_nonempty (missing_types a.id w))) [
        | inl incomplete ↦ rw (incomplete, after) h
        | inr complete ↦ elim (Bool-cases (is_plate_taken dto.plate_number a.id w)) [
          | inl taken ↦ rw (complete, taken, after) h
          | inr free ↦
              rw (complete, free, after)
                (submit-closed allowed P closed w a (with_vehicle dto w.now) (λ x. refl) (λ x. refl)
                  found open_now (λ s. missing-none a.id w complete) h)
        ]
      ]

  pub submit_vehicle-closed :
      (user_id : Uuid) (dto : SubmitVehicle) (files : List (DriverDocumentType × UploadableFile))
      (w : World)
      → Stays allowed (Call.vehicle user_id dto files)
      → P w
      → P (after (submit_vehicle storage user_id dto files) w)
  unfolding submit_vehicle
  submit_vehicle-closed user_id dto files w stays h =
      load_editable-closed allowed P closed user_id
        (λ a. do
          assert_plate_number_available dto.plate_number a.id
          upload_all storage a.id files
          finish_vehicle a.id dto)
        w h
        λ a found own open_now.
          let up : M (Unit {0}) = upload_all storage a.id files in
          let kept : Keeps w (after up w) = upload_all-Keeps storage a.id files w in
          let h' : P (after up w) = closed.keeps w (after up w) kept h in
          assert-closed P dto.plate_number a.id (up >> finish_vehicle a.id dto) w h (
            >>=-after P up (λ d. finish_vehicle a.id dto) w h'
              λ d e.
                finish_vehicle-closed a dto (after up w) (Keeps-found w (after up w) a kept found)
                  (stays a.id a.user_id a.status DriverApplicationStatus.under_review
                    (ground (arith, own, open_now)))
                  h')
