-- ===== src/Applications/Forms.antt =====
-- The forms of the application steps, and the writes of an application's row
-- (src/driver-application/driver-application.service.ts and its dto/). A write of an application
-- looks its row up again, and fails where the row is gone.
use text.Mathlib.Text.{◌==◌ as str_eq}
use Prim.Native.String.{◌++◌ as str_append}
use reedri_end.Base.{ℕ, ◌||◌, Bool, false, Option, none, some, List, [], ◌∷◌, String, ◌==◌}
use reedri_end.Table.{find_first, update_many, create, any}
use reedri_end.Schema.{
  Uuid, Time, DriverApplicationStatus, DriverDocumentType, document_code, application_code,
  DriverApplication, DriverProfile,
}
use reedri_end.World.{World, record_not_found, prisma, ok, err, M}

abbrev pub required_document_types : List DriverDocumentType
required_document_types =
    DriverDocumentType.drivers_license ∷ DriverDocumentType.vehicle_registration
    ∷ DriverDocumentType.vehicle_photo ∷ []

abbrev pub optional_document_types : List DriverDocumentType
optional_document_types =
    DriverDocumentType.proof_of_insurance ∷ DriverDocumentType.profile_photo ∷ []

-- `Array.includes` and `Set.has`.
abbrev pub has_type : DriverDocumentType → List DriverDocumentType → Bool
has_type t ts = any (λ u. document_code u == document_code t) ts

abbrev pub same_status : DriverApplicationStatus → DriverApplicationStatus → Bool
same_status a b = application_code a == application_code b

-- Sent for review, or reviewed and verified.
abbrev pub is_submitted : DriverApplicationStatus → Bool
is_submitted s =
    same_status s DriverApplicationStatus.under_review
    || same_status s DriverApplicationStatus.verified

abbrev pub document_name : DriverDocumentType → String
document_name DriverDocumentType.drivers_license = "DRIVERS_LICENSE"
document_name DriverDocumentType.vehicle_registration = "VEHICLE_REGISTRATION"
document_name DriverDocumentType.vehicle_photo = "VEHICLE_PHOTO"
document_name DriverDocumentType.proof_of_insurance = "PROOF_OF_INSURANCE"
document_name DriverDocumentType.profile_photo = "PROFILE_PHOTO"

abbrev pub status_name : DriverApplicationStatus → String
status_name DriverApplicationStatus.not_started = "NOT_STARTED"
status_name DriverApplicationStatus.personal_info_submitted = "PERSONAL_INFO_SUBMITTED"
status_name DriverApplicationStatus.license_submitted = "LICENSE_SUBMITTED"
status_name DriverApplicationStatus.vehicle_submitted = "VEHICLE_SUBMITTED"
status_name DriverApplicationStatus.under_review = "UNDER_REVIEW"
status_name DriverApplicationStatus.verified = "VERIFIED"
status_name DriverApplicationStatus.rejected = "REJECTED"

-- `missing.join(', ')`
abbrev pub join_names : List DriverDocumentType → String
join_names [] = ""
join_names (t ∷ []) = document_name t
join_names (t ∷ u ∷ ts) = str_append (document_name t) (str_append ", " (join_names (u ∷ ts)))

-- `RESUME_STEP`
abbrev pub resume_step : DriverApplicationStatus → Option ℕ
resume_step DriverApplicationStatus.not_started = some 1
resume_step DriverApplicationStatus.personal_info_submitted = some 2
resume_step DriverApplicationStatus.license_submitted = some 3
resume_step DriverApplicationStatus.vehicle_submitted = some 3
resume_step DriverApplicationStatus.rejected = some 1
resume_step DriverApplicationStatus.under_review = none
resume_step DriverApplicationStatus.verified = none

pub record SubmitPersonalInfo : Type 0 where
  pub full_legal_name : String
  pub date_of_birth : Time
  pub residential_address : String

pub record SubmitLicense : Type 0 where
  pub license_number : String
  pub license_expiry_date : Time

pub record SubmitVehicle : Type 0 where
  pub vehicle_make : String
  pub vehicle_model : String
  pub vehicle_year : ℕ
  pub vehicle_color : String
  pub plate_number : String
  pub registration_expiry_date : Time

pub data Review : Type 0 where
  verified : Review
  rejected : (rejection_reason : Option String) → Review

pub record ApplicationStatus : Type 0 where
  pub status : DriverApplicationStatus
  pub current_step : Option ℕ
  pub rejection_reason : Option String

abbrev pub new_application : Uuid → Uuid → DriverApplication
new_application id user_id = record {
  id = id;
  user_id = user_id;
  status = DriverApplicationStatus.not_started;
  full_legal_name = none;
  date_of_birth = none;
  residential_address = none;
  license_number = none;
  license_expiry_date = none;
  vehicle_make = none;
  vehicle_model = none;
  vehicle_year = none;
  vehicle_color = none;
  plate_number = none;
  registration_expiry_date = none;
  rejection_reason = none;
  submitted_at = none;
  reviewed_at = none;
}

-- The unique keys of a new application, which has no plate number yet.
abbrev pub application_clash : DriverApplication → DriverApplication → Bool
application_clash a b = b.id == a.id || b.user_id == a.user_id

-- The unique keys of a driver's profile.
abbrev pub profile_clash : DriverProfile → DriverProfile → Bool
profile_clash a b =
    b.id == a.id || (b.user_id == a.user_id || b.driver_application_id == a.driver_application_id)

abbrev pub has_plate : String → DriverApplication → Bool
has_plate plate a = elim a.plate_number [ none ↦ false | some p ↦ str_eq p plate ]

abbrev pub find_application : Uuid → World → Option DriverApplication
find_application id w = find_first (λ (a : DriverApplication). a.id == id) w.driver_applications

unfoldable pub insert_application : DriverApplication → World → Option World
insert_application a w = elim (create application_clash a w.driver_applications) [
  | none ↦ none
  | some rows ↦ some (record w { driver_applications = rows })
]

-- `driverApplication.update` by id
unfoldable pub update_application :
    Uuid → (DriverApplication → DriverApplication) → M DriverApplication
update_application id f w = elim (find_application id w) [
  | none ↦ (err (prisma record_not_found), w)
  | some a ↦ (
    ok (f a),
    record w {
      driver_applications =
          update_many (λ (x : DriverApplication). x.id == id) f w.driver_applications;
    },
  )
]

abbrev pub restarted : DriverApplication → DriverApplication
restarted a = record a {
  status = DriverApplicationStatus.not_started;
  rejection_reason = none;
  submitted_at = none;
  reviewed_at = none;
}

abbrev pub with_personal_info : SubmitPersonalInfo → DriverApplication → DriverApplication
with_personal_info dto a = record a {
  full_legal_name = some dto.full_legal_name;
  date_of_birth = some dto.date_of_birth;
  residential_address = some dto.residential_address;
  status = DriverApplicationStatus.personal_info_submitted;
}

abbrev pub with_license : SubmitLicense → DriverApplication → DriverApplication
with_license dto a = record a {
  license_number = some dto.license_number;
  license_expiry_date = some dto.license_expiry_date;
  status = DriverApplicationStatus.license_submitted;
}

abbrev pub with_vehicle : SubmitVehicle → Time → DriverApplication → DriverApplication
with_vehicle dto now a = record a {
  vehicle_make = some dto.vehicle_make;
  vehicle_model = some dto.vehicle_model;
  vehicle_year = some dto.vehicle_year;
  vehicle_color = some dto.vehicle_color;
  plate_number = some dto.plate_number;
  registration_expiry_date = some dto.registration_expiry_date;
  status = DriverApplicationStatus.under_review;
  submitted_at = some now;
}

abbrev pub with_rejection : Option String → Time → DriverApplication → DriverApplication
with_rejection reason now a = record a {
  status = DriverApplicationStatus.rejected;
  rejection_reason = reason;
  reviewed_at = some now;
}

abbrev pub with_approval : Time → DriverApplication → DriverApplication
with_approval now a = record a {
  status = DriverApplicationStatus.verified;
  rejection_reason = none;
  reviewed_at = some now;
}

abbrev pub new_profile : Uuid → DriverApplication → DriverProfile
new_profile id a = record {
  id = id;
  user_id = a.user_id;
  driver_application_id = a.id;
  is_online = false;
  current_lat = none;
  current_lng = none;
  location_updated_at = none;
}
