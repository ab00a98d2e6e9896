-- ===== src/Schema/Account.antt =====
-- The tables of accounts and of driver onboarding (prisma/schema.prisma). An average rating is
-- kept as the sum and the number of the scores that it averages.
use reedri_end.Base.{ℕ, Bool, Option, String}
use reedri_end.Schema.Status.{
  Uuid, Time, Degrees, Role, ActiveProfile, DriverApplicationStatus, DriverDocumentType,
}

pub record Average : Type 0 where
  pub sum : ℕ
  pub number : ℕ

pub record User : Type 0 where
  pub id : Uuid
  pub name : String
  pub phone : String
  pub password : String
  pub role : Role
  pub active_profile : ActiveProfile
  pub rating : Average

pub record RefreshToken : Type 0 where
  pub id : Uuid
  pub user_id : Uuid
  pub token_hash : String
  pub expires_at : Time
  pub revoked_at : Option Time

pub record PasswordResetToken : Type 0 where
  pub id : Uuid
  pub user_id : Uuid
  pub code_hash : String
  pub expires_at : Time
  pub used_at : Option Time

pub record DriverApplication : Type 0 where
  pub id : Uuid
  pub user_id : Uuid
  pub status : DriverApplicationStatus
  pub full_legal_name : Option String
  pub date_of_birth : Option Time
  pub residential_address : Option String
  pub license_number : Option String
  pub license_expiry_date : Option Time
  pub vehicle_make : Option String
  pub vehicle_model : Option String
  pub vehicle_year : Option ℕ
  pub vehicle_color : Option String
  pub plate_number : Option String
  pub registration_expiry_date : Option Time
  pub rejection_reason : Option String
  pub submitted_at : Option Time
  pub reviewed_at : Option Time

pub record DriverProfile : Type 0 where
  pub id : Uuid
  pub user_id : Uuid
  pub driver_application_id : Uuid
  pub is_online : Bool
  pub current_lat : Option Degrees
  pub current_lng : Option Degrees
  pub location_updated_at : Option Time

-- `driver-documents/<application>/<type>-<uuid><extension>`
pub record StorageKey : Type 0 where
  pub application_id : Uuid
  pub document_type : DriverDocumentType
  pub uuid : Uuid
  pub extension : String

pub record DriverDocument : Type 0 where
  pub id : Uuid
  pub driver_application_id : Uuid
  pub document_type : DriverDocumentType
  pub storage_key : StorageKey
  pub original_filename : String
  pub mime_type : String
  pub size_bytes : ℕ
  pub uploaded_at : Time
