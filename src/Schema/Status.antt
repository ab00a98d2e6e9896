-- ===== src/Schema/Status.antt =====
-- The enums of prisma/schema.prisma, with the tests that the services make on them.
use reedri_end.Base.{ℕ, Bool, true, false}

abbrev pub Uuid : Type 0
Uuid = ℕ

abbrev pub Time : Type 0
Time = ℕ

abbrev pub Fare : Type 0
Fare = ℕ

-- `south_west n` is -(n + 1) microdegrees.
pub data Degrees : Type 0 where
  north_east : ℕ → Degrees
  south_west : ℕ → Degrees

pub data Role : Type 0 where
  user admin : Role

pub data ActiveProfile : Type 0 where
  rider driver : ActiveProfile

pub data DriverApplicationStatus : Type 0 where
  not_started : DriverApplicationStatus
  personal_info_submitted : DriverApplicationStatus
  license_submitted : DriverApplicationStatus
  vehicle_submitted : DriverApplicationStatus
  under_review : DriverApplicationStatus
  verified : DriverApplicationStatus
  rejected : DriverApplicationStatus

pub data RideRequestStatus : Type 0 where
  pending matched in_progress completed cancelled : RideRequestStatus

pub data OfferStatus : Type 0 where
  pending accepted rejected expired : OfferStatus

pub data TripStatus : Type 0 where
  matched started completed cancelled : TripStatus

pub data DriverDocumentType : Type 0 where
  drivers_license vehicle_registration vehicle_photo : DriverDocumentType
  proof_of_insurance profile_photo : DriverDocumentType

abbrev pub same_role : Role → Role → Bool
same_role Role.user Role.user = true
same_role Role.admin Role.admin = true
same_role _ _ = false

abbrev pub same_profile : ActiveProfile → ActiveProfile → Bool
same_profile ActiveProfile.rider ActiveProfile.rider = true
same_profile ActiveProfile.driver ActiveProfile.driver = true
same_profile _ _ = false

abbrev pub is_open_request : RideRequestStatus → Bool
is_open_request RideRequestStatus.pending = true
is_open_request _ = false

abbrev pub is_matched_request : RideRequestStatus → Bool
is_matched_request RideRequestStatus.matched = true
is_matched_request _ = false

abbrev pub is_pending_offer : OfferStatus → Bool
is_pending_offer OfferStatus.pending = true
is_pending_offer _ = false

abbrev pub is_accepted_offer : OfferStatus → Bool
is_accepted_offer OfferStatus.accepted = true
is_accepted_offer _ = false

abbrev pub is_matched_trip : TripStatus → Bool
is_matched_trip TripStatus.matched = true
is_matched_trip _ = false

abbrev pub is_started_trip : TripStatus → Bool
is_started_trip TripStatus.started = true
is_started_trip _ = false

abbrev pub is_completed_trip : TripStatus → Bool
is_completed_trip TripStatus.completed = true
is_completed_trip _ = false

-- The position of a document type in the enum, by which two are compared.
abbrev pub document_code : DriverDocumentType → ℕ
document_code DriverDocumentType.drivers_license = 0
document_code DriverDocumentType.vehicle_registration = 1
document_code DriverDocumentType.vehicle_photo = 2
document_code DriverDocumentType.proof_of_insurance = 3
document_code DriverDocumentType.profile_photo = 4

abbrev pub application_code : DriverApplicationStatus → ℕ
application_code DriverApplicationStatus.not_started = 0
application_code DriverApplicationStatus.personal_info_submitted = 1
application_code DriverApplicationStatus.license_submitted = 2
application_code DriverApplicationStatus.vehicle_submitted = 3
application_code DriverApplicationStatus.under_review = 4
application_code DriverApplicationStatus.verified = 5
application_code DriverApplicationStatus.rejected = 6
