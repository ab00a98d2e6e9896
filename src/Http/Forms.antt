-- ===== src/Http/Forms.antt =====
-- Which bodies and queries the decorators of the request classes accept (the dto/ folders under
-- src/). Whether a text is a phone number and which moment lies eighteen calendar years back
-- are left to libphonenumber and to the calendar of the host.
use Prim.Native.Char.{code}
use text.Mathlib.Text.{◌==◌ as str_eq}
use reedri_end.Base.{
  ℕ, suc, ◌&&◌, Bool, true, false, not, Option, none, some, String, ◌==◌, ltb, leb,
}
use reedri_end.Schema.{Time, Fare, Degrees, north_east, south_west, DriverDocumentType}
use reedri_end.RideRequests.{CreateRideRequest}
use reedri_end.Ratings.{RateTrip}
use reedri_end.Applications.{
  SubmitPersonalInfo, SubmitLicense, SubmitVehicle, Review, has_type, optional_document_types,
}

-- The number of characters.
abbrev pub text_length : String → ℕ
text_length String.[] = 0
text_length (String.◌∷◌ c s) = suc (text_length s)

-- `@IsNotEmpty()`
abbrev pub is_not_empty : String → Bool
is_not_empty s = not (str_eq s "")

-- `@IsOptional()` with another decorator.
abbrev pub is_optional {ℓ} : {A : Type ℓ} → (A → Bool) → Option A → Bool
is_optional f none = true
is_optional f (some a) = f a

abbrev pub max_length : ℕ → String → Bool
max_length n s = leb (text_length s) n

abbrev pub is_within : (south north : ℕ) → Degrees → Bool
is_within south north (north_east n) = leb n north
is_within south north (south_west n) = ltb n south

-- `@IsLatitude()` and `@IsLongitude()`
abbrev pub is_latitude : Degrees → Bool
is_latitude d = is_within 90000000 90000000 d

abbrev pub is_longitude : Degrees → Bool
is_longitude d = is_within 180000000 180000000 d

-- `@IsPositive()`
abbrev pub is_positive : Fare → Bool
is_positive fare = ltb 0 fare

unfoldable pub accepts_ride_request : CreateRideRequest → Bool
accepts_ride_request dto =
    is_latitude dto.pickup_lat
    && (is_longitude dto.pickup_lng
        && (is_latitude dto.dropoff_lat
            && (is_longitude dto.dropoff_lng && is_positive dto.suggested_fare)))

unfoldable pub accepts_cancellation : Option String → Bool
accepts_cancellation reason = is_optional (max_length 280) reason

unfoldable pub accepts_rating : RateTrip → Bool
accepts_rating dto =
    leb 1 dto.score && (leb dto.score 5 && is_optional (max_length 500) dto.comment)

unfoldable pub accepts_location : Degrees → Degrees → Bool
accepts_location lat lng = is_latitude lat && is_longitude lng

-- The radius is in thousandths of a kilometre.
unfoldable pub accepts_map_query : Degrees → Degrees → Option ℕ → Bool
accepts_map_query lat lng radius_km =
    is_latitude lat && (is_longitude lng && is_optional (λ r. leb 100 r && leb r 50000) radius_km)

-- `eighteenYearsAgo` is the last date of birth.
unfoldable pub accepts_personal_info : (Time → Time) → Time → SubmitPersonalInfo → Bool
accepts_personal_info eighteen_years_before now dto =
    is_not_empty dto.full_legal_name
    && (leb dto.date_of_birth (eighteen_years_before now) && is_not_empty dto.residential_address)

unfoldable pub accepts_license : Time → SubmitLicense → Bool
accepts_license now dto = is_not_empty dto.license_number && leb now dto.license_expiry_date

abbrev pub earliest_vehicle_year : ℕ
earliest_vehicle_year = 1980

-- The year is the one in which the program was started.
unfoldable pub accepts_vehicle : (start_year : ℕ) → Time → SubmitVehicle → Bool
accepts_vehicle start_year now dto =
    is_not_empty dto.vehicle_make
    && (is_not_empty dto.vehicle_model
        && (leb earliest_vehicle_year dto.vehicle_year
            && (leb dto.vehicle_year (suc start_year)
                && (is_not_empty dto.vehicle_color
                    && (is_not_empty dto.plate_number && leb now dto.registration_expiry_date)))))

unfoldable pub accepts_optional_type : DriverDocumentType → Bool
accepts_optional_type t = has_type t optional_document_types

-- A rejection has a reason; with an approval none is looked at.
unfoldable pub accepts_review : Review → Bool
accepts_review Review.verified = true
accepts_review (Review.rejected none) = false
accepts_review (Review.rejected (some reason)) = is_not_empty reason && max_length 280 reason

-- `/^\d{6}$/`
abbrev pub is_digits : ℕ → String → Bool
is_digits n String.[] = n == 0
is_digits ℕ.zero (String.◌∷◌ c s) = false
is_digits (suc n) (String.◌∷◌ c s) = leb b'0' (code c) && (leb (code c) b'9' && is_digits n s)

module _ (is_phone_number : String → Bool) where
  unfoldable pub accepts_registration : (name phone password : String) → Bool
  accepts_registration name phone password =
      is_not_empty name && (is_phone_number phone && leb 8 (text_length password))

  unfoldable pub accepts_login : (phone password : String) → Bool
  accepts_login phone password = is_phone_number phone && leb 8 (text_length password)

  unfoldable pub accepts_reset : (phone code new_password : String) → Bool
  accepts_reset phone code new_password =
      is_phone_number phone
      && (text_length code == 6 && (is_digits 6 code && leb 8 (text_length new_password)))
