-- ===== src/Http/Api/Calm.antt =====
-- The methods of accounts, sessions, drivers, applications and documents next to the tables of rides
-- (src/auth, src/users, src/drivers and src/driver-application).
use reedri_end.Base.{◌∙◌, ℕ, ◌≡◌, refl, arith, [], ◌∷◌, String, Bool, List}
use reedri_end.Schema.{Uuid, Degrees, ActiveProfile, Role, DriverDocumentType}
use reedri_end.World.{World, after, M, ◌>>=◌, ◌>>◌}
use reedri_end.World.Rules.{>>=-after}
use reedri_end.Queue.{JobQueue}
use reedri_end.Storage.{Storage}
use reedri_end.Auth.{
  Crypto, insert_user, insert_refresh_token, replace_code, reset_transaction, issue_token_pair,
  register, login, rotate, refresh, send_code, forgot_password, reset_password, logout,
}
use reedri_end.Cache.{get, set, get_or_set}
use reedri_end.Ratings.{RateTrip, rate_trip, save_rating, insert_rating}
use reedri_end.Users.{recalculate_rating, update_user, set_active_profile}
use reedri_end.Drivers.{
  find_identity_by_user_id, update_profile, set_online_status, update_location, take_offline,
  go_offline,
}
use reedri_end.Offers.{schedule_driver_offer_expiry}
use reedri_end.Documents.{
  UploadableFile, upload, save_file, upsert_document, insert_document, delete_replaced,
}
use reedri_end.Applications.{
  insert_application, update_application, find_by_user_id, find_by_id, load_editable, start_from,
  start, submit_personal_info, SubmitPersonalInfo, SubmitLicense, SubmitVehicle, Review,
  approve_transaction, decide, review, submit_license, upload_all, submit_vehicle, finish_vehicle,
  assert_plate_number_available, upload_optional_document,
}

-- A method that leaves the tables of rides as they are.
abbrev pub IsCalm {ℓ} : {A : Type ℓ} → M A → Type 0
IsCalm m = (w : World) → (after m w).rides ≡ w.rides

pub bind-IsCalm {ℓ κ} :
    {A : Type ℓ} {B : Type κ} (m : M A) (k : A → M B)
    → IsCalm m
    → ((a : A) → IsCalm (k a))
    → IsCalm (m >>= k)
bind-IsCalm m k first rest w =
    >>=-after (λ (v : World). v.rides ≡ w.rides) m k w (first w)
      (λ a e. rest a (after m w) ∙ first w)

module _ (c : Crypto) (a r t : ℕ) where
  issue-IsCalm : (u : Uuid) (role : Role) → IsCalm (issue_token_pair c a r t u role)
  unfolding issue_token_pair insert_refresh_token
  issue-IsCalm u role w = ground arith

  pub register-IsCalm : (n p q : String) → IsCalm (register c a r t n p q)
  unfolding register insert_user issue_token_pair insert_refresh_token
  register-IsCalm n p q w = ground arith

  pub login-IsCalm : (p q : String) → IsCalm (login c a r t p q)
  unfolding login issue_token_pair insert_refresh_token
  login-IsCalm p q w = ground arith

  pub refresh-IsCalm : (p : String) → IsCalm (refresh c a r t p)
  unfolding refresh rotate issue_token_pair insert_refresh_token
  refresh-IsCalm p w = ground arith

  pub forgot-IsCalm : (p : String) → IsCalm (forgot_password c a r t p)
  unfolding forgot_password send_code replace_code
  forgot-IsCalm p w = ground arith

  pub reset-IsCalm : (p q s : String) → IsCalm (reset_password c a r t p q s)
  unfolding reset_password reset_transaction
  reset-IsCalm p q s w = ground arith

  pub logout-IsCalm : (p : String) → IsCalm (logout c a r t p)
  unfolding logout
  logout-IsCalm p w = refl

module _ (queue : JobQueue) (seconds : ℕ) where
  pub set_active_profile-IsCalm :
      (u : Uuid) (p : ActiveProfile) → IsCalm (set_active_profile queue seconds u p)
  unfolding set_active_profile update_user go_offline take_offline update_profile
      find_identity_by_user_id get_or_set get set schedule_driver_offer_expiry
  set_active_profile-IsCalm u ActiveProfile.driver w = ground arith
  set_active_profile-IsCalm u ActiveProfile.rider w = ground arith

  pub go_offline-IsCalm : (u : Uuid) → IsCalm (go_offline queue seconds u)
  unfolding go_offline take_offline find_identity_by_user_id get_or_set get set update_profile
      schedule_driver_offer_expiry
  go_offline-IsCalm u w = ground arith

pub set_online_status-IsCalm : (u : Uuid) (b : Bool) → IsCalm (set_online_status u b)
unfolding set_online_status update_profile find_identity_by_user_id get_or_set get set
set_online_status-IsCalm u b w = ground arith

pub update_location-IsCalm : (u : Uuid) (lat lng : Degrees) → IsCalm (update_location u lat lng)
unfolding update_location update_profile find_identity_by_user_id get_or_set get set
update_location-IsCalm u lat lng w = ground arith

pub start-IsCalm : (u : Uuid) → IsCalm (start u)
unfolding start start_from insert_application update_application
start-IsCalm u w = ground arith

pub personal-IsCalm : (u : Uuid) (d : SubmitPersonalInfo) → IsCalm (submit_personal_info u d)
unfolding submit_personal_info load_editable find_by_user_id update_application
personal-IsCalm u d w = ground arith

pub review-IsCalm : (i : Uuid) (d : Review) → IsCalm (review i d)
unfolding review decide find_by_id update_application approve_transaction
review-IsCalm i (Review.rejected x) w = ground arith
review-IsCalm i Review.verified w = ground arith

module _ (s : Storage) where
  upload-IsCalm : (i : Uuid) (t : DriverDocumentType) (f : UploadableFile) → IsCalm (upload s i t f)
  unfolding upload save_file upsert_document insert_document delete_replaced
  upload-IsCalm i t f w = ground arith

  upload_all-IsCalm :
      (i : Uuid) (fs : List (DriverDocumentType × UploadableFile)) → IsCalm (upload_all s i fs)
  unfolding upload_all
  upload_all-IsCalm i [] w = refl
  upload_all-IsCalm i ((t, f) ∷ fs) w =
      let first = upload-IsCalm i t f w in
      let rest = upload_all-IsCalm i fs (after (upload s i t f) w) in ground (arith, first, rest)

  pub license-IsCalm :
      (u : Uuid) (d : SubmitLicense) (f : UploadableFile) → IsCalm (submit_license s u d f)
  unfolding submit_license load_editable find_by_user_id update_application upload save_file
      upsert_document insert_document delete_replaced
  license-IsCalm u d f w = ground arith

  finish-IsCalm : (i : Uuid) (d : SubmitVehicle) → IsCalm (finish_vehicle i d)
  unfolding finish_vehicle update_application
  finish-IsCalm i d w = ground arith

  load-IsCalm : (u : Uuid) → IsCalm (load_editable u)
  unfolding load_editable find_by_user_id
  load-IsCalm u w = ground arith

  assert-IsCalm : (p : String) (i : Uuid) → IsCalm (assert_plate_number_available p i)
  unfolding assert_plate_number_available
  assert-IsCalm p i w = ground arith

  pub vehicle-IsCalm :
      (u : Uuid) (d : SubmitVehicle) (fs : List (DriverDocumentType × UploadableFile))
      → IsCalm (submit_vehicle s u d fs)
  unfolding submit_vehicle
  vehicle-IsCalm u d fs =
      bind-IsCalm (load_editable u)
        (λ a.
          assert_plate_number_available d.plate_number a.id
          >> (upload_all s a.id fs >> finish_vehicle a.id d))
        (load-IsCalm u)
        (λ a.
          bind-IsCalm (assert_plate_number_available d.plate_number a.id)
            (λ _. upload_all s a.id fs >> finish_vehicle a.id d) (assert-IsCalm d.plate_number a.id)
            (λ _.
              bind-IsCalm (upload_all s a.id fs) (λ _. finish_vehicle a.id d)
                (upload_all-IsCalm a.id fs) (λ _. finish-IsCalm a.id d)))

  pub optional-IsCalm :
      (u : Uuid) (t : DriverDocumentType) (f : UploadableFile)
      → IsCalm (upload_optional_document s u t f)
  unfolding upload_optional_document find_by_user_id upload save_file upsert_document
      insert_document delete_replaced
  optional-IsCalm u t f w = ground arith

pub rate_trip-IsCalm : (id from : Uuid) (dto : RateTrip) → IsCalm (rate_trip id from dto)
unfolding save_rating recalculate_rating update_user insert_rating rate_trip
rate_trip-IsCalm id from dto w = ground arith
