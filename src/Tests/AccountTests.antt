-- ===== src/Tests/AccountTests.antt =====
-- Sessions, modes, drivers, ratings and the limiter: the properties at concrete inputs.
use reedri_end.Base.{ℕ, ◌≤◌, ◌≡◌, refl, true, false, none, some, List, [], ◌∷◌, ◌++◌, arith, String}
use reedri_end.Table.{find_first, find_many, update_many, create, count, delete_many}
use reedri_end.Schema.{ActiveProfile, User, RefreshToken, PasswordResetToken, Trip, Rating}
use reedri_end.World.{World, after, ok, err, http, conflict, forbidden}
use reedri_end.Queue.{list_queue}
use reedri_end.Offers.{schedule_driver_offer_expiry}
use reedri_end.Matching.{find_nearby_drivers}
use reedri_end.Cache.{get, set, get_or_set}
use reedri_end.Drivers.{find_identity_by_user_id, update_profile, take_offline, go_offline}
use reedri_end.Drivers.Identity.{
  Call, IsCoherent, perform_all, stored_identity, perform_all-IsCoherent,
}
use reedri_end.Users.{find_by_phone, update_user, set_active_profile, recalculate_rating}
use reedri_end.Users.Modes.{IsAbsent, set_active_profile-IsAbsent}
use reedri_end.Access.{can_activate, switch_message}
use reedri_end.Access.Modes.{set_active_profile-gates}
use reedri_end.Ratings.{RateTrip, insert_rating, save_rating, rate_trip}
use reedri_end.Ratings.Averages.{IsAveraged, rate_trip-IsAveraged}
use reedri_end.Ratings.Once.{IsRating, rate_trip-once}
use reedri_end.Auth.{
  TokenPair, is_outstanding, find_refresh_token, insert_refresh_token, replace_code,
  reset_transaction, issue_token_pair, login, rotate, refresh, send_code, forgot_password,
  reset_password, logout,
}
use reedri_end.Auth.Tokens.{refused_token, refresh-once, logout-ends}
use reedri_end.Auth.Reset.{reset_password-resets, forgot_password-reset}
use reedri_end.RateLimiter.Window.{Event, consumes, clears, run, is_in_window, run-limited}
use reedri_end.Maintenance.{remove_expired_refresh_tokens}
use reedri_end.Maintenance.Cleanup.{accepted_token, remove_expired-accepted}
use reedri_end.Tests.Data.{
  start_world, rider_account, driver_account, flat, plain_crypto, centre, after_trip, four,
}

abbrev session : RefreshToken
session = record {
  id = 300;
  user_id = 1;
  token_hash = "first";
  expires_at = 5000;
  revoked_at = none;
}

abbrev old_session : RefreshToken
old_session = record session { id = 301; token_hash = "old"; expires_at = 10 }

abbrev code : PasswordResetToken
code = record { id = 310; user_id = 1; code_hash = "100000"; expires_at = 2000; used_at = none }

abbrev logged_in : World
logged_in = record start_world {
  refresh_tokens = session ∷ old_session ∷ [];
  password_reset_tokens = code ∷ [];
}

abbrev pair : TokenPair
pair = record { access_token = "access"; refresh_token = "fresh" }

refresh-once_example :
    let v = record (after (refresh plain_crypto 900 3000 600 "first") logged_in) { now = 1500 } in
    refresh plain_crypto 900 3000 600 "first" v ≡ (err refused_token, v)
unfolding refresh rotate issue_token_pair insert_refresh_token create find_first update_many
refresh-once_example = refresh-once plain_crypto 900 3000 600 "first" pair 1500 logged_in refl

logout-ends_example :
    let v = record (after (logout plain_crypto 900 3000 600 "first") logged_in) { now = 1500 } in
    refresh plain_crypto 900 3000 600 "first" v ≡ (err refused_token, v)
logout-ends_example = logout-ends plain_crypto 900 3000 600 "first" 1500 logged_in

reset_password-resets_example :
    let v =
      after (reset_password plain_crypto 900 3000 600 "+2348000000001" "100000" "new") logged_in in
    (user : User) × (find_by_phone "+2348000000001" logged_in ≡ some user)
    × ((token : String) (t : RefreshToken) (later : ℕ)
        → find_refresh_token token v ≡ some t
        → t.user_id ≡ user.id
        → refresh plain_crypto 900 3000 600 token (record v { now = later })
          ≡ (err refused_token, record v { now = later }))
    × (login plain_crypto 900 3000 600 "+2348000000001" "new" v
        ≡ issue_token_pair plain_crypto 900 3000 600 user.id user.role v)
unfolding reset_password reset_transaction find_first update_many
reset_password-resets_example =
    reset_password-resets plain_crypto 900 3000 600 "+2348000000001" "100000" "new" logged_in refl

forgot_password-reset_example :
    let v = after (forgot_password plain_crypto 900 3000 600 "+2348000000001") logged_in in
    (c : ℕ) × (v.outbox ≡ [] ++ record { phone = "+2348000000001"; code = c } ∷ [])
    × (count (is_outstanding 1) v.password_reset_tokens ≡ 1)
    × ((reset_password plain_crypto 900 3000 600 "+2348000000001" "100000" "new"
          (record v { now = 1500 })).0
        ≡ ok tt)
unfolding forgot_password send_code replace_code create find_first update_many
forgot_password-reset_example =
    forgot_password-reset plain_crypto 900 3000 600 "+2348000000001" "new" rider_account 1500
      logged_in refl refl refl

remove_expired-accepted_example :
    accepted_token "first" (record (after remove_expired_refresh_tokens logged_in) { now = 1500 })
    ≡ accepted_token "first" (record logged_in { now = 1500 })
unfolding find_first
remove_expired-accepted_example =
    remove_expired-accepted "first" 1500 logged_in (refl, (refl, tt)) refl

perform_all-IsCoherent_example :
    IsCoherent (perform_all list_queue 60 (Call.online_status 2 false ∷ []) start_world)
    × ((find_identity_by_user_id 2
          (perform_all list_queue 60 (Call.online_status 2 false ∷ []) start_world)).0
        ≡ ok (
            stored_identity 2
              (perform_all list_queue 60
                (Call.online_status 2 false ∷ [])
                start_world).driver_profiles))
perform_all-IsCoherent_example =
    perform_all-IsCoherent list_queue 60 (Call.online_status 2 false ∷ []) 2 start_world tt

set_active_profile-IsAbsent_example : IsAbsent 2 (
    find_nearby_drivers flat 5 centre none
      (after (set_active_profile list_queue 60 2 ActiveProfile.rider) start_world))
unfolding set_active_profile update_user go_offline take_offline update_profile
    find_identity_by_user_id get_or_set get set schedule_driver_offer_expiry find_first update_many
    delete_many
set_active_profile-IsAbsent_example =
    set_active_profile-IsAbsent list_queue 60 flat 5 2 start_world
      (record driver_account { active_profile = ActiveProfile.rider }) centre none tt refl

set_active_profile-gates_example :
    let v = after (set_active_profile list_queue 60 2 ActiveProfile.driver) start_world in
    (can_activate (some ActiveProfile.driver) (some 2) v ≡ (ok true, v))
    × (can_activate (some ActiveProfile.rider) (some 2) v
        ≡ (err (http (forbidden (switch_message ActiveProfile.rider))), v))
unfolding set_active_profile update_user find_first update_many
set_active_profile-gates_example =
    set_active_profile-gates list_queue 60 ActiveProfile.driver ActiveProfile.rider 2 driver_account
      start_world refl refl

abbrev one : RateTrip
one = record { score = 1; comment = none }

abbrev rating : Rating
rating = record {
  id = 500;
  trip_id = 500;
  from_user_id = 1;
  to_user_id = 2;
  score = 4;
  comment = none;
  created_at = 1000;
}

rate_trip-IsAveraged_example : IsAveraged (after (rate_trip 500 1 four) after_trip)
unfolding find_many
rate_trip-IsAveraged_example = rate_trip-IsAveraged 500 1 four after_trip (refl, (refl, tt))

rate_trip-once_example :
    let v = after (rate_trip 500 1 four) after_trip in
    ((t : Trip) × IsRating 500 1 four after_trip v rating t)
    × ((rate_trip 500 1 one v).0 ≡ err (http (conflict "You have already rated this trip")))
    × ((after (rate_trip 500 1 one) v).ratings ≡ v.ratings)
    × ((after (rate_trip 500 1 one) v).users ≡ v.users)
unfolding rate_trip save_rating insert_rating create recalculate_rating update_user find_first
    find_many update_many
rate_trip-once_example = rate_trip-once 500 1 four one after_trip rating refl

abbrev at_time : ℕ → Event
at_time t = consumes (record { key = 1; at = t })

-- The key is cleared after three messages.
abbrev messages : List Event
messages = at_time 10 ∷ at_time 20 ∷ at_time 30 ∷ clears 1 ∷ at_time 35 ∷ []

run-limited_example : count (is_in_window 2 1000 1 40) (run 2 1000 messages (λ key. none, [])).1 ≤ 2
run-limited_example =
    run-limited 2 1000 messages 1 40
      (ground arith, (ground arith, (ground arith, (ground arith, tt)))) (ground arith)
