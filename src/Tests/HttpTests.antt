-- ===== src/Tests/HttpTests.antt =====
-- The HTTP interface: the properties at concrete inputs.
use reedri_end.Base.{◌≡◌, refl, true, false, Option, none, some, [], All}
use reedri_end.Table.{find_first, find_many, any}
use reedri_end.Schema.{Role, ActiveProfile, DriverDocumentType, User, StorageKey, DriverDocument}
use reedri_end.World.{after, ok, err, http, forbidden, bad_request}
use reedri_end.Queue.{list_queue}
use reedri_end.Storage.{list_storage}
use reedri_end.Documents.{UploadableFile, is_allowed_mime_type}
use reedri_end.Ratings.Averages.{IsAveraged}
use reedri_end.Access.{AuthenticatedUser, switch_message, validate}
use reedri_end.Http.{Claims, authenticate}
use reedri_end.Http.Envelope.{Exchange}
use reedri_end.Http.Journeys.{find_one}
use reedri_end.Http.Onboarding.{list_documents}
use reedri_end.Http.Api.{Server, asks_start, asks_rating, asks_optional_document, serve}
use reedri_end.Http.Api.Refusals.{serve-refused}
use reedri_end.Http.Api.Scores.{HasScores, IsBounded, serve-rating-IsBounded}
use reedri_end.Http.Api.Secrets.{IsDisguise, disguise, move_files, answers-hide}
use reedri_end.Http.Api.Uploading.{serve-filters}
use reedri_end.Tests.Data.{start_world, flat, plain_crypto, after_trip, four}

abbrev pub server : Server
server = record {
  queue = list_queue;
  storage = list_storage;
  crypto = plain_crypto;
  geography = flat;
  is_phone_number = λ s. true;
  eighteen_years_before = λ n. n;
  start_year = 2026;
  offer_expiry_seconds = 60;
  ride_match_radius_km = 5;
  access_ttl = 900;
  refresh_ttl = 3000;
  reset_ttl = 600;
}

abbrev pub rider_token : Option Claims
rider_token = some (record { sub = some 1; role = some Role.user })

abbrev rider_user : AuthenticatedUser
rider_user = record { user_id = 1; role = Role.user }

-- A rider cannot start a trip.
serve-refused_example :
    serve server rider_token (asks_start 500) start_world
    ≡ (err (http (forbidden (switch_message ActiveProfile.driver))), start_world)
unfolding find_first
serve-refused_example =
    serve-refused server rider_token (asks_start 500) start_world
      (forbidden (switch_message ActiveProfile.driver)) refl

serve-rating-IsBounded_example :
    let v = after (serve server rider_token (asks_rating 500 four)) after_trip in
    HasScores v × IsAveraged v × All (λ (u : User). IsBounded u.rating) v.users
unfolding find_many
serve-rating-IsBounded_example =
    serve-rating-IsBounded server rider_token 500 four after_trip tt (refl, (refl, tt))

abbrev hide_contact : User → User
hide_contact u = record u { phone = "hidden"; password = "hidden" }

hide_contact-IsDisguise : IsDisguise hide_contact
hide_contact-IsDisguise = record { id = λ u. refl; name = λ u. refl; rating = λ u. refl }

abbrev elsewhere : DriverDocument → StorageKey
elsewhere d = record d.storage_key { uuid = 9 }

answers-hide_example :
    ((find_one rider_token 100 (disguise hide_contact start_world)).0
      ≡ (find_one rider_token 100 start_world).0)
    × ((list_documents rider_token 60 (move_files elsewhere start_world)).0
        ≡ (list_documents rider_token 60 start_world).0)
answers-hide_example =
    answers-hide hide_contact elsewhere rider_token 100 60 start_world hide_contact-IsDisguise

abbrev script : UploadableFile
script = record {
  buffer = [];
  mimetype = "text/html";
  originalname = "x.html";
  extension = ".html";
  size = 0;
}

rider_token_valid : authenticate rider_token start_world ≡ (ok rider_user, start_world)
unfolding authenticate validate
rider_token_valid = refl

serve-filters_example :
    serve server rider_token
      (asks_optional_document DriverDocumentType.profile_photo (some script))
      start_world
    ≡ (err (http (bad_request "Unsupported file type — use JPEG, PNG, or PDF")), start_world)
unfolding any is_allowed_mime_type
serve-filters_example =
    serve-filters server rider_token rider_user
      (asks_optional_document DriverDocumentType.profile_photo (some script)) start_world
      rider_token_valid refl

abbrev exchange : Exchange
exchange = record {
  is_http = true;
  skip_envelope = false;
  response_message = none;
  status_code = 200;
  headers_sent = false;
  url = "/ride-requests/100";
}
