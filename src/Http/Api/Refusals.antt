-- ===== src/Http/Api/Refusals.antt =====
-- What the guards refuse, for every route.
use reedri_end.Base.{
  ◌≡◌, true, Option, none, some, [], ◌∷◌, arith, if◌then◌else◌, Option-cases, Bool-cases, inl, inr,
}
use reedri_end.Table.{any}
use reedri_end.Schema.{Uuid, Role, ActiveProfile, same_role, same_profile, User}
use reedri_end.World.{World, HttpException, unauthorized, forbidden, http, err}
use reedri_end.Users.{find_by_id}
use reedri_end.Offers.{find_profile_of_user}
use reedri_end.Access.{can_activate, has_role, validate, switch_message}
use reedri_end.Http.{Claims, authenticate, enter_mode, enter_role}
use reedri_end.Http.Journeys.{
  nearby_drivers, create_ride_request, find_one, cancel_ride_request, start_trip, complete_trip,
  rate,
}
use reedri_end.Http.Onboarding.{
  start_application, get_application_status, post_personal_info, post_license, post_vehicle,
  post_optional_document, get_own_documents, list_applications, review_application, list_documents,
  download_document,
}
use reedri_end.Http.Accounts.{get_me, patch_active_profile, update_status, patch_location}
use reedri_end.Http.Api.{
  Server, Request, asks_registration, asks_login, asks_refresh, asks_logout, asks_code, asks_reset,
  asks_me, asks_mode, asks_status, asks_location, asks_ride, asks_map, asks_ride_request,
  asks_cancellation, asks_start, asks_completion, asks_rating, asks_application,
  asks_application_status, asks_own_documents, asks_personal_info, asks_license, asks_vehicle,
  asks_optional_document, asks_applications, asks_review, asks_documents, asks_file, serve,
}

-- Whom a route is for.
pub data Audience : Type 0 where
  everyone accounts administrators : Audience
  in_mode : ActiveProfile → Audience

abbrev pub audience : Request → Audience
audience (asks_registration name phone password) = everyone
audience (asks_login phone password) = everyone
audience (asks_refresh t) = everyone
audience (asks_logout t) = everyone
audience (asks_code phone) = everyone
audience (asks_reset phone code new_password) = everyone
audience (asks_status b) = in_mode ActiveProfile.driver
audience (asks_location lat lng) = in_mode ActiveProfile.driver
audience (asks_start id) = in_mode ActiveProfile.driver
audience (asks_completion id) = in_mode ActiveProfile.driver
audience (asks_ride dto) = in_mode ActiveProfile.rider
audience (asks_map at radius_km) = in_mode ActiveProfile.rider
audience (asks_applications status) = administrators
audience (asks_review id dto) = administrators
audience (asks_documents id) = administrators
audience (asks_file id) = administrators
audience _ = accounts

-- Why the user with an id is not let into a mode's routes.
abbrev pub mode_refusal : ActiveProfile → Uuid → World → Option HttpException
mode_refusal p u w = elim (find_by_id u w) [
  | none ↦ some (forbidden (switch_message p))
  | some row ↦
      if same_profile row.active_profile p
      then (elim p [
        | ActiveProfile.rider ↦ none
        | ActiveProfile.driver ↦ elim (find_profile_of_user u w) [
          | none ↦ some (forbidden "Complete driver verification first")
          | some profile ↦ none
        ]
      ])
      else some (forbidden (switch_message p))
]

-- Why a caller is refused, if so.
abbrev pub refusal : Audience → Option Claims → World → Option HttpException
refusal everyone token w = none
refusal _ none w = some (unauthorized "Unauthorized")
refusal a (some c) w = elim c.sub [
  | none ↦ some (unauthorized "Unauthorized")
  | some u ↦ elim c.role [
    | none ↦ some (unauthorized "Unauthorized")
    | some role ↦ elim a [
      | everyone ↦ none
      | accounts ↦ none
      | administrators ↦
          if same_role role Role.admin then none else some (forbidden "Forbidden resource")
      | in_mode p ↦ mode_refusal p u w
    ]
  ]
]

authenticate-refused :
    (token : Option Claims) (w : World) (e : HttpException)
    → refusal accounts token w ≡ some e
    → authenticate token w ≡ (err (http e), w)
unfolding authenticate validate
authenticate-refused none w e refused = ground (arith, refused)
authenticate-refused (some c) w e refused = elim (Option-cases c.sub) [
  | inl no_user ↦ ground (arith, no_user, refused)
  | inr (u, eu) ↦ elim (Option-cases c.role) [
    | inl no_role ↦ ground (arith, eu, no_role, refused)
    | inr (role, er) ↦ absurd (ground (arith, eu, er, refused))
  ]
]

enter_role-refused :
    (token : Option Claims) (w : World) (e : HttpException)
    → refusal administrators token w ≡ some e
    → enter_role (Role.admin ∷ []) token w ≡ (err (http e), w)
unfolding enter_role authenticate validate has_role any
enter_role-refused none w e refused = ground (arith, refused)
enter_role-refused (some c) w e refused = elim (Option-cases c.sub) [
  | inl no_user ↦ ground (arith, no_user, refused)
  | inr (u, eu) ↦ elim (Option-cases c.role) [
    | inl no_role ↦ ground (arith, eu, no_role, refused)
    | inr (role, er) ↦ elim (Bool-cases (same_role role Role.admin)) [
      | inl hit ↦ absurd (ground (arith, eu, er, hit, refused))
      | inr miss ↦ ground (arith, eu, er, miss, refused)
    ]
  ]
]

enter_any-refused :
    (token : Option Claims) (w : World) (e : HttpException)
    → refusal accounts token w ≡ some e
    → enter_mode none token w ≡ (err (http e), w)
unfolding enter_mode
enter_any-refused token w e refused = ground (arith, authenticate-refused token w e refused)

can_activate-refused :
    (p : ActiveProfile) (u : Uuid) (w : World) (e : HttpException)
    → mode_refusal p u w ≡ some e
    → can_activate (some p) (some u) w ≡ (err (http e), w)
unfolding can_activate
can_activate-refused p u w e refused = elim (Option-cases (find_by_id u w)) [
  | inl missing ↦ ground (arith, missing, refused)
  | inr (row, found) ↦ elim (Bool-cases (same_profile row.active_profile p)) [
    | inl same ↦ of_mode p row found same refused
    | inr other ↦ ground (arith, found, other, refused)
  ]
]
  where
    of_mode :
        (q : ActiveProfile) (row : User)
        → find_by_id u w ≡ some row
        → same_profile row.active_profile q ≡ true
        → mode_refusal q u w ≡ some e
        → can_activate (some q) (some u) w ≡ (err (http e), w)
    of_mode ActiveProfile.rider row found same h = absurd (ground (arith, found, same, h))
    of_mode ActiveProfile.driver row found same h = elim (Option-cases (find_profile_of_user u w)) [
      | inl no_profile ↦ ground (arith, found, same, no_profile, h)
      | inr (profile, there) ↦ absurd (ground (arith, found, same, there, h))
    ]

enter_mode-refused :
    (p : ActiveProfile) (token : Option Claims) (w : World) (e : HttpException)
    → refusal (in_mode p) token w ≡ some e
    → enter_mode (some p) token w ≡ (err (http e), w)
unfolding enter_mode authenticate validate
enter_mode-refused p none w e refused = ground (arith, refused)
enter_mode-refused p (some c) w e refused = elim (Option-cases c.sub) [
  | inl no_user ↦ ground (arith, no_user, refused)
  | inr (u, eu) ↦ elim (Option-cases c.role) [
    | inl no_role ↦ ground (arith, eu, no_role, refused)
    | inr (role, er) ↦
        let why : mode_refusal p u w ≡ some e = ground (arith, eu, er, refused) in
        ground (arith, eu, er, can_activate-refused p u w e why)
  ]
]

-- A request that the decorators of its route do not let through, since there is no valid token,
-- since the user is no administrator, or since the user is in the other mode or has no profile of
-- a driver, throws the exception that goes with the reason and changes nothing at all, whatever
-- the arguments of the request are.
pub serve-refused :
    (s : Server) (token : Option Claims) (q : Request) (w : World) (e : HttpException)
    → refusal (audience q) token w ≡ some e
    → serve s token q w ≡ (err (http e), w)
unfolding serve get_me patch_active_profile update_status patch_location nearby_drivers
    create_ride_request find_one cancel_ride_request start_trip complete_trip rate start_application
    get_application_status post_personal_info post_license post_vehicle post_optional_document
    get_own_documents list_applications review_application list_documents download_document
serve-refused s token (asks_registration name phone password) w e h = absurd (ground (arith, h))
serve-refused s token (asks_login phone password) w e h = absurd (ground (arith, h))
serve-refused s token (asks_refresh t) w e h = absurd (ground (arith, h))
serve-refused s token (asks_logout t) w e h = absurd (ground (arith, h))
serve-refused s token (asks_code phone) w e h = absurd (ground (arith, h))
serve-refused s token (asks_reset phone code new_password) w e h = absurd (ground (arith, h))
serve-refused s token asks_me w e h = ground (arith, authenticate-refused token w e h)
serve-refused s token (asks_mode p) w e h = ground (arith, authenticate-refused token w e h)
serve-refused s token (asks_status b) w e h =
    ground (arith, enter_mode-refused ActiveProfile.driver token w e h)
serve-refused s token (asks_location lat lng) w e h =
    ground (arith, enter_mode-refused ActiveProfile.driver token w e h)
serve-refused s token (asks_ride dto) w e h =
    ground (arith, enter_mode-refused ActiveProfile.rider token w e h)
serve-refused s token (asks_map at radius_km) w e h =
    ground (arith, enter_mode-refused ActiveProfile.rider token w e h)
serve-refused s token (asks_ride_request id) w e h = ground (arith, enter_any-refused token w e h)
serve-refused s token (asks_cancellation id reason) w e h =
    ground (arith, enter_any-refused token w e h)
serve-refused s token (asks_start id) w e h =
    ground (arith, enter_mode-refused ActiveProfile.driver token w e h)
serve-refused s token (asks_completion id) w e h =
    ground (arith, enter_mode-refused ActiveProfile.driver token w e h)
serve-refused s token (asks_rating id dto) w e h = ground (arith, enter_any-refused token w e h)
serve-refused s token asks_application w e h = ground (arith, authenticate-refused token w e h)
serve-refused s token asks_application_status w e h =
    ground (arith, authenticate-refused token w e h)
serve-refused s token asks_own_documents w e h = ground (arith, authenticate-refused token w e h)
serve-refused s token (asks_personal_info dto) w e h =
    ground (arith, authenticate-refused token w e h)
serve-refused s token (asks_license dto none) w e h =
    ground (arith, authenticate-refused token w e h)
serve-refused s token (asks_license dto (some image)) w e h =
    ground (arith, authenticate-refused token w e h)
serve-refused s token (asks_vehicle dto files) w e h =
    ground (arith, authenticate-refused token w e h)
serve-refused s token (asks_optional_document t none) w e h =
    ground (arith, authenticate-refused token w e h)
serve-refused s token (asks_optional_document t (some upload)) w e h =
    ground (arith, authenticate-refused token w e h)
serve-refused s token (asks_applications status) w e h =
    ground (arith, enter_role-refused token w e h)
serve-refused s token (asks_review id dto) w e h = ground (arith, enter_role-refused token w e h)
serve-refused s token (asks_documents id) w e h = ground (arith, enter_role-refused token w e h)
serve-refused s token (asks_file id) w e h = ground (arith, enter_role-refused token w e h)
