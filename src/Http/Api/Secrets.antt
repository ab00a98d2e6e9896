-- ===== src/Http/Api/Secrets.antt =====
-- What the answers of the interface do not depend on: the response classes under src/ leave out the
-- passwords of accounts, the phone numbers of other users, and where documents are stored.
use reedri_end.Base.{
  ◌≡◌, refl, Bool, not, Option, none, some, List, [], ◌∷◌, map, arith, ◌==◌, ap, map_option,
  Option-cases, Bool-cases, inl, inr, ◌∙◌, sym, ◌⊎◌,
}
use reedri_end.Table.{find_first, find_many, any}
use reedri_end.Schema.{Uuid, Role, same_role, User, RideOffer, DriverDocument, StorageKey}
use reedri_end.World.{
  World, Result, ok, err, M, ◌>>=◌, ◌>>◌, pure, raise_if, forbidden, unauthorized, http, after,
  Failure,
}
use reedri_end.Users.{find_by_id}
use reedri_end.Offers.{find_request, driver_user_ids}
use reedri_end.RideRequests.{Included, load, can_view, find_one_for_user}
use reedri_end.Documents.{list_for_application}
use reedri_end.Applications.{
  find_application, find_by_id as find_application_by_id, list_documents_for_application,
}
use reedri_end.Access.{AuthenticatedUser, can_activate, validate, has_role}
use reedri_end.Http.{Claims, authenticate, enter_mode, enter_role}
use reedri_end.Http.Responses.{
  RideRequestResponse, ride_offer_response, ride_offer_responses, driver_document_response,
}
use reedri_end.Http.Journeys.{include_accounts, find_one}
use reedri_end.Http.Onboarding.{list_documents}

-- A change of accounts that keeps what a rider may see of a driver.
pub record IsDisguise (h : User → User) : Type 0 where
  pub id : (u : User) → (h u).id ≡ u.id
  pub name : (u : User) → (h u).name ≡ u.name
  pub rating : (u : User) → (h u).rating ≡ u.rating

abbrev pub disguise : (User → User) → World → World
disguise h w = record w { users = map h w.users }

find_first-map {ℓ} :
    {A : Type ℓ} (p : A → Bool) (h : A → A)
    → ((x : A) → p (h x) ≡ p x)
    → (xs : List A) → find_first p (map h xs) ≡ map_option h (find_first p xs)
unfolding find_first
find_first-map p h kept [] = refl
find_first-map p h kept (x ∷ xs) = ground (arith, kept x, find_first-map p h kept xs)

find_by_id-disguise :
    (h : User → User) (id : Uuid) (w : World)
    → ((u : User) → (h u).id ≡ u.id)
    → find_by_id id (disguise h w) ≡ map_option h (find_by_id id w)
find_by_id-disguise h id w kept =
    find_first-map (λ (u : User). u.id == id) h (λ u. ap (λ i. i == id) (kept u)) w.users

response-disguise :
    (h : User → User) (o : RideOffer) (u : User)
    → IsDisguise h
    → ride_offer_response o (h u) ≡ ride_offer_response o u
unfolding ride_offer_response
response-disguise h o u d = cc (d.id u, d.name u, d.rating u)

responses-disguise :
    (h : User → User) (w : World)
    → IsDisguise h
    → (offers : List RideOffer) (ids : List Uuid)
    → ride_offer_responses (disguise h w) offers ids ≡ ride_offer_responses w offers ids
unfolding ride_offer_responses
responses-disguise h w d [] ids = refl
responses-disguise h w d (o ∷ offers) [] = refl
responses-disguise h w d (o ∷ offers) (i ∷ ids) = elim (Option-cases (find_by_id i w)) [
  | inl missing ↦ ground (arith, missing, find_by_id-disguise h i w d.id)
  | inr (u, found) ↦ ground (
    arith,
    found,
    find_by_id-disguise h i w d.id,
    response-disguise h o u d,
    responses-disguise h w d offers ids,
  )
]

enter_any-disguise :
    (h : User → User) (token : Option Claims) (w : World)
    → enter_mode none token (disguise h w) ≡ ((enter_mode none token w).0, disguise h w)
unfolding enter_mode authenticate validate can_activate
enter_any-disguise h none w = refl
enter_any-disguise h (some c) w = elim (Option-cases c.sub) [
  | inl e ↦ ground (arith, e)
  | inr (u, eu) ↦ ground (arith, eu, Option-cases c.role)
]

load-disguise :
    (h : User → User) (id : Uuid) (w : World)
    → load id (disguise h w) ≡ ((load id w).0, disguise h w)
unfolding load
load-disguise h id w = elim (Option-cases (find_request id w.rides)) [
  | inl e ↦ ground (arith, e)
  | inr (r, e) ↦
      elim (Option-cases (
        driver_user_ids w.driver_profiles
          (find_many (λ (o : RideOffer). o.ride_request_id == id) w.ride_offers))) [
            | inl f ↦ ground (arith, e, f)
            | inr (us, f) ↦ ground (arith, e, f)
          ]
]

load-after : (id : Uuid) (w : World) → after (load id) w ≡ w
unfolding load
load-after id w = elim (Option-cases (find_request id w.rides)) [
  | inl e ↦ ground (arith, e)
  | inr (r, e) ↦
      elim (Option-cases (
        driver_user_ids w.driver_profiles
          (find_many (λ (o : RideOffer). o.ride_request_id == id) w.ride_offers))) [
            | inl f ↦ ground (arith, e, f)
            | inr (us, f) ↦ ground (arith, e, f)
          ]
]

viewed : (r : Result Included) (user_id : Uuid) → M Included
viewed r user_id = (λ v. (r, v)) >>= λ i.
    raise_if (not (can_view i user_id)) (http (forbidden "Forbidden")) >> pure i

viewed-disguise :
    (h : User → User) (r : Result Included) (user_id : Uuid) (w : World)
    → IsDisguise h
    → ((viewed r user_id >>= include_accounts) (disguise h w)).0
      ≡ ((viewed r user_id >>= include_accounts) w).0
unfolding viewed include_accounts
viewed-disguise h (err e) user_id w d = refl
viewed-disguise h (ok i) user_id w d = elim (Bool-cases (can_view i user_id)) [
  | inl seen ↦ ground (arith, seen, responses-disguise h w d i.offers i.offer_user_ids)
  | inr unseen ↦ ground (arith, unseen)
]

included :
    (id user_id : Uuid) (v : World)
    → (find_one_for_user id user_id >>= include_accounts) v
      ≡ (viewed (load id v).0 user_id >>= include_accounts) (after (load id) v)
unfolding find_one_for_user viewed
included id user_id v = refl

included-disguise :
    (h : User → User) (id user_id : Uuid) (w : World)
    → IsDisguise h
    → ((find_one_for_user id user_id >>= include_accounts) (disguise h w)).0
      ≡ ((find_one_for_user id user_id >>= include_accounts) w).0
included-disguise h id user_id w d =
    let k : Result Included × World → Result RideRequestResponse =
      λ p. ((viewed p.0 user_id >>= include_accounts) p.1).0 in
    ap (λ (p : Result RideRequestResponse × World). p.0) (included id user_id (disguise h w))
    ∙ ap k (load-disguise h id w)
    ∙ viewed-disguise h (load id w).0 user_id w d
    ∙ ap (λ v. k ((load id w).0, v)) (sym (load-after id w))
    ∙ ap (λ (p : Result RideRequestResponse × World). p.0) (sym (included id user_id w))

entered :
    (token : Option Claims) (w : World)
    → ((e : Failure) × ((enter_mode none token w) ≡ (err e, w)))
      ⊎ ((user : AuthenticatedUser) × (enter_mode none token w ≡ (ok user, w)))
unfolding enter_mode authenticate validate can_activate
entered none w = inl (_, refl)
entered (some c) w = elim (Option-cases c.sub) [
  | inl e ↦ inl (http (unauthorized "Unauthorized"), ground (arith, e))
  | inr (u, eu) ↦ elim (Option-cases c.role) [
    | inl e ↦ inl (http (unauthorized "Unauthorized"), ground (arith, eu, e))
    | inr (role, er) ↦ inr (record { user_id = u; role = role }, ground (arith, eu, er))
  ]
]

find_one-hides :
    (h : User → User) (token : Option Claims) (id : Uuid) (w : World)
    → IsDisguise h
    → (find_one token id (disguise h w)).0 ≡ (find_one token id w).0
unfolding find_one
find_one-hides h token id w d = elim (entered token w) [
  | inl (e, shut) ↦ ground (arith, shut, enter_any-disguise h token w)
  | inr (user, opened) ↦
      ground (arith, opened, enter_any-disguise h token w, included-disguise h id user.user_id w d)
]

-- A change of where documents are stored.
abbrev pub move_files : (DriverDocument → StorageKey) → World → World
move_files f w = record w {
  driver_documents =
      map (λ (d : DriverDocument). record d { storage_key = f d }) w.driver_documents;
}

moved_documents :
    (f : DriverDocument → StorageKey) (p : DriverDocument → Bool)
    → ((d : DriverDocument) → p (record d { storage_key = f d }) ≡ p d)
    → (ds : List DriverDocument)
    → map driver_document_response
        (find_many p (map (λ (d : DriverDocument). record d { storage_key = f d }) ds))
      ≡ map driver_document_response (find_many p ds)
unfolding find_many driver_document_response
moved_documents f p kept [] = refl
moved_documents f p kept (d ∷ ds) = elim (Bool-cases (p d)) [
  | inl hit ↦ ground (arith, hit, kept d, moved_documents f p kept ds)
  | inr miss ↦ ground (arith, miss, kept d, moved_documents f p kept ds)
]

entered_role :
    (token : Option Claims) (v w : World)
    → ((e : Failure) × (enter_role (Role.admin ∷ []) token v ≡ (err e, v))
        × (enter_role (Role.admin ∷ []) token w ≡ (err e, w)))
      ⊎ ((user : AuthenticatedUser) × (enter_role (Role.admin ∷ []) token v ≡ (ok user, v))
          × (enter_role (Role.admin ∷ []) token w ≡ (ok user, w)))
unfolding enter_role authenticate validate has_role any
entered_role none v w = inl (http (unauthorized "Unauthorized"), refl, refl)
entered_role (some c) v w = elim (Option-cases c.sub) [
  | inl e ↦ inl (http (unauthorized "Unauthorized"), ground (arith, e), ground (arith, e))
  | inr (u, eu) ↦ elim (Option-cases c.role) [
    | inl e ↦ inl (http (unauthorized "Unauthorized"), ground (arith, eu, e), ground (arith, eu, e))
    | inr (role, er) ↦ elim (Bool-cases (same_role role Role.admin)) [
      | inl hit ↦ inr (
        record { user_id = u; role = role },
        ground (arith, eu, er, hit),
        ground (arith, eu, er, hit),
      )
      | inr miss ↦ inl (
        http (forbidden "Forbidden resource"),
        ground (arith, eu, er, miss),
        ground (arith, eu, er, miss),
      )
    ]
  ]
]

list_documents-hides :
    (f : DriverDocument → StorageKey) (token : Option Claims) (id : Uuid) (w : World)
    → (list_documents token id (move_files f w)).0 ≡ (list_documents token id w).0
unfolding list_documents list_documents_for_application find_application_by_id list_for_application
list_documents-hides f token id w = elim (entered_role token (move_files f w) w) [
  | inl (e, there, here) ↦ ground (arith, there, here)
  | inr (user, there, here) ↦ elim (Option-cases (find_application id w)) [
    | inl missing ↦ ground (arith, there, here, missing)
    | inr (a, found) ↦ ground (
      arith,
      there,
      here,
      found,
      moved_documents f (λ (d : DriverDocument). d.driver_application_id == id) (λ d. refl)
          w.driver_documents,
    )
  ]
]

-- The answer to a reader of a ride request, whoever it is and whether it is given or refused, does
-- not depend on the password, phone number, role or mode of any account: with accounts that have
-- the same ids, names and ratings it is the same. And the list of documents that an administrator
-- gets, and the refusal that anyone else gets, do not depend on where the documents are stored.
pub answers-hide :
    (h : User → User) (f : DriverDocument → StorageKey) (token : Option Claims)
    (id application_id : Uuid) (w : World)
    → IsDisguise h
    → ((find_one token id (disguise h w)).0 ≡ (find_one token id w).0)
      × ((list_documents token application_id (move_files f w)).0
          ≡ (list_documents token application_id w).0)
answers-hide h f token id application_id w d =
    (find_one-hides h token id w d, list_documents-hides f token application_id w)
