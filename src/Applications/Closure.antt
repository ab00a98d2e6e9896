-- ===== src/Applications/Closure.antt =====
-- The calls on applications, with the moves that each may make, and a rule for what holds after
-- any of them: what uploads, a new application, a move of one application and an approval preserve.
use reedri_end.Base.{
  ◌≡◌, ◌&&◌, List, Bool, true, false, none, some, [], ◌∷◌, ◌++◌, arith, ◌==◌, Option-cases, inl,
  inr, subst, sym, ==→eq,
}
use reedri_end.Table.{find_first, update_many, IsUnique}
use reedri_end.Table.Laws.{find_first-accepted, find_first-key}
use reedri_end.Documents.{UploadableFile}
use reedri_end.Schema.{
  Uuid, Time, DriverDocumentType, DriverApplicationStatus, DriverApplication, DriverProfile,
}
use reedri_end.World.{World, after, ok, M, ◌>>=◌}
use reedri_end.World.Rules.{>>=-after}
use reedri_end.Applications.{
  SubmitPersonalInfo, SubmitLicense, SubmitVehicle, Review, same_status, is_submitted,
  application_clash, find_application, update_application, with_approval, find_by_user_id,
  load_editable,
}
use reedri_end.Applications.Documented.{Keeps, IsDocumented}

-- A step of the application is open for submission.
abbrev pub is_editable : DriverApplicationStatus → Bool
is_editable DriverApplicationStatus.not_started = true
is_editable DriverApplicationStatus.personal_info_submitted = true
is_editable DriverApplicationStatus.license_submitted = true
is_editable DriverApplicationStatus.vehicle_submitted = true
is_editable _ = false

-- A call of the service, with its arguments.
pub data Call : Type 0 where
  started : Uuid → Call
  personal_info : Uuid → SubmitPersonalInfo → Call
  license : Uuid → SubmitLicense → UploadableFile → Call
  vehicle : Uuid → SubmitVehicle → List (DriverDocumentType × UploadableFile) → Call
  optional_document : Uuid → DriverDocumentType → UploadableFile → Call
  reviewed : Uuid → Review → Call

-- Which moves of an application are meant: its id, its user, and its status before and after.
abbrev pub Allowed : Type 0
Allowed = (id user_id : Uuid) → (before later : DriverApplicationStatus) → Bool

-- The one move that a call may make, and of which application.
abbrev pub edge : Call → Allowed
edge (Call.started u) id user_id s t =
    user_id == u
    && (same_status s DriverApplicationStatus.rejected
        && same_status t DriverApplicationStatus.not_started)
edge (Call.personal_info u dto) id user_id s t =
    user_id == u && (is_editable s && same_status t DriverApplicationStatus.personal_info_submitted)
edge (Call.license u dto file) id user_id s t =
    user_id == u && (is_editable s && same_status t DriverApplicationStatus.license_submitted)
edge (Call.vehicle u dto files) id user_id s t =
    user_id == u && (is_editable s && same_status t DriverApplicationStatus.under_review)
edge (Call.optional_document u t file) id user_id s r = false
edge (Call.reviewed i (Review.rejected reason)) id user_id s t =
    id == i
    && (same_status s DriverApplicationStatus.under_review
        && same_status t DriverApplicationStatus.rejected)
edge (Call.reviewed i Review.verified) id user_id s t =
    id == i
    && (same_status s DriverApplicationStatus.under_review
        && same_status t DriverApplicationStatus.verified)

-- A call moves only as is allowed.
abbrev pub Stays : Allowed → Call → Type 0
Stays allowed c =
    (id user_id : Uuid) (s t : DriverApplicationStatus)
    → edge c id user_id s t ≡ true
    → allowed id user_id s t ≡ true

-- What the calls preserve, where an application moves only as is allowed.
pub record IsClosed (allowed : Allowed) (P : World → Type 0) : Type 0 where
  pub unique : (w : World) → P w → IsUnique (λ (x : DriverApplication). x.id) w.driver_applications
  pub keeps : (w v : World) → Keeps w v → P w → P v
  pub append :
      (w : World) (a : DriverApplication)
      → find_first (application_clash a) w.driver_applications ≡ none
      → a.status ≡ DriverApplicationStatus.not_started
      → P w
      → P (record w { driver_applications = w.driver_applications ++ a ∷ [] })
  pub move :
      (w : World) (a : DriverApplication) (f : DriverApplication → DriverApplication)
      → ((x : DriverApplication) → (f x).id ≡ x.id)
      → ((x : DriverApplication) → (f x).user_id ≡ x.user_id)
      → find_application a.id w ≡ some a
      → allowed a.id a.user_id a.status (f a).status ≡ true
      → (is_submitted (f a).status ≡ true → IsDocumented a.id w.driver_documents)
      → P w
      → P (record w {
        driver_applications =
            update_many (λ (x : DriverApplication). x.id == a.id) f w.driver_applications;
      })
  pub approve :
      (w : World) (a : DriverApplication) (now : Time) (p : DriverProfile)
      → find_application a.id w ≡ some a
      → a.status ≡ DriverApplicationStatus.under_review
      → allowed a.id a.user_id a.status DriverApplicationStatus.verified ≡ true
      → p.user_id ≡ a.user_id
      → p.driver_application_id ≡ a.id
      → P w
      → P (record w {
        driver_applications =
            update_many
              (λ (x : DriverApplication). x.id == a.id)
              (with_approval now)
              w.driver_applications;
        driver_profiles = w.driver_profiles ++ p ∷ [];
      })

pub find_by_user_id-ok :
    (user_id : Uuid) (a : DriverApplication) (w : World)
    → (find_by_user_id user_id w).0 ≡ ok a
    → find_first (λ (x : DriverApplication). x.user_id == user_id) w.driver_applications ≡ some a
unfolding find_by_user_id
find_by_user_id-ok user_id a w e = ground (
  arith,
  e,
  Option-cases (find_first (λ (x : DriverApplication). x.user_id == user_id) w.driver_applications),
)

load_editable-ok :
    (user_id : Uuid) (a : DriverApplication) (w : World)
    → (load_editable user_id w).0 ≡ ok a
    → (find_first (λ (x : DriverApplication). x.user_id == user_id) w.driver_applications ≡ some a)
      × (is_editable a.status ≡ true)
unfolding load_editable find_by_user_id
load_editable-ok user_id a w e = ground (
  arith,
  e,
  Option-cases (find_first (λ (x : DriverApplication). x.user_id == user_id) w.driver_applications),
)

load_editable-after : (user_id : Uuid) (w : World) → after (load_editable user_id) w ≡ w
unfolding load_editable find_by_user_id
load_editable-after user_id w = ground (
  arith,
  Option-cases (find_first (λ (x : DriverApplication). x.user_id == user_id) w.driver_applications),
)

module _ (allowed : Allowed) (P : World → Type 0) (closed : IsClosed allowed P) where
  pub update-closed :
      (w : World) (i : Uuid) (f : DriverApplication → DriverApplication)
      → ((x : DriverApplication) → (f x).id ≡ x.id)
      → ((x : DriverApplication) → (f x).user_id ≡ x.user_id)
      → ((a : DriverApplication)
          → find_application i w ≡ some a
          → (allowed a.id a.user_id a.status (f a).status ≡ true)
            × (is_submitted (f a).status ≡ true → IsDocumented i w.driver_documents))
      → P w
      → P (after (update_application i f) w)
  unfolding update_application
  update-closed w i f ids users moves h = elim (Option-cases (find_application i w)) [
    | inl e ↦ rw (e, after) h
    | inr (a, e) ↦
        let own : a.id ≡ i =
          ==→eq a.id i (
            find_first-accepted (λ (x : DriverApplication). x.id == i) w.driver_applications a e) in
        rw (e, after)
          (subst
            (λ k. P (record w {
              driver_applications =
                  update_many (λ (x : DriverApplication). x.id == k) f w.driver_applications;
            }))
            own
            (closed.move w a f ids users (subst (λ k. find_application k w ≡ some a) (sym own) e)
              (moves a e).0
              (λ s. subst (λ k. IsDocumented k w.driver_documents) (sym own) ((moves a e).1 s)) h))
  ]

  -- An application that is open for submission moves by a step.
  pub submit-closed :
      (w : World) (a : DriverApplication) (f : DriverApplication → DriverApplication)
      → ((x : DriverApplication) → (f x).id ≡ x.id)
      → ((x : DriverApplication) → (f x).user_id ≡ x.user_id)
      → find_application a.id w ≡ some a
      → allowed a.id a.user_id a.status (f a).status ≡ true
      → (is_submitted (f a).status ≡ true → IsDocumented a.id w.driver_documents)
      → P w
      → P (after (update_application a.id f) w)
  submit-closed w a f ids users found moves documented h =
      update-closed w a.id f ids users
        (λ b e.
          subst
            (λ (x : DriverApplication).
              (allowed x.id x.user_id x.status (f x).status ≡ true)
              × (is_submitted (f x).status ≡ true → IsDocumented a.id w.driver_documents))
            (cc (found, e)) (moves, documented))
        h

  own_found :
      (w : World) (user_id : Uuid) (a : DriverApplication)
      → P w
      → find_first (λ (x : DriverApplication). x.user_id == user_id) w.driver_applications ≡ some a
      → find_application a.id w ≡ some a
  own_found w user_id a h e =
      find_first-key (λ (x : DriverApplication). x.id)
        (λ (x : DriverApplication). x.user_id == user_id) w.driver_applications a
        (closed.unique w h) e

  -- After an application is loaded for a step.
  pub load_editable-closed {ℓ} :
      {A : Type ℓ} (user_id : Uuid) (k : DriverApplication → M A) (w : World)
      → P w
      → ((a : DriverApplication)
          → find_application a.id w ≡ some a
          → (a.user_id == user_id) ≡ true
          → is_editable a.status ≡ true
          → P (after (k a) w))
      → P (after (load_editable user_id >>= k) w)
  load_editable-closed user_id k w h next =
      >>=-after P (load_editable user_id) k w (subst P (sym (load_editable-after user_id w)) h)
        λ a e.
          subst (λ v. P (after (k a) v)) (sym (load_editable-after user_id w))
            (next a (own_found w user_id a h (load_editable-ok user_id a w e).0)
              (find_first-accepted (λ (x : DriverApplication). x.user_id == user_id)
                w.driver_applications a (load_editable-ok user_id a w e).0)
              (load_editable-ok user_id a w e).1)
