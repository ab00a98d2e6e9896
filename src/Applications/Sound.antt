-- ===== src/Applications/Sound.antt =====
-- What holds of applications, drivers' profiles and documents at all times, and how the status of
-- an application may move.
use reedri_end.Base.{
  ◌≡◌, refl, not, true, none, some, List, [], ◌∷◌, ◌++◌, arith, ◌==◌, if◌then◌else◌, Bool-cases,
  inl, inr, subst, ◌∙◌, sym, ==→eq, ==_refl, All, All-append, All-mono, All-both, ap,
}
use reedri_end.Table.{find_first, update_many, IsUnique}
use reedri_end.Table.Laws.{
  find_first-All, find_first-update_many, find_first-append, find_first-none_of, IsUnique-append,
  IsUnique-update_many, All-update_many, All-of-find_first, found_eq,
}
use reedri_end.Schema.{
  Uuid, Time, DriverDocumentType, DriverApplicationStatus, DriverApplication, DriverProfile,
}
use reedri_end.World.{World}
use reedri_end.Storage.{Storage}
use reedri_end.Applications.{
  Review, same_status, is_submitted, application_clash, find_application, with_approval,
}
use reedri_end.Applications.Documented.{Keeps, IsDocumented}
use reedri_end.Applications.Closure.{Allowed, Call, Stays, IsClosed}
use reedri_end.Applications.Calls.{perform_all, perform_all-closed}

-- The application of a profile is there, is the same user's, and is verified.
pub record IsVerifiedFor (p : DriverProfile) (apps : List DriverApplication) : Type 0 where
  pub application : DriverApplication
  pub found :
      find_first (λ (a : DriverApplication). a.id == p.driver_application_id) apps
      ≡ some application
  pub own : application.user_id ≡ p.user_id
  pub is_verified : application.status ≡ DriverApplicationStatus.verified

pub record IsSound (w : World) : Type 0 where
  pub ids : IsUnique (λ (a : DriverApplication). a.id) w.driver_applications
  pub profiles : All (λ p. IsVerifiedFor p w.driver_applications) w.driver_profiles
  pub documented :
      All
        (λ (a : DriverApplication).
          is_submitted a.status ≡ true → IsDocumented a.id w.driver_documents)
        w.driver_applications

Keeps-IsDocumented :
    (w v : World) (i : Uuid)
    → Keeps w v
    → IsDocumented i w.driver_documents
    → IsDocumented i v.driver_documents
Keeps-IsDocumented w v i k d = (
  k.documents i DriverDocumentType.drivers_license d.0,
  k.documents i DriverDocumentType.vehicle_registration d.1,
  k.documents i DriverDocumentType.vehicle_photo d.2,
)

Keeps-IsSound : (w v : World) → Keeps w v → IsSound w → IsSound v
Keeps-IsSound w v k h = record {
  ids = subst (IsUnique (λ (a : DriverApplication). a.id)) (sym k.applications) h.ids;
  profiles =
      subst (λ apps. All (λ p. IsVerifiedFor p apps) v.driver_profiles) (sym k.applications)
        (subst (All (λ p. IsVerifiedFor p w.driver_applications)) (sym k.profiles) h.profiles);
  documented =
      subst
        (All (λ (a : DriverApplication).
          is_submitted a.status ≡ true → IsDocumented a.id v.driver_documents))
        (sym k.applications)
        (All-mono
          (λ (a : DriverApplication).
            is_submitted a.status ≡ true → IsDocumented a.id w.driver_documents)
          (λ (a : DriverApplication).
            is_submitted a.status ≡ true → IsDocumented a.id v.driver_documents)
          (λ a f s. Keeps-IsDocumented w v a.id k (f s)) w.driver_applications h.documented);
}

append-IsSound :
    (w : World) (a : DriverApplication)
    → find_first (application_clash a) w.driver_applications ≡ none
    → a.status ≡ DriverApplicationStatus.not_started
    → IsSound w
    → IsSound (record w { driver_applications = w.driver_applications ++ a ∷ [] })
append-IsSound w a fresh new h = record {
  ids =
      IsUnique-append (λ (x : DriverApplication). x.id) w.driver_applications a h.ids
        (find_first-none_of (application_clash a) (λ (x : DriverApplication). x.id == a.id)
          w.driver_applications (λ x hit. ground (arith, hit)) fresh);
  profiles =
      All-mono (λ p. IsVerifiedFor p w.driver_applications)
        (λ p. IsVerifiedFor p (w.driver_applications ++ a ∷ []))
        (λ p v. record {
          application = v.application;
          found =
              find_first-append (λ (x : DriverApplication). x.id == p.driver_application_id)
                w.driver_applications (a ∷ [])
              ∙ ground (arith, v.found);
          own = v.own;
          is_verified = v.is_verified;
        })
        w.driver_profiles h.profiles;
  documented =
      All-append _ w.driver_applications (a ∷ []) h.documented ((λ s. ground (arith, s, new)), tt);
}

module _ (w : World) (a : DriverApplication) (f : DriverApplication → DriverApplication)
    (ids_kept : (x : DriverApplication) → (f x).id ≡ x.id)
    (users_kept : (x : DriverApplication) → (f x).user_id ≡ x.user_id)
    (found : find_application a.id w ≡ some a) where
  abbrev moved : List DriverApplication
  moved = update_many (λ (x : DriverApplication). x.id == a.id) f w.driver_applications

  pub found_moved :
      (i : Uuid) (b : DriverApplication)
      → find_application i w ≡ some b
      → find_first (λ (x : DriverApplication). x.id == i) moved
        ≡ some (if b.id == a.id then f b else b)
  found_moved i b e =
      find_first-update_many (λ (x : DriverApplication). x.id == i)
        (λ (x : DriverApplication). x.id == a.id) f w.driver_applications
        (λ x. ap (λ k. k == i) (ids_kept x))
      ∙ ground (arith, e)

  pub is_moved :
      (i : Uuid) (b : DriverApplication)
      → IsUnique (λ (x : DriverApplication). x.id) w.driver_applications
      → find_application i w ≡ some b
      → (b.id == a.id) ≡ true
      → b ≡ a
  is_moved i b u e hit =
      found_eq (λ (x : DriverApplication). x.id) (λ (x : DriverApplication). x.id == i)
        (λ (x : DriverApplication). x.id == a.id) w.driver_applications b a u e found
        (==→eq b.id a.id hit)

  moved_with_documents :
      (is_submitted (f a).status ≡ true → IsDocumented a.id w.driver_documents)
      → IsSound w
      → All
          (λ (x : DriverApplication).
            is_submitted x.status ≡ true → IsDocumented x.id w.driver_documents)
          moved
  moved_with_documents doc h =
      All-update_many
        (λ (x : DriverApplication).
          (find_application x.id w ≡ some x)
          × (is_submitted x.status ≡ true → IsDocumented x.id w.driver_documents))
        (λ (x : DriverApplication).
          is_submitted x.status ≡ true → IsDocumented x.id w.driver_documents)
        (λ (x : DriverApplication). x.id == a.id) f
        (λ x both hit s.
          subst (λ i. IsDocumented i w.driver_documents) (sym (ids_kept x ∙ ==→eq x.id a.id hit))
            (doc (
              subst (λ (y : DriverApplication). is_submitted (f y).status ≡ true)
                (is_moved x.id x h.ids both.0 hit) s)))
        (λ x both miss. both.1) w.driver_applications
        (All-both _ _ _ (λ x p q. (p, q)) w.driver_applications
          (All-of-find_first (λ (x : DriverApplication). find_application x.id w ≡ some x)
            (λ (x : DriverApplication). x.id) w.driver_applications h.ids (λ x e. e))
          h.documented)

  profiles_moved :
      ((b : DriverApplication)
        → b ≡ a
        → b.status ≡ DriverApplicationStatus.verified
        → (f b).status ≡ DriverApplicationStatus.verified)
      → IsSound w
      → All (λ p. IsVerifiedFor p moved) w.driver_profiles
  profiles_moved stays h =
      All-mono (λ p. IsVerifiedFor p w.driver_applications) (λ p. IsVerifiedFor p moved)
        (λ p v. record {
          application = if v.application.id == a.id then f v.application else v.application;
          found = found_moved p.driver_application_id v.application v.found;
          own = ground (arith, users_kept v.application, v.own);
          is_verified = elim (Bool-cases (v.application.id == a.id)) [
            | inl hit ↦ rw hit (
                stays v.application
                  (is_moved p.driver_application_id v.application h.ids v.found hit) v.is_verified)
            | inr miss ↦ rw miss v.is_verified
          ];
        })
        w.driver_profiles h.profiles

  move-IsSound :
      ((b : DriverApplication)
        → b ≡ a
        → b.status ≡ DriverApplicationStatus.verified
        → (f b).status ≡ DriverApplicationStatus.verified)
      → (is_submitted (f a).status ≡ true → IsDocumented a.id w.driver_documents)
      → IsSound w
      → IsSound (record w { driver_applications = moved })
  move-IsSound stays doc h = record {
    ids =
        IsUnique-update_many (λ (x : DriverApplication). x.id)
          (λ (x : DriverApplication). x.id == a.id) f w.driver_applications ids_kept h.ids;
    profiles = profiles_moved stays h;
    documented = moved_with_documents doc h;
  }

of_submitted :
    (w : World) (a : DriverApplication)
    → find_application a.id w ≡ some a
    → is_submitted a.status ≡ true
    → IsSound w
    → IsDocumented a.id w.driver_documents
of_submitted w a found sent h =
    find_first-All
      (λ (x : DriverApplication).
        is_submitted x.status ≡ true → IsDocumented x.id w.driver_documents)
      (λ (x : DriverApplication). x.id == a.id) w.driver_applications a h.documented found sent

approve-IsSound :
    (w : World) (a : DriverApplication) (now : Time) (p : DriverProfile)
    → find_application a.id w ≡ some a
    → a.status ≡ DriverApplicationStatus.under_review
    → p.user_id ≡ a.user_id
    → p.driver_application_id ≡ a.id
    → IsSound w
    → IsSound (record w {
      driver_applications =
          update_many
            (λ (x : DriverApplication). x.id == a.id)
            (with_approval now)
            w.driver_applications;
      driver_profiles = w.driver_profiles ++ p ∷ [];
    })
approve-IsSound w a now p found in_review user app h =
    let apps : List DriverApplication =
      moved w a (with_approval now) (λ x. refl) (λ x. refl) found in
    let m : IsSound (record w { driver_applications = apps }) =
      move-IsSound w a (with_approval now) (λ x. refl) (λ x. refl) found (λ b e v. refl)
        (λ s. of_submitted w a found (ground (arith, in_review)) h) h in
    record {
      ids = m.ids;
      profiles =
          All-append (λ q. IsVerifiedFor q apps) w.driver_profiles (p ∷ []) m.profiles
            (
              record {
                application = with_approval now a;
                found =
                    subst
                      (λ i.
                        find_first (λ (x : DriverApplication). x.id == i) apps
                        ≡ some (with_approval now a))
                      (sym app)
                      (found_moved w a (with_approval now) (λ x. refl) (λ x. refl) found a.id a
                          found
                        ∙ ground (arith, ==_refl a.id));
                own = sym user;
                is_verified = refl;
              },
              tt,
            );
      documented = m.documented;
    }

-- A verified application does not move.
abbrev unverified : Allowed
unverified id user_id s t = not (same_status s DriverApplicationStatus.verified)

pub edges_unverified : (c : Call) → Stays unverified c
edges_unverified (Call.reviewed i Review.verified) id u s t e = ground (arith, e)
edges_unverified (Call.reviewed i (Review.rejected reason)) id u s t e = ground (arith, e)
edges_unverified (Call.started v) id u s t e = ground (arith, e)
edges_unverified (Call.personal_info v dto) id u s t e = ground (arith, e)
edges_unverified (Call.license v dto file) id u s t e = ground (arith, e)
edges_unverified (Call.vehicle v dto files) id u s t e = ground (arith, e)
edges_unverified (Call.optional_document v k file) id u s t e = absurd (ground (arith, e))

pub IsSound-closed : IsClosed unverified IsSound
IsSound-closed = record {
  unique = λ w h. h.ids;
  keeps = Keeps-IsSound;
  append = append-IsSound;
  move = λ w a f ids users found moves doc h.
      move-IsSound w a f ids users found (λ b e v. ground (arith, e, v, moves)) doc h;
  approve = λ w a now p found in_review allowed user app h.
      approve-IsSound w a now p found in_review user app h;
}

-- Whatever calls are made, in whatever order and whether they return or throw, on sound tables:
-- ids of applications are unique, the application of every driver's profile is there, is the same
-- user's and is verified, and every application that is under review or verified has a document
-- of each required type.
pub perform_all-IsSound :
    (storage : Storage) (cs : List Call) (w : World)
    → IsSound w
    → IsSound (perform_all storage cs w)
perform_all-IsSound storage cs w h =
    perform_all-closed storage unverified IsSound IsSound-closed cs w edges_unverified h
