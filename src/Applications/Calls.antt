-- ===== src/Applications/Calls.antt =====
-- The other calls on applications, and any sequence of calls.
use reedri_end.Base.{
  suc, ◌≡◌, refl, true, Option, none, some, List, [], ◌∷◌, ◌++◌, arith, ◌==◌, Option-cases,
  Bool-cases, inl, inr, subst, sym, ==→eq, ==_refl,
}
use reedri_end.Table.{find_first, update_many, create}
use reedri_end.Table.Laws.{find_first-key, find_first-accepted}
use reedri_end.Schema.{
  Uuid, Time, DriverApplicationStatus, DriverDocumentType, DriverApplication, DriverProfile,
}
use reedri_end.World.{World, after, unique_violation, pure}
use reedri_end.World.Rules.{write-after}
use reedri_end.Storage.{Storage}
use reedri_end.Documents.{UploadableFile, upload}
use reedri_end.Applications.{
  has_type, optional_document_types, same_status, is_submitted, Review, new_application,
  application_clash, find_application, insert_application, restarted, with_rejection, with_approval,
  new_profile, find_by_user_id, find_by_id, start_from, start, submit_personal_info,
  approve_transaction, decide, review, submit_license, submit_vehicle, upload_optional_document,
}
use reedri_end.Applications.Documented.{Keeps, upload-Keeps}
use reedri_end.Applications.Closure.{Call, Allowed, Stays, IsClosed, submit-closed}
use reedri_end.Applications.Closed.{
  submit_personal_info-closed, submit_license-closed, submit_vehicle-closed,
}

-- The state that a call leaves, whether it returned or threw.
unfoldable pub perform : Storage → Call → World → World
perform storage (Call.started u) w = after (start u) w
perform storage (Call.personal_info u dto) w = after (submit_personal_info u dto) w
perform storage (Call.license u dto file) w = after (submit_license storage u dto file) w
perform storage (Call.vehicle u dto files) w = after (submit_vehicle storage u dto files) w
perform storage (Call.optional_document u t file) w =
    after (upload_optional_document storage u t file) w
perform storage (Call.reviewed i decision) w = after (review i decision) w

unfoldable pub perform_all : Storage → List Call → World → World
perform_all storage [] w = w
perform_all storage (c ∷ cs) w = perform_all storage cs (perform storage c w)

insert_application-appended :
    (a : DriverApplication) (w v : World)
    → insert_application a w ≡ some v
    → (v ≡ record w { driver_applications = w.driver_applications ++ a ∷ [] })
      × (find_first (application_clash a) w.driver_applications ≡ none)
unfolding insert_application create
insert_application-appended a w v e = ground arith

approve_transaction-written :
    (a : DriverApplication) (now : Time) (p : DriverProfile) (w v : World)
    → approve_transaction a now p w ≡ some v
    → v ≡ record w {
      driver_applications =
          update_many
            (λ (x : DriverApplication). x.id == a.id)
            (with_approval now)
            w.driver_applications;
      driver_profiles = w.driver_profiles ++ p ∷ [];
    }
unfolding approve_transaction create
approve_transaction-written a now p w v e = ground arith

-- The state after an identifier was drawn.
abbrev drawn : World → World
drawn w = record w { random = λ n. w.random (suc n) }

drawn-Keeps : (w : World) → Keeps w (drawn w)
drawn-Keeps w = record { applications = refl; profiles = refl; documents = λ i t h. h }

module _ (storage : Storage) (allowed : Allowed) (P : World → Type 0)
    (closed : IsClosed allowed P) where
  start_from-closed :
      (user_id : Uuid) (o : Option DriverApplication) (w : World)
      → find_first (λ (x : DriverApplication). x.user_id == user_id) w.driver_applications ≡ o
      → Stays allowed (Call.started user_id)
      → P w
      → P (after (start_from user_id o) w)
  unfolding start_from
  start_from-closed user_id none w e stays h =
      write-after P unique_violation (insert_application (new_application (w.random 0) user_id))
        (pure (new_application (w.random 0) user_id)) (drawn w)
        (closed.keeps w (drawn w) (drawn-Keeps w) h)
        λ v written.
          let (shape, fresh) =
            insert_application-appended (new_application (w.random 0) user_id) (drawn w) v
              written in
          subst P (sym shape) (
            closed.append (drawn w) (new_application (w.random 0) user_id) fresh refl
              (closed.keeps w (drawn w) (drawn-Keeps w) h))
  start_from-closed user_id (some a) w e stays h = elim (Bool-cases (is_submitted a.status)) [
    | inl sent ↦ rw (sent, after) h
    | inr unsent ↦ elim (Bool-cases (same_status a.status DriverApplicationStatus.rejected)) [
      | inl was_rejected ↦
          rw (unsent, was_rejected, after)
            (submit-closed allowed P closed w a restarted (λ x. refl) (λ x. refl)
              (find_first-key (λ (x : DriverApplication). x.id)
                (λ (x : DriverApplication). x.user_id == user_id) w.driver_applications a
                (closed.unique w h) e)
              (stays a.id a.user_id a.status DriverApplicationStatus.not_started (
                ground (
                  arith,
                  was_rejected,
                  find_first-accepted (λ (x : DriverApplication). x.user_id == user_id)
                      w.driver_applications a e,
                )))
              (λ s. ground (arith, s)) h)
      | inr other ↦ rw (unsent, other, after) h
    ]
  ]

  start-closed :
      (user_id : Uuid) (w : World)
      → Stays allowed (Call.started user_id)
      → P w
      → P (after (start user_id) w)
  unfolding start
  start-closed user_id w stays h = start_from-closed user_id _ w refl stays h

  upload_optional_document-closed :
      (user_id : Uuid) (t : DriverDocumentType) (file : UploadableFile) (w : World)
      → P w
      → P (after (upload_optional_document storage user_id t file) w)
  unfolding upload_optional_document find_by_user_id
  upload_optional_document-closed user_id t file w h =
      elim (Bool-cases (has_type t optional_document_types)) [
        | inl optional ↦
            elim (Option-cases (
              find_first (λ (x : DriverApplication). x.user_id == user_id) w.driver_applications)) [
                | inl e ↦
                    let same : after (upload_optional_document storage user_id t file) w ≡ w =
                      ground (arith, optional, e) in
                    subst P (sym same) h
                | inr (a, e) ↦
                    let same : after (upload_optional_document storage user_id t file) w
                        ≡ after (upload storage a.id t file) w =
                      ground (arith, optional, e) in
                    subst P (sym same) (closed.keeps w _ (upload-Keeps storage a.id t file w) h)
              ]
        | inr other ↦ rw (other, after) h
      ]

  decide-closed :
      (a : DriverApplication) (decision : Review) (w : World)
      → find_application a.id w ≡ some a
      → same_status a.status DriverApplicationStatus.under_review ≡ true
      → Stays allowed (Call.reviewed a.id decision)
      → P w
      → P (after (decide a decision) w)
  unfolding decide
  decide-closed a (Review.rejected reason) w found in_review stays h =
      submit-closed allowed P closed w a (with_rejection reason w.now) (λ x. refl) (λ x. refl) found
        (stays a.id a.user_id a.status DriverApplicationStatus.rejected
          (ground (arith, in_review, ==_refl a.id)))
        (λ s. ground (arith, s)) h
  decide-closed a Review.verified w found in_review stays h =
      write-after P unique_violation (approve_transaction a w.now (new_profile (w.random 0) a))
        (pure (with_approval w.now a)) (drawn w) (closed.keeps w (drawn w) (drawn-Keeps w) h)
        λ v written.
          subst P
            (sym (
              approve_transaction-written a w.now (new_profile (w.random 0) a) (drawn w) v written))
            (closed.approve (drawn w) a w.now (new_profile (w.random 0) a) found
              (ground (arith, in_review))
              (stays a.id a.user_id a.status DriverApplicationStatus.verified
                (ground (arith, in_review, ==_refl a.id)))
              refl refl (closed.keeps w (drawn w) (drawn-Keeps w) h))

  review-closed :
      (i : Uuid) (decision : Review) (w : World)
      → Stays allowed (Call.reviewed i decision)
      → P w
      → P (after (review i decision) w)
  unfolding review find_by_id
  review-closed i decision w stays h = elim (Option-cases (find_application i w)) [
    | inl e ↦ let same : after (review i decision) w ≡ w = ground (arith, e) in subst P (sym same) h
    | inr (a, e) ↦ elim (Bool-cases (same_status a.status DriverApplicationStatus.under_review)) [
      | inl in_review ↦
          let same : after (review i decision) w ≡ after (decide a decision) w =
            ground (arith, e, in_review) in
          subst P (sym same) (
            decide-closed a decision w
              (find_first-key (λ (x : DriverApplication). x.id)
                (λ (x : DriverApplication). x.id == i) w.driver_applications a (closed.unique w h)
                e)
              in_review
              (subst (λ k. Stays allowed (Call.reviewed k decision))
                (sym (
                  ==→eq a.id i (
                    find_first-accepted (λ (x : DriverApplication). x.id == i) w.driver_applications
                      a e)))
                stays)
              h)
      | inr other ↦
          let same : after (review i decision) w ≡ w = ground (arith, e, other) in
          subst P (sym same) h
    ]
  ]

  pub perform-closed : (c : Call) (w : World) → Stays allowed c → P w → P (perform storage c w)
  unfolding perform
  perform-closed (Call.started u) w stays h = start-closed u w stays h
  perform-closed (Call.personal_info u dto) w stays h =
      submit_personal_info-closed storage allowed P closed u dto w stays h
  perform-closed (Call.license u dto file) w stays h =
      submit_license-closed storage allowed P closed u dto file w stays h
  perform-closed (Call.vehicle u dto files) w stays h =
      submit_vehicle-closed storage allowed P closed u dto files w stays h
  perform-closed (Call.optional_document u t file) w stays h =
      upload_optional_document-closed u t file w h
  perform-closed (Call.reviewed i decision) w stays h = review-closed i decision w stays h

  pub perform_all-closed :
      (cs : List Call) (w : World)
      → ((c : Call) → Stays allowed c)
      → P w
      → P (perform_all storage cs w)
  unfolding perform_all
  perform_all-closed [] w stays h = h
  perform_all-closed (c ∷ cs) w stays h =
      perform_all-closed cs (perform storage c w) stays (perform-closed c w (stays c) h)
