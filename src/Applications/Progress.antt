-- ===== src/Applications/Progress.antt =====
-- How the status of an application moves over any sequence of calls.
use reedri_end.Base.{
  ◌≡◌, ◌⊎◌, refl, true, some, List, [], ◌∷◌, arith, ◌==◌, if◌then◌else◌, Bool-cases, inl, inr,
  subst, ◌∙◌, sym, ==→eq,
}
use reedri_end.Table.{update_many}
use reedri_end.Table.Laws.{find_first-append, find_first-accepted}
use reedri_end.Schema.{Uuid, DriverApplicationStatus, DriverApplication}
use reedri_end.World.{World}
use reedri_end.Storage.{Storage}
use reedri_end.Applications.{Review, find_application, with_approval}
use reedri_end.Applications.Closure.{Call, IsClosed, edge}
use reedri_end.Applications.Calls.{perform, perform_all, perform-closed}
use reedri_end.Applications.Sound.{IsSound, IsSound-closed, found_moved, is_moved, edges_unverified}

-- The status after each call: it is what it was, or the call has made the one move that it may make
-- of this application.
abbrev pub Walks : (id user_id : Uuid) → List Call → (s t : DriverApplicationStatus) → Type 0
Walks id user_id [] s t = t ≡ s
Walks id user_id (c ∷ cs) s t =
    (m : DriverApplicationStatus) × ((m ≡ s) ⊎ (edge c id user_id s m ≡ true))
    × Walks id user_id cs m t

-- The application with an id is still there, is the same user's, and has come to its status so.
pub record HasProgressed (cs : List Call) (i user_id : Uuid) (s : DriverApplicationStatus)
    (v : World) : Type 0 where
  pub application : DriverApplication
  pub found : find_application i v ≡ some application
  pub own : application.user_id ≡ user_id
  pub path : Walks i user_id cs s application.status

-- A call that has made its move and makes it again.
edge_again :
    (c : Call) (i u : Uuid) (s m t : DriverApplicationStatus)
    → edge c i u s m ≡ true
    → edge c i u m t ≡ true
    → edge c i u s t ≡ true
edge_again (Call.reviewed j Review.verified) i u s m t first next = ground (arith, first, next)
edge_again (Call.reviewed j (Review.rejected reason)) i u s m t first next =
    ground (arith, first, next)
edge_again (Call.started v) i u s m t first next = ground (arith, first, next)
edge_again (Call.personal_info v dto) i u s m t first next = ground (arith, first, next)
edge_again (Call.license v dto file) i u s m t first next = ground (arith, first, next)
edge_again (Call.vehicle v dto files) i u s m t first next = ground (arith, first, next)
edge_again (Call.optional_document v k file) i u s m t first next = first

module _ (c : Call) (i user_id : Uuid) (s : DriverApplicationStatus) where
  -- After a part of a call.
  pub record HasStepped (v : World) : Type 0 where
    pub sound : IsSound v
    pub application : DriverApplication
    pub found : find_application i v ≡ some application
    pub own : application.user_id ≡ user_id
    pub step : (application.status ≡ s) ⊎ (edge c i user_id s application.status ≡ true)

  stepped :
      (m t : DriverApplicationStatus)
      → (m ≡ s) ⊎ (edge c i user_id s m ≡ true)
      → edge c i user_id m t ≡ true
      → edge c i user_id s t ≡ true
  stepped m t (inl same) next = subst (λ x. edge c i user_id x t ≡ true) same next
  stepped m t (inr first) next = edge_again c i user_id s m t first next

  move-step :
      (w : World) (a : DriverApplication) (f : DriverApplication → DriverApplication)
      (ids : (x : DriverApplication) → (f x).id ≡ x.id)
      (users : (x : DriverApplication) → (f x).user_id ≡ x.user_id)
      (found : find_application a.id w ≡ some a)
      → edge c a.id a.user_id a.status (f a).status ≡ true
      → (h : HasStepped w)
      → let b = if h.application.id == a.id then f h.application else h.application in
        (find_application i (record w {
          driver_applications =
              update_many (λ (x : DriverApplication). x.id == a.id) f w.driver_applications;
        })
          ≡ some b)
        × (b.user_id ≡ user_id)
        × ((b.status ≡ s) ⊎ (edge c i user_id s b.status ≡ true))
  move-step w a f ids users found allowed h =
      let there = found_moved w a f ids users found i h.application h.found in
      elim (Bool-cases (h.application.id == a.id)) [
        | inr miss ↦ rw miss (rw miss at there, h.own, h.step)
        | inl hit ↦
            let same : h.application ≡ a =
              is_moved w a f ids users found i h.application h.sound.ids h.found hit in
            let at : h.application.id ≡ i = ==→eq h.application.id i (
              find_first-accepted (λ (x : DriverApplication). x.id == i) w.driver_applications
                h.application h.found) in
            let next : edge c h.application.id h.application.user_id h.application.status
                  (f h.application).status
                ≡ true =
              subst (λ (x : DriverApplication). edge c x.id x.user_id x.status (f x).status ≡ true)
                (sym same) allowed in
            let mine : edge c i user_id h.application.status (f h.application).status ≡ true =
              subst (λ k. edge c k user_id h.application.status (f h.application).status ≡ true) at
                (subst
                  (λ u.
                    edge c h.application.id u h.application.status (f h.application).status ≡ true)
                  h.own next) in
            rw hit (
              rw hit at there,
              users h.application ∙ h.own,
              inr (stepped h.application.status (f h.application).status h.step mine),
            )
      ]

  HasStepped-closed : IsClosed (edge c) HasStepped
  HasStepped-closed = record {
    unique = λ w h. h.sound.ids;
    keeps = λ w v k h. record {
      sound = IsSound-closed.keeps w v k h.sound;
      application = h.application;
      found = rw k.applications h.found;
      own = h.own;
      step = h.step;
    };
    append = λ w a fresh new h. record {
      sound = IsSound-closed.append w a fresh new h.sound;
      application = h.application;
      found =
          find_first-append (λ (x : DriverApplication). x.id == i) w.driver_applications (a ∷ [])
          ∙ ground (arith, h.found);
      own = h.own;
      step = h.step;
    };
    move = λ w a f ids users found allowed doc h.
        let (there, own, step) = move-step w a f ids users found allowed h in
        record {
          sound =
              IsSound-closed.move w a f ids users found
                (edges_unverified c a.id a.user_id a.status (f a).status allowed) doc h.sound;
          application = if h.application.id == a.id then f h.application else h.application;
          found = there;
          own = own;
          step = step;
        };
    approve = λ w a now p found in_review allowed user app h.
        let (there, own, step) =
          move-step w a (with_approval now) (λ x. refl) (λ x. refl) found allowed h in
        record {
          sound =
              IsSound-closed.approve w a now p found in_review
                (edges_unverified c a.id a.user_id a.status DriverApplicationStatus.verified
                  allowed)
                user app h.sound;
          application =
              if h.application.id == a.id then with_approval now h.application else h.application;
          found = there;
          own = own;
          step = step;
        };
  }

perform_all-path :
    (storage : Storage) (cs : List Call) (i : Uuid) (a : DriverApplication) (w : World)
    → IsSound w
    → find_application i w ≡ some a
    → HasProgressed cs i a.user_id a.status (perform_all storage cs w)
unfolding perform_all
perform_all-path storage [] i a w sound found = record {
  application = a;
  found = found;
  own = refl;
  path = refl;
}
perform_all-path storage (c ∷ cs) i a w sound found =
    let h : HasStepped c i a.user_id a.status (perform storage c w) =
      perform-closed storage (edge c) (HasStepped c i a.user_id a.status)
        (HasStepped-closed c i a.user_id a.status) c w (λ j u s t e. e)
        (record { sound = sound; application = a; found = found; own = refl; step = inl refl }) in
    let rest = perform_all-path storage cs i h.application (perform storage c w) h.sound h.found in
    record {
      application = rest.application;
      found = rest.found;
      own = rest.own ∙ h.own;
      path = (
        h.application.status,
        h.step,
        subst (λ u. Walks i u cs h.application.status rest.application.status) h.own rest.path,
      );
    }

verified_stays :
    (i u : Uuid) (cs : List Call) (s t : DriverApplicationStatus)
    → Walks i u cs s t
    → s ≡ DriverApplicationStatus.verified
    → t ≡ DriverApplicationStatus.verified
verified_stays i u [] s t same e = same ∙ e
verified_stays i u (c ∷ cs) s t (m, inl same, rest) e = verified_stays i u cs m t rest (same ∙ e)
verified_stays i u (c ∷ cs) s t (m, inr moved, rest) e =
    absurd (ground (arith, edges_unverified c i u s m moved, e))

-- Whatever calls are made on sound tables, an application stays with its user, and each call leaves
-- its status as it is or makes the one move that is meant for it: a step of the user's own
-- application, while it is open for submission, a review of this application, while it is under
-- review, and a restart by its user, when it was rejected. A verified application stays verified.
pub perform_all-HasProgressed :
    (storage : Storage) (cs : List Call) (i : Uuid) (a : DriverApplication) (w : World)
    → IsSound w
    → find_application i w ≡ some a
    → HasProgressed cs i a.user_id a.status (perform_all storage cs w)
      × (a.status ≡ DriverApplicationStatus.verified
          → (b : DriverApplication) × (find_application i (perform_all storage cs w) ≡ some b)
            × (b.status ≡ DriverApplicationStatus.verified))
perform_all-HasProgressed storage cs i a w sound found =
    let h = perform_all-path storage cs i a w sound found in
    (
      h,
      λ v. (
        h.application,
        h.found,
        verified_stays i a.user_id cs a.status h.application.status h.path v,
      ),
    )
