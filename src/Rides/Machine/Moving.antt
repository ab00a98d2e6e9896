-- ===== src/Rides/Machine/Moving.antt =====
-- A ride that appears, and one that moves on with its trip, as moves of the machine.
use reedri_end.Base.{
  ◌≡◌, true, false, Option, none, some, [], ◌∷◌, ◌++◌, ◌==◌, map_option, is_some, if◌then◌else◌,
  arith, ==→eq, ==_refl, ap, sym, subst, Option-cases, Bool-cases, inl, inr, ◌∙◌,
}
use reedri_end.Table.{find_first, create}
use reedri_end.Table.Laws.{find_first-append, find_first-accepted}
use reedri_end.Schema.{Uuid, RideRequestStatus, is_open_request, RideRequest, Trip}
use reedri_end.World.{Rides}
use reedri_end.Offers.{find_request, set_request_status}
use reedri_end.RideRequests.{insert_request, find_trip_of}
use reedri_end.Trips.{find_trip, trip_transaction}
use reedri_end.Rides.{IsConsistent, request_status, agree}
use reedri_end.Rides.Keep.{request_of_moved, trip_of_moved, own_trip_at, same_trip}
use reedri_end.Rides.Machine.{Deal, Ride, deal_of, ride, in_phase, Moves, stays, appears}

-- A move between rides that are equal to the ones that a constructor names.
pub moves : {a b c d : Ride} → a ≡ c → b ≡ d → Moves c d → Moves a b
moves {a} {b} {c} {d} ea eb m = subst (λ x. Moves x b) (sym ea) (subst (Moves c) (sym eb) m)

pub stays_at : {a b : Ride} → b ≡ a → Moves a b
stays_at {a} {b} e = subst (Moves a) (sym e) (stays a)

pub ride_is :
    (k : Uuid) (s : Rides) (x : Option RideRequestStatus) (y : Option Deal)
    → request_status k s ≡ x
    → map_option deal_of (find_trip_of k s) ≡ y
    → ride k s ≡ record { status = x; deal = y }
ride_is k s x y ex ey = cc (ex, ey)

module _ (s : Rides) (h : IsConsistent s) (k : Uuid) where
  -- A write that touches neither ride requests nor trips.
  pub untouched :
      (t : Rides)
      → t.ride_requests ≡ s.ride_requests
      → t.trips ≡ s.trips
      → Moves (ride k s) (ride k t)
  untouched t er et = stays_at (cc (er, et))

  pub no_deal : is_some (find_request k s) ≡ false → map_option deal_of (find_trip_of k s) ≡ none
  no_deal missing = elim (Option-cases (find_trip_of k s)) [
    | inl e ↦ ground (arith, e)
    | inr (u, eu) ↦
        absurd (ground (arith, h.statuses k, eu, missing, Option-cases (find_request k s)))
  ]

  pub open_no_deal :
      (r : RideRequest)
      → find_request k s ≡ some r
      → is_open_request r.status ≡ true
      → map_option deal_of (find_trip_of k s) ≡ none
  open_no_deal r er open_now = elim (Option-cases (find_trip_of k s)) [
    | inl e ↦ ground (arith, e)
    | inr (u, eu) ↦ absurd (ground (arith, h.statuses k, eu, er, open_now))
  ]

  pub inserted :
      (r : RideRequest) (t : Rides)
      → r.status ≡ RideRequestStatus.pending
      → insert_request r s ≡ some t
      → Moves (ride k s) (ride k t)
  unfolding insert_request create find_first
  inserted r t new done =
      let requests : t.ride_requests ≡ s.ride_requests ++ r ∷ [] = ground (arith, done) in
      let trips : t.trips ≡ s.trips = ground (arith, done) in
      let found : find_request k t ≡ (
          if is_some (find_request k s)
          then find_request k s
          else find_first (λ (x : RideRequest). x.id == k) (r ∷ [])) =
        ap (find_first (λ (x : RideRequest). x.id == k)) requests
        ∙ find_first-append (λ (x : RideRequest). x.id == k) s.ride_requests (r ∷ []) in
      elim (Option-cases (find_request k s)) [
        | inr (x, ex) ↦ stays_at (ground (arith, found, ex, trips))
        | inl missing ↦ elim (Bool-cases (r.id == k)) [
          | inr other ↦ stays_at (ground (arith, found, missing, other, trips))
          | inl hit ↦
              moves
                (ride_is k s none none (ground (arith, missing))
                  (no_deal (ground (arith, missing))))
                (ride_is k t (some RideRequestStatus.pending) none
                  (ground (arith, found, missing, hit, new))
                  (ap
                      (λ l.
                        map_option deal_of (find_first (λ (x : Trip). x.ride_request_id == k) l))
                      trips
                    ∙ no_deal (ground (arith, missing))))
                appears
        ]
      ]

  -- A trip and its ride request move on together.
  module _ (trip : Trip) (found : find_trip trip.id s ≡ some trip) (f : Trip → Trip)
      (from to : RideRequestStatus) (id_kept : (t : Trip) → (f t).id ≡ t.id)
      (request_kept : (t : Trip) → (f t).ride_request_id ≡ t.ride_request_id)
      (in_step : agree (some to) (some (f trip).status) ≡ true)
      (open_no_more : is_open_request to ≡ false)
      (comes_from : (x : Option RideRequestStatus)
        → agree x (some trip.status) ≡ true
        → x ≡ some from)
      (deal_kept : deal_of (f trip) ≡ deal_of trip)
      (move : (d : Deal) → Moves (in_phase from (some d)) (in_phase to (some d))) where
    abbrev pub moved_rides : Rides
    moved_rides = trip_transaction f to trip.id trip.ride_request_id s

    moved_request :
        find_request k moved_rides
        ≡ map_option
            (λ (r : RideRequest).
              if r.id == trip.ride_request_id then set_request_status to r else r)
            (find_request k s)
    moved_request = request_of_moved s h trip found f to id_kept request_kept in_step open_no_more k

    moved_trip :
        find_trip_of k moved_rides
        ≡ map_option (λ (t : Trip). if t.id == trip.id then f t else t) (find_trip_of k s)
    moved_trip = trip_of_moved s h trip found f to id_kept request_kept in_step open_no_more k

    same_key : (r : RideRequest) → find_request k s ≡ some r → r.id ≡ k
    same_key r er =
        ==→eq r.id k (find_first-accepted (λ (x : RideRequest). x.id == k) s.ride_requests r er)

    others_stay : (k == trip.ride_request_id) ≡ false → ride k moved_rides ≡ ride k s
    others_stay other =
        ride_is k moved_rides (request_status k s) (map_option deal_of (find_trip_of k s))
          (elim (Option-cases (find_request k s)) [
            | inl e ↦ ground (arith, moved_request, e)
            | inr (r, er) ↦ ground (arith, moved_request, er, same_key r er, other)
          ])
          (elim (Option-cases (find_trip_of k s)) [
            | inl e ↦ ground (arith, moved_trip, e)
            | inr (u, eu) ↦ ground (
              arith,
              moved_trip,
              eu,
              other,
              same_trip s h trip found f to id_kept request_kept in_step open_no_more k u eu,
              find_first-accepted (λ (x : Trip). x.ride_request_id == k) s.trips u eu,
            )
          ])

    pub moved : Moves (ride k s) (ride k moved_rides)
    moved = elim (Bool-cases (k == trip.ride_request_id)) [
      | inr other ↦ stays_at (others_stay other)
      | inl own ↦
          let et : find_trip_of k s ≡ some trip =
            own_trip_at s h trip found f to id_kept request_kept in_step open_no_more k own in
          let before : request_status k s ≡ some from =
            comes_from (request_status k s) (ground (arith, h.statuses k, et)) in
          moves (ride_is k s (some from) (some (deal_of trip)) before (ground (arith, et)))
            (ride_is k moved_rides (some to) (some (deal_of trip))
              (elim (Option-cases (find_request k s)) [
                | inl e ↦ absurd (ground (arith, before, e))
                | inr (r, er) ↦ ground (arith, moved_request, er, same_key r er, own)
              ])
              (ground (arith, moved_trip, et, ==_refl trip.id, deal_kept)))
            (move (deal_of trip))
    ]
