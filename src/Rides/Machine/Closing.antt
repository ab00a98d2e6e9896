-- ===== src/Rides/Machine/Closing.antt =====
-- An acceptance and a cancellation as moves of the machine.
use reedri_end.Base.{
  ◌≡◌, refl, true, ◌||◌, Option, none, some, [], ◌∷◌, ◌++◌, ◌==◌, map_option, String, is_some,
  if◌then◌else◌, arith, ==→eq, ap, sym, subst, Option-cases, Bool-cases, inl, inr, ◌∙◌,
}
use reedri_end.Table.{find_first, update_many, create}
use reedri_end.Table.Laws.{find_first-update_many, find_first-append, find_first-accepted}
use reedri_end.Schema.{
  Uuid, Time, RideRequestStatus, is_open_request, is_matched_request, RideRequest, RideOffer, Trip,
}
use reedri_end.World.{Rides}
use reedri_end.Offers.{find_request, accept_transaction, set_request_status}
use reedri_end.RideRequests.{find_trip_of, cancel_transaction}
use reedri_end.Rides.{IsConsistent, request_status}
use reedri_end.Rides.KeepCancel.{request_of_cancelled, trip_of_cancelled}
use reedri_end.Rides.Machine.{deal_of, ride, Moves, agrees, gives_up, calls_off}
use reedri_end.Rides.Machine.Moving.{moves, stays_at, ride_is, open_no_deal}

module _ (s : Rides) (h : IsConsistent s) (k : Uuid) where
  pub accepted :
      (o : RideOffer) (r : RideRequest) (trip : Trip) (t : Rides)
      → find_request o.ride_request_id s ≡ some r
      → is_open_request r.status ≡ true
      → trip.ride_request_id ≡ o.ride_request_id
      → accept_transaction o trip s ≡ some t
      → Moves (ride k s) (ride k t)
  unfolding accept_transaction create find_first
  accepted o r trip t er open_now own done =
      let requests : t.ride_requests
          ≡ update_many (λ (x : RideRequest). x.id == o.ride_request_id)
              (set_request_status RideRequestStatus.matched) s.ride_requests =
        ground (arith, done) in
      let trips : t.trips ≡ s.trips ++ trip ∷ [] = ground (arith, done) in
      let request : find_request k t
          ≡ map_option
              (λ (x : RideRequest).
                if x.id == o.ride_request_id
                then set_request_status RideRequestStatus.matched x
                else x)
              (find_request k s) =
        ap (find_first (λ (x : RideRequest). x.id == k)) requests
        ∙ find_first-update_many (λ (x : RideRequest). x.id == k)
            (λ (x : RideRequest). x.id == o.ride_request_id)
            (set_request_status RideRequestStatus.matched) s.ride_requests (λ x. refl) in
      let trip_now : find_trip_of k t ≡ (
          if is_some (find_trip_of k s)
          then find_trip_of k s
          else find_first (λ (x : Trip). x.ride_request_id == k) (trip ∷ [])) =
        ap (find_first (λ (x : Trip). x.ride_request_id == k)) trips
        ∙ find_first-append (λ (x : Trip). x.ride_request_id == k) s.trips (trip ∷ []) in
      elim (Bool-cases (k == o.ride_request_id)) [
        | inr other ↦ stays_at (
            ride_is k t (request_status k s) (map_option deal_of (find_trip_of k s))
              (elim (Option-cases (find_request k s)) [
                | inl e ↦ ground (arith, request, e)
                | inr (x, ex) ↦ ground (
                  arith,
                  request,
                  ex,
                  other,
                  find_first-accepted (λ (y : RideRequest). y.id == k) s.ride_requests x ex,
                )
              ])
              (elim (Option-cases (find_trip_of k s)) [
                | inl e ↦ ground (arith, trip_now, e, own, other)
                | inr (u, eu) ↦ ground (arith, trip_now, eu)
              ]))
        | inl hit ↦
            let here : find_request k s ≡ some r =
              subst (λ i. find_request i s ≡ some r) (sym (==→eq k o.ride_request_id hit)) er in
            let none_yet : map_option deal_of (find_trip_of k s) ≡ none =
              open_no_deal s h k r here open_now in
            moves
              (ride_is k s (some RideRequestStatus.pending) none (ground (arith, here, open_now))
                none_yet)
              (ride_is k t (some RideRequestStatus.matched) (some (deal_of trip))
                (ground (
                  arith,
                  request,
                  here,
                  hit,
                  find_first-accepted (λ (y : RideRequest). y.id == k) s.ride_requests r here,
                ))
                (elim (Option-cases (find_trip_of k s)) [
                  | inl e ↦ ground (arith, trip_now, e, own, hit)
                  | inr (u, eu) ↦ absurd (ground (arith, none_yet, eu))
                ]))
              (agrees (deal_of trip))
      ]

  pub cancelled :
      (i : Uuid) (r : RideRequest) (reason : Option String) (now : Time)
      → (found : find_request i s ≡ some r)
      → (active : (is_open_request r.status || is_matched_request r.status) ≡ true)
      → Moves (ride k s) (ride k (cancel_transaction i (find_trip_of i s) reason now s))
  cancelled i r reason now found active =
      let t : Rides = cancel_transaction i (find_trip_of i s) reason now s in
      let request = request_of_cancelled s h i r reason now found active k in
      let trip_now = trip_of_cancelled s h i r reason now found active k in
      elim (Bool-cases (k == i)) [
        | inr other ↦ stays_at (
            ride_is k t (request_status k s) (map_option deal_of (find_trip_of k s))
              (elim (Option-cases (find_request k s)) [
                | inl e ↦ ground (arith, request, e)
                | inr (x, ex) ↦ ground (
                  arith,
                  request,
                  ex,
                  other,
                  find_first-accepted (λ (y : RideRequest). y.id == k) s.ride_requests x ex,
                )
              ])
              (elim (Option-cases (find_trip_of k s)) [
                | inl e ↦ ground (arith, trip_now, e)
                | inr (u, eu) ↦ ground (arith, trip_now, eu, other)
              ]))
        | inl hit ↦
            let here : find_request k s ≡ some r =
              subst (λ j. find_request j s ≡ some r) (sym (==→eq k i hit)) found in
            let now_cancelled : request_status k t ≡ some RideRequestStatus.cancelled = ground (
              arith,
              request,
              here,
              hit,
              find_first-accepted (λ (y : RideRequest). y.id == k) s.ride_requests r here,
            ) in
            elim (Option-cases (find_trip_of k s)) [
              | inl e ↦
                  moves
                    (ride_is k s (some RideRequestStatus.pending) none
                      (ground (arith, h.statuses k, here, e, active)) (ground (arith, e)))
                    (ride_is k t (some RideRequestStatus.cancelled) none now_cancelled
                      (ground (arith, trip_now, e)))
                    gives_up
              | inr (u, eu) ↦
                  moves
                    (ride_is k s (some RideRequestStatus.matched) (some (deal_of u))
                      (ground (arith, h.statuses k, here, eu, active)) (ground (arith, eu)))
                    (ride_is k t (some RideRequestStatus.cancelled) (some (deal_of u)) now_cancelled
                      (ground (arith, trip_now, eu, hit)))
                    (calls_off (deal_of u))
            ]
      ]
