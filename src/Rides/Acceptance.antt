-- ===== src/Rides/Acceptance.antt =====
-- The transaction of an acceptance (`$transaction` of `acceptOffer` in
-- src/offers/offers.service.ts): what it needs of the trips, and what it leaves.
use reedri_end.Base.{
  ◌≡◌, refl, none, some, List, [], ◌∷◌, ◌++◌, ◌==◌, map_option, arith, ==_refl, subst, sym, ◌∙◌,
}
use reedri_end.Table.{find_first, update_many, create}
use reedri_end.Table.Laws.{
  find_first-update_many, find_first-accepted, find_first-append, find_first-none_of,
}
use reedri_end.Schema.{RideRequestStatus, OfferStatus, RideRequest, RideOffer, Trip}
use reedri_end.World.{Rides}
use reedri_end.Offers.{
  find_offer, find_request, is_other_pending, trip_clash, accept_transaction, set_request_status,
  set_offer_status,
}
use reedri_end.RideRequests.{find_trip_of}
use reedri_end.Rides.{request_status}

-- What the transaction of an acceptance leaves of the ride request, the offer and the trip.
pub record IsAccepted (o : RideOffer) (trip : Trip) (v : Rides) : Type 0 where
  pub request_matched : request_status o.ride_request_id v ≡ some RideRequestStatus.matched
  pub offer_accepted_now : find_offer o.id v ≡ some (set_offer_status OfferStatus.accepted o)
  pub trip_there : find_trip_of o.ride_request_id v ≡ some trip

pub accept_transaction-written :
    (o : RideOffer) (trip : Trip) (s t : Rides)
    → accept_transaction o trip s ≡ some t
    → (find_first (trip_clash trip) s.trips ≡ none)
      × (t ≡ record s {
        ride_offers =
            update_many (is_other_pending o) (set_offer_status OfferStatus.expired) (
              update_many
                (λ x. x.id == o.id)
                (set_offer_status OfferStatus.accepted)
                s.ride_offers);
        ride_requests =
            update_many
              (λ r. r.id == o.ride_request_id)
              (set_request_status RideRequestStatus.matched)
              s.ride_requests;
        trips = s.trips ++ trip ∷ [];
      })
unfolding accept_transaction create
accept_transaction-written o trip s t e = ground arith

pub request_matched_now :
    (o : RideOffer) (r : RideRequest) (s : Rides)
    → find_request o.ride_request_id s ≡ some r
    → map_option
        (λ (x : RideRequest). x.status)
        (find_first
          (λ (x : RideRequest). x.id == o.ride_request_id)
          (update_many
            (λ x. x.id == o.ride_request_id)
            (set_request_status RideRequestStatus.matched)
            s.ride_requests))
      ≡ some RideRequestStatus.matched
request_matched_now o r s er =
    rw
      (find_first-update_many (λ (x : RideRequest). x.id == o.ride_request_id)
        (λ x. x.id == o.ride_request_id) (set_request_status RideRequestStatus.matched)
        s.ride_requests (λ x. refl))
      (ground (
        arith,
        er,
        find_first-accepted (λ (x : RideRequest). x.id == o.ride_request_id) s.ride_requests r er,
      ))

module _ (o : RideOffer) (r : RideRequest) (trip : Trip) (s t : Rides)
    (eo : find_offer o.id s ≡ some o) (er : find_request o.ride_request_id s ≡ some r)
    (own : trip.ride_request_id ≡ o.ride_request_id)
    (done : accept_transaction o trip s ≡ some t) where
  abbrev first_update : List RideOffer
  first_update =
      update_many (λ x. x.id == o.id) (set_offer_status OfferStatus.accepted) s.ride_offers

  offer_first :
      find_first (λ (x : RideOffer). x.id == o.id) first_update
      ≡ some (set_offer_status OfferStatus.accepted o)
  offer_first =
      find_first-update_many (λ (x : RideOffer). x.id == o.id) (λ x. x.id == o.id)
        (set_offer_status OfferStatus.accepted) s.ride_offers (λ x. refl)
      ∙ ground (arith, eo, ==_refl o.id)

  offer_second :
      find_first
        (λ (x : RideOffer). x.id == o.id)
        (update_many (is_other_pending o) (set_offer_status OfferStatus.expired) first_update)
      ≡ some (set_offer_status OfferStatus.accepted o)
  offer_second =
      find_first-update_many (λ (x : RideOffer). x.id == o.id) (is_other_pending o)
        (set_offer_status OfferStatus.expired) first_update (λ x. refl)
      ∙ ground (arith, offer_first)

  pub no_trip_before : find_trip_of o.ride_request_id s ≡ none
  no_trip_before =
      find_first-none_of (trip_clash trip) (λ (x : Trip). x.ride_request_id == o.ride_request_id)
        s.trips (λ x e. ground (arith, e, own)) (accept_transaction-written o trip s t done).0

  trip_appended :
      find_first (λ (x : Trip). x.ride_request_id == o.ride_request_id) (s.trips ++ trip ∷ [])
      ≡ some trip
  unfolding find_first
  trip_appended =
      find_first-append (λ (x : Trip). x.ride_request_id == o.ride_request_id) s.trips (trip ∷ [])
      ∙ ground (arith, no_trip_before, own)

  pub accept_transaction-IsAccepted : IsAccepted o trip t
  accept_transaction-IsAccepted =
      subst (IsAccepted o trip) (sym (accept_transaction-written o trip s t done).1) (record {
        request_matched = request_matched_now o r s er;
        offer_accepted_now = offer_second;
        trip_there = trip_appended;
      })
