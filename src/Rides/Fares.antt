-- ===== src/Rides/Fares.antt =====
-- The fares in the tables of rides: what each write does to them (src/offers/offers.service.ts,
-- src/ride-requests/ride-requests.service.ts and src/trips/trips.service.ts).
pub mod Kept
use reedri_end.Base.{
  ℕ, ◌≤◌, ◌≡◌, refl, true, Option, none, some, List, [], ◌∷◌, ◌++◌, String, arith, sym, subst, inl,
  inr, Bool, Bool-cases, Option-cases, All, All-append, ◌==◌, ◌&&◌,
}
use reedri_end.Table.{create, update_many}
use reedri_end.Table.Laws.{find_first-All, create-appended, All-update_many}
use reedri_end.Schema.{
  Uuid, Time, Fare, RideRequest, RideOffer, Trip, RideRequestStatus, OfferStatus, is_pending_offer,
}
use reedri_end.World.{Rides}
use reedri_end.Offers.{
  insert_offer, renew_offer, expire_one, expire_of_driver, accept_transaction, offer_clash,
  trip_clash, set_offer_status, set_request_status, is_other_pending,
}
use reedri_end.RideRequests.{insert_request, cancel_transaction, request_clash}
use reedri_end.Trips.{trip_transaction}

module _ {ℓ} {A : Type ℓ} (P : A → Type 0) where
  updated :
      (q : A → Bool) (f : A → A) (xs : List A)
      → ((x : A) → P x → P (f x))
      → All P xs
      → All P (update_many q f xs)
  updated q f xs keep h = All-update_many P P q f (λ x good e. keep x good) (λ x good e. good) xs h

  created :
      (clash : A → A → Bool) (x : A) (xs ys : List A)
      → create clash x xs ≡ some ys
      → P x
      → All P xs
      → All P ys
  created clash x xs ys e new h =
      subst (All P) (sym (create-appended clash x xs ys e).0) (All-append P xs (x ∷ []) h (new, tt))

-- Every fare that was suggested, offered or agreed on is positive.
pub record HasFares (s : Rides) : Type 0 where
  pub suggested : All (λ (r : RideRequest). 1 ≤ r.suggested_fare) s.ride_requests
  pub offered : All (λ (o : RideOffer). 1 ≤ o.offered_fare) s.ride_offers
  pub agreed : All (λ (t : Trip). 1 ≤ t.agreed_fare) s.trips

abbrev Suggests : RideRequest → Type 0
Suggests r = 1 ≤ r.suggested_fare

abbrev Offers : RideOffer → Type 0
Offers o = 1 ≤ o.offered_fare

abbrev Agrees : Trip → Type 0
Agrees t = 1 ≤ t.agreed_fare

module _ (s : Rides) (h : HasFares s) where
  pub insert_request-HasFares :
      (r : RideRequest) (t : Rides)
      → 1 ≤ r.suggested_fare
      → insert_request r s ≡ some t
      → HasFares t
  unfolding insert_request
  insert_request-HasFares r t new e = elim (Option-cases (create request_clash r s.ride_requests)) [
    | inl clash ↦ absurd (ground (arith, e, clash))
    | inr (rows, done) ↦
        let same : t ≡ record s { ride_requests = rows } = ground (arith, e, done) in
        subst HasFares (sym same) (record {
          suggested = created Suggests request_clash r s.ride_requests rows done new h.suggested;
          offered = h.offered;
          agreed = h.agreed;
        })
  ]

  pub insert_offer-HasFares :
      (o : RideOffer) (t : Rides) → 1 ≤ o.offered_fare → insert_offer o s ≡ some t → HasFares t
  unfolding insert_offer
  insert_offer-HasFares o t new e = elim (Option-cases (create offer_clash o s.ride_offers)) [
    | inl clash ↦ absurd (ground (arith, e, clash))
    | inr (rows, done) ↦
        let same : t ≡ record s { ride_offers = rows } = ground (arith, e, done) in
        subst HasFares (sym same) (record {
          suggested = h.suggested;
          offered = created Offers offer_clash o s.ride_offers rows done new h.offered;
          agreed = h.agreed;
        })
  ]

  pub renew-HasFares : (k d : Uuid) (fare : Fare) → 1 ≤ fare → HasFares (renew_offer k d fare s)
  unfolding renew_offer
  renew-HasFares k d fare new = record {
    suggested = h.suggested;
    offered =
        updated Offers (λ o. o.ride_request_id == k && o.driver_id == d)
          (λ o. record o { offered_fare = fare; status = OfferStatus.pending }) s.ride_offers
          (λ o good. new) h.offered;
    agreed = h.agreed;
  }

  pub expire_one-HasFares : (i : Uuid) → HasFares (expire_one i s)
  unfolding expire_one
  expire_one-HasFares i = record {
    suggested = h.suggested;
    offered =
        updated Offers (λ o. o.id == i) (set_offer_status OfferStatus.expired) s.ride_offers
          (λ o good. good) h.offered;
    agreed = h.agreed;
  }

  pub expire_of_driver-HasFares : (d : Uuid) → HasFares (expire_of_driver d s)
  unfolding expire_of_driver
  expire_of_driver-HasFares d = record {
    suggested = h.suggested;
    offered =
        updated Offers (λ o. o.driver_id == d && is_pending_offer o.status)
          (set_offer_status OfferStatus.expired) s.ride_offers (λ o good. good) h.offered;
    agreed = h.agreed;
  }

  pub trip-HasFares :
      (f : Trip → Trip) (status : RideRequestStatus) (i k : Uuid)
      → ((t : Trip) → 1 ≤ t.agreed_fare → 1 ≤ (f t).agreed_fare)
      → HasFares (trip_transaction f status i k s)
  unfolding trip_transaction
  trip-HasFares f status i k keep = record {
    suggested =
        updated Suggests (λ r. r.id == k) (set_request_status status) s.ride_requests
          (λ r good. good) h.suggested;
    offered = h.offered;
    agreed = updated Agrees (λ t. t.id == i) f s.trips keep h.agreed;
  }

  pub cancel-HasFares :
      (k : Uuid) (trip : Option Trip) (reason : Option String) (now : Time)
      → HasFares (cancel_transaction k trip reason now s)
  unfolding cancel_transaction
  cancel-HasFares k none reason now = record {
    suggested = updated Suggests (λ r. r.id == k) _ s.ride_requests (λ r good. good) h.suggested;
    offered =
        updated Offers (λ o. o.ride_request_id == k && is_pending_offer o.status)
          (set_offer_status OfferStatus.expired) s.ride_offers (λ o good. good) h.offered;
    agreed = h.agreed;
  }
  cancel-HasFares k (some trip) reason now = record {
    suggested = updated Suggests (λ r. r.id == k) _ s.ride_requests (λ r good. good) h.suggested;
    offered =
        updated Offers (λ o. o.ride_request_id == k && is_pending_offer o.status)
          (set_offer_status OfferStatus.expired) s.ride_offers (λ o good. good) h.offered;
    agreed = updated Agrees (λ t. t.id == trip.id) _ s.trips (λ t good. good) h.agreed;
  }

  pub accept-HasFares :
      (o : RideOffer) (trip : Trip) (t : Rides)
      → 1 ≤ trip.agreed_fare
      → accept_transaction o trip s ≡ some t
      → HasFares t
  unfolding accept_transaction
  accept-HasFares o trip t new e = elim (Option-cases (create trip_clash trip s.trips)) [
    | inl clash ↦ absurd (ground (arith, e, clash))
    | inr (rows, done) ↦
        let accepted : List RideOffer =
          update_many (λ x. x.id == o.id) (set_offer_status OfferStatus.accepted) s.ride_offers in
        let same : t ≡ record s {
          ride_offers =
              update_many (is_other_pending o) (set_offer_status OfferStatus.expired) accepted;
          ride_requests =
              update_many (λ r. r.id == o.ride_request_id)
                (set_request_status RideRequestStatus.matched) s.ride_requests;
          trips = rows;
        } =
          ground (arith, e, done) in
        subst HasFares (sym same) (record {
          suggested =
              updated Suggests (λ r. r.id == o.ride_request_id)
                (set_request_status RideRequestStatus.matched) s.ride_requests (λ r good. good)
                h.suggested;
          offered =
              updated Offers (is_other_pending o) (set_offer_status OfferStatus.expired) accepted
                (λ x good. good)
                (updated Offers (λ x. x.id == o.id) (set_offer_status OfferStatus.accepted)
                  s.ride_offers (λ x good. good) h.offered);
          agreed = created Agrees trip_clash trip s.trips rows done new h.agreed;
        })
  ]
