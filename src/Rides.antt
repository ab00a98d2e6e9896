-- ===== src/Rides.antt =====
-- The state that ride requests, offers and trips make up together.
pub mod Fares
pub mod Write
pub mod Offering
pub mod Running
pub mod Keep
pub mod KeepCancel
pub mod KeepOffers
pub mod KeepAccept
pub mod Invariant
pub mod Life
pub mod Accepting
pub mod Acceptance
pub mod Races
pub mod Machine
use reedri_end.Base.{
  ℕ, Bool, true, false, ◌&&◌, not, ◌≡◌, Option, none, some, List, ◌==◌, map_option, is_some,
  if◌then◌else◌,
}
use reedri_end.Table.{find_first, count, IsUnique}
use reedri_end.Schema.{
  Uuid, RideRequestStatus, TripStatus, is_open_request, is_pending_offer, is_accepted_offer,
  RideRequest, RideOffer, Trip,
}
use reedri_end.World.{Rides}

abbrev pub request_status : Uuid → Rides → Option RideRequestStatus
request_status k s =
    map_option (λ (r : RideRequest). r.status) (find_first (λ r. r.id == k) s.ride_requests)

abbrev pub trip_status : Uuid → Rides → Option TripStatus
trip_status k s =
    map_option (λ (t : Trip). t.status) (find_first (λ t. t.ride_request_id == k) s.trips)

-- Which status of a ride request goes with which status of its trip.
abbrev pub agree : Option RideRequestStatus → Option TripStatus → Bool
agree none none = true
agree (some RideRequestStatus.pending) none = true
agree (some RideRequestStatus.matched) (some TripStatus.matched) = true
agree (some RideRequestStatus.in_progress) (some TripStatus.started) = true
agree (some RideRequestStatus.completed) (some TripStatus.completed) = true
agree (some RideRequestStatus.cancelled) none = true
agree (some RideRequestStatus.cancelled) (some TripStatus.cancelled) = true
agree _ _ = false

abbrev pub is_open : Option RideRequestStatus → Bool
is_open none = false
is_open (some s) = is_open_request s

abbrev pub is_pending_for : Uuid → RideOffer → Bool
is_pending_for k o = o.ride_request_id == k && is_pending_offer o.status

abbrev pub is_accepted_for : Uuid → RideOffer → Bool
is_accepted_for k o = o.ride_request_id == k && is_accepted_offer o.status

pub record IsConsistent (s : Rides) : Type 0 where
  pub request_ids : IsUnique (λ (r : RideRequest). r.id) s.ride_requests
  pub offer_ids : IsUnique (λ (o : RideOffer). o.id) s.ride_offers
  pub trip_ids : IsUnique (λ (t : Trip). t.id) s.trips
  pub trip_requests : IsUnique (λ (t : Trip). t.ride_request_id) s.trips
  -- Each ride request and its trip are in step.
  pub statuses : (k : Uuid) → agree (request_status k s) (trip_status k s) ≡ true
  -- Once a ride request is closed, no offer on it is pending.
  pub settled :
      (k : Uuid) → is_open (request_status k s) ≡ false → count (is_pending_for k) s.ride_offers ≡ 0
  -- A trip rests on one accepted offer, and without a trip no offer is accepted.
  pub accepted :
      (k : Uuid)
      → count (is_accepted_for k) s.ride_offers
        ≡ (if is_some (find_first (λ (t : Trip). t.ride_request_id == k) s.trips) then 1 else 0)
