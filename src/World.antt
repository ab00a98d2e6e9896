-- ===== src/World.antt =====
-- The state that the services share, and the monad of their methods. A method is a function from
-- the state to its result and the state after it: what was written before an exception stays
-- written. A transaction is one write of several tables. The identifiers that the database draws
-- are a stream; that they are new is checked where a row is created, as the primary key does.
pub mod Rules
use reedri_end.Base.{
  ◌≡◌, ◌⊎◌, inl, inr, refl, ℕ, suc, Bool, Option, none, some, List, [], ◌∷◌, ◌++◌, String,
  if◌then◌else◌,
}
use reedri_end.Schema.{
  Uuid, Time, User, RefreshToken, PasswordResetToken, DriverApplication, DriverProfile,
  DriverDocument, StorageKey, RideRequest, RideOffer, Trip, Rating,
}
use reedri_end.Events.{DomainEvent}

-- A delayed job of the queue `offer-expiry`; a job id is the kind of the job with its one argument.
pub data OfferExpiryJob : Type 0 where
  expire_offer : (offer_id : Uuid) → OfferExpiryJob
  expire_driver_pending_offers : (driver_profile_id : Uuid) → OfferExpiryJob
  unknown_job : OfferExpiryJob

pub record ScheduledJob : Type 0 where
  pub job : OfferExpiryJob
  pub run_at : Time

-- What the cache keeps of a driver profile, under the key `driver-identity:<user id>`.
pub record DriverIdentity : Type 0 where
  pub id : Uuid
  pub user_id : Uuid

pub record CacheEntry : Type 0 where
  pub key : Uuid
  pub value : Option DriverIdentity
  pub expires_at : Time

pub record StoredFile : Type 0 where
  pub storage_key : StorageKey
  pub content : List ℕ

pub record Sms : Type 0 where
  pub phone : String
  pub code : ℕ

-- The tables of ride requests, offers and trips.
pub record Rides : Type 0 where
  pub ride_requests : List RideRequest
  pub ride_offers : List RideOffer
  pub trips : List Trip

pub record World : Type 0 where
  pub users : List User
  pub refresh_tokens : List RefreshToken
  pub password_reset_tokens : List PasswordResetToken
  pub driver_applications : List DriverApplication
  pub driver_profiles : List DriverProfile
  pub driver_documents : List DriverDocument
  pub rides : Rides
  pub open rides use *
  pub ratings : List Rating
  pub jobs : List ScheduledJob
  pub cache : List CacheEntry
  pub files : List StoredFile
  pub outbox : List Sms
  pub events : List DomainEvent
  pub now : Time
  pub random : ℕ → ℕ

pub data HttpException : Type 0 where
  bad_request unauthorized forbidden not_found conflict : String → HttpException

-- P2002, P2025, P2010, and a required relation with no row.
pub data PrismaError : Type 0 where
  unique_violation record_not_found raw_query_failed inconsistent : PrismaError

pub data Failure : Type 0 where
  http : HttpException → Failure
  prisma : PrismaError → Failure
  storage_failure queue_failure : Failure

pub data Result {ℓ} (A : Type ℓ) : Type ℓ where
  ok : A → Result A
  err : Failure → Result A

pub Result-cases {ℓ} :
    {A : Type ℓ} (r : Result A) → ((a : A) × (r ≡ ok a)) ⊎ ((e : Failure) × (r ≡ err e))
Result-cases (ok a) = inl (a, refl)
Result-cases (err e) = inr (e, refl)

abbrev pub M {ℓ} : Type ℓ → Type ℓ
M A = World → Result A × World

infixl 5 ◌>>=◌ ◌>>◌
abbrev pub ◌>>=◌ {ℓ κ} : {A : Type ℓ} {B : Type κ} → M A → (A → M B) → M B
◌>>=◌ m f w = let (r, w') = m w in elim r [ ok a ↦ f a w' | err e ↦ (err e, w') ]

abbrev pub ◌>>◌ {ℓ} : {B : Type ℓ} → M (Unit {0}) → M B → M B
m >> k = m >>= λ _. k

module _ {ℓ} {A : Type ℓ} where
  abbrev pub pure : A → M A
  pure a w = (ok a, w)

  abbrev pub raise : Failure → M A
  raise e w = (err e, w)

  abbrev pub gets : (World → A) → M A
  gets f w = (ok (f w), w)

  -- The row that a lookup found, or an exception.
  abbrev pub or_raise : Option A → Failure → M A
  or_raise none e w = (err e, w)
  or_raise (some a) e w = (ok a, w)

abbrev pub raise_if : Bool → Failure → M (Unit {0})
raise_if c e w = (if c then err e else ok tt, w)

abbrev pub modify : (World → World) → M (Unit {0})
modify f w = (ok tt, f w)

-- A write that may fail as a whole, such as a transaction.
abbrev pub write : PrismaError → (World → Option World) → M (Unit {0})
write e f w = elim (f w) [ none ↦ (err (prisma e), w) | some w' ↦ (ok tt, w') ]

-- A write of the tables of rides.
abbrev pub write_rides : (Rides → Option Rides) → M (Unit {0})
write_rides f w = elim (f w.rides) [
  | none ↦ (err (prisma unique_violation), w)
  | some s ↦ (ok tt, record w { rides = s })
]

abbrev pub modify_rides : (Rides → Rides) → M (Unit {0})
modify_rides f w = (ok tt, record w { rides = f w.rides })

abbrev pub emit : DomainEvent → M (Unit {0})
emit e = modify λ w. record w { events = w.events ++ e ∷ [] }

-- The next random number.
abbrev pub draw : M ℕ
draw w = (ok (w.random 0), record w { random = λ n. w.random (suc n) })

-- The state that a call leaves, whether it returned or threw.
abbrev pub after {ℓ} : {A : Type ℓ} → M A → World → World
after m w = (m w).1
