-- ===== src/Http/Api/Effects.antt =====
-- What a request does to the tables of rides (the controllers under src/, through their services).
use reedri_end.Base.{ℕ, String, ◌≡◌, true, Bool, not, List, Option, arith, sym, subst}
use reedri_end.Schema.{Fare, Uuid, Role, ActiveProfile}
use reedri_end.World.{OfferExpiryJob, Rides, World, M, after, ◌>>=◌, ◌>>◌, http, bad_request}
use reedri_end.World.Rules.{>>=-after, raise_if-after}
use reedri_end.Matching.{Geography}
use reedri_end.Queue.{JobQueue}
use reedri_end.RideRequests.{CreateRideRequest, create_request, cancel}
use reedri_end.Trips.{start, complete}
use reedri_end.Offers.{submit_offer, accept_offer, process}
use reedri_end.Http.Forms.{accepts_ride_request, is_positive}
use reedri_end.Cache.{get, set, get_or_set}
use reedri_end.Access.{AuthenticatedUser, can_activate, validate}
use reedri_end.Http.{
  Claims, answered, authenticate, enter_mode, enter_role, signed_in, in_profile, for_roles,
  validated,
}
use reedri_end.Http.Api.Calm.{IsCalm}
use reedri_end.Http.Api.Scores.{answered-after}

-- A method that relates the tables of rides before it to those after it.
abbrev pub IsStep {ℓ} : (R : Rides → Rides → Type 0) → {A : Type ℓ} → M A → Type 0
IsStep R m = (w : World) → R w.rides (after m w).rides

authenticate-IsCalm : (token : Option Claims) → IsCalm (authenticate token)
unfolding authenticate validate
authenticate-IsCalm token w = ground arith

enter_mode-IsCalm : (p : Option ActiveProfile) (token : Option Claims) → IsCalm (enter_mode p token)
unfolding enter_mode can_activate authenticate validate get_or_set get set
enter_mode-IsCalm p token w = ground arith

enter_role-IsCalm : (roles : List Role) (token : Option Claims) → IsCalm (enter_role roles token)
unfolding enter_role authenticate validate
enter_role-IsCalm roles token w = ground arith

-- What a relation has to hold of, to hold of everything that happens: of the methods that write to
-- the tables of rides, and of what passes validation.
pub record Covers (R : Rides → Rides → Type 0) : Type 0 where
  pub stays : (x : Rides) → R x x
  pub creates :
      (geography : Geography) (radius : ℕ) (u : Uuid) (dto : CreateRideRequest)
      → accepts_ride_request dto ≡ true
      → IsStep R (create_request geography radius u dto)
  pub cancels : (k u : Uuid) (reason : Option String) → IsStep R (cancel k u reason)
  pub starts : (i u : Uuid) → IsStep R (start i u)
  pub completes : (i u : Uuid) → IsStep R (complete i u)
  pub submits :
      (queue : JobQueue) (seconds : ℕ) (u k : Uuid) (fare : Fare)
      → is_positive fare ≡ true
      → IsStep R (submit_offer queue seconds u k fare)
  pub accepts :
      (queue : JobQueue) (seconds : ℕ) (u i : Uuid) → IsStep R (accept_offer queue seconds u i)
  pub expires : (j : OfferExpiryJob) → IsStep R (process j)

module _ (R : Rides → Rides → Type 0) (stay : (x : Rides) → R x x) where
  pub kept : (x y : Rides) → y ≡ x → R x y
  kept x y e = subst (R x) (sym e) (stay x)

  pub calm-IsStep {ℓ} : {A : Type ℓ} (m : M A) → IsCalm m → IsStep R m
  calm-IsStep m h w = kept w.rides (after m w).rides (h w)

  pub bind-IsStep {ℓ κ} :
      {A : Type ℓ} {B : Type κ} (m : M A) (k : A → M B)
      → IsCalm m
      → ((a : A) → IsStep R (k a))
      → IsStep R (m >>= k)
  bind-IsStep m k first rest w =
      >>=-after (λ (v : World). R w.rides v.rides) m k w (kept w.rides (after m w).rides (first w))
        (λ a e. subst (λ r. R r (after (k a) (after m w)).rides) (first w) (rest a (after m w)))

  pub answered-IsStep {ℓ κ} :
      {A : Type ℓ} {B : Type κ} (f : A → B) (m : M A) → IsStep R m → IsStep R (answered f m)
  answered-IsStep f m h w =
      subst (λ (v : World). R w.rides v.rides) (sym (answered-after f m w)) (h w)

  pub accepted-IsStep {ℓ} :
      {B : Type ℓ} (c : Bool) (m : M B) → (c ≡ true → IsStep R m) → IsStep R (validated c >> m)
  accepted-IsStep c m h w =
      raise_if-after (λ (v : World). R w.rides v.rides) (not c)
        (http (bad_request "Bad Request Exception")) m w (stay w.rides)
        (λ e. h (ground (arith, e)) w)

  pub validated-IsStep {ℓ} :
      {B : Type ℓ} (c : Bool) (m : M B) → IsStep R m → IsStep R (validated c >> m)
  validated-IsStep c m h = accepted-IsStep c m (λ e. h)

  module _ {ℓ} {A : Type ℓ} (handler : AuthenticatedUser → M A)
      (h : (user : AuthenticatedUser) → IsStep R (handler user)) (token : Option Claims) where
    pub signed_in-IsStep : IsStep R (signed_in token handler)
    signed_in-IsStep = bind-IsStep (authenticate token) handler (authenticate-IsCalm token) h

    pub in_profile-IsStep : (p : Option ActiveProfile) → IsStep R (in_profile p token handler)
    in_profile-IsStep p = bind-IsStep (enter_mode p token) handler (enter_mode-IsCalm p token) h

    pub for_roles-IsStep : (roles : List Role) → IsStep R (for_roles roles token handler)
    for_roles-IsStep roles =
        bind-IsStep (enter_role roles token) handler (enter_role-IsCalm roles token) h
