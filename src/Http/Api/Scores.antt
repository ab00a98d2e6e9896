-- ===== src/Http/Api/Scores.antt =====
-- Ratings that come in through the interface (src/ratings/dto/rate-trip.dto.ts and the route of
-- src/trips/trips.controller.ts).
use reedri_end.Base.{
  suc, ◌*◌, ◌≤◌, ◌≡◌, refl, true, not, Option, none, some, List, [], ◌∷◌, arith, ◌==◌, length, All,
  All-append, All-mono, Option-cases, Bool-cases, inl, inr, subst, sym,
}
use reedri_end.Table.{find_many}
use reedri_end.Schema.{Uuid, Average, User, Rating}
use reedri_end.World.{World, after, unique_violation, M, ◌>>◌, pure, raise_if, bad_request, http}
use reedri_end.World.Rules.{write-after, >>=-after, raise_if-after}
use reedri_end.Users.{total, average, received, recalculate_rating, update_user, find_by_id}
use reedri_end.Ratings.{RateTrip, rating_of, insert_rating, save_rating, rate_trip}
use reedri_end.Ratings.Averages.{
  IsRated, IsAveraged, insert_rating-appended, rate_trip-after, rate_trip-IsAveraged,
}
use reedri_end.Access.{AuthenticatedUser, can_activate, validate}
use reedri_end.Http.{Claims, authenticate, enter_mode, answered}
use reedri_end.Http.Forms.{accepts_rating}
use reedri_end.Http.Journeys.{rate}
use reedri_end.Http.Api.{Server, asks_rating, rating, serve}

abbrev pub IsScore : Rating → Type 0
IsScore r = (1 ≤ r.score) × (r.score ≤ 5)

-- An average that is at least one and at most five.
abbrev pub IsBounded : Average → Type 0
IsBounded a = (1 ≤ a.number) × (a.number ≤ a.sum) × (a.sum ≤ 5 * a.number)

total-IsBounded :
    (rs : List Rating) → All IsScore rs → (length rs ≤ total rs) × (total rs ≤ 5 * length rs)
unfolding total
total-IsBounded [] h = (omega arith, omega arith)
total-IsBounded (r ∷ rs) h =
    let (low, high) = total-IsBounded rs h.1 in
    let (l, u) = h.0 in (omega (arith, low, l), omega (arith, high, u))

average-IsBounded : (rs : List Rating) → All IsScore rs → IsBounded (average rs)
average-IsBounded [] h = (omega arith, omega arith, omega arith)
average-IsBounded (r ∷ rs) h =
    let (low, high) = total-IsBounded (r ∷ rs) h in (omega arith, low, high)

received-All : (u : Uuid) (rs : List Rating) → All IsScore rs → All IsScore (received u rs)
unfolding find_many
received-All u [] h = tt
received-All u (r ∷ rs) h = elim (Bool-cases (r.to_user_id == u)) [
  | inl hit ↦ rw hit (h.0, received-All u rs h.1)
  | inr miss ↦ rw miss (received-All u rs h.1)
]

recalculate_rating-ratings :
    (to : Uuid) (w : World) → (after (recalculate_rating to) w).ratings ≡ w.ratings
unfolding recalculate_rating update_user
recalculate_rating-ratings to w = elim (Option-cases (find_by_id to w)) [
  | inl e ↦ ground (arith, e)
  | inr (u, e) ↦ ground (arith, e)
]

abbrev pub HasScores : World → Type 0
HasScores w = All IsScore w.ratings

save_rating-HasScores :
    (trip_id from to : Uuid) (dto : RateTrip) (w : World)
    → (1 ≤ dto.score) × (dto.score ≤ 5)
    → HasScores w
    → HasScores (after (save_rating trip_id from to dto) w)
unfolding save_rating
save_rating-HasScores trip_id from to dto w good h =
    let r : Rating = rating_of (w.random 0) w.now trip_id from to dto in
    let w' : World = record w { random = λ n. w.random (suc n) } in
    write-after HasScores unique_violation (insert_rating r) (recalculate_rating to >> pure r) w' h
      λ v written.
        let there : HasScores v =
          subst HasScores (sym (insert_rating-appended r w' v written))
            (All-append IsScore w.ratings (r ∷ []) h (good, tt)) in
        let later : HasScores (after (recalculate_rating to) v) =
          subst (All IsScore) (sym (recalculate_rating-ratings to v)) there in
        >>=-after HasScores (recalculate_rating to) (λ _. pure r) v later (λ _ e. later)

accepts_rating-IsScore :
    (dto : RateTrip) → accepts_rating dto ≡ true → (1 ≤ dto.score) × (dto.score ≤ 5)
unfolding accepts_rating
accepts_rating-IsScore dto e = (ground (arith, e), ground (arith, e))

-- Entering a route for any account changes nothing.
pub enter_any-after : (token : Option Claims) (w : World) → after (enter_mode none token) w ≡ w
unfolding enter_mode authenticate validate can_activate
enter_any-after none w = refl
enter_any-after (some c) w = elim (Option-cases c.sub) [
  | inl e ↦ ground (arith, e)
  | inr (u, eu) ↦ ground (arith, eu, Option-cases c.role)
]

rate-after :
    (P : World → Type 0) (token : Option Claims) (id : Uuid) (dto : RateTrip) (w : World)
    → P w
    → ((from : Uuid) → accepts_rating dto ≡ true → P (after (rate_trip id from dto) w))
    → P (after (rate token id dto) w)
unfolding rate
rate-after P token id dto w h next =
    let k : AuthenticatedUser → M Rating = λ user.
      raise_if (not (accepts_rating dto)) (http (bad_request "Bad Request Exception"))
      >> rate_trip id user.user_id dto in
    let same : after (enter_mode none token) w ≡ w = enter_any-after token w in
    >>=-after P (enter_mode none token) k w (subst P (sym same) h) (λ user entered.
      subst (λ (v : World). P (after (k user) v)) (sym same)
        (raise_if-after P (not (accepts_rating dto)) (http (bad_request "Bad Request Exception"))
          (rate_trip id user.user_id dto) w h (λ good. next user.user_id (ground (arith, good)))))

pub answered-after {ℓ κ} :
    {A : Type ℓ} {B : Type κ} (f : A → B) (m : M A) (w : World) → after (answered f m) w ≡ after m w
answered-after f m w =
    >>=-after (λ (v : World). v ≡ after m w) m (λ a. pure (f a)) w refl (λ a e. refl)

module _ (s : Server) where
  -- A request to rate a trip, by whomever it is made and whether it is refused or not, keeps every
  -- score between one and five and every user's rating the average of the scores that the user has
  -- received, or five; so every user's rating is between one and five after it.
  pub serve-rating-IsBounded :
      (token : Option Claims) (id : Uuid) (dto : RateTrip) (w : World)
      → HasScores w
      → IsAveraged w
      → let v = after (serve s token (asks_rating id dto)) w in
        HasScores v × IsAveraged v × All (λ (u : User). IsBounded u.rating) v.users
  unfolding serve
  serve-rating-IsBounded token id dto w h rated =
      let m : M Rating = rate token id dto in
      let v : World = after (serve s token (asks_rating id dto)) w in
      let same : v ≡ after m w = answered-after rating m w in
      let scores : HasScores v = subst HasScores (sym same) (
        rate-after HasScores token id dto w h (λ from good.
          rate_trip-after HasScores id from dto w h
            (λ to. save_rating-HasScores id from to dto w (accepts_rating-IsScore dto good) h))) in
      let averaged : IsAveraged v = subst IsAveraged (sym same) (
        rate-after IsAveraged token id dto w rated
          (λ from good. rate_trip-IsAveraged id from dto w rated)) in
      (
        scores,
        averaged,
        All-mono (IsRated v.ratings) (λ (u : User). IsBounded u.rating)
            (λ u e.
              subst IsBounded (sym e)
                (average-IsBounded (received u.id v.ratings) (received-All u.id v.ratings scores)))
            v.users averaged,
      )
