-- ===== src/Ratings/Once.antt =====
-- A participant rates the other one, of a completed trip, and once.
use reedri_end.Base.{
  suc, ◌≡◌, refl, true, some, List, [], ◌∷◌, ◌++◌, arith, ◌==◌, Option-cases, Bool-cases, inl, inr,
  ==_refl,
}
use reedri_end.Table.{find_first, create}
use reedri_end.Table.Any.{find_first-last}
use reedri_end.Schema.{Uuid, is_completed_trip, Rating, Trip}
use reedri_end.World.{World, after, ok, err, http, conflict, prisma, unique_violation}
use reedri_end.Users.{recalculate_rating, update_user}
use reedri_end.Ratings.{
  RateTrip, rating_clash, counterpart, rating_of, insert_rating, save_rating, rate_trip,
}

-- What is so before and after a rating that is returned.
pub record IsRating (trip_id from : Uuid) (dto : RateTrip) (w v : World) (r : Rating) (t : Trip)
    : Type 0 where
  pub found : find_first (λ (x : Trip). x.id == trip_id) w.trips ≡ some t
  pub completed : is_completed_trip t.status ≡ true
  pub to_other : counterpart from t ≡ some r.to_user_id
  pub by_author : r.from_user_id ≡ from
  pub of_trip : r.trip_id ≡ trip_id
  pub scored : r.score ≡ dto.score
  pub saved : v.ratings ≡ w.ratings ++ r ∷ []
  pub trips_kept : v.trips ≡ w.trips

save_rating-ok :
    (trip_id from to : Uuid) (dto : RateTrip) (w : World) (r : Rating)
    → (save_rating trip_id from to dto w).0 ≡ ok r
    → (r ≡ rating_of (w.random 0) w.now trip_id from to dto)
      × ((after (save_rating trip_id from to dto) w).ratings ≡ w.ratings ++ r ∷ [])
      × ((after (save_rating trip_id from to dto) w).trips ≡ w.trips)
unfolding save_rating insert_rating create recalculate_rating update_user
save_rating-ok trip_id from to dto w r e = (ground (arith, e), ground (arith, e), ground (arith, e))

rate_trip-IsRating :
    (trip_id from : Uuid) (dto : RateTrip) (w : World) (r : Rating)
    → (rate_trip trip_id from dto w).0 ≡ ok r
    → (t : Trip) × IsRating trip_id from dto w (after (rate_trip trip_id from dto) w) r t
unfolding rate_trip
rate_trip-IsRating trip_id from dto w r e =
    elim (Option-cases (find_first (λ (t : Trip). t.id == trip_id) w.trips)) [
      | inl missing ↦ absurd (ground (arith, e, missing))
      | inr (t, found) ↦ elim (Bool-cases (is_completed_trip t.status)) [
        | inr running ↦ absurd (ground (arith, e, found, running))
        | inl done ↦ elim (Option-cases (counterpart from t)) [
          | inl stranger ↦ absurd (ground (arith, e, found, done, stranger))
          | inr (to, other) ↦
              let saved : (save_rating trip_id from to dto w).0 ≡ ok r =
                ground (arith, e, found, done, other) in
              let same : after (rate_trip trip_id from dto) w
                  ≡ after (save_rating trip_id from to dto) w =
                ground (arith, found, done, other) in
              let (row, appended, kept) = save_rating-ok trip_id from to dto w r saved in
              (
                t,
                record {
                  found = found;
                  completed = done;
                  to_other = ground (arith, other, row);
                  by_author = ground (arith, row);
                  of_trip = ground (arith, row);
                  scored = ground (arith, row);
                  saved = ground (arith, same, appended);
                  trips_kept = ground (arith, same, kept);
                },
              )
        ]
      ]
    ]

save_rating-again :
    (trip_id from to : Uuid) (dto : RateTrip) (v : World) (xs : List Rating) (r : Rating)
    → v.ratings ≡ xs ++ r ∷ []
    → r.trip_id ≡ trip_id
    → r.from_user_id ≡ from
    → r.to_user_id ≡ to
    → (save_rating trip_id from to dto v
        ≡ (err (prisma unique_violation), record v { random = λ n. v.random (suc n) }))
unfolding save_rating insert_rating create
save_rating-again trip_id from to dto v xs r rows trip author other =
    let row : Rating = rating_of (v.random 0) v.now trip_id from to dto in
    let (y, clash) =
      find_first-last (rating_clash row) xs r
        (ground (arith, trip, author, other, ==_refl trip_id, ==_refl from, ==_refl to)) in
    ground (arith, rows, clash)

rated_again :
    (trip_id from : Uuid) (dto : RateTrip) (v : World) (t : Trip) (to : Uuid)
    → find_first (λ (x : Trip). x.id == trip_id) v.trips ≡ some t
    → is_completed_trip t.status ≡ true
    → counterpart from t ≡ some to
    → save_rating trip_id from to dto v
      ≡ (err (prisma unique_violation), record v { random = λ n. v.random (suc n) })
    → ((rate_trip trip_id from dto v).0 ≡ err (http (conflict "You have already rated this trip")))
      × ((after (rate_trip trip_id from dto) v).ratings ≡ v.ratings)
      × ((after (rate_trip trip_id from dto) v).users ≡ v.users)
unfolding rate_trip
rated_again trip_id from dto v t to found done other refused = (
  ground (arith, found, done, other, refused),
  ground (arith, found, done, other, refused),
  ground (arith, found, done, other, refused),
)

-- A rating that is returned is of a completed trip, by one of its participants for the other, with
-- the score that was given, and is saved. A second rating of the trip by the same user is refused
-- as a conflict, whatever its score, and changes no rating and no user.
pub rate_trip-once :
    (trip_id from : Uuid) (dto again : RateTrip) (w : World) (r : Rating)
    → (rate_trip trip_id from dto w).0 ≡ ok r
    → let v = after (rate_trip trip_id from dto) w in
      ((t : Trip) × IsRating trip_id from dto w v r t)
      × ((rate_trip trip_id from again v).0
          ≡ err (http (conflict "You have already rated this trip")))
      × ((after (rate_trip trip_id from again) v).ratings ≡ v.ratings)
      × ((after (rate_trip trip_id from again) v).users ≡ v.users)
rate_trip-once trip_id from dto again w r e =
    let v : World = after (rate_trip trip_id from dto) w in
    let (t, h) = rate_trip-IsRating trip_id from dto w r e in
    let found : find_first (λ (x : Trip). x.id == trip_id) v.trips ≡ some t =
      rw h.trips_kept h.found in
    let refused : save_rating trip_id from r.to_user_id again v
        ≡ (err (prisma unique_violation), record v { random = λ n. v.random (suc n) }) =
      save_rating-again trip_id from r.to_user_id again v w.ratings r h.saved h.of_trip h.by_author
        refl in
    let (thrown, same_ratings, same_users) =
      rated_again trip_id from again v t r.to_user_id found h.completed h.to_other refused in
    ((t, h), thrown, same_ratings, same_users)
