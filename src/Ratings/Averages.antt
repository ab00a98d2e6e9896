-- ===== src/Ratings/Averages.antt =====
-- The rating of every user is the average of the scores that the user has received.
use reedri_end.Base.{
  suc, ◌≡◌, false, some, List, [], ◌∷◌, ◌++◌, arith, ◌==◌, Option-cases, Bool-cases, inl, inr,
  subst, sym, ◌∙◌, ==→eq, ap, All, All-mono, All-both,
}
use reedri_end.Table.{find_first, find_many, update_many, create}
use reedri_end.Table.Counts.{none-All}
use reedri_end.Table.Laws.{All-update_many}
use reedri_end.Schema.{Uuid, is_completed_trip, User, Rating, Trip}
use reedri_end.World.{World, after, ok, err, Result, Failure, unique_violation, ◌>>◌, pure}
use reedri_end.World.Rules.{write-after, >>=-after}
use reedri_end.Users.{average, received, recalculate_rating, update_user, with_rating, find_by_id}
use reedri_end.Ratings.{
  catch_failure, RateTrip, counterpart, rating_of, insert_rating, save_rating, rate_trip,
  rating_failure,
}

-- A user's rating is the average of what the user has received.
abbrev pub IsRated : List Rating → User → Type 0
IsRated ratings u = u.rating ≡ average (received u.id ratings)

abbrev pub IsAveraged : World → Type 0
IsAveraged w = All (IsRated w.ratings) w.users

received_by_others :
    (i : Uuid) (rs : List Rating) (r : Rating)
    → (r.to_user_id == i) ≡ false
    → received i (rs ++ r ∷ []) ≡ received i rs
unfolding find_many
received_by_others i [] r other = ground (arith, other)
received_by_others i (x ∷ rs) r other = ground (arith, received_by_others i rs r other)

recalculated :
    (to : Uuid) (w : World)
    → All (λ (u : User). (u.id == to) ≡ false → IsRated w.ratings u) w.users
    → IsAveraged (after (recalculate_rating to) w)
unfolding recalculate_rating update_user
recalculated to w h = elim (Option-cases (find_by_id to w)) [
  | inl e ↦
      let same : after (recalculate_rating to) w ≡ w = ground (arith, e) in
      subst IsAveraged (sym same) (
        All-both (λ (u : User). (u.id == to) ≡ false → IsRated w.ratings u)
          (λ (u : User). (u.id == to) ≡ false) (IsRated w.ratings) (λ u f other. f other) w.users h
          (none-All (λ (u : User). u.id == to) w.users e))
  | inr (u, e) ↦
      let shape : after (recalculate_rating to) w ≡ record w {
        users =
            update_many (λ (x : User). x.id == to) (with_rating (average (received to w.ratings)))
              w.users;
      } =
        ground (arith, e) in
      subst IsAveraged (sym shape) (
        All-update_many (λ (x : User). (x.id == to) ≡ false → IsRated w.ratings x)
          (IsRated w.ratings) (λ (x : User). x.id == to)
          (with_rating (average (received to w.ratings)))
          (λ x f hit. ap (λ i. average (received i w.ratings)) (sym (==→eq x.id to hit)))
          (λ x f miss. f miss) w.users h)
]

pub insert_rating-appended :
    (r : Rating) (w v : World)
    → insert_rating r w ≡ some v
    → v ≡ record w { ratings = w.ratings ++ r ∷ [] }
unfolding insert_rating create
insert_rating-appended r w v e = ground arith

save_rating-IsAveraged :
    (trip_id from to : Uuid) (dto : RateTrip) (w : World)
    → IsAveraged w
    → IsAveraged (after (save_rating trip_id from to dto) w)
unfolding save_rating
save_rating-IsAveraged trip_id from to dto w h =
    let r : Rating = rating_of (w.random 0) w.now trip_id from to dto in
    write-after IsAveraged unique_violation (insert_rating r) (recalculate_rating to >> pure r)
      (record w { random = λ n. w.random (suc n) }) h
      λ v written.
        let all_but : All (λ (u : User). (u.id == to) ≡ false → IsRated v.ratings u) v.users =
          subst
            (λ (x : World). All (λ (u : User). (u.id == to) ≡ false → IsRated x.ratings u) x.users)
            (sym (insert_rating-appended r (record w { random = λ n. w.random (suc n) }) v written))
            (All-mono (IsRated w.ratings)
              (λ (u : User). (u.id == to) ≡ false → IsRated (w.ratings ++ r ∷ []) u)
              (λ u rated other.
                rated
                ∙ ap average (sym (received_by_others u.id w.ratings r (ground (arith, other)))))
              w.users h) in
        >>=-after IsAveraged (recalculate_rating to) (λ _. pure r) v (recalculated to v all_but)
          (λ _ e. recalculated to v all_but)

caught-after {ℓ} :
    {A : Type ℓ} (P : World → Type 0) (f : Failure → Failure) (r : Result A) (v w : World)
    → P v
    → P (after (catch_failure f (λ _. (r, v))) w)
caught-after P f (ok a) v w h = h
caught-after P f (err e) v w h = h

-- A rating is refused with the state as it was, or saved.
pub rate_trip-after :
    (P : World → Type 0) (trip_id from : Uuid) (dto : RateTrip) (w : World)
    → P w
    → ((to : Uuid) → P (after (save_rating trip_id from to dto) w))
    → P (after (rate_trip trip_id from dto) w)
unfolding rate_trip
rate_trip-after P trip_id from dto w h saved =
    elim (Option-cases (find_first (λ (t : Trip). t.id == trip_id) w.trips)) [
      | inl e ↦
          (let same : after (rate_trip trip_id from dto) w ≡ w = ground (arith, e) in
            subst P (sym same) h)
      | inr (t, e) ↦ elim (Bool-cases (is_completed_trip t.status)) [
        | inr running ↦
            (let same : after (rate_trip trip_id from dto) w ≡ w = ground (arith, e, running) in
              subst P (sym same) h)
        | inl done ↦ elim (Option-cases (counterpart from t)) [
          | inl stranger ↦
              (let same : after (rate_trip trip_id from dto) w ≡ w =
                  ground (arith, e, done, stranger) in
                subst P (sym same) h)
          | inr (to, other) ↦
              let same : after (rate_trip trip_id from dto) w
                  ≡ after (catch_failure rating_failure (save_rating trip_id from to dto)) w =
                ground (arith, e, done, other) in
              subst P (sym same) (
                caught-after P rating_failure (save_rating trip_id from to dto w).0
                  (after (save_rating trip_id from to dto) w) w (saved to))
        ]
      ]
    ]

-- Whether a rating is saved, refused or thrown, if before it the rating of each user is the average
-- of the scores that the user has received, or 5 where there are none, it is so after it.
pub rate_trip-IsAveraged :
    (trip_id from : Uuid) (dto : RateTrip) (w : World)
    → IsAveraged w
    → IsAveraged (after (rate_trip trip_id from dto) w)
rate_trip-IsAveraged trip_id from dto w h =
    rate_trip-after IsAveraged trip_id from dto w h
      (λ to. save_rating-IsAveraged trip_id from to dto w h)
