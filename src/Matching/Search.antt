-- ===== src/Matching/Search.antt =====
-- What the search for drivers returns.
use reedri_end.Base.{
  ℕ, zero, suc, ◌*◌, ◌≤◌, ◌≡◌, refl, Bool, true, false, ◌&&◌, ◌||◌, Option, none, some, List, [],
  ◌∷◌, arith, ◌==◌, leb, Option-cases, Bool-cases, inl, inr, subst, sym, All, All-mono, length,
  or_default, map, ==_refl,
}
use reedri_end.Table.{any}
use reedri_end.Schema.{DriverProfile}
use reedri_end.World.{World}
use reedri_end.Matching.{
  Geography, Point, Ranked, location, take, match_limit, insert_by_rank, sort_by_rank, nearby_row,
  nearby_rows, ranked_drivers, find_nearby_drivers,
}

-- The nearest first.
abbrev pub IsSorted : List Ranked → Type 0
IsSorted [] = Unit
IsSorted (d ∷ ds) = All (λ (e : Ranked). d.rank ≤ e.rank) ds × IsSorted ds

pub insert-All :
    (P : Ranked → Type 0) (d : Ranked) (ds : List Ranked)
    → P d
    → All P ds
    → All P (insert_by_rank d ds)
unfolding insert_by_rank
insert-All P d [] x h = (x, tt)
insert-All P d (e ∷ es) x h = elim (Bool-cases (leb d.rank e.rank)) [
  | inl first ↦ rw first (x, h)
  | inr later ↦ rw later (h.0, insert-All P d es x h.1)
]

pub sort-All : (P : Ranked → Type 0) (ds : List Ranked) → All P ds → All P (sort_by_rank ds)
unfolding sort_by_rank
sort-All P [] h = tt
sort-All P (d ∷ ds) h = insert-All P d (sort_by_rank ds) h.0 (sort-All P ds h.1)

pub take-All : (P : Ranked → Type 0) (n : ℕ) (ds : List Ranked) → All P ds → All P (take n ds)
take-All P zero ds h = tt
take-All P (suc n) [] h = tt
take-All P (suc n) (d ∷ ds) h = (h.0, take-All P n ds h.1)

insert-IsSorted : (d : Ranked) (ds : List Ranked) → IsSorted ds → IsSorted (insert_by_rank d ds)
unfolding insert_by_rank
insert-IsSorted d [] h = (tt, tt)
insert-IsSorted d (e ∷ es) h = elim (Bool-cases (leb d.rank e.rank)) [
  | inl first ↦ rw first (
    (
      ground (arith, first),
      All-mono (λ (x : Ranked). e.rank ≤ x.rank) (λ (x : Ranked). d.rank ≤ x.rank)
          (λ x le. ground (arith, le, first)) es h.0,
    ),
    h,
  )
  | inr later ↦ rw later (
    insert-All (λ (x : Ranked). e.rank ≤ x.rank) d es (ground (arith, later)) h.0,
    insert-IsSorted d es h.1,
  )
]

sort-IsSorted : (ds : List Ranked) → IsSorted (sort_by_rank ds)
unfolding sort_by_rank
sort-IsSorted [] = tt
sort-IsSorted (d ∷ ds) = insert-IsSorted d (sort_by_rank ds) (sort-IsSorted ds)

take-IsSorted : (n : ℕ) (ds : List Ranked) → IsSorted ds → IsSorted (take n ds)
take-IsSorted zero ds h = tt
take-IsSorted (suc n) [] h = tt
take-IsSorted (suc n) (d ∷ ds) h =
    (take-All (λ (e : Ranked). d.rank ≤ e.rank) n ds h.0, take-IsSorted n ds h.1)

length-take : (n : ℕ) (ds : List Ranked) → length (take n ds) ≤ n
length-take zero ds = ground arith
length-take (suc n) [] = ground arith
length-take (suc n) (d ∷ ds) = ground (arith, length-take n ds)

or_true : (a b : Bool) → b ≡ true → (a || b) ≡ true
or_true true b h = refl
or_true false b h = h

module _ (geography : Geography) (radius_km : ℕ) where
  -- A profile that a row is about: an online driver at the distance, no farther than the radius,
  -- and at the rank.
  abbrev pub is_match : Point → ℕ → Ranked → DriverProfile → Bool
  is_match at radius d p =
      p.id == d.row.driver_id
      && (p.user_id == d.row.user_id
          && (p.is_online && (elim (location p) [
            | none ↦ false
            | some q ↦
                geography.distance q at == d.row.distance_meters
                && (leb d.row.distance_meters radius && geography.nearness q at == d.rank)
          ])))

  row-is_match :
      (at : Point) (radius : ℕ) (p : DriverProfile) (d : Ranked)
      → nearby_row geography radius_km at radius p ≡ some d
      → is_match at radius d p ≡ true
  row-is_match at radius p d e =
      ground (
        arith,
        e,
        Bool-cases p.is_online,
        Option-cases (location p),
        ==_refl p.id,
        ==_refl p.user_id,
      )

  rows-All :
      (at : Point) (radius : ℕ) (ps : List DriverProfile)
      → All
          (λ d. any (is_match at radius d) ps ≡ true)
          (nearby_rows geography radius_km at radius ps)
  unfolding nearby_rows any
  rows-All at radius [] = tt
  rows-All at radius (p ∷ ps) =
      let rest =
        All-mono (λ d. any (is_match at radius d) ps ≡ true)
          (λ d. any (is_match at radius d) (p ∷ ps) ≡ true)
          (λ d h. or_true (is_match at radius d p) (any (is_match at radius d) ps) h)
          (nearby_rows geography radius_km at radius ps) (rows-All at radius ps) in
      elim (Option-cases (nearby_row geography radius_km at radius p)) [
        | inl out ↦
            let same : nearby_rows geography radius_km at radius (p ∷ ps)
                ≡ nearby_rows geography radius_km at radius ps =
              ground (arith, out) in
            subst (All (λ d. any (is_match at radius d) (p ∷ ps) ≡ true)) (sym same) rest
        | inr (row, present) ↦
            let same : nearby_rows geography radius_km at radius (p ∷ ps)
                ≡ row ∷ nearby_rows geography radius_km at radius ps =
              ground (arith, present) in
            subst (All (λ d. any (is_match at radius d) (p ∷ ps) ≡ true)) (sym same)
              (ground (arith, row-is_match at radius p row present), rest)
      ]

  -- The rows of a search are at most fifty, the nearest first by the measure of the query's order,
  -- and each is an online driver at the distance that it says, no farther than the radius that was
  -- asked for or is configured.
  pub find_nearby_drivers-IsSorted :
      (at : Point) (radius : Option ℕ) (w : World)
      → (ds : List Ranked) × (find_nearby_drivers geography radius_km at radius w
          ≡ map (λ (d : Ranked). d.row) ds)
        × IsSorted ds
        × (length ds ≤ 50)
        × All
            (λ d. any (is_match at (or_default radius radius_km * 1000) d) w.driver_profiles ≡ true)
            ds
  unfolding find_nearby_drivers ranked_drivers
  find_nearby_drivers-IsSorted at radius w =
      let rows : List Ranked =
        nearby_rows geography radius_km at (or_default radius radius_km * 1000) w.driver_profiles in
      let P : Ranked → Type 0 =
        λ d. any (is_match at (or_default radius radius_km * 1000) d) w.driver_profiles ≡ true in
      (
        take match_limit (sort_by_rank rows),
        refl,
        take-IsSorted match_limit (sort_by_rank rows) (sort-IsSorted rows),
        length-take match_limit (sort_by_rank rows),
        take-All P match_limit (sort_by_rank rows)
            (sort-All P rows (rows-All at (or_default radius radius_km * 1000) w.driver_profiles)),
      )
