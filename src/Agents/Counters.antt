-- ===== src/Agents/Counters.antt =====
-- The counters that apps/api/prisma/schema.prisma calls "kept in sync from purchase / run-consume paths",
-- and the rating: totalUsers, totalRuns, ratingCount and ratingAverage of a listing.
pub mod Written
pub mod Sold
use saziqo_platform.Prelude.{
  ℕ, suc, ◌+◌, ◌≤◌, ◌<◌, ◌≡◌, ◌≢◌, refl, sym, ap, ◌∙◌, subst, Bool, true, false, not, ◌&&◌, Option,
  none, some, List, [], ◌∷◌, ◌==◌, ==→eq, ==_refl, arith, if◌then◌else◌, is_some, All, inl, inr,
  Bool-cases, Option-cases, ◌⊎◌, length,
}
use saziqo_platform.Table.{find_first, find_unique, find_unique-update, update, update_many}
use saziqo_platform.Table.Fresh.{IsFresh}
use saziqo_platform.Agents.{Market, Listing, Purchase, UserRuns, listing_key, is_owned}
use saziqo_platform.Agents.Runs.{has_runs, after_one_run, is_runs_of}
use saziqo_platform.Agents.Checkout.{granted, update_first}
use saziqo_platform.Agents.Listings.{shown_ratings, average_of}
use saziqo_platform.Agents.Tallies.{rows_of}

-- The different users among the buyers of a listing: the purchases with no earlier one of their user.
abbrev pub buyers : ℕ → List Purchase → ℕ
buyers i [] = 0
buyers i (p ∷ ps) =
    let rest = buyers i ps in
    if i == p.listing_id && not (is_some (find_first (is_owned p.user_id i) ps))
    then suc rest
    else rest

-- The runs of a listing that its users have used.
abbrev pub consumed_on : ℕ → List UserRuns → ℕ
consumed_on i [] = 0
consumed_on i (r ∷ rs) =
    let rest = consumed_on i rs in if i == r.listing_id then r.total_consumed + rest else rest

pub consumed_on-grant :
    (j user_id i n : ℕ) (rs : List UserRuns)
    → consumed_on j (update_first (is_runs_of user_id i) (granted n) rs) ≡ consumed_on j rs
consumed_on-grant j user_id i n [] = refl
consumed_on-grant j user_id i n (r ∷ rs) = ground (arith, consumed_on-grant j user_id i n rs)

consumed_on-run_none :
    (j user_id i now : ℕ) (rs : List UserRuns)
    → rows_of user_id i rs ≡ 0
    → consumed_on j (update_many (has_runs user_id i) (after_one_run now) rs) ≡ consumed_on j rs
consumed_on-run_none j user_id i now [] e = refl
consumed_on-run_none j user_id i now (r ∷ rs) e =
    ground (arith, consumed_on-run_none j user_id i now rs)

pub consumed_on-run :
    (j user_id i now : ℕ) (rs : List UserRuns) (r : UserRuns)
    → rows_of user_id i rs ≤ 1
    → find_first (has_runs user_id i) rs ≡ some r
    → consumed_on j (update_many (has_runs user_id i) (after_one_run now) rs)
      ≡ consumed_on j rs + (if i == j then 1 else 0)
consumed_on-run j user_id i now [] r one e = cc
consumed_on-run j user_id i now (x ∷ rs) r one e =
    ground (arith, consumed_on-run j user_id i now rs r, consumed_on-run_none j user_id i now rs)

-- What a listing's counters should be.
abbrev pub Counted : ℕ → ℕ → List ℕ → Listing → Type 0
Counted users runs ratings l =
    (l.total_users ≡ users)
    × (l.total_runs ≡ runs)
    × (l.rating_count ≡ length ratings)
    × (l.rating_average ≡ average_of ratings)

abbrev pub CountedIn : Market → ℕ → Listing → Type 0
CountedIn s i l =
    Counted (buyers i s.purchases.rows) (consumed_on i s.user_runs.rows)
      (shown_ratings i s.reviews.rows) l

-- Each listing's counters are those of the other tables, which have nothing of a listing to come.
pub record IsCounted (s : Market) : Type 0 where
  pub fresh : IsFresh s.listings
  pub counters : (i : ℕ) (l : Listing) → find_unique i s.listings.rows ≡ some l → CountedIn s i l
  pub unborn :
      (i : ℕ)
      → s.listings.next ≤ i
      → (buyers i s.purchases.rows ≡ 0)
        × (consumed_on i s.user_runs.rows ≡ 0)
        × (shown_ratings i s.reviews.rows ≡ [])

-- What is found after a write was there before.
pub found_update :
    (j i : ℕ) (f : Listing → Listing) (rows : List Listing) (m : Listing)
    → ((l : Listing) → (f l).id ≡ l.id)
    → find_unique j (update i f rows) ≡ some m
    → (l : Listing) × (find_unique j rows ≡ some l) × (m ≡ (if i == j then f l else l))
found_update j i f rows m keeps e = elim (Option-cases (find_unique j rows)) [
  | inl gone ↦ absurd (ground (arith, gone, e, find_unique-update j i f rows keeps))
  | inr (l, found) ↦ (l, found, ground (arith, found, e, find_unique-update j i f rows keeps))
]

pub found_update_many :
    (j : ℕ) (p : Listing → Bool) (f : Listing → Listing) (rows : List Listing) (m : Listing)
    → ((l : Listing) → (f l).id ≡ l.id)
    → find_unique j (update_many p f rows) ≡ some m
    → (l : Listing) × (find_unique j rows ≡ some l) × ((m ≡ l) ⊎ (m ≡ f l))
found_update_many j p f [] m keeps e = cc
found_update_many j p f (l ∷ rows) m keeps e = elim (Bool-cases (j == l.id)) [
  | inl here ↦ (
    l,
    ground (arith, here),
    elim (Bool-cases (p l)) [
      | inl hit ↦ inr (ground (arith, here, hit, keeps l))
      | inr missed ↦ inl (ground (arith, here, missed))
    ],
  )
  | inr other ↦
      let later : find_unique j (update_many p f rows) ≡ some m = ground (arith, other, keeps l) in
      let (x, found, same) = found_update_many j p f rows m keeps later in
      (x, ground (arith, other, found), same)
]

-- A listing that is there has a key below the next one.
pub there_below :
    (i n : ℕ) (rows : List Listing)
    → All (λ l. l.id < n) rows
    → is_some (find_unique i rows) ≡ true
    → i < n
there_below i n [] low e = cc
there_below i n (l ∷ rows) low e = ground (arith, there_below i n rows low.1)

-- A sale to a new buyer counts one, another counts none.
pub buyers-sale :
    (j : ℕ) (p : Purchase) (ps : List Purchase)
    → buyers j (p ∷ ps)
      ≡ buyers j ps
        + (if p.listing_id == j && not (is_some (find_first (is_owned p.user_id p.listing_id) ps))
            then 1
            else 0)
buyers-sale j p ps = elim (Bool-cases (p.listing_id == j)) [
  | inr other ↦ ground (arith, other)
  | inl same ↦
      subst
        (λ k.
          buyers k (p ∷ ps)
          ≡ buyers k ps
            + (if p.listing_id == k
                  && not (is_some (find_first (is_owned p.user_id p.listing_id) ps))
                then 1
                else 0))
        (==→eq p.listing_id j same) (ground (arith, ==_refl p.listing_id))
]
