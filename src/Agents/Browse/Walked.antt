-- ===== src/Agents/Browse/Walked.antt =====
-- Which listings a client that follows the cursors of `findPublished` in
-- apps/api/src/modules/agents/services/listings.service.ts is shown, and which it misses.
use saziqo_platform.Prelude.{
  ℕ, zero, suc, ◌+◌, ◌≤◌, ◌<◌, ◌≡◌, refl, sym, subst, ap, ◌∙◌, Bool, true, false, ◌||◌, ◌⊎◌, Option,
  none, some, List, [], ◌∷◌, ltb, ◌==◌, arith, filter, length, take, get_last?, any, All, All-map,
  All-take, All-filter, inl, inr, Bool-cases,
}
use saziqo_platform.Table.{find_unique}
use saziqo_platform.Agents.{Market, Listing, listing_key}
use saziqo_platform.Agents.Browse.{
  Filters, Sort, PublishedPage, is_match, place, sorted, goes_first, last_id, cut_page,
  published_rows, find_published,
}
use saziqo_platform.Agents.Browse.Skipped.{
  pages, behind, Below, AllBelow, pages_below, sorted-All, cursor-Below, rows-Below,
}

-- Whether the listing with this id is among these.
abbrev pub shows : ℕ → List Listing → Bool
shows i = any (λ m. i == m.id)

-- The cursor is above the id, so that listings with it may still come.
abbrev pub is_ahead : ℕ → Option ℕ → Bool
is_ahead i none = false
is_ahead i (some c) = ltb i c

-- What becomes of a listing on a walk through the pages: a page shows it; or one that does not show it
-- hands out a cursor that is not above its id, and no page behind that one shows it; or it is still to
-- come behind this page.
abbrev pub Met : ℕ → List PublishedPage → Type 0
Met i [] = ⊥
Met i (p ∷ ps) =
    (shows i p.items ≡ true)
    ⊎ (((shows i p.items ≡ false)
          × ((c : ℕ) × (p.next_cursor ≡ some c) × (c ≤ i))
          × All (λ q. shows i q.items ≡ false) ps)
        ⊎ ((is_ahead i p.next_cursor ≡ true) × Met i ps))

shows-place :
    (i : ℕ) (k : Sort) (l : Listing) (xs : List Listing)
    → shows i (place k l xs) ≡ (i == l.id || shows i xs)
shows-place i k l [] = refl
shows-place i k l (x ∷ xs) = elim (Bool-cases (goes_first k l x)) [
  | inl first ↦ rw first refl
  | inr later ↦ rw later (ground (arith, shows-place i k l xs))
]

shows-sorted : (i : ℕ) (k : Sort) (xs : List Listing) → shows i (sorted k xs) ≡ shows i xs
shows-sorted i k [] = refl
shows-sorted i k (x ∷ xs) =
    shows-place i k x (sorted k xs) ∙ ap (λ b. i == x.id || b) (shows-sorted i k xs)

shows-filter :
    (p : Listing → Bool) (l : Listing) (xs : List Listing)
    → find_unique l.id xs ≡ some l
    → p l ≡ true
    → shows l.id (filter p xs) ≡ true
shows-filter p l [] e h = cc
shows-filter p l (x ∷ xs) e h = elim (Bool-cases (l.id == x.id)) [
  | inl here ↦
      let same : x ≡ l = ground (arith, e, here) in
      subst (λ y. shows l.id (filter p (y ∷ xs)) ≡ true) (sym same) (ground (arith, h))
  | inr other ↦ ground (arith, shows-filter p l xs (ground (arith, e, other)) h)
]

take_all : (n m : ℕ) (xs : List Listing) → n < m → length (take m xs) ≤ n → take m xs ≡ xs
take_all n zero xs lt le = absurd (omega arith)
take_all n (suc m) [] lt le = refl
take_all zero (suc m) (x ∷ xs) lt le = absurd (omega arith)
take_all (suc n) (suc m) (x ∷ xs) lt le = ap (◌∷◌ x) (take_all n m xs (omega arith) (omega arith))

last_of : (x : Listing) (xs : List Listing) → (d : ℕ) × (last_id (get_last? (x ∷ xs)) ≡ some d)
last_of x [] = (x.id, refl)
last_of x (y ∷ xs) = last_of y xs

handed_out :
    (limit : ℕ) (rows : List Listing)
    → 0 < limit
    → ltb limit (length rows) ≡ true
    → (d : ℕ) × ((cut_page limit rows).next_cursor ≡ some d)
handed_out zero rows lt more = absurd (omega arith)
handed_out (suc limit) [] lt more = absurd (ground (arith, more))
handed_out (suc limit) (x ∷ rows) lt more =
    let (d, e) = last_of x (take limit rows) in (d, rw more e)

still_matches :
    (f : Filters) (cursor : Option ℕ) (d : ℕ) (l : Listing)
    → is_match f cursor l ≡ true
    → l.id < d
    → is_match f (some d) l ≡ true
still_matches f none d l e lt = ground (arith, e)
still_matches f (some c) d l e lt = ground (arith, e)

-- A page without a cursor shows every listing that matches.
last_page_shows :
    (s : Market) (f : Filters) (cursor : Option ℕ) (k : Sort) (limit : ℕ) (l : Listing)
    → find_unique l.id s.listings.rows ≡ some l
    → is_match f cursor l ≡ true
    → ltb limit (length (published_rows s f cursor k limit)) ≡ false
    → shows l.id (cut_page limit (published_rows s f cursor k limit)).items ≡ true
last_page_shows s f cursor k limit l there matching all_ =
    let found = filter (is_match f cursor) s.listings.rows in
    rw all_ (
      ap (shows l.id)
        (take_all limit (limit + 1) (sorted k found) (omega arith) (ground (arith, all_)))
      ∙ shows-sorted l.id k found
      ∙ shows-filter (is_match f cursor) l s.listings.rows there matching)

none_shows : (i c : ℕ) (xs : List Listing) → c ≤ i → All (Below c) xs → shows i xs ≡ false
none_shows i c [] le h = refl
none_shows i c (x ∷ xs) le h = ground (arith, none_shows i c xs le h.1, h.0)

pages_miss :
    (i c : ℕ) (ps : List PublishedPage)
    → c ≤ i
    → All (AllBelow c) ps
    → All (λ q. shows i q.items ≡ false) ps
pages_miss i c ps le h = All-map (λ q low. none_shows i c q.items le low) ps h

module _ (s : Market) (f : Filters) (k : Sort) (limit : ℕ) (l : Listing)
    (there : find_unique l.id s.listings.rows ≡ some l) (positive : 0 < limit) where
  -- One page, and what the rest does with a listing that is still to come.
  reached_from :
      (fuel : ℕ) (cursor : Option ℕ)
      → is_match f cursor l ≡ true
      → ((d : ℕ)
          → (find_published s f cursor k limit).next_cursor ≡ some d
          → l.id < d
          → Met l.id (pages fuel s f (some d) k limit))
      → Met l.id (pages (suc fuel) s f cursor k limit)
  unfolding pages find_published
  reached_from fuel cursor matching rest =
      let rows = published_rows s f cursor k limit in
      let page = cut_page limit rows in
      let later = λ (d : ℕ). pages fuel s f (some d) k limit in
      elim (Bool-cases (shows l.id page.items)) [
        | inl shown ↦ elim page.next_cursor as (λ o. Met l.id (behind page later o)) [
          | none ↦ inl shown
          | some d ↦ inl shown
        ]
        | inr missed ↦ elim (Bool-cases (ltb limit (length rows))) [
          | inr all_ ↦
              absurd
                (ground (arith, missed, last_page_shows s f cursor k limit l there matching all_))
          | inl more ↦
              let (d, e) = handed_out limit rows positive more in
              subst (λ o. Met l.id (behind page later o)) (sym e)
                (elim (Bool-cases (ltb l.id d)) [
                  | inl ahead ↦ inr (inr (rw e ahead, rest d e (ground (arith, ahead))))
                  | inr passed ↦
                      let le : d ≤ l.id = ground (arith, passed) in
                      inr (
                        inl (
                          missed,
                          (d, e, le),
                          pages_miss l.id d (later d) le
                              (pages_below fuel s f d d k limit (omega arith)),
                        ))
                ])
        ]
      ]

  reached_below :
      (fuel c : ℕ)
      → c < fuel
      → is_match f (some c) l ≡ true
      → Met l.id (pages fuel s f (some c) k limit)
  unfolding find_published
  reached_below zero c lt matching = absurd (omega arith)
  reached_below (suc fuel) c lt matching = reached_from fuel (some c) matching (λ d e ahead.
      let less =
        cursor-Below c d limit (published_rows s f (some c) k limit) (rows-Below s f c k limit) e in
      reached_below fuel d (omega (arith, less, lt)) (still_matches f (some c) d l matching ahead))

-- Who follows the cursors, from any page of at least one listing on, for as many pages as there are ids
-- and one more: of each listing that matches the filters and the first cursor, either a page shows it,
-- and the cursors before that page are above its id; or, whatever the order, a page that does not show
-- it hands out a cursor at or below its id, as the first to do so, and then no page behind shows it.
pub shown_or_missed :
    (fuel : ℕ) (s : Market) (f : Filters) (cursor : Option ℕ) (k : Sort) (limit : ℕ) (l : Listing)
    → 0 < limit
    → All (Below fuel) s.listings.rows
    → find_unique l.id s.listings.rows ≡ some l
    → is_match f cursor l ≡ true
    → Met l.id (pages (suc fuel) s f cursor k limit)
unfolding find_published
shown_or_missed fuel s f cursor k limit l positive bound there matching =
    let found = filter (is_match f cursor) s.listings.rows in
    let rows_below = All-take (Below fuel) (limit + 1) (sorted k found) (
      sorted-All (Below fuel) k found
        (All-filter (Below fuel) (is_match f cursor) s.listings.rows bound)) in
    reached_from s f k limit l there positive fuel cursor matching (λ d e ahead.
      reached_below s f k limit l there positive fuel d
        (cursor-Below fuel d limit (published_rows s f cursor k limit) rows_below e)
        (still_matches f cursor d l matching ahead))
