-- ===== src/Agents/Browse/Skipped.antt =====
-- What a client that follows the cursors of `findPublished` in
-- apps/api/src/modules/agents/services/listings.service.ts is shown.
use saziqo_platform.Prelude.{
  ℕ, zero, suc, ◌+◌, ◌≤◌, ◌<◌, ◌≡◌, refl, sym, subst, Option, none, some, List, [], ◌∷◌, ltb, arith,
  filter, length, take, get_last?, All, All-map, All-take, inl, inr, Bool-cases, Option-cases,
}
use saziqo_platform.Agents.{Market, Listing}
use saziqo_platform.Agents.Browse.{
  Filters, Sort, PublishedPage, is_match, place, sorted, goes_first, last_id, cut_page,
  published_rows, find_published,
}

abbrev pub behind : PublishedPage → (ℕ → List PublishedPage) → Option ℕ → List PublishedPage
behind page rest none = page ∷ []
behind page rest (some c) = page ∷ rest c

-- The pages from a cursor on: at most this many.
unfoldable pub pages : ℕ → Market → Filters → Option ℕ → Sort → ℕ → List PublishedPage
pages zero s f cursor k limit = []
pages (suc fuel) s f cursor k limit =
    let page = find_published s f cursor k limit in
    behind page (λ c. pages fuel s f (some c) k limit) page.next_cursor

abbrev pub Below : ℕ → Listing → Type 0
Below c l = l.id < c

pub place-All :
    (P : Listing → Type 0) (k : Sort) (l : Listing) (xs : List Listing)
    → P l
    → All P xs
    → All P (place k l xs)
place-All P k l [] p a = (p, tt)
place-All P k l (x ∷ xs) p a = elim (Bool-cases (goes_first k l x)) [
  | inl first ↦ rw first (p, a)
  | inr later ↦ rw later (a.0, place-All P k l xs p a.1)
]

pub sorted-All :
    (P : Listing → Type 0) (k : Sort) (xs : List Listing) → All P xs → All P (sorted k xs)
sorted-All P k [] a = tt
sorted-All P k (x ∷ xs) a = place-All P k x (sorted k xs) a.0 (sorted-All P k xs a.1)

matches-Below :
    (f : Filters) (c : ℕ) (xs : List Listing) → All (Below c) (filter (is_match f (some c)) xs)
matches-Below f c [] = tt
matches-Below f c (x ∷ xs) = ground (arith, matches-Below f c xs)

pub rows-Below :
    (s : Market) (f : Filters) (c : ℕ) (k : Sort) (limit : ℕ)
    → All (Below c) (published_rows s f (some c) k limit)
rows-Below s f c k limit =
    All-take (Below c) (limit + 1) (sorted k (filter (is_match f (some c)) s.listings.rows)) (
      sorted-All (Below c) k (filter (is_match f (some c)) s.listings.rows)
        (matches-Below f c s.listings.rows))

cut-Below :
    (c limit : ℕ) (rows : List Listing)
    → All (Below c) rows
    → All (Below c) (cut_page limit rows).items
cut-Below c limit rows a = elim (Bool-cases (ltb limit (length rows))) [
  | inl more ↦ rw more (All-take (Below c) limit rows a)
  | inr all_ ↦ rw all_ a
]

pub last-Below :
    (c d : ℕ) (rows : List Listing) → All (Below c) rows → last_id (get_last? rows) ≡ some d → d < c
last-Below c d [] a e = cc
last-Below c d (x ∷ []) a e = ground (arith, e, a.0)
last-Below c d (x ∷ y ∷ rows) a e = last-Below c d (y ∷ rows) a.1 e

pub cursor-Below :
    (c d limit : ℕ) (rows : List Listing)
    → All (Below c) rows
    → (cut_page limit rows).next_cursor ≡ some d
    → d < c
cursor-Below c d limit rows a e = elim (Bool-cases (ltb limit (length rows))) [
  | inl more ↦
      last-Below c d (take limit rows) (All-take (Below c) limit rows a) (ground (arith, e, more))
  | inr all_ ↦ absurd (ground (arith, e, all_))
]

abbrev pub AllBelow : ℕ → PublishedPage → Type 0
AllBelow c page = All (Below c) page.items

pub pages_below :
    (fuel : ℕ) (s : Market) (f : Filters) (c e : ℕ) (k : Sort) (limit : ℕ)
    → c ≤ e
    → All (AllBelow e) (pages fuel s f (some c) k limit)
unfolding pages find_published
pages_below zero s f c e k limit le = tt
pages_below (suc fuel) s f c e k limit le =
    let rows = published_rows s f (some c) k limit in
    let page = cut_page limit rows in
    let rest = λ (d : ℕ). pages fuel s f (some d) k limit in
    let low : AllBelow e page =
      All-map (λ l lt. omega (arith, lt, le)) page.items
        (cut-Below c limit rows (rows-Below s f c k limit)) in
    elim (Option-cases page.next_cursor) [
      | inl end ↦ subst (λ o. All (AllBelow e) (behind page rest o)) (sym end) (low, tt)
      | inr (d, more) ↦
          let less = cursor-Below c d limit rows (rows-Below s f c k limit) more in
          subst (λ o. All (AllBelow e) (behind page rest o)) (sym more)
            (low, pages_below fuel s f d e k limit (omega arith))
    ]

-- The pages end with one that has no cursor.
abbrev pub Ends : List PublishedPage → Type 0
Ends pages = (p : PublishedPage) × (get_last? pages ≡ some p) × (p.next_cursor ≡ none)

Ends-cons : (p : PublishedPage) (ps : List PublishedPage) → Ends ps → Ends (p ∷ ps)
Ends-cons p [] (q, e, h) = cc
Ends-cons p (x ∷ ps) h = h

-- Who follows the cursors comes to a page without one: from a cursor there are no more pages than ids up
-- to it.
pub pages_end :
    (fuel : ℕ) (s : Market) (f : Filters) (c : ℕ) (k : Sort) (limit : ℕ)
    → c < fuel
    → Ends (pages fuel s f (some c) k limit)
unfolding pages find_published
pages_end zero s f c k limit lt = absurd (omega arith)
pages_end (suc fuel) s f c k limit lt =
    let rows = published_rows s f (some c) k limit in
    let page = cut_page limit rows in
    let rest = λ (d : ℕ). pages fuel s f (some d) k limit in
    elim (Option-cases page.next_cursor) [
      | inl end ↦ subst (λ o. Ends (behind page rest o)) (sym end) (page, refl, end)
      | inr (d, more) ↦
          let less = cursor-Below c d limit rows (rows-Below s f c k limit) more in
          subst (λ o. Ends (behind page rest o)) (sym more)
            (Ends-cons page (pages fuel s f (some d) k limit)
              (pages_end fuel s f d k limit (omega arith)))
    ]
