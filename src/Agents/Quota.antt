-- ===== src/Agents/Quota.antt =====
-- The limits that `create` of apps/api/src/modules/agents/services/listings.service.ts keeps: slugs that
-- differ, and the quota of a maker's listings.
use saziqo_platform.Prelude.{
  ℕ, ◌≤◌, ◌≡◌, refl, sym, ap, subst, Bool, true, false, none, List, [], ◌∷◌, Text, text_eq, ◌==◌,
  ==→eq, arith, inl, inr, Bool-cases, is_some, length, filter,
}
use saziqo_platform.Table.{Table, find_first, update, update_many}
use saziqo_platform.Table.Fresh.{IsFresh}
use saziqo_platform.Agents.{Market, Listing, RunOutcome, listing_key, is_owned, update_listing}
use saziqo_platform.Agents.Reviews.{review_key}
use saziqo_platform.Agents.Runs.{has_runs, after_one_run, with_user_runs, new_event, one_more_run}
use saziqo_platform.Agents.Checkout.{
  BuiltLine, granted_pack, grant_pack, sell_line, with_purchase, count_user, one_more_user,
}
use saziqo_platform.Agents.Listings.{
  with_listing, rated, shown_ratings, is_viewed, one_more_view, has_exact_slug, is_kept_of,
  maker_listings_quota,
}
use saziqo_platform.Agents.Steps.{Edits, Step, event_if}
use saziqo_platform.Agents.Increments.{Raised}
use saziqo_platform.Agents.Sequences.{Call, called_all, called_all-kept}
use saziqo_platform.Agents.Sales.{grant_pack_listings}
use saziqo_platform.Agents.Paths.{event_if_listings}
use saziqo_platform.Agents.Counters.Written.{viewed}

abbrev pub kept : ℕ → List Listing → ℕ
kept maker rows = length (filter (is_kept_of maker) rows)

-- No slug twice, deleted listings included.
abbrev pub Distinct : List Listing → Type 0
Distinct [] = Unit
Distinct (l ∷ rows) = (find_first (has_exact_slug l.slug) rows ≡ none) × Distinct rows

-- No maker has more live listings than the quota, and no slug is there twice.
abbrev pub WithinLimits : List Listing → Type 0
WithinLimits rows = ((maker : ℕ) → kept maker rows ≤ maker_listings_quota) × Distinct rows

-- What an edit must leave alone.
abbrev Leaves : (Listing → Listing) → Type 0
Leaves f =
    (m : Listing)
    → ((f m).slug ≡ m.slug)
      × ((f m).maker_user_id ≡ m.maker_user_id)
      × (is_some m.deleted_at ≡ true → is_some (f m).deleted_at ≡ true)

kept_one :
    (maker : ℕ) (f : Listing → Listing) (l : Listing)
    → Leaves f
    → is_kept_of maker (f l) ≡ true
    → is_kept_of maker l ≡ true
kept_one maker f l leaves e = elim (Bool-cases (is_some l.deleted_at)) [
  | inl gone ↦ absurd (ground (arith, e, (leaves l).2 gone))
  | inr live ↦ ground (arith, e, live, (leaves l).1)
]

kept-update :
    (maker i : ℕ) (f : Listing → Listing) (rows : List Listing)
    → Leaves f
    → kept maker (update i f rows) ≤ kept maker rows
kept-update maker i f [] leaves = omega arith
kept-update maker i f (l ∷ rows) leaves =
    ground (arith, kept-update maker i f rows leaves, kept_one maker f l leaves)

kept-update_many :
    (maker : ℕ) (p : Listing → Bool) (rows : List Listing)
    → kept maker (update_many p one_more_view rows) ≡ kept maker rows
kept-update_many maker p [] = refl
kept-update_many maker p (l ∷ rows) = ground (arith, kept-update_many maker p rows)

slug_free-update :
    (slug : Text) (i : ℕ) (f : Listing → Listing) (rows : List Listing)
    → Leaves f
    → find_first (has_exact_slug slug) rows ≡ none
    → find_first (has_exact_slug slug) (update i f rows) ≡ none
slug_free-update slug i f [] leaves e = refl
slug_free-update slug i f (l ∷ rows) leaves e =
    ground
      (arith, slug_free-update slug i f rows leaves, (leaves l).0, ap (text_eq slug) (leaves l).0)

slug_free-update_many :
    (slug : Text) (p : Listing → Bool) (rows : List Listing)
    → find_first (has_exact_slug slug) rows ≡ none
    → find_first (has_exact_slug slug) (update_many p one_more_view rows) ≡ none
slug_free-update_many slug p [] e = refl
slug_free-update_many slug p (l ∷ rows) e = ground (arith, slug_free-update_many slug p rows)

Distinct-update :
    (i : ℕ) (f : Listing → Listing) (rows : List Listing)
    → Leaves f
    → Distinct rows
    → Distinct (update i f rows)
Distinct-update i f [] leaves d = tt
Distinct-update i f (l ∷ rows) leaves d = elim (Bool-cases (i == l.id)) [
  | inl here ↦ ground (
    arith,
    here,
    d.1,
    subst (λ slug. find_first (has_exact_slug slug) rows ≡ none) (sym (leaves l).0) d.0,
  )
  | inr other ↦ ground (
    arith,
    other,
    slug_free-update l.slug i f rows leaves d.0,
    Distinct-update i f rows leaves d.1,
  )
]

Distinct-update_many :
    (p : Listing → Bool) (rows : List Listing)
    → Distinct rows
    → Distinct (update_many p one_more_view rows)
Distinct-update_many p [] d = tt
Distinct-update_many p (l ∷ rows) d = elim (Bool-cases (p l)) [
  | inl hit ↦
      ground (arith, hit, slug_free-update_many l.slug p rows d.0, Distinct-update_many p rows d.1)
  | inr missed ↦
      ground
        (arith, missed, slug_free-update_many l.slug p rows d.0, Distinct-update_many p rows d.1)
]

abbrev IsLimited : Market → Type 0
IsLimited s = WithinLimits s.listings.rows

IsLimited-same : (s t : Market) → s.listings ≡ t.listings → IsLimited s → IsLimited t
IsLimited-same s t e h = subst (λ (x : Table Listing). WithinLimits x.rows) e h

IsLimited-write :
    (i : ℕ) (f : Listing → Listing) (s : Market)
    → Leaves f
    → IsLimited s
    → IsLimited (update_listing i f s)
IsLimited-write i f s leaves (quota, slugs) = (
  λ maker. omega (arith, kept-update maker i f s.listings.rows leaves, quota maker),
  Distinct-update i f s.listings.rows leaves slugs,
)

Leaves-of : (f : Listing → Listing) → ((m : Listing) → Edits m (f m)) → Leaves f
Leaves-of f edits m = ((edits m).7, (edits m).8, (edits m).9)

IsLimited-count : (b : Bool) (i : ℕ) (s : Market) → IsLimited s → IsLimited (count_user b i s)
IsLimited-count true i s h = h
IsLimited-count false i s h = IsLimited-write i one_more_user s (λ m. (refl, refl, λ d. d)) h

IsLimited-sale :
    (user_id : ℕ) (line : BuiltLine) (s : Market)
    → IsLimited s
    → IsLimited (sell_line user_id line s)
unfolding sell_line
IsLimited-sale user_id line s h =
    let i = line.listing.id in
    let t = with_purchase user_id line s in
    let pack = granted_pack line.listing.pricing_type line.pack in
    IsLimited-count (is_some (find_first (is_owned user_id i) s.purchases.rows)) i
      (grant_pack user_id i pack t)
      (IsLimited-same s (grant_pack user_id i pack t) (sym (grant_pack_listings user_id i pack t))
        h)

Step-IsLimited : (s t : Market) → Step s t → IsLimited s → IsLimited t
Step-IsLimited s t (Step.aside _ same) h = IsLimited-same s t same.0 h
Step-IsLimited s t (Step.moves _ l f found edge keeps same) h =
    IsLimited-same (update_listing l.id f s) t same.0
      (IsLimited-write l.id f s (Leaves-of f keeps) h)
Step-IsLimited s t (Step.edits _ i f keeps same) h =
    IsLimited-same (update_listing i f s) t same.0
      (IsLimited-write i f s (Leaves-of f (λ m. (keeps m).0)) h)
Step-IsLimited s t (Step.views _ slug same) (quota, slugs) =
    IsLimited-same (viewed slug s) t same.0 (
      λ maker. omega (arith, kept-update_many maker (is_viewed slug) s.listings.rows, quota maker),
      Distinct-update_many (is_viewed slug) s.listings.rows slugs,
    )
Step-IsLimited s t (Step.creates _ lower maker dto shape new room same) (quota, slugs) =
    IsLimited-same (with_listing lower maker dto s) t same.0 (
      λ other. elim (Bool-cases (other == maker)) [
        | inr apart ↦ ground (arith, apart, quota other)
        | inl one ↦
            subst
              (λ m. kept m (with_listing lower maker dto s).listings.rows ≤ maker_listings_quota)
              (sym (==→eq other maker one)) (ground (arith, room))
      ],
      (new, slugs),
    )
Step-IsLimited s t (Step.sells _ user_id line sellable same) h =
    IsLimited-same (sell_line user_id line s) t same.0 (IsLimited-sale user_id line s h)
Step-IsLimited s t (Step.refuses _ mk refusal same) h = IsLimited-same s t same.0 h
Step-IsLimited s t (Step.consumes _ written input i now r there found same) h =
    let u = with_user_runs (update_many (has_runs input.user_id i) (after_one_run now)) s in
    let v = event_if written (new_event input i RunOutcome.consumed) u in
    IsLimited-same (update_listing i one_more_run v) t same.0 (
      IsLimited-write i one_more_run v (λ m. (refl, refl, λ d. d))
        (IsLimited-same s v (event_if_listings written input i u) h))
Step-IsLimited s t (Step.rates _ i rs there fresh others same) h =
    IsLimited-same (update_listing i (rated (shown_ratings i rs.rows)) s) t same.0
      (IsLimited-write i (rated (shown_ratings i rs.rows)) s (λ m. (refl, refl, λ d. d)) h)
Step-IsLimited s t (Step.rewords _ rs fresh others same) h = IsLimited-same s t same.0 h

Raised-IsLimited : Raised IsLimited
Raised-IsLimited s i h = (
  IsLimited-write i one_more_user s (λ m. (refl, refl, λ d. d)) h,
  IsLimited-write i one_more_run s (λ m. (refl, refl, λ d. d)) h,
)

-- After any calls on the marketplace, from one in which this holds: no maker has more than fifty listings
-- that are not deleted, and no slug is there twice.
pub called_all-WithinLimits :
    (calls : List Call) (s : Market)
    → IsFresh s.reviews
    → WithinLimits s.listings.rows
    → WithinLimits (called_all calls s).listings.rows
called_all-WithinLimits calls s fresh h =
    called_all-kept IsLimited Step-IsLimited Raised-IsLimited calls s fresh h
