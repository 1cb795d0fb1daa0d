-- ===== src/Agents/Browse.antt =====
-- `findPublished` of apps/api/src/modules/agents/services/listings.service.ts, and its look-ups of one
-- listing. A rating is in hundredths.
pub mod Skipped
pub mod Walked
use saziqo_platform.Prelude.{
  ℕ, zero, suc, ◌+◌, Bool, true, false, not, ◌&&◌, ◌||◌, Option, none, some, List, [], ◌∷◌, ◌==◌,
  ltb, leb, if◌then◌else◌, Text, text_eq, is_some, filter, length, take, get_last?,
}
use saziqo_platform.Table.{find_first}
use saziqo_platform.Agents.{
  Market, Listing, PricingType, Review, is_published, is_live, is_owned, is_per_run,
}
use saziqo_platform.Agents.Runs.{is_runs_of}
use saziqo_platform.Agents.Listings.{shown_ratings}

-- `FindPublishedFilters`; `free_only` is false where it is left out.
pub record Filters : Type 0 where
  pub category_id : Option ℕ
  pub pricing_type : Option PricingType
  pub free_only : Bool
  pub min_rating : Option ℕ

pub data Sort : Type 0 where
  newest most_installed top_rated : Sort

-- `FindPublishedResult`
pub record PublishedPage : Type 0 where
  pub items : List Listing
  pub next_cursor : Option ℕ
  pub has_more : Bool

abbrev pub pricing_code : PricingType → ℕ
pricing_code PricingType.free = 0
pricing_code PricingType.one_time = 1
pricing_code PricingType.per_run = 2

abbrev pub in_category : Option ℕ → Listing → Bool
in_category none l = true
in_category (some i) l = i == l.category_id

abbrev pub has_pricing : Option PricingType → Listing → Bool
has_pricing none l = true
has_pricing (some k) l = pricing_code k == pricing_code l.pricing_type

-- `freeOnly` goes before `pricingType`.
abbrev pub has_price : Bool → Option PricingType → Listing → Bool
has_price true k l = has_pricing (some PricingType.free) l
has_price false k l = has_pricing k l

abbrev pub at_least : Option ℕ → ℕ → Bool
at_least none n = false
at_least (some a) n = leb n a

-- `ratingAverage: { gte }`, which a null does not pass.
abbrev pub has_rating : Option ℕ → Listing → Bool
has_rating none l = true
has_rating (some n) l = at_least l.rating_average n

-- `id: { lt: cursor }`
abbrev pub before : Option ℕ → Listing → Bool
before none l = true
before (some c) l = ltb l.id c

-- The `where` of the query.
abbrev pub is_match : Filters → Option ℕ → Listing → Bool
is_match f cursor l =
    before cursor l
    && (is_published l.status
        && not (is_some l.deleted_at)
        && in_category f.category_id l
        && has_price f.free_only f.pricing_type l
        && has_rating f.min_rating l)

-- A null is last in a falling order.
abbrev pub nulls_last : Option ℕ → ℕ
nulls_last none = 0
nulls_last (some n) = suc n

abbrev pub sort_key : Sort → Listing → ℕ
sort_key newest l = nulls_last l.published_at
sort_key most_installed l = l.total_users
sort_key top_rated l = nulls_last l.rating_average

-- The order of `orderBy`: the key falls, then the id.
abbrev pub goes_first : Sort → Listing → Listing → Bool
goes_first k a b =
    ltb (sort_key k b) (sort_key k a) || (sort_key k a == sort_key k b && ltb b.id a.id)

abbrev pub place : Sort → Listing → List Listing → List Listing
place k l [] = l ∷ []
place k l (x ∷ xs) = let rest = place k l xs in if goes_first k l x then l ∷ x ∷ xs else x ∷ rest

abbrev pub sorted : Sort → List Listing → List Listing
sorted k [] = []
sorted k (l ∷ ls) = place k l (sorted k ls)

abbrev pub last_id : Option Listing → Option ℕ
last_id none = none
last_id (some l) = some l.id

-- What is made of the rows of the query, of which there may be one more than the limit.
abbrev pub cut_page : ℕ → List Listing → PublishedPage
cut_page limit rows =
    let has_more = ltb limit (length rows) in
    let items = if has_more then take limit rows else rows in
    record {
      items = items;
      next_cursor = if has_more then last_id (get_last? items) else none;
      has_more = has_more;
    }

-- The rows of the query.
abbrev pub published_rows : Market → Filters → Option ℕ → Sort → ℕ → List Listing
published_rows s f cursor k limit =
    take (limit + 1) (sorted k (filter (is_match f cursor) s.listings.rows))

-- `findPublished`
unfoldable pub find_published : Market → Filters → Option ℕ → Sort → ℕ → PublishedPage
find_published s f cursor k limit = cut_page limit (published_rows s f cursor k limit)

-- `findPublishedById`
unfoldable pub find_published_by_id : ℕ → Market → Option Listing
find_published_by_id i s = find_first (λ l. is_live i l && is_published l.status) s.listings.rows

-- `findPublishedBySlug`
unfoldable pub find_published_by_slug : Text → Market → Option Listing
find_published_by_slug slug s =
    find_first (λ l. text_eq slug l.slug && is_published l.status && not (is_some l.deleted_at))
      s.listings.rows

-- `findByIdForMaker`
unfoldable pub find_by_id_for_maker : ℕ → ℕ → Market → Option Listing
find_by_id_for_maker i maker s =
    find_first (λ l. is_live i l && maker == l.maker_user_id) s.listings.rows

-- `findByIdForAdmin`
unfoldable pub find_by_id_for_admin : ℕ → Market → Option Listing
find_by_id_for_admin i s = find_first (is_live i) s.listings.rows
