-- ===== src/Agents/Listings.antt =====
-- apps/api/src/modules/agents/services/listings.service.ts: creation of listings, counters, ratings and
-- look-ups. The numbers of a request may be negative. `toLowerCase` is a parameter. Lifecycle has the
-- status transitions.
use saziqo_platform.Prelude.{
  ℕ, suc, ◌+◌, ◌*◌, ◌/◌, Bool, true, not, ◌&&◌, ◌||◌, Option, none, some, List, [], ◌∷◌, ◌==◌, ltb,
  leb, if◌then◌else◌, Text, codes, text_eq, is_some, filter, any, length, ℤ, pos, pos_part, leb_ℤ,
}
use saziqo_platform.Action.{
  Action, ok, err, Thrown, http, plain, ErrorCode, bad_request, conflict_status, throw_if, gets,
  modify, transaction, ◌>>=◌, ◌>>◌,
}
use saziqo_platform.Table.{Table, find_first, find_unique, update_many, insert}
use saziqo_platform.Agents.{
  Market, Listing, ListingStatus, PricingType, RunPack, Review, listing_key, is_published,
  update_listing,
}

-- `MAKER_LISTINGS_QUOTA`
abbrev pub maker_listings_quota : ℕ
maker_listings_quota = 50

-- `RUN_PACKS_MIN`
abbrev pub run_packs_min : ℕ
run_packs_min = 1

-- `RUN_PACKS_MAX`
abbrev pub run_packs_max : ℕ
run_packs_max = 5

-- `CreateRunPackInput`
pub record CreateRunPackInput : Type 0 where
  pub name_fa : Text
  pub runs : ℤ
  pub price_toman : ℤ

-- `CreateListingInput`
pub record CreateListingInput : Type 0 where
  pub slug : Text
  pub title_fa : Text
  pub short_desc_fa : Text
  pub long_desc_fa_md : Text
  pub category_id : ℕ
  pub pricing_type : PricingType
  pub one_time_price_toman : Option ℤ
  pub install_instructions_fa_md : Option Text
  pub bundle_file_id : Option ℕ
  pub run_packs : Option (List CreateRunPackInput)

abbrev pub invalid_packs : Thrown
invalid_packs = http ErrorCode.invalid_packs bad_request

-- `runPacks ?? []`
abbrev pub packs_of : Option (List CreateRunPackInput) → List CreateRunPackInput
packs_of none = []
packs_of (some packs) = packs

abbrev pub is_outside : ℕ → Bool
is_outside n = ltb n run_packs_min || ltb run_packs_max n

abbrev pub is_bad_pack : CreateRunPackInput → Bool
is_bad_pack p = leb_ℤ p.runs (pos 0) || leb_ℤ p.price_toman (pos 0)

abbrev pub is_not_positive : Option ℤ → Bool
is_not_positive none = true
is_not_positive (some a) = leb_ℤ a (pos 0)

-- Whether `assertPricingShape` throws, which is always INVALID_PACKS.
unfoldable pub is_misshapen : CreateListingInput → PricingType → Bool
is_misshapen dto PricingType.per_run =
    is_outside (length (packs_of dto.run_packs))
    || any is_bad_pack (packs_of dto.run_packs)
    || is_some dto.one_time_price_toman
is_misshapen dto PricingType.one_time =
    is_not_positive dto.one_time_price_toman || ltb 0 (length (packs_of dto.run_packs))
is_misshapen dto PricingType.free =
    is_some dto.one_time_price_toman || ltb 0 (length (packs_of dto.run_packs))

-- `assertPricingShape`
unfoldable pub assert_pricing_shape : CreateListingInput → Action Market (Unit {0})
unfolding is_misshapen
assert_pricing_shape dto = throw_if (is_misshapen dto dto.pricing_type) invalid_packs

-- `slug: { equals, mode: 'insensitive' }, deletedAt: null`
abbrev pub has_slug_of : (Text → Text) → Text → Listing → Bool
has_slug_of lower slug l = text_eq slug (lower l.slug) && not (is_some l.deleted_at)

-- `{ makerUserId, deletedAt: null }`
abbrev pub is_kept_of : ℕ → Listing → Bool
is_kept_of maker l = maker == l.maker_user_id && not (is_some l.deleted_at)

abbrev pub price_of : Option ℤ → Option ℕ
price_of none = none
price_of (some a) = some (pos_part a)

abbrev pub new_listing : (Text → Text) → ℕ → CreateListingInput → ℕ → Listing
new_listing lower maker dto i = record {
  id = i;
  slug = lower dto.slug;
  title_fa = dto.title_fa;
  short_desc_fa = dto.short_desc_fa;
  long_desc_fa_md = dto.long_desc_fa_md;
  install_instructions_fa_md = dto.install_instructions_fa_md;
  category_id = dto.category_id;
  maker_user_id = maker;
  pricing_type = dto.pricing_type;
  one_time_price_toman = price_of dto.one_time_price_toman;
  status = ListingStatus.draft;
  rejection_reason = none;
  suspension_reason = none;
  bundle_file_id = dto.bundle_file_id;
  api_key_hash = none;
  total_users = 0;
  total_runs = 0;
  view_count = 0;
  rating_average = none;
  rating_count = 0;
  published_at = none;
  deleted_at = none;
}

abbrev pub new_pack : ℕ → CreateRunPackInput → ℕ → ℕ → RunPack
new_pack listing_id p order i = record {
  id = i;
  listing_id = listing_id;
  name_fa = p.name_fa;
  runs = pos_part p.runs;
  price_toman = pos_part p.price_toman;
  order = order;
  is_active = true;
}

-- `agents_run_pack.createMany`: the rows in the order of the request, from this index.
unfoldable pub create_packs : ℕ → ℕ → List CreateRunPackInput → Table RunPack → Table RunPack
create_packs listing_id order [] t = t
create_packs listing_id order (p ∷ ps) t =
    create_packs listing_id (suc order) ps (insert (new_pack listing_id p order) t)

-- `dto.pricingType === 'PER_RUN' && dto.runPacks`
abbrev pub created_packs : ℕ → CreateListingInput → PricingType → Table RunPack → Table RunPack
created_packs i dto PricingType.per_run t = create_packs i 0 (packs_of dto.run_packs) t
created_packs i dto PricingType.one_time t = t
created_packs i dto PricingType.free t = t

-- The writes of `create`.
abbrev pub with_listing : (Text → Text) → ℕ → CreateListingInput → Market → Market
with_listing lower maker dto s = record s {
  listings = insert (new_listing lower maker dto) s.listings;
  run_packs = created_packs s.listings.next dto dto.pricing_type s.run_packs;
}

abbrev pub has_exact_slug : Text → Listing → Bool
has_exact_slug slug l = text_eq slug l.slug

-- `slug String @unique` counts deleted rows too.
unfoldable pub insert_listing : (Text → Text) → ℕ → CreateListingInput → Action Market Listing
insert_listing lower maker dto s =
    if is_some (find_first (has_exact_slug (lower dto.slug)) s.listings.rows)
    then (err (plain (codes "P2002")), s)
    else (ok (new_listing lower maker dto s.listings.next), with_listing lower maker dto s)

unfoldable pub create_in_transaction :
    (Text → Text) → ℕ → CreateListingInput → Action Market Listing
unfolding insert_listing
create_in_transaction lower maker dto = do
  clash ← gets (λ s. find_first (has_slug_of lower (lower dto.slug)) s.listings.rows)
  throw_if (is_some clash) (http ErrorCode.slug_taken conflict_status)
  count ← gets (λ s. length (filter (is_kept_of maker) s.listings.rows))
  throw_if (leb maker_listings_quota count) (http ErrorCode.maker_quota_exceeded conflict_status)
  insert_listing lower maker dto

-- `create`
unfoldable pub create : (Text → Text) → ℕ → CreateListingInput → Action Market Listing
unfolding assert_pricing_shape create_in_transaction
create lower maker dto = do
  assert_pricing_shape dto
  transaction (create_in_transaction lower maker dto)

abbrev pub one_more_view : Listing → Listing
one_more_view l = record l { view_count = suc l.view_count }

-- `{ slug, status: PUBLISHED, deletedAt: null }`
abbrev pub is_viewed : Text → Listing → Bool
is_viewed slug l = text_eq slug l.slug && is_published l.status && not (is_some l.deleted_at)

-- `recordView`: the sample is in hundredths.
unfoldable pub record_view : Text → ℕ → Action Market (Unit {0})
record_view slug sample = modify (λ s. if leb 20 sample then s else record s {
  listings = record {
    rows = update_many (is_viewed slug) one_more_view s.listings.rows;
    next = s.listings.next;
  };
})

-- `{ listingId, isHidden: false }`
abbrev pub is_shown : ℕ → Review → Bool
is_shown listing_id r = listing_id == r.listing_id && not r.is_hidden

-- The ratings that the aggregate is over.
abbrev pub shown_ratings : ℕ → List Review → List ℕ
shown_ratings i [] = []
shown_ratings i (r ∷ rs) =
    let rest = shown_ratings i rs in if is_shown i r then r.rating ∷ rest else rest

abbrev pub sum_of : List ℕ → ℕ
sum_of [] = 0
sum_of (n ∷ ns) = n + sum_of ns

-- The average of these ratings in hundredths, a half rounded up.
abbrev pub average_of : List ℕ → Option ℕ
average_of [] = none
average_of (n ∷ ns) = some ((200 * sum_of (n ∷ ns) + length (n ∷ ns)) / (2 * length (n ∷ ns)))

abbrev pub rated : List ℕ → Listing → Listing
rated ratings l = record l { rating_average = average_of ratings; rating_count = length ratings }

abbrev pub recompute_found : ℕ → Option Listing → Action Market (Unit {0})
recompute_found i none s = (err (plain (codes "P2025")), s)
recompute_found i (some _) s = (ok tt, update_listing i (rated (shown_ratings i s.reviews.rows)) s)

-- `recomputeRating`
unfoldable pub recompute_rating : ℕ → Action Market (Unit {0})
recompute_rating i s = recompute_found i (find_unique i s.listings.rows) s
