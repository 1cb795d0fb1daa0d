-- ===== src/Agents/Reviews.antt =====
-- apps/api/src/modules/agents/services/reviews.service.ts. A rating is a natural number: fractions and
-- negative numbers, which assertRating refuses too, are left out. What an edit leaves out is `none`.
use saziqo_platform.Prelude.{
  ℕ, Bool, false, not, ◌&&◌, ◌||◌, Option, none, some, List, ◌++◌, ◌==◌, ltb, if◌then◌else◌, Text,
  codes, to_string, is_some, filter, any, get_or,
}
use saziqo_platform.Action.{
  Action, ok, http, ErrorCode, bad_request, forbidden_status, not_found_status, pure, or_throw,
  throw_if, gets, modify, ◌>>=◌, ◌>>◌,
}
use saziqo_platform.Table.{HasId, find_first, update, insert}
use saziqo_platform.Agents.{Market, Listing, Review, Notice, Channel, is_live, is_owned, notify}
use saziqo_platform.Agents.Listings.{recompute_rating}

-- `PostReviewInput`
pub record PostReviewInput : Type 0 where
  pub user_id : ℕ
  pub listing_id : ℕ
  pub rating : ℕ
  pub body_fa : Option Text

-- `UpdateReviewInput`
pub record UpdateReviewInput : Type 0 where
  pub user_id : ℕ
  pub listing_id : ℕ
  pub rating : Option ℕ
  pub body_fa : Option (Option Text)

instance abbrev pub review_key : HasId Review
review_key = record { id_of = λ r. r.id }

-- `assertRating`
abbrev pub assert_rating : ℕ → Action Market (Unit {0})
assert_rating rating =
    throw_if (ltb rating 1 || ltb 5 rating) (http ErrorCode.validation_error bad_request)

-- `assertOwnership`
unfoldable pub assert_ownership : ℕ → ℕ → Action Market Listing
assert_ownership user_id listing_id = do
  purchase ← gets (λ s. find_first (is_owned user_id listing_id) s.purchases.rows)
  throw_if (not (is_some purchase)) (http ErrorCode.access_denied_not_owner forbidden_status)
  row ← gets (λ s. find_first (is_live listing_id) s.listings.rows)
  or_throw row (http ErrorCode.listing_not_found not_found_status)

-- `listingId_authorUserId`
abbrev pub is_review_by : ℕ → ℕ → Review → Bool
is_review_by user_id listing_id r = listing_id == r.listing_id && user_id == r.author_user_id

abbrev pub new_review : PostReviewInput → ℕ → Review
new_review input i = record {
  id = i;
  listing_id = input.listing_id;
  author_user_id = input.user_id;
  rating = input.rating;
  body_fa = input.body_fa;
  is_hidden = false;
}

abbrev pub edited : ℕ → Option Text → Review → Review
edited rating body r = record r { rating = rating; body_fa = body }

abbrev pub with_reviews : (List Review → List Review) → Market → Market
with_reviews f s = record s { reviews = record { rows = f s.reviews.rows; next = s.reviews.next } }

abbrev pub upsert_found : PostReviewInput → Option Review → Action Market Review
upsert_found input none s = (
  ok (new_review input s.reviews.next),
  record s { reviews = insert (new_review input) s.reviews },
)
upsert_found input (some r) s = (
  ok (edited input.rating input.body_fa r),
  with_reviews (update r.id (edited input.rating input.body_fa)) s,
)

-- `agents_review.upsert`
unfoldable pub upsert_review : PostReviewInput → Action Market Review
upsert_review input s =
    upsert_found input (find_first (is_review_by input.user_id input.listing_id) s.reviews.rows) s

abbrev pub author_name : ℕ → Text
author_name i = codes "u." ++ to_string i

-- The maker hears of the first review only.
abbrev pub notify_first : Bool → PostReviewInput → Listing → Action Market (Unit {0})
notify_first is_first input l = modify (λ s.
    if is_first
    then notify l.maker_user_id
        (Notice.review_posted (author_name input.user_id) l.title_fa input.rating) Channel.in_app s
    else s)

-- `post`
unfoldable pub post : PostReviewInput → Action Market Review
unfolding assert_ownership upsert_review
post input = do
  assert_rating input.rating
  l ← assert_ownership input.user_id input.listing_id
  existing ← gets (λ s. any (is_review_by input.user_id input.listing_id) s.reviews.rows)
  r ← upsert_review input
  recompute_rating input.listing_id
  notify_first (not existing) input l
  pure r

abbrev pub assert_new_rating : Option ℕ → Action Market (Unit {0})
assert_new_rating none = pure tt
assert_new_rating (some rating) = assert_rating rating

abbrev pub recompute_if_rated : Option ℕ → ℕ → Action Market (Unit {0})
recompute_if_rated none listing_id = pure tt
recompute_if_rated (some _) listing_id = recompute_rating listing_id

-- The row with what the edit has.
abbrev pub patched : UpdateReviewInput → Review → Review
patched input r = edited (get_or input.rating r.rating) (get_or input.body_fa r.body_fa) r

-- `update`
unfoldable pub update_review : UpdateReviewInput → Action Market Review
unfolding assert_ownership
update_review input = do
  assert_new_rating input.rating
  l ← assert_ownership input.user_id input.listing_id
  row ← gets (λ s. find_first (is_review_by input.user_id input.listing_id) s.reviews.rows)
  existing ← or_throw row (http ErrorCode.not_found not_found_status)
  modify (with_reviews (update existing.id (patched input)))
  recompute_if_rated input.rating input.listing_id
  pure (patched input existing)

-- `delete`
unfoldable pub delete_review : ℕ → ℕ → Action Market (Unit {0})
delete_review user_id listing_id = do
  there ← gets (λ s. any (is_review_by user_id listing_id) s.reviews.rows)
  throw_if (not there) (http ErrorCode.not_found not_found_status)
  modify (with_reviews (filter (λ r. not (is_review_by user_id listing_id r))))
  recompute_rating listing_id
