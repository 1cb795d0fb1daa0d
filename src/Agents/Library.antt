-- ===== src/Agents/Library.antt =====
-- What owners of a listing may read: apps/api/src/modules/agents/services/library.service.ts
-- (findDetailForUser, without times, screenshots and the category's name), download.service.ts, and
-- computeOwnership and computeRatingDistribution of listings.service.ts. The files service is a parameter.
use saziqo_platform.Prelude.{
  ℕ, ◌≡◌, ◌≢◌, refl, sym, ap, ◌∙◌, Bool, true, false, not, ◌&&◌, Option, none, some, List, [], ◌∷◌,
  ◌++◌, ◌==◌, arith, if◌then◌else◌, Text, codes, is_some, filter, length, reverse, reverse-reverse,
  inl, inr, ◌⊎◌, Bool-cases, Option-cases,
}
use saziqo_platform.Action.{
  Action, ok, err, http, ErrorCode, forbidden_status, not_found_status, pure, or_throw, throw_if,
  gets, ◌>>=◌, ◌>>◌,
}
use saziqo_platform.Table.{find_first}
use saziqo_platform.Agents.{
  Market, Listing, Purchase, PurchaseStatus, PricingType, UserRuns, is_live, is_owned, is_per_run,
}
use saziqo_platform.Agents.Runs.{is_runs_of}
use saziqo_platform.Agents.Listings.{is_shown}

-- `LibraryPurchaseHistoryDto`: neither the commission nor the maker's part.
pub record LibraryPurchase : Type 0 where
  pub purchase_id : ℕ
  pub pricing_type_at_sale : PricingType
  pub amount_toman : ℕ
  pub runs_granted : ℕ
  pub run_pack_id : Option ℕ
  pub status : PurchaseStatus

-- `LibraryDetailDto`
pub record LibraryDetail : Type 0 where
  pub listing_id : ℕ
  pub listing_slug : Text
  pub listing_title_fa : Text
  pub short_desc_fa : Text
  pub install_instructions_fa_md : Option Text
  pub pricing_type : PricingType
  pub runs_remaining : Option ℕ
  pub total_runs : ℕ
  pub total_consumed : Option ℕ
  pub bundle_file_id : Option ℕ
  pub purchases : List LibraryPurchase

abbrev pub history_row : Purchase → LibraryPurchase
history_row p = record {
  purchase_id = p.id;
  pricing_type_at_sale = p.pricing_type_at_sale;
  amount_toman = p.amount_toman;
  runs_granted = p.runs_granted;
  run_pack_id = p.run_pack_id;
  status = p.status;
}

abbrev pub history : List Purchase → List LibraryPurchase
history [] = []
history (p ∷ ps) = history_row p ∷ history ps

-- The user's purchases of the listing, oldest first.
abbrev pub owned_purchases : ℕ → ℕ → Market → List Purchase
owned_purchases user_id i s = reverse (filter (is_owned user_id i) s.purchases.rows)

-- `runs?.field ?? 0n`
abbrev pub runs_field : (UserRuns → ℕ) → Option UserRuns → ℕ
runs_field f none = 0
runs_field f (some r) = f r

abbrev pub if_per_run : PricingType → ℕ → Option ℕ
if_per_run k n = if is_per_run k then some n else none

abbrev pub detail : Listing → Option UserRuns → List Purchase → LibraryDetail
detail l runs purchases = record {
  listing_id = l.id;
  listing_slug = l.slug;
  listing_title_fa = l.title_fa;
  short_desc_fa = l.short_desc_fa;
  install_instructions_fa_md = l.install_instructions_fa_md;
  pricing_type = l.pricing_type;
  runs_remaining = if_per_run l.pricing_type (runs_field (λ r. r.remaining_runs) runs);
  total_runs = runs_field (λ r. r.total_granted) runs;
  total_consumed = if_per_run l.pricing_type (runs_field (λ r. r.total_consumed) runs);
  bundle_file_id = l.bundle_file_id;
  purchases = history purchases;
}

-- `findDetailForUser`
unfoldable pub find_detail_for_user : ℕ → ℕ → Action Market LibraryDetail
find_detail_for_user user_id i = do
  purchases ← gets (owned_purchases user_id i)
  throw_if (length purchases == 0) (http ErrorCode.not_found not_found_status)
  row ← gets (λ s. find_first (is_live i) s.listings.rows)
  l ← or_throw row (http ErrorCode.listing_not_found not_found_status)
  runs ← gets (λ s. find_first (is_runs_of user_id i) s.user_runs.rows)
  pure (detail l runs purchases)

-- `BundleDownload`: what the files service gives, and the hint for the name.
pub record BundleDownload (F : Type 0) : Type 0 where
  pub file : F
  pub filename_hint : Text

-- `streamBundleForOwner`
unfoldable pub stream_bundle_for_owner :
    {F : Type 0} → (ℕ → Action Market F) → ℕ → ℕ → Action Market (BundleDownload F)
stream_bundle_for_owner stream user_id i = do
  purchase ← gets (λ s. find_first (is_owned user_id i) s.purchases.rows)
  throw_if (not (is_some purchase)) (http ErrorCode.access_denied_not_owner forbidden_status)
  row ← gets (λ s. find_first (is_live i) s.listings.rows)
  l ← or_throw row (http ErrorCode.listing_not_found not_found_status)
  bundle ← or_throw l.bundle_file_id (http ErrorCode.bundle_not_available not_found_status)
  file ← stream bundle
  pure (record { file = file; filename_hint = l.slug ++ codes ".zip" })

-- `ListingDetailOwnership`
pub record Ownership : Type 0 where
  pub owns : Bool
  pub runs_remaining : Option ℕ

-- `computeOwnership`
unfoldable pub compute_ownership : ℕ → ℕ → PricingType → Market → Ownership
compute_ownership i user_id k s = record {
  owns = is_some (find_first (is_owned user_id i) s.purchases.rows);
  runs_remaining =
      if_per_run k
        (runs_field (λ r. r.remaining_runs) (find_first (is_runs_of user_id i) s.user_runs.rows));
}

-- `computeRatingDistribution`: how many shown reviews give this rating.
unfoldable pub rating_count_of : ℕ → ℕ → Market → ℕ
rating_count_of rating i s =
    length (filter (λ r. is_shown i r && r.rating == rating) s.reviews.rows)

owned_none : (p : Purchase → Bool) (ps : List Purchase) → find_first p ps ≡ none → filter p ps ≡ []
owned_none p [] e = refl
owned_none p (x ∷ ps) e = ground (arith, owned_none p ps)

owned_some :
    (p : Purchase → Bool) (ps : List Purchase) (x : Purchase)
    → find_first p ps ≡ some x
    → filter p ps ≢ []
owned_some p [] x e = cc
owned_some p (y ∷ ps) x e = ground (arith, owned_some p ps x)

length_zero : (ps : List Purchase) → (length ps == 0) ≡ true → ps ≡ []
length_zero [] e = refl
length_zero (p ∷ ps) e = ground arith

-- Who owns a listing has a purchase of it.
some_purchase :
    (user_id i : ℕ) (s : Market) (p : Purchase)
    → find_first (is_owned user_id i) s.purchases.rows ≡ some p
    → (length (owned_purchases user_id i s) == 0) ≡ false
some_purchase user_id i s p e = elim (Bool-cases (length (owned_purchases user_id i s) == 0)) [
  | inr some_ ↦ some_
  | inl none_ ↦
      let owned = filter (is_owned user_id i) s.purchases.rows in
      absurd (
        owned_some (is_owned user_id i) s.purchases.rows p e
          (sym (reverse-reverse owned) ∙ ap reverse (length_zero (reverse owned) none_)))
]

no_purchase :
    (user_id i : ℕ) (s : Market)
    → find_first (is_owned user_id i) s.purchases.rows ≡ none
    → (length (owned_purchases user_id i s) == 0) ≡ true
no_purchase user_id i s e = rw (owned_none (is_owned user_id i) s.purchases.rows e) refl

abbrev pub NotOwner : {F : Type 0} → (ℕ → Action Market F) → ℕ → ℕ → Market → Type 0
NotOwner stream user_id i s =
    ((compute_ownership i user_id PricingType.free s).owns ≡ false)
    × (find_detail_for_user user_id i s ≡ (err (http ErrorCode.not_found not_found_status), s))
    × (stream_bundle_for_owner stream user_id i s
        ≡ (err (http ErrorCode.access_denied_not_owner forbidden_status), s))

abbrev pub Owner : {F : Type 0} → (ℕ → Action Market F) → ℕ → ℕ → Listing → ℕ → F → Market → Type 0
Owner stream user_id i l bundle file s =
    ((compute_ownership i user_id PricingType.free s).owns ≡ true)
    × (find_detail_for_user user_id i s ≡ (
      ok (
          detail l (find_first (is_runs_of user_id i) s.user_runs.rows)
            (owned_purchases user_id i s)),
      s,
    ))
    × (stream_bundle_for_owner stream user_id i s
        ≡ (ok (record { file = file; filename_hint = l.slug ++ codes ".zip" }), s))

-- A listing that is not deleted, with a bundle that the files service can read: its details in the
-- library and its bundle are given exactly to the users for whom computeOwnership says that they own
-- it, and others are refused, with NOT_FOUND and ACCESS_DENIED_NOT_OWNER; nothing is written.
pub library_gate :
    {F : Type 0} (stream : ℕ → Action Market F) (user_id i bundle : ℕ) (file : F) (l : Listing)
    (s : Market)
    → find_first (is_live i) s.listings.rows ≡ some l
    → l.bundle_file_id ≡ some bundle
    → stream bundle s ≡ (ok file, s)
    → NotOwner stream user_id i s ⊎ Owner stream user_id i l bundle file s
unfolding compute_ownership find_detail_for_user stream_bundle_for_owner
library_gate stream user_id i bundle file l s live has readable =
    elim (Option-cases (find_first (is_owned user_id i) s.purchases.rows)) [
      | inl e ↦
          inl (ground (arith, e), ground (arith, no_purchase user_id i s e), ground (arith, e))
      | inr (p, e) ↦ inr (
        ground (arith, e),
        ground (arith, some_purchase user_id i s p e, live),
        ground (arith, e, live, has, readable),
      )
    ]
