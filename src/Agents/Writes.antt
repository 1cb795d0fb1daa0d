-- ===== src/Agents/Writes.antt =====
-- The steps of `create`, `recordView` and `recomputeRating` of
-- apps/api/src/modules/agents/services/listings.service.ts.
use saziqo_platform.Prelude.{
  ℕ, refl, none, some, Text, inl, inr, arith, Option-cases, Bool-cases, is_some, filter, length,
  leb,
}
use saziqo_platform.Table.{find_first, find_unique}
use saziqo_platform.Agents.{Market, listing_key}
use saziqo_platform.Agents.Listings.{
  CreateListingInput, is_misshapen, assert_pricing_shape, has_slug_of, has_exact_slug, is_kept_of,
  maker_listings_quota, insert_listing, create_in_transaction, create, record_view, recompute_found,
  recompute_rating,
}
use saziqo_platform.Agents.Reviews.{review_key}
use saziqo_platform.Agents.Steps.{Step, Steps, done, single, stays}

pub create-Steps :
    (lower : Text → Text) (maker : ℕ) (dto : CreateListingInput) (s : Market)
    → Steps s (create lower maker dto s).1
unfolding create assert_pricing_shape create_in_transaction insert_listing
create-Steps lower maker dto s = elim (Bool-cases (is_misshapen dto dto.pricing_type)) [
  | inl bad ↦ stays s (create lower maker dto s).1 (ground (arith, bad))
  | inr good ↦
      elim (Bool-cases
        (is_some (find_first (has_slug_of lower (lower dto.slug)) s.listings.rows))) [
          | inl clash ↦ stays s (create lower maker dto s).1 (ground (arith, good, clash))
          | inr free ↦
              elim (Bool-cases
                (leb maker_listings_quota (length (filter (is_kept_of maker) s.listings.rows)))) [
                  | inl full ↦
                      stays s (create lower maker dto s).1 (ground (arith, good, free, full))
                  | inr room ↦
                      elim (Option-cases
                        (find_first (has_exact_slug (lower dto.slug)) s.listings.rows)) [
                          | inr (l, taken) ↦
                              stays s (create lower maker dto s).1
                                (ground (arith, good, free, room, taken))
                          | inl new ↦ single (
                              Step.creates (create lower maker dto s).1 lower maker dto good new
                                room (ground (arith, good, free, room, new)))
                        ]
                ]
        ]
]

pub view-Steps : (slug : Text) (sample : ℕ) (s : Market) → Steps s (record_view slug sample s).1
unfolding record_view
view-Steps slug sample s = elim (Bool-cases (leb 20 sample)) [
  | inl late ↦ stays s (record_view slug sample s).1 (ground (arith, late))
  | inr early ↦ single (Step.views (record_view slug sample s).1 slug (ground (arith, early)))
]

pub recompute-Steps : (i : ℕ) (s : Market) → Steps s (recompute_rating i s).1
unfolding recompute_rating
recompute-Steps i s =
    elim (find_unique i s.listings.rows) as (λ o. Steps s (recompute_found i o s).1) [
      | none ↦ done s
      | some l ↦ single (
          Step.rates (recompute_found i (some l) s).1 i s.reviews (inr (λ e. e)) (λ h. h)
            (λ j other. refl) (refl, refl, refl, refl, refl, refl))
    ]
