-- ===== src/Agents/Counters/Written.antt =====
-- The writes on a listing that apps/api/src/modules/agents/services/listings.service.ts makes keep its
-- counters.
use saziqo_platform.Prelude.{
  ℕ, ◌≤◌, ◌≡◌, refl, sym, ap, ◌∙◌, subst, true, false, [], Text, ◌==◌, arith, if◌then◌else◌, inl,
  inr, Bool-cases,
}
use saziqo_platform.Table.{find_unique, update_many}
use saziqo_platform.Table.Fresh.{IsFresh, insert-IsFresh, update-IsFresh, update_many-IsFresh}
use saziqo_platform.Agents.{Market, Listing, listing_key, update_listing}
use saziqo_platform.Agents.Reviews.{review_key}
use saziqo_platform.Agents.Listings.{
  CreateListingInput, shown_ratings, is_viewed, one_more_view, new_listing, with_listing,
}
use saziqo_platform.Agents.Steps.{Same, Edits}
use saziqo_platform.Agents.Counters.{
  buyers, consumed_on, CountedIn, IsCounted, found_update, found_update_many,
}

abbrev pub SameCounts : Market → Market → Type 0
SameCounts s t =
    (s.listings ≡ t.listings)
    × (s.purchases ≡ t.purchases)
    × (s.user_runs ≡ t.user_runs)
    × (s.reviews ≡ t.reviews)

abbrev pub counts_of : (s t : Market) → Same s t → SameCounts s t
counts_of s t same = (same.0, same.2, same.3, same.5)

pub same_counts-IsCounted : (s t : Market) → SameCounts s t → IsCounted s → IsCounted t
same_counts-IsCounted s t (e, p, q, r) h = record {
  fresh = subst IsFresh e h.fresh;
  counters = λ i l found.
      rw (sym p, sym q, sym r) (h.counters i l (ap (λ x. find_unique i x.rows) e ∙ found));
  unborn = λ i late. rw (sym p, sym q, sym r) (h.unborn i (subst (λ x. x.next ≤ i) (sym e) late));
}

abbrev pub Unborn : Market → ℕ → Type 0
Unborn s i =
    (buyers i s.purchases.rows ≡ 0)
    × (consumed_on i s.user_runs.rows ≡ 0)
    × (shown_ratings i s.reviews.rows ≡ [])

-- A write on one listing, with what happened to the other tables.
pub written-IsCounted :
    (s t : Market) (i : ℕ) (f : Listing → Listing)
    → ((l : Listing) → (f l).id ≡ l.id)
    → (update_listing i f s).listings ≡ t.listings
    → ((j : ℕ) (l : Listing) → CountedIn s j l → CountedIn t j (if i == j then f l else l))
    → ((j : ℕ) → s.listings.next ≤ j → Unborn s j → Unborn t j)
    → IsCounted s
    → IsCounted t
written-IsCounted s t i f keeps e counts later h = record {
  fresh = subst IsFresh e (update-IsFresh i f s.listings keeps h.fresh);
  counters = λ j m found.
      let (l, before, same) =
        found_update j i f s.listings.rows m keeps (ap (λ x. find_unique j x.rows) e ∙ found) in
      subst (CountedIn t j) (sym same) (counts j l (h.counters j l before));
  unborn =
      λ j late. let past = subst (λ x. x.next ≤ j) (sym e) late in later j past (h.unborn j past);
}

pub edit-IsCounted :
    (s : Market) (i : ℕ) (f : Listing → Listing)
    → ((l : Listing) → Edits l (f l))
    → IsCounted s
    → IsCounted (update_listing i f s)
edit-IsCounted s i f edits h =
    written-IsCounted s (update_listing i f s) i f (λ l. (edits l).0) refl
      (λ j l c. elim (i == j) as (λ b. CountedIn s j (if b then f l else l)) [
        | false ↦ c
        | true ↦
            let (_, _, _, a, b, d, e, _, _, _) = edits l in (a ∙ c.0, b ∙ c.1, e ∙ c.2, d ∙ c.3)
      ])
      (λ j late u. u) h

abbrev pub viewed : Text → Market → Market
viewed slug s = record s {
  listings = record {
    rows = update_many (is_viewed slug) one_more_view s.listings.rows;
    next = s.listings.next;
  };
}

pub view-IsCounted : (s : Market) (slug : Text) → IsCounted s → IsCounted (viewed slug s)
view-IsCounted s slug h = record {
  fresh = update_many-IsFresh (is_viewed slug) one_more_view s.listings (λ l. refl) h.fresh;
  counters = λ j m found.
      let (l, before, same) =
        found_update_many j (is_viewed slug) one_more_view s.listings.rows m (λ x. refl) found in
      elim same [
        | inl e ↦ subst (CountedIn s j) (sym e) (h.counters j l before)
        | inr e ↦ subst (CountedIn s j) (sym e) (h.counters j l before)
      ];
  unborn = h.unborn;
}

pub create-IsCounted :
    (s : Market) (lower : Text → Text) (maker : ℕ) (dto : CreateListingInput)
    → IsCounted s
    → IsCounted (with_listing lower maker dto s)
create-IsCounted s lower maker dto h = record {
  fresh = insert-IsFresh (new_listing lower maker dto) s.listings refl h.fresh;
  counters = λ j m found. elim (Bool-cases (j == s.listings.next)) [
    | inr other ↦ h.counters j m (ground (arith, other, found))
    | inl here ↦
        let (a, b, c) = h.unborn j (ground (arith, here)) in ground (arith, here, found, a, b, c)
  ];
  unborn = λ j late. h.unborn j (omega arith);
}
