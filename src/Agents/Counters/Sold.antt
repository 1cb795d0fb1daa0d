-- ===== src/Agents/Counters/Sold.antt =====
-- A sale of apps/api/src/modules/agents/services/checkout.service.ts counts its buyer once.
use saziqo_platform.Prelude.{
  ℕ, ◌+◌, ◌≤◌, ◌≡◌, refl, sym, ap, ◌∙◌, subst, Bool, true, false, not, ◌&&◌, Option, none, some,
  ◌==◌, arith, if◌then◌else◌, is_some, inl, inr, Bool-cases, length,
}
use saziqo_platform.Table.{Table, find_first, find_unique, update}
use saziqo_platform.Table.Fresh.{IsFresh}
use saziqo_platform.Agents.{Market, Listing, RunPack, listing_key, is_owned}
use saziqo_platform.Agents.Reviews.{review_key}
use saziqo_platform.Agents.Runs.{is_runs_of}
use saziqo_platform.Agents.Checkout.{
  BuiltLine, granted_pack, grant_pack, grant_runs, sell_line, with_purchase, new_purchase,
  count_user, one_more_user,
}
use saziqo_platform.Agents.Listings.{shown_ratings, average_of}
use saziqo_platform.Agents.Steps.{IsSellable, is_there}
use saziqo_platform.Agents.Counters.{
  buyers, consumed_on, consumed_on-grant, IsCounted, there_below, buyers-sale,
}
use saziqo_platform.Agents.Counters.Written.{written-IsCounted}

-- What a grant of runs does to the counts: nothing.
grant_pack_counts :
    (user_id i j : ℕ) (o : Option RunPack) (s : Market)
    → let t = grant_pack user_id i o s in
      (t.listings ≡ s.listings)
      × (t.purchases ≡ s.purchases)
      × (t.reviews ≡ s.reviews)
      × (consumed_on j t.user_runs.rows ≡ consumed_on j s.user_runs.rows)
unfolding grant_runs
grant_pack_counts user_id i j none s = (refl, refl, refl, refl)
grant_pack_counts user_id i j (some p) s =
    elim (Bool-cases (is_some (find_first (is_runs_of user_id i) s.user_runs.rows))) [
      | inl there ↦
          rw there (refl, refl, refl, consumed_on-grant j user_id i p.runs s.user_runs.rows)
      | inr free ↦ rw free (refl, refl, refl, ground arith)
    ]

-- The tallies of every listing are the same.
abbrev pub SameTallies : Market → Market → Type 0
SameTallies s t =
    (j : ℕ)
    → (buyers j t.purchases.rows ≡ buyers j s.purchases.rows)
      × (consumed_on j t.user_runs.rows ≡ consumed_on j s.user_runs.rows)
      × (shown_ratings j t.reviews.rows ≡ shown_ratings j s.reviews.rows)

pub same_tallies-IsCounted :
    (s t : Market) → s.listings ≡ t.listings → SameTallies s t → IsCounted s → IsCounted t
same_tallies-IsCounted s t e same h = record {
  fresh = subst IsFresh e h.fresh;
  counters = λ i l found.
      let (a, b, c) = same i in
      let (p, q, r, u) = h.counters i l (ap (λ x. find_unique i x.rows) e ∙ found) in
      (p ∙ sym a, q ∙ sym b, r ∙ ap length (sym c), u ∙ ap average_of (sym c));
  unborn = λ i late.
      let (a, b, c) = same i in
      let (p, q, r) = h.unborn i (subst (λ x. x.next ≤ i) (sym e) late) in (a ∙ p, b ∙ q, c ∙ r);
}

-- A sale, before the buyer is counted.
abbrev sold : ℕ → BuiltLine → Market → Market
sold user_id line s =
    grant_pack user_id line.listing.id (granted_pack line.listing.pricing_type line.pack)
      (with_purchase user_id line s)

is_known : ℕ → ℕ → Market → Bool
is_known user_id i s = is_some (find_first (is_owned user_id i) s.purchases.rows)

sold_tallies :
    (user_id : ℕ) (line : BuiltLine) (s : Market) (j : ℕ)
    → let i = line.listing.id in
      let t = sold user_id line s in
      (buyers j t.purchases.rows
        ≡ buyers j s.purchases.rows + (if i == j && not (is_known user_id i s) then 1 else 0))
      × (consumed_on j t.user_runs.rows ≡ consumed_on j s.user_runs.rows)
      × (shown_ratings j t.reviews.rows ≡ shown_ratings j s.reviews.rows)
unfolding is_known
sold_tallies user_id line s j =
    let pack = granted_pack line.listing.pricing_type line.pack in
    let p = new_purchase user_id line s.purchases.next in
    let (_, bought, rated_, used) =
      grant_pack_counts user_id line.listing.id j pack (with_purchase user_id line s) in
    (
      ap (λ x. buyers j x.rows) bought ∙ buyers-sale j p s.purchases.rows,
      used,
      ap (λ x. shown_ratings j x.rows) rated_,
    )

sold_listings :
    (user_id : ℕ) (line : BuiltLine) (s : Market) → s.listings ≡ (sold user_id line s).listings
sold_listings user_id line s =
    sym
      (grant_pack_counts user_id line.listing.id 0
        (granted_pack line.listing.pricing_type line.pack) (with_purchase user_id line s)).0

counted_sale :
    (known : Bool) (user_id : ℕ) (line : BuiltLine) (s : Market)
    → is_known user_id line.listing.id s ≡ known
    → is_there line.listing.id s ≡ true
    → IsCounted s
    → IsCounted (count_user known line.listing.id (sold user_id line s))
counted_sale true user_id line s e there h =
    same_tallies-IsCounted s (sold user_id line s) (sold_listings user_id line s)
      (λ j. let (a, b, c) = sold_tallies user_id line s j in (ground (arith, a, e), b, c)) h
counted_sale false user_id line s e there h =
    let i = line.listing.id in
    written-IsCounted s (count_user false i (sold user_id line s)) i one_more_user (λ l. refl)
      (ap (λ (x : Table Listing). record { rows = update i one_more_user x.rows; next = x.next })
        (sold_listings user_id line s))
      (λ j l c. let (a, b, d) = sold_tallies user_id line s j in ground (arith, a, b, d, e, c))
      (λ j late u.
        let (a, b, d) = sold_tallies user_id line s j in
        let low = there_below i s.listings.next s.listings.rows h.fresh.0 there in
        (ground (arith, a, u.0, low, late), b ∙ u.1, d ∙ u.2))
      h

pub sell_line-IsCounted :
    (user_id : ℕ) (line : BuiltLine) (s : Market)
    → IsSellable s line
    → IsCounted s
    → IsCounted (sell_line user_id line s)
unfolding sell_line is_known
sell_line-IsCounted user_id line s sellable h =
    counted_sale (is_known user_id line.listing.id s) user_id line s refl sellable.0 h
