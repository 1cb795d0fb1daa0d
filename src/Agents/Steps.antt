-- ===== src/Agents/Steps.antt =====
-- What the calls of apps/api/src/modules/agents/services do to the tables that hold money, runs and
-- ratings, as a step relation. Carts, notifications, audit rows and Redis keys stand aside.
use saziqo_platform.Prelude.{
  ℕ, ◌≡◌, ◌≢◌, Bool, true, false, Option, none, some, [], Text, ◌⊎◌, is_some, pos, ◌+ℤ◌, leb,
  length, filter,
}
use saziqo_platform.Table.{Table, find_unique, find_first, update_many, insert}
use saziqo_platform.Table.Fresh.{IsFresh}
use saziqo_platform.Agents.Reviews.{review_key}
use saziqo_platform.Agents.{
  Market, Listing, ListingStatus, RunPack, RunEvent, RunOutcome, Review, UserRuns, listing_key,
  update_listing,
}
use saziqo_platform.Agents.Runs.{
  ConsumeInput, has_runs, after_one_run, with_user_runs, one_more_run, new_event,
}
use saziqo_platform.Agents.Checkout.{BuiltLine, granted_pack, sell_line}
use saziqo_platform.Agents.Listings.{
  CreateListingInput, is_misshapen, with_listing, is_viewed, one_more_view, rated, shown_ratings,
  has_exact_slug, is_kept_of, maker_listings_quota,
}

-- The tables are the same.
abbrev pub Same : Market → Market → Type 0
Same s t =
    (s.listings ≡ t.listings)
    × (s.run_packs ≡ t.run_packs)
    × (s.purchases ≡ t.purchases)
    × (s.user_runs ≡ t.user_runs)
    × (s.run_events ≡ t.run_events)
    × (s.reviews ≡ t.reviews)

-- The edges of the status: those of ALLOWED_FROM in listings.service.ts.
pub data Edge : ListingStatus → ListingStatus → Type 0 where
  submitted : Edge ListingStatus.draft ListingStatus.pending_review
  approved : Edge ListingStatus.pending_review ListingStatus.published
  rejected : Edge ListingStatus.pending_review ListingStatus.rejected
  suspended : Edge ListingStatus.published ListingStatus.suspended
  unsuspended : Edge ListingStatus.suspended ListingStatus.published

-- A write that leaves the key, the maker, the price and the counters of a listing alone, and undeletes
-- nothing.
abbrev pub Edits : Listing → Listing → Type 0
Edits l m =
    (m.id ≡ l.id)
    × (m.pricing_type ≡ l.pricing_type)
    × (m.one_time_price_toman ≡ l.one_time_price_toman)
    × (m.total_users ≡ l.total_users)
    × (m.total_runs ≡ l.total_runs)
    × (m.rating_average ≡ l.rating_average)
    × (m.rating_count ≡ l.rating_count)
    × (m.slug ≡ l.slug)
    × (m.maker_user_id ≡ l.maker_user_id)
    × (is_some l.deleted_at ≡ true → is_some m.deleted_at ≡ true)

abbrev pub runs_of : Option RunPack → ℕ
runs_of none = 0
runs_of (some p) = p.runs

abbrev pub is_there : ℕ → Market → Bool
is_there i s = is_some (find_unique i s.listings.rows)

-- A line as the validation builds it.
abbrev pub IsSellable : Market → BuiltLine → Type 0
IsSellable s line =
    (is_there line.listing.id s ≡ true)
    × (runs_of (granted_pack line.listing.pricing_type line.pack) ≡ line.runs_granted)
    × (pos line.commission_toman +ℤ line.maker_earned_toman ≡ pos line.amount_toman)

abbrev pub with_events : (ℕ → RunEvent) → Market → Market
with_events mk s = record s { run_events = insert mk s.run_events }

-- The event of a call, if it was written.
abbrev pub event_if : Bool → (ℕ → RunEvent) → Market → Market
event_if true mk s = with_events mk s
event_if false mk s = s

-- A run is taken from a row that has one, and counted.
abbrev pub one_run : Bool → ConsumeInput → ℕ → ℕ → Market → Market
one_run written input listing_id now s = update_listing listing_id one_more_run (
    event_if written (new_event input listing_id RunOutcome.consumed)
      (with_user_runs (update_many (has_runs input.user_id listing_id) (after_one_run now)) s))

abbrev pub with_review_table : Table Review → Market → Market
with_review_table rs s = record s { reviews = rs }

pub data Step (s : Market) : Market → Type 0 where
  aside : (t : Market) → Same s t → Step s t
  moves :
      (t : Market) (l : Listing) (f : Listing → Listing)
      → find_unique l.id s.listings.rows ≡ some l
      → Edge l.status (f l).status
      → ((m : Listing) → Edits m (f m))
      → Same (update_listing l.id f s) t
      → Step s t
  edits :
      (t : Market) (i : ℕ) (f : Listing → Listing)
      → ((m : Listing) → Edits m (f m) × ((f m).status ≡ m.status))
      → Same (update_listing i f s) t
      → Step s t
  views :
      (t : Market) (slug : Text)
      → Same
          (record s {
            listings = record {
              rows = update_many (is_viewed slug) one_more_view s.listings.rows;
              next = s.listings.next;
            };
          })
          t
      → Step s t
  creates :
      (t : Market) (lower : Text → Text) (maker : ℕ) (dto : CreateListingInput)
      → is_misshapen dto dto.pricing_type ≡ false
      → find_first (has_exact_slug (lower dto.slug)) s.listings.rows ≡ none
      → leb maker_listings_quota (length (filter (is_kept_of maker) s.listings.rows)) ≡ false
      → Same (with_listing lower maker dto s) t
      → Step s t
  sells :
      (t : Market) (user_id : ℕ) (line : BuiltLine)
      → IsSellable s line
      → Same (sell_line user_id line s) t
      → Step s t
  refuses :
      (t : Market) (mk : ℕ → RunEvent)
      → ((i : ℕ) → (mk i).outcome ≢ RunOutcome.consumed)
      → Same (with_events mk s) t
      → Step s t
  consumes :
      (t : Market) (written : Bool) (input : ConsumeInput) (listing_id now : ℕ) (r : UserRuns)
      → is_there listing_id s ≡ true
      → find_first (has_runs input.user_id listing_id) s.user_runs.rows ≡ some r
      → Same (one_run written input listing_id now s) t
      → Step s t
  rates :
      (t : Market) (i : ℕ) (rs : Table Review)
      → (is_there i s ≡ true) ⊎ (shown_ratings i s.reviews.rows ≡ [] → shown_ratings i rs.rows ≡ [])
      → (IsFresh s.reviews → IsFresh rs)
      → ((j : ℕ) → j ≢ i → shown_ratings j rs.rows ≡ shown_ratings j s.reviews.rows)
      → Same (update_listing i (rated (shown_ratings i rs.rows)) (with_review_table rs s)) t
      → Step s t
  rewords :
      (t : Market) (rs : Table Review)
      → (IsFresh s.reviews → IsFresh rs)
      → ((j : ℕ) → shown_ratings j rs.rows ≡ shown_ratings j s.reviews.rows)
      → Same (with_review_table rs s) t
      → Step s t

-- Any number of steps, the first one first.
pub data Steps : Market → Market → Type 0 where
  done : (s : Market) → Steps s s
  more : (s t u : Market) → Step s t → Steps t u → Steps s u

pub single : {s t : Market} → Step s t → Steps s t
single {s} {t} st = more s t t st (done t)

pub joined : {s t u : Market} → Steps s t → Steps t u → Steps s u
joined (done s) q = q
joined (more s t u st p) q = more s t _ st (joined p q)

-- What threw before any write.
pub stays : (s t : Market) → t ≡ s → Steps s t
stays s t e = rw e (done s)
