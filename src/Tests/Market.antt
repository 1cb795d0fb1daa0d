-- ===== src/Tests/Market.antt =====
-- The theorems on the marketplace, apps/api/src/modules/agents, at a concrete state.
use saziqo_platform.Prelude.{
  ℕ, ◌≡◌, ◌⊎◌, ◌-ℤ◌, refl, true, false, none, some, [], ◌∷◌, arith, codes, text_eq, starts_with,
  pos, any,
}
use saziqo_platform.Action.{Action, ok, err}
use saziqo_platform.Table.{find_unique}
use saziqo_platform.Agents.{Market, Listing, PricingType, Notice, Channel, listing_key}
use saziqo_platform.Agents.Reviews.{review_key}
use saziqo_platform.Agents.Runs.{consume, claim_low_runs}
use saziqo_platform.Agents.Checkout.Abort.{DbError, is_serialization_failure}
use saziqo_platform.Agents.Checkout.{Sold, check_lines, check_line, sell_line, grant_runs}
use saziqo_platform.Agents.Checkout.Commit.{
  checkout, commits, aborts, empty_cart, run_with_serialization_retry, run_checkout_transaction,
  sell_lines, clear_low_runs_dedup,
}
use saziqo_platform.Agents.Checkout.Returned.{checked_out}
use saziqo_platform.Agents.Checkout.Ended.{Ended, checkout_outcome}
use saziqo_platform.Agents.Checkout.Once.{checkout_once}
use saziqo_platform.Agents.Checkout.Twice.{BoughtTwice, added_twice, bought_twice}
use saziqo_platform.Agents.Sequences.{called_all}
use saziqo_platform.Agents.Books.{IsBalanced}
use saziqo_platform.Agents.Balanced.{called_all-IsBalanced}
use saziqo_platform.Agents.Counters.{IsCounted}
use saziqo_platform.Agents.Counted.{called_all-IsCounted}
use saziqo_platform.Agents.Paths.{LeadsTo, called_all-StatusPath}
use saziqo_platform.Agents.Consumed.{Consumption, consume_outcome}
use saziqo_platform.Agents.Quota.{WithinLimits, called_all-WithinLimits}
use saziqo_platform.Agents.Warnings.{consumed_all, low_runs_once}
use saziqo_platform.Agents.Search.{Matches, search_published}
use saziqo_platform.Agents.Search.Found.{search_repeats}
use saziqo_platform.Agents.Browse.{Filters, Sort, find_published}
use saziqo_platform.Agents.Browse.Skipped.{pages, Ends, pages_end}
use saziqo_platform.Agents.Browse.Walked.{shows, Met, shown_or_missed}
use saziqo_platform.Agents.Library.{NotOwner, Owner, library_gate}
use saziqo_platform.Tests.Shop.{
  IsFresh-reviews, IsFresh-listings, tool, bot, market, shop, config, run, calls,
}

balanced : IsBalanced shop
balanced = record {
  one_row = λ a b. omega arith;
  settled = tt;
  bought = λ a b. refl;
  events = λ a b. omega arith;
}

called_all-IsBalanced_example : IsBalanced (called_all calls shop)
called_all-IsBalanced_example = called_all-IsBalanced calls shop IsFresh-reviews balanced

counted : IsCounted shop
counted = record {
  fresh = IsFresh-listings;
  counters = λ i l found. ground (arith, found);
  unborn = λ i late. (refl, refl, refl);
}

called_all-IsCounted_example : IsCounted (called_all calls shop)
called_all-IsCounted_example =
    called_all-IsCounted calls shop (refl, (refl, (refl, (refl, tt)))) IsFresh-reviews balanced
      counted

called_all-StatusPath_example :
    (m : Listing) × (find_unique 2 (called_all calls shop).listings.rows ≡ some m) × LeadsTo bot m
called_all-StatusPath_example =
    called_all-StatusPath calls shop bot IsFresh-reviews IsFresh-listings refl

limits : WithinLimits shop.listings.rows
unfolding text_eq
limits = (λ maker. ground arith, (refl, (refl, tt)))

called_all-WithinLimits_example : WithinLimits (called_all calls shop).listings.rows
called_all-WithinLimits_example = called_all-WithinLimits calls shop IsFresh-reviews limits

abbrev conflict : DbError
conflict = record {
  is_known_request_error = true;
  code = codes "P2010";
  meta_code = none;
  message = codes "ERROR: (40001)";
}

is_conflict : is_serialization_failure conflict ≡ true
unfolding is_serialization_failure text_eq starts_with
is_conflict = refl

checkout_outcome_example :
    Ended 5
      (aborts conflict)
      commits
      (λ t. t)
      shop
      (checkout 5 (aborts conflict) commits (λ t. t) shop)
checkout_outcome_example = checkout_outcome 5 (aborts conflict) commits (λ t. t) shop

abbrev sold : Sold
sold = record {
  purchase_ids = 1 ∷ 2 ∷ [];
  total_amount_toman = 1505;
  lines =
      record {
        purchase_id = 1;
        listing_id = 1;
        listing_title_fa = codes "tool";
        pricing_type = PricingType.one_time;
        amount_toman = 1000;
        commission_toman = 200;
        maker_earned_toman = pos 800;
        runs_granted = 0;
      }
      ∷ record {
        purchase_id = 2;
        listing_id = 2;
        listing_title_fa = codes "bot";
        pricing_type = PricingType.per_run;
        amount_toman = 505;
        commission_toman = 101;
        maker_earned_toman = pos 404;
        runs_granted = 10;
      }
      ∷ [];
  receipts = (codes "tool", 0) ∷ (codes "bot", 10) ∷ [];
  sales = (9, codes "tool") ∷ (9, codes "bot") ∷ [];
  per_run_listing_ids = 2 ∷ [];
}

returned : (checked_out 5 shop).0 ≡ ok sold
unfolding checkout run_with_serialization_retry run_checkout_transaction sell_lines check_lines
    check_line sell_line grant_runs ◌-ℤ◌
returned = refl

checkout_once_example :
    (checked_out 5 (checked_out 5 shop).1 ≡ (err empty_cart, (checked_out 5 shop).1))
    × (checkout 5 (aborts conflict) commits (λ u. (checked_out 5 u).1) shop
        ≡ (err empty_cart, (checked_out 5 shop).1))
checkout_once_example = checkout_once 5 shop sold conflict is_conflict returned

consume_outcome_example : Consumption config run shop (consume config run shop)
consume_outcome_example = consume_outcome config run shop

bought_twice_example :
    BoughtTwice 5 1000 tool (market []) (checked_out 5 (added_twice 5 1 (market [])))
bought_twice_example = bought_twice 5 1000 tool (market []) refl (refl, refl, refl, refl, refl)

low_runs_once_example :
    let t = consumed_all ((config, run) ∷ []) (claim_low_runs 0 5 2 (codes "bot") 1 shop) in
    (claim_low_runs 2000 5 2 (codes "bot") 1 t ≡ t)
    × ((claim_low_runs 2000 5 2 (codes "bot") 1 (clear_low_runs_dedup 5 (2 ∷ []) t)).notified
        ≡ record { user_id = 5; notice = Notice.runs_low (codes "bot") 1; channel = Channel.in_app }
          ∷ t.notified)
low_runs_once_example =
    low_runs_once ((config, run) ∷ []) 0 2000 5 2 (codes "bot") (codes "bot") 1 1 (2 ∷ []) shop refl
      (omega arith) refl

abbrev matches : Matches
matches = record { fts = λ q. []; ilike = λ q. 1 ∷ 2 ∷ [] }

search_repeats_example :
    let r = search_published matches shop (codes "b") 1 1 in
    let first = search_published matches shop (codes "b") 0 1 in
    (r.items ≡ first.items)
    × (r.has_more ≡ first.has_more)
    × (first.next_offset ≡ some 1 → r.next_offset ≡ some 2)
search_repeats_example = search_repeats matches shop (codes "b") 1 1 refl

abbrev everything : Filters
everything = record {
  category_id = none;
  pricing_type = none;
  free_only = false;
  min_rating = none;
}

-- The agent is published and matches, and no page shows it.
missed : any (λ page. shows 2 page.items) (pages 4 shop everything none Sort.newest 1) ≡ false
unfolding pages find_published
missed = refl

shown_or_missed_example : Met 2 (pages 4 shop everything none Sort.newest 1)
shown_or_missed_example =
    shown_or_missed 3 shop everything none Sort.newest 1 bot (omega arith)
      (omega arith, (omega arith, tt)) refl refl

pages_end_example : Ends (pages 4 shop everything (some 3) Sort.newest 1)
pages_end_example = pages_end 4 shop everything 3 Sort.newest 1 (omega arith)

abbrev stream : ℕ → Action Market ℕ
stream i s = (ok i, s)

library_gate_example : NotOwner stream 5 1 shop ⊎ Owner stream 5 1 tool 7 7 shop
library_gate_example = library_gate stream 5 1 7 7 tool shop refl refl refl
