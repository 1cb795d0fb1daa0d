-- ===== src/Agents/Increments.antt =====
-- The two calls of apps/api/src/modules/agents/services/listings.service.ts that raise one counter of a
-- listing. No other code of the repository makes them but a spec: a checkout and a run raise the
-- counters themselves.
use saziqo_platform.Prelude.{ℕ, Option, none, some, codes}
use saziqo_platform.Action.{Action, throw, plain, modify}
use saziqo_platform.Table.{find_unique}
use saziqo_platform.Agents.{Market, Listing, listing_key, update_listing}
use saziqo_platform.Agents.Checkout.{one_more_user}
use saziqo_platform.Agents.Runs.{one_more_run}

-- `agents_listing.update` of a row that may be missing.
abbrev pub raise_found : ℕ → (Listing → Listing) → Option Listing → Action Market (Unit {0})
raise_found i f none = throw (plain (codes "P2025"))
raise_found i f (some l) = modify (update_listing i f)

-- `incrementUserCount`
unfoldable pub increment_user_count : ℕ → Action Market (Unit {0})
increment_user_count i s = raise_found i one_more_user (find_unique i s.listings.rows) s

-- `incrementRunCount`
unfoldable pub increment_run_count : ℕ → Action Market (Unit {0})
increment_run_count i s = raise_found i one_more_run (find_unique i s.listings.rows) s

-- What holds of a state and of one with a counter raised.
abbrev pub Raised : (Market → Type 0) → Type 0
Raised P =
    (s : Market) (i : ℕ)
    → P s
    → P (update_listing i one_more_user s) × P (update_listing i one_more_run s)

pub increment_user_count-kept :
    (P : Market → Type 0) (i : ℕ) (s : Market) → Raised P → P s → P (increment_user_count i s).1
unfolding increment_user_count
increment_user_count-kept P i s raised h =
    elim (find_unique i s.listings.rows) as (λ o. P (raise_found i one_more_user o s).1) [
      | none ↦ h
      | some l ↦ (raised s i h).0
    ]

pub increment_run_count-kept :
    (P : Market → Type 0) (i : ℕ) (s : Market) → Raised P → P s → P (increment_run_count i s).1
unfolding increment_run_count
increment_run_count-kept P i s raised h =
    elim (find_unique i s.listings.rows) as (λ o. P (raise_found i one_more_run o s).1) [
      | none ↦ h
      | some l ↦ (raised s i h).1
    ]
