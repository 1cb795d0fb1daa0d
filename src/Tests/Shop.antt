-- ===== src/Tests/Shop.antt =====
-- A marketplace, apps/api/src/modules/agents, to try the theorems on.
use saziqo_platform.Prelude.{ℕ, ◌-◌, true, none, some, List, [], ◌∷◌, arith, Text, codes, Option}
use saziqo_platform.Table.Fresh.{IsFresh}
use saziqo_platform.Agents.{
  Market, Listing, ListingStatus, PricingType, RunPack, CartItem, listing_key,
}
use saziqo_platform.Agents.Reviews.{review_key}
use saziqo_platform.Agents.Runs.{Config, ConsumeInput}
use saziqo_platform.Agents.Sequences.{Call, checks_out, consumes, suspends, posts}

abbrev listing : ℕ → Text → PricingType → Option ℕ → Listing
listing i slug kind price = record {
  id = i;
  slug = slug;
  title_fa = slug;
  short_desc_fa = [];
  long_desc_fa_md = [];
  install_instructions_fa_md = none;
  category_id = 1;
  maker_user_id = 9;
  pricing_type = kind;
  one_time_price_toman = price;
  status = ListingStatus.published;
  rejection_reason = none;
  suspension_reason = none;
  bundle_file_id = some 7;
  api_key_hash = some (codes "key");
  total_users = 0;
  total_runs = 0;
  view_count = 0;
  rating_average = none;
  rating_count = 0;
  published_at = some (30 - i);
  deleted_at = none;
}

abbrev pub tool : Listing
tool = listing 1 (codes "tool") PricingType.one_time (some 1000)

abbrev pub bot : Listing
bot = listing 2 (codes "bot") PricingType.per_run none

abbrev ten : RunPack
ten = record {
  id = 1;
  listing_id = 2;
  name_fa = [];
  runs = 10;
  price_toman = 505;
  order = 0;
  is_active = true;
}

abbrev line : ℕ → ℕ → Option ℕ → CartItem
line i listing_id pack = record { id = i; user_id = 5; listing_id = listing_id; run_pack_id = pack }

abbrev pub market : List CartItem → Market
market lines = record {
  listings = record { rows = bot ∷ tool ∷ []; next = 3 };
  run_packs = record { rows = ten ∷ []; next = 2 };
  cart_items = record { rows = lines; next = 3 };
  purchases = record { rows = []; next = 1 };
  user_runs = record { rows = []; next = 1 };
  run_events = record { rows = []; next = 1 };
  reviews = record { rows = []; next = 1 };
  commission_percent = none;
  low_runs_keys = [];
  notified = [];
  audits = [];
}

abbrev pub shop : Market
shop = market (line 2 2 (some 1) ∷ line 1 1 none ∷ [])

abbrev pub config : Config
config = record { sha256 = λ t. t; user_exists = λ i. true; event_written = true; now = 1000 }

abbrev pub run : ConsumeInput
run = record {
  listing_slug = codes "bot";
  user_id = 5;
  api_key_plaintext = codes "key";
  ip_address = none;
  user_agent = none;
}

abbrev pub calls : List Call
calls =
    checks_out 5
    ∷ consumes config run
    ∷ suspends 2 8 (codes "why")
    ∷ posts (record { user_id = 5; listing_id = 1; rating = 4; body_fa = none })
    ∷ []

pub IsFresh-reviews : IsFresh shop.reviews
IsFresh-reviews = (tt, tt)

pub IsFresh-listings : IsFresh shop.listings
IsFresh-listings = omega arith
