-- ===== src/Agents.antt =====
-- The marketplace of apps/api/src/modules/agents: its tables in apps/api/prisma/schema.prisma, and the
-- calls on them that its services share. Prices and runs are natural numbers in the tables: `create`
-- of listings.service.ts is their only writer and refuses what is not positive.
pub mod Cart
pub mod Runs
pub mod Checkout
pub mod Listings
pub mod Lifecycle
pub mod Reviews
pub mod Steps
pub mod Moves
pub mod Sales
pub mod Usage
pub mod Carts
pub mod Opinions
pub mod Corrections
pub mod Increments
pub mod Writes
pub mod Sequences
pub mod Tallies
pub mod Balanced
pub mod Books
pub mod Counters
pub mod Counted
pub mod Paths
pub mod Consumed
pub mod Quota
pub mod Warnings
pub mod Search
pub mod Browse
pub mod Library
use saziqo_platform.Prelude.{
  ℕ, suc, Bool, true, false, not, ◌&&◌, Option, none, some, List, [], ◌∷◌, ◌++◌, ◌==◌,
  if◌then◌else◌, Text, codes, is_some, to_string, ℤ,
}
use saziqo_platform.Action.{Action, Result, ok, err, Thrown, plain, modify}
use saziqo_platform.Table.{Table, HasId, find_first, update}

-- `enum AgentsPricingType`
pub data PricingType : Type 0 where
  free one_time per_run : PricingType

-- `enum AgentsListingStatus`
pub data ListingStatus : Type 0 where
  draft pending_review published rejected suspended : ListingStatus

-- `enum AgentsPurchaseStatus`
pub data PurchaseStatus : Type 0 where
  completed refunded : PurchaseStatus

-- `enum AgentsRunOutcome`
pub data RunOutcome : Type 0 where
  consumed refused_insufficient refused_invalid_key : RunOutcome

-- `model agents_listing`. The average is in hundredths, the scale of its column.
pub record Listing : Type 0 where
  pub id : ℕ
  pub slug : Text
  pub title_fa : Text
  pub short_desc_fa : Text
  pub long_desc_fa_md : Text
  pub install_instructions_fa_md : Option Text
  pub category_id : ℕ
  pub maker_user_id : ℕ
  pub pricing_type : PricingType
  pub one_time_price_toman : Option ℕ
  pub status : ListingStatus
  pub rejection_reason : Option Text
  pub suspension_reason : Option Text
  pub bundle_file_id : Option ℕ
  pub api_key_hash : Option Text
  pub total_users : ℕ
  pub total_runs : ℕ
  pub view_count : ℕ
  pub rating_average : Option ℕ
  pub rating_count : ℕ
  pub published_at : Option ℕ
  pub deleted_at : Option ℕ

-- `model agents_run_pack`
pub record RunPack : Type 0 where
  pub id : ℕ
  pub listing_id : ℕ
  pub name_fa : Text
  pub runs : ℕ
  pub price_toman : ℕ
  pub order : ℕ
  pub is_active : Bool

-- `model agents_cart_item`. The services write the user on every row.
pub record CartItem : Type 0 where
  pub id : ℕ
  pub user_id : ℕ
  pub listing_id : ℕ
  pub run_pack_id : Option ℕ

-- `model agents_purchase`
pub record Purchase : Type 0 where
  pub id : ℕ
  pub user_id : ℕ
  pub listing_id : ℕ
  pub pricing_type_at_sale : PricingType
  pub run_pack_id : Option ℕ
  pub runs_granted : ℕ
  pub amount_toman : ℕ
  pub commission_toman : ℕ
  pub maker_earned_toman : ℤ
  pub system_payment_id : Option ℕ
  pub status : PurchaseStatus

-- `model agents_user_runs`
pub record UserRuns : Type 0 where
  pub id : ℕ
  pub user_id : ℕ
  pub listing_id : ℕ
  pub remaining_runs : ℕ
  pub total_granted : ℕ
  pub total_consumed : ℕ
  pub last_consumed_at : Option ℕ

-- `model agents_run_event`
pub record RunEvent : Type 0 where
  pub id : ℕ
  pub user_id : ℕ
  pub listing_id : ℕ
  pub outcome : RunOutcome
  pub ip_address : Option Text
  pub user_agent : Option Text

-- `model agents_review`
pub record Review : Type 0 where
  pub id : ℕ
  pub listing_id : ℕ
  pub author_user_id : ℕ
  pub rating : ℕ
  pub body_fa : Option Text
  pub is_hidden : Bool

-- The types of the notifications that the module sends, with their payloads.
pub data Notice : Type 0 where
  new_listing_pending : Text → Text → Notice
  listing_approved : Text → Notice
  listing_rejected : Text → Text → Notice
  listing_suspended : Text → Text → Notice
  purchase_receipt : Text → ℕ → Notice
  new_sale : Text → Notice
  runs_depleted : Text → Notice
  runs_low : Text → ℕ → Notice
  review_posted : Text → Text → ℕ → Notice

pub data Channel : Type 0 where
  in_app sms : Channel

-- A request to `notifications.dispatch`.
pub record Notification : Type 0 where
  pub user_id : ℕ
  pub notice : Notice
  pub channel : Channel

-- The audit actions of listings.service.ts.
pub data AuditAction : Type 0 where
  listing_submitted listing_approved listing_rejected listing_suspended : AuditAction
  listing_unsuspended listing_updated : AuditAction

pub record AuditRow : Type 0 where
  pub actor_user_id : ℕ
  pub action : AuditAction
  pub resource_id : ℕ

-- A key in Redis and the time at which it expires.
pub record RedisKey : Type 0 where
  pub key : Text
  pub expires_at : ℕ

-- `commission_percent` is that of the settings row, if there is one.
pub record Market : Type 0 where
  pub listings : Table Listing
  pub run_packs : Table RunPack
  pub cart_items : Table CartItem
  pub purchases : Table Purchase
  pub user_runs : Table UserRuns
  pub run_events : Table RunEvent
  pub reviews : Table Review
  pub commission_percent : Option ℕ
  pub low_runs_keys : List RedisKey
  pub notified : List Notification
  pub audits : List AuditRow

instance abbrev pub listing_key : HasId Listing
listing_key = record { id_of = λ l. l.id }

abbrev pub is_published : ListingStatus → Bool
is_published ListingStatus.published = true
is_published _ = false

abbrev pub is_per_run : PricingType → Bool
is_per_run PricingType.per_run = true
is_per_run _ = false

abbrev pub is_completed : PurchaseStatus → Bool
is_completed PurchaseStatus.completed = true
is_completed PurchaseStatus.refunded = false

-- `{ id, deletedAt: null }`
abbrev pub is_live : ℕ → Listing → Bool
is_live i l = i == l.id && not (is_some l.deleted_at)

-- `{ userId, listingId, status: COMPLETED }`
abbrev pub is_owned : ℕ → ℕ → Purchase → Bool
is_owned user_id listing_id p =
    user_id == p.user_id && listing_id == p.listing_id && is_completed p.status

-- `{ id, listingId, isActive: true }`
abbrev pub is_pack_of : ℕ → ℕ → RunPack → Bool
is_pack_of i listing_id p = i == p.id && listing_id == p.listing_id && p.is_active

-- `agents_listing.update({ where: { id }, data })`
abbrev pub update_listing : ℕ → (Listing → Listing) → Market → Market
update_listing i f s = record s {
  listings = record { rows = update i f s.listings.rows; next = s.listings.next };
}

-- `notifications.dispatch(…)`
abbrev pub notify : ℕ → Notice → Channel → Market → Market
notify user_id notice channel s = record s {
  notified = record { user_id = user_id; notice = notice; channel = channel } ∷ s.notified;
}

-- `lowRunsDedupKey`
unfoldable pub low_runs_dedup_key : ℕ → ℕ → Text
low_runs_dedup_key user_id listing_id =
    codes "agents:lowruns:" ++ (to_string user_id ++ (codes ":" ++ to_string listing_id))
