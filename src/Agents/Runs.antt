-- ===== src/Agents/Runs.antt =====
-- apps/api/src/modules/agents/services/runs.service.ts. Hashing, the table of users and the result of
-- the event's insertion, whose failure is only logged, are parameters. The threshold notification
-- runs at once.
use saziqo_platform.Prelude.{
  ℕ, suc, ◌+◌, ◌-◌, ◌*◌, ◌/◌, Bool, not, ◌&&◌, ◌||◌, Option, none, some, List, ◌∷◌, ◌==◌, ltb,
  if◌then◌else◌, Text, text_eq, is_some, take, any,
}
use saziqo_platform.Action.{
  Action, ok, Thrown, http, ErrorCode, unauthorized_status, conflict_status, pure, throw, modify,
  ◌>>=◌, ◌>>◌,
}
use saziqo_platform.Table.{find_first, update_many, insert}
use saziqo_platform.Agents.{
  Market, Listing, Purchase, UserRuns, RunEvent, RunOutcome, RedisKey, Notice, Channel, listing_key,
  is_published, is_per_run, is_completed, update_listing, notify, low_runs_dedup_key,
}

-- `ConsumeInput`
pub record ConsumeInput : Type 0 where
  pub listing_slug : Text
  pub user_id : ℕ
  pub api_key_plaintext : Text
  pub ip_address : Option Text
  pub user_agent : Option Text

-- `ConsumeResult`
pub record ConsumeResult : Type 0 where
  pub remaining_runs : ℕ
  pub total_consumed : ℕ

pub record Config : Type 0 where
  pub sha256 : Text → Text
  pub user_exists : ℕ → Bool
  pub event_written : Bool
  pub now : ℕ

-- `LOW_RUNS_DEDUP_TTL_SECONDS`
abbrev pub low_runs_dedup_ttl_seconds : ℕ
low_runs_dedup_ttl_seconds = 24 * 60 * 60

-- `invalidApiKey`
abbrev pub invalid_api_key : Thrown
invalid_api_key = http ErrorCode.invalid_api_key unauthorized_status

abbrev pub insufficient_runs : Thrown
insufficient_runs = http ErrorCode.insufficient_runs conflict_status

-- `{ slug, deletedAt: null }`
abbrev pub has_slug : Text → Listing → Bool
has_slug slug l = text_eq slug l.slug && not (is_some l.deleted_at)

-- The listing's key, if runs of it can be consumed.
abbrev pub consumable_key : Listing → Option Text
consumable_key l =
    if is_published l.status && is_per_run l.pricing_type then l.api_key_hash else none

abbrev pub clamped : Option Text → Option Text
clamped none = none
clamped (some agent) = some (take 255 agent)

abbrev pub new_event : ConsumeInput → ℕ → RunOutcome → ℕ → RunEvent
new_event input listing_id outcome i = record {
  id = i;
  user_id = input.user_id;
  listing_id = listing_id;
  outcome = outcome;
  ip_address = input.ip_address;
  user_agent = clamped input.user_agent;
}

-- `recordEvent`
unfoldable pub record_event : Config → ConsumeInput → ℕ → RunOutcome → Action Market (Unit {0})
record_event c input listing_id outcome = modify (λ s.
    if c.event_written
    then record s { run_events = insert (new_event input listing_id outcome) s.run_events }
    else s)

abbrev pub is_runs_of : ℕ → ℕ → UserRuns → Bool
is_runs_of user_id listing_id r = user_id == r.user_id && listing_id == r.listing_id

abbrev pub has_runs : ℕ → ℕ → UserRuns → Bool
has_runs user_id listing_id r = is_runs_of user_id listing_id r && ltb 0 r.remaining_runs

abbrev pub after_one_run : ℕ → UserRuns → UserRuns
after_one_run now r = record r {
  remaining_runs = r.remaining_runs - 1;
  total_consumed = suc r.total_consumed;
  last_consumed_at = some now;
}

abbrev pub with_user_runs : (List UserRuns → List UserRuns) → Market → Market
with_user_runs f s = record s {
  user_runs = record { rows = f s.user_runs.rows; next = s.user_runs.next };
}

abbrev pub returning : ℕ → Option UserRuns → Option UserRuns
returning now none = none
returning now (some r) = some (after_one_run now r)

-- `UPDATE agents_user_runs … RETURNING`
unfoldable pub take_one_run : ℕ → ℕ → ℕ → Action Market (Option UserRuns)
take_one_run now user_id listing_id s = (
  ok (returning now (find_first (has_runs user_id listing_id) s.user_runs.rows)),
  with_user_runs (update_many (has_runs user_id listing_id) (after_one_run now)) s,
)

-- The most recent PER_RUN purchase.
abbrev pub is_pack_purchase : ℕ → ℕ → Purchase → Bool
is_pack_purchase user_id listing_id p =
    user_id == p.user_id
    && listing_id == p.listing_id
    && is_per_run p.pricing_type_at_sale
    && is_completed p.status

-- `Math.max(1, Math.ceil(lastPackSize * 0.1))`
abbrev pub low_threshold : ℕ → ℕ
low_threshold last_pack_size =
    let tenth = (last_pack_size + 9) / 10 in if ltb tenth 1 then 1 else tenth

abbrev pub is_standing : ℕ → Text → RedisKey → Bool
is_standing now key k = text_eq key k.key && ltb now k.expires_at

-- `client.set(key, '1', 'EX', ttl, 'NX')` and the notification of who claimed the key.
unfoldable pub claim_low_runs : ℕ → ℕ → ℕ → Text → ℕ → Market → Market
claim_low_runs now user_id listing_id title remaining s =
    if any (is_standing now (low_runs_dedup_key user_id listing_id)) s.low_runs_keys
    then s
    else notify user_id (Notice.runs_low title remaining) Channel.in_app (record s {
      low_runs_keys =
          record {
            key = low_runs_dedup_key user_id listing_id;
            expires_at = now + low_runs_dedup_ttl_seconds * 1000;
          }
          ∷ s.low_runs_keys;
    })

abbrev pub warn_low : ℕ → ℕ → ℕ → Text → ℕ → Option Purchase → Market → Market
warn_low now user_id listing_id title remaining none s = s
warn_low now user_id listing_id title remaining (some p) s =
    if p.runs_granted == 0 || ltb (low_threshold p.runs_granted) remaining
    then s
    else claim_low_runs now user_id listing_id title remaining s

-- `dispatchThresholdNotifications`
unfoldable pub dispatch_threshold_notifications : ℕ → ℕ → ℕ → Text → ℕ → Action Market (Unit {0})
dispatch_threshold_notifications now user_id listing_id title remaining = modify (λ s.
    if remaining == 0
    then notify user_id (Notice.runs_depleted title) Channel.in_app s
    else warn_low now user_id listing_id title remaining
        (find_first (is_pack_purchase user_id listing_id) s.purchases.rows) s)

abbrev pub one_more_run : Listing → Listing
one_more_run l = record l { total_runs = suc l.total_runs }

-- Behind the atomic decrement.
unfoldable pub consume_taken :
    Config → ConsumeInput → Listing → Option UserRuns → Action Market ConsumeResult
unfolding record_event dispatch_threshold_notifications
consume_taken c input l none = do
  record_event c input l.id RunOutcome.refused_insufficient
  throw insufficient_runs
consume_taken c input l (some r) = do
  record_event c input l.id RunOutcome.consumed
  modify (update_listing l.id one_more_run)
  dispatch_threshold_notifications c.now input.user_id l.id l.title_fa r.remaining_runs
  pure (record { remaining_runs = r.remaining_runs; total_consumed = r.total_consumed })

-- Behind the look-ups: `expected` is the listing's hash.
unfoldable pub consume_with_key :
    Config → ConsumeInput → Listing → Text → Action Market ConsumeResult
unfolding record_event take_one_run consume_taken
consume_with_key c input l expected =
    if text_eq (c.sha256 input.api_key_plaintext) expected
    then (take_one_run c.now input.user_id l.id >>= consume_taken c input l)
    else (record_event c input l.id RunOutcome.refused_invalid_key >> throw invalid_api_key)

abbrev pub consume_keyed :
    Config → ConsumeInput → Listing → Option Text → Action Market ConsumeResult
consume_keyed c input l none = throw invalid_api_key
consume_keyed c input l (some expected) =
    if c.user_exists input.user_id
    then consume_with_key c input l expected
    else throw invalid_api_key

abbrev pub consume_found : Config → ConsumeInput → Option Listing → Action Market ConsumeResult
consume_found c input none = throw invalid_api_key
consume_found c input (some l) = consume_keyed c input l (consumable_key l)

-- `consume`
unfoldable pub consume : Config → ConsumeInput → Action Market ConsumeResult
consume c input s =
    consume_found c input (find_first (has_slug input.listing_slug) s.listings.rows) s
