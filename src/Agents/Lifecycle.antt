-- ===== src/Agents/Lifecycle.antt =====
-- apps/api/src/modules/agents/services/listings.service.ts: the status of a listing. The ids of the
-- administrators and the current time are arguments. The caches that these calls clear are left out.
use saziqo_platform.Prelude.{
  ℕ, Bool, true, false, not, ◌&&◌, Option, none, some, List, [], ◌∷◌, ◌++◌, ◌==◌, if◌then◌else◌,
  Text, codes, to_string, is_some, filter, length, get_or,
}
use saziqo_platform.Action.{
  Action, ok, Thrown, http, plain, ErrorCode, not_found_status, conflict_status, pure, throw,
  or_throw, throw_if, modify, transaction, ◌>>=◌, ◌>>◌,
}
use saziqo_platform.Table.{find_first, find_unique}
use saziqo_platform.Agents.{
  Market, Listing, ListingStatus, PricingType, RunPack, Notice, Channel, AuditAction, listing_key,
  is_live, update_listing, notify,
}
use saziqo_platform.Agents.Listings.{is_outside, invalid_packs}

-- `listingNotFound`
abbrev pub listing_not_found : Thrown
listing_not_found = http ErrorCode.listing_not_found not_found_status

abbrev pub loaded : Option Listing → Option Listing → Option Listing
loaded (some _) (some l) = if is_some l.deleted_at then none else some l
loaded _ _ = none

-- `lockAndLoad`: the row that is locked, and the row that is read.
unfoldable pub lock_and_load : ℕ → Action Market Listing
lock_and_load i s =
    or_throw (loaded (find_first (is_live i) s.listings.rows) (find_unique i s.listings.rows))
      listing_not_found s

abbrev pub status_code : ListingStatus → ℕ
status_code ListingStatus.draft = 0
status_code ListingStatus.pending_review = 1
status_code ListingStatus.published = 2
status_code ListingStatus.rejected = 3
status_code ListingStatus.suspended = 4

-- `assertTransition`, with the one status that ALLOWED_FROM has for each method.
abbrev pub assert_transition : ListingStatus → ListingStatus → Action Market (Unit {0})
assert_transition from allowed =
    throw_if (not (status_code from == status_code allowed))
      (http ErrorCode.invalid_status_transition conflict_status)

abbrev pub is_active_pack_of : ℕ → RunPack → Bool
is_active_pack_of i p = i == p.listing_id && p.is_active

abbrev pub is_priceless : Option ℕ → Bool
is_priceless none = true
is_priceless (some n) = n == 0

-- Whether `assertSubmissionReady` throws.
abbrev pub is_unready : Market → Listing → PricingType → Bool
is_unready s l PricingType.per_run =
    is_outside (length (filter (is_active_pack_of l.id) s.run_packs.rows))
is_unready s l PricingType.one_time = is_priceless l.one_time_price_toman
is_unready s l PricingType.free = false

-- `assertSubmissionReady`
unfoldable pub assert_submission_ready : Listing → Action Market (Unit {0})
assert_submission_ready l s = throw_if (is_unready s l l.pricing_type) invalid_packs s

-- `agents_listing.update({ where: { id }, data })` of a row that is there, which it returns.
abbrev pub write_listing : Listing → (Listing → Listing) → Action Market Listing
write_listing l f s = (ok (f l), update_listing l.id f s)

abbrev pub with_status : ListingStatus → Listing → Listing
with_status status l = record l { status = status }

-- A row of a status audit.
abbrev pub log : ℕ → AuditAction → ℕ → Action Market (Unit {0})
log actor action i = modify (λ s. record s {
  audits = record { actor_user_id = actor; action = action; resource_id = i } ∷ s.audits;
})

abbrev pub notify_all : List ℕ → Notice → Market → Market
notify_all [] n s = s
notify_all (a ∷ as_) n s = notify_all as_ n (notify a n Channel.in_app s)

abbrev pub maker_name : ℕ → Text
maker_name i = codes "m." ++ to_string i

-- `submitForReview`
unfoldable pub submit_for_review : List ℕ → ℕ → ℕ → Action Market Listing
unfolding lock_and_load assert_submission_ready
submit_for_review admins i maker = do
  updated ← transaction (do
    current ← lock_and_load i
    throw_if (not (current.maker_user_id == maker)) listing_not_found
    assert_transition current.status ListingStatus.draft
    assert_submission_ready current
    next ← write_listing current (with_status ListingStatus.pending_review)
    modify (
        notify_all admins
          (Notice.new_listing_pending next.title_fa (maker_name next.maker_user_id)))
    pure next)
  log maker AuditAction.listing_submitted updated.id
  pure updated

abbrev pub approved : ℕ → Listing → Listing
approved now l = record l {
  status = ListingStatus.published;
  published_at = some (get_or l.published_at now);
  rejection_reason = none;
  suspension_reason = none;
}

-- `approve`
unfoldable pub approve : ℕ → ℕ → ℕ → Action Market Listing
unfolding lock_and_load
approve now i admin = do
  updated ← transaction (do
    current ← lock_and_load i
    assert_transition current.status ListingStatus.pending_review
    next ← write_listing current (approved now)
    modify (notify next.maker_user_id (Notice.listing_approved next.title_fa) Channel.in_app)
    pure next)
  modify (notify updated.maker_user_id (Notice.listing_approved updated.title_fa) Channel.sms)
  log admin AuditAction.listing_approved updated.id
  pure updated

abbrev pub refused : Text → Listing → Listing
refused reason l = record l { status = ListingStatus.rejected; rejection_reason = some reason }

-- `reject`
unfoldable pub reject : ℕ → ℕ → Text → Action Market Listing
unfolding lock_and_load
reject i admin reason = do
  updated ← transaction (do
    current ← lock_and_load i
    assert_transition current.status ListingStatus.pending_review
    next ← write_listing current (refused reason)
    modify (notify next.maker_user_id (Notice.listing_rejected next.title_fa reason) Channel.in_app)
    pure next)
  modify
      (notify updated.maker_user_id (Notice.listing_rejected updated.title_fa reason) Channel.sms)
  log admin AuditAction.listing_rejected updated.id
  pure updated

abbrev pub taken_down : Text → Listing → Listing
taken_down reason l = record l { status = ListingStatus.suspended; suspension_reason = some reason }

-- `suspend`
unfoldable pub suspend : ℕ → ℕ → Text → Action Market Listing
unfolding lock_and_load
suspend i admin reason = do
  updated ← transaction (do
    current ← lock_and_load i
    assert_transition current.status ListingStatus.published
    next ← write_listing current (taken_down reason)
    modify
        (notify next.maker_user_id (Notice.listing_suspended next.title_fa reason) Channel.in_app)
    pure next)
  log admin AuditAction.listing_suspended updated.id
  pure updated

abbrev pub restored : Listing → Listing
restored l = record l { status = ListingStatus.published; suspension_reason = none }

-- `unsuspend`
unfoldable pub unsuspend : ℕ → ℕ → Action Market Listing
unfolding lock_and_load
unsuspend i admin = do
  updated ← transaction (do
    current ← lock_and_load i
    assert_transition current.status ListingStatus.suspended
    write_listing current restored)
  log admin AuditAction.listing_unsuspended updated.id
  pure updated

abbrev pub deleted : ℕ → Listing → Listing
deleted now l = record l { deleted_at = some now }

abbrev pub soft_delete_found : ℕ → ℕ → ℕ → Option Listing → Action Market (Unit {0})
soft_delete_found now i admin none = throw (plain (codes "P2025"))
soft_delete_found now i admin (some l) = do
  modify (update_listing i (deleted now))
  log admin AuditAction.listing_updated i

-- `softDelete`
unfoldable pub soft_delete : ℕ → ℕ → ℕ → Action Market (Unit {0})
soft_delete now i admin s = soft_delete_found now i admin (find_unique i s.listings.rows) s
