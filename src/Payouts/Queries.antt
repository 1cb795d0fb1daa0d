-- ===== src/Payouts/Queries.antt =====
-- The listings of apps/api/src/core/payouts/payouts.service.ts.
use saziqo_platform.Prelude.{ℕ, Bool, true, false, ◌&&◌, Option, none, some, ◌==◌}
use saziqo_platform.Page.{Page, find_page}
use saziqo_platform.Store.{Store, PayoutRequest, PayoutStatus, payout_key}

-- `findForUser`
unfoldable pub find_for_user : ℕ → Option ℕ → ℕ → Store → Page PayoutRequest
unfolding find_page
find_for_user user_id cursor limit s =
    find_page (λ (p : PayoutRequest). p.user_id == user_id) cursor limit s.payouts.rows

abbrev pub same_status : PayoutStatus → PayoutStatus → Bool
same_status PayoutStatus.pending PayoutStatus.pending = true
same_status PayoutStatus.approved PayoutStatus.approved = true
same_status PayoutStatus.rejected PayoutStatus.rejected = true
same_status PayoutStatus.paid PayoutStatus.paid = true
same_status PayoutStatus.cancelled PayoutStatus.cancelled = true
same_status _ _ = false

-- A filter that is not given lets every row through.
abbrev pub has_status : Option PayoutStatus → PayoutRequest → Bool
has_status none p = true
has_status (some t) p = same_status t p.status

abbrev pub has_owner : Option ℕ → PayoutRequest → Bool
has_owner none p = true
has_owner (some u) p = p.user_id == u

-- `findForAdmin`
unfoldable pub find_for_admin :
    Option PayoutStatus → Option ℕ → Option ℕ → ℕ → Store → Page PayoutRequest
unfolding find_page
find_for_admin status user_id cursor limit s =
    find_page (λ p. has_status status p && has_owner user_id p) cursor limit s.payouts.rows
