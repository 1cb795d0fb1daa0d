-- ===== src/Payments/Queries.antt =====
-- `findById` and the listings of apps/api/src/core/payments/payments.service.ts.
use saziqo_platform.Prelude.{
  ℕ, Bool, true, false, not, ◌&&◌, Option, none, some, ◌==◌, if◌then◌else◌,
}
use saziqo_platform.Action.{Action, pure, or_throw, throw_if, gets, ◌>>=◌, ◌>>◌}
use saziqo_platform.Table.{find_unique}
use saziqo_platform.Page.{Page, find_page}
use saziqo_platform.Store.{
  Store, Payment, PaymentStatus, Refund, RefundStatus, payment_key, refund_key,
}
use saziqo_platform.Payments.{payment_missing}

-- `userId !== undefined && payment.userId !== userId`
abbrev pub is_hidden : Option ℕ → Payment → Bool
is_hidden none p = false
is_hidden (some u) p = not (p.user_id == u)

-- `findById`
unfoldable pub find_by_id : ℕ → Option ℕ → Action Store Payment
find_by_id i user_id = do
  row ← gets (λ s. find_unique i s.payments.rows)
  payment ← or_throw row payment_missing
  throw_if (is_hidden user_id payment) payment_missing
  pure payment

-- `findForUser`
unfoldable pub find_for_user : ℕ → Option ℕ → ℕ → Store → Page Payment
unfolding find_page
find_for_user user_id cursor limit s =
    find_page (λ (p : Payment). p.user_id == user_id) cursor limit s.payments.rows

abbrev pub same_status : PaymentStatus → PaymentStatus → Bool
same_status PaymentStatus.pending PaymentStatus.pending = true
same_status PaymentStatus.succeeded PaymentStatus.succeeded = true
same_status PaymentStatus.failed PaymentStatus.failed = true
same_status PaymentStatus.cancelled PaymentStatus.cancelled = true
same_status PaymentStatus.expired PaymentStatus.expired = true
same_status _ _ = false

abbrev pub has_status : Option PaymentStatus → Payment → Bool
has_status none p = true
has_status (some t) p = same_status t p.status

-- `if (filters.userId)`: 0 is no filter.
abbrev pub truthy : Option ℕ → Option ℕ
truthy none = none
truthy (some u) = if u == 0 then none else some u

abbrev pub has_owner : Option ℕ → Payment → Bool
has_owner none p = true
has_owner (some u) p = p.user_id == u

-- `findForAdmin`
unfoldable pub find_for_admin :
    Option PaymentStatus → Option ℕ → Option ℕ → ℕ → Store → Page Payment
unfolding find_page
find_for_admin status user_id cursor limit s =
    find_page (λ p. has_status status p && has_owner (truthy user_id) p) (truthy cursor) limit
      s.payments.rows

abbrev pub same_refund_status : RefundStatus → RefundStatus → Bool
same_refund_status RefundStatus.pending_manual RefundStatus.pending_manual = true
same_refund_status RefundStatus.completed RefundStatus.completed = true
same_refund_status _ _ = false

abbrev pub has_refund_status : Option RefundStatus → Refund → Bool
has_refund_status none r = true
has_refund_status (some t) r = same_refund_status t r.status

abbrev pub is_for_payment : Option ℕ → Refund → Bool
is_for_payment none r = true
is_for_payment (some i) r = r.payment_id == i

-- `findRefundsForAdmin`
unfoldable pub find_refunds_for_admin :
    Option RefundStatus → Option ℕ → Option ℕ → ℕ → Store → Page Refund
unfolding find_page
find_refunds_for_admin status payment_id cursor limit s =
    find_page (λ r. has_refund_status status r && is_for_payment (truthy payment_id) r)
      (truthy cursor) limit s.refunds.rows
