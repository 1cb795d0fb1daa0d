-- ===== src/Payments/TakenBack.antt =====
-- That refunds (`refund` of apps/api/src/core/payments/payments.service.ts) leave payments credited
-- exactly once.
use saziqo_platform.Prelude.{ℕ, ◌≡◌, refl, ap, true, false, arith, inl, inr, Bool-cases}
use saziqo_platform.Action.{ok}
use saziqo_platform.Store.{
  Store, Payment, LedgerKind, Refund, Wallet, payment_key, user_key, refund_key,
}
use saziqo_platform.Ledger.{debit, find_or_create_for_user, entry_of}
use saziqo_platform.Ledger.Tables.{debit-Wrote, find_or_create_lem}
use saziqo_platform.Payments.{PaymentProvider, is_topup}
use saziqo_platform.Payments.Refunds.{RefundInput, refund, take_back, refund_debit}
use saziqo_platform.Payments.Exact.{refund_entry-Exact}
use saziqo_platform.Payments.RefundSteps.{refund_outcome, new_row, with_row}
use saziqo_platform.Payments.Once.{IsExact, transported}

-- The debit of a refund, behind its `catch`.
pub take_back_tables :
    (r : Refund) (p : Payment) (s : Store) (w : Wallet)
    → (find_or_create_for_user p.user_id s).0 ≡ ok w
    → is_topup p.purpose ≡ true
    → (take_back r p s).1
      ≡ (debit (refund_debit r p w.id) (find_or_create_for_user p.user_id s).1).1
unfolding take_back
take_back_tables r p s w found topup = ground arith

pub take_back_other :
    (r : Refund) (p : Payment) (s : Store) → is_topup p.purpose ≡ false → (take_back r p s).1 ≡ s
unfolding take_back
take_back_other r p s other = ground arith

debited-IsExact :
    (r : Refund) (p : Payment) (i : ℕ) (s : Store)
    → IsExact s
    → IsExact (debit (refund_debit r p i) s).1
debited-IsExact r p i s h =
    let (rest, wrote) = debit-Wrote (refund_debit r p i) s in
    let payments = ap (λ x. x.rows) rest.payments in
    elim wrote [
      | inl (e, threw, back) ↦
          transported s (debit (refund_debit r p i) s).1 (ap (λ u. u.entries.rows) back) payments h
      | inr (v, e, done, entries) ↦
          rw (ap (λ x. x.rows) entries, payments)
            (refund_entry-Exact (entry_of (refund_debit r p i) LedgerKind.debit v s.entries.next)
              r.id s.entries.rows s.payments.rows refl h)
    ]

take_back-IsExact : (r : Refund) (p : Payment) (s : Store) → IsExact s → IsExact (take_back r p s).1
take_back-IsExact r p s h = elim (Bool-cases (is_topup p.purpose)) [
  | inr other ↦ rw (take_back_other r p s other) h
  | inl topup ↦
      let (w, found, rest, same) = find_or_create_lem p.user_id s in
      let t = (find_or_create_for_user p.user_id s).1 in
      rw (take_back_tables r p s w found topup) (
        debited-IsExact r p w.id t
          (transported s t (ap (λ x. x.rows) same) (ap (λ x. x.rows) rest.payments) h))
]

pub refund-IsExact :
    (provider : PaymentProvider) (now : ℕ) (input : RefundInput) (s : Store)
    → IsExact s
    → IsExact (refund provider now input s).1
refund-IsExact provider now input s h = elim (refund_outcome provider now input s) [
  | inl (e, r) ↦ rw r h
  | inr (p, amount, automated, found, (entries, payments, refunds, wallets)) ↦
      transported
        (take_back (new_row input amount automated now s) p
          (with_row input amount automated now s)).1
        (refund provider now input s).1 (ap (λ t. t.rows) entries) (ap (λ t. t.rows) payments)
        (take_back-IsExact (new_row input amount automated now s) p
          (with_row input amount automated now s) h)
]
