-- ===== src/Payments/RefundCap.antt =====
-- How much of a payment `refund` of apps/api/src/core/payments/payments.service.ts gives back.
use saziqo_platform.Prelude.{
  ℕ, ◌≡◌, refl, ap, ◌∙◌, Bool, true, some, List, ◌∷◌, ℤ, pos, ◌+ℤ◌, ◌≤ℤ◌, ◌<ℤ◌, int_laws, inl, inr,
  ◌⊎◌, Bool-cases, ==_refl,
}
use saziqo_platform.Table.{find_unique}
use saziqo_platform.Store.{Store, Payment, Refund, payment_key}
use saziqo_platform.Ledger.{find_or_create_for_user}
use saziqo_platform.Ledger.Tables.{debit-Wrote, find_or_create_lem}
use saziqo_platform.Payments.{PaymentProvider, is_topup}
use saziqo_platform.Payments.Refunds.{
  RefundInput, refund, take_back, refund_debit, refunded_of, is_succeeded, new_refund,
}
use saziqo_platform.Payments.RefundSteps.{refund_outcome, new_row, with_row}
use saziqo_platform.Payments.TakenBack.{take_back_tables, take_back_other}

take_back_refunds : (r : Refund) (p : Payment) (s : Store) → (take_back r p s).1.refunds ≡ s.refunds
take_back_refunds r p s = elim (Bool-cases (is_topup p.purpose)) [
  | inr other ↦ ap (λ t. t.refunds) (take_back_other r p s other)
  | inl topup ↦
      let (w, found, rest, same) = find_or_create_lem p.user_id s in
      let (rest', wrote) =
        debit-Wrote (refund_debit r p w.id) (find_or_create_for_user p.user_id s).1 in
      ap (λ t. t.refunds) (take_back_tables r p s w found topup) ∙ rest'.refunds ∙ rest.refunds
]

refunded_with :
    (input : RefundInput) (amount : ℤ) (automated : Bool) (now i : ℕ) (rs : List Refund)
    → refunded_of input.payment_id (new_refund input amount automated now i ∷ rs)
      ≡ amount +ℤ refunded_of input.payment_id rs
unfolding refunded_of
refunded_with input amount automated now i rs = rw (==_refl input.payment_id) refl

rises : (a r t : ℤ) → t ≡ a +ℤ r → pos 0 <ℤ a → r <ℤ t
rises a r t e h = grind int_laws

stays_under : (a r t p : ℤ) → t ≡ a +ℤ r → r +ℤ a ≤ℤ p → t ≤ℤ p
stays_under a r t p e h = grind int_laws

-- A refund call either writes no refund row, or the payment has succeeded and what is given back of
-- it rises and stays within the payment's amount, also when the call then throws because the wallet
-- cannot give the money back.
pub refund_capped :
    (provider : PaymentProvider) (now : ℕ) (input : RefundInput) (s : Store)
    → let t = (refund provider now input s).1 in
      let before = refunded_of input.payment_id s.refunds.rows in
      let afterwards = refunded_of input.payment_id t.refunds.rows in
      (t.refunds ≡ s.refunds)
      ⊎ ((p : Payment) × (find_unique input.payment_id s.payments.rows ≡ some p)
          × (is_succeeded p.status ≡ true)
          × (before <ℤ afterwards)
          × (afterwards ≤ℤ p.amount))
refund_capped provider now input s = elim (refund_outcome provider now input s) [
  | inl (e, r) ↦ inl (ap (λ x. x.1.refunds) r)
  | inr (p, amount, automated, allowed, (entries, payments, refunds, wallets)) ↦
      let u = with_row input amount automated now s in
      let rows =
        ap (λ t. t.rows) (refunds ∙ take_back_refunds (new_row input amount automated now s) p u) in
      let sum =
        ap (refunded_of input.payment_id) rows
        ∙ refunded_with input amount automated now s.refunds.next s.refunds.rows in
      inr (
        p,
        allowed.found,
        allowed.succeeded,
        rises amount _ _ sum allowed.positive,
        stays_under amount _ _ p.amount sum allowed.available,
      )
]
