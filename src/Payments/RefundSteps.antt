-- ===== src/Payments/RefundSteps.antt =====
-- What `refund` of apps/api/src/core/payments/payments.service.ts writes, branch by branch.
use saziqo_platform.Prelude.{
  ℕ, ◌≡◌, refl, Bool, true, false, some, [], arith, ℤ, pos, ◌+ℤ◌, ◌-ℤ◌, ◌≤ℤ◌, ◌<ℤ◌, int_laws,
  positive_or_not, le_or_lt, get_or, inl, inr, ◌⊎◌, Bool-cases, Option-cases,
}
use saziqo_platform.Action.{ok, err, Thrown, http, ErrorCode, bad_request, unprocessable_entity}
use saziqo_platform.Table.{find_unique, insert}
use saziqo_platform.Store.{Store, Payment, Refund, payment_key}
use saziqo_platform.Payments.{PaymentProvider, Answer, answered, thrown, payment_missing, rethrown}
use saziqo_platform.Payments.Refunds.{
  RefundInput, refund, refund_check, take_back, new_refund, probed, is_succeeded, refunded_of,
  is_refund_not_supported,
}

-- What the checks of `refund` have found when they pass.
pub record Refundable (input : RefundInput) (s : Store) (p : Payment) (amount : ℤ) : Type 0 where
  pub found : find_unique input.payment_id s.payments.rows ≡ some p
  pub succeeded : is_succeeded p.status ≡ true
  pub asked : amount ≡ get_or input.amount p.amount
  pub positive : pos 0 <ℤ amount
  pub available : refunded_of input.payment_id s.refunds.rows +ℤ amount ≤ℤ p.amount

module _ (input : RefundInput) (s : Store) where
  refund_check-passed :
      (p : Payment)
      → let amount = get_or input.amount p.amount in
        find_unique input.payment_id s.payments.rows ≡ some p
        → is_succeeded p.status ≡ true
        → pos 0 <ℤ amount
        → amount ≤ℤ p.amount -ℤ refunded_of input.payment_id s.refunds.rows
        → refund_check input s ≡ (ok (p, amount), s)
  unfolding refund_check
  refund_check-passed p f u a c = ground arith

  refund_check-exceeds :
      (p : Payment)
      → let amount = get_or input.amount p.amount in
        find_unique input.payment_id s.payments.rows ≡ some p
        → is_succeeded p.status ≡ true
        → pos 0 <ℤ amount
        → p.amount -ℤ refunded_of input.payment_id s.refunds.rows <ℤ amount
        → refund_check input s
          ≡ (err (http ErrorCode.refund_amount_exceeds_available unprocessable_entity), s)
  unfolding refund_check
  refund_check-exceeds p f u a c = ground arith

  pub refund_check_outcome :
      ((e : Thrown) × (refund_check input s ≡ (err e, s)))
      ⊎ ((p : Payment) × (amount : ℤ) × Refundable input s p amount
          × (refund_check input s ≡ (ok (p, amount), s)))
  unfolding refund_check
  refund_check_outcome = elim (Option-cases (find_unique input.payment_id s.payments.rows)) [
    | inl e ↦ inl (payment_missing, ground arith)
    | inr (p, f) ↦ elim (Bool-cases (is_succeeded p.status)) [
      | inr u ↦ inl (http ErrorCode.payment_not_refundable unprocessable_entity, ground arith)
      | inl u ↦ elim (positive_or_not (get_or input.amount p.amount)) [
        | inr a ↦ inl (http ErrorCode.validation_error bad_request, ground arith)
        | inl a ↦
            elim (le_or_lt (get_or input.amount p.amount)
              (p.amount -ℤ refunded_of input.payment_id s.refunds.rows)) [
                | inr c ↦ inl (
                  http ErrorCode.refund_amount_exceeds_available unprocessable_entity,
                  refund_check-exceeds p f u a c,
                )
                | inl c ↦ inr (
                  p,
                  get_or input.amount p.amount,
                  record {
                    found = f;
                    succeeded = u;
                    asked = refl;
                    positive = a;
                    available = omega int_laws;
                  },
                  refund_check-passed p f u a c,
                )
              ]
      ]
    ]
  ]

probed_outcome :
    (a : Answer Bool)
    → ((e : Thrown) × ((s : Store) → probed a s ≡ (err e, s)))
      ⊎ ((b : Bool) × ((s : Store) → probed a s ≡ (ok b, s)))
probed_outcome (answered b) = inr (b, λ s. refl)
probed_outcome (thrown e) = elim (Bool-cases (is_refund_not_supported e)) [
  | inl manual ↦ inr (false, λ s. rw manual refl)
  | inr loud ↦ inl (rethrown e, λ s. rw loud refl)
]

abbrev pub new_row : RefundInput → ℤ → Bool → ℕ → Store → Refund
new_row input amount automated now s = new_refund input amount automated now s.refunds.next

abbrev pub with_row : RefundInput → ℤ → Bool → ℕ → Store → Store
with_row input amount automated now s = record s {
  refunds = insert (new_refund input amount automated now) s.refunds;
}

abbrev asked_of : PaymentProvider → RefundInput → Payment → ℤ → Answer Bool
asked_of provider input p amount = provider.refund (record {
  provider_reference = get_or p.provider_reference [];
  amount = amount;
  reason = input.reason;
})

abbrev pub SameTables : Store → Store → Type 0
SameTables t u =
    (t.entries ≡ u.entries)
    × (t.payments ≡ u.payments)
    × (t.refunds ≡ u.refunds)
    × (t.wallets ≡ u.wallets)

module _ (provider : PaymentProvider) (now : ℕ) (input : RefundInput) (s : Store) where
  refund-unchecked :
      (e : Thrown) → refund_check input s ≡ (err e, s) → refund provider now input s ≡ (err e, s)
  unfolding refund
  refund-unchecked e h = ground (arith, h)

  refund-unanswered :
      (p : Payment) (amount : ℤ) (e : Thrown)
      → refund_check input s ≡ (ok (p, amount), s)
      → probed (asked_of provider input p amount) s ≡ (err e, s)
      → refund provider now input s ≡ (err e, s)
  unfolding refund
  refund-unanswered p amount e h k = ground (arith, h, k)

  refund-made :
      (p : Payment) (amount : ℤ) (automated : Bool)
      → refund_check input s ≡ (ok (p, amount), s)
      → probed (asked_of provider input p amount) s ≡ (ok automated, s)
      → SameTables
          (refund provider now input s).1
          (take_back
            (new_row input amount automated now s)
            p
            (with_row input amount automated now s)).1
  unfolding refund
  refund-made p amount automated h k =
      (ground (arith, h, k), ground (arith, h, k), ground (arith, h, k), ground (arith, h, k))

  -- A refund that is not made writes nothing; one that is made adds its row and takes the money back.
  pub refund_outcome :
      ((e : Thrown) × (refund provider now input s ≡ (err e, s)))
      ⊎ ((p : Payment) × (amount : ℤ) × (automated : Bool) × Refundable input s p amount
          × SameTables
              (refund provider now input s).1
              (take_back
                (new_row input amount automated now s)
                p
                (with_row input amount automated now s)).1)
  refund_outcome = elim (refund_check_outcome input s) [
    | inl (e, h) ↦ inl (e, refund-unchecked e h)
    | inr (p, amount, ok_to, h) ↦ elim (probed_outcome (asked_of provider input p amount)) [
      | inl (e, k) ↦ inl (e, refund-unanswered p amount e h (k s))
      | inr (automated, k) ↦
          inr (p, amount, automated, ok_to, refund-made p amount automated h (k s))
    ]
  ]
