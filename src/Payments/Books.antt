-- ===== src/Payments/Books.antt =====
-- The ledger's books under the calls of apps/api/src/core/payments/payments.service.ts.
use saziqo_platform.Prelude.{
  ℕ, ◌≡◌, refl, List, arith, ◌==◌, int_laws, Text, inl, inr, Bool-cases, Option-cases,
}
use saziqo_platform.Table.{find_unique, find_first, insert}
use saziqo_platform.Store.{
  Store, Wallet, Payment, Refund, wallet_key, payment_key, user_key, refund_key,
}
use saziqo_platform.Ledger.{find_or_create_for_user, created}
use saziqo_platform.Payments.{
  PaymentProvider, Answer, answered, thrown, GatewayInitiated, is_topup, update_payment,
}
use saziqo_platform.Payments.Initiate.{
  Config, InitiateInput, initiate, started, is_valid_purpose, new_payment, asked,
}
use saziqo_platform.Payments.Reconciler.{
  reconcile, settle, topup_credit, existing_entry, payment_reference,
}
use saziqo_platform.Payments.Refunds.{
  RefundInput, refund, take_back, refund_debit, MarkRefundCompletedInput, mark_refund_completed,
}
use saziqo_platform.Payments.RefundSteps.{refund_outcome, new_row, with_row}
use saziqo_platform.Payments.TakenBack.{take_back_tables, take_back_other}
use saziqo_platform.Payments.Opened.{initiate_refused, initiate_started}
use saziqo_platform.Payments.Settled.{settle_topup, settle_other}
use saziqo_platform.Ledger.Tables.{find_or_create_lem}
use saziqo_platform.Ledger.Consistency.{IsConsistent, credit-IsConsistent, debit-IsConsistent}

pub moved-IsConsistent :
    (s t : Store) → t.wallets ≡ s.wallets → t.entries ≡ s.entries → IsConsistent s → IsConsistent t
moved-IsConsistent s t w e h = record {
  balances = λ i x f. ground (arith, w, e, h.balances i x);
  solvent = λ i x f. ground (arith, w, h.solvent i x);
  known = λ i x f. ground (arith, w, h.known i x);
  unused = λ i k. ground (arith, w, e, h.unused i);
}

created-IsConsistent : (u : ℕ) (s : Store) → IsConsistent s → IsConsistent (created u s).1
created-IsConsistent u s h = record {
  balances = λ i x f. ground (arith, h.balances i x, h.unused s.wallets.next);
  solvent = λ i x f. grind (int_laws, h.solvent i x);
  known = λ i x f. ground (arith, h.known i x);
  unused = λ i k. h.unused i (omega arith);
}

pub find_or_create-IsConsistent :
    (u : ℕ) (s : Store) → IsConsistent s → IsConsistent (find_or_create_for_user u s).1
unfolding find_or_create_for_user
find_or_create-IsConsistent u s h =
    elim (Option-cases (find_first (λ (w : Wallet). w.user_id == u) s.wallets.rows)) [
      | inl e ↦ rw e (created-IsConsistent u s h)
      | inr (w, e) ↦ rw e h
    ]

settle-IsConsistent : (p : Payment) (s : Store) → IsConsistent s → IsConsistent (settle p s).1
settle-IsConsistent p s h = elim (Bool-cases (is_topup p.purpose)) [
  | inr other ↦ rw (settle_other p s other) h
  | inl topup ↦
      let (w, found, rest, same) = find_or_create_lem p.user_id s in
      rw (settle_topup p s w found topup) (
        credit-IsConsistent (topup_credit p w.id) (find_or_create_for_user p.user_id s).1
          (find_or_create-IsConsistent p.user_id s h))
]

pub reconcile-IsConsistent : (i : ℕ) (s : Store) → IsConsistent s → IsConsistent (reconcile i s).1
unfolding reconcile
reconcile-IsConsistent i s h = elim (Option-cases (find_unique i s.payments.rows)) [
  | inl e ↦ rw e h
  | inr (p, e) ↦ elim (Option-cases (existing_entry (payment_reference p.id) s)) [
    | inl new ↦ rw (e, new) (settle-IsConsistent p s h)
    | inr (x, there) ↦ rw (e, there) h
  ]
]

take_back-IsConsistent :
    (r : Refund) (p : Payment) (s : Store) → IsConsistent s → IsConsistent (take_back r p s).1
take_back-IsConsistent r p s h = elim (Bool-cases (is_topup p.purpose)) [
  | inr other ↦ rw (take_back_other r p s other) h
  | inl topup ↦
      let (w, found, rest, same) = find_or_create_lem p.user_id s in
      rw (take_back_tables r p s w found topup) (
        debit-IsConsistent (refund_debit r p w.id) (find_or_create_for_user p.user_id s).1
          (find_or_create-IsConsistent p.user_id s h))
]

pub refund-IsConsistent :
    (provider : PaymentProvider) (now : ℕ) (input : RefundInput) (s : Store)
    → IsConsistent s
    → IsConsistent (refund provider now input s).1
refund-IsConsistent provider now input s h = elim (refund_outcome provider now input s) [
  | inl (e, r) ↦ rw r h
  | inr (p, amount, automated, allowed, (entries, payments, given, wallets)) ↦
      let u = with_row input amount automated now s in
      let row = new_row input amount automated now s in
      moved-IsConsistent (take_back row p u).1 (refund provider now input s).1 wallets entries
        (take_back-IsConsistent row p u (moved-IsConsistent s u refl refl h))
]

-- The ledger's two tables.
abbrev pub SameBooks : Store → Store → Type 0
SameBooks s t = (t.wallets ≡ s.wallets) × (t.entries ≡ s.entries)

started-SameBooks :
    (p : Payment) (now : ℕ) (a : Answer GatewayInitiated) (s : Store)
    → SameBooks s (started p now a s).1
unfolding update_payment
started-SameBooks p now (thrown e) s = elim (Option-cases (find_unique p.id s.payments.rows)) [
  | inl f ↦ (ground (arith, f), ground (arith, f))
  | inr (q, f) ↦ (ground (arith, f), ground (arith, f))
]
started-SameBooks p now (answered r) s = elim (Option-cases (find_unique p.id s.payments.rows)) [
  | inl f ↦ (ground (arith, f), ground (arith, f))
  | inr (q, f) ↦ (ground (arith, f), ground (arith, f))
]

pub initiate-IsConsistent :
    (config : Config) (allowed : List Text) (provider : PaymentProvider) (now : ℕ)
    (input : InitiateInput) (s : Store)
    → IsConsistent s
    → IsConsistent (initiate config allowed provider now input s).1
initiate-IsConsistent config allowed provider now input s h =
    elim (Bool-cases (is_valid_purpose allowed input.purpose)) [
      | inr bad ↦ rw (initiate_refused config allowed provider now input s (inl bad)) h
      | inl good ↦ elim (Option-cases (find_unique input.user_id s.users)) [
        | inl e ↦ rw (initiate_refused config allowed provider now input s (inr e)) h
        | inr (user, e) ↦
            let p = new_payment provider input s.payments.next in
            let u : Store = record s {
              payments = insert (new_payment provider input) s.payments;
            } in
            let (wallets, entries) =
              started-SameBooks p now (provider.initiate (asked config input user p)) u in
            rw (initiate_started config allowed provider now input user s good e) (
              moved-IsConsistent u
                (started p now (provider.initiate (asked config input user p)) u).1 wallets entries
                (moved-IsConsistent s u refl refl h))
      ]
    ]

pub completed-SameBooks :
    (now : ℕ) (input : MarkRefundCompletedInput) (s : Store)
    → SameBooks s (mark_refund_completed now input s).1
unfolding mark_refund_completed
completed-SameBooks now input s = elim (Option-cases (find_unique input.refund_id s.refunds.rows)) [
  | inl e ↦ (ground arith, ground arith)
  | inr (r, e) ↦ (ground arith, ground arith)
]
