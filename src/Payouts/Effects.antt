-- ===== src/Payouts/Effects.antt =====
-- What each operation of apps/api/src/core/payouts/payouts.service.ts leaves in the store: it
-- throws and leaves the store as it was, or it makes the changes that the outcome names.
use saziqo_platform.Prelude.{
  ℕ, ◌≡◌, true, some, List, [], ◌∷◌, ◌++◌, arith, ◌==◌, ◌+ℤ◌, Text, String, codes, to_string, ◌⊎◌,
  inl, inr, Bool-cases, Option-cases, ==→eq,
}
use saziqo_platform.Action.{Result, ok, err, Thrown, http, ErrorCode, conflict_status}
use saziqo_platform.Table.{find_unique, find_unique_id, update}
use saziqo_platform.Store.{
  Store, Wallet, LedgerKind, PayoutRequest, PayoutStatus, NotificationType, PayloadValue, number,
  text, wallet_key, payout_key,
}
use saziqo_platform.Ledger.{wallet_missing}
use saziqo_platform.Ledger.Steps.{posted}
use saziqo_platform.Payouts.{
  payout_entry, notify, approve, reject, mark_paid, cancel, is_pending, is_approved, as_approved,
  as_rejected, as_paid, as_cancelled, cancel_in_transaction, payout_missing,
}

-- A payout row rewritten in place.
abbrev pub with_payout : ℕ → (PayoutRequest → PayoutRequest) → Store → Store
with_payout i f s = record s {
  payouts = record { rows = update i f s.payouts.rows; next = s.payouts.next };
}

-- Why nothing happens.
abbrev pub Refused : {A : Type 0} → Result A × Store → Store → Type 0
Refused r s = (e : Thrown) × (r ≡ (err e, s))

abbrev pub cancelled_reference : PayoutRequest → Text
cancelled_reference p = codes "payout:cancelled:" ++ to_string p.id

-- The store after a cancellation.
abbrev pub cancelled_store : PayoutRequest → Wallet → Store → Store
cancelled_store p w s =
    posted
      (payout_entry p.wallet_id p LedgerKind.credit (cancelled_reference p)
        (codes "Payout cancelled — refund"))
      p.wallet_id (w.balance +ℤ p.amount) (with_payout p.id as_cancelled s)

-- The row that is written need not be the one that the check has read.
pub cancel_in_transaction-found :
    (p r : PayoutRequest) (w : Wallet) (s : Store)
    → find_unique p.id s.payouts.rows ≡ some r
    → find_unique p.wallet_id s.wallets.rows ≡ some w
    → cancel_in_transaction p s ≡ (ok (as_cancelled r), cancelled_store p w s)
unfolding cancel_in_transaction
cancel_in_transaction-found p r w s e f = ground arith

-- The payout that an operation on the id `i` reads, with its status.
pub record Read (i : ℕ) (p : PayoutRequest) (status : PayoutStatus) (s : Store) : Type 0 where
  pub found : find_unique i s.payouts.rows ≡ some p
  pub keyed : p.id ≡ i
  pub in_status : p.status ≡ status

pending_status : (t : PayoutStatus) → is_pending t ≡ true → t ≡ PayoutStatus.pending
pending_status t e = ground arith

approved_status : (t : PayoutStatus) → is_approved t ≡ true → t ≡ PayoutStatus.approved
approved_status t e = ground arith

refound :
    (i : ℕ) (p : PayoutRequest) (s : Store)
    → find_unique i s.payouts.rows ≡ some p
    → find_unique p.id s.payouts.rows ≡ some p
refound i p s e = ground (arith, find_unique_id i p s.payouts.rows e)

-- A cancellation is refused, or it is the owner's, of a pending payout, and pays back.
pub cancel_outcome :
    (i u : ℕ) (s : Store)
    → Refused (cancel i u s) s
      ⊎ ((p : PayoutRequest) × (w : Wallet) × Read i p PayoutStatus.pending s
          × (p.user_id ≡ u)
          × (find_unique p.wallet_id s.wallets.rows ≡ some w)
          × (cancel i u s ≡ (ok (as_cancelled p), cancelled_store p w s)))
unfolding cancel
cancel_outcome i u s = elim (Option-cases (find_unique i s.payouts.rows)) [
  | inl e ↦ inl (payout_missing, ground arith)
  | inr (p, e) ↦ elim (Bool-cases (p.user_id == u)) [
    | inr other ↦ inl (payout_missing, ground arith)
    | inl owner ↦ elim (Bool-cases (is_pending p.status)) [
      | inr past ↦ inl (http ErrorCode.payout_not_pending conflict_status, ground arith)
      | inl open_still ↦ elim (Option-cases (find_unique p.wallet_id s.wallets.rows)) [
        | inl f ↦ inl (wallet_missing, ground (arith, refound i p s e))
        | inr (w, f) ↦ inr (
          p,
          w,
          record {
            found = e;
            keyed = find_unique_id i p s.payouts.rows e;
            in_status = pending_status p.status open_still;
          },
          ==→eq p.user_id u owner,
          f,
          ground (arith, refound i p s e),
        )
      ]
    ]
  ]
]

abbrev pub rejected_reference : PayoutRequest → Text
rejected_reference p = codes "payout:rejected:" ++ to_string p.id

-- The store after the transaction of a rejection.
abbrev pub rejected_store : ℕ → ℕ → Text → PayoutRequest → Wallet → Store → Store
rejected_store reviewer now reason p w s =
    posted
      (payout_entry p.wallet_id p LedgerKind.credit (rejected_reference p)
        (codes "Payout rejected — refund"))
      p.wallet_id (w.balance +ℤ p.amount) (with_payout p.id (as_rejected reviewer now reason) s)

-- `dispatch` of a message to the owner.
abbrev pub told : ℕ → NotificationType → List (String × PayloadValue) → Store → Store
told user_id type payload s = (notify user_id type payload s).1

-- A rejection is refused, or it is of a pending payout, and pays back.
pub reject_outcome :
    (i reviewer : ℕ) (reason : Text) (now : ℕ) (s : Store)
    → Refused (reject i reviewer reason now s) s
      ⊎ ((p : PayoutRequest) × (w : Wallet) × Read i p PayoutStatus.pending s
          × (find_unique p.wallet_id s.wallets.rows ≡ some w)
          × (reject i reviewer reason now s ≡ (
            ok (as_rejected reviewer now reason p),
            told p.user_id NotificationType.payout_rejected
                (("amount", number p.amount) ∷ ("reason", text reason) ∷ [])
                (rejected_store reviewer now reason p w s),
          )))
unfolding reject
reject_outcome i reviewer reason now s = elim (Option-cases (find_unique i s.payouts.rows)) [
  | inl e ↦ inl (payout_missing, ground arith)
  | inr (p, e) ↦ elim (Bool-cases (is_pending p.status)) [
    | inr past ↦ inl (http ErrorCode.payout_not_pending conflict_status, ground arith)
    | inl open_still ↦ elim (Option-cases (find_unique p.wallet_id s.wallets.rows)) [
      | inl f ↦ inl (wallet_missing, ground (arith, refound i p s e))
      | inr (w, f) ↦ inr (
        p,
        w,
        record {
          found = e;
          keyed = find_unique_id i p s.payouts.rows e;
          in_status = pending_status p.status open_still;
        },
        f,
        ground (arith, refound i p s e),
      )
    ]
  ]
]

-- An approval is refused, or it is of a pending payout, and moves no money.
pub approve_outcome :
    (i reviewer now : ℕ) (s : Store)
    → Refused (approve i reviewer now s) s
      ⊎ ((p : PayoutRequest) × Read i p PayoutStatus.pending s
          × (approve i reviewer now s ≡ (
            ok (as_approved reviewer now p),
            told p.user_id NotificationType.payout_approved
                (("amount", number p.amount) ∷ [])
                (with_payout p.id (as_approved reviewer now) s),
          )))
unfolding approve
approve_outcome i reviewer now s = elim (Option-cases (find_unique i s.payouts.rows)) [
  | inl e ↦ inl (payout_missing, ground arith)
  | inr (p, e) ↦ elim (Bool-cases (is_pending p.status)) [
    | inr past ↦ inl (http ErrorCode.payout_not_pending conflict_status, ground arith)
    | inl open_still ↦ inr (
      p,
      record {
        found = e;
        keyed = find_unique_id i p s.payouts.rows e;
        in_status = pending_status p.status open_still;
      },
      ground (arith, refound i p s e),
    )
  ]
]

-- A payout is marked as paid only when it is approved, and no money moves.
pub mark_paid_outcome :
    (i reviewer : ℕ) (reference : Text) (now : ℕ) (s : Store)
    → Refused (mark_paid i reviewer reference now s) s
      ⊎ ((p : PayoutRequest) × Read i p PayoutStatus.approved s
          × (mark_paid i reviewer reference now s ≡ (
            ok (as_paid reviewer now reference p),
            told p.user_id NotificationType.payout_paid
                (("amount", number p.amount) ∷ ("paymentReference", text reference) ∷ [])
                (with_payout i (as_paid reviewer now reference) s),
          )))
unfolding mark_paid
mark_paid_outcome i reviewer reference now s = elim (Option-cases (find_unique i s.payouts.rows)) [
  | inl e ↦ inl (payout_missing, ground arith)
  | inr (p, e) ↦ elim (Bool-cases (is_approved p.status)) [
    | inr past ↦ inl (http ErrorCode.payout_not_approved conflict_status, ground arith)
    | inl approved_still ↦ inr (
      p,
      record {
        found = e;
        keyed = find_unique_id i p s.payouts.rows e;
        in_status = approved_status p.status approved_still;
      },
      ground arith,
    )
  ]
]
