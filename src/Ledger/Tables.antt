-- ===== src/Ledger/Tables.antt =====
-- Which tables the ledger and wallets services write (apps/api/src/core/ledger/ledger.service.ts,
-- apps/api/src/core/wallets/wallets.service.ts): for the proofs of the services that call them.
use saziqo_platform.Prelude.{
  ℕ, ◌≡◌, refl, arith, ◌==◌, ℤ, ◌+ℤ◌, ◌-ℤ◌, ◌⊎◌, inl, inr, Option-cases, Bool-cases,
  positive_or_not, le_or_lt,
}
use saziqo_platform.Action.{Result, ok, err, Thrown}
use saziqo_platform.Table.{find_unique, find_first, insert}
use saziqo_platform.Store.{Store, Wallet, LedgerEntry, LedgerKind, NotificationType, wallet_key}
use saziqo_platform.Ledger.{
  LedgerWriteInput, credit, debit, entry_of, notify_owner, insufficient, find_or_create_for_user,
  new_wallet,
}
use saziqo_platform.Ledger.Steps.{
  posted, refusal, credit-found, credit-refused, debit-found, debit-short, debit-refused,
}

-- The tables besides wallets and entries are as they were.
pub record SameRest (s t : Store) : Type 0 where
  pub payments : t.payments ≡ s.payments
  pub refunds : t.refunds ≡ s.refunds
  pub payouts : t.payouts ≡ s.payouts
  pub users : t.users ≡ s.users

-- The call threw, and no entry was written; or it returned, and wrote the one entry.
abbrev pub Wrote : LedgerWriteInput → LedgerKind → Store → Result LedgerEntry × Store → Type 0
Wrote input kind s r =
    ((e : Thrown) × (r.0 ≡ err e) × (r.1 ≡ s))
    ⊎ ((w : Wallet) × (e : LedgerEntry) × (r.0 ≡ ok e)
        × (r.1.entries ≡ insert (entry_of input kind w) s.entries))

posted-SameRest :
    (type : NotificationType) (u : ℕ) (a b : ℤ) (mk : ℕ → LedgerEntry) (i : ℕ) (nb : ℤ) (s : Store)
    → SameRest s (notify_owner type u a b (posted mk i nb s)).1
posted-SameRest type u a b mk i nb s = elim (Bool-cases (u == 0)) [
  | inl e ↦ rw e (record { payments = refl; refunds = refl; payouts = refl; users = refl })
  | inr e ↦ rw e (record { payments = refl; refunds = refl; payouts = refl; users = refl })
]

notify_owner-entries :
    (t : NotificationType) (u : ℕ) (a b : ℤ) (s : Store)
    → (notify_owner t u a b s).1.entries ≡ s.entries
notify_owner-entries t u a b s = ground arith

pub credit-Wrote :
    (input : LedgerWriteInput) (s : Store)
    → SameRest s (credit input s).1 × Wrote input LedgerKind.credit s (credit input s)
credit-Wrote input s = elim (positive_or_not input.amount) [
  | inr n ↦ rw (credit-refused input s (inl n)) (unwritten, inl (refusal input.amount, refl, refl))
  | inl p ↦ elim (Option-cases (find_unique input.wallet_id s.wallets.rows)) [
    | inl e ↦
        rw (credit-refused input s (inr e)) (unwritten, inl (refusal input.amount, refl, refl))
    | inr (w, e) ↦ rw (credit-found input w s p e) (
      posted-SameRest NotificationType.wallet_credited w.user_id input.amount
          (w.balance +ℤ input.amount) (entry_of input LedgerKind.credit w) input.wallet_id
          (w.balance +ℤ input.amount) s,
      inr (
        w,
        entry_of input LedgerKind.credit w s.entries.next,
        refl,
        notify_owner-entries NotificationType.wallet_credited w.user_id input.amount
            (w.balance +ℤ input.amount) _,
      ),
    )
  ]
]
  where
    unwritten : SameRest s s
    unwritten = record { payments = refl; refunds = refl; payouts = refl; users = refl }

pub debit-Wrote :
    (input : LedgerWriteInput) (s : Store)
    → SameRest s (debit input s).1 × Wrote input LedgerKind.debit s (debit input s)
debit-Wrote input s = elim (positive_or_not input.amount) [
  | inr n ↦ rw (debit-refused input s (inl n)) (unwritten, inl (refusal input.amount, refl, refl))
  | inl p ↦ elim (Option-cases (find_unique input.wallet_id s.wallets.rows)) [
    | inl e ↦ rw (debit-refused input s (inr e)) (unwritten, inl (refusal input.amount, refl, refl))
    | inr (w, e) ↦ elim (le_or_lt input.amount w.balance) [
      | inr c ↦ rw (debit-short input w s p e c) (unwritten, inl (insufficient, refl, refl))
      | inl c ↦ rw (debit-found input w s p e c) (
        posted-SameRest NotificationType.wallet_debited w.user_id input.amount
            (w.balance -ℤ input.amount) (entry_of input LedgerKind.debit w) input.wallet_id
            (w.balance -ℤ input.amount) s,
        inr (
          w,
          entry_of input LedgerKind.debit w s.entries.next,
          refl,
          notify_owner-entries NotificationType.wallet_debited w.user_id input.amount
              (w.balance -ℤ input.amount) _,
        ),
      )
    ]
  ]
]
  where
    unwritten : SameRest s s
    unwritten = record { payments = refl; refunds = refl; payouts = refl; users = refl }

-- A user's wallet is there afterwards, and only the wallets were written.
pub find_or_create_lem :
    (u : ℕ) (s : Store)
    → (w : Wallet) × ((find_or_create_for_user u s).0 ≡ ok w)
      × SameRest s (find_or_create_for_user u s).1
      × ((find_or_create_for_user u s).1.entries ≡ s.entries)
unfolding find_or_create_for_user
find_or_create_lem u s =
    elim (Option-cases (find_first (λ (w : Wallet). w.user_id == u) s.wallets.rows)) [
      | inl e ↦ (
        new_wallet u s.wallets.next,
        rw e refl,
        rw e (record { payments = refl; refunds = refl; payouts = refl; users = refl }),
        rw e refl,
      )
      | inr (w, e) ↦ (
        w,
        rw e refl,
        rw e (record { payments = refl; refunds = refl; payouts = refl; users = refl }),
        rw e refl,
      )
    ]
