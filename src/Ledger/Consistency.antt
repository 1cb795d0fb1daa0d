-- ===== src/Ledger/Consistency.antt =====
-- The invariant that schema.prisma states of a wallet: its balance is the sum of its ledger
-- entries, and what `credit` and `debit` of apps/api/src/core/ledger/ledger.service.ts do to it.
use saziqo_platform.Prelude.{
  positive_or_not, le_or_lt, ℕ, ◌≡◌, refl, ◌≤◌, ◌<◌, some, arith, ◌==◌, ℤ, pos, ◌+ℤ◌, ◌-ℤ◌, ◌≤ℤ◌,
  int_laws, inl, inr, Option-cases, Bool-cases,
}
use saziqo_platform.Table.{find_unique, find_unique-update}
use saziqo_platform.Store.{
  Store, Wallet, LedgerEntry, LedgerKind, NotificationType, Dispatch, dispatch, wallet_key,
}
use saziqo_platform.Ledger.Steps.{
  posted, credit-found, credit-refused, debit-found, debit-short, debit-refused,
}
use saziqo_platform.Ledger.{
  LedgerWriteInput, credit, debit, signed, computed_balance, with_balance, notify_owner, entry_of,
}

pub record IsConsistent (s : Store) : Type 0 where
  pub balances :
      (i : ℕ) (w : Wallet)
      → find_unique i s.wallets.rows ≡ some w
      → w.balance ≡ computed_balance i s.entries.rows
  pub solvent : (i : ℕ) (w : Wallet) → find_unique i s.wallets.rows ≡ some w → pos 0 ≤ℤ w.balance
  pub known : (i : ℕ) (w : Wallet) → find_unique i s.wallets.rows ≡ some w → i < s.wallets.next
  pub unused : (i : ℕ) → s.wallets.next ≤ i → computed_balance i s.entries.rows ≡ pos 0

module _ (mk : ℕ → LedgerEntry) (i : ℕ) (w : Wallet) (b : ℤ) (s : Store) (valid : IsConsistent s)
    (found : find_unique i s.wallets.rows ≡ some w) (owned : (mk s.entries.next).wallet_id ≡ some i)
    (moved : b ≡ w.balance +ℤ signed (mk s.entries.next).kind (mk s.entries.next).amount)
    (covered : pos 0 ≤ℤ b) where
  posted-balances :
      (j : ℕ) (v : Wallet)
      → find_unique j (posted mk i b s).wallets.rows ≡ some v
      → v.balance ≡ computed_balance j (posted mk i b s).entries.rows
  unfolding computed_balance
  posted-balances j v e =
      grind (
        int_laws,
        find_unique-update j i (with_balance b) s.wallets.rows (λ r. refl),
        valid.balances,
      )

  posted-solvent :
      (j : ℕ) (v : Wallet)
      → find_unique j (posted mk i b s).wallets.rows ≡ some v
      → pos 0 ≤ℤ v.balance
  posted-solvent j v e =
      grind
        (arith, find_unique-update j i (with_balance b) s.wallets.rows (λ r. refl), valid.solvent)

  posted-known :
      (j : ℕ) (v : Wallet)
      → find_unique j (posted mk i b s).wallets.rows ≡ some v
      → j < s.wallets.next
  posted-known j v e =
      grind (arith, find_unique-update j i (with_balance b) s.wallets.rows (λ r. refl), valid.known)

  posted-unused :
      (j : ℕ) → s.wallets.next ≤ j → computed_balance j (posted mk i b s).entries.rows ≡ pos 0
  unfolding computed_balance
  posted-unused j h = grind (arith, valid.unused j h, valid.known i w found)

  -- An entry and the balance that includes it keep the invariant.
  pub posted-IsConsistent : IsConsistent (posted mk i b s)
  posted-IsConsistent = record {
    balances = posted-balances;
    solvent = posted-solvent;
    known = posted-known;
    unused = posted-unused;
  }

pub dispatch-IsConsistent :
    (d : Dispatch) (s : Store) → IsConsistent s → IsConsistent (dispatch d s)
dispatch-IsConsistent d s h = record {
  balances = h.balances;
  solvent = h.solvent;
  known = h.known;
  unused = h.unused;
}

pub notify_owner-IsConsistent :
    (t : NotificationType) (u : ℕ) (a b : ℤ) (s : Store)
    → IsConsistent s
    → IsConsistent (notify_owner t u a b s).1
notify_owner-IsConsistent t u a b s h = elim (Bool-cases (u == 0)) [
  | inl e ↦ rw e h
  | inr e ↦ rw e (dispatch-IsConsistent _ s h)
]

pub credit-IsConsistent :
    (input : LedgerWriteInput) (s : Store) → IsConsistent s → IsConsistent (credit input s).1
credit-IsConsistent input s h = elim (positive_or_not input.amount) [
  | inl p ↦ elim (Option-cases (find_unique input.wallet_id s.wallets.rows)) [
    | inl e ↦ rw (credit-refused input s (inr e)) h
    | inr (w, e) ↦ rw (credit-found input w s p e) (
        notify_owner-IsConsistent _ w.user_id input.amount _ _ (
          posted-IsConsistent (entry_of input LedgerKind.credit w) input.wallet_id w
            (w.balance +ℤ input.amount) s h e refl refl
            (omega (int_laws, h.solvent input.wallet_id w e))))
  ]
  | inr n ↦ rw (credit-refused input s (inl n)) h
]

pub debit-IsConsistent :
    (input : LedgerWriteInput) (s : Store) → IsConsistent s → IsConsistent (debit input s).1
debit-IsConsistent input s h = elim (positive_or_not input.amount) [
  | inl p ↦ elim (Option-cases (find_unique input.wallet_id s.wallets.rows)) [
    | inl e ↦ rw (debit-refused input s (inr e)) h
    | inr (w, e) ↦ elim (le_or_lt input.amount w.balance) [
      | inl c ↦ rw (debit-found input w s p e c) (
          notify_owner-IsConsistent _ w.user_id input.amount _ _ (
            posted-IsConsistent (entry_of input LedgerKind.debit w) input.wallet_id w
              (w.balance -ℤ input.amount) s h e refl (omega int_laws) (omega int_laws)))
      | inr c ↦ rw (debit-short input w s p e c) h
    ]
  ]
  | inr n ↦ rw (debit-refused input s (inl n)) h
]
