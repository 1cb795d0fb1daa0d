-- ===== src/Ledger/Conservation.antt =====
-- The ledger service (apps/api/src/core/ledger/ledger.service.ts) seen as a map from wallets to
-- balances: what each operation does to the map and to its sum.
use saziqo_platform.Prelude.{
  ℕ, ◌≡◌, refl, ◌≢◌, Option, none, some, List, [], ◌∷◌, arith, ◌==◌, if◌then◌else◌, ℤ, pos, ◌+ℤ◌,
  ◌-ℤ◌, ◌≤ℤ◌, ◌<ℤ◌, int_laws,
}
use saziqo_platform.Table.{find_unique, find_unique-update, update}
use saziqo_platform.Store.{Store, Wallet, LedgerEntry, LedgerKind, NotificationType, wallet_key}
use saziqo_platform.Ledger.{TransferInput, with_balance, notify_owner}
use saziqo_platform.Ledger.Steps.{posted}
use saziqo_platform.Ledger.Consistency.{
  IsConsistent, posted-IsConsistent, notify_owner-IsConsistent,
}
use saziqo_platform.Ledger.Transfer.{transfer, transfer_entry}
use saziqo_platform.Ledger.TransferSteps.{
  refused, short, covered, outcome, both_posted, transfer_notified, transfer-covered,
  transfer-short, transfer-refused,
}

abbrev pub balance_in : Option Wallet → Option ℤ
balance_in none = none
balance_in (some w) = some w.balance

-- The abstract state: which balance a wallet has, if there is such a wallet.
abbrev pub balance_of : Store → ℕ → Option ℤ
balance_of s i = balance_in (find_unique i s.wallets.rows)

abbrev pub sum_balances : List Wallet → ℤ
sum_balances [] = pos 0
sum_balances (w ∷ ws) = w.balance +ℤ sum_balances ws

-- All the money in the wallets.
abbrev pub total : Store → ℤ
total s = sum_balances s.wallets.rows

pub notify_owner-wallets :
    (t : NotificationType) (u : ℕ) (a b : ℤ) (s : Store)
    → (notify_owner t u a b s).1.wallets ≡ s.wallets
notify_owner-wallets t u a b s = ground arith

pub sum_balances-update :
    (i : ℕ) (b : ℤ) (w : Wallet) (ws : List Wallet)
    → find_unique i ws ≡ some w
    → sum_balances (update i (with_balance b) ws) +ℤ w.balance ≡ sum_balances ws +ℤ b
sum_balances-update i b w [] e = cc
sum_balances-update i b w (x ∷ ws) e = grind (int_laws, sum_balances-update i b w ws)

pub balance_of-posted :
    (mk : ℕ → LedgerEntry) (i : ℕ) (b : ℤ) (w : Wallet) (s : Store) (j : ℕ)
    → find_unique i s.wallets.rows ≡ some w
    → balance_of (posted mk i b s) j ≡ (if i == j then some b else balance_of s j)
balance_of-posted mk i b w s j e =
    ground (arith, find_unique-update j i (with_balance b) s.wallets.rows (λ r. refl))

-- The receiver is found as it was, since the two wallets differ.
still_found :
    (mk : ℕ → LedgerEntry) (i j : ℕ) (b : ℤ) (v : Wallet) (s : Store)
    → i ≢ j
    → find_unique j s.wallets.rows ≡ some v
    → find_unique j (posted mk i b s).wallets.rows ≡ some v
still_found mk i j b v s ne e =
    ground (arith, find_unique-update j i (with_balance b) s.wallets.rows (λ r. refl))

module _ (input : TransferInput) (u v : Wallet) (s : Store)
    (ne : input.from_wallet_id ≢ input.to_wallet_id)
    (eu : find_unique input.from_wallet_id s.wallets.rows ≡ some u)
    (ev : find_unique input.to_wallet_id s.wallets.rows ≡ some v) where
  abbrev half_posted : Store
  half_posted =
      posted (transfer_entry input LedgerKind.debit input.from_wallet_id u) input.from_wallet_id
        (u.balance -ℤ input.amount) s

  receiver_found : find_unique input.to_wallet_id half_posted.wallets.rows ≡ some v
  receiver_found =
      still_found (transfer_entry input LedgerKind.debit input.from_wallet_id u)
        input.from_wallet_id input.to_wallet_id (u.balance -ℤ input.amount) v s ne ev

  pub both_posted-IsConsistent :
      input.amount ≤ℤ u.balance
      → pos 0 <ℤ input.amount
      → IsConsistent s
      → IsConsistent (both_posted input u v s)
  both_posted-IsConsistent c p h =
      posted-IsConsistent (transfer_entry input LedgerKind.credit input.to_wallet_id v)
        input.to_wallet_id v (v.balance +ℤ input.amount) half_posted
        (posted-IsConsistent (transfer_entry input LedgerKind.debit input.from_wallet_id u)
          input.from_wallet_id u (u.balance -ℤ input.amount) s h eu refl (omega int_laws)
          (omega int_laws))
        receiver_found refl refl (omega (int_laws, h.solvent input.to_wallet_id v ev))

  pub balance_of-both_posted :
      (j : ℕ)
      → balance_of (both_posted input u v s) j ≡ (
          if input.to_wallet_id == j
          then some (v.balance +ℤ input.amount)
          else if input.from_wallet_id == j
          then some (u.balance -ℤ input.amount)
          else balance_of s j)
  balance_of-both_posted j = ground (
    arith,
    balance_of-posted (transfer_entry input LedgerKind.credit input.to_wallet_id v)
        input.to_wallet_id (v.balance +ℤ input.amount) v half_posted j receiver_found,
    balance_of-posted (transfer_entry input LedgerKind.debit input.from_wallet_id u)
        input.from_wallet_id (u.balance -ℤ input.amount) u s j eu,
  )

  pub total-both_posted : total (both_posted input u v s) ≡ total s
  total-both_posted = grind (
    int_laws,
    sum_balances-update input.to_wallet_id (v.balance +ℤ input.amount) v half_posted.wallets.rows
        receiver_found,
    sum_balances-update input.from_wallet_id (u.balance -ℤ input.amount) u s.wallets.rows eu,
  )

  pub transfer_notified-wallets : (t : Store) → (transfer_notified input u v t).wallets ≡ t.wallets
  transfer_notified-wallets t = ground arith

pub transfer-IsConsistent :
    (input : TransferInput) (s : Store) → IsConsistent s → IsConsistent (transfer input s).1
transfer-IsConsistent input s h = elim (outcome input s) [
  | refused r ↦ rw (transfer-refused input s r) h
  | short u v p ne eu ev c ↦ rw (transfer-short input s u v p ne eu ev c) h
  | covered u v p ne eu ev c ↦ rw (transfer-covered input s u v p ne eu ev c) (
      notify_owner-IsConsistent NotificationType.wallet_credited v.user_id input.amount
        (v.balance +ℤ input.amount) _
        (notify_owner-IsConsistent NotificationType.wallet_debited u.user_id input.amount
          (u.balance -ℤ input.amount) _ (both_posted-IsConsistent input u v s ne eu ev c p h)))
]

-- A transfer between wallets conserves the total of all balances, whatever its outcome.
pub transfer-total : (input : TransferInput) (s : Store) → total (transfer input s).1 ≡ total s
transfer-total input s = elim (outcome input s) [
  | refused r ↦ rw (transfer-refused input s r)
  | short u v p ne eu ev c ↦ rw (transfer-short input s u v p ne eu ev c)
  | covered u v p ne eu ev c ↦
      rw
        (
          transfer-covered input s u v p ne eu ev c,
          transfer_notified-wallets input u v s ne eu ev (both_posted input u v s),
        )
        (total-both_posted input u v s ne eu ev)
]
