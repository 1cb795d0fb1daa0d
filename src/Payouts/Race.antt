-- ===== src/Payouts/Race.antt =====
-- Two cancellations of one payout at once (`cancel` of apps/api/src/core/payouts/payouts.service.ts):
-- the status is read before the transaction, and the write does not ask for it again.
use saziqo_platform.Prelude.{
  ℕ, ◌≡◌, refl, some, arith, ℤ, pos, ◌+ℤ◌, int_laws, inl, inr, Option-cases,
}
use saziqo_platform.Action.{ok, transaction}
use saziqo_platform.Table.{find_unique, find_unique_id, find_unique-update}
use saziqo_platform.Store.{Store, Wallet, PayoutRequest, PayoutStatus, wallet_key, payout_key}
use saziqo_platform.Ledger.{with_balance}
use saziqo_platform.Ledger.Conservation.{total, balance_of, sum_balances-update}
use saziqo_platform.Payouts.{as_cancelled, cancel_check, cancel_in_transaction}
use saziqo_platform.Payouts.Effects.{cancelled_store, cancel_in_transaction-found}
use saziqo_platform.Payouts.Money.{held, held_by, sum_held-update}

-- The part of `cancel` behind its checks.
abbrev pub commit : PayoutRequest → Store → Store
commit p s = (transaction (cancel_in_transaction p) s).1

-- What a check that passes has read.
checked_row :
    (i u : ℕ) (p : PayoutRequest) (s : Store)
    → cancel_check i u s ≡ (ok p, s)
    → (find_unique p.id s.payouts.rows ≡ some p) × (p.status ≡ PayoutStatus.pending)
unfolding cancel_check
checked_row i u p s e = elim (Option-cases (find_unique i s.payouts.rows)) [
  | inl f ↦ absurd (ground arith)
  | inr (q, f) ↦
      let same : q ≡ p = ground arith in
      (ground (arith, find_unique_id i q s.payouts.rows f), ground arith)
]

raised_twice :
    (t u v b a : ℤ) → u +ℤ b ≡ t +ℤ (b +ℤ a) → v +ℤ (b +ℤ a) ≡ u +ℤ (b +ℤ a +ℤ a) → v ≡ t +ℤ a +ℤ a
raised_twice t u v b a e f = grind int_laws

freed_once :
    (g h k a x y z : ℤ)
    → x ≡ a
    → y ≡ pos 0
    → z ≡ pos 0
    → h +ℤ x ≡ g +ℤ y
    → k +ℤ y ≡ h +ℤ z
    → k +ℤ a ≡ g
freed_once g h k a x y z ex ey ez e f = grind int_laws

add_up : (t v g k a : ℤ) → v ≡ t +ℤ a +ℤ a → k +ℤ a ≡ g → v +ℤ k ≡ t +ℤ g +ℤ a
add_up t v g k a e f = grind int_laws

module _ (p : PayoutRequest) (w : Wallet) (s : Store)
    (found : find_unique p.id s.payouts.rows ≡ some p)
    (owned : find_unique p.wallet_id s.wallets.rows ≡ some w) where
  abbrev once : Store
  once = cancelled_store p w s

  abbrev credited : Wallet
  credited = with_balance (w.balance +ℤ p.amount) w

  row_once : find_unique p.id once.payouts.rows ≡ some (as_cancelled p)
  row_once = ground (arith, find_unique-update p.id p.id as_cancelled s.payouts.rows (λ x. refl))

  wallet_once : find_unique p.wallet_id once.wallets.rows ≡ some credited
  wallet_once = ground (
    arith,
    find_unique-update p.wallet_id p.wallet_id (with_balance (w.balance +ℤ p.amount)) s.wallets.rows
        (λ x. refl),
  )

  pub commit_twice : commit p (commit p s) ≡ cancelled_store p credited once
  commit_twice = ground (
    arith,
    cancel_in_transaction-found p p w s found owned,
    cancel_in_transaction-found p (as_cancelled p) credited once row_once wallet_once,
  )

  released : (q : PayoutRequest) → held_by (as_cancelled q) ≡ pos 0
  unfolding held_by
  released q = refl

  held_before : p.status ≡ PayoutStatus.pending → held_by p ≡ p.amount
  unfolding held_by
  held_before e = ground arith

  money_twice :
      p.status ≡ PayoutStatus.pending
      → total (cancelled_store p credited once) +ℤ held (cancelled_store p credited once)
        ≡ total s +ℤ held s +ℤ p.amount
  money_twice e =
      let a = p.amount in
      let b = w.balance in
      let first = sum_balances-update p.wallet_id (b +ℤ a) w s.wallets.rows owned in
      let second =
        sum_balances-update p.wallet_id (b +ℤ a +ℤ a) credited once.wallets.rows wallet_once in
      let freed = sum_held-update p.id as_cancelled p s.payouts.rows found in
      let idle = sum_held-update p.id as_cancelled (as_cancelled p) once.payouts.rows row_once in
      add_up (total s) (total (cancelled_store p credited once)) (held s)
        (held (cancelled_store p credited once)) a
        (raised_twice (total s) (total once) (total (cancelled_store p credited once)) b a first
          second)
        (freed_once (held s) (held once) (held (cancelled_store p credited once)) a (held_by p)
          (held_by (as_cancelled p)) (held_by (as_cancelled (as_cancelled p))) (held_before e)
          (released p) (released (as_cancelled p)) freed idle)

  balance_twice :
      balance_of (cancelled_store p credited once) p.wallet_id
      ≡ some (w.balance +ℤ p.amount +ℤ p.amount)
  balance_twice = ground (
    arith,
    find_unique-update p.wallet_id p.wallet_id (with_balance (credited.balance +ℤ p.amount))
        once.wallets.rows (λ x. refl),
    wallet_once,
  )

-- If two cancellations of a payout both pass their checks before either writes, both write: the
-- wallet gets the amount twice, and wallets and holds together gain the amount.
pub cancel_race :
    (i u : ℕ) (p : PayoutRequest) (w : Wallet) (s : Store)
    → cancel_check i u s ≡ (ok p, s)
    → find_unique p.wallet_id s.wallets.rows ≡ some w
    → let t = commit p (commit p s) in
      (balance_of t p.wallet_id ≡ some (w.balance +ℤ p.amount +ℤ p.amount))
      × (total t +ℤ held t ≡ total s +ℤ held s +ℤ p.amount)
cancel_race i u p w s passed owned =
    let (found, open_still) = checked_row i u p s passed in
    rw (commit_twice p w s found owned)
      (balance_twice p w s found owned, money_twice p w s found owned open_still)
