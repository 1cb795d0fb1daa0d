-- ===== src/Ledger/Reports.antt =====
-- `reconciliationReport` of apps/api/src/core/ledger/ledger.service.ts, and what it and
-- `verifyBalance` say of a consistent store. The query has no `ORDER BY`: the model reads the
-- wallets in the order of the table.
use saziqo_platform.Prelude.{
  ℕ, ◌+◌, ◌≡◌, refl, Option, none, some, Bool, true, false, List, [], ◌∷◌, arith, ltb,
  if◌then◌else◌, ℤ, pos, ◌+ℤ◌, ◌-ℤ◌, eqb_ℤ, int_laws, length, take, filter, map, All, inl, inr, ◌↔◌,
  Bool-cases, ap, All-map, All-take, capped_take, Option-cases,
}
use native.Mathlib.Numerals.{add-one}
use saziqo_platform.Action.{ok}
use saziqo_platform.Table.{find_unique, Descending, found_of_Descending}
use saziqo_platform.Store.{Store, Wallet, LedgerEntry, wallet_key}
use saziqo_platform.Ledger.{computed_balance, verify_balance}
use saziqo_platform.Ledger.Consistency.{IsConsistent}

pub data DriftStatus : Type 0 where
  in_order drifted : DriftStatus

-- `ReconciliationRow`
pub record ReconciliationRow : Type 0 where
  pub wallet_id : ℕ
  pub user_id : ℕ
  pub stored_balance : ℤ
  pub computed : ℤ
  pub drift : ℤ
  pub status : DriftStatus

-- `ReconciliationReport`
pub record ReconciliationReport : Type 0 where
  pub items : List ReconciliationRow
  pub total_wallets : ℕ
  pub wallets_with_drift : ℕ
  pub total_stored_balance : ℤ
  pub total_computed_balance : ℤ
  pub capped_at : Option ℕ

abbrev pub report_cap : ℕ
report_cap = 10000

-- `Math.min(opts.limit ?? 10000, 10000)`
abbrev pub report_limit : Option ℕ → ℕ
report_limit none = report_cap
report_limit (some n) = if ltb n report_cap then n else report_cap

abbrev pub report_row : List LedgerEntry → Wallet → ReconciliationRow
report_row entries w =
    let computed = computed_balance w.id entries in
    let drift = w.balance -ℤ computed in
    record {
      wallet_id = w.id;
      user_id = w.user_id;
      stored_balance = w.balance;
      computed = computed;
      drift = drift;
      status = if eqb_ℤ drift (pos 0) then in_order else drifted;
    }

-- `reduce((acc, r) => acc + …, 0n)`, as a sum over the rows.
abbrev pub sum_of : (ReconciliationRow → ℤ) → List ReconciliationRow → ℤ → ℤ
sum_of f [] acc = acc
sum_of f (r ∷ rs) acc = sum_of f rs (acc +ℤ f r)

abbrev pub has_drift : ReconciliationRow → Bool
has_drift r = elim r.status [ in_order ↦ false | drifted ↦ true ]

abbrev pub report_of : ℕ → Bool → List ReconciliationRow → ReconciliationReport
report_of limit exceeded result = record {
  items = result;
  total_wallets = length result;
  wallets_with_drift = length (filter has_drift result);
  total_stored_balance = sum_of (λ r. r.stored_balance) result (pos 0);
  total_computed_balance = sum_of (λ r. r.computed) result (pos 0);
  capped_at = if exceeded then some limit else none;
}

unfoldable pub reconciliation_report : Option ℕ → Store → ReconciliationReport
reconciliation_report requested s =
    let limit = report_limit requested in
    let rows = take (limit + 1) s.wallets.rows in
    let exceeded = ltb limit (length rows) in
    let items = if exceeded then take limit rows else rows in
    report_of limit exceeded (map (report_row s.entries.rows) items)

has_drift_iff :
    (es : List LedgerEntry) (w : Wallet)
    → (has_drift (report_row es w) ≡ false) ↔ (w.balance ≡ computed_balance w.id es)
has_drift_iff es w = (λ h. grind int_laws, λ h. grind int_laws)

none_drifted_iff :
    (es : List LedgerEntry) (ws : List Wallet)
    → (length (filter has_drift (map (report_row es) ws)) ≡ 0)
      ↔ All (λ w. w.balance ≡ computed_balance w.id es) ws
none_drifted_iff es [] = (λ h. tt, λ h. refl)
none_drifted_iff es (w ∷ ws) = elim (Bool-cases (has_drift (report_row es w))) [
  | inl e ↦
      (λ h. ground (arith, has_drift_iff es w), λ h. ground (arith, (has_drift_iff es w).1 h.0))
  | inr e ↦ (
    λ h. ((has_drift_iff es w).0 e, (none_drifted_iff es ws).0 (ground arith)),
    λ h. ground (arith, (none_drifted_iff es ws).1 h.1),
  )
]

report_eq :
    (requested : Option ℕ) (s : Store)
    → let limit = report_limit requested in
      reconciliation_report requested s
      ≡ report_of limit
          (ltb limit (length (take (limit + 1) s.wallets.rows)))
          (map (report_row s.entries.rows) (take limit s.wallets.rows))
unfolding reconciliation_report
report_eq requested s =
    let limit = report_limit requested in
    ap
      (λ items.
        report_of limit (ltb limit (length (take (limit + 1) s.wallets.rows)))
          (map (report_row s.entries.rows) items))
      (rw add-one (capped_take limit s.wallets.rows))

-- The report counts no drifting wallet exactly when every wallet that it covers, the first so many
-- of the table, has the sum of its ledger entries for a balance.
pub report_no_drift_iff :
    (requested : Option ℕ) (s : Store)
    → ((reconciliation_report requested s).wallets_with_drift ≡ 0)
      ↔ All
          (λ w. w.balance ≡ computed_balance w.id s.entries.rows)
          (take (report_limit requested) s.wallets.rows)
report_no_drift_iff requested s =
    rw (report_eq requested s)
      (none_drifted_iff s.entries.rows (take (report_limit requested) s.wallets.rows))

balanced_rows :
    (s : Store) (ws : List Wallet)
    → IsConsistent s
    → All (λ w. find_unique w.id s.wallets.rows ≡ some w) ws
    → All (λ w. w.balance ≡ computed_balance w.id s.entries.rows) ws
balanced_rows s ws h found = All-map (λ w e. h.balances w.id w e) ws found

-- On a consistent store whose wallet ids fall the report shows no drift, whatever its limit.
pub report-IsConsistent :
    (requested : Option ℕ) (s : Store)
    → IsConsistent s
    → Descending s.wallets.rows
    → (reconciliation_report requested s).wallets_with_drift ≡ 0
report-IsConsistent requested s h d = (report_no_drift_iff requested s).1 (
    balanced_rows s (take (report_limit requested) s.wallets.rows) h
      (All-take _ (report_limit requested) s.wallets.rows (found_of_Descending s.wallets.rows d)))

-- `verifyBalance` changes nothing, and returns exactly when the wallet is there and its balance is
-- the sum of its ledger entries.
pub verify_balance_iff :
    (i : ℕ) (s : Store)
    → ((verify_balance i s).1 ≡ s)
      × (((verify_balance i s).0 ≡ ok tt) ↔ (
          (w : Wallet) × (find_unique i s.wallets.rows ≡ some w)
          × (w.balance ≡ computed_balance i s.entries.rows)))
unfolding verify_balance
verify_balance_iff i s = elim (Option-cases (find_unique i s.wallets.rows)) [
  | inl e ↦ (ground arith, (λ h. ground arith, λ h. ground arith))
  | inr (w, e) ↦ (ground arith, (λ h. (w, e, grind int_laws), λ h. grind int_laws))
]
