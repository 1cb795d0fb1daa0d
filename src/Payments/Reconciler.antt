-- ===== src/Payments/Reconciler.antt =====
-- apps/api/src/core/payments/payment-ledger.reconciler.ts: a payment that the gateway has confirmed
-- is credited to the ledger, once.
use saziqo_platform.Prelude.{
  ℕ, Bool, false, Option, none, some, [], ◌∷◌, ◌++◌, if◌then◌else◌, Text, codes, to_string, text_eq,
}
use saziqo_platform.Action.{Action, ok, pure, ◌>>=◌}
use saziqo_platform.Table.{find_unique, find_first}
use saziqo_platform.Store.{Store, Payment, LedgerEntry, payment_key}
use saziqo_platform.Ledger.{LedgerWriteInput, find_or_create_for_user, credit}
use saziqo_platform.Payments.{is_topup}

-- `payment:<id>`
unfoldable pub payment_reference : ℕ → Text
payment_reference i = codes "payment:" ++ to_string i

abbrev pub has_reference : Text → Option Text → Bool
has_reference r none = false
has_reference r (some t) = text_eq r t

-- `ledgerEntry.findFirst({ where: { reference } })`
abbrev pub existing_entry : Text → Store → Option LedgerEntry
existing_entry r s = find_first (λ (e : LedgerEntry). has_reference r e.reference) s.entries.rows

abbrev pub topup_credit : Payment → ℕ → LedgerWriteInput
topup_credit payment wallet_id = record {
  wallet_id = wallet_id;
  amount = payment.amount;
  reference = some (payment_reference payment.id);
  description = some (codes "Wallet topup — payment #" ++ to_string payment.id);
  metadata = some ((codes "paymentId", to_string payment.id) ∷ []);
}

-- The credit itself, behind the look for an existing entry. Other purposes change nothing.
unfoldable pub settle : Payment → Action Store (Unit {0})
settle payment s =
    if is_topup payment.purpose
    then (do
      wallet ← find_or_create_for_user payment.user_id
      e ← credit (topup_credit payment wallet.id)
      pure tt)
        s
    else (ok tt, s)

abbrev pub unless_found : Payment → Option LedgerEntry → Action Store (Unit {0})
unless_found payment none s = settle payment s
unless_found payment (some _) s = (ok tt, s)

abbrev pub reconcile_found : Option Payment → Action Store (Unit {0})
reconcile_found none s = (ok tt, s)
reconcile_found (some payment) s =
    unless_found payment (existing_entry (payment_reference payment.id) s) s

-- `reconcile`
unfoldable pub reconcile : ℕ → Action Store (Unit {0})
reconcile payment_id s = reconcile_found (find_unique payment_id s.payments.rows) s
