-- ===== src/Payments/Sequences.antt =====
-- Any sequence of calls of apps/api/src/core/payments/payments.service.ts, each run to its end before
-- the next, with whatever the gateway answers and whether or not a transaction commits.
use saziqo_platform.Prelude.{ℕ, ◌≡◌, Bool, List, [], ◌∷◌, arith, Text, inl, inr, Option-cases}
use saziqo_platform.Table.{find_unique}
use saziqo_platform.Store.{Store, payment_key, user_key, refund_key}
use saziqo_platform.Payments.{PaymentProvider}
use saziqo_platform.Payments.Initiate.{Config, InitiateInput, initiate}
use saziqo_platform.Payments.Callback.{HandleCallbackInput, handle_callback}
use saziqo_platform.Payments.Refunds.{
  RefundInput, refund, MarkRefundCompletedInput, mark_refund_completed,
}
use saziqo_platform.Payments.Once.{IsExact, transported, handle_callback-IsExact}
use saziqo_platform.Payments.TakenBack.{refund-IsExact}
use saziqo_platform.Payments.Opened.{initiate-IsExact}

-- Completing a refund touches the refunds only.
completed_tables :
    (now : ℕ) (input : MarkRefundCompletedInput) (s : Store)
    → let t = (mark_refund_completed now input s).1 in
      (t.entries.rows ≡ s.entries.rows) × (t.payments.rows ≡ s.payments.rows)
unfolding mark_refund_completed
completed_tables now input s = elim (Option-cases (find_unique input.refund_id s.refunds.rows)) [
  | inl e ↦ (ground arith, ground arith)
  | inr (r, e) ↦ (ground arith, ground arith)
]

pub data Call : Type 0 where
  initiates : Config → List Text → PaymentProvider → ℕ → InitiateInput → Call
  calls_back : PaymentProvider → Bool → ℕ → HandleCallbackInput → Call
  refunds : PaymentProvider → ℕ → RefundInput → Call
  completes : ℕ → MarkRefundCompletedInput → Call

-- The store after a call, whether it returned or threw.
unfoldable pub called : Call → Store → Store
called (initiates config allowed provider now input) s =
    (initiate config allowed provider now input s).1
called (calls_back provider commits now input) s = (handle_callback provider commits now input s).1
called (refunds provider now input) s = (refund provider now input s).1
called (completes now input) s = (mark_refund_completed now input s).1

unfoldable pub called_all : List Call → Store → Store
called_all [] s = s
called_all (c ∷ cs) s = called_all cs (called c s)

called-IsExact : (c : Call) (s : Store) → IsExact s → IsExact (called c s)
unfolding called
called-IsExact (initiates config allowed provider now input) s h =
    initiate-IsExact config allowed provider now input s h
called-IsExact (calls_back provider commits now input) s h =
    handle_callback-IsExact provider commits now input s h
called-IsExact (refunds provider now input) s h = refund-IsExact provider now input s h
called-IsExact (completes now input) s h =
    let (entries, payments) = completed_tables now input s in
    transported s (mark_refund_completed now input s).1 entries payments h

-- If no payment has more than one ledger entry under its reference, and every succeeded wallet
-- top-up has one, then so it is after any sequence of initiations, callbacks, refunds and refund
-- completions, whatever the gateway answers and whether or not a callback's transaction commits.
pub called_all-IsExact : (cs : List Call) (s : Store) → IsExact s → IsExact (called_all cs s)
unfolding called_all
called_all-IsExact [] s h = h
called_all-IsExact (c ∷ cs) s h = called_all-IsExact cs (called c s) (called-IsExact c s h)
