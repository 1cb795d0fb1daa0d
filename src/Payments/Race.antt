-- ===== src/Payments/Race.antt =====
-- Two callbacks of one payment at once (`handleCallback` of
-- apps/api/src/core/payments/payments.service.ts): the status is read outside any transaction, and the
-- writes do not ask for it again. One callback has an OK that the gateway confirms, the other a NOK.
use saziqo_platform.Prelude.{ℕ, ◌≤◌, ◌≡◌, refl, Bool, true, some, arith}
use saziqo_platform.Action.{ok, err}
use saziqo_platform.Table.{find_unique, find_unique-update}
use saziqo_platform.Store.{Store, Payment, PaymentStatus, payment_key}
use saziqo_platform.Payments.{PaymentProvider, Verification, update_payment, is_topup}
use saziqo_platform.Payments.Reconciler.{payment_reference, reconcile}
use saziqo_platform.Payments.Callback.{
  HandleCallbackInput, not_okay, as_succeeded, as_cancelled, succeed, answer_status,
}
use saziqo_platform.Payments.Exact.{count}
use saziqo_platform.Payments.Once.{IsExact, succeed_done, reconciled_counts, found_after}

module _ (p : Payment) (s : Store) (found : find_unique p.id s.payments.rows ≡ some p)
    (h : IsExact s) where
  reconcile_done :
      (v : Verification) (now : ℕ)
      → (succeed true v now p s).0 ≡ ok tt
      → (reconcile p.id s).0 ≡ ok tt
  unfolding succeed
  reconcile_done v now e =
      elim ((reconcile p.id s).0)
          as (λ o. (reconcile p.id s).0 ≡ o → (reconcile p.id s).0 ≡ ok tt) [
            | err x ↦ λ threw. absurd (ground (arith, found, threw, e))
            | ok _ ↦ λ done. done
          ]
        refl

  -- A callback that still holds the payment as it was.
  stale_cancel :
      (provider : PaymentProvider) (commits : Bool) (later : ℕ) (input : HandleCallbackInput)
      (q : Payment) (t : Store)
      → find_unique p.id t.payments.rows ≡ some q
      → let u = (answer_status provider commits later p input not_okay t).1 in
        (u.entries ≡ t.entries) × (find_unique p.id u.payments.rows ≡ some (as_cancelled later q))
  unfolding answer_status update_payment
  stale_cancel provider commits later input q t there = (
    ground (arith, there),
    ground (
      arith,
      there,
      find_unique-update p.id p.id (as_cancelled later) t.payments.rows (λ x. refl),
    ),
  )

  succeeded_row :
      (v : Verification) (now : ℕ)
      → (reconcile p.id s).0 ≡ ok tt
      → find_unique p.id (succeed true v now p s).1.payments.rows ≡ some (as_succeeded v now p)
  succeeded_row v now done = rw (succeed_done p s found h true v now done) (
      ground (
        arith,
        found_after p s found h,
        find_unique-update p.id p.id (as_succeeded v now) (reconcile p.id s).1.payments.rows
            (λ x. refl),
      ))

  succeeded_entries :
      (v : Verification) (now : ℕ)
      → (reconcile p.id s).0 ≡ ok tt
      → (succeed true v now p s).1.entries ≡ (reconcile p.id s).1.entries
  succeeded_entries v now done = rw (succeed_done p s found h true v now done) refl

-- If a NOK callback has passed its checks before an OK callback of the same top-up commits, and
-- writes afterwards, then the payment ends as cancelled although it is credited.
pub callback_race :
    (provider : PaymentProvider) (commits : Bool) (v : Verification) (now later : ℕ)
    (input : HandleCallbackInput) (p : Payment) (s : Store)
    → find_unique p.id s.payments.rows ≡ some p
    → IsExact s
    → is_topup p.purpose ≡ true
    → (succeed true v now p s).0 ≡ ok tt
    → let t = (succeed true v now p s).1 in
      let u = (answer_status provider commits later p input not_okay t).1 in
      (q : Payment) × (find_unique p.id u.payments.rows ≡ some q)
      × (q.status ≡ PaymentStatus.cancelled)
      × (1 ≤ count (payment_reference p.id) u.entries.rows)
callback_race provider commits v now later input p s found h topup returned =
    let done = reconcile_done p s found h v now returned in
    let t = (succeed true v now p s).1 in
    let (entries, row) =
      stale_cancel p s found h provider commits later input (as_succeeded v now p) t
        (succeeded_row p s found h v now done) in
    (
      as_cancelled later (as_succeeded v now p),
      row,
      refl,
      rw (entries, succeeded_entries p s found h v now done)
          (reconciled_counts p s found h done topup),
    )
