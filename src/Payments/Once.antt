-- ===== src/Payments/Once.antt =====
-- That each operation of apps/api/src/core/payments/payments.service.ts keeps payments credited
-- exactly once: callbacks.
use saziqo_platform.Prelude.{
  ℕ, ◌≤◌, ◌≡◌, refl, sym, ap, subst, Bool, true, false, some, arith, if◌then◌else◌, inl, inr,
  Bool-cases, Option-cases,
}
use saziqo_platform.Action.{ok, err, Thrown}
use saziqo_platform.Table.{find_unique, find_unique_id}
use saziqo_platform.Store.{Store, Payment, payment_key}
use saziqo_platform.Payments.{
  PaymentProvider, Answer, answered, thrown, Verification, is_topup, with_payment, update_payment,
}
use saziqo_platform.Payments.Reconciler.{payment_reference, reconcile, has_reference}
use saziqo_platform.Payments.Callback.{
  ProviderStatus, okay, not_okay, HandleCallbackInput, as_cancelled, as_succeeded, as_failed,
  is_terminal, succeed, verified_or_failed, answer_status, handle_found, handle_callback,
}
use saziqo_platform.Payments.Refunds.{is_succeeded}
use saziqo_platform.Payments.Exact.{
  count, Exact, credit_entry-Exact, credit_entry_counts, rewritten-Exact,
}
use saziqo_platform.Payments.Settled.{Settled, reconcile-Settled}

-- The ledger and the payments of a store.
abbrev pub IsExact : Store → Type 0
IsExact s = Exact s.entries.rows s.payments.rows

pub transported :
    (s t : Store)
    → t.entries.rows ≡ s.entries.rows
    → t.payments.rows ≡ s.payments.rows
    → IsExact s
    → IsExact t
transported s t e p h = rw (e, p) h

module _ (p : Payment) (s : Store) (found : find_unique p.id s.payments.rows ≡ some p)
    (h : IsExact s) where
  abbrev after : Store
  after = (reconcile p.id s).1

  settled : Settled p s (reconcile p.id s)
  settled = reconcile-Settled p s found

  payments_stay : after.payments.rows ≡ s.payments.rows
  payments_stay = ap (λ t. t.rows) settled.0.0

  reconcile-IsExact : IsExact after
  reconcile-IsExact = elim settled.1 [
    | inl (e, threw, same) ↦ transported s after (ap (λ t. t.rows) same) payments_stay h
    | inr (inl (same, counts)) ↦ transported s after (ap (λ t. t.rows) same) payments_stay h
    | inr (inr (e, named, amount, kind, rows, new)) ↦
        rw (rows, payments_stay)
          (credit_entry-Exact e p.id s.entries.rows named s.payments.rows new h)
  ]

  pub reconciled_counts :
      (reconcile p.id s).0 ≡ ok tt
      → is_topup p.purpose ≡ true
      → 1 ≤ count (payment_reference p.id) after.entries.rows
  reconciled_counts done topup = elim settled.1 [
    | inl (e, threw, same) ↦ absurd (ground (arith, threw, done))
    | inr (inl (same, counts)) ↦ rw same (counts topup)
    | inr (inr (e, named, amount, kind, rows, new)) ↦
        rw rows (credit_entry_counts e p.id s.entries.rows named)
  ]

  pub found_after : find_unique p.id after.payments.rows ≡ some p
  found_after = rw payments_stay found

  succeed_threw :
      (commits : Bool) (v : Verification) (now : ℕ) (e : Thrown)
      → (reconcile p.id s).0 ≡ err e
      → (succeed commits v now p s).1 ≡ after
  unfolding succeed
  succeed_threw commits v now e threw = ground (arith, found)

  pub succeed_done :
      (commits : Bool) (v : Verification) (now : ℕ)
      → (reconcile p.id s).0 ≡ ok tt
      → (succeed commits v now p s).1
        ≡ (if commits then with_payment p.id (as_succeeded v now) after else after)
  unfolding succeed
  succeed_done commits v now done = ground (arith, found, found_after)

  as_succeeded-IsExact :
      (v : Verification) (now : ℕ)
      → (reconcile p.id s).0 ≡ ok tt
      → IsExact (with_payment p.id (as_succeeded v now) after)
  as_succeeded-IsExact v now done =
      rewritten-Exact p.id (as_succeeded v now) after.entries.rows after.payments.rows (λ q. refl)
        (λ q. refl) (λ q e topup u. reconciled_counts done (ground (arith, found_after)))
        reconcile-IsExact

  pub succeed-IsExact :
      (commits : Bool) (v : Verification) (now : ℕ) → IsExact (succeed commits v now p s).1
  succeed-IsExact commits v now =
      elim ((reconcile p.id s).0)
          as (λ o. (reconcile p.id s).0 ≡ o → IsExact (succeed commits v now p s).1) [
            | err e ↦ λ threw. rw (succeed_threw commits v now e threw) reconcile-IsExact
            | ok _ ↦ λ done.
                rw (succeed_done commits v now done)
                  (elim commits
                    as (λ k.
                      IsExact (if k then with_payment p.id (as_succeeded v now) after else after)) [
                        | true ↦ as_succeeded-IsExact v now done
                        | false ↦ reconcile-IsExact
                      ])
          ]
        refl

  -- A payment that is marked with a status other than succeeded.
  pub closed-IsExact :
      (f : Payment → Payment)
      → ((q : Payment) → (f q).id ≡ q.id)
      → ((q : Payment) → (f q).purpose ≡ q.purpose)
      → ((q : Payment) → is_succeeded (f q).status ≡ false)
      → IsExact (with_payment p.id f s)
  closed-IsExact f keep purpose open_still =
      rewritten-Exact p.id f s.entries.rows s.payments.rows keep purpose
        (λ q e topup u. absurd (ground (arith, open_still q))) h

  -- The notification and the result leave the tables alone.
  verified_tables :
      (commits : Bool) (v : Verification) (now : ℕ)
      → v.verified ≡ true
      → let t = (succeed commits v now p s).1 in
        let u = (verified_or_failed commits now p (answered v) s).1 in
        (u.entries.rows ≡ t.entries.rows) × (u.payments.rows ≡ t.payments.rows)
  verified_tables commits v now e = (ground arith, ground arith)

  failed_store :
      (commits : Bool) (v : Verification) (now : ℕ)
      → v.verified ≡ false
      → let t = with_payment p.id (as_failed v now) s in
        let u = (verified_or_failed commits now p (answered v) s).1 in
        (u.entries.rows ≡ t.entries.rows) × (u.payments.rows ≡ t.payments.rows)
  unfolding update_payment
  failed_store commits v now e = (ground (arith, found), ground (arith, found))

  verified-IsExact :
      (commits : Bool) (now : ℕ) (a : Answer Verification)
      → IsExact (verified_or_failed commits now p a s).1
  verified-IsExact commits now (thrown e) = h
  verified-IsExact commits now (answered v) = elim (Bool-cases v.verified) [
    | inr failed ↦
        let (e, q) = failed_store commits v now failed in
        transported (with_payment p.id (as_failed v now) s)
          (verified_or_failed commits now p (answered v) s).1 e q
          (closed-IsExact (as_failed v now) (λ q. refl) (λ q. refl) (λ q. refl))
    | inl verified ↦
        let (e, q) = verified_tables commits v now verified in
        transported (succeed commits v now p s).1
          (verified_or_failed commits now p (answered v) s).1 e q (succeed-IsExact commits v now)
  ]

  cancelled_store :
      (provider : PaymentProvider) (commits : Bool) (now : ℕ) (input : HandleCallbackInput)
      → let t = with_payment p.id (as_cancelled now) s in
        let u = (answer_status provider commits now p input not_okay s).1 in
        (u.entries.rows ≡ t.entries.rows) × (u.payments.rows ≡ t.payments.rows)
  unfolding answer_status update_payment
  cancelled_store provider commits now input = (ground (arith, found), ground (arith, found))

  pub answer_status-IsExact :
      (provider : PaymentProvider) (commits : Bool) (now : ℕ) (input : HandleCallbackInput)
      (status : ProviderStatus)
      → IsExact (answer_status provider commits now p input status s).1
  unfolding answer_status update_payment
  answer_status-IsExact provider commits now input not_okay =
      let (e, q) = cancelled_store provider commits now input in
      transported (with_payment p.id (as_cancelled now) s)
        (answer_status provider commits now p input not_okay s).1 e q
        (closed-IsExact (as_cancelled now) (λ q. refl) (λ q. refl) (λ q. refl))
  answer_status-IsExact provider commits now input okay =
      verified-IsExact commits now (provider.verify input.provider_reference p.amount)

  handle_found-IsExact :
      (provider : PaymentProvider) (commits : Bool) (now : ℕ) (input : HandleCallbackInput)
      → IsExact (handle_found provider commits now p input s).1
  unfolding handle_found
  handle_found-IsExact provider commits now input = elim (Bool-cases (is_terminal p.status)) [
    | inl done ↦ rw done h
    | inr pending ↦
        elim (Bool-cases (has_reference input.provider_reference p.provider_reference)) [
          | inr forged ↦ rw (pending, forged) h
          | inl real ↦
              rw (pending, real)
                (answer_status-IsExact provider commits now input input.provider_status)
        ]
  ]

pub handle_callback-IsExact :
    (provider : PaymentProvider) (commits : Bool) (now : ℕ) (input : HandleCallbackInput)
    (s : Store)
    → IsExact s
    → IsExact (handle_callback provider commits now input s).1
unfolding handle_callback
handle_callback-IsExact provider commits now input s h =
    elim (Option-cases (find_unique input.payment_id s.payments.rows)) [
      | inl e ↦ rw e h
      | inr (p, e) ↦ rw e (
          handle_found-IsExact p s
            (subst (λ i. find_unique i s.payments.rows ≡ some p)
              (sym (find_unique_id input.payment_id p s.payments.rows e)) e)
            h provider commits now input)
    ]
