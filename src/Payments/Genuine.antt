-- ===== src/Payments/Genuine.antt =====
-- When a callback (`handleCallback` of apps/api/src/core/payments/payments.service.ts) credits a
-- payment.
use saziqo_platform.Prelude.{
  ℕ, ◌≡◌, refl, sym, ap, ◌∙◌, subst, Bool, true, false, none, some, List, ◌∷◌, arith, inl, inr, ◌⊎◌,
  Bool-cases, Option-cases,
}
use saziqo_platform.Table.{find_unique, find_unique_id}
use saziqo_platform.Store.{Store, Payment, LedgerEntry, LedgerKind, payment_key}
use saziqo_platform.Payments.{
  PaymentProvider, Answer, answered, thrown, Verification, update_payment,
}
use saziqo_platform.Payments.Reconciler.{payment_reference, has_reference, reconcile}
use saziqo_platform.Payments.Callback.{
  ProviderStatus, okay, not_okay, HandleCallbackInput, is_terminal, succeed, verified_or_failed,
  answer_status, handle_found, handle_callback,
}
use saziqo_platform.Payments.Settled.{reconcile-Settled}

-- The payment is open, the callback carries its reference, and the gateway confirms its amount.
pub record Genuine (provider : PaymentProvider) (input : HandleCallbackInput) (s : Store)
    (p : Payment) : Type 0 where
  pub verification : Verification
  pub found : find_unique input.payment_id s.payments.rows ≡ some p
  pub open_still : is_terminal p.status ≡ false
  pub referred : has_reference input.provider_reference p.provider_reference ≡ true
  pub paid : input.provider_status ≡ okay
  pub confirmed : provider.verify input.provider_reference p.amount ≡ answered verification
  pub verified : verification.verified ≡ true

-- One credit of the payment's amount under its reference.
abbrev pub Credits : Payment → List LedgerEntry → List LedgerEntry → Type 0
Credits p before afterwards =
    (e : LedgerEntry) × (e.reference ≡ some (payment_reference p.id))
    × (e.amount ≡ p.amount)
    × (e.kind ≡ LedgerKind.credit)
    × (afterwards ≡ e ∷ before)

module _ (p : Payment) (s : Store) (found : find_unique p.id s.payments.rows ≡ some p) where
  succeed_entries :
      (commits : Bool) (v : Verification) (now : ℕ)
      → (succeed commits v now p s).1.entries.rows ≡ (reconcile p.id s).1.entries.rows
  unfolding succeed update_payment
  succeed_entries commits v now = ground (arith, found)

  verified_entries :
      (commits : Bool) (v : Verification) (now : ℕ)
      → v.verified ≡ true
      → (verified_or_failed commits now p (answered v) s).1.entries.rows
        ≡ (succeed commits v now p s).1.entries.rows
  verified_entries commits v now e = ground arith

  unverified_entries :
      (commits : Bool) (v : Verification) (now : ℕ)
      → v.verified ≡ false
      → (verified_or_failed commits now p (answered v) s).1.entries.rows ≡ s.entries.rows
  unfolding update_payment
  unverified_entries commits v now e = ground (arith, found)

  cancelled_entries :
      (provider : PaymentProvider) (commits : Bool) (now : ℕ) (input : HandleCallbackInput)
      → (answer_status provider commits now p input not_okay s).1.entries.rows ≡ s.entries.rows
  unfolding answer_status update_payment
  cancelled_entries provider commits now input = ground (arith, found)

  succeed-Credits :
      (commits : Bool) (v : Verification) (now : ℕ)
      → ((succeed commits v now p s).1.entries.rows ≡ s.entries.rows)
        ⊎ Credits p s.entries.rows (succeed commits v now p s).1.entries.rows
  succeed-Credits commits v now = elim (reconcile-Settled p s found).1 [
    | inl (e, threw, same) ↦ inl (succeed_entries commits v now ∙ ap (λ t. t.rows) same)
    | inr (inl (same, counts)) ↦ inl (succeed_entries commits v now ∙ ap (λ t. t.rows) same)
    | inr (inr (e, named, amount, kind, rows, new)) ↦
        inr (e, named, amount, kind, succeed_entries commits v now ∙ rows)
  ]

module _ (provider : PaymentProvider) (commits : Bool) (now : ℕ) (input : HandleCallbackInput)
    (s : Store) where
  -- What a callback does to the ledger.
  abbrev Outcome : List LedgerEntry → Type 0
  Outcome rows =
      (rows ≡ s.entries.rows)
      ⊎ ((p : Payment) × Genuine provider input s p × Credits p s.entries.rows rows)

  pub callback_missing :
      find_unique input.payment_id s.payments.rows ≡ none
      → (handle_callback provider commits now input s).1 ≡ s
  unfolding handle_callback
  callback_missing e = ground (arith, e)

  module _ (p : Payment) (found : find_unique input.payment_id s.payments.rows ≡ some p) where
    pub refound : find_unique p.id s.payments.rows ≡ some p
    refound =
        subst (λ i. find_unique i s.payments.rows ≡ some p)
          (sym (find_unique_id input.payment_id p s.payments.rows found)) found

    pub callback_closed :
        is_terminal p.status ≡ true → (handle_callback provider commits now input s).1 ≡ s
    unfolding handle_callback handle_found
    callback_closed e = ground (arith, found)

    pub callback_forged :
        has_reference input.provider_reference p.provider_reference ≡ false
        → (handle_callback provider commits now input s).1 ≡ s
    unfolding handle_callback handle_found
    callback_forged e = ground (arith, found)

    pub callback_answered :
        is_terminal p.status ≡ false
        → has_reference input.provider_reference p.provider_reference ≡ true
        → (handle_callback provider commits now input s).1
          ≡ (answer_status provider commits now p input input.provider_status s).1
    unfolding handle_callback handle_found
    callback_answered e f = ground (arith, found)

    module _ (open_still : is_terminal p.status ≡ false)
        (referred : has_reference input.provider_reference p.provider_reference ≡ true) where
      verified-Outcome :
          (a : Answer Verification)
          → input.provider_status ≡ okay
          → provider.verify input.provider_reference p.amount ≡ a
          → Outcome (verified_or_failed commits now p a s).1.entries.rows
      verified-Outcome (thrown e) paid c = inl refl
      verified-Outcome (answered v) paid c = elim (Bool-cases v.verified) [
        | inr failed ↦ inl (unverified_entries p s refound commits v now failed)
        | inl verified ↦ elim (succeed-Credits p s refound commits v now) [
          | inl same ↦ inl (verified_entries p s refound commits v now verified ∙ same)
          | inr (e, named, amount, kind, rows) ↦ inr (
            p,
            record {
              verification = v;
              found = found;
              open_still = open_still;
              referred = referred;
              paid = paid;
              confirmed = c;
              verified = verified;
            },
            (e, named, amount, kind, verified_entries p s refound commits v now verified ∙ rows),
          )
        ]
      ]

      status-Outcome :
          (status : ProviderStatus)
          → input.provider_status ≡ status
          → Outcome (answer_status provider commits now p input status s).1.entries.rows
      unfolding answer_status
      status-Outcome not_okay e = inl (cancelled_entries p s refound provider commits now input)
      status-Outcome okay e =
          verified-Outcome (provider.verify input.provider_reference p.amount) e refl

    found-Outcome : Outcome (handle_callback provider commits now input s).1.entries.rows
    found-Outcome = elim (Bool-cases (is_terminal p.status)) [
      | inl closed ↦ inl (ap (λ t. t.entries.rows) (callback_closed closed))
      | inr open_still ↦
          elim (Bool-cases (has_reference input.provider_reference p.provider_reference)) [
            | inr forged ↦ inl (ap (λ t. t.entries.rows) (callback_forged forged))
            | inl referred ↦
                rw (callback_answered open_still referred)
                  (status-Outcome open_still referred input.provider_status refl)
          ]
    ]

-- A callback writes no ledger entry; or it writes one, a credit of the payment's amount under the
-- payment's reference, and then the payment was still open, the callback carried its stored
-- reference and an OK, and the gateway confirmed the amount.
pub handle_callback-Genuine :
    (provider : PaymentProvider) (commits : Bool) (now : ℕ) (input : HandleCallbackInput)
    (s : Store)
    → let t = (handle_callback provider commits now input s).1 in
      (t.entries.rows ≡ s.entries.rows)
      ⊎ ((p : Payment) × Genuine provider input s p × Credits p s.entries.rows t.entries.rows)
handle_callback-Genuine provider commits now input s =
    elim (Option-cases (find_unique input.payment_id s.payments.rows)) [
      | inl e ↦ inl (ap (λ t. t.entries.rows) (callback_missing provider commits now input s e))
      | inr (p, e) ↦ found-Outcome provider commits now input s p e
    ]
