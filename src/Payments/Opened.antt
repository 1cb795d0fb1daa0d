-- ===== src/Payments/Opened.antt =====
-- That initiating a payment (`initiate` of apps/api/src/core/payments/payments.service.ts) leaves
-- payments credited exactly once.
use saziqo_platform.Prelude.{
  ℕ, ◌≡◌, refl, true, false, none, some, List, arith, Text, inl, inr, ◌⊎◌, Bool-cases, Option-cases,
}
use saziqo_platform.Table.{find_unique, insert}
use saziqo_platform.Store.{Store, User, Payment, payment_key, user_key, refund_key}
use saziqo_platform.Payments.{
  GatewayError, PaymentProvider, Answer, answered, thrown, GatewayInitiated, message_of,
  update_payment, with_payment,
}
use saziqo_platform.Payments.Initiate.{
  Config, InitiateInput, initiate, started, is_valid_purpose, new_payment, as_failed,
  with_reference, asked,
}
use saziqo_platform.Payments.Exact.{rewritten-Exact, opened-Exact}
use saziqo_platform.Payments.Once.{IsExact}

module _ (provider : PaymentProvider) (input : InitiateInput) (s : Store) (h : IsExact s) where
  abbrev opened_payment : Payment
  opened_payment = new_payment provider input s.payments.next

  abbrev opened : Store
  opened = record s { payments = insert (new_payment provider input) s.payments }

  opened-IsExact : IsExact opened
  opened-IsExact = opened-Exact opened_payment s.entries.rows s.payments.rows refl h

  opened_found : find_unique opened_payment.id opened.payments.rows ≡ some opened_payment
  opened_found = ground arith

  failed_tables :
      (now : ℕ) (e : GatewayError)
      → (started opened_payment now (thrown e) opened).1
        ≡ with_payment opened_payment.id (as_failed (message_of e) now) opened
  unfolding update_payment
  failed_tables now e = ground (arith, opened_found)

  referred_tables :
      (now : ℕ) (r : GatewayInitiated)
      → (started opened_payment now (answered r) opened).1
        ≡ with_payment opened_payment.id (with_reference r.provider_reference) opened
  unfolding update_payment
  referred_tables now r = ground (arith, opened_found)

  started-IsExact :
      (now : ℕ) (a : Answer GatewayInitiated) → IsExact (started opened_payment now a opened).1
  started-IsExact now (thrown e) = rw (failed_tables now e) (
      rewritten-Exact opened_payment.id (as_failed (message_of e) now) opened.entries.rows
        opened.payments.rows (λ q. refl) (λ q. refl) (λ q f topup u. absurd (ground arith))
        opened-IsExact)
  started-IsExact now (answered r) = rw (referred_tables now r) (
      rewritten-Exact opened_payment.id (with_reference r.provider_reference) opened.entries.rows
        opened.payments.rows (λ q. refl) (λ q. refl)
        (λ q f topup u. absurd (ground (arith, opened_found, f))) opened-IsExact)

pub initiate_refused :
    (config : Config) (allowed : List Text) (provider : PaymentProvider) (now : ℕ)
    (input : InitiateInput) (s : Store)
    → (is_valid_purpose allowed input.purpose ≡ false) ⊎ (find_unique input.user_id s.users ≡ none)
    → (initiate config allowed provider now input s).1 ≡ s
unfolding initiate
initiate_refused config allowed provider now input s (inl h) = ground arith
initiate_refused config allowed provider now input s (inr h) = ground arith

pub initiate_started :
    (config : Config) (allowed : List Text) (provider : PaymentProvider) (now : ℕ)
    (input : InitiateInput) (user : User) (s : Store)
    → is_valid_purpose allowed input.purpose ≡ true
    → find_unique input.user_id s.users ≡ some user
    → let p = new_payment provider input s.payments.next in
      (initiate config allowed provider now input s).1
      ≡ (started p now
          (provider.initiate (asked config input user p))
          (record s { payments = insert (new_payment provider input) s.payments })).1
unfolding initiate
initiate_started config allowed provider now input user s good e = ground (arith, good, e)

pub initiate-IsExact :
    (config : Config) (allowed : List Text) (provider : PaymentProvider) (now : ℕ)
    (input : InitiateInput) (s : Store)
    → IsExact s
    → IsExact (initiate config allowed provider now input s).1
initiate-IsExact config allowed provider now input s h =
    elim (Bool-cases (is_valid_purpose allowed input.purpose)) [
      | inr bad ↦ rw (initiate_refused config allowed provider now input s (inl bad)) h
      | inl good ↦ elim (Option-cases (find_unique input.user_id s.users)) [
        | inl e ↦ rw (initiate_refused config allowed provider now input s (inr e)) h
        | inr (user, e) ↦
            rw (initiate_started config allowed provider now input user s good e)
              (started-IsExact provider input s h now _)
      ]
    ]
