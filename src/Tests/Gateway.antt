-- ===== src/Tests/Gateway.antt =====
-- The theorems on apps/api/src/core/payments at concrete inputs: a gateway that confirms everything.
use saziqo_platform.Prelude.{
  refl, ◌≤◌, text_eq, ◌≡◌, true, none, some, [], ◌∷◌, pos, ◌≤ℤ◌, ◌<ℤ◌, arith, codes, ◌⊎◌,
}
use saziqo_platform.Ledger.{credit, credit_in_transaction, find_or_create_for_user}
use saziqo_platform.Payments.Reconciler.{reconcile, settle, payment_reference}
use saziqo_platform.Payments.Race.{callback_race}
use saziqo_platform.Payments.Exact.{count}
use saziqo_platform.Action.{ok}
use saziqo_platform.Table.{find_unique}
use saziqo_platform.Store.{Store, Payment, PaymentStatus, payment_key}
use saziqo_platform.Payments.{PaymentProvider, answered, thrown, error, Verification, is_topup}
use saziqo_platform.Payments.Callback.{
  HandleCallbackInput, okay, handle_callback, succeed, answer_status, not_okay,
}
use saziqo_platform.Payments.Refunds.{RefundInput, refund, refunded_of, is_succeeded}
use saziqo_platform.Payments.Once.{IsExact}
use saziqo_platform.Payments.Genuine.{Genuine, Credits, handle_callback-Genuine}
use saziqo_platform.Payments.RefundCap.{refund_capped}
use saziqo_platform.Payments.Sequences.{calls_back, refunds, called_all, called_all-IsExact}
use saziqo_platform.Tests.Books.{books}

abbrev gateway : PaymentProvider
gateway = record {
  name = codes "console";
  initiate = λ i. answered (record { redirect_url = codes "url"; provider_reference = codes "A1" });
  verify = λ r a. answered (record {
    verified = true;
    reference_code = some (codes "7");
    card_pan = none;
    failure_reason = none;
  });
  refund = λ r. thrown (error (codes "REFUND_NOT_SUPPORTED_BY_PROVIDER"));
}

abbrev topup : Payment
topup = record {
  id = 1;
  user_id = 1;
  amount = pos 50;
  purpose = codes "wallet_topup";
  description = codes "topup";
  status = PaymentStatus.pending;
  provider_name = codes "console";
  provider_reference = some (codes "A1");
  reference_code = none;
  card_pan_masked = none;
  metadata = [];
  completed_at = none;
  failure_reason = none;
}

abbrev opened : Store
opened = record books { payments = record { rows = topup ∷ []; next = 2 } }

abbrev paid : Store
paid = record books {
  payments = record { rows = record topup { status = PaymentStatus.succeeded } ∷ []; next = 2 };
}

abbrev callback : HandleCallbackInput
callback = record { payment_id = 1; provider_reference = codes "A1"; provider_status = okay }

abbrev asked : RefundInput
asked = record {
  payment_id = 1;
  amount = some (pos 20);
  reason = codes "reason";
  actor_user_id = 9;
}

opened-IsExact : IsExact opened
opened-IsExact = record { at_most_once = λ j. omega arith; credited = λ i p e t u. ground arith }

called_all-IsExact_example : IsExact (
    called_all
      (calls_back gateway true 5 callback
        ∷ calls_back gateway true 6 callback
        ∷ refunds gateway 7 asked
        ∷ [])
      opened)
called_all-IsExact_example =
    called_all-IsExact
      (calls_back gateway true 5 callback
        ∷ calls_back gateway true 6 callback
        ∷ refunds gateway 7 asked
        ∷ [])
      opened opened-IsExact

handle_callback-Genuine_example :
    let t = (handle_callback gateway true 5 callback opened).1 in
    (t.entries.rows ≡ opened.entries.rows)
    ⊎ ((p : Payment) × Genuine gateway callback opened p
        × Credits p opened.entries.rows t.entries.rows)
handle_callback-Genuine_example = handle_callback-Genuine gateway true 5 callback opened

refund_capped_example :
    let t = (refund gateway 7 asked paid).1 in
    let before = refunded_of 1 paid.refunds.rows in
    let afterwards = refunded_of 1 t.refunds.rows in
    (t.refunds ≡ paid.refunds)
    ⊎ ((p : Payment) × (find_unique 1 paid.payments.rows ≡ some p)
        × (is_succeeded p.status ≡ true)
        × (before <ℤ afterwards)
        × (afterwards ≤ℤ p.amount))
refund_capped_example = refund_capped gateway 7 asked paid

abbrev confirmation : Verification
confirmation = record {
  verified = true;
  reference_code = some (codes "7");
  card_pan = none;
  failure_reason = none;
}

is_a_topup : is_topup topup.purpose ≡ true
unfolding is_topup text_eq
is_a_topup = refl

credited : (succeed true confirmation 5 topup opened).0 ≡ ok tt
unfolding succeed reconcile settle credit credit_in_transaction find_or_create_for_user is_topup
    text_eq payment_reference
credited = refl

callback_race_example :
    let t = (succeed true confirmation 5 topup opened).1 in
    let u = (answer_status gateway true 6 topup callback not_okay t).1 in
    (q : Payment) × (find_unique 1 u.payments.rows ≡ some q)
    × (q.status ≡ PaymentStatus.cancelled)
    × (1 ≤ count (payment_reference 1) u.entries.rows)
callback_race_example =
    callback_race gateway true confirmation 5 6 callback topup opened refl opened-IsExact is_a_topup
      credited
