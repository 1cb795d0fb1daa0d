-- ===== src/Payouts/Conservation.antt =====
-- Every operation of apps/api/src/core/payouts/payouts.service.ts conserves the money in wallets
-- and holds, alone and in any sequence.
use saziqo_platform.Prelude.{
  ℕ, ◌≡◌, refl, true, false, some, List, arith, pos, ◌-ℤ◌, ◌≤ℤ◌, ◌<ℤ◌, int_laws, String, codes,
  to_string, ◌++◌, Text, inl, inr,
}
use saziqo_platform.Table.{find_unique, insert}
use saziqo_platform.Store.{
  Store, Wallet, LedgerKind, PayoutRequest, PayoutStatus, NotificationType, PayloadValue,
  wallet_key, payout_key,
}
use saziqo_platform.Ledger.Consistency.{posted-IsConsistent}
use saziqo_platform.Ledger.Conservation.{sum_balances-update}
use saziqo_platform.Payouts.{
  RequestPayoutInput, request, approve, reject, mark_paid, cancel, as_approved, as_rejected,
  as_paid, as_cancelled, requested_row, payout_entry,
}
use saziqo_platform.Payouts.Effects.{
  Read, cancel_outcome, reject_outcome, approve_outcome, mark_paid_outcome, told,
  cancelled_reference, rejected_reference,
}
use saziqo_platform.Payouts.Requests.{request_outcome, requested_store, new_payout}
use saziqo_platform.Payouts.Money.{
  holds, held_by, IsSound, Conserves, told-IsSound, payouts-IsConsistent, rewritten-Conserves,
  paid_back-Conserves,
}

unchanged : (s : Store) → IsSound s → Conserves s s
unchanged s h = record { sound = h; conserved = refl }

told-Conserves :
    (u : ℕ) (t : NotificationType) (payload : List (String × PayloadValue)) (s r : Store)
    → Conserves s r
    → Conserves s (told u t payload r)
told-Conserves u t payload s r c = record {
  sound = told-IsSound u t payload r c.sound;
  conserved = c.conserved;
}

held_pending : (p : PayoutRequest) → p.status ≡ PayoutStatus.pending → held_by p ≡ p.amount
unfolding held_by
held_pending p e = ground arith

still_held :
    (p : PayoutRequest) (f : PayoutRequest → PayoutRequest)
    → (f p).amount ≡ p.amount
    → holds (f p).status ≡ true
    → holds p.status ≡ true
    → held_by (f p) ≡ held_by p
unfolding held_by
still_held p f a e d = ground arith

released : (p : PayoutRequest) → holds p.status ≡ false → held_by p ≡ pos 0
unfolding held_by
released p e = ground arith

pub refound-Read :
    (i : ℕ) (p : PayoutRequest) (t : PayoutStatus) (s : Store)
    → Read i p t s
    → find_unique p.id s.payouts.rows ≡ some p
refound-Read i p t s q = cc (q.keyed, q.found)

pub cancel-Conserves : (i u : ℕ) (s : Store) → IsSound s → Conserves s (cancel i u s).1
cancel-Conserves i u s h = elim (cancel_outcome i u s) [
  | inl (e, r) ↦ rw r (unchanged s h)
  | inr (p, w, q, owner, f, r) ↦ rw r (
      paid_back-Conserves p.id as_cancelled p s h (refound-Read i p _ s q) (λ x. refl)
        (payout_entry p.wallet_id p LedgerKind.credit (cancelled_reference p)
          (codes "Payout cancelled — refund"))
        w (released (as_cancelled p) refl) (held_pending p q.in_status) f refl refl)
]

pub reject-Conserves :
    (i reviewer : ℕ) (reason : Text) (now : ℕ) (s : Store)
    → IsSound s
    → Conserves s (reject i reviewer reason now s).1
reject-Conserves i reviewer reason now s h = elim (reject_outcome i reviewer reason now s) [
  | inl (e, r) ↦ rw r (unchanged s h)
  | inr (p, w, q, f, r) ↦ rw r (
      told-Conserves p.user_id _ _ s _ (
        paid_back-Conserves p.id (as_rejected reviewer now reason) p s h (refound-Read i p _ s q)
          (λ x. refl)
          (payout_entry p.wallet_id p LedgerKind.credit (rejected_reference p)
            (codes "Payout rejected — refund"))
          w (released (as_rejected reviewer now reason p) refl) (held_pending p q.in_status) f refl
          refl))
]

pub approve-Conserves :
    (i reviewer now : ℕ) (s : Store) → IsSound s → Conserves s (approve i reviewer now s).1
approve-Conserves i reviewer now s h = elim (approve_outcome i reviewer now s) [
  | inl (e, r) ↦ rw r (unchanged s h)
  | inr (p, q, r) ↦ rw r (
      told-Conserves p.user_id _ _ s _ (
        rewritten-Conserves p.id (as_approved reviewer now) p s h (refound-Read i p _ s q)
          (λ x. refl) (still_held p (as_approved reviewer now) refl refl (cc (q.in_status)))))
]

pub mark_paid-Conserves :
    (i reviewer : ℕ) (reference : Text) (now : ℕ) (s : Store)
    → IsSound s
    → Conserves s (mark_paid i reviewer reference now s).1
mark_paid-Conserves i reviewer reference now s h =
    elim (mark_paid_outcome i reviewer reference now s) [
      | inl (e, r) ↦ rw r (unchanged s h)
      | inr (p, q, r) ↦ rw r (
          told-Conserves p.user_id _ _ s _ (
            rewritten-Conserves i (as_paid reviewer now reference) p s h q.found (λ x. refl)
              (still_held p (as_paid reviewer now reference) refl refl
                (ground (arith, q.in_status)))))
    ]

-- The amount leaves the wallet and is held by the new payout.
taken-Conserves :
    (input : RequestPayoutInput) (owner w : Wallet) (s : Store)
    → IsSound s
    → pos 0 <ℤ input.amount
    → find_unique owner.id s.wallets.rows ≡ some w
    → input.amount ≤ℤ w.balance
    → Conserves s (requested_store input owner w s)
taken-Conserves input owner w s h p e c = record {
  sound = record {
    books =
        posted-IsConsistent
          (payout_entry owner.id (new_payout input owner s) LedgerKind.debit
            (codes "payout:" ++ to_string s.payouts.next) (codes "Payout pending review"))
          owner.id w (w.balance -ℤ input.amount)
          (record s { payouts = insert (requested_row input owner.id) s.payouts })
          (payouts-IsConsistent _ s h.books) e refl (omega int_laws) (omega int_laws);
    amounts = (p, h.amounts);
  };
  conserved = grind (
    int_laws,
    sum_balances-update owner.id (w.balance -ℤ input.amount) w s.wallets.rows e,
    held_pending (new_payout input owner s) refl,
  );
}

pub request-Conserves :
    (input : RequestPayoutInput) (s : Store) → IsSound s → Conserves s (request input s).1
request-Conserves input s h = elim (request_outcome input s) [
  | inl (e, r) ↦ rw r (unchanged s h)
  | inr (owner, w, good, o, p, e, c, r) ↦
      rw r (told-Conserves input.user_id _ _ s _ (taken-Conserves input owner w s h p e c))
]
