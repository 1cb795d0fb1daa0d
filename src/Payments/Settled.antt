-- ===== src/Payments/Settled.antt =====
-- What `reconcile` of apps/api/src/core/payments/payment-ledger.reconciler.ts writes.
use saziqo_platform.Prelude.{
  ◌≤◌, ◌≡◌, refl, ap, ◌∙◌, true, false, some, ◌∷◌, arith, inl, inr, ◌⊎◌, Bool-cases, Option-cases,
}
use saziqo_platform.Action.{Result, ok, err, Thrown}
use saziqo_platform.Table.{find_unique}
use saziqo_platform.Store.{Store, Payment, LedgerEntry, Wallet, LedgerKind, payment_key}
use saziqo_platform.Ledger.{credit, find_or_create_for_user, entry_of}
use saziqo_platform.Ledger.Tables.{credit-Wrote, find_or_create_lem}
use saziqo_platform.Payments.{is_topup}
use saziqo_platform.Payments.Reconciler.{
  payment_reference, existing_entry, reconcile, settle, topup_credit,
}
use saziqo_platform.Payments.Exact.{count, count-none, count-some}

abbrev pub SamePayments : Store → Store → Type 0
SamePayments s t = (t.payments ≡ s.payments) × (t.refunds ≡ s.refunds)

-- The reconciler threw and wrote no entry, or it returned and wrote none, or one.
abbrev pub Settled : Payment → Store → Result (Unit {0}) × Store → Type 0
Settled p s r =
    SamePayments s r.1
    × (((e : Thrown) × (r.0 ≡ err e) × (r.1.entries ≡ s.entries))
        ⊎ ((r.1.entries ≡ s.entries)
            × (is_topup p.purpose ≡ true → 1 ≤ count (payment_reference p.id) s.entries.rows))
        ⊎ ((e : LedgerEntry) × (e.reference ≡ some (payment_reference p.id))
            × (e.amount ≡ p.amount)
            × (e.kind ≡ LedgerKind.credit)
            × (r.1.entries.rows ≡ e ∷ s.entries.rows)
            × (count (payment_reference p.id) s.entries.rows ≡ 0)))

-- The same wallet and the credit to it.
pub settle_topup :
    (p : Payment) (s : Store) (w : Wallet)
    → (find_or_create_for_user p.user_id s).0 ≡ ok w
    → is_topup p.purpose ≡ true
    → let t = (find_or_create_for_user p.user_id s).1 in
      (settle p s).1 ≡ (credit (topup_credit p w.id) t).1
unfolding settle
settle_topup p s w f t = ground arith

settle_threw :
    (p : Payment) (s : Store) (w : Wallet) (e : Thrown)
    → (find_or_create_for_user p.user_id s).0 ≡ ok w
    → is_topup p.purpose ≡ true
    → (credit (topup_credit p w.id) (find_or_create_for_user p.user_id s).1).0 ≡ err e
    → (settle p s).0 ≡ err e
unfolding settle
settle_threw p s w e f t c = ground arith

pub settle_other : (p : Payment) (s : Store) → is_topup p.purpose ≡ false → settle p s ≡ (ok tt, s)
unfolding settle
settle_other p s t = ground arith

settle-Settled :
    (p : Payment) (s : Store)
    → count (payment_reference p.id) s.entries.rows ≡ 0
    → Settled p s (settle p s)
settle-Settled p s new = elim (Bool-cases (is_topup p.purpose)) [
  | inr other ↦
      rw (settle_other p s other) ((refl, refl), inr (inl (refl, λ t. ground (arith, other))))
  | inl topup ↦
      let (w, found, rest, same) = find_or_create_lem p.user_id s in
      let t = (find_or_create_for_user p.user_id s).1 in
      let (rest', wrote) = credit-Wrote (topup_credit p w.id) t in
      let end = settle_topup p s w found topup in
      (
        (
          ap (λ u. u.payments) end ∙ rest'.payments ∙ rest.payments,
          ap (λ u. u.refunds) end ∙ rest'.refunds ∙ rest.refunds,
        ),
        elim wrote [
          | inl (e, threw, back) ↦
              inl
                (e, settle_threw p s w e found topup threw, ap (λ u. u.entries) (end ∙ back) ∙ same)
          | inr (v, e, done, entries) ↦ inr (
              inr (
                entry_of (topup_credit p w.id) LedgerKind.credit v t.entries.next,
                refl,
                refl,
                refl,
                ap (λ u. u.entries.rows) end
                    ∙ ap (λ x. x.rows) entries
                    ∙ ap
                        (λ x.
                          entry_of (topup_credit p w.id) LedgerKind.credit v t.entries.next
                          ∷ x.rows)
                        same,
                new,
              ))
        ],
      )
]

pub reconcile-Settled :
    (p : Payment) (s : Store)
    → find_unique p.id s.payments.rows ≡ some p
    → Settled p s (reconcile p.id s)
unfolding reconcile
reconcile-Settled p s found = elim (Option-cases (existing_entry (payment_reference p.id) s)) [
  | inl e ↦
      rw (found, e) (settle-Settled p s (count-none (payment_reference p.id) s.entries.rows e))
  | inr (x, e) ↦
      rw (found, e)
        (
          (refl, refl),
          inr (inl (refl, λ t. count-some (payment_reference p.id) s.entries.rows x e)),
        )
]
