-- ===== src/Payments/Exact.antt =====
-- What the reconciler of apps/api/src/core/payments/payment-ledger.reconciler.ts is for: how often a
-- payment is credited, as a property of the ledger's entries and the payments.
use saziqo_platform.Prelude.{
  ℕ, suc, ◌≤◌, ◌≡◌, refl, sym, ap, ◌∙◌, true, false, none, some, List, [], ◌∷◌, arith, ◌==◌,
  if◌then◌else◌, Text, codes, to_string, to_string_injective, append_cancel, text_eq, text_eq_iff,
  inl, inr, Bool-cases, ==→eq,
}
use saziqo_platform.Table.{find_first, find_unique, find_unique-update, update}
use saziqo_platform.Store.{Payment, LedgerEntry, payment_key}
use saziqo_platform.Payments.{is_topup}
use saziqo_platform.Payments.Reconciler.{payment_reference, has_reference}
use saziqo_platform.Payments.Refunds.{is_succeeded, refund_reference}

-- How many entries carry the reference.
abbrev pub count : Text → List LedgerEntry → ℕ
count r [] = 0
count r (e ∷ es) = let rest = count r es in if has_reference r e.reference then suc rest else rest

-- No payment is credited twice, and a top-up that has succeeded is credited.
pub record Exact (entries : List LedgerEntry) (payments : List Payment) : Type 0 where
  pub at_most_once : (j : ℕ) → count (payment_reference j) entries ≤ 1
  pub credited :
      (i : ℕ) (p : Payment)
      → find_unique i payments ≡ some p
      → is_topup p.purpose ≡ true
      → is_succeeded p.status ≡ true
      → 1 ≤ count (payment_reference i) entries

pub count-none :
    (r : Text) (es : List LedgerEntry)
    → find_first (λ (e : LedgerEntry). has_reference r e.reference) es ≡ none
    → count r es ≡ 0
count-none r [] h = refl
count-none r (e ∷ es) h = ground (arith, count-none r es)

pub count-some :
    (r : Text) (es : List LedgerEntry) (x : LedgerEntry)
    → find_first (λ (e : LedgerEntry). has_reference r e.reference) es ≡ some x
    → 1 ≤ count r es
count-some r [] x h = cc
count-some r (e ∷ es) x h = ground (arith, count-some r es x)

pub payment_reference_injective : (i j : ℕ) → payment_reference i ≡ payment_reference j → i ≡ j
unfolding payment_reference
payment_reference_injective i j e =
    to_string_injective i j (append_cancel (codes "payment:") (to_string i) (to_string j) e)

-- Two texts that start differently are not equal.
refund_is_no_payment : (i j : ℕ) → text_eq (payment_reference j) (refund_reference i) ≡ false
unfolding payment_reference refund_reference text_eq
refund_is_no_payment i j = refl

own_reference : (i : ℕ) → text_eq (payment_reference i) (payment_reference i) ≡ true
own_reference i = (text_eq_iff (payment_reference i) (payment_reference i)).1 refl

same_payment : (i j : ℕ) → text_eq (payment_reference j) (payment_reference i) ≡ true → i ≡ j
same_payment i j h = sym (
    payment_reference_injective j i ((text_eq_iff (payment_reference j) (payment_reference i)).0 h))

-- An entry for a refund is no credit of a payment.
pub refund_entry-Exact :
    (e : LedgerEntry) (i : ℕ) (es : List LedgerEntry) (ps : List Payment)
    → e.reference ≡ some (refund_reference i)
    → Exact es ps
    → Exact (e ∷ es) ps
refund_entry-Exact e i es ps named h = record {
  at_most_once = λ j. ground (arith, refund_is_no_payment i j, h.at_most_once j);
  credited = λ j p f t u. ground (arith, refund_is_no_payment i j, h.credited j p f t u);
}

module _ (e : LedgerEntry) (i : ℕ) (es : List LedgerEntry)
    (named : e.reference ≡ some (payment_reference i)) where
  credit_count :
      (j : ℕ)
      → count (payment_reference i) es ≡ 0
      → count (payment_reference j) es ≤ 1
      → count (payment_reference j) (e ∷ es) ≤ 1
  credit_count j new h = elim (Bool-cases (text_eq (payment_reference j) (payment_reference i))) [
    | inr other ↦ ground (arith, other)
    | inl same ↦
        let none_yet : count (payment_reference j) es ≡ 0 =
          sym (ap (λ k. count (payment_reference k) es) (same_payment i j same)) ∙ new in
        ground (arith, none_yet)
  ]

  count_grows : (j : ℕ) → count (payment_reference j) es ≤ count (payment_reference j) (e ∷ es)
  count_grows j = ground arith

  -- The first credit of a payment.
  pub credit_entry-Exact :
      (ps : List Payment) → count (payment_reference i) es ≡ 0 → Exact es ps → Exact (e ∷ es) ps
  credit_entry-Exact ps new h = record {
    at_most_once = λ j. credit_count j new (h.at_most_once j);
    credited = λ j p f t u. omega (arith, count_grows j, h.credited j p f t u);
  }

  pub credit_entry_counts : 1 ≤ count (payment_reference i) (e ∷ es)
  credit_entry_counts = ground (arith, own_reference i)

-- A payment may be rewritten if it then is not a succeeded top-up, or is credited.
pub rewritten-Exact :
    (i : ℕ) (f : Payment → Payment) (es : List LedgerEntry) (ps : List Payment)
    → ((p : Payment) → (f p).id ≡ p.id)
    → ((p : Payment) → (f p).purpose ≡ p.purpose)
    → ((p : Payment)
        → find_unique i ps ≡ some p
        → is_topup p.purpose ≡ true
        → is_succeeded (f p).status ≡ true
        → 1 ≤ count (payment_reference i) es)
    → Exact es ps
    → Exact es (update i f ps)
rewritten-Exact i f es ps keep purpose may h = record {
  at_most_once = h.at_most_once;
  credited = credited_still;
}
  where
    at_row :
        (p : Payment)
        → find_unique i (update i f ps) ≡ some p
        → is_topup p.purpose ≡ true
        → is_succeeded p.status ≡ true
        → 1 ≤ count (payment_reference i) es
    at_row p e t u =
        elim (find_unique i ps)
            as (λ o. find_unique i ps ≡ o → 1 ≤ count (payment_reference i) es) [
              | none ↦ λ g. absurd (ground (arith, find_unique-update i i f ps keep))
              | some q ↦ λ g.
                  may q g (ground (arith, find_unique-update i i f ps keep, purpose q))
                    (ground (arith, find_unique-update i i f ps keep))
            ]
          refl

    credited_still :
        (j : ℕ) (p : Payment)
        → find_unique j (update i f ps) ≡ some p
        → is_topup p.purpose ≡ true
        → is_succeeded p.status ≡ true
        → 1 ≤ count (payment_reference j) es
    credited_still j p e t u = elim (Bool-cases (i == j)) [
      | inr other ↦ h.credited j p (ground (arith, find_unique-update j i f ps keep)) t u
      | inl same ↦ ground (arith, at_row p, ==→eq i j same)
    ]

-- A new payment that is still open.
pub opened-Exact :
    (p : Payment) (es : List LedgerEntry) (ps : List Payment)
    → is_succeeded p.status ≡ false
    → Exact es ps
    → Exact es (p ∷ ps)
opened-Exact p es ps open_still h = record {
  at_most_once = h.at_most_once;
  credited = λ j q e t u. ground (arith, h.credited j q);
}
