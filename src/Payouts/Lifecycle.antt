-- ===== src/Payouts/Lifecycle.antt =====
-- The life of a payout under apps/api/src/core/payouts/payouts.service.ts as a step relation on its
-- status.
use saziqo_platform.Prelude.{
  ℕ, ◌<◌, ◌≡◌, refl, sym, ap, ◌∙◌, Bool, true, false, some, List, [], ◌∷◌, arith, ◌==◌, inl, inr,
  Bool-cases, subst,
}
use saziqo_platform.Table.{Table, find_unique, find_unique-update, update, insert}
use saziqo_platform.Store.{Store, PayoutRequest, PayoutStatus, payout_key}
use saziqo_platform.Payouts.{
  RequestPayoutInput, as_approved, as_rejected, as_paid, as_cancelled, requested_row,
}
use saziqo_platform.Payouts.Effects.{
  cancel_outcome, reject_outcome, approve_outcome, mark_paid_outcome,
}
use saziqo_platform.Payouts.Requests.{request_outcome}
use saziqo_platform.Payouts.Conservation.{refound-Read}
use saziqo_platform.Payouts.Sequences.{
  Call, requests, approves, rejects, marks_paid, cancels, after, after_all,
}

infix 40 ◌⟶◌ ◌⟶*◌
pub data ◌⟶◌ : PayoutStatus → PayoutStatus → Type 0 where
  stays : {t : PayoutStatus} → t ⟶ t
  approval : PayoutStatus.pending ⟶ PayoutStatus.approved
  rejection : PayoutStatus.pending ⟶ PayoutStatus.rejected
  cancellation : PayoutStatus.pending ⟶ PayoutStatus.cancelled
  payment : PayoutStatus.approved ⟶ PayoutStatus.paid

pub data ◌⟶*◌ : PayoutStatus → PayoutStatus → Type 0 where
  here : {t : PayoutStatus} → t ⟶* t
  onward : {t u v : PayoutStatus} → t ⟶ u → u ⟶* v → t ⟶* v

-- The payout `j` is still there, in a status that one step leads to.
abbrev Stepped : ℕ → PayoutRequest → Store → Type 0
Stepped j q s =
    (r : PayoutRequest) × (find_unique j s.payouts.rows ≡ some r) × (q.status ⟶ r.status)

rewritten-Stepped :
    (i : ℕ) (f : PayoutRequest → PayoutRequest) (p : PayoutRequest) (rows : List PayoutRequest)
    (j : ℕ) (q : PayoutRequest)
    → ((x : PayoutRequest) → (f x).id ≡ x.id)
    → find_unique i rows ≡ some p
    → p.status ⟶ (f p).status
    → find_unique j rows ≡ some q
    → (r : PayoutRequest) × (find_unique j (update i f rows) ≡ some r) × (q.status ⟶ r.status)
rewritten-Stepped i f p rows j q keep e step g = elim (Bool-cases (i == j)) [
  | inr other ↦ (q, ground (arith, find_unique-update j i f rows keep), stays)
  | inl same ↦
      let one : p ≡ q = ground (arith) in
      (
        f q,
        ground (arith, find_unique-update j i f rows keep),
        subst (λ x. x.status ⟶ (f x).status) one step,
      )
]

inserted_other :
    (input : RequestPayoutInput) (w j : ℕ) (t : Table PayoutRequest)
    → j < t.next
    → find_unique j (insert (requested_row input w) t).rows ≡ find_unique j t.rows
inserted_other input w j t h = ground arith

-- One call moves every payout by at most one step.
after-Stepped :
    (c : Call) (s : Store) (j : ℕ) (q : PayoutRequest)
    → j < s.payouts.next
    → find_unique j s.payouts.rows ≡ some q
    → Stepped j q (after c s)
unfolding after
after-Stepped (requests input) s j q h g = elim (request_outcome input s) [
  | inl (e, r) ↦ rw (r, after) (q, g, stays)
  | inr (owner, w, good, o, p, e, c, r) ↦
      rw (r, after) (q, ground (arith, inserted_other input owner.id j s.payouts h), stays)
]
after-Stepped (approves i reviewer now) s j q h g = elim (approve_outcome i reviewer now s) [
  | inl (e, r) ↦ rw (r, after) (q, g, stays)
  | inr (p, d, r) ↦
      rw (r, after)
        (rewritten-Stepped p.id (as_approved reviewer now) p s.payouts.rows j q (λ x. refl)
          (refound-Read i p _ s d)
          (subst (λ t. t ⟶ PayoutStatus.approved) (sym d.in_status) approval) g)
]
after-Stepped (rejects i reviewer reason now) s j q h g =
    elim (reject_outcome i reviewer reason now s) [
      | inl (e, r) ↦ rw (r, after) (q, g, stays)
      | inr (p, w, d, f, r) ↦
          rw (r, after)
            (rewritten-Stepped p.id (as_rejected reviewer now reason) p s.payouts.rows j q
              (λ x. refl) (refound-Read i p _ s d)
              (subst (λ t. t ⟶ PayoutStatus.rejected) (sym d.in_status) rejection) g)
    ]
after-Stepped (marks_paid i reviewer reference now) s j q h g =
    elim (mark_paid_outcome i reviewer reference now s) [
      | inl (e, r) ↦ rw (r, after) (q, g, stays)
      | inr (p, d, r) ↦
          rw (r, after)
            (rewritten-Stepped i (as_paid reviewer now reference) p s.payouts.rows j q (λ x. refl)
              d.found (subst (λ t. t ⟶ PayoutStatus.paid) (sym d.in_status) payment) g)
    ]
after-Stepped (cancels i u) s j q h g = elim (cancel_outcome i u s) [
  | inl (e, r) ↦ rw (r, after) (q, g, stays)
  | inr (p, w, d, owner, f, r) ↦
      rw (r, after)
        (rewritten-Stepped p.id as_cancelled p s.payouts.rows j q (λ x. refl)
          (refound-Read i p _ s d)
          (subst (λ t. t ⟶ PayoutStatus.cancelled) (sym d.in_status) cancellation) g)
]

-- A table's sequence never goes back.
after-next : (c : Call) (s : Store) (j : ℕ) → j < s.payouts.next → j < (after c s).payouts.next
unfolding after
after-next (requests input) s j h = elim (request_outcome input s) [
  | inl (e, r) ↦ rw (r, after) h
  | inr (owner, w, good, o, p, e, c, r) ↦ rw (r, after) (omega arith)
]
after-next (approves i reviewer now) s j h = elim (approve_outcome i reviewer now s) [
  | inl (e, r) ↦ rw (r, after) h
  | inr (p, d, r) ↦ rw (r, after) h
]
after-next (rejects i reviewer reason now) s j h = elim (reject_outcome i reviewer reason now s) [
  | inl (e, r) ↦ rw (r, after) h
  | inr (p, w, d, f, r) ↦ rw (r, after) h
]
after-next (marks_paid i reviewer reference now) s j h =
    elim (mark_paid_outcome i reviewer reference now s) [
      | inl (e, r) ↦ rw (r, after) h
      | inr (p, d, r) ↦ rw (r, after) h
    ]
after-next (cancels i u) s j h = elim (cancel_outcome i u s) [
  | inl (e, r) ↦ rw (r, after) h
  | inr (p, w, d, owner, f, r) ↦ rw (r, after) h
]

-- Through any sequence of calls a payout that the table has numbered stays in it, and its status
-- moves only along the steps pending to approved, rejected or cancelled, and approved to paid.
pub after_all-⟶* :
    (cs : List Call) (s : Store) (j : ℕ) (q : PayoutRequest)
    → j < s.payouts.next
    → find_unique j s.payouts.rows ≡ some q
    → (r : PayoutRequest) × (find_unique j (after_all cs s).payouts.rows ≡ some r)
      × (q.status ⟶* r.status)
unfolding after_all
after_all-⟶* [] s j q h g = (q, g, here)
after_all-⟶* (c ∷ cs) s j q h g =
    let (r, found, step) = after-Stepped c s j q h g in
    let (t, later, steps) = after_all-⟶* cs (after c s) j r (after-next c s j h) found in
    (t, later, onward step steps)

-- The statuses that nothing leaves.
abbrev pub is_terminal : PayoutStatus → Bool
is_terminal PayoutStatus.rejected = true
is_terminal PayoutStatus.cancelled = true
is_terminal PayoutStatus.paid = true
is_terminal _ = false

terminal_step : {t u : PayoutStatus} → t ⟶ u → is_terminal t ≡ true → u ≡ t
terminal_step stays h = refl
terminal_step approval h = cc
terminal_step rejection h = cc
terminal_step cancellation h = cc
terminal_step payment h = cc

terminal_steps : {t u : PayoutStatus} → t ⟶* u → is_terminal t ≡ true → u ≡ t
terminal_steps here h = refl
terminal_steps (onward step steps) h =
    let same = terminal_step step h in terminal_steps steps (ap is_terminal same ∙ h) ∙ same

-- A rejected, cancelled or paid payout that the table has numbered keeps that status through any
-- sequence of calls.
pub terminal_stays :
    (cs : List Call) (s : Store) (j : ℕ) (q : PayoutRequest)
    → j < s.payouts.next
    → find_unique j s.payouts.rows ≡ some q
    → is_terminal q.status ≡ true
    → (r : PayoutRequest) × (find_unique j (after_all cs s).payouts.rows ≡ some r)
      × (r.status ≡ q.status)
terminal_stays cs s j q h g done =
    let (r, found, steps) = after_all-⟶* cs s j q h g in (r, found, terminal_steps steps done)
