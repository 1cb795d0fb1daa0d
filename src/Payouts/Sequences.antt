-- ===== src/Payouts/Sequences.antt =====
-- Any sequence of calls of apps/api/src/core/payouts/payouts.service.ts, each run to its end before
-- the next.
use saziqo_platform.Prelude.{ℕ, refl, ◌∙◌, List, [], ◌∷◌, Text}
use saziqo_platform.Store.{Store}
use saziqo_platform.Payouts.{RequestPayoutInput, request, approve, reject, mark_paid, cancel}
use saziqo_platform.Payouts.Money.{IsSound, Conserves}
use saziqo_platform.Payouts.Conservation.{
  request-Conserves, approve-Conserves, reject-Conserves, mark_paid-Conserves, cancel-Conserves,
}

pub data Call : Type 0 where
  requests : RequestPayoutInput → Call
  approves : ℕ → ℕ → ℕ → Call
  rejects : ℕ → ℕ → Text → ℕ → Call
  marks_paid : ℕ → ℕ → Text → ℕ → Call
  cancels : ℕ → ℕ → Call

-- The store after a call, whether it returned or threw.
unfoldable pub after : Call → Store → Store
after (requests input) s = (request input s).1
after (approves i reviewer now) s = (approve i reviewer now s).1
after (rejects i reviewer reason now) s = (reject i reviewer reason now s).1
after (marks_paid i reviewer reference now) s = (mark_paid i reviewer reference now s).1
after (cancels i u) s = (cancel i u s).1

unfoldable pub after_all : List Call → Store → Store
after_all [] s = s
after_all (c ∷ cs) s = after_all cs (after c s)

after-Conserves : (c : Call) (s : Store) → IsSound s → Conserves s (after c s)
unfolding after
after-Conserves (requests input) s h = request-Conserves input s h
after-Conserves (approves i reviewer now) s h = approve-Conserves i reviewer now s h
after-Conserves (rejects i reviewer reason now) s h = reject-Conserves i reviewer reason now s h
after-Conserves (marks_paid i reviewer reference now) s h =
    mark_paid-Conserves i reviewer reference now s h
after-Conserves (cancels i u) s h = cancel-Conserves i u s h

-- From sound books any sequence of requests, approvals, rejections, payments and cancellations
-- leaves sound books, and the money in all wallets and in pending, approved and paid payouts adds
-- up to what it was: a hold that is rejected or cancelled is paid back once and no other is.
pub after_all-Conserves : (cs : List Call) (s : Store) → IsSound s → Conserves s (after_all cs s)
unfolding after_all
after_all-Conserves [] s h = record { sound = h; conserved = refl }
after_all-Conserves (c ∷ cs) s h =
    let first = after-Conserves c s h in
    let rest = after_all-Conserves cs (after c s) first.sound in
    record { sound = rest.sound; conserved = rest.conserved ∙ first.conserved }
