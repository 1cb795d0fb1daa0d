-- ===== src/Payouts/Money.antt =====
-- Money under the payouts service (apps/api/src/core/payouts/payouts.service.ts): what a pending,
-- approved or paid payout has taken from a wallet, and the conservation of wallets and holds.
use saziqo_platform.Prelude.{
  ℕ, ◌≡◌, Bool, true, false, some, List, [], ◌∷◌, arith, if◌then◌else◌, ℤ, pos, ◌+ℤ◌, ◌<ℤ◌,
  int_laws, String, All,
}
use saziqo_platform.Table.{Table, find_unique, update}
use saziqo_platform.Store.{
  Store, Wallet, LedgerEntry, PayoutRequest, PayoutStatus, NotificationType, PayloadValue,
  wallet_key, payout_key,
}
use saziqo_platform.Ledger.{signed}
use saziqo_platform.Ledger.Steps.{posted}
use saziqo_platform.Ledger.Consistency.{IsConsistent, posted-IsConsistent}
use saziqo_platform.Ledger.Conservation.{total, sum_balances-update}
use saziqo_platform.Payouts.Effects.{with_payout, told}

-- A payout in this status keeps the money that its request took.
abbrev pub holds : PayoutStatus → Bool
holds PayoutStatus.pending = true
holds PayoutStatus.approved = true
holds PayoutStatus.paid = true
holds _ = false

unfoldable pub held_by : PayoutRequest → ℤ
held_by p = if holds p.status then p.amount else pos 0

abbrev pub sum_held : List PayoutRequest → ℤ
sum_held [] = pos 0
sum_held (p ∷ ps) = held_by p +ℤ sum_held ps

-- All the money that payouts hold.
abbrev pub held : Store → ℤ
held s = sum_held s.payouts.rows

abbrev pub IsPositive : PayoutRequest → Type 0
IsPositive p = pos 0 <ℤ p.amount

-- The books are consistent, and every payout has a positive amount.
pub record IsSound (s : Store) : Type 0 where
  pub books : IsConsistent s
  pub amounts : All IsPositive s.payouts.rows

pub sum_held-update :
    (i : ℕ) (f : PayoutRequest → PayoutRequest) (p : PayoutRequest) (ps : List PayoutRequest)
    → find_unique i ps ≡ some p
    → sum_held (update i f ps) +ℤ held_by p ≡ sum_held ps +ℤ held_by (f p)
sum_held-update i f p [] e = cc
sum_held-update i f p (x ∷ ps) e = grind (int_laws, sum_held-update i f p ps)

IsPositive-found :
    (i : ℕ) (p : PayoutRequest) (ps : List PayoutRequest)
    → All IsPositive ps
    → find_unique i ps ≡ some p
    → IsPositive p
IsPositive-found i p [] a e = cc
IsPositive-found i p (x ∷ ps) a e = ground (arith, IsPositive-found i p ps a.1)

IsPositive-update :
    (i : ℕ) (f : PayoutRequest → PayoutRequest) (ps : List PayoutRequest)
    → ((p : PayoutRequest) → (f p).amount ≡ p.amount)
    → All IsPositive ps
    → All IsPositive (update i f ps)
IsPositive-update i f [] k a = tt
IsPositive-update i f (x ∷ ps) k a = ground (arith, IsPositive-update i f ps k a.1, k x)

-- Payout rows and messages are no part of the books.
pub payouts-IsConsistent :
    (t : Table PayoutRequest) (s : Store) → IsConsistent s → IsConsistent (record s { payouts = t })
payouts-IsConsistent t s h = record {
  balances = h.balances;
  solvent = h.solvent;
  known = h.known;
  unused = h.unused;
}

pub told-IsSound :
    (u : ℕ) (t : NotificationType) (payload : List (String × PayloadValue)) (s : Store)
    → IsSound s
    → IsSound (told u t payload s)
told-IsSound u t payload s h = record {
  books = record {
    balances = h.books.balances;
    solvent = h.books.solvent;
    known = h.books.known;
    unused = h.books.unused;
  };
  amounts = h.amounts;
}

-- What an operation may do: it keeps the books sound and, together, wallets and holds.
pub record Conserves (s t : Store) : Type 0 where
  pub sound : IsSound t
  pub conserved : total t +ℤ held t ≡ total s +ℤ held s

-- A row rewritten in place, with the same amount and as much on hold.
module _ (i : ℕ) (f : PayoutRequest → PayoutRequest) (p : PayoutRequest) (s : Store) (h : IsSound s)
    (found : find_unique i s.payouts.rows ≡ some p)
    (same : (q : PayoutRequest) → (f q).amount ≡ q.amount) where
  rewritten-IsSound : IsSound (with_payout i f s)
  rewritten-IsSound = record {
    books = payouts-IsConsistent _ s h.books;
    amounts = IsPositive-update i f s.payouts.rows same h.amounts;
  }

  pub rewritten-Conserves : held_by (f p) ≡ held_by p → Conserves s (with_payout i f s)
  rewritten-Conserves e = record {
    sound = rewritten-IsSound;
    conserved = grind (int_laws, sum_held-update i f p s.payouts.rows found);
  }

  -- A hold that ends, and the wallet that gets it back.
  pub paid_back-Conserves :
      (mk : ℕ → LedgerEntry) (w : Wallet)
      → held_by (f p) ≡ pos 0
      → held_by p ≡ p.amount
      → find_unique p.wallet_id s.wallets.rows ≡ some w
      → (mk s.entries.next).wallet_id ≡ some p.wallet_id
      → signed (mk s.entries.next).kind (mk s.entries.next).amount ≡ p.amount
      → Conserves s (posted mk p.wallet_id (w.balance +ℤ p.amount) (with_payout i f s))
  paid_back-Conserves mk w gone taken e owned credited = record {
    sound = record {
      books =
          posted-IsConsistent mk p.wallet_id w (w.balance +ℤ p.amount) (with_payout i f s)
            rewritten-IsSound.books e owned (cc)
            (omega (
              int_laws,
              h.books.solvent p.wallet_id w e,
              IsPositive-found i p s.payouts.rows h.amounts found,
            ));
      amounts = rewritten-IsSound.amounts;
    };
    conserved = grind (
      int_laws,
      sum_held-update i f p s.payouts.rows found,
      sum_balances-update p.wallet_id (w.balance +ℤ p.amount) w s.wallets.rows e,
    );
  }
