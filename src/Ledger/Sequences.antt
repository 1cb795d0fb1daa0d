-- ===== src/Ledger/Sequences.antt =====
-- Any sequence of the writing calls of apps/api/src/core/ledger/ledger.service.ts, each of which may
-- return or throw.
use saziqo_platform.Prelude.{List, [], ◌∷◌}
use saziqo_platform.Store.{Store}
use saziqo_platform.Ledger.{LedgerWriteInput, TransferInput, credit, debit}
use saziqo_platform.Ledger.Transfer.{transfer}
use saziqo_platform.Ledger.Consistency.{IsConsistent, credit-IsConsistent, debit-IsConsistent}
use saziqo_platform.Ledger.Conservation.{transfer-IsConsistent}

pub data Write : Type 0 where
  credits debits : LedgerWriteInput → Write
  transfers : TransferInput → Write

-- The store after a call, whether it returned or threw.
unfoldable pub written : Write → Store → Store
written (credits input) s = (credit input s).1
written (debits input) s = (debit input s).1
written (transfers input) s = (transfer input s).1

unfoldable pub written_all : List Write → Store → Store
written_all [] s = s
written_all (c ∷ cs) s = written_all cs (written c s)

written-IsConsistent : (c : Write) (s : Store) → IsConsistent s → IsConsistent (written c s)
unfolding written
written-IsConsistent (credits input) s h = credit-IsConsistent input s h
written-IsConsistent (debits input) s h = debit-IsConsistent input s h
written-IsConsistent (transfers input) s h = transfer-IsConsistent input s h

-- Through any sequence of credits, debits and transfers, whatever their inputs, a consistent store
-- stays consistent: each wallet's balance is the sum of its ledger entries and is not negative, its
-- id has been given, and the entries of an id that is still to be given add up to zero.
pub written_all-IsConsistent :
    (cs : List Write) (s : Store) → IsConsistent s → IsConsistent (written_all cs s)
unfolding written_all
written_all-IsConsistent [] s h = h
written_all-IsConsistent (c ∷ cs) s h =
    written_all-IsConsistent cs (written c s) (written-IsConsistent c s h)
