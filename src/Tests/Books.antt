-- ===== src/Tests/Books.antt =====
-- A small store: two wallets whose balances are the sums of their entries, and one payout of each
-- kind that the tests need.
use saziqo_platform.Prelude.{ℕ, ◌≡◌, ◌≤◌, none, some, [], ◌∷◌, pos, arith, int_laws, codes}
use saziqo_platform.Store.{
  Store, Wallet, LedgerEntry, LedgerKind, PayoutRequest, PayoutStatus, wallet_key,
}
use saziqo_platform.Ledger.{computed_balance, LedgerWriteInput, TransferInput}
use saziqo_platform.Ledger.Consistency.{IsConsistent}
use saziqo_platform.Payouts.Money.{IsSound}

abbrev entry : ℕ → ℕ → LedgerKind → ℕ → LedgerEntry
entry i w kind amount = record {
  id = i;
  wallet_id = some w;
  user_id = some w;
  kind = kind;
  amount = pos amount;
  reference = none;
  description = none;
  metadata = none;
}

abbrev pub payout : ℕ → PayoutStatus → PayoutRequest
payout i status = record {
  id = i;
  user_id = 1;
  wallet_id = 1;
  amount = pos 30;
  bank_account = codes "IR380570028780010872190001";
  account_holder = codes "holder";
  status = status;
  reviewed_by_user_id = none;
  reviewed_at = none;
  rejection_reason = none;
  paid_at = none;
  payment_reference = none;
}

abbrev pub wallet_1 : Wallet
wallet_1 = record { id = 1; user_id = 1; balance = pos 70 }

-- 100 in, 30 out to payout 1; nothing in wallet 2 but 5.
abbrev pub books : Store
books = record {
  users = [];
  wallets = record {
    rows = record { id = 2; user_id = 2; balance = pos 5 } ∷ wallet_1 ∷ [];
    next = 3;
  };
  entries = record {
    rows =
        entry 3 1 LedgerKind.debit 30
        ∷ entry 2 2 LedgerKind.credit 5
        ∷ entry 1 1 LedgerKind.credit 100
        ∷ [];
    next = 4;
  };
  payouts = record {
    rows = payout 2 PayoutStatus.cancelled ∷ payout 1 PayoutStatus.pending ∷ [];
    next = 3;
  };
  payments = record { rows = []; next = 1 };
  refunds = record { rows = []; next = 1 };
  dispatched = [];
}

sums :
    (computed_balance 1 books.entries.rows ≡ pos 70)
    × (computed_balance 2 books.entries.rows ≡ pos 5)
unfolding computed_balance
sums = grind int_laws

others : (j : ℕ) → 3 ≤ j → computed_balance j books.entries.rows ≡ pos 0
unfolding computed_balance
others j h = grind int_laws

pub books-IsConsistent : IsConsistent books
books-IsConsistent = record {
  balances = λ i w e. ground (arith, sums);
  solvent = λ i w e. grind int_laws;
  known = λ i w e. ground arith;
  unused = others;
}

pub books-IsSound : IsSound books
books-IsSound = record {
  books = books-IsConsistent;
  amounts = (omega int_laws, (omega int_laws, tt));
}

abbrev pub write : ℕ → ℕ → LedgerWriteInput
write w amount = record {
  wallet_id = w;
  amount = pos amount;
  reference = none;
  description = none;
  metadata = none;
}

abbrev pub move : ℕ → ℕ → ℕ → TransferInput
move f t amount = record {
  from_wallet_id = f;
  to_wallet_id = t;
  amount = pos amount;
  reference = none;
  description = none;
  metadata = none;
}
