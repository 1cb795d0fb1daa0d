-- ===== src/Ledger.antt =====
-- apps/api/src/core/wallets/wallets.service.ts and apps/api/src/core/ledger/ledger.service.ts:
-- the wallets and the append-only ledger. Amounts are JavaScript `bigint`s, so they are signed
-- and do not wrap.
pub mod Transfer
pub mod TransferSteps
pub mod Conservation
pub mod Refinement
pub mod Reports
pub mod Sequences
pub mod Tables
pub mod Steps
pub mod Consistency
use saziqo_platform.Prelude.{
  ℕ, suc, ◌+◌, ◌-◌, ◌≡◌, refl, Bool, true, false, not, Option, none, some, List, [], ◌∷◌, ltb, leb,
  ◌==◌, if◌then◌else◌, ℤ, pos, ◌+ℤ◌, ◌-ℤ◌, ltb_ℤ, leb_ℤ, eqb_ℤ, Text, codes, to_string, text_eq,
  get_or,
}
use saziqo_platform.Action.{
  Action, Result, ok, err, Thrown, http, ErrorCode, bad_request, not_found_status,
  unprocessable_entity, internal_server_error, pure, or_throw, throw_if, transaction, gets, modify,
  ◌>>=◌, ◌>>◌,
}
use saziqo_platform.Table.{Table, find_unique, find_first, update, insert}
use saziqo_platform.Page.{Page, find_page}
use saziqo_platform.Store.{
  Store, Wallet, LedgerEntry, LedgerKind, Metadata, Dispatch, NotificationType, in_app,
  PayloadValue, number, dispatch, wallet_key, entry_key,
}

-- `LedgerWriteInput`
pub record LedgerWriteInput : Type 0 where
  pub wallet_id : ℕ
  pub amount : ℤ
  pub reference : Option Text
  pub description : Option Text
  pub metadata : Option Metadata

-- `TransferInput`
pub record TransferInput : Type 0 where
  pub from_wallet_id : ℕ
  pub to_wallet_id : ℕ
  pub amount : ℤ
  pub reference : Option Text
  pub description : Option Text
  pub metadata : Option Metadata

abbrev pub wallet_missing : Thrown
wallet_missing = http ErrorCode.not_found not_found_status

abbrev pub insufficient : Thrown
insufficient = http ErrorCode.insufficient_funds unprocessable_entity

-- `WalletsService.findByUserId`; `findByUserIdForAdmin` has the same body.
unfoldable pub find_by_user_id : ℕ → Action Store Wallet
find_by_user_id u = do
  row ← gets (λ s. find_first (λ (w : Wallet). w.user_id == u) s.wallets.rows)
  or_throw row wallet_missing

-- `@default(0)`
abbrev pub new_wallet : ℕ → ℕ → Wallet
new_wallet u i = record { id = i; user_id = u; balance = pos 0 }

abbrev pub created : ℕ → Store → Result Wallet × Store
created u s =
    (ok (new_wallet u s.wallets.next), record s { wallets = insert (new_wallet u) s.wallets })

abbrev pub upsert_wallet : ℕ → Option Wallet → Store → Result Wallet × Store
upsert_wallet u none s = created u s
upsert_wallet u (some w) s = (ok w, s)

-- `WalletsService.findOrCreateForUser`
unfoldable pub find_or_create_for_user : ℕ → Action Store Wallet
find_or_create_for_user u s =
    upsert_wallet u (find_first (λ (w : Wallet). w.user_id == u) s.wallets.rows) s

-- `assertPositive`
unfoldable pub assert_positive : ℤ → Action Store (Unit {0})
assert_positive amount =
    throw_if (leb_ℤ amount (pos 0)) (http ErrorCode.validation_error bad_request)

-- `SELECT … FROM wallets WHERE id = … FOR UPDATE`
unfoldable pub lock_wallet : ℕ → Action Store Wallet
lock_wallet i = do row ← gets (λ s. find_unique i s.wallets.rows); or_throw row wallet_missing

abbrev pub create_entry : (ℕ → LedgerEntry) → Action Store LedgerEntry
create_entry mk s = (ok (mk s.entries.next), record s { entries = insert mk s.entries })

abbrev pub with_balance : ℤ → Wallet → Wallet
with_balance b w = record w { balance = b }

-- `wallet.update({ where: { id }, data: { balance } })`
abbrev pub update_balance : ℕ → ℤ → Action Store (Unit {0})
update_balance i b = modify (λ s. record s {
  wallets = record { rows = update i (with_balance b) s.wallets.rows; next = s.wallets.next };
})

abbrev pub entry_of : LedgerWriteInput → LedgerKind → Wallet → ℕ → LedgerEntry
entry_of input kind w i = record {
  id = i;
  wallet_id = some input.wallet_id;
  user_id = some w.user_id;
  kind = kind;
  amount = input.amount;
  reference = input.reference;
  description = input.description;
  metadata = input.metadata;
}

-- `{ amount, balance }` to the owner, unless the id is falsy.
abbrev pub notify_owner : NotificationType → ℕ → ℤ → ℤ → Action Store (Unit {0})
notify_owner type user_id amount balance =
    modify (λ s. if user_id == 0 then s else dispatch message s)
  where
    message : Dispatch
    message = record {
      user_id = user_id;
      type = type;
      payload = ("amount", number amount) ∷ ("balance", number balance) ∷ [];
      channels = in_app ∷ [];
    }

-- What the transaction of `credit` and `debit` returns.
pub record Posted : Type 0 where
  pub entry : LedgerEntry
  pub new_balance : ℤ
  pub user_id : ℕ

unfoldable pub credit_in_transaction : LedgerWriteInput → Action Store Posted
unfolding lock_wallet
credit_in_transaction input = do
  wallet ← lock_wallet input.wallet_id
  let nb = wallet.balance +ℤ input.amount
  e ← create_entry (entry_of input LedgerKind.credit wallet)
  update_balance input.wallet_id nb
  pure (record { entry = e; new_balance = nb; user_id = wallet.user_id })

-- `LedgerService.credit`
unfoldable pub credit : LedgerWriteInput → Action Store LedgerEntry
unfolding assert_positive
credit input = do
  assert_positive input.amount
  posted ← transaction (credit_in_transaction input)
  notify_owner NotificationType.wallet_credited posted.user_id input.amount posted.new_balance
  pure posted.entry

unfoldable pub debit_in_transaction : LedgerWriteInput → Action Store Posted
unfolding lock_wallet
debit_in_transaction input = do
  wallet ← lock_wallet input.wallet_id
  let nb = wallet.balance -ℤ input.amount
  throw_if (ltb_ℤ nb (pos 0)) insufficient
  e ← create_entry (entry_of input LedgerKind.debit wallet)
  update_balance input.wallet_id nb
  pure (record { entry = e; new_balance = nb; user_id = wallet.user_id })

-- `LedgerService.debit`
unfoldable pub debit : LedgerWriteInput → Action Store LedgerEntry
unfolding assert_positive
debit input = do
  assert_positive input.amount
  posted ← transaction (debit_in_transaction input)
  notify_owner NotificationType.wallet_debited posted.user_id input.amount posted.new_balance
  pure posted.entry

-- `getBalance`
unfoldable pub get_balance : ℕ → Action Store ℤ
get_balance i = do
  row ← gets (λ s. find_unique i s.wallets.rows)
  wallet ← or_throw row wallet_missing
  pure wallet.balance

-- `CASE WHEN kind = 'CREDIT' THEN amount ELSE -amount END`
abbrev pub signed : LedgerKind → ℤ → ℤ
signed LedgerKind.credit amount = amount
signed LedgerKind.debit amount = pos 0 -ℤ amount

-- `"walletId" = …`, which no null satisfies.
abbrev pub belongs : ℕ → Option ℕ → Bool
belongs i none = false
belongs i (some j) = i == j

-- `COALESCE(SUM(…), 0) … WHERE "walletId" = …`
unfoldable pub computed_balance : ℕ → List LedgerEntry → ℤ
computed_balance i [] = pos 0
computed_balance i (e ∷ es) =
    let rest = computed_balance i es in
    if belongs i e.wallet_id then signed e.kind e.amount +ℤ rest else rest

-- `verifyBalance`
unfoldable pub verify_balance : ℕ → Action Store (Unit {0})
verify_balance i = do
  row ← gets (λ s. find_unique i s.wallets.rows)
  wallet ← or_throw row wallet_missing
  computed ← gets (λ s. computed_balance i s.entries.rows)
  throw_if (not (eqb_ℤ computed wallet.balance))
      (http ErrorCode.balance_mismatch internal_server_error)

-- `findEntriesForWallet`
unfoldable pub find_entries_for_wallet : ℕ → Option ℕ → ℕ → Store → Page LedgerEntry
unfolding find_page
find_entries_for_wallet i cursor limit s =
    find_page (λ (e : LedgerEntry). belongs i e.wallet_id) cursor limit s.entries.rows
