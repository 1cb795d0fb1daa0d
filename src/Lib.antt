-- ===== src/Lib.antt =====
-- The money services of saziqo-platform, a NestJS back end (apps/api) with a shared package
-- (packages/persian-utils): wallets, an append-only ledger, payouts, payments through a gateway
-- with refunds, and the text checks that they rely on; the sessions and one-time codes of its users;
-- and the marketplace of agents, with its listings, carts, checkout, runs and reviews.
--
-- Parts and files.
--   Store      the tables of apps/api/prisma/schema.prisma that these services read and write
--   Table      one table and the Prisma calls on it: findUnique, findFirst, update, create
--   Action     an asynchronous service method: what it returns or throws, and the state it leaves;
--              `$transaction`; ErrorCode of apps/api/src/common/types/response.types.ts
--   Page       the cursor pagination that every listing repeats; Page/Cut and Page/Walk prove what a
--              client that follows the cursors sees
--   Ledger     apps/api/src/core/wallets/wallets.service.ts and
--              apps/api/src/core/ledger/ledger.service.ts: credit, debit, getBalance, verifyBalance,
--              findEntriesForWallet; Ledger/Transfer has transfer, Ledger/Reports has
--              reconciliationReport. Ledger/Steps and TransferSteps state each call branch by branch,
--              Consistency and Sequences are about balances and entries, Conservation about the sum
--              of all balances, Refinement compares the calls with a map of balances, and Tables says
--              which tables the calls leave alone
--   Payouts    apps/api/src/core/payouts/payouts.service.ts: request, approve, reject, markPaid,
--              cancel and the listings. Effects and Requests state each call's outcomes, Money,
--              Conservation and Sequences follow the money, Lifecycle the status, and Race has two
--              cancellations that overlap
--   Payments   apps/api/src/core/payments: Payments/Initiate, Callback, Refunds and Queries are
--              payments.service.ts, Payments/Reconciler is payment-ledger.reconciler.ts, and the
--              gateway of payment-provider.interface.ts is a parameter. Exact, Settled, Once,
--              TakenBack, Opened and Sequences count the credits of a payment, Genuine says when a
--              callback credits, RefundSteps and RefundCap what a refund writes, Books and Consistent
--              follow the ledger's books, and Race has two callbacks that overlap
--   Sessions   apps/api/src/core/sessions/sessions.service.ts, on a store of its own: refresh tokens,
--              their rotation and revocation. Rotation has the outcomes of rotateRefreshToken, Revoked
--              and Sequences follow a revoked session
--   Otp        apps/api/src/core/otp/otp.service.ts, on a store of its own: one-time codes. Verified is
--              about verify, Cooldown about the limit on generateAndStore
--   Agents     apps/api/src/modules/agents, on a store of its own, which Agents declares.
--              Agents/Cart, Checkout, Runs, Reviews and Library are the services of these names,
--              Agents/Listings, Lifecycle, Increments, Search and Browse are listings.service.ts;
--              Browse/Skipped and Walked are about a client that follows its cursors. Checkout/Commit
--              has the transaction, its retry and what follows it, Checkout/Abort the errors that are
--              retried; Checkout/Validated and Quoted are about the lines that pass, Outcome, Returned,
--              Ended and Once about what a checkout returns and writes, and Twice about two additions
--              that overlap. Steps is a step relation on the tables; Moves, Sales, Usage, Carts,
--              Opinions, Corrections and Writes show that each call takes such steps, and Sequences has
--              any sequence of calls. Along them go Balanced (runs bought, granted and used, with Books
--              and the sums of Tallies), Counted (the counters of a listing, with Counters), Paths (the
--              status) and Quota. Consumed has the outcomes of consume, Warnings the limit on its
--              warnings
--   PersianUtils  packages/persian-utils/src: iban.ts, national-id.ts, phone.ts, numerals.ts; their
--              children prove what the checks accept
--   Prelude    names, integers, lists and texts that the parts share
--   Tests      each theorem at a concrete input
--
-- How they interact. The payouts service asks the wallets service for the user's wallet, checks the
-- account with isValidIranianIban, and writes wallets and entries itself inside its transactions. The
-- payments service calls the reconciler, which calls the wallets and ledger services, and calls the
-- ledger's debit for a refund. Ledger, payouts and payments send notifications. In the marketplace the
-- checkout reads the cart, the listings and the packs and writes purchases and runs, which consume
-- takes; a purchase is what reviews, the library and downloads ask for; reviews make the listings
-- service compute a rating; and the checkout deletes the Redis key that silences consume's warnings.
--
-- Modelling choices. Amounts are JavaScript bigints, so they are signed integers that do not wrap;
-- that the BIGINT columns hold 64 bits is not modelled. Ids are natural numbers. A table keeps its
-- newest row first, and a new row gets the next number of its sequence; Postgres does not give a
-- number back when a transaction is rolled back, which the model does, so numbers may differ but are
-- fresh either way. A method runs to its end before the next one starts, except where a module says
-- otherwise: the commit of a payment callback may fail (the argument `commits`), and Payouts.Race and
-- Payments.Race run two commits after two checks. Redis drops a key when it expires and not before.
-- Metadata are objects of texts, which is all that the services write. Texts are lists of code units.
-- HTTP exceptions keep their code and status, not their message. `now` is an argument.
-- `notifications.dispatch` catches its failures, so it is a record of the requests made. Audit rows
-- of a rotation are written outside its transaction, so they stay when it is rolled back. In the
-- marketplace prices and runs are natural numbers in the tables, since their one writer refuses what
-- is not positive; the maker's part of a sale is an integer, since the commission's rate is not
-- bounded. Math.ceil(size * 0.1) on doubles is the rounded quotient for packs of up to two million
-- runs. addedAt and createdAt give the same order as the ids, and rows are told apart by them alone.
-- What Postgres' text search finds is a parameter. Notifications sent without waiting are sent at
-- once.
--
-- Fuel. Printing a number takes as much fuel as one more than the number, which has fewer digits.
-- Following cursors takes one more than the number of rows, since every page but the last has a row;
-- in Agents/Browse it takes one more than the cursor, since the cursors fall.
--
-- Not modelled: logging, the `aggregates` query, controllers, guards and the other services of
-- apps/api (notifications, users, files, audit), which are glue or stand beside these; of the
-- marketplace its categories, cached sections, cart adapter and the SQL aggregate of the library's list;
-- and the web application.
pub mod Prelude
pub mod Action
pub mod Table
pub mod Page
pub mod PersianUtils
pub mod Store
pub mod Ledger
pub mod Payouts
pub mod Payments
pub mod Sessions
pub mod Otp
pub mod Agents
pub mod Tests
