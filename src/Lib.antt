-- ===== src/Lib.antt =====
-- A verification library for the TRC20 payment gateway: the withdrawal worker, the deposit scanner, the
-- sweep worker, the sign service, the outbox, the address filter and the amounts of the API, with the
-- parts of the data model, of the chain gateway and of the Tron encoding that they stand on.
--
-- How the parts interact. The API inserts an order (state created). The withdrawal worker checks it,
-- lets the sign service sign the transfer, takes the order by a compare-and-swap (signed), hands the
-- transaction to a node (broadcast), and settles the order from the receipt (confirmed, failed), or
-- refuses it (rejected). The settling update and the event for the merchant are one database
-- transaction; the dispatcher delivers the events of the outbox. The deposit scanner follows the chain
-- by its cursor: it inserts a pending deposit for each Transfer event to one of our wallets (the filter
-- tells it which addresses may be ours), confirms it at its depth and enqueues its event in the same
-- transaction, or orphans it where the chain was reorganised. The sweep worker moves the confirmed
-- deposits to the sweep wallet.
--
-- Files:
--   Base, Base/*      shared names, Boolean tests, lists, integers, texts as lists of codes, decimal
--                     numbers (big.Int.SetString is set_string), trimmed texts.
--   Model, Model/*    internal/model/model.go: a record per table, a data type per state column.
--                     Times are seconds, amounts in a column are their decimal texts.
--                     Model/Amount: internal/model/amount.go.
--   Store, Store/*    internal/store/store.go: Table has the statements (UpdateColumns with Where is
--                     update_where, RowsAffected is count_where), Schema the tables and EnqueueOutbox,
--                     Monad the calls: a call maps a world to a result and a world, an error keeps what
--                     was written before it, and `transaction` rolls back. Events: the outbox.
--   Chain, Chain/*    internal/chain/gateway.go and failure.go: TxInfo, Failure (ClassifyReceipt,
--                     ClassifyBroadcast), Resources, Gateway (Broadcast over the list of nodes);
--                     internal/chain/ratelimit.go: Cooldown, Parked (the suspension of a node).
--   Tron, Tron/*      internal/tron/address.go and tx.go; the hash functions are a parameter (Crypto).
--   Withdraw          internal/withdraw/worker.go. Env: what a call reads besides the tables, one value
--                     for one call, with the statements that fail in it. Settle: halt, failHalted,
--                     reject, finish, event. Risk: riskCheck. Funds: checkBalance, checkBurnBudget and
--                     the choice of the energy. Execute: execute, broadcast. Reconcile: reconcileOne,
--                     finalInfo, transferred, rebroadcast.
--   Withdraw/Steps    the abstract machine of an order, and the proof that the calls above are runs of
--                     it: Rules for each way to build a call, Settling, Execute, Send, Run, Resolve.
--   Withdraw/Checks   what an order has passed when it is signed; Withdraw/Confirm: what a confirmation
--                     rests on; Withdraw/Transfer: the event of a payment; Withdraw/Daily: the
--                     daily limit.
--   Withdraw/History  any number of workers at one table, interleaved between the phases of a call.
--                     A worker works on snapshots of rows that may be out of date.
--   Scanner           internal/scanner/scanner.go. Env: what a tick reads besides the tables. Decode: a
--                     Transfer event as a deposit. Blocks: scanBlock. Settle: confirmOne, confirmUpTo.
--                     Reorg: handleReorg. Tick: tick, the download of the blocks and the cursor.
--   Scanner/Steps     the abstract machine of the deposit table and the proof that a tick is a run of it.
--                     Credits: what an inserted record rests on. Settled, Told, Events, Lost: properties
--                     of runs. Inserted, Redrawn, Replay: a block scanned once more. ForkPoint,
--                     Fork: a reorganisation.
--   Sweep             internal/sweep/sweep.go. Env: the answers of one call. Transfer: sweepOne and what
--                     it calls. Reconcile: Reconcile, a row at a time. Single, Kept, Alone: one open
--                     sweep of a token at a wallet. Covered: when a row is written off.
--   Api               Amounts: the amounts and event ids of internal/api/util.go. AmountTrip, Fractions,
--                     RoundTrip: printing and parsing. Orders: createWithdraw of internal/api/api.go;
--                     Placed: what it adds.
--   Signer            internal/signer/signer.go (Policy) and server.go (Service).
--   Outbox            internal/outbox/outbox.go: drainOnce, deliver, backoff (Deliver). Delivery: what a
--                     round leaves; Counted: how often a failing delivery is tried again.
--   Bloom             internal/bloom/bloom.go: Add, MayContain, hashes (Filter).
--
-- Bounds. Balances, amounts and ids are natural numbers; the 64-bit hashes of the filter wrap at 2 ^ 64.
-- The fuel of xor is 64, the width of its arguments. The digits of a number (print_dec, bytes) have the
-- number itself as fuel, which it has no more digits than, and a varint has ten bytes of seven bits, which
-- hold 64 bits. A cursor that is created or realigned stands at the number before the head, where the
-- head is at least 1. A deposit's confirmations are an integer: the difference of two block numbers. The
-- range that a tick downloads has its count as structural argument. A key that AUTO_INCREMENT draws for a
-- deposit, a sweep or an order is any number above the keys of the table: how many it skips is an input.
-- An event of the outbox gets the next number, which the theorems on it do not read.
--
-- Not modelled: HTTP, JSON, the database's own behaviour beyond single statements and transactions,
-- logging, the derivation of keys (a parameter of the sign service), the rental of energy beyond what
-- the workers ask of it, the other handlers of the API, the token bucket of a node (it counts in
-- floating-point numbers) and the merchants. The node, the sign service, the energy manager, the lock and
-- the clock are fields of an Env: any functions. The two calls of GetTxInfoByID in one reconcileOne are
-- two fields, since their answers may differ. Of the sign service the worker's theorems use that it
-- returns the id of the transaction it returns, as the service's model does. What the sweep computes with
-- floating-point numbers (the head room on an estimate of energy, the threshold in units) are functions
-- in its Env, and the trade numbers that the scanner draws are one in the scanner's. The field `type` of
-- an event is a constant and is left out.
pub mod Base
pub mod Model
pub mod Store
pub mod Chain
pub mod Tron
pub mod Withdraw
pub mod Signer
pub mod Bloom
pub mod Scanner
pub mod Sweep
pub mod Api
pub mod Outbox
