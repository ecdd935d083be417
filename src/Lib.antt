-- ===== src/Lib.antt =====
-- PMKit: verification of the trading toolkit for prediction markets.
--
-- The program. A run of PMKit links strategies with an executor. The strategies place orders, the
-- executor (live, paper or backtest) turns them into fills, and ledgers keep the account. The paper
-- executor answers for its account after a crash: every change of the account is an entry of an
-- append-only list, the entries go to storage one by one, and a restart rebuilds the ledger from
-- them.
--
-- The files and the code they model.
--   Base/          Helpers: tests, lists, texts, integers, dictionaries (`HashMap`), and `Reply` and
--                  `Method`, the form of a Rust method on `&mut self` that returns `Result` or
--                  panics. A method that returns an error keeps what it has written so far.
--   Decimals       The interface of the crate rust_decimal, an instance argument of every file that
--                  computes with amounts. Decimals/Millionths is a concrete instance, decimals with
--                  six digits after the point, in which the laws hold and most tests compute;
--                  Decimals/Whole is another, the integers.
--   Domain         `Side`, `Outcome` and `Money` (crates/pmkit-book/src/lib.rs,
--                  crates/pmkit-market/src/lib.rs, crates/pmkit-money/src/lib.rs). Identifiers of
--                  markets, orders and strategies are their texts.
--   Event, Exec    `MarketEvent` (crates/pmkit-event/src/lib.rs), `PlaceOrder` and `TimeInForce`
--                  (crates/pmkit-exec/src/lib.rs).
--   Accounting     `PortfolioLedger`, its `apply_fill`, `settle`, `unrealized_pnl`, `equity`, and
--                  `aggregate_exposure` (crates/pmkit-accounting/src/lib.rs); the definitions stand
--                  in Accounting and Accounting/Exposure, the proofs in the other child modules.
--   Paper          `PaperLedger` (crates/pmkit-paper/src/ledger.rs). Paper/Events has the entries
--                  and the state, Paper/Ledger `new`, `append` and `apply`, Paper/Equality the
--                  derived equality of entries, Paper/Reconstruct `deduplicate` and `reconstruct`,
--                  Paper/Orders the methods that the executor calls. `settle` of that file is
--                  `settle_position`. Paper/History says what ledgers accepted appends lead to,
--                  Paper/Runs what ledgers a run has in which appends may be refused, and
--                  Paper/Storage adds to the former what storage holds; the other child modules are
--                  proofs.
--   Live           Admission of orders in the live engine. Live/Rates has the order rate windows and
--                  Live/Admission the risk checks (crates/pmkit/src/live_risk.rs), and the limits of
--                  a market (crates/pmkit-exec/src/lib.rs), whose rules all modes share;
--                  Live/Overrides has the overrides of the risk limits
--                  (crates/pmkit-runtime/src/lib.rs). `FixedOrderWindow::record` is `record_order`.
--                  Live/Requests says what a sequence of calls of `try_accept` is.
--   Book           `OrderBookL2` and `Position` (crates/pmkit-book/src/lib.rs); Book/Levels has the
--                  helpers that scan all levels, and `apply_fill` on positions
--                  (crates/pmkit-book/src/book.rs), Book/Sizing the clamping of post-only prices
--                  (crates/pmkit-book/src/risk.rs); the other child modules are proofs.
--   Math           Math/Fill has `walk_book` (crates/pmkit-math/src/fill.rs), Math/Fees the fees by
--                  category (crates/pmkit-math/src/fees.rs) and the fee model of the simulator
--                  (crates/pmkit-sim/src/fee.rs); Math/Walk and Math/Bounds are proofs.
--   Sim            `SimEngine` (crates/pmkit-sim/src/lib.rs). Sim/Events has the state, Sim/Engine
--                  construction, expiry and submission, Sim/Updates what a new book does, `cancel`
--                  and the lists of orders. `RestingOrder` and `DelayedOrder` are `SimOrder`, `new`
--                  is `new_sim`. The other child modules are proofs; Sim/Runs says what a run is.
--   Risk           `LiveRiskState` (crates/pmkit/src/live_risk.rs), which sums what the portfolio
--                  holds and has lost. Risk/State has the marks, Risk/Updates the account facts and
--                  the sums. `update_book`, `apply_fill` and `apply_settlement` of that type are
--                  `update_risk_book`, `apply_risk_fill` and `apply_risk_settlement`. Event/Account
--                  has the account events and their identities (crates/pmkit-event/src/lib.rs).
--                  Risk/Durable reads facts back from stored records, over an interface of JSON
--                  values and of the parsing of decimals.
--   Wallet         `reconstruct_wallet` (crates/pmkit-store/src/wallet_reducer.rs) and its types
--                  (crates/pmkit-store/src/log.rs and wallet.rs). `apply` and `apply_event` of that
--                  file are `apply_wallet_log` and `apply_chain_event`.
--
-- How the parts interact. `PaperLedger.apply` calls `apply_fill` and `settle` of the account and
-- turns their errors into its own; the executor's calls all go through `append`. The live engine
-- asks the risk check and then the rate windows before it submits an order; the profit and loss of
-- that check is the one that the risk state reads. The simulator walks its books with `walk_book`,
-- prices fills with its fee model and refuses orders that the market limits refuse. Accounts and
-- risk state take fills from it or from the venue as `MarketEvent::Fill`.
--
-- Numbers. A decimal is a value of the interface, a multiple of a smallest step. Sums are exact;
-- products and quotients are rounded to the step, as the crate rounds at its scale, so that a
-- theorem that distributes a product assumes that the products it is about need no rounding
-- (`IsUnrounded`). Results that exceed the crate's coefficient, where it panics or keeps fewer
-- digits, are not modelled; a division by zero is. Sequence numbers, order numbers and fill counts
-- are natural numbers: a run does not reach 2^64 entries. Timestamps are integers; the sum of
-- two saturates at the bounds of i64 and the count of a window at that of u32, as in the code. The
-- checked products of a fee give none only on overflow, so a fee is always some.
--
-- Termination. Every loop is structural recursion on a list. `show`, the printing of a number, runs
-- on fuel that is larger than the number, and that this is enough is what `show_injective` rests on.
--
-- Order of iteration. A `HashMap` iterates in an unspecified order; here it is the order of first
-- insertion. Sums do not depend on it, and where an error names the first entry that is found, the
-- entry is one of those that the code may name.
--
-- Not modelled. `rebuild_engine` and the snapshot `state` of the paper ledger, the paper executor and
-- its wire format, the other sizing helpers and the floating-point signals, the runtime (tasks,
-- locks, channels), the live engine but for the parts above, the stores, the tape and the venue
-- adapters.
pub mod Accounting
pub mod Base
pub mod Book
pub mod Decimals
pub mod Domain
pub mod Event
pub mod Exec
pub mod Live
pub mod Math
pub mod Paper
pub mod Risk
pub mod Sim
pub mod Wallet
