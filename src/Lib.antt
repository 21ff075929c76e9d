-- ===== src/Lib.antt =====
-- A trading system whose server runs bots on market data under automatic safety stops. This
-- library models the parts of the server that decide whether a bot may trade and who may write
-- market data, and proves their contracts.
--
-- The parts and how they interact
-- - A trading halt restricts a scope (a bot, an account, a workspace) for one cause, at one of
--   four levels. Risk checks raise and relax halts; the Owner releases them over HTTP.
-- - A bot has a desired and an actual state and at most one live run. Its commands cancel open
--   orders, write audit rows, and read the halts: an emergency stop keeps a bot from starting.
-- - An emergency stop, which a person asks for, raises a halt and stops the bots under it.
-- - A worker that fetches market data holds a lease on a feed. Its token fences writes: a worker
--   that lost the lease cannot write any more. Recovery ends the leases of workers that died.
-- - A bot's strategy, which its stored definition resolves to, turns a series of candles into a
--   signal.
-- - The risk gate judges a signal by the limits of a risk profile: it sizes the order, records
--   what each rule says, and turns delays and losses beyond their hard limits into trading halts.
-- - The order flow places an order unless a halt blocks it, fills it at once at the latest price,
--   and keeps the position, the ledger and the snapshots of the account's value.
-- - Stored candles are searched for gaps, in which the market was open and no candle is stored.
-- - Halts, bots and leases announce what happens as a system event with an outbox row, in one
--   transaction. The notification worker delivers the outbox to its recipients, retries what
--   failed with a growing delay, and gives up with a notice after the fifth attempt.
--
-- Which file models which code
-- - Events/Publish: app/notifications/application/publish_event.py (`publish_system_event`) and
--   the rows of app/models/audit.py. Events/Pairing: its theorems.
-- - Halt/Types, Announce, Transitions: app/trading/application/trading_halt.py, its tables of
--   levels, `_announce`, `activate_or_escalate`, `deescalate_one_step` and the queries.
--   Halt/Release: the two direct releases and the endpoints of app/api/routes/trading_halts.py.
--   Halt/Invariant, Keys, Escalation, Relaxation, Runs, Owner: the theorems, by what they are
--   about.
-- - Bot/Types, Startup, Commands, Failure: app/trading/application/bot_lifecycle.py, with the
--   rows of app/models/strategy.py and app/models/trading.py. Bot/Strategy: live_strategies.py of
--   the same directory. Bot/Orders: `cancel_order` and `_set_status` of order_flow.py there.
--   Bot/Lockstep, Cancelling, Transitions, Outcomes, Stopping, Starting, Failing, Blocking: the
--   theorems.
-- - Emergency/Stop: app/trading/application/emergency_stop.py up to its commit. Emergency/Loop,
--   Outcome: the theorems, which join those of halts and bots. Bot/Rows and Halt/Fresh help them.
-- - Lease/Types: app/market_data/infrastructure/models.py and the keys of leases.py there.
--   Lease/Store, Recover, Expiry: the operations of `LeaseStore`. Lease/Notice: stop_notice.py.
--   Lease/Tokens, Steps, Fencing, Exclusion, Whole, Rollback, Recovery: the theorems.
-- - Money/Decimal: Python's `decimal.Decimal` in its default context. Money/Order: its order.
-- - Trade/Types: the commands of app/trading/application/order_flow.py and the rows of
--   app/models/trading.py, instruments.py and market_data.py. Trade/Position, Fill, Place: the
--   functions of order_flow.py. Trade/Market: its prices and costs, and account_valuation.py.
--   Trade/Guards, Halted, Holdings, Applied, Postings, Simulated, Executed, Books, Runs: the
--   theorems.
-- - Risk/Types, Sizing, Checks, Evaluate, Sync: app/trading/application/risk_gate.py, its rules,
--   `_evaluate_conservative_v1` and `_sync_trading_halts`. Risk/Queries, Signals: its queries and
--   `evaluate_signal`. Risk/Indicators: `average_true_range` of
--   app/market_data/application/indicators.py. Risk/Locks, Wording:
--   app/trading/application/risk_locks.py. Risk/Agreement, Limits, Approval, Approved, Reflected,
--   Recorded, Halting, Blocking, Locked: the theorems; Blocking and Locked join those of halts
--   and orders.
-- - Strategy/Donchian: app/trading/application/donchian_breakout_signal.py, the generator that
--   live_strategies.py resolves to. Strategy/Windows, Events, Answers: the theorems.
-- - Notify/Types, Wording, Deliver: app/notifications/application/deliver_notifications.py.
--   Notify/Weight, Steps, Batch, Polls: the theorems.
-- - Prelude: lists as tables, results for exceptions, equality, numbers as text. The Tests
--   modules apply the theorems at concrete data.
-- - Coverage/Gaps: `find_internal_gaps` and `is_expected_market_time` of
--   app/market_data/domain/coverage.py. Coverage/Exact: the theorems.
--
-- How the code is represented
-- A function that mutates the database takes it as a record of tables and returns it; an
-- exception is the error case of a result, and an operation that raises commits nothing. Uuids
-- are numbers; a new one is the next unused number, which is what the code relies on, that they
-- are distinct. Times are numbers of microseconds, in the risk gate and the notifications of
-- whole seconds since 1970. The clock, the locks that were free, rows of parts that are only read
-- and the text of a uuid are arguments. Statuses that the database restricts to a list are data
-- types.
-- A decimal number has a sign, a coefficient and a scale. Results are rounded to 28 digits, ties
-- to even; comparisons are exact. Division by zero, for which Python raises, is kept out by the
-- code's own tests, and by bars having a positive length. Numbers of the rules' dictionary are
-- read already, and a recorded result holds its number in place of its text. A decimal column
-- keeps what is written to it.
-- Three loops run on fuel. The text of a number and the count of its digits have the number plus
-- one, and each digit divides it by ten. The search for missing times between two candles has the
-- distance between them, of which each step takes a positive part. All other loops are over
-- lists.
--
-- What is not modelled
-- The closing of positions after an emergency stop; the reconciliation of the ledger; the
-- evaluation of a bot on its latest bar, the strategies under research, backtests; exchange
-- clients, streams and other I/O; authentication; the HTTP layer but for the two release
-- endpoints; the classification of a series' coverage; the user interface. What a caller of
-- `guarded_write` does to other tables than the work's own is not part of the model, nor is the
-- index that keeps a signal from being judged twice under one profile.
pub mod Prelude
pub mod Money
pub mod Events
pub mod Halt
pub mod Bot
pub mod Emergency
pub mod Strategy
pub mod Trade
pub mod Risk
pub mod Notify
pub mod Lease
pub mod Coverage
