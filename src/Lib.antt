-- ===== src/Lib.antt =====
-- The verification library of AUREXIS, a trading platform that turns market data into candidate
-- signals, decides whether an entry may be made, and hands commands to an agent at the broker.
--
-- How the parts interact. Ticks become bars of several timeframes (brain/market_data/
-- multi_timeframe.py over brain/bar_builder.py). The signal pipeline (brain/pipeline.py) turns closed
-- bars into indicators (brain/indicators.py), a reading of the structure (brain/structure.py), a
-- regime (brain/regime.py) and a setup (brain/strategy/setups.py), and scores them
-- (brain/scoring.py) into a candidate signal. The risk service (backend/services/risk_service.py)
-- reads the rows of the account and lets the risk engine (backend/risk/) decide on the signal, with
-- the lots that the sizing policy gives. The execution service (backend/services/
-- execution_service.py) makes a command (backend/execution/commands.py) of an approved decision,
-- sends it to the simulated broker (backend/execution/simulator.py) and lets reconciliation
-- (backend/execution/reconciliation.py) compare the broker's positions with the rows. The trading
-- pipeline (backend/services/trading_pipeline.py) runs all of this for each tick, and freezes an
-- account whose positions differ. Beside it, the risk gate (backend/services/risk_gate.py) decides in
-- front of the engine on the same configuration and account; an agent fetches, acknowledges and
-- completes commands (backend/services/agent_commands.py), and its heartbeats
-- (backend/services/mt5_session.py) say whether it is there.
--
-- Which file models what.
--   Base          the names that all files share: lists, signed integers and dictionaries over the
--                 native numbers. `Key` is the interface of a dictionary's key type.
--   Decimal       Python's `decimal` as the code uses it: a coefficient and a scale, results
--                 rounded half-even to 28 digits, comparison exact, exceptions as `Checked`.
--   Brain         MarketData (brain/market_data/types.py: Tick, Bar), BarBuilder (process_tick,
--                 seed_closed_bars), BarManager (MultiTimeframeBarManager), Indicators, Structure
--                 (detect_swing_points, analyze_structure), Regime (classify_regime), Setups
--                 (detect_setup), Scoring (the scores, and in Signals the choice), Config,
--                 SignalPipeline (SignalPipeline.process), Interfaces (CandidateSignal).
--   Risk          Config, Sizing, States, Snapshot, and Gates and Engine for RiskEngine.evaluate: each
--                 numbered check is a gate of Gates.Checks, which gives the decision that the code
--                 returns there or none to go on, and `evaluate` takes the first.
--   Execution     Commands (transition_to), Reports, Simulator (execute_command), Reconciliation
--                 (reconcile).
--   Ws            AgentManager and Manager (backend/ws/): the connections of agents and of clients.
--   Services      Database (the rows of backend/db/models/), RiskService, ExecutionService (in
--                 Operations its two methods, in AgentResults record_agent_execution_result),
--                 TradingPipeline (in Cycle process_tick, a function for each stretch between two
--                 returns of the code), Mt5Session, AgentCommands (the table, and in Operations
--                 create, claim, acknowledge, complete and fail), and RiskGate, with the checks of
--                 evaluate_risk_gate in Checks.
--   Tests         runs at concrete inputs, and each result applied at one.
--
-- State. A service's state is an explicit value: an operation takes it and gives it back with its
-- result. An exception is a value too: in Services.AgentCommands what was written before it stays
-- written in the session; in the execution service and the trading pipeline a transaction that fails
-- leaves the database as it was at the last commit. The rows of a table stand in the order of their
-- creation.
--
-- What stands outside is an argument: the clock, fresh identifiers, the age of a tick for the risk
-- engine (which computes it in floats), `json.dumps`, `str.upper`, the reading of UUIDs, which sockets
-- accept and take a message, and what the queries of the risk gate return.
--
-- Bounds and fuel. Times are whole microseconds from the epoch. Decimals are finite, without NaN and
-- infinities, and their exponent is at most 0 and never too small for the context; the columns of
-- the database keep them as they are. Two routines of Decimal recurse on fuel: the one that counts
-- the digits past the precision, with the number itself as fuel, and the search for the scale of a
-- quotient, where the denominator and the precision give enough (Decimal.Division.shift_fuel). All
-- other loops are structural.
--
-- Not modelled: logging and texts for a reader; routes, sessions of the database, caches and sockets,
-- which are I/O; the events' payloads and their broadcast; the backtest; the services of strategies,
-- news and normalization; the agent's protocol; accounts and licences; the frontend and the
-- terminal's side, which are in other languages.
pub mod Base
pub mod Decimal
pub mod Brain
pub mod Risk
pub mod Execution
pub mod Services
pub mod Ws
pub mod Tests
