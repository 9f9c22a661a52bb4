-- ===== src/Lib.antt =====
-- A verification library of the predictive trading lab: the C++ library that replays market data,
-- trains and validates predictors, and trades on paper or live.
--
-- The parts that are modelled, from the data to the order, and the code that each file is about:
--
-- - Prelude: lists, texts, results, maps and numbers that the models share. Prelude/Double is the
--   interface of `double` and a fixed-point carrier that computes, Prelude/Map is `std::map`.
-- - Core: include/ptl/core/types.hpp, include/ptl/core/time.hpp and src/core/time.cpp. Core/Types
--   has sides, prices and timestamps, Core/Time the stamps of an order's life and their
--   validation, Core/Time/Chain what the validation shows; Core/Clock is the simulated clock of
--   include/ptl/core/clock.hpp and src/core/clock.cpp, and Core/Instruments the table of symbols and
--   their ids of src/core/instrument_table.cpp.
-- - Market: include/ptl/market/bar.hpp, quote.hpp, trade.hpp, corporate_action.hpp and event.hpp
--   beside it, with their code in src/market/events.cpp: bars and quotes in Market/Events, the
--   others and the variant of all events in Market/Event. Market/Session is
--   include/ptl/market/session.hpp, and Market/Source is src/market/source.cpp: the replay of a
--   stream (Market/Source/Replay proves what it delivers), the merge of streams
--   (Market/Source/Merge) and the events that open and close a session (Market/Source/Sessions).
--   Market/Symbols is src/market/symbol_mapper.cpp: what a vendor's symbol means at an instant, which
--   uses the table of Core/Instruments, and in Market/Symbols/Normaliser the quotes that are made of
--   the records of include/ptl/market/quote_stream.hpp. Market/Validator is the check of a stream in
--   src/market/validator.cpp.
-- - Execution: include/ptl/execution/quote_models.hpp (Execution/QuoteModels), the book of quotes
--   (Execution/QuoteBook, for include/ptl/execution/quote_book.hpp) and the choice of the prices
--   that an order executes against (Execution/QuoteRouter, for
--   include/ptl/execution/quote_router.hpp); the code of all three is src/execution/quote_book.cpp.
--   The simulated broker is Execution/Models (src/execution/models.cpp: costs and latencies),
--   Execution/Broker (the orders that wait, submission, cancelling and external fills of
--   src/execution/broker.cpp) and Execution/Broker/Matching (`on_market`, the loop over the orders
--   that wait). It makes the fills that the order manager and the portfolio book.
-- - Oms: orders and fills (Oms/Order and Oms/Fill, for include/ptl/oms/order.hpp,
--   include/ptl/oms/fill.hpp and src/oms/order.cpp) and the order manager (Oms/Manager, for
--   include/ptl/oms/order_manager.hpp and src/oms/order_manager.cpp, with the states of an order
--   in Oms/State). An order is made with a
--   chain of stamps from Core; the manager keeps orders and books fills on them.
-- - Portfolio: positions (Portfolio/Holdings, for src/portfolio/position.cpp) and the portfolio
--   (Portfolio, for src/portfolio/portfolio.cpp). It books the same fills as the order manager and
--   is marked by the quotes of Market.
-- - Risk: src/risk/risk_manager.cpp. The check reads an order, the portfolio and, for the orders
--   in flight, the order manager.
-- - Accounting: the journal of src/accounting/journal.cpp (Accounting/Journal), with the round trips
--   that it matches from fills (Accounting/Journal/Trades).
-- - Engine: src/engine/engine.cpp, which composes the parts above. Engine is its state, with the
--   callbacks of a strategy in Engine/Callbacks; Engine/Sink is `Engine::Sink`, through which a
--   strategy submits and cancels, with the gate of Risk before the order manager and the broker;
--   Engine/Handlers is what is done with each kind of event, and Engine/Loop the loop, `begin`,
--   `step`, `finish` and `run`. The proofs are Engine/Loop/Chunks and Engine/Loop/Ends, Engine/Gate,
--   Engine/Follows and Engine/Gated for the orders at the venue, Engine/Quiet for callbacks, and
--   Engine/QuoteOnly for feeds of quotes. Engine/Registry is src/engine/strategy.cpp, which makes a
--   strategy from its name.
-- - Algo: the schedules of src/algo/schedule.cpp (Algo/Schedule), the slices of time in which an
--   order is worked.
-- - Live: src/live/connection.cpp: the heartbeat monitor (Live/Heartbeat), the schedule of
--   reconnects (Live/Supervisor), the connection that uses both (Live/Connection, with its states and
--   messages in Live/Message) and the filter of what it polls (Live/Receive).
-- - Validation: src/validation/walk_forward.cpp and include/ptl/validation/fold.hpp: the folds of
--   walk-forward validation, with purging and embargo (Validation/WalkForward), and the guard of
--   the holdout (Validation/Holdout). They read the intervals of observations of Core.
--
-- How code becomes a model. A class is a record of its members, and a method that changes them is
-- a function that returns the record it leaves, also where it reports an error. `Result<T>` is
-- Result with an enumeration of the errors that the method can return; the texts of messages,
-- their context and `to_string` are left out. A loop over a container is recursion over its list,
-- and a loop body, an early return or a shared test is a function of its own, named in the module
-- of its method. Sequences of calls are lists of a type Call, with `step` and `run`, so an
-- invariant is stated of every state that calls can reach.
--
-- Numbers. A timestamp is a signed 64-bit count of nanoseconds and is held as its distance from
-- the least one, so `kNoTimestamp` is 0; a duration is a natural number, and a difference that may
-- be negative is an integer. Sums past the end of the range, undefined in the source, are not cut
-- off. The id counter of the order manager wraps at 2 ^ 64. Counters of statistics are natural
-- numbers. A `double` is an element of any type with the operations of Double: nothing is assumed
-- of them, so NaN, infinities and rounding are covered; a theorem that needs a fact of IEEE 754
-- has it as a hypothesis, and its example proves the fact for the fixed-point carrier.
--
-- What the code gets from outside is an argument: the readings of the clock, the answers of the
-- transport and the messages it holds, in the order in which a method asks for them; for the
-- session events what the calendar answers, and for the broker the draws of the generator of
-- random numbers, with `pow` and `exp` (the record Numerics). A strategy is any set of callbacks.
-- A callback that is given the sink is a program (Script) that looks at the context, asks for an
-- id, submits and cancels, and goes on with each answer, so it can do what a C++ strategy can do
-- to the engine; the engine runs it on its own state. An exception out of the clock ends the loop
-- with an error of its own.
--
-- Fuel. The loop of `split` is given one round more than there are observations; each round moves
-- its start on by at least one, and a start past the end stops it, which is proved to be enough.
-- The loop of `run` is given chunks of 1024 events; a chunk that is not the last takes at least one
-- event, so one more than there are events are enough, which is proved too. The merge of streams
-- runs as many rounds as there are events, as the source does. All else is recursion over data.
--
-- Not modelled: the other subsystems (the calendar, the paper and live brokers and sessions, the
-- algorithms that use the schedules, sizing, and the registries of experiments), code that is
-- floating-point numerics throughout (features, models, optimisation, analytics), and input and
-- output (vendors, configuration, logs, reports). Of the modelled files, hashes and texts.
pub mod Prelude
pub mod Core
pub mod Oms
pub mod Validation
pub mod Live
pub mod Portfolio
pub mod Risk
pub mod Market
pub mod Execution
pub mod Accounting
pub mod Engine
pub mod Algo
