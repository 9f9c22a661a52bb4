-- ===== src/Engine/Callbacks.antt =====
-- What a strategy sees and may do: include/ptl/engine/strategy.hpp. A callback that is handed the
-- order sink is a script of the sink's calls, each of which continues with what the call answers;
-- the calendar of the context, which never changes, is left to the strategy.
use predictive_trading_lab.Prelude.{Bool, Result, Text}
use predictive_trading_lab.Core.Types.{Timestamp}
use predictive_trading_lab.Core.Clock.{ClockError}
use predictive_trading_lab.Market.Events.{Bar, Quote}
use predictive_trading_lab.Market.Event.{Trade}
use predictive_trading_lab.Oms.Order.{OrderId, Order}
use predictive_trading_lab.Oms.Fill.{Fill}
use predictive_trading_lab.Oms.Manager.{OrderManager, ManagerError}
use predictive_trading_lab.Portfolio.{Portfolio, PortfolioError}
use predictive_trading_lab.Risk.{RiskLimits, RejectCode}
use predictive_trading_lab.Execution.Broker.{BrokerError}

-- The errors of the engine: those of the parts it calls, and its own.
pub data EngineError : Type 0 where
  refused_by_risk : RejectCode → EngineError
  from_manager : ManagerError → EngineError
  from_broker : BrokerError → EngineError
  from_portfolio : PortfolioError → EngineError
  from_clock : ClockError → EngineError
  from_strategy : Text → EngineError
  not_started : EngineError

-- `StrategyContext`: the clock, the portfolio, the orders and the limits.
pub record Context (D : Type 0) : Type 0 where
  pub now : Timestamp
  pub pf : Portfolio D
  pub orders : OrderManager D
  pub limits : RiskLimits D

-- The calls of `OrderSink` that a callback makes, and the state `S` that it leaves the strategy in.
pub data Script (D S : Type 0) : Type 0 where
  done : S → Script D S
  look : (Context D → Script D S) → Script D S
  ask_id : (OrderId → Script D S) → Script D S
  place : Order D → (Result EngineError OrderId → Script D S) → Script D S
  withdraw : OrderId → (Result EngineError Bool → Script D S) → Script D S

-- `IStrategy`.
pub record Strategy (D S : Type 0) : Type 0 where
  pub on_start : Context D → S → Result EngineError S
  pub on_bar : Bar D → S → Script D S
  pub on_quote : Quote D → S → Script D S
  pub on_trade : Trade D → S → Script D S
  pub on_fill : Fill D → Context D → S → S
  pub on_session_open : Timestamp → S → Script D S
  pub on_session_close : Timestamp → S → Script D S
  pub on_stop : Context D → S → S
