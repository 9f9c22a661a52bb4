-- ===== src/Engine.antt =====
-- The event loop: include/ptl/engine/engine.hpp and src/engine/engine.cpp, in a backtest, where the
-- clock is the simulated one and the source is a replay. The collaborators are borrowed, so the
-- state of a run is theirs and the engine's; their configurations are arguments.
pub mod Registry
pub mod Callbacks
pub mod Sink
pub mod Handlers
pub mod Loop
mod Examples
pub mod Gate
pub mod Follows
pub mod Gated
pub mod Quiet
pub mod QuoteOnly
use predictive_trading_lab.Prelude.{
  ℕ, zero, suc, ◌+◌, ◌-◌, ◌^◌, Bool, true, false, not, ◌&&◌, if◌then◌else◌, Option, none, some,
  List, [], ◌∷◌, Result, ok, err, Text, is_ok,
}
use predictive_trading_lab.Prelude.Int.{ℤ, pos, sub_ℕ}
use predictive_trading_lab.Prelude.Map.{Map, lookup, insert}
use predictive_trading_lab.Prelude.Double.{Double, ◌⊕◌, ◌⊖◌, ◌⊗◌, ◌⊘◌, ◌<?◌, abs, lit, d0}
use predictive_trading_lab.Core.Types.{Timestamp, no_timestamp, is_set, InstrumentId}
use predictive_trading_lab.Core.Clock.{SimulatedClock}
use predictive_trading_lab.Market.Events.{Bar, Quote}
use predictive_trading_lab.Market.Event.{
  MarketEvent, bar_event, quote_event, trade_event, action_event, session_event, timer_event,
  CorporateAction, split_action, cash_dividend_action, SessionEvent, session_open, session_close,
  exchange_time_of,
}
use predictive_trading_lab.Market.Source.{ReplaySource, next}
use predictive_trading_lab.Oms.Order.{OrderId, Order, with_arrival_price}
use predictive_trading_lab.Oms.Fill.{Fill}
use predictive_trading_lab.Oms.State.{OrderState, pending_new, working, cancelled, rejected}
use predictive_trading_lab.Oms.Manager.{OrderManager, ManagerError, transition, apply_fill, next_id}
use predictive_trading_lab.Oms.Manager
use predictive_trading_lab.Portfolio.{
  Portfolio, PortfolioError, apply, apply_split, apply_dividend, mark_last, mark_from_quote, equity,
  snapshot, unrealized_pnl, identity_holds, default_tolerance,
}
use predictive_trading_lab.Risk.{
  RiskLimits, RiskContext, RejectCode, RiskDecision, approved, check_order, record_code,
  code_number,
}
use predictive_trading_lab.Execution.QuoteRouter.{MarketState, default_state}
use predictive_trading_lab.Execution.Models.{FillConfig, CostModel, LatencyModel, mid}
use predictive_trading_lab.Execution.Broker.{Broker, BrokerError}
use predictive_trading_lab.Execution.Broker
use predictive_trading_lab.Execution.Broker.Matching.{on_market}
use predictive_trading_lab.Accounting.Journal.{
  Journal, JournalEntry, order_submitted, append, record_fill, record_risk_rejection, match_trades,
  reconcile, balances,
}
use predictive_trading_lab.Engine.Callbacks.{
  EngineError, refused_by_risk, from_manager, from_broker, from_portfolio, from_clock, not_started,
  Context, Script, done, look, ask_id, place, withdraw, Strategy,
}

pub record EngineConfig (D : Type 0) : Type 0 where
  pub snapshot_on_session_close : Bool
  pub snapshot_on_bar : Bool
  pub halt_on_risk_rejection : Bool
  pub default_interval_volume : D

pub record RunSummary (D : Type 0) : Type 0 where
  pub events_processed : ℕ
  pub bars : ℕ
  pub quotes : ℕ
  pub orders_submitted : ℕ
  pub orders_rejected : ℕ
  pub fills : ℕ
  pub chain_violations : ℕ
  pub first_event : Timestamp
  pub last_event : Timestamp
  pub final_equity : D
  pub reconciled : Bool

-- The state of the engine and of what it borrows. `violations` is `g_chain_violations`.
pub record Engine (D R S : Type 0) : Type 0 where
  pub clock : SimulatedClock
  pub source : ReplaySource D
  pub strategy : S
  pub broker : Broker D R
  pub pf : Portfolio D
  pub orders : OrderManager D
  pub rejections : Map ℕ
  pub journal : Journal D
  pub summary : RunSummary D
  pub started : Bool
  pub states : Map (MarketState D)
  pub last_update : Map Timestamp
  pub peak_equity : D
  pub turnover_today : D
  pub violations : ℕ

-- What the parts of the run are made of: the models, the limits, the strategy and the texts that
-- the order manager keeps as reasons.
pub record Setup (D R S : Type 0) : Type 0 where
  pub costs : CostModel D R
  pub latency : LatencyModel R
  pub fills : FillConfig D
  pub limits : RiskLimits D
  pub config : EngineConfig D
  pub strategy : Strategy D S
  pub broker_message : BrokerError → Text
  pub strategy_cancel : Text

-- What a method leaves and answers.
abbrev pub Answer : Type 0 → Type 0 → Type 0 → Type 0 → Type 0
Answer D R S A = Engine D R S × Result EngineError A

-- `Duration::max()`.
abbrev pub max_duration : ℤ
max_duration = pos (2 ^ 63 - 1)

abbrev pub is_approved : RejectCode → Bool
is_approved approved = true
is_approved _ = false

unfoldable pub age_of : Timestamp → Option Timestamp → ℤ
age_of now none = max_duration
age_of now (some updated) = sub_ℕ now updated

module _ {D : Type 0} ⦃F : Double D⦄ where
  abbrev pub empty_summary : RunSummary D
  empty_summary = record {
    events_processed = 0;
    bars = 0;
    quotes = 0;
    orders_submitted = 0;
    orders_rejected = 0;
    fills = 0;
    chain_violations = 0;
    first_event = no_timestamp;
    last_event = no_timestamp;
    final_equity = d0;
    reconciled = false;
  }

  -- `state_[key]`.
  abbrev pub state_of : Map (MarketState D) → InstrumentId → MarketState D
  state_of states instrument = elim (lookup instrument states) [
    | none ↦ default_state
    | some st ↦ st
  ]

  -- The state that a bar and a quote leave for their instrument.
  unfoldable pub bar_state : EngineConfig D → MarketState D → Bar D → MarketState D
  bar_state config st bar =
      let priced : MarketState D =
        if st.has_quote then st else record st { bid = bar.close_price; ask = bar.close_price } in
      let range = bar.high_price ⊖ bar.low_price in
      record priced {
        interval_volume =
            if d0 <? config.default_interval_volume
            then config.default_interval_volume
            else bar.volume;
        intraday_volatility = if d0 <? bar.close_price then abs range ⊘ bar.close_price else d0;
      }

  unfoldable pub quote_state : MarketState D → Quote D → MarketState D
  quote_state st q = record st {
    bid = q.bid;
    ask = q.ask;
    bid_size = q.bid_size;
    ask_size = q.ask_size;
    has_quote = true;
  }

  unfoldable pub submitted_entry : RiskContext D → Order D → JournalEntry D
  submitted_entry ctx order = record {
    ts = ctx.now;
    kind = order_submitted;
    order_id = order.id;
    instrument = order.instrument;
    side = order.side;
    quantity = order.quantity;
    price = ctx.reference_price;
    cash_delta = d0;
    cost = d0;
  }

  module _ {R S : Type 0} where
    unfoldable pub risk_context : Engine D R S → InstrumentId → RiskContext D
    risk_context e instrument = elim (lookup instrument e.states) [
      | none ↦ record {
        now = e.clock.now;
        data_age = max_duration;
        reference_price = d0;
        peak_equity = e.peak_equity;
        turnover_today = e.turnover_today;
      }
      | some st ↦ record {
        now = e.clock.now;
        data_age = age_of e.clock.now (lookup instrument e.last_update);
        reference_price = if st.has_quote then mid st else st.bid;
        peak_equity = e.peak_equity;
        turnover_today = e.turnover_today;
      }
    ]
