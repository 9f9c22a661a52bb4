-- ===== src/Execution/QuoteRouter.antt =====
-- include/ptl/execution/quote_router.hpp, its code in src/execution/quote_book.cpp, and the market
-- state of include/ptl/execution/models.hpp: the prices that an order executes against.
pub mod Halts
use predictive_trading_lab.Prelude.{Bool, true, false, not, ◌&&◌, if◌then◌else◌, Option, none, some}
use predictive_trading_lab.Prelude.Double.{Double, d0}
use predictive_trading_lab.Core.Types.{Timestamp, InstrumentId}
use predictive_trading_lab.Market.Events.{Bar, Quote}
use predictive_trading_lab.Execution.QuoteModels.{
  QuoteState, executable, is_halted, closed, one_minute,
}
use predictive_trading_lab.Execution.QuoteBook.{QuoteBook, absent_state, state_at}

pub record MarketState (D : Type 0) : Type 0 where
  pub bid : D
  pub ask : D
  pub bid_size : D
  pub ask_size : D
  pub interval_volume : D
  pub average_daily_volume : D
  pub intraday_volatility : D
  pub has_quote : Bool
  pub volume_known : Bool

pub data PriceSource : Type 0 where
  from_quote synthetic_from_bar no_source : PriceSource

pub record RoutedMarket (D : Type 0) : Type 0 where
  pub state : MarketState D
  pub source : PriceSource
  pub quote_state : QuoteState D
  pub executable : Bool

module _ {D : Type 0} ⦃F : Double D⦄ where
  -- A market state and a routed market as their default members leave them.
  abbrev pub default_state : MarketState D
  default_state = record {
    bid = d0;
    ask = d0;
    bid_size = d0;
    ask_size = d0;
    interval_volume = d0;
    average_daily_volume = d0;
    intraday_volatility = d0;
    has_quote = false;
    volume_known = true;
  }

  abbrev pub unrouted : QuoteState D → RoutedMarket D
  unrouted s = record {
    state = default_state;
    source = no_source;
    quote_state = s;
    executable = false;
  }

  abbrev pub quoted_state : Option (Quote D) → MarketState D
  quoted_state none = default_state
  quoted_state (some q) = record default_state {
    bid = q.bid;
    ask = q.ask;
    bid_size = q.bid_size;
    ask_size = q.ask_size;
    has_quote = true;
    volume_known = false;
  }

  -- Of the state that the book answers.
  unfoldable pub route_state : QuoteState D → RoutedMarket D
  route_state s = if not (executable s) then unrouted s else record {
    state = quoted_state s.quote;
    source = from_quote;
    quote_state = s;
    executable = true;
  }

  unfoldable pub route : QuoteBook D → InstrumentId → Timestamp → RoutedMarket D
  route b instrument now = route_state (state_at b instrument now).1

  unfoldable pub route_from_bar : Bar D → D → RoutedMarket D
  route_from_bar bar volatility = record {
    state = record default_state {
      bid = bar.close_price;
      ask = bar.close_price;
      interval_volume = bar.volume;
      intraday_volatility = volatility;
    };
    source = synthetic_from_bar;
    quote_state = absent_state one_minute closed;
    executable = true;
  }

  unfoldable pub route_preferring_quote : QuoteBook D → Bar D → D → Timestamp → RoutedMarket D
  route_preferring_quote b bar volatility now =
      let quoted = route b bar.instrument now in
      if quoted.executable
      then record quoted {
        state = record (quoted.state) {
          interval_volume = bar.volume;
          intraday_volatility = volatility;
          volume_known = true;
        };
      }
      else if quoted.quote_state.present && is_halted quoted.quote_state.trading_state
      then quoted
      else route_from_bar bar volatility
