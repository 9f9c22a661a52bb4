-- ===== src/Market/Event.antt =====
-- The events of the market stream: include/ptl/market/trade.hpp,
-- include/ptl/market/corporate_action.hpp, include/ptl/market/event.hpp and their code in
-- src/market/events.cpp. A feed latency is not negative, so that check is not modelled.
use predictive_trading_lab.Prelude.{ℕ, ◌+◌, not, ◌||◌, ◌==◌, if◌then◌else◌, Option, Result, ok, err}
use predictive_trading_lab.Prelude.Double.{Double, ◌⊗◌, ◌≤?◌, d0, d1, is_finite}
use predictive_trading_lab.Core.Types.{
  Timestamp, Duration, is_set, InstrumentId, invalid_instrument, Side,
}
use predictive_trading_lab.Core.Time.{EventTime}
use predictive_trading_lab.Market.Events.{
  Bar, Quote, EventError, no_instrument, timestamp_unset, bad_price, bad_size, bad_ratio,
  bad_amount, sane_price,
}

pub record Trade (D : Type 0) : Type 0 where
  pub instrument : InstrumentId
  pub time : EventTime
  pub price : D
  pub size : D
  pub aggressor : Option Side

pub data CorporateActionKind : Type 0 where
  split_action cash_dividend_action : CorporateActionKind

pub record CorporateAction (D : Type 0) : Type 0 where
  pub instrument : InstrumentId
  pub time : EventTime
  pub kind : CorporateActionKind
  pub split_ratio : D
  pub dividend_amount : D

pub data SessionEventKind : Type 0 where
  session_open session_close : SessionEventKind

pub record SessionEvent : Type 0 where
  pub time : EventTime
  pub kind : SessionEventKind

pub record TimerEvent : Type 0 where
  pub time : EventTime
  pub id : ℕ

pub data MarketEvent (D : Type 0) : Type 0 where
  bar_event : Bar D → MarketEvent D
  quote_event : Quote D → MarketEvent D
  trade_event : Trade D → MarketEvent D
  action_event : CorporateAction D → MarketEvent D
  session_event : SessionEvent → MarketEvent D
  timer_event : TimerEvent → MarketEvent D

module _ {D : Type 0} where
  unfoldable pub time_of : MarketEvent D → EventTime
  time_of (bar_event b) = b.time
  time_of (quote_event q) = q.time
  time_of (trade_event t) = t.time
  time_of (action_event c) = c.time
  time_of (session_event s) = s.time
  time_of (timer_event t) = t.time

  unfoldable pub exchange_time_of : MarketEvent D → Timestamp
  exchange_time_of e = (time_of e).exchange_time

  unfoldable pub receive_time_of : MarketEvent D → Timestamp
  receive_time_of e = (time_of e).receive_time

  unfoldable pub instrument_of : MarketEvent D → InstrumentId
  instrument_of (bar_event b) = b.instrument
  instrument_of (quote_event q) = q.instrument
  instrument_of (trade_event t) = t.instrument
  instrument_of (action_event c) = c.instrument
  instrument_of (session_event s) = invalid_instrument
  instrument_of (timer_event t) = invalid_instrument

module _ {D : Type 0} ⦃F : Double D⦄ where
  -- `Trade::create`.
  unfoldable pub create_trade :
      InstrumentId → Timestamp → D → D → Option Side → Duration → Result EventError (Trade D)
  create_trade instrument exchange_time price size aggressor feed_latency =
      if instrument == invalid_instrument
      then err no_instrument
      else if not (is_set exchange_time)
      then err timestamp_unset
      else if not (sane_price price)
      then err bad_price
      else if not (is_finite size) || (size ≤? d0)
      then err bad_size
      else ok (record {
        instrument = instrument;
        time = record {
          exchange_time = exchange_time;
          receive_time = exchange_time + feed_latency;
        };
        price = price;
        size = size;
        aggressor = aggressor;
      })

  unfoldable pub notional_value : Trade D → D
  notional_value t = t.price ⊗ t.size

  -- `CorporateAction::split`.
  unfoldable pub split_of : InstrumentId → Timestamp → D → Result EventError (CorporateAction D)
  split_of instrument effective ratio =
      if instrument == invalid_instrument
      then err no_instrument
      else if not (is_set effective)
      then err timestamp_unset
      else if not (is_finite ratio) || (ratio ≤? d0)
      then err bad_ratio
      else ok (record {
        instrument = instrument;
        time = record { exchange_time = effective; receive_time = effective };
        kind = split_action;
        split_ratio = ratio;
        dividend_amount = d0;
      })

  unfoldable pub cash_dividend :
      InstrumentId → Timestamp → D → Result EventError (CorporateAction D)
  cash_dividend instrument ex_date amount =
      if instrument == invalid_instrument
      then err no_instrument
      else if not (is_set ex_date)
      then err timestamp_unset
      else if not (is_finite amount) || (amount ≤? d0)
      then err bad_amount
      else ok (record {
        instrument = instrument;
        time = record { exchange_time = ex_date; receive_time = ex_date };
        kind = cash_dividend_action;
        split_ratio = d1;
        dividend_amount = amount;
      })
