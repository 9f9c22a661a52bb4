-- ===== src/Market/Events.antt =====
-- Bars and quotes: include/ptl/market/bar.hpp, include/ptl/market/quote.hpp and
-- src/market/events.cpp; trades, corporate actions and the stream's events are in Market/Event. A feed latency is not negative, so that check is not modelled.
pub mod Causal
use predictive_trading_lab.Prelude.{
  ◌+◌, ◌-◌, Bool, true, false, not, ◌&&◌, ◌||◌, ◌==◌, leb, if◌then◌else◌, Result, ok, err,
}
use predictive_trading_lab.Prelude.Double.{Double, ◌⊕◌, ◌⊖◌, ◌⊗◌, ◌<?◌, lit, d0, is_finite}
use predictive_trading_lab.Core.Types.{
  Timestamp, Duration, is_set, InstrumentId, invalid_instrument,
}
use predictive_trading_lab.Core.Time.{EventTime}

pub record Bar (D : Type 0) : Type 0 where
  pub instrument : InstrumentId
  pub open_time : Timestamp
  pub close_time : Timestamp
  pub time : EventTime
  pub open_price : D
  pub high_price : D
  pub low_price : D
  pub close_price : D
  pub volume : D

pub record Quote (D : Type 0) : Type 0 where
  pub instrument : InstrumentId
  pub time : EventTime
  pub bid : D
  pub ask : D
  pub bid_size : D
  pub ask_size : D

pub data EventError : Type 0 where
  no_instrument timestamp_unset close_not_after_open bad_price bad_volume : EventError
  low_above_high open_out_of_range close_out_of_range bad_timeframe crossed bad_size : EventError
  bad_ratio bad_amount : EventError

module _ {D : Type 0} ⦃F : Double D⦄ where
  unfoldable pub sane_price : D → Bool
  sane_price p = is_finite p && (d0 <? p)

  abbrev pub is_outside : D → D → D → Bool
  is_outside low_price high_price price = (price <? low_price) || (high_price <? price)

  unfoldable pub make :
      InstrumentId
      → Timestamp
      → Timestamp
      → D
      → D
      → D
      → D
      → D
      → Duration
      → Result EventError (Bar D)
  make instrument open_time close_time open_price high_price low_price close_price volume
        feed_latency =
      if instrument == invalid_instrument
      then err no_instrument
      else if not (is_set open_time) || not (is_set close_time)
      then err timestamp_unset
      else if leb close_time open_time
      then err close_not_after_open
      else if not (sane_price open_price)
          || not (sane_price high_price)
          || not (sane_price low_price)
          || not (sane_price close_price)
      then err bad_price
      else if not (is_finite volume) || (volume <? d0)
      then err bad_volume
      else if high_price <? low_price
      then err low_above_high
      else if is_outside low_price high_price open_price
      then err open_out_of_range
      else if is_outside low_price high_price close_price
      then err close_out_of_range
      else ok (record {
        instrument = instrument;
        open_time = open_time;
        close_time = close_time;
        time = record { exchange_time = close_time; receive_time = close_time + feed_latency };
        open_price = open_price;
        high_price = high_price;
        low_price = low_price;
        close_price = close_price;
        volume = volume;
      })

  unfoldable pub from_left_edge :
      InstrumentId → Timestamp → Duration → D → D → D → D → D → Duration → Result EventError (Bar D)
  from_left_edge instrument open_time timeframe open_price high_price low_price close_price volume
        feed_latency =
      if leb timeframe 0
      then err bad_timeframe
      else make instrument open_time (open_time + timeframe) open_price high_price low_price
          close_price volume feed_latency

  -- The timeframe is no longer than the time since the least timestamp.
  unfoldable pub from_right_edge :
      InstrumentId → Timestamp → Duration → D → D → D → D → D → Duration → Result EventError (Bar D)
  from_right_edge instrument close_time timeframe open_price high_price low_price close_price volume
        feed_latency =
      if leb timeframe 0
      then err bad_timeframe
      else make instrument (close_time - timeframe) close_time open_price high_price low_price
          close_price volume feed_latency

  unfoldable pub create :
      InstrumentId → Timestamp → D → D → D → D → Duration → Result EventError (Quote D)
  create instrument exchange_time bid bid_size ask ask_size feed_latency =
      if instrument == invalid_instrument
      then err no_instrument
      else if not (is_set exchange_time)
      then err timestamp_unset
      else if not (sane_price bid) || not (sane_price ask)
      then err bad_price
      else if ask <? bid
      then err crossed
      else if not (is_finite bid_size)
          || not (is_finite ask_size)
          || (bid_size <? d0)
          || (ask_size <? d0)
      then err bad_size
      else ok (record {
        instrument = instrument;
        time = record {
          exchange_time = exchange_time;
          receive_time = exchange_time + feed_latency;
        };
        bid = bid;
        ask = ask;
        bid_size = bid_size;
        ask_size = ask_size;
      })
