-- ===== src/Accounting/Journal/Examples.antt =====
-- The theorems of the journal at concrete inputs, for src/accounting/journal.cpp.
use predictive_trading_lab.Prelude.{[], ◌∷◌, All, arith}
use predictive_trading_lab.Prelude.Double.{Fixed, fixed}
use predictive_trading_lab.Core.Types.{Timestamp, Side, buy, sell}
use predictive_trading_lab.Core.Time.{no_times}
use predictive_trading_lab.Oms.Fill.{Fill, taker}
use predictive_trading_lab.Accounting.Journal.{Journal, empty_journal, fill_entry, match_trades}
use predictive_trading_lab.Accounting.Journal.Order.{
  call_fill, call_match, run, IsChronicle, journal-IsChronicle,
}
use predictive_trading_lab.Accounting.Journal.Trades.{IsFrom, IsForward, match_trades-IsForward}

abbrev filled_at : Timestamp → Side → Fill Fixed
filled_at time side = record {
  order_id = 1;
  parent_id = 0;
  instrument = 4;
  side = side;
  price = fixed.lit 20 1;
  quantity = fixed.lit 10 1;
  commission = fixed.lit 1 1;
  exchange_fee = fixed.lit 0 1;
  liquidity = taker;
  times = record no_times { fill_time = time };
  arrival_price = fixed.lit 20 1;
}

-- A round trip: ten shares are bought at 100 and sold at 200.
abbrev round_trip : Journal Fixed
round_trip = record {
  entries = fill_entry (filled_at 100 buy) ∷ fill_entry (filled_at 200 sell) ∷ [];
  fills = filled_at 100 buy ∷ filled_at 200 sell ∷ [];
  trades = [];
}

journal-IsChronicle_example :
    IsChronicle
      (run
        (call_fill (filled_at 200 buy) ∷ call_fill (filled_at 100 sell) ∷ call_match ∷ [])
        empty_journal).entries
journal-IsChronicle_example =
    journal-IsChronicle
      (call_fill (filled_at 200 buy) ∷ call_fill (filled_at 100 sell) ∷ call_match ∷ [])

match_trades-IsForward_example : All IsForward (match_trades round_trip).trades
unfolding IsFrom
match_trades-IsForward_example =
    match_trades-IsForward round_trip (ground arith, (ground arith, tt))
