-- ===== src/Portfolio/Trace.antt =====
-- Sequences of calls on a portfolio (src/portfolio/portfolio.cpp).
use predictive_trading_lab.Prelude.{List, [], ◌∷◌}
use predictive_trading_lab.Prelude.Double.{Double}
use predictive_trading_lab.Core.Types.{InstrumentId, Timestamp}
use predictive_trading_lab.Market.Events.{Quote}
use predictive_trading_lab.Oms.Fill.{Fill}
use predictive_trading_lab.Portfolio.{
  Portfolio, apply, apply_split, apply_dividend, mark, mark_last, mark_from_quote, snapshot,
}

-- The calls that change a portfolio.
pub data Call (D : Type 0) : Type 0 where
  fills : Fill D → Call D
  splits : InstrumentId → D → Call D
  dividends : InstrumentId → D → Call D
  marks_at : InstrumentId → D → D → Call D
  marks_last : InstrumentId → D → Call D
  marks_quote : Quote D → Call D
  snapshots : Timestamp → Call D

module _ {D : Type 0} ⦃F : Double D⦄ where
  unfoldable pub step : Portfolio D → Call D → Portfolio D
  step pf (fills fill) = (apply pf fill).0
  step pf (splits instrument ratio) = (apply_split pf instrument ratio).0
  step pf (dividends instrument per_share) = apply_dividend pf instrument per_share
  step pf (marks_at instrument bid ask) = mark pf instrument bid ask
  step pf (marks_last instrument price) = mark_last pf instrument price
  step pf (marks_quote q) = mark_from_quote pf q
  step pf (snapshots ts) = (snapshot pf ts).0

  unfoldable pub run : Portfolio D → List (Call D) → Portfolio D
  unfolding step
  run pf [] = pf
  run pf (call ∷ calls) = run (step pf call) calls
