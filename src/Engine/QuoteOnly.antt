-- ===== src/Engine/QuoteOnly.antt =====
-- A feed of quotes without bars, for `handle_quote` of src/engine/engine.cpp.
use predictive_trading_lab.Prelude.Double.{Double}
use predictive_trading_lab.Market.Events.{Quote}
use predictive_trading_lab.Oms.Fill.{Fill}
use predictive_trading_lab.Execution.QuoteRouter.{MarketState, default_state}
use predictive_trading_lab.Execution.Models.{CostModel, FillConfig}
use predictive_trading_lab.Execution.Broker.Matching.{Round, Outcome, filled}
use predictive_trading_lab.Engine.{quote_state}

module _ {D : Type 0} ⦃F : Double D⦄ where
  -- The market state of an instrument that has had a quote and no bar.
  abbrev pub quoted_only : Quote D → MarketState D
  quoted_only q = quote_state default_state q

  abbrev IsUnfilled : Outcome D → Type 0
  IsUnfilled (filled f left) = ⊥
  IsUnfilled _ = Unit

  module _ {R : Type 0} (costs : CostModel D R) (cfg : FillConfig D) where
    abbrev Unfilled : Round D R × Outcome D → Type 0
    Unfilled matched = IsUnfilled matched.1
