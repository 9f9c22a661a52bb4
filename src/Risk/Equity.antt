-- ===== src/Risk/Equity.antt =====
-- The limits of src/risk/risk_manager.cpp that are shares of the equity.
use predictive_trading_lab.Prelude.{◌≡◌, false, arith}
use predictive_trading_lab.Prelude.Double.{Double, ◌<?◌, d0}
use predictive_trading_lab.Oms.Order.{Order}
use predictive_trading_lab.Oms.Manager.{OrderManager}
use predictive_trading_lab.Portfolio.{Portfolio, equity}
use predictive_trading_lab.Risk.{
  RiskLimits, RiskContext, is_stale, has_no_mark, is_drawn_down, goes_short, is_large_order,
  is_large_position, is_concentrated, is_over_gross, is_over_net, is_off_collar, is_unaffordable,
  is_over_turnover, check_order,
}

module _ {D : Type 0} where
  -- Other limits on the drawdown and on the shares of the equity.
  abbrev pub relaxed : RiskLimits D → D → D → D → D → D → RiskLimits D
  relaxed limits drawdown concentration gross net turnover = record limits {
    drawdown_pct = drawdown;
    concentration = concentration;
    gross_leverage = gross;
    net_leverage = net;
    daily_turnover = turnover;
  }

module _ {D : Type 0} ⦃F : Double D⦄ where
  -- Where neither the equity nor its peak is positive, as with an equity that is NaN and no peak,
  -- the limits on drawdown, concentration, leverage and turnover decide nothing: the decision is
  -- the same for any other values of the five.
  pub equity_limits_skipped :
      (limits : RiskLimits D) (order : Order D) (pf : Portfolio D) (orders : OrderManager D)
      (ctx : RiskContext D) (drawdown concentration gross net turnover : D)
      → (d0 <? equity pf) ≡ false
      → (d0 <? ctx.peak_equity) ≡ false
      → check_order (relaxed limits drawdown concentration gross net turnover) order pf orders ctx
        ≡ check_order limits order pf orders ctx
  unfolding check_order is_stale has_no_mark is_drawn_down goes_short is_large_order
      is_large_position is_concentrated is_over_gross is_over_net is_off_collar is_unaffordable
      is_over_turnover
  equity_limits_skipped limits order pf orders ctx drawdown concentration gross net turnover poor
        fresh =
      ground arith
