-- ===== src/Risk/Approval.antt =====
-- Which orders `RiskManager::check` of src/risk/risk_manager.cpp approves.
use predictive_trading_lab.Prelude.{◌≡◌, ◌⊎◌, true, false, none, some}
use predictive_trading_lab.Prelude.Int.{pos, ltb_ℤ}
use predictive_trading_lab.Prelude.Double.{
  Double, ◌⊕◌, ◌⊖◌, ◌⊘◌, ◌<?◌, ◌≤?◌, abs, d0, d1, is_finite,
}
use predictive_trading_lab.Core.Types.{sell, to_bps}
use predictive_trading_lab.Oms.Order.{Order}
use predictive_trading_lab.Oms.Manager.{OrderManager}
use predictive_trading_lab.Portfolio.{Portfolio, equity, buying_power, short_slack}
use predictive_trading_lab.Risk.{
  RiskLimits, RiskContext, is_stale, has_no_mark, is_drawn_down, projected, goes_short,
  order_notional, projected_notional, is_large_order, is_large_position, is_concentrated,
  projected_gross, projected_net, is_over_gross, is_over_net, is_off_collar, is_unaffordable,
  is_over_turnover,
}

module _ {D : Type 0} ⦃F : Double D⦄ (limits : RiskLimits D) (order : Order D) (pf : Portfolio D)
    (orders : OrderManager D) (ctx : RiskContext D) where
  -- What is promised of an approved order, limit by limit. `x <? y` is false of a NaN.
  pub record IsCompliant : Type 0 where
    pub data_fresh : ltb_ℤ (pos limits.data_staleness) ctx.data_age ≡ false
    pub price_finite : is_finite ctx.reference_price ≡ true
    pub price_positive : (ctx.reference_price ≤? d0) ≡ false
    pub drawdown :
        ((d0 <? ctx.peak_equity) ≡ false)
        ⊎ (is_finite (equity pf) ≡ false)
        ⊎ ((limits.drawdown_pct <? d1 ⊖ equity pf ⊘ ctx.peak_equity) ≡ false)
    pub shorting :
        (limits.allow_short ≡ true)
        ⊎ ((projected limits order pf orders ctx <? short_slack) ≡ false)
    pub order_size : (limits.order_notional <? order_notional limits order pf orders ctx) ≡ false
    pub position_size :
        (limits.position_notional <? projected_notional limits order pf orders ctx) ≡ false
    pub concentration :
        ((d0 <? equity pf) ≡ false)
        ⊎ ((limits.concentration <? projected_notional limits order pf orders ctx ⊘ equity pf)
            ≡ false)
    pub gross_leverage :
        ((d0 <? equity pf) ≡ false)
        ⊎ ((limits.gross_leverage <? projected_gross limits order pf orders ctx ⊘ equity pf)
            ≡ false)
    pub net_leverage :
        ((d0 <? equity pf) ≡ false)
        ⊎ ((limits.net_leverage <? projected_net limits order pf orders ctx ⊘ equity pf) ≡ false)
    pub collar :
        (order.limit_price ≡ none)
        ⊎ ((price : D) × (order.limit_price ≡ some price)
            × ((limits.collar <? abs (to_bps price ctx.reference_price)) ≡ false))
    pub buying_power_left :
        (order.side ≡ sell)
        ⊎ ((buying_power pf <? order_notional limits order pf orders ctx) ≡ false)
    pub turnover :
        ((d0 <? equity pf) ≡ false)
        ⊎ ((d0 <? limits.daily_turnover) ≡ false)
        ⊎ ((limits.daily_turnover
              <? (ctx.turnover_today ⊕ order_notional limits order pf orders ctx) ⊘ equity pf)
            ≡ false)

  abbrev ArePassed : Type 0
  ArePassed =
      (is_stale limits order pf orders ctx ≡ false)
      × (has_no_mark limits order pf orders ctx ≡ false)
      × (is_drawn_down limits order pf orders ctx ≡ false)
      × (goes_short limits order pf orders ctx ≡ false)
      × (is_large_order limits order pf orders ctx ≡ false)
      × (is_large_position limits order pf orders ctx ≡ false)
      × (is_concentrated limits order pf orders ctx ≡ false)
      × (is_over_gross limits order pf orders ctx ≡ false)
      × (is_over_net limits order pf orders ctx ≡ false)
      × (is_off_collar limits order pf orders ctx ≡ false)
      × (is_unaffordable limits order pf orders ctx ≡ false)
      × (is_over_turnover limits order pf orders ctx ≡ false)
