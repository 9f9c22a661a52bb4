-- ===== src/Oms/Fill.antt =====
-- include/ptl/oms/fill.hpp and the arithmetic of src/oms/order.cpp: execution reports.
use predictive_trading_lab.Prelude.{not, ◌||◌, if◌then◌else◌}
use predictive_trading_lab.Prelude.Double.{
  Double, ◌⊕◌, ◌⊖◌, ◌⊗◌, ◌⊘◌, ◌≤?◌, negate, lit, d0, d1, is_finite,
}
use predictive_trading_lab.Core.Types.{InstrumentId, Side, signed}
use predictive_trading_lab.Core.Time.{LifecycleTimes}
use predictive_trading_lab.Oms.Order.{OrderId}

pub data Liquidity : Type 0 where
  taker maker : Liquidity

pub record Fill (D : Type 0) : Type 0 where
  pub order_id : OrderId
  pub parent_id : OrderId
  pub instrument : InstrumentId
  pub side : Side
  pub price : D
  pub quantity : D
  pub commission : D
  pub exchange_fee : D
  pub liquidity : Liquidity
  pub times : LifecycleTimes
  pub arrival_price : D

module _ {D : Type 0} ⦃F : Double D⦄ where
  unfoldable pub total_cost : Fill D → D
  total_cost f = f.commission ⊕ f.exchange_fee

  -- Positive is a cost, for either side.
  unfoldable pub slippage_bps : Fill D → D
  slippage_bps f =
      if not (is_finite f.arrival_price) || (f.arrival_price ≤? d0)
      then d0
      else (f.price ⊘ f.arrival_price ⊖ d1) ⊗ lit 10000 1 ⊗ signed f.side

  unfoldable pub cash_delta : Fill D → D
  cash_delta f = negate (f.price ⊗ f.quantity ⊗ signed f.side) ⊖ f.commission ⊖ f.exchange_fee

  -- `Fill::signed_quantity`.
  unfoldable pub signed_fill : Fill D → D
  signed_fill f = f.quantity ⊗ signed f.side
