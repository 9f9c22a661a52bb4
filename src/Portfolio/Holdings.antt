-- ===== src/Portfolio/Holdings.antt =====
-- `Position` of include/ptl/portfolio/position.hpp and src/portfolio/position.cpp: a holding of
-- one instrument and what it cost.
use predictive_trading_lab.Prelude.{Bool, true, false, not, ◌||◌, if◌then◌else◌}
use predictive_trading_lab.Prelude.Double.{
  Double, ◌⊕◌, ◌⊖◌, ◌⊗◌, ◌⊘◌, ◌<?◌, ◌≤?◌, ◌=?◌, negate, abs, d0, d1, fmin, is_finite,
}
use predictive_trading_lab.Core.Types.{InstrumentId}
use predictive_trading_lab.Oms.Fill.{Fill, total_cost, signed_fill}

pub record Position (D : Type 0) : Type 0 where
  pub instrument : InstrumentId
  pub quantity : D
  pub average_cost : D
  pub realized_pnl : D
  pub total_commission : D
  pub total_bought : D
  pub total_sold : D

abbrev agrees : Bool → Bool → Bool
agrees true b = b
agrees false b = not b

module _ {D : Type 0} ⦃F : Double D⦄ where
  -- A new position.
  abbrev pub position_in : InstrumentId → Position D
  position_in instrument = record {
    instrument = instrument;
    quantity = d0;
    average_cost = d0;
    realized_pnl = d0;
    total_commission = d0;
    total_bought = d0;
    total_sold = d0;
  }

  abbrev pub is_flat : Position D → Bool
  is_flat p = p.quantity =? d0

  abbrev pub is_long : Position D → Bool
  is_long p = d0 <? p.quantity

  abbrev pub is_short : Position D → Bool
  is_short p = p.quantity <? d0

  abbrev pub market_value : Position D → D → D
  market_value p mark = p.quantity ⊗ mark

  unfoldable pub unrealized_pnl : Position D → D → D
  unrealized_pnl p mark = if is_flat p then d0 else (mark ⊖ p.average_cost) ⊗ p.quantity

  abbrev pub gross_exposure : Position D → D → D
  gross_exposure p mark = abs p.quantity ⊗ mark

  -- The commission and the sums of what was bought and sold.
  unfoldable pub count_fill : Position D → Fill D → Position D
  unfolding total_cost signed_fill
  count_fill p fill =
      let delta = signed_fill fill in
      record p {
        total_commission = p.total_commission ⊕ total_cost fill;
        total_bought = if d0 <? delta then p.total_bought ⊕ delta else p.total_bought;
        total_sold = if d0 <? delta then p.total_sold else p.total_sold ⊕ negate delta;
      }

  abbrev pub opens : Position D → D → Bool
  opens p delta = (p.quantity =? d0) || agrees (d0 <? p.quantity) (d0 <? delta)

  -- Opening, or adding in the same direction: the average cost after it.
  abbrev pub blended_cost : Position D → D → D → D
  blended_cost p delta price =
      let denominator = p.quantity ⊕ delta in
      if not (denominator =? d0)
      then (p.average_cost ⊗ p.quantity ⊕ price ⊗ delta) ⊘ denominator
      else p.average_cost

  -- Reducing, closing or reversing: what it realises, and the average cost after it.
  abbrev pub realized_by : Position D → D → D → D
  realized_by p delta price =
      (price ⊖ p.average_cost)
      ⊗ fmin (abs delta) (abs p.quantity)
      ⊗ (if d0 <? p.quantity then d1 else negate d1)

  abbrev pub reduced_cost : Position D → D → D → D
  reduced_cost p delta price =
      if abs p.quantity <? abs delta
      then price
      else if p.quantity ⊕ delta =? d0
      then d0
      else p.average_cost

  -- `quantity_ = after`, and a flat position has no cost.
  abbrev pub settle_quantity : Position D → D → Position D
  settle_quantity p after = record p {
    quantity = after;
    average_cost = if after =? d0 then d0 else p.average_cost;
  }

  -- The position and what the fill realises.
  unfoldable pub apply : Position D → Fill D → Position D × D
  unfolding count_fill signed_fill
  apply p fill =
      let delta = signed_fill fill in
      let counted = count_fill p fill in
      if opens p delta
      then (
        settle_quantity (record counted { average_cost = blended_cost p delta fill.price })
            (p.quantity ⊕ delta),
        d0,
      )
      else let realized_now = realized_by p delta fill.price in
        (
          settle_quantity
              (record counted {
                realized_pnl = p.realized_pnl ⊕ realized_now;
                average_cost = reduced_cost p delta fill.price;
              })
              (p.quantity ⊕ delta),
          realized_now,
        )

  unfoldable pub apply_split : Position D → D → Position D
  apply_split p ratio = if not (is_finite ratio) || (ratio ≤? d0) then p else record p {
    quantity = p.quantity ⊗ ratio;
    average_cost = p.average_cost ⊘ ratio;
    total_bought = p.total_bought ⊗ ratio;
    total_sold = p.total_sold ⊗ ratio;
  }

  abbrev pub dividend_cash : Position D → D → D
  dividend_cash p per_share = per_share ⊗ p.quantity
