-- ===== src/Execution/Broker/Matching.antt =====
-- `make_fill`, `on_market` and `on_quote_update` of src/execution/broker.cpp: the orders that wait
-- at the venue against the state of a market.
pub mod Step
pub mod Bounds
use predictive_trading_lab.Prelude.{
  ℕ, ◌+◌, Bool, true, false, not, ◌&&◌, ◌||◌, ◌==◌, ltb, if◌then◌else◌, Option, none, some, List,
  [], ◌∷◌, Result, ok, err,
}
use predictive_trading_lab.Prelude.Double.{
  Double, ◌⊕◌, ◌⊖◌, ◌⊗◌, ◌<?◌, ◌≤?◌, lit, d0, fmax, is_finite,
}
use predictive_trading_lab.Core.Types.{Timestamp, InstrumentId, Side, buy, sell, sign_of, apply_bps}
use predictive_trading_lab.Core.Time.{validate_chain}
use predictive_trading_lab.Oms.Order.{
  Order, TimeInForce, fill_or_kill, immediate_or_cancel, has_value, needs_stop,
  is_marketable_against,
}
use predictive_trading_lab.Oms.Fill.{Fill, Liquidity, taker}
use predictive_trading_lab.Execution.QuoteModels.{
  QuoteCondition, stale, crossed, TradingState, is_halted,
}
use predictive_trading_lab.Execution.QuoteRouter.{MarketState, RoutedMarket}
use predictive_trading_lab.Execution.Models.{FillConfig, CostModel, touch_of}
use predictive_trading_lab.Execution.Broker.{
  PendingOrder, ExecutionStats, BrokerError, bad_fill_price, bad_fill_quantity, broken_chain,
  Broker, dust, remaining_of, fill_of,
}

-- What the loop of `on_market` carries from one order to the next.
pub record Round (D R : Type 0) : Type 0 where
  pub stats : ExecutionStats D
  pub slippage_rng : R
  pub budget : D

-- What becomes of an order: it is erased, it rests, it fills and is erased or rests, or its fill is
-- refused, which ends the loop.
pub data Outcome (D : Type 0) : Type 0 where
  erased : Outcome D
  rests : PendingOrder D → Outcome D
  filled : Fill D → Option (PendingOrder D) → Outcome D
  failed : BrokerError → PendingOrder D → Outcome D

-- How much of an order the market lets it take: nothing while it waits, or a quantity; and whether
-- the size at the touch or the budget of the interval cut it.
pub data Allowance (D : Type 0) : Type 0 where
  waits : Bool → Bool → Allowance D
  allows : D → Bool → Bool → Allowance D

abbrev pub bump : Bool → ℕ → ℕ
bump b n = if b then n + 1 else n

abbrev pub is_stale : QuoteCondition → Bool
is_stale stale = true
is_stale _ = false

abbrev pub is_crossed : QuoteCondition → Bool
is_crossed crossed = true
is_crossed _ = false

abbrev pub is_fok : TimeInForce → Bool
is_fok fill_or_kill = true
is_fok _ = false

abbrev pub is_ioc : TimeInForce → Bool
is_ioc immediate_or_cancel = true
is_ioc _ = false

-- What the loop leaves: the round, the orders, and the fills or the error.
abbrev pub Matched : Type 0 → Type 0 → Type 0
Matched D R = Round D R × List (PendingOrder D) × Result BrokerError (List (Fill D))

module _ {D : Type 0} where
  abbrev pub add_fill :
      Fill D → Result BrokerError (List (Fill D)) → Result BrokerError (List (Fill D))
  add_fill fill (ok later) = ok (fill ∷ later)
  add_fill fill (err e) = err e

  -- An error ends the loop, and the fills of the orders before are lost with it.
  abbrev pub after_outcome :
      {R : Type 0} → Round D R → Outcome D → List (PendingOrder D) → Matched D R → Matched D R
  after_outcome v erased pending later = later
  after_outcome v (rests p) pending later = (later.0, p ∷ later.1, later.2)
  after_outcome v (filled fill none) pending later = (later.0, later.1, add_fill fill later.2)
  after_outcome v (filled fill (some p)) pending later =
      (later.0, p ∷ later.1, add_fill fill later.2)
  after_outcome v (failed e p) pending later = (v, p ∷ pending, err e)

module _ {D : Type 0} ⦃F : Double D⦄ where
  -- The touch, and the reference price of a fill.
  unfoldable pub touch_price : MarketState D → Side → D
  touch_price state side = if state.has_quote then touch_of state side else state.bid

  -- A stop that triggers has a stop price, as `make` of the order ensures.
  unfoldable pub stop_hit : Side → Option D → D → Bool
  stop_hit side none touch = false
  stop_hit buy (some stop_price) touch = stop_price ≤? touch
  stop_hit sell (some stop_price) touch = touch ≤? stop_price

  abbrev pub is_dormant : PendingOrder D → Bool
  is_dormant p = needs_stop p.order.type && not p.stop_triggered

  abbrev pub displayed_size : MarketState D → Side → D
  displayed_size state buy = state.ask_size
  displayed_size state sell = state.bid_size

  -- The cap at the size that is displayed: no quantity where it is zero, else the quantity and
  -- whether it is cut.
  unfoldable pub cap_displayed : FillConfig D → MarketState D → Side → D → Option (D × Bool)
  cap_displayed cfg state side want =
      let displayed = displayed_size state side in
      if not state.has_quote
      then some (want, false)
      else if d0 <? displayed
      then some (
          if cfg.respect_displayed_size && (displayed <? want)
          then (displayed, true)
          else (want, false))
      else if cfg.respect_displayed_size
      then none
      else some (want, false)

  -- The cap at what is left of the budget of the interval.
  unfoldable pub cap_budget : MarketState D → D → D → Bool → Allowance D
  cap_budget state budget allowed displayed_cut =
      if (d0 <? budget) && (budget <? allowed)
      then if budget ≤? d0 then waits displayed_cut true else allows budget displayed_cut true
      else if state.volume_known && (state.interval_volume ≤? d0)
      then waits displayed_cut false
      else if allowed ≤? d0
      then waits displayed_cut false
      else allows allowed displayed_cut false

  unfoldable pub allowance : FillConfig D → MarketState D → D → Side → D → Allowance D
  allowance cfg state budget side want = elim (cap_displayed cfg state side want) [
    | none ↦ waits false false
    | some capped ↦ cap_budget state budget capped.0 capped.1
  ]

  abbrev pub count_caps : Bool → Bool → ExecutionStats D → ExecutionStats D
  count_caps displayed_cut budget_cut s = record s {
    displayed_size_capped = bump displayed_cut s.displayed_size_capped;
    participation_capped = bump budget_cut s.participation_capped;
  }

  -- Not the commission, which is counted where the fill is made.
  unfoldable pub make_fill :
      (D → D → D) → Order D → D → D → Timestamp → Liquidity → Result BrokerError (Fill D)
  make_fill commission order price quantity now liquidity =
      let fill = fill_of order price quantity now (commission quantity price) d0 liquidity in
      if not (is_finite price) || (price ≤? d0)
      then err bad_fill_price
      else if not (is_finite quantity) || (quantity ≤? d0)
      then err bad_fill_quantity
      else if has_value (validate_chain fill.times)
      then err broken_chain
      else ok fill

  abbrev pub count_fill : MarketState D → D → D → D → Fill D → ExecutionStats D → ExecutionStats D
  count_fill state impact reference quantity fill s = record s {
    total_commission = s.total_commission ⊕ fill.commission;
    filled_from_quote = bump state.has_quote s.filled_from_quote;
    filled_from_bar = bump (not state.has_quote) s.filled_from_bar;
    total_impact_cost = s.total_impact_cost ⊕ impact ⊗ lit 1 10000 ⊗ reference ⊗ quantity;
    fills = s.fills + 1;
  }

  -- The order after a fill of `quantity`: whether it is done, and what it has filled.
  abbrev pub is_done : PendingOrder D → D → Bool
  is_done p quantity = p.order.quantity ≤? p.filled ⊕ quantity ⊕ dust

  abbrev pub rest_of : PendingOrder D → D → Option (PendingOrder D)
  rest_of p quantity =
      if is_done p quantity
      then none
      else if is_ioc p.order.tif
      then none
      else some (record p { filled = p.filled ⊕ quantity })

  abbrev pub count_refusal : QuoteCondition → TradingState → ExecutionStats D → ExecutionStats D
  count_refusal condition trading_state s = record s {
    rejected_stale_quote = bump (is_stale condition) s.rejected_stale_quote;
    rejected_crossed = bump (is_crossed condition) s.rejected_crossed;
    rejected_halted = bump (is_halted trading_state) s.rejected_halted;
  }

  module _ {R : Type 0} (costs : CostModel D R) (cfg : FillConfig D) where
    -- Costs move the price against the trader, by half a spread where no quote gives it.
    abbrev pub fill_price : MarketState D → Round D R → PendingOrder D → D → D
    fill_price state v p quantity =
        let half = if state.has_quote then d0 else costs.half_spread state in
        let impact = costs.market_impact quantity state in
        let slip = costs.stochastic_slippage v.slippage_rng in
        apply_bps (touch_price state p.order.side) (half ⊕ impact ⊕ slip.0) (sign_of p.order.side)

    -- From the price on: `p` is to take `quantity`.
    unfoldable pub execute :
        MarketState D → Timestamp → Round D R → PendingOrder D → D → Round D R × Outcome D
    execute state now v p quantity =
        let drawn : Round D R = record v {
          slippage_rng = (costs.stochastic_slippage v.slippage_rng).1;
        } in
        let price = fill_price state v p quantity in
        elim (make_fill costs.commission p.order price quantity now taker) [
          | err e ↦ (drawn, failed e p)
          | ok fill ↦
              let reference = touch_price state p.order.side in
              let impact = costs.market_impact quantity state in
              let counted = count_fill state impact reference quantity fill v.stats in
              (
                record drawn {
                  stats = record counted {
                    partial_fills = bump (not (is_done p quantity)) counted.partial_fills;
                  };
                  budget = fmax d0 (v.budget ⊖ quantity);
                },
                filled fill (rest_of p quantity),
              )
        ]

    -- From the allowance on, which fill-or-kill takes in full or not at all.
    abbrev pub take_allowed :
        MarketState D → Timestamp → Round D R → PendingOrder D → Allowance D → Round D R × Outcome D
    take_allowed state now v p (waits cut by_budget) =
        (record v { stats = count_caps cut by_budget v.stats }, rests p)
    take_allowed state now v p (allows quantity cut by_budget) =
        let counted = count_caps cut by_budget v.stats in
        if is_fok p.order.tif && (quantity ⊕ dust <? remaining_of p)
        then (record v { stats = record counted { fok_killed = counted.fok_killed + 1 } }, erased)
        else execute state now (record v { stats = counted }) p quantity

    -- From the quantity that is wanted on.
    unfoldable pub take :
        MarketState D → Timestamp → Round D R → PendingOrder D → Round D R × Outcome D
    take state now v p =
        if remaining_of p ≤? d0
        then (v, erased)
        else take_allowed state now v p (allowance cfg state v.budget p.order.side (remaining_of p))

    abbrev pub match_live :
        MarketState D → Timestamp → Round D R → PendingOrder D → Round D R × Outcome D
    match_live state now v p =
        if is_marketable_against p.order (touch_price state p.order.side)
        then take state now v p
        else (
          record v { stats = record (v.stats) { passive_no_fill = v.stats.passive_no_fill + 1 } },
          rests p,
        )

    -- The body of the loop.
    unfoldable pub match_order :
        InstrumentId
        → MarketState D
        → Timestamp
        → Round D R
        → PendingOrder D
        → Round D R × Outcome D
    match_order instrument state now v p =
        if not (p.order.instrument == instrument) || ltb now p.arrival_time
        then (v, rests p)
        else if not (is_dormant p)
        then match_live state now v p
        else if stop_hit p.order.side p.order.stop_price (touch_price state p.order.side)
        then match_live state now
            (record v {
              stats = record (v.stats) { stops_triggered = v.stats.stops_triggered + 1 };
            })
            (record p { stop_triggered = true })
        else (v, rests p)

    unfoldable pub match_orders :
        InstrumentId
        → MarketState D
        → Timestamp
        → Round D R
        → List (PendingOrder D)
        → Round D R × List (PendingOrder D) × Result BrokerError (List (Fill D))
    match_orders instrument state now v [] = (v, [], ok [])
    match_orders instrument state now v (p ∷ pending) =
        let matched = match_order instrument state now v p in
        after_outcome matched.0 matched.1 pending
          (match_orders instrument state now matched.0 pending)

    unfoldable pub on_market :
        Broker D R
        → InstrumentId
        → MarketState D
        → Timestamp
        → Broker D R × Result BrokerError (List (Fill D))
    on_market b instrument state now =
        let start : Round D R = record {
          stats = b.stats;
          slippage_rng = b.slippage_rng;
          budget = state.interval_volume ⊗ cfg.max_participation_rate;
        } in
        let matched = match_orders instrument state now start b.pending in
        (
          record b {
            pending = matched.1;
            stats = matched.0.stats;
            slippage_rng = matched.0.slippage_rng;
          },
          matched.2,
        )

    unfoldable pub on_quote_update :
        Broker D R
        → InstrumentId
        → RoutedMarket D
        → Timestamp
        → Broker D R × Result BrokerError (List (Fill D))
    on_quote_update b instrument routed now =
        if routed.executable then on_market b instrument routed.state now else (
          record b {
            stats =
                count_refusal routed.quote_state.condition routed.quote_state.trading_state b.stats;
          },
          ok [],
        )
