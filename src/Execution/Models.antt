-- ===== src/Execution/Models.antt =====
-- include/ptl/execution/models.hpp and src/execution/models.cpp: the costs, the latency and the
-- caps of the simulated venue. The broker uses the first two through their interfaces, which are
-- records here; `R` is the state of the generator of random numbers that a method draws from.
use predictive_trading_lab.Prelude.{◌+◌, Bool, not, ◌||◌, if◌then◌else◌}
use predictive_trading_lab.Prelude.Int.{pos, pos_part}
use predictive_trading_lab.Prelude.Double.{
  Double, ◌⊕◌, ◌⊖◌, ◌⊗◌, ◌⊘◌, ◌<?◌, ◌≤?◌, abs, lit, d0, fmax, is_finite,
}
use predictive_trading_lab.Core.Types.{Duration, Side, buy, sell}
use predictive_trading_lab.Execution.QuoteRouter.{MarketState}

pub record CostConfig (D : Type 0) : Type 0 where
  pub commission_per_share : D
  pub minimum_commission : D
  pub taker_fee_bps : D
  pub maker_rebate_bps : D
  pub stochastic_slippage_bps : D
  pub impact_coefficient : D
  pub impact_exponent : D
  pub cost_multiplier : D
  pub fallback_half_spread_bps : D

pub record LatencyConfig (D : Type 0) : Type 0 where
  pub market_data : Duration
  pub strategy_compute : Duration
  pub order_transmission : Duration
  pub exchange_processing : Duration
  pub acknowledgement : Duration
  pub jitter_sigma : D

pub record FillConfig (D : Type 0) : Type 0 where
  pub max_participation_rate : D
  pub respect_displayed_size : Bool
  pub passive_fill_ratio : D
  pub require_trade_through : Bool

-- `ICostModel` and `ILatencyModel`.
pub record CostModel (D R : Type 0) : Type 0 where
  pub commission : D → D → D
  pub half_spread : MarketState D → D
  pub market_impact : D → MarketState D → D
  pub stochastic_slippage : R → D × R

pub record LatencyModel (R : Type 0) : Type 0 where
  pub decision_to_arrival : R → Duration × R
  pub arrival_to_ack : R → Duration × R
  pub market_data_latency : Duration

-- What the standard models take from <cmath>, and the draw of a normal variate.
pub record Numerics (D R : Type 0) : Type 0 where
  pub pow : D → D → D
  pub exp : D → D
  pub draw_normal : D → D → R → D × R

module _ {D : Type 0} ⦃F : Double D⦄ where
  unfoldable pub mid : MarketState D → D
  mid s = (s.bid ⊕ s.ask) ⊗ lit 5 10

  unfoldable pub touch_of : MarketState D → Side → D
  touch_of s buy = s.ask
  touch_of s sell = s.bid

  unfoldable pub standard_commission : CostConfig D → D → D → D
  standard_commission cfg filled price =
      if filled ≤? d0
      then d0
      else let per_share = cfg.commission_per_share ⊗ filled in
        let fee = cfg.taker_fee_bps ⊗ lit 1 10000 ⊗ price ⊗ filled in
        (fmax per_share cfg.minimum_commission ⊕ fee) ⊗ cfg.cost_multiplier

  unfoldable pub standard_half_spread : CostConfig D → MarketState D → D
  standard_half_spread cfg state =
      if not state.has_quote
      then cfg.fallback_half_spread_bps ⊗ cfg.cost_multiplier
      else if not (is_finite (mid state)) || (mid state ≤? d0)
      then d0
      else (state.ask ⊖ state.bid) ⊗ lit 5 10 ⊘ mid state ⊗ lit 10000 1 ⊗ cfg.cost_multiplier

  module _ {R : Type 0} (N : Numerics D R) where
    -- The impact before the test of finiteness.
    unfoldable pub raw_impact : CostConfig D → D → MarketState D → D
    raw_impact cfg q state =
        let sigma =
          if d0 <? state.intraday_volatility then state.intraday_volatility else lit 1 100 in
        cfg.impact_coefficient
        ⊗ sigma
        ⊗ N.pow (q ⊘ state.interval_volume) cfg.impact_exponent
        ⊗ lit 10000 1

    unfoldable pub standard_market_impact : CostConfig D → D → MarketState D → D
    standard_market_impact cfg quantity state =
        let q = abs quantity in
        if (q ≤? d0) || (state.interval_volume ≤? d0)
        then d0
        else if not (is_finite (raw_impact cfg q state))
        then d0
        else raw_impact cfg q state ⊗ cfg.cost_multiplier

    unfoldable pub standard_slippage : CostConfig D → R → D × R
    standard_slippage cfg rng =
        let drawn = N.draw_normal d0 cfg.stochastic_slippage_bps rng in
        if cfg.stochastic_slippage_bps ≤? d0
        then (d0, rng)
        else (abs drawn.0 ⊗ cfg.cost_multiplier, drawn.1)

    unfoldable pub jittered : Duration → D → R → Duration × R
    jittered base sigma rng =
        let drawn = N.draw_normal d0 sigma rng in
        if sigma ≤? d0
        then (base, rng)
        else (pos_part (F.trunc (F.of_ℤ (pos base) ⊗ N.exp drawn.0)), drawn.1)

    -- The order of the three draws, which the language leaves open, is the one they are written in.
    unfoldable pub standard_arrival : LatencyConfig D → R → Duration × R
    standard_arrival cfg rng =
        let compute = jittered cfg.strategy_compute cfg.jitter_sigma rng in
        let transmission = jittered cfg.order_transmission cfg.jitter_sigma compute.1 in
        let processing = jittered cfg.exchange_processing cfg.jitter_sigma transmission.1 in
        (compute.0 + transmission.0 + processing.0, processing.1)

    unfoldable pub standard_cost_model : CostConfig D → CostModel D R
    standard_cost_model cfg = record {
      commission = standard_commission cfg;
      half_spread = standard_half_spread cfg;
      market_impact = standard_market_impact cfg;
      stochastic_slippage = standard_slippage cfg;
    }

    unfoldable pub standard_latency_model : LatencyConfig D → LatencyModel R
    standard_latency_model cfg = record {
      decision_to_arrival = standard_arrival cfg;
      arrival_to_ack = jittered cfg.acknowledgement cfg.jitter_sigma;
      market_data_latency = cfg.market_data;
    }
