-- ===== src/Execution/Broker.antt =====
-- The simulated venue: include/ptl/execution/broker.hpp and src/execution/broker.cpp, with the
-- orders that wait at it, their submission, cancellation and fills; the matching against a market
-- is in Execution/Broker/Matching.
pub mod Matching
pub mod External
pub mod Causal
pub mod Examples
use predictive_trading_lab.Prelude.{
  ℕ, ◌+◌, Bool, true, false, not, ◌||◌, ◌==◌, ltb, if◌then◌else◌, Option, none, some, List, [], ◌∷◌,
  ◌++◌, Result, ok, err,
}
use predictive_trading_lab.Prelude.Double.{Double, ◌⊕◌, ◌⊖◌, ◌⊗◌, ◌<?◌, ◌≤?◌, lit, d0, is_finite}
use predictive_trading_lab.Core.Types.{Timestamp, Duration, is_set}
use predictive_trading_lab.Core.Time.{LifecycleTimes, validate_chain}
use predictive_trading_lab.Oms.Order.{OrderId, Order, OrderError, has_value, with_arrival}
use predictive_trading_lab.Oms.Fill.{Fill, Liquidity}
use predictive_trading_lab.Execution.Models.{CostModel, LatencyModel}

pub record PendingOrder (D : Type 0) : Type 0 where
  pub order : Order D
  pub arrival_time : Timestamp
  pub filled : D
  pub stop_triggered : Bool

pub record ExecutionStats (D : Type 0) : Type 0 where
  pub orders_accepted : ℕ
  pub orders_rejected : ℕ
  pub fills : ℕ
  pub partial_fills : ℕ
  pub participation_capped : ℕ
  pub displayed_size_capped : ℕ
  pub passive_no_fill : ℕ
  pub stops_triggered : ℕ
  pub fok_killed : ℕ
  pub rejected_stale_quote : ℕ
  pub rejected_halted : ℕ
  pub rejected_crossed : ℕ
  pub filled_from_quote : ℕ
  pub filled_from_bar : ℕ
  pub total_commission : D
  pub total_impact_cost : D

pub record ExternalFillReport (D : Type 0) : Type 0 where
  pub order_id : OrderId
  pub quantity : D
  pub price : D
  pub fill_time : Timestamp
  pub commission : D
  pub exchange_fee : D
  pub liquidity : Liquidity

pub data BrokerError : Type 0 where
  clock_unset future_decision unknown_order bad_fill_price bad_fill_quantity : BrokerError
  exceeds_remaining broken_chain : BrokerError
  refused_order : OrderError → BrokerError

-- The state of `BrokerSimulator`; its clock, models and configuration are arguments.
pub record Broker (D R : Type 0) : Type 0 where
  pub pending : List (PendingOrder D)
  pub stats : ExecutionStats D
  pub latency_rng : R
  pub slippage_rng : R

-- `effective` of `submit`.
abbrev pub effective_flight : Duration → Duration
effective_flight flight = if ltb 0 flight then flight else 1

module _ {D : Type 0} where
  -- `find_if` by the id of an order, and `erase` at what it finds.
  unfoldable pub find_pending : OrderId → List (PendingOrder D) → Option (PendingOrder D)
  find_pending id [] = none
  find_pending id (p ∷ pending) = if p.order.id == id then some p else find_pending id pending

  unfoldable pub erase_pending : OrderId → List (PendingOrder D) → List (PendingOrder D)
  erase_pending id [] = []
  erase_pending id (p ∷ pending) =
      if p.order.id == id then pending else p ∷ erase_pending id pending

  -- What it finds is set to have `filled`.
  unfoldable pub set_filled : OrderId → D → List (PendingOrder D) → List (PendingOrder D)
  set_filled id filled [] = []
  set_filled id filled (p ∷ pending) =
      if p.order.id == id
      then record p { filled = filled } ∷ pending
      else p ∷ set_filled id filled pending

module _ {D : Type 0} ⦃F : Double D⦄ where
  abbrev pub no_stats : ExecutionStats D
  no_stats = record {
    orders_accepted = 0;
    orders_rejected = 0;
    fills = 0;
    partial_fills = 0;
    participation_capped = 0;
    displayed_size_capped = 0;
    passive_no_fill = 0;
    stops_triggered = 0;
    fok_killed = 0;
    rejected_stale_quote = 0;
    rejected_halted = 0;
    rejected_crossed = 0;
    filled_from_quote = 0;
    filled_from_bar = 0;
    total_commission = d0;
    total_impact_cost = d0;
  }

  -- 1e-9.
  abbrev pub dust : D
  dust = lit 1 1_000_000_000

  abbrev pub remaining_of : PendingOrder D → D
  remaining_of p = p.order.quantity ⊖ p.filled

  -- The fill of `make_fill` and of `ingest_external_fill`.
  unfoldable pub fill_of : Order D → D → D → Timestamp → D → D → Liquidity → Fill D
  fill_of order price quantity fill_time commission exchange_fee liquidity = record {
    order_id = order.id;
    parent_id = order.parent;
    instrument = order.instrument;
    side = order.side;
    price = price;
    quantity = quantity;
    commission = commission;
    exchange_fee = exchange_fee;
    liquidity = liquidity;
    times = record (order.times) { fill_time = fill_time };
    arrival_price = if d0 <? order.arrival_price then order.arrival_price else price;
  }

  -- The test is `!(x > 0.0) || !is_finite(x)`.
  unfoldable pub is_bad : D → Bool
  is_bad x = not (d0 <? x) || not (is_finite x)

  module _ {R : Type 0} where
    abbrev pub count_rejected : Broker D R → Broker D R
    count_rejected b = record b {
      stats = record (b.stats) { orders_rejected = b.stats.orders_rejected + 1 };
    }

    abbrev pub accept : Broker D R → Order D → Timestamp → Broker D R
    accept b order arrival = record b {
      pending =
          b.pending
          ++ record { order = order; arrival_time = arrival; filled = d0; stop_triggered = false }
            ∷ [];
      stats = record (b.stats) { orders_accepted = b.stats.orders_accepted + 1 };
    }

    -- `now` is what the clock shows.
    unfoldable pub submit :
        LatencyModel R
        → Timestamp
        → Broker D R
        → Order D
        → Broker D R × Result BrokerError Timestamp
    submit latency now b order =
        let drawn = latency.decision_to_arrival b.latency_rng in
        let moved = record b { latency_rng = drawn.1 } in
        let arrival = now + effective_flight drawn.0 in
        if not (is_set now)
        then (b, err clock_unset)
        else if ltb now order.times.decision_time
        then (count_rejected b, err future_decision)
        else elim (with_arrival order arrival) [
          | err e ↦ (count_rejected moved, err (refused_order e))
          | ok stamped ↦ (accept moved stamped arrival, ok arrival)
        ]

    unfoldable pub cancel : Broker D R → OrderId → Broker D R × Result BrokerError Bool
    cancel b id = elim (find_pending id b.pending) [
      | none ↦ (b, err unknown_order)
      | some p ↦ (record b { pending = erase_pending id b.pending }, ok true)
    ]

    unfoldable pub reset : Broker D R → Broker D R
    reset b = record b { pending = []; stats = no_stats }

    abbrev pub record_external : Broker D R → PendingOrder D → ExternalFillReport D → Broker D R
    record_external b p report =
        let filled = p.filled ⊕ report.quantity in
        record b {
          pending =
              if p.order.quantity ⊖ dust ≤? filled
              then erase_pending report.order_id b.pending
              else set_filled report.order_id filled b.pending;
          stats = record (b.stats) {
            total_commission = b.stats.total_commission ⊕ report.commission;
            fills = b.stats.fills + 1;
          };
        }

    unfoldable pub ingest_external_fill :
        Broker D R → ExternalFillReport D → Broker D R × Result BrokerError (Fill D)
    ingest_external_fill b report = elim (find_pending report.order_id b.pending) [
      | none ↦ (b, err unknown_order)
      | some p ↦
          let fill =
            fill_of p.order report.price report.quantity report.fill_time report.commission
              report.exchange_fee report.liquidity in
          if is_bad report.quantity
          then (b, err bad_fill_quantity)
          else if is_bad report.price
          then (b, err bad_fill_price)
          else if remaining_of p ⊕ dust <? report.quantity
          then (b, err exceeds_remaining)
          else if has_value (validate_chain fill.times)
          then (b, err broken_chain)
          else (record_external b p report, ok fill)
    ]
