-- ===== src/Execution/Broker/Causal.antt =====
-- No fill before its order has arrived, for src/execution/broker.cpp: what holds of the waiting
-- orders and of the fills after any sequence of calls.
use predictive_trading_lab.Prelude.{
  All-get_elem?, ◌+◌, ◌≤◌, ◌<◌, ◌≡◌, refl, sym, inl, inr, false, not, ◌||◌, ◌==◌, ltb, List, [],
  ◌∷◌, ◌++◌, All, All-append, All-map, if_intro, ok, arith, Bool-cases, Result-cases,
}
use mathlib.Core.Path.{subst}
use predictive_trading_lab.Prelude.Double.{Double, IsOrdered, ◌⊕◌, ◌⊖◌, ◌⊗◌, ◌≤?◌, d0}
use predictive_trading_lab.Core.Types.{Timestamp, InstrumentId, is_set}
use predictive_trading_lab.Oms.Order.{OrderId, Order, with_arrival}
use predictive_trading_lab.Oms.Fill.{Fill}
use predictive_trading_lab.Execution.QuoteRouter.{MarketState, RoutedMarket}
use predictive_trading_lab.Execution.Models.{FillConfig, CostModel, LatencyModel}
use predictive_trading_lab.Execution.Broker.{
  PendingOrder, ExternalFillReport, Broker, effective_flight, no_stats, erase_pending, set_filled,
  submit, cancel, reset, ingest_external_fill, dust,
}
use predictive_trading_lab.Execution.Broker.External.{ingest_external_fill_lem}
use predictive_trading_lab.Execution.Broker.Matching.{on_market, on_quote_update}
use predictive_trading_lab.Execution.Broker.Matching.Bounds.{
  Same, ComesFrom, match_orders-All, on_market-IsSound,
}

-- The order arrives after its decision, and bears the instant at which it does.
pub record IsQueued {D : Type 0} (p : PendingOrder D) : Type 0 where
  pub causal : p.order.times.decision_time < p.arrival_time
  pub stamped : p.order.times.arrival_time ≡ p.arrival_time

-- A call of a method with what it is given.
pub data Call (D : Type 0) : Type 0 where
  call_submit : Timestamp → Order D → Call D
  call_cancel : OrderId → Call D
  call_market : InstrumentId → MarketState D → Timestamp → Call D
  call_quote : InstrumentId → RoutedMarket D → Timestamp → Call D
  call_external : ExternalFillReport D → Call D
  call_reset : Call D

module _ {D : Type 0} where
  All-erase_pending :
      (P : PendingOrder D → Type 0) (id : OrderId) (pending : List (PendingOrder D))
      → All P pending
      → All P (erase_pending id pending)
  unfolding erase_pending
  All-erase_pending P id [] h = tt
  All-erase_pending P id (p ∷ pending) h = ground (arith, All-erase_pending P id pending h.1)

  IsQueued-Same : (p q : PendingOrder D) → Same p q → IsQueued p → IsQueued q
  IsQueued-Same p q (o, a) h =
      let causal = h.causal in
      let stamped = h.stamped in record { causal = ground arith; stamped = ground arith }

  All-set_filled :
      (id : OrderId) (filled : D) (pending : List (PendingOrder D))
      → All IsQueued pending
      → All IsQueued (set_filled id filled pending)
  unfolding set_filled
  All-set_filled id filled [] h = tt
  All-set_filled id filled (p ∷ pending) h =
      let now : PendingOrder D = record p { filled = filled } in
      if_intro (All IsQueued) (p.order.id == id) (now ∷ pending) (p ∷ set_filled id filled pending)
        (IsQueued-Same p now (refl, refl) h.0, h.1) (h.0, All-set_filled id filled pending h.1)

module _ {D : Type 0} ⦃F : Double D⦄ {R : Type 0} where
  -- The new broker, which no order waits at.
  abbrev pub new_broker : R → R → Broker D R
  new_broker latency_rng slippage_rng = record {
    pending = [];
    stats = no_stats;
    latency_rng = latency_rng;
    slippage_rng = slippage_rng;
  }

module _ {D : Type 0} where
  -- A fill is stamped after the decision of its order and no earlier than its arrival.
  abbrev pub IsAfterArrival : Fill D → Type 0
  IsAfterArrival f =
      (f.times.decision_time < f.times.arrival_time) × (f.times.arrival_time ≤ f.times.fill_time)

module _ {D : Type 0} ⦃F : Double D⦄ {R : Type 0} (costs : CostModel D R) (latency : LatencyModel R)
    (cfg : FillConfig D) where
  unfoldable pub step : Call D → Broker D R → Broker D R
  step (call_submit now order) b = (submit latency now b order).0
  step (call_cancel id) b = (cancel b id).0
  step (call_market instrument state now) b = (on_market costs cfg b instrument state now).0
  step (call_quote instrument routed now) b = (on_quote_update costs cfg b instrument routed now).0
  step (call_external report) b = (ingest_external_fill b report).0
  step call_reset b = reset b

  unfoldable pub run : List (Call D) → Broker D R → Broker D R
  run [] b = b
  run (c ∷ calls) b = run calls (step c b)

  with_arrival-times :
      (order stamped : Order D) (arrival : Timestamp)
      → with_arrival order arrival ≡ ok stamped
      → stamped ≡ record order { times = record (order.times) { arrival_time = arrival } }
  unfolding with_arrival
  with_arrival-times order stamped arrival h = ground arith

  submit-IsQueued :
      (now : Timestamp) (b : Broker D R) (order : Order D)
      → All IsQueued b.pending
      → All IsQueued (submit latency now b order).0.pending
  unfolding submit
  submit-IsQueued now b order h =
      let drawn = latency.decision_to_arrival b.latency_rng in
      let arrival = now + effective_flight drawn.0 in
      elim (Bool-cases (not (is_set now) || ltb now order.times.decision_time)) [
        | inl refused ↦
            let kept : (submit latency now b order).0.pending ≡ b.pending = ground arith in
            subst (All IsQueued) (sym kept) h
        | inr timely ↦ elim (Result-cases (with_arrival order arrival)) [
          | inr (w, e) ↦
              let kept : (submit latency now b order).0.pending ≡ b.pending = ground arith in
              subst (All IsQueued) (sym kept) h
          | inl (stamped, e) ↦
              let same = with_arrival-times order stamped arrival e in
              let queued : PendingOrder D = record {
                order = stamped;
                arrival_time = arrival;
                filled = d0;
                stop_triggered = false;
              } in
              let added : (submit latency now b order).0.pending ≡ b.pending ++ queued ∷ [] =
                ground arith in
              subst (All IsQueued) (sym added) (
                All-append IsQueued b.pending (queued ∷ []) h
                  (record { causal = ground arith; stamped = ground arith }, tt))
        ]
      ]

  on_market-IsQueued :
      (b : Broker D R) (instrument : InstrumentId) (state : MarketState D) (now : Timestamp)
      → All IsQueued b.pending
      → All IsQueued (on_market costs cfg b instrument state now).0.pending
  unfolding on_market
  on_market-IsQueued b instrument state now h =
      match_orders-All costs cfg IsQueued instrument state now
        (record {
          stats = b.stats;
          slippage_rng = b.slippage_rng;
          budget = state.interval_volume ⊗ cfg.max_participation_rate;
        })
        b.pending IsQueued-Same h

  cancel-IsQueued :
      (b : Broker D R) (id : OrderId)
      → All IsQueued b.pending
      → All IsQueued (cancel b id).0.pending
  unfolding cancel
  cancel-IsQueued b id h = ground (arith, All-erase_pending IsQueued id b.pending h)

  ingest_external_fill-IsQueued :
      (b : Broker D R) (report : ExternalFillReport D)
      → All IsQueued b.pending
      → All IsQueued (ingest_external_fill b report).0.pending
  ingest_external_fill-IsQueued b report h = elim (ingest_external_fill_lem b report) [
    | inl (w, e) ↦ subst (λ t. All IsQueued t.0.pending) (sym e) h
    | inr (p, found, credible, e) ↦
        let filled = p.filled ⊕ report.quantity in
        subst (λ t. All IsQueued t.0.pending) (sym e)
          (if_intro (All IsQueued) (p.order.quantity ⊖ dust ≤? filled)
            (erase_pending report.order_id b.pending) (set_filled report.order_id filled b.pending)
            (All-erase_pending IsQueued report.order_id b.pending h)
            (All-set_filled report.order_id filled b.pending h))
  ]

  step-IsQueued :
      (c : Call D) (b : Broker D R) → All IsQueued b.pending → All IsQueued (step c b).pending
  unfolding step on_quote_update reset
  step-IsQueued (call_submit now order) b h = submit-IsQueued now b order h
  step-IsQueued (call_cancel id) b h = cancel-IsQueued b id h
  step-IsQueued (call_market instrument state now) b h = on_market-IsQueued b instrument state now h
  step-IsQueued (call_quote instrument routed now) b h =
      ground (arith, on_market-IsQueued b instrument routed.state now h)
  step-IsQueued (call_external report) b h = ingest_external_fill-IsQueued b report h
  step-IsQueued call_reset b h = tt

  run-IsQueued :
      (calls : List (Call D)) (b : Broker D R)
      → All IsQueued b.pending
      → All IsQueued (run calls b).pending
  unfolding run
  run-IsQueued [] b h = h
  run-IsQueued (c ∷ calls) b h = run-IsQueued calls (step c b) (step-IsQueued c b h)

  from-IsAfterArrival :
      (pending : List (PendingOrder D)) (instrument : InstrumentId) (state : MarketState D)
      (now : Timestamp) (f : Fill D)
      → All IsQueued pending
      → ComesFrom costs cfg instrument state now pending f
      → IsAfterArrival f
  from-IsAfterArrival pending instrument state now f h (p, k, budget, at, sound) =
      let queued = All-get_elem? IsQueued pending k p h at in
      let causal = queued.causal in
      let stamped = queued.stamped in
      let arrived = sound.arrived in
      let times = sound.faithful.stamped in (ground arith, ground arith)

  -- Whatever was called before, with any orders, markets and reports: a fill that `on_market`
  -- returns is stamped no earlier than the arrival of its order, and the order arrived after its
  -- decision.
  pub on_market-IsAfterArrival :
      (order : IsOrdered F) (calls : List (Call D)) (latency_rng slippage_rng : R)
      (instrument : InstrumentId) (state : MarketState D) (now : Timestamp) (fills : List (Fill D))
      → (on_market costs cfg
          (run calls (new_broker latency_rng slippage_rng))
          instrument
          state
          now).1
        ≡ ok fills
      → All IsAfterArrival fills
  on_market-IsAfterArrival order calls latency_rng slippage_rng instrument state now fills h =
      let b = run calls (new_broker latency_rng slippage_rng) in
      let queued = run-IsQueued calls (new_broker latency_rng slippage_rng) tt in
      All-map (ComesFrom costs cfg instrument state now b.pending) IsAfterArrival fills
        (λ f. from-IsAfterArrival b.pending instrument state now f queued)
        (on_market-IsSound costs cfg order b instrument state now fills h)
