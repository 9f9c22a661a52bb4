-- ===== src/Engine/Gate.antt =====
-- What the calls of src/engine/engine.cpp leave alone, and the gate to the venue: every order that
-- waits at the venue is one that the order manager has.
use predictive_trading_lab.Prelude.{
  ℕ, ◌+◌, ◌≡◌, sym, ap, inl, inr, true, false, not, ◌||◌, ltb, List, [], ◌∷◌, ◌++◌, All, All-map,
  All-append, ok, arith, Result-cases, Bool-cases, Option-cases, Text,
}
use mathlib.Core.Path.{subst}
use predictive_trading_lab.Prelude.Map.{
  Map, lookup, insert, contains, lookup-insert, lookup-insert_self,
}
use predictive_trading_lab.Prelude.Double.{Double, d0, ◌⊗◌}
use predictive_trading_lab.Core.Types.{Timestamp, InstrumentId, is_set}
use predictive_trading_lab.Oms.Order.{OrderId, Order, with_arrival}
use predictive_trading_lab.Oms.Fill.{Fill}
use predictive_trading_lab.Oms.State.{OrderState}
use predictive_trading_lab.Oms.Manager.{
  OrderManager, OrderRecord, ManagerError, transition, transition_record, apply_fill, fill_record,
  next_id, fresh, with_reason, settle, book_fill,
}
use predictive_trading_lab.Oms.Manager
use predictive_trading_lab.Execution.Models.{LatencyModel, CostModel, FillConfig}
use predictive_trading_lab.Execution.QuoteRouter.{MarketState}
use predictive_trading_lab.Execution.Broker.{
  Broker, BrokerError, PendingOrder, erase_pending, effective_flight,
}
use predictive_trading_lab.Execution.Broker
use predictive_trading_lab.Execution.Broker.Matching.{on_market}
use predictive_trading_lab.Execution.Broker.Matching.Bounds.{match_orders-All}

-- `contains` of the order manager.
abbrev pub Knows : {D : Type 0} → OrderManager D → OrderId → Type 0
Knows m id = contains id m.records ≡ true

-- What the manager knew it still knows.
abbrev pub Retains : {D : Type 0} → OrderManager D → OrderManager D → Type 0
Retains m n = (id : OrderId) → Knows m id → Knows n id

insert-Knows :
    {V : Type 0} (key other : ℕ) (value : V) (m : Map V)
    → contains other m ≡ true
    → contains other (insert key value m) ≡ true
insert-Knows key other value m h = ground (arith, lookup-insert key other value m)

module _ {D : Type 0} where
  -- An order that waits at the venue is known to the manager.
  abbrev pub AllKnown : OrderManager D → List (PendingOrder D) → Type 0
  AllKnown m = All (λ p. Knows m p.order.id)

  pub AllKnown-Retains :
      (m n : OrderManager D) (pending : List (PendingOrder D))
      → Retains m n
      → AllKnown m pending
      → AllKnown n pending
  AllKnown-Retains m n pending f h =
      All-map (λ p. Knows m p.order.id) (λ p. Knows n p.order.id) pending (λ p. f p.order.id) h

  pub All-erase :
      (m : OrderManager D) (id : OrderId) (pending : List (PendingOrder D))
      → AllKnown m pending
      → AllKnown m (erase_pending id pending)
  unfolding erase_pending
  All-erase m id [] h = tt
  All-erase m id (p ∷ pending) h = ground (arith, All-erase m id pending h.1)

module _ {D : Type 0} ⦃F : Double D⦄ where
  transition_record-Retains :
      (m : OrderManager D) (id : OrderId) (to : OrderState) (reason : Text) (r : OrderRecord D)
      → Retains m (transition_record m id to reason r).0
  unfolding transition_record
  transition_record-Retains m id to reason r other h =
      let inserted =
        insert-Knows id other (with_reason reason (record r { state = to })) m.records h in
      ground (arith, inserted)

  fill_record-Retains :
      (m : OrderManager D) (f : Fill D) (r : OrderRecord D) → Retains m (fill_record m f r).0
  unfolding fill_record
  fill_record-Retains m f r other h =
      let inserted = insert-Knows f.order_id other (settle (book_fill f r)).0 m.records h in
      ground (arith, inserted)

  pub transition-Retains :
      (m : OrderManager D) (id : OrderId) (to : OrderState) (reason : Text)
      → Retains m (transition m id to reason).0
  unfolding transition
  transition-Retains m id to reason other h = elim (Option-cases (lookup id m.records)) [
    | inl e ↦ rw (e, transition) h
    | inr (r, e) ↦ rw (e, transition) (transition_record-Retains m id to reason r other h)
  ]

  pub apply_fill-Retains : (m : OrderManager D) (f : Fill D) → Retains m (apply_fill m f).0
  unfolding apply_fill
  apply_fill-Retains m f other h = elim (Option-cases (lookup f.order_id m.records)) [
    | inl e ↦ rw (e, apply_fill) h
    | inr (r, e) ↦ rw (e, apply_fill) (fill_record-Retains m f r other h)
  ]

  pub submit-Retains : (m : OrderManager D) (order : Order D) → Retains m (Manager.submit m order).0
  unfolding Manager.submit
  submit-Retains m order other h =
      let inserted = insert-Knows order.id other (fresh order) m.records h in
      ground (arith, inserted)

  pub submit-Knows :
      (m : OrderManager D) (order : Order D) (id : OrderId)
      → (Manager.submit m order).1 ≡ ok id
      → Knows (Manager.submit m order).0 order.id
  unfolding Manager.submit
  submit-Knows m order id h =
      let inserted = lookup-insert_self order.id (fresh order) m.records in ground (arith, inserted)

  pub submit-pending :
      {R : Type 0}
      → (P : PendingOrder D → Type 0) (latency : LatencyModel R) (now : Timestamp) (b : Broker D R)
        (order : Order D)
      → ((p : PendingOrder D) → p.order.id ≡ order.id → P p)
      → All P b.pending
      → All P (Broker.submit latency now b order).0.pending
  unfolding Broker.submit with_arrival
  submit-pending P latency now b order f h =
      let drawn = latency.decision_to_arrival b.latency_rng in
      let arrival = now + effective_flight drawn.0 in
      elim (Bool-cases (not (is_set now) || ltb now order.times.decision_time)) [
        | inl refused ↦
            let kept : (Broker.submit latency now b order).0.pending ≡ b.pending = ground arith in
            subst (All P) (sym kept) h
        | inr timely ↦ elim (Result-cases (with_arrival order arrival)) [
          | inr (w, e) ↦
              let kept : (Broker.submit latency now b order).0.pending ≡ b.pending = ground arith in
              subst (All P) (sym kept) h
          | inl (stamped, e) ↦
              let queued : PendingOrder D = record {
                order = stamped;
                arrival_time = arrival;
                filled = d0;
                stop_triggered = false;
              } in
              let added : (Broker.submit latency now b order).0.pending ≡ b.pending ++ queued ∷ [] =
                ground arith in
              subst (All P) (sym added)
                (All-append P b.pending (queued ∷ []) h (f queued (ground arith), tt))
        ]
      ]

  pub on_market-known :
      {R : Type 0}
      → (costs : CostModel D R) (cfg : FillConfig D) (m : OrderManager D) (b : Broker D R)
        (instrument : InstrumentId) (state : MarketState D) (now : Timestamp)
      → AllKnown m b.pending
      → AllKnown m (on_market costs cfg b instrument state now).0.pending
  unfolding on_market
  on_market-known costs cfg m b instrument state now h =
      match_orders-All costs cfg (λ p. Knows m p.order.id) instrument state now
        (record {
          stats = b.stats;
          slippage_rng = b.slippage_rng;
          budget = state.interval_volume ⊗ cfg.max_participation_rate;
        })
        b.pending (λ p q same. subst (Knows m) (ap (λ o. o.id) (sym same.0))) h
