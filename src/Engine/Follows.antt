-- ===== src/Engine/Follows.antt =====
-- Every method of src/engine/engine.cpp keeps the gate: an order that waits at the venue is known
-- to the order manager. None but the loop itself moves the source.
use predictive_trading_lab.Prelude.{
  ◌≡◌, refl, sym, ◌∙◌, Bool, if_intro, List, [], ◌∷◌, Result, ok, err, is_ok, arith, Result-cases,
  inl, inr,
}
use mathlib.Core.Path.{subst}
use predictive_trading_lab.Prelude.Double.{Double}
use predictive_trading_lab.Core.Types.{Timestamp, InstrumentId}
use predictive_trading_lab.Oms.Order.{OrderId, Order}
use predictive_trading_lab.Oms.Fill.{Fill}
use predictive_trading_lab.Oms.State.{pending_new, working, cancelled, rejected}
use predictive_trading_lab.Oms.Manager.{OrderManager, ManagerError, transition, apply_fill, next_id}
use predictive_trading_lab.Oms.Manager
use predictive_trading_lab.Portfolio.{apply}
use predictive_trading_lab.Risk.{RiskContext, check_order}
use predictive_trading_lab.Execution.QuoteRouter.{MarketState}
use predictive_trading_lab.Execution.Broker.{Broker, BrokerError, find_pending, erase_pending}
use predictive_trading_lab.Execution.Broker
use predictive_trading_lab.Execution.Broker.Matching.{on_market}
use predictive_trading_lab.Engine.{Engine, Setup, is_approved, risk_context}
use predictive_trading_lab.Engine.Callbacks.{Script, done, look, ask_id, place, withdraw}
use predictive_trading_lab.Engine.Sink.{
  context, after_broker, after_manager, priced_order, submit, after_cancel, cancel, run_script,
  decided, refused,
}
use predictive_trading_lab.Engine.Handlers.{dispatch_fill, dispatch_fills, match_market}
use predictive_trading_lab.Engine.Gate.{
  AllKnown, Knows, Retains, AllKnown-Retains, All-erase, transition-Retains, apply_fill-Retains,
  submit-Retains, submit-Knows, submit-pending, on_market-known,
}

module _ {D R S : Type 0} where
  abbrev pub IsGated : Engine D R S → Type 0
  IsGated e = AllKnown e.orders e.broker.pending

  -- `f` has the source and the start of `e`, and keeps its gate.
  abbrev pub Follows : Engine D R S → Engine D R S → Type 0
  Follows e f = (f.source ≡ e.source) × (f.started ≡ e.started) × (IsGated e → IsGated f)

  pub Follows-trans : (e f g : Engine D R S) → Follows e f → Follows f g → Follows e g
  Follows-trans e f g h k = (k.0 ∙ h.0, k.1 ∙ h.1, λ gated. k.2 (h.2 gated))

  -- Only the orders change, and they are still known.
  Follows-orders :
      (e : Engine D R S) (m : OrderManager D)
      → Retains e.orders m
      → Follows e (record e { orders = m })
  Follows-orders e m f = (refl, refl, AllKnown-Retains e.orders m e.broker.pending f)

next_id-Retains : {D : Type 0} → (m : OrderManager D) → Retains m (next_id m).0
unfolding next_id
next_id-Retains m id h = h

module _ {D : Type 0} ⦃F : Double D⦄ {R S : Type 0} (setup : Setup D R S) where
  after_broker-Follows :
      (e : Engine D R S) (priced : Order D) (ctx : RiskContext D)
      (sent : Broker D R × Result BrokerError Timestamp)
      → (IsGated e → AllKnown e.orders sent.0.pending)
      → Follows e (after_broker setup e priced ctx sent).0
  after_broker-Follows e priced ctx (b, err w) h =
      let m = (transition e.orders priced.id rejected (setup.broker_message w)).0 in
      (
        refl,
        refl,
        λ gated.
            AllKnown-Retains e.orders m b.pending
              (transition-Retains e.orders priced.id rejected (setup.broker_message w)) (h gated),
      )
  after_broker-Follows e priced ctx (b, ok arrival) h =
      let sent = (transition e.orders priced.id pending_new []).0 in
      let m = (transition sent priced.id working []).0 in
      (
        refl,
        refl,
        λ gated. AllKnown-Retains sent m b.pending (transition-Retains sent priced.id working []) (
            AllKnown-Retains e.orders sent b.pending
              (transition-Retains e.orders priced.id pending_new []) (h gated)),
      )

  after_manager-Follows :
      (e : Engine D R S) (priced : Order D) (ctx : RiskContext D)
      (booked : OrderManager D × Result ManagerError OrderId)
      → Retains e.orders booked.0
      → ((id : OrderId) → booked.1 ≡ ok id → Knows booked.0 priced.id)
      → Follows e (after_manager setup e priced ctx booked).0
  after_manager-Follows e priced ctx (m, err w) retained known = Follows-orders e m retained
  after_manager-Follows e priced ctx (m, ok id) retained known =
      let booked : Engine D R S = record e { orders = m } in
      Follows-trans e booked (after_manager setup e priced ctx (m, ok id)).0
        (Follows-orders e m retained)
        (after_broker-Follows booked priced ctx
          (Broker.submit setup.latency e.clock.now e.broker priced)
          (submit-pending (λ p. Knows m p.order.id) setup.latency e.clock.now e.broker priced
            (λ p same. subst (Knows m) (sym same) (known id refl))))

  submit-Follows : (e : Engine D R S) (order : Order D) → Follows e (submit setup e order).0
  unfolding submit
  submit-Follows e order =
      let ctx = risk_context e order.instrument in
      let decision = check_order setup.limits order e.pf e.orders ctx in
      let priced = priced_order setup ctx order in
      let e' = decided setup e decision in
      let booked = Manager.submit e.orders priced in
      if_intro (λ a. Follows e a.0) (is_approved decision.code)
        (after_manager setup e' priced ctx booked) (refused setup e order ctx decision)
        (after_manager-Follows e' priced ctx booked (submit-Retains e.orders priced)
          (submit-Knows e.orders priced))
        (refl, refl, λ gated. gated)

  after_cancel-Follows :
      (e : Engine D R S) (id : OrderId) (cancelled_at : Broker D R × Result BrokerError Bool)
      → (IsGated e → AllKnown e.orders cancelled_at.0.pending)
      → Follows e (after_cancel setup e id cancelled_at).0
  after_cancel-Follows e id (b, err w) h = (refl, refl, λ gated. gated)
  after_cancel-Follows e id (b, ok found) h =
      let m = (transition e.orders id cancelled setup.strategy_cancel).0 in
      (
        refl,
        refl,
        λ gated.
            AllKnown-Retains e.orders m b.pending
              (transition-Retains e.orders id cancelled setup.strategy_cancel) (h gated),
      )

  broker_cancel-known :
      (e : Engine D R S) (id : OrderId)
      → IsGated e
      → AllKnown e.orders (Broker.cancel e.broker id).0.pending
  unfolding Broker.cancel
  broker_cancel-known e id h = ground (arith, All-erase e.orders id e.broker.pending h)

  cancel-Follows : (e : Engine D R S) (id : OrderId) → Follows e (cancel setup e id).0
  unfolding cancel
  cancel-Follows e id =
      after_cancel-Follows e id (Broker.cancel e.broker id) (broker_cancel-known e id)

  pub run_script-Follows :
      (script : Script D S) (e : Engine D R S) → Follows e (run_script setup script e)
  unfolding run_script
  run_script-Follows (done s) e = (refl, refl, λ gated. gated)
  run_script-Follows (look k) e = run_script-Follows (k (context setup e)) e
  run_script-Follows (ask_id k) e =
      let taken = next_id e.orders in
      let asked : Engine D R S = record e { orders = taken.0 } in
      Follows-trans e asked (run_script setup (k taken.1) asked)
        (Follows-orders e taken.0 (next_id-Retains e.orders)) (run_script-Follows (k taken.1) asked)
  run_script-Follows (place order k) e =
      let answered = submit setup e order in
      Follows-trans e answered.0 (run_script setup (k answered.1) answered.0)
        (submit-Follows e order) (run_script-Follows (k answered.1) answered.0)
  run_script-Follows (withdraw id k) e =
      let answered = cancel setup e id in
      Follows-trans e answered.0 (run_script setup (k answered.1) answered.0) (cancel-Follows e id)
        (run_script-Follows (k answered.1) answered.0)

  dispatch_fill-Follows : (e : Engine D R S) (f : Fill D) → Follows e (dispatch_fill setup e f).0
  unfolding dispatch_fill
  dispatch_fill-Follows e f =
      let managed = apply_fill e.orders f in
      let held = apply e.pf f in
      let kept =
        AllKnown-Retains e.orders managed.0 e.broker.pending (apply_fill-Retains e.orders f) in
      elim (Result-cases managed.1) [
        | inr (w, p) ↦ rw (p, dispatch_fill) (refl, refl, kept)
        | inl (b, p) ↦ elim (Result-cases held.1) [
          | inr (w, q) ↦ rw (p, q, dispatch_fill) (refl, refl, kept)
          | inl (c, q) ↦ rw (p, q, dispatch_fill) (refl, refl, kept)
        ]
      ]

  dispatch_fills-Follows :
      (fills : List (Fill D)) (e : Engine D R S) → Follows e (dispatch_fills setup e fills).0
  unfolding dispatch_fills
  dispatch_fills-Follows [] e = (refl, refl, λ gated. gated)
  dispatch_fills-Follows (f ∷ fills) e =
      let one = dispatch_fill setup e f in
      let rest = dispatch_fills setup one.0 fills in
      if_intro (λ a. Follows e a.0) (is_ok one.1) rest one
        (Follows-trans e one.0 rest.0 (dispatch_fill-Follows e f)
          (dispatch_fills-Follows fills one.0))
        (dispatch_fill-Follows e f)

  pub match_market-Follows :
      (e : Engine D R S) (instrument : InstrumentId) (st : MarketState D) (now : Timestamp)
      → Follows e (match_market setup e instrument st now).0
  unfolding match_market
  match_market-Follows e instrument st now =
      let matched = on_market setup.costs setup.fills e.broker instrument st now in
      let venue : Engine D R S = record e { broker = matched.0 } in
      let moved : Follows e venue =
        (refl, refl, on_market-known setup.costs setup.fills e.orders e.broker instrument st now) in
      elim (Result-cases matched.1) [
        | inr (w, p) ↦ rw (p, match_market) moved
        | inl (fills, p) ↦
            rw (p, match_market)
              (Follows-trans e venue (dispatch_fills setup venue fills).0 moved
                (dispatch_fills-Follows fills venue))
      ]
