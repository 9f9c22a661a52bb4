-- ===== src/Engine/Sink.antt =====
-- The order sink of src/engine/engine.cpp: the only way from a strategy to the venue.
use predictive_trading_lab.Prelude.{◌+◌, Bool, if◌then◌else◌, [], Result, ok, err}
use predictive_trading_lab.Prelude.Double.{Double, ◌<?◌, d0}
use predictive_trading_lab.Core.Types.{Timestamp}
use predictive_trading_lab.Oms.Order.{OrderId, Order, with_arrival_price}
use predictive_trading_lab.Oms.State.{pending_new, working, cancelled, rejected}
use predictive_trading_lab.Oms.Manager.{OrderManager, ManagerError, transition, apply_fill, next_id}
use predictive_trading_lab.Oms.Manager
use predictive_trading_lab.Risk.{RiskContext, RiskDecision, check_order, record_code}
use predictive_trading_lab.Execution.Broker.{Broker, BrokerError}
use predictive_trading_lab.Execution.Broker
use predictive_trading_lab.Accounting.Journal.{append, record_risk_rejection}
use predictive_trading_lab.Engine.Callbacks.{
  EngineError, refused_by_risk, from_manager, from_broker, Context, Script, done, look, ask_id,
  place, withdraw,
}
use predictive_trading_lab.Engine.{
  Engine, Setup, Answer, is_approved, submitted_entry, risk_context,
}

module _ {D : Type 0} ⦃F : Double D⦄ {R S : Type 0} (setup : Setup D R S) where
  abbrev pub context : Engine D R S → Context D
  context e = record { now = e.clock.now; pf = e.pf; orders = e.orders; limits = setup.limits }

  -- `submit` of the sink, from the order manager's answer on, and from the broker's on.
  abbrev pub after_broker :
      Engine D R S
      → Order D
      → RiskContext D
      → Broker D R × Result BrokerError Timestamp
      → Answer D R S OrderId
  after_broker e priced ctx (b, err w) = (
    record e {
      broker = b;
      orders = (transition e.orders priced.id rejected (setup.broker_message w)).0;
    },
    err (from_broker w),
  )
  after_broker e priced ctx (b, ok arrival) =
      let sent = (transition e.orders priced.id pending_new []).0 in
      (
        record e {
          broker = b;
          orders = (transition sent priced.id working []).0;
          journal = (append e.journal (submitted_entry ctx priced)).0;
          summary = record (e.summary) { orders_submitted = e.summary.orders_submitted + 1 };
        },
        ok priced.id,
      )

  abbrev pub after_manager :
      Engine D R S
      → Order D
      → RiskContext D
      → OrderManager D × Result ManagerError OrderId
      → Answer D R S OrderId
  after_manager e priced ctx (m, err w) = (record e { orders = m }, err (from_manager w))
  after_manager e priced ctx (m, ok id) =
      let booked : Engine D R S = record e { orders = m } in
      after_broker booked priced ctx (Broker.submit setup.latency e.clock.now e.broker priced)

  -- `with_arrival_price`, where there is a reference price.
  unfoldable pub priced_order : RiskContext D → Order D → Order D
  priced_order ctx order =
      if d0 <? ctx.reference_price then with_arrival_price order ctx.reference_price else order

  abbrev pub decided : Engine D R S → RiskDecision D → Engine D R S
  decided e decision = record e { rejections = record_code decision.code e.rejections }

  abbrev pub refused :
      Engine D R S → Order D → RiskContext D → RiskDecision D → Answer D R S OrderId
  refused e order ctx decision = (
    record (decided e decision) {
      summary = record (e.summary) { orders_rejected = e.summary.orders_rejected + 1 };
      journal = record_risk_rejection e.journal ctx.now order.instrument;
    },
    err (refused_by_risk decision.code),
  )

  abbrev pub after_risk :
      Engine D R S → Order D → RiskContext D → RiskDecision D → Answer D R S OrderId
  after_risk e order ctx decision =
      let priced = priced_order ctx order in
      if is_approved decision.code
      then after_manager (decided e decision) priced ctx (Manager.submit e.orders priced)
      else refused e order ctx decision

  unfoldable pub submit : Engine D R S → Order D → Answer D R S OrderId
  submit e order =
      let ctx = risk_context e order.instrument in
      after_risk e order ctx (check_order setup.limits order e.pf e.orders ctx)

  abbrev pub answer_of : Result ManagerError Bool → Result EngineError Bool
  answer_of (ok b) = ok b
  answer_of (err w) = err (from_manager w)

  abbrev pub after_cancel :
      Engine D R S → OrderId → Broker D R × Result BrokerError Bool → Answer D R S Bool
  after_cancel e id (b, err w) = (e, err (from_broker w))
  after_cancel e id (b, ok found) =
      let moved = transition e.orders id cancelled setup.strategy_cancel in
      (record e { broker = b; orders = moved.0 }, answer_of moved.1)

  unfoldable pub cancel : Engine D R S → OrderId → Answer D R S Bool
  cancel e id = after_cancel e id (Broker.cancel e.broker id)

  -- A callback with the sink.
  unfoldable pub run_script : Script D S → Engine D R S → Engine D R S
  run_script (done s) e = record e { strategy = s }
  run_script (look k) e = run_script (k (context e)) e
  run_script (ask_id k) e =
      let taken = next_id e.orders in run_script (k taken.1) (record e { orders = taken.0 })
  run_script (place order k) e =
      let answered = submit e order in run_script (k answered.1) answered.0
  run_script (withdraw id k) e = let answered = cancel e id in run_script (k answered.1) answered.0
