-- ===== src/Engine/Quiet.antt =====
-- No fill inside a callback: what the sink of src/engine/engine.cpp leaves alone.
use predictive_trading_lab.Prelude.{◌≡◌, refl, ◌∙◌, Bool, if_intro, Result, ok, err, arith}
use predictive_trading_lab.Prelude.Double.{Double}
use predictive_trading_lab.Core.Types.{Timestamp}
use predictive_trading_lab.Oms.Order.{OrderId, Order}
use predictive_trading_lab.Oms.Manager.{OrderManager, ManagerError, transition, apply_fill, next_id}
use predictive_trading_lab.Oms.Manager
use predictive_trading_lab.Risk.{RiskContext, RiskDecision, check_order}
use predictive_trading_lab.Execution.Broker.{Broker, BrokerError, find_pending, erase_pending}
use predictive_trading_lab.Execution.Broker
use predictive_trading_lab.Engine.{Engine, Setup, is_approved, submitted_entry, risk_context}
use predictive_trading_lab.Engine.Callbacks.{Script, done, look, ask_id, place, withdraw}
use predictive_trading_lab.Engine.Sink.{
  context, after_broker, after_manager, priced_order, submit, after_cancel, cancel, run_script,
  decided, refused,
}
use predictive_trading_lab.Accounting.Journal.{
  Journal, JournalEntry, append, record_risk_rejection, rejection_entry,
}

append-fills :
    {D : Type 0} → (j : Journal D) (entry : JournalEntry D) → (append j entry).0.fills ≡ j.fills
unfolding append
append-fills j entry = ground arith

module _ {D R S : Type 0} where
  -- The portfolio, the fills that are journalled and counted, and the turnover are the same.
  pub record IsQuiet (e f : Engine D R S) : Type 0 where
    pub same_portfolio : f.pf ≡ e.pf
    pub same_fills : f.journal.fills ≡ e.journal.fills
    pub same_count : f.summary.fills ≡ e.summary.fills
    pub same_turnover : f.turnover_today ≡ e.turnover_today

  IsQuiet-refl : (e : Engine D R S) → IsQuiet e e
  IsQuiet-refl e = record {
    same_portfolio = refl;
    same_fills = refl;
    same_count = refl;
    same_turnover = refl;
  }

  IsQuiet-trans : (e f g : Engine D R S) → IsQuiet e f → IsQuiet f g → IsQuiet e g
  IsQuiet-trans e f g h k = record {
    same_portfolio = k.same_portfolio ∙ h.same_portfolio;
    same_fills = k.same_fills ∙ h.same_fills;
    same_count = k.same_count ∙ h.same_count;
    same_turnover = k.same_turnover ∙ h.same_turnover;
  }

module _ {D : Type 0} ⦃F : Double D⦄ {R S : Type 0} (setup : Setup D R S) where
  after_broker-IsQuiet :
      (e : Engine D R S) (priced : Order D) (ctx : RiskContext D)
      (sent : Broker D R × Result BrokerError Timestamp)
      → IsQuiet e (after_broker setup e priced ctx sent).0
  after_broker-IsQuiet e priced ctx (b, err w) = record {
    same_portfolio = refl;
    same_fills = refl;
    same_count = refl;
    same_turnover = refl;
  }
  after_broker-IsQuiet e priced ctx (b, ok arrival) = record {
    same_portfolio = refl;
    same_fills = append-fills e.journal (submitted_entry ctx priced);
    same_count = refl;
    same_turnover = refl;
  }

  after_manager-IsQuiet :
      (e : Engine D R S) (priced : Order D) (ctx : RiskContext D)
      (booked : OrderManager D × Result ManagerError OrderId)
      → IsQuiet e (after_manager setup e priced ctx booked).0
  after_manager-IsQuiet e priced ctx (m, err w) = record {
    same_portfolio = refl;
    same_fills = refl;
    same_count = refl;
    same_turnover = refl;
  }
  after_manager-IsQuiet e priced ctx (m, ok id) =
      let booked : Engine D R S = record e { orders = m } in
      let quiet =
        after_broker-IsQuiet booked priced ctx
          (Broker.submit setup.latency e.clock.now e.broker priced) in
      record {
        same_portfolio = quiet.same_portfolio;
        same_fills = quiet.same_fills;
        same_count = quiet.same_count;
        same_turnover = quiet.same_turnover;
      }

  refused-IsQuiet :
      (e : Engine D R S) (order : Order D) (ctx : RiskContext D) (decision : RiskDecision D)
      → IsQuiet e (refused setup e order ctx decision).0
  unfolding record_risk_rejection
  refused-IsQuiet e order ctx decision = record {
    same_portfolio = refl;
    same_fills = append-fills e.journal (rejection_entry ctx.now order.instrument);
    same_count = refl;
    same_turnover = refl;
  }

  decided-IsQuiet :
      (e f : Engine D R S) (decision : RiskDecision D)
      → IsQuiet (decided setup e decision) f
      → IsQuiet e f
  decided-IsQuiet e f decision h = record {
    same_portfolio = h.same_portfolio;
    same_fills = h.same_fills;
    same_count = h.same_count;
    same_turnover = h.same_turnover;
  }

  submit-IsQuiet : (e : Engine D R S) (order : Order D) → IsQuiet e (submit setup e order).0
  unfolding submit
  submit-IsQuiet e order =
      let ctx = risk_context e order.instrument in
      let decision = check_order setup.limits order e.pf e.orders ctx in
      let priced = priced_order setup ctx order in
      let e' = decided setup e decision in
      let booked = Manager.submit e.orders priced in
      if_intro (λ a. IsQuiet e a.0) (is_approved decision.code)
        (after_manager setup e' priced ctx booked) (refused setup e order ctx decision)
        (decided-IsQuiet e (after_manager setup e' priced ctx booked).0 decision
          (after_manager-IsQuiet e' priced ctx booked))
        (refused-IsQuiet e order ctx decision)

  after_cancel-IsQuiet :
      (e : Engine D R S) (id : OrderId) (answered : Broker D R × Result BrokerError Bool)
      → IsQuiet e (after_cancel setup e id answered).0
  after_cancel-IsQuiet e id (b, err w) = IsQuiet-refl e
  after_cancel-IsQuiet e id (b, ok found) = record {
    same_portfolio = refl;
    same_fills = refl;
    same_count = refl;
    same_turnover = refl;
  }

  -- Whatever a callback does with the sink, the portfolio, the fills of the journal, their count
  -- and the turnover are afterwards what they were before it: no order fills while the strategy
  -- still looks at the event on which it was placed.
  pub run_script-IsQuiet :
      (script : Script D S) (e : Engine D R S) → IsQuiet e (run_script setup script e)
  unfolding run_script cancel
  run_script-IsQuiet (done s) e = record {
    same_portfolio = refl;
    same_fills = refl;
    same_count = refl;
    same_turnover = refl;
  }
  run_script-IsQuiet (look k) e = run_script-IsQuiet (k (context setup e)) e
  run_script-IsQuiet (ask_id k) e =
      let taken = next_id e.orders in
      let asked : Engine D R S = record e { orders = taken.0 } in
      let quiet = run_script-IsQuiet (k taken.1) asked in
      record {
        same_portfolio = quiet.same_portfolio;
        same_fills = quiet.same_fills;
        same_count = quiet.same_count;
        same_turnover = quiet.same_turnover;
      }
  run_script-IsQuiet (place order k) e =
      let answered = submit setup e order in
      IsQuiet-trans e answered.0 (run_script setup (k answered.1) answered.0)
        (submit-IsQuiet e order) (run_script-IsQuiet (k answered.1) answered.0)
  run_script-IsQuiet (withdraw id k) e =
      let answered = cancel setup e id in
      IsQuiet-trans e answered.0 (run_script setup (k answered.1) answered.0)
        (after_cancel-IsQuiet e id (Broker.cancel e.broker id))
        (run_script-IsQuiet (k answered.1) answered.0)
