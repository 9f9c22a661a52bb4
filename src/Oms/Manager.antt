-- ===== src/Oms/Manager.antt =====
-- include/ptl/oms/order_manager.hpp and src/oms/order_manager.cpp: the life of an order. A method
-- returns the manager that it leaves behind, on its error paths too, and its result.
pub mod Lifecycle
pub mod Terminal
pub mod Fills
pub mod Invariant
pub mod Identity
pub mod Replace
pub mod Trace
use predictive_trading_lab.Prelude.{
  ℕ, ◌+◌, Bool, true, false, not, ◌&&◌, ◌||◌, ◌==◌, leb, max, u64, if◌then◌else◌, Option, none,
  some, List, [], ◌∷◌, Result, ok, err, Text, length,
}
use predictive_trading_lab.Prelude.Double.{Double, ◌⊕◌, ◌⊖◌, ◌⊗◌, ◌⊘◌, ◌<?◌, ◌≤?◌, lit, d0}
use predictive_trading_lab.Prelude.Map.{Map, lookup, insert, contains}
use predictive_trading_lab.Core.Types.{InstrumentId, signed, side_eq}
use predictive_trading_lab.Oms.Order.{OrderId, no_order, Order, is_child}
use predictive_trading_lab.Oms.Fill.{Fill, total_cost}
pub use predictive_trading_lab.Oms.State.{
  OrderState, new, pending_new, working, partially_filled, filled, pending_cancel, cancelled,
  rejected, expired, OrderState-discrete, state_eq,
}
unfoldable pub use predictive_trading_lab.Oms.State.{
  is_terminal, listed_transition, is_legal_transition,
}

pub record OrderRecord (D : Type 0) : Type 0 where
  pub order : Order D
  pub state : OrderState
  pub filled_quantity : D
  pub filled_notional : D
  pub total_cost : D
  pub reject_reason : Text

pub record OrderManager (D : Type 0) : Type 0 where
  pub records : Map (OrderRecord D)
  pub next : ℕ

-- The messages of `bad(...)`.
pub data ManagerError : Type 0 where
  no_id duplicate_id unknown_parent unknown_order illegal_transition : ManagerError
  terminal_fill fill_mismatch overfill fill_not_after_decision : ManagerError
  illegal_fill_transition terminal_replace replacement_mismatch : ManagerError

abbrev pub Outcome : Type 0 → Type 0 → Type 0
Outcome D A = OrderManager D × Result ManagerError A

abbrev pub replaced : Text
replaced = b'r' ∷ b'e' ∷ b'p' ∷ b'l' ∷ b'a' ∷ b'c' ∷ b'e' ∷ b'd' ∷ []

module _ {D : Type 0} where
  -- The manager after `reset`, and a new one.
  abbrev pub reset : OrderManager D
  reset = record { records = []; next = 1 }

  unfoldable pub next_id : OrderManager D → OrderManager D × OrderId
  next_id m = (record m { next = u64 (m.next + 1) }, m.next)

  abbrev pub find : OrderManager D → OrderId → Option (OrderRecord D)
  find m id = lookup id m.records

  -- `rec.reject_reason = reason`, unless it is empty.
  unfoldable pub with_reason : Text → OrderRecord D → OrderRecord D
  with_reason [] r = r
  with_reason (c ∷ reason) r = record r { reject_reason = c ∷ reason }

  unfoldable pub transition_record :
      OrderManager D → OrderId → OrderState → Text → OrderRecord D → Outcome D Bool
  unfolding with_reason
  transition_record m id to reason r =
      if is_legal_transition r.state to
      then (
        record m { records = insert id (with_reason reason (record r { state = to })) m.records },
        ok true,
      )
      else (m, err illegal_transition)

  unfoldable pub transition : OrderManager D → OrderId → OrderState → Text → Outcome D Bool
  unfolding transition_record
  transition m id to reason = elim (find m id) [
    | none ↦ (m, err unknown_order)
    | some r ↦ transition_record m id to reason r
  ]

module _ {D : Type 0} ⦃F : Double D⦄ where
  unfoldable pub remaining : OrderRecord D → D
  remaining r = r.order.quantity ⊖ r.filled_quantity

  unfoldable pub complete : OrderRecord D → Bool
  complete r = r.order.quantity ≤? r.filled_quantity

  unfoldable pub average_price : OrderRecord D → Option D
  average_price r =
      if r.filled_quantity ≤? d0 then none else some (r.filled_notional ⊘ r.filled_quantity)

  -- The record that `submit` emplaces.
  unfoldable pub fresh : Order D → OrderRecord D
  fresh order = record {
    order = order;
    state = new;
    filled_quantity = d0;
    filled_notional = d0;
    total_cost = d0;
    reject_reason = [];
  }

  unfoldable pub submit : OrderManager D → Order D → Outcome D OrderId
  unfolding fresh
  submit m order =
      if order.id == 0
      then (m, err no_id)
      else if contains order.id m.records
      then (m, err duplicate_id)
      else if is_child order && not (contains order.parent m.records)
      then (m, err unknown_parent)
      else (
        record m {
          next = max m.next (u64 (order.id + 1));
          records = insert order.id (fresh order) m.records;
        },
        ok order.id,
      )

  -- The slack of the overfill test, 1e-9.
  abbrev pub slack : D
  slack = lit 1 1_000_000_000

  -- The three sums that a fill is booked into.
  unfoldable pub book_fill : Fill D → OrderRecord D → OrderRecord D
  book_fill fill r = record r {
    filled_quantity = r.filled_quantity ⊕ fill.quantity;
    filled_notional = r.filled_notional ⊕ fill.price ⊗ fill.quantity;
    total_cost = r.total_cost ⊕ total_cost fill;
  }

  abbrev pub next_state : OrderRecord D → OrderState
  next_state r = if complete r then filled else partially_filled

  -- The state after the sums are booked. The sums stay booked if the transition is refused.
  unfoldable pub settle : OrderRecord D → OrderRecord D × Result ManagerError Bool
  settle r =
      if state_eq r.state (next_state r)
      then (r, ok true)
      else if is_legal_transition r.state (next_state r)
      then (record r { state = next_state r }, ok true)
      else (r, err illegal_fill_transition)

  unfoldable pub fill_record : OrderManager D → Fill D → OrderRecord D → Outcome D Bool
  unfolding settle book_fill
  fill_record m fill r =
      if is_terminal r.state
      then (m, err terminal_fill)
      else if not (fill.instrument == r.order.instrument) || not (side_eq fill.side r.order.side)
      then (m, err fill_mismatch)
      else if r.order.quantity ⊕ slack <? r.filled_quantity ⊕ fill.quantity
      then (m, err overfill)
      else if leb fill.times.fill_time r.order.times.decision_time
      then (m, err fill_not_after_decision)
      else (
        record m { records = insert fill.order_id (settle (book_fill fill r)).0 m.records },
        (settle (book_fill fill r)).1,
      )

  unfoldable pub apply_fill : OrderManager D → Fill D → Outcome D Bool
  unfolding fill_record
  apply_fill m fill = elim (find m fill.order_id) [
    | none ↦ (m, err unknown_order)
    | some r ↦ fill_record m fill r
  ]

  -- The new order is submitted only after the old one is cancelled.
  unfoldable pub then_submit : Outcome D Bool → Order D → Outcome D OrderId
  unfolding submit
  then_submit (m, ok done) replacement = submit m replacement
  then_submit (m, err e) replacement = (m, err e)

  unfoldable pub replace_record :
      OrderManager D → OrderId → Order D → OrderRecord D → Outcome D OrderId
  unfolding then_submit transition
  replace_record m original replacement r =
      if is_terminal r.state
      then (m, err terminal_replace)
      else if not (replacement.instrument == r.order.instrument)
          || not (side_eq replacement.side r.order.side)
      then (m, err replacement_mismatch)
      else then_submit (transition m original cancelled replaced) replacement

  unfoldable pub cancel_replace : OrderManager D → OrderId → Order D → Outcome D OrderId
  unfolding replace_record
  cancel_replace m original replacement = elim (find m original) [
    | none ↦ (m, err unknown_order)
    | some r ↦ replace_record m original replacement r
  ]

  -- The keys of the orders for which a test holds, in the order of the map.
  unfoldable pub keys_where : (OrderRecord D → Bool) → Map (OrderRecord D) → List OrderId
  keys_where p [] = []
  keys_where p ((key, r) ∷ rs) = let rest = keys_where p rs in if p r then key ∷ rest else rest

  unfoldable pub working_orders : OrderManager D → List OrderId
  unfolding keys_where
  working_orders m = keys_where (λ r. not (is_terminal r.state)) m.records

  unfoldable pub children_of : OrderManager D → OrderId → List OrderId
  unfolding keys_where
  children_of m parent = keys_where (λ r. r.order.parent == parent) m.records

  abbrev pub size : OrderManager D → ℕ
  size m = length m.records

  -- The loop of `exposure_of` over the map, from the total so far.
  unfoldable pub exposure_from : InstrumentId → D → Map (OrderRecord D) → D
  exposure_from instrument total [] = total
  exposure_from instrument total ((key, r) ∷ rs) =
      exposure_from instrument
        (if not (r.order.instrument == instrument) || is_terminal r.state
          then total
          else total ⊕ remaining r ⊗ signed r.order.side)
        rs

  unfoldable pub exposure_of : OrderManager D → InstrumentId → D
  unfolding exposure_from
  exposure_of m instrument = exposure_from instrument d0 m.records
