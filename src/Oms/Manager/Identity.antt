-- ===== src/Oms/Manager/Identity.antt =====
-- Ids, keys and parents in an `OrderManager` (src/oms/order_manager.cpp).
use predictive_trading_lab.Prelude.{
  ℕ, ◌+◌, ◌^◌, ◌<◌, ◌≡◌, Bool, none, List, [], ◌∷◌, Text, arith, refl, Option-cases, inl, inr, ok,
  err, All, max, u64,
}
use predictive_trading_lab.Prelude.Double.{Double}
use predictive_trading_lab.Prelude.Map.{lookup, All-insert, All-lookup}
use predictive_trading_lab.Oms.Order.{OrderId, Order}
use predictive_trading_lab.Oms.Fill.{Fill}
use predictive_trading_lab.Oms.Manager.{
  OrderState, OrderRecord, OrderManager, Outcome, cancelled, replaced, find, next_id, submit,
  transition, apply_fill, cancel_replace, then_submit, fresh, with_reason, reset,
}
use predictive_trading_lab.Oms.Manager.Fills.{fill_record-cases}
use predictive_trading_lab.Oms.Manager.Trace.{
  Call, takes_id, submits, transitions, fills, replaces, step, run,
}

module _ {D : Type 0} where
  -- Every id in the book is below the counter, and the counter has not wrapped.
  abbrev pub Below : ℕ → ℕ × OrderRecord D → Type 0
  Below n (k, r) = k < n

  pub record IsAhead (m : OrderManager D) : Type 0 where
    pub below : All (Below m.next) m.records
    pub unwrapped : m.next < 2 ^ 64

  -- The 64-bit counter does not wrap in this call.
  abbrev pub HasRoom : OrderManager D → Call D → Type 0
  HasRoom m takes_id = m.next + 1 < 2 ^ 64
  HasRoom m (submits order) = order.id + 1 < 2 ^ 64
  HasRoom m (transitions id to reason) = Unit
  HasRoom m (fills fill) = Unit
  HasRoom m (replaces id order) = order.id + 1 < 2 ^ 64

  Below-mono :
      (a b : ℕ) (rs : List (ℕ × OrderRecord D)) → All (Below a) rs → a < b + 1 → All (Below b) rs
  Below-mono a b [] h l = tt
  Below-mono a b ((k, r) ∷ rs) h l = (omega arith, Below-mono a b rs h.1 l)

  absent_above :
      (n k : ℕ) (rs : List (ℕ × OrderRecord D)) → All (Below n) rs → n < k + 1 → lookup k rs ≡ none
  unfolding lookup
  absent_above n k [] h l = refl
  absent_above n k ((j, r) ∷ rs) h l = ground (arith, absent_above n k rs h.1 l)

  next_id-IsAhead : (m : OrderManager D) → m.next + 1 < 2 ^ 64 → IsAhead m → IsAhead (next_id m).0
  unfolding next_id
  next_id-IsAhead m room a = record {
    below = Below-mono m.next (u64 (m.next + 1)) m.records a.below (omega arith);
    unwrapped = omega arith;
  }

  transition-IsAhead :
      (m : OrderManager D) (id : OrderId) (to : OrderState) (reason : Text)
      → IsAhead m
      → IsAhead (transition m id to reason).0
  unfolding transition
  transition-IsAhead m id to reason a = elim (Option-cases (find m id)) [
    | inl e ↦ rw (e, transition) a
    | inr (r, e) ↦
        rw (e, transition)
          (ground (
            arith,
            All-lookup (Below m.next) id r m.records a.below e,
            All-insert (Below m.next) id (with_reason reason (record r { state = to })) m.records,
          ))
  ]

module _ {D : Type 0} ⦃F : Double D⦄ where
  submit-IsAhead :
      (m : OrderManager D) (order : Order D)
      → order.id + 1 < 2 ^ 64
      → IsAhead m
      → IsAhead (submit m order).0
  unfolding submit
  submit-IsAhead m order room a =
      let n = max m.next (u64 (order.id + 1)) in
      let grown = Below-mono m.next n m.records a.below (ground arith) in
      ground (arith, All-insert (Below n) order.id (fresh order) m.records (ground arith) grown)

  apply_fill-IsAhead :
      (m : OrderManager D) (fill : Fill D) → IsAhead m → IsAhead (apply_fill m fill).0
  unfolding apply_fill
  apply_fill-IsAhead m fill a = elim (Option-cases (find m fill.order_id)) [
    | inl e ↦ rw (e, apply_fill) a
    | inr (r, e) ↦ elim (fill_record-cases m fill r) [
      | inl same ↦ rw (e, apply_fill, same) a
      | inr (fits, writes) ↦
          rw (e, apply_fill, writes)
            (record {
              below =
                  All-insert (Below m.next) fill.order_id _ m.records
                    (All-lookup (Below m.next) fill.order_id r m.records a.below e) a.below;
              unwrapped = a.unwrapped;
            })
    ]
  ]

  then_submit-IsAhead :
      (c : Outcome D Bool) (order : Order D)
      → order.id + 1 < 2 ^ 64
      → IsAhead c.0
      → IsAhead (then_submit c order).0
  unfolding then_submit
  then_submit-IsAhead (m, ok done) order room a = submit-IsAhead m order room a
  then_submit-IsAhead (m, err e) order room a = a

  cancel_replace-IsAhead :
      (m : OrderManager D) (id : OrderId) (order : Order D)
      → order.id + 1 < 2 ^ 64
      → IsAhead m
      → IsAhead (cancel_replace m id order).0
  unfolding cancel_replace
  cancel_replace-IsAhead m id order room a = elim (Option-cases (find m id)) [
    | inl e ↦ rw (e, cancel_replace) a
    | inr (r, e) ↦
        rw (e, cancel_replace)
          (ground (
            arith,
            transition-IsAhead m id cancelled replaced a,
            then_submit-IsAhead (transition m id cancelled replaced) order room,
          ))
  ]

  -- Every call keeps all ids of the book below the counter, as long as the counter does not wrap.
  pub step-IsAhead :
      (m : OrderManager D) (c : Call D) → HasRoom m c → IsAhead m → IsAhead (step m c)
  unfolding step
  step-IsAhead m takes_id room a = next_id-IsAhead m room a
  step-IsAhead m (submits order) room a = submit-IsAhead m order room a
  step-IsAhead m (transitions id to reason) room a = transition-IsAhead m id to reason a
  step-IsAhead m (fills fill) room a = apply_fill-IsAhead m fill a
  step-IsAhead m (replaces id order) room a = cancel_replace-IsAhead m id order room a

  -- None of the calls makes the counter wrap.
  abbrev pub Roomy : OrderManager D → List (Call D) → Type 0
  Roomy m [] = Unit {0}
  Roomy m (c ∷ cs) = HasRoom m c × Roomy (step m c) cs

  run-IsAhead :
      (m : OrderManager D) (cs : List (Call D)) → Roomy m cs → IsAhead m → IsAhead (run m cs)
  unfolding run
  run-IsAhead m [] room a = a
  run-IsAhead m (c ∷ cs) room a = run-IsAhead (step m c) cs room.1 (step-IsAhead m c room.0 a)

  -- After any calls on a new manager during which the 64-bit counter does not wrap, the id that
  -- `next_id` hands out is held by no order, also where orders came in with ids of their own.
  pub next_id-unused :
      (cs : List (Call D)) → Roomy reset cs → let m = run reset cs in find m (next_id m).1 ≡ none
  unfolding next_id
  next_id-unused cs room =
      let a = run-IsAhead reset cs room (record { below = tt; unwrapped = omega arith }) in
      absent_above _ _ (run reset cs).records a.below (omega arith)
