-- ===== src/Oms/Manager/Invariant.antt =====
-- An induction rule for what holds of every record of an `OrderManager`
-- (src/oms/order_manager.cpp), and the bound on what is filled.
use predictive_trading_lab.Prelude.{
  ℕ, ◌≡◌, ◌≢◌, Bool, true, false, some, List, [], ◌∷◌, Text, arith, Option-cases, inl, inr, ok, err,
  All,
}
use predictive_trading_lab.Prelude.Double.{Double, ◌⊕◌, ◌<?◌, ◌≤?◌, d0, is_finite}
use predictive_trading_lab.Prelude.Map.{All-insert, All-lookup}
use predictive_trading_lab.Oms.Order.{OrderId, Order}
use predictive_trading_lab.Oms.Order.Validity.{IsValid}
use predictive_trading_lab.Oms.Fill.{Fill}
use predictive_trading_lab.Oms.Manager.{
  OrderState, OrderRecord, OrderManager, Outcome, is_legal_transition, cancelled, replaced, find,
  next_id, submit, transition, apply_fill, cancel_replace, then_submit, fresh, with_reason, settle,
  book_fill, slack, reset,
}
use predictive_trading_lab.Oms.Manager.Fills.{Fits, fill_record-cases}
use predictive_trading_lab.Oms.Manager.Trace.{
  Call, takes_id, submits, transitions, fills, replaces, step, run,
}

module _ {D : Type 0} ⦃F : Double D⦄ (P : ℕ × OrderRecord D → Type 0) where
  -- What a predicate on records has to withstand.
  pub record IsKept : Type 0 where
    pub starts : (order : Order D) → order.id ≢ 0 → P (order.id, fresh order)
    pub moves :
        (k : ℕ) (r : OrderRecord D) (to : OrderState) (reason : Text)
        → is_legal_transition r.state to ≡ true
        → P (k, r)
        → P (k, with_reason reason (record r { state = to }))
    pub books :
        (k : ℕ) (r : OrderRecord D) (fill : Fill D)
        → Fits fill r
        → P (k, r)
        → P (k, (settle (book_fill fill r)).0)

  module _ (kept : IsKept) where
    submit-All :
        (m : OrderManager D) (order : Order D) → All P m.records → All P (submit m order).0.records
    unfolding submit
    submit-All m order h =
        ground (arith, kept.starts order, All-insert P order.id (fresh order) m.records)

    transition-All :
        (m : OrderManager D) (id : OrderId) (to : OrderState) (reason : Text)
        → All P m.records
        → All P (transition m id to reason).0.records
    unfolding transition
    transition-All m id to reason h = elim (Option-cases (find m id)) [
      | inl e ↦ rw (e, transition) h
      | inr (r, e) ↦
          rw (e, transition)
            (ground (
              arith,
              kept.moves id r to reason,
              All-lookup P id r m.records h e,
              All-insert P id (with_reason reason (record r { state = to })) m.records,
            ))
    ]

    apply_fill-All :
        (m : OrderManager D) (fill : Fill D) → All P m.records → All P (apply_fill m fill).0.records
    unfolding apply_fill
    apply_fill-All m fill h = elim (Option-cases (find m fill.order_id)) [
      | inl e ↦ rw (e, apply_fill) h
      | inr (r, e) ↦ elim (fill_record-cases m fill r) [
        | inl same ↦ rw (e, apply_fill, same) h
        | inr (fits, writes) ↦
            rw (e, apply_fill, writes)
              (All-insert P fill.order_id _ m.records
                (kept.books fill.order_id r fill fits (All-lookup P fill.order_id r m.records h e))
                h)
      ]
    ]

    then_submit-All :
        (c : Outcome D Bool) (order : Order D)
        → All P c.0.records
        → All P (then_submit c order).0.records
    unfolding then_submit
    then_submit-All (m, ok done) order h = submit-All m order h
    then_submit-All (m, err e) order h = h

    cancel_replace-All :
        (m : OrderManager D) (id : OrderId) (order : Order D)
        → All P m.records
        → All P (cancel_replace m id order).0.records
    unfolding cancel_replace
    cancel_replace-All m id order h = elim (Option-cases (find m id)) [
      | inl e ↦ rw (e, cancel_replace) h
      | inr (r, e) ↦
          rw (e, cancel_replace)
            (ground (
              arith,
              transition-All m id cancelled replaced h,
              then_submit-All (transition m id cancelled replaced) order,
            ))
    ]

    step-All : (m : OrderManager D) (c : Call D) → All P m.records → All P (step m c).records
    unfolding step next_id
    step-All m takes_id h = h
    step-All m (submits order) h = submit-All m order h
    step-All m (transitions id to reason) h = transition-All m id to reason h
    step-All m (fills fill) h = apply_fill-All m fill h
    step-All m (replaces id order) h = cancel_replace-All m id order h

    pub run-All :
        (m : OrderManager D) (cs : List (Call D)) → All P m.records → All P (run m cs).records
    unfolding run
    run-All m [] h = h
    run-All m (c ∷ cs) h = run-All (step m c) cs (step-All m c h)

module _ {D : Type 0} ⦃F : Double D⦄ where
  -- A valid order holds no more than its quantity and the slack of the test.
  abbrev pub NotOverfilled : ℕ × OrderRecord D → Type 0
  NotOverfilled (k, r) = IsValid r.order → (r.order.quantity ⊕ slack <? r.filled_quantity) ≡ false

  -- A positive number stays above zero when the slack is added.
  abbrev pub SlackIsSound : Double D → Type 0
  SlackIsSound F = (x : D) → is_finite x ≡ true → (x ≤? d0) ≡ false → (x ⊕ slack <? d0) ≡ false

  with_reason-NotOverfilled :
      (k : ℕ) (r : OrderRecord D) (to : OrderState) (reason : Text)
      → NotOverfilled (k, r)
      → NotOverfilled (k, with_reason reason (record r { state = to }))
  unfolding with_reason
  with_reason-NotOverfilled k r to [] h = h
  with_reason-NotOverfilled k r to (c ∷ cs) h = h

  settle-NotOverfilled :
      (k : ℕ) (r : OrderRecord D) (fill : Fill D)
      → Fits fill r
      → NotOverfilled (k, (settle (book_fill fill r)).0)
  unfolding settle book_fill
  settle-NotOverfilled k r fill f = ground arith

  run-NotOverfilled :
      SlackIsSound F → (cs : List (Call D)) → All NotOverfilled (run reset cs).records
  unfolding fresh
  run-NotOverfilled sound cs =
      run-All NotOverfilled
        (record {
          starts = λ order _ v. sound order.quantity v.finite v.positive;
          moves = λ k r to reason _ h. with_reason-NotOverfilled k r to reason h;
          books = λ k r fill f _. settle-NotOverfilled k r fill f;
        })
        reset cs tt

  -- In an order manager that starts empty no valid order is ever filled beyond its quantity and
  -- the slack of 1e-9, whatever calls are made and however they fail; adding the slack to a
  -- positive number is taken not to make it negative.
  pub never_overfilled :
      SlackIsSound F
      → (cs : List (Call D)) (k : ℕ) (r : OrderRecord D) → find (run reset cs) k ≡ some r
      → IsValid r.order
      → (r.order.quantity ⊕ slack <? r.filled_quantity) ≡ false
  never_overfilled sound cs k r held =
      All-lookup NotOverfilled k r (run reset cs).records (run-NotOverfilled sound cs) held
