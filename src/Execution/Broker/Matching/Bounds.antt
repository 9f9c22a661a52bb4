-- ===== src/Execution/Broker/Matching/Bounds.antt =====
-- The whole loop of `on_market` of src/execution/broker.cpp: its fills, and the orders it leaves.
use predictive_trading_lab.Prelude.{
  ℕ, suc, ◌+◌, ◌≡◌, refl, sym, ◌⊎◌, inl, inr, true, not, ◌&&◌, ◌||◌, ◌==◌, ltb, if◌then◌else◌,
  if_intro, Option, none, some, List, [], ◌∷◌, get_elem?, All, All-map, ok, err, arith,
  Result-cases,
}
use mathlib.Core.Path.{subst}
use predictive_trading_lab.Prelude.Double.{Double, IsOrdered, ◌⊕◌, ◌⊗◌, ◌<?◌, ◌≤?◌, d0}
use predictive_trading_lab.Core.Types.{Timestamp, InstrumentId}
use predictive_trading_lab.Oms.Order.{is_marketable_against}
use predictive_trading_lab.Oms.Fill.{Fill, taker}
use predictive_trading_lab.Execution.QuoteRouter.{MarketState}
use predictive_trading_lab.Execution.Models.{FillConfig, CostModel}
use predictive_trading_lab.Execution.Broker.{PendingOrder, BrokerError, Broker, dust, remaining_of}
use predictive_trading_lab.Execution.Broker.Matching.{
  Round, Matched, Outcome, erased, rests, filled, failed, waits, allows, is_fok, is_dormant,
  stop_hit, after_outcome, allowance, make_fill, fill_price, rest_of, is_done, is_ioc, count_caps,
  Allowance, execute, take_allowed, take, match_live, match_order, match_orders, on_market,
  touch_price,
}
use predictive_trading_lab.Execution.Broker.Matching.Step.{IsSound, match_order-filled}

module _ {D : Type 0} where
  -- The same order with the same arrival.
  abbrev pub Same : PendingOrder D → PendingOrder D → Type 0
  Same p q = (q.order ≡ p.order) × (q.arrival_time ≡ p.arrival_time)

  abbrev pub Keeps : PendingOrder D → Outcome D → Type 0
  Keeps p erased = Unit
  Keeps p (rests q) = Same p q
  Keeps p (filled f none) = Unit
  Keeps p (filled f (some q)) = Same p q
  Keeps p (failed e q) = Same p q

  module _ {R : Type 0} where
    filled_rest :
        (v : Round D R) (f : Fill D) (left : Option (PendingOrder D))
        (pending : List (PendingOrder D)) (later : Matched D R) (rest fills : List (Fill D))
        → later.2 ≡ ok rest
        → (after_outcome v (filled f left) pending later).2 ≡ ok fills
        → fills ≡ f ∷ rest
    filled_rest v f none pending later rest fills e h = ground arith
    filled_rest v f (some q) pending later rest fills e h = ground arith

    filled_wrong :
        {A : Type 0}
        → (v : Round D R) (f : Fill D) (left : Option (PendingOrder D))
          (pending : List (PendingOrder D)) (later : Matched D R) (w : BrokerError)
          (fills : List (Fill D))
        → later.2 ≡ err w
        → (after_outcome v (filled f left) pending later).2 ≡ ok fills
        → A
    filled_wrong v f none pending later w fills e h = ground arith
    filled_wrong v f (some q) pending later w fills e h = ground arith

    -- The fills of a loop that ends well: those of the later orders, after that of this one.
    after_outcome-ok :
        (v : Round D R) (o : Outcome D) (pending : List (PendingOrder D)) (later : Matched D R)
        (fills : List (Fill D))
        → (after_outcome v o pending later).2 ≡ ok fills
        → ((f : Fill D) × (left : Option (PendingOrder D)) × (rest : List (Fill D)) × (o
              ≡ filled f left)
            × (later.2 ≡ ok rest)
            × (fills ≡ f ∷ rest))
          ⊎ (later.2 ≡ ok fills)
    after_outcome-ok v erased pending later fills h = inr h
    after_outcome-ok v (rests q) pending later fills h = inr h
    after_outcome-ok v (filled f left) pending later fills h = elim (Result-cases later.2) [
      | inl (rest, e) ↦
          inl (f, left, rest, refl, e, filled_rest v f left pending later rest fills e h)
      | inr (w, e) ↦ filled_wrong v f left pending later w fills e h
    ]
    after_outcome-ok v (failed w q) pending later fills h = cc

    after_outcome-All :
        (P : PendingOrder D → Type 0) (v : Round D R) (p : PendingOrder D) (o : Outcome D)
        (pending : List (PendingOrder D)) (later : Matched D R)
        → ((q r : PendingOrder D) → Same q r → P q → P r)
        → Keeps p o
        → P p
        → All P pending
        → All P later.1
        → All P (after_outcome v o pending later).1
    after_outcome-All P v p erased pending later f k h t l = l
    after_outcome-All P v p (rests q) pending later f k h t l = (f p q k h, l)
    after_outcome-All P v p (filled fill none) pending later f k h t l = l
    after_outcome-All P v p (filled fill (some q)) pending later f k h t l = (f p q k h, l)
    after_outcome-All P v p (failed w q) pending later f k h t l = (f p q k h, t)

module _ {D : Type 0} ⦃F : Double D⦄ {R : Type 0} (costs : CostModel D R) (cfg : FillConfig D) where
  -- A pending order, and what was left of the budget when its turn came.
  abbrev pub ComesFrom :
      InstrumentId → MarketState D → Timestamp → List (PendingOrder D) → Fill D → Type 0
  ComesFrom instrument state now pending f =
      (p : PendingOrder D) × (k : ℕ) × (budget : D) × (get_elem? pending k ≡ some p)
      × IsSound costs cfg instrument state now budget p f

  later_from :
      (instrument : InstrumentId) (state : MarketState D) (now : Timestamp) (p : PendingOrder D)
      (pending : List (PendingOrder D)) (f : Fill D)
      → ComesFrom instrument state now pending f
      → ComesFrom instrument state now (p ∷ pending) f
  later_from instrument state now p pending f (q, k, budget, at, sound) =
      (q, suc k, budget, at, sound)

  match_orders-IsSound :
      (order : IsOrdered F) (instrument : InstrumentId) (state : MarketState D) (now : Timestamp)
      (v : Round D R) (pending : List (PendingOrder D)) (fills : List (Fill D))
      → (match_orders costs cfg instrument state now v pending).2 ≡ ok fills
      → All (ComesFrom instrument state now pending) fills
  unfolding match_orders
  match_orders-IsSound order instrument state now v [] fills h =
      let same : [] ≡ fills = cc in subst (All (ComesFrom instrument state now [])) same tt
  match_orders-IsSound order instrument state now v (p ∷ pending) fills h =
      let matched = match_order costs cfg instrument state now v p in
      let later = match_orders costs cfg instrument state now matched.0 pending in
      elim (after_outcome-ok matched.0 matched.1 pending later fills h) [
        | inr e ↦
            All-map (ComesFrom instrument state now pending)
              (ComesFrom instrument state now (p ∷ pending)) fills
              (later_from instrument state now p pending)
              (match_orders-IsSound order instrument state now matched.0 pending fills e)
        | inl (f, left, rest, is_filled, ended, same) ↦
            let sound =
              match_order-filled costs cfg order instrument state now v p f left is_filled in
            let later_sound =
              match_orders-IsSound order instrument state now matched.0 pending rest ended in
            subst (All (ComesFrom instrument state now (p ∷ pending))) (sym same) (
              (p, 0, v.budget, refl, sound),
              All-map (ComesFrom instrument state now pending)
                  (ComesFrom instrument state now (p ∷ pending)) rest
                  (later_from instrument state now p pending) later_sound,
            )
      ]

  pub on_market-IsSound :
      (order : IsOrdered F) (b : Broker D R) (instrument : InstrumentId) (state : MarketState D)
      (now : Timestamp) (fills : List (Fill D))
      → (on_market costs cfg b instrument state now).1 ≡ ok fills
      → All (ComesFrom instrument state now b.pending) fills
  unfolding on_market
  on_market-IsSound order b instrument state now fills h =
      match_orders-IsSound order instrument state now
        (record {
          stats = b.stats;
          slippage_rng = b.slippage_rng;
          budget = state.interval_volume ⊗ cfg.max_participation_rate;
        })
        b.pending fills h

  -- A stop that is triggered is the same order.
  woken-Keeps :
      (p : PendingOrder D) (matched : Round D R × Outcome D)
      → Keeps (record p { stop_triggered = true }) matched.1
      → Keeps p matched.1
  woken-Keeps p (v, erased) h = tt
  woken-Keeps p (v, rests q) h = h
  woken-Keeps p (v, filled f none) h = tt
  woken-Keeps p (v, filled f (some q)) h = h
  woken-Keeps p (v, failed e q) h = h

  rest_of-Keeps :
      (p : PendingOrder D) (quantity : D) (f : Fill D) → Keeps p (filled f (rest_of p quantity))
  rest_of-Keeps p quantity f =
      if_intro (λ left. Keeps p (filled f left)) (is_done p quantity) none
        (if is_ioc p.order.tif then none else some (record p { filled = p.filled ⊕ quantity })) tt
        (if_intro (λ left. Keeps p (filled f left)) (is_ioc p.order.tif) none
          (some (record p { filled = p.filled ⊕ quantity })) tt (refl, refl))

  execute-Keeps :
      (state : MarketState D) (now : Timestamp) (v : Round D R) (p : PendingOrder D) (quantity : D)
      → Keeps p (execute costs cfg state now v p quantity).1
  unfolding execute
  execute-Keeps state now v p quantity =
      let price = fill_price costs cfg state v p quantity in
      elim (Result-cases (make_fill costs.commission p.order price quantity now taker)) [
        | inl (f, e) ↦ rw (e, execute) (rest_of-Keeps p quantity f)
        | inr (w, e) ↦ rw (e, execute) (refl, refl)
      ]

  abbrev Kept : PendingOrder D → Round D R × Outcome D → Type 0
  Kept p matched = Keeps p matched.1

  take_allowed-Keeps :
      (state : MarketState D) (now : Timestamp) (v : Round D R) (p : PendingOrder D)
      (a : Allowance D)
      → Kept p (take_allowed costs cfg state now v p a)
  take_allowed-Keeps state now v p (waits cut by_budget) = (refl, refl)
  take_allowed-Keeps state now v p (allows quantity cut by_budget) =
      let counted = count_caps cut by_budget v.stats in
      let lives : Round D R = record v { stats = counted } in
      if_intro (Kept p) (is_fok p.order.tif && (quantity ⊕ dust <? remaining_of p))
        (record v { stats = record counted { fok_killed = counted.fok_killed + 1 } }, erased)
        (execute costs cfg state now lives p quantity) tt (execute-Keeps state now lives p quantity)

  match_live-Keeps :
      (state : MarketState D) (now : Timestamp) (v : Round D R) (p : PendingOrder D)
      → Kept p (match_live costs cfg state now v p)
  unfolding take
  match_live-Keeps state now v p =
      if_intro (Kept p) (is_marketable_against p.order (touch_price state p.order.side))
        (take costs cfg state now v p)
        (
          record v { stats = record (v.stats) { passive_no_fill = v.stats.passive_no_fill + 1 } },
          rests p,
        )
        (if_intro (Kept p) (remaining_of p ≤? d0) (v, erased)
          (take_allowed costs cfg state now v p
            (allowance cfg state v.budget p.order.side (remaining_of p)))
          tt
          (take_allowed-Keeps state now v p
            (allowance cfg state v.budget p.order.side (remaining_of p))))
        (refl, refl)

  match_order-Keeps :
      (instrument : InstrumentId) (state : MarketState D) (now : Timestamp) (v : Round D R)
      (p : PendingOrder D)
      → Kept p (match_order costs cfg instrument state now v p)
  unfolding match_order
  match_order-Keeps instrument state now v p =
      let touch = touch_price state p.order.side in
      let w : Round D R = record v {
        stats = record (v.stats) { stops_triggered = v.stats.stops_triggered + 1 };
      } in
      let woken : PendingOrder D = record p { stop_triggered = true } in
      let live = match_live costs cfg state now in
      let hit = stop_hit p.order.side p.order.stop_price touch in
      if_intro (Kept p) (not (p.order.instrument == instrument) || ltb now p.arrival_time)
        (v, rests p)
        (if not (is_dormant p) then live v p else if hit then live w woken else (v, rests p))
        (refl, refl)
        (if_intro (Kept p) (not (is_dormant p)) (live v p)
          (if hit then live w woken else (v, rests p)) (match_live-Keeps state now v p)
          (if_intro (Kept p) hit (live w woken) (v, rests p)
            (woken-Keeps p (live w woken) (match_live-Keeps state now w woken)) (refl, refl)))

  pub match_orders-All :
      (P : PendingOrder D → Type 0) (instrument : InstrumentId) (state : MarketState D)
      (now : Timestamp) (v : Round D R) (pending : List (PendingOrder D))
      → ((q r : PendingOrder D) → Same q r → P q → P r)
      → All P pending
      → All P (match_orders costs cfg instrument state now v pending).1
  unfolding match_orders
  match_orders-All P instrument state now v [] f h = tt
  match_orders-All P instrument state now v (p ∷ pending) f h =
      let matched = match_order costs cfg instrument state now v p in
      let later = match_orders costs cfg instrument state now matched.0 pending in
      after_outcome-All P matched.0 p matched.1 pending later f
        (match_order-Keeps instrument state now v p) h.0 h.1
        (match_orders-All P instrument state now matched.0 pending f h.1)
