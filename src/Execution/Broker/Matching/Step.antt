-- ===== src/Execution/Broker/Matching/Step.antt =====
-- One round of the loop of `on_market` of src/execution/broker.cpp: what holds of the fill that an
-- order gets.
use predictive_trading_lab.Prelude.{
  ◌+◌, ◌≤◌, ◌≡◌, refl, sym, ◌∙◌, ◌⊎◌, inl, inr, Bool, true, false, not, ◌&&◌, ◌||◌, ◌==◌, ltb,
  Option, none, some, ok, arith, Bool-cases, Option-cases, Result-cases,
}
use mathlib.Core.Path.{subst}
use predictive_trading_lab.Prelude.Double.{Double, IsOrdered, ◌⊕◌, ◌<?◌, ◌≤?◌, d0, is_finite}
use predictive_trading_lab.Core.Types.{Timestamp, InstrumentId, Side}
use predictive_trading_lab.Core.Time.{validate_chain}
use predictive_trading_lab.Oms.Order.{Order, is_marketable_against}
use predictive_trading_lab.Oms.Fill.{Fill, Liquidity, taker}
use predictive_trading_lab.Execution.QuoteRouter.{MarketState}
use predictive_trading_lab.Execution.Models.{FillConfig, CostModel}
use predictive_trading_lab.Execution.Broker.{PendingOrder, dust, remaining_of, fill_of}
use predictive_trading_lab.Execution.Broker.Matching.{
  Round, filled, Allowance, waits, allows, is_fok, displayed_size, is_dormant, stop_hit,
  cap_displayed, cap_budget, allowance, make_fill, rest_of, count_caps, fill_price, execute, take,
  match_live, match_order, touch_price,
}

module _ {D : Type 0} ⦃F : Double D⦄ where
  -- What a fill at `now` keeps of its order.
  pub record IsFillOf (order : Order D) (now : Timestamp) (f : Fill D) : Type 0 where
    pub of_order : f.order_id ≡ order.id
    pub of_instrument : f.instrument ≡ order.instrument
    pub of_side : f.side ≡ order.side
    pub stamped : f.times ≡ record (order.times) { fill_time = now }
    pub chained : validate_chain f.times ≡ none
    pub price_finite : is_finite f.price ≡ true
    pub price_positive : (f.price ≤? d0) ≡ false
    pub quantity_positive : (f.quantity ≤? d0) ≡ false

  make_fill-IsFillOf :
      (commission : D → D → D) (p : PendingOrder D) (price quantity : D) (now : Timestamp)
      (liquidity : Liquidity) (f : Fill D)
      → make_fill commission p.order price quantity now liquidity ≡ ok f
      → IsFillOf p.order now f × (f.quantity ≡ quantity)
  unfolding make_fill fill_of
  make_fill-IsFillOf commission p price quantity now liquidity f h = (
    record {
      of_order = ground arith;
      of_instrument = ground arith;
      of_side = ground arith;
      stamped = ground arith;
      chained = ground arith;
      price_finite = ground arith;
      price_positive = ground arith;
      quantity_positive = ground arith;
    },
    ground arith,
  )

  -- The caps on a quantity that is allowed.
  pub record IsCapped (cfg : FillConfig D) (state : MarketState D) (budget : D) (side : Side)
      (want quantity : D) : Type 0 where
    pub wanted : (want <? quantity) ≡ false
    pub displayed :
        (state.has_quote ≡ false)
        ⊎ (cfg.respect_displayed_size ≡ false)
        ⊎ ((displayed_size state side <? quantity) ≡ false)
    pub budgeted : ((d0 <? budget) ≡ false) ⊎ ((budget <? quantity) ≡ false)

  lt_asym : (order : IsOrdered F) (a b : D) → (a <? b) ≡ true → (b <? a) ≡ false
  lt_asym order a b h = order.le_not_lt a b (order.lt_le a b h)

  cap_displayed-bounds :
      (order : IsOrdered F) (cfg : FillConfig D) (state : MarketState D) (side : Side)
      (want allowed : D) (cut : Bool)
      → cap_displayed cfg state side want ≡ some (allowed, cut)
      → ((want <? allowed) ≡ false)
        × ((state.has_quote ≡ false)
            ⊎ (cfg.respect_displayed_size ≡ false)
            ⊎ ((displayed_size state side <? allowed) ≡ false))
  unfolding cap_displayed
  cap_displayed-bounds order cfg state side want allowed cut h =
      let size = displayed_size state side in
      let irreflexive = order.lt_irrefl want in
      let size_irreflexive = order.lt_irrefl size in
      let asymmetric = lt_asym order size want in
      ground (arith, irreflexive, size_irreflexive, asymmetric)

  cap_budget-bounds :
      (order : IsOrdered F) (state : MarketState D) (budget allowed quantity : D)
      (cut cut' by_budget : Bool)
      → cap_budget state budget allowed cut ≡ allows quantity cut' by_budget
      → ((quantity ≡ allowed) ⊎ ((quantity <? allowed) ≡ true))
        × (((d0 <? budget) ≡ false) ⊎ ((budget <? quantity) ≡ false))
  unfolding cap_budget
  cap_budget-bounds order state budget allowed quantity cut cut' by_budget h =
      let irreflexive = order.lt_irrefl budget in ground (arith, irreflexive)

  below_cut :
      (order : IsOrdered F) (want allowed quantity : D)
      → (want <? allowed) ≡ false
      → (quantity ≡ allowed) ⊎ ((quantity <? allowed) ≡ true)
      → (want <? quantity) ≡ false
  below_cut order want allowed quantity h (inl same) = ground (arith, h)
  below_cut order want allowed quantity h (inr less) =
      let transitive = order.lt_trans want quantity allowed in ground (arith, transitive)

  allowance-IsCapped :
      (order : IsOrdered F) (cfg : FillConfig D) (state : MarketState D) (budget : D) (side : Side)
      (want quantity : D) (cut by_budget : Bool)
      → allowance cfg state budget side want ≡ allows quantity cut by_budget
      → IsCapped cfg state budget side want quantity
  unfolding allowance
  allowance-IsCapped order cfg state budget side want quantity cut by_budget h =
      elim (Option-cases (cap_displayed cfg state side want)) [
        | inl e ↦ ground arith
        | inr ((allowed, displayed_cut), e) ↦
            let capped : cap_budget state budget allowed displayed_cut
                ≡ allows quantity cut by_budget =
              ground arith in
            let (under, displayed) =
              cap_displayed-bounds order cfg state side want allowed displayed_cut e in
            let (less, budgeted) =
              cap_budget-bounds order state budget allowed quantity displayed_cut cut by_budget
                capped in
            record {
              wanted = below_cut order want allowed quantity under less;
              displayed = elim displayed [
                | inl n ↦ inl n
                | inr (inl n) ↦ inr (inl n)
                | inr (inr n) ↦
                    inr (inr (below_cut order (displayed_size state side) allowed quantity n less))
              ];
              budgeted = budgeted;
            }
      ]

  Allowance-cases :
      (a : Allowance D)
      → ((cut : Bool) × (by_budget : Bool) × (a ≡ waits cut by_budget))
        ⊎ ((quantity : D) × (cut : Bool) × (by_budget : Bool) × (a ≡ allows quantity cut by_budget))
  Allowance-cases (waits cut by_budget) = inl (cut, by_budget, refl)
  Allowance-cases (allows quantity cut by_budget) = inr (quantity, cut, by_budget, refl)

  module _ {R : Type 0} (costs : CostModel D R) (cfg : FillConfig D) where
    execute-filled :
        (state : MarketState D) (now : Timestamp) (v : Round D R) (p : PendingOrder D)
        (quantity : D) (f : Fill D) (left : Option (PendingOrder D))
        → (execute costs cfg state now v p quantity).1 ≡ filled f left
        → IsFillOf p.order now f × (f.quantity ≡ quantity) × (left ≡ rest_of p quantity)
    unfolding execute
    execute-filled state now v p quantity f left h =
        let price = fill_price costs cfg state v p quantity in
        elim (Result-cases (make_fill costs.commission p.order price quantity now taker)) [
          | inl (fill, e) ↦
              let same : f ≡ fill = ground arith in
              let (sound, amount) =
                make_fill-IsFillOf costs.commission p price quantity now taker f
                  (e ∙ ground arith) in
              (sound, amount, ground arith)
          | inr (wrong, e) ↦ ground arith
        ]

    take-filled :
        (order : IsOrdered F) (state : MarketState D) (now : Timestamp) (v : Round D R)
        (p : PendingOrder D) (f : Fill D) (left : Option (PendingOrder D))
        → (take costs cfg state now v p).1 ≡ filled f left
        → IsFillOf p.order now f
          × IsCapped cfg state v.budget p.order.side (remaining_of p) f.quantity
          × ((is_fok p.order.tif ≡ false) ⊎ ((f.quantity ⊕ dust <? remaining_of p) ≡ false))
          × (left ≡ rest_of p f.quantity)
    unfolding take
    take-filled order state now v p f left h =
        let want = remaining_of p in
        elim (Bool-cases (want ≤? d0)) [
          | inl none_left ↦ ground arith
          | inr some_left ↦
              elim (Allowance-cases (allowance cfg state v.budget p.order.side want)) [
                | inl (cut, by_budget, e) ↦ ground arith
                | inr (quantity, cut, by_budget, e) ↦
                    let counted : Round D R = record v {
                      stats = count_caps cut by_budget v.stats;
                    } in
                    elim (Bool-cases (is_fok p.order.tif && (quantity ⊕ dust <? want))) [
                      | inl killed ↦ ground arith
                      | inr lives ↦
                          let executed : (execute costs cfg state now counted p quantity).1
                              ≡ filled f left =
                            ground arith in
                          let (sound, amount, rest) =
                            execute-filled state now counted p quantity f left executed in
                          let capped =
                            allowance-IsCapped order cfg state v.budget p.order.side want quantity
                              cut by_budget e in
                          (
                            sound,
                            subst (IsCapped cfg state v.budget p.order.side want) (sym amount)
                                capped,
                            ground arith,
                            ground arith,
                          )
                    ]
              ]
        ]

    -- What `on_market` promises of a fill of `p` at `now` with `budget` left of the interval.
    pub record IsSound (instrument : InstrumentId) (state : MarketState D) (now : Timestamp)
        (budget : D) (p : PendingOrder D) (f : Fill D) : Type 0 where
      pub on_instrument : p.order.instrument ≡ instrument
      pub arrived : p.arrival_time ≤ now
      pub awake :
          (is_dormant p ≡ false)
          ⊎ (stop_hit p.order.side p.order.stop_price (touch_price state p.order.side) ≡ true)
      pub marketable : is_marketable_against p.order (touch_price state p.order.side) ≡ true
      pub faithful : IsFillOf p.order now f
      pub capped : IsCapped cfg state budget p.order.side (remaining_of p) f.quantity
      pub all_or_none :
          (is_fok p.order.tif ≡ false) ⊎ ((f.quantity ⊕ dust <? remaining_of p) ≡ false)

    match_live-filled :
        (state : MarketState D) (now : Timestamp) (v : Round D R) (p : PendingOrder D) (f : Fill D)
        (left : Option (PendingOrder D))
        → (match_live costs cfg state now v p).1 ≡ filled f left
        → (is_marketable_against p.order (touch_price state p.order.side) ≡ true)
          × ((take costs cfg state now v p).1 ≡ filled f left)
    match_live-filled state now v p f left h =
        elim (Bool-cases (is_marketable_against p.order (touch_price state p.order.side))) [
          | inl e ↦ (e, ground arith)
          | inr e ↦ ground arith
        ]

    pub match_order-filled :
        (order : IsOrdered F) (instrument : InstrumentId) (state : MarketState D) (now : Timestamp)
        (v : Round D R) (p : PendingOrder D) (f : Fill D) (left : Option (PendingOrder D))
        → (match_order costs cfg instrument state now v p).1 ≡ filled f left
        → IsSound instrument state now v.budget p f
    unfolding match_order
    match_order-filled order instrument state now v p f left h =
        let touch = touch_price state p.order.side in
        elim (Bool-cases (not (p.order.instrument == instrument) || ltb now p.arrival_time)) [
          | inl away ↦ ground arith
          | inr due ↦ elim (Bool-cases (not (is_dormant p))) [
            | inl awake ↦
                let live : (match_live costs cfg state now v p).1 ≡ filled f left = ground arith in
                let (marketable, taken) = match_live-filled state now v p f left live in
                let (faithful, capped, all_or_none, _) =
                  take-filled order state now v p f left taken in
                record {
                  on_instrument = ground arith;
                  arrived = ground arith;
                  awake = inl (ground arith);
                  marketable = marketable;
                  faithful = faithful;
                  capped = capped;
                  all_or_none = all_or_none;
                }
            | inr dormant ↦
                let hit : stop_hit p.order.side p.order.stop_price touch ≡ true = ground arith in
                let woken : PendingOrder D = record p { stop_triggered = true } in
                let w : Round D R = record v {
                  stats = record (v.stats) { stops_triggered = v.stats.stops_triggered + 1 };
                } in
                let live : (match_live costs cfg state now w woken).1 ≡ filled f left =
                  ground arith in
                let (marketable, taken) = match_live-filled state now w woken f left live in
                let (faithful, capped, all_or_none, _) =
                  take-filled order state now w woken f left taken in
                record {
                  on_instrument = ground arith;
                  arrived = ground arith;
                  awake = inr hit;
                  marketable = marketable;
                  faithful = faithful;
                  capped = capped;
                  all_or_none = all_or_none;
                }
          ]
        ]
