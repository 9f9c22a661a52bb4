-- ===== src/Oms/Order/Validity.antt =====
-- What the validating factories of src/oms/order.cpp let through.
use predictive_trading_lab.Prelude.{
  ◌⊎◌, inl, inr, Option-cases, ◌<◌, ◌≡◌, ◌≢◌, ◌↔◌, refl, Bool, true, false, Option, none, some,
  Result, ok, err, arith,
}
use predictive_trading_lab.Prelude.Double.{Double, ◌≤?◌, d0, is_finite, IsOrdered}
use predictive_trading_lab.Core.Types.{Timestamp, no_timestamp, invalid_instrument, Side, buy, sell}
use predictive_trading_lab.Core.Time.{validate_chain}
use predictive_trading_lab.Core.Time.Chain.{IsOrderly, validate_chain-IsOrderly}
use predictive_trading_lab.Oms.Order.{
  no_order, OrderError, Order, needs_limit, needs_stop, sane_option, check_price, make,
  with_arrival, within_limit, marketable, is_marketable_against,
}

module _ {D : Type 0} ⦃F : Double D⦄ where
  -- A price is there, positive and finite, exactly where the type of the order needs one.
  abbrev pub Engaged : Bool → Option D → Type 0
  Engaged true price = sane_option price ≡ true
  Engaged false price = price ≡ none

  pub record IsValid (o : Order D) : Type 0 where
    pub has_id : o.id ≢ no_order
    pub has_instrument : o.instrument ≢ invalid_instrument
    pub finite : is_finite o.quantity ≡ true
    pub positive : (o.quantity ≤? d0) ≡ false
    pub decided : o.times.decision_time ≢ no_timestamp
    pub orderly : IsOrderly o.times
    pub limit_engaged : Engaged (needs_limit o.type) o.limit_price
    pub stop_engaged : Engaged (needs_stop o.type) o.stop_price

  check_price-Engaged :
      (needed : Bool) (price : Option D) (missing stray : OrderError)
      → (check_price needed price missing stray ≡ ok tt) ↔ Engaged needed price
  unfolding check_price
  check_price-Engaged true none missing stray = (λ h. ground arith, λ h. ground arith)
  check_price-Engaged true (some p) missing stray = (λ h. ground arith, λ h. ground arith)
  check_price-Engaged false none missing stray = (λ h. ground arith, λ h. ground arith)
  check_price-Engaged false (some p) missing stray = (λ h. ground arith, λ h. ground arith)

  abbrev pub remake : Order D → Result OrderError (Order D)
  remake o =
      make o.id o.instrument o.side o.quantity o.type o.limit_price o.stop_price o.times o.tif
        o.parent

  pub make-IsValid : (o : Order D) → o.arrival_price ≡ d0 → (remake o ≡ ok o) ↔ IsValid o
  unfolding make
  make-IsValid o h = (
    λ e. ground (
      arith,
      check_price-Engaged (needs_limit o.type) o.limit_price OrderError.needs_limit_price
          OrderError.stray_limit_price,
      check_price-Engaged (needs_stop o.type) o.stop_price OrderError.needs_stop_price
          OrderError.stray_stop_price,
      validate_chain-IsOrderly o.times,
    ),
    λ v. ground (
      arith,
      check_price-Engaged (needs_limit o.type) o.limit_price OrderError.needs_limit_price
          OrderError.stray_limit_price,
      check_price-Engaged (needs_stop o.type) o.stop_price OrderError.needs_stop_price
          OrderError.stray_stop_price,
      validate_chain-IsOrderly o.times,
    ),
  )

  -- A valid order that gets its arrival stamped is otherwise unchanged and valid, and the stamp is
  -- unset or strictly after the decision. The stamp is refused exactly where it puts the chain of
  -- times out of order.
  pub with_arrival-IsValid :
      (o : Order D) (arrival : Timestamp)
      → IsValid o
      → let stamped = record o { times = record (o.times) { arrival_time = arrival } } in
        ((with_arrival o arrival ≡ ok stamped)
          × IsValid stamped
          × ((arrival ≡ no_timestamp) ⊎ (o.times.decision_time < arrival)))
        ⊎ ((with_arrival o arrival ≡ err OrderError.bad_arrival) × (¬ IsOrderly stamped.times))
  unfolding with_arrival
  with_arrival-IsValid o arrival v =
      let times = record (o.times) { arrival_time = arrival } in
      elim (Option-cases (validate_chain times)) [
        | inl e ↦
            let orderly = (validate_chain-IsOrderly times).0 e in
            inl (
              rw (e, with_arrival) refl,
              record {
                has_id = v.has_id;
                has_instrument = v.has_instrument;
                finite = v.finite;
                positive = v.positive;
                decided = v.decided;
                orderly = orderly;
                limit_engaged = v.limit_engaged;
                stop_engaged = v.stop_engaged;
              },
              ground (arith, orderly.not_same_bar, v.decided),
            )
        | inr (violation, e) ↦ inr (
          rw (e, with_arrival) refl,
          λ orderly. cc (e, (validate_chain-IsOrderly times).1 orderly),
        )
      ]

  within_limit_mono :
      IsOrdered F
      → (side : Side) (price : Option D) (touch better : D)
      → (side ≡ buy → (better ≤? touch) ≡ true)
      → (side ≡ sell → (touch ≤? better) ≡ true)
      → within_limit side price touch ≡ true
      → within_limit side price better ≡ true
  unfolding within_limit
  within_limit_mono laws side none touch better lower higher m = cc
  within_limit_mono laws buy (some p) touch better lower higher m =
      laws.le_trans better touch p (lower refl) m
  within_limit_mono laws sell (some p) touch better lower higher m =
      laws.le_trans p touch better m (higher refl)

  -- An order that would trade against a touch trades against every better one: lower for a buy,
  -- higher for a sell.
  pub is_marketable_mono :
      IsOrdered F
      → (o : Order D) (touch better : D) → is_marketable_against o touch ≡ true
      → (o.side ≡ buy → (better ≤? touch) ≡ true)
      → (o.side ≡ sell → (touch ≤? better) ≡ true)
      → is_marketable_against o better ≡ true
  unfolding is_marketable_against marketable
  is_marketable_mono laws o touch better m lower higher =
      ground (arith, within_limit_mono laws o.side o.limit_price touch better lower higher)
