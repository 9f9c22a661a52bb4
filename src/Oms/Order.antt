-- ===== src/Oms/Order.antt =====
-- include/ptl/oms/order.hpp and the factories of src/oms/order.cpp: an order is a value, and every
-- order passes through `make`.
pub mod Validity
use predictive_trading_lab.Prelude.{
  ℕ, Bool, true, false, not, ◌&&◌, ◌||◌, ◌==◌, if◌then◌else◌, Option, none, some, Result, ok, err,
  ◌>>◌, refuse_if,
}
use predictive_trading_lab.Prelude.Double.{Double, ◌⊗◌, ◌<?◌, ◌≤?◌, d0, is_finite}
use predictive_trading_lab.Core.Types.{
  Timestamp, is_set, InstrumentId, invalid_instrument, Side, buy, sell, signed,
}
use predictive_trading_lab.Core.Time.{LifecycleTimes, validate_chain}

abbrev pub OrderId : Type 0
OrderId = ℕ

abbrev pub no_order : OrderId
no_order = 0

pub data OrderType : Type 0 where
  market limit stop stop_limit : OrderType

pub data TimeInForce : Type 0 where
  day immediate_or_cancel fill_or_kill good_till_cancel : TimeInForce

-- The messages of `bad(...)`; the code of each is `ValidationFailed`.
pub data OrderError : Type 0 where
  no_id no_instrument bad_quantity no_decision_time invalid_chain : OrderError
  needs_limit_price stray_limit_price needs_stop_price stray_stop_price bad_arrival : OrderError

pub record Order (D : Type 0) : Type 0 where
  pub id : OrderId
  pub parent : OrderId
  pub instrument : InstrumentId
  pub side : Side
  pub quantity : D
  pub type : OrderType
  pub tif : TimeInForce
  pub limit_price : Option D
  pub stop_price : Option D
  pub times : LifecycleTimes
  pub arrival_price : D

abbrev pub needs_limit : OrderType → Bool
needs_limit market = false
needs_limit limit = true
needs_limit stop = false
needs_limit stop_limit = true

abbrev pub needs_stop : OrderType → Bool
needs_stop market = false
needs_stop limit = false
needs_stop stop = true
needs_stop stop_limit = true

abbrev pub has_value {ℓ} : {A : Type ℓ} → Option A → Bool
has_value none = false
has_value (some _) = true

module _ {D : Type 0} ⦃F : Double D⦄ where
  unfoldable pub sane_price : D → Bool
  sane_price p = is_finite p && (d0 <? p)

  -- `p.has_value() && sane_price(*p)`.
  abbrev pub sane_option : Option D → Bool
  sane_option none = false
  sane_option (some p) = sane_price p

  -- The checks of a price that an order type needs, or must not carry.
  unfoldable pub check_price :
      Bool → Option D → OrderError → OrderError → Result OrderError (Unit {0})
  check_price needed price missing stray = do
    refuse_if (needed && not (sane_option price)) missing
    refuse_if (not needed && has_value price) stray

  unfoldable pub make :
      OrderId
      → InstrumentId
      → Side
      → D
      → OrderType
      → Option D
      → Option D
      → LifecycleTimes
      → TimeInForce
      → OrderId
      → Result OrderError (Order D)
  unfolding check_price
  make id instrument side quantity type limit_price stop_price times tif parent = do
    refuse_if (id == no_order) no_id
    refuse_if (instrument == invalid_instrument) no_instrument
    refuse_if (not (is_finite quantity) || (quantity ≤? d0)) bad_quantity
    refuse_if (not (is_set times.decision_time)) no_decision_time
    refuse_if (has_value (validate_chain times)) invalid_chain
    check_price (needs_limit type) limit_price needs_limit_price stray_limit_price
    check_price (needs_stop type) stop_price needs_stop_price stray_stop_price
    ok (record {
      id = id;
      parent = parent;
      instrument = instrument;
      side = side;
      quantity = quantity;
      type = type;
      tif = tif;
      limit_price = limit_price;
      stop_price = stop_price;
      times = times;
      arrival_price = d0;
    })

  unfoldable pub market_order :
      OrderId
      → InstrumentId
      → Side
      → D
      → LifecycleTimes
      → TimeInForce
      → OrderId
      → Result OrderError (Order D)
  unfolding make
  market_order id instrument side quantity times tif parent =
      make id instrument side quantity market none none times tif parent

  unfoldable pub limit_order :
      OrderId
      → InstrumentId
      → Side
      → D
      → D
      → LifecycleTimes
      → TimeInForce
      → OrderId
      → Result OrderError (Order D)
  unfolding make
  limit_order id instrument side quantity limit_price times tif parent =
      make id instrument side quantity limit (some limit_price) none times tif parent

  unfoldable pub stop_order :
      OrderId
      → InstrumentId
      → Side
      → D
      → D
      → LifecycleTimes
      → TimeInForce
      → OrderId
      → Result OrderError (Order D)
  unfolding make
  stop_order id instrument side quantity stop_price times tif parent =
      make id instrument side quantity stop none (some stop_price) times tif parent

  unfoldable pub stop_limit_order :
      OrderId
      → InstrumentId
      → Side
      → D
      → D
      → D
      → LifecycleTimes
      → TimeInForce
      → OrderId
      → Result OrderError (Order D)
  unfolding make
  stop_limit_order id instrument side quantity stop_price limit_price times tif parent =
      make id instrument side quantity stop_limit (some limit_price) (some stop_price) times tif
        parent

  unfoldable pub with_arrival_price : Order D → D → Order D
  with_arrival_price o p = record o { arrival_price = p }

  unfoldable pub with_arrival : Order D → Timestamp → Result OrderError (Order D)
  with_arrival o arrival =
      let copy = record o { times = record (o.times) { arrival_time = arrival } } in
      if has_value (validate_chain copy.times) then err bad_arrival else ok copy

  unfoldable pub signed_quantity : Order D → D
  signed_quantity o = o.quantity ⊗ signed o.side

  abbrev pub is_child : Order D → Bool
  is_child o = not (o.parent == no_order)

  -- The limit against the touch: a buy at or below it, a sell at or above it.
  unfoldable pub within_limit : Side → Option D → D → Bool
  within_limit side none touch = false
  within_limit buy (some price) touch = touch ≤? price
  within_limit sell (some price) touch = price ≤? touch

  unfoldable pub marketable : OrderType → Side → Option D → D → Bool
  unfolding within_limit
  marketable market side price touch = true
  marketable stop side price touch = true
  marketable limit side price touch = within_limit side price touch
  marketable stop_limit side price touch = within_limit side price touch

  unfoldable pub is_marketable_against : Order D → D → Bool
  unfolding marketable
  is_marketable_against o touch = marketable o.type o.side o.limit_price touch
