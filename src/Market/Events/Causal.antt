-- ===== src/Market/Events/Causal.antt =====
-- What the factories of src/market/events.cpp promise of a bar and of a quote.
use predictive_trading_lab.Prelude.{
  ℕ, ap, ◌∙◌, ◌-◌, leb, if◌then◌else◌, ◌+◌, ◌<◌, ◌≡◌, true, false, ok, err, arith,
}
use predictive_trading_lab.Prelude.Double.{Double, ◌<?◌, d0}
use predictive_trading_lab.Core.Types.{Timestamp, Duration, InstrumentId}
use predictive_trading_lab.Core.Time.{event_time_ok}
use predictive_trading_lab.Market.Events.{
  Bar, Quote, bad_timeframe, sane_price, is_outside, make, from_left_edge, from_right_edge, create,
}

add-sub : (a b : ℕ) → a + b - b ≡ a
add-sub a b = omega arith

module _ {D : Type 0} ⦃F : Double D⦄ where
  -- A bar that exists at its close_price and not before, with prices inside its range.
  pub record IsCausal (b : Bar D) : Type 0 where
    pub spans : b.open_time < b.close_time
    pub known_at_close : b.time.exchange_time ≡ b.close_time
    pub received : event_time_ok b.time ≡ true
    pub ordered : (b.high_price <? b.low_price) ≡ false
    pub open_inside : is_outside b.low_price b.high_price b.open_price ≡ false
    pub close_inside : is_outside b.low_price b.high_price b.close_price ≡ false
    pub low_sane : sane_price b.low_price ≡ true
    pub volume_counted : (b.volume <? d0) ≡ false

  make-IsCausal :
      (i : InstrumentId) (t u : Timestamp) (open_price high_price low_price close_price volume : D)
      (latency : Duration) (b : Bar D)
      → make i t u open_price high_price low_price close_price volume latency ≡ ok b
      → IsCausal b
  unfolding make event_time_ok
  make-IsCausal i t u open_price high_price low_price close_price volume latency b h = record {
    spans = ground arith;
    known_at_close = ground arith;
    received = ground arith;
    ordered = ground arith;
    open_inside = ground arith;
    close_inside = ground arith;
    low_sane = ground arith;
    volume_counted = ground arith;
  }

  make-times :
      (i : InstrumentId) (t u : Timestamp) (open_price high_price low_price close_price volume : D)
      (latency : Duration) (b : Bar D)
      → make i t u open_price high_price low_price close_price volume latency ≡ ok b
      → (b.open_time ≡ t) × (b.close_time ≡ u)
  unfolding make
  make-times i t u open_price high_price low_price close_price volume latency b h =
      (ground arith, ground arith)

  from_left_edge-make :
      (i : InstrumentId) (t : Timestamp) (frame : Duration)
      (open_price high_price low_price close_price volume : D) (latency : Duration) (b : Bar D)
      → from_left_edge i t frame open_price high_price low_price close_price volume latency ≡ ok b
      → make i t (t + frame) open_price high_price low_price close_price volume latency ≡ ok b
  unfolding from_left_edge
  from_left_edge-make i t frame open_price high_price low_price close_price volume latency b h =
      ground arith

  from_right_edge-from_left_edge :
      (i : InstrumentId) (t : Timestamp) (frame : Duration)
      (open_price high_price low_price close_price volume : D) (latency : Duration)
      → from_right_edge i
          (t + frame)
          frame
          open_price
          high_price
          low_price
          close_price
          volume
          latency
        ≡ from_left_edge i t frame open_price high_price low_price close_price volume latency
  unfolding from_right_edge from_left_edge
  from_right_edge-from_left_edge i t frame open_price high_price low_price close_price volume
        latency =
      ap
        (λ s.
          if leb frame 0
          then err bad_timeframe
          else make i s (t + frame) open_price high_price low_price close_price volume latency)
        (add-sub t frame)

  -- Where the stamp of its start makes a bar, the stamp of its end makes the same one; the bar
  -- lasts the timeframe from its start, is known at its end and not before, and has its prices
  -- inside its range.
  pub edges_agree :
      (i : InstrumentId) (t : Timestamp) (frame : Duration)
      (open_price high_price low_price close_price volume : D) (latency : Duration) (b : Bar D)
      → from_left_edge i t frame open_price high_price low_price close_price volume latency ≡ ok b
      → (from_right_edge i
            (t + frame)
            frame
            open_price
            high_price
            low_price
            close_price
            volume
            latency
          ≡ ok b)
        × (b.open_time ≡ t)
        × (b.close_time ≡ t + frame)
        × IsCausal b
  edges_agree i t frame open_price high_price low_price close_price volume latency b h =
      let made =
        from_left_edge-make i t frame open_price high_price low_price close_price volume latency b
          h in
      let times =
        make-times i t (t + frame) open_price high_price low_price close_price volume latency b
          made in
      (
        from_right_edge-from_left_edge i t frame open_price high_price low_price close_price volume
              latency
            ∙ h,
        times.0,
        times.1,
        make-IsCausal i t (t + frame) open_price high_price low_price close_price volume latency b
            made,
      )

  -- A quote that is made is not crossed, has sane prices and is received no earlier than it was
  -- stamped.
  pub record IsUncrossed (q : Quote D) : Type 0 where
    pub uncrossed : (q.ask <? q.bid) ≡ false
    pub bid_sane : sane_price q.bid ≡ true
    pub ask_sane : sane_price q.ask ≡ true
    pub stamped : event_time_ok q.time ≡ true

  create-IsUncrossed :
      (i : InstrumentId) (t : Timestamp) (bid bid_size ask ask_size : D) (latency : Duration)
      (q : Quote D)
      → create i t bid bid_size ask ask_size latency ≡ ok q
      → IsUncrossed q
  unfolding create event_time_ok
  create-IsUncrossed i t bid bid_size ask ask_size latency q h = record {
    uncrossed = ground arith;
    bid_sane = ground arith;
    ask_sane = ground arith;
    stamped = ground arith;
  }
