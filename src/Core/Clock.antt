-- ===== src/Core/Clock.antt =====
-- The simulated clock: include/ptl/core/clock.hpp and src/core/clock.cpp. The `logic_error` that
-- `advance_to` throws is `backwards`, with the two times of its message.
use predictive_trading_lab.Prelude.{◌+◌, ltb, if◌then◌else◌, Result, ok, err}
use predictive_trading_lab.Core.Types.{Timestamp, Duration}

pub record SimulatedClock : Type 0 where
  pub now : Timestamp

pub data ClockError : Type 0 where
  backwards : Timestamp → Timestamp → ClockError

unfoldable pub advance_to : SimulatedClock → Timestamp → Result ClockError SimulatedClock
advance_to c ts = if ltb ts c.now then err (backwards c.now ts) else ok (record c { now = ts })

unfoldable pub advance_by : SimulatedClock → Duration → SimulatedClock
advance_by c d = record c { now = c.now + d }

unfoldable pub reset : SimulatedClock → Timestamp → SimulatedClock
reset c ts = record c { now = ts }
