-- ===== src/Market/Session.antt =====
-- A trading session: include/ptl/market/session.hpp.
use predictive_trading_lab.Prelude.{
  ℕ, ◌-◌, ◌/◌, Bool, true, false, not, ◌&&◌, ◌||◌, ltb, leb, if◌then◌else◌,
}
use predictive_trading_lab.Core.Types.{Timestamp, Duration}

pub data SessionKind : Type 0 where
  closed regular half_day : SessionKind

pub record Session : Type 0 where
  pub date : Timestamp
  pub open_time : Timestamp
  pub close_time : Timestamp
  pub kind : SessionKind

abbrev pub is_trading : SessionKind → Bool
is_trading closed = false
is_trading _ = true

unfoldable pub is_open : Session → Bool
is_open s = is_trading s.kind

-- The close is not before the open.
unfoldable pub length_of : Session → Duration
length_of s = s.close_time - s.open_time

unfoldable pub contains : Session → Timestamp → Bool
unfolding is_open
contains s ts = is_open s && leb s.open_time ts && ltb ts s.close_time

unfoldable pub bar_count : Session → Duration → ℕ
bar_count s bar = if not (is_open s) || leb bar 0 then 0 else length_of s / bar
