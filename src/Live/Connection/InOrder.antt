-- ===== src/Live/Connection/InOrder.antt =====
-- Messages in order are all delivered (src/live/connection.cpp).
use predictive_trading_lab.Prelude.{ℕ, ◌+◌, ◌≤◌, ◌<◌, ◌≡◌, Bool, true, false, List, [], ◌∷◌}
use predictive_trading_lab.Core.Types.{Timestamp, seconds}
use predictive_trading_lab.Live.Connection.{MessageKind, heartbeat, unknown, BrokerMessage}

-- Neither a heartbeat nor unknown.
abbrev pub is_ordinary : MessageKind → Bool
is_ordinary heartbeat = false
is_ordinary unknown = false
is_ordinary _ = true

module _ {D : Type 0} where
  abbrev pub stamped : BrokerMessage D × Timestamp → BrokerMessage D
  stamped (m, now) = record m { received_time = now }

  -- Each an ordinary message with a sequence number above the one before it, from above `low`,
  -- and no more than five seconds ahead of its receipt.
  abbrev pub IsInOrder : ℕ → List (BrokerMessage D × Timestamp) → Type 0
  IsInOrder low [] = Unit
  IsInOrder low ((m, now) ∷ ms) =
      (is_ordinary m.kind ≡ true)
      × (low < m.sequence)
      × (m.venue_time ≤ now + seconds 5)
      × IsInOrder m.sequence ms
