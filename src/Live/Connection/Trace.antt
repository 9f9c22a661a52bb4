-- ===== src/Live/Connection/Trace.antt =====
-- Sequences of calls on a `LiveConnection` (src/live/connection.cpp), with what `poll` delivers.
use predictive_trading_lab.Prelude.{Bool, List, [], ◌∷◌, ◌++◌, Result}
use predictive_trading_lab.Prelude.Double.{Double}
use predictive_trading_lab.Core.Types.{Timestamp}
use predictive_trading_lab.Live.Connection.{
  BrokerMessage, LiveConnection, connect, maybe_reconnect, disconnect, mark_synchronized, tick,
}
use predictive_trading_lab.Live.Receive.{poll}

-- The calls that change a connection, `restore_sequence` apart, with what they are answered.
pub data Call (D E : Type 0) : Type 0 where
  connects : Timestamp → Result E Bool → Timestamp → Timestamp → Call D E
  reconnects : Timestamp → Timestamp → Result E Bool → Timestamp → Timestamp → Call D E
  disconnects : Call D E
  synchronizes : Call D E
  ticks : Timestamp → Call D E
  polls : Bool → List (BrokerMessage D × Timestamp) → Call D E

module _ {D E : Type 0} ⦃F : Double D⦄ where
  unfoldable pub step : LiveConnection D → Call D E → LiveConnection D × List (BrokerMessage D)
  step c (connects t answer u v) = ((connect c t answer u v).0, [])
  step c (reconnects s t answer u v) = ((maybe_reconnect c s t answer u v).0, [])
  step c disconnects = (disconnect c, [])
  step c synchronizes = ((mark_synchronized {E = E} c).0, [])
  step c (ticks now) = (tick c now, [])
  step c (polls is_open ms) = poll c is_open ms

  unfoldable pub run :
      LiveConnection D → List (Call D E) → LiveConnection D × List (BrokerMessage D)
  unfolding step
  run c [] = (c, [])
  run c (call ∷ calls) =
      let (c', got) = step c call in let (c'', rest) = run c' calls in (c'', got ++ rest)
