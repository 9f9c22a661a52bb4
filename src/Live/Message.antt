-- ===== src/Live/Message.antt =====
-- The states of a connection and the messages of a venue, of include/ptl/live/connection.hpp.
use predictive_trading_lab.Prelude.{ℕ, Bool, true, false, Text}
use predictive_trading_lab.Core.Types.{Timestamp, InstrumentId, Side}

pub data ConnectionState : Type 0 where
  disconnected connecting connected synchronizing ready : ConnectionState
  degraded_state reconnecting failed : ConnectionState

abbrev pub is_ready : ConnectionState → Bool
is_ready ready = true
is_ready _ = false

unfoldable pub permits_trading : ConnectionState → Bool
permits_trading s = is_ready s

pub data MessageKind : Type 0 where
  heartbeat order_accepted order_rejected order_cancelled order_replaced : MessageKind
  partial_fill fill account_update quote trade unknown : MessageKind

pub record BrokerMessage (D : Type 0) : Type 0 where
  pub kind : MessageKind
  pub sequence : ℕ
  pub venue_time : Timestamp
  pub received_time : Timestamp
  pub venue_order_id : Text
  pub venue_fill_id : Text
  pub client_order_id : Text
  pub instrument : InstrumentId
  pub side : Side
  pub quantity : D
  pub price : D
  pub commission : D
  pub exchange_fee : D
  pub bid : D
  pub ask : D
  pub bid_size : D
  pub ask_size : D
  pub text : Text
