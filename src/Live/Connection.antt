-- ===== src/Live/Connection.antt =====
-- `LiveConnection` of include/ptl/live/connection.hpp and src/live/connection.cpp. The answers of
-- the transport and the readings of the clock are arguments, in the order in which a method asks
-- for them; what is sent to the transport is not kept.
pub mod Poll
pub mod Sync
pub mod Trace
pub mod Delivery
pub mod InOrder
use predictive_trading_lab.Prelude.{
  ℕ, suc, ◌+◌, Bool, true, false, not, ◌&&◌, ◌||◌, ◌==◌, ltb, leb, if◌then◌else◌, Option, none,
  some, List, [], ◌∷◌, ◌++◌, Result, ok, err, Text, length, text_eq,
}
use predictive_trading_lab.Prelude.Double.{Double}
use predictive_trading_lab.Core.Types.{Timestamp, is_set, seconds, InstrumentId, Side}
use predictive_trading_lab.Live.Heartbeat.{
  HeartbeatMonitor, record_heartbeat, record_activity, degraded, dead, note_miss,
}
use predictive_trading_lab.Live.Heartbeat
use predictive_trading_lab.Live.Supervisor.{
  ConnectionSupervisor, exhausted, should_attempt, record_attempt, record_success, record_failure,
}
pub use predictive_trading_lab.Live.Message.{
  ConnectionState, disconnected, connecting, connected, synchronizing, ready, degraded_state,
  reconnecting, failed, is_ready, MessageKind, heartbeat, order_accepted, order_rejected,
  order_cancelled, order_replaced, partial_fill, fill, account_update, quote, trade, unknown,
  BrokerMessage,
}
unfoldable pub use predictive_trading_lab.Live.Message.{permits_trading}

pub record ConnectionStats : Type 0 where
  pub connects : ℕ
  pub disconnects : ℕ
  pub reconnects : ℕ
  pub messages_received : ℕ
  pub duplicates_dropped : ℕ
  pub out_of_order_dropped : ℕ
  pub unknown_messages : ℕ

pub record LiveConnection (D : Type 0) : Type 0 where
  pub heartbeat_monitor : HeartbeatMonitor
  pub supervisor : ConnectionSupervisor D
  pub state : ConnectionState
  pub stats : ConnectionStats
  pub last_sequence : ℕ
  pub recent_ids : List Text

-- An error of the transport is passed on; the others are the messages of `bad(...)`.
pub data ConnectionError (E : Type 0) : Type 0 where
  transport : E → ConnectionError E
  attempts_exhausted cannot_synchronize refuses_to_send : ConnectionError E

abbrev pub is_up : ConnectionState → Bool
is_up ready = true
is_up connected = true
is_up _ = false

abbrev pub may_synchronize : ConnectionState → Bool
may_synchronize synchronizing = true
may_synchronize degraded_state = true
may_synchronize _ = false

module _ {D E : Type 0} ⦃F : Double D⦄ where
  -- The part of `connect` after the transport has answered, at the times `now` and `reset_at`.
  unfoldable pub opened :
      LiveConnection D
      → Result E Bool
      → Timestamp
      → Timestamp
      → LiveConnection D × Result (ConnectionError E) Bool
  opened c (err e) now reset_at =
      (record c { state = failed; supervisor = record_failure c.supervisor now }, err (transport e))
  opened c (ok done) now reset_at = (
    record c {
      stats = record (c.stats) { connects = suc c.stats.connects };
      supervisor = record_success c.supervisor now;
      heartbeat_monitor = Heartbeat.reset c.heartbeat_monitor reset_at;
      state = synchronizing;
    },
    ok true,
  )

  unfoldable pub connect :
      LiveConnection D
      → Timestamp
      → Result E Bool
      → Timestamp
      → Timestamp
      → LiveConnection D × Result (ConnectionError E) Bool
  unfolding opened
  connect c attempt_at answer now reset_at =
      if is_up c.state
      then (c, ok true)
      else opened
          (record c { state = connecting; supervisor = record_attempt c.supervisor attempt_at })
          answer now reset_at

  abbrev pub count_reconnect :
      LiveConnection D × Result (ConnectionError E) Bool
      → LiveConnection D × Result (ConnectionError E) Bool
  count_reconnect (c, ok done) =
      (record c { stats = record (c.stats) { reconnects = suc c.stats.reconnects } }, ok true)
  count_reconnect (c, err e) = (c, err e)

  unfoldable pub maybe_reconnect :
      LiveConnection D
      → Timestamp
      → Timestamp
      → Result E Bool
      → Timestamp
      → Timestamp
      → LiveConnection D × Result (ConnectionError E) Bool
  unfolding connect should_attempt
  maybe_reconnect c now attempt_at answer opened_at reset_at =
      if not (should_attempt c.supervisor now)
      then (c, ok false)
      else if exhausted c.supervisor
      then (record c { state = failed }, err attempts_exhausted)
      else count_reconnect
          (connect (record c { state = reconnecting }) attempt_at answer opened_at reset_at)

  -- The state in which a payload is handed to the transport, which then answers.
  unfoldable pub send : LiveConnection D → Result E Bool → Result (ConnectionError E) Bool
  unfolding permits_trading
  send c answer =
      if permits_trading c.state
      then elim answer [ ok done ↦ ok done | err e ↦ err (transport e) ]
      else err refuses_to_send

module _ {D : Type 0} where
  -- For a restart.
  unfoldable pub restore_sequence : LiveConnection D → ℕ → LiveConnection D
  restore_sequence c sequence = record c { last_sequence = sequence }

  unfoldable pub disconnect : LiveConnection D → LiveConnection D
  disconnect c = elim c.state [
    | disconnected ↦ c
    | _ ↦ record c {
      stats = record (c.stats) { disconnects = suc c.stats.disconnects };
      state = disconnected;
    }
  ]

  unfoldable pub mark_synchronized :
      {E : Type 0} → LiveConnection D → LiveConnection D × Result (ConnectionError E) Bool
  mark_synchronized c =
      if may_synchronize c.state
      then (record c { state = ready }, ok true)
      else (c, err cannot_synchronize)

  -- The state that `tick` moves to from `ready` or `degraded_state`.
  unfoldable pub tick_live : LiveConnection D → Timestamp → LiveConnection D
  tick_live c now =
      if dead c.heartbeat_monitor now
      then record c { heartbeat_monitor = note_miss c.heartbeat_monitor; state = reconnecting }
      else if degraded c.heartbeat_monitor now
      then record c { state = degraded_state }
      else record c { state = ready }

  unfoldable pub tick : LiveConnection D → Timestamp → LiveConnection D
  unfolding tick_live
  tick c now = elim c.state [ ready ↦ tick_live c now | degraded_state ↦ tick_live c now | _ ↦ c ]
