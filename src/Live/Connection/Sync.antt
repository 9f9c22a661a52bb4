-- ===== src/Live/Connection/Sync.antt =====
-- No order is sent before synchronisation (src/live/connection.cpp).
use predictive_trading_lab.Prelude.{
  ◌≡◌, ◌≢◌, ◌⊎◌, refl, Bool, true, false, List, [], ◌∷◌, Result, ok, err, arith, ◌∙◌, sym, All,
}
use mathlib.Core.Path.{subst}
use predictive_trading_lab.Prelude.Double.{Double}
use predictive_trading_lab.Core.Types.{Timestamp}
use predictive_trading_lab.Live.Supervisor.{exhausted}
use predictive_trading_lab.Live.Connection.{
  ConnectionState, ready, degraded_state, synchronizing, MessageKind, heartbeat, unknown,
  BrokerMessage, LiveConnection, attempts_exhausted, refuses_to_send, connect, maybe_reconnect,
  disconnect, tick, send,
}
use predictive_trading_lab.Live.Receive.{
  poll, receive_all, receive, dispatch, filter_message, accept_in_time,
}
use predictive_trading_lab.Live.Connection.Trace.{
  Call, connects, reconnects, disconnects, synchronizes, ticks, polls, step, run,
}

-- No order may go out, and none can before the connection is marked synchronised.
pub record IsUnsynced (s : ConnectionState) : Type 0 where
  pub not_ready : s ≢ ready
  pub not_degraded : s ≢ degraded_state

module _ {D : Type 0} where
  filter_message-state :
      (c : LiveConnection D) (m : BrokerMessage D) → (filter_message c m).0.state ≡ c.state
  unfolding filter_message accept_in_time
  filter_message-state c m = ground arith

  dispatch-state :
      (k : MessageKind) (c : LiveConnection D) (m : BrokerMessage D)
      → (dispatch k c m).0.state ≡ c.state
  unfolding dispatch
  dispatch-state heartbeat c m = refl
  dispatch-state unknown c m = refl
  dispatch-state _ c m = filter_message-state c m

  receive-state :
      (c : LiveConnection D) (m : BrokerMessage D) (now : Timestamp)
      → (receive c m now).0.state ≡ c.state
  unfolding receive
  receive-state c m now = dispatch-state m.kind _ _

  receive_all-state :
      (c : LiveConnection D) (ms : List (BrokerMessage D × Timestamp))
      → (receive_all c ms).0.state ≡ c.state
  unfolding receive_all
  receive_all-state c [] = refl
  receive_all-state c ((m, now) ∷ ms) =
      receive_all-state (receive c m now).0 ms ∙ receive-state c m now

  poll-state :
      (c : LiveConnection D) (is_open : Bool) (ms : List (BrokerMessage D × Timestamp))
      → (poll c is_open ms).0.state ≡ c.state
  unfolding poll
  poll-state c true ms = receive_all-state c ms
  poll-state c false ms = refl

  disconnect-IsUnsynced : (c : LiveConnection D) → IsUnsynced (disconnect c).state
  unfolding disconnect
  disconnect-IsUnsynced c = ground arith

  tick-IsUnsynced :
      (c : LiveConnection D) (now : Timestamp) → IsUnsynced c.state → IsUnsynced (tick c now).state
  unfolding tick
  tick-IsUnsynced c now h = ground arith

module _ {D E : Type 0} ⦃F : Double D⦄ where
  connect-IsUnsynced :
      (c : LiveConnection D) (t : Timestamp) (answer : Result E Bool) (u v : Timestamp)
      → IsUnsynced c.state
      → IsUnsynced (connect c t answer u v).0.state
  unfolding connect
  connect-IsUnsynced c t (ok b) u v h = ground arith
  connect-IsUnsynced c t (err e) u v h = ground arith

  maybe_reconnect-IsUnsynced :
      (c : LiveConnection D) (s t : Timestamp) (answer : Result E Bool) (u v : Timestamp)
      → IsUnsynced c.state
      → IsUnsynced (maybe_reconnect c s t answer u v).0.state
  unfolding maybe_reconnect
  maybe_reconnect-IsUnsynced c s t (ok b) u v h = ground arith
  maybe_reconnect-IsUnsynced c s t (err e) u v h = ground arith

  step-IsUnsynced :
      (c : LiveConnection D) (call : Call D E)
      → call ≢ synchronizes
      → IsUnsynced c.state
      → IsUnsynced (step c call).0.state
  unfolding step
  step-IsUnsynced c (connects t answer u v) n h = connect-IsUnsynced c t answer u v h
  step-IsUnsynced c (reconnects s t answer u v) n h = maybe_reconnect-IsUnsynced c s t answer u v h
  step-IsUnsynced c disconnects n h = disconnect-IsUnsynced c
  step-IsUnsynced c synchronizes n h = absurd (n refl)
  step-IsUnsynced c (ticks now) n h = tick-IsUnsynced c now h
  step-IsUnsynced c (polls is_open ms) n h = subst IsUnsynced (sym (poll-state c is_open ms)) h

  run-IsUnsynced :
      (c : LiveConnection D) (calls : List (Call D E))
      → All (λ call. call ≢ synchronizes) calls
      → IsUnsynced c.state
      → IsUnsynced (run c calls).0.state
  unfolding run
  run-IsUnsynced c [] n h = h
  run-IsUnsynced c (call ∷ calls) n h =
      run-IsUnsynced (step c call).0 calls n.1 (step-IsUnsynced c call n.0 h)

  send-IsUnsynced :
      (c : LiveConnection D) (answer : Result E Bool)
      → IsUnsynced c.state
      → send c answer ≡ err refuses_to_send
  unfolding send
  send-IsUnsynced c answer h = ground arith

  reconnected :
      (c : LiveConnection D) (s t : Timestamp) (answer : Result E Bool) (u v : Timestamp)
      → (maybe_reconnect c s t answer u v).1 ≡ ok true
      → (maybe_reconnect c s t answer u v).0.state ≡ synchronizing
  unfolding maybe_reconnect
  reconnected c s t (ok b) u v h = ground arith
  reconnected c s t (err e) u v h = ground arith

  -- After a reconnect every attempt to send is refused until `mark_synchronized` is called,
  -- whatever messages, ticks, drops and further reconnects come in between.
  pub no_send_before_sync :
      (c : LiveConnection D) (s t : Timestamp) (answer : Result E Bool) (u v : Timestamp)
      (calls : List (Call D E)) (reply : Result E Bool)
      → (maybe_reconnect c s t answer u v).1 ≡ ok true
      → All (λ call. call ≢ synchronizes) calls
      → send (run (maybe_reconnect c s t answer u v).0 calls).0 reply ≡ err refuses_to_send
  no_send_before_sync c s t answer u v calls reply done n =
      let sync = reconnected c s t answer u v done in
      send-IsUnsynced _ reply (
        run-IsUnsynced _ calls n
          (subst IsUnsynced (sym sync) (record { not_ready = λ e. cc; not_degraded = λ e. cc })))

  -- While attempts are used up `maybe_reconnect` leaves the connection as it is and returns false
  -- without an error: the message that asks for manual intervention is never returned, from any
  -- state.
  pub exhaustion_unreported :
      (c : LiveConnection D) (s t : Timestamp) (answer : Result E Bool) (u v : Timestamp)
      → ((exhausted c.supervisor ≡ false) ⊎ (maybe_reconnect c s t answer u v ≡ (c, ok false)))
        × ((maybe_reconnect c s t answer u v).1 ≢ err attempts_exhausted)
  unfolding maybe_reconnect
  exhaustion_unreported c s t (ok b) u v = (ground arith, λ h. ground arith)
  exhaustion_unreported c s t (err e) u v = (ground arith, λ h. ground arith)
