-- ===== src/Live/Connection/Poll.antt =====
-- What `poll` of src/live/connection.cpp lets through.
use mathlib.Core.Path.{subst}
use predictive_trading_lab.Prelude.{
  ℕ, ◌≤◌, ◌<◌, ◌≡◌, ◌⊎◌, inl, inr, Bool, true, false, Option, none, some, List, [], ◌∷◌, arith,
}
use predictive_trading_lab.Core.Types.{Timestamp}
use predictive_trading_lab.Live.Connection.{
  MessageKind, heartbeat, unknown, BrokerMessage, LiveConnection,
}
use predictive_trading_lab.Live.Receive.{
  accept_in_time, filter_message, dispatch, receive, keep, receive_all, poll,
}

module _ {D : Type 0} where
  -- The sequence numbers of accepted messages that have one rise from above `low` to `high`.
  abbrev pub Rising : ℕ → ℕ → List (BrokerMessage D) → Type 0
  Rising low high [] = low ≤ high
  Rising low high (m ∷ ms) =
      ((m.sequence ≡ 0) × Rising low high ms) ⊎ ((low < m.sequence) × Rising m.sequence high ms)

  -- One message: what it does to the last sequence number, and that it is kept.
  abbrev Advances : ℕ → ℕ → Option (BrokerMessage D) → Type 0
  Advances low high none = low ≤ high
  Advances low high (some m) =
      ((m.sequence ≡ 0) × (high ≡ low)) ⊎ ((low < m.sequence) × (high ≡ m.sequence))

  filter_message-Advances :
      (c : LiveConnection D) (m : BrokerMessage D)
      → let (c', got) = filter_message c m in Advances c.last_sequence c'.last_sequence got
  unfolding filter_message accept_in_time
  filter_message-Advances c m = ground arith

  dispatch-Advances :
      (k : MessageKind) (c : LiveConnection D) (m : BrokerMessage D)
      → let (c', got) = dispatch k c m in Advances c.last_sequence c'.last_sequence got
  unfolding dispatch
  dispatch-Advances heartbeat c m = omega arith
  dispatch-Advances unknown c m = omega arith
  dispatch-Advances _ c m = filter_message-Advances c m

  receive-Advances :
      (c : LiveConnection D) (m : BrokerMessage D) (now : Timestamp)
      → let (c', got) = receive c m now in Advances c.last_sequence c'.last_sequence got
  unfolding receive
  receive-Advances c m now = dispatch-Advances m.kind _ _

  pub Rising-mono :
      (low mid high : ℕ) (ms : List (BrokerMessage D))
      → low ≤ mid
      → Rising mid high ms
      → Rising low high ms
  Rising-mono low mid high [] h r = omega arith
  Rising-mono low mid high (m ∷ ms) h (inl (zero, r)) = inl (zero, Rising-mono low mid high ms h r)
  Rising-mono low mid high (m ∷ ms) h (inr (above, r)) = inr (omega arith, r)

  Rising-keep :
      (low mid high : ℕ) (got : Option (BrokerMessage D)) (ms : List (BrokerMessage D))
      → Advances low mid got
      → Rising mid high ms
      → Rising low high (keep got ms)
  Rising-keep low mid high none ms a r = Rising-mono low mid high ms a r
  Rising-keep low mid high (some m) ms (inl (zero, same)) r =
      inl (zero, Rising-mono low mid high ms (omega arith) r)
  Rising-keep low mid high (some m) ms (inr (above, same)) r =
      inr (above, subst (λ k. Rising k high ms) same r)

  receive_all-Rising :
      (c : LiveConnection D) (ms : List (BrokerMessage D × Timestamp))
      → Rising c.last_sequence (receive_all c ms).0.last_sequence (receive_all c ms).1
  unfolding receive_all
  receive_all-Rising c [] = omega arith
  receive_all-Rising c ((m, now) ∷ ms) =
      Rising-keep c.last_sequence _ _ (receive c m now).1 _ (receive-Advances c m now)
        (receive_all-Rising (receive c m now).0 ms)

  pub poll-Rising :
      (c : LiveConnection D) (is_open : Bool) (ms : List (BrokerMessage D × Timestamp))
      → Rising c.last_sequence (poll c is_open ms).0.last_sequence (poll c is_open ms).1
  unfolding poll
  poll-Rising c true ms = receive_all-Rising c ms
  poll-Rising c false ms = omega arith
