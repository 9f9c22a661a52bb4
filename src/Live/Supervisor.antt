-- ===== src/Live/Supervisor.antt =====
-- `ConnectionSupervisor` of include/ptl/live/connection.hpp and src/live/connection.cpp: when to
-- reconnect. The multiplier is not negative; of a negative product the backoff would be 0 here.
use predictive_trading_lab.Prelude.{
  ℕ, suc, ◌+◌, Bool, true, false, not, ◌&&◌, ltb, leb, min, if◌then◌else◌,
}
use predictive_trading_lab.Prelude.Int.{pos, pos_part}
use predictive_trading_lab.Prelude.Double.{Double, ◌⊗◌}
use predictive_trading_lab.Core.Types.{Timestamp, no_timestamp, is_set, Duration}

pub record SupervisorConfig (D : Type 0) : Type 0 where
  pub initial_backoff : Duration
  pub max_backoff : Duration
  pub backoff_multiplier : D
  pub max_attempts : ℕ

pub record ConnectionSupervisor (D : Type 0) : Type 0 where
  pub config : SupervisorConfig D
  pub backoff : Duration
  pub next_attempt : Timestamp
  pub attempts : ℕ
  pub successes : ℕ

module _ {D : Type 0} where
  -- A new supervisor.
  abbrev pub connection_supervisor : SupervisorConfig D → ConnectionSupervisor D
  connection_supervisor config = record {
    config = config;
    backoff = config.initial_backoff;
    next_attempt = no_timestamp;
    attempts = 0;
    successes = 0;
  }

  unfoldable pub exhausted : ConnectionSupervisor D → Bool
  exhausted s = ltb 0 s.config.max_attempts && leb s.config.max_attempts s.attempts

  unfoldable pub should_attempt : ConnectionSupervisor D → Timestamp → Bool
  unfolding exhausted
  should_attempt s now =
      if exhausted s
      then false
      else if not (is_set s.next_attempt)
      then true
      else is_set now && leb s.next_attempt now

  unfoldable pub record_success : ConnectionSupervisor D → Timestamp → ConnectionSupervisor D
  record_success s now = record s {
    successes = suc s.successes;
    attempts = 0;
    backoff = s.config.initial_backoff;
    next_attempt = now;
  }

  unfoldable pub record_failure : ConnectionSupervisor D → Timestamp → ConnectionSupervisor D
  record_failure s now = if is_set now then record s { next_attempt = now + s.backoff } else s

module _ {D : Type 0} ⦃F : Double D⦄ where
  -- `static_cast<std::int64_t>(static_cast<double>(backoff_.count()) * multiplier)`.
  unfoldable pub grown : ConnectionSupervisor D → Duration
  grown s = pos_part (F.trunc (F.of_ℤ (pos s.backoff) ⊗ s.config.backoff_multiplier))

  unfoldable pub record_attempt : ConnectionSupervisor D → Timestamp → ConnectionSupervisor D
  unfolding grown
  record_attempt s now = record s {
    attempts = suc s.attempts;
    next_attempt = if is_set now then now + s.backoff else s.next_attempt;
    backoff = min (grown s) s.config.max_backoff;
  }
