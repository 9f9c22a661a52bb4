-- ===== src/Execution/QuoteBook/Reads.antt =====
-- What a quote book answers (src/execution/quote_book.cpp).
use mathlib.Core.Path.{subst}
use predictive_trading_lab.Prelude.{
  ◌+◌, ◌≤◌, ◌≡◌, ◌≢◌, inl, inr, refl, sym, Bool, true, false, ◌&&◌, if◌then◌else◌, none, some, List,
  Option-cases, Bool-cases, arith,
}
use predictive_trading_lab.Prelude.Int.{sub_ℕ}
use predictive_trading_lab.Prelude.Double.{Double, ◌<?◌}
use predictive_trading_lab.Prelude.Map.{lookup, All-lookup}
use predictive_trading_lab.Core.Types.{Timestamp, Duration, InstrumentId}
use predictive_trading_lab.Market.Events.{Quote}
use predictive_trading_lab.Execution.QuoteModels.{
  TradingState, trading, stale, QuoteCondition, QuoteState, executable, is_priced, is_trading,
}
use predictive_trading_lab.Execution.QuoteBook.{
  QuoteBookConfig, Entry, QuoteBook, quote_book, is_stale_age, price_condition, read_entry,
  state_at,
}
use predictive_trading_lab.Execution.QuoteBook.Trace.{Call, IsHeld, IsSound, run, run-IsSound}

executable_parts :
    (old : Bool) (c : QuoteCondition) (t : TradingState)
    → (is_trading t && is_priced (if old then stale else c)) ≡ true
    → (old ≡ false) × (is_priced c ≡ true) × (t ≡ trading)
executable_parts old c t h = ground arith

age_within :
    (budget : Duration) (now received : Timestamp)
    → is_stale_age budget (sub_ℕ now received) ≡ false
    → (received ≤ now) × (now ≤ received + budget)
age_within budget now received h = ground arith

module _ {D : Type 0} ⦃F : Double D⦄ where
  -- The quote of an executable state: of the instrument, from no later than now and no older than
  -- the budget, not crossed, while the instrument trades.
  pub record IsCurrent (b : QuoteBook D) (i : InstrumentId) (now : Timestamp) (s : QuoteState D)
      (q : Quote D) : Type 0 where
    pub held : s.quote ≡ some q
    pub same_instrument : q.instrument ≡ i
    pub not_future : q.time.exchange_time ≤ now
    pub fresh : now ≤ q.time.exchange_time + b.budget
    pub uncrossed : (q.ask <? q.bid) ≡ false
    pub trades : s.trading_state ≡ trading

  price_condition-uncrossed :
      (q : Quote D) → is_priced (price_condition (some q)) ≡ true → (q.ask <? q.bid) ≡ false
  price_condition-uncrossed q h = ground arith

  -- What an executable read needs.
  read_entry-executable :
      (b : QuoteBook D) (e : Entry D) (now : Timestamp)
      → executable (read_entry b e now).1 ≡ true
      → (is_stale_age b.budget (sub_ℕ now e.received) ≡ false)
        × (is_priced (price_condition e.quote) ≡ true)
        × (e.trading_state ≡ trading)
  unfolding read_entry executable
  read_entry-executable b e now h =
      executable_parts (is_stale_age b.budget (sub_ℕ now e.received)) (price_condition e.quote)
        e.trading_state h

  read_entry-IsCurrent :
      (b : QuoteBook D) (i : InstrumentId) (now : Timestamp) (e : Entry D) (q : Quote D)
      → e.quote ≡ some q
      → q.time.exchange_time ≡ e.received
      → q.instrument ≡ i
      → executable (read_entry b e now).1 ≡ true
      → IsCurrent b i now (read_entry b e now).1 q
  unfolding read_entry
  read_entry-IsCurrent b i now e q held time same runs =
      let (current, priced, trades) = read_entry-executable b e now runs in
      let age = age_within b.budget now e.received current in
      record {
        held = held;
        same_instrument = same;
        not_future = omega (arith, age.0, time);
        fresh = omega (arith, age.1, time);
        uncrossed =
            price_condition-uncrossed q
              (subst (λ o. is_priced (price_condition o) ≡ true) held priced);
        trades = trades;
      }

  not_executable :
      (b : QuoteBook D) (i : InstrumentId) (now : Timestamp)
      → lookup i b.entries ≡ none
      → executable (state_at b i now).1 ≢ true
  unfolding executable state_at
  not_executable b i now e = rw (e, state_at) (λ h. cc)

  present_read :
      (b : QuoteBook D) (i : InstrumentId) (now : Timestamp) (e : Entry D)
      → lookup i b.entries ≡ some e
      → e.present ≡ true
      → (state_at b i now).1 ≡ (read_entry b e now).1
  unfolding state_at read_entry
  present_read b i now e found there = rw (found, state_at, there) refl

  absent_read :
      (b : QuoteBook D) (i : InstrumentId) (now : Timestamp) (e : Entry D)
      → lookup i b.entries ≡ some e
      → e.present ≡ false
      → executable (state_at b i now).1 ≢ true
  unfolding executable state_at
  absent_read b i now e found gone = rw (found, state_at, gone) (λ h. cc)

  -- An executable state is a read of the entry that is held.
  state_at-read_entry :
      (b : QuoteBook D) (i : InstrumentId) (now : Timestamp)
      → executable (state_at b i now).1 ≡ true
      → (e : Entry D) × (lookup i b.entries ≡ some e)
        × (e.present ≡ true)
        × ((state_at b i now).1 ≡ (read_entry b e now).1)
  state_at-read_entry b i now h = elim (Option-cases (lookup i b.entries)) [
    | inl none_held ↦ absurd (not_executable b i now none_held h)
    | inr (e, found) ↦ elim (Bool-cases e.present) [
      | inl there ↦ (e, found, there, present_read b i now e found there)
      | inr gone ↦ absurd (absent_read b i now e found gone h)
    ]
  ]

  state_at-IsCurrent :
      (b : QuoteBook D) (i : InstrumentId) (now : Timestamp)
      → IsSound b
      → executable (state_at b i now).1 ≡ true
      → (q : Quote D) × IsCurrent b i now (state_at b i now).1 q
  state_at-IsCurrent b i now sound h =
      let (e, found, there, same) = state_at-read_entry b i now h in
      elim (All-lookup IsHeld i e b.entries sound found) [
        | inl gone ↦ cc
        | inr (present, q, held, time, owner) ↦ (
          q,
          subst (λ s. IsCurrent b i now s q) (sym same)
              (read_entry-IsCurrent b i now e q held time owner
                (subst (λ s. executable s ≡ true) same h)),
        )
      ]

  -- Whatever quotes, halts and resets came before, a state that is executable shows a quote of
  -- the instrument that is not from the future, not older than the staleness budget and not
  -- crossed, and the instrument trades.
  pub executable-IsCurrent :
      (config : QuoteBookConfig) (calls : List (Call D)) (i : InstrumentId) (now : Timestamp)
      → executable (state_at (run (quote_book config) calls) i now).1 ≡ true
      → (q : Quote D) × IsCurrent
          (run (quote_book config) calls)
          i
          now
          (state_at (run (quote_book config) calls) i now).1
          q
  executable-IsCurrent config calls i now h =
      state_at-IsCurrent (run (quote_book config) calls) i now
        (run-IsSound (quote_book config) calls tt) h
