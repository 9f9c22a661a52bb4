-- ===== src/Execution/QuoteBook.antt =====
-- include/ptl/execution/quote_book.hpp and the book of src/execution/quote_book.cpp: the last quote of each instrument. A method returns the book that
-- it leaves behind; a read counts what it sees, so `state_at` returns one too.
pub mod Trace
pub mod Reads
pub mod Monotone
use predictive_trading_lab.Prelude.{
  ℕ, suc, Bool, true, false, not, ◌&&◌, ◌||◌, ltb, if◌then◌else◌, Option, none, some, List, [], ◌∷◌,
  Result, ok, err,
}
use predictive_trading_lab.Prelude.Int.{ℤ, pos, sub_ℕ, ltb_ℤ}
use predictive_trading_lab.Prelude.Double.{Double, ◌<?◌, ◌=?◌}
use predictive_trading_lab.Prelude.Map.{Map, lookup, insert}
use predictive_trading_lab.Core.Types.{Timestamp, no_timestamp, Duration, seconds, InstrumentId}
use predictive_trading_lab.Market.Events.{Quote}
use predictive_trading_lab.Execution.QuoteModels.{
  QuoteCondition, normal, locked, crossed, stale, absent, TradingState, trading, closed, is_halted,
  QuoteTier, default_staleness_budget, QuoteState,
}

pub record QuoteBookConfig : Type 0 where
  pub tier : QuoteTier
  pub staleness_budget : Duration
  pub reject_crossed : Bool

pub record QuoteBookStats : Type 0 where
  pub updates_accepted : ℕ
  pub updates_rejected_out_of_order : ℕ
  pub updates_rejected_crossed : ℕ
  pub locked_observed : ℕ
  pub stale_reads : ℕ
  pub halted_reads : ℕ

pub record Entry (D : Type 0) : Type 0 where
  pub quote : Option (Quote D)
  pub received : Timestamp
  pub trading_state : TradingState
  pub present : Bool

pub record QuoteBook (D : Type 0) : Type 0 where
  pub config : QuoteBookConfig
  pub budget : Duration
  pub entries : Map (Entry D)
  pub stats : QuoteBookStats

pub data UpdateError : Type 0 where
  precedes_held consolidated_crossed : UpdateError

abbrev pub no_stats : QuoteBookStats
no_stats = record {
  updates_accepted = 0;
  updates_rejected_out_of_order = 0;
  updates_rejected_crossed = 0;
  locked_observed = 0;
  stale_reads = 0;
  halted_reads = 0;
}

abbrev pub count_out_of_order : QuoteBookStats → QuoteBookStats
count_out_of_order s = record s {
  updates_rejected_out_of_order = suc s.updates_rejected_out_of_order;
}

abbrev pub count_stale : Bool → QuoteBookStats → QuoteBookStats
count_stale is_stale_age s =
    if is_stale_age then record s { stale_reads = suc s.stale_reads } else s

abbrev pub count_halted : TradingState → QuoteBookStats → QuoteBookStats
count_halted state s = if is_halted state then record s { halted_reads = suc s.halted_reads } else s

-- From the future, or over the budget.
abbrev pub is_stale_age : Duration → ℤ → Bool
is_stale_age budget age = ltb_ℤ age (pos 0) || ltb_ℤ (pos budget) age

module _ {D : Type 0} where
  -- A new book.
  abbrev pub quote_book : QuoteBookConfig → QuoteBook D
  quote_book config = record {
    config = config;
    budget =
        if ltb 0 config.staleness_budget
        then config.staleness_budget
        else default_staleness_budget config.tier;
    entries = [];
    stats = no_stats;
  }

  abbrev pub new_entry : Entry D
  new_entry = record {
    quote = none;
    received = no_timestamp;
    trading_state = trading;
    present = false;
  }

  -- `entries_[key]`, which makes a new entry where there is none.
  unfoldable pub entry_at : InstrumentId → Map (Entry D) → Entry D
  entry_at instrument entries = elim (lookup instrument entries) [ none ↦ new_entry | some e ↦ e ]

  unfoldable pub set_trading_state : QuoteBook D → InstrumentId → TradingState → QuoteBook D
  set_trading_state b instrument state = record b {
    entries =
        insert instrument (record (entry_at instrument b.entries) { trading_state = state })
          b.entries;
  }

  unfoldable pub raw_quote : QuoteBook D → InstrumentId → Option (Quote D)
  raw_quote b instrument = elim (lookup instrument b.entries) [
    | none ↦ none
    | some e ↦ if e.present then e.quote else none
  ]

  unfoldable pub last_update : QuoteBook D → InstrumentId → Timestamp
  last_update b instrument = elim (lookup instrument b.entries) [
    | none ↦ no_timestamp
    | some e ↦ e.received
  ]

  unfoldable pub reset : QuoteBook D → QuoteBook D
  reset b = record b { entries = []; stats = no_stats }

module _ {D : Type 0} ⦃F : Double D⦄ where
  abbrev pub is_crossed : Quote D → Bool
  is_crossed q = q.ask <? q.bid

  -- What the checks of an accepted quote count.
  abbrev pub count_quote : Quote D → QuoteBookStats → QuoteBookStats
  count_quote q s = record s {
    updates_rejected_crossed =
        if is_crossed q then suc s.updates_rejected_crossed else s.updates_rejected_crossed;
    locked_observed = if q.ask =? q.bid then suc s.locked_observed else s.locked_observed;
    updates_accepted = suc s.updates_accepted;
  }

  -- The entry that an accepted quote leaves.
  abbrev pub holding : Quote D → Entry D → Entry D
  holding q e = record e { quote = some q; received = q.time.exchange_time; present = true }

  unfoldable pub update : QuoteBook D → Quote D → QuoteBook D × Result UpdateError Bool
  update b q =
      let e = entry_at q.instrument b.entries in
      let reached = insert q.instrument e b.entries in
      if e.present && ltb q.time.exchange_time e.received
      then (record b { entries = reached; stats = count_out_of_order b.stats }, err precedes_held)
      else if is_crossed q && b.config.reject_crossed
      then (
        record b {
          entries = reached;
          stats = record (b.stats) {
            updates_rejected_crossed = suc b.stats.updates_rejected_crossed;
          };
        },
        err consolidated_crossed,
      )
      else (
        record b {
          entries = insert q.instrument (holding q e) b.entries;
          stats = count_quote q b.stats;
        },
        ok true,
      )

  abbrev pub price_condition : Option (Quote D) → QuoteCondition
  price_condition none = absent
  price_condition (some q) =
      if q.ask <? q.bid then crossed else if q.ask =? q.bid then locked else normal

  -- A read of an entry that is present. One always holds a quote, so the `absent` of
  -- `price_condition` is never given.
  unfoldable pub read_entry : QuoteBook D → Entry D → Timestamp → QuoteBook D × QuoteState D
  read_entry b e now =
      let age = sub_ℕ now e.received in
      let old = is_stale_age b.budget age in
      (
        record b { stats = count_stale old (count_halted e.trading_state b.stats) },
        record {
          quote = e.quote;
          condition = if old then stale else price_condition e.quote;
          trading_state = e.trading_state;
          tier = b.config.tier;
          age = age;
          present = true;
        },
      )

  abbrev pub absent_state : QuoteTier → TradingState → QuoteState D
  absent_state tier state = record {
    quote = none;
    condition = absent;
    trading_state = state;
    tier = tier;
    age = pos 0;
    present = false;
  }

  unfoldable pub state_at : QuoteBook D → InstrumentId → Timestamp → QuoteBook D × QuoteState D
  state_at b instrument now = elim (lookup instrument b.entries) [
    | none ↦ (b, absent_state b.config.tier closed)
    | some e ↦
        if e.present then read_entry b e now else (b, absent_state b.config.tier e.trading_state)
  ]
