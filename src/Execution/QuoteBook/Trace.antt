-- ===== src/Execution/QuoteBook/Trace.antt =====
-- Sequences of calls on a quote book, and what holds of its entries (src/execution/quote_book.cpp).
use predictive_trading_lab.Prelude.{
  ℕ, ◌≡◌, ◌⊎◌, inl, inr, refl, sym, true, false, ◌&&◌, ltb, some, List, [], ◌∷◌, All, Option-cases,
  arith,
}
use predictive_trading_lab.Prelude.Double.{Double}
use predictive_trading_lab.Prelude.Map.{Map, lookup, All-insert, All-lookup, insert}
use predictive_trading_lab.Core.Types.{Timestamp, no_timestamp, InstrumentId}
use predictive_trading_lab.Market.Events.{Quote}
use predictive_trading_lab.Execution.QuoteModels.{TradingState}
use predictive_trading_lab.Execution.QuoteBook.{
  Entry, QuoteBook, entry_at, set_trading_state, reset, holding, update, read_entry, state_at,
}
use mathlib.Core.Path.{subst}

pub data Call (D : Type 0) : Type 0 where
  updates : Quote D → Call D
  states : InstrumentId → TradingState → Call D
  reads : InstrumentId → Timestamp → Call D
  resets : Call D

module _ {D : Type 0} where
  -- An entry without a quote has no time; one with a quote has that quote's, of its instrument.
  abbrev pub IsHeld : ℕ × Entry D → Type 0
  IsHeld (key, e) =
      ((e.present ≡ false) × (e.received ≡ no_timestamp))
      ⊎ ((e.present ≡ true)
          × (q : Quote D) × (e.quote ≡ some q)
          × (q.time.exchange_time ≡ e.received)
          × (q.instrument ≡ key))

  abbrev pub IsSound : QuoteBook D → Type 0
  IsSound b = All IsHeld b.entries

  pub entry_at-IsHeld :
      (i : InstrumentId) (entries : Map (Entry D))
      → All IsHeld entries
      → IsHeld (i, entry_at i entries)
  unfolding entry_at
  entry_at-IsHeld i entries h = elim (Option-cases (lookup i entries)) [
    | inl e ↦ rw (e, entry_at) (inl (refl, refl))
    | inr (found, e) ↦ rw (e, entry_at) (All-lookup IsHeld i found entries h e)
  ]

  set_trading_state-IsSound :
      (b : QuoteBook D) (i : InstrumentId) (state : TradingState)
      → IsSound b
      → IsSound (set_trading_state b i state)
  unfolding set_trading_state
  set_trading_state-IsSound b i state h =
      All-insert IsHeld i _ b.entries (entry_at-IsHeld i b.entries h) h

module _ {D : Type 0} ⦃F : Double D⦄ where
  unfoldable pub step : QuoteBook D → Call D → QuoteBook D
  step b (updates q) = (update b q).0
  step b (states i state) = set_trading_state b i state
  step b (reads i now) = (state_at b i now).0
  step b resets = reset b

  unfoldable pub run : QuoteBook D → List (Call D) → QuoteBook D
  unfolding step
  run b [] = b
  run b (call ∷ calls) = run (step b call) calls

  -- The entries that an update leaves, with the case that it is refused or not.
  pub update-entries :
      (b : QuoteBook D) (q : Quote D)
      → ((update b q).0.entries ≡ insert q.instrument (entry_at q.instrument b.entries) b.entries)
        ⊎ (((update b q).0.entries
              ≡ insert q.instrument (holding q (entry_at q.instrument b.entries)) b.entries)
            × (((entry_at q.instrument b.entries).present
                  && ltb q.time.exchange_time (entry_at q.instrument b.entries).received)
                ≡ false))
  unfolding update
  update-entries b q = ground arith

  update-IsSound : (b : QuoteBook D) (q : Quote D) → IsSound b → IsSound (update b q).0
  update-IsSound b q h = elim (update-entries b q) [
    | inl e ↦
        subst (All IsHeld) (sym e)
          (All-insert IsHeld q.instrument _ b.entries (entry_at-IsHeld q.instrument b.entries h) h)
    | inr (e, forward) ↦ subst (All IsHeld) (sym e) (
        All-insert IsHeld q.instrument (holding q (entry_at q.instrument b.entries)) b.entries
          (inr (refl, q, refl, refl, refl)) h)
  ]

  pub state_at-entries :
      (b : QuoteBook D) (i : InstrumentId) (now : Timestamp)
      → (state_at b i now).0.entries ≡ b.entries
  unfolding state_at read_entry
  state_at-entries b i now = ground arith

  pub step-IsSound : (b : QuoteBook D) (call : Call D) → IsSound b → IsSound (step b call)
  unfolding step reset
  step-IsSound b (updates q) h = update-IsSound b q h
  step-IsSound b (states i state) h = set_trading_state-IsSound b i state h
  step-IsSound b (reads i now) h = subst (All IsHeld) (sym (state_at-entries b i now)) h
  step-IsSound b resets h = tt

  pub run-IsSound : (b : QuoteBook D) (calls : List (Call D)) → IsSound b → IsSound (run b calls)
  unfolding run
  run-IsSound b [] h = h
  run-IsSound b (call ∷ calls) h = run-IsSound (step b call) calls (step-IsSound b call h)
