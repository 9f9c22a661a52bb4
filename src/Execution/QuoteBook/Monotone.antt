-- ===== src/Execution/QuoteBook/Monotone.antt =====
-- A quote book does not go back in time (src/execution/quote_book.cpp).
use mathlib.Core.Path.{subst}
use predictive_trading_lab.Prelude.{
  ◌≤◌, ◌≡◌, inl, inr, refl, sym, ap, ◌∙◌, Bool, true, false, ◌&&◌, ltb, ◌==◌, ==_iff, if◌then◌else◌,
  Option, none, some, List, [], ◌∷◌, All, Option-cases, Bool-cases, arith,
}
use predictive_trading_lab.Prelude.Double.{Double}
use predictive_trading_lab.Prelude.Map.{Map, lookup, insert, lookup-insert}
use predictive_trading_lab.Core.Types.{InstrumentId}
use predictive_trading_lab.Market.Events.{Quote}
use predictive_trading_lab.Execution.QuoteBook.{
  QuoteBookConfig, Entry, QuoteBook, quote_book, new_entry, entry_at, holding, set_trading_state,
  update, last_update,
}
use predictive_trading_lab.Execution.QuoteBook.Trace.{
  Call, updates, states, reads, resets, IsHeld, IsSound, entry_at-IsHeld, step, run, update-entries,
  state_at-entries, step-IsSound, run-IsSound,
}

abbrev pub is_reset : {D : Type 0} → Call D → Bool
is_reset resets = true
is_reset _ = false

module _ {D : Type 0} where
  abbrev or_new : Option (Entry D) → Entry D
  or_new none = new_entry
  or_new (some e) = e

  entry_at-or_new : (i : InstrumentId) (m : Map (Entry D)) → entry_at i m ≡ or_new (lookup i m)
  unfolding entry_at
  entry_at-or_new i m = elim (Option-cases (lookup i m)) [
    | inl e ↦ rw (e, entry_at) refl
    | inr (found, e) ↦ rw (e, entry_at) refl
  ]

  or_new-if :
      (same : Bool) (e : Entry D) (o : Option (Entry D))
      → or_new (if same then some e else o) ≡ (if same then e else or_new o)
  or_new-if true e o = refl
  or_new-if false e o = refl

  entry_at-insert :
      (k i : InstrumentId) (e : Entry D) (m : Map (Entry D))
      → entry_at i (insert k e m) ≡ (if k == i then e else entry_at i m)
  entry_at-insert k i e m =
      entry_at-or_new i (insert k e m)
      ∙ ap or_new (lookup-insert k i e m)
      ∙ or_new-if (k == i) e (lookup i m)
      ∙ ap (λ o. if k == i then e else o) (sym (entry_at-or_new i m))

  last_update-entry_at :
      (b : QuoteBook D) (i : InstrumentId) → last_update b i ≡ (entry_at i b.entries).received
  unfolding last_update entry_at
  last_update-entry_at b i = elim (Option-cases (lookup i b.entries)) [
    | inl e ↦ rw (e, entry_at, last_update) refl
    | inr (found, e) ↦ rw (e, entry_at, last_update) refl
  ]

  -- Putting an entry that is not older in the place of an instrument's entry.
  insert-later :
      (k i : InstrumentId) (e : Entry D) (m : Map (Entry D))
      → (entry_at k m).received ≤ e.received
      → (entry_at i m).received ≤ (entry_at i (insert k e m)).received
  insert-later k i e m later =
      subst (λ x. (entry_at i m).received ≤ x.received) (sym (entry_at-insert k i e m))
        (elim (Bool-cases (k == i)) [
          | inl same ↦
              rw same
                (subst (λ j. (entry_at j m).received ≤ e.received) ((==_iff k i).0 same) later)
          | inr other ↦ rw other (omega arith)
        ])

module _ {D : Type 0} ⦃F : Double D⦄ where
  holding-later :
      (i : InstrumentId) (q : Quote D) (e : Entry D)
      → IsHeld (i, e)
      → (e.present && ltb q.time.exchange_time e.received) ≡ false
      → e.received ≤ (holding q e).received
  holding-later i q e (inl (gone, zero)) forward = omega (arith, zero)
  holding-later i q e (inr held) forward = ground (arith, held.0)

  update-later :
      (b : QuoteBook D) (q : Quote D) (i : InstrumentId)
      → IsSound b
      → (entry_at i b.entries).received ≤ (entry_at i (update b q).0.entries).received
  update-later b q i sound = elim (update-entries b q) [
    | inl e ↦
        subst (λ m. (entry_at i b.entries).received ≤ (entry_at i m).received) (sym e)
          (insert-later q.instrument i _ b.entries (omega arith))
    | inr (e, forward) ↦
        subst (λ m. (entry_at i b.entries).received ≤ (entry_at i m).received) (sym e)
          (insert-later q.instrument i (holding q (entry_at q.instrument b.entries)) b.entries (
            holding-later q.instrument q (entry_at q.instrument b.entries)
              (entry_at-IsHeld q.instrument b.entries sound) forward))
  ]

  step-later :
      (b : QuoteBook D) (call : Call D) (i : InstrumentId)
      → is_reset call ≡ false
      → IsSound b
      → (entry_at i b.entries).received ≤ (entry_at i (step b call).entries).received
  unfolding step set_trading_state
  step-later b (updates q) i keeps sound = update-later b q i sound
  step-later b (states k state) i keeps sound = insert-later k i _ b.entries (omega arith)
  step-later b (reads k now) i keeps sound =
      subst (λ m. (entry_at i b.entries).received ≤ (entry_at i m).received)
        (sym (state_at-entries b k now)) (omega arith)
  step-later b resets i keeps sound = ground arith

  run-later :
      (b : QuoteBook D) (calls : List (Call D)) (i : InstrumentId)
      → All (λ call. is_reset call ≡ false) calls
      → IsSound b
      → (entry_at i b.entries).received ≤ (entry_at i (run b calls).entries).received
  unfolding run
  run-later b [] i keeps sound = omega arith
  run-later b (call ∷ calls) i keeps sound = omega (
    arith,
    step-later b call i keeps.0 sound,
    run-later (step b call) calls i keeps.1 (step-IsSound b call sound),
  )

  -- From any state that a book reaches, calls without a reset never set the time of the last
  -- quote of an instrument back, in whatever order quotes arrive.
  pub last_update_mono :
      (config : QuoteBookConfig) (before calls : List (Call D)) (i : InstrumentId)
      → All (λ call. is_reset call ≡ false) calls
      → let b = run (quote_book config) before in last_update b i ≤ last_update (run b calls) i
  last_update_mono config before calls i keeps =
      let b = run (quote_book config) before in
      omega (
        arith,
        last_update-entry_at b i,
        last_update-entry_at (run b calls) i,
        run-later b calls i keeps (run-IsSound (quote_book config) before tt),
      )
