-- ===== src/Accounting/Journal/Order.antt =====
-- The order of the entries of the journal, for src/accounting/journal.cpp.
use predictive_trading_lab.Prelude.{
  ◌≤◌, ◌<◌, ◌≡◌, false, some, List, [], ◌∷◌, ◌++◌, arith, inl, inr, Bool-cases,
}
use predictive_trading_lab.Prelude.Double.{Double}
use predictive_trading_lab.Core.Types.{Timestamp, InstrumentId}
use predictive_trading_lab.Oms.Fill.{Fill}
use predictive_trading_lab.Accounting.Journal.{
  Journal, JournalEntry, last_time, is_before, append, fill_entry, record_fill, rejection_entry,
  record_risk_rejection, match_trades, reset, empty_journal,
}

module _ {D : Type 0} where
  -- No entry is stamped before the one above it.
  unfoldable pub IsChronicle : List (JournalEntry D) → Type 0
  IsChronicle [] = Unit
  IsChronicle (e ∷ []) = Unit
  IsChronicle (e ∷ f ∷ entries) = (e.ts ≤ f.ts) × IsChronicle (f ∷ entries)

  IsChronicle-append :
      (entries : List (JournalEntry D)) (e : JournalEntry D)
      → is_before e.ts (last_time entries) ≡ false
      → IsChronicle entries
      → IsChronicle (entries ++ e ∷ [])
  unfolding IsChronicle last_time
  IsChronicle-append [] e h k = tt
  IsChronicle-append (f ∷ []) e h k = (ground arith, tt)
  IsChronicle-append (f ∷ g ∷ entries) e h k = (k.0, IsChronicle-append (g ∷ entries) e h k.1)

  append-IsChronicle :
      (j : Journal D) (e : JournalEntry D)
      → IsChronicle j.entries
      → IsChronicle (append j e).0.entries
  unfolding append
  append-IsChronicle j e h = elim (Bool-cases (is_before e.ts (last_time j.entries))) [
    | inl late ↦ rw (late, append) h
    | inr early ↦ rw (early, append) (IsChronicle-append j.entries e early h)
  ]

-- A call of a method with what it is given.
pub data Call (D : Type 0) : Type 0 where
  call_append : JournalEntry D → Call D
  call_fill : Fill D → Call D
  call_rejection : Timestamp → InstrumentId → Call D
  call_match : Call D
  call_reset : Call D

module _ {D : Type 0} ⦃F : Double D⦄ where
  unfoldable pub step : Call D → Journal D → Journal D
  step (call_append e) j = (append j e).0
  step (call_fill fill) j = record_fill j fill
  step (call_rejection ts instrument) j = record_risk_rejection j ts instrument
  step call_match j = match_trades j
  step call_reset j = reset j

  unfoldable pub run : List (Call D) → Journal D → Journal D
  run [] j = j
  run (c ∷ calls) j = run calls (step c j)

  step-IsChronicle :
      (c : Call D) (j : Journal D) → IsChronicle j.entries → IsChronicle (step c j).entries
  unfolding step record_fill record_risk_rejection match_trades reset IsChronicle
  step-IsChronicle (call_append e) j h = append-IsChronicle j e h
  step-IsChronicle (call_fill fill) j h = append-IsChronicle j (fill_entry fill) h
  step-IsChronicle (call_rejection ts instrument) j h =
      append-IsChronicle j (rejection_entry ts instrument) h
  step-IsChronicle call_match j h = h
  step-IsChronicle call_reset j h = tt

  run-IsChronicle :
      (calls : List (Call D)) (j : Journal D)
      → IsChronicle j.entries
      → IsChronicle (run calls j).entries
  unfolding run
  run-IsChronicle [] j h = h
  run-IsChronicle (c ∷ calls) j h = run-IsChronicle calls (step c j) (step-IsChronicle c j h)

  -- Whatever is recorded and in whatever order, the entries of the journal never go back in time.
  pub journal-IsChronicle : (calls : List (Call D)) → IsChronicle (run calls empty_journal).entries
  unfolding IsChronicle
  journal-IsChronicle calls = run-IsChronicle calls empty_journal tt

  -- A fill that is stamped before the last entry is kept for the trades and the reconciliation,
  -- but the entries do not show it.
  pub late_fill_unlisted :
      (j : Journal D) (fill : Fill D) (last : Timestamp)
      → last_time j.entries ≡ some last
      → fill.times.fill_time < last
      → ((record_fill j fill).entries ≡ j.entries)
        × ((record_fill j fill).fills ≡ j.fills ++ fill ∷ [])
  unfolding record_fill append fill_entry
  late_fill_unlisted j fill last h k = (ground arith, ground arith)
