-- ===== src/Validation/WalkForward.antt =====
-- `WalkForwardValidator` of src/validation/walk_forward.cpp with the folds of
-- include/ptl/validation/fold.hpp. Rows are indices into the list of observations. Sums of indices
-- are not cut off at 64 bits.
pub mod Window
pub mod Loop
pub mod Separation
pub mod Folds
pub mod Embargo
use predictive_trading_lab.Prelude.{
  ℕ, zero, suc, ◌+◌, ◌-◌, Bool, true, false, not, ◌&&◌, ◌||◌, ◌==◌, ltb, leb, min, if◌then◌else◌,
  Option, none, some, List, [], ◌∷◌, ◌++◌, Result, ok, err, length, get_elem?, range,
}
use mathlib.Core.Option
use predictive_trading_lab.Core.Types.{Timestamp, no_timestamp}
use predictive_trading_lab.Core.Time.{ObservationInterval, label_overlaps}

pub data WindowMode : Type 0 where
  rolling expanding : WindowMode

pub record Fold : Type 0 where
  pub fold_id : ℕ
  pub mode : WindowMode
  pub train_begin : Timestamp
  pub train_end : Timestamp
  pub validation_begin : Timestamp
  pub validation_end : Timestamp
  pub test_begin : Timestamp
  pub test_end : Timestamp
  pub train_rows : List ℕ
  pub validation_rows : List ℕ
  pub test_rows : List ℕ
  pub purged_rows : List ℕ
  pub embargoed_rows : List ℕ

pub record WalkForwardConfig : Type 0 where
  pub mode : WindowMode
  pub train_size : ℕ
  pub validation_size : ℕ
  pub test_size : ℕ
  pub step : ℕ
  pub warmup : ℕ
  pub embargo : ℕ
  pub min_train_rows : ℕ
  pub purge : Bool

-- The messages of `bad(...)`.
pub data SplitError : Type 0 where
  zero_window : SplitError
  not_chronological : ℕ → SplitError

-- Past the end, which the code never reads, the stamps are not set.
abbrev pub no_interval : ObservationInterval
no_interval = record {
  sample_start_time = no_timestamp;
  feature_end_time = no_timestamp;
  label_start_time = no_timestamp;
  label_end_time = no_timestamp;
}

abbrev pub or_none : Option ObservationInterval → ObservationInterval
or_none none = no_interval
or_none (some o) = o

-- `intervals[i]`.
unfoldable pub row : List ObservationInterval → ℕ → ObservationInterval
row intervals i = or_none (get_elem? intervals i)

-- The index of the first observation that is earlier than the one before it.
unfoldable pub disorder : ℕ → Timestamp → List ObservationInterval → Option ℕ
disorder i previous [] = none
disorder i previous (o ∷ os) =
    let rest = disorder (suc i) o.feature_end_time os in
    if ltb o.feature_end_time previous then some i else rest

abbrev pub disorder_of : List ObservationInterval → Option ℕ
disorder_of [] = none
disorder_of (o ∷ os) = disorder 1 o.feature_end_time os

-- The purging window of a fold: the validation window and the test window.
pub record Windows : Type 0 where
  pub val_from : Timestamp
  pub val_to : Timestamp
  pub test_from : Timestamp
  pub test_to : Timestamp

unfoldable pub leaks : Windows → ObservationInterval → Bool
leaks w o = label_overlaps o w.val_from w.val_to || label_overlaps o w.test_from w.test_to

-- The body of the training loop: the rows kept, and the rows purged.
unfoldable pub keep_row : Bool → ℕ → List ℕ × List ℕ → List ℕ × List ℕ
keep_row true i (train, purged) = (train, i ∷ purged)
keep_row false i (train, purged) = (i ∷ train, purged)

unfoldable pub train_split : Bool → Windows → List ObservationInterval → List ℕ → List ℕ × List ℕ
unfolding leaks keep_row
train_split purge w intervals [] = ([], [])
train_split purge w intervals (i ∷ is) =
    keep_row (purge && leaks w (row intervals i)) i (train_split purge w intervals is)

-- The first row of the training window that ends before `train_end_idx`.
unfoldable pub train_start : WalkForwardConfig → ℕ → ℕ
train_start c train_end_idx = elim c.mode [
  | rolling ↦ if leb c.train_size train_end_idx then train_end_idx - c.train_size else 0
  | expanding ↦ c.warmup
]

-- The windows of the fold whose training window ends before `train_end_idx`.
unfoldable pub windows : WalkForwardConfig → List ObservationInterval → ℕ → Windows
unfolding row
windows c intervals train_end_idx =
    let val_end = train_end_idx + c.validation_size in
    let test_end = val_end + c.test_size in
    record {
      val_from = (row intervals train_end_idx).feature_end_time;
      val_to = (row intervals (val_end - 1)).label_end_time;
      test_from = (row intervals val_end).feature_end_time;
      test_to = (row intervals (test_end - 1)).label_end_time;
    }

-- One round of `while (true)` after its exit test.
unfoldable pub make_fold : WalkForwardConfig → List ObservationInterval → ℕ → ℕ → Fold
unfolding train_start windows train_split row
make_fold c intervals fold_id train_end_idx =
    let val_end = train_end_idx + c.validation_size in
    let test_end = val_end + c.test_size in
    let start = train_start c train_end_idx in
    let w = windows c intervals train_end_idx in
    let rows = train_split c.purge w intervals (range start (train_end_idx - start)) in
    record {
      fold_id = fold_id;
      mode = c.mode;
      train_begin = (row intervals start).feature_end_time;
      train_end = (row intervals (train_end_idx - 1)).feature_end_time;
      validation_begin = w.val_from;
      validation_end = (row intervals (val_end - 1)).feature_end_time;
      test_begin = w.test_from;
      test_end = (row intervals (test_end - 1)).feature_end_time;
      train_rows = rows.0;
      validation_rows = range train_end_idx c.validation_size;
      test_rows = range val_end c.test_size;
      purged_rows = rows.1;
      embargoed_rows = range test_end (min (length intervals) (test_end + c.embargo) - test_end);
    }

-- The exit test of the loop.
abbrev pub past_end : WalkForwardConfig → List ObservationInterval → ℕ → Bool
past_end c intervals train_end_idx =
    ltb (length intervals) (train_end_idx + c.validation_size + c.test_size)

-- A fold with too few training rows is skipped; its number is used up.
abbrev pub emit : WalkForwardConfig → Fold → List Fold → List Fold
emit c f rest = if ltb (length f.train_rows) c.min_train_rows then rest else f ∷ rest

-- `while (true)`, on fuel; `none` means that the fuel ran out.
unfoldable pub folds_from :
    ℕ → WalkForwardConfig → List ObservationInterval → ℕ → ℕ → Option (List Fold)
unfolding make_fold
folds_from zero c intervals fold_id train_end_idx = none
folds_from (suc fuel) c intervals fold_id train_end_idx =
    elim (past_end c intervals train_end_idx) [
      | true ↦ some []
      | false ↦
          Option.map (emit c (make_fold c intervals fold_id train_end_idx))
            (folds_from fuel c intervals (suc fold_id) (train_end_idx + c.step))
    ]

-- Fuel for one round more than there are observations.
unfoldable pub split :
    WalkForwardConfig → List ObservationInterval → Result SplitError (Option (List Fold))
unfolding folds_from disorder
split c [] = ok (some [])
split c (o ∷ os) =
    if c.train_size == 0 || c.test_size == 0 || c.step == 0
    then err zero_window
    else elim (disorder_of (o ∷ os)) [
      | some i ↦ err (not_chronological i)
      | none ↦ ok (folds_from (suc (length (o ∷ os))) c (o ∷ os) 0 (c.warmup + c.train_size))
    ]

-- Both window modes; the first error is returned.
abbrev pub pair_up :
    Result SplitError (Option (List Fold))
    → Result SplitError (Option (List Fold))
    → Result SplitError (Option (List Fold) × Option (List Fold))
pair_up (ok r) (ok e) = ok (r, e)
pair_up (ok r) (err x) = err x
pair_up (err x) e = err x

unfoldable pub split_both_modes :
    WalkForwardConfig
    → List ObservationInterval
    → Result SplitError (Option (List Fold) × Option (List Fold))
unfolding split
split_both_modes c intervals =
    pair_up (split (record c { mode = rolling }) intervals)
      (split (record c { mode = expanding }) intervals)

-- `Fold::disjoint`: no index is seen twice.
unfoldable pub seen : ℕ → List ℕ → Bool
seen i [] = false
seen i (j ∷ js) = i == j || seen i js

unfoldable pub no_repeat : List ℕ → List ℕ → Bool
unfolding seen
no_repeat before [] = true
no_repeat before (i ∷ is) = not (seen i before) && no_repeat (i ∷ before) is

unfoldable pub disjoint : Fold → Bool
unfolding no_repeat
disjoint f = no_repeat [] (f.train_rows ++ (f.validation_rows ++ f.test_rows))
