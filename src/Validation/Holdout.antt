-- ===== src/Validation/Holdout.antt =====
-- `HoldoutGuard` of include/ptl/validation/walk_forward.hpp and src/validation/walk_forward.cpp.
pub mod Locked
use predictive_trading_lab.Prelude.{
  ℕ, zero, suc, ◌+◌, Bool, true, false, not, ◌&&◌, ◌||◌, ltb, leb, if◌then◌else◌, List, [], ◌∷◌,
  Result, ok, err, ◌>>◌, length, Text,
}
use predictive_trading_lab.Core.Types.{Timestamp, is_set}
use predictive_trading_lab.Core.Time.{ObservationInterval}
use predictive_trading_lab.Validation.WalkForward.{Fold, row}

pub record HoldoutGuard : Type 0 where
  pub boundary : Timestamp
  pub unlocked : Bool
  pub justification : Text

-- The messages of `bad(...)` and `make_error(...)`; a set is named by the fold's part.
pub data HoldoutError : Type 0 where
  no_justification holdout_locked : HoldoutError
  train_reaches validation_reaches test_reaches : HoldoutError

unfoldable pub unlock : HoldoutGuard → Text → HoldoutGuard × Result HoldoutError Bool
unlock g [] = (g, err no_justification)
unlock g (c ∷ cs) = (record g { unlocked = true; justification = c ∷ cs }, ok true)

unfoldable pub is_holdout : HoldoutGuard → Timestamp → Bool
is_holdout g ts = is_set g.boundary && leb g.boundary ts

unfoldable pub check : HoldoutGuard → Timestamp → Result HoldoutError Bool
unfolding is_holdout
check g ts = if not (is_holdout g ts) || g.unlocked then ok true else err holdout_locked

-- A row whose decision or whose label reaches the boundary.
unfoldable pub touches : HoldoutGuard → ObservationInterval → Bool
unfolding is_holdout
touches g o = is_holdout g o.feature_end_time || is_holdout g o.label_end_time

pub record FilterResult : Type 0 where
  pub allowed_rows : List ℕ
  pub withheld : ℕ

-- The body of the loop of `filter`: `i` is withheld or allowed.
unfoldable pub admit : Bool → ℕ → FilterResult → FilterResult
admit true i r = record r { withheld = suc r.withheld }
admit false i r = record r { allowed_rows = i ∷ r.allowed_rows }

unfoldable pub filter_from : HoldoutGuard → ℕ → List ObservationInterval → FilterResult
unfolding touches admit
filter_from g i [] = record { allowed_rows = []; withheld = 0 }
filter_from g i (o ∷ os) = admit (touches g o && not g.unlocked) i (filter_from g (suc i) os)

unfoldable pub filter : HoldoutGuard → List ObservationInterval → FilterResult
unfolding filter_from
filter g os = filter_from g 0 os

-- `scan` of `check_fold`: the error names the set that was scanned.
unfoldable pub scan :
    HoldoutGuard → List ObservationInterval → HoldoutError → List ℕ → Result HoldoutError Bool
unfolding touches
scan g os reaches [] = ok true
scan g os reaches (i ∷ is) =
    let rest = scan g os reaches is in
    if leb (length os) i then rest else if touches g (row os i) then err reaches else rest

abbrev pub and_then : Result HoldoutError Bool → Result HoldoutError Bool → Result HoldoutError Bool
and_then (ok b) r = r
and_then (err e) r = err e

unfoldable pub check_fold :
    HoldoutGuard → Fold → List ObservationInterval → Result HoldoutError Bool
unfolding scan
check_fold g f os =
    if g.unlocked || not (is_set g.boundary)
    then ok true
    else and_then (scan g os train_reaches f.train_rows) (
        and_then (scan g os validation_reaches f.validation_rows)
          (scan g os test_reaches f.test_rows))
