-- ===== src/Algo/Schedule/Examples.antt =====
-- The theorems on schedules at concrete windows, for src/algo/schedule.cpp.
use predictive_trading_lab.Prelude.{refl, [], ◌∷◌, arith}
use predictive_trading_lab.Prelude.Int.{◌+ℤ◌, ◌*ℤ◌, quot_ℤ}
use predictive_trading_lab.Prelude.Double.{Fixed, fixed, lit, is_finite}
use predictive_trading_lab.Algo.Schedule.{
  Slices, slices_from, slices_of, snap_last, repeated, twap, sum_weights, is_empty, vwap,
}
use predictive_trading_lab.Algo.Schedule.Tiles.{IsWorked, twap-IsWorked, vwap-IsWorked}

-- 100 to 110 in three slices of 3, 3 and 4.
abbrev sliced : Slices Fixed
sliced = slices_of (lit 12 1) 100 110 (lit 4 1 ∷ lit 4 1 ∷ lit 4 1 ∷ [])

twap-IsWorked_example : IsWorked (lit 12 1) 100 110 107 sliced
unfolding twap is_finite repeated slices_from snap_last ◌*ℤ◌ quot_ℤ
twap-IsWorked_example =
    twap-IsWorked (lit 12 1) 100 110 107 3 sliced refl (omega arith) (omega arith)

-- The same volume in both halves.
abbrev weighted : Slices Fixed
weighted = slices_of (lit 12 1) 100 110 (lit 6 1 ∷ lit 6 1 ∷ [])

vwap-IsWorked_example : IsWorked (lit 12 1) 100 110 104 weighted
unfolding vwap is_finite is_empty sum_weights slices_from snap_last ◌+ℤ◌ ◌*ℤ◌ quot_ℤ
vwap-IsWorked_example =
    vwap-IsWorked (lit 12 1) 100 110 104 (lit 1 1 ∷ lit 1 1 ∷ []) weighted refl (omega arith)
      (omega arith)
