-- ===== src/Algo/Schedule.antt =====
-- ExecutionSchedule of include/ptl/algo/schedule.hpp and src/algo/schedule.cpp: the slices of a
-- window of time that an order is worked in.
pub mod Tiles
mod Examples
use predictive_trading_lab.Prelude.{
  ℕ, zero, suc, ◌+◌, ◌-◌, ◌*◌, ◌/◌, ◌≡◌, Bool, true, false, not, ◌&&◌, ◌||◌, ◌==◌, if◌then◌else◌,
  ltb, leb, Option, none, some, List, [], ◌∷◌, map, length, Result, ok, err,
}
use predictive_trading_lab.Prelude.Int.{pos}
use predictive_trading_lab.Prelude.Double.{
  Double, ◌⊕◌, ◌⊖◌, ◌⊗◌, ◌⊘◌, ◌<?◌, ◌≤?◌, d0, d1, is_finite, fmax, fmin,
}
use predictive_trading_lab.Core.Types.{Timestamp, Duration, no_timestamp, is_set}

pub record ScheduleSlice (D : Type 0) : Type 0 where
  pub index : ℕ
  pub begin : Timestamp
  pub end : Timestamp
  pub target_quantity : D
  pub cumulative_target : D

pub data ScheduleError : Type 0 where
  bad_total bad_window no_slices no_profile bad_weight no_volume : ScheduleError

-- `slices_`.
abbrev pub Slices : Type 0 → Type 0
Slices D = List (ScheduleSlice D)

module _ {D : Type 0} where
  unfoldable pub last_slice : Slices D → Option (ScheduleSlice D)
  last_slice [] = none
  last_slice (s ∷ []) = some s
  last_slice (s ∷ t ∷ slices) = last_slice (t ∷ slices)

  unfoldable pub begin_of : Slices D → Timestamp
  begin_of [] = no_timestamp
  begin_of (s ∷ slices) = s.begin

  unfoldable pub end_of : Slices D → Timestamp
  end_of slices = elim (last_slice slices) [ none ↦ no_timestamp | some s ↦ s.end ]

  -- `upper_bound` on the ends, which do not fall: the first slice that ends after `ts`.
  unfoldable pub slice_at : Slices D → Timestamp → Option (ScheduleSlice D)
  slice_at [] ts = none
  slice_at (s ∷ slices) ts =
      if ltb ts s.end then if ltb ts s.begin then none else some s else slice_at slices ts

  -- The last cumulative target is set to the total.
  unfoldable pub snap_last : D → Slices D → Slices D
  snap_last total [] = []
  snap_last total (s ∷ []) = record s { cumulative_target = total } ∷ []
  snap_last total (s ∷ t ∷ slices) = s ∷ snap_last total (t ∷ slices)

  unfoldable pub repeated : ℕ → D → List D
  repeated zero x = []
  repeated (suc n) x = x ∷ repeated n x

module _ {D : Type 0} ⦃F : Double D⦄ where
  unfoldable pub total_quantity : Slices D → D
  total_quantity slices = elim (last_slice slices) [ none ↦ d0 | some s ↦ s.cumulative_target ]

  -- The share of its slice that has elapsed at `ts`.
  abbrev pub interpolated : ScheduleSlice D → Timestamp → D
  interpolated s ts =
      let span = F.of_ℤ (pos (s.end - s.begin)) in
      let elapsed = F.of_ℤ (pos (ts - s.begin)) in
      let fraction = if d0 <? span then fmin (fmax (elapsed ⊘ span) d0) d1 else d1 in
      (s.cumulative_target ⊖ s.target_quantity) ⊕ s.target_quantity ⊗ fraction

  unfoldable pub target_by : Slices D → Timestamp → D
  target_by [] ts = d0
  target_by (s ∷ slices) ts =
      if ltb ts s.begin
      then d0
      else if leb (end_of (s ∷ slices)) ts
      then total_quantity (s ∷ slices)
      else elim (slice_at (s ∷ slices) ts) [ none ↦ d0 | some found ↦ interpolated found ts ]

  -- The loop of `twap` and of `vwap`, from slice `i` of `n` on, over the quantities of the slices.
  unfoldable pub slices_from : Timestamp → Timestamp → Duration → ℕ → ℕ → D → List D → Slices D
  slices_from begin end per n i cumulative [] = []
  slices_from begin end per n i cumulative (quantity ∷ rest) =
      let next = cumulative ⊕ quantity in
      record {
        index = i;
        begin = begin + per * i;
        end = if i + 1 == n then end else begin + per * (i + 1);
        target_quantity = quantity;
        cumulative_target = next;
      }
      ∷ slices_from begin end per n (i + 1) next rest

  abbrev pub slices_of : D → Timestamp → Timestamp → List D → Slices D
  slices_of total begin end quantities =
      let n = length quantities in
      snap_last total (slices_from begin end ((end - begin) / n) n 0 d0 quantities)

  unfoldable pub twap : D → Timestamp → Timestamp → ℕ → Result ScheduleError (Slices D)
  twap total begin end slice_count =
      if not (is_finite total) || (total ≤? d0)
      then err bad_total
      else if not (is_set begin) || not (is_set end) || leb end begin
      then err bad_window
      else if slice_count == 0
      then err no_slices
      else ok (slices_of total begin end (repeated slice_count (total ⊘ F.of_ℤ (pos slice_count))))

  unfoldable pub immediate : D → Timestamp → Timestamp → Result ScheduleError (Slices D)
  immediate total begin end = twap total begin end 1

  -- The sum of the weights, or none where one of them is negative or not finite.
  unfoldable pub sum_weights : D → List D → Option D
  sum_weights sum [] = some sum
  sum_weights sum (w ∷ profile) =
      let rest = sum_weights (sum ⊕ w) profile in
      if not (is_finite w) || (w <? d0) then none else rest

  unfoldable pub is_empty : List D → Bool
  is_empty [] = true
  is_empty (w ∷ profile) = false

  unfoldable pub vwap : D → Timestamp → Timestamp → List D → Result ScheduleError (Slices D)
  vwap total begin end profile =
      if not (is_finite total) || (total ≤? d0)
      then err bad_total
      else if not (is_set begin) || not (is_set end) || leb end begin
      then err bad_window
      else if is_empty profile
      then err no_profile
      else elim (sum_weights d0 profile) [
        | none ↦ err bad_weight
        | some sum ↦
            if sum ≤? d0
            then err no_volume
            else ok (slices_of total begin end (map (λ w. total ⊗ (w ⊘ sum)) profile))
      ]
