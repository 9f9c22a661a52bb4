-- ===== src/Algo/Schedule/Tiles.antt =====
-- That the slices of a schedule tile its window, for src/algo/schedule.cpp.
use predictive_trading_lab.Prelude.{
  ℕ, zero, suc, ◌+◌, ◌-◌, ◌*◌, ◌/◌, ◌≤◌, ◌<◌, ◌≡◌, ◌==◌, refl, ◌∙◌, inl, inr, Bool, true, false,
  not, ◌||◌, if◌then◌else◌, ltb, leb, Option, none, some, List, [], ◌∷◌, map, length, Result, ok,
  err, Bool-cases, arith,
}
use mathlib.Core.Path.{subst}
use native.Mathlib.Nat.{mul-div-le, mul-le-mul}
use predictive_trading_lab.Prelude.Int.{pos}
use predictive_trading_lab.Prelude.Double.{Double, ◌⊕◌, ◌⊗◌, ◌⊘◌, ◌≤?◌, d0, is_finite}
use predictive_trading_lab.Core.Types.{Timestamp, Duration, is_set}
use predictive_trading_lab.Algo.Schedule.{
  ScheduleSlice, ScheduleError, bad_total, bad_window, no_slices, no_profile, bad_weight, no_volume,
  Slices, last_slice, begin_of, end_of, slice_at, snap_last, repeated, total_quantity, slices_from,
  slices_of, twap, vwap, sum_weights, is_empty,
}

module _ {D : Type 0} where
  -- The slices lie end to end from `b` to `e`.
  unfoldable pub IsTiled : Timestamp → Timestamp → Slices D → Type 0
  IsTiled b e [] = b ≡ e
  IsTiled b e (s ∷ slices) = (s.begin ≡ b) × (s.begin ≤ s.end) × IsTiled s.end e slices

  slice_at-IsTiled :
      (b e ts : Timestamp) (slices : Slices D)
      → IsTiled b e slices
      → b ≤ ts
      → ts < e
      → (s : ScheduleSlice D) × (slice_at slices ts ≡ some s) × (s.begin ≤ ts) × (ts < s.end)
  unfolding IsTiled slice_at
  slice_at-IsTiled b e ts [] h l u = absurd (omega arith)
  slice_at-IsTiled b e ts (s ∷ slices) h l u = elim (Bool-cases (ltb ts s.end)) [
    | inl inside ↦
        let started : ltb ts s.begin ≡ false = ground arith in
        rw (inside, started) (s, refl, omega arith, ground arith)
    | inr after ↦ rw (after) (slice_at-IsTiled s.end e ts slices h.2 (ground arith) u)
  ]

  snap_last-IsTiled :
      (total : D) (b e : Timestamp) (slices : Slices D)
      → IsTiled b e slices
      → IsTiled b e (snap_last total slices)
  unfolding IsTiled snap_last
  snap_last-IsTiled total b e [] h = h
  snap_last-IsTiled total b e (s ∷ []) h = h
  snap_last-IsTiled total b e (s ∷ t ∷ slices) h =
      (h.0, h.1, snap_last-IsTiled total s.end e (t ∷ slices) h.2)

module _ {D : Type 0} ⦃F : Double D⦄ where
  slices_from-IsTiled :
      (begin end : Timestamp) (per : Duration) (n i : ℕ) (cumulative q : D) (rest : List D)
      → i + suc (length rest) ≡ n
      → begin + per * n ≤ end
      → IsTiled (begin + per * i) end (slices_from begin end per n i cumulative (q ∷ rest))
  unfolding IsTiled slices_from
  slices_from-IsTiled begin end per n i cumulative q [] h w =
      let final : (i + 1 == n) ≡ true = ground arith in
      let small : per * i ≤ per * n = mul-le-mul (omega arith) (omega arith) in
      rw (final) (refl, omega arith, refl)
  slices_from-IsTiled begin end per n i cumulative q (r ∷ rest) h w =
      let inner : (i + 1 == n) ≡ false = ground arith in
      let grows : per * i ≤ per * (i + 1) = mul-le-mul (omega arith) (omega arith) in
      rw (inner) (
        refl,
        omega arith,
        slices_from-IsTiled begin end per n (i + 1) (cumulative ⊕ q) r rest (omega arith) w,
      )

  slices_from-whole :
      (q : D) (begin end : Timestamp) (rest : List D)
      → begin ≤ end
      → IsTiled begin end (
          slices_from begin end
            ((end - begin) / length (q ∷ rest))
            (length (q ∷ rest))
            0
            d0
            (q ∷ rest))
  slices_from-whole q begin end rest h =
      let n = length (q ∷ rest) in
      let per = (end - begin) / n in
      let fits : n * per ≤ end - begin = mul-div-le (end - begin) n in
      let tiled : IsTiled (begin + per * 0) end (slices_from begin end per n 0 d0 (q ∷ rest)) =
        slices_from-IsTiled begin end per n 0 d0 q rest (omega arith) (omega arith) in
      let start : begin + per * 0 ≡ begin = omega arith in
      subst (λ b. IsTiled b end (slices_from begin end per n 0 d0 (q ∷ rest))) start tiled

  slices_of-IsTiled :
      (total q : D) (begin end : Timestamp) (rest : List D)
      → begin ≤ end
      → IsTiled begin end (slices_of total begin end (q ∷ rest))
  slices_of-IsTiled total q begin end rest h =
      let n = length (q ∷ rest) in
      snap_last-IsTiled total begin end
        (slices_from begin end ((end - begin) / n) n 0 d0 (q ∷ rest))
        (slices_from-whole q begin end rest h)

module _ {D : Type 0} where
  last_slice-snap :
      (total : D) (s t : ScheduleSlice D) (rest : Slices D)
      → last_slice (s ∷ snap_last total (t ∷ rest)) ≡ last_slice (snap_last total (t ∷ rest))
  unfolding last_slice snap_last
  last_slice-snap total s t [] = refl
  last_slice-snap total s t (u ∷ rest) = refl

  snapped-last :
      (total : D) (b e : Timestamp) (s : ScheduleSlice D) (rest : Slices D)
      → IsTiled b e (s ∷ rest)
      → (x : ScheduleSlice D) × (last_slice (snap_last total (s ∷ rest)) ≡ some x)
        × (x.end ≡ e)
        × (x.cumulative_target ≡ total)
  unfolding IsTiled last_slice snap_last
  snapped-last total b e s [] h = (record s { cumulative_target = total }, refl, h.2, refl)
  snapped-last total b e s (t ∷ rest) h =
      let (x, found, ended, full) = snapped-last total s.end e t rest h.2 in
      (x, last_slice-snap total s t rest ∙ found, ended, full)

  snapped-begin :
      (total : D) (b e : Timestamp) (s : ScheduleSlice D) (rest : Slices D)
      → IsTiled b e (s ∷ rest)
      → begin_of (snap_last total (s ∷ rest)) ≡ b
  unfolding IsTiled begin_of snap_last
  snapped-begin total b e s [] h = h.0
  snapped-begin total b e s (t ∷ rest) h = h.0

-- A result that was not refused by a check is that of the rest.
passed :
    {A : Type 0} (b : Bool) (e : ScheduleError) (r : Result ScheduleError A) (a : A)
    → (if b then err e else r) ≡ ok a
    → r ≡ ok a
passed true e r a h = cc
passed false e r a h = h

module _ {D : Type 0} ⦃F : Double D⦄ where
  -- The schedule runs from `begin` to `end` and works off the total, and at `ts` one of its slices
  -- is due.
  abbrev pub IsWorked : D → Timestamp → Timestamp → Timestamp → Slices D → Type 0
  IsWorked total begin end ts slices =
      (begin_of slices ≡ begin)
      × (end_of slices ≡ end)
      × (total_quantity slices ≡ total)
      × ((s : ScheduleSlice D) × (slice_at slices ts ≡ some s) × (s.begin ≤ ts) × (ts < s.end))

  slices_of-IsWorked :
      (total q : D) (begin end ts : Timestamp) (rest : List D)
      → begin ≤ ts
      → ts < end
      → IsWorked total begin end ts (slices_of total begin end (q ∷ rest))
  unfolding slices_from total_quantity end_of last_slice snap_last
  slices_of-IsWorked total q begin end ts rest l u =
      let n = length (q ∷ rest) in
      let per = (end - begin) / n in
      let s : ScheduleSlice D = record {
        index = 0;
        begin = begin + per * 0;
        end = if 0 + 1 == n then end else begin + per * (0 + 1);
        target_quantity = q;
        cumulative_target = d0 ⊕ q;
      } in
      let more = slices_from begin end per n 1 (d0 ⊕ q) rest in
      let raw = slices_from-whole q begin end rest (omega arith) in
      let tiled = slices_of-IsTiled total q begin end rest (omega arith) in
      let (x, found, ended, full) = snapped-last total begin end s more raw in
      (
        snapped-begin total begin end s more raw,
        rw (found) ended,
        rw (found) full,
        slice_at-IsTiled begin end ts (snap_last total (s ∷ more)) tiled l u,
      )

  -- What the two checks of a schedule let through is decided by the rest.
  window-passed :
      (total : D) (begin end : Timestamp) (r : Result ScheduleError (Slices D)) (slices : Slices D)
      → (if not (is_finite total) || (total ≤? d0)
          then err bad_total
          else if not (is_set begin) || not (is_set end) || leb end begin
          then err bad_window
          else r)
        ≡ ok slices
      → r ≡ ok slices
  window-passed total begin end r slices h =
      passed (not (is_set begin) || not (is_set end) || leb end begin) bad_window r slices (
        passed (not (is_finite total) || (total ≤? d0)) bad_total
          (if not (is_set begin) || not (is_set end) || leb end begin then err bad_window else r)
          slices h)

  vwap-summed :
      (total : D) (begin end ts : Timestamp) (w : D) (profile : List D) (slices : Slices D)
      (summed : Option D)
      → (elim summed [
        | none ↦ err bad_weight
        | some sum ↦
            if sum ≤? d0
            then err no_volume
            else ok (slices_of total begin end (map (λ v. total ⊗ (v ⊘ sum)) (w ∷ profile)))
      ])
        ≡ ok slices
      → begin ≤ ts
      → ts < end
      → IsWorked total begin end ts slices
  vwap-summed total begin end ts w profile slices none h l u = cc
  vwap-summed total begin end ts w profile slices (some sum) h l u =
      let quantity : D → D = λ v. total ⊗ (v ⊘ sum) in
      let made : ok (slices_of total begin end (map quantity (w ∷ profile))) ≡ ok slices =
        passed (sum ≤? d0) no_volume (ok (slices_of total begin end (map quantity (w ∷ profile))))
          slices h in
      let it : slices_of total begin end (map quantity (w ∷ profile)) ≡ slices = cc (made) in
      subst (IsWorked total begin end ts) it
        (slices_of-IsWorked total (quantity w) begin end ts (map quantity profile) l u)

  -- A TWAP schedule that is accepted runs exactly from `begin` to `end`, its target at the end is
  -- the whole quantity, and at each instant of the window a slice is due that holds the instant.
  pub twap-IsWorked :
      (total : D) (begin end ts : Timestamp) (slice_count : ℕ) (slices : Slices D)
      → twap total begin end slice_count ≡ ok slices
      → begin ≤ ts
      → ts < end
      → IsWorked total begin end ts slices
  unfolding twap repeated
  twap-IsWorked total begin end ts zero slices h l u =
      let last : err no_slices ≡ ok slices =
        window-passed total begin end (err no_slices) slices h in
      cc (last)
  twap-IsWorked total begin end ts (suc n) slices h l u =
      let share = total ⊘ F.of_ℤ (pos (suc n)) in
      let result : Result ScheduleError (Slices D) =
        ok (slices_of total begin end (repeated (suc n) share)) in
      let made : ok (slices_of total begin end (repeated (suc n) share)) ≡ ok slices =
        passed (suc n == 0) no_slices result slices
          (window-passed total begin end (if suc n == 0 then err no_slices else result) slices h) in
      let it : slices_of total begin end (repeated (suc n) share) ≡ slices = cc (made) in
      subst (IsWorked total begin end ts) it
        (slices_of-IsWorked total share begin end ts (repeated n share) l u)

  -- So does a VWAP schedule that is accepted, whatever the volume profile is.
  pub vwap-IsWorked :
      (total : D) (begin end ts : Timestamp) (profile : List D) (slices : Slices D)
      → vwap total begin end profile ≡ ok slices
      → begin ≤ ts
      → ts < end
      → IsWorked total begin end ts slices
  unfolding vwap is_empty
  vwap-IsWorked total begin end ts [] slices h l u =
      let last : err no_profile ≡ ok slices =
        window-passed total begin end (err no_profile) slices h in
      cc (last)
  vwap-IsWorked total begin end ts (w ∷ profile) slices h l u =
      vwap-summed total begin end ts w profile slices (sum_weights d0 (w ∷ profile))
        (window-passed total begin end _ slices h) l u
