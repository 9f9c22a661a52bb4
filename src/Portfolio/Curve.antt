-- ===== src/Portfolio/Curve.antt =====
-- The equity curve of src/portfolio/portfolio.cpp.
use mathlib.Core.Path.{subst}
use predictive_trading_lab.Prelude.{
  ◌≤◌, ◌≡◌, ◌≢◌, sym, true, false, List, inl, inr, Bool-cases, [], ◌∷◌, err, arith,
}
use predictive_trading_lab.Prelude.Double.{Double, ◌⊖◌, ◌≤?◌, abs, is_finite}
use predictive_trading_lab.Core.Types.{InstrumentId, Timestamp}
use predictive_trading_lab.Oms.Fill.{Fill}
use predictive_trading_lab.Portfolio.{
  EquityPoint, Portfolio, PortfolioConfig, portfolio, identity_violated, default_tolerance, equity,
  identity_holds, point_at, is_backwards, apply, book, apply_split, apply_dividend, mark, mark_last,
  mark_from_quote, snapshot,
}
use predictive_trading_lab.Portfolio.Trace.{
  Call, fills, splits, dividends, marks_at, marks_last, marks_quote, snapshots, step, run,
}

module _ {D : Type 0} ⦃F : Double D⦄ where
  -- Every point has a finite equity and no earlier point a later time; the last point first.
  abbrev pub IsChronicle : List (EquityPoint D) → Type 0
  IsChronicle [] = Unit
  IsChronicle (p ∷ []) = is_finite p.equity ≡ true
  IsChronicle (p ∷ q ∷ points) =
      (is_finite p.equity ≡ true) × (q.ts ≤ p.ts) × IsChronicle (q ∷ points)

  apply-curve : (pf : Portfolio D) (fill : Fill D) → (apply pf fill).0.curve ≡ pf.curve
  unfolding apply book
  apply-curve pf fill = ground arith

  apply_split-curve :
      (pf : Portfolio D) (instrument : InstrumentId) (ratio : D)
      → (apply_split pf instrument ratio).0.curve ≡ pf.curve
  unfolding apply_split
  apply_split-curve pf instrument ratio = ground arith

  apply_dividend-curve :
      (pf : Portfolio D) (instrument : InstrumentId) (per_share : D)
      → (apply_dividend pf instrument per_share).curve ≡ pf.curve
  unfolding apply_dividend
  apply_dividend-curve pf instrument per_share = ground arith

  extend-IsChronicle :
      (p : EquityPoint D) (points : List (EquityPoint D))
      → is_finite p.equity ≡ true
      → is_backwards points p.ts ≡ false
      → IsChronicle points
      → IsChronicle (p ∷ points)
  extend-IsChronicle p [] finite forward h = finite
  extend-IsChronicle p (q ∷ points) finite forward h = (finite, ground arith, h)

  snapshot-IsChronicle :
      (pf : Portfolio D) (ts : Timestamp)
      → IsChronicle pf.curve
      → IsChronicle (snapshot pf ts).0.curve
  unfolding snapshot
  snapshot-IsChronicle pf ts h = ground (arith, extend-IsChronicle (point_at pf ts) pf.curve)

  step-IsChronicle :
      (pf : Portfolio D) (call : Call D) → IsChronicle pf.curve → IsChronicle (step pf call).curve
  unfolding step mark mark_last mark_from_quote
  step-IsChronicle pf (fills fill) h = subst IsChronicle (sym (apply-curve pf fill)) h
  step-IsChronicle pf (splits i ratio) h = subst IsChronicle (sym (apply_split-curve pf i ratio)) h
  step-IsChronicle pf (dividends i per_share) h =
      subst IsChronicle (sym (apply_dividend-curve pf i per_share)) h
  step-IsChronicle pf (marks_at i bid ask) h = h
  step-IsChronicle pf (marks_last i price) h = h
  step-IsChronicle pf (marks_quote q) h = h
  step-IsChronicle pf (snapshots ts) h = snapshot-IsChronicle pf ts h

  run-IsChronicle :
      (pf : Portfolio D) (calls : List (Call D))
      → IsChronicle pf.curve
      → IsChronicle (run pf calls).curve
  unfolding run
  run-IsChronicle pf [] h = h
  run-IsChronicle pf (call ∷ calls) h =
      run-IsChronicle (step pf call) calls (step-IsChronicle pf call h)

  -- After any calls on a new portfolio the points of the equity curve are in the order of time,
  -- and the equity of each is finite.
  pub curve-IsChronicle :
      (config : PortfolioConfig D) (calls : List (Call D))
      → IsChronicle (run (portfolio config) calls).curve
  curve-IsChronicle config calls = run-IsChronicle (portfolio config) calls tt

  -- A snapshot compares the equity with the same sum, computed again. So where the difference of
  -- a finite double and itself is within the tolerance, as IEEE 754 has it, a snapshot never
  -- reports a violated identity, however the bookings went.
  pub identity_unviolated :
      (pf : Portfolio D) (ts : Timestamp)
      → ((x : D) → is_finite x ≡ true → (abs (x ⊖ x) ≤? default_tolerance) ≡ true)
      → (snapshot pf ts).1 ≢ err identity_violated
  unfolding snapshot identity_holds equity
  identity_unviolated pf ts cancels e = elim (Bool-cases (is_finite (equity pf))) [
    | inl finite ↦ ground (arith, cancels (equity pf) finite)
    | inr infinite ↦ ground arith
  ]
