-- ===== src/Portfolio/Positions.antt =====
-- What holds of every position of a portfolio (src/portfolio/portfolio.cpp).
use predictive_trading_lab.Prelude.{
  ℕ, ◌≡◌, ◌⊎◌, inl, inr, refl, sym, ◌∙◌, Bool, true, false, not, ◌&&◌, List, [], ◌∷◌, All,
  Option-cases, arith,
}
use mathlib.Core.Path.{subst}
use predictive_trading_lab.Prelude.Double.{Double, ◌⊕◌, ◌<?◌, ◌=?◌, d0}
use predictive_trading_lab.Prelude.Map.{Map, lookup, insert, All-insert, All-lookup}
use predictive_trading_lab.Core.Types.{InstrumentId, Timestamp}
use predictive_trading_lab.Market.Events.{Quote}
use predictive_trading_lab.Oms.Fill.{Fill, signed_fill}
use predictive_trading_lab.Portfolio.Holdings.{Position, position_in}
use predictive_trading_lab.Portfolio.Holdings
use predictive_trading_lab.Portfolio.{
  Portfolio, PortfolioConfig, portfolio, short_slack, held, book, apply, apply_dividend, mark,
  mark_last, mark_from_quote, snapshot, apply_split,
}
use predictive_trading_lab.Portfolio.Trace.{
  Call, fills, splits, dividends, marks_at, marks_last, marks_quote, snapshots, step, run,
}

abbrev pub is_split : {D : Type 0} → Call D → Bool
is_split (splits instrument ratio) = true
is_split _ = false

module _ {D : Type 0} ⦃F : Double D⦄ where
  -- The check of `apply` that shorting is allowed or not done.
  abbrev refused : Bool → Position D → Fill D → Bool
  refused allow p fill = not allow && (p.quantity ⊕ signed_fill fill <? short_slack)

  -- The three states that `apply` can leave.
  apply-leaves :
      (allow : Bool) (pf : Portfolio D) (fill : Fill D)
      → pf.config.allow_short ≡ allow
      → ((apply pf fill).0 ≡ pf)
        ⊎ ((apply pf fill).0 ≡ record pf {
          positions = insert fill.instrument (held pf.positions fill.instrument) pf.positions;
        })
        ⊎ (((apply pf fill).0 ≡ book pf fill)
            × (refused allow (held pf.positions fill.instrument) fill ≡ false))
  unfolding apply
  apply-leaves allow pf fill same = ground arith

  apply_dividend-positions :
      (pf : Portfolio D) (i : InstrumentId) (per_share : D)
      → (apply_dividend pf i per_share).positions ≡ pf.positions
  unfolding apply_dividend
  apply_dividend-positions pf i per_share = ground arith

  mark-positions :
      (pf : Portfolio D) (i : InstrumentId) (bid ask : D)
      → (mark pf i bid ask).positions ≡ pf.positions
  unfolding mark
  mark-positions pf i bid ask = refl

  mark_last-positions :
      (pf : Portfolio D) (i : InstrumentId) (price : D)
      → (mark_last pf i price).positions ≡ pf.positions
  unfolding mark_last
  mark_last-positions pf i price = refl

  mark_from_quote-positions :
      (pf : Portfolio D) (q : Quote D) → (mark_from_quote pf q).positions ≡ pf.positions
  unfolding mark_from_quote mark
  mark_from_quote-positions pf q = refl

  snapshot-positions :
      (pf : Portfolio D) (ts : Timestamp) → (snapshot pf ts).0.positions ≡ pf.positions
  unfolding snapshot
  snapshot-positions pf ts = ground arith

  step-allow_short :
      (pf : Portfolio D) (call : Call D) → (step pf call).config.allow_short ≡ pf.config.allow_short
  unfolding step apply book apply_split apply_dividend mark mark_last mark_from_quote snapshot
  step-allow_short pf call = ground arith

  -- What holds of a new position and is kept by a fill that is let through.
  record IsKept (P : ℕ × Position D → Type 0) (allow : Bool) : Type 0 where
    at_first : (i : InstrumentId) → P (i, position_in i)
    after :
        (i : InstrumentId) (p : Position D) (fill : Fill D)
        → P (i, p)
        → refused allow p fill ≡ false
        → P (i, (Holdings.apply p fill).0)

  module _ (P : ℕ × Position D → Type 0) (allow : Bool) (kept : IsKept P allow) where
    held-All : (ps : Map (Position D)) (i : InstrumentId) → All P ps → P (i, held ps i)
    unfolding held
    held-All ps i h = elim (Option-cases (lookup i ps)) [
      | inl e ↦ rw (e, held) (kept.at_first i)
      | inr (p, e) ↦ rw (e, held) (All-lookup P i p ps h e)
    ]

    book-All :
        (pf : Portfolio D) (fill : Fill D)
        → All P pf.positions
        → refused allow (held pf.positions fill.instrument) fill ≡ false
        → All P (book pf fill).positions
    unfolding book
    book-All pf fill h fits =
        All-insert P fill.instrument _ pf.positions
          (kept.after fill.instrument _ fill (held-All pf.positions fill.instrument h) fits) h

    apply-All :
        (pf : Portfolio D) (fill : Fill D)
        → pf.config.allow_short ≡ allow
        → All P pf.positions
        → All P (apply pf fill).0.positions
    apply-All pf fill same h = elim (apply-leaves allow pf fill same) [
      | inl e ↦ rw e h
      | inr (inl e) ↦
          rw e (
            All-insert P fill.instrument _ pf.positions (held-All pf.positions fill.instrument h) h)
      | inr (inr (e, fits)) ↦ rw e (book-All pf fill h fits)
    ]

    step-All :
        (pf : Portfolio D) (call : Call D)
        → is_split call ≡ false
        → pf.config.allow_short ≡ allow
        → All P pf.positions
        → All P (step pf call).positions
    unfolding step
    step-All pf (fills fill) whole same h = apply-All pf fill same h
    step-All pf (splits i ratio) whole same h = ground arith
    step-All pf (dividends i per_share) whole same h =
        subst (All P) (sym (apply_dividend-positions pf i per_share)) h
    step-All pf (marks_at i bid ask) whole same h =
        subst (All P) (sym (mark-positions pf i bid ask)) h
    step-All pf (marks_last i price) whole same h =
        subst (All P) (sym (mark_last-positions pf i price)) h
    step-All pf (marks_quote q) whole same h =
        subst (All P) (sym (mark_from_quote-positions pf q)) h
    step-All pf (snapshots ts) whole same h = subst (All P) (sym (snapshot-positions pf ts)) h

    run-All :
        (pf : Portfolio D) (calls : List (Call D))
        → All (λ call. is_split call ≡ false) calls
        → pf.config.allow_short ≡ allow
        → All P pf.positions
        → All P (run pf calls).positions
    unfolding run
    run-All pf [] whole same h = h
    run-All pf (call ∷ calls) whole same h =
        run-All (step pf call) calls whole.1 (step-allow_short pf call ∙ same)
          (step-All pf call whole.0 same h)

  never_short-IsKept :
      (d0 {D = D} <? short_slack) ≡ false
      → IsKept (λ e. (e.1.quantity <? short_slack) ≡ false) false
  unfolding Holdings.apply
  never_short-IsKept zero = record { at_first = λ i. zero; after = λ i p fill h fits. ground arith }

  -- Where shorting is off and 0.0 is not less than -1e-9, no position that any fills, dividends,
  -- marks and snapshots leave is shorter than -1e-9.
  pub never_short :
      (config : PortfolioConfig D) (calls : List (Call D))
      → (d0 {D = D} <? short_slack) ≡ false
      → config.allow_short ≡ false
      → All (λ call. is_split call ≡ false) calls
      → All (λ e. (e.1.quantity <? short_slack) ≡ false) (run (portfolio config) calls).positions
  never_short config calls zero off whole =
      run-All _ false (never_short-IsKept zero) (portfolio config) calls whole off tt

  flat_costless-IsKept :
      (allow : Bool) → IsKept (λ e. ((e.1.quantity =? d0) ≡ false) ⊎ (e.1.average_cost ≡ d0)) allow
  unfolding Holdings.apply
  flat_costless-IsKept allow = record {
    at_first = λ i. inr refl;
    after = λ i p fill h fits. ground arith;
  }

  -- A position that fills, dividends, marks and snapshots leave flat has the cost basis 0.0.
  pub flat_costless :
      (config : PortfolioConfig D) (calls : List (Call D))
      → All (λ call. is_split call ≡ false) calls
      → All
          (λ e. ((e.1.quantity =? d0) ≡ false) ⊎ (e.1.average_cost ≡ d0))
          (run (portfolio config) calls).positions
  flat_costless config calls whole =
      run-All _ config.allow_short (flat_costless-IsKept _) (portfolio config) calls whole refl tt
