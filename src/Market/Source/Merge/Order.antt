-- ===== src/Market/Source/Merge/Order.antt =====
-- The order of what `merge_sorted` of src/market/source.cpp puts out, for exchange times alone and
-- for exchange times with ties by instrument.
use predictive_trading_lab.Prelude.{
  ℕ, zero, suc, ◌≡◌, refl, inl, inr, Bool, true, false, if◌then◌else◌, Option, none, some, List, [],
  ◌∷◌, get_elem?, All, Option-cases, Bool-cases,
}
use mathlib.Core.Path.{subst}
use predictive_trading_lab.Market.Event.{MarketEvent}
use predictive_trading_lab.Market.Source.{goes_first, best_stream, advance, merge_rounds}
use predictive_trading_lab.Market.Source.Merge.{picked-start}

-- An event that is followed by events that are no earlier, in an order of events.
module _ {D : Type 0} (R : MarketEvent D → MarketEvent D → Type 0) where
  unfoldable pub IsInOrder : List (MarketEvent D) → Type 0
  IsInOrder [] = Unit
  IsInOrder (e ∷ []) = Unit
  IsInOrder (e ∷ f ∷ rest) = R e f × IsInOrder (f ∷ rest)

  abbrev StartsAfter : MarketEvent D → List (MarketEvent D) → Type 0
  StartsAfter e [] = Unit
  StartsAfter e (f ∷ rest) = R e f

  abbrev IsAfter : MarketEvent D → Option (ℕ × MarketEvent D) → Type 0
  IsAfter e none = Unit
  IsAfter e (some best) = R e best.1

  IsInOrder-cons :
      (e : MarketEvent D) (rest : List (MarketEvent D))
      → StartsAfter e rest
      → IsInOrder rest
      → IsInOrder (e ∷ rest)
  unfolding IsInOrder
  IsInOrder-cons e [] h k = tt
  IsInOrder-cons e (f ∷ rest) h k = (h, k)

  IsInOrder-uncons :
      (e : MarketEvent D) (rest : List (MarketEvent D))
      → IsInOrder (e ∷ rest)
      → StartsAfter e rest × IsInOrder rest
  unfolding IsInOrder
  IsInOrder-uncons e [] h = (tt, tt)
  IsInOrder-uncons e (f ∷ rest) h = h

  advance-All :
      (P : List (MarketEvent D) → Type 0) (k : ℕ) (streams : List (List (MarketEvent D)))
      → ((e : MarketEvent D) (rest : List (MarketEvent D))
          → get_elem? streams k ≡ some (e ∷ rest)
          → P rest)
      → All P streams
      → All P (advance k streams)
  unfolding advance
  advance-All P k [] f h = tt
  advance-All P zero ([] ∷ streams) f h = h
  advance-All P zero ((e ∷ rest) ∷ streams) f h = (f e rest refl, h.1)
  advance-All P (suc k) (stream ∷ streams) f h = (h.0, advance-All P k streams f h.1)

  All-get :
      (P : List (MarketEvent D) → Type 0) (k : ℕ) (streams : List (List (MarketEvent D)))
      (stream : List (MarketEvent D))
      → All P streams
      → get_elem? streams k ≡ some stream
      → P stream
  All-get P k [] stream h e = cc
  All-get P zero (s ∷ streams) stream h e = let same : s ≡ stream = cc in subst P same h.0
  All-get P (suc k) (s ∷ streams) stream h e = All-get P k streams stream h.1 e

  module _ (before : (a b : MarketEvent D) → goes_first a b ≡ true → R a b)
      (otherwise : (a b : MarketEvent D) → goes_first a b ≡ false → R b a)
      (R_trans : (a b c : MarketEvent D) → R a b → R b c → R a c)
      (R_refl : (a : MarketEvent D) → R a a) where
    -- The event that is picked is no later than any that a stream starts with.
    best_stream-least :
        (i : ℕ) (best : Option (ℕ × MarketEvent D)) (streams : List (List (MarketEvent D)))
        (r : ℕ × MarketEvent D)
        → best_stream i best streams ≡ some r
        → IsAfter r.1 best × All (StartsAfter r.1) streams
    unfolding best_stream
    best_stream-least i best [] r h = (rw h (R_refl r.1), tt)
    best_stream-least i best ([] ∷ streams) r h =
        let (b, s) = best_stream-least (suc i) best streams r h in (b, (tt, s))
    best_stream-least i none ((e ∷ es) ∷ streams) r h =
        let (b, s) = best_stream-least (suc i) (some (i, e)) streams r h in (tt, (b, s))
    best_stream-least i (some best) ((e ∷ es) ∷ streams) r h =
        let next : Bool → Option (ℕ × MarketEvent D) = λ b. some (if b then (i, e) else best) in
        let (b, s) = best_stream-least (suc i) (next (goes_first e best.1)) streams r h in
        elim (Bool-cases (goes_first e best.1)) [
          | inl g ↦
              let to_e = subst (λ x. IsAfter r.1 (next x)) g b in
              (R_trans r.1 e best.1 to_e (before e best.1 g), (to_e, s))
          | inr g ↦
              let to_best = subst (λ x. IsAfter r.1 (next x)) g b in
              (to_best, (R_trans r.1 best.1 e to_best (otherwise e best.1 g), s))
        ]

    merge_rounds-start :
        (n : ℕ) (e : MarketEvent D) (streams : List (List (MarketEvent D)))
        → All (StartsAfter e) streams
        → StartsAfter e (merge_rounds n streams)
    unfolding merge_rounds
    merge_rounds-start zero e streams h = tt
    merge_rounds-start (suc n) e streams h = elim (Option-cases (best_stream 0 none streams)) [
      | inl p ↦ rw (p, merge_rounds) tt
      | inr (r, p) ↦
          let (rest, at) = picked-start streams r p in
          rw (p, merge_rounds) (All-get (StartsAfter e) r.0 streams (r.1 ∷ rest) h at)
    ]

    -- What is left of the streams is in order, and starts after what is picked.
    pub merge_rounds-IsInOrder :
        (n : ℕ) (streams : List (List (MarketEvent D)))
        → All IsInOrder streams
        → IsInOrder (merge_rounds n streams)
    unfolding merge_rounds IsInOrder
    merge_rounds-IsInOrder zero streams h = tt
    merge_rounds-IsInOrder (suc n) streams h = elim (Option-cases (best_stream 0 none streams)) [
      | inl p ↦ rw (p, merge_rounds) tt
      | inr (r, p) ↦
          let (rest, at) = picked-start streams r p in
          let (after, ordered) =
            IsInOrder-uncons r.1 rest (All-get IsInOrder r.0 streams (r.1 ∷ rest) h at) in
          rw (p, merge_rounds)
            (IsInOrder-cons r.1 (merge_rounds n (advance r.0 streams))
              (merge_rounds-start n r.1 (advance r.0 streams) (
                advance-All (StartsAfter r.1) r.0 streams
                  (λ f fs q. let same : rest ≡ fs = cc in subst (StartsAfter r.1) same after)
                  (best_stream-least 0 none streams r p).1))
              (merge_rounds-IsInOrder n (advance r.0 streams) (
                advance-All IsInOrder r.0 streams
                  (λ f fs q. (IsInOrder-uncons f fs (All-get IsInOrder r.0 streams (f ∷ fs) h q)).1)
                  h)))
    ]
