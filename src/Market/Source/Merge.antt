-- ===== src/Market/Source/Merge.antt =====
-- What `merge_sorted` of src/market/source.cpp promises: every event once, in the order of
-- exchange times, and success where every stream is in order.
pub mod Order
pub mod Sorted
use predictive_trading_lab.Prelude.{
  ℕ, zero, suc, ◌+◌, ◌≡◌, ◌≢◌, refl, sym, ap, ◌∙◌, ◌⊎◌, inl, inr, Bool, true, false, if◌then◌else◌,
  Option, none, some, List, [], ◌∷◌, ◌++◌, length, get_elem?, arith, Option-cases, Bool-cases,
}
use mathlib.Core.List.{Perm, perm_middle}
use mathlib.Core.List.Perm
use predictive_trading_lab.Market.Event.{MarketEvent}
use predictive_trading_lab.Market.Source.{goes_first, best_stream, advance, total, merge_rounds}

module _ {D : Type 0} where
  -- All the events of the streams, one stream after the other.
  unfoldable pub concat : List (List (MarketEvent D)) → List (MarketEvent D)
  concat [] = []
  concat (stream ∷ streams) = stream ++ concat streams

  -- Stream `k` starts with an event and goes on with the rest.
  abbrev pub StartsAt : List (List (MarketEvent D)) → ℕ → MarketEvent D → Type 0
  StartsAt streams k e = (rest : List (MarketEvent D)) × (get_elem? streams k ≡ some (e ∷ rest))

  better :
      (i : ℕ) (e : MarketEvent D) (best r : ℕ × MarketEvent D) (b : Bool)
      → some (if b then (i, e) else best) ≡ some r
      → (some best ≡ some r) ⊎ (r ≡ (i, e))
  better i e best r true h = inr cc
  better i e best r false h = inl h

  -- The stream that is picked starts with the event that is picked.
  best_stream-start :
      (i : ℕ) (best : Option (ℕ × MarketEvent D)) (streams : List (List (MarketEvent D)))
      (r : ℕ × MarketEvent D)
      → best_stream i best streams ≡ some r
      → (best ≡ some r) ⊎ ((k : ℕ) × (r.0 ≡ i + k) × StartsAt streams k r.1)
  unfolding best_stream
  best_stream-start i best [] r h = inl h
  best_stream-start i best ([] ∷ streams) r h = elim (best_stream-start (suc i) best streams r h) [
    | inl e ↦ inl e
    | inr (k, p, s) ↦ inr (suc k, omega (arith, p), s)
  ]
  best_stream-start i none ((e ∷ es) ∷ streams) r h =
      elim (best_stream-start (suc i) (some (i, e)) streams r h) [
        | inl p ↦ inr (0, ground arith, (es, ground arith))
        | inr (k, p, s) ↦ inr (suc k, omega (arith, p), s)
      ]
  best_stream-start i (some best) ((e ∷ es) ∷ streams) r h =
      let next = some (if goes_first e best.1 then (i, e) else best) in
      elim (best_stream-start (suc i) next streams r h) [
        | inl p ↦ elim (better i e best r (goes_first e best.1) p) [
          | inl same ↦ inl same
          | inr here ↦ inr (0, ground arith, (es, ground arith))
        ]
        | inr (k, p, s) ↦ inr (suc k, omega (arith, p), s)
      ]

  best_stream-some :
      (i : ℕ) (best : ℕ × MarketEvent D) (streams : List (List (MarketEvent D)))
      → best_stream i (some best) streams ≢ none
  unfolding best_stream
  best_stream-some i best [] h = cc
  best_stream-some i best ([] ∷ streams) h = best_stream-some (suc i) best streams h
  best_stream-some i best ((e ∷ es) ∷ streams) h =
      best_stream-some (suc i) (if goes_first e best.1 then (i, e) else best) streams h

  best_stream-none :
      (i : ℕ) (streams : List (List (MarketEvent D)))
      → best_stream i none streams ≡ none
      → concat streams ≡ []
  unfolding best_stream concat
  best_stream-none i [] h = refl
  best_stream-none i ([] ∷ streams) h = best_stream-none (suc i) streams h
  best_stream-none i ((e ∷ es) ∷ streams) h = elim (best_stream-some (suc i) (i, e) streams h) [ ]

  advance-perm :
      (k : ℕ) (streams : List (List (MarketEvent D))) (e : MarketEvent D)
      → StartsAt streams k e
      → Perm (e ∷ concat (advance k streams)) (concat streams)
  unfolding advance concat
  advance-perm k [] e (rest, h) = cc
  advance-perm zero ([] ∷ streams) e (rest, h) = cc
  advance-perm zero ((f ∷ fs) ∷ streams) e (rest, h) = let same : e ≡ f = cc in rw same Perm.rfl
  advance-perm (suc k) (stream ∷ streams) e (rest, h) =
      Perm.trans (Perm.symm (perm_middle stream (concat (advance k streams))))
        (Perm.append Perm.rfl (advance-perm k streams e (rest, h)))

  advance-total :
      (k : ℕ) (streams : List (List (MarketEvent D))) (e : MarketEvent D)
      → StartsAt streams k e
      → total streams ≡ suc (total (advance k streams))
  unfolding advance total
  advance-total k [] e (rest, h) = cc
  advance-total zero ([] ∷ streams) e (rest, h) = cc
  advance-total zero ((f ∷ fs) ∷ streams) e (rest, h) = omega arith
  advance-total (suc k) (stream ∷ streams) e (rest, h) =
      omega (arith, advance-total k streams e (rest, h))

  -- What a round picks is at the start of the stream whose cursor it moves.
  pub picked-start :
      (streams : List (List (MarketEvent D))) (r : ℕ × MarketEvent D)
      → best_stream 0 none streams ≡ some r
      → StartsAt streams r.0 r.1
  picked-start streams r h = elim (best_stream-start 0 none streams r h) [
    | inl e ↦ cc
    | inr (k, p, s) ↦ let same : r.0 ≡ k = omega (arith, p) in rw same s
  ]

  total-none : (streams : List (List (MarketEvent D))) → total streams ≡ 0 → concat streams ≡ []
  unfolding total concat
  total-none [] h = refl
  total-none ([] ∷ streams) h = total-none streams (omega (arith, h))
  total-none ((e ∷ es) ∷ streams) h = ground arith

  -- As many rounds as there are events put out each of them once.
  pub merge_rounds-perm :
      (n : ℕ) (streams : List (List (MarketEvent D)))
      → total streams ≡ n
      → Perm (merge_rounds n streams) (concat streams)
  unfolding merge_rounds
  merge_rounds-perm zero streams h = rw (total-none streams h) Perm.rfl
  merge_rounds-perm (suc n) streams h = elim (Option-cases (best_stream 0 none streams)) [
    | inl e ↦ rw (e, merge_rounds) (rw (best_stream-none 0 streams e) Perm.rfl)
    | inr (r, e) ↦
        let start = picked-start streams r e in
        rw (e, merge_rounds)
          (Perm.trans
            (Perm.cons r.1 (
              merge_rounds-perm n (advance r.0 streams)
                (omega (arith, advance-total r.0 streams r.1 start, h))))
            (advance-perm r.0 streams r.1 start))
  ]
