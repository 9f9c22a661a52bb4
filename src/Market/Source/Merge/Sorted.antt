-- ===== src/Market/Source/Merge/Sorted.antt =====
-- The contract of `merge_sorted` of src/market/source.cpp.
use predictive_trading_lab.Prelude.{
  ℕ, suc, ◌≤◌, ◌<◌, ◌≡◌, ◌↔◌, refl, ◌⊎◌, inl, inr, true, false, none, List, [], ◌∷◌, All, ok, err,
  arith, Option-cases,
}
use mathlib.Core.List.{Perm}
use predictive_trading_lab.Market.Event.{MarketEvent, exchange_time_of, instrument_of}
use predictive_trading_lab.Market.Source.{
  unordered_merge, unordered_from, first_unordered, goes_first, total, merge_rounds, merge_sorted,
}
use predictive_trading_lab.Market.Source.Merge.{concat, merge_rounds-perm}
use predictive_trading_lab.Market.Source.Merge.Order.{IsInOrder, merge_rounds-IsInOrder}

module _ {D : Type 0} where
  abbrev NotAfter : MarketEvent D → MarketEvent D → Type 0
  NotAfter a b = exchange_time_of a ≤ exchange_time_of b

  -- No event is stamped before the one that it follows.
  abbrev pub IsChronological : List (MarketEvent D) → Type 0
  IsChronological = IsInOrder NotAfter

  -- Ordered by time, and by instrument at the same time.
  unfoldable pub Precedes : MarketEvent D → MarketEvent D → Type 0
  Precedes a b =
      (exchange_time_of a < exchange_time_of b)
      ⊎ ((exchange_time_of a ≡ exchange_time_of b) × (instrument_of a ≤ instrument_of b))

  before : (a b : MarketEvent D) → goes_first a b ≡ true → NotAfter a b
  unfolding goes_first
  before a b h = ground arith

  otherwise : (a b : MarketEvent D) → goes_first a b ≡ false → NotAfter b a
  unfolding goes_first
  otherwise a b h = ground arith

  before-Precedes : (a b : MarketEvent D) → goes_first a b ≡ true → Precedes a b
  unfolding goes_first Precedes
  before-Precedes a b h = ground arith

  otherwise-Precedes : (a b : MarketEvent D) → goes_first a b ≡ false → Precedes b a
  unfolding goes_first Precedes
  otherwise-Precedes a b h = ground arith

  Precedes-trans : (a b c : MarketEvent D) → Precedes a b → Precedes b c → Precedes a c
  unfolding Precedes
  Precedes-trans a b c h k = ground arith

  Precedes-refl : (a : MarketEvent D) → Precedes a a
  unfolding Precedes
  Precedes-refl a = ground arith

  unordered_from-IsChronological :
      (i : ℕ) (e : MarketEvent D) (events : List (MarketEvent D))
      → (unordered_from i e events ≡ none) ↔ IsChronological (e ∷ events)
  unfolding unordered_from IsInOrder
  unordered_from-IsChronological i e [] = (λ h. tt, λ h. refl)
  unordered_from-IsChronological i e (f ∷ events) =
      let (sound, complete) = unordered_from-IsChronological (suc i) f events in
      (λ h. ground (arith, sound), λ h. ground (arith, complete))

  -- The test of the source accepts what is chronological, and that only.
  pub first_unordered-IsChronological :
      (events : List (MarketEvent D)) → (first_unordered events ≡ none) ↔ IsChronological events
  unfolding first_unordered IsInOrder
  first_unordered-IsChronological [] = (λ h. tt, λ h. refl)
  first_unordered-IsChronological (e ∷ events) = unordered_from-IsChronological 1 e events

  -- Whatever the streams are, what is returned has each of their events once and is chronological;
  -- only an unordered merge is refused.
  pub merge_sorted-perm :
      (streams : List (List (MarketEvent D)))
      → (merge_sorted streams ≡ err unordered_merge)
        ⊎ ((out : List (MarketEvent D)) × (merge_sorted streams ≡ ok out)
            × IsChronological out
            × Perm out (concat streams))
  unfolding merge_sorted
  merge_sorted-perm streams =
      let out = merge_rounds (total streams) streams in
      elim (Option-cases (first_unordered out)) [
        | inl h ↦ inr (
          out,
          rw (h, merge_sorted) refl,
          (first_unordered-IsChronological out).0 h,
          merge_rounds-perm (total streams) streams refl,
        )
        | inr (i, h) ↦ inl (rw (h, merge_sorted) refl)
      ]

  -- Streams that are each chronological are merged: the result has each of their events once and
  -- is chronological.
  pub merge_sorted_lem :
      (streams : List (List (MarketEvent D)))
      → All IsChronological streams
      → (out : List (MarketEvent D)) × (merge_sorted streams ≡ ok out)
        × Perm out (concat streams)
        × IsChronological out
  unfolding merge_sorted
  merge_sorted_lem streams h =
      let out = merge_rounds (total streams) streams in
      let ordered : IsChronological out =
        merge_rounds-IsInOrder NotAfter before otherwise (λ a b c p q. omega (arith, p, q))
          (λ a. omega arith) (total streams) streams h in
      let accepted = (first_unordered-IsChronological out).1 ordered in
      (
        out,
        rw (accepted, merge_sorted) refl,
        merge_rounds-perm (total streams) streams refl,
        ordered,
      )

  Precedes-NotAfter :
      (events : List (MarketEvent D)) → IsInOrder Precedes events → IsChronological events
  unfolding IsInOrder Precedes
  Precedes-NotAfter [] h = tt
  Precedes-NotAfter (e ∷ []) h = tt
  Precedes-NotAfter (e ∷ f ∷ events) h = (ground arith, Precedes-NotAfter (f ∷ events) h.1)

  -- Streams that are ordered by time, with ties by instrument, are merged into one that is ordered
  -- in this way, too: the order of simultaneous events does not depend on their streams.
  pub merge_sorted-Precedes :
      (streams : List (List (MarketEvent D)))
      → All (IsInOrder Precedes) streams
      → (out : List (MarketEvent D)) × (merge_sorted streams ≡ ok out) × IsInOrder Precedes out
  unfolding merge_sorted
  merge_sorted-Precedes streams h =
      let out = merge_rounds (total streams) streams in
      let ordered =
        merge_rounds-IsInOrder Precedes before-Precedes otherwise-Precedes Precedes-trans
          Precedes-refl (total streams) streams h in
      let accepted = (first_unordered-IsChronological out).1 (Precedes-NotAfter out ordered) in
      (out, rw (accepted, merge_sorted) refl, ordered)
