-- ===== src/Market/Symbols/Tally.antt =====
-- That no record of a vendor is lost uncounted, for src/market/symbol_mapper.cpp.
use predictive_trading_lab.Prelude.{suc, ◌≤◌, ◌≡◌, Option, none, some, List, [], ◌∷◌}
use predictive_trading_lab.Prelude.Double.{Double}
use predictive_trading_lab.Market.Events.{Quote}
use predictive_trading_lab.Market.Symbols.Normaliser.{QuoteNormaliserStats, tally}

module _ {D : Type 0} where
  -- One record more is counted, and accepted exactly where there is a quote.
  abbrev IsCounted : QuoteNormaliserStats → QuoteNormaliserStats × Option (Quote D) → Type 0
  IsCounted s (t, none) = (tally t ≡ suc (tally s)) × (t.accepted ≡ s.accepted)
  IsCounted s (t, some q) = (tally t ≡ suc (tally s)) × (t.accepted ≡ suc (s.accepted))

  -- The stamps of the quotes are in order.
  unfoldable pub AreInOrder : List (Quote D) → Type 0
  AreInOrder [] = Unit
  AreInOrder (q ∷ []) = Unit
  AreInOrder (q ∷ r ∷ quotes) =
      (q.time.exchange_time ≤ r.time.exchange_time) × AreInOrder (r ∷ quotes)
