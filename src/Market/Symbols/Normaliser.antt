-- ===== src/Market/Symbols/Normaliser.antt =====
-- include/ptl/market/quote_stream.hpp and the QuoteNormaliser of src/market/symbol_mapper.cpp: quotes
-- out of the records of a vendor.
use predictive_trading_lab.Prelude.{
  ℕ, suc, ◌+◌, Bool, not, ◌&&◌, ◌||◌, if◌then◌else◌, ltb, Option, none, some, List, [], ◌∷◌, Result,
  ok, err,
}
use predictive_trading_lab.Prelude.Int.{ℤ, pos, negsuc, ltb_ℤ}
use predictive_trading_lab.Prelude.Double.{Double, ◌⊗◌, ◌<?◌}
use predictive_trading_lab.Core.Types.{Timestamp, Duration, InstrumentId, epoch}
use predictive_trading_lab.Market.Events.{Quote, create}
use predictive_trading_lab.Market.Symbols.{SymbolMapper, resolve_vendor_id}

pub record RawQuote : Type 0 where
  pub vendor_instrument_id : ℕ
  pub exchange_time_ns : ℤ
  pub bid_price_fixed : ℤ
  pub ask_price_fixed : ℤ
  pub bid_size : ℕ
  pub ask_size : ℕ

pub record QuoteNormaliserConfig (D : Type 0) : Type 0 where
  pub price_scale : D
  pub feed_latency : Duration
  pub drop_one_sided : Bool

pub record QuoteNormaliserStats : Type 0 where
  pub accepted : ℕ
  pub dropped_unmapped : ℕ
  pub dropped_one_sided : ℕ
  pub dropped_invalid : ℕ
  pub dropped_crossed : ℕ

pub data NormaliserError : Type 0 where
  not_chronological : ℕ → NormaliserError

-- A time after the epoch.
unfoldable pub at_ns : ℤ → Timestamp
at_ns (pos n) = epoch + n
at_ns (negsuc n) = 0

unfoldable pub is_positive : ℤ → Bool
is_positive z = ltb_ℤ (pos 0) z

module _ {D : Type 0} where
  abbrev pub push : Option (Quote D) → List (Quote D) → List (Quote D)
  push none out = out
  push (some quote) out = quote ∷ out

module _ {D : Type 0} ⦃F : Double D⦄ (mapper : SymbolMapper) (cfg : QuoteNormaliserConfig D) where
  -- From the record whose time and instrument are known on.
  unfoldable pub priced :
      RawQuote → InstrumentId → QuoteNormaliserStats → QuoteNormaliserStats × Option (Quote D)
  priced raw instrument stats =
      let bid = F.of_ℤ raw.bid_price_fixed ⊗ cfg.price_scale in
      let ask = F.of_ℤ raw.ask_price_fixed ⊗ cfg.price_scale in
      if cfg.drop_one_sided
        && (not (is_positive raw.bid_price_fixed) || not (is_positive raw.ask_price_fixed))
      then (record stats { dropped_one_sided = stats.dropped_one_sided + 1 }, none)
      else if ask <? bid
      then (record stats { dropped_crossed = stats.dropped_crossed + 1 }, none)
      else elim (create instrument (at_ns raw.exchange_time_ns) bid (F.of_ℤ (pos raw.bid_size)) ask
          (F.of_ℤ (pos raw.ask_size)) cfg.feed_latency) [
            | err e ↦ (record stats { dropped_invalid = stats.dropped_invalid + 1 }, none)
            | ok quote ↦ (record stats { accepted = stats.accepted + 1 }, some quote)
          ]

  unfoldable pub normalise :
      QuoteNormaliserStats → RawQuote → QuoteNormaliserStats × Option (Quote D)
  normalise stats raw =
      if not (is_positive raw.exchange_time_ns)
      then (record stats { dropped_invalid = stats.dropped_invalid + 1 }, none)
      else elim (resolve_vendor_id mapper raw.vendor_instrument_id (at_ns raw.exchange_time_ns)) [
        | none ↦ (record stats { dropped_unmapped = stats.dropped_unmapped + 1 }, none)
        | some instrument ↦ priced raw instrument stats
      ]

  unfoldable pub normalise_all :
      QuoteNormaliserStats → List RawQuote → QuoteNormaliserStats × List (Quote D)
  normalise_all stats [] = (stats, [])
  normalise_all stats (raw ∷ raws) =
      let made = normalise stats raw in
      let rest = normalise_all made.0 raws in (rest.0, push made.1 rest.1)

-- All records that the counts account for.
abbrev pub tally : QuoteNormaliserStats → ℕ
tally s =
    s.accepted + s.dropped_unmapped + s.dropped_one_sided + s.dropped_invalid + s.dropped_crossed

module _ {D : Type 0} where
  -- The index of the first quote that is stamped before the one above it.
  unfoldable pub unordered_quote : ℕ → Quote D → List (Quote D) → Option ℕ
  unordered_quote i q [] = none
  unordered_quote i q (r ∷ quotes) =
      if ltb r.time.exchange_time q.time.exchange_time
      then some i
      else unordered_quote (suc i) r quotes

  unfoldable pub first_unordered_quote : List (Quote D) → Option ℕ
  first_unordered_quote [] = none
  first_unordered_quote (q ∷ quotes) = unordered_quote 1 q quotes

module _ {D : Type 0} ⦃F : Double D⦄ where
  unfoldable pub normalise_batch :
      SymbolMapper
      → QuoteNormaliserConfig D
      → QuoteNormaliserStats
      → List RawQuote
      → QuoteNormaliserStats × Result NormaliserError (List (Quote D))
  normalise_batch mapper cfg stats raws =
      let made = normalise_all mapper cfg stats raws in
      elim (first_unordered_quote made.1) [
        | some i ↦ (made.0, err (not_chronological i))
        | none ↦ (made.0, ok made.1)
      ]
