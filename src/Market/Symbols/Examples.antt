-- ===== src/Market/Symbols/Examples.antt =====
-- The theorems on symbols and their quotes at concrete inputs, for src/market/symbol_mapper.cpp.
use predictive_trading_lab.Prelude.{◌+◌, ◌≡◌, refl, true, some, List, [], ◌∷◌, Text, text_eq}
use predictive_trading_lab.Prelude.Int.{pos}
use predictive_trading_lab.Prelude.Double.{Fixed, fixed, lit}
use predictive_trading_lab.Core.Types.{epoch, invalid_instrument}
use predictive_trading_lab.Core.Instruments.{empty_table, intern, find, find_in}
use predictive_trading_lab.Market.Symbols.{
  SymbolMapping, SymbolMapper, empty_mapper, covers, clashes, clashes_any, add, add_static, resolve,
  resolve_vendor_in, resolve_vendor_id,
}
use predictive_trading_lab.Market.Symbols.Unique.{
  Call, call_add, call_add_static, call_intern, step, run, resolve-covers,
}
use predictive_trading_lab.Market.Symbols.Normaliser.{
  RawQuote, QuoteNormaliserConfig, QuoteNormaliserStats,
}

abbrev spy : Text
spy = 83 ∷ 80 ∷ 89 ∷ []

abbrev qqq : Text
qqq = 81 ∷ 81 ∷ 81 ∷ []

abbrev first_window : SymbolMapping
first_window = record {
  raw_symbol = spy;
  instrument = invalid_instrument;
  vendor_id = 7;
  valid_from = 100;
  valid_to = 200;
}

abbrev second_window : SymbolMapping
second_window = record first_window { valid_from = 200; valid_to = 300 }

abbrev calls : List Call
calls = call_intern qqq ∷ call_add first_window ∷ call_add second_window ∷ []

resolve-covers_example : resolve (run calls empty_table empty_mapper) spy 250 ≡ some 1
unfolding run step add intern find find_in clashes_any clashes covers text_eq
resolve-covers_example =
    resolve-covers calls empty_table 1 (record second_window { instrument = 1 }) 250 refl refl

-- Two symbols may share a number of the vendor; the one that was added first is found.
shared_vendor_id :
    resolve_vendor_id
      (run (call_add_static qqq 7 ∷ call_add_static spy 7 ∷ []) empty_table empty_mapper)
      7
      (epoch + 5)
    ≡ some 0
unfolding run step add add_static intern find find_in clashes_any clashes covers resolve_vendor_id
    resolve_vendor_in text_eq
shared_vendor_id = refl

abbrev mapper : SymbolMapper
mapper = run (call_add_static spy 7 ∷ []) empty_table empty_mapper

abbrev cfg : QuoteNormaliserConfig Fixed
cfg = record { price_scale = lit 1 1; feed_latency = 500; drop_one_sided = true }

abbrev no_counts : QuoteNormaliserStats
no_counts = record {
  accepted = 0;
  dropped_unmapped = 0;
  dropped_one_sided = 0;
  dropped_invalid = 0;
  dropped_crossed = 0;
}

abbrev raw : RawQuote
raw = record {
  vendor_instrument_id = 7;
  exchange_time_ns = pos 1_000;
  bid_price_fixed = pos 10;
  ask_price_fixed = pos 11;
  bid_size = 3;
  ask_size = 4;
}

-- One good record, one of an unknown instrument, one that is crossed.
abbrev raws : List RawQuote
raws = raw ∷ record raw { vendor_instrument_id = 8 } ∷ record raw { bid_price_fixed = pos 12 } ∷ []
