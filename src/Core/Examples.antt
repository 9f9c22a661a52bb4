-- ===== src/Core/Examples.antt =====
-- Tests of the timestamp chain, and its theorems at inputs.
use predictive_trading_lab.Core.Instruments.{InstrumentTable, empty_table, intern, find, symbol_of}
use predictive_trading_lab.Core.Instruments.Naming.{call_intern, run, intern_lem}
use predictive_trading_lab.Prelude.{
  ◌≡◌, ◌↔◌, refl, none, some, [], ◌∷◌, if◌then◌else◌, text_eq, Text, arith,
}
use predictive_trading_lab.Core.Types.{Timestamp}
use predictive_trading_lab.Core.Time.{
  Stage, LifecycleTimes, at, ChainViolation, validate_chain, strictly_after, edges, check_edges,
  check_edge, debug, check_chain, on_violation, thrown,
}
use predictive_trading_lab.Core.Time.Chain.{IsOrderly, validate_chain-IsOrderly}

abbrev whole_chain : LifecycleTimes
whole_chain = record {
  exchange_time = 10;
  receive_time = 11;
  feature_end_time = 12;
  decision_time = 13;
  submitted_time = 13;
  arrival_time = 15;
  fill_time = 15;
  ack_time = 20;
}

-- Decided and arrived at one instant.
abbrev same_bar : LifecycleTimes
same_bar = record whole_chain { arrival_time = 13 }

abbrev same_bar_violation : ChainViolation
same_bar_violation = record {
  earlier = Stage.decision_time;
  later = Stage.arrival_time;
  earlier_ts = 13;
  later_ts = 13;
  rule = strictly_after;
}

whole_chain_valid : validate_chain whole_chain ≡ none
unfolding validate_chain edges check_edges check_edge at
whole_chain_valid = refl

same_bar_refused : check_chain debug same_bar 4 ≡ (thrown same_bar_violation, 5)
unfolding check_chain validate_chain on_violation
same_bar_refused = refl

validate_chain-IsOrderly_example : (validate_chain whole_chain ≡ none) ↔ IsOrderly whole_chain
validate_chain-IsOrderly_example = validate_chain-IsOrderly whole_chain

same_bar_found : validate_chain same_bar ≡ some same_bar_violation
unfolding validate_chain
same_bar_found = refl

abbrev decision : Timestamp
decision = 13

abbrev spy : Text
spy = 83 ∷ 80 ∷ 89 ∷ []

abbrev qqq : Text
qqq = 81 ∷ 81 ∷ 81 ∷ []

abbrev table : InstrumentTable
table = run (call_intern spy ∷ []) empty_table

intern_lem_example :
    (symbol_of (intern table qqq).0 (intern table qqq).1 ≡ qqq)
    × (find (intern table qqq).0 spy
        ≡ (if text_eq qqq spy then some (intern table qqq).1 else find table spy))
intern_lem_example = intern_lem (call_intern spy ∷ []) qqq spy (omega arith)
