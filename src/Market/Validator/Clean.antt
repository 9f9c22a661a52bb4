-- ===== src/Market/Validator/Clean.antt =====
-- What a stream without a fatal issue is, for src/market/validator.cpp.
use predictive_trading_lab.Prelude.{
  suc, ◌+◌, ◌-◌, ◌≤◌, ◌≡◌, refl, if_intro, ◌∙◌, Bool, true, false, not, ◌&&◌, ◌==◌, ltb, Option,
  none, some, List, [], ◌∷◌, ◌++◌, length, All, arith,
}
use mathlib.Core.Path.{subst}
use predictive_trading_lab.Prelude.Double.{Double, ◌<?◌}
use predictive_trading_lab.Core.Types.{Timestamp, InstrumentId, no_timestamp, is_set}
use predictive_trading_lab.Market.Event.{
  MarketEvent, bar_event, quote_event, trade_event, action_event, session_event, timer_event,
  exchange_time_of,
}
use predictive_trading_lab.Market.Session.{Session}
use predictive_trading_lab.Market.Source.Merge.Order.{IsInOrder}
use predictive_trading_lab.Market.Source.Merge.Sorted.{IsChronological}
use predictive_trading_lab.Market.Validator.{
  IssueCode, fatal, ValidationIssue, ValidatorConfig, Scan, is_fatal, count_fatal, fatal_count,
  is_clean, issue_if, Calendar, is_outside, needs_session, order_issues, session_issues, bar_issues,
  kind_issues, event_issues, after_event, after_kind, after_session, after_order, enter, fresh_scan,
  validate_from, validate,
}

count_fatal-append :
    (xs ys : List ValidationIssue) → count_fatal (xs ++ ys) ≡ count_fatal xs + count_fatal ys
unfolding count_fatal
count_fatal-append [] ys = omega arith
count_fatal-append (x ∷ xs) ys = ground (arith, count_fatal-append xs ys)

-- Without a fatal issue in a list, there is none in its parts.
clean-split :
    (xs ys : List ValidationIssue)
    → count_fatal (xs ++ ys) ≡ 0
    → (count_fatal xs ≡ 0) × (count_fatal ys ≡ 0)
clean-split xs ys h = let sum = count_fatal-append xs ys in (omega arith, omega arith)

-- A fatal check that found nothing.
clean-issue :
    (b : Bool) (code : IssueCode) (at : Timestamp) (id : InstrumentId)
    → count_fatal (issue_if b code fatal at id) ≡ 0
    → b ≡ false
unfolding count_fatal is_fatal
clean-issue true code at id h = ground arith
clean-issue false code at id h = refl

module _ {D : Type 0} ⦃F : Double D⦄ (cfg : ValidatorConfig D)
    (cal : Timestamp → Option Session) where
  -- What the checks promise of an event alone: it lies in a session where it needs one, a bar
  -- spans the timeframe that is expected, and a quote is not crossed.
  unfoldable pub IsSane : MarketEvent D → Type 0
  IsSane (bar_event bar) =
      (is_outside (cal (exchange_time_of (bar_event bar))) ≡ false)
      × ((ltb 0 cfg.expected_bar_timeframe
            && not (bar.close_time - bar.open_time == cfg.expected_bar_timeframe))
          ≡ false)
  IsSane (quote_event q) =
      (is_outside (cal (exchange_time_of (quote_event q))) ≡ false) × ((q.ask <? q.bid) ≡ false)
  IsSane (trade_event t) = is_outside (cal (exchange_time_of (trade_event t))) ≡ false
  IsSane _ = Unit

  clean-IsSane :
      (log : D → D) (scan : Scan D) (e : MarketEvent D)
      → count_fatal (session_issues (some cal) e) ≡ 0
      → count_fatal (kind_issues cfg log (some cal) scan e) ≡ 0
      → IsSane e
  unfolding IsSane session_issues kind_issues bar_issues needs_session
  clean-IsSane log scan (bar_event bar) h k =
      (clean-issue _ _ _ _ h, clean-issue _ _ _ _ (clean-split _ _ (clean-split _ _ k).0).0)
  clean-IsSane log scan (quote_event q) h k = (clean-issue _ _ _ _ h, clean-issue _ _ _ _ k)
  clean-IsSane log scan (trade_event t) h k = clean-issue _ _ _ _ h
  clean-IsSane log scan (action_event a) h k = tt
  clean-IsSane log scan (session_event s) h k = tt
  clean-IsSane log scan (timer_event t) h k = tt

module _ {D : Type 0} where
  clean-order :
      (scan : Scan D) (e : MarketEvent D)
      → count_fatal (order_issues scan e) ≡ 0
      → scan.prev_ts ≤ exchange_time_of e
  unfolding order_issues
  clean-order scan e h =
      let no : (is_set scan.prev_ts && ltb (exchange_time_of e) scan.prev_ts) ≡ false =
        clean-issue _ _ _ _ h in
      ground arith

  -- No event is stamped before the one above it, nor the first before `t`.
  unfoldable IsOrderedFrom : Timestamp → List (MarketEvent D) → Type 0
  IsOrderedFrom t [] = Unit
  IsOrderedFrom t (e ∷ events) =
      (t ≤ exchange_time_of e) × IsOrderedFrom (exchange_time_of e) events

  IsOrderedFrom-IsChronological :
      (t : Timestamp) (events : List (MarketEvent D))
      → IsOrderedFrom t events
      → IsChronological events
  unfolding IsOrderedFrom IsInOrder
  IsOrderedFrom-IsChronological t [] h = tt
  IsOrderedFrom-IsChronological t (e ∷ []) h = tt
  IsOrderedFrom-IsChronological t (e ∷ f ∷ events) h =
      (h.1.0, IsOrderedFrom-IsChronological (exchange_time_of e) (f ∷ events) h.1)

  -- What the steps after the ordering leave alone.
  abbrev Kept : Scan D → Scan D → Type 0
  Kept scan next = (next.prev_ts ≡ scan.prev_ts) × (next.stats.events ≡ scan.stats.events)

  enter-Kept : (found : Option Session) (scan : Scan D) → Kept scan (enter found scan)
  enter-Kept none scan = (refl, refl)
  enter-Kept (some s) scan =
      if_intro (Kept scan) (s.date == scan.current_session) _ _ (refl, refl) (refl, refl)

  after_session-Kept :
      (cal : Calendar) (e : MarketEvent D) (scan : Scan D) → Kept scan (after_session cal e scan)
  unfolding after_session
  after_session-Kept none e scan = (refl, refl)
  after_session-Kept (some cal) e scan =
      if_intro (Kept scan) (needs_session e) _ _ (enter-Kept (cal (exchange_time_of e)) scan)
        (refl, refl)

module _ {D : Type 0} ⦃F : Double D⦄ where
  after_kind-Kept : (e : MarketEvent D) (scan : Scan D) → Kept scan (after_kind e scan)
  unfolding after_kind
  after_kind-Kept (bar_event b) scan = (refl, refl)
  after_kind-Kept (quote_event q) scan = (refl, refl)
  after_kind-Kept (trade_event t) scan = (refl, refl)
  after_kind-Kept (action_event a) scan = (refl, refl)
  after_kind-Kept (session_event s) scan = (refl, refl)
  after_kind-Kept (timer_event t) scan = (refl, refl)

  after_event-stamps :
      (cal : Calendar) (e : MarketEvent D) (scan : Scan D)
      → ((after_event cal e scan).prev_ts ≡ exchange_time_of e)
        × ((after_event cal e scan).stats.events ≡ suc scan.stats.events)
  unfolding after_order
  after_event-stamps cal e scan =
      let ordered = after_order e scan in
      let (stamp, count) = after_session-Kept cal e ordered in
      let (last_stamp, last_count) = after_kind-Kept e (after_session cal e ordered) in
      (last_stamp ∙ stamp, omega arith)

  validate_from-clean :
      (cfg : ValidatorConfig D) (cal : Timestamp → Option Session) (log : D → D) (scan : Scan D)
      (events : List (MarketEvent D))
      → count_fatal (validate_from cfg log (some cal) scan events).issues ≡ 0
      → IsOrderedFrom scan.prev_ts events × All (IsSane cfg cal) events
  unfolding validate_from event_issues IsOrderedFrom
  validate_from-clean cfg cal log scan [] h = (tt, tt)
  validate_from-clean cfg cal log scan (e ∷ events) h =
      let next = after_event (some cal) e scan in
      let rest = validate_from cfg log (some cal) next events in
      let (here, later) = clean-split (event_issues cfg log (some cal) scan e) rest.issues h in
      let (known, kind) = clean-split _ (kind_issues cfg log (some cal) scan e) here in
      let (order, session) =
        clean-split (order_issues scan e) (session_issues (some cal) e) known in
      let (ordered, sane) = validate_from-clean cfg cal log next events later in
      (
        (
          clean-order scan e order,
          subst (λ t. IsOrderedFrom t events) (after_event-stamps (some cal) e scan).0 ordered,
        ),
        (clean-IsSane cfg cal log scan e session kind, sane),
      )

  validate_from-count :
      (cfg : ValidatorConfig D) (cal : Calendar) (log : D → D) (scan : Scan D)
      (events : List (MarketEvent D))
      → (validate_from cfg log cal scan events).stats.events ≡ scan.stats.events + length events
  unfolding validate_from
  validate_from-count cfg cal log scan [] = omega arith
  validate_from-count cfg cal log scan (e ∷ events) =
      let next = after_event cal e scan in
      let rest = validate_from-count cfg cal log next events in
      let (stamp, count) = after_event-stamps cal e scan in omega arith

  -- A stream that is validated with a calendar and has no fatal issue is chronological; each bar,
  -- quote and trade of it lies in a session, each bar spans the expected timeframe, and no quote is
  -- crossed. The report counts every event.
  pub validate-clean :
      (cfg : ValidatorConfig D) (cal : Timestamp → Option Session) (log : D → D)
      (events : List (MarketEvent D))
      → is_clean (validate cfg log events (some cal)) ≡ true
      → IsChronological events
        × All (IsSane cfg cal) events
        × ((validate cfg log events (some cal)).stats.events ≡ length events)
  unfolding validate is_clean fatal_count
  validate-clean cfg cal log events h =
      let report = validate_from cfg log (some cal) fresh_scan events in
      let none_fatal : count_fatal ([] ++ report.issues) ≡ 0 = ground arith in
      let clean = (clean-split [] report.issues none_fatal).1 in
      let (ordered, sane) = validate_from-clean cfg cal log fresh_scan events clean in
      (
        IsOrderedFrom-IsChronological no_timestamp events ordered,
        sane,
        omega (arith, validate_from-count cfg (some cal) log fresh_scan events),
      )
