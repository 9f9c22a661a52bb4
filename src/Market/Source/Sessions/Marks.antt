-- ===== src/Market/Source/Sessions/Marks.antt =====
-- The opens and closes that `with_session_events` of src/market/source.cpp puts into a stream, and
-- what it needs of the calendar.
use predictive_trading_lab.Prelude.{
  ◌≤◌, ◌<◌, ◌≡◌, refl, sym, ap, ◌∙◌, inl, inr, Bool, true, false, not, ◌&&◌, ◌==◌, if◌then◌else◌,
  Option, none, some, List, [], ◌∷◌, All, ok, Result-cases, arith, Option-cases,
}
use predictive_trading_lab.Core.Types.{Timestamp, is_set}
use predictive_trading_lab.Market.Event.{
  MarketEvent, bar_event, quote_event, trade_event, action_event, session_event, timer_event,
  session_open, session_close, exchange_time_of,
}
use predictive_trading_lab.Market.Session.{Session}
use predictive_trading_lab.Market.Source.{close_current, enter_session, session_after, session_loop}

-- What the stream needs of the calendar: the session that it finds for an instant has a date, and
-- holds the instant; a date has one session, and sessions of two dates follow each other.
pub record IsCalendar (session_containing : Timestamp → Option Session) : Type 0 where
  pub dated : (t : Timestamp) (s : Session) → session_containing t ≡ some s → is_set s.date ≡ true
  pub opens : (t : Timestamp) (s : Session) → session_containing t ≡ some s → s.open_time ≤ t
  pub closes : (t : Timestamp) (s : Session) → session_containing t ≡ some s → t < s.close_time
  pub one_a_day :
      (t u : Timestamp) (r s : Session)
      → session_containing t ≡ some r
      → session_containing u ≡ some s
      → r.date ≡ s.date
      → r ≡ s
  pub apart :
      (t u : Timestamp) (r s : Session)
      → session_containing t ≡ some r
      → session_containing u ≡ some s
      → (s.date == r.date) ≡ false
      → t ≤ u
      → r.close_time ≤ s.open_time

abbrev pub IsDated : Option Session → Type 0
IsDated none = Unit
IsDated (some c) = is_set c.date ≡ true

abbrev pub is_inside : Option Session → Bool
is_inside none = false
is_inside (some c) = true

pub session_after-IsDated :
    (current : Option Session) (s : Session)
    → IsDated current
    → is_set s.date ≡ true
    → IsDated (session_after current s) × (is_inside (session_after current s) ≡ true)
session_after-IsDated none s h k = ground arith
session_after-IsDated (some c) s h k = ground arith

pub session_after-some :
    (c s : Session) → (c.date ≡ s.date → c ≡ s) → session_after (some c) s ≡ some s
session_after-some c s h = ground arith

module _ {D : Type 0} where
  unfoldable pub is_session : MarketEvent D → Bool
  is_session (session_event s) = true
  is_session _ = false

  unfoldable pub drop_sessions : List (MarketEvent D) → List (MarketEvent D)
  drop_sessions [] = []
  drop_sessions (e ∷ events) =
      let rest = drop_sessions events in if is_session e then rest else e ∷ rest

  -- An open is followed by events and a close, and every event is between an open and its close;
  -- `inside` tells whether the last mark was an open.
  unfoldable pub is_bracketed : Bool → List (MarketEvent D) → Bool
  is_bracketed inside [] = not inside
  is_bracketed inside (session_event s ∷ events) = elim s.kind [
    | session_open ↦ not inside && is_bracketed true events
    | session_close ↦ inside && is_bracketed false events
  ]
  is_bracketed inside (e ∷ events) = inside && is_bracketed true events

  abbrev pub IsMarket : MarketEvent D → Type 0
  IsMarket e = is_session e ≡ false

  module _ (session_containing : Timestamp → Option Session) where
    -- One round of the loop: the session of its event, and what the later rounds return.
    pub loop-cons :
        (current : Option Session) (e : MarketEvent D) (events out : List (MarketEvent D))
        → session_loop session_containing current (e ∷ events) ≡ ok out
        → (s : Session) × (rest : List (MarketEvent D)) × (session_containing (exchange_time_of e)
            ≡ some s)
          × (session_loop session_containing (session_after current s) events ≡ ok rest)
          × (enter_session current s (e ∷ rest) ≡ out)
    unfolding session_loop
    loop-cons current e events out h =
        elim (Option-cases (session_containing (exchange_time_of e))) [
          | inl p ↦ ground arith
          | inr (s, p) ↦
              elim (Result-cases
                (session_loop session_containing (session_after current s) events)) [
                  | inl (rest, q) ↦ (s, rest, p, q, ground arith)
                  | inr (f, q) ↦ ground arith
                ]
        ]

  pub drop-enter_session :
      (current : Option Session) (s : Session) (rest : List (MarketEvent D))
      → drop_sessions (enter_session current s rest) ≡ drop_sessions rest
  unfolding drop_sessions is_session enter_session close_current
  drop-enter_session none s rest = ground arith
  drop-enter_session (some c) s rest = ground arith

  pub drop-close_current :
      (current : Option Session) → drop_sessions (close_current current []) ≡ []
  unfolding drop_sessions is_session close_current
  drop-close_current none = refl
  drop-close_current (some c) = ground arith

  pub drop-market :
      (e : MarketEvent D) (rest : List (MarketEvent D))
      → IsMarket e
      → drop_sessions (e ∷ rest) ≡ e ∷ drop_sessions rest
  unfolding drop_sessions
  drop-market e rest h = ground arith

  pub session_loop-drop :
      (cal : Timestamp → Option Session) (current : Option Session)
      (events out : List (MarketEvent D))
      → All IsMarket events
      → session_loop cal current events ≡ ok out
      → drop_sessions out ≡ events
  unfolding session_loop
  session_loop-drop cal current [] out h k =
      let same : close_current current [] ≡ out = cc in
      sym (ap drop_sessions same) ∙ drop-close_current current
  session_loop-drop cal current (e ∷ events) out h k =
      let (s, rest, found, later, entered) = loop-cons cal current e events out k in
      let dropped = session_loop-drop cal (session_after current s) events rest h.1 later in
      sym (ap drop_sessions entered)
      ∙ drop-enter_session current s (e ∷ rest)
      ∙ drop-market e rest h.0
      ∙ ap (λ l. e ∷ l) dropped

  pub bracketed-close_current :
      (current : Option Session) (rest : List (MarketEvent D))
      → IsDated current
      → is_bracketed false rest ≡ true
      → is_bracketed (is_inside current) (close_current current rest) ≡ true
  unfolding close_current is_bracketed
  bracketed-close_current none rest h k = k
  bracketed-close_current (some c) rest h k = ground (arith, k)

  pub bracketed-market :
      (inside : Bool) (e : MarketEvent D) (rest : List (MarketEvent D))
      → IsMarket e
      → is_bracketed inside (e ∷ rest) ≡ (inside && is_bracketed true rest)
  unfolding is_bracketed is_session
  bracketed-market inside (bar_event x) rest h = refl
  bracketed-market inside (quote_event x) rest h = refl
  bracketed-market inside (trade_event x) rest h = refl
  bracketed-market inside (action_event x) rest h = refl
  bracketed-market inside (session_event x) rest h = cc
  bracketed-market inside (timer_event x) rest h = refl

  pub bracketed-enter_session :
      (current : Option Session) (s : Session) (e : MarketEvent D) (rest : List (MarketEvent D))
      → IsDated current
      → is_set s.date ≡ true
      → IsMarket e
      → is_bracketed true rest ≡ true
      → is_bracketed (is_inside current) (enter_session current s (e ∷ rest)) ≡ true
  unfolding is_bracketed enter_session close_current
  bracketed-enter_session none s e rest h k m b =
      let inside = bracketed-market true e rest m in ground arith
  bracketed-enter_session (some c) s e rest h k m b =
      let inside = bracketed-market true e rest m in ground arith

  pub session_loop-bracketed :
      (cal : Timestamp → Option Session) (current : Option Session)
      (events out : List (MarketEvent D))
      → IsCalendar cal
      → IsDated current
      → All IsMarket events
      → session_loop cal current events ≡ ok out
      → is_bracketed (is_inside current) out ≡ true
  unfolding session_loop is_bracketed
  session_loop-bracketed cal current [] out c d h k =
      let same : close_current current [] ≡ out = cc in
      sym (ap (is_bracketed (is_inside current)) same) ∙ bracketed-close_current current [] d refl
  session_loop-bracketed cal current (e ∷ events) out c d h k =
      let (s, rest, found, later, entered) = loop-cons cal current e events out k in
      let (dated, inside) =
        session_after-IsDated current s d (c.dated (exchange_time_of e) s found) in
      let bracketed =
        session_loop-bracketed cal (session_after current s) events rest c dated h.1 later in
      sym (ap (is_bracketed (is_inside current)) entered)
      ∙ bracketed-enter_session current s e rest d (c.dated (exchange_time_of e) s found) h.0
          (sym (ap (λ b. is_bracketed b rest) inside) ∙ bracketed)
