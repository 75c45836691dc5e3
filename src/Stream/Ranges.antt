-- ===== src/Stream/Ranges.antt =====
-- The fields of the events that records of bytes stand for.
use trading_engine_hh.Base.{ℕ, List, [], ◌∷◌, All, All-append}
use trading_engine_hh.Base.Bytes.{IsByte}
use trading_engine_hh.Event.{Event}
use trading_engine_hh.Dbn.Ranges.{IsEvent, wire_of_bytes-IsWire, Trusted-IsEvent}
use trading_engine_hh.Frame.Split.{concat}
use trading_engine_hh.Route.{
  RouteOutcome, emit, skip_non_mbo, skip_malformed, IngestStats, route_record, tally,
}
use trading_engine_hh.Route.Outcomes.{RoutedAs, route_record-RoutedAs}
use trading_engine_hh.Stream.Records.{before, events_of}

-- The records of bytes are made of bytes.
pub records-IsByte : (rs : List (List ℕ)) → All IsByte (concat rs) → All (λ r. All IsByte r) rs
records-IsByte [] h = tt
records-IsByte (r ∷ rs) h =
    let (first, others) = All-append IsByte r (concat rs) h in (first, records-IsByte rs others)

-- What is counted adds an event in range, or none.
before-IsEvent :
    (s : IngestStats) (rec : List ℕ) (es : List Event)
    → All IsByte rec
    → All IsEvent es
    → All IsEvent (before (tally s (route_record rec)).0 es)
unfolding tally
before-IsEvent s rec es bytes h =
    by_outcome (route_record rec).outcome (route_record rec).event (route_record-RoutedAs rec)
  where
    by_outcome :
        (o : RouteOutcome) (e : Event)
        → RoutedAs o rec e
        → All IsEvent (before (tally s (record { outcome = o; event = e })).0 es)
    by_outcome emit e (mbo, trusted) =
        (Trusted-IsEvent (wire_of_bytes-IsWire rec mbo.1 bytes) trusted, h)
    by_outcome skip_non_mbo e routed = h
    by_outcome skip_malformed e routed = h

pub events_of-IsEvent :
    (s : IngestStats) (rs : List (List ℕ))
    → All (λ r. All IsByte r) rs
    → All IsEvent (events_of s rs)
events_of-IsEvent s [] h = tt
events_of-IsEvent s (r ∷ rs) h =
    before-IsEvent s r (events_of (tally s (route_record r)).1 rs) h.0
      (events_of-IsEvent (tally s (route_record r)).1 rs h.1)
