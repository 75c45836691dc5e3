-- ===== src/Stream/Counts.antt =====
-- The counters of a run against its records and events.
use trading_engine_hh.Base.{
  ℕ, ◌+◌, ◌%◌, ◌^◌, ◌<◌, ◌≡◌, Option, none, some, List, [], ◌∷◌, length, arith,
}
use trading_engine_hh.Event.{Event}
use trading_engine_hh.Route.{Routed, IngestStats, route_record, tally}
use trading_engine_hh.Route.Counters.{IsBalanced, tally-IsBalanced}
use trading_engine_hh.Frame.Split.{Parts, Splits}
use trading_engine_hh.Stream.{Yield, Yields}
use trading_engine_hh.Stream.Records.{before, events_of, stats_of, Yields-eq}

pub length-before :
    (o : Option Event) (es : List Event) → length (before o es) ≡ length (before o []) + length es
length-before none es = omega arith
length-before (some e) es = omega arith

-- One record counts once, and as an event if it is one.
tally-counts :
    (s : IngestStats) (r : Routed)
    → s.events < 2 ^ 64
    → ((tally s r).1.records ≡ (s.records + 1) % 2 ^ 64)
      × ((tally s r).1.events ≡ (s.events + length (before (tally s r).0 [])) % 2 ^ 64)
unfolding tally
tally-counts s r h = ground arith

-- The counters over a list of records: they stay balanced, `records` counts the records and `events`
-- the events, each modulo 2 ^ 64.
stats_of-counts :
    (s : IngestStats) (rs : List (List ℕ))
    → IsBalanced s
    → IsBalanced (stats_of s rs)
      × ((stats_of s rs).records ≡ (s.records + length rs) % 2 ^ 64)
      × ((stats_of s rs).events ≡ (s.events + length (events_of s rs)) % 2 ^ 64)
stats_of-counts s [] b = (b, omega (arith, b.records), omega (arith, b.events))
stats_of-counts s (r ∷ rs) b =
    let counted : IngestStats = (tally s (route_record r)).1 in
    let (balanced, records, events) =
      stats_of-counts counted rs (tally-IsBalanced s (route_record r) b) in
    let (one_more, perhaps) = tally-counts s (route_record r) b.events in
    (
      balanced,
      omega (arith, records, one_more),
      omega (
        arith,
        events,
        perhaps,
        length-before (tally s (route_record r)).0 (events_of counted rs),
      ),
    )

-- If bytes split into records and a rest and the counters are balanced, then after a run over
-- those bytes they are balanced, `records` has grown by the number of records and `events` by the
-- number of events, modulo 2 ^ 64.
pub Yields-counts :
    {u : List ℕ} {p : Parts} {s : IngestStats} {y : Yield}
    → Splits u p
    → IsBalanced s
    → Yields u s y
    → IsBalanced y.stats
      × (y.stats.records ≡ (s.records + length p.records) % 2 ^ 64)
      × (y.stats.events ≡ (s.events + length y.events) % 2 ^ 64)
Yields-counts {p = p} {s = s} d b y =
    let same = Yields-eq d y in rw same (stats_of-counts s p.records b)
