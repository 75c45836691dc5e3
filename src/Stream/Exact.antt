-- ===== src/Stream/Exact.antt =====
-- The counters of a run over less than 2 ^ 64 records, which do not wrap.
use trading_engine_hh.Base.{ℕ, ◌+◌, ◌^◌, ◌<◌, ◌≡◌, List, [], ◌∷◌, length, arith}
use trading_engine_hh.Route.{Routed, IngestStats, route_record, tally}
use trading_engine_hh.Stream.Records.{before, events_of, stats_of}
use trading_engine_hh.Stream.Counts.{length-before}

-- The records counted are the events and the two kinds of skipped records together, as numbers.
abbrev pub IsExact : IngestStats → Type 0
IsExact s = s.records ≡ s.events + s.skipped_non_mbo + s.skipped_malformed

tally-IsExact :
    (s : IngestStats) (r : Routed)
    → IsExact s
    → s.records + 1 < 2 ^ 64
    → IsExact (tally s r).1
      × ((tally s r).1.records ≡ s.records + 1)
      × ((tally s r).1.events ≡ s.events + length (before (tally s r).0 []))
unfolding tally
tally-IsExact s r e h = ground arith

pub stats_of-IsExact :
    (s : IngestStats) (rs : List (List ℕ))
    → IsExact s
    → s.records + length rs < 2 ^ 64
    → IsExact (stats_of s rs)
      × ((stats_of s rs).records ≡ s.records + length rs)
      × ((stats_of s rs).events ≡ s.events + length (events_of s rs))
stats_of-IsExact s [] e h = (e, omega arith, omega arith)
stats_of-IsExact s (r ∷ rs) e h =
    let counted : IngestStats = (tally s (route_record r)).1 in
    let (exact, one_more, perhaps) = tally-IsExact s (route_record r) e (omega arith) in
    let (all_exact, records, events) =
      stats_of-IsExact counted rs exact (omega (arith, one_more)) in
    (
      all_exact,
      omega (arith, records, one_more),
      omega (
        arith,
        events,
        perhaps,
        length-before (tally s (route_record r)).0 (events_of counted rs),
      ),
    )
