-- ===== src/Route.antt =====
-- core/include/trading_sim/dbn_reader.hpp: routing and counting of one framed record, which both
-- readers share.
pub mod Outcomes
pub mod Counters
use trading_engine_hh.Base.{
  ℕ, ◌+◌, ◌%◌, ◌^◌, List, length, get_or, ◌==◌, not, ◌||◌, if◌then◌else◌, Option, none, some,
  Result, ok, err,
}
use trading_engine_hh.Base.Int.{pos}
use trading_engine_hh.Event.{Event, cast_action, cast_side}
use trading_engine_hh.Dbn.{ParseError, wire_size, wire_of_bytes, to_event}

abbrev pub k_mbo_rtype : ℕ
k_mbo_rtype = 0xa0

abbrev pub k_supported_dbn_version : ℕ
k_supported_dbn_version = 1

pub data RouteOutcome : Type 0 where
  emit skip_non_mbo skip_malformed : RouteOutcome

pub record Routed : Type 0 where
  pub outcome : RouteOutcome
  pub event : Event

-- `Event{}`: every field is zero, so neither enumeration is an enumerator.
abbrev pub zero_event : Event
zero_event = record {
  ts_event = 0;
  ts_recv = 0;
  order_id = 0;
  price = pos 0;
  size = 0;
  sequence = 0;
  action = cast_action 0;
  side = cast_side 0;
  flags = 0;
}

pub record IngestStats : Type 0 where
  pub records : ℕ
  pub events : ℕ
  pub skipped_non_mbo : ℕ
  pub skipped_malformed : ℕ

abbrev pub zero_stats : IngestStats
zero_stats = record { records = 0; events = 0; skipped_non_mbo = 0; skipped_malformed = 0 }

-- The test of `if (e)` on the `std::expected`.
abbrev pub routed_of : Result ParseError Event → Routed
routed_of (ok e) = record { outcome = emit; event = e }
routed_of (err x) = record { outcome = skip_malformed; event = zero_event }

-- `record[1]` is in bounds: a framed record has four bytes at least.
unfoldable pub route_record : List ℕ → Routed
route_record rec =
    if not (get_or rec 1 0 == k_mbo_rtype) || not (length rec == wire_size)
    then record { outcome = skip_non_mbo; event = zero_event }
    else routed_of (to_event (wire_of_bytes rec))

-- `++` on a `std::uint64_t`.
abbrev pub increment : ℕ → ℕ
increment n = (n + 1) % 2 ^ 64

-- The counters after the call, and the event to hand on.
unfoldable pub tally : IngestStats → Routed → Option Event × IngestStats
tally stats routed =
    let counted : IngestStats = record stats { records = increment stats.records } in
    elim routed.outcome [
      | emit ↦ (some routed.event, record counted { events = increment counted.events })
      | skip_non_mbo ↦
          (none, record counted { skipped_non_mbo = increment counted.skipped_non_mbo })
      | skip_malformed ↦
          (none, record counted { skipped_malformed = increment counted.skipped_malformed })
    ]
