-- ===== src/Route/Counters.antt =====
-- dbn_reader.hpp: what `tally` counts, and when it hands an event on.
use trading_engine_hh.Base.{◌+◌, ◌%◌, ◌^◌, ◌<◌, ◌≡◌, arith}
use trading_engine_hh.Route.{Routed, IngestStats, tally}

-- Every counter is a `std::uint64_t`, and each record counted stands in exactly one of the three
-- categories. The equation is modulo 2 ^ 64, as the counters are.
pub record IsBalanced (s : IngestStats) : Type 0 where
  pub records : s.records < 2 ^ 64
  pub events : s.events < 2 ^ 64
  pub skipped_non_mbo : s.skipped_non_mbo < 2 ^ 64
  pub skipped_malformed : s.skipped_malformed < 2 ^ 64
  pub total : s.records ≡ (s.events + s.skipped_non_mbo + s.skipped_malformed) % 2 ^ 64

-- If the counters are 64-bit numbers and the records counted are the events and the two kinds of
-- skipped records together, modulo 2 ^ 64, then they are so after `tally`, whatever was routed.
pub tally-IsBalanced : (s : IngestStats) (r : Routed) → IsBalanced s → IsBalanced (tally s r).1
unfolding tally
tally-IsBalanced s r b = ground arith
