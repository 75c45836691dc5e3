-- ===== src/Stream.antt =====
-- What both readers of dbn_reader.hpp promise, stated on the bytes that stand before them and
-- without buffers, chunks, cursors or fuel: the contract of `next()` (ADR 0018, ADR 0021) and of the
-- loop that calls it until it returns `nullopt`.
pub mod Unique
pub mod Failure
pub mod Records
pub mod Counts
pub mod Accounts
pub mod RoundTrip
pub mod Ranges
pub mod Exact
use trading_engine_hh.Base.{ℕ, ◌≡◌, Bool, true, false, Option, none, some, List, [], ◌∷◌, ◌++◌}
use trading_engine_hh.Event.{Event}
use trading_engine_hh.Frame.{IsRecord, IsPartial, IsCorrupt}
use trading_engine_hh.Route.{IngestStats, route_record, tally}

-- One answer of `next()`: the event, the bytes that are left, the counters, and whether the stream
-- is broken at the bytes that are left.
pub record Answer : Type 0 where
  pub event : Option Event
  pub rest : List ℕ
  pub stats : IngestStats
  pub failed : Bool

-- The answer owed for the bytes `u` with counters `s`. A record that is not emitted is counted and
-- passed over.
pub data Delivers : List ℕ → IngestStats → Answer → Type 0 where
  at_end :
      {u : List ℕ} {s : IngestStats} {a : Answer}
      → IsPartial u
      → a ≡ record { event = none; rest = u; stats = s; failed = false }
      → Delivers u s a
  at_corrupt :
      {u : List ℕ} {s : IngestStats} {a : Answer}
      → IsCorrupt u
      → a ≡ record { event = none; rest = u; stats = s; failed = true }
      → Delivers u s a
  hand_on :
      {u : List ℕ} {s : IngestStats} {a : Answer} (rec v : List ℕ) (e : Event) (s' : IngestStats)
      → u ≡ rec ++ v
      → IsRecord rec
      → tally s (route_record rec) ≡ (some e, s')
      → a ≡ record { event = some e; rest = v; stats = s'; failed = false }
      → Delivers u s a
  pass_over :
      {u : List ℕ} {s : IngestStats} {a : Answer} (rec v : List ℕ) (s' : IngestStats)
      → u ≡ rec ++ v
      → IsRecord rec
      → tally s (route_record rec) ≡ (none, s')
      → Delivers v s' a
      → Delivers u s a

-- What the calls up to the first `nullopt` give together.
pub record Yield : Type 0 where
  pub events : List Event
  pub stats : IngestStats
  pub failed : Bool

pub data Yields : List ℕ → IngestStats → Yield → Type 0 where
  last :
      {u : List ℕ} {s : IngestStats} {y : Yield} (a : Answer)
      → Delivers u s a
      → a.event ≡ none
      → y ≡ record { events = []; stats = a.stats; failed = a.failed }
      → Yields u s y
  more :
      {u : List ℕ} {s : IngestStats} {y : Yield} (a : Answer) (e : Event) (z : Yield)
      → Delivers u s a
      → a.event ≡ some e
      → Yields a.rest a.stats z
      → y ≡ record z { events = e ∷ z.events }
      → Yields u s y
