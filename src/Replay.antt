-- ===== src/Replay.antt =====
-- examples/replay_dbn.cpp: `main`, with what it prints as values.
pub mod Loop
pub mod Exits
use trading_engine_hh.Base.{
  ℕ, zero, suc, ◌+◌, Bool, List, [], ◌∷◌, ◌++◌, ◌==◌, if◌then◌else◌, Option, none, some, Result, ok,
  err, Run, done, out_of_fuel, and_then,
}
use trading_engine_hh.Event.{Event}
use trading_engine_hh.Route.{IngestStats, increment}
use trading_engine_hh.Prologue.{DbnError}
use trading_engine_hh.Source.{ByteSource, IStream, open_file, file_source}
use trading_engine_hh.DbnReader
use trading_engine_hh.DbnReader.{DbnReader, default_chunk_size}

-- `first_lines` are the events that a line `first event` is printed for.
pub record Report : Type 0 where
  pub version : ℕ
  pub first_lines : List Event
  pub count : ℕ
  pub stats : IngestStats
  pub failed : Bool

pub data Printed : Type 0 where
  usage : Printed
  complaint : DbnError → Printed
  report : Report → Printed

pub record Exit : Type 0 where
  pub code : ℕ
  pub printed : Printed

module _ {S : Type 0} (bytes : ByteSource S) where
  -- One turn of the loop; `again` is the rest of it.
  abbrev pub turn :
      ℕ
      → List Event
      → Option Event × DbnReader S
      → (ℕ → List Event → DbnReader S → Run (ℕ × List Event × DbnReader S))
      → Run (ℕ × List Event × DbnReader S)
  turn count lines (none, r) again = done (count, lines, r)
  turn count lines (some e, r) again =
      again (increment count) (if count == 0 then lines ++ (e ∷ []) else lines) r

  -- The loop, of at most `calls` calls of `next()`, of at most `fuel` rounds each.
  unfoldable pub replay_from :
      ℕ → ℕ → ℕ → List Event → DbnReader S → Run (ℕ × List Event × DbnReader S)
  replay_from zero fuel count lines r = out_of_fuel
  replay_from (suc calls) fuel count lines r =
      and_then (DbnReader.next bytes fuel r)
        (λ t. turn count lines t (λ c ls s. replay_from calls fuel c ls s))

  -- The totals and the exit code.
  abbrev pub finish : ℕ → ℕ × List Event × DbnReader S → Exit
  finish version (count, lines, r) = record {
    code = if r.failed then 1 else 0;
    printed = report (record {
      version = version;
      first_lines = lines;
      count = count;
      stats = r.stats;
      failed = r.failed;
    });
  }

  -- The body of `try` once the reader is constructed, or the handler.
  abbrev pub replay_opened : ℕ → Result DbnError (DbnReader S) → Run Exit
  replay_opened fuel (err x) = done (record { code = 1; printed = complaint x })
  replay_opened fuel (ok r) =
      and_then (replay_from fuel fuel 0 [] r) (λ t. done (finish r.version t))

module _ {P F : Type 0} (io : IStream P F) where
  abbrev pub replay_file : ℕ → Result DbnError F → Run Exit
  replay_file fuel (err x) = done (record { code = 1; printed = complaint x })
  replay_file fuel (ok f) =
      and_then (DbnReader.open_reader (file_source io) fuel f default_chunk_size)
        (λ opened. replay_opened (file_source io) fuel opened)

  -- `main` on the arguments after the program's name.
  unfoldable pub main : ℕ → List P → Run Exit
  unfolding open_file
  main fuel [] = done (record { code = 2; printed = usage })
  main fuel (path ∷ others) = replay_file fuel (open_file io path)
