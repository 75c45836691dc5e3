-- ===== src/Ingest.antt =====
-- A whole run of a consumer over either reader: open, then call `next()` until it returns `nullopt`.
pub mod Parity
pub mod Whole
pub mod Bounds
pub mod Delivery
pub mod BetweenCalls
pub mod Pool
pub mod Faults
pub mod EmptyChunks
pub mod OnPath
pub mod PathParity
use trading_engine_hh.Base.{ℕ, List, Result, ok, err, Run, done, and_then}
use trading_engine_hh.Stream.{Yield}
use trading_engine_hh.Prologue.{DbnError}
use trading_engine_hh.Reader.{EventReader}
use trading_engine_hh.Reader.Client.{collect}
use trading_engine_hh.Source.{ByteSource}
use trading_engine_hh.DbnReader
use trading_engine_hh.DbnReader.Contract.{stream_reader}
use trading_engine_hh.MmapDbnReader
use trading_engine_hh.MmapDbnReader.Contract.{mmap_reader}

-- The loop runs only over a reader that was constructed.
abbrev pub drain_opened :
    {R : Type 0} → EventReader R → ℕ → Result DbnError R → Run (Result DbnError Yield)
drain_opened reader fuel (ok r) = and_then (collect reader fuel fuel r) (λ y. done (ok y))
drain_opened reader fuel (err x) = done (err x)

-- The fuel serves for the metadata, for each call, and for the number of calls.
unfoldable pub ingest_stream : {S : Type 0} → ByteSource S → ℕ → S → ℕ → Run (Result DbnError Yield)
ingest_stream bytes fuel s chunk_size =
    and_then (DbnReader.open_reader bytes fuel s chunk_size)
      (λ opened. drain_opened (stream_reader bytes) fuel opened)

unfoldable pub ingest_mmap : ℕ → List ℕ → Run (Result DbnError Yield)
ingest_mmap fuel f = drain_opened mmap_reader fuel (MmapDbnReader.open_reader f)
