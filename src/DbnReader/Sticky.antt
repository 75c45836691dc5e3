-- ===== src/DbnReader/Sticky.antt =====
-- dbn_reader.hpp: calls of `DbnReader::next()` after `nullopt` (ADR 0018).
use trading_engine_hh.Base.{ℕ, ◌<◌, ◌≡◌, none, List, done}
use trading_engine_hh.Source.{ByteSource, IsOrderly}
use trading_engine_hh.Reader.Repeat.{next-Repeats}
use trading_engine_hh.DbnReader.{DbnReader, next}
use trading_engine_hh.DbnReader.Contract.{IsReady, effort, stream_reader, stream_contract}

-- Over every orderly source, from a reader in its invariant and with more rounds than its effort:
-- after a call of `DbnReader::next()` that returned `nullopt` the next call returns `nullopt` too
-- and leaves the counters and `failed()` as they are.
pub stream_next-Repeats :
    {S : Type 0} (bytes : ByteSource S) (left : S → List ℕ) (orderly : IsOrderly bytes left)
    (r r' : DbnReader S) (fuel later : ℕ)
    → IsReady bytes left orderly r
    → effort bytes left orderly r < fuel
    → effort bytes left orderly r < later
    → next bytes fuel r ≡ done (none, r')
    → (r'' : DbnReader S) × (next bytes later r' ≡ done (none, r''))
      × (r''.stats ≡ r'.stats)
      × (r''.failed ≡ r'.failed)
stream_next-Repeats bytes left orderly r r' fuel later k h h' runs =
    next-Repeats (stream_reader bytes) (stream_contract bytes left orderly) r r' fuel later k h h'
      runs
