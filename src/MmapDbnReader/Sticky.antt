-- ===== src/MmapDbnReader/Sticky.antt =====
-- dbn_reader.hpp: calls of `MmapDbnReader::next()` after `nullopt` (ADR 0018).
use trading_engine_hh.Base.{ℕ, ◌<◌, ◌≡◌, length, none, done}
use trading_engine_hh.Reader.Repeat.{next-Repeats}
use trading_engine_hh.MmapDbnReader.{MmapDbnReader, rest, next}
use trading_engine_hh.MmapDbnReader.Contract.{IsReady, mmap_reader, mmap_contract}

-- From a mapped reader in its invariant and with more rounds than bytes after the cursor: after a
-- call of `MmapDbnReader::next()` that returned `nullopt` the next call returns `nullopt` too and
-- leaves the counters and `failed()` as they are.
mmap_next-Repeats :
    (r r' : MmapDbnReader) (fuel later : ℕ)
    → IsReady r
    → length (rest r) < fuel
    → length (rest r) < later
    → next fuel r ≡ done (none, r')
    → (r'' : MmapDbnReader) × (next later r' ≡ done (none, r''))
      × (r''.stats ≡ r'.stats)
      × (r''.failed ≡ r'.failed)
mmap_next-Repeats r r' fuel later k h h' runs =
    next-Repeats mmap_reader mmap_contract r r' fuel later k h h' runs
