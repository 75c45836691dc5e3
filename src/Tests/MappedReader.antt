-- ===== src/Tests/MappedReader.antt =====
-- The mapped reader and the loop over it on concrete bytes.
use trading_engine_hh.Base.{◌≤◌, ◌≡◌, false, length, Option, done, arith}
use trading_engine_hh.Event.{Event}
use trading_engine_hh.Dbn.{bytes_of_wire}
use trading_engine_hh.Route.{zero_stats}
use trading_engine_hh.Stream.{Delivers}
use trading_engine_hh.MmapDbnReader
use trading_engine_hh.MmapDbnReader.{MmapDbnReader, open_reader, rest}
use trading_engine_hh.MmapDbnReader.Open.{OpensReader, mmap_open-OpensReader}
use trading_engine_hh.MmapDbnReader.Contract.{IsReady, mmap_next-Delivers}
use trading_engine_hh.Tests.Data.{file, records}

mmap_open_example : OpensReader file (open_reader file)
mmap_open_example = mmap_open-OpensReader file

abbrev mapped : MmapDbnReader
mapped = record { map = records; cursor = 0; version = 1; failed = false; stats = zero_stats }

mapped-IsReady : IsReady mapped
mapped-IsReady = record { inside = omega arith; truthful = λ set. cc set }

mmap_next_example :
    (e : Option Event) × (r' : MmapDbnReader) × (MmapDbnReader.next 100 mapped ≡ done (e, r'))
    × Delivers records zero_stats
        (record { event = e; rest = rest r'; stats = r'.stats; failed = r'.failed })
    × IsReady r'
    × (length (rest r') ≤ length records)
unfolding bytes_of_wire
mmap_next_example = mmap_next-Delivers 100 mapped mapped-IsReady (omega arith)
