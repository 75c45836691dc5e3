-- ===== src/Tests/Losses.antt =====
-- The benchmark over a file whose medium fails in the middle of a record.
use trading_engine_hh.Base.{
  ℕ, ◌-◌, Option, some, refl, true, List, [], ◌∷◌, ◌++◌, length, take, drop, min, arith,
}
use trading_engine_hh.Base.Int.{pos}
use trading_engine_hh.Dbn.{bytes_of_wire}
use trading_engine_hh.Stream.RoundTrip.{bytes_of_wires}
use trading_engine_hh.Ingest.Whole.{file-Opens}
use trading_engine_hh.Bench.Main.{Surroundings}
use trading_engine_hh.Bench.Faults.{FailsAt, Detects, posix_main-Detects}
use trading_engine_hh.MemoryMappedFile.{make_posix, release_posix}
use trading_engine_hh.Tests.Paths.{at_path, here}
use trading_engine_hh.Tests.Mapping.{System, posix, fds, regions, posix-IsPosix, before}
use trading_engine_hh.Tests.Data.{header, metadata, dbn, file, wires}
use trading_engine_hh.Tests.Benchmark.{env, length-sort, always_there}

-- 90 bytes of a file can be read; a stream is the rest of the file and how much of that.
abbrev worn : Surroundings (Option ℕ) (List ℕ × ℕ) (List ℕ) (System (ℕ × ℕ)) ℕ
worn = record {
  io = record {
    open_binary = λ path. (at_path path, 90);
    is_good = λ s. true;
    fill = λ s n. (take (min n s.1) s.0, (drop n s.0, s.1 - n));
  };
  whole = record {
    open_at_end = at_path;
    is_good = λ f. true;
    tell = λ f. pos (length f);
    seek_start = λ f. f;
    fill = λ f n. (take (min n 90) f, drop n f);
  };
  memory = env.memory;
  atoi = env.atoi;
  atoll = env.atoll;
  sort = env.sort;
  double = env.double;
  stream_clock = env.stream_clock;
  slice_clock = env.slice_clock;
  mmap_clock = env.mmap_clock;
}

worn-FailsAt : FailsAt worn (λ s. s.0) (λ s. s.1) here file
unfolding bytes_of_wire
worn-FailsAt = record {
  reads = record { stores = λ s n. refl; advances = λ s n. refl; comes_closer = λ s n. refl };
  opens = refl;
  contents = refl;
  opens_at_end = refl;
  told = refl;
  stored = refl;
  sorts = length-sort;
}

loss_example :
    Detects worn regions fds
      (make_posix posix)
      (release_posix posix)
      500
      here
      (some 3 ∷ some 7 ∷ [])
      file
      3
      before
unfolding bytes_of_wire
loss_example =
    posix_main-Detects worn (λ s. s.0) (λ s. s.1) here (some 3 ∷ some 7 ∷ []) file
      (bytes_of_wires wires ++ (14 ∷ 160 ∷ [])) posix fds regions posix-IsPosix 500 2 before
      worn-FailsAt always_there (file-Opens header metadata _ dbn) (omega arith) refl (omega arith)
      (omega arith) (omega arith)
