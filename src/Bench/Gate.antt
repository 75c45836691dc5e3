-- ===== src/Bench/Gate.antt =====
-- bench/bench_dbn.cpp: what `main` reports of a file on a platform.
use trading_engine_hh.Base.{ℕ, suc, ◌+◌, ◌*◌, ◌^◌, ◌<◌, ◌≡◌, List, ◌∷◌, length, Result, done}
use trading_engine_hh.Base.Int.{pos}
use trading_engine_hh.Prologue.{DbnError, metadata_len}
use trading_engine_hh.Stream.{Yield}
use trading_engine_hh.Ingest.Parity.{Ingests}
use trading_engine_hh.Bench.Main.{BenchExit, Surroundings, chunk_of, passes_of, bench_main}
use trading_engine_hh.Bench.Modes.{Holds, Holds-Sees}
use trading_engine_hh.Bench.Report.{Reports}
use trading_engine_hh.MemoryMappedFile.{MemoryMappedFile, MapError}
use trading_engine_hh.MemoryMappedFile.Ownership.{Restored}
use trading_engine_hh.MemoryMappedFile.{
  PosixCalls, make_posix, release_posix, Win32Calls, make_win32, release_win32,
}
use trading_engine_hh.MemoryMappedFile.Posix.{IsPosix}
use trading_engine_hh.MemoryMappedFile.Windows.{IsWin32}
use trading_engine_hh.MemoryMappedFile.Platforms.{
  posix_region, posix-Manages, posix-KeepsTable, win32_region, win32-Manages, win32-KeepsTable,
}
use trading_engine_hh.MemoryMappedFile.Stores.{
  StoresPosix, make_posix-ViewsFile, StoresWin32, make_win32-ViewsFile,
}
use trading_engine_hh.Bench.Compare.{bench_main-Reports}

-- What `main` leaves on a platform: the report of a run, and the mapped regions and the open descriptors
-- as before.
module _ {P F G W D K X : Type 0} (env : Surroundings P F G W D) (regions : W → List K)
    (table : W → X) (make : P → W → Result MapError MemoryMappedFile × W)
    (release : MemoryMappedFile → W → MemoryMappedFile × W) where
  abbrev pub Benchmarks : ℕ → P → List P → List ℕ → ℕ → W → Type 0
  Benchmarks fuel path options f passes w =
      (owed : Result DbnError Yield) × (x : BenchExit D) × (w' : W) × Ingests f owed
      × (bench_main env make release fuel (path ∷ options) w ≡ done (x, w'))
      × Reports passes owed x
      × Restored regions table w w'

-- With the POSIX calls, the standard library and the memory of the process as documented for a
-- file shorter than 2 ^ 64 bytes that is stored at the path in every state of the system, with at
-- least one pass asked for, chunks above 0 bytes and more rounds than the metadata length and
-- twice the bytes together, the benchmark ends. If opening owes an error, it exits with 1 and this
-- error. Else it exits with 0, the parity gate holds, both differences of the medians are there,
-- and each of the three modes has counted as many events as a run over the file owes, has taken as
-- many passes as were asked for, and has all its figures: a best, a median and a worst pass, and
-- the three rates. In both cases the mapped regions are, up to order, those from before, and the
-- open descriptors are those from before.
pub posix_main-Reports :
    {P F G W D : Type 0} (env : Surroundings P F G W D) (content : F → List ℕ) (path : P)
    (options : List P) (f : List ℕ) (sys : PosixCalls P W) (fds : W → List ℕ)
    (regions : W → List (ℕ × ℕ)) (law : IsPosix sys fds regions) (fuel k : ℕ) (w : W)
    → Holds env content path f
    → ((v : W) → StoresPosix sys env.memory path v f)
    → passes_of env options ≡ pos (suc k)
    → 0 < chunk_of env options
    → length f < 2 ^ 64
    → metadata_len f + 2 * length f < fuel
    → Benchmarks env regions fds (make_posix sys) (release_posix sys) fuel path options f (suc k) w
posix_main-Reports env content path options f sys fds regions law fuel k w holds stores passes room
      small enough =
    bench_main-Reports env content path posix_region regions fds (make_posix sys)
      (release_posix sys) (posix-Manages sys fds regions law) (posix-KeepsTable sys fds regions law)
      fuel k options passes room f (Holds-Sees env content path f holds)
      (λ v. make_posix-ViewsFile sys env.memory path v f (stores v)) small enough w

-- The same with the Win32 calls.
pub win32_main-Reports :
    {P F G W D : Type 0} (env : Surroundings P F G W D) (content : F → List ℕ) (path : P)
    (options : List P) (f : List ℕ) (sys : Win32Calls P W) (handles views : W → List ℕ)
    (law : IsWin32 sys handles views) (fuel k : ℕ) (w : W)
    → Holds env content path f
    → ((v : W) → StoresWin32 sys env.memory path v f)
    → passes_of env options ≡ pos (suc k)
    → 0 < chunk_of env options
    → length f < 2 ^ 64
    → metadata_len f + 2 * length f < fuel
    → Benchmarks env views handles
        (make_win32 sys)
        (release_win32 sys)
        fuel
        path
        options
        f
        (suc k)
        w
win32_main-Reports env content path options f sys handles views law fuel k w holds stores passes
      room small enough =
    bench_main-Reports env content path win32_region views handles (make_win32 sys)
      (release_win32 sys) (win32-Manages sys handles views law)
      (win32-KeepsTable sys handles views law) fuel k options passes room f
      (Holds-Sees env content path f holds)
      (λ v. make_win32-ViewsFile sys env.memory path v f (stores v)) small enough w
