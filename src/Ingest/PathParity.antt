-- ===== src/Ingest/PathParity.antt =====
-- dbn_reader.hpp and memory_mapped_file.cpp: both readers over the file at one path, on POSIX and on Win32.
use trading_engine_hh.Base.{
  ℕ, ◌+◌, ◌*◌, ◌<◌, ◌≡◌, refl, sym, ap, ◌∙◌, List, length, Result, ok, err, done, arith,
}
use mathlib.Core.Path.{subst}
use trading_engine_hh.Prologue.{DbnError, metadata_len}
use trading_engine_hh.Stream.{Yield}
use trading_engine_hh.Source.{IStream, file_source}
use trading_engine_hh.Source.File.{ReadsFile, file_source-IsOrderly}
use trading_engine_hh.MemoryMappedFile.{
  Memory, bytes_of, MemoryMappedFile, MapError, PosixCalls, make_posix, release_posix, Win32Calls,
  make_win32, release_win32,
}
use trading_engine_hh.MemoryMappedFile.Ownership.{Manages, KeepsTable, Restored}
use trading_engine_hh.MemoryMappedFile.Posix.{IsPosix}
use trading_engine_hh.MemoryMappedFile.Windows.{IsWin32}
use trading_engine_hh.MemoryMappedFile.Platforms.{
  posix_region, posix-Manages, posix-KeepsTable, win32_region, win32-Manages, win32-KeepsTable,
}
use trading_engine_hh.MmapDbnReader.Owned.{refusing, ingest_path}
use trading_engine_hh.Ingest.{ingest_stream}
use trading_engine_hh.Ingest.Parity.{Ingests, Ingests-unique, ingest_stream-Ingests}
use trading_engine_hh.Ingest.OnPath.{ingest_path-Leaves}
use trading_engine_hh.MemoryMappedFile.Stores.{
  StoresPosix, ViewsFile, make_posix-ViewsFile, StoresWin32, make_win32-ViewsFile,
}

-- The streaming reader over `io`, and the mapped reader over `make` and `release`.
module _ {P F W K : Type 0} (io : IStream P F) (content : F → List ℕ) (reads : ReadsFile io content)
    (key : MemoryMappedFile → K) (regions : W → List K)
    (make : P → W → Result MapError MemoryMappedFile × W)
    (release : MemoryMappedFile → W → MemoryMappedFile × W) (law : Manages key regions make release)
    {X : Type 0} (table : W → X) (keeps : KeepsTable table make release) (memory : Memory W) where
  -- Both runs over a path, which have the outcome that the bytes there owe.
  abbrev pub SameRuns : ℕ → ℕ → P → W → List ℕ → Type 0
  SameRuns fuel chunk path w f =
      (owed : Result DbnError Yield) × (w' : W) × Ingests f owed
      × (ingest_stream (file_source io) fuel (io.open_binary path) chunk ≡ done owed)
      × (ingest_path make release memory fuel path w ≡ done (refusing owed, w'))
      × Restored regions table w w'

  same_runs :
      (fuel chunk : ℕ) (path : P) (w : W) (f : List ℕ) (t : Result MapError MemoryMappedFile × W)
      → make path w ≡ t
      → ViewsFile memory f t
      → content (io.open_binary path) ≡ f
      → 0 < chunk
      → metadata_len f + 2 * length f < fuel
      → SameRuns fuel chunk path w f
  same_runs fuel chunk path w f (err x, w₁) e v same room enough = absurd v
  same_runs fuel chunk path w f (ok m, w₁) e v same room enough =
      let (o, runs, owed) =
        ingest_stream-Ingests (file_source io) content (file_source-IsOrderly io content reads) fuel
          (io.open_binary path) chunk room (rw same enough) in
      let (o', w', runs', owed', restored) =
        rw e at
          (ingest_path-Leaves key regions make release law table keeps memory fuel path w fits) in
      let here : Ingests f o = subst (λ u. Ingests u o) same owed in
      (
        o,
        w',
        here,
        runs,
        rw (Ingests-unique f o o' here (subst (λ u. Ingests u o') v owed')) runs',
        restored,
      )
    where
      fits :
          (m' : MemoryMappedFile) (w' : W)
          → make path w ≡ (ok m', w')
          → length (bytes_of memory m' w') < fuel
      fits m' w' e' =
          let one : bytes_of memory m' w' ≡ f = subst (λ t. ViewsFile memory f t) (sym e ∙ e') v in
          omega (arith, ap length one, enough)

-- With the POSIX calls and the stream as documented for a file at a path, with a chunk size above
-- 0 and more rounds than the metadata length and twice the bytes of the file together, the
-- streaming reader over the path and the mapped reader from its constructor on the path to its
-- destructor both end with the outcome that the bytes of the file owe, the same error or the same
-- events, counters and flag, and afterwards the mapped regions are, up to order, those from
-- before, and the open descriptors are those from before.
pub posix_path_parity :
    {P F W : Type 0} (io : IStream P F) (content : F → List ℕ) (reads : ReadsFile io content)
    (sys : PosixCalls P W) (fds : W → List ℕ) (regions : W → List (ℕ × ℕ))
    (law : IsPosix sys fds regions) (memory : Memory W) (fuel chunk : ℕ) (path : P) (w : W)
    (f : List ℕ)
    → StoresPosix sys memory path w f
    → content (io.open_binary path) ≡ f
    → 0 < chunk
    → metadata_len f + 2 * length f < fuel
    → SameRuns io content reads posix_region regions
        (make_posix sys)
        (release_posix sys)
        (posix-Manages sys fds regions law)
        fds
        (posix-KeepsTable sys fds regions law)
        memory
        fuel
        chunk
        path
        w
        f
posix_path_parity io content reads sys fds regions law memory fuel chunk path w f stores same room
      enough =
    same_runs io content reads posix_region regions (make_posix sys) (release_posix sys)
      (posix-Manages sys fds regions law) fds (posix-KeepsTable sys fds regions law) memory fuel
      chunk path w f (make_posix sys path w) refl (make_posix-ViewsFile sys memory path w f stores)
      same room enough

-- With the Win32 calls and the stream as documented for a file at a path, with a chunk size above
-- 0 and more rounds than the metadata length and twice the bytes of the file together, the
-- streaming reader over the path and the mapped reader from its constructor on the path to its
-- destructor both end with the outcome that the bytes of the file owe, the same error or the same
-- events, counters and flag, and afterwards the mapped views are, up to order, those from before,
-- and the open handles are those from before.
pub win32_path_parity :
    {P F W : Type 0} (io : IStream P F) (content : F → List ℕ) (reads : ReadsFile io content)
    (sys : Win32Calls P W) (handles views : W → List ℕ) (law : IsWin32 sys handles views)
    (memory : Memory W) (fuel chunk : ℕ) (path : P) (w : W) (f : List ℕ)
    → StoresWin32 sys memory path w f
    → content (io.open_binary path) ≡ f
    → 0 < chunk
    → metadata_len f + 2 * length f < fuel
    → SameRuns io content reads win32_region views
        (make_win32 sys)
        (release_win32 sys)
        (win32-Manages sys handles views law)
        handles
        (win32-KeepsTable sys handles views law)
        memory
        fuel
        chunk
        path
        w
        f
win32_path_parity io content reads sys handles views law memory fuel chunk path w f stores same room
      enough =
    same_runs io content reads win32_region views (make_win32 sys) (release_win32 sys)
      (win32-Manages sys handles views law) handles (win32-KeepsTable sys handles views law) memory
      fuel chunk path w f (make_win32 sys path w) refl
      (make_win32-ViewsFile sys memory path w f stores) same room enough
