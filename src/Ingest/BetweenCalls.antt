-- ===== src/Ingest/BetweenCalls.antt =====
-- A whole run of `MmapDbnReader` in a program that maps and releases other files between its calls.
use trading_engine_hh.Base.{
  ℕ, ◌≡◌, ◌<◌, refl, sym, ap, ◌∙◌, List, ◌++◌, length, Result, ok, err, Run, done, out_of_fuel,
  and_then, arith,
}
use mathlib.Core.Path.{subst}
use mathlib.Core.List.{Perm}
use mathlib.Core.List.Perm
use trading_engine_hh.Prologue.{DbnError}
use trading_engine_hh.Stream.{Yield}
use trading_engine_hh.Reader.Client.{collect}
use trading_engine_hh.MemoryMappedFile.{
  Memory, bytes_of, MemoryMappedFile, MapError, PosixCalls, make_posix, release_posix,
}
use trading_engine_hh.MemoryMappedFile.Ownership.{region, Manages}
use trading_engine_hh.MemoryMappedFile.Beside.{Mapped, Beside, KeepsBytes}
use trading_engine_hh.MemoryMappedFile.Posix.{IsPosix}
use trading_engine_hh.MemoryMappedFile.PosixBytes.{KeepsPosix, posix-KeepsBytes}
use trading_engine_hh.MemoryMappedFile.Platforms.{posix_region, posix-Manages}
use trading_engine_hh.MemoryMappedFile.Stores.{StoresPosix, ViewsFile, make_posix-ViewsFile}
use trading_engine_hh.MmapDbnReader
use trading_engine_hh.MmapDbnReader.{MmapDbnReader}
use trading_engine_hh.MmapDbnReader.Contract.{mmap_reader}
use trading_engine_hh.MmapDbnReader.Owned.{validated, over_file, open_path}
use trading_engine_hh.MmapDbnReader.Interleaved.{collect_between, collect_between-collect}
use trading_engine_hh.Ingest.{ingest_mmap, drain_opened}
use trading_engine_hh.Ingest.Parity.{ingest_mmap-Ingests}

abbrev pub map_after : List ℕ → Result DbnError MmapDbnReader → List ℕ
map_after f (ok r) = r.map
map_after f (err x) = f

pub open_reader-map_after : (f : List ℕ) → map_after f (MmapDbnReader.open_reader f) ≡ f
unfolding MmapDbnReader.open_reader MmapDbnReader.skip_prologue
open_reader-map_after f = ground arith

-- A run over a reader that is opened returns what its loop collects.
drained :
    (fuel : ℕ) (r : MmapDbnReader) (o : Result DbnError Yield)
    → drain_opened mmap_reader fuel (ok r) ≡ done o
    → (y : Yield) × (collect mmap_reader fuel fuel r ≡ done y) × (o ≡ ok y)
drained fuel r o e = go (collect mmap_reader fuel fuel r) e
  where
    go :
        (u : Run Yield)
        → and_then u (λ y. done (ok y)) ≡ done o
        → (y : Yield) × (u ≡ done y) × (o ≡ ok y)
    go out_of_fuel e = cc
    go (done y) e = (y, refl, cc e)

module _ {P W K : Type 0} (key : MemoryMappedFile → K) (regions : W → List K)
    (make : P → W → Result MapError MemoryMappedFile × W)
    (release : MemoryMappedFile → W → MemoryMappedFile × W) (law : Manages key regions make release)
    (memory : Memory W) (f : List ℕ) where
  -- What there is once the constructor has returned.
  record Opened (m : MemoryMappedFile) (r : MmapDbnReader) (w : W) : Type 0 where
    mapped : Mapped key regions make release m w
    views : bytes_of memory m w ≡ f
    reader : MmapDbnReader.open_reader f ≡ ok r

  validated-Opened :
      (m m' : MemoryMappedFile) (r : MmapDbnReader) (w w' : W) (x : Result DbnError MmapDbnReader)
      → MmapDbnReader.open_reader f ≡ x
      → Mapped key regions make release m w
      → bytes_of memory m w ≡ f
      → validated make release memory m w x ≡ (ok (m', r), w')
      → Opened m' r w'
  validated-Opened m m' r w w' (err x) opens h v e = cc
  validated-Opened m m' r w w' (ok s) opens h v e =
      let same_object : m ≡ m' = cc e in
      let same_reader : s ≡ r = cc e in
      let same_system : w ≡ w' = cc e in
      rw (sym same_object, sym same_reader, sym same_system)
        (record { mapped = h; views = v; reader = opens })

  over_file-Opened :
      (path : P) (w w' : W) (m : MemoryMappedFile) (r : MmapDbnReader)
      (t : Result MapError MemoryMappedFile × W)
      → make path w ≡ t
      → ViewsFile memory f t
      → over_file make release memory t ≡ (ok (m, r), w')
      → Opened m r w'
  over_file-Opened path w w' m r (err x, v) made views e = cc
  over_file-Opened path w w' m r (ok n, v) made views e =
      validated-Opened n m r v w' (MmapDbnReader.open_reader f) refl
        (
          regions w,
          subst (λ t. Perm t (region key n ++ regions w)) (sym (law.makes path w v n made))
              (Perm.refl _),
        )
        views (rw views at e)

  between_calls :
      (keeps : KeepsBytes key regions make release memory) (fuel : ℕ) (m : MemoryMappedFile)
      (r : MmapDbnReader) (w : W) (between : ℕ → W → W)
      → Opened m r w
      → ((n : ℕ) (v : W)
          → Mapped key regions make release m v
          → Beside key regions make release m v (between n v))
      → length f < fuel
      → (y : Yield) × (ingest_mmap fuel f ≡ done (ok y))
        × (collect_between memory m between fuel fuel 0 r w ≡ done y)
  between_calls keeps fuel m r w between opened apart enough =
      let (o, runs, owed) = ingest_mmap-Ingests fuel f enough in
      let (y, collects, is) =
        drained fuel r o
          (sym (ap (drain_opened mmap_reader fuel) opened.reader) ∙ unfold ingest_mmap in runs) in
      (
        y,
        runs ∙ ap done is,
        collect_between-collect key regions make release law memory keeps m between apart fuel fuel
              0 r w opened.mapped
              (opened.views ∙ sym (rw opened.reader at (open_reader-map_after f)))
            ∙ collects,
      )

-- With the POSIX calls as documented, which leave the bytes of a mapped region as they are until
-- its own `munmap`, for a reader that the constructor of `MmapDbnReader` has returned for a file
-- at a path, and with more rounds than the file has bytes: if between any two calls of `next()`
-- the program maps other files and releases other objects in any order, each call reading the
-- memory through `bytes()` as it is then, the calls together still yield the events, counters and
-- flag of a run of the mapped reader over the bytes of the file.
pub posix_between_calls :
    {P W : Type 0} (sys : PosixCalls P W) (fds : W → List ℕ) (regions : W → List (ℕ × ℕ))
    (law : IsPosix sys fds regions) (memory : Memory W) (keeps : KeepsPosix sys regions memory)
    (fuel : ℕ) (path : P) (w w' : W) (f : List ℕ) (m : MemoryMappedFile) (r : MmapDbnReader)
    (between : ℕ → W → W)
    → StoresPosix sys memory path w f
    → open_path (make_posix sys) (release_posix sys) memory path w ≡ (ok (m, r), w')
    → ((n : ℕ) (v : W)
        → Mapped posix_region regions (make_posix sys) (release_posix sys) m v
        → Beside posix_region regions (make_posix sys) (release_posix sys) m v (between n v))
    → length f < fuel
    → (y : Yield) × (ingest_mmap fuel f ≡ done (ok y))
      × (collect_between memory m between fuel fuel 0 r w' ≡ done y)
posix_between_calls sys fds regions law memory keeps fuel path w w' f m r between stores opened
      apart enough =
    between_calls posix_region regions (make_posix sys) (release_posix sys) manages memory f
      (posix-KeepsBytes sys fds regions law memory keeps) fuel m r w' between
      (over_file-Opened posix_region regions (make_posix sys) (release_posix sys) manages memory f
        path w w' m r (make_posix sys path w) refl (make_posix-ViewsFile sys memory path w f stores)
        (unfold open_path in opened))
      apart enough
  where
    manages : Manages posix_region regions (make_posix sys) (release_posix sys)
    manages = posix-Manages sys fds regions law
