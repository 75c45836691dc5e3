-- ===== src/Bench/Faults.antt =====
-- bench/bench_dbn.cpp: `main` over a file whose medium fails part of the way when it is read, while the
-- mapping has the whole file.
pub mod Parts
use trading_engine_hh.Base.{
  ℕ, suc, ◌+◌, ◌*◌, ◌^◌, ◌≤◌, ◌<◌, ◌≡◌, refl, ap, sym, ◌∙◌, ◌↔◌, true, List, [], ◌∷◌, ◌++◌, length,
  length-append, length-take, length-drop, length-replicate, take, drop, replicate,
  take-append-drop, nil_of_length, ◌==◌, ==_iff, Result, ok, done, arith,
}
use mathlib.Core.Path.{subst}
use trading_engine_hh.Base.Int.{pos}
use trading_engine_hh.Event.{Event}
use trading_engine_hh.Prologue.{Opens, header_size, metadata_len}
use trading_engine_hh.Prologue.Prefix.{metadata_len-append, metadata_len-take, Opens-take}
use trading_engine_hh.Stream.{Yield}
use trading_engine_hh.Source.{file_source}
use trading_engine_hh.Source.File.{file_source-IsOrderly}
use trading_engine_hh.Source.Faults.{ReadsUntilFault, readable, readable-ReadsFile}
use trading_engine_hh.Ingest.{ingest_stream, ingest_mmap}
use trading_engine_hh.Ingest.Parity.{Ingests, ingest_mmap-Ingests, ingest_parity}
use trading_engine_hh.Ingest.Delivery.{ingest_mmap-append}
use trading_engine_hh.MemoryMappedFile.{
  PosixCalls, MemoryMappedFile, MapError, make_posix, release_posix,
}
use trading_engine_hh.MemoryMappedFile.Ownership.{Restored}
use trading_engine_hh.MemoryMappedFile.Posix.{IsPosix}
use trading_engine_hh.MemoryMappedFile.Platforms.{posix_region, posix-Manages, posix-KeepsTable}
use trading_engine_hh.MemoryMappedFile.Stores.{StoresPosix, make_posix-ViewsFile}
use trading_engine_hh.Bench.Main.{slurp, Surroundings, BenchExit, chunk_of, passes_of, bench_main}
use trading_engine_hh.Bench.Modes.{Sees}
use trading_engine_hh.Bench.Report.{Compares}
use trading_engine_hh.Bench.Compare.{bench_main-Compares}
use trading_engine_hh.Bench.Faults.Parts.{
  zero_filled, length-zero_filled, front_enough, zero_filled_enough, parts,
}

-- What the documentation of the standard library says of a file `f` at `path` of which the first
-- `reach` bytes can be read.
pub record FailsAt {P F G W D : Type 0} (env : Surroundings P F G W D) (content : F → List ℕ)
    (reach : F → ℕ) (path : P) (f : List ℕ) : Type 0 where
  pub reads : ReadsUntilFault env.io content reach
  pub opens : env.io.is_good (env.io.open_binary path) ≡ true
  pub contents : content (env.io.open_binary path) ≡ f
  pub opens_at_end : env.whole.is_good (env.whole.open_at_end path) ≡ true
  pub told : env.whole.tell (env.whole.open_at_end path) ≡ pos (length f)
  pub stored :
      (env.whole.fill (env.whole.seek_start (env.whole.open_at_end path)) (length f)).0
      ≡ take (reach (env.io.open_binary path)) f
  pub sorts : (xs : List D) → length (env.sort xs) ≡ length xs

FailsAt-Sees :
    {P F G W D : Type 0} (env : Surroundings P F G W D) (content : F → List ℕ) (reach : F → ℕ)
    (path : P) (f : List ℕ)
    → FailsAt env content reach path f
    → Sees env
        (readable content reach)
        path
        (take (reach (env.io.open_binary path)) f)
        (zero_filled (reach (env.io.open_binary path)) f)
unfolding slurp
FailsAt-Sees env content reach path f fails = record {
  reads = readable-ReadsFile env.io content reach fails.reads;
  opens = fails.opens;
  contents = ap (take (reach (env.io.open_binary path))) fails.contents;
  slurped = rw (fails.told, fails.opens_at_end, fails.stored) refl;
  sorts = fails.sorts;
}

-- The lists of events have the same length exactly if none is lost.
loss_shows :
    (y z : Yield) (es : List Event)
    → z.events ≡ y.events ++ es
    → ((length y.events == length z.events) ≡ true) ↔ (es ≡ [])
loss_shows y z es more = (
  (λ same. nil_of_length es (
      omega (
        arith,
        (==_iff (length y.events) (length z.events)).0 same,
        ap length more,
        length-append y.events es,
      ))),
  (λ none_lost.
      (==_iff (length y.events) (length z.events)).1
        (omega (arith, ap length more, ap length none_lost, length-append y.events es))),
)

module _ {P F G W D K X : Type 0} (env : Surroundings P F G W D) (regions : W → List K)
    (table : W → X) (make : P → W → Result MapError MemoryMappedFile × W)
    (release : MemoryMappedFile → W → MemoryMappedFile × W) where
  -- The streaming reader returns `y`, the mapped one `z`, which has the events `es` more, and mode B
  -- counts `extra` more than mode A.
  abbrev pub Detects : ℕ → P → List P → List ℕ → ℕ → W → Type 0
  Detects fuel path options f passes w =
      (y z : Yield) × (es : List Event) × (extra : ℕ) × (x : BenchExit D) × (w' : W)
      × (ingest_stream (file_source env.io) fuel (env.io.open_binary path) (chunk_of env options)
          ≡ done (ok y))
      × (ingest_mmap fuel f ≡ done (ok z))
      × (z.events ≡ y.events ++ es)
      × (bench_main env make release fuel (path ∷ options) w ≡ done (x, w'))
      × Compares passes (length y.events) (length y.events + extra) (length z.events) x
      × (((length y.events == length z.events) ≡ true) ↔ (es ≡ []))
      × Restored regions table w w'

-- With the POSIX calls as documented and a file shorter than 2 ^ 64 bytes that opens and that a
-- mapping shows whole in every state of the system, while the streams of the standard library stop
-- storing its bytes at a fault of the medium somewhere after the prologue, with at least one pass
-- asked for, chunks above 0 bytes and more rounds than the metadata length and twice the bytes
-- together, the benchmark ends, with exit code 0. The events of the streaming reader are the first
-- ones of those of the mapped reader; mode A and mode C have counted the events of the two
-- readers, and mode B, whose buffer has zeros for what could not be read, has counted at least as
-- many as mode A. The parity gate compares the counts of A and C, and they are equal exactly if
-- the fault has lost no event. Each mode has taken as many passes as were asked for and has all
-- its figures, the mapped regions are, up to order, those from before, and the open descriptors
-- are those from before.
pub posix_main-Detects :
    {P F G W D : Type 0} (env : Surroundings P F G W D) (content : F → List ℕ) (reach : F → ℕ)
    (path : P) (options : List P) (f records : List ℕ) (sys : PosixCalls P W) (fds : W → List ℕ)
    (regions : W → List (ℕ × ℕ)) (law : IsPosix sys fds regions) (fuel k : ℕ) (w : W)
    → FailsAt env content reach path f
    → ((v : W) → StoresPosix sys env.memory path v f)
    → Opens f (ok records)
    → header_size + metadata_len f ≤ reach (env.io.open_binary path)
    → passes_of env options ≡ pos (suc k)
    → 0 < chunk_of env options
    → length f < 2 ^ 64
    → metadata_len f + 2 * length f < fuel
    → Detects env regions fds (make_posix sys) (release_posix sys) fuel path options f (suc k) w
posix_main-Detects env content reach path options f records sys fds regions law fuel k w fails
      stores opens far asked room small enough =
    let n = reach (env.io.open_binary path) in
    let sees = FailsAt-Sees env content reach path f fails in
    let p = parts fuel n f records opens far enough in
    let (o, streamed, mapped) =
      ingest_parity (file_source env.io) (readable content reach)
        (file_source-IsOrderly env.io (readable content reach) sees.reads) fuel
        (env.io.open_binary path) (chunk_of env options) room
        (rw sees.contents (front_enough fuel n f records opens far enough)) in
    let (x, w', runs, compares, restored) =
      bench_main-Compares env (readable content reach) path posix_region regions fds
        (make_posix sys) (release_posix sys) (posix-Manages sys fds regions law)
        (posix-KeepsTable sys fds regions law) fuel k options asked room (take n f)
        (zero_filled n f) f sees p.front p.filled p.entire
        (λ v. make_posix-ViewsFile sys env.memory path v f (stores v))
        (omega (arith, small, length-take n f)) (omega (arith, small, length-zero_filled n f)) small
        (front_enough fuel n f records opens far enough)
        (zero_filled_enough fuel n f records opens far enough) (omega (arith, enough)) p.front_owed
        p.filled_owed p.entire_owed w in
    (
      p.front,
      p.entire,
      p.lost,
      p.extra,
      x,
      w',
      streamed ∙ sym mapped ∙ ap (ingest_mmap fuel) sees.contents ∙ p.front_runs,
      p.entire_runs,
      p.events,
      runs,
      rw p.counted at compares,
      loss_shows p.front p.entire p.lost p.events,
      restored,
    )
