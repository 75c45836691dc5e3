-- ===== src/Bench/Compare.antt =====
-- bench/bench_dbn.cpp: what `main` reports of its modes, and its parity gate.
use trading_engine_hh.Base.{
  ℕ, suc, ◌+◌, ◌*◌, ◌^◌, ◌<◌, ◌≡◌, refl, ap, ◌∙◌, List, ◌∷◌, length, Result, ok, err, done, arith,
}
use mathlib.Core.Path.{subst}
use trading_engine_hh.Base.Int.{pos}
use trading_engine_hh.Prologue.{DbnError, metadata_len}
use trading_engine_hh.Stream.{Yield}
use trading_engine_hh.Source.{file_source}
use trading_engine_hh.Source.File.{file_source-IsOrderly}
use trading_engine_hh.Ingest.Parity.{
  Ingests, Ingests-unique, ingest_stream-Ingests, ingest_mmap-Ingests,
}
use trading_engine_hh.Bench.Main.{
  borrow, figures_of, BenchExit, Surroundings, chunk_of, passes_of, bench_main,
}
use trading_engine_hh.Bench.Modes.{stream_pass-ingest, Ingests-Fits, Sees}
use trading_engine_hh.Bench.Report.{
  difference-some, Compares, Reports, Compares-Reports, Reported-summary,
}
use trading_engine_hh.Bench.Mapped.{mmap_pass-Does}
use trading_engine_hh.MemoryMappedFile.{MemoryMappedFile, MapError}
use trading_engine_hh.MemoryMappedFile.Ownership.{Manages, KeepsTable, Restored}
use trading_engine_hh.MemoryMappedFile.Stores.{ViewsFile}
use trading_engine_hh.Bench.Measuring.{Gives, measure-throws, measure-Gives}

module _ {P F G W D K X : Type 0} (env : Surroundings P F G W D) (content : F → List ℕ) (path : P)
    (key : MemoryMappedFile → K) (regions : W → List K) (table : W → X)
    (make : P → W → Result MapError MemoryMappedFile × W)
    (release : MemoryMappedFile → W → MemoryMappedFile × W) (law : Manages key regions make release)
    (keeps : KeepsTable table make release) (fuel k : ℕ) (options : List P)
    (asked : passes_of env options ≡ pos (suc k)) (room : 0 < chunk_of env options) where
  Gives-Compares :
      (f g : List ℕ) (sees : Sees env content path f g) (na nb nc : ℕ)
      → Gives env content path f g sees key regions table make release law keeps fuel
          (chunk_of env options)
          k
          na
          nb
          nc
      → (w : W)
      → (x : BenchExit D) × (w' : W) × (bench_main env make release fuel (path ∷ options) w
          ≡ done (x, w'))
        × Compares (suc k) na nb nc x
        × Restored regions table w w'
  unfolding bench_main
  Gives-Compares f g sees na nb nc (a, b, c, does, ra, rb, rc) w =
      let (w', runs, same) = does w in
      let stream =
        Reported-summary env.double env.sort sees.sorts na k (borrow env a b)
          (record { events = ra.events; passes = ra.passes }) in
      let slice = Reported-summary env.double env.sort sees.sorts nb k b rb in
      let mmap =
        Reported-summary env.double env.sort sees.sorts nc k (borrow env c b)
          (record { events = rc.events; passes = rc.passes }) in
      (
        _,
        w',
        rw (asked, sees.slurped, runs) refl,
        (
          figures_of env a b c,
          refl,
          rw (ra.events, rc.events) refl,
          record {
            mmap_win = difference-some env.double.minus _ _ stream.median mmap.median;
            map_residual = difference-some env.double.minus _ _ mmap.median slice.median;
          },
          stream,
          slice,
          mmap,
        ),
        same,
      )

  -- The three modes over what each of them has of the file.
  pub bench_main-Compares :
      (f g h : List ℕ) (sees : Sees env content path f g) (ya yb yc : Yield)
      → ((w : W) → ViewsFile env.memory h (make path w))
      → length f < 2 ^ 64
      → length g < 2 ^ 64
      → length h < 2 ^ 64
      → metadata_len f + 2 * length f < fuel
      → metadata_len g + 2 * length g < fuel
      → length h < fuel
      → Ingests f (ok ya)
      → Ingests g (ok yb)
      → Ingests h (ok yc)
      → (w : W)
      → (x : BenchExit D) × (w' : W) × (bench_main env make release fuel (path ∷ options) w
          ≡ done (x, w'))
        × Compares (suc k) (length ya.events) (length yb.events) (length yc.events) x
        × Restored regions table w w'
  bench_main-Compares f g h sees ya yb yc views fs gs hs enough_f enough_g enough_h fed slurps maps
        w =
      let (o, streamed, owed) =
        ingest_stream-Ingests (file_source env.io) content
          (file_source-IsOrderly env.io content sees.reads) fuel (env.io.open_binary path)
          (chunk_of env options) room (rw sees.contents enough_f) in
      let (o', mapped, owed') = ingest_mmap-Ingests fuel h enough_h in
      let same : o ≡ ok ya =
        Ingests-unique f o (ok ya) (subst (λ u. Ingests u o) sees.contents owed) fed in
      let same' : o' ≡ ok yc = Ingests-unique h o' (ok yc) owed' maps in
      Gives-Compares f g sees (length ya.events) (length yb.events) (length yc.events)
        (measure-Gives env content path f g sees key regions table make release law keeps fuel
          (chunk_of env options) room gs enough_g k (length ya.events) (length yc.events) yb slurps
          (stream_pass-ingest env.io fuel (chunk_of env options) (env.io.open_binary path) (ok ya)
            (streamed ∙ ap done same) (Ingests-Fits f (ok ya) fs fed))
          (mmap_pass-Does key regions table make release law keeps env.memory fuel h path (ok yc)
            views (mapped ∙ ap done same') (Ingests-Fits h (ok yc) hs maps)))
        w

  module _ (f : List ℕ) (sees : Sees env content path f f)
      (views : (w : W) → ViewsFile env.memory f (make path w)) (small : length f < 2 ^ 64)
      (enough : metadata_len f + 2 * length f < fuel) where
    owed-Reports :
        (o : Result DbnError Yield)
        → Ingests f o
        → (w : W)
        → (x : BenchExit D) × (w' : W) × (bench_main env make release fuel (path ∷ options) w
            ≡ done (x, w'))
          × Reports (suc k) o x
          × Restored regions table w w'
    unfolding bench_main
    owed-Reports (err e) owed w =
        let (o, streamed, owes) =
          ingest_stream-Ingests (file_source env.io) content
            (file_source-IsOrderly env.io content sees.reads) fuel (env.io.open_binary path)
            (chunk_of env options) room (rw sees.contents enough) in
        let same : o ≡ err e =
          Ingests-unique f o (err e) (subst (λ u. Ingests u o) sees.contents owes) owed in
        let (w', throws, restored) =
          measure-throws env content path f f sees key regions table make release law keeps fuel
            (chunk_of env options) k e
            (stream_pass-ingest env.io fuel (chunk_of env options) (env.io.open_binary path) (err e)
              (streamed ∙ ap done same) tt)
            w in
        (_, w', rw (asked, sees.slurped, throws) refl, refl, restored)
    owed-Reports (ok y) owed w =
        let (x, w', runs, compares, restored) =
          bench_main-Compares f f f sees y y y views small small small enough enough (omega arith)
            owed owed owed w in
        (x, w', runs, Compares-Reports (suc k) y x compares, restored)

    -- On a platform whose constructor gives a view of the file in every state of the system.
    pub bench_main-Reports :
        (w : W)
        → (owed : Result DbnError Yield) × (x : BenchExit D) × (w' : W) × Ingests f owed
          × (bench_main env make release fuel (path ∷ options) w ≡ done (x, w'))
          × Reports (suc k) owed x
          × Restored regions table w w'
    bench_main-Reports w =
        let (owed, mapped, owes) = ingest_mmap-Ingests fuel f (omega arith) in
        let (x, w', runs, reports, restored) = owed-Reports owed owes w in
        (owed, x, w', owes, runs, reports, restored)
