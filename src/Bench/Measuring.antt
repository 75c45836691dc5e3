-- ===== src/Bench/Measuring.antt =====
-- bench/bench_dbn.cpp: the warm-up and the measured passes of `main`.
use trading_engine_hh.Base.{
  ℕ, suc, ◌+◌, ◌*◌, ◌^◌, ◌<◌, ◌≡◌, refl, List, length, Result, ok, err, done, arith,
}
use trading_engine_hh.Prologue.{DbnError, metadata_len}
use trading_engine_hh.Stream.{Yield}
use trading_engine_hh.Ingest.Parity.{Ingests}
use trading_engine_hh.Bench.Passes.{
  Stats, stream_pass, mmap_pass, no_stats, bench_end_to_end, bench_mmap,
}
use trading_engine_hh.Bench.Main.{figures_of, Surroundings, measure}
use trading_engine_hh.Bench.Rounds.{Measured, passes_from-throws, passes_from-Does}
use trading_engine_hh.Bench.Modes.{Sees, stream_start, slices-Measured}
use trading_engine_hh.Bench.Actions.{Does, call-Does}
use trading_engine_hh.MmapDbnReader.Owned.{refused}
use trading_engine_hh.MemoryMappedFile.{MemoryMappedFile, MapError}
use trading_engine_hh.MemoryMappedFile.Ownership.{
  Manages, KeepsTable, Restored, unchanged, unchanged_twice,
}

-- The modes on a platform: each has its own view of the file.
module _ {P F G W D K X : Type 0} (env : Surroundings P F G W D) (content : F → List ℕ) (path : P)
    (f g : List ℕ) (sees : Sees env content path f g) (key : MemoryMappedFile → K)
    (regions : W → List K) (table : W → X) (make : P → W → Result MapError MemoryMappedFile × W)
    (release : MemoryMappedFile → W → MemoryMappedFile × W) (law : Manages key regions make release)
    (keeps : KeepsTable table make release) where
  abbrev pub Same : W → W → Type 0
  Same = Restored regions table

  stream-Does :
      (fuel chunk k : ℕ) (n : ℕ)
      → stream_pass env.io fuel chunk (ok (env.io.open_binary path)) ≡ done (ok n)
      → (s : Stats D) × Does Same
          (bench_end_to_end env.stream_clock {W = W} env.io fuel path chunk (suc k))
          (ok s)
        × Measured n (suc k) s
  stream-Does fuel chunk k n streamed =
      let (s, does, m) =
        passes_from-Does env.stream_clock Same (unchanged regions table)
          (unchanged_twice regions table) _ n k 0 0 no_stats
          (call-Does Same (unchanged regions table) _ (ok n) streamed) refl in
      (
        s,
        rw (stream_start env content path f g sees fuel chunk (suc k)) does,
        record { events = m.events; passes = omega (arith, m.passes) },
      )

  mmap-Does :
      (fuel k n : ℕ)
      → Does Same (mmap_pass make release env.memory fuel path) (ok n)
      → (s : Stats D) × Does Same
          (bench_mmap env.mmap_clock make release env.memory fuel path (suc k))
          (ok s)
        × Measured n (suc k) s
  unfolding bench_mmap
  mmap-Does fuel k n mapped =
      let (s, does, m) =
        passes_from-Does env.mmap_clock Same (unchanged regions table)
          (unchanged_twice regions table) _ n k 0 0 no_stats mapped refl in
      (s, does, record { events = m.events; passes = omega (arith, m.passes) })

  -- The constructor of the reader of mode A throws.
  pub measure-throws :
      (fuel chunk k : ℕ) (x : DbnError)
      → stream_pass env.io fuel chunk (ok (env.io.open_binary path)) ≡ done (err x)
      → Does Same (measure env make release fuel g path chunk (suc k)) (err (refused x))
  measure-throws fuel chunk k x streamed = λ w.
      let (w', throws, same) =
        passes_from-throws env.stream_clock Same (unchanged regions table)
          (unchanged_twice regions table) _ (refused x) 1 0 no_stats
          (call-Does Same (unchanged regions table) _ (err x) streamed) w in
      (w', rw (stream_start env content path f g sees fuel chunk 2, throws) refl, same)

  -- What `measure` gives for the numbers of events of the three modes.
  abbrev pub Gives : ℕ → ℕ → ℕ → ℕ → ℕ → ℕ → Type 0
  Gives fuel chunk k na nb nc =
      (a : Stats D) × (b : Stats D) × (c : Stats D) × Does Same
        (measure env make release fuel g path chunk (suc k)) (ok (figures_of env a b c))
      × Measured na (suc k) a
      × Measured nb (suc k) b
      × Measured nc (suc k) c

  module _ (fuel chunk : ℕ) (room : 0 < chunk) (small : length g < 2 ^ 64)
      (enough : metadata_len g + 2 * length g < fuel) where
    pub measure-Gives :
        (k na nc : ℕ) (y : Yield)
        → Ingests g (ok y)
        → stream_pass env.io fuel chunk (ok (env.io.open_binary path)) ≡ done (ok na)
        → Does Same (mmap_pass make release env.memory fuel path) (ok nc)
        → Gives fuel chunk k na (length y.events) nc
    measure-Gives k na nc y owed streamed mapped =
        let (a0, warm_a, ra0) = stream-Does fuel chunk 1 na streamed in
        let (b0, warm_b, rb0) =
          slices-Measured env content path f g sees fuel chunk 1 y owed room small enough in
        let (c0, warm_c, rc0) = mmap-Does fuel 1 nc mapped in
        let (a, run_a, ra) = stream-Does fuel chunk k na streamed in
        let (b, run_b, rb) =
          slices-Measured env content path f g sees fuel chunk k y owed room small enough in
        let (c, run_c, rc) = mmap-Does fuel k nc mapped in
        (
          a,
          b,
          c,
          (λ w.
              let (w1, e1, s1) = warm_a w in
              let (w2, e2, s2) = warm_c w1 in
              let (w3, e3, s3) = run_a w2 in
              let (w4, e4, s4) = run_c w3 in
              (
                w4,
                rw (e1, warm_b, e2, e3, run_b, e4) refl,
                unchanged_twice regions table w w3 w4
                    (unchanged_twice regions table w w2 w3
                      (unchanged_twice regions table w w1 w2 s1 s2) s3)
                    s4,
              )),
          ra,
          rb,
          rc,
        )
