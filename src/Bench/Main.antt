-- ===== src/Bench/Main.antt =====
-- bench/bench_dbn.cpp: `slurp`, `report` and `main`. The clock, `std::sort`, the arithmetic of
-- `double`, `atoi` and `atoll` are parameters; a read past the end of a vector is `none`.
use trading_engine_hh.Base.{
  ℕ, zero, suc, ◌-◌, ◌*◌, ◌/◌, Bool, List, [], ◌∷◌, ◌++◌, length, drop, replicate, get_elem?, ◌==◌,
  none, some, if◌then◌else◌, Option, Result, ok, err, Run, done, and_then,
}
use mathlib.Core.Option.{map}
use trading_engine_hh.Base.Int.{ℤ, pos, negsuc, pattern64}
use trading_engine_hh.Source.{IStream}
use trading_engine_hh.MemoryMappedFile.{MemoryMappedFile, MapError, Memory}
use trading_engine_hh.MmapDbnReader.Owned.{OpenError}
use trading_engine_hh.Bench.Actions.{Action, pure, call, ◌>>=◌, ◌>>◌}
use trading_engine_hh.Bench.Passes.{Stats, Clock, bench_end_to_end, bench_in_memory, bench_mmap}

-- The part of `std::ifstream`, opened at its end, that `slurp` uses.
pub record SeekStream (P F : Type 0) : Type 0 where
  pub open_at_end : P → F
  pub is_good : F → Bool
  pub tell : F → ℤ
  pub seek_start : F → F
  pub fill : F → ℕ → List ℕ × F

-- The exceptions of `slurp`: its own, and the `std::length_error` of a vector of more bytes than any
-- vector can have.
pub data SlurpError : Type 0 where
  not_opened too_long : SlurpError

-- A `tellg` that fails gives -1, which as a `std::size_t` is more than the size of any vector.
abbrev pub filled_from : {P F : Type 0} → SeekStream P F → F → ℤ → Result SlurpError (List ℕ)
filled_from stream file (negsuc k) = err too_long
filled_from stream file (pos n) =
    let (got, after) = stream.fill (stream.seek_start file) n in
    ok (got ++ drop (length got) (replicate n 0))

unfoldable pub slurp : {P F : Type 0} → SeekStream P F → P → Result SlurpError (List ℕ)
slurp stream path =
    let file = stream.open_at_end path in
    if stream.is_good file then filled_from stream file (stream.tell file) else err not_opened

-- The arithmetic of `double`, with the constants that `report` uses: 1e9, 1e6, 1e-9 and 1024.0 * 1024.0.
pub record Doubles (D : Type 0) : Type 0 where
  pub of_size : ℕ → D
  pub times : D → D → D
  pub over : D → D → D
  pub minus : D → D → D
  pub giga : D
  pub mega : D
  pub nano : D
  pub mebi : D

-- The figures that `report` prints: the fastest, the middle and the slowest pass, millions of events in
-- a second for the first two, and mebibytes in a second for the middle one.
pub record Summary (D : Type 0) : Type 0 where
  pub best : Option D
  pub median : Option D
  pub worst : Option D
  pub peak : Option D
  pub typical : Option D
  pub typical_mbps : Option D

abbrev pub median : {D : Type 0} → List D → Option D
median v = get_elem? v (length v / 2)

module _ {D : Type 0} (double : Doubles D) where
  abbrev pub events_per_second : D → D
  events_per_second ns = double.over (double.over double.giga ns) double.mega

  abbrev pub mebibytes_per_second : Stats D → D → D
  mebibytes_per_second s ns =
      double.over
        (double.over (double.of_size s.record_bytes)
          (double.times (double.times ns double.nano) (double.of_size s.events)))
        double.mebi

  abbrev pub summary : (List D → List D) → Stats D → Summary D
  summary sort s =
      let v = sort s.pass_ns_per_event in
      record {
        best = get_elem? v 0;
        median = median v;
        worst = get_elem? v (length v - 1);
        peak = map events_per_second (get_elem? v 0);
        typical = map events_per_second (median v);
        typical_mbps = map (mebibytes_per_second s) (median v);
      }

-- The lines on the decomposition: the medians, A - C and C - B.
pub record Decomposition (D : Type 0) : Type 0 where
  pub stream_median : Option D
  pub slice_median : Option D
  pub mmap_median : Option D
  pub mmap_win : Option D
  pub map_residual : Option D

abbrev pub difference : {D : Type 0} → (D → D → D) → Option D → Option D → Option D
difference minus none y = none
difference minus (some x) none = none
difference minus (some x) (some y) = some (minus x y)

pub record Figures (D : Type 0) : Type 0 where
  pub stream_stats : Stats D
  pub slice_stats : Stats D
  pub mmap_stats : Stats D
  pub stream_summary : Summary D
  pub slice_summary : Summary D
  pub mmap_summary : Summary D
  pub parity_ok : Bool
  pub decomposition : Decomposition D

pub data Said (D : Type 0) : Type 0 where
  usage : Said D
  too_few_passes : Said D
  unread : SlurpError → Said D
  complaint : OpenError → Said D
  figures : Figures D → Said D

pub record BenchExit (D : Type 0) : Type 0 where
  pub code : ℕ
  pub said : Said D

-- What `main` uses and the repository does not define.
pub record Surroundings (P F G W D : Type 0) : Type 0 where
  pub io : IStream P F
  pub whole : SeekStream P G
  pub memory : Memory W
  pub atoi : P → ℤ
  pub atoll : P → ℤ
  pub sort : List D → List D
  pub double : Doubles D
  pub stream_clock : Clock D
  pub slice_clock : Clock D
  pub mmap_clock : Clock D

module _ {P F G W D : Type 0} (env : Surroundings P F G W D) where
  -- The arguments after the path, with their defaults.
  abbrev pub passes_of : List P → ℤ
  passes_of [] = pos 20
  passes_of (n ∷ others) = env.atoi n

  abbrev pub chunk_of : List P → ℕ
  chunk_of [] = 64 * 1024
  chunk_of (n ∷ []) = 64 * 1024
  chunk_of (n ∷ c ∷ others) = pattern64 (env.atoll c)

  -- A copy of the statistics with the bytes of mode B.
  abbrev pub borrow : Stats D → Stats D → Stats D
  borrow s b = record s { record_bytes = b.record_bytes }

  abbrev pub decomposition_of : Stats D → Stats D → Stats D → Decomposition D
  decomposition_of a b c =
      let a_med = median (env.sort a.pass_ns_per_event) in
      let b_med = median (env.sort b.pass_ns_per_event) in
      let c_med = median (env.sort c.pass_ns_per_event) in
      record {
        stream_median = a_med;
        slice_median = b_med;
        mmap_median = c_med;
        mmap_win = difference env.double.minus a_med c_med;
        map_residual = difference env.double.minus c_med b_med;
      }

  abbrev pub figures_of : Stats D → Stats D → Stats D → Figures D
  figures_of a b c = record {
    stream_stats = borrow a b;
    slice_stats = b;
    mmap_stats = borrow c b;
    stream_summary = summary env.double env.sort (borrow a b);
    slice_summary = summary env.double env.sort b;
    mmap_summary = summary env.double env.sort (borrow c b);
    parity_ok = a.events == c.events;
    decomposition = decomposition_of a b c;
  }

  abbrev pub ended : Result OpenError (Figures D) → BenchExit D
  ended (err x) = record { code = 1; said = complaint x }
  ended (ok f) = record { code = 0; said = figures f }

  -- On a platform with this constructor and `release_` of `MemoryMappedFile`.
  module _ (make : P → W → Result MapError MemoryMappedFile × W)
      (release : MemoryMappedFile → W → MemoryMappedFile × W) where
    -- The warm-up passes and the measured ones, in their order.
    abbrev pub measure : ℕ → List ℕ → P → ℕ → ℕ → Action W (Figures D)
    measure fuel file path chunk passes = do
      bench_end_to_end env.stream_clock env.io fuel path chunk 2
      call (bench_in_memory env.slice_clock fuel file chunk 2)
      bench_mmap env.mmap_clock make release env.memory fuel path 2
      a ← bench_end_to_end env.stream_clock env.io fuel path chunk passes
      b ← call (bench_in_memory env.slice_clock fuel file chunk passes)
      c ← bench_mmap env.mmap_clock make release env.memory fuel path passes
      pure (figures_of a b c)

    abbrev pub measured : ℕ → P → ℕ → ℕ → Result SlurpError (List ℕ) → W → Run (BenchExit D × W)
    measured fuel path chunk passes (err x) w = done (record { code = 1; said = unread x }, w)
    measured fuel path chunk passes (ok file) w =
        and_then (measure fuel file path chunk passes w) (λ (o, w'). done (ended o, w'))

    abbrev pub with_passes : ℕ → P → ℕ → ℤ → W → Run (BenchExit D × W)
    with_passes fuel path chunk (negsuc n) w = done (record { code = 2; said = too_few_passes }, w)
    with_passes fuel path chunk (pos zero) w = done (record { code = 2; said = too_few_passes }, w)
    with_passes fuel path chunk (pos (suc n)) w =
        measured fuel path chunk (suc n) (slurp env.whole path) w

    -- `main` on the arguments after the program's name.
    unfoldable pub bench_main : ℕ → List P → W → Run (BenchExit D × W)
    bench_main fuel [] w = done (record { code = 2; said = usage }, w)
    bench_main fuel (path ∷ options) w =
        with_passes fuel path (chunk_of options) (passes_of options) w
