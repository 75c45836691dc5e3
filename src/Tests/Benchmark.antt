-- ===== src/Tests/Benchmark.antt =====
-- Whole runs over a small DBN file: what is delivered, what more bytes change, and the benchmark.
use trading_engine_hh.Base.{
  ℕ, suc, ◌+◌, ◌-◌, ◌*◌, ◌/◌, Option, some, ◌≡◌, refl, ap, ◌∙◌, true, Bool-cases, inl, inr, ltb,
  if◌then◌else◌, List, [], ◌∷◌, ◌++◌, length, take, drop, ok, done, out_of_fuel, arith,
}
use trading_engine_hh.Base.Int.{pos}
use trading_engine_hh.Event.{Event}
use trading_engine_hh.Dbn.{bytes_of_wire, to_event}
use trading_engine_hh.Event.{is_valid_action, is_valid_side}
use trading_engine_hh.Route.{emit, zero_stats, route_record}
use trading_engine_hh.Stream.{Yield}
use trading_engine_hh.Stream.Records.{events_of}
use trading_engine_hh.Stream.RoundTrip.{records_of, bytes_of_wires}
use trading_engine_hh.Ingest.{ingest_stream, ingest_mmap}
use trading_engine_hh.Ingest.Whole.{file-Opens}
use trading_engine_hh.Ingest.Delivery.{ingest-emit}
use trading_engine_hh.Bench.Passes.{bench_in_memory}
use trading_engine_hh.Bench.EmptySlices.{bench_in_memory-out_of_fuel}
use trading_engine_hh.Bench.Main.{Surroundings}
use trading_engine_hh.Bench.Modes.{Holds}
use trading_engine_hh.Bench.Gate.{Benchmarks, posix_main-Reports}
use trading_engine_hh.MemoryMappedFile.{make_posix, release_posix}
use trading_engine_hh.MemoryMappedFile.Stores.{StoresPosix}
use trading_engine_hh.Tests.Paths.{memory, at_path, streams, here, streams-ReadsFile, all_there}
use trading_engine_hh.Tests.Mapping.{System, posix, fds, regions, posix-IsPosix, before}
use trading_engine_hh.Tests.Data.{
  source, left, source-IsOrderly, header, metadata, dbn, file, wires, added, unknown,
}
use trading_engine_hh.Tests.Runs.{parts-Splits}

is_emitted : (route_record (bytes_of_wire added)).outcome ≡ emit
unfolding bytes_of_wire route_record to_event is_valid_action is_valid_side
is_emitted = refl

-- The third record, after one that is emitted and one that is malformed.
emit_example :
    (y : Yield) × (es : List Event) × (ingest_stream source 500 file 100 ≡ done (ok y))
    × (ingest_mmap 500 (left file) ≡ done (ok y))
    × (y.events
        ≡ events_of zero_stats (records_of (added ∷ unknown ∷ []))
          ++ ((route_record (bytes_of_wire added)).event ∷ es))
unfolding bytes_of_wire
emit_example =
    ingest-emit source left source-IsOrderly 500 file 100 (omega arith) (omega arith)
      (bytes_of_wires wires ++ (14 ∷ 160 ∷ [])) (records_of (added ∷ unknown ∷ [])) []
      (bytes_of_wire added) (file-Opens header metadata _ dbn) parts-Splits refl is_emitted

insert : ℕ → List ℕ → List ℕ
insert x [] = x ∷ []
insert x (y ∷ ys) = if ltb x y then x ∷ y ∷ ys else y ∷ insert x ys

length-insert : (x : ℕ) (ys : List ℕ) → length (insert x ys) ≡ suc (length ys)
unfolding insert
length-insert x [] = refl
length-insert x (y ∷ ys) = elim (Bool-cases (ltb x y)) [
  | inl below ↦ rw below refl
  | inr above ↦ rw above (ap suc (length-insert x ys))
]

pub sort : List ℕ → List ℕ
unfolding insert
sort [] = []
sort (x ∷ xs) = insert x (sort xs)

pub length-sort : (xs : List ℕ) → length (sort xs) ≡ length xs
unfolding sort
length-sort [] = refl
length-sort (x ∷ xs) = length-insert x (sort xs) ∙ ap suc (length-sort xs)

-- A path is a size, of a file that begins like the small one; a pass takes the nanoseconds that its
-- number says, in whole numbers.
abbrev pub env : Surroundings (Option ℕ) (List ℕ) (List ℕ) (System (ℕ × ℕ)) ℕ
env = record {
  io = streams;
  whole = record {
    open_at_end = at_path;
    is_good = λ f. true;
    tell = λ f. pos (length f);
    seek_start = λ f. f;
    fill = λ f n. (take n f, drop n f);
  };
  memory = memory;
  atoi = λ p. pos (length (at_path p));
  atoll = λ p. pos (length (at_path p));
  sort = sort;
  double = record {
    of_size = λ n. n;
    times = λ a b. a * b;
    over = λ a b. a / b;
    minus = λ a b. a - b;
    giga = 1000000000;
    mega = 1000000;
    nano = 1;
    mebi = 1024 * 1024;
  };
  stream_clock = λ p n. 100 + p;
  slice_clock = λ p n. 50 + p;
  mmap_clock = λ p n. 70 + p;
}

env-Holds : Holds env left here file
env-Holds = record {
  reads = streams-ReadsFile;
  opens = refl;
  contents = all_there;
  opens_at_end = refl;
  told = ap (λ (f : List ℕ). pos (length f)) all_there;
  stored = ap (λ (f : List ℕ). take (length file) f) all_there;
  sorts = length-sort;
}

pub always_there : (w : System (ℕ × ℕ)) → StoresPosix posix memory here w file
always_there (fs, rs) = record {
  fd = length file;
  opened = (length file ∷ fs, rs);
  sized = (length file ∷ fs, rs);
  addr = suc (length rs);
  mapped = (length file ∷ fs, (suc (length rs), length file) ∷ rs);
  opens = refl;
  has_size = refl;
  maps = λ some_bytes. refl;
  views = λ some_bytes. all_there;
  nothing = λ v a. refl;
}

-- Three passes in chunks of seven bytes.
report_example :
    Benchmarks env regions fds
      (make_posix posix)
      (release_posix posix)
      500
      here
      (some 3 ∷ some 7 ∷ [])
      file
      3
      before
unfolding bytes_of_wire
report_example =
    posix_main-Reports env left here (some 3 ∷ some 7 ∷ []) file posix fds regions posix-IsPosix 500
      2 before env-Holds always_there refl (omega arith) (omega arith) (omega arith)

empty_slices_example : bench_in_memory env.slice_clock 1000 file 0 2 ≡ out_of_fuel
unfolding bytes_of_wire
empty_slices_example =
    bench_in_memory-out_of_fuel env.slice_clock 1000 1 file
      (bytes_of_wires wires ++ (14 ∷ 160 ∷ [])) (file-Opens header metadata _ dbn) (omega arith)
