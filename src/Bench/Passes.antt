-- ===== src/Bench/Passes.antt =====
-- bench/bench_dbn.cpp: the passes of the three modes. The clock is a parameter, which gives the
-- nanoseconds per event of a pass by its number and its events, in a type `D` for `double`.
use trading_engine_hh.Base.{
  ℕ, zero, suc, List, [], ◌∷◌, ◌++◌, drop, Option, none, some, Result, ok, err, Run, done,
  out_of_fuel, and_then,
}
use trading_engine_hh.Event.{Event}
use trading_engine_hh.Route.{increment}
use trading_engine_hh.Assembler.{empty_assembler}
use trading_engine_hh.Prologue.{DbnError}
use trading_engine_hh.Source.{IStream, open_file, file_source}
use trading_engine_hh.Reader.{EventReader}
use trading_engine_hh.DbnReader
use trading_engine_hh.DbnReader.Contract.{stream_reader}
use trading_engine_hh.MmapDbnReader.{MmapDbnReader}
use trading_engine_hh.MmapDbnReader.Contract.{mmap_reader}
use trading_engine_hh.MmapDbnReader.Owned.{OpenError, open_path}
use trading_engine_hh.MemoryMappedFile.{MemoryMappedFile, MapError, Memory}
use trading_engine_hh.Bench.Actions.{Action, pure, call, ◌>>=◌}
use trading_engine_hh.Bench.{record_start, pass_from}

pub record Stats (D : Type 0) : Type 0 where
  pub events : ℕ
  pub record_bytes : ℕ
  pub pass_ns_per_event : List D

abbrev pub no_stats : {D : Type 0} → Stats D
no_stats = record { events = 0; record_bytes = 0; pass_ns_per_event = [] }

-- Nanoseconds per event, by the number of the pass and its events.
abbrev pub Clock : Type 0 → Type 0
Clock D = ℕ → ℕ → D

-- The loop that is timed in modes A and C; `again` is the rest of it.
abbrev pub count_one : {R : Type 0} → ℕ → Option Event × R → (ℕ → R → Run ℕ) → Run ℕ
count_one events (none, r) again = done events
count_one events (some e, r) again = again (increment events) r

module _ {R : Type 0} (reader : EventReader R) where
  unfoldable pub count_events : ℕ → ℕ → ℕ → R → Run ℕ
  count_events zero fuel events r = out_of_fuel
  count_events (suc calls) fuel events r =
      and_then (reader.next fuel r) (λ t. count_one events t (λ n s. count_events calls fuel n s))

  -- A pass over a reader that is constructed.
  abbrev pub count_opened : ℕ → Result DbnError R → Run (Result DbnError ℕ)
  count_opened fuel (err x) = done (err x)
  count_opened fuel (ok r) = and_then (count_events fuel fuel 0 r) (λ n. done (ok n))

module _ {P F : Type 0} (io : IStream P F) where
  abbrev pub stream_pass : ℕ → ℕ → Result DbnError F → Run (Result DbnError ℕ)
  stream_pass fuel chunk (err x) = done (err x)
  stream_pass fuel chunk (ok f) =
      and_then (DbnReader.open_reader (file_source io) fuel f chunk)
        (λ opened. count_opened (stream_reader (file_source io)) fuel opened)

-- Mode C has the constructor and `release_` of `MemoryMappedFile` on a platform, and the memory.
module _ {P W : Type 0} (make : P → W → Result MapError MemoryMappedFile × W)
    (release : MemoryMappedFile → W → MemoryMappedFile × W) (memory : Memory W) where
  -- A pass over a reader that is constructed, which is destroyed at its end.
  abbrev pub count_owned :
      ℕ → Result OpenError (MemoryMappedFile × MmapDbnReader) × W → Run (Result OpenError ℕ × W)
  count_owned fuel (err x, w) = done (err x, w)
  count_owned fuel (ok (m, r), w) =
      and_then (count_events mmap_reader fuel fuel 0 r) (λ n. done (ok n, (release m w).1))

  unfoldable pub mmap_pass : ℕ → P → Action W ℕ
  unfolding open_path
  mmap_pass fuel path w = count_owned fuel (open_path make release memory path w)

module _ {D : Type 0} (clock : Clock D) where
  -- The loop over the passes of modes A and C, `p` being the next.
  unfoldable pub passes_from : {W : Type 0} → Action W ℕ → ℕ → ℕ → Stats D → Action W (Stats D)
  passes_from one zero p s = pure s
  passes_from one (suc n) p s = one >>= λ events. passes_from one n (suc p) (record s {
    events = events;
    pass_ns_per_event = s.pass_ns_per_event ++ (clock p events ∷ []);
  })

  -- The loop over the passes of mode B.
  unfoldable pub slices_from : ℕ → ℕ → List ℕ → ℕ → ℕ → Stats D → Run (Result DbnError (Stats D))
  slices_from fuel chunk records zero p s = done (ok s)
  slices_from fuel chunk records (suc n) p s =
      and_then
        (pass_from fuel chunk records empty_assembler
          (record { events = 0; record_bytes = 0; offset = 0 }))
        (λ q. slices_from fuel chunk records n (suc p) (record {
          events = q.events;
          record_bytes = q.record_bytes;
          pass_ns_per_event = s.pass_ns_per_event ++ (clock p q.events ∷ []);
        }))

  -- The in-memory mode past `record_start`.
  abbrev pub slices_after : ℕ → List ℕ → ℕ → ℕ → Result DbnError ℕ → Run (Result DbnError (Stats D))
  slices_after fuel file chunk passes (err x) = done (err x)
  slices_after fuel file chunk passes (ok start) =
      slices_from fuel chunk (drop start file) passes 0 no_stats

  unfoldable pub bench_in_memory : ℕ → List ℕ → ℕ → ℕ → Run (Result DbnError (Stats D))
  unfolding record_start slices_from
  bench_in_memory fuel file chunk passes = slices_after fuel file chunk passes (record_start file)

  unfoldable pub bench_end_to_end :
      {P F W : Type 0} → IStream P F → ℕ → P → ℕ → ℕ → Action W (Stats D)
  unfolding open_file passes_from
  bench_end_to_end io fuel path chunk passes =
      passes_from (call (stream_pass io fuel chunk (open_file io path))) passes 0 no_stats

  unfoldable pub bench_mmap :
      {P W : Type 0}
      → (P → W → Result MapError MemoryMappedFile × W)
      → (MemoryMappedFile → W → MemoryMappedFile × W)
      → Memory W
      → ℕ
      → P
      → ℕ
      → Action W (Stats D)
  unfolding mmap_pass passes_from
  bench_mmap make release memory fuel path passes =
      passes_from (mmap_pass make release memory fuel path) passes 0 no_stats
