-- ===== src/Bench/Modes.antt =====
-- bench/bench_dbn.cpp: its modes over a file on disk.
use trading_engine_hh.Base.{
  ℕ, suc, ◌+◌, ◌*◌, ◌^◌, ◌≤◌, ◌<◌, ◌≡◌, refl, ap, ◌∙◌, true, List, append-nil, length, take,
  take_all, drop_all, replicate, length-replicate, length-drop, Result, ok, err, Run, done,
  out_of_fuel, and_then, arith,
}
use trading_engine_hh.Base.Int.{pos}
use trading_engine_hh.Frame.Split.{split_up}
use trading_engine_hh.Route.{zero_stats}
use trading_engine_hh.Assembler.{empty_assembler}
use trading_engine_hh.Prologue.{DbnError, Opens, header_size, metadata_len}
use trading_engine_hh.Stream.{Yield}
use trading_engine_hh.Stream.Records.{Yields-eq}
use trading_engine_hh.Reader.Client.{length-Yields}
use trading_engine_hh.Source.{IStream, open_file, file_source}
use trading_engine_hh.Reader.{EventReader}
use trading_engine_hh.Source.File.{ReadsFile}
use trading_engine_hh.DbnReader
use trading_engine_hh.DbnReader.{DbnReader}
use trading_engine_hh.DbnReader.Contract.{stream_reader}
use trading_engine_hh.Ingest.{ingest_stream, drain_opened}
use trading_engine_hh.Ingest.Parity.{Ingests}
use trading_engine_hh.Bench.{Pass, pass_from}
use trading_engine_hh.Bench.InMemory.{pass_from-Counted}
use trading_engine_hh.Bench.Parity.{length-events_of, record_start-Opens}
use trading_engine_hh.Bench.Counting.{tally_of, Fits, count_opened-drain}
use trading_engine_hh.Bench.Actions.{call}
use trading_engine_hh.Bench.Passes.{
  Stats, count_opened, passes_from, slices_from, stream_pass, bench_end_to_end, bench_in_memory,
  no_stats,
}
use trading_engine_hh.Bench.Main.{slurp, Surroundings}
use trading_engine_hh.Bench.Rounds.{Measured, slices_from-Measured}

-- A pass over an opened reader counts the events that the run has.
count_opening-drain :
    {R : Type 0} (reader : EventReader R) (fuel : ℕ) (u : Run (Result DbnError R))
    (o : Result DbnError Yield)
    → and_then u (λ x. drain_opened reader fuel x) ≡ done o
    → Fits o
    → and_then u (λ x. count_opened reader fuel x) ≡ done (tally_of o)
count_opening-drain reader fuel out_of_fuel o e h = cc
count_opening-drain reader fuel (done x) o e h = count_opened-drain reader fuel x o e h

pub stream_pass-ingest :
    {P F : Type 0} (io : IStream P F) (fuel chunk : ℕ) (s : F) (o : Result DbnError Yield)
    → ingest_stream (file_source io) fuel s chunk ≡ done o
    → Fits o
    → stream_pass io fuel chunk (ok s) ≡ done (tally_of o)
unfolding ingest_stream
stream_pass-ingest io fuel chunk s o e h =
    count_opening-drain (stream_reader (file_source io)) fuel
      (DbnReader.open_reader (file_source io) fuel s chunk) o e h

records_length-Opens : (f u : List ℕ) → Opens f (ok u) → length u ≤ length f
records_length-Opens f u opens =
    omega (arith, ap length opens.3, length-drop (header_size + metadata_len f) f)

pub Ingests-Fits :
    (f : List ℕ) (o : Result DbnError Yield) → length f < 2 ^ 64 → Ingests f o → Fits o
Ingests-Fits f (err x) h owed = tt
Ingests-Fits f (ok y) h (u, opens, yields) =
    omega (arith, length-Yields yields, records_length-Opens f u opens)

-- What the documentation of the standard library says of a file `f` at `path`.
pub record Holds {P F G W D : Type 0} (env : Surroundings P F G W D) (content : F → List ℕ)
    (path : P) (f : List ℕ) : Type 0 where
  pub reads : ReadsFile env.io content
  pub opens : env.io.is_good (env.io.open_binary path) ≡ true
  pub contents : content (env.io.open_binary path) ≡ f
  pub opens_at_end : env.whole.is_good (env.whole.open_at_end path) ≡ true
  pub told : env.whole.tell (env.whole.open_at_end path) ≡ pos (length f)
  pub stored :
      (env.whole.fill (env.whole.seek_start (env.whole.open_at_end path)) (length f)).0
      ≡ take (length f) f
  pub sorts : (xs : List D) → length (env.sort xs) ≡ length xs

-- What the modes work on: the stream has `f`, and `slurp` has returned `g`.
pub record Sees {P F G W D : Type 0} (env : Surroundings P F G W D) (content : F → List ℕ)
    (path : P) (f g : List ℕ) : Type 0 where
  pub reads : ReadsFile env.io content
  pub opens : env.io.is_good (env.io.open_binary path) ≡ true
  pub contents : content (env.io.open_binary path) ≡ f
  pub slurped : slurp env.whole path ≡ ok g
  pub sorts : (xs : List D) → length (env.sort xs) ≡ length xs

module _ {P F G W D : Type 0} (env : Surroundings P F G W D) (content : F → List ℕ) (path : P)
    (f : List ℕ) (holds : Holds env content path f) where
  slurp-file : slurp env.whole path ≡ ok f
  unfolding slurp
  slurp-file =
      rw
        (
          holds.told,
          holds.opens_at_end,
          holds.stored,
          take_all (length f) f (omega arith),
          drop_all {A = ℕ} (length f) (replicate (length f) 0)
              (omega (arith, length-replicate {A = ℕ} (length f) 0)),
        )
        (ap ok (append-nil f))

  pub Holds-Sees : Sees env content path f f
  Holds-Sees = record {
    reads = holds.reads;
    opens = holds.opens;
    contents = holds.contents;
    slurped = slurp-file;
    sorts = holds.sorts;
  }

module _ {P F G W D : Type 0} (env : Surroundings P F G W D) (content : F → List ℕ) (path : P)
    (f g : List ℕ) (sees : Sees env content path f g) where
  module _ (fuel chunk k : ℕ) (y : Yield) (owed : Ingests g (ok y)) (room : 0 < chunk)
      (small : length g < 2 ^ 64) (enough : metadata_len g + 2 * length g < fuel) where
    one_slice :
        (q : Pass) × (pass_from fuel chunk owed.0 empty_assembler
            (record { events = 0; record_bytes = 0; offset = 0 })
          ≡ done q)
        × (q.events ≡ length y.events)
    one_slice =
        let (u, opens, yields) = owed in
        let (p, d) = split_up (suc (length u)) u (omega arith) in
        let counted =
          pass_from-Counted chunk u room fuel empty_assembler
            (record { events = 0; record_bytes = 0; offset = 0 }) (omega arith) (omega arith)
            (omega arith) (omega (arith, records_length-Opens g u opens)) d in
        (
          counted.left,
          counted.runs,
          omega (
            arith,
            counted.events,
            length-events_of zero_stats p.records,
            ap (λ (z : Yield). length z.events) (Yields-eq d yields),
            length-Yields yields,
            records_length-Opens g u opens,
          ),
        )

    slices_start :
        (n : ℕ)
        → bench_in_memory env.slice_clock fuel g chunk n
          ≡ slices_from env.slice_clock fuel chunk owed.0 n 0 no_stats
    unfolding bench_in_memory
    slices_start n = rw (record_start-Opens g owed.0 owed.1, ← owed.1.3) refl

    pub slices-Measured :
        (s : Stats D) × (bench_in_memory env.slice_clock fuel g chunk (suc k) ≡ done (ok s))
        × Measured (length y.events) (suc k) s
    slices-Measured =
        let (q, once, counted) = one_slice in
        let (s, runs, m) =
          slices_from-Measured env.slice_clock fuel chunk owed.0 q k 0 0 no_stats once refl in
        (
          s,
          slices_start (suc k) ∙ runs,
          record { events = m.events ∙ counted; passes = omega (arith, m.passes) },
        )

  pub stream_start :
      (fuel chunk n : ℕ)
      → bench_end_to_end env.stream_clock {W = W} env.io fuel path chunk n
        ≡ passes_from env.stream_clock
            (call (stream_pass env.io fuel chunk (ok (env.io.open_binary path))))
            n
            0
            no_stats
  unfolding bench_end_to_end open_file
  stream_start fuel chunk n = rw sees.opens refl
