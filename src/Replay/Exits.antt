-- ===== src/Replay/Exits.antt =====
-- examples/replay_dbn.cpp: what `main` prints, and the code it exits with.
use trading_engine_hh.Base.{
  ℕ, ◌+◌, ◌*◌, ◌≤◌, ◌<◌, ◌≡◌, ◌^◌, refl, ap, true, List, [], ◌∷◌, take, length, length-append,
  length-drop, ◌++◌, Result, ok, err, done, arith, if◌then◌else◌,
}
use mathlib.Core.Path.{subst}
use trading_engine_hh.Route.{k_supported_dbn_version}
use trading_engine_hh.Stream.{Yield, Yields}
use trading_engine_hh.Prologue.{DbnError, metadata_len, header_size}
use trading_engine_hh.Reader.Client.{collect-Yields, length-Yields}
use trading_engine_hh.Assembler.{view}
use trading_engine_hh.Source.{IStream, file_source, open_file}
use trading_engine_hh.Source.File.{ReadsFile, file_source-IsOrderly}
use trading_engine_hh.DbnReader.{DbnReader, default_chunk_size}
use trading_engine_hh.DbnReader.Contract.{stream_reader, stream_contract}
use trading_engine_hh.DbnReader.Opening
use trading_engine_hh.Ingest.Parity.{Ingests}
use trading_engine_hh.Replay.{Exit, complaint, report, replay_from, replay_opened, main}
use trading_engine_hh.Replay.Loop.{Replayed, replay_from-collect}

-- What the outcome of a run over the file prints and exits with: 1 for an error or a corrupt frame
-- and 0 for a clean end, with the first event, the number of events and the counters.
abbrev pub exit_for : Result DbnError Yield → Exit
exit_for (err x) = record { code = 1; printed = complaint x }
exit_for (ok y) = record {
  code = if y.failed then 1 else 0;
  printed = report (record {
    version = k_supported_dbn_version;
    first_lines = take 1 y.events;
    count = length y.events;
    stats = y.stats;
    failed = y.failed;
  });
}

module _ {P F : Type 0} (io : IStream P F) (content : F → List ℕ) (law : ReadsFile io content) where
  finished :
      (fuel : ℕ) (r : DbnReader F) (y : Yield)
      → r.version ≡ k_supported_dbn_version
      → Replayed (file_source io) fuel 0 [] y (replay_from (file_source io) fuel fuel 0 [] r)
      → replay_opened (file_source io) fuel (ok r) ≡ done (exit_for (ok y))
  finished fuel r y version looped = rw looped.runs λ i. done (record {
    code = if looped.failed i then 1 else 0;
    printed = report (record {
      version = version i;
      first_lines = take 1 y.events;
      count = counted i;
      stats = looped.stats i;
      failed = looped.failed i;
    });
  })
    where
      counted : 0 + length y.events ≡ length y.events
      counted = omega arith

  replay_opened-Ingests :
      (fuel : ℕ) (f : List ℕ) (x : Result DbnError (DbnReader F))
      → Opening.OpensReader
          (file_source io)
          content
          (file_source-IsOrderly io content law)
          default_chunk_size
          f
          x
      → 2 * length f < fuel
      → length f < 2 ^ 64
      → (o : Result DbnError Yield) × (replay_opened (file_source io) fuel x ≡ done (exit_for o))
        × Ingests f o
  replay_opened-Ingests fuel f (err x) opens h bound = (err x, refl, opens)
  replay_opened-Ingests fuel f (ok r) fresh h bound =
      let (y, collected, yields) =
        collect-Yields (stream_reader (file_source io))
          (stream_contract (file_source io) content (file_source-IsOrderly io content law)) fuel
          fuel r fresh.ready
          (omega (arith, fits, length-append (view r.assembler) (content r.source)))
          (omega (arith, fits)) in
      let looped =
        replay_from-collect (file_source io) fuel fuel 0 [] r y collected
          (omega (arith, fits, length-Yields yields)) in
      (
        ok y,
        finished fuel r y fresh.version looped,
        (
          _,
          fresh.records,
          subst (λ c. Yields (view r.assembler ++ content r.source) c y) fresh.stats yields,
        ),
      )
    where
      fits : length (view r.assembler ++ content r.source) ≤ length f
      fits = omega (arith, ap length fresh.records.3, length-drop (header_size + metadata_len f) f)

  -- Over a stream that reads its contents, for a path that opens and whose contents are shorter
  -- than 2 ^ 64 bytes, with more rounds than the metadata length and twice the bytes together,
  -- `main` ends: with code 1 and the complaint if opening owes an error, and otherwise with the
  -- first event, the number of events, the counters and `failed()` that the records of the file
  -- owe, and code 1 exactly if it failed.
  pub main-Ingests :
      (path : P) (others : List P) (fuel : ℕ)
      → io.is_good (io.open_binary path) ≡ true
      → length (content (io.open_binary path)) < 2 ^ 64
      → metadata_len (content (io.open_binary path)) + 2 * length (content (io.open_binary path))
        < fuel
      → (o : Result DbnError Yield) × (main io fuel (path ∷ others) ≡ done (exit_for o))
        × Ingests (content (io.open_binary path)) o
  unfolding main open_file
  main-Ingests path others fuel good bound h =
      let (x, opened, opens) =
        Opening.stream_open-OpensReader (file_source io) content
          (file_source-IsOrderly io content law) fuel (io.open_binary path) default_chunk_size
          (omega arith) (omega arith) in
      let (o, runs, owed) =
        replay_opened-Ingests fuel (content (io.open_binary path)) x opens (omega arith) bound in
      (o, rw (good, opened) runs, owed)
