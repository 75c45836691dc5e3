-- ===== src/Tests/Runs.antt =====
-- Whole runs over a small DBN file.
use trading_engine_hh.Base.{
  ℕ, length, ◌≡◌, refl, false, List, [], ◌∷◌, ◌++◌, Result, ok, done, arith,
}
use trading_engine_hh.Frame.Split.{Parts, Splits}
use trading_engine_hh.Dbn.{bytes_of_wire}
use trading_engine_hh.Route.{zero_stats}
use trading_engine_hh.Prologue.{DbnError}
use trading_engine_hh.Stream.{Yield}
use trading_engine_hh.Stream.Accounts.{Accounts, Counts}
use trading_engine_hh.Stream.RoundTrip.{
  records_of, bytes_of_wires, converted, stats_after, bytes_of_wires-Splits,
}
use trading_engine_hh.Ingest.{ingest_stream, ingest_mmap}
use trading_engine_hh.Ingest.Parity.{ingest_parity}
use trading_engine_hh.Ingest.Whole.{file-Opens, ingest-records, ingest-bytes_of_wires}
use trading_engine_hh.Ingest.EmptyChunks.{nothing, ingest-empty_chunks}
use trading_engine_hh.Ingest.Parity.{Ingests}
use trading_engine_hh.Replay.{main}
use trading_engine_hh.Replay.Exits.{exit_for, main-Ingests}
use trading_engine_hh.Tests.Data.{
  io, io-ReadsFile, wires, wires-IsMboWire, header, metadata, file, dbn, source, left,
  source-IsOrderly,
}

-- In chunks of 100 bytes.
parity_example :
    (o : Result DbnError Yield) × (ingest_stream source 500 file 100 ≡ done o)
    × (ingest_mmap 500 (left file) ≡ done o)
unfolding bytes_of_wire
parity_example = ingest_parity source left source-IsOrderly 500 file 100 (omega arith) (omega arith)

abbrev pub parts : Parts
parts = record { records = records_of wires; broken = false; rest = 14 ∷ 160 ∷ [] }

pub parts-Splits : Splits (bytes_of_wires wires ++ (14 ∷ 160 ∷ [])) parts
parts-Splits = bytes_of_wires-Splits wires (14 ∷ 160 ∷ []) wires-IsMboWire (omega arith)

records_example :
    (y : Yield) × (others : ℕ) × (bad : ℕ) × (ingest_stream source 500 file 100 ≡ done (ok y))
    × (ingest_mmap 500 (left file) ≡ done (ok y))
    × Accounts parts.records y.events others bad
    × Counts (length parts.records) (length y.events) others bad y.stats
    × (y.failed ≡ parts.broken)
unfolding bytes_of_wire
records_example =
    ingest-records source left source-IsOrderly header metadata
      (bytes_of_wires wires ++ (14 ∷ 160 ∷ [])) dbn parts-Splits 500 file 100 refl (omega arith)
      (omega arith)

abbrev read_back : Yield
read_back = record {
  events = converted wires;
  stats = stats_after zero_stats wires;
  failed = false;
}

wires_example :
    (ingest_stream source 500 file 100 ≡ done (ok read_back))
    × (ingest_mmap 500 (left file) ≡ done (ok read_back))
unfolding bytes_of_wire
wires_example =
    ingest-bytes_of_wires source left source-IsOrderly header metadata wires (14 ∷ 160 ∷ []) dbn
      wires-IsMboWire (omega arith) 500 file 100 refl (omega arith) (omega arith)

replay_example :
    (o : Result DbnError Yield) × (main io 500 (file ∷ []) ≡ done (exit_for o)) × Ingests file o
unfolding bytes_of_wire
replay_example = main-Ingests io left io-ReadsFile file [] 500 refl (omega arith) (omega arith)

-- A header that announces no metadata.
abbrev bare : List ℕ
bare = b'D' ∷ b'B' ∷ b'N' ∷ 1 ∷ 0 ∷ 0 ∷ 0 ∷ 0 ∷ []

abbrev bare_file : List ℕ
bare_file = bare ++ ([] ++ (bytes_of_wires wires ++ (14 ∷ 160 ∷ [])))

empty_chunks_example :
    (y : Yield) × (others : ℕ) × (bad : ℕ) × (ingest_stream source 500 bare_file 0
      ≡ done (ok nothing))
    × (ingest_mmap 500 (left bare_file) ≡ done (ok y))
    × Accounts parts.records y.events others bad
unfolding bytes_of_wire
empty_chunks_example =
    ingest-empty_chunks source left source-IsOrderly 500 bare_file
      (bytes_of_wires wires ++ (14 ∷ 160 ∷ []))
      (file-Opens bare [] (bytes_of_wires wires ++ (14 ∷ 160 ∷ []))
        (record { size = refl; magic = (refl, refl, refl); version = refl; metadata_size = refl }))
      parts-Splits refl (omega arith)
