-- ===== src/Tests/Faults.antt =====
-- A stream whose medium fails part of the way, and runs over files with fewer bytes.
use trading_engine_hh.Base.{
  ℕ, ◌-◌, ◌≡◌, refl, true, false, ◌⊎◌, List, ◌++◌, take, drop, min, done, ok, arith,
}
use trading_engine_hh.Event.{Event}
use trading_engine_hh.Dbn.{bytes_of_wire}
use trading_engine_hh.Stream.{Yield}
use trading_engine_hh.Source.{IStream, file_source}
use trading_engine_hh.Source.Faults.{ReadsUntilFault}
use trading_engine_hh.Ingest.{ingest_stream, ingest_mmap}
use trading_engine_hh.Ingest.Whole.{file-Opens}
use trading_engine_hh.Ingest.Delivery.{ingest_mmap-append}
use trading_engine_hh.Ingest.Faults.{ingest-ReadsUntilFault}
use trading_engine_hh.Tests.Data.{header, metadata, dbn, added, records}

-- A file that ends within a record, of which the rest is appended.
longer_example :
    (y z : Yield) × (es : List Event) × (ingest_mmap 500 (header ++ (metadata ++ records))
      ≡ done (ok y))
    × (ingest_mmap 500 ((header ++ (metadata ++ records)) ++ drop 1 (bytes_of_wire added))
        ≡ done (ok z))
    × (z.events ≡ y.events ++ es)
    × ((y ≡ z) ⊎ (y.failed ≡ false))
unfolding bytes_of_wire
longer_example =
    ingest_mmap-append 500 (header ++ (metadata ++ records)) (drop 1 (bytes_of_wire added)) records
      (file-Opens header metadata records dbn) (omega arith)

-- The rest of a file, and how many bytes of it can be read.
abbrev failing : IStream (List ℕ) (List ℕ × ℕ)
failing = record {
  open_binary = λ f. (f, 25);
  is_good = λ s. true;
  fill = λ s n. (take (min n s.1) s.0, (drop n s.0, s.1 - n));
}

failing-ReadsUntilFault : ReadsUntilFault failing (λ s. s.0) (λ s. s.1)
failing-ReadsUntilFault = record {
  stores = λ s n. refl;
  advances = λ s n. refl;
  comes_closer = λ s n. refl;
}

-- The fault is in the middle of the second record, which is the first that is emitted.
fault_example :
    (y z : Yield) × (es : List Event) × (ingest_stream
        (file_source failing)
        500
        (header ++ (metadata ++ records), 25)
        7
      ≡ done (ok y))
    × (ingest_mmap 500 (header ++ (metadata ++ records)) ≡ done (ok z))
    × (z.events ≡ y.events ++ es)
    × ((y ≡ z) ⊎ (y.failed ≡ false))
unfolding bytes_of_wire
fault_example =
    ingest-ReadsUntilFault failing (λ s. s.0) (λ s. s.1) failing-ReadsUntilFault 500
      (header ++ (metadata ++ records), 25) 7 (omega arith) records
      (file-Opens header metadata records dbn) (omega arith) (omega arith)
