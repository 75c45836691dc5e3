-- ===== src/Tests/Memory.antt =====
-- A reader and whole runs over bytes that are all below 256.
use trading_engine_hh.Base.{
  ℕ, ◌+◌, ◌≤◌, ◌≡◌, refl, true, false, Bool, Bool-cases, inl, inr, ltb, ltb→lt, if◌then◌else◌, List,
  [], ◌∷◌, ◌++◌, length, All, Result, some, ok, done, arith,
}
use trading_engine_hh.Base.Bytes.{IsByte}
use trading_engine_hh.Frame.{frame_one}
use trading_engine_hh.Assembler
use trading_engine_hh.Dbn.{bytes_of_wire, to_event}
use trading_engine_hh.Event.{Event, bid, add, is_valid_action, is_valid_side}
use trading_engine_hh.Base.Int.{negsuc}
use trading_engine_hh.Route.{route_record, tally}
use trading_engine_hh.Prologue.{DbnError}
use trading_engine_hh.Stream.{Yield}
use trading_engine_hh.Source.{read_file}
use trading_engine_hh.DbnReader
use trading_engine_hh.DbnReader.{DbnReader}
use trading_engine_hh.DbnReader.Memory.{Serves, opened, called, open_reader-IsSmall}
use trading_engine_hh.Ingest.{ingest_stream, ingest_mmap}
use trading_engine_hh.Ingest.Bounds.{InRange, CountsExactly, ingest-InRange, ingest-CountsExactly}
use trading_engine_hh.Tests.Data.{source, left, source-IsOrderly, header, metadata, records, added}

abbrev are_bytes : List ℕ → Bool
are_bytes [] = true
are_bytes (b ∷ bs) = if ltb b 256 then are_bytes bs else false

are_bytes_lem : (bs : List ℕ) → are_bytes bs ≡ true → All IsByte bs
are_bytes_lem [] h = tt
are_bytes_lem (b ∷ bs) h = elim (Bool-cases (ltb b 256)) [
  | inl small ↦ (ltb→lt b 256 small, are_bytes_lem bs (rw small at h))
  | inr large ↦ cc (rw large at h)
]

-- A header, its metadata, a record to pass over, one that is emitted, and a byte.
abbrev whole : List ℕ
whole = header ++ (metadata ++ records)

whole-IsByte : All IsByte whole
unfolding bytes_of_wire
whole-IsByte = are_bytes_lem whole refl

-- In chunks of five bytes.
abbrev fresh : DbnReader (List ℕ)
fresh = record {
  source = records;
  assembler = record { buf = []; read_pos = 0 };
  scratch = 11 ∷ 12 ∷ 13 ∷ 14 ∷ 0 ∷ [];
  version = 1;
  failed = false;
  stats = record { records = 0; events = 0; skipped_non_mbo = 0; skipped_malformed = 0 };
}

opens : DbnReader.open_reader source 90 whole 5 ≡ done (ok fresh)
unfolding DbnReader.open_reader DbnReader.skip_metadata bytes_of_wire DbnReader.read_fully read_file
opens = refl

delivered : Event
delivered = record {
  ts_event = 1000;
  ts_recv = 1001;
  order_id = 42;
  price = negsuc 4;
  size = 10;
  sequence = 9;
  action = add;
  side = bid;
  flags = 130;
}

-- After the record that is emitted, which stays in the buffer till the next chunk comes.
abbrev fed : DbnReader (List ℕ)
unfolding bytes_of_wire
fed = record {
  source = [];
  assembler = record { buf = bytes_of_wire added ++ (14 ∷ []); read_pos = 56 };
  scratch = 9 ∷ 0 ∷ 0 ∷ 0 ∷ 14 ∷ [];
  version = 1;
  failed = false;
  stats = record { records = 2; events = 1; skipped_non_mbo = 1; skipped_malformed = 0 };
}

serves : Serves source left source-IsOrderly fresh fed
unfolding DbnReader.next bytes_of_wire route_record tally Assembler.next Assembler.append frame_one
    read_file to_event is_valid_action is_valid_side delivered
serves = called 90 (some delivered) opened refl

small_example : (length fed.assembler.buf ≤ 1019 + 5) × (length fed.scratch ≡ 5)
unfolding bytes_of_wire
small_example =
    open_reader-IsSmall source left source-IsOrderly 90 whole 5 (omega arith) (omega arith)
      whole-IsByte opens serves

-- In chunks of nine bytes.
range_example :
    (o : Result DbnError Yield) × (ingest_stream source 200 whole 9 ≡ done o)
    × (ingest_mmap 200 (left whole) ≡ done o)
    × InRange o
unfolding bytes_of_wire
range_example =
    ingest-InRange source left source-IsOrderly 200 whole 9 (omega arith) (omega arith) whole-IsByte

exact_example :
    (o : Result DbnError Yield) × (ingest_stream source 200 whole 9 ≡ done o)
    × (ingest_mmap 200 (left whole) ≡ done o)
    × CountsExactly o
unfolding bytes_of_wire
exact_example =
    ingest-CountsExactly source left source-IsOrderly 200 whole 9 (omega arith) (omega arith)
      (omega arith)
