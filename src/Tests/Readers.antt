-- ===== src/Tests/Readers.antt =====
-- Sources and the streaming reader over concrete bytes.
use trading_engine_hh.Base.{
  ℕ, ◌≤◌, ◌≡◌, refl, true, false, List, Option, none, Result, done, out_of_fuel, replicate, arith,
}
use trading_engine_hh.Event.{Event}
use trading_engine_hh.Frame.{frame_one}
use trading_engine_hh.Assembler
use trading_engine_hh.Assembler.{empty_assembler}
use trading_engine_hh.Route.{zero_stats}
use trading_engine_hh.Dbn.{bytes_of_wire}
use trading_engine_hh.Stream.{Delivers}
use trading_engine_hh.Prologue.{DbnError}
use trading_engine_hh.Source.{IsOrderly, file_source}
use trading_engine_hh.Source.File.{file_source-IsOrderly}
use trading_engine_hh.DbnReader
use trading_engine_hh.DbnReader.{DbnReader, read_fully, skip_metadata}
use trading_engine_hh.DbnReader.Opening
use trading_engine_hh.DbnReader.Opening.{stream_open-OpensReader}
use trading_engine_hh.DbnReader.EmptyScratch.{open_reader-out_of_fuel}
use trading_engine_hh.DbnReader.Contract
use trading_engine_hh.DbnReader.Contract.{stream_next-Delivers}
use trading_engine_hh.DbnReader.Sticky.{stream_next-Repeats}
use trading_engine_hh.Tests.Data.{
  file, io, io-ReadsFile, source, left, source-IsOrderly, records, corrupt_bytes,
}

source_example : IsOrderly (file_source io) left
source_example = file_source-IsOrderly io left io-ReadsFile

stream_open_example :
    (o : Result DbnError (DbnReader (List ℕ))) × (DbnReader.open_reader source 5 file 3 ≡ done o)
    × Opening.OpensReader source left source-IsOrderly 3 (left file) o
stream_open_example =
    stream_open-OpensReader source left source-IsOrderly 5 file 3 (omega arith) (omega arith)

hang_example : DbnReader.open_reader source 1000 file 0 ≡ out_of_fuel
hang_example =
    open_reader-out_of_fuel source left source-IsOrderly 1000 file (omega arith, (refl, refl, refl))
      refl (omega arith)

-- In chunks of five bytes.
abbrev streaming : DbnReader (List ℕ)
streaming = record {
  source = records;
  assembler = empty_assembler;
  scratch = replicate 5 0;
  version = 1;
  failed = false;
  stats = zero_stats;
}

streaming-IsReady : Contract.IsReady source left source-IsOrderly streaming
streaming-IsReady = record { valid = omega arith; room = omega arith; truthful = λ set. cc set }

stream_next_example :
    (e : Option Event) × (r' : DbnReader (List ℕ)) × (DbnReader.next source 200 streaming
      ≡ done (e, r'))
    × Delivers (Contract.rest source left source-IsOrderly streaming) zero_stats (record {
      event = e;
      rest = Contract.rest source left source-IsOrderly r';
      stats = r'.stats;
      failed = r'.failed;
    })
    × Contract.IsReady source left source-IsOrderly r'
    × (Contract.effort source left source-IsOrderly r'
        ≤ Contract.effort source left source-IsOrderly streaming)
unfolding bytes_of_wire
stream_next_example =
    stream_next-Delivers source left source-IsOrderly 200 streaming streaming-IsReady (omega arith)

-- Before a record of no words.
abbrev stopped : DbnReader (List ℕ)
stopped = record streaming {
  assembler = record { buf = corrupt_bytes; read_pos = 0 };
  failed = true;
}

stopped-IsReady : Contract.IsReady source left source-IsOrderly stopped
stopped-IsReady = record { valid = omega arith; room = omega arith; truthful = λ set. refl }

stops : DbnReader.next source 900 stopped ≡ done (none, stopped)
unfolding DbnReader.next Assembler.next frame_one
stops = refl

stream_repeat_example :
    (r : DbnReader (List ℕ)) × (DbnReader.next source 800 stopped ≡ done (none, r))
    × (r.stats ≡ zero_stats)
    × (r.failed ≡ true)
unfolding bytes_of_wire
stream_repeat_example =
    stream_next-Repeats source left source-IsOrderly stopped stopped 900 800 stopped-IsReady
      (omega arith) (omega arith) stops
