-- ===== src/Tests/Spans.antt =====
-- Spans into the buffer of an assembler, and a reader that reads through them.
use trading_engine_hh.Base.{
  ℕ, ◌+◌, ◌<◌, ◌≡◌, refl, false, List, ◌++◌, replicate, Option, none, some, done, arith,
}
use trading_engine_hh.Event.{Event}
use trading_engine_hh.Dbn.{bytes_of_wire}
use trading_engine_hh.Frame.{frame_one}
use trading_engine_hh.Assembler
use trading_engine_hh.Assembler.{empty_assembler, record_pulled}
use trading_engine_hh.Assembler.Span.{Span, Held, append_held, deref, next_span}
use trading_engine_hh.Assembler.Span.Lifetime.{unused, pulled, appended, next_span-Uses}
use trading_engine_hh.Route.{zero_stats}
use trading_engine_hh.DbnReader
use trading_engine_hh.DbnReader.Contract
use trading_engine_hh.DbnReader.Spans.{SpanReader, forget, next_reading, next_reading-next}
use trading_engine_hh.Tests.Data.{source, left, source-IsOrderly, other, records}

-- A library that takes twice what is needed.
abbrev doubled : ℕ → ℕ → ℕ
doubled capacity size = size + size

-- Two records of 8 bytes.
abbrev held : Held
held = record {
  assembler = record { buf = other ++ other; read_pos = 0 };
  capacity = 16;
  epoch = 1;
}

abbrev first_span : Span
first_span = record { epoch = 1; start = 0; size = 8 }

-- After the second record is pulled, a chunk comes.
span_example :
    ((next_span held).0.status ≡ record_pulled)
    × (◌≡◌ {A = ℕ} 1 0
        → deref (append_held doubled (next_span (next_span held).1).1 other) first_span
          ≡ some (Assembler.next held.assembler).0.bytes)
    × (0 < 1 → deref (append_held doubled (next_span (next_span held).1).1 other) first_span ≡ none)
unfolding next_span frame_one
span_example =
    next_span-Uses doubled held (append_held doubled (next_span (next_span held).1).1 other)
      first_span (omega arith) refl (appended other (pulled unused))

-- In chunks of five bytes.
abbrev reading : SpanReader (List ℕ)
reading = record {
  source = records;
  held = record { assembler = empty_assembler; capacity = 0; epoch = 0 };
  scratch = replicate 5 0;
  version = 1;
  failed = false;
  stats = zero_stats;
}

reading-IsReady : Contract.IsReady source left source-IsOrderly (forget reading)
reading-IsReady = record { valid = omega arith; room = omega arith; truthful = λ set. cc set }

reading_example :
    (e : Option Event) × (r : SpanReader (List ℕ)) × (next_reading source doubled 200 reading
      ≡ done (some (e, r)))
    × (DbnReader.next source 200 (forget reading) ≡ done (e, forget r))
    × Contract.IsReady source left source-IsOrderly (forget r)
unfolding bytes_of_wire
reading_example =
    next_reading-next source left source-IsOrderly doubled 200 reading reading-IsReady (omega arith)
