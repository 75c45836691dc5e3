-- ===== src/Tests/Frames.antt =====
-- Records, framing, assembling and routing on concrete bytes.
use trading_engine_hh.Base.{
  suc, length, ℕ, ◌≡◌, refl, Bool, List, [], ◌∷◌, ◌++◌, if◌then◌else◌, done, arith,
}
use trading_engine_hh.Dbn.{wire_of_bytes, bytes_of_wire, to_event}
use trading_engine_hh.Dbn.Wire.{wire_of_bytes-bytes_of_wire, bytes_of_wire-wire_of_bytes}
use trading_engine_hh.Dbn.Convert.{Converts, to_event-Converts}
use trading_engine_hh.Frame.{frame_one}
use trading_engine_hh.Frame.Contract.{FramedAs, frame_one_lem}
use trading_engine_hh.Frame.Split.{Parts, Splits}
use trading_engine_hh.Fuzz.{routed_records, test_one_input, test_one_input-Splits}
use trading_engine_hh.Assembler.{PullStatus, RecordAssembler, Drained, append, view, drain}
use trading_engine_hh.Assembler.Buffer.{IsValid, Appended, append-Appended}
use trading_engine_hh.Assembler.Queue.{
  Call, appending, pulling, asking_size, answers, assembler_queue, byte_queue, answers-byte_queue,
}
use trading_engine_hh.Assembler.Drain.{parts_of, drain-Splits}
use trading_engine_hh.Route.{route_record}
use trading_engine_hh.Route.Outcomes.{RoutedAs, route_record-RoutedAs}
use trading_engine_hh.Tests.Data.{added, added-IsWire, unknown, other}

wire_example : wire_of_bytes (bytes_of_wire added) ≡ added
wire_example = wire_of_bytes-bytes_of_wire added added-IsWire

-- 56 bytes that count up.
abbrev counting : List ℕ
counting =
    1 ∷ 2 ∷ 3 ∷ 4 ∷ 5 ∷ 6 ∷ 7 ∷ 8 ∷ 9 ∷ 10 ∷ 11 ∷ 12 ∷ 13 ∷ 14 ∷ 15 ∷ 16 ∷ 17 ∷ 18 ∷ 19 ∷ 20 ∷ 21
    ∷ 22 ∷ 23 ∷ 24 ∷ 25 ∷ 26 ∷ 27 ∷ 28 ∷ 29 ∷ 30 ∷ 31 ∷ 32 ∷ 33 ∷ 34 ∷ 35 ∷ 36 ∷ 37 ∷ 38 ∷ 39 ∷ 40
    ∷ 41 ∷ 42 ∷ 43 ∷ 44 ∷ 45 ∷ 46 ∷ 47 ∷ 48 ∷ 49 ∷ 50 ∷ 51 ∷ 52 ∷ 53 ∷ 54 ∷ 55 ∷ 56 ∷ []

bytes_example : bytes_of_wire (wire_of_bytes counting) ≡ counting
bytes_example = bytes_of_wire-wire_of_bytes counting refl (omega arith)

convert_example : Converts unknown (to_event unknown)
convert_example = to_event-Converts unknown

frame_example : FramedAs (frame_one other).status other (frame_one other)
frame_example = frame_one_lem other

-- Two bytes are consumed, a record and a part of one are left.
abbrev used : RecordAssembler
used = record { buf = 1 ∷ 1 ∷ (other ++ (2 ∷ 23 ∷ 0 ∷ [])); read_pos = 2 }

used-IsValid : IsValid used
used-IsValid = omega arith

append_example : Appended used (7 ∷ 8 ∷ []) (append used (7 ∷ 8 ∷ []))
append_example = append-Appended used (7 ∷ 8 ∷ []) used-IsValid

abbrev calls : List Call
calls = pulling ∷ asking_size ∷ appending (0 ∷ 5 ∷ 0 ∷ 0 ∷ 0 ∷ 0 ∷ []) ∷ pulling ∷ pulling ∷ []

queue_example : answers assembler_queue used calls ≡ answers byte_queue (view used) calls
queue_example = answers-byte_queue used calls used-IsValid

drain_example :
    (d : Drained) × (b : Bool) × (drain 4 used ≡ done d)
    × Splits (view used) (parts_of d b)
    × (d.status ≡ (if b then PullStatus.corrupt else PullStatus.need_more))
    × IsValid d.assembler
drain_example = drain-Splits 4 used used-IsValid (omega arith)

route_example :
    RoutedAs
      (route_record (bytes_of_wire unknown)).outcome
      (bytes_of_wire unknown)
      (route_record (bytes_of_wire unknown)).event
route_example = route_record-RoutedAs (bytes_of_wire unknown)

fuzz_example :
    (p : Parts) × (test_one_input (suc (length other)) other ≡ done (routed_records p.records))
    × Splits other p
fuzz_example = test_one_input-Splits other
