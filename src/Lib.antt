-- ===== src/Lib.antt =====
-- The ingest of the trading engine: from the bytes of a DBN market-by-order file to validated
-- events.
--
-- The program is a C++ library of headers and two source files. Bytes come from a file, through
-- `FileByteSource` in chunks or through `MemoryMappedFile` at once. `frame_one` cuts one record
-- from the front of a buffer; `RecordAssembler` keeps what a chunk cuts in two; `route_record`
-- decides by type tag and size which records are market-by-order records and converts them with
-- `to_event`; `tally` counts. `DbnReader` and `MmapDbnReader` drive these parts until they have
-- an event to return.
--
-- Files, by the code they are about (paths from the root of the repository):
-- - Event, Event/Validate: core/include/trading_sim/event.hpp, `Action`, `Side`, `Event`,
--   `is_valid_action`, `is_valid_side`. An enumeration has a constructor for the values that no
--   enumerator names, since a `static_cast` gives them too.
-- - Dbn, Dbn/Wire, Dbn/Convert, Dbn/Ranges: core/include/trading_sim/dbn.hpp, `WireMbo` and its
--   56 bytes, `to_event`.
-- - Frame, Frame/Contract, Frame/Split: `frame_one` of core/include/trading_sim/dbn_reader.hpp,
--   and the split of a byte sequence into records, which is the reference that the readers are
--   compared with.
-- - Assembler, Assembler/Buffer, Assembler/Drain: `RecordAssembler`, and its drain, the loop
--   that pulls until no record comes. Assembler/Queue: the queue of bytes that it is to its
--   clients; Assembler/Abstract: the quotient that forgets the cursor. Assembler/Span,
--   Assembler/Span/Lifetime: the spans that it hands out, in a vector with its capacity. The
--   operations of the vector end the references into it where the standard says that they do,
--   and a span whose references have ended views nothing.
-- - Route, Route/Outcomes, Route/Counters: `route_record`, `tally`, `IngestStats`.
-- - Stream and its children: what `next()` owes for the bytes before it (`Delivers`) and what
--   the loop over it owes (`Yields`), without buffers, chunks, cursors or fuel. Stream/Accounts:
--   the events and counts of a list of records, without the routing and counting of the code.
-- - Prologue, Prologue/Prefix: the 8-byte header and the metadata, as both `skip_prologue_`
--   check them (`Opens`), and the same for a longer or shorter file.
-- - Reader, Reader/Client, Reader/Repeat: the operations that both readers offer, with the
--   contract of Stream as their law, and the loop of a consumer over any such reader
--   (examples/replay_dbn.cpp, bench/bench_dbn.cpp).
-- - Source, Source/File: byte sources, and `FileByteSource` over `std::ifstream`. Source/Faults:
--   the same over a medium that fails part of the way.
-- - DbnReader and its children: `DbnReader` over any orderly byte source; in DbnReader/Spans it
--   reads the bytes of a record through its span, elsewhere a pull has the bytes.
-- - MmapDbnReader and its children: `MmapDbnReader` over the bytes of a file; in
--   MmapDbnReader/Owned with the `MemoryMappedFile` that it owns, on either platform, and in
--   MmapDbnReader/Interleaved with what the memory holds at each call.
-- - Ingest, Ingest/Parity, Ingest/Whole, Ingest/Bounds, Ingest/Delivery, Ingest/Faults,
--   Ingest/EmptyChunks: whole runs over a file with either reader. Ingest/OnPath, Ingest/PathParity: the mapped reader
--   over a path, beside the streaming one. Ingest/BetweenCalls: the same in a program that maps
--   and releases other files between the calls. Ingest/Pool and its children: programs that open,
--   call, move, assign and destroy any number of mapped readers in any order.
-- - Replay, Replay/Loop, Replay/Exits: `main` of examples/replay_dbn.cpp, with what it prints as
--   a value.
-- - Bench, Bench/InMemory, Bench/Parity, Bench/EmptySlices: `record_start` and a pass of the
--   in-memory mode of bench/bench_dbn.cpp. Bench/Actions: code that changes the system, may
--   throw and may run on, as a monad. Bench/Passes: `Stats` and the three modes with their
--   passes, the mapped one with its mapping. Bench/Main: `slurp`, `report` and `main`.
--   Bench/Counting, Bench/Rounds, Bench/Mapped, Bench/Modes, Bench/Measuring, Bench/Report,
--   Bench/Compare, Bench/Gate: the modes over a file on disk, what `main` reports of it, and the
--   system that it leaves. Bench/Faults, Bench/Faults/Parts: the same over a
--   medium that fails when the file is read.
-- - Fuzz: fuzz/frame_fuzz_libfuzzer.cpp.
-- - Version, Bindings: core/src/version.cpp and core/bindings/bindings.cpp, the string and what the
--   Python module offers.
-- - MemoryMappedFile and its children: memory_mapped_file.hpp and
--   core/src/memory_mapped_file.cpp, both platforms, with the objects of a program in a table by
--   their addresses, and what a view holds while others come and go (MemoryMappedFile/Beside,
--   MemoryMappedFile/PosixBytes, MemoryMappedFile/Win32Bytes).
-- - Base and its children: lists, bytes, machine integers and results. Tests: concrete runs.
--
-- State: a C++ object is a record with a field for each member; an operation takes the object
-- and gives its result and the object after it; an exception is the `err` of a `Result`. Bytes
-- are numbers, and what depends on their being below 256 says so. Counters wrap at 2 ^ 64.
-- `size_t` does not wrap where the code adds to it, since the sums are bounded by sizes of
-- buffers in memory and by 2 ^ 33.
--
-- Fuel: the loops of `next()`, of the metadata and of a consumer can in principle run on, so
-- they take a number of rounds and answer `out_of_fuel`. Each round of the streaming `next()`
-- that goes on reads a byte or consumes one, so twice the bytes are enough; the mapped one
-- consumes, so the bytes are enough; the metadata loop with a chunk size above 0 skips a byte at
-- least. The loop of `read_fully_` is given its buffer's size and never runs out.
--
-- Parameters, with the documented behaviour as hypotheses: `std::ifstream` (`IStream`,
-- `ReadsFile`), the POSIX calls (`PosixCalls`, `IsPosix`) and the Win32 calls (`Win32Calls`,
-- `IsWin32`). The readers ask of a source only that it is orderly (`IsOrderly`), which covers
-- reads of any size. The benchmark has a stream that is opened at its end (`SeekStream`),
-- `std::sort`, the clock of each mode, the arithmetic of `double` (`Doubles`), `atoi` and
-- `atoll` (`Surroundings`, `Holds`). A stream over a medium that fails (`ReadsUntilFault`)
-- stores what comes before the fault and then nothing; `FailsAt` says it of the benchmark's two
-- streams. What the memory of the process holds at an address is a parameter too (`Memory`, with
-- `StoresPosix` and `StoresWin32` in MemoryMappedFile/Stores, `KeepsPosix` in
-- MemoryMappedFile/PosixBytes, `KeepsWin32` in MemoryMappedFile/Win32Bytes, and `FilesPosix` and
-- `FilesWin32` in MemoryMappedFile/Files). The clock gives the nanoseconds per event of a pass
-- by its number and its events, and `double` is a type of which nothing is asked.
--
-- Not modelled: the failure of an allocation, so that a chunk size stands for one that the
-- machine can hold (only the `std::length_error` of a `slurp` whose `tellg` fails is there); the
-- text that is printed, with the size of the file that the benchmark prints first; exception
-- texts; pybind11; the layout of `Event` in memory, which nothing reads; and the order book,
-- which is decided in docs/decisions but not written yet.
pub mod Base
pub mod Event
pub mod Dbn
pub mod Frame
pub mod Assembler
pub mod Route
pub mod Stream
pub mod Prologue
pub mod Reader
pub mod MmapDbnReader
pub mod Source
pub mod DbnReader
pub mod Ingest
pub mod Replay
pub mod Bench
pub mod Fuzz
pub mod Version
pub mod Bindings
pub mod MemoryMappedFile
pub mod Tests
