-- ===== src/MmapDbnReader/Owned.antt =====
-- dbn_reader.hpp: `MmapDbnReader` with the `MemoryMappedFile` that it owns, from its constructor on a
-- path to its destructor. The constructor and `release_` of the file are those of either platform, and
-- what the memory of the process holds is a parameter.
use trading_engine_hh.Base.{ℕ, [], ◌∷◌, Result, ok, err, Run, done, and_then}
use trading_engine_hh.Prologue.{DbnError}
use trading_engine_hh.Stream.{Yield}
use trading_engine_hh.Reader.Client.{collect}
use trading_engine_hh.MemoryMappedFile.{
  Memory, bytes_of, MemoryMappedFile, MapError, object, move_construct, move_assign,
}
use trading_engine_hh.MmapDbnReader.{MmapDbnReader, open_reader}
use trading_engine_hh.MmapDbnReader.Contract.{mmap_reader}

-- The exceptions of the constructor: those of its member, and those of `skip_prologue_`.
pub data OpenError : Type 0 where
  unmapped : MapError → OpenError
  refused : DbnError → OpenError

-- The outcome over a file that is mapped.
abbrev pub refusing : {A : Type 0} → Result DbnError A → Result OpenError A
refusing (ok a) = ok a
refusing (err x) = err (refused x)

-- A reader and its member `map_`.
abbrev pub OwningReader : Type 0
OwningReader = MemoryMappedFile × MmapDbnReader

-- The class declares no move, and gets those of its members: the file is moved, and all else is
-- copied, `cursor_` too. First the new reader, then the one that is moved from.
unfoldable pub move_reader : OwningReader → OwningReader × OwningReader
unfolding move_construct
move_reader (m, r) = let (taken, left) = move_construct m in ((taken, r), (left, r))

-- The assignment to another reader: that reader, the one that is moved from, and the system.
unfoldable pub assign_reader :
    {W : Type 0}
    → (MemoryMappedFile → W → MemoryMappedFile × W)
    → OwningReader
    → OwningReader
    → W
    → OwningReader × OwningReader × W
unfolding move_assign
assign_reader release (m, r) (m', r') w =
    let (os, w') = move_assign release 0 1 (m ∷ m' ∷ [], w) in
    ((object os 0, r'), (object os 1, r'), w')

module _ {P W : Type 0} (make : P → W → Result MapError MemoryMappedFile × W)
    (release : MemoryMappedFile → W → MemoryMappedFile × W) (memory : Memory W) where
  -- When `skip_prologue_` throws, the member that is constructed is destroyed.
  abbrev pub validated :
      MemoryMappedFile
      → W
      → Result DbnError MmapDbnReader
      → Result OpenError (MemoryMappedFile × MmapDbnReader) × W
  validated m w (ok r) = (ok (m, r), w)
  validated m w (err x) = (err (refused x), (release m w).1)

  abbrev pub over_file :
      Result MapError MemoryMappedFile × W → Result OpenError (MemoryMappedFile × MmapDbnReader) × W
  over_file (err x, w) = (err (unmapped x), w)
  over_file (ok m, w) = validated m w (open_reader (bytes_of memory m w))

  -- The constructor.
  unfoldable pub open_path : P → W → Result OpenError (MemoryMappedFile × MmapDbnReader) × W
  open_path path w = over_file (make path w)

  -- The events of a reader that is constructed, which is destroyed after the last.
  abbrev pub consumed :
      ℕ → Result OpenError (MemoryMappedFile × MmapDbnReader) × W → Run (Result OpenError Yield × W)
  consumed fuel (err x, w) = done (err x, w)
  consumed fuel (ok (m, r), w) =
      and_then (collect mmap_reader fuel fuel r) (λ y. done (ok y, (release m w).1))

  unfoldable pub ingest_path : ℕ → P → W → Run (Result OpenError Yield × W)
  unfolding open_path
  ingest_path fuel path w = consumed fuel (open_path path w)
