-- ===== src/MemoryMappedFile.antt =====
-- core/include/trading_sim/memory_mapped_file.hpp and core/src/memory_mapped_file.cpp: the owner of a
-- whole-file mapping. The system calls of both platforms are parameters.
pub mod Posix
pub mod Windows
pub mod Ownership
pub mod Lifetimes
pub mod Platforms
pub mod Stores
pub mod Beside
pub mod PosixBytes
pub mod Win32Bytes
pub mod Files
use trading_engine_hh.Base.{
  ℕ, zero, suc, ◌+◌, List, [], ◌∷◌, ◌++◌, get_or, ◌==◌, if◌then◌else◌, Option, none, some, Result,
  ok, err,
}

-- `data` is the address of the view, 0 for `nullptr`.
pub record MemoryMappedFile : Type 0 where
  pub data_at : ℕ
  pub size : ℕ

abbrev pub empty_view : MemoryMappedFile
empty_view = record { data_at = 0; size = 0 }

-- The `std::runtime_error`s of the constructors, by the step that failed.
pub data MapError : Type 0 where
  cannot_open cannot_stat cannot_size cannot_map cannot_mmap cannot_view : MapError

-- The POSIX calls, in a system in state `W`: `none` is the failure value of each call.
pub record PosixCalls (P W : Type 0) : Type 0 where
  pub open_rdonly : P → W → Option ℕ × W
  pub fstat_size : ℕ → W → Option ℕ × W
  pub mmap : ℕ → ℕ → W → Option ℕ × W
  pub close : ℕ → W → W
  pub munmap : ℕ → ℕ → W → W

-- The Win32 calls: `create_mapping` gives a second handle, and a view is released by its address.
pub record Win32Calls (P W : Type 0) : Type 0 where
  pub create_file : P → W → Option ℕ × W
  pub get_file_size : ℕ → W → Option ℕ × W
  pub create_file_mapping : ℕ → W → Option ℕ × W
  pub map_view_of_file : ℕ → W → Option ℕ × W
  pub close_handle : ℕ → W → W
  pub unmap_view_of_file : ℕ → W → W

module _ {P W : Type 0} (sys : PosixCalls P W) where
  -- The end of the constructor: map, close the descriptor, and look at the address.
  abbrev pub mapped_posix : ℕ → Option ℕ × W → Result MapError MemoryMappedFile × W
  mapped_posix size (none, w) = (err cannot_mmap, w)
  mapped_posix size (some addr, w) = (ok (record { data_at = addr; size = size }), w)

  abbrev pub close_after : ℕ → Option ℕ × W → Option ℕ × W
  close_after fd (r, w) = (r, sys.close fd w)

  abbrev pub sized_posix : ℕ → Option ℕ × W → Result MapError MemoryMappedFile × W
  sized_posix fd (none, w) = (err cannot_stat, sys.close fd w)
  sized_posix fd (some size, w) =
      if size == 0
      then (ok empty_view, sys.close fd w)
      else mapped_posix size (close_after fd (sys.mmap fd size w))

  abbrev pub opened_posix : Option ℕ × W → Result MapError MemoryMappedFile × W
  opened_posix (none, w) = (err cannot_open, w)
  opened_posix (some fd, w) = sized_posix fd (sys.fstat_size fd w)

  -- The constructor, what it returns or throws, and the system after it.
  unfoldable pub make_posix : P → W → Result MapError MemoryMappedFile × W
  make_posix path w = opened_posix (sys.open_rdonly path w)

  -- `release_`.
  unfoldable pub release_posix : MemoryMappedFile → W → MemoryMappedFile × W
  release_posix m w = if m.data_at == 0 then (m, w) else (empty_view, sys.munmap m.data_at m.size w)

module _ {P W : Type 0} (sys : Win32Calls P W) where
  abbrev pub close_both : ℕ → ℕ → W → W
  close_both mapping file w = sys.close_handle file (sys.close_handle mapping w)

  -- Both handles are closed before the view is looked at.
  abbrev pub viewed_win32 : ℕ → ℕ → ℕ → Option ℕ × W → Result MapError MemoryMappedFile × W
  viewed_win32 file mapping size (none, w) = (err cannot_view, close_both mapping file w)
  viewed_win32 file mapping size (some view, w) =
      (ok (record { data_at = view; size = size }), close_both mapping file w)

  abbrev pub mapping_win32 : ℕ → ℕ → Option ℕ × W → Result MapError MemoryMappedFile × W
  mapping_win32 file size (none, w) = (err cannot_map, sys.close_handle file w)
  mapping_win32 file size (some mapping, w) =
      viewed_win32 file mapping size (sys.map_view_of_file mapping w)

  abbrev pub sized_win32 : ℕ → Option ℕ × W → Result MapError MemoryMappedFile × W
  sized_win32 file (none, w) = (err cannot_size, sys.close_handle file w)
  sized_win32 file (some size, w) =
      if size == 0
      then (ok empty_view, sys.close_handle file w)
      else mapping_win32 file size (sys.create_file_mapping file w)

  abbrev pub opened_win32 : Option ℕ × W → Result MapError MemoryMappedFile × W
  opened_win32 (none, w) = (err cannot_open, w)
  opened_win32 (some file, w) = sized_win32 file (sys.get_file_size file w)

  unfoldable pub make_win32 : P → W → Result MapError MemoryMappedFile × W
  make_win32 path w = opened_win32 (sys.create_file path w)

  unfoldable pub release_win32 : MemoryMappedFile → W → MemoryMappedFile × W
  release_win32 m w =
      if m.data_at == 0 then (m, w) else (empty_view, sys.unmap_view_of_file m.data_at w)

-- The move constructor: the new object, and the one moved from.
unfoldable pub move_construct : MemoryMappedFile → MemoryMappedFile × MemoryMappedFile
move_construct other =
    (record { data_at = other.data_at; size = other.size }, record other { data_at = 0; size = 0 })

-- The bytes of the process from an address on, as many as asked for.
abbrev pub Memory : Type 0 → Type 0
Memory W = W → ℕ → ℕ → List ℕ

-- `MemoryMappedFile::bytes`.
abbrev pub bytes_of : {W : Type 0} → Memory W → MemoryMappedFile → W → List ℕ
bytes_of memory m w = memory w m.data_at m.size

-- The objects by their addresses. An address with no object reads as an empty view.
abbrev pub Objects : Type 0
Objects = List MemoryMappedFile

abbrev pub object : Objects → ℕ → MemoryMappedFile
object os i = get_or os i empty_view

abbrev pub put : Objects → ℕ → MemoryMappedFile → Objects
put [] i m = []
put (o ∷ os) zero m = m ∷ os
put (o ∷ os) (suc i) m = o ∷ put os i m

module _ {W : Type 0} (release : MemoryMappedFile → W → MemoryMappedFile × W) where
  -- The destructor of the object at `i`.
  unfoldable pub destroy : ℕ → Objects × W → Objects × W
  destroy i (os, w) = let (m, w') = release (object os i) w in (put os i m, w')

  -- Move assignment `*i = std::move(*j)`: the test is on the addresses, and `release_` comes first.
  unfoldable pub move_assign : ℕ → ℕ → Objects × W → Objects × W
  move_assign i j (os, w) =
      let (m, w') = release (object os i) w in
      let taken : MemoryMappedFile = record m {
        data_at = (object os j).data_at;
        size = (object os j).size;
      } in
      if i == j then (os, w) else (put (put os i taken) j empty_view, w')

-- A new object that is move-constructed from the one at `j`.
unfoldable pub emplace_moved : {W : Type 0} → ℕ → Objects × W → Objects × W
unfolding move_construct
emplace_moved j (os, w) =
    let (fresh, left) = move_construct (object os j) in (put os j left ++ (fresh ∷ []), w)

-- A new object that is constructed from a path; a constructor that throws makes none.
abbrev pub emplace_made :
    {W : Type 0} → Objects → Result MapError MemoryMappedFile × W → Objects × W
emplace_made os (ok m, w) = (os ++ (m ∷ []), w)
emplace_made os (err x, w) = (os, w)
