-- ===== src/Tests/Paths.antt =====
-- The small DBN file at a path of a small system, as a mapping and as a stream.
use trading_engine_hh.Base.{
  ℕ, ◌≡◌, refl, true, List, [], ◌∷◌, length, take, take_all, drop, Option, none, some, arith,
}
use trading_engine_hh.Dbn.{bytes_of_wire}
use trading_engine_hh.Source.{IStream}
use trading_engine_hh.Source.File.{ReadsFile}
use trading_engine_hh.MemoryMappedFile.{
  Memory, make_posix, release_posix, make_win32, release_win32,
}
use trading_engine_hh.MemoryMappedFile.Platforms.{
  posix_region, posix-Manages, posix-KeepsTable, win32_region, win32-Manages, win32-KeepsTable,
}
use trading_engine_hh.MemoryMappedFile.Stores.{StoresPosix, StoresWin32}
use trading_engine_hh.Ingest.PathParity.{SameRuns, posix_path_parity, win32_path_parity}
use trading_engine_hh.Tests.Data.{file}
use trading_engine_hh.Tests.Mapping.{
  posix, win32, fds, regions, posix-IsPosix, win32-IsWin32, before,
}

-- Every view and every file begins with the bytes of the small file.
abbrev pub memory : {W : Type 0} → Memory W
memory w a n = take n file

abbrev pub at_path : Option ℕ → List ℕ
at_path none = []
at_path (some n) = take n file

abbrev pub streams : IStream (Option ℕ) (List ℕ)
streams = record { open_binary = at_path; is_good = λ f. true; fill = λ f n. (take n f, drop n f) }

pub streams-ReadsFile : ReadsFile streams (λ f. f)
streams-ReadsFile = record { stores = λ f n. refl; advances = λ f n. refl }

abbrev pub here : Option ℕ
here = some (length file)

pub all_there : take (length file) file ≡ file
all_there = take_all (length file) file (omega arith)

posix-Stores : StoresPosix posix memory here before file
posix-Stores = record {
  fd = length file;
  opened = (length file ∷ 3 ∷ [], before.1);
  sized = (length file ∷ 3 ∷ [], before.1);
  addr = 3;
  mapped = (length file ∷ 3 ∷ [], (3, length file) ∷ before.1);
  opens = refl;
  has_size = refl;
  maps = λ some_bytes. refl;
  views = λ some_bytes. all_there;
  nothing = λ v a. refl;
}

posix_parity_example :
    SameRuns streams
      (λ f. f)
      streams-ReadsFile
      posix_region
      regions
      (make_posix posix)
      (release_posix posix)
      (posix-Manages posix fds regions posix-IsPosix)
      fds
      (posix-KeepsTable posix fds regions posix-IsPosix)
      memory
      500
      100
      here
      before
      file
unfolding bytes_of_wire
posix_parity_example =
    posix_path_parity streams (λ f. f) streams-ReadsFile posix fds regions posix-IsPosix memory 500
      100 here before file posix-Stores all_there (omega arith) (omega arith)

win32-Stores : StoresWin32 win32 memory here (3 ∷ [], 1 ∷ []) file
win32-Stores = record {
  file = length file;
  opened = (length file ∷ 3 ∷ [], 1 ∷ []);
  sized = (length file ∷ 3 ∷ [], 1 ∷ []);
  mapping = 77;
  mapped = (77 ∷ length file ∷ 3 ∷ [], 1 ∷ []);
  view = 2;
  viewed = (77 ∷ length file ∷ 3 ∷ [], 2 ∷ 1 ∷ []);
  opens = refl;
  has_size = refl;
  maps = λ some_bytes. refl;
  shows = λ some_bytes. refl;
  views = λ some_bytes. all_there;
  nothing = λ v a. refl;
}

win32_parity_example :
    SameRuns streams
      (λ f. f)
      streams-ReadsFile
      win32_region
      regions
      (make_win32 win32)
      (release_win32 win32)
      (win32-Manages win32 fds regions win32-IsWin32)
      fds
      (win32-KeepsTable win32 fds regions win32-IsWin32)
      memory
      500
      100
      here
      (3 ∷ [], 1 ∷ [])
      file
unfolding bytes_of_wire
win32_parity_example =
    win32_path_parity streams (λ f. f) streams-ReadsFile win32 fds regions win32-IsWin32 memory 500
      100 here (3 ∷ [], 1 ∷ []) file win32-Stores all_there (omega arith) (omega arith)
