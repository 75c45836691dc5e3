-- ===== src/MemoryMappedFile/Stores.antt =====
-- memory_mapped_file.cpp: the view of a file that is stored at a path, on either platform.
use trading_engine_hh.Base.{
  ℕ, ◌≡◌, ◌≢◌, sym, ◌∙◌, inl, inr, Bool-cases, ◌==◌, ==_iff, nil_of_length, List, [], length, some,
  Result, ok, err,
}
use trading_engine_hh.MemoryMappedFile.{
  Memory, bytes_of, MemoryMappedFile, MapError, PosixCalls, make_posix, Win32Calls, make_win32,
}

-- What the manuals say of a file with the bytes `f` at a path: it opens and has their size, a mapping of
-- it succeeds unless it is empty, and the mapping views the bytes once the descriptor is closed.
pub record StoresPosix {P W : Type 0} (sys : PosixCalls P W) (memory : Memory W) (path : P) (w : W)
    (f : List ℕ) : Type 0 where
  pub fd : ℕ
  pub opened : W
  pub sized : W
  pub addr : ℕ
  pub mapped : W
  pub opens : sys.open_rdonly path w ≡ (some fd, opened)
  pub has_size : sys.fstat_size fd opened ≡ (some (length f), sized)
  pub maps : length f ≢ 0 → sys.mmap fd (length f) sized ≡ (some addr, mapped)
  pub views : length f ≢ 0 → memory (sys.close fd mapped) addr (length f) ≡ f
  pub nothing : (v : W) (a : ℕ) → memory v a 0 ≡ []

-- The constructor gives a view of the bytes.
abbrev pub ViewsFile :
    {W : Type 0} → Memory W → List ℕ → Result MapError MemoryMappedFile × W → Type 0
ViewsFile memory f (ok m, w) = bytes_of memory m w ≡ f
ViewsFile memory f (err x, w) = ⊥

pub make_posix-ViewsFile :
    {P W : Type 0} (sys : PosixCalls P W) (memory : Memory W) (path : P) (w : W) (f : List ℕ)
    → StoresPosix sys memory path w f
    → ViewsFile memory f (make_posix sys path w)
unfolding make_posix
make_posix-ViewsFile sys memory path w f s = elim (Bool-cases (length f == 0)) [
  | inl empty ↦
      rw (s.opens, s.has_size, empty)
        (s.nothing _ 0 ∙ sym (nil_of_length f ((==_iff (length f) 0).0 empty)))
  | inr some_bytes ↦
      let there : length f ≢ 0 = λ e. cc (some_bytes, (==_iff (length f) 0).1 e) in
      rw (s.opens, s.has_size, some_bytes, s.maps there) (s.views there)
]

-- The same of Win32, where a mapping and then a view of it are made.
pub record StoresWin32 {P W : Type 0} (sys : Win32Calls P W) (memory : Memory W) (path : P) (w : W)
    (f : List ℕ) : Type 0 where
  pub file : ℕ
  pub opened : W
  pub sized : W
  pub mapping : ℕ
  pub mapped : W
  pub view : ℕ
  pub viewed : W
  pub opens : sys.create_file path w ≡ (some file, opened)
  pub has_size : sys.get_file_size file opened ≡ (some (length f), sized)
  pub maps : length f ≢ 0 → sys.create_file_mapping file sized ≡ (some mapping, mapped)
  pub shows : length f ≢ 0 → sys.map_view_of_file mapping mapped ≡ (some view, viewed)
  pub views :
      length f ≢ 0
      → memory (sys.close_handle file (sys.close_handle mapping viewed)) view (length f) ≡ f
  pub nothing : (v : W) (a : ℕ) → memory v a 0 ≡ []

pub make_win32-ViewsFile :
    {P W : Type 0} (sys : Win32Calls P W) (memory : Memory W) (path : P) (w : W) (f : List ℕ)
    → StoresWin32 sys memory path w f
    → ViewsFile memory f (make_win32 sys path w)
unfolding make_win32
make_win32-ViewsFile sys memory path w f s = elim (Bool-cases (length f == 0)) [
  | inl empty ↦
      rw (s.opens, s.has_size, empty)
        (s.nothing _ 0 ∙ sym (nil_of_length f ((==_iff (length f) 0).0 empty)))
  | inr some_bytes ↦
      let there : length f ≢ 0 = λ e. cc (some_bytes, (==_iff (length f) 0).1 e) in
      rw (s.opens, s.has_size, some_bytes, s.maps there, s.shows there) (s.views there)
]
