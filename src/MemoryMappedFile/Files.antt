-- ===== src/MemoryMappedFile/Files.antt =====
-- memory_mapped_file.cpp: the constructor over files that do not change.
use trading_engine_hh.Base.{
  ℕ, ◌≡◌, sym, ◌∙◌, refl, inl, inr, Bool-cases, ◌==◌, ==_iff, nil_of_length, List, [], length,
  Option, none, some, Result, ok, err,
}
use trading_engine_hh.MemoryMappedFile.{
  Memory, bytes_of, MemoryMappedFile, MapError, PosixCalls, make_posix, opened_posix, sized_posix,
  mapped_posix, close_after, Win32Calls, make_win32, opened_win32, sized_win32, mapping_win32,
  viewed_win32, close_both,
}

-- A constructor that returns views the file that is at the path.
abbrev pub Shows :
    {P W : Type 0}
    → (P → W → Result MapError MemoryMappedFile × W)
    → Memory W
    → (P → List ℕ)
    → Type 0
Shows {P} {W} make memory contents =
    (path : P) (w w' : W) (m : MemoryMappedFile)
    → make path w ≡ (ok m, w')
    → bytes_of memory m w' ≡ contents path

-- The constructor throws, or gives a view of the bytes.
abbrev MayView : {W : Type 0} → Memory W → List ℕ → Result MapError MemoryMappedFile × W → Type 0
MayView memory f (ok m, w) = bytes_of memory m w ≡ f
MayView memory f (err x, w) = Unit {0}

-- What the POSIX manual says of a file whose bytes are always `contents path`, whenever the calls
-- succeed.
pub record FilesPosix {P W : Type 0} (sys : PosixCalls P W) (memory : Memory W)
    (contents : P → List ℕ) : Type 0 where
  pub sizes :
      (path : P) (w w₁ w₂ : W) (fd n : ℕ)
      → sys.open_rdonly path w ≡ (some fd, w₁)
      → sys.fstat_size fd w₁ ≡ (some n, w₂)
      → n ≡ length (contents path)
  pub views :
      (path : P) (w w₁ w₂ w₃ : W) (fd n addr : ℕ)
      → sys.open_rdonly path w ≡ (some fd, w₁)
      → sys.fstat_size fd w₁ ≡ (some n, w₂)
      → sys.mmap fd n w₂ ≡ (some addr, w₃)
      → memory (sys.close fd w₃) addr n ≡ contents path
  pub nothing : (v : W) (a : ℕ) → memory v a 0 ≡ []

module _ {P W : Type 0} (sys : PosixCalls P W) (memory : Memory W) (contents : P → List ℕ)
    (stored : FilesPosix sys memory contents) (path : P) (w : W) where
  mapped-MayView :
      (fd n : ℕ) (w₁ w₂ : W) (t : Option ℕ × W)
      → sys.open_rdonly path w ≡ (some fd, w₁)
      → sys.fstat_size fd w₁ ≡ (some n, w₂)
      → sys.mmap fd n w₂ ≡ t
      → MayView memory (contents path) (mapped_posix sys n (close_after sys fd t))
  mapped-MayView fd n w₁ w₂ (none, w₃) o s e = tt
  mapped-MayView fd n w₁ w₂ (some addr, w₃) o s e = stored.views path w w₁ w₂ w₃ fd n addr o s e

  sized-MayView :
      (fd : ℕ) (w₁ : W) (t : Option ℕ × W)
      → sys.open_rdonly path w ≡ (some fd, w₁)
      → sys.fstat_size fd w₁ ≡ t
      → MayView memory (contents path) (sized_posix sys fd t)
  sized-MayView fd w₁ (none, w₂) o s = tt
  sized-MayView fd w₁ (some n, w₂) o s = elim (Bool-cases (n == 0)) [
    | inl empty ↦ rw empty (
        stored.nothing _ 0
        ∙ sym (
            nil_of_length (contents path)
              (sym (stored.sizes path w w₁ w₂ fd n o s) ∙ (==_iff n 0).0 empty)))
    | inr some_bytes ↦ rw some_bytes (mapped-MayView fd n w₁ w₂ (sys.mmap fd n w₂) o s refl)
  ]

  opened-MayView :
      (t : Option ℕ × W)
      → sys.open_rdonly path w ≡ t
      → MayView memory (contents path) (opened_posix sys t)
  opened-MayView (none, w₁) o = tt
  opened-MayView (some fd, w₁) o = sized-MayView fd w₁ (sys.fstat_size fd w₁) o refl

  make_posix-MayView : MayView memory (contents path) (make_posix sys path w)
  unfolding make_posix
  make_posix-MayView = opened-MayView (sys.open_rdonly path w) refl

pub make_posix-Shows :
    {P W : Type 0} (sys : PosixCalls P W) (memory : Memory W) (contents : P → List ℕ)
    → FilesPosix sys memory contents
    → Shows (make_posix sys) memory contents
make_posix-Shows sys memory contents stored path w w' m e =
    rw e at (make_posix-MayView sys memory contents stored path w)

-- The same of Win32, where a mapping and then a view of it are made.
pub record FilesWin32 {P W : Type 0} (sys : Win32Calls P W) (memory : Memory W)
    (contents : P → List ℕ) : Type 0 where
  pub sizes :
      (path : P) (w w₁ w₂ : W) (file n : ℕ)
      → sys.create_file path w ≡ (some file, w₁)
      → sys.get_file_size file w₁ ≡ (some n, w₂)
      → n ≡ length (contents path)
  pub shows :
      (path : P) (w w₁ w₂ w₃ w₄ : W) (file n mapping view : ℕ)
      → sys.create_file path w ≡ (some file, w₁)
      → sys.get_file_size file w₁ ≡ (some n, w₂)
      → sys.create_file_mapping file w₂ ≡ (some mapping, w₃)
      → sys.map_view_of_file mapping w₃ ≡ (some view, w₄)
      → memory (close_both sys mapping file w₄) view n ≡ contents path
  pub nothing : (v : W) (a : ℕ) → memory v a 0 ≡ []

module _ {P W : Type 0} (sys : Win32Calls P W) (memory : Memory W) (contents : P → List ℕ)
    (stored : FilesWin32 sys memory contents) (path : P) (w : W) where
  viewed-MayView :
      (file n mapping : ℕ) (w₁ w₂ w₃ : W) (t : Option ℕ × W)
      → sys.create_file path w ≡ (some file, w₁)
      → sys.get_file_size file w₁ ≡ (some n, w₂)
      → sys.create_file_mapping file w₂ ≡ (some mapping, w₃)
      → sys.map_view_of_file mapping w₃ ≡ t
      → MayView memory (contents path) (viewed_win32 sys file mapping n t)
  viewed-MayView file n mapping w₁ w₂ w₃ (none, w₄) o s c e = tt
  viewed-MayView file n mapping w₁ w₂ w₃ (some view, w₄) o s c e =
      stored.shows path w w₁ w₂ w₃ w₄ file n mapping view o s c e

  created-MayView :
      (file n : ℕ) (w₁ w₂ : W) (t : Option ℕ × W)
      → sys.create_file path w ≡ (some file, w₁)
      → sys.get_file_size file w₁ ≡ (some n, w₂)
      → sys.create_file_mapping file w₂ ≡ t
      → MayView memory (contents path) (mapping_win32 sys file n t)
  created-MayView file n w₁ w₂ (none, w₃) o s c = tt
  created-MayView file n w₁ w₂ (some mapping, w₃) o s c =
      viewed-MayView file n mapping w₁ w₂ w₃ (sys.map_view_of_file mapping w₃) o s c refl

  measured-MayView :
      (file : ℕ) (w₁ : W) (t : Option ℕ × W)
      → sys.create_file path w ≡ (some file, w₁)
      → sys.get_file_size file w₁ ≡ t
      → MayView memory (contents path) (sized_win32 sys file t)
  measured-MayView file w₁ (none, w₂) o s = tt
  measured-MayView file w₁ (some n, w₂) o s = elim (Bool-cases (n == 0)) [
    | inl empty ↦ rw empty (
        stored.nothing _ 0
        ∙ sym (
            nil_of_length (contents path)
              (sym (stored.sizes path w w₁ w₂ file n o s) ∙ (==_iff n 0).0 empty)))
    | inr some_bytes ↦
        rw some_bytes (created-MayView file n w₁ w₂ (sys.create_file_mapping file w₂) o s refl)
  ]

  found-MayView :
      (t : Option ℕ × W)
      → sys.create_file path w ≡ t
      → MayView memory (contents path) (opened_win32 sys t)
  found-MayView (none, w₁) o = tt
  found-MayView (some file, w₁) o = measured-MayView file w₁ (sys.get_file_size file w₁) o refl

  make_win32-MayView : MayView memory (contents path) (make_win32 sys path w)
  unfolding make_win32
  make_win32-MayView = found-MayView (sys.create_file path w) refl

pub make_win32-Shows :
    {P W : Type 0} (sys : Win32Calls P W) (memory : Memory W) (contents : P → List ℕ)
    → FilesWin32 sys memory contents
    → Shows (make_win32 sys) memory contents
make_win32-Shows sys memory contents stored path w w' m e =
    rw e at (make_win32-MayView sys memory contents stored path w)
