-- ===== src/MemoryMappedFile/PosixBytes.antt =====
-- memory_mapped_file.cpp on POSIX: no call of the constructor or of `release_` changes the bytes of
-- another view.
use trading_engine_hh.Base.{
  ℕ, ◌≡◌, refl, sym, ◌∙◌, true, inl, inr, List, ◌∷◌, [], ◌==◌, Bool-cases, Option, none, some,
  ==_iff,
}
use mathlib.Core.Path.{subst}
use mathlib.Core.List.{Perm}
use mathlib.Core.List.Perm
use trading_engine_hh.MemoryMappedFile.{
  Memory, bytes_of, MemoryMappedFile, PosixCalls, make_posix, release_posix, opened_posix,
  sized_posix, mapped_posix, close_after,
}
use trading_engine_hh.MemoryMappedFile.Posix.{IsPosix}
use trading_engine_hh.MemoryMappedFile.Platforms.{posix_region}
use trading_engine_hh.MemoryMappedFile.Beside.{KeepsBytes}

-- What the manual says of the bytes at a region that is mapped: only its own `munmap` ends it. Nothing
-- is at the null address.
pub record KeepsPosix {P W : Type 0} (sys : PosixCalls P W) (regions : W → List (ℕ × ℕ))
    (memory : Memory W) : Type 0 where
  pub open_keeps :
      (a n : ℕ) (others : List (ℕ × ℕ)) (path : P) (w : W)
      → Perm (regions w) ((a, n) ∷ others)
      → memory (sys.open_rdonly path w).1 a n ≡ memory w a n
  pub fstat_keeps :
      (a n : ℕ) (others : List (ℕ × ℕ)) (fd : ℕ) (w : W)
      → Perm (regions w) ((a, n) ∷ others)
      → memory (sys.fstat_size fd w).1 a n ≡ memory w a n
  pub mmap_keeps :
      (a n : ℕ) (others : List (ℕ × ℕ)) (fd size : ℕ) (w : W)
      → Perm (regions w) ((a, n) ∷ others)
      → memory (sys.mmap fd size w).1 a n ≡ memory w a n
  pub close_keeps :
      (a n : ℕ) (others : List (ℕ × ℕ)) (fd : ℕ) (w : W)
      → Perm (regions w) ((a, n) ∷ others)
      → memory (sys.close fd w) a n ≡ memory w a n
  pub munmap_keeps :
      (a n b k : ℕ) (others : List (ℕ × ℕ)) (w : W)
      → Perm (regions w) ((a, n) ∷ (b, k) ∷ others)
      → memory (sys.munmap b k w) a n ≡ memory w a n
  pub null_empty : (w : W) (n : ℕ) → memory w 0 n ≡ []

module _ {P W : Type 0} (sys : PosixCalls P W) (fds : W → List ℕ) (regions : W → List (ℕ × ℕ))
    (law : IsPosix sys fds regions) (memory : Memory W) (keeps : KeepsPosix sys regions memory)
    (a n : ℕ) where
  abbrev StillThere : W → Type 0
  StillThere w = (others : List (ℕ × ℕ)) × Perm (regions w) ((a, n) ∷ others)

  still : {v w : W} → regions w ≡ regions v → StillThere v → StillThere w
  still e (others, h) = (others, subst (λ t. Perm t ((a, n) ∷ others)) (sym e) h)

  closed_same : (fd : ℕ) (w : W) → StillThere w → memory (sys.close fd w) a n ≡ memory w a n
  closed_same fd w (others, h) = keeps.close_keeps a n others fd w h

  viewed_same :
      (fd size : ℕ) (w : W) (t : Option ℕ × W)
      → sys.mmap fd size w ≡ t
      → StillThere w
      → memory (mapped_posix sys size (close_after sys fd t)).1 a n ≡ memory w a n
  viewed_same fd size w (none, v) e (others, h) =
      closed_same fd v (still (law.mmap_none fd size w v e).1 (others, h))
      ∙ rw e at (keeps.mmap_keeps a n others fd size w h)
  viewed_same fd size w (some addr, v) e (others, h) =
      closed_same fd v (
        (addr, size) ∷ others,
        subst (λ t. Perm t ((a, n) ∷ (addr, size) ∷ others))
            (sym (law.mmap_some fd size addr w v e).2)
            (Perm.trans (Perm.cons (addr, size) h) (Perm.swap (a, n) (addr, size) others)),
      )
      ∙ rw e at (keeps.mmap_keeps a n others fd size w h)

  sized_same :
      (fd : ℕ) (w : W) (t : Option ℕ × W)
      → sys.fstat_size fd w ≡ t
      → StillThere w
      → memory (sized_posix sys fd t).1 a n ≡ memory w a n
  sized_same fd w (none, v) e (others, h) =
      closed_same fd v (still (law.fstat_keeps fd w v none e).1 (others, h))
      ∙ rw e at (keeps.fstat_keeps a n others fd w h)
  sized_same fd w (some size, v) e (others, h) =
      (elim (Bool-cases (size == 0)) [
        | inl empty ↦ rw empty (closed_same fd v there)
        | inr bytes ↦ rw bytes (viewed_same fd size v (sys.mmap fd size v) refl there)
      ])
      ∙ rw e at (keeps.fstat_keeps a n others fd w h)
    where
      there : StillThere v
      there = still (law.fstat_keeps fd w v (some size) e).1 (others, h)

  opened_same :
      (path : P) (w : W) (t : Option ℕ × W)
      → sys.open_rdonly path w ≡ t
      → StillThere w
      → memory (opened_posix sys t).1 a n ≡ memory w a n
  opened_same path w (none, v) e (others, h) = rw e at (keeps.open_keeps a n others path w h)
  opened_same path w (some fd, v) e (others, h) =
      sized_same fd v (sys.fstat_size fd v) refl (still (law.open_some path w v fd e).1 (others, h))
      ∙ rw e at (keeps.open_keeps a n others path w h)

module _ {P W : Type 0} (sys : PosixCalls P W) (fds : W → List ℕ) (regions : W → List (ℕ × ℕ))
    (law : IsPosix sys fds regions) (memory : Memory W)
    (keeps : KeepsPosix sys regions memory) where
  empty_at_null :
      (m : MemoryMappedFile) (v w : W)
      → m.data_at == 0 ≡ true
      → bytes_of memory m v ≡ bytes_of memory m w
  empty_at_null m v w null =
      rw ((==_iff m.data_at 0).0 null) (keeps.null_empty v m.size ∙ sym (keeps.null_empty w m.size))

  pub posix-KeepsBytes : KeepsBytes posix_region regions (make_posix sys) (release_posix sys) memory
  unfolding make_posix release_posix
  posix-KeepsBytes = record {
    make_keeps = λ m path w h. elim (Bool-cases (m.data_at == 0)) [
      | inl null ↦ empty_at_null m _ w null
      | inr there ↦
          opened_same sys fds regions law memory keeps m.data_at m.size path w
            (sys.open_rdonly path w) refl (rw there at h)
    ];
    release_keeps = λ m other w (others, h). elim (Bool-cases (other.data_at == 0)) [
      | inl idle ↦ rw idle refl
      | inr mapped ↦ elim (Bool-cases (m.data_at == 0)) [
        | inl null ↦ empty_at_null m _ w null
        | inr there ↦ rw mapped (
            keeps.munmap_keeps m.data_at m.size other.data_at other.size others w
              (rw (there, mapped) at h))
      ]
    ];
  }
