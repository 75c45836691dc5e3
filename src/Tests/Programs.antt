-- ===== src/Tests/Programs.antt =====
-- A program with several mapped readers over a small system.
use trading_engine_hh.Base.{
  ℕ, zero, suc, ◌≡◌, ◌<◌, refl, sym, ap, ◌∙◌, List, [], ◌∷◌, length, take, take_all, take-take,
  length-take, min, Option, none, some, arith,
}
use mathlib.Core.List.{mem-cons_self}
use trading_engine_hh.Dbn.{bytes_of_wire}
use trading_engine_hh.MemoryMappedFile.{PosixCalls, make_posix, release_posix}
use trading_engine_hh.MemoryMappedFile.Files.{FilesPosix}
use trading_engine_hh.MemoryMappedFile.Platforms.{posix_region}
use trading_engine_hh.MemoryMappedFile.Posix.{IsPosix}
use trading_engine_hh.MemoryMappedFile.PosixBytes.{KeepsPosix}
use trading_engine_hh.Ingest.Pool.{Command, opening, calling, closing, moving, assigning}
use trading_engine_hh.Ingest.Pool.Platforms.{Leaves, posix_program-Leaves}
use trading_engine_hh.Tests.Data.{file}
use trading_engine_hh.Tests.Paths.{at_path, here}
use trading_engine_hh.Tests.Mapping.{System, posix, fds, regions, posix-IsPosix, before}
use trading_engine_hh.Tests.Between.{mapped_bytes, posix-KeepsPosix, shown_there, shown_nothing}

-- The file at a path is the front of the small file, and has its size.
abbrev fronts : PosixCalls (Option ℕ) (System (ℕ × ℕ))
fronts = record posix { fstat_size = λ fd w. (some (min fd (length file)), w) }

fronts-IsPosix : IsPosix fronts fds regions
fronts-IsPosix = record {
  open_some = posix-IsPosix.open_some;
  open_none = posix-IsPosix.open_none;
  fstat_keeps = λ fd (fs, rs) (fs', rs') r e. (cc e, cc e);
  mmap_some = posix-IsPosix.mmap_some;
  mmap_none = posix-IsPosix.mmap_none;
  close_removes = posix-IsPosix.close_removes;
  munmap_removes = posix-IsPosix.munmap_removes;
  munmap_keeps = posix-IsPosix.munmap_keeps;
}

fronts-KeepsPosix : KeepsPosix fronts regions mapped_bytes
fronts-KeepsPosix = record {
  open_keeps = posix-KeepsPosix.open_keeps;
  fstat_keeps = λ a n others fd w h. refl;
  mmap_keeps = posix-KeepsPosix.mmap_keeps;
  close_keeps = posix-KeepsPosix.close_keeps;
  munmap_keeps = posix-KeepsPosix.munmap_keeps;
  null_empty = posix-KeepsPosix.null_empty;
}

pub front_of : (n : ℕ) → take (min n (length file)) file ≡ take n file
front_of n =
    sym (take-take n (length file) file) ∙ ap (take n) (take_all (length file) file (omega arith))

-- The region that was mapped last, once the descriptor is closed.
last_mapped :
    (fd : ℕ) (gs : List ℕ) (rs : List (ℕ × ℕ)) (n : ℕ)
    → mapped_bytes (fronts.close fd (gs, (suc (length rs), n) ∷ rs)) (suc (length rs)) n
      ≡ take n file
last_mapped fd [] rs n = shown_there _ n mem-cons_self
last_mapped fd (g ∷ gs) rs n = shown_there _ n mem-cons_self

fronts-FilesPosix : FilesPosix fronts mapped_bytes at_path
fronts-FilesPosix = record { sizes = sizes; views = views; nothing = nothing_at }
  where
    sizes :
        (path : Option ℕ) (w w₁ w₂ : System (ℕ × ℕ)) (fd n : ℕ)
        → fronts.open_rdonly path w ≡ (some fd, w₁)
        → fronts.fstat_size fd w₁ ≡ (some n, w₂)
        → n ≡ length (at_path path)
    sizes none w w₁ w₂ fd n o s = cc
    sizes (some k) (gs, rs) w₁ w₂ fd n o s =
        let descriptor : k ≡ fd = cc o in
        let size : min fd (length file) ≡ n = cc s in
        omega (arith, descriptor, size, length-take k file)

    views :
        (path : Option ℕ) (w w₁ w₂ w₃ : System (ℕ × ℕ)) (fd n addr : ℕ)
        → fronts.open_rdonly path w ≡ (some fd, w₁)
        → fronts.fstat_size fd w₁ ≡ (some n, w₂)
        → fronts.mmap fd n w₂ ≡ (some addr, w₃)
        → mapped_bytes (fronts.close fd w₃) addr n ≡ at_path path
    views none w w₁ w₂ w₃ fd n addr o s e = cc
    views (some k) (gs, rs) (gs₁, rs₁) (gs₂, rs₂) w₃ fd n addr o s e =
        let descriptor : k ≡ fd = cc o in
        let size : min fd (length file) ≡ n = cc s in
        let address : suc (length rs₂) ≡ addr = cc e in
        let system : (gs₂, (suc (length rs₂), n) ∷ rs₂) ≡ w₃ = cc e in
        rw (sym system, sym address)
          (last_mapped fd gs₂ rs₂ n
            ∙ ap (λ j. take j file) (sym size)
            ∙ ap (λ j. take (min j (length file)) file) (sym descriptor)
            ∙ front_of k)

    nothing_at : (v : System (ℕ × ℕ)) (a : ℕ) → mapped_bytes v a 0 ≡ []
    nothing_at v zero = refl
    nothing_at v (suc a) = shown_nothing _

pub short_files : (path : Option ℕ) → length (at_path path) < 500
unfolding bytes_of_wire
short_files none = omega arith
short_files (some n) = omega (arith, length-take n file)

-- Two readers over one file, a path with no file, and a file that is too short. One reader is moved, the
-- other destroyed, and a third is assigned to what is left of the first.
abbrev pub commands : List (Command (Option ℕ))
commands =
    opening here
    ∷ calling 0
    ∷ opening here
    ∷ calling 1
    ∷ opening none
    ∷ calling 0
    ∷ moving 1
    ∷ opening (some 5)
    ∷ closing 0
    ∷ calling 0
    ∷ opening here
    ∷ assigning 1
    ∷ calling 2
    ∷ closing 0
    ∷ calling 0
    ∷ []

program_example :
    Leaves posix_region regions
      (make_posix fronts)
      (release_posix fronts)
      fds
      mapped_bytes
      at_path
      500
      commands
      before
program_example =
    posix_program-Leaves fronts fds regions fronts-IsPosix mapped_bytes fronts-KeepsPosix at_path
      fronts-FilesPosix 500 short_files commands before
