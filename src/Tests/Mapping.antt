-- ===== src/Tests/Mapping.antt =====
-- Two small systems that keep what the manuals say, and files mapped in them.
use trading_engine_hh.Base.{
  ℕ, suc, ◌<◌, ◌≡◌, ◌≢◌, refl, sym, List, [], ◌∷◌, length, Option, none, some, arith,
}
use mathlib.Core.Path.{subst}
use mathlib.Core.List.{Perm, erase, erase-cons-head}
use mathlib.Core.List.Perm
use mathlib.Core.HLevel.{×_discrete}
use native.Mathlib.Decide.{ℕ_discrete}
use trading_engine_hh.MemoryMappedFile.{
  PosixCalls, Win32Calls, Objects, make_posix, release_posix, make_win32, release_win32,
  emplace_made, emplace_moved, move_assign, destroy,
}
use trading_engine_hh.MemoryMappedFile.Posix.{IsPosix}
use trading_engine_hh.MemoryMappedFile.Windows.{IsWin32}
use trading_engine_hh.MemoryMappedFile.Ownership.{owned, Manages}
use trading_engine_hh.MemoryMappedFile.Lifetimes.{
  Reach, here, next, made, moved, assigned, destroyed,
}
use trading_engine_hh.MemoryMappedFile.Platforms.{
  posix_region, win32_region, posix-Manages, win32-Manages, posix-Reach, win32-Reach,
}

-- A path is the size of the file there, if there is one, and a descriptor is the size of its file.
-- A system holds its open descriptors and its regions.
abbrev pub System : Type 0 → Type 0
System K = List ℕ × List K

abbrev open_file : {K : Type 0} → Option ℕ → System K → Option ℕ × System K
open_file none w = (none, w)
open_file (some n) (fs, rs) = (some n, (n ∷ fs, rs))

abbrev close_last : {K : Type 0} → System K → System K
close_last ([], rs) = ([], rs)
close_last (f ∷ fs, rs) = (fs, rs)

-- Each address is above those handed out before and not released.
abbrev pub posix : PosixCalls (Option ℕ) (System (ℕ × ℕ))
posix = record {
  open_rdonly = open_file;
  fstat_size = λ fd w. (some fd, w);
  mmap = λ fd n (fs, rs). (some (suc (length rs)), (fs, (suc (length rs), n) ∷ rs));
  close = λ fd w. close_last w;
  munmap = λ addr n (fs, rs). (fs, erase (×_discrete ℕ_discrete ℕ_discrete) rs (addr, n));
}

abbrev pub fds : {K : Type 0} → System K → List ℕ
fds (fs, rs) = fs

abbrev pub regions : {K : Type 0} → System K → List K
regions (fs, rs) = rs

closes :
    {K : Type 0} (fd : ℕ) (w : System K) (others : List ℕ)
    → fds w ≡ fd ∷ others
    → (fds (close_last w) ≡ others) × (regions (close_last w) ≡ regions w)
closes fd ([], rs) others e = cc
closes fd (f ∷ fs, rs) others e = (cc e, refl)

opens :
    {K : Type 0} (path : Option ℕ) (w w' : System K) (fd : ℕ)
    → open_file path w ≡ (some fd, w')
    → (fds w' ≡ fd ∷ fds w) × (regions w' ≡ regions w)
opens none w w' fd e = cc
opens (some n) (fs, rs) (fs', rs') fd e = (cc e, cc e)

opens_not :
    {K : Type 0} (path : Option ℕ) (w w' : System K)
    → open_file path w ≡ (none, w')
    → (fds w' ≡ fds w) × (regions w' ≡ regions w)
opens_not none (fs, rs) (fs', rs') e = (cc e, cc e)
opens_not (some n) (fs, rs) w' e = cc

maps :
    (fd n addr : ℕ) (w w' : System (ℕ × ℕ))
    → posix.mmap fd n w ≡ (some addr, w')
    → (addr ≢ 0) × (fds w' ≡ fds w) × (regions w' ≡ (addr, n) ∷ regions w)
maps fd n addr (fs, rs) (fs', rs') e =
    let at_ : suc (length rs) ≡ addr = cc e in
    let added : (suc (length rs), n) ∷ rs ≡ rs' = cc e in
    (omega (arith, at_), cc e, rw at_ at (sym added))

pub posix-IsPosix : IsPosix posix fds regions
posix-IsPosix = record {
  open_some = opens;
  open_none = opens_not;
  fstat_keeps = λ fd (fs, rs) (fs', rs') r e. (cc e, cc e);
  mmap_some = maps;
  mmap_none = λ fd n (fs, rs) (fs', rs') e. cc;
  close_removes = closes;
  munmap_removes = λ addr n (fs, rs) others p.
      subst (Perm (erase (×_discrete ℕ_discrete ℕ_discrete) rs (addr, n)))
        (erase-cons-head (×_discrete ℕ_discrete ℕ_discrete) (addr, n) others)
        (Perm.erase (×_discrete ℕ_discrete ℕ_discrete) (addr, n) p);
  munmap_keeps = λ addr n (fs, rs). refl;
}

-- A handle of a file is its size, and one of a mapping is 77.
abbrev pub win32 : Win32Calls (Option ℕ) (System ℕ)
win32 = record {
  create_file = open_file;
  get_file_size = λ file w. (some file, w);
  create_file_mapping = λ file (hs, vs). (some 77, (77 ∷ hs, vs));
  map_view_of_file = λ mapping (hs, vs). (some (suc (length vs)), (hs, suc (length vs) ∷ vs));
  close_handle = λ h w. close_last w;
  unmap_view_of_file = λ view (hs, vs). (hs, erase ℕ_discrete vs view);
}

views :
    (mapping view : ℕ) (w w' : System ℕ)
    → win32.map_view_of_file mapping w ≡ (some view, w')
    → (view ≢ 0) × (fds w' ≡ fds w) × (regions w' ≡ view ∷ regions w)
views mapping view (hs, vs) (hs', vs') e =
    let at_ : suc (length vs) ≡ view = cc e in
    let added : suc (length vs) ∷ vs ≡ vs' = cc e in
    (omega (arith, at_), cc e, rw at_ at (sym added))

pub win32-IsWin32 : IsWin32 win32 fds regions
win32-IsWin32 = record {
  create_some = opens;
  create_none = opens_not;
  size_keeps = λ file (hs, vs) (hs', vs') r e. (cc e, cc e);
  mapping_some = λ file mapping (hs, vs) (hs', vs') e. (cc e, cc e);
  mapping_none = λ file (hs, vs) (hs', vs') e. cc;
  view_some = views;
  view_none = λ mapping (hs, vs) (hs', vs') e. cc;
  close_removes = closes;
  unmap_removes = λ view (hs, vs) others p.
      subst (Perm (erase ℕ_discrete vs view)) (erase-cons-head ℕ_discrete view others)
        (Perm.erase ℕ_discrete view p);
  unmap_keeps = λ view (hs, vs). refl;
}

-- Two regions are mapped before, and a descriptor is open.
abbrev pub before : System (ℕ × ℕ)
before = (3 ∷ [], (2, 10) ∷ (1, 20) ∷ [])

-- A program: map two files, construct a third object from the second by moving, assign it to the first,
-- and destroy the first.
abbrev start : {K : Type 0} → Objects × System K
start = ([], ([], []))

abbrev one_made : Objects × System (ℕ × ℕ)
one_made = emplace_made [] (make_posix posix (some 10) ([], []))

abbrev two_made : Objects × System (ℕ × ℕ)
two_made = emplace_made one_made.0 (make_posix posix (some 20) one_made.1)

abbrev used : Objects × System (ℕ × ℕ)
used =
    destroy (release_posix posix) 0
      (move_assign (release_posix posix) 0 2 (emplace_moved 1 two_made))

stands : 0 < length (emplace_moved 1 two_made).0
unfolding emplace_moved make_posix
stands = omega arith

abbrev pub manages : Manages posix_region regions (make_posix posix) (release_posix posix)
manages = posix-Manages posix fds regions posix-IsPosix

program : Reach posix_region regions (make_posix posix) (release_posix posix) manages start used
program =
    next
      (next
        (next (next (next here (made (some 10) [] ([], []))) (made (some 20) one_made.0 one_made.1))
          (moved 1 two_made))
        (assigned 0 2 (emplace_moved 1 two_made) stands))
      (destroyed 0 _)

posix_reach_example : Perm (regions used.1) (owned posix_region used.0)
posix_reach_example = posix-Reach posix fds regions posix-IsPosix {s = start} (Perm.refl []) program

abbrev viewed : Objects × System ℕ
viewed = emplace_made [] (make_win32 win32 (some 10) ([], []))

abbrev unviewed : Objects × System ℕ
unviewed = destroy (release_win32 win32) 0 viewed

win32_program :
    Reach win32_region regions
      (make_win32 win32)
      (release_win32 win32)
      (win32-Manages win32 fds regions win32-IsWin32)
      start
      unviewed
win32_program = next (next here (made (some 10) [] ([], []))) (destroyed 0 viewed)

win32_reach_example : Perm (regions unviewed.1) (owned win32_region unviewed.0)
win32_reach_example =
    win32-Reach win32 fds regions win32-IsWin32 {s = start} (Perm.refl []) win32_program
