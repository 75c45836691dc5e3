-- ===== src/MemoryMappedFile/Platforms.antt =====
-- memory_mapped_file.cpp on its two platforms: the constructors and `release_` against the ownership
-- note of memory_mapped_file.hpp.
use trading_engine_hh.Base.{
  ℕ, ◌≡◌, ◌≢◌, refl, sym, ap, ◌∙◌, inl, inr, List, [], ◌∷◌, ◌++◌, ◌==◌, ==_iff, Bool-cases, Result,
  ok, err,
}
use mathlib.Core.List.{Perm}
use trading_engine_hh.MemoryMappedFile.{
  MemoryMappedFile, MapError, Objects, PosixCalls, Win32Calls, make_posix, release_posix,
  make_win32, release_win32,
}
use trading_engine_hh.MemoryMappedFile.Ownership.{region, owned, Manages, KeepsTable}
use trading_engine_hh.MemoryMappedFile.Lifetimes.{Reach, Reach-IsOwned}
use trading_engine_hh.MemoryMappedFile.Posix
use trading_engine_hh.MemoryMappedFile.Posix.{IsPosix, make_posix-Made}
use trading_engine_hh.MemoryMappedFile.Windows
use trading_engine_hh.MemoryMappedFile.Windows.{IsWin32, make_win32-Made}

-- `munmap` wants the address and the length, `UnmapViewOfFile` the address.
abbrev pub posix_region : MemoryMappedFile → ℕ × ℕ
posix_region m = (m.data_at, m.size)

abbrev pub win32_region : MemoryMappedFile → ℕ
win32_region m = m.data_at

module _ {P W : Type 0} (sys : PosixCalls P W) (fds : W → List ℕ) (regions : W → List (ℕ × ℕ))
    (law : IsPosix sys fds regions) where
  region_of_nonnull :
      (m : MemoryMappedFile) → m.data_at ≢ 0 → region posix_region m ≡ (m.data_at, m.size) ∷ []
  region_of_nonnull m h = elim (Bool-cases (m.data_at == 0)) [
    | inl null ↦ absurd (h ((==_iff _ _).0 null))
    | inr there ↦ rw there refl
  ]

  Made-region :
      (w w' : W) (m : MemoryMappedFile)
      → Posix.Made sys fds regions law w (ok m, w')
      → regions w' ≡ region posix_region m ++ regions w
  Made-region w w' m (f, inl (e, r)) =
      r ∙ ap (λ (x : MemoryMappedFile). region posix_region x ++ regions w) (sym e)
  Made-region w w' m (f, inr (ne, r)) = r ∙ ap (λ x. x ++ regions w) (sym (region_of_nonnull m ne))

  -- The POSIX constructor and `release_` manage the mapped regions.
  pub posix-Manages : Manages posix_region regions (make_posix sys) (release_posix sys)
  unfolding release_posix
  posix-Manages = record {
    makes =
        λ path w w' m e. Made-region w w' m (rw e at (make_posix-Made sys fds regions law path w));
    throws = λ path w w' x e. (rw e at (make_posix-Made sys fds regions law path w)).1;
    frees = λ m w others h. elim (Bool-cases (m.data_at == 0)) [
      | inl null ↦ rw null (rw null at h)
      | inr there ↦ rw there (law.munmap_removes m.data_at m.size w others (rw there at h))
    ];
    leaves_none = λ m w. elim (Bool-cases (m.data_at == 0)) [
      | inl null ↦ rw (null, null) refl
      | inr there ↦ rw there refl
    ];
  }

  fds_after :
      (w : W) (t : Result MapError MemoryMappedFile × W)
      → Posix.Made sys fds regions law w t
      → fds t.1 ≡ fds w
  fds_after w (ok m, w') made = made.0
  fds_after w (err x, w') made = made.0

  pub posix-KeepsTable : KeepsTable fds (make_posix sys) (release_posix sys)
  unfolding release_posix
  posix-KeepsTable = record {
    makes =
        λ path w. fds_after w (make_posix sys path w) (make_posix-Made sys fds regions law path w);
    releases = λ m w. elim (Bool-cases (m.data_at == 0)) [
      | inl null ↦ rw null refl
      | inr there ↦ rw there (law.munmap_keeps m.data_at m.size w)
    ];
  }

  -- With the POSIX calls as documented, from a state in which the mapped regions are, up to order,
  -- those that the objects own, every state that is reached by making, move-constructing,
  -- move-assigning and destroying objects is such a state.
  pub posix-Reach :
      {s t : Objects × W}
      → Perm (regions s.1) (owned posix_region s.0)
      → Reach posix_region regions (make_posix sys) (release_posix sys) posix-Manages s t
      → Perm (regions t.1) (owned posix_region t.0)
  posix-Reach h r =
      Reach-IsOwned posix_region regions (make_posix sys) (release_posix sys) posix-Manages h r

module _ {P W : Type 0} (sys : Win32Calls P W) (handles : W → List ℕ) (views : W → List ℕ)
    (law : IsWin32 sys handles views) where
  view_of_nonnull : (m : MemoryMappedFile) → m.data_at ≢ 0 → region win32_region m ≡ m.data_at ∷ []
  view_of_nonnull m h = elim (Bool-cases (m.data_at == 0)) [
    | inl null ↦ absurd (h ((==_iff _ _).0 null))
    | inr there ↦ rw there refl
  ]

  Made-view :
      (w w' : W) (m : MemoryMappedFile)
      → Windows.Made sys handles views law w (ok m, w')
      → views w' ≡ region win32_region m ++ views w
  Made-view w w' m (f, inl (e, r)) =
      r ∙ ap (λ (x : MemoryMappedFile). region win32_region x ++ views w) (sym e)
  Made-view w w' m (f, inr (ne, r)) = r ∙ ap (λ x. x ++ views w) (sym (view_of_nonnull m ne))

  -- The Win32 constructor and `release_` manage the mapped views.
  pub win32-Manages : Manages win32_region views (make_win32 sys) (release_win32 sys)
  unfolding release_win32
  win32-Manages = record {
    makes =
        λ path w w' m e. Made-view w w' m (rw e at (make_win32-Made sys handles views law path w));
    throws = λ path w w' x e. (rw e at (make_win32-Made sys handles views law path w)).1;
    frees = λ m w others h. elim (Bool-cases (m.data_at == 0)) [
      | inl null ↦ rw null (rw null at h)
      | inr there ↦ rw there (law.unmap_removes m.data_at w others (rw there at h))
    ];
    leaves_none = λ m w. elim (Bool-cases (m.data_at == 0)) [
      | inl null ↦ rw (null, null) refl
      | inr there ↦ rw there refl
    ];
  }

  handles_after :
      (w : W) (t : Result MapError MemoryMappedFile × W)
      → Windows.Made sys handles views law w t
      → handles t.1 ≡ handles w
  handles_after w (ok m, w') made = made.0
  handles_after w (err x, w') made = made.0

  pub win32-KeepsTable : KeepsTable handles (make_win32 sys) (release_win32 sys)
  unfolding release_win32
  win32-KeepsTable = record {
    makes = λ path w.
        handles_after w (make_win32 sys path w) (make_win32-Made sys handles views law path w);
    releases = λ m w. elim (Bool-cases (m.data_at == 0)) [
      | inl null ↦ rw null refl
      | inr there ↦ rw there (law.unmap_keeps m.data_at w)
    ];
  }

  -- With the Win32 calls as documented, from a state in which the mapped views are, up to order,
  -- those that the objects own, every state that is reached by making, move-constructing,
  -- move-assigning and destroying objects is such a state.
  pub win32-Reach :
      {s t : Objects × W}
      → Perm (views s.1) (owned win32_region s.0)
      → Reach win32_region views (make_win32 sys) (release_win32 sys) win32-Manages s t
      → Perm (views t.1) (owned win32_region t.0)
  win32-Reach h r =
      Reach-IsOwned win32_region views (make_win32 sys) (release_win32 sys) win32-Manages h r
