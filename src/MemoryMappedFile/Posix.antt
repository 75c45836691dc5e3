-- ===== src/MemoryMappedFile/Posix.antt =====
-- memory_mapped_file.cpp: the POSIX constructor, and what its calls promise.
use trading_engine_hh.Base.{
  ℕ, ◌≡◌, ◌≢◌, refl, ap, ◌∙◌, ◌⊎◌, inl, inr, List, ◌∷◌, ◌==◌, Bool-cases, Option, none, some,
  Result, ok, err,
}
use mathlib.Core.List.{Perm}
use trading_engine_hh.MemoryMappedFile.{
  MemoryMappedFile, empty_view, MapError, PosixCalls, make_posix, opened_posix, sized_posix,
  mapped_posix, close_after,
}

-- What the POSIX manual says of the calls, on the descriptors open and the regions mapped in the
-- process. A region is its address and its length.
pub record IsPosix {P W : Type 0} (sys : PosixCalls P W) (fds : W → List ℕ)
    (regions : W → List (ℕ × ℕ)) : Type 0 where
  pub open_some :
      (path : P) (w w' : W) (fd : ℕ)
      → sys.open_rdonly path w ≡ (some fd, w')
      → (fds w' ≡ fd ∷ fds w) × (regions w' ≡ regions w)
  pub open_none :
      (path : P) (w w' : W)
      → sys.open_rdonly path w ≡ (none, w')
      → (fds w' ≡ fds w) × (regions w' ≡ regions w)
  pub fstat_keeps :
      (fd : ℕ) (w w' : W) (r : Option ℕ)
      → sys.fstat_size fd w ≡ (r, w')
      → (fds w' ≡ fds w) × (regions w' ≡ regions w)
  pub mmap_some :
      (fd n addr : ℕ) (w w' : W)
      → sys.mmap fd n w ≡ (some addr, w')
      → (addr ≢ 0) × (fds w' ≡ fds w) × (regions w' ≡ (addr, n) ∷ regions w)
  pub mmap_none :
      (fd n : ℕ) (w w' : W)
      → sys.mmap fd n w ≡ (none, w')
      → (fds w' ≡ fds w) × (regions w' ≡ regions w)
  pub close_removes :
      (fd : ℕ) (w : W) (others : List ℕ)
      → fds w ≡ fd ∷ others
      → (fds (sys.close fd w) ≡ others) × (regions (sys.close fd w) ≡ regions w)
  pub munmap_removes :
      (addr n : ℕ) (w : W) (others : List (ℕ × ℕ))
      → Perm (regions w) ((addr, n) ∷ others)
      → Perm (regions (sys.munmap addr n w)) others
  pub munmap_keeps : (addr n : ℕ) (w : W) → fds (sys.munmap addr n w) ≡ fds w

module _ {P W : Type 0} (sys : PosixCalls P W) (fds : W → List ℕ) (regions : W → List (ℕ × ℕ))
    (law : IsPosix sys fds regions) where
  -- What the constructor leaves, compared with the system before it.
  abbrev pub Made : W → Result MapError MemoryMappedFile × W → Type 0
  Made w (ok m, w') =
      (fds w' ≡ fds w)
      × (((m ≡ empty_view) × (regions w' ≡ regions w))
          ⊎ ((m.data_at ≢ 0) × (regions w' ≡ (m.data_at, m.size) ∷ regions w)))
  Made w (err x, w') = (fds w' ≡ fds w) × (regions w' ≡ regions w)

  -- After the calls that keep the tables, closing the descriptor restores them.
  closed :
      (fd : ℕ) (w w' : W)
      → fds w' ≡ fd ∷ fds w
      → regions w' ≡ regions w
      → (fds (sys.close fd w') ≡ fds w) × (regions (sys.close fd w') ≡ regions w)
  closed fd w w' f r = let (f', r') = law.close_removes fd w' (fds w) f in (f', r' ∙ r)

  mapped-Made :
      (size fd : ℕ) (w w₂ : W) (t : Option ℕ × W)
      → sys.mmap fd size w₂ ≡ t
      → fds w₂ ≡ fd ∷ fds w
      → regions w₂ ≡ regions w
      → Made w (mapped_posix sys size (close_after sys fd t))
  mapped-Made size fd w w₂ (none, w₃) e f r =
      let (f', r') = law.mmap_none fd size w₂ w₃ e in closed fd w w₃ (f' ∙ f) (r' ∙ r)
  mapped-Made size fd w w₂ (some addr, w₃) e f r =
      let (ne, f', r') = law.mmap_some fd size addr w₂ w₃ e in
      let (f'', r'') = law.close_removes fd w₃ (fds w) (f' ∙ f) in
      (f'', inr (ne, r'' ∙ r' ∙ ap (λ x. (addr, size) ∷ x) r))

  sized-Made :
      (fd : ℕ) (w w₁ : W) (t : Option ℕ × W)
      → sys.fstat_size fd w₁ ≡ t
      → fds w₁ ≡ fd ∷ fds w
      → regions w₁ ≡ regions w
      → Made w (sized_posix sys fd t)
  sized-Made fd w w₁ (none, w₂) e f r =
      let (f', r') = law.fstat_keeps fd w₁ w₂ none e in closed fd w w₂ (f' ∙ f) (r' ∙ r)
  sized-Made fd w w₁ (some size, w₂) e f r =
      let (f', r') = law.fstat_keeps fd w₁ w₂ (some size) e in
      elim (Bool-cases (size == 0)) [
        | inl empty ↦
            let (f'', r'') = closed fd w w₂ (f' ∙ f) (r' ∙ r) in rw empty (f'', inl (refl, r''))
        | inr not_empty ↦
            rw not_empty (mapped-Made size fd w w₂ (sys.mmap fd size w₂) refl (f' ∙ f) (r' ∙ r))
      ]

  opened-Made :
      (path : P) (w : W) (t : Option ℕ × W)
      → sys.open_rdonly path w ≡ t
      → Made w (opened_posix sys t)
  opened-Made path w (none, w₁) e = law.open_none path w w₁ e
  opened-Made path w (some fd, w₁) e =
      let (f, r) = law.open_some path w w₁ fd e in
      sized-Made fd w w₁ (sys.fstat_size fd w₁) refl f r

  -- With the POSIX calls as documented, the constructor leaves the open descriptors as they were
  -- on every path; it adds one mapped region, that of the object, if it returns an object that is
  -- not empty, and otherwise none.
  pub make_posix-Made : (path : P) (w : W) → Made w (make_posix sys path w)
  unfolding make_posix
  make_posix-Made path w = opened-Made path w (sys.open_rdonly path w) refl
