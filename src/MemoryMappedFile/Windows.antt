-- ===== src/MemoryMappedFile/Windows.antt =====
-- memory_mapped_file.cpp: the Win32 constructor, and what its calls promise.
use trading_engine_hh.Base.{
  ℕ, ◌≡◌, ◌≢◌, refl, ap, ◌∙◌, ◌⊎◌, inl, inr, List, ◌∷◌, ◌==◌, Bool-cases, Option, none, some,
  Result, ok, err,
}
use mathlib.Core.List.{Perm}
use trading_engine_hh.MemoryMappedFile.{
  MemoryMappedFile, empty_view, MapError, Win32Calls, make_win32, opened_win32, sized_win32,
  mapping_win32, viewed_win32,
}

-- What the Win32 documentation says of the calls, on the handles open and the addresses of the views
-- mapped in the process. A view does not depend on the handles it was made from.
pub record IsWin32 {P W : Type 0} (sys : Win32Calls P W) (handles : W → List ℕ) (views : W → List ℕ)
    : Type 0 where
  pub create_some :
      (path : P) (w w' : W) (file : ℕ)
      → sys.create_file path w ≡ (some file, w')
      → (handles w' ≡ file ∷ handles w) × (views w' ≡ views w)
  pub create_none :
      (path : P) (w w' : W)
      → sys.create_file path w ≡ (none, w')
      → (handles w' ≡ handles w) × (views w' ≡ views w)
  pub size_keeps :
      (file : ℕ) (w w' : W) (r : Option ℕ)
      → sys.get_file_size file w ≡ (r, w')
      → (handles w' ≡ handles w) × (views w' ≡ views w)
  pub mapping_some :
      (file mapping : ℕ) (w w' : W)
      → sys.create_file_mapping file w ≡ (some mapping, w')
      → (handles w' ≡ mapping ∷ handles w) × (views w' ≡ views w)
  pub mapping_none :
      (file : ℕ) (w w' : W)
      → sys.create_file_mapping file w ≡ (none, w')
      → (handles w' ≡ handles w) × (views w' ≡ views w)
  pub view_some :
      (mapping view : ℕ) (w w' : W)
      → sys.map_view_of_file mapping w ≡ (some view, w')
      → (view ≢ 0) × (handles w' ≡ handles w) × (views w' ≡ view ∷ views w)
  pub view_none :
      (mapping : ℕ) (w w' : W)
      → sys.map_view_of_file mapping w ≡ (none, w')
      → (handles w' ≡ handles w) × (views w' ≡ views w)
  pub close_removes :
      (h : ℕ) (w : W) (others : List ℕ)
      → handles w ≡ h ∷ others
      → (handles (sys.close_handle h w) ≡ others) × (views (sys.close_handle h w) ≡ views w)
  pub unmap_removes :
      (view : ℕ) (w : W) (others : List ℕ)
      → Perm (views w) (view ∷ others)
      → Perm (views (sys.unmap_view_of_file view w)) others
  pub unmap_keeps : (view : ℕ) (w : W) → handles (sys.unmap_view_of_file view w) ≡ handles w

module _ {P W : Type 0} (sys : Win32Calls P W) (handles : W → List ℕ) (views : W → List ℕ)
    (law : IsWin32 sys handles views) where
  -- What the constructor leaves, compared with the system before it.
  abbrev pub Made : W → Result MapError MemoryMappedFile × W → Type 0
  Made w (ok m, w') =
      (handles w' ≡ handles w)
      × (((m ≡ empty_view) × (views w' ≡ views w))
          ⊎ ((m.data_at ≢ 0) × (views w' ≡ m.data_at ∷ views w)))
  Made w (err x, w') = (handles w' ≡ handles w) × (views w' ≡ views w)

  closed :
      (file : ℕ) (w w' : W) (vs : List ℕ)
      → handles w' ≡ file ∷ handles w
      → views w' ≡ vs
      → (handles (sys.close_handle file w') ≡ handles w) × (views (sys.close_handle file w') ≡ vs)
  closed file w w' vs f r = let (f', r') = law.close_removes file w' (handles w) f in (f', r' ∙ r)

  -- Both handles, the newer first.
  closed_both :
      (file mapping : ℕ) (w w' : W) (vs : List ℕ)
      → handles w' ≡ mapping ∷ file ∷ handles w
      → views w' ≡ vs
      → (handles (sys.close_handle file (sys.close_handle mapping w')) ≡ handles w)
        × (views (sys.close_handle file (sys.close_handle mapping w')) ≡ vs)
  closed_both file mapping w w' vs f r =
      let (f', r') = law.close_removes mapping w' (file ∷ handles w) f in
      closed file w (sys.close_handle mapping w') vs f' (r' ∙ r)

  viewed-Made :
      (file mapping size : ℕ) (w w₃ : W) (t : Option ℕ × W)
      → sys.map_view_of_file mapping w₃ ≡ t
      → handles w₃ ≡ mapping ∷ file ∷ handles w
      → views w₃ ≡ views w
      → Made w (viewed_win32 sys file mapping size t)
  viewed-Made file mapping size w w₃ (none, w₄) e f r =
      let (f', r') = law.view_none mapping w₃ w₄ e in
      closed_both file mapping w w₄ (views w) (f' ∙ f) (r' ∙ r)
  viewed-Made file mapping size w w₃ (some view, w₄) e f r =
      let (ne, f', r') = law.view_some mapping view w₃ w₄ e in
      let (f'', r'') =
        closed_both file mapping w w₄ (view ∷ views w) (f' ∙ f) (r' ∙ ap (λ x. view ∷ x) r) in
      (f'', inr (ne, r''))

  mapping-Made :
      (file size : ℕ) (w w₂ : W) (t : Option ℕ × W)
      → sys.create_file_mapping file w₂ ≡ t
      → handles w₂ ≡ file ∷ handles w
      → views w₂ ≡ views w
      → Made w (mapping_win32 sys file size t)
  mapping-Made file size w w₂ (none, w₃) e f r =
      let (f', r') = law.mapping_none file w₂ w₃ e in closed file w w₃ (views w) (f' ∙ f) (r' ∙ r)
  mapping-Made file size w w₂ (some mapping, w₃) e f r =
      let (f', r') = law.mapping_some file mapping w₂ w₃ e in
      viewed-Made file mapping size w w₃ (sys.map_view_of_file mapping w₃) refl
        (f' ∙ ap (λ x. mapping ∷ x) f) (r' ∙ r)

  sized-Made :
      (file : ℕ) (w w₁ : W) (t : Option ℕ × W)
      → sys.get_file_size file w₁ ≡ t
      → handles w₁ ≡ file ∷ handles w
      → views w₁ ≡ views w
      → Made w (sized_win32 sys file t)
  sized-Made file w w₁ (none, w₂) e f r =
      let (f', r') = law.size_keeps file w₁ w₂ none e in
      closed file w w₂ (views w) (f' ∙ f) (r' ∙ r)
  sized-Made file w w₁ (some size, w₂) e f r =
      let (f', r') = law.size_keeps file w₁ w₂ (some size) e in
      elim (Bool-cases (size == 0)) [
        | inl empty ↦
            let (f'', r'') = closed file w w₂ (views w) (f' ∙ f) (r' ∙ r) in
            rw empty (f'', inl (refl, r''))
        | inr not_empty ↦
            rw not_empty
              (mapping-Made file size w w₂ (sys.create_file_mapping file w₂) refl (f' ∙ f) (r' ∙ r))
      ]

  opened-Made :
      (path : P) (w : W) (t : Option ℕ × W)
      → sys.create_file path w ≡ t
      → Made w (opened_win32 sys t)
  opened-Made path w (none, w₁) e = law.create_none path w w₁ e
  opened-Made path w (some file, w₁) e =
      let (f, r) = law.create_some path w w₁ file e in
      sized-Made file w w₁ (sys.get_file_size file w₁) refl f r

  -- With the Win32 calls as documented, the constructor leaves the open handles as they were on
  -- every path; it adds one mapped view, that of the object, if it returns an object that is not
  -- empty, and otherwise none.
  pub make_win32-Made : (path : P) (w : W) → Made w (make_win32 sys path w)
  unfolding make_win32
  make_win32-Made path w = opened-Made path w (sys.create_file path w) refl
