-- ===== src/MemoryMappedFile/Win32Bytes.antt =====
-- memory_mapped_file.cpp on Windows: no call of the constructor or of `release_` changes the bytes of
-- another view.
use trading_engine_hh.Base.{
  ℕ, ◌≡◌, refl, sym, ◌∙◌, true, inl, inr, List, ◌∷◌, [], ◌==◌, Bool-cases, Option, none, some,
  ==_iff,
}
use mathlib.Core.Path.{subst}
use mathlib.Core.List.{Perm}
use mathlib.Core.List.Perm
use trading_engine_hh.MemoryMappedFile.{
  Memory, bytes_of, MemoryMappedFile, Win32Calls, make_win32, release_win32, opened_win32,
  sized_win32, mapping_win32, viewed_win32, close_both,
}
use trading_engine_hh.MemoryMappedFile.Windows.{IsWin32}
use trading_engine_hh.MemoryMappedFile.Platforms.{win32_region}
use trading_engine_hh.MemoryMappedFile.Beside.{KeepsBytes}

-- What the documentation says of the bytes of a view: only its own `UnmapViewOfFile` ends it, and
-- closing a handle ends no view. Nothing is at the null address.
pub record KeepsWin32 {P W : Type 0} (sys : Win32Calls P W) (views : W → List ℕ) (memory : Memory W)
    : Type 0 where
  pub create_keeps :
      (a n : ℕ) (others : List ℕ) (path : P) (w : W)
      → Perm (views w) (a ∷ others)
      → memory (sys.create_file path w).1 a n ≡ memory w a n
  pub size_keeps :
      (a n : ℕ) (others : List ℕ) (file : ℕ) (w : W)
      → Perm (views w) (a ∷ others)
      → memory (sys.get_file_size file w).1 a n ≡ memory w a n
  pub mapping_keeps :
      (a n : ℕ) (others : List ℕ) (file : ℕ) (w : W)
      → Perm (views w) (a ∷ others)
      → memory (sys.create_file_mapping file w).1 a n ≡ memory w a n
  pub view_keeps :
      (a n : ℕ) (others : List ℕ) (mapping : ℕ) (w : W)
      → Perm (views w) (a ∷ others)
      → memory (sys.map_view_of_file mapping w).1 a n ≡ memory w a n
  pub close_keeps :
      (a n : ℕ) (others : List ℕ) (h : ℕ) (w : W)
      → Perm (views w) (a ∷ others)
      → memory (sys.close_handle h w) a n ≡ memory w a n
  pub close_keeps_views : (h : ℕ) (w : W) → views (sys.close_handle h w) ≡ views w
  pub unmap_keeps :
      (a n b : ℕ) (others : List ℕ) (w : W)
      → Perm (views w) (a ∷ b ∷ others)
      → memory (sys.unmap_view_of_file b w) a n ≡ memory w a n
  pub null_empty : (w : W) (n : ℕ) → memory w 0 n ≡ []

module _ {P W : Type 0} (sys : Win32Calls P W) (handles : W → List ℕ) (views : W → List ℕ)
    (law : IsWin32 sys handles views) (memory : Memory W) (keeps : KeepsWin32 sys views memory)
    (a n : ℕ) where
  abbrev StillThere : W → Type 0
  StillThere w = (others : List ℕ) × Perm (views w) (a ∷ others)

  still : {v w : W} → views w ≡ views v → StillThere v → StillThere w
  still e (others, h) = (others, subst (λ t. Perm t (a ∷ others)) (sym e) h)

  closed_same : (h : ℕ) (w : W) → StillThere w → memory (sys.close_handle h w) a n ≡ memory w a n
  closed_same h w (others, there) = keeps.close_keeps a n others h w there

  both_closed_same :
      (mapping file : ℕ) (w : W)
      → StillThere w
      → memory (close_both sys mapping file w) a n ≡ memory w a n
  both_closed_same mapping file w there =
      closed_same file (sys.close_handle mapping w)
        (still (keeps.close_keeps_views mapping w) there)
      ∙ closed_same mapping w there

  viewed_same :
      (file mapping size : ℕ) (w : W) (t : Option ℕ × W)
      → sys.map_view_of_file mapping w ≡ t
      → StillThere w
      → memory (viewed_win32 sys file mapping size t).1 a n ≡ memory w a n
  viewed_same file mapping size w (none, v) e (others, h) =
      both_closed_same mapping file v (still (law.view_none mapping w v e).1 (others, h))
      ∙ rw e at (keeps.view_keeps a n others mapping w h)
  viewed_same file mapping size w (some addr, v) e (others, h) =
      both_closed_same mapping file v (
        addr ∷ others,
        subst (λ t. Perm t (a ∷ addr ∷ others)) (sym (law.view_some mapping addr w v e).2)
            (Perm.trans (Perm.cons addr h) (Perm.swap a addr others)),
      )
      ∙ rw e at (keeps.view_keeps a n others mapping w h)

  mapping_same :
      (file size : ℕ) (w : W) (t : Option ℕ × W)
      → sys.create_file_mapping file w ≡ t
      → StillThere w
      → memory (mapping_win32 sys file size t).1 a n ≡ memory w a n
  mapping_same file size w (none, v) e (others, h) =
      closed_same file v (still (law.mapping_none file w v e).1 (others, h))
      ∙ rw e at (keeps.mapping_keeps a n others file w h)
  mapping_same file size w (some mapping, v) e (others, h) =
      viewed_same file mapping size v (sys.map_view_of_file mapping v) refl
        (still (law.mapping_some file mapping w v e).1 (others, h))
      ∙ rw e at (keeps.mapping_keeps a n others file w h)

  sized_same :
      (file : ℕ) (w : W) (t : Option ℕ × W)
      → sys.get_file_size file w ≡ t
      → StillThere w
      → memory (sized_win32 sys file t).1 a n ≡ memory w a n
  sized_same file w (none, v) e (others, h) =
      closed_same file v (still (law.size_keeps file w v none e).1 (others, h))
      ∙ rw e at (keeps.size_keeps a n others file w h)
  sized_same file w (some size, v) e (others, h) =
      (elim (Bool-cases (size == 0)) [
        | inl empty ↦ rw empty (closed_same file v there)
        | inr bytes ↦
            rw bytes (mapping_same file size v (sys.create_file_mapping file v) refl there)
      ])
      ∙ rw e at (keeps.size_keeps a n others file w h)
    where
      there : StillThere v
      there = still (law.size_keeps file w v (some size) e).1 (others, h)

  opened_same :
      (path : P) (w : W) (t : Option ℕ × W)
      → sys.create_file path w ≡ t
      → StillThere w
      → memory (opened_win32 sys t).1 a n ≡ memory w a n
  opened_same path w (none, v) e (others, h) = rw e at (keeps.create_keeps a n others path w h)
  opened_same path w (some file, v) e (others, h) =
      sized_same file v (sys.get_file_size file v) refl
        (still (law.create_some path w v file e).1 (others, h))
      ∙ rw e at (keeps.create_keeps a n others path w h)

module _ {P W : Type 0} (sys : Win32Calls P W) (handles : W → List ℕ) (views : W → List ℕ)
    (law : IsWin32 sys handles views) (memory : Memory W)
    (keeps : KeepsWin32 sys views memory) where
  empty_at_null :
      (m : MemoryMappedFile) (v w : W)
      → m.data_at == 0 ≡ true
      → bytes_of memory m v ≡ bytes_of memory m w
  empty_at_null m v w null =
      rw ((==_iff m.data_at 0).0 null) (keeps.null_empty v m.size ∙ sym (keeps.null_empty w m.size))

  pub win32-KeepsBytes : KeepsBytes win32_region views (make_win32 sys) (release_win32 sys) memory
  unfolding make_win32 release_win32
  win32-KeepsBytes = record {
    make_keeps = λ m path w h. elim (Bool-cases (m.data_at == 0)) [
      | inl null ↦ empty_at_null m _ w null
      | inr there ↦
          opened_same sys handles views law memory keeps m.data_at m.size path w
            (sys.create_file path w) refl (rw there at h)
    ];
    release_keeps = λ m other w (others, h). elim (Bool-cases (other.data_at == 0)) [
      | inl idle ↦ rw idle refl
      | inr mapped ↦ elim (Bool-cases (m.data_at == 0)) [
        | inl null ↦ empty_at_null m _ w null
        | inr there ↦
            rw mapped
              (keeps.unmap_keeps m.data_at m.size other.data_at others w (rw (there, mapped) at h))
      ]
    ];
  }
