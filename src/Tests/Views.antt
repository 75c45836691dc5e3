-- ===== src/Tests/Views.antt =====
-- A program with several mapped readers over a small system with the Win32 calls.
use trading_engine_hh.Base.{
  ℕ, zero, suc, ◌≡◌, refl, sym, ap, ◌∙◌, List, [], ◌∷◌, length, take, length-take, min, Option,
  none, some, arith,
}
use mathlib.Core.Path.{subst}
use mathlib.Core.List.{Perm, Mem, mem-cons_self, dec_mem}
use mathlib.Core.List.Perm
use native.Mathlib.Decide.{ℕ_discrete}
use trading_engine_hh.MemoryMappedFile.{Memory, Win32Calls, make_win32, release_win32}
use trading_engine_hh.MemoryMappedFile.Files.{FilesWin32}
use trading_engine_hh.MemoryMappedFile.Platforms.{win32_region}
use trading_engine_hh.MemoryMappedFile.Windows.{IsWin32}
use trading_engine_hh.MemoryMappedFile.Win32Bytes.{KeepsWin32}
use trading_engine_hh.Ingest.Pool.Platforms.{Leaves, win32_program-Leaves}
use trading_engine_hh.Tests.Data.{file}
use trading_engine_hh.Tests.Paths.{at_path}
use trading_engine_hh.Tests.Mapping.{System, win32, fds, regions, win32-IsWin32}
use trading_engine_hh.Tests.Between.{shown, shown_there, shown_nothing}
use trading_engine_hh.Tests.Programs.{commands, front_of, short_files}

-- The bytes of the small file in each view, and none elsewhere.
abbrev viewed_bytes : Memory (System ℕ)
viewed_bytes w zero n = []
viewed_bytes w (suc a) n = shown (dec_mem ℕ_discrete (suc a) (regions w)) n

-- The file at a path is the front of the small file, and has its size.
abbrev sized : Win32Calls (Option ℕ) (System ℕ)
sized = record win32 { get_file_size = λ handle w. (some (min handle (length file)), w) }

sized-IsWin32 : IsWin32 sized fds regions
sized-IsWin32 = record {
  create_some = win32-IsWin32.create_some;
  create_none = win32-IsWin32.create_none;
  size_keeps = λ handle (hs, vs) (hs', vs') r e. (cc e, cc e);
  mapping_some = win32-IsWin32.mapping_some;
  mapping_none = win32-IsWin32.mapping_none;
  view_some = win32-IsWin32.view_some;
  view_none = win32-IsWin32.view_none;
  close_removes = win32-IsWin32.close_removes;
  unmap_removes = win32-IsWin32.unmap_removes;
  unmap_keeps = win32-IsWin32.unmap_keeps;
}

agree :
    (a n : ℕ) (v w : System ℕ) (us vs : List ℕ)
    → Perm (regions v) (a ∷ us)
    → Perm (regions w) (a ∷ vs)
    → viewed_bytes v a n ≡ viewed_bytes w a n
agree zero n v w us vs h h' = refl
agree (suc a) n v w us vs h h' =
    shown_there _ n ((Perm.mem_iff h).1 mem-cons_self)
    ∙ sym (shown_there _ n ((Perm.mem_iff h').1 mem-cons_self))

same_views :
    (a n : ℕ) (v w : System ℕ) (others : List ℕ)
    → regions w ≡ regions v
    → Perm (regions v) (a ∷ others)
    → viewed_bytes w a n ≡ viewed_bytes v a n
same_views a n v w others e h =
    agree a n w v others others (subst (λ t. Perm t (a ∷ others)) (sym e) h) h

opening_views : (path : Option ℕ) (w : System ℕ) → regions (sized.create_file path w).1 ≡ regions w
opening_views none w = refl
opening_views (some n) (fs, vs) = refl

closing_views : (h : ℕ) (w : System ℕ) → regions (sized.close_handle h w) ≡ regions w
closing_views h ([], vs) = refl
closing_views h (f ∷ fs, vs) = refl

sized-KeepsWin32 : KeepsWin32 sized regions viewed_bytes
sized-KeepsWin32 = record {
  create_keeps = λ a n others path w h.
      same_views a n w (sized.create_file path w).1 others (opening_views path w) h;
  size_keeps = λ a n others handle w h. refl;
  mapping_keeps =
      λ a n others handle (hs, vs) h. same_views a n (hs, vs) (77 ∷ hs, vs) others refl h;
  view_keeps = λ a n others mapping (hs, vs) h.
      agree a n (hs, suc (length vs) ∷ vs) (hs, vs) (suc (length vs) ∷ others) others
        (Perm.trans (Perm.cons (suc (length vs)) h) (Perm.swap a (suc (length vs)) others)) h;
  close_keeps = λ a n others handle w h.
      same_views a n w (sized.close_handle handle w) others (closing_views handle w) h;
  close_keeps_views = closing_views;
  unmap_keeps = λ a n b others w h.
      agree a n (sized.unmap_view_of_file b w) w others (b ∷ others)
        (win32-IsWin32.unmap_removes b w (a ∷ others) (Perm.trans h (Perm.swap b a others))) h;
  null_empty = λ w n. refl;
}

sized-FilesWin32 : FilesWin32 sized viewed_bytes at_path
sized-FilesWin32 = record { sizes = sizes; shows = shows; nothing = nothing_at }
  where
    sizes :
        (path : Option ℕ) (w w₁ w₂ : System ℕ) (handle n : ℕ)
        → sized.create_file path w ≡ (some handle, w₁)
        → sized.get_file_size handle w₁ ≡ (some n, w₂)
        → n ≡ length (at_path path)
    sizes none w w₁ w₂ handle n o s = cc
    sizes (some k) (gs, vs) w₁ w₂ handle n o s =
        let same_handle : k ≡ handle = cc o in
        let size : min handle (length file) ≡ n = cc s in
        omega (arith, same_handle, size, length-take k file)

    shows :
        (path : Option ℕ) (w w₁ w₂ w₃ w₄ : System ℕ) (handle n mapping view : ℕ)
        → sized.create_file path w ≡ (some handle, w₁)
        → sized.get_file_size handle w₁ ≡ (some n, w₂)
        → sized.create_file_mapping handle w₂ ≡ (some mapping, w₃)
        → sized.map_view_of_file mapping w₃ ≡ (some view, w₄)
        → viewed_bytes (sized.close_handle handle (sized.close_handle mapping w₄)) view n
          ≡ at_path path
    shows none w w₁ w₂ w₃ w₄ handle n mapping view o s c e = cc
    shows (some k) (gs, vs) w₁ w₂ (gs₃, vs₃) (gs₄, vs₄) handle n mapping view o s c e =
        let same_handle : k ≡ handle = cc o in
        let size : min handle (length file) ≡ n = cc s in
        let address : suc (length vs₃) ≡ view = cc e in
        let added : suc (length vs₃) ∷ vs₃ ≡ vs₄ = cc e in
        let closed : System ℕ = sized.close_handle mapping (gs₄, vs₄) in
        rw (sym address) (
          shown_there _ n (
            subst (λ rs. Mem (suc (length vs₃)) rs)
              (added ∙ sym (closing_views handle closed ∙ closing_views mapping (gs₄, vs₄)))
              mem-cons_self)
          ∙ ap (λ j. take j file) (sym size)
          ∙ ap (λ j. take (min j (length file)) file) (sym same_handle)
          ∙ front_of k)

    nothing_at : (v : System ℕ) (a : ℕ) → viewed_bytes v a 0 ≡ []
    nothing_at v zero = refl
    nothing_at v (suc a) = shown_nothing _

win32_program_example :
    Leaves win32_region regions
      (make_win32 sized)
      (release_win32 sized)
      fds
      viewed_bytes
      at_path
      500
      commands
      (3 ∷ [], 1 ∷ [])
win32_program_example =
    win32_program-Leaves sized fds regions sized-IsWin32 viewed_bytes sized-KeepsWin32 at_path
      sized-FilesWin32 500 short_files commands (3 ∷ [], 1 ∷ [])
