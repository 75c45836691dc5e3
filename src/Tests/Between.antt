-- ===== src/Tests/Between.antt =====
-- A run over a mapped file in a program that maps and unmaps another file between the calls.
use trading_engine_hh.Base.{
  false, ℕ, zero, suc, ◌≡◌, refl, sym, ap, ◌∙◌, List, [], ◌∷◌, ◌++◌, length, take, Option, none,
  some, Result, ok, err, done, arith,
}
use mathlib.Core.Path.{subst}
use mathlib.Core.List.{Perm, Mem, mem-cons_self, dec_mem}
use mathlib.Core.List.Perm
use mathlib.Core.HLevel.{×_discrete}
use native.Mathlib.Decide.{ℕ_discrete}
use trading_engine_hh.Dbn.{bytes_of_wire}
use trading_engine_hh.Stream.{Yield}
use trading_engine_hh.MemoryMappedFile.{
  Memory, bytes_of, MemoryMappedFile, MapError, make_posix, release_posix,
}
use trading_engine_hh.MemoryMappedFile.Ownership.{perm_front, region}
use trading_engine_hh.MemoryMappedFile.Platforms.{posix_region}
use trading_engine_hh.MemoryMappedFile.PosixBytes.{KeepsPosix}
use trading_engine_hh.MemoryMappedFile.Beside.{Mapped, Beside, nothing, made, released}
use trading_engine_hh.MemoryMappedFile.Stores.{StoresPosix}
use trading_engine_hh.MmapDbnReader
use trading_engine_hh.MmapDbnReader.{MmapDbnReader}
use trading_engine_hh.MmapDbnReader.Owned.{open_path, validated}
use trading_engine_hh.MmapDbnReader.Interleaved.{collect_between}
use trading_engine_hh.Ingest.{ingest_mmap}
use trading_engine_hh.Ingest.BetweenCalls.{posix_between_calls}
use trading_engine_hh.Route.{zero_stats}
use trading_engine_hh.Tests.Data.{file}
use trading_engine_hh.Tests.Paths.{here, all_there}
use trading_engine_hh.Tests.Mapping.{System, posix, fds, regions, posix-IsPosix, before, manages}

-- The bytes of the small file in each region that is mapped, and none elsewhere.
abbrev pub shown : {K : Type 0} {x : K} {rs : List K} → Dec (Mem x rs) → ℕ → List ℕ
shown (yes there) n = take n file
shown (no gone) n = []

abbrev pub mapped_bytes : Memory (System (ℕ × ℕ))
mapped_bytes w zero n = []
mapped_bytes w (suc a) n =
    shown (dec_mem (×_discrete ℕ_discrete ℕ_discrete) (suc a, n) (regions w)) n

pub shown_there :
    {K : Type 0} {x : K} {rs : List K} (d : Dec (Mem x rs)) (n : ℕ)
    → Mem x rs
    → shown d n ≡ take n file
shown_there (yes there) n h = refl
shown_there (no gone) n h = absurd (gone h)

pub shown_nothing : {K : Type 0} {x : K} {rs : List K} (d : Dec (Mem x rs)) → shown d 0 ≡ []
shown_nothing (yes there) = refl
shown_nothing (no gone) = refl

-- Two systems in which a region is mapped agree on its bytes.
agree :
    (a n : ℕ) (v w : System (ℕ × ℕ)) (us vs : List (ℕ × ℕ))
    → Perm (regions v) ((a, n) ∷ us)
    → Perm (regions w) ((a, n) ∷ vs)
    → mapped_bytes v a n ≡ mapped_bytes w a n
agree zero n v w us vs h h' = refl
agree (suc a) n v w us vs h h' =
    shown_there _ n ((Perm.mem_iff h).1 mem-cons_self)
    ∙ sym (shown_there _ n ((Perm.mem_iff h').1 mem-cons_self))

-- The same regions are mapped, or one more.
abbrev Keeps : System (ℕ × ℕ) → System (ℕ × ℕ) → Type 0
Keeps v w =
    (a n : ℕ) (others : List (ℕ × ℕ))
    → Perm (regions v) ((a, n) ∷ others)
    → mapped_bytes w a n ≡ mapped_bytes v a n

same-Keeps : (v w : System (ℕ × ℕ)) → regions w ≡ regions v → Keeps v w
same-Keeps v w e a n others h =
    agree a n w v others others (subst (λ t. Perm t ((a, n) ∷ others)) (sym e) h) h

more-Keeps : (v w : System (ℕ × ℕ)) (x : ℕ × ℕ) → regions w ≡ x ∷ regions v → Keeps v w
more-Keeps v w x e a n others h =
    agree a n w v (x ∷ others) others
      (subst (λ t. Perm t ((a, n) ∷ x ∷ others)) (sym e)
        (Perm.trans (Perm.cons x h) (Perm.swap (a, n) x others)))
      h

opening-Keeps : (path : Option ℕ) (w : System (ℕ × ℕ)) → Keeps w (posix.open_rdonly path w).1
opening-Keeps none w = same-Keeps w w refl
opening-Keeps (some n) (fs, rs) = same-Keeps (fs, rs) (n ∷ fs, rs) refl

closing-Keeps : (fd : ℕ) (w : System (ℕ × ℕ)) → Keeps w (posix.close fd w)
closing-Keeps fd ([], rs) = same-Keeps ([], rs) ([], rs) refl
closing-Keeps fd (f ∷ fs, rs) = same-Keeps (f ∷ fs, rs) (fs, rs) refl

pub posix-KeepsPosix : KeepsPosix posix regions mapped_bytes
posix-KeepsPosix = record {
  open_keeps = λ a n others path w h. opening-Keeps path w a n others h;
  fstat_keeps = λ a n others fd w h. refl;
  mmap_keeps = λ a n others fd size w h.
      more-Keeps w (posix.mmap fd size w).1 (suc (length (regions w)), size) refl a n others h;
  close_keeps = λ a n others fd w h. closing-Keeps fd w a n others h;
  munmap_keeps = λ a n b k others w h.
      agree a n (posix.munmap b k w) w others ((b, k) ∷ others)
        (posix-IsPosix.munmap_removes b k w ((a, n) ∷ others)
          (Perm.trans h (Perm.swap (b, k) (a, n) others)))
        h;
  null_empty = λ w n. refl;
}

mapped-Stores : StoresPosix posix mapped_bytes here before file
mapped-Stores = record {
  fd = length file;
  opened = (length file ∷ 3 ∷ [], before.1);
  sized = (length file ∷ 3 ∷ [], before.1);
  addr = 3;
  mapped = (length file ∷ 3 ∷ [], (3, length file) ∷ before.1);
  opens = refl;
  has_size = refl;
  maps = λ some_bytes. refl;
  views = λ some_bytes. shown_there _ (length file) mem-cons_self ∙ all_there;
  nothing = nothing_at;
}
  where
    nothing_at : (v : System (ℕ × ℕ)) (a : ℕ) → mapped_bytes v a 0 ≡ []
    nothing_at v zero = refl
    nothing_at v (suc a) = shown_nothing _

-- Another file is mapped, and unmapped at once.
abbrev passed : Result MapError MemoryMappedFile × System (ℕ × ℕ) → System (ℕ × ℕ)
passed (ok fresh, w) = (release_posix posix fresh w).1
passed (err x, w) = w

passed-Beside :
    (m : MemoryMappedFile) (v : System (ℕ × ℕ))
    (t : Result MapError MemoryMappedFile × System (ℕ × ℕ))
    → make_posix posix (some 4) v ≡ t
    → Mapped posix_region regions (make_posix posix) (release_posix posix) m v
    → Beside posix_region regions (make_posix posix) (release_posix posix) m v (passed t)
passed-Beside m v (ok fresh, w) e (others, h) =
    released fresh
      (
        others,
        subst (λ t. Perm t (region posix_region m ++ (region posix_region fresh ++ others)))
            (sym (manages.makes (some 4) v w fresh e))
            (Perm.trans (Perm.append_left (region posix_region fresh) h)
              (perm_front posix_region (region posix_region fresh) (region posix_region m) others)),
      )
      (subst
        (λ (t : Result MapError MemoryMappedFile × System (ℕ × ℕ)).
          Beside posix_region regions (make_posix posix) (release_posix posix) m v t.1)
        e (made (some 4) nothing))
passed-Beside m v (err x, w) e h =
    subst
      (λ (t : Result MapError MemoryMappedFile × System (ℕ × ℕ)).
        Beside posix_region regions (make_posix posix) (release_posix posix) m v t.1)
      e (made (some 4) nothing)

abbrev between : ℕ → System (ℕ × ℕ) → System (ℕ × ℕ)
between n v = passed (make_posix posix (some 4) v)

abbrev view : MemoryMappedFile
view = record { data_at = 3; size = length file }

abbrev reader : MmapDbnReader
reader = record { map = file; cursor = 12; version = 1; failed = false; stats = zero_stats }

abbrev system : System (ℕ × ℕ)
system = (3 ∷ [], (3, length file) ∷ before.1)

views_file : bytes_of mapped_bytes view system ≡ file
unfolding bytes_of_wire
views_file = shown_there _ (length file) mem-cons_self ∙ all_there

opens_here :
    open_path (make_posix posix) (release_posix posix) mapped_bytes here before
    ≡ (ok (view, reader), system)
unfolding open_path make_posix MmapDbnReader.open_reader MmapDbnReader.skip_prologue bytes_of_wire
opens_here =
    ap
      (λ f.
        validated (make_posix posix) (release_posix posix) mapped_bytes view system
          (MmapDbnReader.open_reader f))
      views_file

between_example :
    (y : Yield) × (ingest_mmap 500 file ≡ done (ok y))
    × (collect_between mapped_bytes view between 500 500 0 reader system ≡ done y)
unfolding bytes_of_wire
between_example =
    posix_between_calls posix fds regions posix-IsPosix mapped_bytes posix-KeepsPosix 500 here
      before system file view reader between mapped-Stores opens_here
      (λ n v h. passed-Beside view v (make_posix posix (some 4) v) refl h) (omega arith)
