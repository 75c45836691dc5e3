-- ===== src/MemoryMappedFile/Beside.antt =====
-- memory_mapped_file.hpp, `bytes()`: a view stays what it is while other objects are made and
-- destroyed.
use trading_engine_hh.Base.{◌≡◌, refl, sym, ◌∙◌, List, ◌++◌, Result, ok, err}
use mathlib.Core.Path.{subst}
use mathlib.Core.List.{Perm}
use mathlib.Core.List.Perm
use trading_engine_hh.MemoryMappedFile.{Memory, bytes_of, MemoryMappedFile, MapError}
use trading_engine_hh.MemoryMappedFile.Ownership.{region, Manages, perm_front}

module _ {P W K : Type 0} (key : MemoryMappedFile → K) (regions : W → List K)
    (make : P → W → Result MapError MemoryMappedFile × W)
    (release : MemoryMappedFile → W → MemoryMappedFile × W) where
  -- The region of the object is mapped, once more often than the others name it.
  abbrev pub Mapped : MemoryMappedFile → W → Type 0
  Mapped m w = (others : List K) × Perm (regions w) (region key m ++ others)

  -- Both objects own a region, and each its own.
  abbrev pub Apart : MemoryMappedFile → MemoryMappedFile → W → Type 0
  Apart m other w =
      (others : List K) × Perm (regions w) (region key m ++ (region key other ++ others))

  -- What happens to the system while the object `m` is left alone.
  pub data Beside (m : MemoryMappedFile) (v : W) : W → Type 0 where
    nothing : Beside m v v
    made : {w : W} (path : P) → Beside m v w → Beside m v (make path w).1
    released :
        {w : W} (other : MemoryMappedFile)
        → Apart m other w
        → Beside m v w
        → Beside m v (release other w).1

  -- One call that leaves the object alone does not change the bytes of its view.
  pub record KeepsBytes (memory : Memory W) : Type 0 where
    pub make_keeps :
        (m : MemoryMappedFile) (path : P) (w : W)
        → Mapped m w
        → bytes_of memory m (make path w).1 ≡ bytes_of memory m w
    pub release_keeps :
        (m other : MemoryMappedFile) (w : W)
        → Apart m other w
        → bytes_of memory m (release other w).1 ≡ bytes_of memory m w

  module _ (law : Manages key regions make release) where
    made-Mapped :
        (m : MemoryMappedFile) (path : P) (w : W) (t : Result MapError MemoryMappedFile × W)
        → make path w ≡ t
        → Mapped m w
        → Mapped m t.1
    made-Mapped m path w (err x, w') e (others, h) =
        (others, subst (λ t. Perm t (region key m ++ others)) (sym (law.throws path w w' x e)) h)
    made-Mapped m path w (ok fresh, w') e (others, h) = (
      region key fresh ++ others,
      subst (λ t. Perm t (region key m ++ (region key fresh ++ others)))
          (sym (law.makes path w w' fresh e))
          (Perm.trans (Perm.append_left (region key fresh) h)
            (perm_front key (region key fresh) (region key m) others)),
    )

    pub Beside-Mapped : {m : MemoryMappedFile} {v w : W} → Mapped m v → Beside m v w → Mapped m w
    Beside-Mapped h nothing = h
    Beside-Mapped {m} h (made {w} path b) =
        made-Mapped m path w (make path w) refl (Beside-Mapped h b)
    Beside-Mapped {m} h (released {w} other (others, apart) b) = (
      others,
      law.frees other w (region key m ++ others)
          (Perm.trans apart (perm_front key (region key m) (region key other) others)),
    )

    pub Beside-bytes_of :
        (memory : Memory W) (keeps : KeepsBytes memory) {m : MemoryMappedFile} {v w : W}
        → Mapped m v
        → Beside m v w
        → bytes_of memory m w ≡ bytes_of memory m v
    Beside-bytes_of memory keeps h nothing = refl
    Beside-bytes_of memory keeps {m} h (made {w} path b) =
        keeps.make_keeps m path w (Beside-Mapped h b) ∙ Beside-bytes_of memory keeps h b
    Beside-bytes_of memory keeps {m} h (released {w} other apart b) =
        keeps.release_keeps m other w apart ∙ Beside-bytes_of memory keeps h b
