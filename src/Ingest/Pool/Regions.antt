-- ===== src/Ingest/Pool/Regions.antt =====
-- The mapped regions of a pool of readers: each reader's own, and those of the rest of the process.
use trading_engine_hh.Base.{
  ℕ, zero, suc, ◌≡◌, refl, sym, List, [], ◌∷◌, ◌++◌, append_assoc, All, Result,
}
use mathlib.Core.Path.{subst}
use mathlib.Core.List.{Perm}
use mathlib.Core.List.Perm
use trading_engine_hh.MemoryMappedFile.{Memory, bytes_of, MemoryMappedFile, MapError}
use trading_engine_hh.MemoryMappedFile.Ownership.{region, owned, perm_front}
use trading_engine_hh.MemoryMappedFile.Beside.{Mapped, Apart, KeepsBytes}
use trading_engine_hh.Ingest.Pool.{Slot, close_at}

abbrev pub files : {P : Type 0} → List (Slot P) → List MemoryMappedFile
files [] = []
files (s ∷ ss) = s.file ∷ files ss

module _ {P K : Type 0} (key : MemoryMappedFile → K) where
  -- The regions of the pool, and others.
  abbrev pub pooled : List (Slot P) → List K → List K
  pooled ss others = owned key (files ss) ++ others

  -- The first reader's region in front, or behind those of the other readers.
  pub first_in_front :
      {rs : List K} (s : Slot P) (ss : List (Slot P)) (others : List K)
      → Perm rs (pooled (s ∷ ss) others)
      → Perm rs (region key s.file ++ pooled ss others)
  first_in_front {rs} s ss others h =
      subst (Perm rs) (append_assoc (region key s.file) (owned key (files ss)) others) h

  pub front_first :
      {rs : List K} (s : Slot P) (ss : List (Slot P)) (others : List K)
      → Perm rs (region key s.file ++ pooled ss others)
      → Perm rs (pooled (s ∷ ss) others)
  front_first {rs} s ss others h =
      subst (Perm rs) (sym (append_assoc (region key s.file) (owned key (files ss)) others)) h

  pub first_behind :
      {rs : List K} (s : Slot P) (ss : List (Slot P)) (others : List K)
      → Perm rs (pooled (s ∷ ss) others)
      → Perm rs (pooled ss (region key s.file ++ others))
  first_behind s ss others h =
      Perm.trans (first_in_front s ss others h)
        (perm_front key (region key s.file) (owned key (files ss)) others)

  pub back_in_front :
      {rs : List K} (s : Slot P) (ss : List (Slot P)) (others : List K)
      → Perm rs (pooled ss (region key s.file ++ others))
      → Perm rs (pooled (s ∷ ss) others)
  back_in_front s ss others h =
      front_first s ss others
        (Perm.trans h (perm_front key (owned key (files ss)) (region key s.file) others))

module _ {P W K : Type 0} (key : MemoryMappedFile → K) (regions : W → List K)
    (make : P → W → Result MapError MemoryMappedFile × W)
    (release : MemoryMappedFile → W → MemoryMappedFile × W) where
  pub pool-Mapped :
      (ss : List (Slot P)) (others : List K) (w : W)
      → Perm (regions w) (pooled key ss others)
      → All (λ (s : Slot P). Mapped key regions make release s.file w) ss
  pool-Mapped [] others w h = tt
  pool-Mapped (s ∷ ss) others w h = (
    (pooled key ss others, first_in_front key s ss others h),
    pool-Mapped ss (region key s.file ++ others) w (first_behind key s ss others h),
  )

  -- An object outside the pool is apart from each reader's.
  pub pool-Apart :
      (m : MemoryMappedFile) (ss : List (Slot P)) (others : List K) (w : W)
      → Perm (regions w) (region key m ++ pooled key ss others)
      → All (λ (s : Slot P). Apart key regions make release s.file m w) ss
  pool-Apart m [] others w h = tt
  pool-Apart m (s ∷ ss) others w h = (
    (
      pooled key ss others,
      Perm.trans (inside h)
          (perm_front key (region key m) (region key s.file) (pooled key ss others)),
    ),
    pool-Apart m ss (region key s.file ++ others) w (
        Perm.trans h
          (Perm.append_left (region key m) (first_behind key s ss others (Perm.refl _)))),
  )
    where
      inside :
          Perm (regions w) (region key m ++ pooled key (s ∷ ss) others)
          → Perm (regions w) (region key m ++ (region key s.file ++ pooled key ss others))
      inside h =
          Perm.trans h
            (Perm.append_left (region key m) (first_in_front key s ss others (Perm.refl _)))

  -- Closing a reader of the pool leaves the bytes of an object that is apart from all of them.
  pub close_at-bytes_of :
      (memory : Memory W) (keeps : KeepsBytes key regions make release memory) (i : ℕ)
      (ss : List (Slot P)) (others : List K) (w : W) (m : MemoryMappedFile)
      → Perm (regions w) (region key m ++ pooled key ss others)
      → bytes_of memory m (close_at release i ss w).1 ≡ bytes_of memory m w
  close_at-bytes_of memory keeps i [] others w m h = refl
  close_at-bytes_of memory keeps zero (s ∷ ss) others w m h = keeps.release_keeps m s.file w (
    pooled key ss others,
    Perm.trans h (Perm.append_left (region key m) (first_in_front key s ss others (Perm.refl _))),
  )
  close_at-bytes_of memory keeps (suc i) (s ∷ ss) others w m h =
      close_at-bytes_of memory keeps i ss (region key s.file ++ others) w m (
        Perm.trans h (Perm.append_left (region key m) (first_behind key s ss others (Perm.refl _))))

-- The bytes of every reader of the pool stay while other objects are made and released.
module _ {P W K : Type 0} (key : MemoryMappedFile → K) (regions : W → List K)
    (make : P → W → Result MapError MemoryMappedFile × W)
    (release : MemoryMappedFile → W → MemoryMappedFile × W) (memory : Memory W)
    (keeps : KeepsBytes key regions make release memory) where
  pub pool_made :
      (path : P) (w w' : W) (x : Result MapError MemoryMappedFile) (ss : List (Slot P))
      → make path w ≡ (x, w')
      → All (λ (s : Slot P). Mapped key regions make release s.file w) ss
      → All (λ (s : Slot P). bytes_of memory s.file w' ≡ bytes_of memory s.file w) ss
  pool_made path w w' x [] e h = tt
  pool_made path w w' x (s ∷ ss) e (h, hs) =
      (rw e at (keeps.make_keeps s.file path w h), pool_made path w w' x ss e hs)

  pub pool_released :
      (m : MemoryMappedFile) (w : W) (ss : List (Slot P))
      → All (λ (s : Slot P). Apart key regions make release s.file m w) ss
      → All (λ (s : Slot P). bytes_of memory s.file (release m w).1 ≡ bytes_of memory s.file w) ss
  pool_released m w [] h = tt
  pool_released m w (s ∷ ss) (h, hs) = (keeps.release_keeps s.file m w h, pool_released m w ss hs)
