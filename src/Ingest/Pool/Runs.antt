-- ===== src/Ingest/Pool/Runs.antt =====
-- Whole programs with several mapped readers, on any platform that keeps the ownership note of
-- memory_mapped_file.hpp.
use trading_engine_hh.Base.{
  ℕ, ◌≡◌, ◌<◌, refl, sym, ◌∙◌, inr, List, [], ◌∷◌, ◌++◌, All, length, Result, ok, err, done,
}
use mathlib.Core.Path.{subst}
use mathlib.Core.List.{Perm}
use mathlib.Core.List.Perm
use trading_engine_hh.Prologue.{DbnError}
use trading_engine_hh.MemoryMappedFile.{Memory, MemoryMappedFile, MapError}
use trading_engine_hh.MemoryMappedFile.Ownership.{region, owned, Manages, KeepsTable}
use trading_engine_hh.MemoryMappedFile.Files.{Shows}
use trading_engine_hh.MemoryMappedFile.Beside.{KeepsBytes}
use trading_engine_hh.MmapDbnReader
use trading_engine_hh.MmapDbnReader.{MmapDbnReader}
use trading_engine_hh.MmapDbnReader.Owned.{validated, over_file, open_path}
use trading_engine_hh.Ingest.Pool.{
  Slot, Command, opening, calling, closing, moving, assigning, Pool, fresh, enrol, perform,
  run_program,
}
use trading_engine_hh.Ingest.Pool.Owing.{Stands}
use trading_engine_hh.Ingest.Pool.Regions.{
  pooled, front_first, pool-Mapped, pool-Apart, pool_made, pool_released,
}
use trading_engine_hh.Ingest.Pool.Moves.{move_at-Holds, assign_at-Holds}
use trading_engine_hh.Ingest.Pool.Steps.{
  Holds, pool_moved, close_at-Holds, call_at-Stands, fresh-Serves,
}

module _ {P W K X : Type 0} (key : MemoryMappedFile → K) (regions : W → List K)
    (make : P → W → Result MapError MemoryMappedFile × W)
    (release : MemoryMappedFile → W → MemoryMappedFile × W) (law : Manages key regions make release)
    (table : W → X) (still : KeepsTable table make release) (memory : Memory W)
    (keeps : KeepsBytes key regions make release memory) (contents : P → List ℕ)
    (shows : Shows make memory contents) (fuel : ℕ)
    (enough : (path : P) → length (contents path) < fuel) (others : List K) (t : X) where
  abbrev IsSound : Pool P W → Type 0
  IsSound =
      Holds key regions make release law table still memory keeps contents shows fuel enough others
        t

  module _ (path : P) (ss : List (Slot P)) (w : W) (h : IsSound (ss, w)) where
    -- The other readers, once the constructor of the file has returned or thrown.
    made-Stands :
        (w' : W) (y : Result MapError MemoryMappedFile)
        → make path w ≡ (y, w')
        → All (Stands memory contents fuel w') ss
    made-Stands w' y e =
        pool_moved memory contents fuel w w' ss
          (pool_made key regions make release memory keeps path w w' y ss e
            (pool-Mapped key regions make release ss others w h.mapped))
          h.serves

    made-Perm :
        (m : MemoryMappedFile) (w' : W)
        → make path w ≡ (ok m, w')
        → Perm (regions w') (region key m ++ pooled key ss others)
    made-Perm m w' e =
        subst (λ rs. Perm rs (region key m ++ pooled key ss others)) (sym (law.makes path w w' m e))
          (Perm.append_left (region key m) h.mapped)

    -- The file is mapped; the constructor of the reader returns or throws.
    validated-IsSound :
        (m : MemoryMappedFile) (w' : W) (x : Result DbnError MmapDbnReader)
        → make path w ≡ (ok m, w')
        → MmapDbnReader.open_reader (contents path) ≡ x
        → IsSound (enrol path ss (validated make release memory m w' x))
    validated-IsSound m w' (ok r) e opened = record {
      mapped = front_first key (fresh path m r) ss others (made-Perm m w' e);
      same_table = rw e at (still.makes path w) ∙ h.same_table;
      serves = (
        inr (
          refl,
          fresh-Serves memory contents fuel path m r w' (shows path w w' m e) (enough path) opened,
        ),
        made-Stands w' (ok m) e,
      );
    }
    validated-IsSound m w' (err x) e opened = record {
      mapped = law.frees m w' (pooled key ss others) (made-Perm m w' e);
      same_table = still.releases m w' ∙ rw e at (still.makes path w) ∙ h.same_table;
      serves =
          pool_moved memory contents fuel w' (release m w').1 ss
            (pool_released key regions make release memory keeps m w' ss
              (pool-Apart key regions make release m ss others w' (made-Perm m w' e)))
            (made-Stands w' (ok m) e);
    }

    made-IsSound :
        (y : Result MapError MemoryMappedFile × W)
        → make path w ≡ y
        → IsSound (enrol path ss (over_file make release memory y))
    made-IsSound (err x, w') e = record {
      mapped =
          subst (λ rs. Perm rs (pooled key ss others)) (sym (law.throws path w w' x e)) h.mapped;
      same_table = rw e at (still.makes path w) ∙ h.same_table;
      serves = made-Stands w' (err x) e;
    }
    made-IsSound (ok m, w') e =
        rw (shows path w w' m e)
          (validated-IsSound m w' (MmapDbnReader.open_reader (contents path)) e refl)

  perform-IsSound :
      (c : Command P) (p : Pool P W)
      → IsSound p
      → (q : Pool P W) × (perform make release memory fuel c p ≡ done q) × IsSound q
  unfolding open_path
  perform-IsSound (opening path) (ss, w) h = (_, refl, made-IsSound path ss w h (make path w) refl)
  perform-IsSound (calling i) (ss, w) h =
      let (ts, runs, same, serves) = call_at-Stands memory contents fuel i ss w h.serves in
      (
        (ts, w),
        rw runs refl,
        record {
          mapped = subst (λ ms. Perm (regions w) (owned key ms ++ others)) (sym same) h.mapped;
          same_table = h.same_table;
          serves = serves;
        },
      )
  perform-IsSound (closing i) (ss, w) h = (
    _,
    refl,
    close_at-Holds key regions make release law table still memory keeps contents shows fuel enough
        i ss w others t h,
  )
  perform-IsSound (moving i) (ss, w) h = (
    _,
    refl,
    move_at-Holds key regions make release law table still memory keeps contents shows fuel enough i
        ss w others t h,
  )
  perform-IsSound (assigning i) ([], w) h = (_, refl, h)
  perform-IsSound (assigning i) (s ∷ ss, w) h = (
    _,
    refl,
    assign_at-Holds key regions make release law table still memory keeps contents shows fuel enough
        i s ss w others t h,
  )

  -- Every program ends, in a sound pool.
  pub run_program-Holds :
      (cs : List (Command P)) (p : Pool P W)
      → IsSound p
      → (q : Pool P W) × (run_program make release memory fuel cs p ≡ done q) × IsSound q
  unfolding run_program
  run_program-Holds [] p h = (p, refl, h)
  run_program-Holds (c ∷ cs) p h =
      let (q, runs, sound) = perform-IsSound c p h in
      let (r, later, sound') = run_program-Holds cs q sound in (r, rw runs later, sound')
