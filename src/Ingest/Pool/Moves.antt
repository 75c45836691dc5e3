-- ===== src/Ingest/Pool/Moves.antt =====
-- dbn_reader.hpp: moving readers of a pool, and assigning one to another.
use trading_engine_hh.Base.{
  ℕ, zero, suc, ◌≡◌, ◌<◌, refl, sym, ap, ◌∙◌, inl, List, [], ◌∷◌, ◌++◌, All, length, Result,
}
use mathlib.Core.Path.{subst}
use mathlib.Core.List.{Perm}
use mathlib.Core.List.Perm
use trading_engine_hh.MemoryMappedFile.{
  Memory, bytes_of, MemoryMappedFile, MapError, move_construct, move_assign,
}
use trading_engine_hh.MemoryMappedFile.Ownership.{region, owned, perm_front, Manages, KeepsTable}
use trading_engine_hh.MemoryMappedFile.Files.{Shows}
use trading_engine_hh.MemoryMappedFile.Beside.{KeepsBytes}
use trading_engine_hh.MmapDbnReader.Owned.{move_reader, assign_reader}
use trading_engine_hh.Ingest.Pool.{Slot, Pool, beneath, move_at, close_at, assign_at}
use trading_engine_hh.Ingest.Pool.Owing.{Stands, Stands-cursor, Stands-moved}
use trading_engine_hh.Ingest.Pool.Regions.{
  files, pooled, first_in_front, first_behind, back_in_front, close_at-bytes_of,
}
use trading_engine_hh.Ingest.Pool.Steps.{Holds, close_at-Holds}

-- Moving a reader moves its region along.
owned-move_at :
    {P K : Type 0} (key : MemoryMappedFile → K) (i : ℕ) (ss : List (Slot P))
    → owned key (files (move_at i ss)) ≡ owned key (files ss)
unfolding move_reader move_construct
owned-move_at key i [] = refl
owned-move_at key zero (s ∷ ss) = refl
owned-move_at key (suc i) (s ∷ ss) = ap (λ rs. region key s.file ++ rs) (owned-move_at key i ss)

move_at-Stands :
    {P W : Type 0} (memory : Memory W) (contents : P → List ℕ) (fuel i : ℕ) (ss : List (Slot P))
    (w : W)
    → All (Stands memory contents fuel w) ss
    → All (Stands memory contents fuel w) (move_at i ss)
unfolding move_reader move_construct
move_at-Stands memory contents fuel i [] w h = tt
move_at-Stands memory contents fuel zero (s ∷ ss) w (h, hs) =
    (h, (inl (refl, refl, Stands-cursor memory contents fuel w s h), hs))
move_at-Stands memory contents fuel (suc i) (s ∷ ss) w (h, hs) =
    (h, move_at-Stands memory contents fuel i ss w hs)

beneath-system : {P W : Type 0} (s : Slot P) (p : Pool P W) → (beneath s p).1 ≡ p.1
beneath-system s ([], w) = refl
beneath-system s (t ∷ ts, w) = refl

-- An assignment releases what the target views, as its destructor would.
assign_at-system :
    {P W : Type 0} (release : MemoryMappedFile → W → MemoryMappedFile × W) (i : ℕ) (t : Slot P)
    (ss : List (Slot P)) (w : W)
    → (assign_at release i t ss w).1 ≡ (close_at release i ss w).1
unfolding assign_reader move_assign
assign_at-system release i t [] w = refl
assign_at-system release zero t (s ∷ ss) w = refl
assign_at-system release (suc i) t (s ∷ ss) w =
    beneath-system s (assign_at release i t ss w) ∙ assign_at-system release i t ss w

module _ {P W K X : Type 0} (key : MemoryMappedFile → K) (regions : W → List K)
    (make : P → W → Result MapError MemoryMappedFile × W)
    (release : MemoryMappedFile → W → MemoryMappedFile × W) (law : Manages key regions make release)
    (table : W → X) (still : KeepsTable table make release) (memory : Memory W)
    (keeps : KeepsBytes key regions make release memory) (contents : P → List ℕ)
    (shows : Shows make memory contents) (fuel : ℕ)
    (enough : (path : P) → length (contents path) < fuel) where
  abbrev IsSound : List K → X → Pool P W → Type 0
  IsSound = Holds key regions make release law table still memory keeps contents shows fuel enough

  pub move_at-Holds :
      (i : ℕ) (ss : List (Slot P)) (w : W) (others : List K) (t : X)
      → IsSound others t (ss, w)
      → IsSound others t (move_at i ss, w)
  move_at-Holds i ss w others t h = record {
    mapped = subst (λ rs. Perm (regions w) (rs ++ others)) (sym (owned-move_at key i ss)) h.mapped;
    same_table = h.same_table;
    serves = move_at-Stands memory contents fuel i ss w h.serves;
  }

  -- The first two readers the other way round.
  swapped :
      (s q : Slot P) (qs : List (Slot P)) (w : W) (others : List K)
      → Perm (regions w) (pooled key (s ∷ q ∷ qs) others)
      → Perm (regions w) (pooled key (q ∷ s ∷ qs) others)
  swapped s q qs w others h = Perm.trans h (
      Perm.append_right others
        (perm_front key (region key s.file) (region key q.file) (owned key (files qs))))

  beneath-Holds :
      (s : Slot P) (p : Pool P W) (others : List K) (t : X)
      → Stands memory contents fuel p.1 s
      → IsSound (region key s.file ++ others) t p
      → IsSound others t (beneath s p)
  beneath-Holds s ([], w) others t stands h = record {
    mapped = back_in_front key s [] others h.mapped;
    same_table = h.same_table;
    serves = (stands, tt);
  }
  beneath-Holds s (q ∷ qs, w) others t stands h = record {
    mapped = swapped s q qs w others (back_in_front key s (q ∷ qs) others h.mapped);
    same_table = h.same_table;
    serves = (h.serves.0, (stands, h.serves.1));
  }

  pub assign_at-Holds :
      (i : ℕ) (q : Slot P) (ss : List (Slot P)) (w : W) (others : List K) (t : X)
      → IsSound others t (q ∷ ss, w)
      → IsSound others t (assign_at release i q ss w)
  unfolding assign_reader move_assign
  assign_at-Holds i q [] w others t h = h
  assign_at-Holds zero q (s ∷ ss) w others t h =
      let closed =
        close_at-Holds key regions make release law table still memory keeps contents shows fuel
          enough 1 (q ∷ s ∷ ss) w others t h in
      record {
        mapped = closed.mapped;
        same_table = closed.same_table;
        serves =
            (inl (refl, refl, Stands-cursor memory contents fuel w q h.serves.0), closed.serves);
      }
  assign_at-Holds (suc i) q (s ∷ ss) w others t h =
      let inner = assign_at-Holds i q ss w (region key s.file ++ others) t (record {
        mapped = first_behind key s (q ∷ ss) others (swapped q s ss w others h.mapped);
        same_table = h.same_table;
        serves = (h.serves.0, h.serves.1.1);
      }) in
      beneath-Holds s (assign_at release i q ss w) others t
        (Stands-moved memory contents fuel w (assign_at release i q ss w).1 s
          (ap (bytes_of memory s.file) (assign_at-system release i q ss w)
            ∙ close_at-bytes_of key regions make release memory keeps i ss
                (region key q.file ++ others) w s.file
                (first_in_front key s ss (region key q.file ++ others)
                  (first_behind key q (s ∷ ss) others h.mapped)))
          h.serves.1.0)
        inner
