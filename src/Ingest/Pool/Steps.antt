-- ===== src/Ingest/Pool/Steps.antt =====
-- The commands of a program with several mapped readers, on any platform that keeps the ownership note
-- of memory_mapped_file.hpp.
use trading_engine_hh.Base.{
  ℕ, zero, suc, ◌≡◌, ◌<◌, refl, sym, ap, ◌∙◌, inl, inr, List, [], ◌∷◌, ◌++◌, All, length, Result,
  ok, err, done, arith,
}
use mathlib.Core.Path.{subst}
use mathlib.Core.List.{Perm}
use trading_engine_hh.Route.{zero_stats}
use trading_engine_hh.Frame.Split.{split_up}
use trading_engine_hh.Stream.Records.{yield_of, Splits-Yields}
use trading_engine_hh.MemoryMappedFile.{Memory, bytes_of, MemoryMappedFile, MapError}
use trading_engine_hh.MemoryMappedFile.Ownership.{region, Manages, KeepsTable}
use trading_engine_hh.MemoryMappedFile.Files.{Shows}
use trading_engine_hh.MemoryMappedFile.Beside.{KeepsBytes}
use trading_engine_hh.MmapDbnReader
use trading_engine_hh.MmapDbnReader.{MmapDbnReader, rest}
use trading_engine_hh.MmapDbnReader.Open.{OpensReader, mmap_open-OpensReader}
use trading_engine_hh.Prologue.{DbnError, header_size}
use trading_engine_hh.Ingest.BetweenCalls.{open_reader-map_after}
use trading_engine_hh.Ingest.Pool.{Slot, Pool, answered, fresh, call_at, close_at}
use trading_engine_hh.Ingest.Pool.Owing.{
  answered-file, answered-moved_from, Serves, Stands, Stands-moved, next_over-Serves,
}
use trading_engine_hh.Ingest.Pool.Regions.{
  files, pooled, first_in_front, first_behind, back_in_front, pool-Apart, close_at-bytes_of,
  pool_released,
}

-- The call goes to the reader with the number, if there is one.
pub call_at-Stands :
    {P W : Type 0} (memory : Memory W) (contents : P → List ℕ) (fuel i : ℕ) (ss : List (Slot P))
    (w : W)
    → All (Stands memory contents fuel w) ss
    → (ts : List (Slot P)) × (call_at memory fuel i ss w ≡ done ts)
      × (files ts ≡ files ss)
      × All (Stands memory contents fuel w) ts
call_at-Stands memory contents fuel i [] w h = ([], refl, refl, tt)
call_at-Stands memory contents fuel zero (s ∷ ss) w (inl (left, nothing, past), hs) =
    (s ∷ ss, rw left refl, refl, (inl (left, nothing, past), hs))
call_at-Stands memory contents fuel zero (s ∷ ss) w (inr (live, h), hs) =
    let (t, runs, serves) = next_over-Serves memory contents fuel w s h in
    (
      answered s t ∷ ss,
      rw (live, runs) refl,
      ap (λ m. m ∷ files ss) (answered-file s t),
      (inr (answered-moved_from s t ∙ live, serves), hs),
    )
call_at-Stands memory contents fuel (suc i) (s ∷ ss) w (h, hs) =
    let (ts, runs, same, serves) = call_at-Stands memory contents fuel i ss w hs in
    (s ∷ ts, rw runs refl, ap (λ ms. s.file ∷ ms) same, (h, serves))

abbrev cursor_after : Result DbnError MmapDbnReader → ℕ
cursor_after (ok r) = r.cursor
cursor_after (err x) = header_size

open_reader-cursor_after : (f : List ℕ) → 0 < cursor_after (MmapDbnReader.open_reader f)
unfolding MmapDbnReader.open_reader MmapDbnReader.skip_prologue
open_reader-cursor_after f = ground arith

-- The reader that a constructor has just returned.
module _ {P W : Type 0} (memory : Memory W) (contents : P → List ℕ) (fuel : ℕ) where
  pub fresh-Serves :
      (path : P) (m : MemoryMappedFile) (r : MmapDbnReader) (w : W)
      → bytes_of memory m w ≡ contents path
      → length (contents path) < fuel
      → MmapDbnReader.open_reader (contents path) ≡ ok r
      → Serves memory contents fuel w (fresh path m r)
  fresh-Serves path m r w views enough opened =
      let opens : OpensReader (contents path) (ok r) =
        subst (OpensReader (contents path)) opened (mmap_open-OpensReader (contents path)) in
      let all : r.map ≡ contents path = rw opened at (open_reader-map_after (contents path)) in
      let (p, d) = split_up (suc (length (rest r))) (rest r) (omega arith) in
      record {
        views = views ∙ sym all;
        all_bytes = all;
        fits = rw all enough;
        ready = opens.ready;
        past_header = rw opened at (open_reader-cursor_after (contents path));
        owes = record {
          owed = yield_of zero_stats p;
          yields = rw opens.stats (Splits-Yields zero_stats d);
          together = (rest r, opens.records, Splits-Yields zero_stats d);
          at_end = inl refl;
        };
      }

  -- The readers serve their files in another system with the same bytes.
  pub pool_moved :
      (v w : W) (ss : List (Slot P))
      → All (λ (s : Slot P). bytes_of memory s.file w ≡ bytes_of memory s.file v) ss
      → All (Stands memory contents fuel v) ss
      → All (Stands memory contents fuel w) ss
  pool_moved v w [] e h = tt
  pool_moved v w (s ∷ ss) (e, es) (h, hs) =
      (Stands-moved memory contents fuel v w s e h, pool_moved v w ss es hs)

module _ {P W K X : Type 0} (key : MemoryMappedFile → K) (regions : W → List K)
    (make : P → W → Result MapError MemoryMappedFile × W)
    (release : MemoryMappedFile → W → MemoryMappedFile × W) (law : Manages key regions make release)
    (table : W → X) (still : KeepsTable table make release) (memory : Memory W)
    (keeps : KeepsBytes key regions make release memory) (contents : P → List ℕ)
    (shows : Shows make memory contents) (fuel : ℕ)
    (enough : (path : P) → length (contents path) < fuel) where
  -- What holds between any two commands: each region has its owner, the table is the same, and every
  -- reader that is not moved from serves its file.
  pub record Holds (others : List K) (t : X) (p : Pool P W) : Type 0 where
    pub mapped : Perm (regions p.1) (pooled key p.0 others)
    pub same_table : table p.1 ≡ t
    pub serves : All (Stands memory contents fuel p.1) p.0

  pub close_at-Holds :
      (i : ℕ) (ss : List (Slot P)) (w : W) (others : List K) (t : X)
      → Holds others t (ss, w)
      → Holds others t (close_at release i ss w)
  close_at-Holds i [] w others t h = h
  close_at-Holds zero (s ∷ ss) w others t h =
      let front = first_in_front key s ss others h.mapped in
      record {
        mapped = law.frees s.file w (pooled key ss others) front;
        same_table = still.releases s.file w ∙ h.same_table;
        serves =
            pool_moved memory contents fuel w (release s.file w).1 ss
              (pool_released key regions make release memory keeps s.file w ss
                (pool-Apart key regions make release s.file ss others w front))
              h.serves.1;
      }
  close_at-Holds (suc i) (s ∷ ss) w others t h =
      let later = close_at-Holds i ss w (region key s.file ++ others) t (record {
        mapped = first_behind key s ss others h.mapped;
        same_table = h.same_table;
        serves = h.serves.1;
      }) in
      let (ts, w') = close_at release i ss w in
      record {
        mapped = back_in_front key s ts others later.mapped;
        same_table = later.same_table;
        serves = (
          Stands-moved memory contents fuel w w' s
              (close_at-bytes_of key regions make release memory keeps i ss others w s.file
                (first_in_front key s ss others h.mapped))
              h.serves.0,
          later.serves,
        );
      }
