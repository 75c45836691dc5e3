-- ===== src/Ingest/Pool.antt =====
-- dbn_reader.hpp: a program with any number of `MmapDbnReader`s at once, which it opens, calls, moves,
-- assigns and destroys in any order. Every call reads the memory as it is then.
pub mod Owing
pub mod Regions
pub mod Steps
pub mod Moves
pub mod Runs
pub mod Platforms
use trading_engine_hh.Base.{
  ℕ, zero, suc, Bool, true, false, Option, none, some, List, [], ◌∷◌, ◌++◌, Result, ok, err, Run,
  done, and_then,
}
use trading_engine_hh.Event.{Event}
use trading_engine_hh.MemoryMappedFile.{Memory, MemoryMappedFile, MapError}
use trading_engine_hh.MmapDbnReader.{MmapDbnReader}
use trading_engine_hh.MmapDbnReader.Owned.{
  OpenError, OwningReader, move_reader, assign_reader, open_path,
}
use trading_engine_hh.MmapDbnReader.Interleaved.{next_over}

-- A reader with the path it was opened on, the events that it has returned, whether its last call
-- returned `nullopt`, and whether it has been moved from.
pub record Slot (P : Type 0) : Type 0 where
  pub path : P
  pub file : MemoryMappedFile
  pub reader : MmapDbnReader
  pub events : List Event
  pub ended : Bool
  pub moved_from : Bool

-- The readers are numbered from the one that was opened last, one that is made by moving just before
-- the one that it is made from. `assigning i` assigns the first reader to the one with number `i` among
-- the others.
pub data Command (P : Type 0) : Type 0 where
  opening : P → Command P
  calling closing moving assigning : ℕ → Command P

abbrev pub Pool : Type 0 → Type 0 → Type 0
Pool P W = List (Slot P) × W

abbrev pub answered : {P : Type 0} → Slot P → Option Event × MmapDbnReader → Slot P
answered s (none, r) = record s { reader = r; ended = true }
answered s (some e, r) = record s { reader = r; events = s.events ++ (e ∷ []); ended = false }

abbrev pub fresh : {P : Type 0} → P → MemoryMappedFile → MmapDbnReader → Slot P
fresh path m r = record {
  path = path;
  file = m;
  reader = r;
  events = [];
  ended = false;
  moved_from = false;
}

-- A constructor that throws leaves no reader.
abbrev pub enrol :
    {P W : Type 0}
    → P
    → List (Slot P)
    → Result OpenError (MemoryMappedFile × MmapDbnReader) × W
    → Pool P W
enrol path ss (err x, w) = (ss, w)
enrol path ss (ok (m, r), w) = (fresh path m r ∷ ss, w)

-- A program does not call a reader that it has moved from: its cursor lies past the end of its file,
-- where `subspan` is undefined.
abbrev pub called :
    {P W : Type 0} → Memory W → ℕ → Slot P → List (Slot P) → W → Bool → Run (List (Slot P))
called memory fuel s ss w true = done (s ∷ ss)
called memory fuel s ss w false =
    and_then (next_over memory s.file fuel s.reader w) (λ t. done (answered s t ∷ ss))

abbrev pub call_at : {P W : Type 0} → Memory W → ℕ → ℕ → List (Slot P) → W → Run (List (Slot P))
call_at memory fuel i [] w = done []
call_at memory fuel zero (s ∷ ss) w = called memory fuel s ss w s.moved_from
call_at memory fuel (suc i) (s ∷ ss) w = and_then (call_at memory fuel i ss w) (λ ts. done (s ∷ ts))

-- The destructor of a reader is that of its file.
abbrev pub close_at :
    {P W : Type 0}
    → (MemoryMappedFile → W → MemoryMappedFile × W)
    → ℕ
    → List (Slot P)
    → W
    → Pool P W
close_at release i [] w = ([], w)
close_at release zero (s ∷ ss) w = (ss, (release s.file w).1)
close_at release (suc i) (s ∷ ss) w = let (ts, w') = close_at release i ss w in (s ∷ ts, w')

-- A reader behind the first one.
abbrev pub beneath : {P W : Type 0} → Slot P → Pool P W → Pool P W
beneath s ([], w) = (s ∷ [], w)
beneath s (t ∷ ts, w) = (t ∷ s ∷ ts, w)

-- What a reader has been through goes along with it.
abbrev pub moved_into : {P : Type 0} → Slot P → OwningReader → Slot P
moved_into s (m, r) = record s { file = m; reader = r }

abbrev pub left_behind : {P : Type 0} → Slot P → OwningReader → Slot P
left_behind s (m, r) = record s { file = m; reader = r; moved_from = true }

abbrev pub move_at : {P : Type 0} → ℕ → List (Slot P) → List (Slot P)
move_at i [] = []
move_at zero (s ∷ ss) =
    let (new, old) = move_reader (s.file, s.reader) in moved_into s new ∷ left_behind s old ∷ ss
move_at (suc i) (s ∷ ss) = s ∷ move_at i ss

abbrev pub assign_at :
    {P W : Type 0}
    → (MemoryMappedFile → W → MemoryMappedFile × W)
    → ℕ
    → Slot P
    → List (Slot P)
    → W
    → Pool P W
assign_at release i t [] w = (t ∷ [], w)
assign_at release zero t (s ∷ ss) w =
    let (target, old, w') = assign_reader release (s.file, s.reader) (t.file, t.reader) w in
    (left_behind t old ∷ moved_into t target ∷ ss, w')
assign_at release (suc i) t (s ∷ ss) w = beneath s (assign_at release i t ss w)

module _ {P W : Type 0} (make : P → W → Result MapError MemoryMappedFile × W)
    (release : MemoryMappedFile → W → MemoryMappedFile × W) (memory : Memory W) where
  abbrev pub perform : ℕ → Command P → Pool P W → Run (Pool P W)
  perform fuel (opening path) (ss, w) = done (enrol path ss (open_path make release memory path w))
  perform fuel (calling i) (ss, w) = and_then (call_at memory fuel i ss w) (λ ts. done (ts, w))
  perform fuel (closing i) (ss, w) = done (close_at release i ss w)
  perform fuel (moving i) (ss, w) = done (move_at i ss, w)
  perform fuel (assigning i) ([], w) = done ([], w)
  perform fuel (assigning i) (s ∷ ss, w) = done (assign_at release i s ss w)

  unfoldable pub run_program : ℕ → List (Command P) → Pool P W → Run (Pool P W)
  run_program fuel [] p = done p
  run_program fuel (c ∷ cs) p = and_then (perform fuel c p) (λ q. run_program fuel cs q)
