-- ===== src/Ingest/Pool/Platforms.antt =====
-- Whole programs with several mapped readers: what they leave, on either platform.
use trading_engine_hh.Base.{
  ℕ, ◌≡◌, ◌<◌, refl, sym, ap, ◌∙◌, ◌⊎◌, inl, inr, true, false, List, [], ◌∷◌, ◌++◌, All, length,
  Result, ok, done,
}
use mathlib.Core.Path.{subst}
use mathlib.Core.List.{Perm}
use mathlib.Core.List.Perm
use trading_engine_hh.Event.{Event}
use trading_engine_hh.Stream.{Yield}
use trading_engine_hh.MemoryMappedFile.{
  Memory, bytes_of, MemoryMappedFile, empty_view, MapError, PosixCalls, make_posix, release_posix,
  Win32Calls, make_win32, release_win32,
}
use trading_engine_hh.MemoryMappedFile.Ownership.{owned, Manages, KeepsTable}
use trading_engine_hh.MemoryMappedFile.Beside.{KeepsBytes}
use trading_engine_hh.MemoryMappedFile.Files.{
  Shows, FilesPosix, make_posix-Shows, FilesWin32, make_win32-Shows,
}
use trading_engine_hh.MemoryMappedFile.Posix.{IsPosix}
use trading_engine_hh.MemoryMappedFile.PosixBytes.{KeepsPosix, posix-KeepsBytes}
use trading_engine_hh.MemoryMappedFile.Platforms.{
  posix_region, posix-Manages, posix-KeepsTable, win32_region, win32-Manages, win32-KeepsTable,
}
use trading_engine_hh.MemoryMappedFile.Windows.{IsWin32}
use trading_engine_hh.MemoryMappedFile.Win32Bytes.{KeepsWin32, win32-KeepsBytes}
use trading_engine_hh.Ingest.{ingest_mmap}
use trading_engine_hh.Ingest.Parity.{Ingests-unique, ingest_mmap-Ingests}
use trading_engine_hh.Ingest.Pool.{Slot, Command, run_program}
use trading_engine_hh.Ingest.Pool.Owing.{Serves, Stands, ending, after}
use trading_engine_hh.Ingest.Pool.Regions.{files}
use trading_engine_hh.Ingest.Pool.Runs.{run_program-Holds}

-- What a reader of the pool has done, against a run alone over its file: it views the whole file, has
-- returned the first events of the run, and after `nullopt` all of them, with the run's counters and
-- flag.
abbrev pub IsServed : {P W : Type 0} → Memory W → (P → List ℕ) → ℕ → W → Slot P → Type 0
IsServed memory contents fuel w s =
    (y : Yield) × (es : List Event) × (bytes_of memory s.file w ≡ contents s.path)
    × (ingest_mmap fuel (contents s.path) ≡ done (ok y))
    × (y.events ≡ s.events ++ es)
    × ((s.ended ≡ false) ⊎ ((es ≡ []) × (s.reader.stats ≡ y.stats) × (s.reader.failed ≡ y.failed)))

Serves-IsServed :
    {P W : Type 0} (memory : Memory W) (contents : P → List ℕ) (fuel : ℕ) (w : W) (s : Slot P)
    → Serves memory contents fuel w s
    → IsServed memory contents fuel w s
Serves-IsServed memory contents fuel w s h =
    let (o, runs, owed) =
      ingest_mmap-Ingests fuel (contents s.path)
        (subst (λ u. length u < fuel) h.all_bytes h.fits) in
    (
      after s.events h.owes.owed,
      h.owes.owed.events,
      h.views ∙ h.all_bytes,
      runs
          ∙ ap done (
              Ingests-unique (contents s.path) o (ok (after s.events h.owes.owed)) owed
                h.owes.together),
      refl,
      at_end h.owes.at_end,
    )
  where
    at_end :
        (s.ended ≡ false) ⊎ (h.owes.owed ≡ ending s.reader)
        → (s.ended ≡ false)
          ⊎ ((h.owes.owed.events ≡ [])
              × (s.reader.stats ≡ h.owes.owed.stats)
              × (s.reader.failed ≡ h.owes.owed.failed))
    at_end (inl going) = inl going
    at_end (inr over) = inr (
      ap (λ (y : Yield). y.events) over,
      sym (ap (λ (y : Yield). y.stats) over),
      sym (ap (λ (y : Yield). y.failed) over),
    )

-- A reader of the pool, or what is left of one that has been moved from.
abbrev pub Remains : {P W : Type 0} → Memory W → (P → List ℕ) → ℕ → W → Slot P → Type 0
Remains memory contents fuel w s =
    ((s.moved_from ≡ true) × (s.file ≡ empty_view) × (s.file.size < s.reader.cursor))
    ⊎ ((s.moved_from ≡ false) × IsServed memory contents fuel w s)

Stands-Remains :
    {P W : Type 0} (memory : Memory W) (contents : P → List ℕ) (fuel : ℕ) (w : W) (s : Slot P)
    → Stands memory contents fuel w s
    → Remains memory contents fuel w s
Stands-Remains memory contents fuel w s (inl left) = inl left
Stands-Remains memory contents fuel w s (inr (live, h)) =
    inr (live, Serves-IsServed memory contents fuel w s h)

pool-Remains :
    {P W : Type 0} (memory : Memory W) (contents : P → List ℕ) (fuel : ℕ) (w : W)
    (ss : List (Slot P))
    → All (Stands memory contents fuel w) ss
    → All (Remains memory contents fuel w) ss
pool-Remains memory contents fuel w [] h = tt
pool-Remains memory contents fuel w (s ∷ ss) (h, hs) =
    (Stands-Remains memory contents fuel w s h, pool-Remains memory contents fuel w ss hs)

module _ {P W K X : Type 0} (key : MemoryMappedFile → K) (regions : W → List K)
    (make : P → W → Result MapError MemoryMappedFile × W)
    (release : MemoryMappedFile → W → MemoryMappedFile × W) (table : W → X) (memory : Memory W)
    (contents : P → List ℕ) (fuel : ℕ) where
  -- What a program that starts without readers leaves.
  abbrev pub Leaves : List (Command P) → W → Type 0
  Leaves cs w =
      (ss : List (Slot P)) × (w' : W) × (run_program make release memory fuel cs ([], w)
        ≡ done (ss, w'))
      × All (Remains memory contents fuel w') ss
      × Perm (regions w') (owned key (files ss) ++ regions w)
      × (table w' ≡ table w)

  pub run_program-Leaves :
      (law : Manages key regions make release) (still : KeepsTable table make release)
      (keeps : KeepsBytes key regions make release memory) (shows : Shows make memory contents)
      (enough : (path : P) → length (contents path) < fuel) (cs : List (Command P)) (w : W)
      → Leaves cs w
  run_program-Leaves law still keeps shows enough cs w =
      let ((ss, w'), runs, sound) =
        run_program-Holds key regions make release law table still memory keeps contents shows fuel
          enough (regions w) (table w) cs ([], w)
          (record { mapped = Perm.refl _; same_table = refl; serves = tt }) in
      (
        ss,
        w',
        runs,
        pool-Remains memory contents fuel w' ss sound.serves,
        sound.mapped,
        sound.same_table,
      )

-- With the POSIX calls as documented, which leave the bytes of a view as they are until its own
-- unmapping, and files that never change and have fewer bytes than there are rounds: a program
-- that starts without readers and then opens readers on paths, calls `next()` on any that it has
-- not moved from, moves and assigns them and destroys any of them, in any order and with as many
-- at once as it likes, ends. Each reader that is left and not moved from views the whole file at
-- its path; with the readers that it was moved from it has returned, in order, the first of the
-- events that a run of the mapped reader alone over that file returns, and if the last call
-- returned `nullopt` it has returned all of them and has the counters and the flag of that run.
-- One that is moved from views nothing, and its cursor lies past the end of that. The mapped
-- regions of the process are those of the readers that are left and those of before the program,
-- and the open descriptors are those of before.
pub posix_program-Leaves :
    {P W : Type 0} (sys : PosixCalls P W) (fds : W → List ℕ) (regions : W → List (ℕ × ℕ))
    (law : IsPosix sys fds regions) (memory : Memory W) (keeps : KeepsPosix sys regions memory)
    (contents : P → List ℕ)
    → FilesPosix sys memory contents
    → (fuel : ℕ) → ((path : P) → length (contents path) < fuel)
    → (cs : List (Command P)) (w : W)
    → Leaves posix_region regions (make_posix sys) (release_posix sys) fds memory contents fuel cs w
posix_program-Leaves sys fds regions law memory keeps contents stored fuel enough cs w =
    run_program-Leaves posix_region regions (make_posix sys) (release_posix sys) fds memory contents
      fuel (posix-Manages sys fds regions law) (posix-KeepsTable sys fds regions law)
      (posix-KeepsBytes sys fds regions law memory keeps)
      (make_posix-Shows sys memory contents stored) enough cs w

-- With the Win32 calls as documented, which leave the bytes of a view as they are until its own
-- unmapping, and files that never change and have fewer bytes than there are rounds: a program
-- that starts without readers and then opens readers on paths, calls `next()` on any that it has
-- not moved from, moves and assigns them and destroys any of them, in any order and with as many
-- at once as it likes, ends. Each reader that is left and not moved from views the whole file at
-- its path; with the readers that it was moved from it has returned, in order, the first of the
-- events that a run of the mapped reader alone over that file returns, and if the last call
-- returned `nullopt` it has returned all of them and has the counters and the flag of that run.
-- One that is moved from views nothing, and its cursor lies past the end of that. The mapped
-- regions of the process are those of the readers that are left and those of before the program,
-- and the open handles are those of before.
pub win32_program-Leaves :
    {P W : Type 0} (sys : Win32Calls P W) (handles views : W → List ℕ)
    (law : IsWin32 sys handles views) (memory : Memory W) (keeps : KeepsWin32 sys views memory)
    (contents : P → List ℕ)
    → FilesWin32 sys memory contents
    → (fuel : ℕ) → ((path : P) → length (contents path) < fuel)
    → (cs : List (Command P)) (w : W)
    → Leaves win32_region views
        (make_win32 sys)
        (release_win32 sys)
        handles
        memory
        contents
        fuel
        cs
        w
win32_program-Leaves sys handles views law memory keeps contents stored fuel enough cs w =
    run_program-Leaves win32_region views (make_win32 sys) (release_win32 sys) handles memory
      contents fuel (win32-Manages sys handles views law) (win32-KeepsTable sys handles views law)
      (win32-KeepsBytes sys handles views law memory keeps)
      (make_win32-Shows sys memory contents stored) enough cs w
