-- ===== src/MmapDbnReader/Interleaved.antt =====
-- dbn_reader.hpp: `MmapDbnReader` in a program that does other things between its calls. Each call reads
-- the memory through `map_.bytes()` as it is at that time.
use trading_engine_hh.Base.{
  ℕ, zero, suc, ◌≡◌, refl, sym, ◌∙◌, inl, inr, List, Option, none, some, Result, Run, done,
  out_of_fuel, and_then,
}
use trading_engine_hh.Event.{Event}
use trading_engine_hh.Frame.Contract.{
  whole, part, lost, front, frame_one-IsPartial, frame_one-IsCorrupt_whole,
}
use trading_engine_hh.Route.{route_record, tally}
use trading_engine_hh.Stream.{Yield}
use trading_engine_hh.Stream.Failure.{Tallied-cases}
use trading_engine_hh.Reader.Client.{collect, after_call}
use trading_engine_hh.MemoryMappedFile.{Memory, bytes_of, MemoryMappedFile, MapError}
use trading_engine_hh.MemoryMappedFile.Ownership.{Manages}
use trading_engine_hh.MemoryMappedFile.Beside.{
  Mapped, Beside, KeepsBytes, Beside-Mapped, Beside-bytes_of,
}
use trading_engine_hh.MmapDbnReader
use trading_engine_hh.MmapDbnReader.{MmapDbnReader, rest}
use trading_engine_hh.MmapDbnReader.Contract.{mmap_reader, next-emit, next-skip, moved}

-- `next()` on a reader whose map is the object `m`, in a system in state `w`.
unfoldable pub next_over :
    {W : Type 0}
    → Memory W
    → MemoryMappedFile
    → ℕ
    → MmapDbnReader
    → W
    → Run (Option Event × MmapDbnReader)
next_over memory m fuel r w = MmapDbnReader.next fuel (record r { map = bytes_of memory m w })

-- The loop of a consumer; `between n` is what happens to the system after the call with number `n`.
unfoldable pub collect_between :
    {W : Type 0}
    → Memory W
    → MemoryMappedFile
    → (ℕ → W → W)
    → ℕ
    → ℕ
    → ℕ
    → MmapDbnReader
    → W
    → Run Yield
unfolding next_over
collect_between memory m between zero fuel n r w = out_of_fuel
collect_between memory m between (suc calls) fuel n r w =
    and_then (next_over memory m fuel r w) (λ (e, r').
      after_call mmap_reader e r'
        (λ s. collect_between memory m between calls fuel (suc n) s (between n w)))

abbrev pub map_left : MmapDbnReader → Run (Option Event × MmapDbnReader) → List ℕ
map_left r (done (e, r')) = r'.map
map_left r out_of_fuel = r.map

-- No call of `next()` changes the map.
pub next-map_left : (fuel : ℕ) (r : MmapDbnReader) → map_left r (MmapDbnReader.next fuel r) ≡ r.map
next-map_left zero r = unfold MmapDbnReader.next in refl
next-map_left (suc fuel) r = elim (front (rest r)) [
  | part p ↦ unfold MmapDbnReader.next in rw (frame_one-IsPartial (rest r) p) refl
  | lost c ↦ unfold MmapDbnReader.next in rw (frame_one-IsCorrupt_whole (rest r) c) refl
  | whole rec v split w ↦ elim (Tallied-cases (tally r.stats (route_record rec))) [
    | inr (x, c, t) ↦ rw (next-emit r rec v split w fuel x c t) refl
    | inl (c, t) ↦ rw (next-skip r rec v split w fuel c t) (next-map_left fuel (moved r rec c))
  ]
]

module _ {P W K : Type 0} (key : MemoryMappedFile → K) (regions : W → List K)
    (make : P → W → Result MapError MemoryMappedFile × W)
    (release : MemoryMappedFile → W → MemoryMappedFile × W) (law : Manages key regions make release)
    (memory : Memory W) (keeps : KeepsBytes key regions make release memory) (m : MemoryMappedFile)
    (between : ℕ → W → W)
    (apart : (n : ℕ) (w : W)
      → Mapped key regions make release m w
      → Beside key regions make release m w (between n w)) where
  -- The reader's map is what the object views, and it stays so.
  pub collect_between-collect :
      (calls fuel n : ℕ) (r : MmapDbnReader) (w : W)
      → Mapped key regions make release m w
      → bytes_of memory m w ≡ r.map
      → collect_between memory m between calls fuel n r w ≡ collect mmap_reader calls fuel r
  unfolding collect_between collect next_over
  collect_between-collect zero fuel n r w h e = refl
  collect_between-collect (suc calls) fuel n r w h e = rw e (
      after (MmapDbnReader.next fuel r) (next-map_left fuel r) (λ s same.
        collect_between-collect calls fuel (suc n) s (between n w)
          (Beside-Mapped key regions make release law h (apart n w h))
          (Beside-bytes_of key regions make release law memory keeps h (apart n w h)
            ∙ e
            ∙ sym same)))
    where
      later : MmapDbnReader → Run Yield
      later s = collect_between memory m between calls fuel (suc n) s (between n w)

      after :
          (u : Run (Option Event × MmapDbnReader))
          → map_left r u ≡ r.map
          → ((s : MmapDbnReader) → s.map ≡ r.map → later s ≡ collect mmap_reader calls fuel s)
          → and_then u (λ (x, r'). after_call mmap_reader x r' later)
            ≡ and_then u
                (λ (x, r'). after_call mmap_reader x r' (λ s. collect mmap_reader calls fuel s))
      after out_of_fuel same again = refl
      after (done (none, r')) same again = refl
      after (done (some x, r')) same again = rw (again r' same) refl
