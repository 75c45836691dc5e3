-- ===== src/MmapDbnReader/Contract.antt =====
-- dbn_reader.hpp: `MmapDbnReader::next()` against the contract of `Stream`.
use trading_engine_hh.Base.{
  ℕ, zero, suc, ◌+◌, ◌≤◌, ◌<◌, ◌≡◌, refl, sym, ap, ◌∙◌, inl, inr, true, List, ◌++◌, length, take,
  get_or, Option, none, some, done, length-append, length-drop, take-append, drop-append, drop-drop,
  arith,
}
use mathlib.Core.Path.{subst}
use trading_engine_hh.Event.{Event}
use trading_engine_hh.Frame.{FrameStatus, frame_one, IsRecord}
use trading_engine_hh.Frame.Contract.{
  whole, part, lost, front, frame_one-IsRecord, frame_one-IsPartial, frame_one-IsCorrupt_whole,
  record_nonempty,
}
use trading_engine_hh.Route.{IngestStats, route_record, tally}
use trading_engine_hh.Stream.{Delivers, at_end, at_corrupt, hand_on, pass_over}
use trading_engine_hh.Stream.Failure.{
  IsTruthful, not_failed_of_record, not_failed_of_partial, Tallied-cases,
}
use trading_engine_hh.Reader.{EventReader, KeepsContract}
use trading_engine_hh.MmapDbnReader.{MmapDbnReader, rest, next}

-- The cursor stands in the file or at its end, and `failed_` is set only before a corrupt frame.
pub record IsReady (r : MmapDbnReader) : Type 0 where
  pub inside : r.cursor ≤ length r.map
  pub truthful : IsTruthful r.failed (rest r)

-- The reader past the record `rec`.
abbrev pub moved : MmapDbnReader → List ℕ → IngestStats → MmapDbnReader
moved r rec c = record r { cursor = r.cursor + length rec; stats = c }

module _ (r : MmapDbnReader) (rec v : List ℕ) (e : rest r ≡ rec ++ v) (h : IsRecord rec) where
  framed :
      frame_one (rest r)
      ≡ record { status = FrameStatus.ok; rtype = get_or rec 1 0; record_size = length rec }
  framed = rw e (frame_one-IsRecord rec v h)

  taken : take (length rec) (rest r) ≡ rec
  taken = rw e (take-append rec v (length rec) refl)

  rest-moved : (c : IngestStats) → rest (moved r rec c) ≡ v
  rest-moved c =
      sym (drop-drop (length rec) r.cursor r.map) ∙ rw e (drop-append rec v (length rec) refl)

  moved-IsReady : (c : IngestStats) → IsReady r → IsReady (moved r rec c)
  moved-IsReady c k = record {
    inside = omega (arith, k.inside, ap length e, length-append rec v, length-drop r.cursor r.map);
    truthful = λ set. cc (set, not_failed_of_record rec v k.truthful e h);
  }

  pub next-emit :
      (fuel : ℕ) (x : Event) (c : IngestStats)
      → tally r.stats (route_record rec) ≡ (some x, c)
      → next (suc fuel) r ≡ done (some x, moved r rec c)
  unfolding next
  next-emit fuel x c t = rw (framed, taken, t)

  pub next-skip :
      (fuel : ℕ) (c : IngestStats)
      → tally r.stats (route_record rec) ≡ (none, c)
      → next (suc fuel) r ≡ next fuel (moved r rec c)
  unfolding next
  next-skip fuel c t = rw (framed, taken, t)

-- From a mapped reader in its invariant and with more rounds than bytes after the cursor,
-- `MmapDbnReader::next()` returns; its answer is the one that `Delivers` owes for those bytes, the
-- invariant holds again, and there are no more bytes after the cursor than before.
pub mmap_next-Delivers :
    (fuel : ℕ) (r : MmapDbnReader)
    → IsReady r
    → length (rest r) < fuel
    → (e : Option Event) × (r' : MmapDbnReader) × (next fuel r ≡ done (e, r'))
      × Delivers
          (rest r)
          r.stats
          (record { event = e; rest = rest r'; stats = r'.stats; failed = r'.failed })
      × IsReady r'
      × (length (rest r') ≤ length (rest r))
mmap_next-Delivers zero r k h = absurd (omega arith)
mmap_next-Delivers (suc fuel) r k h = elim (front (rest r)) [
  | part p ↦ (
    none,
    r,
    unfold next in rw (frame_one-IsPartial (rest r) p),
    at_end p (rw (not_failed_of_partial _ k.truthful p)),
    k,
    omega arith,
  )
  | lost c ↦ (
    none,
    record r { failed = true },
    unfold next in rw (frame_one-IsCorrupt_whole (rest r) c),
    at_corrupt c refl,
    record { inside = k.inside; truthful = λ t. c },
    omega arith,
  )
  | whole rec v e w ↦ elim (Tallied-cases (tally r.stats (route_record rec))) [
    | inr (x, c, t) ↦ (
      some x,
      moved r rec c,
      next-emit r rec v e w fuel x c t,
      hand_on rec v x c e w t λ i. record {
        event = some x;
        rest = rest-moved r rec v e w c i;
        stats = c;
        failed = not_failed_of_record rec v k.truthful e w i;
      },
      moved-IsReady r rec v e w c k,
      omega (arith, ap length e, length-append rec v, ap length (rest-moved r rec v e w c)),
    )
    | inl (c, t) ↦
        let shorter : length (rest (moved r rec c)) < length (rest r) = omega (
          arith,
          ap length e,
          length-append rec v,
          record_nonempty rec w,
          ap length (rest-moved r rec v e w c),
        ) in
        let (x, r', runs, owed, ready, less) =
          mmap_next-Delivers fuel (moved r rec c) (moved-IsReady r rec v e w c k) (omega arith) in
        (
          x,
          r',
          next-skip r rec v e w fuel c t ∙ runs,
          pass_over rec v c e w t (
              subst
                (λ (u : List ℕ).
                  Delivers u c
                    (record { event = x; rest = rest r'; stats = r'.stats; failed = r'.failed }))
                (rest-moved r rec v e w c) owed),
          ready,
          omega arith,
        )
  ]
]

abbrev pub mmap_reader : EventReader MmapDbnReader
mmap_reader = record { next = next; stats = λ r. r.stats; failed = λ r. r.failed }

-- The mapped reader keeps the contract of `Stream`.
abbrev pub mmap_contract : KeepsContract mmap_reader IsReady
mmap_contract = record {
  rest = rest;
  effort = λ r. length (rest r);
  next_delivers = λ r fuel k h. mmap_next-Delivers fuel r k h;
}
