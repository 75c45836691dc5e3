-- ===== src/DbnReader/Memory.antt =====
-- dbn_reader.hpp: how much a `DbnReader` holds in memory.
use trading_engine_hh.Base.{
  ℕ, zero, suc, ◌+◌, ◌≤◌, ◌<◌, ◌≡◌, ap, ◌∙◌, inl, inr, Bool-cases, List, [], ◌∷◌, ◌++◌,
  append_assoc, length, take, All, All-append, All-drop, Result, ok, length-take, ◌==◌, ==_iff,
  Option, Run, done, out_of_fuel, arith,
}
use trading_engine_hh.Base.Bytes.{IsByte}
use trading_engine_hh.Event.{Event}
use trading_engine_hh.Frame.{IsPartial}
use trading_engine_hh.Assembler.{RecordAssembler, view, append}
use trading_engine_hh.Assembler.Buffer.{
  IsValid, append-Appended, record_at_front, ran_dry, broken, next-Pulls, buffered-length,
}
use trading_engine_hh.Route.{IngestStats, route_record, tally}
use trading_engine_hh.Stream.Failure.{Tallied-cases}
use trading_engine_hh.Source.{ByteSource, IsOrderly}
use trading_engine_hh.Prologue.{DbnError, header_size, metadata_len}
use trading_engine_hh.DbnReader.{DbnReader, next, open_reader}
use trading_engine_hh.DbnReader.Contract.{rest}
use trading_engine_hh.DbnReader.Opening.{IsFresh, stream_open-OpensReader}

-- A part of a record is shorter than the longest record, of 255 words.
IsPartial-bound : (u : List ℕ) → IsPartial u → All IsByte u → length u ≤ 1019
IsPartial-bound [] h b = omega arith
IsPartial-bound (l ∷ []) h b = omega arith
IsPartial-bound (l ∷ t ∷ body) h b = omega (arith, b.0)

module _ {S : Type 0} (bytes : ByteSource S) (left : S → List ℕ)
    (orderly : IsOrderly bytes left) where
  -- The scratch buffer has `n` bytes, the assembler's at most a part of a record more, and all that
  -- stands before the reader is bytes.
  pub record IsSmall (n : ℕ) (r : DbnReader S) : Type 0 where
    pub valid : IsValid r.assembler
    pub scratch : length r.scratch ≡ n
    pub buffer : length r.assembler.buf ≤ 1019 + n
    pub bytes_only : All IsByte (rest bytes left orderly r)

  abbrev Keeps : ℕ → Run (Option Event × DbnReader S) → Type 0
  Keeps n out_of_fuel = Unit {0}
  Keeps n (done (e, r)) = IsSmall n r

  past-IsSmall :
      (n : ℕ) (r : DbnReader S) (rec : List ℕ) (a : RecordAssembler) (c : IngestStats)
      → IsSmall n r
      → view r.assembler ≡ rec ++ view a
      → IsValid a
      → a.buf ≡ r.assembler.buf
      → IsSmall n (record r { assembler = a; stats = c })
  past-IsSmall n r rec a c k e v same = record {
    valid = v;
    scratch = k.scratch;
    buffer = omega (arith, k.buffer, ap length same);
    bytes_only =
        (All-append IsByte rec (view a ++ left r.source) (rw (e, append_assoc) at k.bytes_only)).1;
  }

  abbrev read_into : DbnReader S → DbnReader S
  read_into r = record r {
    source = (bytes.read r.source r.scratch).2;
    scratch = (bytes.read r.source r.scratch).1;
  }

  abbrev chunk : DbnReader S → List ℕ
  chunk r = take (bytes.read r.source r.scratch).0 (bytes.read r.source r.scratch).1

  refilled-IsSmall :
      (n : ℕ) (r : DbnReader S)
      → IsSmall n r
      → IsPartial (view r.assembler)
      → IsSmall n (record (read_into r) { assembler = append r.assembler (chunk r) })
  refilled-IsSmall n r k partial =
      let appended = append-Appended r.assembler (chunk r) k.valid in
      record {
        valid = appended.valid;
        scratch = orderly.keeps_size r.source r.scratch ∙ k.scratch;
        buffer = omega (
          arith,
          appended.reclaimed,
          buffered-length r.assembler,
          IsPartial-bound (view r.assembler) partial
              (All-append IsByte (view r.assembler) (left r.source) k.bytes_only).0,
          length-take (bytes.read r.source r.scratch).0 (bytes.read r.source r.scratch).1,
          orderly.keeps_size r.source r.scratch,
          k.scratch,
        );
        bytes_only =
            rw (appended.bytes, append_assoc, ← orderly.in_order r.source r.scratch) k.bytes_only;
      }

  next-IsSmall : (fuel n : ℕ) (r : DbnReader S) → IsSmall n r → Keeps n (next bytes fuel r)
  unfolding next
  next-IsSmall zero n r k = tt
  next-IsSmall (suc fuel) n r k = elim (next-Pulls r.assembler k.valid) [
    | broken p c ↦ rw p (record {
      valid = k.valid;
      scratch = k.scratch;
      buffer = k.buffer;
      bytes_only = k.bytes_only;
    })
    | ran_dry p partial ↦ elim (Bool-cases ((bytes.read r.source r.scratch).0 == 0)) [
      | inl none_read ↦
          rw (p, none_read)
            (record {
              valid = k.valid;
              scratch = orderly.keeps_size r.source r.scratch ∙ k.scratch;
              buffer = k.buffer;
              bytes_only =
                  rw (rw ((==_iff _ _).0 none_read) at (orderly.in_order r.source r.scratch)) at
                    k.bytes_only;
            })
      | inr some_read ↦ rw (p, some_read) (next-IsSmall fuel n _ (refilled-IsSmall n r k partial))
    ]
    | record_at_front rec a p w e v same ↦ elim (Tallied-cases (tally r.stats (route_record rec))) [
      | inr (x, c, t) ↦ rw (p, t) (past-IsSmall n r rec a c k e v same)
      | inl (c, t) ↦ rw (p, t) (next-IsSmall fuel n _ (past-IsSmall n r rec a c k e v same))
    ]
  ]

  fresh-IsSmall :
      (n : ℕ) (f : List ℕ) (r : DbnReader S)
      → All IsByte f
      → IsFresh bytes left orderly n f r
      → IsSmall n r
  fresh-IsSmall n f r b fresh = record {
    valid = fresh.ready.valid;
    scratch = fresh.scratch;
    buffer = rw fresh.assembler (omega arith);
    bytes_only = rw fresh.records.3 (All-drop IsByte (header_size + metadata_len f) f b);
  }

  -- The states of a reader on which `next()` is called any number of times.
  pub data Serves (r : DbnReader S) : DbnReader S → Type 0 where
    opened : Serves r r
    called :
        {t u : DbnReader S} (fuel : ℕ) (e : Option Event)
        → Serves r t
        → next bytes fuel t ≡ done (e, u)
        → Serves r u

  Serves-IsSmall : (n : ℕ) {r t : DbnReader S} → IsSmall n r → Serves r t → IsSmall n t
  Serves-IsSmall n k opened = k
  Serves-IsSmall n k (called {t} {u} fuel e before runs) =
      rw runs at (next-IsSmall fuel n t (Serves-IsSmall n k before))

  -- Over every orderly source whose bytes are below 256, with a chunk size above 0 and more rounds
  -- than metadata bytes: if the constructor of `DbnReader` returns a reader, then in every state
  -- that any number of returning calls of `next()` leads it to, the buffer of its assembler has at
  -- most 1019 bytes more than the chunk size, and its scratch buffer has the chunk size.
  pub open_reader-IsSmall :
      (fuel : ℕ) (s : S) (chunk_size : ℕ) {r t : DbnReader S}
      → 0 < chunk_size
      → metadata_len (left s) < fuel
      → All IsByte (left s)
      → open_reader bytes fuel s chunk_size ≡ done (ok r)
      → Serves r t
      → (length t.assembler.buf ≤ 1019 + chunk_size) × (length t.scratch ≡ chunk_size)
  open_reader-IsSmall fuel s chunk_size {r} {t} room enough b runs served =
      let (o, runs', opens) =
        stream_open-OpensReader bytes left orderly fuel s chunk_size room enough in
      let small =
        Serves-IsSmall chunk_size
          (fresh-IsSmall chunk_size (left s) r b (rw (same o runs') at opens)) served in
      (small.buffer, small.scratch)
    where
      same :
          (o : Result DbnError (DbnReader S))
          → open_reader bytes fuel s chunk_size ≡ done o
          → o ≡ ok r
      same o e = cc (e, runs)
