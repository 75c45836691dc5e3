-- ===== src/Assembler/Buffer.antt =====
-- dbn_reader.hpp: one call of `RecordAssembler::append`, `next` and `buffered`.
use trading_engine_hh.Base.{
  ℕ, ◌+◌, ◌≤◌, ◌≡◌, refl, sym, ap, ◌∙◌, List, [], ◌++◌, length, take, drop, length-append,
  length-drop, take-append, drop-append, drop-append_le, drop-drop, get_or, ◌==◌, ==_iff,
  Bool-cases, inl, inr, arith,
}
use trading_engine_hh.Frame.{FrameStatus, frame_one, IsRecord, IsPartial, IsCorrupt}
use trading_engine_hh.Frame.Contract.{
  whole, part, lost, front, frame_one-IsRecord, frame_one-IsPartial, frame_one-IsCorrupt_whole,
}
use trading_engine_hh.Assembler.{
  record_pulled, need_more, corrupt, Pull, RecordAssembler, append, view, next, buffered,
}

-- The cursor stands inside the buffer or at its end.
abbrev pub IsValid : RecordAssembler → Type 0
IsValid a = a.read_pos ≤ length a.buf

-- What `append` must leave: a valid assembler that holds the bytes not yet consumed, then the chunk,
-- and no consumed byte.
pub record Appended (a : RecordAssembler) (chunk : List ℕ) (a' : RecordAssembler) : Type 0 where
  pub valid : IsValid a'
  pub bytes : view a' ≡ view a ++ chunk
  pub reclaimed : length a'.buf ≡ buffered a + length chunk

-- On every valid assembler `append` gives a valid assembler whose unconsumed bytes are those
-- before and the chunk, in order, and whose buffer holds no consumed byte.
pub append-Appended :
    (a : RecordAssembler) (chunk : List ℕ) → IsValid a → Appended a chunk (append a chunk)
unfolding append buffered
append-Appended a chunk v = elim (Bool-cases (a.read_pos == 0)) [
  | inl e ↦
      let start : a.read_pos ≡ 0 = (==_iff _ _).0 e in
      rw e (record {
        valid = omega (arith, length-append a.buf chunk);
        bytes = drop-append_le a.read_pos a.buf chunk v;
        reclaimed = omega (arith, length-append a.buf chunk, start);
      })
  | inr e ↦ rw e (record {
    valid = omega arith;
    bytes = refl;
    reclaimed =
        omega (arith, length-append (drop a.read_pos a.buf) chunk, length-drop a.read_pos a.buf);
  })
]

-- What `next` must answer: the record at the front, and then the assembler is past it and its buffer
-- as before, or else why there is none, and then the assembler is unchanged.
pub data Pulls (a : RecordAssembler) (p : Pull × RecordAssembler) : Type 0 where
  record_at_front :
      (rec : List ℕ) (a' : RecordAssembler)
      → p ≡ (record { status = record_pulled; bytes = rec }, a')
      → IsRecord rec
      → view a ≡ rec ++ view a'
      → IsValid a'
      → a'.buf ≡ a.buf
      → Pulls a p
  ran_dry : p ≡ (record { status = need_more; bytes = [] }, a) → IsPartial (view a) → Pulls a p
  broken : p ≡ (record { status = corrupt; bytes = [] }, a) → IsCorrupt (view a) → Pulls a p

-- A framed record at the front of the view moves the cursor past it.
next-record :
    (a : RecordAssembler) (rec rest : List ℕ)
    → IsValid a
    → IsRecord rec
    → view a ≡ rec ++ rest
    → Pulls a (next a)
unfolding next
next-record a rec rest v r e =
    record_at_front rec (record a { read_pos = a.read_pos + length rec }) (rw (framed, taken) refl)
      r (rw dropped e) inside refl
  where
    framed :
        frame_one (view a)
        ≡ record { status = FrameStatus.ok; rtype = get_or rec 1 0; record_size = length rec }
    framed = rw e (frame_one-IsRecord rec rest r)

    taken : take (length rec) (view a) ≡ rec
    taken = rw e (take-append rec rest (length rec) refl)

    dropped : drop (a.read_pos + length rec) a.buf ≡ rest
    dropped =
        sym (drop-drop (length rec) a.read_pos a.buf)
        ∙ rw e (drop-append rec rest (length rec) refl)

    inside : a.read_pos + length rec ≤ length a.buf
    inside = omega (arith, ap length e, length-append rec rest, length-drop a.read_pos a.buf)

-- On every valid assembler `next` pulls a record from the front of the unconsumed bytes and leaves
-- the bytes after it, a valid position and the same buffer, or leaves the assembler as it is, with
-- `need_more` before a part of a record and `corrupt` before a record of no words.
pub next-Pulls : (a : RecordAssembler) → IsValid a → Pulls a (next a)
next-Pulls a v = elim (front (view a)) [
  | whole rec rest e r ↦ next-record a rec rest v r e
  | part p ↦ unfold next in ran_dry (rw (frame_one-IsPartial (view a) p) refl) p
  | lost c ↦ unfold next in broken (rw (frame_one-IsCorrupt_whole (view a) c) refl) c
]

pub buffered-length : (a : RecordAssembler) → buffered a ≡ length (view a)
unfolding buffered
buffered-length a = sym (length-drop a.read_pos a.buf)
