-- ===== src/Assembler/Span.antt =====
-- core/include/trading_sim/dbn_reader.hpp: the span that `RecordAssembler::next` hands out, and its
-- lifetime in the `std::vector` of the assembler. References into a vector live as the standard says:
-- `erase` ends those to the first erased element and behind it, and `insert` at the end ends all of them
-- if the new size is more than the capacity, and none otherwise.
pub mod Lifetime
use trading_engine_hh.Base.{
  ℕ, suc, ◌+◌, ◌≤◌, ◌<◌, ◌≡◌, refl, ap, ◌∙◌, List, [], ◌++◌, length, length-append, length-drop,
  take, take-append, drop, ◌==◌, ◌&&◌, not, ltb, if◌then◌else◌, get_or, Option, none, some,
  Bool-cases, inl, inr, ==_iff, arith,
}
use trading_engine_hh.Frame.{FrameStatus, FrameResult, IsRecord, frame_one}
use trading_engine_hh.Frame.Contract.{
  front, whole, part, lost, record_nonempty, frame_one-IsRecord, frame_one-IsPartial,
  frame_one-IsCorrupt_whole,
}
use trading_engine_hh.Assembler
use trading_engine_hh.Assembler.{
  PullStatus, record_pulled, need_more, corrupt, Pull, RecordAssembler, view, append,
}
use trading_engine_hh.Assembler.Buffer.{IsValid}

-- References of an earlier epoch have ended.
pub record Span : Type 0 where
  pub epoch : ℕ
  pub start : ℕ
  pub size : ℕ

-- `Pull` as the source has it.
pub record SpanPull : Type 0 where
  pub status : PullStatus
  pub span : Option Span

-- An assembler, with the capacity of its vector and how often the references into it have ended.
pub record Held : Type 0 where
  pub assembler : RecordAssembler
  pub capacity : ℕ
  pub epoch : ℕ

-- `buf_.erase` from the beginning, if something is consumed.
abbrev pub reclaim : Held → Held
reclaim h = if h.assembler.read_pos == 0 then h else record h {
  assembler = record { buf = drop h.assembler.read_pos h.assembler.buf; read_pos = 0 };
  epoch = suc h.epoch;
}

-- `buf_.insert` at the end; `grow` is the capacity that the library takes when it needs more.
abbrev pub insert_end : (ℕ → ℕ → ℕ) → Held → List ℕ → Held
insert_end grow h chunk =
    let size = length h.assembler.buf + length chunk in
    let longer : RecordAssembler = record h.assembler { buf = h.assembler.buf ++ chunk } in
    if ltb h.capacity size
    then record { assembler = longer; capacity = grow h.capacity size; epoch = suc h.epoch }
    else record h { assembler = longer }

unfoldable pub append_held : (ℕ → ℕ → ℕ) → Held → List ℕ → Held
append_held grow h chunk = insert_end grow (reclaim h) chunk

abbrev pub span_framed : Held → FrameResult → SpanPull × Held
span_framed h r = elim r.status [
  | FrameStatus.ok ↦ (
    record {
      status = record_pulled;
      span = some (record { epoch = h.epoch; start = h.assembler.read_pos; size = r.record_size });
    },
    record h { assembler = record h.assembler { read_pos = h.assembler.read_pos + r.record_size } },
  )
  | FrameStatus.need_more ↦ (record { status = need_more; span = none }, h)
  | FrameStatus.corrupt ↦ (record { status = corrupt; span = none }, h)
]

unfoldable pub next_span : Held → SpanPull × Held
next_span h = span_framed h (frame_one (view h.assembler))

-- The bytes that the span views, if its references have not ended: to read it later is undefined.
abbrev pub deref : Held → Span → Option (List ℕ)
deref h s =
    if s.epoch == h.epoch && not (ltb (length h.assembler.buf) (s.start + s.size))
    then some (take s.size (drop s.start h.assembler.buf))
    else none

-- What `next_span` gives beside `RecordAssembler::next` on the same bytes.
pub data Spans (h : Held) (p : SpanPull × Held) : Type 0 where
  handed :
      (rec : List ℕ) (s : Span) (a : RecordAssembler)
      → Assembler.next h.assembler ≡ (record { status = record_pulled; bytes = rec }, a)
      → p ≡ (record { status = record_pulled; span = some s }, record h { assembler = a })
      → s.epoch ≡ h.epoch
      → 0 < a.read_pos
      → a.buf ≡ h.assembler.buf
      → IsValid a
      → deref (record h { assembler = a }) s ≡ some rec
      → Spans h p
  withheld :
      (t : PullStatus)
      → Assembler.next h.assembler ≡ (record { status = t; bytes = [] }, h.assembler)
      → p ≡ (record { status = t; span = none }, h)
      → ¬ (t ≡ record_pulled)
      → Spans h p

deref-some :
    (h : Held) (s : Span)
    → s.epoch ≡ h.epoch
    → s.start + s.size ≤ length h.assembler.buf
    → deref h s ≡ some (take s.size (drop s.start h.assembler.buf))
deref-some h s e fits = ground arith

pub deref-none : (h : Held) (s : Span) → s.epoch < h.epoch → deref h s ≡ none
deref-none h s e = ground arith

next_span-record :
    (h : Held)
    → IsValid h.assembler
    → (rec rest : List ℕ) → view h.assembler ≡ rec ++ rest
    → IsRecord rec
    → Spans h (next_span h)
unfolding next_span Assembler.next
next_span-record h v rec rest e r =
    handed rec s a (rw (framed, taken) refl) (rw framed refl) refl advanced refl inside
      (deref-some (record h { assembler = a }) s refl inside ∙ ap some taken)
  where
    s : Span
    s = record { epoch = h.epoch; start = h.assembler.read_pos; size = length rec }

    a : RecordAssembler
    a = record h.assembler { read_pos = h.assembler.read_pos + length rec }

    framed :
        frame_one (view h.assembler)
        ≡ record { status = FrameStatus.ok; rtype = get_or rec 1 0; record_size = length rec }
    framed = rw e (frame_one-IsRecord rec rest r)

    taken : take (length rec) (view h.assembler) ≡ rec
    taken = rw e (take-append rec rest (length rec) refl)

    advanced : 0 < a.read_pos
    advanced = omega (arith, record_nonempty rec r)

    inside : h.assembler.read_pos + length rec ≤ length h.assembler.buf
    inside = omega (
      arith,
      ap length e,
      length-append rec rest,
      length-drop h.assembler.read_pos h.assembler.buf,
    )

pub next_span-Spans : (h : Held) → IsValid h.assembler → Spans h (next_span h)
unfolding next_span Assembler.next
next_span-Spans h v = elim (front (view h.assembler)) [
  | whole rec rest e r ↦ next_span-record h v rec rest e r
  | part p ↦
      withheld need_more (rw (frame_one-IsPartial (view h.assembler) p) refl)
        (rw (frame_one-IsPartial (view h.assembler) p) refl) (λ e. cc e)
  | lost c ↦
      withheld corrupt (rw (frame_one-IsCorrupt_whole (view h.assembler) c) refl)
        (rw (frame_one-IsCorrupt_whole (view h.assembler) c) refl) (λ e. cc e)
]

-- The assembler is that of `append`.
pub append_held-append :
    (grow : ℕ → ℕ → ℕ) (h : Held) (chunk : List ℕ)
    → (append_held grow h chunk).assembler ≡ append h.assembler chunk
unfolding append_held append
append_held-append grow h chunk = ground arith
