-- ===== src/Assembler/Span/Lifetime.antt =====
-- dbn_reader.hpp: how long a span of `RecordAssembler::next` can be read.
use trading_engine_hh.Base.{
  ℕ, suc, ◌≤◌, ◌<◌, ◌≡◌, refl, ap, ◌∙◌, List, ◌==◌, none, some, Bool-cases, inl, inr, ==_iff, arith,
}
use trading_engine_hh.Frame.{FrameStatus, FrameResult, frame_one}
use trading_engine_hh.Assembler
use trading_engine_hh.Assembler.{
  PullStatus, record_pulled, need_more, corrupt, Pull, RecordAssembler, view, append,
}
use trading_engine_hh.Assembler.Buffer.{IsValid}
use trading_engine_hh.Assembler.Span.{
  Span, SpanPull, Held, append_held, span_framed, next_span, deref, deref-none, handed, withheld,
  next_span-Spans,
}

append_held-epoch :
    (grow : ℕ → ℕ → ℕ) (h : Held) (chunk : List ℕ) → h.epoch ≤ (append_held grow h chunk).epoch
unfolding append_held
append_held-epoch grow h chunk = ground arith

-- Where bytes are consumed, an `append` ends all references.
append_held-reclaim :
    (grow : ℕ → ℕ → ℕ) (h : Held) (chunk : List ℕ)
    → 0 < h.assembler.read_pos
    → h.epoch < (append_held grow h chunk).epoch
unfolding append_held
append_held-reclaim grow h chunk consumed = ground arith

-- What a caller may do with the assembler, with the number of appends.
pub data Uses (grow : ℕ → ℕ → ℕ) (h : Held) : ℕ → Held → Type 0 where
  unused : Uses grow h 0 h
  pulled : {n : ℕ} {k : Held} → Uses grow h n k → Uses grow h n (next_span k).1
  appended :
      {n : ℕ} {k : Held} (chunk : List ℕ)
      → Uses grow h n k
      → Uses grow h (suc n) (append_held grow k chunk)

-- Pulling moves neither the bytes nor the buffer, and does not take the cursor back.
record Unmoved (h k : Held) : Type 0 where
  buf : k.assembler.buf ≡ h.assembler.buf
  epoch : k.epoch ≡ h.epoch
  onward : h.assembler.read_pos ≤ k.assembler.read_pos

next_span-Unmoved : (h : Held) → Unmoved h (next_span h).1
unfolding next_span
next_span-Unmoved h = by_status (frame_one (view h.assembler)).status (frame_one (view h.assembler))
  where
    by_status :
        (t : FrameStatus) (r : FrameResult) → Unmoved h (span_framed h (record r { status = t })).1
    by_status FrameStatus.ok r = record { buf = refl; epoch = refl; onward = omega arith }
    by_status FrameStatus.need_more r = record { buf = refl; epoch = refl; onward = omega arith }
    by_status FrameStatus.corrupt r = record { buf = refl; epoch = refl; onward = omega arith }

Unmoved-Unmoved : (h k l : Held) → Unmoved h k → Unmoved k l → Unmoved h l
Unmoved-Unmoved h k l m m' = record {
  buf = m'.buf ∙ m.buf;
  epoch = m'.epoch ∙ m.epoch;
  onward = omega (arith, m.onward, m'.onward);
}

Uses-Unmoved : {grow : ℕ → ℕ → ℕ} {h k : Held} {n : ℕ} → Uses grow h n k → n ≡ 0 → Unmoved h k
Uses-Unmoved unused e = record { buf = refl; epoch = refl; onward = omega arith }
Uses-Unmoved {h = h} (pulled {n} {k} u) e =
    Unmoved-Unmoved h k (next_span k).1 (Uses-Unmoved u e) (next_span-Unmoved k)
Uses-Unmoved (appended chunk u) e = absurd (omega arith)

-- After an append to an assembler that has consumed something.
Uses-epoch :
    {grow : ℕ → ℕ → ℕ} {h k : Held} {n : ℕ}
    → Uses grow h n k
    → 0 < h.assembler.read_pos
    → 0 < n
    → h.epoch < k.epoch
Uses-epoch unused consumed some_appended = absurd (omega arith)
Uses-epoch (pulled {n} {k} u) consumed some_appended =
    omega (arith, Uses-epoch u consumed some_appended, (next_span-Unmoved k).epoch)
Uses-epoch {grow} (appended {n} {k} chunk u) consumed some_appended = elim (Bool-cases (n == 0)) [
  | inr before ↦
      omega (arith, Uses-epoch u consumed (ground (arith, before)), append_held-epoch grow k chunk)
  | inl first ↦
      let m = Uses-Unmoved u ((==_iff n 0).0 first) in
      omega (arith, m.epoch, append_held-reclaim grow k chunk (omega (arith, consumed, m.onward)))
]

deref-Unmoved : (h k : Held) (s : Span) → Unmoved h k → deref k s ≡ deref h s
deref-Unmoved h k s m = rw (m.epoch, m.buf) refl

-- Where `erase` ends the references to what it erases and what is behind that, and `insert` at the
-- end ends all references exactly if the capacity does not hold the new size, whatever capacity is
-- taken then: if `next` on a valid assembler hands out a span, it says that a record was pulled,
-- and after any number of further pulls the span views exactly the bytes of that record, while
-- after any use with at least one `append` it views nothing, since the record is consumed by then
-- and the `append` erases it.
pub next_span-Uses :
    (grow : ℕ → ℕ → ℕ) (h k : Held) (s : Span) {n : ℕ}
    → IsValid h.assembler
    → (next_span h).0.span ≡ some s
    → Uses grow (next_span h).1 n k
    → ((next_span h).0.status ≡ record_pulled)
      × (n ≡ 0 → deref k s ≡ some (Assembler.next h.assembler).0.bytes)
      × (0 < n → deref k s ≡ none)
next_span-Uses grow h k s {n} v e u = elim (next_span-Spans h v) [
  | handed rec s' a byte_level is same_epoch advanced buf v' read ↦
      let same : s' ≡ s = cc (ap (λ (p : SpanPull × Held). p.0.span) is, e) in
      let after : (next_span h).1 ≡ record h { assembler = a } = ap (λ p. p.1) is in
      let consumed : 0 < (next_span h).1.assembler.read_pos = rw after advanced in
      (
        ap (λ p. p.0.status) is,
        λ none_appended.
            deref-Unmoved (next_span h).1 k s (Uses-Unmoved u none_appended)
            ∙ rw (is, byte_level, ← same) read,
        λ some_appended. deref-none k s (
            omega (
              arith,
              Uses-epoch u consumed some_appended,
              (next_span-Unmoved h).epoch,
              same_epoch,
              ap (λ (z : Span). z.epoch) same,
            )),
      )
  | withheld t byte_level is wrong ↦ cc (ap (λ (p : SpanPull × Held). p.0.span) is, e)
]
