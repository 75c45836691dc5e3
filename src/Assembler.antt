-- ===== src/Assembler.antt =====
-- core/include/trading_sim/dbn_reader.hpp: `RecordAssembler`, which stitches records together
-- across the chunks that a source delivers.
pub mod Buffer
pub mod Drain
pub mod Span
pub mod Queue
pub mod Abstract
use trading_engine_hh.Base.{
  ℕ, zero, suc, ◌+◌, ◌-◌, List, [], ◌∷◌, ◌++◌, length, take, drop, ◌==◌, if◌then◌else◌, Run, done,
  out_of_fuel, and_then,
}
use trading_engine_hh.Frame.{FrameStatus, FrameResult, frame_one}

pub data PullStatus : Type 0 where
  record_pulled need_more corrupt : PullStatus

-- The bytes of the span are those it views at the time of the call.
pub record Pull : Type 0 where
  pub status : PullStatus
  pub bytes : List ℕ

pub record RecordAssembler : Type 0 where
  pub buf : List ℕ
  pub read_pos : ℕ

abbrev pub empty_assembler : RecordAssembler
empty_assembler = record { buf = []; read_pos = 0 }

-- `buf_.erase` up to the cursor, unless nothing was consumed, then `buf_.insert` at the end.
unfoldable pub append : RecordAssembler → List ℕ → RecordAssembler
append a chunk =
    let compacted : RecordAssembler =
      if a.read_pos == 0 then a else record { buf = drop a.read_pos a.buf; read_pos = 0 } in
    record compacted { buf = compacted.buf ++ chunk }

-- The span from the cursor on. The cursor does not pass the end of the buffer, so its size
-- `buf_.size() - read_pos_` does not wrap.
abbrev pub view : RecordAssembler → List ℕ
view a = drop a.read_pos a.buf

-- The new cursor is at most the size of the buffer, so the sum does not wrap.
abbrev pub pull_framed : RecordAssembler → FrameResult → Pull × RecordAssembler
pull_framed a r = elim r.status [
  | FrameStatus.ok ↦ (
    record { status = record_pulled; bytes = take r.record_size (view a) },
    record a { read_pos = a.read_pos + r.record_size },
  )
  | FrameStatus.need_more ↦ (record { status = need_more; bytes = [] }, a)
  | FrameStatus.corrupt ↦ (record { status = corrupt; bytes = [] }, a)
]

unfoldable pub next : RecordAssembler → Pull × RecordAssembler
next a = pull_framed a (frame_one (view a))

unfoldable pub buffered : RecordAssembler → ℕ
buffered a = length a.buf - a.read_pos

-- The loop of fuzz/frame_fuzz_libfuzzer.cpp over one assembler: pull until the answer is not a
-- record. The records pulled, the answer that ended the loop and the assembler are the result.
pub record Drained : Type 0 where
  pub records : List (List ℕ)
  pub status : PullStatus
  pub assembler : RecordAssembler

abbrev pub with_record : List ℕ → Drained → Drained
with_record rec d = record d { records = rec ∷ d.records }

abbrev pub after_pull : Pull × RecordAssembler → (RecordAssembler → Run Drained) → Run Drained
after_pull (p, a) again = elim p.status [
  | record_pulled ↦ and_then (again a) (λ d. done (with_record p.bytes d))
  | need_more ↦ done (record { records = []; status = need_more; assembler = a })
  | corrupt ↦ done (record { records = []; status = corrupt; assembler = a })
]

unfoldable pub drain : ℕ → RecordAssembler → Run Drained
drain zero a = out_of_fuel
drain (suc fuel) a = after_pull (next a) (λ b. drain fuel b)
