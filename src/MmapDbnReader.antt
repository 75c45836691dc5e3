-- ===== src/MmapDbnReader.antt =====
-- core/include/trading_sim/dbn_reader.hpp: `MmapDbnReader`, a cursor that walks a mapped file.
pub mod Contract
pub mod Sticky
pub mod Open
pub mod Owned
pub mod Interleaved
use trading_engine_hh.Base.{
  ℕ, zero, suc, ◌+◌, Bool, true, false, not, List, length, take, drop, get_or, ltb, ◌==◌,
  if◌then◌else◌, Option, none, some, Result, ok, err, Run, done, out_of_fuel,
}
use trading_engine_hh.Event.{Event}
use trading_engine_hh.Frame.{FrameStatus, FrameResult, frame_one}
use trading_engine_hh.Route.{IngestStats, zero_stats, route_record, tally, k_supported_dbn_version}
use trading_engine_hh.Prologue.{
  DbnError, truncated_header, bad_magic, unsupported_version, truncated_metadata, header_size,
  wrong_magic, metadata_len,
}

-- `map` is what `map_.bytes()` views: the file's bytes, which stay as they are.
pub record MmapDbnReader : Type 0 where
  pub map : List ℕ
  pub cursor : ℕ
  pub version : ℕ
  pub failed : Bool
  pub stats : IngestStats

-- `8 + metadata_len` is below 2 ^ 33 and does not wrap.
unfoldable pub skip_prologue : MmapDbnReader → Result DbnError MmapDbnReader
skip_prologue r =
    let f = r.map in
    if ltb (length f) header_size
    then err truncated_header
    else if wrong_magic f
    then err bad_magic
    else if not (get_or f 3 0 == k_supported_dbn_version)
    then err (unsupported_version (get_or f 3 0))
    else if ltb (length f) (header_size + metadata_len f)
    then err truncated_metadata
    else ok (record r { version = get_or f 3 0; cursor = header_size + metadata_len f })

-- The constructor, over a file that is mapped.
unfoldable pub open_reader : List ℕ → Result DbnError MmapDbnReader
unfolding skip_prologue
open_reader f =
    skip_prologue (record { map = f; cursor = 0; version = 0; failed = false; stats = zero_stats })

-- `map_.bytes().subspan(cursor_)`. The cursor does not pass the end of the file.
abbrev pub rest : MmapDbnReader → List ℕ
rest r = drop r.cursor r.map

-- The reader once a framed record is counted and the cursor is past it.
abbrev pub past : MmapDbnReader → FrameResult → IngestStats → MmapDbnReader
past r f counted = record r { cursor = r.cursor + f.record_size; stats = counted }

-- `return *e` for an event; for a skipped record `continue`, which `again` stands for.
abbrev pub emit_or_skip :
    MmapDbnReader
    → FrameResult
    → Option Event × IngestStats
    → (MmapDbnReader → Run (Option Event × MmapDbnReader))
    → Run (Option Event × MmapDbnReader)
emit_or_skip r f (some e, counted) again = done (some e, past r f counted)
emit_or_skip r f (none, counted) again = again (past r f counted)

-- One case for each `FrameStatus`.
abbrev pub next_round :
    MmapDbnReader
    → FrameResult
    → (MmapDbnReader → Run (Option Event × MmapDbnReader))
    → Run (Option Event × MmapDbnReader)
next_round r f again = elim f.status [
  | FrameStatus.ok ↦
      emit_or_skip r f (tally r.stats (route_record (take f.record_size (rest r)))) again
  | FrameStatus.need_more ↦ done (none, r)
  | FrameStatus.corrupt ↦ done (none, record r { failed = true })
]

unfoldable pub next : ℕ → MmapDbnReader → Run (Option Event × MmapDbnReader)
next zero r = out_of_fuel
next (suc fuel) r = next_round r (frame_one (rest r)) (λ s. next fuel s)
