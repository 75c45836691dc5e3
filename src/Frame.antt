-- ===== src/Frame.antt =====
-- core/include/trading_sim/dbn_reader.hpp: `frame_one`, the framing decision on the front of a
-- buffer, and what it means for bytes to begin with a record.
pub mod Contract
pub mod Split
use trading_engine_hh.Base.{
  ℕ, ◌+◌, ◌*◌, ◌<◌, ◌≡◌, List, [], ◌∷◌, length, get_or, ltb, ◌==◌, if◌then◌else◌,
}

pub data FrameStatus : Type 0 where
  ok need_more corrupt : FrameStatus

pub record FrameResult : Type 0 where
  pub status : FrameStatus
  pub rtype : ℕ
  pub record_size : ℕ

-- A byte is at most 255, so `length * 4` is at most 1020 and does not wrap. `buf[0]` and `buf[1]`
-- are read only after the size test.
unfoldable pub frame_one : List ℕ → FrameResult
frame_one buf =
    let record_size = get_or buf 0 0 * 4 in
    if ltb (length buf) 2
    then record { status = need_more; rtype = 0; record_size = 0 }
    else if record_size == 0
    then record { status = corrupt; rtype = 0; record_size = 0 }
    else if ltb (length buf) record_size
    then record { status = need_more; rtype = 0; record_size = 0 }
    else record { status = ok; rtype = get_or buf 1 0; record_size = record_size }

-- One whole record: its first byte counts its 4-byte words.
abbrev pub IsRecord : List ℕ → Type 0
IsRecord [] = ⊥
IsRecord (l ∷ []) = ⊥
IsRecord (l ∷ t ∷ body) = (0 < l) × (length (l ∷ t ∷ body) ≡ 4 * l)

-- Less than the record that it begins with, but more bytes may complete it.
abbrev pub IsPartial : List ℕ → Type 0
IsPartial [] = Unit {0}
IsPartial (l ∷ []) = Unit {0}
IsPartial (l ∷ t ∷ body) = (0 < l) × (length (l ∷ t ∷ body) < 4 * l)

-- A record of no words: no further byte can help.
abbrev pub IsCorrupt : List ℕ → Type 0
IsCorrupt [] = ⊥
IsCorrupt (l ∷ []) = ⊥
IsCorrupt (l ∷ t ∷ body) = l ≡ 0
