-- ===== src/Source.antt =====
-- core/include/trading_sim/dbn_reader.hpp: where a streaming reader takes its bytes from. A source
-- has the shape `read(span) -> size_t`; `FileByteSource` is the source over `std::ifstream`, which is
-- the standard library's and a parameter here.
pub mod File
pub mod Faults
use trading_engine_hh.Base.{
  ℕ, ◌+◌, ◌≤◌, ◌<◌, ◌≡◌, List, [], ◌++◌, length, take, drop, if◌then◌else◌, Bool, Result, ok, err,
}
use trading_engine_hh.Prologue.{DbnError, cannot_open}

-- `read s dst` is the number of bytes read, the destination after the call, and the source.
pub record ByteSource (S : Type 0) : Type 0 where
  pub read : S → List ℕ → ℕ × List ℕ × S

-- A source that hands out the bytes `left s` in order, a call at a time, as many or as few as it
-- likes, and none only when nothing is left or nothing is asked for.
pub record IsOrderly {S : Type 0} (source : ByteSource S) (left : S → List ℕ) : Type 0 where
  pub keeps_size : (s : S) (dst : List ℕ) → length (source.read s dst).1 ≡ length dst
  pub fits : (s : S) (dst : List ℕ) → (source.read s dst).0 ≤ length dst
  pub in_order :
      (s : S) (dst : List ℕ)
      → left s ≡ take (source.read s dst).0 (source.read s dst).1 ++ left (source.read s dst).2
  pub none_at_end :
      (s : S) (dst : List ℕ) → 0 < length dst → (source.read s dst).0 ≡ 0 → left s ≡ []

-- The part of `std::ifstream` that the code uses. `fill f n` is `read(p, n)`: the bytes that it
-- stores from `p` on, `gcount()` many, and the stream after it.
pub record IStream (P F : Type 0) : Type 0 where
  pub open_binary : P → F
  pub is_good : F → Bool
  pub fill : F → ℕ → List ℕ × F

module _ {P F : Type 0} (io : IStream P F) where
  -- The constructor of `FileByteSource`.
  unfoldable pub open_file : P → Result DbnError F
  open_file path =
      let file = io.open_binary path in if io.is_good file then ok file else err cannot_open

  -- `FileByteSource::read`: the bytes stored replace the front of the destination.
  unfoldable pub read_file : F → List ℕ → ℕ × List ℕ × F
  read_file f dst =
      let (got, f') = io.fill f (length dst) in (length got, got ++ drop (length got) dst, f')

  abbrev pub file_source : ByteSource F
  file_source = record { read = read_file }
