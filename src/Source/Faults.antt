-- ===== src/Source/Faults.antt =====
-- dbn_reader.hpp: `FileByteSource` over a stream whose medium fails part of the way. The stream then
-- stores what it got before, and nothing later: `read` has no other answer for a failure.
use trading_engine_hh.Base.{ℕ, ◌-◌, ◌≡◌, sym, ◌∙◌, List, take, drop, min, take-take, drop-take}
use trading_engine_hh.Source.{IStream}
use trading_engine_hh.Source.File.{ReadsFile}

-- `istream::read(p, n)` stores the next `n` characters, or those before the first one that cannot
-- be read; `reach f` of the rest of the file `content f` can be.
pub record ReadsUntilFault {P F : Type 0} (io : IStream P F) (content : F → List ℕ) (reach : F → ℕ)
    : Type 0 where
  pub stores : (f : F) (n : ℕ) → (io.fill f n).0 ≡ take (min n (reach f)) (content f)
  pub advances : (f : F) (n : ℕ) → content (io.fill f n).1 ≡ drop n (content f)
  pub comes_closer : (f : F) (n : ℕ) → reach (io.fill f n).1 ≡ reach f - n

-- The bytes of a file that can be read.
abbrev pub readable : {F : Type 0} → (F → List ℕ) → (F → ℕ) → F → List ℕ
readable content reach f = take (reach f) (content f)

-- To its client the stream is one over a shorter file.
pub readable-ReadsFile :
    {P F : Type 0} (io : IStream P F) (content : F → List ℕ) (reach : F → ℕ)
    → ReadsUntilFault io content reach
    → ReadsFile io (readable content reach)
readable-ReadsFile io content reach law = record {
  stores = λ f n. law.stores f n ∙ sym (take-take n (reach f) (content f));
  advances = λ f n. rw (law.comes_closer, law.advances) (sym (drop-take n (reach f) (content f)));
}
