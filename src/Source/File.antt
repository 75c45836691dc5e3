-- ===== src/Source/File.antt =====
-- dbn_reader.hpp: `FileByteSource` over a stream that keeps the standard's promise.
use trading_engine_hh.Base.{
  ℕ, ◌≡◌, refl, sym, List, length, take, drop, length-append, length-take, length-drop, take-append,
  take-append-drop, nil_of_length, min, arith,
}
use trading_engine_hh.Source.{IsOrderly, IStream, read_file, file_source}

-- `istream::read(p, n)` stores the next `n` characters of the file, or all that are left.
pub record ReadsFile {P F : Type 0} (io : IStream P F) (content : F → List ℕ) : Type 0 where
  pub stores : (f : F) (n : ℕ) → (io.fill f n).0 ≡ take n (content f)
  pub advances : (f : F) (n : ℕ) → content (io.fill f n).1 ≡ drop n (content f)

module _ {P F : Type 0} (io : IStream P F) (content : F → List ℕ) (law : ReadsFile io content) where
  length-stored : (f : F) (n : ℕ) → length (io.fill f n).0 ≡ min n (length (content f))
  length-stored f n = rw law.stores (length-take n (content f))

  -- Over a stream that stores the next bytes of its contents, as many as are asked for or are
  -- left, `FileByteSource` is an orderly source: it hands out the contents in order, never more
  -- than the destination holds, and nothing only at the end or into an empty destination.
  pub file_source-IsOrderly : IsOrderly (file_source io) content
  unfolding read_file
  file_source-IsOrderly = record {
    keeps_size = λ f dst. omega (
      arith,
      length-append (io.fill f (length dst)).0 (drop (length (io.fill f (length dst)).0) dst),
      length-drop (length (io.fill f (length dst)).0) dst,
      length-stored f (length dst),
    );
    fits = λ f dst. omega (arith, length-stored f (length dst));
    in_order = λ f dst.
        rw (take-append (io.fill f (length dst)).0 _ _ refl, law.stores, law.advances)
          (sym (take-append-drop (length dst) (content f)));
    none_at_end = λ f dst h e. nil_of_length _ (omega (arith, length-stored f (length dst)));
  }
