-- ===== src/Prologue/Prefix.antt =====
-- dbn_reader.hpp: the prologue of a file of which more or fewer bytes are there.
use trading_engine_hh.Base.{
  ℕ, ◌+◌, ◌≤◌, ◌<◌, ◌≡◌, refl, sym, ap, ◌∙◌, List, ◌++◌, length, take, drop, get_or, drop-append_le,
  length-take, take-append-drop, take-append_le, get_or-append, length-append, length-drop, ok,
  arith,
}
use mathlib.Core.Path.{subst}
use trading_engine_hh.Prologue.{Opens, header_size, metadata_len}

module _ (f more : List ℕ) (long : header_size ≤ length f) where
  -- What follows the header does not change it.
  header-append : (i : ℕ) → i < header_size → get_or (f ++ more) i 0 ≡ get_or f i 0
  header-append i h = get_or-append i f more 0 (omega (arith, long))

  pub metadata_len-append : metadata_len (f ++ more) ≡ metadata_len f
  metadata_len-append =
      rw
        (
          drop-append_le 4 f more (omega (arith, long)),
          take-append_le 4 (drop 4 f) more (omega (arith, long, length-drop 4 f)),
        )
        refl

-- More bytes at the end of a file that opens.
pub Opens-append :
    (f more records : List ℕ) → Opens f (ok records) → Opens (f ++ more) (ok (records ++ more))
Opens-append f more records ((long, magic), version, fits, is) = (
  (
    omega (arith, long, length-append f more),
    (
      header-append f more long 0 (omega arith) ∙ magic.0,
      header-append f more long 1 (omega arith) ∙ magic.1,
      header-append f more long 2 (omega arith) ∙ magic.2,
    ),
  ),
  header-append f more long 3 (omega arith) ∙ version,
  omega (arith, metadata_len-append f more long, fits, length-append f more),
  rw (metadata_len-append f more long, is)
      (sym (drop-append_le (header_size + metadata_len f) f more fits)),
)

-- Bytes taken off the end of a file that opens, as long as the prologue stays.
Opens-prefix :
    (f more records : List ℕ)
    → Opens (f ++ more) (ok records)
    → header_size + metadata_len (f ++ more) ≤ length f
    → Opens f (ok (drop (header_size + metadata_len f) f))
Opens-prefix f more records ((_, magic), version, _, _) fits = (
  (
    long,
    (
      sym (header-append f more long 0 (omega arith)) ∙ magic.0,
      sym (header-append f more long 1 (omega arith)) ∙ magic.1,
      sym (header-append f more long 2 (omega arith)) ∙ magic.2,
    ),
  ),
  sym (header-append f more long 3 (omega arith)) ∙ version,
  omega (arith, metadata_len-append f more long, fits),
  refl,
)
  where
    long : header_size ≤ length f
    long = omega (arith, fits)

-- The front of a file that opens, if it holds the prologue.
module _ (n : ℕ) (f records : List ℕ) (opens : Opens f (ok records))
    (enough : header_size + metadata_len f ≤ n) where
  pub metadata_len-take : metadata_len (take n f) ≡ metadata_len f
  metadata_len-take =
      sym (
        metadata_len-append (take n f) (drop n f) (omega (arith, length-take n f, enough, opens.2)))
      ∙ ap metadata_len (take-append-drop n f)

  pub Opens-take : Opens (take n f) (ok (drop (header_size + metadata_len (take n f)) (take n f)))
  Opens-take =
      Opens-prefix (take n f) (drop n f) records
        (subst (λ f. Opens f (ok records)) (sym (take-append-drop n f)) opens)
        (omega (arith, enough, opens.2, length-take n f, ap metadata_len (take-append-drop n f)))
