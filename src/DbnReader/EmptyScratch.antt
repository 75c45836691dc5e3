-- ===== src/DbnReader/EmptyScratch.antt =====
-- dbn_reader.hpp: a `DbnReader` constructed with `chunk_size` 0.
use trading_engine_hh.Base.{
  none, ℕ, zero, suc, ◌-◌, ◌<◌, ◌≡◌, refl, sym, ap, ◌∙◌, inl, inr, List, [], ◌++◌, length, take,
  get_or, replicate, min, false, and_then, ok, done, out_of_fuel, length-append, length-take,
  take_all, ==_iff, lt→ltb, arith,
}
use trading_engine_hh.Prologue.{HasHeader, IsMagic, metadata_len, IsMagic-cases}
use trading_engine_hh.Route.{zero_stats, k_supported_dbn_version}
use trading_engine_hh.Source.{ByteSource, IsOrderly}
use trading_engine_hh.Frame.{IsPartial}
use trading_engine_hh.Frame.Contract.{frame_one-IsPartial}
use trading_engine_hh.Assembler
use trading_engine_hh.Assembler.{view, empty_assembler}
use trading_engine_hh.DbnReader
use trading_engine_hh.DbnReader.{DbnReader}
use trading_engine_hh.DbnReader.Opening
use trading_engine_hh.DbnReader.Filling.{FullyRead, read_fully-FullyRead}
use trading_engine_hh.DbnReader.{read_fully, skip_metadata, entered, open_reader}

module _ {S : Type 0} (bytes : ByteSource S) where
  -- A read into no buffer takes nothing and succeeds.
  read_fully-nil : (s : S) → read_fully bytes [] s ≡ done (0, [], s)
  unfolding read_fully
  read_fully-nil s = refl

  -- So each round of the loop over the metadata leaves it where it was.
  skip_round :
      (fuel m : ℕ) (s : S)
      → skip_metadata bytes (suc fuel) (suc m) [] s ≡ skip_metadata bytes fuel (suc m) [] s
  unfolding skip_metadata
  skip_round fuel m s =
      rw (lt→ltb 0 (suc m) (omega arith), none_wanted, read_fully-nil s, unchanged) refl
    where
      none_wanted : min (suc m) 0 ≡ 0
      none_wanted = omega arith

      unchanged : suc m - 0 ≡ suc m
      unchanged = omega arith

  skip_metadata-nil : (fuel m : ℕ) (s : S) → skip_metadata bytes fuel (suc m) [] s ≡ out_of_fuel
  skip_metadata-nil zero m s = unfold skip_metadata in refl
  skip_metadata-nil (suc fuel) m s = skip_round fuel m s ∙ skip_metadata-nil fuel m s

  skip_metadata-nil_pos :
      (fuel n : ℕ) (s : S) → 0 < n → skip_metadata bytes fuel n [] s ≡ out_of_fuel
  skip_metadata-nil_pos fuel zero s h = absurd (omega arith)
  skip_metadata-nil_pos fuel (suc m) s h = skip_metadata-nil fuel m s

-- The reader that the constructor begins with.
abbrev pub unscratched : {S : Type 0} → S → DbnReader S
unscratched s = record {
  source = s;
  assembler = empty_assembler;
  scratch = [];
  version = 0;
  failed = false;
  stats = zero_stats;
}

-- Once a supported header is read, the constructor skips the metadata.
header-accepted :
    {S : Type 0} (bytes : ByteSource S) (left : S → List ℕ)
    → IsOrderly bytes left
    → (fuel : ℕ) (s : S) → HasHeader (left s)
    → get_or (left s) 3 0 ≡ k_supported_dbn_version
    → (v : ℕ) × (s' : S) × (open_reader bytes fuel s 0
        ≡ and_then
            (skip_metadata bytes fuel (metadata_len (left s)) [] s')
            (λ skipped. done (entered bytes (unscratched s) v skipped)))
unfolding open_reader
header-accepted {S} bytes left orderly fuel s header_there version = elim (IsMagic-cases header) [
  | inr (wrong, t) ↦ absurd (wrong (IsMagic-back header_there.1))
  | inl (m, t) ↦ (
    get_or header 3 0,
    s',
    rw
        (
          runs,
          full,
          t,
          (==_iff _ _).1 (sym (agree 3 (omega arith)) ∙ version),
          Opening.same_len bytes left orderly (left s) header s' f.keeps_size front,
        )
        refl,
  )
]
  where
    filled :
        (k : ℕ) × (dst' : List ℕ) × (s' : S) × (read_fully bytes (replicate 8 0) s
          ≡ done (k, dst', s'))
        × FullyRead bytes left orderly (replicate 8 0) s k dst' s'
    filled = read_fully-FullyRead bytes left orderly (replicate 8 0) s

    k : ℕ
    k = filled.0

    header : List ℕ
    header = filled.1

    s' : S
    s' = filled.2

    runs : read_fully bytes (replicate 8 0) s ≡ done (k, header, s')
    runs = filled.3

    f : FullyRead bytes left orderly (replicate 8 0) s k header s'
    f = filled.4

    not_short : ¬ (k < 8)
    not_short short = omega (
      arith,
      header_there.0,
      ap length f.in_order,
      length-append (take k header) (left s'),
      length-take k header,
      ap length (f.short short),
    )

    full : k ≡ 8
    full = omega (arith, not_short, f.fits)

    front : left s ≡ header ++ left s'
    front = rw (take_all k header (omega (arith, f.keeps_size, full))) at f.in_order

    agree : (i : ℕ) → i < 8 → get_or (left s) i 0 ≡ get_or header i 0
    agree = Opening.agree bytes left orderly (left s) header s' f.keeps_size front

    IsMagic-back : IsMagic (left s) → IsMagic header
    IsMagic-back = Opening.IsMagic-back bytes left orderly (left s) header s' f.keeps_size front

-- Over every orderly source whose bytes begin with a supported header that announces metadata, the
-- constructor of `DbnReader` with chunk size 0 runs out of any number of rounds: it neither
-- returns nor throws.
pub open_reader-out_of_fuel :
    {S : Type 0} (bytes : ByteSource S) (left : S → List ℕ)
    → IsOrderly bytes left
    → (fuel : ℕ) (s : S) → HasHeader (left s)
    → get_or (left s) 3 0 ≡ k_supported_dbn_version
    → 0 < metadata_len (left s)
    → open_reader bytes fuel s 0 ≡ out_of_fuel
open_reader-out_of_fuel bytes left orderly fuel s header_there version announced =
    let (v, s', skips) = header-accepted bytes left orderly fuel s header_there version in
    skips ∙ rw (skip_metadata-nil_pos bytes fuel (metadata_len (left s)) s' announced) refl

-- Without metadata it returns.
pub open_reader-no_metadata :
    {S : Type 0} (bytes : ByteSource S) (left : S → List ℕ)
    → IsOrderly bytes left
    → (fuel : ℕ) (s : S) → HasHeader (left s)
    → get_or (left s) 3 0 ≡ k_supported_dbn_version
    → metadata_len (left s) ≡ 0
    → (v : ℕ) × (s' : S) × (open_reader bytes (suc fuel) s 0
        ≡ done (ok (record (unscratched s) { source = s'; version = v })))
open_reader-no_metadata bytes left orderly fuel s header_there version nothing =
    let (v, s', skips) = header-accepted bytes left orderly (suc fuel) s header_there version in
    (v, s', skips ∙ rw nothing (unfold skip_metadata in refl))

-- A reader with an empty scratch buffer and no whole record takes the end of the bytes for reached.
pub next-empty_scratch :
    {S : Type 0} (bytes : ByteSource S) (left : S → List ℕ)
    → IsOrderly bytes left
    → (fuel : ℕ) (r : DbnReader S) → r.scratch ≡ []
    → IsPartial (view r.assembler)
    → (r' : DbnReader S) × (DbnReader.next bytes (suc fuel) r ≡ done (none, r'))
      × (r'.stats ≡ r.stats)
      × (r'.failed ≡ r.failed)
unfolding DbnReader.next Assembler.next
next-empty_scratch bytes left orderly fuel r empty partial = (
  record r {
    source = (bytes.read r.source r.scratch).2;
    scratch = (bytes.read r.source r.scratch).1;
  },
  rw (frame_one-IsPartial (view r.assembler) partial, (==_iff _ _).1 nothing) refl,
  refl,
  refl,
)
  where
    nothing : (bytes.read r.source r.scratch).0 ≡ 0
    nothing = omega (arith, orderly.fits r.source r.scratch, ap length empty)
