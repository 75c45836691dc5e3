-- ===== src/MmapDbnReader/Open.antt =====
-- dbn_reader.hpp: the constructor of `MmapDbnReader`.
use trading_engine_hh.Base.{
  ℕ, ◌+◌, ◌≡◌, refl, inl, inr, false, Bool-cases, List, length, get_or, ltb, ltb→lt, ltb→le, ◌==◌,
  ==_iff, Result, ok, err,
}
use trading_engine_hh.Route.{zero_stats, k_supported_dbn_version}
use trading_engine_hh.Prologue.{DbnError, Opens, header_size, metadata_len, IsMagic-cases}
use trading_engine_hh.MmapDbnReader.{MmapDbnReader, open_reader, rest}
use trading_engine_hh.MmapDbnReader.Contract.{IsReady}

-- What a reader that has just been opened over the file `f` has to be.
pub record IsFresh (f : List ℕ) (r : MmapDbnReader) : Type 0 where
  pub records : Opens f (ok (rest r))
  pub ready : IsReady r
  pub version : r.version ≡ k_supported_dbn_version
  pub failed : r.failed ≡ false
  pub stats : r.stats ≡ zero_stats

abbrev pub OpensReader : List ℕ → Result DbnError MmapDbnReader → Type 0
OpensReader f (ok r) = IsFresh f r
OpensReader f (err x) = Opens f (err x)

-- On every file the constructor of `MmapDbnReader` throws the error that `Opens` owes for the
-- bytes of the file, or its reader stands before the first record of a supported file, in its
-- invariant, with the supported version, nothing counted and nothing failed.
pub mmap_open-OpensReader : (f : List ℕ) → OpensReader f (open_reader f)
unfolding open_reader
mmap_open-OpensReader f = elim (Bool-cases (ltb (length f) header_size)) [
  | inl short ↦ rw short (ltb→lt _ _ short)
  | inr long ↦ elim (IsMagic-cases f) [
    | inr (wrong, t) ↦ rw (long, t) (ltb→le _ _ long, wrong)
    | inl (magic, t) ↦ elim (Bool-cases (get_or f 3 0 == k_supported_dbn_version)) [
      | inr other ↦
          rw (long, t, other) ((ltb→le _ _ long, magic), refl, λ e. cc (other, (==_iff _ _).1 e))
      | inl one ↦ elim (Bool-cases (ltb (length f) (header_size + metadata_len f))) [
        | inl cut ↦
            rw (long, t, one, cut) ((ltb→le _ _ long, magic), (==_iff _ _).0 one, ltb→lt _ _ cut)
        | inr full ↦
            rw (long, t, one, full)
              (record {
                records = ((ltb→le _ _ long, magic), (==_iff _ _).0 one, ltb→le _ _ full, refl);
                ready = record { inside = ltb→le _ _ full; truthful = λ set. cc };
                version = (==_iff _ _).0 one;
                failed = refl;
                stats = refl;
              })
      ]
    ]
  ]
]
