-- ===== src/Prologue.antt =====
-- core/include/trading_sim/dbn_reader.hpp: what a DBN prologue is (the fixed 8-byte header and the
-- metadata it announces), for both readers' `skip_prologue_`.
pub mod Prefix
use trading_engine_hh.Base.{
  ℕ, ◌+◌, ◌≤◌, ◌<◌, ◌≡◌, ◌≢◌, ◌⊎◌, inl, inr, Bool, true, false, Bool-cases, ==_iff, not, ◌||◌, List,
  length, drop, get_or, ◌==◌, Result, ok, err, arith,
}
use trading_engine_hh.Base.Bytes.{field_at}
use trading_engine_hh.Route.{k_supported_dbn_version}

-- The exceptions of the constructors, by the reason that their text gives.
pub data DbnError : Type 0 where
  cannot_open truncated_header bad_magic truncated_metadata : DbnError
  unsupported_version : ℕ → DbnError

abbrev pub header_size : ℕ
header_size = 8

-- `header[0] != 'D' || header[1] != 'B' || header[2] != 'N'`
abbrev pub wrong_magic : List ℕ → Bool
wrong_magic f =
    not (get_or f 0 0 == b'D') || not (get_or f 1 0 == b'B') || not (get_or f 2 0 == b'N')

-- The u32 at offset 4.
abbrev pub metadata_len : List ℕ → ℕ
metadata_len f = field_at 4 4 f

abbrev pub IsMagic : List ℕ → Type 0
IsMagic f = (get_or f 0 0 ≡ b'D') × (get_or f 1 0 ≡ b'B') × (get_or f 2 0 ≡ b'N')

abbrev pub HasHeader : List ℕ → Type 0
HasHeader f = (header_size ≤ length f) × IsMagic f

-- What opening a file with contents `f` owes: the bytes of the records, or the first thing that is
-- wrong.
abbrev pub Opens : List ℕ → Result DbnError (List ℕ) → Type 0
Opens f (ok records) =
    HasHeader f
    × (get_or f 3 0 ≡ k_supported_dbn_version)
    × (header_size + metadata_len f ≤ length f)
    × (records ≡ drop (header_size + metadata_len f) f)
Opens f (err cannot_open) = ⊥
Opens f (err truncated_header) = length f < header_size
Opens f (err bad_magic) = (header_size ≤ length f) × (¬ IsMagic f)
Opens f (err (unsupported_version v)) =
    HasHeader f × (get_or f 3 0 ≡ v) × (v ≢ k_supported_dbn_version)
Opens f (err truncated_metadata) =
    HasHeader f
    × (get_or f 3 0 ≡ k_supported_dbn_version)
    × (length f < header_size + metadata_len f)

-- The test of the magic decides it.
pub IsMagic-cases :
    (f : List ℕ) → (IsMagic f × (wrong_magic f ≡ false)) ⊎ ((¬ IsMagic f) × (wrong_magic f ≡ true))
IsMagic-cases f = elim (Bool-cases (get_or f 0 0 == b'D')) [
  | inr no_d ↦ inr (λ m. cc (no_d, (==_iff _ _).1 m.0), rw no_d)
  | inl d ↦ elim (Bool-cases (get_or f 1 0 == b'B')) [
    | inr no_b ↦ inr (λ m. cc (no_b, (==_iff _ _).1 m.1), rw (d, no_b))
    | inl b ↦ elim (Bool-cases (get_or f 2 0 == b'N')) [
      | inr no_n ↦ inr (λ m. cc (no_n, (==_iff _ _).1 m.2), rw (d, b, no_n))
      | inl n ↦ inl (((==_iff _ _).0 d, (==_iff _ _).0 b, (==_iff _ _).0 n), rw (d, b, n))
    ]
  ]
]

-- The contract of opening determines the outcome.
pub Opens-unique : (f : List ℕ) (r r' : Result DbnError (List ℕ)) → Opens f r → Opens f r' → r ≡ r'
Opens-unique f (ok x) (ok x') h h' = cc
Opens-unique f (ok x) (err cannot_open) h h' = absurd h'
Opens-unique f (ok x) (err truncated_header) h h' = absurd (omega arith)
Opens-unique f (ok x) (err bad_magic) h h' = absurd (h'.1 h.0.1)
Opens-unique f (ok x) (err (unsupported_version v)) h h' = absurd (omega arith)
Opens-unique f (ok x) (err truncated_metadata) h h' = absurd (omega arith)
Opens-unique f (err cannot_open) r' h h' = absurd h
Opens-unique f (err truncated_header) (ok x') h h' = absurd (omega arith)
Opens-unique f (err truncated_header) (err cannot_open) h h' = absurd h'
Opens-unique f (err truncated_header) (err truncated_header) h h' = cc
Opens-unique f (err truncated_header) (err bad_magic) h h' = absurd (omega arith)
Opens-unique f (err truncated_header) (err (unsupported_version v)) h h' = absurd (omega arith)
Opens-unique f (err truncated_header) (err truncated_metadata) h h' = absurd (omega arith)
Opens-unique f (err bad_magic) (ok x') h h' = absurd (h.1 h'.0.1)
Opens-unique f (err bad_magic) (err cannot_open) h h' = absurd h'
Opens-unique f (err bad_magic) (err truncated_header) h h' = absurd (omega arith)
Opens-unique f (err bad_magic) (err bad_magic) h h' = cc
Opens-unique f (err bad_magic) (err (unsupported_version v)) h h' = absurd (h.1 h'.0.1)
Opens-unique f (err bad_magic) (err truncated_metadata) h h' = absurd (h.1 h'.0.1)
Opens-unique f (err (unsupported_version v)) (ok x') h h' = absurd (omega arith)
Opens-unique f (err (unsupported_version v)) (err cannot_open) h h' = absurd h'
Opens-unique f (err (unsupported_version v)) (err truncated_header) h h' = absurd (omega arith)
Opens-unique f (err (unsupported_version v)) (err bad_magic) h h' = absurd (h'.1 h.0.1)
Opens-unique f (err (unsupported_version v)) (err (unsupported_version w)) h h' = cc (h.1, h'.1)
Opens-unique f (err (unsupported_version v)) (err truncated_metadata) h h' = absurd (omega arith)
Opens-unique f (err truncated_metadata) (ok x') h h' = absurd (omega arith)
Opens-unique f (err truncated_metadata) (err cannot_open) h h' = absurd h'
Opens-unique f (err truncated_metadata) (err truncated_header) h h' = absurd (omega arith)
Opens-unique f (err truncated_metadata) (err bad_magic) h h' = absurd (h'.1 h.0.1)
Opens-unique f (err truncated_metadata) (err (unsupported_version v)) h h' = absurd (omega arith)
Opens-unique f (err truncated_metadata) (err truncated_metadata) h h' = cc
