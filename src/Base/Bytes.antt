-- ===== src/Base/Bytes.antt =====
-- Bytes, and unsigned integers laid out in them lowest byte first, as on a little-endian host.
use trading_engine_hh.Base.Lists.{length, take, drop, All}
use Prim.Native.Nat.{ℕ, zero, suc, ◌+◌, ◌*◌, ◌/◌, ◌%◌, ◌^◌, ◌<◌}
use mathlib.Core.Path.{◌≡◌, refl, ap}
use mathlib.Core.List.{List, [], ◌∷◌}
use native.Mathlib.Nat.{pow-suc}
use native.Mathlib.Omega.{arith}

-- `std::byte`
abbrev pub IsByte : ℕ → Type 0
IsByte b = b < 256

-- The number that a run of bytes stands for.
abbrev pub le_value : List ℕ → ℕ
le_value [] = 0
le_value (b ∷ bs) = b + 256 * le_value bs

-- The `n` bytes of a number.
abbrev pub le_bytes : ℕ → ℕ → List ℕ
le_bytes zero x = []
le_bytes (suc n) x = (x % 256) ∷ le_bytes n (x / 256)

-- The `n` bytes at offset `o`, as a number.
abbrev pub field_at : ℕ → ℕ → List ℕ → ℕ
field_at o n bs = le_value (take n (drop o bs))

pub length-le_bytes : (n x : ℕ) → length (le_bytes n x) ≡ n
length-le_bytes zero x = refl
length-le_bytes (suc n) x = ap suc (length-le_bytes n (x / 256))

pub le_bytes-IsByte : (n x : ℕ) → All IsByte (le_bytes n x)
le_bytes-IsByte zero x = tt
le_bytes-IsByte (suc n) x = (omega arith, le_bytes-IsByte n (x / 256))

pub le_value-le_bytes : (n x : ℕ) → x < 256 ^ n → le_value (le_bytes n x) ≡ x
le_value-le_bytes zero x h = omega arith
le_value-le_bytes (suc n) x h = omega (arith, le_value-le_bytes n (x / 256) (bound n x h))
  where
    bound : (n x : ℕ) → x < 256 ^ suc n → x / 256 < 256 ^ n
    bound n x h = omega arith

pub le_bytes-le_value :
    (n : ℕ) (bs : List ℕ) → length bs ≡ n → All IsByte bs → le_bytes n (le_value bs) ≡ bs
le_bytes-le_value zero [] e h = refl
le_bytes-le_value zero (b ∷ bs) e h = absurd (omega arith)
le_bytes-le_value (suc n) [] e h = absurd (omega arith)
le_bytes-le_value (suc n) (b ∷ bs) e h =
    ground (arith, low, high, le_bytes-le_value n bs (omega arith) h.1)
  where
    low : (b + 256 * le_value bs) % 256 ≡ b
    low = omega arith

    high : (b + 256 * le_value bs) / 256 ≡ le_value bs
    high = omega arith

pub le_value-lt : (bs : List ℕ) → All IsByte bs → le_value bs < 256 ^ length bs
le_value-lt [] h = omega arith
le_value-lt (b ∷ bs) h = omega (arith, le_value-lt bs h.1, pow-suc 256 (length bs))
