-- ===== src/Base/Int.antt =====
-- Signed integers over the native numbers, as `int64_t` and `int32_t` fields hold them.
use trading_engine_hh.Base.Tests.{ltb, if◌then◌else◌}
use Prim.Native.Nat.{ℕ, ◌-◌, ◌^◌, ◌<◌}
use mathlib.Core.Path.{◌≡◌}
use native.Mathlib.Omega.{arith}

-- `negsuc n` is -(n + 1).
pub data ℤ : Type 0 where
  pos : ℕ → ℤ
  negsuc : ℕ → ℤ

-- The integer that a two's complement pattern of 64 or 32 bits stands for.
abbrev pub signed64 : ℕ → ℤ
signed64 w = if ltb w (2 ^ 63) then pos w else negsuc (2 ^ 64 - 1 - w)

abbrev pub signed32 : ℕ → ℤ
signed32 w = if ltb w (2 ^ 31) then pos w else negsuc (2 ^ 32 - 1 - w)

-- The pattern of an integer.
abbrev pub pattern64 : ℤ → ℕ
pattern64 (pos n) = n
pattern64 (negsuc n) = 2 ^ 64 - 1 - n

abbrev pub pattern32 : ℤ → ℕ
pattern32 (pos n) = n
pattern32 (negsuc n) = 2 ^ 32 - 1 - n

-- The integer lies in the range of its type.
abbrev pub IsI64 : ℤ → Type 0
IsI64 (pos n) = n < 2 ^ 63
IsI64 (negsuc n) = n < 2 ^ 63

abbrev pub IsI32 : ℤ → Type 0
IsI32 (pos n) = n < 2 ^ 31
IsI32 (negsuc n) = n < 2 ^ 31

pub signed64-pattern64 : (z : ℤ) → IsI64 z → signed64 (pattern64 z) ≡ z
signed64-pattern64 (pos n) h = ground arith
signed64-pattern64 (negsuc n) h = ground arith

pub signed32-pattern32 : (z : ℤ) → IsI32 z → signed32 (pattern32 z) ≡ z
signed32-pattern32 (pos n) h = ground arith
signed32-pattern32 (negsuc n) h = ground arith

pub pattern64-signed64 : (w : ℕ) → w < 2 ^ 64 → pattern64 (signed64 w) ≡ w
pattern64-signed64 w h = ground arith

pub pattern32-signed32 : (w : ℕ) → w < 2 ^ 32 → pattern32 (signed32 w) ≡ w
pattern32-signed32 w h = ground arith

pub pattern64-lt : (z : ℤ) → IsI64 z → pattern64 z < 2 ^ 64
pattern64-lt (pos n) h = omega arith
pattern64-lt (negsuc n) h = omega arith

pub pattern32-lt : (z : ℤ) → IsI32 z → pattern32 z < 2 ^ 32
pattern32-lt (pos n) h = omega arith
pattern32-lt (negsuc n) h = omega arith

pub signed64-IsI64 : (w : ℕ) → w < 2 ^ 64 → IsI64 (signed64 w)
signed64-IsI64 w h = ground arith

pub signed32-IsI32 : (w : ℕ) → w < 2 ^ 32 → IsI32 (signed32 w)
signed32-IsI32 w h = ground arith
