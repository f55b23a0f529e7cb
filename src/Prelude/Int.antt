-- ===== src/Prelude/Int.antt =====
-- Signed results of C functions (`int`, `ssize_t`), over the native numbers.
use Prim.Native.Nat.{ℕ, zero, suc, ◌-◌}
use proxy_part.Prelude.Tests.{leb, if◌then◌else◌}
use mathlib.Core.Bool.{Bool, true, false}

-- `negsuc n` is -(n + 1).
pub data ℤ : Type 0 where
  pos : ℕ → ℤ
  negsuc : ℕ → ℤ

-- The value -1, which the source returns on errors.
abbrev pub minus_one : ℤ
minus_one = negsuc 0

-- `x < 0`
abbrev pub is_negative : ℤ → Bool
is_negative (pos n) = false
is_negative (negsuc n) = true

-- `x > 0`
abbrev pub is_positive : ℤ → Bool
is_positive (pos zero) = false
is_positive (pos (suc n)) = true
is_positive (negsuc n) = false

-- The value of a count that is not negative; 0 for one that is.
abbrev pub pos_part : ℤ → ℕ
pos_part (pos n) = n
pos_part (negsuc n) = 0

-- `m - n` of two numbers, as a signed one.
abbrev pub minus : ℕ → ℕ → ℤ
minus m n = if leb n m then pos (m - n) else negsuc (n - m - 1)
