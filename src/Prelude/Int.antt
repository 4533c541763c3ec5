-- ===== src/Prelude/Int.antt =====
-- Signed integers over the native numbers, under the library's names, and Rust's `i32`.
use Prim.Native.Nat.{ℕ, suc, ◌+◌, ◌-◌}
use mathlib.Core.Bool.{Bool}
use embed_lang.Prelude.Tests.{ltb, leb, if◌then◌else◌}
use embed_lang.Prelude.Panic.{Outcome, returns, panics}
use embed_lang.Prelude.Checked.{u32_mod}

-- `negsuc n` is -(n + 1).
pub data ℤ : Type 0 where
  pos : ℕ → ℤ
  negsuc : ℕ → ℤ

-- a - b, as an integer.
abbrev pub sub_ℕ : ℕ → ℕ → ℤ
sub_ℕ a b = if leb b a then pos (a - b) else negsuc (b - a - 1)

-- `n as i32`, for an `n` of 32 bits
abbrev pub as_i32 : ℕ → ℤ
as_i32 n = if ltb n 2147483648 then pos n else negsuc (u32_mod - n - 1)

abbrev pub in_i32 : ℤ → Bool
in_i32 (pos n) = ltb n 2147483648
in_i32 (negsuc n) = ltb n 2147483648

-- A result on `i32`, which panics out of range.
abbrev pub checked_i32 : ℤ → Outcome ℤ
checked_i32 z = if in_i32 z then returns z else panics

-- `-z` and `1 - z`
abbrev pub checked_neg : ℤ → Outcome ℤ
checked_neg (pos n) = checked_i32 (sub_ℕ 0 n)
checked_neg (negsuc n) = checked_i32 (pos (suc n))

abbrev pub one_minus : ℤ → Outcome ℤ
one_minus (pos n) = checked_i32 (sub_ℕ 1 n)
one_minus (negsuc n) = checked_i32 (pos (n + 2))

-- `z as u32`
abbrev pub as_u32 : ℤ → ℕ
as_u32 (pos n) = n
as_u32 (negsuc n) = u32_mod - suc n

-- `z > 0`
abbrev pub is_positive : ℤ → Bool
is_positive (pos n) = ltb 0 n
is_positive (negsuc n) = ltb n 0
