-- ===== src/Prelude/Checked.antt =====
-- Checked arithmetic and assertions, as Rust compiles them with overflow checks on.
use Prim.Native.Nat.{ℕ, ◌+◌, ◌-◌, ◌%◌, ◌≤◌, ◌<◌}
use mathlib.Core.Path.{◌≡◌}
use native.Mathlib.Omega.{arith}
use mathlib.Core.Bool.{Bool, true, false}
use mathlib.Core.Option.{Option, none, some}
use embed_lang.Prelude.Tests.{ltb, leb, if◌then◌else◌}
use embed_lang.Prelude.Panic.{Outcome, returns, panics}

abbrev pub u32_mod : ℕ
u32_mod = 4294967296

-- `a + b` on `u32`
abbrev pub checked_add : ℕ → ℕ → Outcome ℕ
checked_add a b = if ltb (a + b) u32_mod then returns (a + b) else panics

-- `a - b` on `u32` or `usize`
abbrev pub checked_sub : ℕ → ℕ → Outcome ℕ
checked_sub a b = if leb b a then returns (a - b) else panics

-- `assert!(b)`
abbrev pub assert : Bool → Outcome (Unit {0})
assert true = returns tt
assert false = panics

-- `o.unwrap()`, `o.expect(…)`, and an index that is out of range
abbrev pub unwrap {ℓ} : {A : Type ℓ} → Option A → Outcome A
unwrap none = panics
unwrap (some a) = returns a

pub checked_add-small : (a b : ℕ) → a + b < u32_mod → checked_add a b ≡ returns (a + b)
checked_add-small a b h = ground arith

pub checked_sub-le : (a b : ℕ) → b ≤ a → checked_sub a b ≡ returns (a - b)
checked_sub-le a b h = ground arith

pub mod_u32-small : (n : ℕ) → n < u32_mod → n % u32_mod ≡ n
mod_u32-small n h = omega arith
