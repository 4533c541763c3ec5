-- ===== src/Interp/Arith.antt =====
-- vm/src/thread.rs: the checked arithmetic of `VmInt`, which is `i64`, and of bytes, and the binary
-- operations on the top of the stack.
use embed_lang.Prelude.{
  ℕ, suc, ◌+◌, ◌-◌, ◌*◌, ◌/◌, Bool, true, false, ltb, leb, ◌==◌, not, if◌then◌else◌, Option, none,
  some, ℤ, pos, negsuc, sub_ℕ, assert, length, set, Outcome, returns, panics,
}
use embed_lang.Stack.Data.{StackFrame}
use embed_lang.Stack.Frames
use embed_lang.Interp.Data.{
  Value, byte, int, float, tag, arithmetic_overflow, Exec, done, fails, aborts, ◌>>=◌, ◌>>◌, lift,
  need,
}

-- The size of a number and whether it is negative.
abbrev pub magnitude : ℤ → ℕ
magnitude (pos n) = n
magnitude (negsuc n) = suc n

abbrev pub is_negative : ℤ → Bool
is_negative (pos n) = false
is_negative (negsuc n) = true

abbrev pub signed : Bool → ℕ → ℤ
signed false n = pos n
signed true n = sub_ℕ 0 n

abbrev pub i64_bound : ℕ
i64_bound = 9223372036854775808

-- A result on `i64`: `none` out of range.
abbrev pub in_i64 : ℤ → Option ℤ
in_i64 (pos n) = if ltb n i64_bound then some (pos n) else none
in_i64 (negsuc n) = if ltb n i64_bound then some (negsuc n) else none

abbrev pub add_ℤ : ℤ → ℤ → ℤ
add_ℤ (pos a) (pos b) = pos (a + b)
add_ℤ (pos a) (negsuc b) = sub_ℕ a (suc b)
add_ℤ (negsuc a) (pos b) = sub_ℕ b (suc a)
add_ℤ (negsuc a) (negsuc b) = negsuc (suc (a + b))

abbrev pub negate : ℤ → ℤ
negate (pos n) = sub_ℕ 0 n
negate (negsuc n) = pos (suc n)

-- Whether exactly one of two numbers is negative.
abbrev pub opposite : ℤ → ℤ → Bool
opposite a b = if is_negative a then not (is_negative b) else is_negative b

-- `checked_add`, `checked_sub`, `checked_mul` and `checked_div` of `i64`; a division cuts towards 0.
unfoldable pub checked_add_int : ℤ → ℤ → Option ℤ
checked_add_int a b = in_i64 (add_ℤ a b)

unfoldable pub checked_sub_int : ℤ → ℤ → Option ℤ
checked_sub_int a b = in_i64 (add_ℤ a (negate b))

unfoldable pub checked_mul_int : ℤ → ℤ → Option ℤ
checked_mul_int a b = in_i64 (signed (opposite a b) (magnitude a * magnitude b))

unfoldable pub checked_div_int : ℤ → ℤ → Option ℤ
checked_div_int a b =
    if magnitude b == 0 then none else in_i64 (signed (opposite a b) (magnitude a / magnitude b))

abbrev pub lt_int : ℤ → ℤ → Bool
lt_int (pos a) (pos b) = ltb a b
lt_int (pos a) (negsuc b) = false
lt_int (negsuc a) (pos b) = true
lt_int (negsuc a) (negsuc b) = ltb b a

abbrev pub eq_int : ℤ → ℤ → Bool
eq_int (pos a) (pos b) = a == b
eq_int (pos a) (negsuc b) = false
eq_int (negsuc a) (pos b) = false
eq_int (negsuc a) (negsuc b) = a == b

-- The same of `u8`.
abbrev pub in_u8 : ℕ → Option ℕ
in_u8 n = if ltb n 256 then some n else none

unfoldable pub checked_add_byte : ℕ → ℕ → Option ℕ
checked_add_byte a b = in_u8 (a + b)

unfoldable pub checked_sub_byte : ℕ → ℕ → Option ℕ
checked_sub_byte a b = if leb b a then some (a - b) else none

unfoldable pub checked_mul_byte : ℕ → ℕ → Option ℕ
checked_mul_byte a b = in_u8 (a * b)

unfoldable pub checked_div_byte : ℕ → ℕ → Option ℕ
checked_div_byte a b = if b == 0 then none else some (a / b)

module _ {Fl : Type 0} where
  -- `T::from_value`, which panics on a value of another type.
  abbrev pub from_int : Value Fl → Exec ℤ
  from_int (int i) = done i
  from_int v = aborts

  abbrev pub from_byte : Value Fl → Exec ℕ
  from_byte (byte b) = done b
  from_byte v = aborts

  abbrev pub from_float : Value Fl → Exec Fl
  from_float (float f) = done f
  from_float v = aborts

  -- `ok_or_else`
  abbrev pub checked : {A : Type 0} → (A → Value Fl) → Option A → Exec (Value Fl)
  checked make (some a) = done (make a)
  checked make none = fails arithmetic_overflow

  abbrev pub truth : Bool → Value Fl
  truth b = if b then tag 1 else tag 0

  -- `*stack.last_mut().unwrap() = v`, on the frame's part of the stack.
  unfoldable pub set_last : StackFrame (Value Fl) → Value Fl → Outcome (StackFrame (Value Fl))
  set_last f v =
      if ltb f.frame.offset (length f.stack.values)
      then returns (record f {
        stack = record f.stack { values = set f.stack.values (length f.stack.values - 1) v };
      })
      else panics

  unfoldable pub binop :
      {A : Type 0}
      → (Value Fl → Exec A)
      → (A → A → Exec (Value Fl))
      → StackFrame (Value Fl)
      → Exec (StackFrame (Value Fl))
  unfolding Frames.len Frames.get_variant Frames.pop set_last
  binop from f stack = do
    n ← lift (Frames.len stack)
    lift (assert (leb 2 n))
    rv ← lift (Frames.get_variant stack (n - 1))
    rr ← need rv
    r ← from rr
    lv ← lift (Frames.get_variant stack (n - 2))
    ll ← need lv
    l ← from ll
    result ← f l r
    (stack', v) ← lift (Frames.pop stack)
    lift (set_last stack' result)

  unfoldable pub binop_int :
      (ℤ → ℤ → Option ℤ) → StackFrame (Value Fl) → Exec (StackFrame (Value Fl))
  unfolding binop
  binop_int f = binop from_int (λ l r. checked int (f l r))

  unfoldable pub binop_byte :
      (ℕ → ℕ → Option ℕ) → StackFrame (Value Fl) → Exec (StackFrame (Value Fl))
  unfolding binop
  binop_byte f = binop from_byte (λ l r. checked byte (f l r))

  unfoldable pub binop_f64 : (Fl → Fl → Fl) → StackFrame (Value Fl) → Exec (StackFrame (Value Fl))
  unfolding binop
  binop_f64 f = binop from_float (λ l r. done (float (f l r)))

  unfoldable pub binop_bool :
      {A : Type 0}
      → (Value Fl → Exec A)
      → (A → A → Bool)
      → StackFrame (Value Fl)
      → Exec (StackFrame (Value Fl))
  unfolding binop
  binop_bool from f = binop from (λ l r. done (truth (f l r)))
