-- ===== src/Interp/Data.antt =====
-- vm/src/value.rs, vm/src/thread.rs: the values of the interpreter, the heap that they point into,
-- and the result of a step, which may be an error or a panic.
-- A garbage collected pointer is an index into the part of the heap for its type; objects are never
-- collected. Functions and extern functions, which never change, are in tables beside the heap.
use embed_lang.Prelude.{
  ℕ, Bool, true, false, if◌then◌else◌, List, Option, none, some, Outcome, returns, panics, ℤ, ◌≡◌,
  refl, arith,
}
use embed_lang.Stack.Data.{StackFrame}
use embed_lang.Bytecode.Instructions.{Instruction}

-- `ValueRepr`; `Fl` stands for floats. Strings, user data and threads are known by a number.
pub data Value (Fl : Type 0) : Type 0 where
  byte : ℕ → Value Fl
  int : ℤ → Value Fl
  float : Fl → Value Fl
  string : ℕ → Value Fl
  tag : ℕ → Value Fl
  data_at : ℕ → Value Fl
  array_at : ℕ → Value Fl
  function_at : ℕ → Value Fl
  closure_at : ℕ → Value Fl
  partial_application_at : ℕ → Value Fl
  userdata : ℕ → Value Fl
  thread : ℕ → Value Fl

-- Of a data value, the tag, the tag of a polymorphic variant and the names of a record's fields; the
-- last two are in the type info of the collector.
pub record DataStruct (Fl : Type 0) : Type 0 where
  pub data_tag : ℕ
  pub poly_tag : Option ℕ
  pub names : List ℕ
  pub fields : List (Value Fl)

-- `ClosureData`, with the function as an index into the table of functions.
pub record Closure (Fl : Type 0) : Type 0 where
  pub function : ℕ
  pub upvars : List (Value Fl)

pub data Callable : Type 0 where
  closure : ℕ → Callable
  extern : ℕ → Callable

pub record PartialApplicationData (Fl : Type 0) : Type 0 where
  pub function : Callable
  pub args : List (Value Fl)

pub record Heap (Fl : Type 0) : Type 0 where
  pub datas : List (DataStruct Fl)
  pub arrays : List (List (Value Fl))
  pub closures : List (Closure Fl)
  pub applications : List (PartialApplicationData Fl)

-- `line` is the source map of the debug information.
pub record BytecodeFunction (Fl : Type 0) : Type 0 where
  pub name : ℕ
  pub args : ℕ
  pub max_stack_size : ℕ
  pub instructions : List (Instruction Fl)
  pub inner_functions : List ℕ
  pub strings : List ℕ
  pub records : List (List ℕ)
  pub line : ℕ → Option ℕ

pub record ExternFunction : Type 0 where
  pub id : ℕ
  pub args : ℕ

-- What a step reads besides the state: the tables of functions, whether the collector finds room for
-- a number of values, and the arithmetic of floats.
pub record Machine (Fl : Type 0) : Type 0 where
  pub functions : List (BytecodeFunction Fl)
  pub externs : List ExternFunction
  pub has_room : Heap Fl → ℕ → Bool
  pub add_float : Fl → Fl → Fl
  pub subtract_float : Fl → Fl → Fl
  pub multiply_float : Fl → Fl → Fl
  pub divide_float : Fl → Fl → Fl
  pub float_lt : Fl → Fl → Bool
  pub float_eq : Fl → Fl → Bool

-- `ExecuteContext`, less its hook and its futures.
pub record Context (Fl : Type 0) : Type 0 where
  pub stack : StackFrame (Value Fl)
  pub heap : Heap Fl

-- `Error`, with the messages that a step makes.
pub data Error : Type 0 where
  push_out_of_bounds get_offset_on get_field_on test_tag_on split_on : Error
  arithmetic_overflow cannot_call out_of_memory : Error
  stack_overflow : ℕ → Error

pub data Exec (A : Type 0) : Type 0 where
  done : A → Exec A
  fails : Error → Exec A
  aborts : Exec A

infixl 5 ◌>>=◌ ◌>>◌
abbrev pub ◌>>=◌ : {A B : Type 0} → Exec A → (A → Exec B) → Exec B
done a >>= f = f a
fails e >>= f = fails e
aborts >>= f = aborts

abbrev pub ◌>>◌ : {B : Type 0} → Exec (Unit {0}) → Exec B → Exec B
m >> k = m >>= λ _. k

-- A call that may panic.
abbrev pub lift : {A : Type 0} → Outcome A → Exec A
lift (returns a) = done a
lift panics = aborts

abbrev pub need : {A : Type 0} → Option A → Exec A
need (some a) = done a
need none = aborts

-- A step with a result had a result in its first part.
pub bind_done :
    {A B : Type 0} (e : Exec A) (f : A → Exec B) {b : B}
    → (e >>= f) ≡ done b
    → (a : A) × (e ≡ done a) × (f a ≡ done b)
bind_done (done a) f h = (a, refl, h)
bind_done (fails e) f h = absurd (ground arith)
bind_done aborts f h = absurd (ground arith)

pub lift_done : {A : Type 0} (o : Outcome A) {a : A} → lift o ≡ done a → o ≡ returns a
lift_done (returns a) h = ground arith
lift_done panics h = absurd (ground arith)

pub need_done : {A : Type 0} (o : Option A) {a : A} → need o ≡ done a → o ≡ some a
need_done (some a) h = ground arith
need_done none h = absurd (ground arith)

pub done_injective : {A : Type 0} {a b : A} → done a ≡ done b → a ≡ b
done_injective h = ground arith

-- A test with a result on either side.
pub if_done :
    {A : Type 0} (b : Bool) (x y : Exec A) {a : A}
    → (if b then x else y) ≡ done a
    → (P : Type 0) → (x ≡ done a → P)
    → (y ≡ done a → P)
    → P
if_done true x y h P f g = f h
if_done false x y h P f g = g h

pub fails_done : {A : Type 0} {e : Error} {a : A} {P : Type 0} → fails e ≡ done a → P
fails_done h = absurd (ground arith)

pub aborts_done : {A : Type 0} {a : A} {P : Type 0} → aborts ≡ done a → P
aborts_done h = absurd (ground arith)
