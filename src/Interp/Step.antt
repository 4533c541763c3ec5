-- ===== src/Interp/Step.antt =====
-- vm/src/thread.rs: one round of the loop of `execute_`.
use embed_lang.Prelude.{ℕ, ltb, ◌==◌, if◌then◌else◌, none, some, assert, length, get_elem?}
use embed_lang.Stack.Data.{StackFrame}
use embed_lang.Stack.Frames
use embed_lang.Bytecode.Instructions.{
  Instruction, push_int, push_byte, push_float, push_string, push_up_var, push, call, tail_call,
  new_variant, new_record, close_data, construct_array, get_offset, get_field, split, test_tag,
  test_poly_tag, jump, c_jump, pop, slide, make_closure, new_closure, close_closure, add_int,
  subtract_int, multiply_int, divide_int, int_lt, int_eq, add_byte, subtract_byte, multiply_byte,
  divide_byte, byte_lt, byte_eq, add_float, subtract_float, multiply_float, divide_float, float_lt,
  float_eq, return, construct_variant, construct_poly_variant, construct_record,
}
use embed_lang.Interp.Data.{
  Value, byte, int, float, string, Machine, Context, BytecodeFunction, push_out_of_bounds, Exec,
  done, fails, ◌>>=◌, ◌>>◌, lift, need,
}
use embed_lang.Interp.Arith.{
  checked_add_int, checked_sub_int, checked_mul_int, checked_div_int, lt_int, eq_int,
  checked_add_byte, checked_sub_byte, checked_mul_byte, checked_div_byte, from_int, from_byte,
  from_float, binop_int, binop_byte, binop_f64, binop_bool,
}
use embed_lang.Interp.Objects
use embed_lang.Interp.Objects.{push_value}
use embed_lang.Interp.Access

-- What the loop does after an instruction: it goes on at the next one, at another one, it calls a
-- function with arguments, without or with the removal of the frame, or it leaves the frame.
pub data Next (Fl : Type 0) : Type 0 where
  goes_on : Context Fl → Next Fl
  jumps : ℕ → Context Fl → Next Fl
  calls : ℕ → Context Fl → Next Fl
  tail_calls : ℕ → Context Fl → Next Fl
  leaves : Context Fl → Next Fl

module _ {Fl : Type 0} where
  abbrev pub then_on : Exec (Context Fl) → Exec (Next Fl)
  then_on e = do c ← e; done (goes_on c)

  abbrev pub on_stack : Context Fl → Exec (StackFrame (Value Fl)) → Exec (Next Fl)
  on_stack c e = do s ← e; done (goes_on (record c { stack = s }))

  -- `self.stack.get(i)` on the frame's part of the stack.
  unfoldable pub push_variable : Context Fl → ℕ → Exec (Context Fl)
  unfolding Frames.slice
  push_variable c i = do
    vs ← lift (Frames.slice c.stack)
    elim (get_elem? vs i) [ some v ↦ done (push_value c v) | none ↦ fails push_out_of_bounds ]

  unfoldable pub push_constant : BytecodeFunction Fl → Context Fl → ℕ → Exec (Context Fl)
  push_constant function c i = do
    s ← need (get_elem? function.strings i)
    done (push_value c (string s))

  unfoldable pub push_upvar : Context Fl → ℕ → Exec (Context Fl)
  unfolding Frames.get_upvar
  push_upvar c i = do v ← lift (Frames.get_upvar c.stack i); done (push_value c v)

  -- `program_counter.jump`
  unfoldable pub jump_to : BytecodeFunction Fl → Context Fl → ℕ → Exec (Next Fl)
  jump_to function c i = do lift (assert (ltb i (length function.instructions))); done (jumps i c)

  unfoldable pub jump_if : BytecodeFunction Fl → Context Fl → ℕ → Exec (Next Fl)
  unfolding jump_to Access.pop_condition
  jump_if function c i = do
    (c', b) ← Access.pop_condition c
    if b then jump_to function c' i else done (goes_on c')

  unfoldable pub step :
      Machine Fl → BytecodeFunction Fl → Context Fl → Instruction Fl → Exec (Next Fl)
  unfolding push_variable push_constant push_upvar jump_to jump_if Frames.pop_many Frames.slide
  step m f c (push_int i) = done (goes_on (push_value c (int i)))
  step m f c (push_byte b) = done (goes_on (push_value c (byte b)))
  step m f c (push_float x) = done (goes_on (push_value c (float x)))
  step m f c (push_string i) = then_on (push_constant f c i)
  step m f c (push_up_var i) = then_on (push_upvar c i)
  step m f c (push i) = then_on (push_variable c i)
  step m f c (call args) = done (calls args c)
  step m f c (tail_call args) = done (tail_calls args c)
  step m f c (construct_variant t args) = then_on (Objects.construct_variant m c t args)
  step m f c (construct_poly_variant t args) = then_on (Objects.construct_poly_variant m f c t args)
  step m f c (new_variant t args) = then_on (Objects.new_variant m c t args)
  step m f c (new_record r args) = then_on (Objects.new_record m f c r args)
  step m f c (close_data index) = then_on (Access.close_data c index)
  step m f c (construct_record r args) = then_on (Objects.construct_record m f c r args)
  step m f c (construct_array args) = then_on (Objects.construct_array m c args)
  step m f c (get_offset i) = then_on (Access.get_offset c i)
  step m f c (get_field i) = then_on (Access.get_field f c i)
  step m f c split = then_on (Access.split c)
  step m f c (test_tag t) = then_on (Access.test_tag c t)
  step m f c (test_poly_tag i) = then_on (Access.test_poly_tag f c i)
  step m f c (jump i) = jump_to f c i
  step m f c (c_jump i) = jump_if f c i
  step m f c (pop n) = on_stack c (lift (Frames.pop_many c.stack n))
  step m f c (slide n) = on_stack c (lift (Frames.slide c.stack n))
  step m f c (make_closure i upvars) = then_on (Objects.make_closure m f c i upvars)
  step m f c (new_closure i upvars) = then_on (Objects.new_closure m f c i upvars)
  step m f c (close_closure n) = then_on (Access.close_closure c n)
  step m f c add_int = on_stack c (binop_int checked_add_int c.stack)
  step m f c subtract_int = on_stack c (binop_int checked_sub_int c.stack)
  step m f c multiply_int = on_stack c (binop_int checked_mul_int c.stack)
  step m f c divide_int = on_stack c (binop_int checked_div_int c.stack)
  step m f c int_lt = on_stack c (binop_bool from_int lt_int c.stack)
  step m f c int_eq = on_stack c (binop_bool from_int eq_int c.stack)
  step m f c add_byte = on_stack c (binop_byte checked_add_byte c.stack)
  step m f c subtract_byte = on_stack c (binop_byte checked_sub_byte c.stack)
  step m f c multiply_byte = on_stack c (binop_byte checked_mul_byte c.stack)
  step m f c divide_byte = on_stack c (binop_byte checked_div_byte c.stack)
  step m f c byte_lt = on_stack c (binop_bool from_byte ltb c.stack)
  step m f c byte_eq = on_stack c (binop_bool from_byte (◌==◌) c.stack)
  step m f c add_float = on_stack c (binop_f64 m.add_float c.stack)
  step m f c subtract_float = on_stack c (binop_f64 m.subtract_float c.stack)
  step m f c multiply_float = on_stack c (binop_f64 m.multiply_float c.stack)
  step m f c divide_float = on_stack c (binop_f64 m.divide_float c.stack)
  step m f c float_lt = on_stack c (binop_bool from_float m.float_lt c.stack)
  step m f c float_eq = on_stack c (binop_bool from_float m.float_eq c.stack)
  step m f c return = done (leaves c)
