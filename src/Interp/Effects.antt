-- ===== src/Interp/Effects.antt =====
-- vm/src/thread.rs, vm/src/types.rs: an instruction changes the number of values on the stack as the
-- compiler counts.
use embed_lang.Prelude.{◌≡◌, refl, arith, Bool, true, false}
use embed_lang.Bytecode.Instructions.{
  Instruction, push_int, push_byte, push_float, push_string, push_up_var, push, call, tail_call,
  new_variant, new_record, close_data, construct_array, get_offset, get_field, split, test_tag,
  test_poly_tag, jump, c_jump, pop, slide, make_closure, new_closure, close_closure, add_int,
  subtract_int, multiply_int, divide_int, int_lt, int_eq, add_byte, subtract_byte, multiply_byte,
  divide_byte, byte_lt, byte_eq, add_float, subtract_float, multiply_float, divide_float, float_lt,
  float_eq, return, construct_variant, construct_poly_variant, construct_record,
}
use embed_lang.Bytecode.Effects.{takes, gives}
use embed_lang.Interp.Data.{Machine, Context, BytecodeFunction, done}
use embed_lang.Interp.Step.{Next, step}
use embed_lang.Interp.Moves.{
  Moves, push_value-Moves, construct_variant-Moves, construct_poly_variant-Moves,
  construct_record-Moves, construct_array-Moves, new_variant-Moves, new_record-Moves,
  new_closure-Moves,
}
use embed_lang.Interp.Reads.{get_offset-Moves, get_field-Moves, test_tag-Moves, test_poly_tag-Moves}
use embed_lang.Interp.Rounds.{
  context_of, next-Moves, then_on-Moves, on_stack-Moves, push_constant-Moves, push_upvar-Moves,
  push_variable-Moves, jump_to-Moves, jump_if-Moves, pop_many-Moves, slide-Moves, binop_int-Moves,
  binop_byte-Moves, binop_f64-Moves, binop_bool-Moves,
}

module _ {Fl : Type 0} where
  -- The instructions whose effect the compiler counts in full. Of the others, it corrects `Split`,
  -- `MakeClosure`, `CloseData` and `CloseClosure` by hand, and the calls replace the frame.
  abbrev pub is_counted : Instruction Fl → Bool
  is_counted (call args) = false
  is_counted (tail_call args) = false
  is_counted split = false
  is_counted (close_data index) = false
  is_counted (make_closure i upvars) = false
  is_counted (close_closure n) = false
  is_counted i = true

  -- If an instruction is not `Call`, `TailCall`, `Split`, `CloseData`, `MakeClosure` or `CloseClosure`
  -- and its step gives a result, then the stack has so many values less as the instruction takes and
  -- so many more as it gives, by the counts that `adjust` is the difference of.
  pub step-Moves :
      (m : Machine Fl) (f : BytecodeFunction Fl) (c : Context Fl) (n : Next Fl) (i : Instruction Fl)
      → is_counted i ≡ true
      → step m f c i ≡ done n
      → Moves c (context_of n) (takes i) (gives i)
  unfolding step
  step-Moves m f c n (push_int i) k h = next-Moves c 0 1 (push_value-Moves c _) h
  step-Moves m f c n (push_byte b) k h = next-Moves c 0 1 (push_value-Moves c _) h
  step-Moves m f c n (push_float x) k h = next-Moves c 0 1 (push_value-Moves c _) h
  step-Moves m f c n (push_string i) k h = then_on-Moves c _ _ _ h (push_constant-Moves f c i)
  step-Moves m f c n (push_up_var i) k h = then_on-Moves c _ _ _ h (push_upvar-Moves c i)
  step-Moves m f c n (push i) k h = then_on-Moves c _ _ _ h (push_variable-Moves c i)
  step-Moves m f c n (call args) k h = absurd (ground arith)
  step-Moves m f c n (tail_call args) k h = absurd (ground arith)
  step-Moves m f c n (construct_variant t args) k h =
      then_on-Moves c _ _ _ h (λ x. construct_variant-Moves m c x t args)
  step-Moves m f c n (construct_poly_variant t args) k h =
      then_on-Moves c _ _ _ h (λ x. construct_poly_variant-Moves m f c x t args)
  step-Moves m f c n (new_variant t args) k h =
      then_on-Moves c _ _ _ h (λ x. new_variant-Moves m c x t args)
  step-Moves m f c n (new_record r args) k h =
      then_on-Moves c _ _ _ h (λ x. new_record-Moves m f c x r args)
  step-Moves m f c n (close_data index) k h = absurd (ground arith)
  step-Moves m f c n (construct_record r args) k h =
      then_on-Moves c _ _ _ h (λ x. construct_record-Moves m f c x r args)
  step-Moves m f c n (construct_array args) k h =
      then_on-Moves c _ _ _ h (λ x. construct_array-Moves m c x args)
  step-Moves m f c n (get_offset i) k h = then_on-Moves c _ _ _ h (λ x. get_offset-Moves c x i)
  step-Moves m f c n (get_field i) k h = then_on-Moves c _ _ _ h (λ x. get_field-Moves f c x i)
  step-Moves m f c n split k h = absurd (ground arith)
  step-Moves m f c n (test_tag t) k h = then_on-Moves c _ _ _ h (λ x. test_tag-Moves c x t)
  step-Moves m f c n (test_poly_tag i) k h =
      then_on-Moves c _ _ _ h (λ x. test_poly_tag-Moves f c x i)
  step-Moves m f c n (jump i) k h = jump_to-Moves f c c n i 0 0 refl h
  step-Moves m f c n (c_jump i) k h = jump_if-Moves f c n i h
  step-Moves m f c n (pop j) k h = on_stack-Moves c _ _ _ h (λ s e. pop_many-Moves c s j e)
  step-Moves m f c n (slide j) k h = on_stack-Moves c _ _ _ h (λ s e. slide-Moves c s j e)
  step-Moves m f c n (make_closure i upvars) k h = absurd (ground arith)
  step-Moves m f c n (new_closure i upvars) k h =
      then_on-Moves c _ _ _ h (λ x. new_closure-Moves m f c x i upvars)
  step-Moves m f c n (close_closure j) k h = absurd (ground arith)
  step-Moves m f c n add_int k h = on_stack-Moves c _ _ _ h (binop_int-Moves c _)
  step-Moves m f c n subtract_int k h = on_stack-Moves c _ _ _ h (binop_int-Moves c _)
  step-Moves m f c n multiply_int k h = on_stack-Moves c _ _ _ h (binop_int-Moves c _)
  step-Moves m f c n divide_int k h = on_stack-Moves c _ _ _ h (binop_int-Moves c _)
  step-Moves m f c n int_lt k h = on_stack-Moves c _ _ _ h (binop_bool-Moves c _ _)
  step-Moves m f c n int_eq k h = on_stack-Moves c _ _ _ h (binop_bool-Moves c _ _)
  step-Moves m f c n add_byte k h = on_stack-Moves c _ _ _ h (binop_byte-Moves c _)
  step-Moves m f c n subtract_byte k h = on_stack-Moves c _ _ _ h (binop_byte-Moves c _)
  step-Moves m f c n multiply_byte k h = on_stack-Moves c _ _ _ h (binop_byte-Moves c _)
  step-Moves m f c n divide_byte k h = on_stack-Moves c _ _ _ h (binop_byte-Moves c _)
  step-Moves m f c n byte_lt k h = on_stack-Moves c _ _ _ h (binop_bool-Moves c _ _)
  step-Moves m f c n byte_eq k h = on_stack-Moves c _ _ _ h (binop_bool-Moves c _ _)
  step-Moves m f c n add_float k h = on_stack-Moves c _ _ _ h (binop_f64-Moves c _)
  step-Moves m f c n subtract_float k h = on_stack-Moves c _ _ _ h (binop_f64-Moves c _)
  step-Moves m f c n multiply_float k h = on_stack-Moves c _ _ _ h (binop_f64-Moves c _)
  step-Moves m f c n divide_float k h = on_stack-Moves c _ _ _ h (binop_f64-Moves c _)
  step-Moves m f c n float_lt k h = on_stack-Moves c _ _ _ h (binop_bool-Moves c _ _)
  step-Moves m f c n float_eq k h = on_stack-Moves c _ _ _ h (binop_bool-Moves c _ _)
  step-Moves m f c n return k h = next-Moves c 0 0 refl h
