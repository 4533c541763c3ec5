-- ===== src/Bytecode/Instructions.antt =====
-- vm/src/types.rs: the instructions of the virtual machine, and by how much the compiler takes each
-- of them to change the size of a frame's stack. `Fl` stands for the type of floats.
use embed_lang.Prelude.{ℕ, Outcome, returns, ℤ, pos, negsuc, as_i32, checked_neg, one_minus}

-- The operands are in the order of the source: tag and arguments, function and upvariables.
pub data Instruction (Fl : Type 0) : Type 0 where
  push_int : ℤ → Instruction Fl
  push_byte : ℕ → Instruction Fl
  push_float : Fl → Instruction Fl
  push_string : ℕ → Instruction Fl
  push_up_var : ℕ → Instruction Fl
  push : ℕ → Instruction Fl
  call : ℕ → Instruction Fl
  tail_call : ℕ → Instruction Fl
  construct_variant : ℕ → ℕ → Instruction Fl
  construct_poly_variant : ℕ → ℕ → Instruction Fl
  new_variant : ℕ → ℕ → Instruction Fl
  new_record : ℕ → ℕ → Instruction Fl
  close_data : ℕ → Instruction Fl
  construct_record : ℕ → ℕ → Instruction Fl
  construct_array : ℕ → Instruction Fl
  get_offset : ℕ → Instruction Fl
  get_field : ℕ → Instruction Fl
  split : Instruction Fl
  test_tag : ℕ → Instruction Fl
  test_poly_tag : ℕ → Instruction Fl
  jump : ℕ → Instruction Fl
  c_jump : ℕ → Instruction Fl
  pop : ℕ → Instruction Fl
  slide : ℕ → Instruction Fl
  make_closure : ℕ → ℕ → Instruction Fl
  new_closure : ℕ → ℕ → Instruction Fl
  close_closure : ℕ → Instruction Fl
  add_int subtract_int multiply_int divide_int int_lt int_eq : Instruction Fl
  add_byte subtract_byte multiply_byte divide_byte byte_lt byte_eq : Instruction Fl
  add_float subtract_float multiply_float divide_float float_lt float_eq : Instruction Fl
  return : Instruction Fl

module _ {Fl : Type 0} where
  -- The arithmetic is that of `i32`.
  unfoldable pub adjust : Instruction Fl → Outcome ℤ
  adjust (push_int i) = returns (pos 1)
  adjust (push_byte b) = returns (pos 1)
  adjust (push_float f) = returns (pos 1)
  adjust (push_string i) = returns (pos 1)
  adjust (push_up_var i) = returns (pos 1)
  adjust (push i) = returns (pos 1)
  adjust (call n) = checked_neg (as_i32 n)
  adjust (tail_call n) = checked_neg (as_i32 n)
  adjust (construct_variant tag args) = one_minus (as_i32 args)
  adjust (construct_poly_variant tag args) = one_minus (as_i32 args)
  adjust (new_variant tag args) = returns (pos 1)
  adjust (new_record r args) = returns (pos 1)
  adjust (close_data index) = returns (pos 0)
  adjust (construct_record r args) = one_minus (as_i32 args)
  adjust (construct_array args) = one_minus (as_i32 args)
  adjust (get_offset i) = returns (pos 0)
  adjust (get_field i) = returns (pos 0)
  adjust split = returns (negsuc 0)
  adjust (test_tag tag) = returns (pos 1)
  adjust (test_poly_tag i) = returns (pos 1)
  adjust (jump i) = returns (pos 0)
  adjust (c_jump i) = returns (negsuc 0)
  adjust (pop n) = checked_neg (as_i32 n)
  adjust (slide n) = checked_neg (as_i32 n)
  adjust (make_closure function_index upvars) = returns (pos 1)
  adjust (new_closure function_index upvars) = returns (pos 1)
  adjust (close_closure n) = returns (negsuc 0)
  adjust add_int = returns (negsuc 0)
  adjust subtract_int = returns (negsuc 0)
  adjust multiply_int = returns (negsuc 0)
  adjust divide_int = returns (negsuc 0)
  adjust int_lt = returns (negsuc 0)
  adjust int_eq = returns (negsuc 0)
  adjust add_byte = returns (negsuc 0)
  adjust subtract_byte = returns (negsuc 0)
  adjust multiply_byte = returns (negsuc 0)
  adjust divide_byte = returns (negsuc 0)
  adjust byte_lt = returns (negsuc 0)
  adjust byte_eq = returns (negsuc 0)
  adjust add_float = returns (negsuc 0)
  adjust subtract_float = returns (negsuc 0)
  adjust multiply_float = returns (negsuc 0)
  adjust divide_float = returns (negsuc 0)
  adjust float_lt = returns (negsuc 0)
  adjust float_eq = returns (negsuc 0)
  adjust return = returns (pos 0)
