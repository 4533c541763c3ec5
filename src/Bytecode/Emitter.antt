-- ===== src/Bytecode/Emitter.antt =====
-- vm/src/compiler.rs: `FunctionEnv::emit` and what emits through it, and the end of a function.
use Prim.Native.Nat.{max}
use embed_lang.Prelude.{
  ℕ, ◌-◌, ◌==◌, Bool, false, if◌then◌else◌, List, [], ◌∷◌, ◌++◌, map, Option, length, Outcome,
  returns, ◌>>=◌, ℤ, unwrap, checked_add, checked_sub, checked_neg, as_u32, is_positive,
}
use embed_lang.SourceMap
use embed_lang.SourceMap.{SourceMap}
use embed_lang.Bytecode.Instructions.{
  Instruction, adjust, slide, push_string, get_offset, get_field, call, tail_call, return,
}
use embed_lang.Bytecode.Function.{FunctionEnv}
use embed_lang.Bytecode.Tables.{add_string_constant}

-- `find_field`'s result.
pub data FieldAccess : Type 0 where
  name : FieldAccess
  index : ℕ → FieldAccess

abbrev pub is_empty_slide : {Fl : Type 0} → Instruction Fl → Bool
is_empty_slide (slide n) = n == 0
is_empty_slide i = false

module _ {Fl T G : Type 0} where
  unfoldable pub increase_stack : FunctionEnv Fl T G → ℕ → Outcome (FunctionEnv Fl T G)
  increase_stack env adjustment = do
    size ← checked_add env.stack_size adjustment
    returns (record env {
      stack_size = size;
      function = record env.function { max_stack_size = max env.function.max_stack_size size };
    })

  -- The part of `emit` that changes the stack size.
  unfoldable pub resize : FunctionEnv Fl T G → ℤ → Outcome (FunctionEnv Fl T G)
  unfolding increase_stack
  resize env adjustment =
      if is_positive adjustment then increase_stack env (as_u32 adjustment) else (do
        down ← checked_neg adjustment
        size ← checked_sub env.stack_size (as_u32 down)
        returns (record env { stack_size = size }))

  -- The part of `emit` that pushes the instruction and records its line.
  unfoldable pub append : FunctionEnv Fl T G → Instruction Fl → FunctionEnv Fl T G
  unfolding SourceMap.emit
  append env i =
      let instructions = env.function.instructions ++ i ∷ [] in
      let info = env.function.debug_info in
      record env {
        function = record env.function {
          instructions = instructions;
          debug_info =
              if env.emit_debug_info
              then record info {
                source_map =
                    SourceMap.emit info.source_map (length instructions - 1) env.current_line;
              }
              else info;
        };
      }

  unfoldable pub emit : FunctionEnv Fl T G → Instruction Fl → Outcome (FunctionEnv Fl T G)
  unfolding adjust resize append
  emit env i =
      if is_empty_slide i
      then returns env
      else (do adjustment ← adjust i; env' ← resize env adjustment; returns (append env' i))

  -- Calls of `emit` one after the other.
  unfoldable pub emit_each :
      FunctionEnv Fl T G → List (Instruction Fl) → Outcome (FunctionEnv Fl T G)
  unfolding emit
  emit_each env [] = returns env
  emit_each env (i ∷ is) = do env' ← emit env i; emit_each env' is

  -- Each instruction with the `current_line` that it is emitted at.
  unfoldable pub emit_at :
      FunctionEnv Fl T G → List (ℕ × Instruction Fl) → Outcome (FunctionEnv Fl T G)
  unfolding emit
  emit_at env [] = returns env
  emit_at env ((l, i) ∷ is) = do env' ← emit (record env { current_line = l }) i; emit_at env' is

  unfoldable pub emit_call : FunctionEnv Fl T G → ℕ → Bool → Outcome (FunctionEnv Fl T G)
  unfolding emit
  emit_call env args tail_position = emit env (if tail_position then tail_call args else call args)

  unfoldable pub emit_string : FunctionEnv Fl T G → ℕ → Outcome (FunctionEnv Fl T G)
  unfolding add_string_constant emit
  emit_string env s = let (env', i) = add_string_constant env s in emit env' (push_string i)

  -- `found` is the result of `find_field`, and `field` the interned name.
  unfoldable pub emit_field :
      FunctionEnv Fl T G → Option FieldAccess → ℕ → Outcome (FunctionEnv Fl T G)
  unfolding add_string_constant emit
  emit_field env found field = do
    access ← unwrap found
    elim access [
      | index i ↦ emit env (get_offset i)
      | name ↦ let (env', i) = add_string_constant env field in emit env' (get_field i)
    ]

  -- `FunctionEnvs::end_function` for the innermost function; `outermost` tells whether it is the only
  -- one. `declared_name` stands for the symbol's name without its suffix.
  unfoldable pub end_function : (ℕ → ℕ) → Bool → Option ℕ → FunctionEnv Fl T G → FunctionEnv Fl T G
  unfolding SourceMap.close
  end_function declared_name outermost current_line env =
      let instructions = env.function.instructions ++ return ∷ [] in
      let info = env.function.debug_info in
      let closed = record info {
        source_map = SourceMap.close info.source_map (length instructions) current_line;
        upvars =
            if outermost
            then info.upvars
            else info.upvars ++ map (λ v. (declared_name v.0, v.1)) env.free_vars;
      } in
      record env {
        function = record env.function {
          instructions = instructions;
          debug_info = if env.emit_debug_info then closed else info;
        };
      }
