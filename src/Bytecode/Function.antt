-- ===== src/Bytecode/Function.antt =====
-- vm/src/compiler.rs: `FunctionEnv`, a function while the compiler emits its instructions.
-- Symbols and interned strings are numbers, `T` stands for types and `G` for the functions inside a
-- function, which no operation here reads. Sizes are 32 bits wide and checked; the casts of a
-- position in a vector to 32 bits are written out.

use embed_lang.Prelude.{ℕ, Bool, List, []}
use embed_lang.ScopedMap
use embed_lang.ScopedMap.{ScopedMap}
use embed_lang.SourceMap
use embed_lang.SourceMap.{SourceMap}
use embed_lang.SourceMap.Locals.{LocalMap, new_locals}
use embed_lang.Bytecode.Instructions.{Instruction}

pub record DebugInfo (T : Type 0) : Type 0 where
  pub source_map : SourceMap
  pub local_map : LocalMap T
  pub upvars : List (ℕ × T)
  pub source_name : ℕ

pub record CompiledFunction (Fl T G : Type 0) : Type 0 where
  pub args : ℕ
  pub max_stack_size : ℕ
  pub id : ℕ
  pub typ : T
  pub instructions : List (Instruction Fl)
  pub inner_functions : List G
  pub strings : List ℕ
  pub records : List (List ℕ)
  pub debug_info : DebugInfo T

pub record FunctionEnv (Fl T G : Type 0) : Type 0 where
  pub stack : ScopedMap ℕ (ℕ × T)
  pub stack_size : ℕ
  pub free_vars : List (ℕ × T)
  pub current_line : ℕ
  pub emit_debug_info : Bool
  pub function : CompiledFunction Fl T G

module _ {T : Type 0} where
  -- `CompiledFunction::new`
  unfoldable pub new_function : {Fl G : Type 0} → ℕ → ℕ → T → ℕ → CompiledFunction Fl T G
  new_function args id typ source_name = record {
    args = args;
    max_stack_size = 0;
    id = id;
    typ = typ;
    instructions = [];
    inner_functions = [];
    strings = [];
    records = [];
    debug_info = record {
      source_map = SourceMap.new;
      local_map = new_locals;
      upvars = [];
      source_name = source_name;
    };
  }

  -- `FunctionEnv::new`
  unfoldable pub new : {Fl G : Type 0} → ℕ → ℕ → T → ℕ → Bool → FunctionEnv Fl T G
  unfolding ScopedMap.new new_function
  new args id typ source_name emit_debug_info = record {
    stack = ScopedMap.new;
    stack_size = 0;
    free_vars = [];
    current_line = 0;
    emit_debug_info = emit_debug_info;
    function = new_function args id typ source_name;
  }
