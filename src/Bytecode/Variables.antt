-- ===== src/Bytecode/Variables.antt =====
-- vm/src/compiler.rs: the variables of a function, which are indexes into its stack.

use embed_lang.Prelude.{
  ℕ, ℕ_discrete, ◌==◌, not, ◌&&◌, Bool, if◌then◌else◌, List, [], ◌∷◌, length, Outcome, returns,
  ◌>>=◌, checked_add, checked_sub,
}
use embed_lang.ScopedMap
use embed_lang.ScopedMap.{ScopedMap}
use embed_lang.SourceMap.Locals.{LocalMap, emit_local, close_local}
use embed_lang.Bytecode.Function.{FunctionEnv}
use embed_lang.Bytecode.Emitter.{increase_stack}

module _ {T : Type 0} where
  -- The loop of `exit_scope` over the variables: the number of them, and the local map.
  unfoldable pub close_vars :
      ℕ → Bool → ℕ → List (ℕ × (ℕ × T)) → LocalMap T → Outcome (ℕ × LocalMap T)
  unfolding close_local
  close_vars empty_symbol debug i [] m = returns (0, m)
  close_vars empty_symbol debug i ((s, v) ∷ vars) m = do
    let m' = if debug && not (empty_symbol == s) then close_local m i else m
    (n, m'') ← close_vars empty_symbol debug i vars m'
    count ← checked_add n 1
    returns (count, m'')

module _ {Fl T G : Type 0} where
  -- The part of `new_stack_var` that binds the variable to an index, and records it if it has a name.
  unfoldable pub bind_var : ℕ → FunctionEnv Fl T G → ℕ → T → ℕ → FunctionEnv Fl T G
  unfolding ScopedMap.insert emit_local
  bind_var empty_symbol env s typ i =
      let info = env.function.debug_info in
      let locals = emit_local info.local_map (length env.function.instructions) i s typ in
      record env {
        stack = (ScopedMap.insert ℕ_discrete env.stack s (i, typ)).0;
        function = record env.function {
          debug_info =
              if env.emit_debug_info && not (empty_symbol == s)
              then record info { local_map = locals }
              else info;
        };
      }

  -- `empty_symbol` is the compiler's symbol for a variable without a name.
  unfoldable pub new_stack_var : ℕ → FunctionEnv Fl T G → ℕ → T → Outcome (FunctionEnv Fl T G)
  unfolding bind_var
  new_stack_var empty_symbol env s typ = do
    i ← checked_sub env.stack_size 1
    returns (bind_var empty_symbol env s typ i)

  unfoldable pub push_stack_var : ℕ → FunctionEnv Fl T G → ℕ → T → Outcome (FunctionEnv Fl T G)
  unfolding increase_stack new_stack_var
  push_stack_var empty_symbol env s typ = do
    env' ← increase_stack env 1
    new_stack_var empty_symbol env' s typ

  -- Calls of `push_stack_var` one after the other.
  unfoldable pub push_each : ℕ → FunctionEnv Fl T G → List (ℕ × T) → Outcome (FunctionEnv Fl T G)
  unfolding push_stack_var
  push_each empty_symbol env [] = returns env
  push_each empty_symbol env ((s, typ) ∷ vars) = do
    env' ← push_stack_var empty_symbol env s typ
    push_each empty_symbol env' vars

  -- `function.stack.enter_scope()`
  unfoldable pub enter_scope : FunctionEnv Fl T G → FunctionEnv Fl T G
  unfolding ScopedMap.enter_scope
  enter_scope env = record env { stack = ScopedMap.enter_scope env.stack }

  unfoldable pub exit_scope : ℕ → FunctionEnv Fl T G → Outcome (FunctionEnv Fl T G × ℕ)
  unfolding ScopedMap.exit_scope close_vars
  exit_scope empty_symbol env = do
    let info = env.function.debug_info
    let (vars, stack) = ScopedMap.exit_scope ℕ_discrete env.stack
    (count, locals) ←
        close_vars empty_symbol env.emit_debug_info (length env.function.instructions) vars
          info.local_map
    returns (
      record env {
        stack = stack;
        function = record env.function { debug_info = record info { local_map = locals } };
      },
      count,
    )
