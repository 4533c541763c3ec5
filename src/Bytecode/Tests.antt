-- ===== src/Bytecode/Tests.antt =====
-- Runs of the emitter of vm/src/compiler.rs, and its theorems at concrete functions.
use embed_lang.Prelude.{
  ℕ, ℕ_discrete, ◌<◌, ◌+◌, ◌≡◌, refl, true, List, [], ◌∷◌, ◌++◌, map, none, some, Outcome, returns,
  panics, length, get_elem?, pos, arith, u32_mod,
}
use embed_lang.ScopedMap.Trail.{Represents}
use embed_lang.ScopedMap.Laws.{new-Represents}
use embed_lang.SourceMap.{line}
use embed_lang.Bytecode.Instructions.{
  Instruction, push_int, add_int, slide, construct_array, return,
}
use embed_lang.Bytecode.Effects.{AllSmall, sizes}
use embed_lang.Bytecode.Function.{FunctionEnv, new}
use embed_lang.Bytecode.Emitter.{emit_each, emit_at, end_function}
use embed_lang.Bytecode.Tables.{add_each}
use embed_lang.Bytecode.Variables.{enter_scope, push_each, exit_scope}
use embed_lang.Bytecode.Sizes.{IsSized}
use embed_lang.Bytecode.Bounds.{Emitted, emit_each-Emitted}
use embed_lang.Bytecode.LineTable.{kept, lines, code, line-emit_at}
use embed_lang.Bytecode.Constants.{Distinct, get_elem?-add_each}
use embed_lang.Bytecode.Scopes.{bound, exit_scope-push_each}

abbrev Env : Type 0
Env = FunctionEnv ℕ ℕ ℕ

begun : Env
unfolding new
begun = new 2 7 0 0 true

-- `[1, 2 + 3]`, with the values that it takes on the way.
abbrev program : List (Instruction ℕ)
program =
    push_int (pos 1)
    ∷ push_int (pos 2)
    ∷ push_int (pos 3)
    ∷ add_int
    ∷ slide 0
    ∷ construct_array 2
    ∷ []

begun-IsSized : IsSized begun
unfolding begun
begun-IsSized = record { counted = omega arith; small = omega arith }

program-AllSmall : AllSmall program
program-AllSmall =
    (omega arith, (omega arith, (omega arith, (omega arith, (omega arith, (omega arith, tt))))))

emit_each-Emitted_example : Emitted 0 0 program (emit_each begun program)
unfolding begun
emit_each-Emitted_example = emit_each-Emitted begun program begun-IsSized program-AllSmall

observed :
    (sizes 0 program ≡ 1 ∷ 2 ∷ 3 ∷ 2 ∷ 2 ∷ 1 ∷ [])
    × (emit_each begun (add_int ∷ []) ≡ panics)
    × (emit_each begun (construct_array 2147483648 ∷ []) ≡ panics)
    × ((add_each begun (5 ∷ 9 ∷ 5 ∷ [])).1 ≡ 0 ∷ 1 ∷ 0 ∷ [])
unfolding begun emit_each add_each
observed = (refl, refl, refl, refl)

-- The same program, written on the lines 3 and 4.
abbrev placed : List (ℕ × Instruction ℕ)
placed =
    (3, push_int (pos 1))
    ∷ (3, push_int (pos 2))
    ∷ (4, push_int (pos 3))
    ∷ (4, add_int)
    ∷ (4, slide 0)
    ∷ (3, construct_array 2)
    ∷ []

abbrev or_begun : Outcome Env → Env
or_begun panics = begun
or_begun (returns env) = env

compiled : Env
unfolding emit_at
compiled = or_begun (emit_at (new 2 7 0 0 true) placed)

compiled-emit_at : emit_at {G = ℕ} (new 2 7 0 0 true) placed ≡ returns compiled
unfolding compiled emit_at new
compiled-emit_at = refl

line-emit_at_example :
    ((end_function (λ s. s) true none compiled).function.instructions
      ≡ code (kept placed) ++ return ∷ [])
    × (line (end_function (λ s. s) true none compiled).function.debug_info.source_map 3
        ≡ get_elem? (lines (kept placed) ++ 3 ∷ []) 3)
line-emit_at_example =
    line-emit_at 2 7 0 0 placed compiled 3 (push_int (pos 1))
      ((3, push_int (pos 2)) ∷ (4, push_int (pos 3)) ∷ (4, add_int) ∷ (3, construct_array 2) ∷ [])
      refl compiled-emit_at (λ s. s) true none 3

begun-Distinct : Distinct begun.function.strings
unfolding begun new
begun-Distinct = tt

begun-few : length begun.function.strings + 3 < u32_mod
unfolding begun new
begun-few = omega arith

begun-small : begun.stack_size + 2 < u32_mod
unfolding begun new
begun-small = omega arith

get_elem?-add_each_example :
    (map
        (get_elem? (add_each begun (5 ∷ 9 ∷ 5 ∷ [])).0.function.strings)
        (add_each begun (5 ∷ 9 ∷ 5 ∷ [])).1
      ≡ map some (5 ∷ 9 ∷ 5 ∷ []))
    × Distinct (add_each begun (5 ∷ 9 ∷ 5 ∷ [])).0.function.strings
    × (more : List ℕ) × ((add_each begun (5 ∷ 9 ∷ 5 ∷ [])).0.function.strings
        ≡ begun.function.strings ++ more)
get_elem?-add_each_example = get_elem?-add_each begun (5 ∷ 9 ∷ 5 ∷ []) begun-Distinct begun-few

begun-Represents : Represents ℕ_discrete begun.stack []
unfolding begun new
begun-Represents = new-Represents ℕ_discrete

exit_scope-push_each_example :
    (inner outer : Env) × (push_each 0 (enter_scope begun) ((4, 1) ∷ (6, 2) ∷ []) ≡ returns inner)
    × (inner.stack_size ≡ begun.stack_size + 2)
    × Represents ℕ_discrete inner.stack (bound begun.stack_size ((4, 1) ∷ (6, 2) ∷ []) (none ∷ []))
    × (exit_scope 0 inner ≡ returns (outer, 2))
    × (outer.stack_size ≡ inner.stack_size)
    × Represents ℕ_discrete outer.stack []
exit_scope-push_each_example =
    exit_scope-push_each 0 begun ((4, 1) ∷ (6, 2) ∷ []) [] begun-Represents begun-small
