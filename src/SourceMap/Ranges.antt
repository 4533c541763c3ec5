-- ===== src/SourceMap/Ranges.antt =====
-- vm/src/source_map.rs: the ranges of the locals of well-nested scopes.
use embed_lang.Prelude.{ℕ, ◌<◌, if◌then◌else◌, List, [], ◌∷◌, ◌++◌}
use embed_lang.SourceMap.Locals.{Local, LocalMap, emit_local, close_local, in_range}

-- What the compiler emits: a local, whose scope has others, is closed before what follows it.
pub data Scopes (T : Type 0) : Type 0 where
  done : Scopes T
  local : Local T → Scopes T → Scopes T → Scopes T

module _ {T : Type 0} where
  unfoldable pub run : Scopes T → LocalMap T → LocalMap T
  unfolding emit_local close_local
  run done m = m
  run (local l inner next) m =
      run next (close_local (run inner (emit_local m l.start l.index l.name l.typ)) l.end)

  -- The locals in the order of their emissions.
  abbrev pub emitted : Scopes T → List (Local T)
  emitted done = []
  emitted (local l inner next) = l ∷ (emitted inner ++ emitted next)

  -- Every scope has an instruction.
  abbrev pub NonEmpty : Scopes T → Type 0
  NonEmpty done = Unit
  NonEmpty (local l inner next) = (l.start < l.end) × NonEmpty inner × NonEmpty next

  abbrev Closed : List (Local T) → Type 0
  Closed [] = Unit
  Closed (l ∷ ls) = (l.start < l.end) × Closed ls

  -- The locals whose own scope has an instruction.
  abbrev pub at_instruction : ℕ → Scopes T → List (Local T)
  at_instruction i done = []
  at_instruction i (local l inner next) =
      (if in_range i l then l ∷ at_instruction i inner else at_instruction i inner)
      ++ at_instruction i next
