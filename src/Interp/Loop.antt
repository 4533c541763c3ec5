-- ===== src/Interp/Loop.antt =====
-- vm/src/thread.rs: `execute_`, which runs a closure's frame until a call, an error or its return.
use embed_lang.Prelude.{
  ℕ, zero, suc, Bool, true, false, ltb, Option, some, assert, length, get_elem?, List, [], ◌∷◌,
}
use embed_lang.Stack.Frames
use embed_lang.Bytecode.Instructions.{Instruction, return}
use embed_lang.Interp.Data.{Machine, Context, BytecodeFunction, Exec, done, ◌>>=◌, ◌>>◌, lift, need}
use embed_lang.Interp.Step.{goes_on, jumps, calls, tail_calls, leaves, step}
use embed_lang.Interp.Calls.{do_call, tail_call, leave_frame}

-- The result: the state that the thread goes on with, if a frame is left, or no more fuel.
pub data Ran (Fl : Type 0) : Type 0 where
  ran : Option (Context Fl) → Ran Fl
  out_of_fuel : Ran Fl

module _ {Fl : Type 0} where
  -- `instructions.last() == Some(&Return)`
  unfoldable pub ends_in_return : List (Instruction Fl) → Bool
  ends_in_return [] = false
  ends_in_return (return ∷ []) = true
  ends_in_return (i ∷ []) = false
  ends_in_return (i ∷ j ∷ is) = ends_in_return (j ∷ is)

  -- The end of a round with a call, whose frame is entered by the caller of `execute_`.
  abbrev ran_some : Exec (Context Fl) → Exec (Ran Fl)
  ran_some e = do c ← e; done (ran (some c))

  -- The loop, with a round of fuel for each instruction.
  unfoldable pub loop : ℕ → Machine Fl → BytecodeFunction Fl → ℕ → Context Fl → Exec (Ran Fl)
  unfolding step do_call tail_call leave_frame Frames.set_instruction_index
  loop zero m f pc c = done out_of_fuel
  loop (suc fuel) m f pc c = do
    i ← need (get_elem? f.instructions pc)
    next ← step m f c i
    elim next [
      | goes_on c' ↦ loop fuel m f (suc pc) c'
      | jumps j c' ↦ loop fuel m f j c'
      | calls args c' ↦
          ran_some
            (do_call m (record c' { stack = Frames.set_instruction_index c'.stack (suc pc) }) args)
      | tail_calls args c' ↦ ran_some (tail_call m c' args)
      | leaves c' ↦ do r ← leave_frame m c'; done (ran r)
    ]

  -- `ProgramCounter::new`, and the loop.
  unfoldable pub execute : ℕ → Machine Fl → BytecodeFunction Fl → ℕ → Context Fl → Exec (Ran Fl)
  unfolding ends_in_return loop
  execute fuel m f pc c = do
    lift (assert (ltb pc (length f.instructions)))
    lift (assert (ends_in_return f.instructions))
    loop fuel m f pc c
