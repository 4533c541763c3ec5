-- ===== src/Stack/Data.antt =====
-- vm/src/stack.rs: the values, the frames and the states of a stack.
-- The values are in the vector's order, index 0 first; the frames are a list whose head is the
-- vector's last element. A value is a type parameter, a symbol a number, and a garbage collected
-- pointer the data that it points to.
use embed_lang.Prelude.{ℕ, Bool, true, false, List, Option, none, some, Outcome, returns, panics}

-- Of a closure's data, what the stack reads: `line` is its source map.
pub record ClosureData (V : Type 0) : Type 0 where
  pub name : ℕ
  pub max_stack_size : ℕ
  pub upvars : List V
  pub line : ℕ → Option ℕ

pub record ClosureState (V : Type 0) : Type 0 where
  pub closure : ClosureData V
  pub instruction_index : ℕ

pub data ExternCallState : Type 0 where
  start in_poll pending poll : ExternCallState

-- `function` is the id of the extern function.
pub record ExternState : Type 0 where
  pub function : ℕ
  pub call_state : ExternCallState
  pub locked : Option ℕ

unfoldable pub new_extern : ℕ → ExternState
new_extern function = record { function = function; call_state = start; locked = none }

-- `ext.is_locked()`
abbrev pub is_locked : ExternState → Bool
is_locked ext = elim ext.locked [ none ↦ false | some n ↦ true ]

pub data State (V : Type 0) : Type 0 where
  unknown : State V
  closure : ClosureState V → State V
  extern : ExternState → State V

pub record Frame (V : Type 0) : Type 0 where
  pub offset : ℕ
  pub state : State V
  pub excess : Bool

pub record Stack (V : Type 0) : Type 0 where
  pub values : List V
  pub frames : List (Frame V)
  pub max_stack_size : ℕ

-- A frame view: the stack, with a copy of the frame that is worked on.
pub record StackFrame (V : Type 0) : Type 0 where
  pub stack : Stack V
  pub frame : Frame V

module _ {V : Type 0} where
  -- `state.max_stack_size()`
  abbrev pub max_stack_size : State V → ℕ
  max_stack_size unknown = 0
  max_stack_size (closure c) = c.closure.max_stack_size
  max_stack_size (extern ext) = 0

  -- `ClosureState::from_state` and `ExternState::from_state`
  unfoldable pub as_closure : State V → Outcome (ClosureState V)
  as_closure (closure c) = returns c
  as_closure s = panics

  unfoldable pub as_extern : State V → Outcome ExternState
  as_extern (extern ext) = returns ext
  as_extern s = panics

  -- The number of arguments that are locked in a frame with this state.
  abbrev pub locked_args : State V → ℕ
  locked_args unknown = 0
  locked_args (closure c) = 0
  locked_args (extern ext) = elim ext.locked [ none ↦ 0 | some args ↦ args ]
