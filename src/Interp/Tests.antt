-- ===== src/Interp/Tests.antt =====
-- Runs of the interpreter of vm/src/thread.rs, and its theorems at concrete states.
use embed_lang.Prelude.{
  ℕ, ◌+◌, ◌≤◌, ◌≡◌, refl, true, false, List, [], ◌∷◌, ◌++◌, none, some, returns, panics, pos,
  negsuc, arith, ltb, ◌==◌, Outcome,
}
use embed_lang.Stack.Data.{StackFrame, Frame, unknown}
use embed_lang.Stack.Frames
use embed_lang.Stack.Frames.{entered}
use embed_lang.Stack.Valid.{IsView}
use embed_lang.Bytecode.Instructions.{
  Instruction, push_int, add_int, return, int_lt, divide_int, pop,
}
use embed_lang.Bytecode.Function.{FunctionEnv, new}
use embed_lang.Bytecode.Emitter.{emit_each}
use embed_lang.Bytecode.Effects.{AllSmall, last_size}
use embed_lang.Bytecode.Sizes.{IsSized}
use embed_lang.Interp.Data.{
  Value, int, tag, closure_at, Callable, Heap, BytecodeFunction, Machine, Context, Exec, done,
  fails, aborts, arithmetic_overflow,
}
use embed_lang.Interp.Arith.{binop_int, binop_bool, checked_add_int, checked_div_int}
use embed_lang.Interp.Step.{goes_on, step}
use embed_lang.Interp.Heights.{height}
use embed_lang.Interp.Moves.{Moves}
use embed_lang.Interp.Effects.{step-Moves}
use embed_lang.Interp.Bounds.{Runs, stays, steps, Runs-max_stack_size}
use embed_lang.Interp.Layouts.{holding}
use embed_lang.Interp.Calls.{callable_args, call_value, do_call, leave_frame, closure_state}
use embed_lang.Interp.Currying.{with_values, do_call-application}
use embed_lang.Interp.Returns.{leave_frame-enter_scope}
use embed_lang.Interp.Loop.{ran, execute}

-- `|x y| -> 2 + 3 < 6`, say, of two arguments.
abbrev body : List (Instruction ℕ)
body = push_int (pos 2) ∷ push_int (pos 3) ∷ add_int ∷ push_int (pos 6) ∷ int_lt ∷ []

abbrev adder : BytecodeFunction ℕ
adder = record {
  name = 4;
  args = 2;
  max_stack_size = 3;
  instructions = body ++ return ∷ [];
  inner_functions = [];
  strings = [];
  records = [];
  line = λ i. none;
}

abbrev machine : Machine ℕ
machine = record {
  functions = adder ∷ [];
  externs = [];
  has_room = λ heap n. ltb n 100;
  add_float = λ a b. a + b;
  subtract_float = λ a b. a;
  multiply_float = λ a b. a;
  divide_float = λ a b. a;
  float_lt = ltb;
  float_eq = λ a b. a == b;
}

abbrev closures : Heap ℕ
closures = record {
  datas = [];
  arrays = [];
  closures = record { function = 0; upvars = [] } ∷ [];
  applications = [];
}

abbrev bottom_frame : Frame (Value ℕ)
bottom_frame = record { offset = 0; state = unknown; excess = false }

-- A stack without a value.
abbrev empty_view : StackFrame (Value ℕ)
empty_view = record {
  stack = record { values = []; frames = bottom_frame ∷ []; max_stack_size = 50 };
  frame = bottom_frame;
}

abbrev start : Context ℕ
start = record { stack = empty_view; heap = closures }

abbrev called : Context ℕ
called = with_values start (int (pos 9) ∷ closure_at 0 ∷ int (pos 1) ∷ int (pos 7) ∷ [])

abbrev context_or : Exec (Context ℕ) → Context ℕ
context_or (done c) = c
context_or (fails e) = start
context_or aborts = start

-- The call, and the function's code up to its return.
entered_adder : Context ℕ
unfolding do_call
entered_adder = context_or (do_call machine called 2)

observed :
    (step machine adder (with_values start (int (pos 7) ∷ int (pos 0) ∷ [])) divide_int
      ≡ fails arithmetic_overflow)
    × (step machine adder (with_values start (int (negsuc 6) ∷ int (pos 2) ∷ [])) divide_int
        ≡ done (goes_on (with_values start (int (negsuc 2) ∷ []))))
    × (step machine adder start (pop 1) ≡ aborts)
    × (execute 9 machine adder 0 entered_adder
        ≡ done (ran (some (with_values start (int (pos 9) ∷ tag 1 ∷ [])))))
unfolding step execute entered_adder do_call binop_int checked_div_int checked_add_int binop_bool
observed = (refl, refl, refl, refl)

-- The compiler's env before and after the code, and the states at both ends of its run.
abbrev Env : Type 0
Env = FunctionEnv ℕ ℕ ℕ

begun : Env
unfolding new
begun = new 2 4 0 0 true

abbrev env_or : Outcome Env → Env
env_or (returns env) = env
env_or panics = begun

emitted : Env
unfolding emit_each
emitted = env_or (emit_each begun (body ++ []))

emitted-emit_each : emit_each begun (body ++ []) ≡ returns emitted
unfolding emitted emit_each begun new
emitted-emit_each = refl

begun-IsSized : IsSized begun
unfolding begun new
begun-IsSized = record { counted = omega arith; small = omega arith }

body-AllSmall : AllSmall (body ++ [])
body-AllSmall = (omega arith, (omega arith, (omega arith, (omega arith, (omega arith, tt)))))

body-Runs : Runs machine adder body start (with_values start (tag 1 ∷ []))
unfolding step binop_int binop_bool checked_add_int Frames.push
body-Runs = steps {c' = with_values start (int (pos 2) ∷ [])} refl (
    steps {c' = with_values start (int (pos 2) ∷ int (pos 3) ∷ [])} refl (
      steps {c' = with_values start (int (pos 5) ∷ [])} refl
        (steps {c' = with_values start (int (pos 5) ∷ int (pos 6) ∷ [])} refl (steps refl stays))))

begun-empty : height start.stack ≡ 0 + begun.stack_size
unfolding begun new
begun-empty = refl

Runs-max_stack_size_example :
    (1 ≡ 0 + last_size begun.stack_size body) × (1 ≤ 0 + emitted.function.max_stack_size)
Runs-max_stack_size_example =
    Runs-max_stack_size machine adder begun emitted body [] start (with_values start (tag 1 ∷ [])) 0
      begun-IsSized body-AllSmall refl emitted-emit_each begun-empty body-Runs

abbrev two_ints : Context ℕ
two_ints = with_values start (int (pos 2) ∷ int (pos 3) ∷ [])

added : step machine adder two_ints add_int ≡ done (goes_on (with_values start (int (pos 5) ∷ [])))
unfolding step binop_int checked_add_int
added = refl

step-Moves_example : Moves two_ints (with_values start (int (pos 5) ∷ [])) 1 0
step-Moves_example =
    step-Moves machine adder two_ints (goes_on (with_values start (int (pos 5) ∷ []))) add_int refl
      added

adder-args : callable_args machine closures (Callable.closure 0) ≡ done 2
unfolding callable_args
adder-args = refl

do_call-application_example :
    (c' : Context ℕ) × (app : Value ℕ) × (do_call machine
        (with_values start (int (pos 9) ∷ closure_at 0 ∷ int (pos 1) ∷ []))
        1
      ≡ done c')
    × (c'.stack.stack.values ≡ int (pos 9) ∷ app ∷ [])
    × (do_call machine (with_values c' (int (pos 9) ∷ app ∷ int (pos 7) ∷ [])) 1
        ≡ call_value machine
            (with_values c' (int (pos 9) ∷ app ∷ int (pos 1) ∷ int (pos 7) ∷ []))
            2
            (closure_at 0))
do_call-application_example =
    do_call-application machine start (int (pos 9) ∷ []) (int (pos 1) ∷ []) (int (pos 7) ∷ [])
      (Callable.closure 0) 2 adder-args (omega arith) refl (omega arith) (omega arith)

called-IsView : IsView called.stack
called-IsView = record {
  valid = record { fits = (omega arith, tt); small = omega arith };
  synced = refl;
}

abbrev callee_frame : Frame (Value ℕ)
callee_frame = record {
  offset = 2;
  state = closure_state adder (record { function = 0; upvars = [] });
  excess = false;
}

abbrev callee : StackFrame (Value ℕ)
callee = record {
  stack = record called.stack.stack { frames = callee_frame ∷ bottom_frame ∷ [] };
  frame = callee_frame;
}

callee-entered :
    Frames.enter_scope_excess called.stack 2 callee_frame.state false ≡ returns (entered callee)
unfolding Frames.enter_scope_excess
callee-entered = refl

-- The code leaves its arguments, of which it has changed one, and the result.
leave_frame-enter_scope_example :
    leave_frame machine (record {
      stack = holding callee (int (pos 9) ∷ closure_at 0 ∷ int (pos 1) ∷ int (pos 8) ∷ tag 1 ∷ []);
      heap = closures;
    })
    ≡ done (some (with_values start (int (pos 9) ∷ tag 1 ∷ [])))
leave_frame-enter_scope_example =
    leave_frame-enter_scope machine empty_view callee callee_frame.state (int (pos 9) ∷ [])
      (int (pos 1) ∷ int (pos 7) ∷ []) (int (pos 1) ∷ int (pos 8) ∷ []) (closure_at 0) (tag 1)
      closures called-IsView (omega arith) callee-entered refl (omega arith)
