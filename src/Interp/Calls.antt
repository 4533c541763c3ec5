-- ===== src/Interp/Calls.antt =====
-- vm/src/thread.rs: calls, tail calls and returns.
use embed_lang.Prelude.{
  ℕ, ◌%◌, Bool, true, false, ltb, leb, ◌==◌, if◌then◌else◌, Option, none, some, assert, length,
  get_elem?, List, [], ◌∷◌, ◌++◌, checked_sub, checked_add, u32_mod,
}
use embed_lang.Stack.Data.{State, new_extern}
use embed_lang.Stack.Frames
use embed_lang.Stack.Frames.{Entered, entered, Exited, restored, bottom}
use embed_lang.Interp.Data.{
  Value, data_at, closure_at, function_at, partial_application_at, Closure, Callable,
  PartialApplicationData, Heap, BytecodeFunction, Machine, Context, cannot_call, out_of_memory,
  stack_overflow, Exec, done, fails, ◌>>=◌, ◌>>◌, lift, need,
}
use embed_lang.Interp.Objects.{alloc_data, variant, top_slice, replace_top}
use embed_lang.Interp.Access.{extend, pop_values}

module _ {Fl : Type 0} where
  -- `Callable::args`
  unfoldable pub callable_args : Machine Fl → Heap Fl → Callable → Exec ℕ
  callable_args m heap (Callable.closure p) = do
    f ← need (get_elem? heap.closures p)
    g ← need (get_elem? m.functions f.function)
    done g.args
  callable_args m heap (Callable.extern p) = do e ← need (get_elem? m.externs p); done e.args

  -- `enter_scope`: the error of the stack is that of the call.
  unfoldable pub enter_scope : Context Fl → ℕ → State (Value Fl) → Bool → Exec (Context Fl)
  unfolding Frames.enter_scope_excess
  enter_scope c args state excess = do
    r ← lift (Frames.enter_scope_excess c.stack args state excess)
    elim r [
      | entered s ↦ done (record c { stack = s })
      | Frames.stack_overflow n ↦ fails (stack_overflow n)
    ]

  -- What the frame of a call holds of a closure.
  abbrev pub closure_state : BytecodeFunction Fl → Closure Fl → State (Value Fl)
  closure_state g f = State.closure (record {
    closure = record {
      name = g.name;
      max_stack_size = g.max_stack_size;
      upvars = f.upvars;
      line = g.line;
    };
    instruction_index = 0;
  })

  -- `enter_closure` and `enter_extern`
  unfoldable pub enter : Machine Fl → Callable → Context Fl → Bool → Exec (Context Fl)
  unfolding enter_scope new_extern Frames.len
  enter m (Callable.closure p) c excess = do
    f ← need (get_elem? c.heap.closures p)
    g ← need (get_elem? m.functions f.function)
    enter_scope c g.args (closure_state g f) excess
  enter m (Callable.extern p) c excess = do
    e ← need (get_elem? m.externs p)
    n ← lift (Frames.len c.stack)
    least ← lift (checked_add e.args 1)
    lift (assert (leb least n))
    enter_scope c e.args (State.extern (new_extern e.id)) excess

  unfoldable pub alloc_application :
      Machine Fl → Context Fl → PartialApplicationData Fl → Exec (Context Fl × Value Fl)
  alloc_application m c a =
      if m.has_room c.heap (length a.args)
      then done (
        record c { heap = record c.heap { applications = c.heap.applications ++ a ∷ [] } },
        partial_application_at (length c.heap.applications),
      )
      else fails out_of_memory

  -- Too few arguments: the function and the arguments become a partial application.
  unfoldable pub apply_partially : Machine Fl → Context Fl → ℕ → Callable → Exec (Context Fl)
  unfolding top_slice alloc_application replace_top
  apply_partially m c args callable = do
    fields ← top_slice c args
    (c', app) ← alloc_application m c (record { function = callable; args = fields })
    all ← lift (checked_add args 1)
    replace_top c' all app

  -- Too many arguments: those in excess become a data value below the function.
  unfoldable pub set_excess_aside : Machine Fl → Context Fl → ℕ → ℕ → Exec (Context Fl)
  unfolding top_slice alloc_data pop_values Frames.len Frames.insert_slice
  set_excess_aside m c args required = do
    excess_args ← lift (checked_sub args required)
    fields ← top_slice c excess_args
    (c', d) ← alloc_data m c (variant 0 none fields)
    c'' ← pop_values c' excess_args
    n ← lift (Frames.len c''.stack)
    above ← lift (checked_sub n required)
    offset ← lift (checked_sub above 1)
    s ← lift (Frames.insert_slice c''.stack offset (d ∷ []))
    done (record c'' { stack = s })

  unfoldable pub call_function_with_upvars :
      Machine Fl → Context Fl → ℕ → ℕ → Callable → Exec (Context Fl)
  unfolding enter apply_partially set_excess_aside
  call_function_with_upvars m c args required callable =
      if args == required
      then enter m callable c false
      else if ltb args required
      then apply_partially m c args callable
      else (do c' ← set_excess_aside m c args required; enter m callable c' true)

  -- The match of `do_call` on the value that is called.
  unfoldable pub call_value : Machine Fl → Context Fl → ℕ → Value Fl → Exec (Context Fl)
  unfolding call_function_with_upvars callable_args Frames.len Frames.insert_slice
  call_value m c args (closure_at p) = do
    required ← callable_args m c.heap (Callable.closure p)
    call_function_with_upvars m c args required (Callable.closure p)
  call_value m c args (function_at p) = do
    required ← callable_args m c.heap (Callable.extern p)
    call_function_with_upvars m c args required (Callable.extern p)
  call_value m c args (partial_application_at p) = do
    app ← need (get_elem? c.heap.applications p)
    total ← lift (checked_add (length app.args % u32_mod) args)
    n ← lift (Frames.len c.stack)
    offset ← lift (checked_sub n args)
    s ← lift (Frames.insert_slice c.stack offset app.args)
    required ← callable_args m c.heap app.function
    call_function_with_upvars m (record c { stack = s }) total required app.function
  call_value m c args v = fails cannot_call

  unfoldable pub do_call : Machine Fl → Context Fl → ℕ → Exec (Context Fl)
  unfolding Frames.len Frames.index call_value
  do_call m c args = do
    n ← lift (Frames.len c.stack)
    below ← lift (checked_sub n 1)
    function_index ← lift (checked_sub below args)
    v ← lift (Frames.index c.stack function_index)
    call_value m c args v

  -- The data value that `excess_args` looks for, and its fields.
  abbrev pub as_data : Value Fl → Option ℕ
  as_data (data_at p) = some p
  as_data v = none

  unfoldable pub excess_fields : Context Fl → Exec (List (Value Fl))
  unfolding Frames.excess_args
  excess_fields c = do
    found ← lift (Frames.excess_args as_data c.stack)
    p ← need found
    d ← need (get_elem? c.heap.datas p)
    done d.fields

  -- `exit_scope`, with whether there is a frame below. Where there is none, or it is locked, the
  -- view is of the last frame.
  unfoldable pub exit_scope : Context Fl → Exec (Context Fl × Bool)
  unfolding Frames.exit_scope Frames.current_frame
  exit_scope c = do
    r ← lift (Frames.exit_scope c.stack)
    elim r [
      | restored s ↦ done (record c { stack = s }, true)
      | bottom s ↦ do f ← lift (Frames.current_frame s); done (record c { stack = f }, false)
    ]

  -- The excess arguments of the frame go on top of those of the tail call, and count for the removal.
  unfoldable pub with_excess : Context Fl → ℕ → ℕ → Exec (Context Fl × ℕ × ℕ)
  unfolding excess_fields
  with_excess c args amount =
      if c.stack.frame.excess
      then (do
        more ← lift (checked_add amount 1)
        fields ← excess_fields c
        all ← lift (checked_add args (length fields % u32_mod))
        done (extend c fields, all, more))
      else done (c, args, amount)

  -- `TailCall`
  unfoldable pub tail_call : Machine Fl → Context Fl → ℕ → Exec (Context Fl)
  unfolding Frames.len with_excess exit_scope Frames.remove_range do_call
  tail_call m c args = do
    n ← lift (Frames.len c.stack)
    amount ← lift (checked_sub n args)
    (c', all, more) ← with_excess c args amount
    (outer, exists) ← exit_scope c'
    len ← lift (Frames.len outer.stack)
    above ← lift (checked_sub len all)
    end ← lift (checked_sub above 1)
    from ← lift (checked_sub end more)
    s ← lift (Frames.remove_range outer.stack from end)
    do_call m (record outer { stack = s }) all

  -- After the loop of `execute_`: the frame is left with its result, and the result is called with
  -- the arguments in excess. The result is `none` if no frame is left to go on with.
  unfoldable pub leave_frame : Machine Fl → Context Fl → Exec (Option (Context Fl))
  unfolding Frames.len exit_scope Frames.slide Frames.index do_call
  leave_frame m c = do
    len ← lift (Frames.len c.stack)
    (outer, exists) ← exit_scope c
    s ← lift (Frames.slide outer.stack len)
    if c.stack.frame.excess
        then (do
          n ← lift (Frames.len s)
          i ← lift (checked_sub n 2)
          v ← lift (Frames.index s i)
          p ← need (as_data v)
          d ← need (get_elem? outer.heap.datas p)
          s' ← lift (Frames.slide s 1)
          c' ← do_call m (extend (record outer { stack = s' }) d.fields) (length d.fields % u32_mod)
          done (some c'))
        else done (if exists then some (record outer { stack = s }) else none)
