-- ===== src/Stack/Frames.antt =====
-- vm/src/stack.rs: the operations of `StackFrame`, which carries a copy of the last frame.
use embed_lang.Prelude.{
  ℕ, ◌-◌, Bool, false, ltb, leb, if◌then◌else◌, List, [], ◌∷◌, ◌++◌, head?, Option, some, length,
  get_elem?, take, drop, Outcome, returns, panics, ◌>>=◌, ◌>>◌, checked_add, checked_sub, assert,
  unwrap,
}
use embed_lang.Stack.Data.{
  State, unknown, closure, extern, Frame, Stack, StackFrame, locked_args, max_stack_size,
  as_closure, as_extern,
}
use embed_lang.Stack.Ops
use embed_lang.Stack.Ops.{is_locked_frame}

-- `Result<T>`, whose only error here is `Error::StackOverflow`.
pub data Entered (A : Type 0) : Type 0 where
  entered : A → Entered A
  stack_overflow : ℕ → Entered A

-- `Result<StackFrame, &mut Stack>` of `exit_scope`.
pub data Exited (V : Type 0) : Type 0 where
  restored : StackFrame V → Exited V
  bottom : Stack V → Exited V

module _ {V : Type 0} where
  unfoldable pub current_frame : Stack V → Outcome (StackFrame V)
  current_frame s = do
    frame ← unwrap (head? s.frames)
    returns (record { stack = s; frame = frame })

  -- The assertions of `add_new_frame` about the frame below.
  unfoldable pub assert_frame : List (Frame V) → ℕ → Outcome (Unit {0})
  assert_frame [] offset = returns tt
  assert_frame (frame ∷ fs) offset = do
    assert (leb frame.offset offset)
    if is_locked_frame frame
        then (do
          below ← checked_add frame.offset (locked_args frame.state)
          assert (leb below offset))
        else returns tt

  unfoldable pub add_new_frame :
      Stack V → ℕ → State V → Bool → Outcome (Entered (Stack V × Frame V))
  unfolding assert_frame
  add_new_frame s args state excess = do
    assert (leb args (Ops.len s))
    offset ← checked_sub (Ops.len s) args
    assert_frame s.frames offset
    size ← checked_add (Ops.len s) (max_stack_size state)
    if ltb s.max_stack_size size
        then returns (stack_overflow s.max_stack_size)
        else (let frame : Frame V = record { offset = offset; state = state; excess = excess } in
            returns (entered (record s { frames = frame ∷ s.frames }, frame)))

  unfoldable pub new_frame : Stack V → ℕ → State V → Outcome (Entered (StackFrame V))
  unfolding add_new_frame
  new_frame s args state = do
    result ← add_new_frame s args state false
    elim result [
      | entered (s', frame) ↦ returns (entered (record { stack = s'; frame = frame }))
      | stack_overflow n ↦ returns (stack_overflow n)
    ]

  unfoldable pub enter_scope_excess :
      StackFrame V → ℕ → State V → Bool → Outcome (Entered (StackFrame V))
  unfolding add_new_frame
  enter_scope_excess f args state excess = do
    result ← add_new_frame f.stack args state excess
    elim result [
      | entered (s', frame) ↦ returns (entered (record { stack = s'; frame = frame }))
      | stack_overflow n ↦ returns (stack_overflow n)
    ]

  unfoldable pub enter_scope : StackFrame V → ℕ → State V → Outcome (Entered (StackFrame V))
  unfolding enter_scope_excess
  enter_scope f args state = enter_scope_excess f args state false

  -- The frame below, once the last frame is popped.
  unfoldable pub restore : Stack V → List (Frame V) → Exited V
  restore s [] = bottom s
  restore s (frame ∷ fs) = restored (record { stack = s; frame = frame })

  pop_frame : Stack V → List (Frame V) → Outcome (Exited V)
  unfolding restore
  pop_frame s [] = panics
  pop_frame s (f ∷ fs) = returns (restore (record s { frames = fs }) fs)

  unfoldable pub exit_scope : StackFrame V → Outcome (Exited V)
  unfolding pop_frame
  exit_scope f =
      if is_locked_frame f.frame then returns (bottom f.stack) else pop_frame f.stack f.stack.frames

  -- The write of `FrameViewMut` back into the last frame.
  set_last : List (Frame V) → Frame V → Outcome (List (Frame V))
  set_last [] frame = panics
  set_last (f ∷ fs) frame = returns (frame ∷ fs)

  unfoldable pub len : StackFrame V → Outcome ℕ
  len f = checked_sub (Ops.len f.stack) f.frame.offset

  -- The view after the lock, and the lock.
  unfoldable pub into_lock : StackFrame V → Outcome (Stack V × ℕ)
  unfolding len as_extern set_last
  into_lock f = do
    n ← len f
    ext ← as_extern f.frame.state
    fs ←
        set_last f.stack.frames (record f.frame { state = extern (record ext { locked = some n }) })
    returns (record f.stack { frames = fs }, f.frame.offset)

  unfoldable pub push : StackFrame V → V → StackFrame V
  unfolding Ops.push
  push f v = record f { stack = Ops.push f.stack v }

  unfoldable pub top : StackFrame V → Outcome V
  top f = unwrap (get_elem? f.stack.values (length f.stack.values - 1))

  unfoldable pub assert_pop : StackFrame V → ℕ → Outcome (Unit {0})
  unfolding len
  assert_pop f count = do
    n ← len f
    need ← checked_add count (locked_args f.frame.state)
    assert (leb need n)

  unfoldable pub pop : StackFrame V → Outcome (StackFrame V × V)
  unfolding assert_pop Ops.pop_last
  pop f = do
    assert_pop f 1
    (vs, v) ← Ops.pop_last f.stack.values
    returns (record f { stack = record f.stack { values = vs } }, v)

  unfoldable pub pop_many : StackFrame V → ℕ → Outcome (StackFrame V)
  unfolding assert_pop
  pop_many f count = do
    assert_pop f count
    n ← checked_sub (length f.stack.values) count
    returns (record f { stack = record f.stack { values = take n f.stack.values } })

  unfoldable pub clear : StackFrame V → Outcome (StackFrame V)
  unfolding len Ops.pop_many
  clear f = do
    n ← len f
    assert (leb (locked_args f.frame.state) n)
    count ← checked_sub n (locked_args f.frame.state)
    s ← Ops.pop_many f.stack count
    returns (record f { stack = s })

  unfoldable pub slide : StackFrame V → ℕ → Outcome (StackFrame V)
  unfolding Ops.slide
  slide f count = do s ← Ops.slide f.stack count; returns (record f { stack = s })

  unfoldable pub get_variant : StackFrame V → ℕ → Outcome (Option V)
  unfolding Ops.get_variant
  get_variant f i = do j ← checked_add f.frame.offset i; Ops.get_variant f.stack j

  unfoldable pub insert_slice : StackFrame V → ℕ → List V → Outcome (StackFrame V)
  insert_slice f i vs = do
    j ← checked_add f.frame.offset i
    if leb j (length f.stack.values)
        then returns (record f {
          stack = record f.stack {
            values = take j f.stack.values ++ (vs ++ drop j f.stack.values);
          };
        })
        else panics

  unfoldable pub remove_range : StackFrame V → ℕ → ℕ → Outcome (StackFrame V)
  unfolding Ops.remove_range
  remove_range f from to = do
    i ← checked_add f.frame.offset from
    j ← checked_add f.frame.offset to
    s ← Ops.remove_range f.stack i j
    returns (record f { stack = s })

  -- `as_data` stands for the match on `ValueRepr::Data`.
  unfoldable pub excess_args : {D : Type 0} → (V → Option D) → StackFrame V → Outcome (Option D)
  unfolding len
  excess_args as_data f = do
    n ← len f
    below ← checked_sub (length f.stack.values) n
    i ← checked_sub below 2
    v ← unwrap (get_elem? f.stack.values i)
    returns (as_data v)

  unfoldable pub get_upvar : StackFrame V → ℕ → Outcome V
  unfolding as_closure
  get_upvar f i = do c ← as_closure f.frame.state; unwrap (get_elem? c.closure.upvars i)

  abbrev with_excess : List (Frame V) → Bool → List (Frame V)
  with_excess [] excess = []
  with_excess (f ∷ fs) excess = record f { excess = excess } ∷ fs

  unfoldable pub set_excess : StackFrame V → Bool → StackFrame V
  set_excess f excess = record {
    stack = record f.stack { frames = with_excess f.stack.frames excess };
    frame = record f.frame { excess = excess };
  }

  abbrev at_instruction : State V → ℕ → State V
  at_instruction unknown i = unknown
  at_instruction (closure c) i = closure (record c { instruction_index = i })
  at_instruction (extern ext) i = extern ext

  abbrev with_instruction : List (Frame V) → ℕ → List (Frame V)
  with_instruction [] i = []
  with_instruction (f ∷ fs) i = record f { state = at_instruction f.state i } ∷ fs

  unfoldable pub set_instruction_index : StackFrame V → ℕ → StackFrame V
  set_instruction_index f i = record {
    stack = record f.stack { frames = with_instruction f.stack.frames i };
    frame = record f.frame { state = at_instruction f.frame.state i };
  }

  -- `self[i]`, `self[..]`, `self[from..to]`, `self[..to]` and `self[from..]`. The slice up to an
  -- end begins at the bottom of the stack.
  unfoldable pub index : StackFrame V → ℕ → Outcome V
  unfolding Ops.index
  index f i = do j ← checked_add f.frame.offset i; Ops.index f.stack j

  unfoldable pub set_index : StackFrame V → ℕ → V → Outcome (StackFrame V)
  unfolding Ops.set_index
  set_index f i v = do
    j ← checked_add f.frame.offset i
    s ← Ops.set_index f.stack j v
    returns (record f { stack = s })

  unfoldable pub slice : StackFrame V → Outcome (List V)
  unfolding Ops.slice_from
  slice f = Ops.slice_from f.stack f.frame.offset

  unfoldable pub slice_range : StackFrame V → ℕ → ℕ → Outcome (List V)
  slice_range f from to = do
    i ← checked_add from f.frame.offset
    j ← checked_add to f.frame.offset
    assert (leb i j)
    assert (leb j (length f.stack.values))
    returns (take (j - i) (drop i f.stack.values))

  unfoldable pub slice_to : StackFrame V → ℕ → Outcome (List V)
  unfolding Ops.slice_to
  slice_to f to = do j ← checked_add to f.frame.offset; Ops.slice_to f.stack j

  unfoldable pub slice_from : StackFrame V → ℕ → Outcome (List V)
  unfolding Ops.slice_from
  slice_from f from = do i ← checked_add from f.frame.offset; Ops.slice_from f.stack i
