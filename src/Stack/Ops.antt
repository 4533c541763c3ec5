-- ===== src/Stack/Ops.antt =====
-- vm/src/stack.rs: the operations of `Stack`. Additions and subtractions are checked, as in a build
-- with overflow checks; a length is cut to 32 bits, as the code's cast does.
use embed_lang.Prelude.{
  ℕ, ◌-◌, ◌%◌, Bool, false, ltb, leb, ◌==◌, if◌then◌else◌, List, [], ◌∷◌, ◌++◌, reverse, map, head?,
  Option, none, some, length, get_elem?, set, take, drop, Outcome, returns, panics, ◌>>=◌, ◌>>◌,
  u32_mod, checked_add, checked_sub, assert, unwrap,
}
use embed_lang.Stack.Data.{State, unknown, closure, extern, Frame, Stack, locked_args, is_locked}

-- `VmIndex::MAX`
abbrev pub vm_index_max : ℕ
vm_index_max = 4294967295

-- A frame of a stack trace: the function's name and the line.
pub record StacktraceFrame : Type 0 where
  pub name : ℕ
  pub line : Option ℕ

module _ {V : Type 0} where
  unfoldable pub new : Stack V
  new = record { values = []; frames = []; max_stack_size = vm_index_max }

  unfoldable pub set_max_stack_size : Stack V → ℕ → Stack V
  set_max_stack_size s n = record s { max_stack_size = n }

  abbrev pub len : Stack V → ℕ
  len s = length s.values % u32_mod

  unfoldable pub assert_pop : Stack V → ℕ → Outcome (Unit {0})
  assert_pop s count = do
    frame ← unwrap (head? s.frames)
    below ← checked_add frame.offset count
    need ← checked_add below (locked_args frame.state)
    assert (leb need (len s))

  -- `values.pop().expect(…)`: the vector without its last value, and the value.
  unfoldable pub pop_last : List V → Outcome (List V × V)
  pop_last vs = do v ← unwrap (get_elem? vs (length vs - 1)); returns (take (length vs - 1) vs, v)

  unfoldable pub pop : Stack V → Outcome (Stack V × V)
  unfolding assert_pop pop_last
  pop s = do assert_pop s 1; (vs, v) ← pop_last s.values; returns (record s { values = vs }, v)

  unfoldable pub pop_many : Stack V → ℕ → Outcome (Stack V)
  unfolding assert_pop
  pop_many s count = do
    assert_pop s count
    n ← checked_sub (length s.values) count
    returns (record s { values = take n s.values })

  unfoldable pub clear : Stack V → Outcome (Stack V)
  unfolding assert_pop
  clear s = do assert_pop s (len s); returns (record s { values = [] })

  -- `self[index]`
  unfoldable pub index : Stack V → ℕ → Outcome V
  index s i = unwrap (get_elem? s.values i)

  -- `self[index] = v`
  unfoldable pub set_index : Stack V → ℕ → V → Outcome (Stack V)
  set_index s i v =
      if ltb i (length s.values) then returns (record s { values = set s.values i v }) else panics

  unfoldable pub copy_value : Stack V → ℕ → ℕ → Outcome (Stack V)
  unfolding index set_index
  copy_value s from to = do v ← index s from; set_index s to v

  unfoldable pub slide : Stack V → ℕ → Outcome (Stack V)
  unfolding copy_value pop_many
  slide s count = do
    last ← checked_sub (len s) 1
    i ← checked_sub last count
    s' ← copy_value s last i
    pop_many s' count

  unfoldable pub push : Stack V → V → Stack V
  push s v = record s { values = s.values ++ v ∷ [] }

  -- `extend`
  unfoldable pub push_all : Stack V → List V → Stack V
  push_all s vs = record s { values = s.values ++ vs }

  unfoldable pub get_variant : Stack V → ℕ → Outcome (Option V)
  get_variant s i =
      if ltb i (len s)
      then (do v ← unwrap (get_elem? s.values i); returns (some v))
      else returns none

  unfoldable pub last : Stack V → Outcome (Option V)
  unfolding get_variant
  last s = do i ← checked_sub (len s) 1; get_variant s i

  unfoldable pub remove_range : Stack V → ℕ → ℕ → Outcome (Stack V)
  unfolding assert_pop
  remove_range s from to = do
    count ← checked_sub to from
    assert_pop s count
    if leb to (length s.values)
        then returns (record s { values = take from s.values ++ drop to s.values })
        else panics

  -- `self[from..]` and `self[..to]`
  unfoldable pub slice_from : Stack V → ℕ → Outcome (List V)
  slice_from s from = if leb from (length s.values) then returns (drop from s.values) else panics

  unfoldable pub slice_to : Stack V → ℕ → Outcome (List V)
  slice_to s to = if leb to (length s.values) then returns (take to s.values) else panics

  abbrev pub is_locked_frame : Frame V → Bool
  is_locked_frame f = elim f.state [
    | unknown ↦ false
    | closure c ↦ false
    | extern ext ↦ is_locked ext
  ]

  abbrev pub unlocked : State V → State V
  unlocked unknown = unknown
  unlocked (closure c) = closure c
  unlocked (extern ext) = extern (record ext { locked = none })

  -- The search of `release_lock`, from the last frame: it panics if no frame is locked, or if the
  -- first locked one does not begin at the lock's offset.
  unfoldable pub release : ℕ → List (Frame V) → Outcome (List (Frame V))
  release lock [] = panics
  release lock (f ∷ fs) =
      let rest = release lock fs in
      if is_locked_frame f
      then (if f.offset == lock
          then returns (record f { state = unlocked f.state } ∷ fs)
          else panics)
      else (do fs' ← rest; returns (f ∷ fs'))

  unfoldable pub release_lock : Stack V → ℕ → Outcome (Stack V)
  unfolding release
  release_lock s lock = do fs ← release lock s.frames; returns (record s { frames = fs })

  -- One frame of a stack trace: `none` for an unknown state.
  trace_frame : State V → Option StacktraceFrame
  trace_frame unknown = none
  trace_frame (closure c) =
      some (record { name = c.closure.name; line = c.closure.line c.instruction_index })
  trace_frame (extern ext) = some (record { name = ext.function; line = none })

  unfoldable pub stacktrace : Stack V → ℕ → Outcome (List (Option StacktraceFrame))
  unfolding trace_frame
  stacktrace s level =
      if leb level (length s.frames)
      then returns (map (λ f. trace_frame f.state) (drop level (reverse s.frames)))
      else panics
