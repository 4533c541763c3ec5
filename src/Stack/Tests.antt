-- ===== src/Stack/Tests.antt =====
-- Runs of vm/src/stack.rs, and its theorems at concrete stacks.
use embed_lang.Prelude.{
  ℕ, suc, ◌≡◌, refl, true, false, [], ◌∷◌, none, some, returns, panics, ◌>>=◌, length, arith,
}
use embed_lang.Stack.Data.{
  State, unknown, closure, extern, ExternState, new_extern, Frame, Stack, StackFrame, is_locked,
  locked_args, as_closure, as_extern,
}
use embed_lang.Stack.Ops
use embed_lang.Stack.Frames
use embed_lang.Stack.Frames.{entered, stack_overflow, restored, bottom}
use embed_lang.Stack.Valid.{IsValid, IsView, protected}
use embed_lang.Stack.Pops.{
  Keeps, pop_many-eq, slide-eq, remove_range-eq, slide_overwrites, pop_many-Keeps, slide-Keeps,
  remove_range-Keeps,
}
use embed_lang.Stack.Scopes.{
  add_new_frame-eq, frame_or_error, enter_scope-IsView, exit_scope-enter_scope, into_lock-protects,
  release_lock-into_lock, release-topmost,
}
use embed_lang.Stack.Views.{pop-view}

program : Unit {0}
unfolding new_extern as_closure as_extern Ops.pop Ops.pop_many Ops.clear Ops.slide Ops.remove_range
    Ops.release_lock Ops.stacktrace Ops.new Ops.last Frames.enter_scope Frames.exit_scope
    Frames.into_lock Frames.clear Frames.insert_slice Frames.excess_args Frames.slice_range
program = tt

abbrev ext : ExternState
ext = record { function = 7; call_state = embed_lang.Stack.Data.start; locked = none }

abbrev main_frame : Frame ℕ
main_frame = record { offset = 0; state = unknown; excess = false }

abbrev call_frame : Frame ℕ
call_frame = record { offset = 2; state = extern ext; excess = false }

-- Five values, the last three of which belong to an extern call.
abbrev five : Stack ℕ
five = record {
  values = 10 ∷ 11 ∷ 12 ∷ 13 ∷ 14 ∷ [];
  frames = call_frame ∷ main_frame ∷ [];
  max_stack_size = 8;
}

abbrev view : StackFrame ℕ
view = record { stack = five; frame = call_frame }

five-IsValid : IsValid five
five-IsValid = record { fits = omega arith; small = omega arith }

view-IsView : IsView view
view-IsView = record { valid = five-IsValid; synced = refl }

observed :
    (Ops.slide five 2 ≡ returns (record five { values = 10 ∷ 11 ∷ 14 ∷ [] }))
    × (Ops.pop_many five 4 ≡ panics)
    × (Ops.remove_range five 2 4 ≡ returns (record five { values = 10 ∷ 11 ∷ 14 ∷ [] }))
    × (Ops.last five ≡ returns (some 14))
    × (Frames.enter_scope view 4 unknown ≡ panics)
unfolding program
observed = (refl, refl, refl, refl, refl)

pop_many-eq_example : Ops.pop_many five 3 ≡ returns (record five { values = 10 ∷ 11 ∷ [] })
pop_many-eq_example = pop_many-eq five call_frame (main_frame ∷ []) refl five-IsValid 3

slide-eq_example : Ops.slide five 2 ≡ returns (record five { values = 10 ∷ 11 ∷ 14 ∷ [] })
slide-eq_example =
    slide-eq five call_frame (main_frame ∷ []) refl five-IsValid 2 14 refl (omega arith)

slide_overwrites_example : Ops.slide five 3 ≡ returns (record five { values = 10 ∷ 14 ∷ [] })
slide_overwrites_example =
    slide_overwrites five call_frame (main_frame ∷ []) refl five-IsValid 3 14 refl refl
      (omega arith)

remove_range-eq_example :
    Ops.remove_range five 2 4 ≡ returns (record five { values = 10 ∷ 11 ∷ 14 ∷ [] })
remove_range-eq_example =
    remove_range-eq five call_frame (main_frame ∷ []) refl five-IsValid 2 4 (omega arith)
      (omega arith)

pop_many-Keeps_example : Keeps five (record five { values = 10 ∷ 11 ∷ 12 ∷ [] })
unfolding program
pop_many-Keeps_example = pop_many-Keeps five call_frame (main_frame ∷ []) refl five-IsValid 2 _ refl

slide-Keeps_example : Keeps five (record five { values = 10 ∷ 11 ∷ 14 ∷ [] })
unfolding program
slide-Keeps_example =
    slide-Keeps five call_frame (main_frame ∷ []) refl five-IsValid 2 _ (omega arith) refl

remove_range-Keeps_example : Keeps five (record five { values = 10 ∷ 11 ∷ 14 ∷ [] })
unfolding program
remove_range-Keeps_example =
    remove_range-Keeps five call_frame (main_frame ∷ []) refl five-IsValid 2 4 _ (omega arith) refl

add_new_frame-eq_example :
    Frames.add_new_frame five 1 unknown true ≡ frame_or_error five 1 unknown true
add_new_frame-eq_example = add_new_frame-eq five 1 unknown true five-IsValid

abbrev inner : StackFrame ℕ
inner = record {
  stack = record five {
    frames = record { offset = 4; state = unknown; excess = false } ∷ call_frame ∷ main_frame ∷ [];
  };
  frame = record { offset = 4; state = unknown; excess = false };
}

enter_scope-IsView_example : IsView inner × (inner.stack.values ≡ five.values)
unfolding program
enter_scope-IsView_example =
    enter_scope-IsView view 1 unknown false inner view-IsView (omega arith) refl

exit_scope-enter_scope_example :
    Frames.exit_scope (record inner { stack = record inner.stack { values = 20 ∷ [] } })
    ≡ returns (restored (record view { stack = record five { values = 20 ∷ [] } }))
unfolding program
exit_scope-enter_scope_example =
    exit_scope-enter_scope view 1 unknown false inner (20 ∷ []) view-IsView refl refl

into_lock-protects_example :
    (s : Stack ℕ) × (Frames.into_lock view ≡ returns (s, 2))
    × IsValid s
    × (s.values ≡ five.values)
    × (protected s.frames ≡ length s.values)
    × ((count : ℕ) → Ops.pop_many s (suc count) ≡ panics)
into_lock-protects_example = into_lock-protects view ext view-IsView refl

abbrev locked_call : Frame ℕ
locked_call = record call_frame { state = extern (record ext { locked = some 3 }) }

release_lock-into_lock_example :
    Ops.release_lock (record five { frames = locked_call ∷ main_frame ∷ [] }) 2 ≡ returns five
unfolding program
release_lock-into_lock_example =
    release_lock-into_lock view ext view-IsView refl
      (record five { frames = locked_call ∷ main_frame ∷ [] }) 2 refl refl

release-topmost_example :
    Ops.release 2 (main_frame ∷ locked_call ∷ main_frame ∷ [])
    ≡ returns (main_frame ∷ call_frame ∷ main_frame ∷ [])
release-topmost_example =
    release-topmost 2 (main_frame ∷ []) locked_call (main_frame ∷ []) (refl, tt) refl

pop-view_example :
    (Frames.pop_many view 2 ≡ (Ops.pop_many five 2 >>= λ s. returns (record view { stack = s })))
    × (Frames.pop view ≡ (Ops.pop five >>= λ (s, v). returns (record view { stack = s }, v)))
pop-view_example = pop-view view view-IsView 2
